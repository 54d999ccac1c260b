-- ===== src/Chat/Deserializer/Origin.antt =====
-- Where a contextual message comes from: `comm:` or `dm:` after either prefix.
use ka_chat_indexer.Prelude.{
  ◌≡◌, ap, sym, ◌∙◌, Bool, true, false, [], ◌∷◌, ◌++◌, Option, none, some, Bytes, inl, inr, ◌⊎◌,
  List, Option-cases, arith, nat_eq, any,
}
use mathlib.Core.Path.{subst}
use ka_chat_indexer.Prelude.Text.{codes, strip_prefix, starts_with, split_once, split}
use ka_chat_indexer.Prelude.Prefixes.{strip_prefix-append}
use ka_chat_indexer.Chat.Operation.{
  SealedOperation, contextual_message, sealed_handshake, payment, SealedContextualMessageV1,
}
use ka_chat_indexer.Chat.Deserializer.{
  arm, parse_tip, parse_v1, parse_other_v1, parse_body, parse_sealed_operation, without_protocol,
  tip_of_fields, control_of_fields, group_of_fields, protocol_prefix, legacy_protocol_prefix,
  version_1_part, parse_dm, parse_tagged, is_lowercase_hex, parse_comm, parse_self_stash,
  parse_gcomm, parse_gctl,
}
use ka_chat_indexer.Chat.Deserializer.Dm.{has_colon}

split_once-found :
    (s before after : Bytes)
    → split_once b':' s ≡ some (before, after)
    → (s ≡ before ++ b':' ∷ after) × (has_colon before ≡ false)
unfolding split_once has_colon any
split_once-found [] before after h = cc
split_once-found (c ∷ s) before after h = elim (Option-cases (split_once b':' s)) [
  | inl e ↦ (ground arith, ground arith)
  | inr ((b, a), e) ↦ let (text, clear) = split_once-found s b a e in (ground arith, ground arith)
]

-- The text of a message after the version.
abbrev pub message_text : SealedContextualMessageV1 → Bytes
message_text m = elim m.inbox_tag [
  | none ↦ codes "comm:" ++ (m.alias ++ b':' ∷ m.sealed_hex)
  | some tag ↦ codes "dm:" ++ (tag ++ b':' ∷ (m.alias ++ b':' ∷ m.sealed_hex))
]

abbrev pub IsTag : Option Bytes → Type 0
IsTag none = Unit
IsTag (some tag) = is_lowercase_hex tag 16 ≡ true

abbrev pub Origin : SealedContextualMessageV1 → Bytes → Type 0
Origin m s = (s ≡ message_text m) × (has_colon m.alias ≡ false) × IsTag m.inbox_tag

module _ (m : SealedContextualMessageV1) where
  parse_tip-other : (s : Bytes) → parse_tip s ≡ some (contextual_message m) → ⊥
  unfolding parse_tip tip_of_fields
  parse_tip-other s h = fields (split b':' s) h
    where
      fields : (l : List Bytes) → tip_of_fields l ≡ some (contextual_message m) → ⊥
      fields [] e = cc
      fields (a ∷ []) e = cc
      fields (a ∷ b ∷ []) e = cc
      fields (a ∷ b ∷ c ∷ []) e = cc
      fields (a ∷ b ∷ c ∷ d ∷ []) e = cc
      fields (a ∷ b ∷ c ∷ d ∷ f ∷ []) e = ground arith
      fields (a ∷ b ∷ c ∷ d ∷ f ∷ g ∷ l) e = cc

  parse_gcomm-other : (s : Bytes) → parse_gcomm s ≡ some (contextual_message m) → ⊥
  unfolding parse_gcomm group_of_fields
  parse_gcomm-other s h = fields (split b':' s) h
    where
      fields : (l : List Bytes) → group_of_fields s l ≡ some (contextual_message m) → ⊥
      fields [] e = cc
      fields (a ∷ []) e = cc
      fields (a ∷ b ∷ []) e = cc
      fields (a ∷ b ∷ c ∷ []) e = cc
      fields (a ∷ b ∷ c ∷ d ∷ []) e = cc
      fields (a ∷ b ∷ c ∷ d ∷ f ∷ []) e = cc
      fields (a ∷ b ∷ c ∷ d ∷ f ∷ g ∷ []) e = cc
      fields (a ∷ b ∷ c ∷ d ∷ f ∷ g ∷ i ∷ []) e = ground arith
      fields (a ∷ b ∷ c ∷ d ∷ f ∷ g ∷ i ∷ j ∷ l) e = cc

  parse_gctl-other : (s : Bytes) → parse_gctl s ≡ some (contextual_message m) → ⊥
  unfolding parse_gctl control_of_fields
  parse_gctl-other s h = fields (split b':' s) h
    where
      fields : (l : List Bytes) → control_of_fields l ≡ some (contextual_message m) → ⊥
      fields [] e = cc
      fields (a ∷ []) e = ground arith
      fields (a ∷ b ∷ []) e = ground arith
      fields (a ∷ b ∷ c ∷ l) e = cc

  parse_self_stash-other : (s : Bytes) → parse_self_stash s ≡ some (contextual_message m) → ⊥
  unfolding parse_self_stash
  parse_self_stash-other s h = elim (Option-cases (split_once b':' s)) [
    | inl e ↦ ground arith
    | inr ((key, sealed), e) ↦ ground arith
  ]

  parse_comm-Origin :
      (s : Bytes) → parse_comm s ≡ some (contextual_message m) → Origin m (codes "comm:" ++ s)
  unfolding parse_comm
  parse_comm-Origin s h = elim (Option-cases (split_once b':' s)) [
    | inl e ↦ absurd (ground arith)
    | inr ((alias, sealed), e) ↦
        let (text, clear) = split_once-found s alias sealed e in
        let same : record { alias = alias; sealed_hex = sealed; inbox_tag = none } ≡ m =
          ground arith in
        subst (λ k. Origin k (codes "comm:" ++ s)) same
          (ap (λ t. codes "comm:" ++ t) text, clear, tt)
  ]

  parse_tagged-Origin :
      (tag s : Bytes)
      → is_lowercase_hex tag 16 ≡ true
      → parse_tagged tag s ≡ some (contextual_message m)
      → Origin m (codes "dm:" ++ (tag ++ b':' ∷ s))
  unfolding parse_tagged
  parse_tagged-Origin tag s hex h = elim (Option-cases (split_once b':' s)) [
    | inl e ↦ absurd (ground arith)
    | inr ((alias, sealed), e) ↦
        let (text, clear) = split_once-found s alias sealed e in
        let same : record { alias = alias; sealed_hex = sealed; inbox_tag = some tag } ≡ m =
          ground arith in
        subst (λ k. Origin k (codes "dm:" ++ (tag ++ b':' ∷ s))) same
          (ap (λ t. codes "dm:" ++ (tag ++ b':' ∷ t)) text, clear, hex)
  ]

  parse_dm-Origin :
      (s : Bytes) → parse_dm s ≡ some (contextual_message m) → Origin m (codes "dm:" ++ s)
  unfolding parse_dm
  parse_dm-Origin s h = elim (Option-cases (split_once b':' s)) [
    | inl e ↦ absurd (ground arith)
    | inr ((tag, rest), e) ↦
        subst (λ t. Origin m (codes "dm:" ++ t)) (sym (split_once-found s tag rest e).0)
          (parse_tagged-Origin tag rest (ground arith) (ground arith))
  ]

  handshake-other : (x : Bytes) → some (sealed_handshake x) ≡ some (contextual_message m) → ⊥
  handshake-other x h = cc

  payment-other : (x : Bytes) → some (payment x) ≡ some (contextual_message m) → ⊥
  payment-other x h = cc

  none-other : none ≡ some (contextual_message m) → ⊥
  none-other h = cc

  -- An arm, where its own part and the arms after it have an origin.
  arm-Origin :
      (p s : Bytes) (f : Bytes → Option SealedOperation) (others : Option SealedOperation)
      → ((rest : Bytes) → f rest ≡ some (contextual_message m) → Origin m (p ++ rest))
      → (others ≡ some (contextual_message m) → Origin m s)
      → arm p s f others ≡ some (contextual_message m)
      → Origin m s
  unfolding arm
  arm-Origin p s f others here later h = elim (Option-cases (strip_prefix p s)) [
    | inl e ↦ later (ground arith)
    | inr (rest, e) ↦
        subst (Origin m) (sym (strip_prefix-append p s rest e)) (here rest (ground arith))
  ]

  parse_other_v1-Origin : (s : Bytes) → parse_other_v1 s ≡ some (contextual_message m) → Origin m s
  unfolding parse_other_v1
  parse_other_v1-Origin s =
      let gctl = arm (codes "gctl:") s parse_gctl none in
      let gcomm = arm (codes "gcomm:") s parse_gcomm gctl in
      let stash = arm (codes "self_stash:") s parse_self_stash gcomm in
      let dm = arm (codes "dm:") s parse_dm stash in
      let comm = arm (codes "comm:") s parse_comm dm in
      arm-Origin (codes "handshake:") s (λ x. some (sealed_handshake x)) comm
        (λ r e. absurd (handshake-other r e))
        (arm-Origin (codes "comm:") s parse_comm dm parse_comm-Origin (
          arm-Origin (codes "dm:") s parse_dm stash parse_dm-Origin (
            arm-Origin (codes "self_stash:") s parse_self_stash gcomm
              (λ r e. absurd (parse_self_stash-other r e))
              (arm-Origin (codes "gcomm:") s parse_gcomm gctl
                (λ r e. absurd (parse_gcomm-other r e))
                (arm-Origin (codes "gctl:") s parse_gctl none (λ r e. absurd (parse_gctl-other r e))
                  (λ e. absurd (none-other e)))))))

  pay-Origin :
      (s : Bytes) (others : Option SealedOperation)
      → (others ≡ some (contextual_message m) → Origin m s)
      → arm
          (codes "pay:")
          s
          (λ x. some (payment x))
          (arm (codes "payment:") s (λ x. some (payment x)) others)
        ≡ some (contextual_message m)
      → Origin m s
  pay-Origin s others later =
      arm-Origin (codes "pay:") s (λ x. some (payment x))
        (arm (codes "payment:") s (λ x. some (payment x)) others)
        (λ r e. absurd (payment-other r e))
        (arm-Origin (codes "payment:") s (λ x. some (payment x)) others
          (λ r e. absurd (payment-other r e)) later)

  parse_v1-Origin : (b : Bool) (s : Bytes) → parse_v1 b s ≡ some (contextual_message m) → Origin m s
  unfolding parse_v1
  parse_v1-Origin false s = pay-Origin s (parse_other_v1 s) (parse_other_v1-Origin s)
  parse_v1-Origin true s = pay-Origin s (arm (codes "tip:") s parse_tip (parse_other_v1 s)) (
      arm-Origin (codes "tip:") s parse_tip (parse_other_v1 s) (λ r e. absurd (parse_tip-other r e))
        (parse_other_v1-Origin s))

  parse_body-Origin :
      (b : Bool) (s : Bytes)
      → parse_body b s ≡ some (contextual_message m)
      → (text : Bytes) × (s ≡ version_1_part ++ text) × Origin m text
  unfolding parse_body
  parse_body-Origin b [] h = absurd cc
  parse_body-Origin b (c ∷ s) h = elim (Option-cases (strip_prefix version_1_part (c ∷ s))) [
    | inl e ↦ absurd (ground arith)
    | inr (rest, e) ↦ (
      rest,
      strip_prefix-append version_1_part (c ∷ s) rest e,
      parse_v1-Origin b rest (ground arith),
    )
  ]

  -- A payload that is read as a contextual message is one of the two prefixes, the version, and the
  -- text of the message: `comm:` or, with an inbox tag of 32 lowercase hex digits, `dm:` and the
  -- tag; then the alias, which has no colon, a colon, and the sealed part.
  pub parse_sealed_operation-message_text :
      (payload : Bytes)
      → parse_sealed_operation payload ≡ some (contextual_message m)
      → ((payload ≡ protocol_prefix ++ (version_1_part ++ message_text m))
          ⊎ (payload ≡ legacy_protocol_prefix ++ (version_1_part ++ message_text m)))
        × (has_colon m.alias ≡ false)
        × IsTag m.inbox_tag
  unfolding parse_sealed_operation without_protocol
  parse_sealed_operation-message_text payload h =
      elim (Option-cases (strip_prefix protocol_prefix payload)) [
        | inr (body, e) ↦
            let (text, split_text, (same, clear, tag)) =
              parse_body-Origin (starts_with protocol_prefix payload) body (ground arith) in
            (
              inl (
                  strip_prefix-append protocol_prefix payload body e
                  ∙ ap (λ b. protocol_prefix ++ b)
                      (split_text ∙ ap (λ t. version_1_part ++ t) same)),
              clear,
              tag,
            )
        | inl e ↦ elim (Option-cases (strip_prefix legacy_protocol_prefix payload)) [
          | inl e' ↦ absurd (ground arith)
          | inr (body, e') ↦
              let (text, split_text, (same, clear, tag)) =
                parse_body-Origin (starts_with protocol_prefix payload) body (ground arith) in
              (
                inr (
                    strip_prefix-append legacy_protocol_prefix payload body e'
                    ∙ ap (λ b. legacy_protocol_prefix ++ b)
                        (split_text ∙ ap (λ t. version_1_part ++ t) same)),
                clear,
                tag,
              )
        ]
      ]
