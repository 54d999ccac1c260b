-- ===== src/Chat/Deserializer/ReadBack.antt =====
-- Contextual and group messages, written and parsed.
use ka_chat_indexer.Prelude.{
  ◌≡◌, refl, true, false, [], ◌∷◌, ◌++◌, Option, none, some, Bytes, List, arith, nat_eq, bytes_eq,
  any, all, All, ap, ◌∙◌, ℕ,
}
use ka_chat_indexer.Prelude.Text.{codes, strip_prefix, starts_with, split}
use ka_chat_indexer.Chat.Operation.{
  contextual_message, group_message, SealedContextualMessageV1, SealedGroupMessageV1,
  is_ascii_digit, is_lowercase_hex_digit,
}
use ka_chat_indexer.Chat.Deserializer.{
  arm, parse_v1, parse_other_v1, parse_body, parse_sealed_operation, without_protocol, parse_comm,
  protocol_prefix, version_1_part, parse_gcomm, group_of_fields, is_fixed_hex, is_nonempty_hex,
  is_epoch, is_hex_digit,
}
use ka_chat_indexer.Chat.Deserializer.Dm.{
  has_colon, split_once-append, parse_sealed_operation-dm_payload,
}
use ka_chat_indexer.Chat.Deserializer.Origin.{message_text, IsTag}

parse_comm-fields :
    (alias sealed : Bytes)
    → has_colon alias ≡ false
    → parse_comm (alias ++ b':' ∷ sealed)
      ≡ some (contextual_message (record { alias = alias; sealed_hex = sealed; inbox_tag = none }))
unfolding parse_comm
parse_comm-fields alias sealed clear = ground (arith, split_once-append alias sealed clear)

comm_text :
    (alias sealed : Bytes)
    → has_colon alias ≡ false
    → parse_sealed_operation (codes "kchat:1:comm:" ++ (alias ++ b':' ∷ sealed))
      ≡ some (contextual_message (record { alias = alias; sealed_hex = sealed; inbox_tag = none }))
unfolding parse_sealed_operation without_protocol starts_with strip_prefix parse_body parse_v1
    parse_other_v1 arm
comm_text alias sealed clear = parse_comm-fields alias sealed clear

fields_text :
    (alias sealed : Bytes) (tag : Option Bytes)
    → has_colon alias ≡ false
    → IsTag tag
    → let m : SealedContextualMessageV1 = record {
      alias = alias;
      sealed_hex = sealed;
      inbox_tag = tag;
    } in
      parse_sealed_operation (protocol_prefix ++ (version_1_part ++ message_text m))
      ≡ some (contextual_message m)
fields_text alias sealed none clear tag = comm_text alias sealed clear
fields_text alias sealed (some t) clear tag =
    parse_sealed_operation-dm_payload t alias sealed tag clear

-- A contextual message whose alias has no colon, and whose inbox tag, if any, is 32 lowercase hex
-- digits, is read back from its text after the canonical prefix.
pub parse_sealed_operation-contextual_message :
    (m : SealedContextualMessageV1)
    → has_colon m.alias ≡ false
    → IsTag m.inbox_tag
    → parse_sealed_operation (protocol_prefix ++ (version_1_part ++ message_text m))
      ≡ some (contextual_message m)
parse_sealed_operation-contextual_message m clear tag =
    fields_text m.alias m.sealed_hex m.inbox_tag clear tag

-- The fields with a colon between each two.
unfoldable pub join : List Bytes → Bytes
join [] = []
join (f ∷ []) = f
join (f ∷ g ∷ fields) = f ++ b':' ∷ join (g ∷ fields)

split-last : (f : Bytes) → has_colon f ≡ false → split b':' f ≡ f ∷ []
unfolding split has_colon any
split-last [] h = refl
split-last (c ∷ f) h = ground (arith, split-last f)

split-first : (f s : Bytes) → has_colon f ≡ false → split b':' (f ++ b':' ∷ s) ≡ f ∷ split b':' s
unfolding split has_colon any
split-first [] s h = ground arith
split-first (c ∷ f) s h = ground (arith, split-first f s)

split-join :
    (f : Bytes) (fields : List Bytes)
    → All (λ g. has_colon g ≡ false) (f ∷ fields)
    → split b':' (join (f ∷ fields)) ≡ f ∷ fields
unfolding join
split-join f [] h = split-last f h.0
split-join f (g ∷ fields) h =
    split-first f (join (g ∷ fields)) h.0 ∙ ap (λ l. f ∷ l) (split-join g fields h.1)

hex-colon : (s : Bytes) → all is_hex_digit s ≡ true → has_colon s ≡ false
unfolding all any has_colon is_hex_digit is_lowercase_hex_digit is_ascii_digit
hex-colon [] h = refl
hex-colon (c ∷ s) h = ground (arith, hex-colon s)

digits-colon : (s : Bytes) → all is_ascii_digit s ≡ true → has_colon s ≡ false
unfolding all any has_colon is_ascii_digit
digits-colon [] h = refl
digits-colon (c ∷ s) h = ground (arith, digits-colon s)

fixed_hex-colon : (s : Bytes) (n : ℕ) → is_fixed_hex s n ≡ true → has_colon s ≡ false
unfolding is_fixed_hex
fixed_hex-colon s n h = hex-colon s (ground arith)

nonempty_hex-colon : (s : Bytes) → is_nonempty_hex s ≡ true → has_colon s ≡ false
unfolding is_nonempty_hex
nonempty_hex-colon s h = hex-colon s (ground arith)

epoch-colon : (s : Bytes) → is_epoch s ≡ true → has_colon s ≡ false
unfolding is_epoch
epoch-colon s h = digits-colon s (ground arith)

abbrev pub group_fields : SealedGroupMessageV1 → List Bytes
group_fields g =
    g.blinded_group_id ∷ g.epoch ∷ g.sender_id ∷ g.sender_pub ∷ g.msg_id ∷ g.ciphertext
    ∷ g.signature ∷ []

-- Fields of the protocol's widths, an epoch that is a u64, and the span that they stand in.
pub record IsGroupMessage (g : SealedGroupMessageV1) : Type 0 where
  pub blinded_group_id : is_fixed_hex g.blinded_group_id 32 ≡ true
  pub epoch : is_epoch g.epoch ≡ true
  pub sender_id : is_fixed_hex g.sender_id 32 ≡ true
  pub sender_pub : is_fixed_hex g.sender_pub 32 ≡ true
  pub msg_id : is_fixed_hex g.msg_id 24 ≡ true
  pub ciphertext : is_nonempty_hex g.ciphertext ≡ true
  pub signature : is_fixed_hex g.signature 64 ≡ true
  pub sealed_hex : g.sealed_hex ≡ join (group_fields g)

no_colons :
    (g : SealedGroupMessageV1) → IsGroupMessage g → All (λ f. has_colon f ≡ false) (group_fields g)
no_colons g v = (
  fixed_hex-colon g.blinded_group_id 32 v.blinded_group_id,
  (
    epoch-colon g.epoch v.epoch,
    (
      fixed_hex-colon g.sender_id 32 v.sender_id,
      (
        fixed_hex-colon g.sender_pub 32 v.sender_pub,
        (
          fixed_hex-colon g.msg_id 24 v.msg_id,
          (
            nonempty_hex-colon g.ciphertext v.ciphertext,
            (fixed_hex-colon g.signature 64 v.signature, tt),
          ),
        ),
      ),
    ),
  ),
)

group_of_fields-group_fields :
    (g : SealedGroupMessageV1)
    → IsGroupMessage g
    → group_of_fields g.sealed_hex (group_fields g) ≡ some (group_message g)
unfolding group_of_fields
group_of_fields-group_fields g v = ground (
  arith, v.blinded_group_id, v.epoch, v.sender_id, v.sender_pub, v.msg_id, v.ciphertext,
  v.signature,
)

parse_gcomm-group_fields :
    (g : SealedGroupMessageV1)
    → IsGroupMessage g
    → parse_gcomm g.sealed_hex ≡ some (group_message g)
unfolding parse_gcomm
parse_gcomm-group_fields g v =
    ap (group_of_fields g.sealed_hex)
      (ap (split b':') v.sealed_hex ∙ split-join g.blinded_group_id _ (no_colons g v))
    ∙ group_of_fields-group_fields g v

-- A group message whose fields have the protocol's widths, and whose span is the fields with
-- colons between them, is read back from the span after the canonical prefix.
pub parse_sealed_operation-group_message :
    (g : SealedGroupMessageV1)
    → IsGroupMessage g
    → parse_sealed_operation (codes "kchat:1:gcomm:" ++ g.sealed_hex) ≡ some (group_message g)
unfolding parse_sealed_operation without_protocol starts_with strip_prefix parse_body parse_v1
    parse_other_v1 arm
parse_sealed_operation-group_message g v = parse_gcomm-group_fields g v
