-- ===== src/Chat/Deserializer/Legacy.antt =====
-- The two protocol prefixes.
use ka_chat_indexer.Prelude.{
  ◌≡◌, refl, true, false, [], ◌∷◌, ◌++◌, none, some, Bytes, inl, inr, Option-cases, arith, nat_eq,
}
use ka_chat_indexer.Prelude.Text.{codes, strip_prefix, starts_with}
use ka_chat_indexer.Chat.Deserializer.{
  arm, parse_v1, parse_body, parse_sealed_operation, without_protocol, protocol_prefix,
  legacy_protocol_prefix, version_1_part,
}

strip_prefix-starts_with : (p s : Bytes) → starts_with p s ≡ false → strip_prefix p s ≡ none
unfolding starts_with strip_prefix
strip_prefix-starts_with [] s h = cc
strip_prefix-starts_with (c ∷ p) [] h = refl
strip_prefix-starts_with (c ∷ p) (d ∷ s) h = ground (arith, strip_prefix-starts_with p s)

after_version :
    (body rest : Bytes)
    → strip_prefix version_1_part body ≡ some rest
    → starts_with (codes "1:tip:") body ≡ false
    → starts_with (codes "tip:") rest ≡ false
unfolding starts_with strip_prefix
after_version [] rest e h = cc
after_version (a ∷ []) rest e h = ground arith
after_version (a ∷ b ∷ s) rest e h = ground arith

parse_v1-legacy :
    (s : Bytes) → starts_with (codes "tip:") s ≡ false → parse_v1 false s ≡ parse_v1 true s
unfolding parse_v1 arm
parse_v1-legacy s h = ground (arith, strip_prefix-starts_with (codes "tip:") s h)

parse_body-legacy :
    (body : Bytes)
    → starts_with (codes "1:tip:") body ≡ false
    → parse_body false body ≡ parse_body true body
unfolding parse_body
parse_body-legacy [] h = refl
parse_body-legacy (c ∷ s) h = elim (Option-cases (strip_prefix version_1_part (c ∷ s))) [
  | inl e ↦ ground arith
  | inr (rest, e) ↦ ground (arith, parse_v1-legacy rest (after_version (c ∷ s) rest e h))
]

-- Except for tips, what follows the legacy prefix is read as after the canonical one.
pub parse_sealed_operation-legacy :
    (body : Bytes)
    → starts_with (codes "1:tip:") body ≡ false
    → parse_sealed_operation (legacy_protocol_prefix ++ body)
      ≡ parse_sealed_operation (protocol_prefix ++ body)
unfolding parse_sealed_operation without_protocol starts_with strip_prefix
parse_sealed_operation-legacy body h = parse_body-legacy body h
