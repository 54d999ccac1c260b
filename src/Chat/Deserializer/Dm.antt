-- ===== src/Chat/Deserializer/Dm.antt =====
-- Messages without a handshake, `dm:<tag>:<alias>:<sealed>`.
use ka_chat_indexer.Prelude.{
  ◌≡◌, refl, Bool, true, false, [], ◌∷◌, ◌++◌, some, Bytes, all, arith, ◌==◌, nat_eq, any,
}
use ka_chat_indexer.Prelude.Text.{codes, strip_prefix, starts_with, split_once}
use ka_chat_indexer.Chat.Operation.{contextual_message, is_ascii_digit, is_lowercase_hex_digit}
use ka_chat_indexer.Chat.Deserializer.{
  arm, parse_v1, parse_other_v1, parse_body, parse_sealed_operation, without_protocol, parse_dm,
  parse_tagged, is_lowercase_hex,
}

-- Whether a byte is a colon.
unfoldable pub has_colon : Bytes → Bool
unfolding any
has_colon s = any (λ c. c == b':') s

pub split_once-append :
    (xs ys : Bytes) → has_colon xs ≡ false → split_once b':' (xs ++ b':' ∷ ys) ≡ some (xs, ys)
unfolding has_colon any split_once
split_once-append [] ys h = ground arith
split_once-append (x ∷ xs) ys h = ground (arith, split_once-append xs ys)

lowercase_hex-colon : (s : Bytes) → all is_lowercase_hex_digit s ≡ true → has_colon s ≡ false
unfolding all any has_colon is_lowercase_hex_digit is_ascii_digit
lowercase_hex-colon [] h = refl
lowercase_hex-colon (c ∷ s) h = ground (arith, lowercase_hex-colon s)

abbrev pub dm_payload : Bytes → Bytes → Bytes → Bytes
dm_payload tag alias sealed = codes "kchat:1:dm:" ++ (tag ++ b':' ∷ (alias ++ b':' ∷ sealed))

parse_dm-fields :
    (tag alias sealed : Bytes)
    → is_lowercase_hex tag 16 ≡ true
    → has_colon alias ≡ false
    → parse_dm (tag ++ b':' ∷ (alias ++ b':' ∷ sealed))
      ≡ some
          (contextual_message (record { alias = alias; sealed_hex = sealed; inbox_tag = some tag }))
unfolding parse_dm parse_tagged is_lowercase_hex
parse_dm-fields tag alias sealed h a = ground (
  arith,
  split_once-append tag (alias ++ b':' ∷ sealed) (lowercase_hex-colon tag (ground arith)),
  split_once-append alias sealed a,
)

-- A payload with a tag of 32 lowercase hex digits and an alias without a colon is the message
-- with that tag, alias and sealed part.
pub parse_sealed_operation-dm_payload :
    (tag alias sealed : Bytes)
    → is_lowercase_hex tag 16 ≡ true
    → has_colon alias ≡ false
    → parse_sealed_operation (dm_payload tag alias sealed)
      ≡ some
          (contextual_message (record { alias = alias; sealed_hex = sealed; inbox_tag = some tag }))
unfolding parse_sealed_operation without_protocol starts_with strip_prefix parse_body parse_v1
    parse_other_v1 arm
parse_sealed_operation-dm_payload tag alias sealed h a = parse_dm-fields tag alias sealed h a
