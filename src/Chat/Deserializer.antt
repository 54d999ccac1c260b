-- ===== src/Chat/Deserializer.antt =====
-- kasia-indexer/protocol/src/operation/deserializer.rs: `parse_sealed_operation`.
pub mod Legacy
pub mod Dm
pub mod Origin
pub mod ReadBack
use ka_chat_indexer.Prelude.{
  ℕ, ◌*◌, ◌%◌, Bool, ◌&&◌, ◌||◌, not, List, [], ◌∷◌, Option, none, some, Bytes, length, all, leb,
  ◌==◌, nat_eq, bytes_eq, if◌then◌else◌, ◌>>=◌,
}
use ka_chat_indexer.Prelude.Text.{codes, strip_prefix, starts_with, split, split_once, parse_u64}
use ka_chat_indexer.Chat.Operation.{
  SealedOperation, sealed_message_or_handshake, contextual_message, payment, self_stash,
  sealed_handshake, group_message, group_control, is_ascii_digit, is_lowercase_hex_digit,
}

abbrev pub protocol_prefix : Bytes
protocol_prefix = codes "kchat:"

abbrev pub legacy_protocol_prefix : Bytes
legacy_protocol_prefix = codes "ciph_msg:"

abbrev pub version_1_part : Bytes
version_1_part = codes "1:"

-- `u8::is_ascii_hexdigit`.
unfoldable pub is_hex_digit : ℕ → Bool
unfolding is_lowercase_hex_digit
is_hex_digit c = is_lowercase_hex_digit c || (leb b'A' c && leb c b'F')

unfoldable pub is_fixed_hex : Bytes → ℕ → Bool
unfolding all is_hex_digit
is_fixed_hex value byte_len = length value == byte_len * 2 && all is_hex_digit value

unfoldable pub is_lowercase_hex : Bytes → ℕ → Bool
unfolding all is_lowercase_hex_digit
is_lowercase_hex value byte_len = length value == byte_len * 2 && all is_lowercase_hex_digit value

unfoldable pub is_nonempty_lowercase_hex : Bytes → Bool
unfolding all is_lowercase_hex_digit
is_nonempty_lowercase_hex value =
    not (value == []) && length value % 2 == 0 && all is_lowercase_hex_digit value

unfoldable pub is_nonempty_hex : Bytes → Bool
unfolding all is_hex_digit
is_nonempty_hex value = not (value == []) && length value % 2 == 0 && all is_hex_digit value

-- `tip:`: the fields of the part after it.
unfoldable pub tip_of_fields : List Bytes → Option SealedOperation
unfolding is_fixed_hex is_nonempty_lowercase_hex
tip_of_fields (pubkey ∷ signature ∷ post_id ∷ author_pubkey ∷ sealed_hex ∷ []) =
    if (pubkey == [])
      || (signature == [])
      || not (is_fixed_hex post_id 32)
      || not (is_fixed_hex author_pubkey 33 || is_fixed_hex author_pubkey 32)
      || not (is_nonempty_lowercase_hex sealed_hex)
    then none
    else some (payment sealed_hex)
tip_of_fields _ = none

unfoldable pub parse_tip : Bytes → Option SealedOperation
unfolding split tip_of_fields
parse_tip remaining = tip_of_fields (split b':' remaining)

unfoldable pub parse_comm : Bytes → Option SealedOperation
unfolding split_once
parse_comm remaining = do
  (alias, sealed_hex) ← split_once b':' remaining
  some (contextual_message (record { alias = alias; sealed_hex = sealed_hex; inbox_tag = none }))

-- After the inbox tag.
unfoldable pub parse_tagged : Bytes → Bytes → Option SealedOperation
unfolding split_once
parse_tagged inbox_tag rest = do
  (alias, sealed_hex) ← split_once b':' rest
  some (
      contextual_message
        (record { alias = alias; sealed_hex = sealed_hex; inbox_tag = some inbox_tag }))

unfoldable pub parse_dm : Bytes → Option SealedOperation
unfolding split_once is_lowercase_hex parse_tagged
parse_dm remaining = do
  (inbox_tag, rest) ← split_once b':' remaining
  if is_lowercase_hex inbox_tag 16 then parse_tagged inbox_tag rest else none

unfoldable pub parse_self_stash : Bytes → Option SealedOperation
unfolding split_once
parse_self_stash remaining = elim (split_once b':' remaining) [
  | some (key, sealed_data) ↦
      some (self_stash (record { key = some key; sealed_hex = sealed_data }))
  | none ↦ some (self_stash (record { key = none; sealed_hex = remaining }))
]

unfoldable pub is_epoch : Bytes → Bool
unfolding all is_ascii_digit parse_u64
is_epoch epoch =
    not (epoch == [])
    && all is_ascii_digit epoch
    && elim (parse_u64 epoch) [ none ↦ Bool.false | some _ ↦ Bool.true ]

unfoldable pub group_of_fields : Bytes → List Bytes → Option SealedOperation
unfolding is_fixed_hex is_nonempty_hex is_epoch
group_of_fields full
      (group_id ∷ epoch ∷ sender_id ∷ sender_pub ∷ msg_id ∷ ciphertext ∷ signature ∷ []) =
    if not (is_fixed_hex group_id 32)
      || not (is_epoch epoch)
      || not (is_fixed_hex sender_id 32)
      || not (is_fixed_hex sender_pub 32)
      || not (is_fixed_hex msg_id 24)
      || not (is_nonempty_hex ciphertext)
      || not (is_fixed_hex signature 64)
    then none
    else some (
        group_message (record {
          blinded_group_id = group_id;
          epoch = epoch;
          sender_id = sender_id;
          sender_pub = sender_pub;
          msg_id = msg_id;
          ciphertext = ciphertext;
          signature = signature;
          sealed_hex = full;
        }))
group_of_fields full _ = none

unfoldable pub parse_gcomm : Bytes → Option SealedOperation
unfolding split group_of_fields
parse_gcomm remaining = group_of_fields remaining (split b':' remaining)

unfoldable pub control_of_fields : List Bytes → Option SealedOperation
unfolding is_fixed_hex is_nonempty_hex
control_of_fields (encrypted_payload ∷ []) =
    if is_nonempty_hex encrypted_payload
    then some
        (group_control (record { recipient_pubkey = none; encrypted_payload = encrypted_payload }))
    else none
control_of_fields (recipient_pubkey ∷ encrypted_payload ∷ []) =
    if is_fixed_hex recipient_pubkey 32 && is_nonempty_hex encrypted_payload
    then some (
        group_control (record {
          recipient_pubkey = some recipient_pubkey;
          encrypted_payload = encrypted_payload;
        }))
    else none
control_of_fields _ = none

unfoldable pub parse_gctl : Bytes → Option SealedOperation
unfolding split control_of_fields
parse_gctl remaining = control_of_fields (split b':' remaining)

-- An arm of the match: its prefix, what it does with the rest, and the arms after it.
unfoldable pub arm :
    Bytes
    → Bytes
    → (Bytes → Option SealedOperation)
    → Option SealedOperation
    → Option SealedOperation
unfolding strip_prefix
arm prefix s parse others = elim (strip_prefix prefix s) [ none ↦ others | some rest ↦ parse rest ]

-- The arms after the tip's; the last one, for any other operation, only logs.
unfoldable pub parse_other_v1 : Bytes → Option SealedOperation
unfolding arm parse_comm parse_dm parse_self_stash parse_gcomm parse_gctl
parse_other_v1 s =
    arm (codes "handshake:") s (λ x. some (sealed_handshake x))
      (arm (codes "comm:") s parse_comm (
        arm (codes "dm:") s parse_dm (
          arm (codes "self_stash:") s parse_self_stash
            (arm (codes "gcomm:") s parse_gcomm (arm (codes "gctl:") s parse_gctl none)))))

unfoldable pub parse_v1 : Bool → Bytes → Option SealedOperation
unfolding arm parse_tip parse_other_v1
parse_v1 is_kchat s =
    arm (codes "pay:") s (λ x. some (payment x))
      (arm (codes "payment:") s (λ x. some (payment x))
        (if is_kchat then arm (codes "tip:") s parse_tip (parse_other_v1 s) else parse_other_v1 s))

unfoldable pub without_protocol : Bytes → Option Bytes
unfolding strip_prefix
without_protocol payload = elim (strip_prefix protocol_prefix payload) [
  | none ↦ strip_prefix legacy_protocol_prefix payload
  | some rest ↦ some rest
]

unfoldable pub parse_body : Bool → Bytes → Option SealedOperation
unfolding strip_prefix parse_v1
parse_body is_kchat [] = none
parse_body is_kchat (c ∷ s) = elim (strip_prefix version_1_part (c ∷ s)) [
  | none ↦ some (sealed_message_or_handshake (c ∷ s))
  | some rest ↦ parse_v1 is_kchat rest
]

unfoldable pub parse_sealed_operation : Bytes → Option SealedOperation
unfolding starts_with without_protocol parse_body
parse_sealed_operation payload = do
  body ← without_protocol payload
  parse_body (starts_with protocol_prefix payload) body
