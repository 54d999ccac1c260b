-- ===== src/Chat/Operation.antt =====
-- kasia-indexer/protocol/src/operation.rs: the sealed operations that a payload can carry.
use Prim.Native.String.{String}
use ka_chat_indexer.Prelude.{
  ℕ, Bool, ◌&&◌, ◌||◌, not, Option, Bytes, length, all, leb, ◌==◌, nat_eq, bytes_eq, ◌%◌, [],
}

pub record SealedContextualMessageV1 : Type 0 where
  pub alias : Bytes
  pub sealed_hex : Bytes
  pub inbox_tag : Option Bytes

pub record SealedSelfStashV1 : Type 0 where
  pub key : Option Bytes
  pub sealed_hex : Bytes

pub record SealedGroupMessageV1 : Type 0 where
  pub blinded_group_id : Bytes
  pub epoch : Bytes
  pub sender_id : Bytes
  pub sender_pub : Bytes
  pub msg_id : Bytes
  pub ciphertext : Bytes
  pub signature : Bytes
  pub sealed_hex : Bytes

pub record SealedGroupControlV1 : Type 0 where
  pub recipient_pubkey : Option Bytes
  pub encrypted_payload : Bytes

-- The operations whose record is `sealed_hex` alone carry it directly.
pub data SealedOperation : Type 0 where
  sealed_message_or_handshake : Bytes → SealedOperation
  contextual_message : SealedContextualMessageV1 → SealedOperation
  payment : Bytes → SealedOperation
  self_stash : SealedSelfStashV1 → SealedOperation
  sealed_handshake : Bytes → SealedOperation
  group_message : SealedGroupMessageV1 → SealedOperation
  group_control : SealedGroupControlV1 → SealedOperation

unfoldable pub op_type_name : SealedOperation → String
op_type_name (sealed_message_or_handshake _) = "HandshakeVNone"
op_type_name (contextual_message _) = "ContextualMessageV1"
op_type_name (payment _) = "PaymentV1"
op_type_name (self_stash _) = "SelfStashV1"
op_type_name (sealed_handshake _) = "HandshakeV2"
op_type_name (group_message _) = "GroupMessageV1"
op_type_name (group_control _) = "GroupControlV1"

-- `u8::is_ascii_digit`.
unfoldable pub is_ascii_digit : ℕ → Bool
is_ascii_digit c = leb b'0' c && leb c b'9'

unfoldable pub is_lowercase_hex_digit : ℕ → Bool
unfolding is_ascii_digit
is_lowercase_hex_digit c = is_ascii_digit c || (leb b'a' c && leb c b'f')

unfoldable pub is_tip_sealed : Bytes → Bool
unfolding all is_lowercase_hex_digit
is_tip_sealed sealed =
    not (sealed == []) && length sealed % 2 == 0 && all is_lowercase_hex_digit sealed
