-- ===== src/Chat/Tests.antt =====
-- The deserializer's theorems at concrete payloads.
use ka_chat_indexer.Prelude.{◌≡◌, ◌⊎◌, refl, false, [], ◌++◌, none, some, replicate}
use ka_chat_indexer.Prelude.Text.{codes, starts_with}
use ka_chat_indexer.Chat.Operation.{
  SealedContextualMessageV1, SealedGroupMessageV1, contextual_message, group_message,
}
use ka_chat_indexer.Chat.Deserializer.{
  parse_sealed_operation, is_lowercase_hex, is_fixed_hex, is_epoch, is_nonempty_hex,
  protocol_prefix, legacy_protocol_prefix, version_1_part,
}
use ka_chat_indexer.Chat.Deserializer.Legacy.{parse_sealed_operation-legacy}
use ka_chat_indexer.Chat.Deserializer.Dm.{has_colon}
use ka_chat_indexer.Chat.Deserializer.Origin.{
  message_text, IsTag, parse_sealed_operation-message_text,
}
use ka_chat_indexer.Chat.Deserializer.ReadBack.{
  group_fields, join, parse_sealed_operation-contextual_message,
  parse_sealed_operation-group_message,
}

parse_sealed_operation-legacy_example :
    parse_sealed_operation (legacy_protocol_prefix ++ codes "1:comm:alias123:abc123")
    ≡ parse_sealed_operation (protocol_prefix ++ codes "1:comm:alias123:abc123")
unfolding starts_with
parse_sealed_operation-legacy_example =
    parse_sealed_operation-legacy (codes "1:comm:alias123:abc123") refl

abbrev message : SealedContextualMessageV1
message = record {
  alias = codes "alias123";
  sealed_hex = codes "abc123";
  inbox_tag = some (replicate 32 b'a');
}

abbrev old_message : SealedContextualMessageV1
old_message = record { alias = codes "bob"; sealed_hex = codes "00"; inbox_tag = none }

parse_sealed_operation-contextual_message_example :
    parse_sealed_operation (protocol_prefix ++ (version_1_part ++ message_text message))
    ≡ some (contextual_message message)
unfolding is_lowercase_hex has_colon
parse_sealed_operation-contextual_message_example =
    parse_sealed_operation-contextual_message message refl refl

parse_sealed_operation-message_text_example :
    ((codes "ciph_msg:1:comm:bob:00"
        ≡ protocol_prefix ++ (version_1_part ++ message_text old_message))
      ⊎ (codes "ciph_msg:1:comm:bob:00"
          ≡ legacy_protocol_prefix ++ (version_1_part ++ message_text old_message)))
    × (has_colon old_message.alias ≡ false)
    × IsTag old_message.inbox_tag
unfolding parse_sealed_operation
parse_sealed_operation-message_text_example =
    parse_sealed_operation-message_text old_message (codes "ciph_msg:1:comm:bob:00") refl

abbrev group : SealedGroupMessageV1
group =
    let fields : SealedGroupMessageV1 = record {
      blinded_group_id = replicate 64 b'a';
      epoch = codes "42";
      sender_id = replicate 64 b'b';
      sender_pub = replicate 64 b'c';
      msg_id = replicate 48 b'd';
      ciphertext = replicate 32 b'e';
      signature = replicate 128 b'f';
      sealed_hex = [];
    } in
    record fields { sealed_hex = join (group_fields fields) }

parse_sealed_operation-group_message_example :
    parse_sealed_operation (codes "kchat:1:gcomm:" ++ group.sealed_hex) ≡ some (group_message group)
unfolding is_fixed_hex is_epoch is_nonempty_hex ka_chat_indexer.Prelude.bytes_beq
parse_sealed_operation-group_message_example = parse_sealed_operation-group_message group (record {
  blinded_group_id = refl;
  epoch = refl;
  sender_id = refl;
  sender_pub = refl;
  msg_id = refl;
  ciphertext = refl;
  signature = refl;
  sealed_hex = refl;
})
