-- ===== src/Chess/Arena/Message.antt =====
-- kachat-webserver/src/chess.rs: room ids, the wire message and its decoding.
use ka_chat_indexer.Prelude.{
  ℕ, ◌+◌, ◌/◌, ◌%◌, Bool, true, false, ◌&&◌, ◌||◌, not, [], ◌∷◌, ◌++◌, Option, none, some, Bytes,
  length, take, ltb, leb, ◌==◌, nat_eq, int_eq, bytes_eq, if◌then◌else◌, ◌>>=◌,
}
use ka_chat_indexer.Prelude.Int.{ℤ, pos, leb_ℤ}
use ka_chat_indexer.Prelude.Text.{codes, strip_prefix, starts_with, contains, char_count, parse_i64}

pub record TournamentMessage : Type 0 where
  pub msg_type : Bytes
  pub v : ℤ
  pub t : Bytes
  pub a : Bytes
  pub g : Option Bytes
  pub n : Option ℤ
  pub from : Option Bytes
  pub to : Option Bytes
  pub promo : Option Bytes
  pub k : Option Bytes
  pub p : Option ℤ

-- What the module takes from other crates.
pub record ChessExternals : Type 0 where
  -- `sha2::Sha256`, of the bytes that it is updated with.
  pub sha256 : Bytes → Bytes
  -- `serde_json::from_str::<TournamentMessage>`.
  pub tournament_message : Bytes → Option TournamentMessage

abbrev pub player_count : ℕ
player_count = 8

abbrev public_id_prefix : Bytes
public_id_prefix = codes "public-"

abbrev duel_id_prefix : Bytes
duel_id_prefix = codes "duel-"

unfoldable pub number_of : Bytes → Bytes → Option ℤ
unfolding strip_prefix parse_i64
number_of id prefix = do
  rest ← strip_prefix prefix id
  n ← parse_i64 rest
  if leb_ℤ (pos 1) n then some n else none

unfoldable pub public_number : Bytes → Option ℤ
unfolding number_of
public_number id = number_of id public_id_prefix

unfoldable pub duel_number : Bytes → Option ℤ
unfolding number_of
duel_number id = number_of id duel_id_prefix

abbrev pub is_some {ℓ} : {A : Type ℓ} → Option A → Bool
is_some none = false
is_some (some a) = true

unfoldable pub is_public_id : Bytes → Bool
unfolding public_number duel_number
is_public_id id = is_some (public_number id) || is_some (duel_number id)

-- `{:02x}` of a byte.
hex_digit : ℕ → ℕ
hex_digit d = if ltb d 10 then b'0' + d else b'a' + d % 10

hex : Bytes → Bytes
unfolding hex_digit
hex [] = []
hex (b ∷ bytes) = hex_digit (b / 16) ∷ (hex_digit (b % 16) ∷ hex bytes)

-- The creator code, trimmed and in upper case as it stands.
abbrev private_create_code : Bytes
private_create_code = codes "KACHAT-CHESS"

-- Of a code that is trimmed and in upper case.
unfoldable pub create_key : ChessExternals → Bytes → Bytes → Bytes
unfolding hex
create_key ext code id = take 24 (hex (ext.sha256 (code ++ b':' ∷ id)))

unfoldable pub is_valid_create_key : ChessExternals → Option Bytes → Bytes → Bool
unfolding create_key
is_valid_create_key ext none id = false
is_valid_create_key ext (some k) id = k == create_key ext private_create_code id

unfoldable pub is_tournament_message : TournamentMessage → Bool
is_tournament_message m =
    m.msg_type == codes "chess_t" && m.v == pos 1 && not (m.t == []) && leb (length m.t) 64

unfoldable pub decode : ChessExternals → Bytes → Option TournamentMessage
unfolding char_count starts_with contains is_tournament_message
decode ext content =
    if ltb 2048 (char_count content)
      || not (starts_with (codes "{") content)
      || not (contains (codes "\"chess_t\"") content)
    then none
    else do
      message ← ext.tournament_message content
      if is_tournament_message message then some message else none

pub record ArenaEvent : Type 0 where
  pub tx_id : Bytes
  pub sender : Bytes
  pub block_time : ℤ
  pub message : TournamentMessage

unfoldable pub arena_event : ChessExternals → Bytes → Bytes → ℤ → Bytes → Option ArenaEvent
unfolding decode
arena_event ext tx_id sender block_time content = do
  message ← decode ext content
  some (record { tx_id = tx_id; sender = sender; block_time = block_time; message = message })
