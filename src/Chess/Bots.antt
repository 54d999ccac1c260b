-- ===== src/Chess/Bots.antt =====
-- kachat-webserver/src/chess.rs: the boards of games against the bots.
pub mod Best
use ka_chat_indexer.Prelude.{
  ℕ, suc, ◌+◌, ◌/◌, Bool, true, false, ◌&&◌, ◌||◌, not, List, [], ◌∷◌, ◌++◌, Option, none, some,
  Bytes, Map, lookup, insert, length, take, drop, any, all, ltb, leb, ◌==◌, nat_eq, int_eq,
  bytes_eq, if◌then◌else◌, ◌>>=◌,
}
use ka_chat_indexer.Prelude.Int.{ℤ, pos, ltb_ℤ, leb_ℤ}
use ka_chat_indexer.Prelude.Text.{codes, starts_with, contains, bytes_lt, split_whitespace}
use ka_chat_indexer.Prelude.Sort.{sort_by}
use ka_chat_indexer.Chess.Rules.Board.{
  Color, white, black, opposite, color_eq, PieceType, from_promotion_letter, from_algebraic, Move,
  Board, initial_board,
}
use ka_chat_indexer.Chess.Rules.Apply.{apply}
use ka_chat_indexer.Chess.Rules.Legal.{normalizing_promotion, is_legal, is_checkmate}
use ka_chat_indexer.Chess.Arena.Play.{guard}
use ka_chat_indexer.Chess.Leaderboard.{values}
use ka_chat_indexer.Chess.Calendar.{period_since_ms}
use ka_chat_indexer.Chess.Snapshot.{ArenaRow}

pub record BotResultMessage : Type 0 where
  pub msg_type : Bytes
  pub v : ℤ
  pub a : Bytes
  pub g : Bytes
  pub bot : ℤ
  pub c : Bytes
  pub r : Bytes
  pub why : Bytes
  pub m : Bytes

unfoldable pub is_bot_result : BotResultMessage → Bool
is_bot_result m = m.msg_type == codes "chess_bot" && m.v == pos 2 && m.a == codes "result"

-- `json` is `serde_json::from_str::<BotResultMessage>`.
unfoldable pub decode_bot_result :
    (Bytes → Option BotResultMessage) → Bytes → Option BotResultMessage
unfolding starts_with contains is_bot_result
decode_bot_result json content =
    if ltb 16384 (length content)
      || not (starts_with (codes "{") content)
      || not (contains (codes "\"chess_bot\"") content)
    then none
    else do message ← json content; if is_bot_result message then some message else none

abbrev is_dash_index : ℕ → Bool
is_dash_index i = (i == 8) || (i == 13) || (i == 18) || (i == 23)

uuid_from : ℕ → Bytes → Bool
uuid_from i [] = true
uuid_from i (c ∷ g) =
    (if is_dash_index i
      then c == b'-'
      else (leb b'0' c && leb c b'9') || (leb b'a' c && leb c b'f'))
    && uuid_from (suc i) g

unfoldable pub is_game_id : Bytes → Bool
unfolding uuid_from
is_game_id g = length g == 36 && uuid_from 0 g

-- The letter after the four of the squares.
unfoldable pub token_promotion : Bytes → Option (Option PieceType)
unfolding from_promotion_letter
token_promotion [] = some none
token_promotion (c ∷ s) = elim (from_promotion_letter (some (c ∷ s))) [
  | none ↦ none
  | some p ↦ some (some p)
]

unfoldable pub token_move : Bytes → Board → Option Move
unfolding all token_promotion from_algebraic normalizing_promotion
token_move token board = do
  _ ← guard (all (λ c. ltb c 128) token && leb 4 (length token) && leb (length token) 5)
  promotion ← token_promotion (drop 4 token)
  from ← from_algebraic (take 2 token)
  to ← from_algebraic (take 2 (drop 2 token))
  some (normalizing_promotion (record { from = from; to = to; promotion = promotion }) board)

unfoldable pub replay_from : Board → ℕ → List Bytes → Option (Board × ℕ)
unfolding token_move is_legal apply
replay_from board plies [] = some (board, plies)
replay_from board plies (token ∷ tokens) = elim (token_move token board) [
  | none ↦ none
  | some mv ↦ elim (is_legal mv board) [
    | false ↦ none
    | true ↦ replay_from (apply mv board) (plies + 1) tokens
  ]
]

unfoldable pub replay_bot_moves : Bytes → Option (Board × ℕ)
unfolding initial_board split_whitespace replay_from
replay_bot_moves m = replay_from initial_board 0 (split_whitespace m)

pub record BotGame : Type 0 where
  pub level : ℤ
  pub sender : Bytes
  pub tx_id : Bytes
  pub block_time : ℤ
  pub game_id : Bytes
  pub win_moves : Option ℕ

color_of_letter : Bytes → Option Color
color_of_letter c =
    if c == codes "w" then some white else if c == codes "b" then some black else none

bot_end_reasons : List Bytes
bot_end_reasons =
    codes "checkmate"
    ∷ codes "resignation"
    ∷ codes "stalemate"
    ∷ codes "insufficient material"
    ∷ codes "the fifty-move rule"
    ∷ codes "threefold repetition"
    ∷ []

one_of : List Bytes → Bytes → Bool
unfolding any
one_of texts s = any (λ x. x == s) texts

unfoldable pub fields_ok : BotResultMessage → Bool
unfolding one_of bot_end_reasons
fields_ok m =
    leb_ℤ (pos 1) m.bot
    && leb_ℤ m.bot (pos 5)
    && one_of (codes "won" ∷ codes "lost" ∷ codes "drawn" ∷ []) m.r
    && one_of bot_end_reasons m.why

own_moves : Color → ℕ → ℕ
own_moves white plies = (plies + 1) / 2
own_moves black plies = plies / 2

-- The player's own moves, where the game is a win of theirs by checkmate.
unfoldable pub win_moves_of : BotResultMessage → Color → Board → ℕ → Option ℕ
unfolding is_checkmate opposite own_moves
win_moves_of m player board plies =
    if m.r == codes "won"
      && m.why == codes "checkmate"
      && board.side_to_move == opposite player
      && is_checkmate board
    then some (own_moves player plies)
    else none

unfoldable pub bot_game : ArenaRow → BotResultMessage → Option BotGame
unfolding color_of_letter fields_ok replay_bot_moves win_moves_of
bot_game row m = do
  player ← color_of_letter m.c
  _ ← guard (fields_ok m)
  (board, plies) ← replay_bot_moves m.m
  some (record {
    level = m.bot;
    sender = row.sender;
    tx_id = row.tx_id;
    block_time = row.block_time;
    game_id = m.g;
    win_moves = win_moves_of m player board plies;
  })

pub record BotBoardRow : Type 0 where
  pub address : Bytes
  pub moves : ℕ
  pub at : ℤ
  pub game_id : Bytes
  pub tx_id : Bytes

pub record BotBoard : Type 0 where
  pub level : ℤ
  pub games : ℕ
  pub players : List BotBoardRow

pub record BotSnapshot : Type 0 where
  pub all_time : List BotBoard
  pub all_time_since : ℤ
  pub monthly : List BotBoard
  pub monthly_since : ℤ

-- A game of the level, in the period.
unfoldable pub in_board : ℤ → ℤ → BotGame → Bool
in_board level since_ms g = g.level == level && leb_ℤ since_ms g.block_time

unfoldable pub is_beaten : ℕ → Option BotBoardRow → Bool
is_beaten moves none = false
is_beaten moves (some row) = leb row.moves moves

-- The best row of the sender, after one game of the board.
unfoldable pub keep_best : BotGame → Map Bytes BotBoardRow → Map Bytes BotBoardRow
unfolding is_beaten
keep_best g best = elim g.win_moves [
  | none ↦ best
  | some moves ↦
      if is_beaten moves (lookup g.sender best)
      then best
      else insert g.sender
          (record {
            address = g.sender;
            moves = moves;
            at = g.block_time;
            game_id = g.game_id;
            tx_id = g.tx_id;
          })
          best
]

unfoldable pub play_board :
    ℤ → ℤ → List BotGame → ℕ × Map Bytes BotBoardRow → ℕ × Map Bytes BotBoardRow
unfolding in_board keep_best
play_board level since_ms [] acc = acc
play_board level since_ms (g ∷ games) (played, best) =
    play_board level since_ms games
      (if in_board level since_ms g then (played + 1, keep_best g best) else (played, best))

unfoldable pub bot_row_lt : BotBoardRow → BotBoardRow → Bool
unfolding bytes_lt
bot_row_lt a b =
    if not (a.moves == b.moves)
    then ltb a.moves b.moves
    else if not (a.at == b.at)
    then ltb_ℤ a.at b.at
    else bytes_lt a.tx_id b.tx_id

unfoldable pub board_of : ℤ → ℕ × Map Bytes BotBoardRow → List BotBoard
unfolding sort_by bot_row_lt values
board_of level (played, best) =
    if played == 0
    then []
    else record { level = level; games = played; players = sort_by bot_row_lt (values best) } ∷ []

levels : List ℤ
levels = pos 1 ∷ pos 2 ∷ pos 3 ∷ pos 4 ∷ pos 5 ∷ []

boards_for : List ℤ → List BotGame → ℤ → List BotBoard
unfolding play_board board_of
boards_for [] games since_ms = []
boards_for (level ∷ rest) games since_ms =
    board_of level (play_board level since_ms games (0, [])) ++ boards_for rest games since_ms

unfoldable pub bot_boards : List BotGame → ℤ → List BotBoard
unfolding boards_for levels
bot_boards = boards_for levels

-- Chain order: block time, then txid.
unfoldable pub arena_row_lt : ArenaRow → ArenaRow → Bool
unfolding bytes_lt
arena_row_lt a b =
    if a.block_time == b.block_time
    then bytes_lt a.tx_id b.tx_id
    else ltb_ℤ a.block_time b.block_time

abbrev is_seen : List (Bytes × Bytes) → Bytes → Bytes → Bool
is_seen [] sender g = false
is_seen ((s, id) ∷ seen) sender g = (s == sender && id == g) || is_seen seen sender g

-- The counted games of the rows, after those of the (sender, game id) pairs that were seen.
unfoldable pub games_of :
    (Bytes → Option BotResultMessage) → List ArenaRow → List (Bytes × Bytes) → List BotGame
unfolding decode_bot_result is_game_id bot_game
games_of json [] seen = []
games_of json (row ∷ rows) seen = elim (decode_bot_result json row.content) [
  | none ↦ games_of json rows seen
  | some m ↦ elim (not (is_game_id m.g) || is_seen seen row.sender m.g) [
    | true ↦ games_of json rows seen
    | false ↦ elim (bot_game row m) [
      | none ↦ games_of json rows ((row.sender, m.g) ∷ seen)
      | some g ↦ g ∷ games_of json rows ((row.sender, m.g) ∷ seen)
    ]
  ]
]

unfoldable pub compute_bots : (Bytes → Option BotResultMessage) → List ArenaRow → ℤ → BotSnapshot
unfolding sort_by arena_row_lt games_of period_since_ms bot_boards
compute_bots json rows now_ms =
    let games = games_of json (sort_by arena_row_lt rows) [] in
    let all_time_since = period_since_ms false now_ms in
    let monthly_since = period_since_ms true now_ms in
    record {
      all_time = bot_boards games all_time_since;
      all_time_since = all_time_since;
      monthly = bot_boards games monthly_since;
      monthly_since = monthly_since;
    }
