-- ===== src/Chess/Arena/Play.antt =====
-- kachat-webserver/src/chess.rs: `apply_move`, and what a resignation or a claim does to a game.
pub mod Guards
pub mod Clocks
pub mod Valid
pub mod Kept
pub mod Timeout
use ka_chat_indexer.Prelude.{
  ℕ, ◌+◌, Bool, true, false, ◌&&◌, ◌||◌, not, Option, none, some, Bytes, lookup, insert, leb, ◌==◌,
  nat_eq, int_eq, bytes_eq, if◌then◌else◌, ◌>>=◌,
}
use ka_chat_indexer.Prelude.Int.{ℤ, pos, ltb_ℤ, leb_ℤ, add_i64, sub_i64}
use ka_chat_indexer.Chess.Rules.Board.{
  Color, opposite, color_eq, PieceType, pawn, type_eq, from_promotion_letter, Piece, Square,
  from_algebraic, Move, Board, piece_at,
}
use ka_chat_indexer.Chess.Rules.Apply.{apply, is_en_passant_capture}
use ka_chat_indexer.Chess.Rules.Legal.{
  normalizing_promotion, is_legal, is_checkmate, is_stalemate, is_insufficient_material,
}
use ka_chat_indexer.Chess.Arena.Message.{TournamentMessage, ArenaEvent, is_some}
use ka_chat_indexer.Chess.Arena.State.{
  Game, checkmate, resignation, timeout, is_over, side_to_move, player_to_move, address_of,
  color_of, charged_ms, used_ms, clock_ms,
}
use ka_chat_indexer.Chess.Arena.Bracket.{position_key, finish, finish_draw, bump, or_default}

-- `_ => return` where the test fails.
abbrev pub guard : Bool → Option (Unit {0})
guard true = some tt
guard false = none

unfoldable pub elapsed_at : Game → ℤ → ℤ
unfolding charged_ms sub_i64
elapsed_at g time = charged_ms g (sub_i64 time g.last_event_at)

unfoldable pub remaining_of : Game → ℤ
unfolding sub_i64 used_ms
remaining_of g = sub_i64 clock_ms (used_ms g (side_to_move g))

-- The move that the message names, a promotion included.
unfoldable pub named_move : TournamentMessage → Board → Option Move
unfolding from_algebraic from_promotion_letter normalizing_promotion
named_move m board = do
  from_text ← m.from
  from ← from_algebraic from_text
  to_text ← m.to
  to ← from_algebraic to_text
  some (
      normalizing_promotion
        (record { from = from; to = to; promotion = from_promotion_letter m.promo }) board)

unfoldable pub is_capture : Piece → Move → Board → Bool
unfolding is_en_passant_capture
is_capture piece mv board = is_some (piece_at board mv.to) || is_en_passant_capture piece mv board

unfoldable pub charge : Color → ℤ → Game → Game
unfolding add_i64
charge Color.white elapsed g = record g { white_used_ms = add_i64 g.white_used_ms elapsed }
charge Color.black elapsed g = record g { black_used_ms = add_i64 g.black_used_ms elapsed }

-- The game after the move, before the tests for its end.
unfoldable pub moved_game : Piece → Move → ℤ → ℤ → Game → Game
unfolding charge is_capture apply position_key bump
moved_game piece mv elapsed time g =
    let board = apply mv g.board in
    let charged = charge (side_to_move g) elapsed g in
    record charged {
      board = board;
      last_event_at = time;
      moves_count = g.moves_count + 1;
      halfmove_clock =
          if piece.piece_type == pawn || is_capture piece mv g.board
          then 0
          else g.halfmove_clock + 1;
      position_counts = bump (position_key board) g.position_counts;
    }

-- The chain of tests for the end of the game, after a move of `mover`.
unfoldable pub settle : Color → ℤ → Game → Game
unfolding finish finish_draw address_of is_checkmate is_stalemate is_insufficient_material
    position_key
settle mover time g =
    if is_checkmate g.board
    then finish (address_of g mover) checkmate time g
    else if is_stalemate g.board
        || is_insufficient_material g.board
        || leb 100 g.halfmove_clock
        || leb 3 (or_default 0 (lookup (position_key g.board) g.position_counts))
    then finish_draw time g
    else g

unfoldable pub move_number_ok : Option ℤ → Game → Bool
move_number_ok none g = false
move_number_ok (some n) g = n == pos (g.moves_count + 1)

-- `apply_move` on the game; none where it returns early.
unfoldable pub play_move : ArenaEvent → Game → Option Game
unfolding is_over player_to_move move_number_ok named_move elapsed_at remaining_of is_legal settle
    moved_game
play_move event g = do
  _ ← guard (not (is_over g))
  _ ← guard (player_to_move g == event.sender)
  _ ← guard (move_number_ok event.message.n g)
  mv ← named_move event.message g.board
  _ ← guard (ltb_ℤ (elapsed_at g event.block_time) (remaining_of g))
  _ ← guard (is_legal mv g.board)
  piece ← piece_at g.board mv.from
  some (
      settle (side_to_move g) event.block_time
        (moved_game piece mv (elapsed_at g event.block_time) event.block_time g))

-- "resign" on the game.
unfoldable pub resign : ArenaEvent → Game → Option Game
unfolding is_over color_of address_of opposite finish
resign event g = do
  _ ← guard (not (is_over g))
  color ← color_of g event.sender
  some (finish (address_of g (opposite color)) resignation event.block_time g)

-- The clock of the side to move is at its end.
unfoldable pub exhaust : Game → Game
exhaust g = elim (side_to_move g) [
  | Color.white ↦ record g { white_used_ms = clock_ms }
  | Color.black ↦ record g { black_used_ms = clock_ms }
]

-- "claim" on the game.
unfoldable pub claim : ArenaEvent → Game → Option Game
unfolding is_over color_of elapsed_at remaining_of exhaust finish
claim event g = do
  _ ← guard (not (is_over g))
  color ← color_of g event.sender
  _ ← guard (not (color == side_to_move g))
  _ ← guard (not (ltb_ℤ (elapsed_at g event.block_time) (remaining_of g)))
  some (finish event.sender timeout event.block_time (exhaust g))
