-- ===== src/Chess/Arena/Play/Clocks.antt =====
-- The two clocks of a game, over its moves.
use ka_chat_indexer.Prelude.{ℕ, ◌+◌, ◌%◌, ◌≡◌, refl, true, some, ◌==◌, nat_eq, arith, if◌then◌else◌}
use ka_chat_indexer.Prelude.Int.{
  ℤ, pos, negsuc, pos_part, ◌≤ℤ◌, ltb_ℤ, add_i64, sub_i64, wrap_i64_of_IsI64, ◌+ℤ◌, ◌-ℤ◌,
}
use ka_chat_indexer.Chess.Rules.Board.{Color, white, black, opposite, Board, piece_at, Piece, Move}
use ka_chat_indexer.Chess.Rules.Apply.{apply}
use ka_chat_indexer.Chess.Arena.State.{Game, side_to_move, clock_ms, used_ms, charged_ms}
use ka_chat_indexer.Chess.Arena.Play.{elapsed_at, remaining_of}

-- Between nothing and the whole of the clock.
abbrev pub IsUsed : ℤ → Type 0
IsUsed z = (pos 0 ≤ℤ z) × (z ≤ℤ clock_ms)

-- Whose turn it is after a number of moves.
abbrev pub turn_of : ℕ → Color
turn_of n = if n % 2 == 0 then white else black

-- Both clocks, and the turn.
pub record IsTimed (g : Game) : Type 0 where
  pub white_clock : IsUsed g.white_used_ms
  pub black_clock : IsUsed g.black_used_ms
  pub turn : side_to_move g ≡ turn_of g.moves_count

charged_ms-nonnegative : (g : Game) (elapsed : ℤ) → pos 0 ≤ℤ charged_ms g elapsed
unfolding charged_ms
charged_ms-nonnegative g elapsed = ground arith

pub remaining :
    (u : ℤ)
    → IsUsed u
    → (pos 0 ≤ℤ sub_i64 clock_ms u) × (pos_part (sub_i64 clock_ms u) + pos_part u ≡ 300000)
unfolding sub_i64 ◌-ℤ◌
remaining (pos u) (low, high) =
    rw (wrap_i64_of_IsI64 (clock_ms -ℤ pos u) (ground arith)) (ground arith)
remaining (negsuc u) (low, high) = ground arith

charged :
    (u elapsed : ℤ)
    → IsUsed u
    → pos 0 ≤ℤ elapsed
    → ltb_ℤ elapsed (sub_i64 clock_ms u) ≡ true
    → IsUsed (add_i64 u elapsed)
unfolding add_i64 ◌+ℤ◌
charged (pos u) (pos e) used low h =
    let left = remaining (pos u) used in
    rw (wrap_i64_of_IsI64 (pos u +ℤ pos e) (ground (arith, left))) (ground (arith, left))
charged (negsuc u) e used low h = ground arith
charged (pos u) (negsuc e) used low h = ground arith

-- Between the two, the time of a move that is taken stays on the clock.
pub charge-IsUsed :
    (g : Game) (time : ℤ)
    → IsUsed (used_ms g (side_to_move g))
    → ltb_ℤ (elapsed_at g time) (remaining_of g) ≡ true
    → IsUsed (add_i64 (used_ms g (side_to_move g)) (elapsed_at g time))
unfolding elapsed_at remaining_of
charge-IsUsed g time used h =
    charged (used_ms g (side_to_move g)) (elapsed_at g time) used
      (charged_ms-nonnegative g (sub_i64 time g.last_event_at)) h

pub turn_of-suc : (n : ℕ) → turn_of (n + 1) ≡ opposite (turn_of n)
unfolding opposite
turn_of-suc n = ground arith

-- The side to move changes with the piece that moves.
pub apply-turn :
    (board : Board) (mv : Move) (piece : Piece)
    → piece_at board mv.from ≡ some piece
    → (apply mv board).side_to_move ≡ opposite board.side_to_move
unfolding apply
apply-turn board mv piece standing = rw (standing, apply) refl
