-- ===== src/Chess/Arena/Play/Timeout.antt =====
-- A game whose clock has run out.
use ka_chat_indexer.Prelude.{
  ℕ, ◌+◌, ◌-◌, ◌^◌, ◌≤◌, ◌<◌, ◌≡◌, ◌≢◌, refl, false, some, ◌==◌, bytes_eq, arith, bytes_beq_iff,
}
use ka_chat_indexer.Prelude.Int.{
  ℤ, pos, negsuc, ◌≤ℤ◌, ltb_ℤ, max_ℤ, sub_i64, wrap_i64_of_IsI64, ◌-ℤ◌,
}
use ka_chat_indexer.Chess.Rules.Board.{Color, white, black, opposite, color_eq}
use ka_chat_indexer.Chess.Arena.Message.{ArenaEvent}
use ka_chat_indexer.Chess.Arena.State.{
  Game, timeout, is_over, side_to_move, address_of, color_of, clock_ms, used_ms, charged_ms,
  allowance_ms,
}
use ka_chat_indexer.Chess.Arena.Bracket.{finish}
use ka_chat_indexer.Chess.Arena.Play.{claim, exhaust, elapsed_at, remaining_of}
use ka_chat_indexer.Chess.Arena.Play.Clocks.{IsTimed, remaining}
use ka_chat_indexer.Chess.Arena.Play.Valid.{IsGame}
use ka_chat_indexer.Chess.Arena.Play.Kept.{used_ms-IsUsed}

allowance_bound :
    (ply : ℕ) (started : ℤ)
    → (pos 0 ≤ℤ allowance_ms ply started) × (allowance_ms ply started ≤ℤ pos 25000)
unfolding allowance_ms
allowance_bound ply started = ground arith

-- A difference of two times of the chain does not wrap.
sub_times : (a b : ℕ) → a < 2 ^ 63 → b ≤ a → sub_i64 (pos a) (pos b) ≡ pos (a - b)
unfolding sub_i64 ◌-ℤ◌
sub_times a b bound order = rw (wrap_i64_of_IsI64 (pos a -ℤ pos b) (ground arith)) (ground arith)

-- An allowance of at most 25 s leaves the whole clock of 325 s.
whole_clock :
    (a : ℕ) (allowance left : ℤ)
    → 325000 ≤ a
    → a < 2 ^ 63
    → pos 0 ≤ℤ allowance
    → allowance ≤ℤ pos 25000
    → left ≤ℤ pos 300000
    → ltb_ℤ (max_ℤ (sub_i64 (pos a) allowance) (pos 0)) left ≡ false
whole_clock a (negsuc w) left long bound low high rest = ground arith
whole_clock a (pos w) left long bound low high rest =
    rw (sub_times a w bound (ground arith)) (ground arith)

late_of :
    (g : Game) (time last : ℕ)
    → IsTimed g
    → g.last_event_at ≡ pos last
    → last + 325000 ≤ time
    → time < 2 ^ 63
    → ltb_ℤ (elapsed_at g (pos time)) (remaining_of g) ≡ false
unfolding elapsed_at remaining_of charged_ms
late_of g time last timed at late bound =
    let (low, high) = allowance_bound (g.moves_count + 1) g.started_at in
    let (left, sum) =
      remaining (used_ms g (side_to_move g)) (used_ms-IsUsed g (side_to_move g) timed) in
    let since : sub_i64 (pos time) g.last_event_at ≡ pos (time - last) =
      rw at (sub_times time last bound (ground arith)) in
    rw since (
      whole_clock (time - last) (allowance_ms (g.moves_count + 1) g.started_at)
        (sub_i64 clock_ms (used_ms g (side_to_move g))) (ground arith) (ground arith) low high
        (ground arith))

opponent_color :
    (g : Game)
    → g.white ≢ g.black
    → color_of g (address_of g (opposite (side_to_move g))) ≡ some (opposite (side_to_move g))
unfolding color_of address_of opposite
opponent_color g distinct = grind (
  arith,
  bytes_beq_iff g.white g.white,
  bytes_beq_iff g.black g.white,
  bytes_beq_iff g.black g.black,
)

not_own_turn : (c : Color) → (opposite c == c) ≡ false
unfolding opposite
not_own_turn white = refl
not_own_turn black = refl

-- In a game that goes on, between two different players, 325 seconds after its last event the player
-- who waits can claim it, and wins it by the clock; the times are not negative and below 2 ^ 63.
pub claim-waiting :
    (event : ArenaEvent) (g : Game) (time last : ℕ)
    → IsGame g
    → is_over g ≡ false
    → g.white ≢ g.black
    → event.sender ≡ address_of g (opposite (side_to_move g))
    → g.last_event_at ≡ pos last
    → event.block_time ≡ pos time
    → last + 325000 ≤ time
    → time < 2 ^ 63
    → (g' : Game) × (claim event g ≡ some g')
      × (g'.winner ≡ some event.sender)
      × (g'.outcome ≡ some timeout)
unfolding claim finish
claim-waiting event g time last ok running distinct sender at now late bound =
    let done = finish event.sender timeout event.block_time (exhaust g) in
    let too_late : ltb_ℤ (elapsed_at g event.block_time) (remaining_of g) ≡ false =
      rw now (late_of g time last ok.timed at late bound) in
    let color : color_of g event.sender ≡ some (opposite (side_to_move g)) =
      rw sender (opponent_color g distinct) in
    (done, rw (running, color, not_own_turn (side_to_move g), too_late, claim) refl, refl, refl)
