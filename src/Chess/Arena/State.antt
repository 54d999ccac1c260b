-- ===== src/Chess/Arena/State.antt =====
-- kachat-webserver/src/chess.rs: games and tournaments, and their clocks.
use ka_chat_indexer.Prelude.{
  ℕ, ◌+◌, Bool, true, false, ◌&&◌, not, List, ◌∷◌, ◌++◌, Option, none, some, Bytes, Map, lookup,
  length, position, leb, ◌==◌, nat_eq, bytes_eq, if◌then◌else◌, ◌>>=◌,
}
use ka_chat_indexer.Prelude.Int.{ℤ, pos, leb_ℤ, ltb_ℤ, max_ℤ, sub_i64}
use ka_chat_indexer.Prelude.Text.{show_nat}
use ka_chat_indexer.Chess.Rules.Board.{Color, Board}

abbrev pub clock_ms : ℤ
clock_ms = pos 300000

abbrev move_delay_ms : ℤ
move_delay_ms = pos 10000

abbrev first_move_grace_ms : ℤ
first_move_grace_ms = pos 25000

abbrev allowance_from_ms : ℤ
allowance_from_ms = pos 1790208000000

abbrev allowance_v2_from_ms : ℤ
allowance_v2_from_ms = pos 1790280000000

unfoldable pub allowance_ms : ℕ → ℤ → ℤ
allowance_ms ply started_at =
    if leb_ℤ allowance_v2_from_ms started_at
    then move_delay_ms
    else if ltb_ℤ started_at allowance_from_ms
    then pos 0
    else if leb ply 2
    then first_move_grace_ms
    else move_delay_ms

abbrev pub seat_ttl_ms : ℤ
seat_ttl_ms = pos 300000

pub data Outcome : Type 0 where
  checkmate resignation timeout draw_tiebreak : Outcome

pub record Game : Type 0 where
  pub round : ℕ
  pub index : ℕ
  pub white : Bytes
  pub black : Bytes
  pub board : Board
  pub started_at : ℤ
  pub moves_count : ℕ
  pub white_used_ms : ℤ
  pub black_used_ms : ℤ
  pub last_event_at : ℤ
  pub winner : Option Bytes
  pub outcome : Option Outcome
  pub ended_at : Option ℤ
  pub position_counts : Map Bytes ℕ
  pub halfmove_clock : ℕ

unfoldable pub is_over : Game → Bool
is_over g = elim g.winner [ none ↦ false | some _ ↦ true ]

abbrev pub side_to_move : Game → Color
side_to_move g = g.board.side_to_move

unfoldable pub address_of : Game → Color → Bytes
address_of g Color.white = g.white
address_of g Color.black = g.black

unfoldable pub player_to_move : Game → Bytes
unfolding address_of
player_to_move g = address_of g (side_to_move g)

unfoldable pub color_of : Game → Bytes → Option Color
color_of g address =
    if address == g.white
    then some Color.white
    else if address == g.black
    then some Color.black
    else none

unfoldable pub charged_ms : Game → ℤ → ℤ
unfolding sub_i64 allowance_ms
charged_ms g elapsed =
    max_ℤ (sub_i64 elapsed (allowance_ms (g.moves_count + 1) g.started_at)) (pos 0)

unfoldable pub used_ms : Game → Color → ℤ
used_ms g Color.white = g.white_used_ms
used_ms g Color.black = g.black_used_ms

pub record Tournament : Type 0 where
  pub creator : Bytes
  pub created_at : ℤ
  pub capacity : ℕ
  pub started_at : Option ℤ
  pub cancelled : Bool
  pub players : List Bytes
  pub joined_at : Map Bytes ℤ
  pub games : Map Bytes Game
  pub white_count : Map Bytes ℕ

unfoldable pub is_duel : Tournament → Bool
is_duel t = t.capacity == 2

unfoldable pub rounds : Tournament → ℕ
unfolding is_duel
rounds t = if is_duel t then 1 else 3

-- `format!("{}-{}", round, index)`.
unfoldable pub game_key : ℕ → ℕ → Bytes
unfolding show_nat
game_key round index = show_nat round ++ b'-' ∷ show_nat index

unfoldable pub final_game_id : Tournament → Bytes
unfolding game_key rounds
final_game_id t = game_key (rounds t) 0

unfoldable pub is_full : Tournament → Bool
is_full t = leb t.capacity (length t.players)

unfoldable pub seed_of : Tournament → Bytes → Option ℕ
unfolding position
seed_of t address = do i ← position (λ p. p == address) t.players; some (i + 1)

unfoldable pub game_at : Tournament → ℕ → ℕ → Option Game
unfolding game_key
game_at t round index = lookup (game_key round index) t.games

unfoldable pub champion : Tournament → Option Bytes
unfolding final_game_id
champion t = do g ← lookup (final_game_id t) t.games; g.winner

unfoldable pub is_finished : Tournament → Bool
unfolding final_game_id is_over
is_finished t = elim (lookup (final_game_id t) t.games) [ none ↦ false | some g ↦ is_over g ]

unfoldable pub is_live : Tournament → Bool
unfolding is_finished
is_live t =
    not t.cancelled && elim t.started_at [ none ↦ false | some _ ↦ true ] && not (is_finished t)

unfoldable pub is_open : Tournament → Bool
is_open t = not t.cancelled && elim t.started_at [ none ↦ true | some _ ↦ false ]
