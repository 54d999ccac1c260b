-- ===== src/Chess/Arena/Reducer/Players.antt =====
-- Who changes a game, and what of it stays.
use ka_chat_indexer.Prelude.{
  ◌≡◌, refl, sym, ◌∙◌, ◌⊎◌, inl, inr, ◌||◌, List, [], ◌∷◌, ◌++◌, Option, some, Bytes, lookup,
  bytes_eq, leb, some_injective, arith, if◌then◌else◌, if-both,
}
use ka_chat_indexer.Prelude.Int.{ℤ, ltb_ℤ, sub_i64}
use ka_chat_indexer.Chess.Rules.Board.{Color, white, black, opposite, Piece, Move}
use ka_chat_indexer.Chess.Rules.Legal.{is_checkmate, is_stalemate, is_insufficient_material}
use ka_chat_indexer.Chess.Arena.Message.{ChessExternals, ArenaEvent}
use ka_chat_indexer.Chess.Arena.State.{
  Game, Outcome, checkmate, draw_tiebreak, resignation, timeout, address_of, side_to_move,
  player_to_move, clock_ms,
}
use ka_chat_indexer.Chess.Arena.Bracket.{finish, finish_draw, position_key, or_default}
use ka_chat_indexer.Chess.Arena.Play.{
  play_move, resign, claim, settle, moved_game, charge, exhaust, elapsed_at,
}
use ka_chat_indexer.Chess.Arena.Play.Guards.{play_move-Played, resign-Resigned, claim-Claimed}
use ka_chat_indexer.Chess.Arena.Play.Valid.{IsPlayer, address_of-IsPlayer, color_of-IsPlayer}
use ka_chat_indexer.Chess.Arena.Reducer.{apply_events}
use ka_chat_indexer.Chess.Arena.Reducer.Steps.{
  GameStep, kept, made, moves, resigns, claims, game_in,
}
use ka_chat_indexer.Chess.Arena.Reducer.Advance.{apply_event-Advances}
use ka_chat_indexer.Chess.Arena.Reducer.History.{
  empty_arena, apply_events-append, apply_events-AllUnplayed,
}

-- The place in the bracket, the players and the start are the same.
pub record SamePairing (g g' : Game) : Type 0 where
  pub round : g'.round ≡ g.round
  pub index : g'.index ≡ g.index
  pub white : g'.white ≡ g.white
  pub black : g'.black ≡ g.black
  pub started_at : g'.started_at ≡ g.started_at

SamePairing-refl : (g : Game) → SamePairing g g
SamePairing-refl g = record {
  round = refl;
  index = refl;
  white = refl;
  black = refl;
  started_at = refl;
}

finish-SamePairing :
    (w : Bytes) (o : Outcome) (time : ℤ) (g : Game) → SamePairing g (finish w o time g)
unfolding finish
finish-SamePairing w o time g = record {
  round = refl;
  index = refl;
  white = refl;
  black = refl;
  started_at = refl;
}

charge-SamePairing : (c : Color) (elapsed : ℤ) (g : Game) → SamePairing g (charge c elapsed g)
unfolding charge
charge-SamePairing white elapsed g = record {
  round = refl;
  index = refl;
  white = refl;
  black = refl;
  started_at = refl;
}
charge-SamePairing black elapsed g = record {
  round = refl;
  index = refl;
  white = refl;
  black = refl;
  started_at = refl;
}

finish_draw-SamePairing : (time : ℤ) (g : Game) → SamePairing g (finish_draw time g)
unfolding finish_draw
finish_draw-SamePairing time g =
    let advances =
      if ltb_ℤ (sub_i64 clock_ms g.black_used_ms) (sub_i64 clock_ms g.white_used_ms)
      then g.white
      else g.black in
    finish-SamePairing advances draw_tiebreak time g

settle-SamePairing : (mover : Color) (time : ℤ) (g : Game) → SamePairing g (settle mover time g)
unfolding settle
settle-SamePairing mover time g =
    let repeated = leb 3 (or_default 0 (lookup (position_key g.board) g.position_counts)) in
    let drawn =
      is_stalemate g.board
      || is_insufficient_material g.board
      || leb 100 g.halfmove_clock
      || repeated in
    let mated = finish (address_of g mover) checkmate time g in
    if-both (SamePairing g) (is_checkmate g.board) mated (if drawn then finish_draw time g else g)
      (finish-SamePairing (address_of g mover) checkmate time g)
      (if-both (SamePairing g) drawn (finish_draw time g) g (finish_draw-SamePairing time g)
        (SamePairing-refl g))

exhaust-SamePairing : (g : Game) → SamePairing g (exhaust g)
unfolding exhaust
exhaust-SamePairing g = record {
  round = ground arith;
  index = ground arith;
  white = ground arith;
  black = ground arith;
  started_at = ground arith;
}

SamePairing-trans : (f g h : Game) → SamePairing f g → SamePairing g h → SamePairing f h
SamePairing-trans f g h p q = record {
  round = q.round ∙ p.round;
  index = q.index ∙ p.index;
  white = q.white ∙ p.white;
  black = q.black ∙ p.black;
  started_at = q.started_at ∙ p.started_at;
}

moved-SamePairing :
    (g : Game) (piece : Piece) (mv : Move) (elapsed time : ℤ)
    → SamePairing g (moved_game piece mv elapsed time g)
unfolding moved_game
moved-SamePairing g piece mv elapsed time =
    let c = charge-SamePairing (side_to_move g) elapsed g in
    record {
      round = c.round;
      index = c.index;
      white = c.white;
      black = c.black;
      started_at = c.started_at;
    }

-- The game stays, or the sender is one of its players, and the pairing stays.
abbrev pub ByPlayer : ArenaEvent → Game → Game → Type 0
ByPlayer event g g' = (g' ≡ g) ⊎ (IsPlayer g event.sender × SamePairing g g')

move-ByPlayer :
    (event : ArenaEvent) (g g' : Game) → play_move event g ≡ some g' → ByPlayer event g g'
unfolding player_to_move
move-ByPlayer event g g' h =
    let p = play_move-Played event g g' h in
    let time = event.block_time in
    let g1 = moved_game p.piece p.mv (elapsed_at g time) time g in
    inr (
      rw (sym p.on_turn) (address_of-IsPlayer g (side_to_move g)),
      rw (sym p.result) (
          SamePairing-trans g g1 (settle (side_to_move g) time g1)
            (moved-SamePairing g p.piece p.mv (elapsed_at g time) time)
            (settle-SamePairing (side_to_move g) time g1)),
    )

resign-ByPlayer :
    (event : ArenaEvent) (g g' : Game) → resign event g ≡ some g' → ByPlayer event g g'
resign-ByPlayer event g g' h =
    let r = resign-Resigned event g g' h in
    inr (
      color_of-IsPlayer g event.sender r.color r.player,
      rw (sym r.result)
          (finish-SamePairing (address_of g (opposite r.color)) resignation event.block_time g),
    )

claim-ByPlayer : (event : ArenaEvent) (g g' : Game) → claim event g ≡ some g' → ByPlayer event g g'
claim-ByPlayer event g g' h =
    let c = claim-Claimed event g g' h in
    inr (
      color_of-IsPlayer g event.sender c.color c.player,
      rw (sym c.result) (
          SamePairing-trans g (exhaust g) (finish event.sender timeout event.block_time (exhaust g))
            (exhaust-SamePairing g)
            (finish-SamePairing event.sender timeout event.block_time (exhaust g))),
    )

step-ByPlayer :
    {event : ArenaEvent} {a b : Option Game}
    → GameStep event a b
    → (g : Game) → a ≡ some g
    → (g' : Game) × (b ≡ some g') × ByPlayer event g g'
step-ByPlayer (kept o) g e = (g, e, inl refl)
step-ByPlayer (made g' n) g e = ground (arith, e)
step-ByPlayer {event} (moves g1 g' h) g e =
    (g', refl, move-ByPlayer event g g' (rw (sym (some_injective g1 g e)) h))
step-ByPlayer {event} (resigns g1 g' h) g e =
    (g', refl, resign-ByPlayer event g g' (rw (sym (some_injective g1 g e)) h))
step-ByPlayer {event} (claims g1 g' h) g e =
    (g', refl, claim-ByPlayer event g g' (rw (sym (some_injective g1 g e)) h))

-- No event takes a game away, and one event changes a game only if its sender is one of the two
-- players; the place in the bracket, the players and the start of the game stay.
pub apply_events-ByPlayer :
    (ext : ChessExternals) (events : List ArenaEvent) (event : ArenaEvent) (id k : Bytes) (g : Game)
    → game_in (apply_events ext events []) id k ≡ some g
    → (g' : Game) × (game_in (apply_events ext (events ++ (event ∷ [])) []) id k ≡ some g')
      × ByPlayer event g g'
unfolding apply_events
apply_events-ByPlayer ext events event id k g found =
    let arena = apply_events ext events [] in
    let ok = apply_events-AllUnplayed ext events [] empty_arena in
    let (g', after, by) =
      step-ByPlayer ((apply_event-Advances ext event arena ok).0 id k) g found in
    (g', rw (apply_events-append ext events (event ∷ []) []) after, by)
