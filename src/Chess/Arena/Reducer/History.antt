-- ===== src/Chess/Arena/Reducer/History.antt =====
-- The games of the arena over a replay.
use ka_chat_indexer.Prelude.{
  ◌≡◌, refl, sym, ap, ◌∙◌, true, false, List, [], ◌∷◌, ◌++◌, Option, none, some, Bytes, lookup,
  bytes_eq, some_injective, arith,
}
use ka_chat_indexer.Prelude.Sort.{sort_by}
use ka_chat_indexer.Chess.Arena.Message.{ChessExternals, ArenaEvent}
use ka_chat_indexer.Chess.Arena.State.{Game, is_over}
use ka_chat_indexer.Chess.Arena.Bracket.Grows.{IsNew}
use ka_chat_indexer.Chess.Arena.Play.{play_move, resign, claim}
use ka_chat_indexer.Chess.Arena.Play.Guards.{play_move-Played, resign-Resigned, claim-Claimed}
use ka_chat_indexer.Chess.Arena.Play.Valid.{IsGame, new-IsGame}
use ka_chat_indexer.Chess.Arena.Play.Kept.{play_move-IsGame, resign-IsGame, claim-IsGame}
use ka_chat_indexer.Chess.Arena.Reducer.{Arena, apply_event, apply_events, event_lt, reduce}
use ka_chat_indexer.Chess.Arena.Reducer.Every.{empty-Every}
use ka_chat_indexer.Chess.Arena.Reducer.RoomSteps.{IsUnplayed}
use ka_chat_indexer.Chess.Arena.Reducer.Steps.{
  GameStep, kept, made, moves, resigns, claims, game_of, game_in,
}
use ka_chat_indexer.Chess.Arena.Reducer.Advance.{AllUnplayed, apply_event-Advances}

-- One step of the game for each event.
pub data GameHistory : List ArenaEvent → Option Game → Option Game → Type 0 where
  begin : (o : Option Game) → GameHistory [] o o
  follow :
      {event : ArenaEvent} {events : List ArenaEvent} {a b c : Option Game}
      → GameStep event a b
      → GameHistory events b c
      → GameHistory (event ∷ events) a c

pub empty_arena : AllUnplayed []
empty_arena = empty-Every IsUnplayed

pub apply_events-AllUnplayed :
    (ext : ChessExternals) (events : List ArenaEvent) (arena : Arena)
    → AllUnplayed arena
    → AllUnplayed (apply_events ext events arena)
unfolding apply_events
apply_events-AllUnplayed ext [] arena ok = ok
apply_events-AllUnplayed ext (e ∷ events) arena ok =
    apply_events-AllUnplayed ext events (apply_event ext e arena)
      (apply_event-Advances ext e arena ok).1

pub apply_events-GameHistory :
    (ext : ChessExternals) (events : List ArenaEvent) (arena : Arena)
    → AllUnplayed arena
    → (id k : Bytes)
    → GameHistory events (game_in arena id k) (game_in (apply_events ext events arena) id k)
unfolding apply_events
apply_events-GameHistory ext [] arena ok id k = begin (game_in arena id k)
apply_events-GameHistory ext (e ∷ events) arena ok id k =
    let (steps, next) = apply_event-Advances ext e arena ok in
    follow (steps id k) (apply_events-GameHistory ext events (apply_event ext e arena) next id k)

-- Every game of a replay comes from nothing by one step for each event, the events in the order of
-- the replay: a new game is made where none is, a move, a resignation or a claim is taken in it, or
-- nothing happens to it.
pub reduce-GameHistory :
    (ext : ChessExternals) (events : List ArenaEvent) (id k : Bytes)
    → GameHistory (sort_by event_lt events) none (game_in (reduce ext events) id k)
unfolding reduce game_in game_of lookup
reduce-GameHistory ext events id k =
    apply_events-GameHistory ext (sort_by event_lt events) [] empty_arena id k

-- A predicate of a game, of the game where there is one.
abbrev pub All {ℓ} : (Game → Type ℓ) → Option Game → Type ℓ
All P none = Unit
All P (some g) = P g

All-found {ℓ} : (P : Game → Type ℓ) (o : Option Game) (g : Game) → o ≡ some g → All P o → P g
All-found P none g e h = ground (arith, e)
All-found P (some g') g e h = rw (sym (some_injective g' g e)) h

module _ {ℓ} (P : Game → Type ℓ) (new : (g : Game) → IsNew g → P g)
    (played : (event : ArenaEvent) (g g' : Game) → play_move event g ≡ some g' → P g → P g')
    (resigned : (event : ArenaEvent) (g g' : Game) → resign event g ≡ some g' → P g → P g')
    (claimed : (event : ArenaEvent) (g g' : Game) → claim event g ≡ some g' → P g → P g') where
  step-All : {event : ArenaEvent} {a b : Option Game} → GameStep event a b → All P a → All P b
  step-All (kept o) h = h
  step-All (made g n) h = new g n
  step-All (moves g g' e) h = played _ g g' e h
  step-All (resigns g g' e) h = resigned _ g g' e h
  step-All (claims g g' e) h = claimed _ g g' e h

  -- What a new game has and the actions keep, every game has.
  pub history-All :
      {events : List ArenaEvent} {a b : Option Game} → GameHistory events a b → All P a → All P b
  history-All (begin o) h = h
  history-All (follow s rest) h = history-All rest (step-All s h)

-- The game at hand is over, so it is not the one that an action was taken in.
acted_not_over :
    (g g' : Game) (o : Option Game)
    → some g' ≡ some g
    → is_over g' ≡ false
    → is_over g ≡ true
    → o ≡ some g
acted_not_over g g' o e running over =
    let clash : true ≡ false = sym over ∙ ap is_over (sym (some_injective g' g e)) ∙ running in
    ground (arith, clash)

step-over :
    {event : ArenaEvent} {a b : Option Game}
    → GameStep event a b
    → (g : Game) → a ≡ some g
    → is_over g ≡ true
    → b ≡ some g
step-over (kept o) g e over = e
step-over (made g' n) g e over = ground (arith, e)
step-over {event} (moves g' g'' h) g e over =
    acted_not_over g g' (some g'') e (play_move-Played event g' g'' h).running over
step-over {event} (resigns g' g'' h) g e over =
    acted_not_over g g' (some g'') e (resign-Resigned event g' g'' h).running over
step-over {event} (claims g' g'' h) g e over =
    acted_not_over g g' (some g'') e (claim-Claimed event g' g'' h).running over

history-over :
    {events : List ArenaEvent} {a b : Option Game}
    → GameHistory events a b
    → (g : Game) → a ≡ some g
    → is_over g ≡ true
    → b ≡ some g
history-over (begin o) g e over = e
history-over (follow s rest) g e over = history-over rest g (step-over s g e over) over

pub apply_events-append :
    (ext : ChessExternals) (events more : List ArenaEvent) (arena : Arena)
    → apply_events ext (events ++ more) arena
      ≡ apply_events ext more (apply_events ext events arena)
unfolding apply_events
apply_events-append ext [] more arena = refl
apply_events-append ext (e ∷ events) more arena =
    apply_events-append ext events more (apply_event ext e arena)

-- A game that is over after some events is the same game, with the same winner and board, whatever
-- events follow.
pub apply_events-over :
    (ext : ChessExternals) (events more : List ArenaEvent) (id k : Bytes) (g : Game)
    → game_in (apply_events ext events []) id k ≡ some g
    → is_over g ≡ true
    → game_in (apply_events ext (events ++ more) []) id k ≡ some g
apply_events-over ext events more id k g found over =
    let arena = apply_events ext events [] in
    let ok = apply_events-AllUnplayed ext events [] empty_arena in
    rw (apply_events-append ext events more [])
      (history-over (apply_events-GameHistory ext more arena ok id k) g found over)

-- What every game is after some events.
pub apply_events-IsGame :
    (ext : ChessExternals) (events : List ArenaEvent) (id k : Bytes) (g : Game)
    → game_in (apply_events ext events []) id k ≡ some g
    → IsGame g
unfolding game_in game_of lookup
apply_events-IsGame ext events id k g found =
    let history = apply_events-GameHistory ext events [] empty_arena id k in
    All-found IsGame (game_in (apply_events ext events []) id k) g found
      (history-All IsGame new-IsGame play_move-IsGame resign-IsGame claim-IsGame history tt)

-- Every game of a replay is well formed: each player has used from nothing to the whole of the
-- clock, the side to move is the parity of the moves played, the winner is one of the two players,
-- an end time and an outcome stand exactly in a game with a winner, and a game without one has fewer
-- than 100 half-moves since a pawn moved or a piece was taken.
pub reduce-IsGame :
    (ext : ChessExternals) (events : List ArenaEvent) (id k : Bytes) (g : Game)
    → game_in (reduce ext events) id k ≡ some g
    → IsGame g
unfolding reduce
reduce-IsGame ext events id k g found =
    apply_events-IsGame ext (sort_by event_lt events) id k g found
