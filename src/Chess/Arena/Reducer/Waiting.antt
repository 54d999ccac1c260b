-- ===== src/Chess/Arena/Reducer/Waiting.antt =====
-- The clock that runs out, over the replay.
use ka_chat_indexer.Prelude.{
  ℕ, ◌+◌, ◌^◌, ◌≤◌, ◌<◌, ◌≡◌, ◌≢◌, refl, ap, ◌∙◌, inl, inr, true, false, List, [], ◌∷◌, ◌++◌,
  Option, some, Bytes, lookup, insert, lookup-insert, bytes_eq, bytes_beq, bytes_beq_self, arith,
  if-both,
}
use ka_chat_indexer.Prelude.Int.{pos}
use ka_chat_indexer.Prelude.Text.{codes}
use ka_chat_indexer.Chess.Rules.Board.{opposite}
use ka_chat_indexer.Chess.Arena.Message.{ChessExternals, ArenaEvent}
use ka_chat_indexer.Chess.Arena.State.{
  Game, Tournament, timeout, is_over, is_live, side_to_move, address_of,
}
use ka_chat_indexer.Chess.Arena.Bracket.{advance_after}
use ka_chat_indexer.Chess.Arena.Bracket.Grows.{advance_after-Grows}
use ka_chat_indexer.Chess.Arena.Play.{claim}
use ka_chat_indexer.Chess.Arena.Play.Timeout.{claim-waiting}
use ka_chat_indexer.Chess.Arena.Reducer.{
  Arena, update, update_game, put_game, apply_event, apply_events,
}
use ka_chat_indexer.Chess.Arena.Reducer.Steps.{game_of, game_in}
use ka_chat_indexer.Chess.Arena.Reducer.History.{apply_events-append, apply_events-IsGame}

lookup-insert_same :
    (k : Bytes) (g : Game) (m : List (Bytes × Game)) → lookup k (insert k g m) ≡ some g
lookup-insert_same k g m = lookup-insert k k g m ∙ rw (bytes_beq_self k) refl

advance_after-kept :
    (k : Bytes) (g : Game) (t : Tournament)
    → lookup k t.games ≡ some g
    → lookup k (advance_after k t).games ≡ some g
advance_after-kept k g t h = elim (advance_after-Grows k t k) [
  | inl e ↦ e ∙ h
  | inr (absent, _, _, _) ↦ ground (arith, absent, h)
]

-- The game that is put back is found, whether or not its winner moves on.
put_game-lookup : (k : Bytes) (g : Game) (t : Tournament) → lookup k (put_game k g t).games ≡ some g
unfolding put_game
put_game-lookup k g t =
    let t' = record t { games = insert k g t.games } in
    let here = lookup-insert_same k g t.games in
    if-both (λ (u : Tournament). lookup k u.games ≡ some g) (is_over g) (advance_after k t') t'
      (advance_after-kept k g t' here) here

update-game_in :
    (arena : Arena) (id k : Bytes) (f : Game → Option Game) (t : Tournament) (g g' : Game)
    → lookup id arena ≡ some t
    → is_live t ≡ true
    → lookup k t.games ≡ some g
    → f g ≡ some g'
    → game_in (update id (update_game (some k) f) arena) id k ≡ some g'
unfolding game_in game_of update update_game
update-game_in arena id k f t g g' room live game step =
    let changed : update_game (some k) f t ≡ some (put_game k g' t) =
      rw (live, game, step, update_game) refl in
    let t' = put_game k g' t in
    let found : lookup id (insert id t' arena) ≡ some t' =
      lookup-insert id id t' arena ∙ rw (bytes_beq_self id) refl in
    rw (room, changed, update, found) (put_game-lookup k g' t)

apply_event-claim :
    (ext : ChessExternals) (event : ArenaEvent) (arena : Arena)
    → event.message.a ≡ codes "claim"
    → apply_event ext event arena
      ≡ update event.message.t (update_game event.message.g (claim event)) arena
unfolding apply_event bytes_beq
apply_event-claim ext event arena a = rw a refl

-- After any events, in a tournament that is live, take a game that is not over, between two
-- different players, whose last event was at a time that is not negative. A claim by the player who
-- waits, of that game and 325 seconds later or more (in a time below 2 ^ 63), ends the game: after
-- that event, that player has won it by the clock.
pub apply_events-claim :
    (ext : ChessExternals) (events : List ArenaEvent) (event : ArenaEvent) (t : Tournament)
    (k : Bytes) (g : Game) (time last : ℕ)
    → lookup event.message.t (apply_events ext events []) ≡ some t
    → is_live t ≡ true
    → lookup k t.games ≡ some g
    → event.message.a ≡ codes "claim"
    → event.message.g ≡ some k
    → is_over g ≡ false
    → g.white ≢ g.black
    → event.sender ≡ address_of g (opposite (side_to_move g))
    → g.last_event_at ≡ pos last
    → event.block_time ≡ pos time
    → last + 325000 ≤ time
    → time < 2 ^ 63
    → (g' : Game) × (game_in (apply_events ext (events ++ (event ∷ [])) []) event.message.t k
        ≡ some g')
      × (g'.winner ≡ some event.sender)
      × (g'.outcome ≡ some timeout)
unfolding apply_events game_in game_of
apply_events-claim ext events event t k g time last room live game action key running distinct
      sender at now late bound =
    let arena = apply_events ext events [] in
    let id = event.message.t in
    let found : game_in arena id k ≡ some g = rw room game in
    let valid = apply_events-IsGame ext events id k g found in
    let (g', claimed, won, lost) =
      claim-waiting event g time last valid running distinct sender at now late bound in
    let ended : game_in (update id (update_game (some k) (claim event)) arena) id k ≡ some g' =
      update-game_in arena id k (claim event) t g g' room live game claimed in
    let step : apply_event ext event arena ≡ update id (update_game (some k) (claim event)) arena =
      apply_event-claim ext event arena action
      ∙ ap (λ (o : Option Bytes). update id (update_game o (claim event)) arena) key in
    (g', rw (apply_events-append ext events (event ∷ []) [], step) ended, won, lost)
