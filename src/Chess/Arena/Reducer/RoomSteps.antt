-- ===== src/Chess/Arena/Reducer/RoomSteps.antt =====
-- What the events do to the games and the start of one tournament.
use ka_chat_indexer.Prelude.{
  ℕ, ◌≡◌, refl, sym, ◌∙◌, ◌⊎◌, inl, inr, true, List, [], ◌∷◌, ◌++◌, Option, none, some, Bytes,
  lookup, insert, lookup-insert, bytes_eq, bytes_beq, bytes_beq_iff, Bool-cases, Option-cases,
  some_of_bind, some_injective, arith, if◌then◌else◌, length, ◌==◌, nat_eq, any, get_or, suc,
}
use ka_chat_indexer.Prelude.Int.{ℤ}
use ka_chat_indexer.Chess.Arena.Message.{ArenaEvent}
use ka_chat_indexer.Chess.Arena.State.{Game, Tournament, is_over, is_live, is_duel}
use ka_chat_indexer.Chess.Arena.Bracket.{
  start, start_pairs, add_game, expire_seats, advance_after, next_game, pair_winners, duel_pairs,
  seed_pairs,
}
use ka_chat_indexer.Chess.Arena.Bracket.Grows.{
  Games, IsNew, AllNew, advance_after-Grows, start-AllNew,
}
use ka_chat_indexer.Chess.Arena.Play.Guards.{true_of_guard}
use ka_chat_indexer.Chess.Arena.Reducer.{put_game, update_game, add_player, seat, leave, cancel}
use ka_chat_indexer.Chess.Arena.Reducer.Steps.{GameStep, kept, made, Steps, game_of, kept_of}

-- A room that has not started has no games.
abbrev pub IsUnplayed : Tournament → Type 0
IsUnplayed t = t.started_at ≡ none → t.games ≡ []

pub no_open_of_started : (t : Tournament) (time : ℤ) → t.started_at ≡ some time → IsUnplayed t
no_open_of_started t time e h = ground (arith, e, h)

add_game-started :
    (round index : ℕ) (a b : Bytes) (time : ℤ) (t : Tournament)
    → (add_game round index a b time t).started_at ≡ t.started_at
unfolding add_game
add_game-started round index a b time t = refl

pub start_pairs-started :
    (seeds : List Bytes) (time : ℤ) (index : ℕ) (pairs : List (ℕ × ℕ)) (t : Tournament)
    → (start_pairs seeds time index pairs t).started_at ≡ t.started_at
unfolding start_pairs add_game
start_pairs-started seeds time index [] t = refl
start_pairs-started seeds time index ((a, b) ∷ pairs) t =
    start_pairs-started seeds time (suc index) pairs
      (add_game 1 index (get_or seeds a []) (get_or seeds b []) time t)

pub start-started : (time : ℤ) (t : Tournament) → (start time t).started_at ≡ some time
unfolding start
start-started time t =
    start_pairs-started t.players time 0 (if is_duel t then duel_pairs else seed_pairs)
      (record t { started_at = some time })

pub next_game-started :
    (round index : ℕ) (time : ℤ) (t : Tournament)
    → (next_game round index time t).started_at ≡ t.started_at
unfolding next_game pair_winners add_game
next_game-started round index time t = ground arith

pub advance_after-started :
    (id : Bytes) (t : Tournament) → (advance_after id t).started_at ≡ t.started_at
unfolding advance_after
advance_after-started id t = grind (arith, next_game-started)

pub put_game-started :
    (id : Bytes) (g : Game) (t : Tournament) → (put_game id g t).started_at ≡ t.started_at
unfolding put_game
put_game-started id g t = elim (Bool-cases (is_over g)) [
  | inl p ↦ rw (p, put_game) (advance_after-started id (record t { games = insert id g t.games }))
  | inr p ↦ rw (p, put_game) refl
]

none_before : {event : ArenaEvent} {o : Option Game} → GameStep event o none → o ≡ none
none_before (kept _) = refl

grown :
    (event : ArenaEvent) (o o1 o2 : Option Game)
    → GameStep event o o1
    → (o2 ≡ o1) ⊎ ((o1 ≡ none) × (g : Game) × (o2 ≡ some g) × IsNew g)
    → GameStep event o o2
grown event o o1 o2 step (inl e) = rw e step
grown event o o1 o2 step (inr (before, g, after, new)) =
    let start : GameStep event o none = rw (sym before) step in
    rw (none_before start, after) (made g new)

written :
    (event : ArenaEvent) (id : Bytes) (g g' : Game) (m : Games)
    → lookup id m ≡ some g
    → GameStep event (some g) (some g')
    → Steps event (λ k. lookup k m) (λ k. lookup k (insert id g' m))
written event id g g' m found step k = elim (Bool-cases (bytes_beq id k)) [
  | inl p ↦
      let here : lookup k (insert id g' m) ≡ some g' = lookup-insert id k g' m ∙ rw p refl in
      let before : lookup k m ≡ some g = rw (sym ((bytes_beq_iff id k).0 p)) found in
      rw (here, before) step
  | inr p ↦
      kept_of event (lookup k m) (lookup k (insert id g' m)) (lookup-insert id k g' m ∙ rw p refl)
]

put_game-Steps :
    (event : ArenaEvent) (id : Bytes) (g g' : Game) (t : Tournament)
    → lookup id t.games ≡ some g
    → GameStep event (some g) (some g')
    → Steps event (game_of (some t)) (game_of (some (put_game id g' t)))
unfolding game_of put_game
put_game-Steps event id g g' t found step k =
    let t' : Tournament = record t { games = insert id g' t.games } in
    let at_key = written event id g g' t.games found step k in
    elim (Bool-cases (is_over g')) [
      | inl p ↦
          rw (p, put_game)
            (grown event (lookup k t.games) (lookup k (insert id g' t.games))
              (lookup k (advance_after id t').games) at_key (advance_after-Grows id t' k))
      | inr p ↦ rw (p, put_game) at_key
    ]

pub is_some_start : (t : Tournament) → is_live t ≡ true → (s : ℤ) × (t.started_at ≡ some s)
unfolding is_live
is_some_start t h = elim (Option-cases t.started_at) [
  | inl e ↦ ground (arith, e, h)
  | inr (s, e) ↦ (s, e)
]

-- A change of one game, of a room that has started.
pub update_game-Steps :
    (event : ArenaEvent) (m : Option Bytes) (f : Game → Option Game) (t t' : Tournament)
    → ((g g' : Game) → f g ≡ some g' → GameStep event (some g) (some g'))
    → update_game m f t ≡ some t'
    → Steps event (game_of (some t)) (game_of (some t')) × IsUnplayed t'
unfolding update_game
update_game-Steps event none f t t' step h = ground (arith, h)
update_game-Steps event (some id) f t t' step h =
    let (live, h1) = true_of_guard (is_live t) _ t' h in
    let (g, found, h2) = some_of_bind (lookup id t.games) _ t' h1 in
    let (g', changed, h3) = some_of_bind (f g) _ t' h2 in
    let result : put_game id g' t ≡ t' = some_injective _ t' h3 in
    let (s, started) = is_some_start t live in
    (
      rw (sym result) (put_game-Steps event id g g' t found (step g g' changed)),
      rw (sym result)
          (no_open_of_started (put_game id g' t) s (put_game-started id g' t ∙ started)),
    )

-- The room has new games only, and none before it starts.
abbrev pub IsFresh : Tournament → Type 0
IsFresh t = AllNew t.games × IsUnplayed t

empty-IsFresh : (t : Tournament) → t.games ≡ [] → IsFresh t
unfolding lookup
empty-IsFresh t empty = (rw empty (λ k g h. ground (arith, h)), λ _. empty)

expire_seats-games : (time : ℤ) (t : Tournament) → (expire_seats time t).games ≡ t.games
unfolding expire_seats
expire_seats-games time t = ground arith

add_player-IsFresh :
    (sender : Bytes) (time : ℤ) (t : Tournament) → t.games ≡ [] → IsFresh (add_player sender time t)
unfolding add_player
add_player-IsFresh sender time t empty =
    let t' : Tournament = record t {
      players = t.players ++ (sender ∷ []);
      joined_at = insert sender time t.joined_at;
    } in
    elim (Bool-cases (length t'.players == t'.capacity)) [
      | inl p ↦
          rw (p, add_player)
            (
              start-AllNew time t' empty,
              no_open_of_started (start time t') time (start-started time t'),
            )
      | inr p ↦ rw (p, add_player) (empty-IsFresh t' empty)
    ]

seat-IsFresh :
    (sender : Bytes) (time : ℤ) (t : Tournament) → t.games ≡ [] → IsFresh (seat sender time t)
unfolding seat
seat-IsFresh sender time t empty =
    let t' = expire_seats time t in
    let none_left = expire_seats-games time t ∙ empty in
    elim (Bool-cases (any (λ p. p == sender) t'.players)) [
      | inl p ↦ rw (p, seat) (empty-IsFresh t' none_left)
      | inr p ↦ rw (p, seat) (add_player-IsFresh sender time t' none_left)
    ]

AllNew-Steps :
    (event : ArenaEvent) (t : Tournament)
    → AllNew t.games
    → Steps event (λ _. none) (game_of (some t))
unfolding game_of
AllNew-Steps event t new k = elim (Option-cases (lookup k t.games)) [
  | inl e ↦ rw e (kept none)
  | inr (g, e) ↦ rw e (made g (new k g e))
]

-- A seat, in a room with no games.
pub seat-Steps :
    (event : ArenaEvent) (sender : Bytes) (time : ℤ) (t : Tournament)
    → t.games ≡ []
    → Steps event (λ _. none) (game_of (some (seat sender time t)))
      × IsUnplayed (seat sender time t)
seat-Steps event sender time t empty =
    let fresh = seat-IsFresh sender time t empty in
    (AllNew-Steps event (seat sender time t) fresh.0, fresh.1)

-- Leaving and cancelling leave the games as they are.
pub leave-games :
    (sender : Bytes) (t t' : Tournament)
    → leave sender t ≡ some t'
    → (t'.games ≡ t.games) × (t'.started_at ≡ t.started_at)
unfolding leave
leave-games sender t t' h = ground (arith, h)

pub cancel-games :
    (id sender : Bytes) (t t' : Tournament)
    → cancel id sender t ≡ some t'
    → (t'.games ≡ t.games) × (t'.started_at ≡ t.started_at)
unfolding cancel
cancel-games id sender t t' h = ground (arith, h)
