-- ===== src/Chess/Arena/Reducer/Advance.antt =====
-- One event, and the games of the arena.
use ka_chat_indexer.Prelude.{
  ◌≡◌, refl, sym, ◌∙◌, inl, inr, Bool, true, false, ◌||◌, not, [], ◌∷◌, Option, none, some, Bytes,
  lookup, insert, contains_key, bytes_eq, nat_eq, ◌==◌, Bool-cases, Option-cases, arith, if-both,
}
use ka_chat_indexer.Chess.Arena.Message.{
  ChessExternals, ArenaEvent, is_public_id, is_valid_create_key,
}
use ka_chat_indexer.Chess.Arena.State.{Tournament, is_open}
use ka_chat_indexer.Chess.Arena.Play.{play_move, resign, claim}
use ka_chat_indexer.Chess.Arena.Reducer.{
  Arena, update, update_game, seat, leave, cancel, create, created_capacity, join, new_room,
  room_capacity, apply_event,
}
use ka_chat_indexer.Chess.Arena.Reducer.Every.{Every, insert-Every}
use ka_chat_indexer.Chess.Arena.Reducer.Steps.{
  kept, moves, resigns, claims, Steps, game_of, game_in, insert-Steps,
}
use ka_chat_indexer.Chess.Arena.Reducer.RoomSteps.{
  IsUnplayed, update_game-Steps, seat-Steps, leave-games, cancel-games,
}

-- No room that has not started has a game.
abbrev pub AllUnplayed : Arena → Type 0
AllUnplayed = Every IsUnplayed

-- One step at every game, and the rooms as they should be.
abbrev pub Advances : ArenaEvent → Arena → Arena → Type 0
Advances event arena arena' =
    ((id : Bytes) → Steps event (game_in arena id) (game_in arena' id)) × AllUnplayed arena'

kept-Advances :
    (event : ArenaEvent) (arena : Arena) → AllUnplayed arena → Advances event arena arena
kept-Advances event arena ok = (λ id k. kept (game_in arena id k), ok)

insert-Advances :
    (event : ArenaEvent) (arena : Arena) (id : Bytes) (t : Tournament)
    → AllUnplayed arena
    → Steps event (game_of (lookup id arena)) (game_of (some t))
    → IsUnplayed t
    → Advances event arena (insert id t arena)
insert-Advances event arena id t ok steps new =
    (insert-Steps event arena id t steps, insert-Every IsUnplayed arena id t ok new)

update-Advances :
    (event : ArenaEvent) (id : Bytes) (f : Tournament → Option Tournament) (arena : Arena)
    → AllUnplayed arena
    → ((t t' : Tournament)
        → IsUnplayed t
        → f t ≡ some t'
        → Steps event (game_of (some t)) (game_of (some t')) × IsUnplayed t')
    → Advances event arena (update id f arena)
unfolding update
update-Advances event id f arena ok step = elim (Option-cases (lookup id arena)) [
  | inl e ↦ rw (e, update) (kept-Advances event arena ok)
  | inr (t, e) ↦ elim (Option-cases (f t)) [
    | inl h ↦ rw (e, h, update) (kept-Advances event arena ok)
    | inr (t', h) ↦
        let (steps, new) = step t t' (ok id t e) h in
        let at_id : Steps event (game_of (lookup id arena)) (game_of (some t')) =
          λ k. rw e (steps k) in
        rw (e, h, update) (insert-Advances event arena id t' ok at_id new)
  ]
]

same_games-Steps :
    (event : ArenaEvent) (t t' : Tournament)
    → IsUnplayed t
    → (t'.games ≡ t.games) × (t'.started_at ≡ t.started_at)
    → Steps event (game_of (some t)) (game_of (some t')) × IsUnplayed t'
unfolding game_of
same_games-Steps event t t' ok (games, started) =
    (λ k. rw games (kept (lookup k t.games)), λ h. games ∙ ok (sym started ∙ h))

none_of_absent :
    (id : Bytes) (b : Bool) (arena : Arena)
    → (contains_key id arena || b) ≡ false
    → lookup id arena ≡ none
unfolding contains_key
none_of_absent id b arena h = elim (Option-cases (lookup id arena)) [
  | inl e ↦ e
  | inr (t, e) ↦ ground (arith, e, h)
]

-- A room with no games, where there was none.
opened-Advances :
    (event : ArenaEvent) (arena : Arena) (id : Bytes) (t : Tournament)
    → AllUnplayed arena
    → lookup id arena ≡ none
    → Steps event (λ _. none) (game_of (some t)) × IsUnplayed t
    → Advances event arena (insert id t arena)
unfolding game_of
opened-Advances event arena id t ok absent (steps, new) =
    insert-Advances event arena id t ok (λ k. rw absent (steps k)) new

pub not_started : (t : Tournament) → is_open t ≡ true → t.started_at ≡ none
unfolding is_open
not_started t h = elim (Option-cases t.started_at) [ inl e ↦ e | inr (s, e) ↦ ground (arith, e, h) ]

create-Advances :
    (ext : ChessExternals) (event : ArenaEvent) (arena : Arena)
    → AllUnplayed arena
    → Advances event arena (create ext event arena)
unfolding create game_of new_room lookup
create-Advances ext event arena ok =
    let m = event.message in
    let capacity = created_capacity m.p in
    let room =
      new_room event capacity (event.sender ∷ []) ((event.sender, event.block_time) ∷ []) in
    elim (Bool-cases (contains_key m.t arena || is_public_id m.t)) [
      | inl p ↦ rw (p, create) (kept-Advances event arena ok)
      | inr p ↦
          rw (p, create)
            (if-both (Advances event arena) (not (capacity == 2 || is_valid_create_key ext m.k m.t))
              arena (insert m.t room arena) (kept-Advances event arena ok)
              (opened-Advances event arena m.t room ok
                (none_of_absent m.t (is_public_id m.t) arena p) (λ k. kept none, λ h. refl)))
    ]

no_game : (t : Tournament) (k : Bytes) → t.games ≡ [] → game_of (some t) k ≡ none
unfolding game_of lookup
no_game t k empty = rw empty refl

-- A change of a room with no games.
reseated-Advances :
    (event : ArenaEvent) (arena : Arena) (id : Bytes) (t t' : Tournament)
    → AllUnplayed arena
    → lookup id arena ≡ some t
    → t.games ≡ []
    → Steps event (λ _. none) (game_of (some t')) × IsUnplayed t'
    → Advances event arena (insert id t' arena)
reseated-Advances event arena id t t' ok found empty (steps, new) =
    insert-Advances event arena id t' ok (λ k. rw (found, no_game t k empty) (steps k)) new

join-Advances :
    (event : ArenaEvent) (arena : Arena)
    → AllUnplayed arena
    → Advances event arena (join event arena)
unfolding join game_of new_room is_open
join-Advances event arena ok =
    let id = event.message.t in
    elim (Option-cases (lookup id arena)) [
      | inr (t, e) ↦ elim (Bool-cases (is_open t)) [
        | inl p ↦
            let empty = ok id t e (not_started t p) in
            rw (e, p, join)
              (reseated-Advances event arena id t (seat event.sender event.block_time t) ok e empty
                (seat-Steps event event.sender event.block_time t empty))
        | inr p ↦ rw (e, p, join) (kept-Advances event arena ok)
      ]
      | inl e ↦ elim (Option-cases (room_capacity id)) [
        | inl h ↦ rw (e, h, join) (kept-Advances event arena ok)
        | inr (capacity, h) ↦
            let room = new_room event capacity [] [] in
            rw (e, h, join)
              (opened-Advances event arena id (seat event.sender event.block_time room) ok e
                (seat-Steps event event.sender event.block_time room refl))
      ]
    ]

pub apply_event-Advances :
    (ext : ChessExternals) (event : ArenaEvent) (arena : Arena)
    → AllUnplayed arena
    → Advances event arena (apply_event ext event arena)
unfolding apply_event
apply_event-Advances ext event arena ok =
    let m = event.message in
    let sender = event.sender in
    let step = update-Advances event m.t in
    let same = same_games-Steps event in
    if-both (Advances event arena) _ _ _ (create-Advances ext event arena ok) (
      if-both (Advances event arena) _ _ _ (join-Advances event arena ok) (
        if-both (Advances event arena) _ _ _
          (step (leave sender) arena ok (λ t t' u h. same t t' u (leave-games sender t t' h)))
          (if-both (Advances event arena) _ _ _
            (step (cancel m.t sender) arena ok
              (λ t t' u h. same t t' u (cancel-games m.t sender t t' h)))
            (if-both (Advances event arena) _ _ _
              (step (update_game m.g (play_move event)) arena ok
                (λ t t' u h. update_game-Steps event m.g (play_move event) t t' moves h))
              (if-both (Advances event arena) _ _ _
                (step (update_game m.g (resign event)) arena ok
                  (λ t t' u h. update_game-Steps event m.g (resign event) t t' resigns h))
                (if-both (Advances event arena) _ _ _
                  (step (update_game m.g (claim event)) arena ok
                    (λ t t' u h. update_game-Steps event m.g (claim event) t t' claims h))
                  (kept-Advances event arena ok)))))))
