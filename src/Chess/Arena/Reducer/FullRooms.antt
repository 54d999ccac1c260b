-- ===== src/Chess/Arena/Reducer/FullRooms.antt =====
-- The seats of every room of a replay.
use ka_chat_indexer.Prelude.{
  ℕ, ◌≡◌, refl, ◌⊎◌, inl, inr, ◌||◌, not, List, [], ◌∷◌, Option, none, some, Bytes, lookup, insert,
  contains_key, any, ◌==◌, nat_eq, int_eq, bytes_eq, Bool-cases, Option-cases, arith, if-both,
}
use ka_chat_indexer.Prelude.Int.{ℤ, pos}
use ka_chat_indexer.Prelude.Sort.{sort_by}
use ka_chat_indexer.Chess.Arena.Message.{
  ChessExternals, ArenaEvent, public_number, duel_number, is_some, is_public_id,
  is_valid_create_key,
}
use ka_chat_indexer.Chess.Arena.State.{Game, Tournament, is_open}
use ka_chat_indexer.Chess.Arena.Play.{play_move, resign, claim}
use ka_chat_indexer.Chess.Arena.Reducer.{
  Arena, update_game, seat, leave, cancel, created_capacity, new_room, create, room_capacity, join,
  apply_event, apply_events, event_lt, reduce,
}
use ka_chat_indexer.Chess.Arena.Reducer.Every.{Every, empty-Every, insert-Every, update-Every}
use ka_chat_indexer.Chess.Arena.Reducer.Advance.{not_started}
use ka_chat_indexer.Chess.Arena.Reducer.Seats.{
  IsRoom, waiting-IsRoom, seat-IsRoom, leave-IsRoom, cancel-IsRoom, update_game-IsRoom,
}

created_capacity-sized : (p : Option ℤ) → (created_capacity p ≡ 2) ⊎ (created_capacity p ≡ 8)
unfolding created_capacity
created_capacity-sized none = inr refl
created_capacity-sized (some p) = elim (Bool-cases (p == pos 2)) [
  | inl e ↦ rw (e, created_capacity) (inl refl)
  | inr e ↦ rw (e, created_capacity) (inr refl)
]

room_capacity-sized : (id : Bytes) (n : ℕ) → room_capacity id ≡ some n → (n ≡ 2) ⊎ (n ≡ 8)
unfolding room_capacity
room_capacity-sized id n h = elim (Bool-cases (is_some (public_number id))) [
  | inl p ↦ inr (ground (arith, h, p))
  | inr p ↦ elim (Bool-cases (is_some (duel_number id))) [
    | inl q ↦ inl (ground (arith, h, p, q))
    | inr q ↦ ground (arith, h, p, q)
  ]
]

create-IsRoom :
    (ext : ChessExternals) (event : ArenaEvent) (arena : Arena)
    → Every IsRoom arena
    → Every IsRoom (create ext event arena)
unfolding create new_room any
create-IsRoom ext event arena ok =
    let m = event.message in
    let capacity = created_capacity m.p in
    let sized = created_capacity-sized m.p in
    let room =
      new_room event capacity (event.sender ∷ []) ((event.sender, event.block_time) ∷ []) in
    let opened =
      insert-Every IsRoom arena m.t room ok
        (waiting-IsRoom room sized (refl, tt) (ground (arith, sized)) refl) in
    if-both (Every IsRoom) (contains_key m.t arena || is_public_id m.t) arena _ ok (
      if-both (Every IsRoom) (not (capacity == 2 || is_valid_create_key ext m.k m.t)) arena
        (insert m.t room arena) ok opened)

join-IsRoom :
    (event : ArenaEvent) (arena : Arena) → Every IsRoom arena → Every IsRoom (join event arena)
unfolding join new_room
join-IsRoom event arena ok =
    let id = event.message.t in
    elim (Option-cases (lookup id arena)) [
      | inr (t, e) ↦ elim (Bool-cases (is_open t)) [
        | inl p ↦
            rw (e, p, join)
              (insert-Every IsRoom arena id (seat event.sender event.block_time t) ok
                (seat-IsRoom event.sender event.block_time t (ok id t e) (not_started t p)))
        | inr p ↦ rw (e, p, join) ok
      ]
      | inl e ↦ elim (Option-cases (room_capacity id)) [
        | inl h ↦ rw (e, h, join) ok
        | inr (capacity, h) ↦
            let room = new_room event capacity [] [] in
            let sized = room_capacity-sized id capacity h in
            rw (e, h, join)
              (insert-Every IsRoom arena id (seat event.sender event.block_time room) ok (
                seat-IsRoom event.sender event.block_time room
                  (waiting-IsRoom room sized tt (ground (arith, sized)) refl) refl))
      ]
    ]

apply_event-IsRoom :
    (ext : ChessExternals) (event : ArenaEvent) (arena : Arena)
    → Every IsRoom arena
    → Every IsRoom (apply_event ext event arena)
unfolding apply_event
apply_event-IsRoom ext event arena ok =
    let m = event.message in
    let sender = event.sender in
    let game_update = λ (f : Game → Option Game).
      update-Every IsRoom m.t (update_game m.g f) arena (update_game-IsRoom m.g f) ok in
    if-both (Every IsRoom) _ _ _ (create-IsRoom ext event arena ok) (
      if-both (Every IsRoom) _ _ _ (join-IsRoom event arena ok) (
        if-both (Every IsRoom) _ _ _
          (update-Every IsRoom m.t (leave sender) arena (leave-IsRoom sender) ok)
          (if-both (Every IsRoom) _ _ _
            (update-Every IsRoom m.t (cancel m.t sender) arena (cancel-IsRoom m.t sender) ok)
            (if-both (Every IsRoom) _ _ _ (game_update (play_move event)) (
              if-both (Every IsRoom) _ _ _ (game_update (resign event))
                (if-both (Every IsRoom) _ _ _ (game_update (claim event)) ok))))))

apply_events-IsRoom :
    (ext : ChessExternals) (events : List ArenaEvent) (arena : Arena)
    → Every IsRoom arena
    → Every IsRoom (apply_events ext events arena)
unfolding apply_events
apply_events-IsRoom ext [] arena ok = ok
apply_events-IsRoom ext (e ∷ events) arena ok =
    apply_events-IsRoom ext events (apply_event ext e arena) (apply_event-IsRoom ext e arena ok)

-- Every room of a replay has two or eight seats and no player twice; while it has not started a
-- seat is free, and once it has started it is full.
pub reduce-IsRoom :
    (ext : ChessExternals) (events : List ArenaEvent) (id : Bytes) (t : Tournament)
    → lookup id (reduce ext events) ≡ some t
    → IsRoom t
unfolding reduce
reduce-IsRoom ext events = apply_events-IsRoom ext (sort_by event_lt events) [] (empty-Every IsRoom)
