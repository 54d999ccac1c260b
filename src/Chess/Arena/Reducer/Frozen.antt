-- ===== src/Chess/Arena/Reducer/Frozen.antt =====
-- A tournament that is neither open nor live.
use ka_chat_indexer.Prelude.{
  ◌≡◌, refl, ◌∙◌, inl, inr, true, false, ◌||◌, not, [], ◌∷◌, Option, none, some, Bytes, lookup,
  insert, lookup-insert, contains_key, ◌==◌, nat_eq, bytes_eq, bytes_beq, bytes_beq_iff, Bool-cases,
  Option-cases, if-both,
}
use ka_chat_indexer.Chess.Arena.Message.{
  ChessExternals, ArenaEvent, is_public_id, is_valid_create_key,
}
use ka_chat_indexer.Chess.Arena.State.{Game, Tournament, is_open, is_live}
use ka_chat_indexer.Chess.Arena.Play.{play_move, resign, claim}
use ka_chat_indexer.Chess.Arena.Reducer.{
  Arena, update, update_game, leave, cancel, created_capacity, new_room, create, room_capacity,
  seat, join, apply_event,
}

-- The tournament under the id.
abbrev Holds : Bytes → Tournament → Arena → Type 0
Holds id t arena = lookup id arena ≡ some t

insert-Holds :
    (id other : Bytes) (t t' : Tournament) (arena : Arena)
    → Holds id t arena
    → bytes_beq other id ≡ false
    → Holds id t (insert other t' arena)
insert-Holds id other t t' arena h apart = lookup-insert other id t' arena ∙ (rw apart h)

update-Holds :
    (id other : Bytes) (f : Tournament → Option Tournament) (t : Tournament) (arena : Arena)
    → Holds id t arena
    → f t ≡ none
    → Holds id t (update other f arena)
unfolding update
update-Holds id other f t arena h refused = elim (Bool-cases (bytes_beq other id)) [
  | inl p ↦
      let found : lookup other arena ≡ some t = rw ((bytes_beq_iff other id).0 p) h in
      rw (found, refused, update) h
  | inr p ↦ elim (Option-cases (lookup other arena)) [
    | inl e ↦ rw (e, update) h
    | inr (s, e) ↦ elim (Option-cases (f s)) [
      | inl g ↦ rw (e, g, update) h
      | inr (s', g) ↦ rw (e, g, update) (insert-Holds id other t s' arena h p)
    ]
  ]
]

closed_leave : (sender : Bytes) (t : Tournament) → is_open t ≡ false → leave sender t ≡ none
unfolding leave
closed_leave sender t closed = rw (closed, leave) refl

closed_cancel : (id sender : Bytes) (t : Tournament) → is_open t ≡ false → cancel id sender t ≡ none
unfolding cancel
closed_cancel id sender t closed = rw (closed, cancel) refl

still_update_game :
    (m : Option Bytes) (f : Game → Option Game) (t : Tournament)
    → is_live t ≡ false
    → update_game m f t ≡ none
unfolding update_game
still_update_game none f t still = refl
still_update_game (some id) f t still = rw (still, update_game) refl

create-Holds :
    (ext : ChessExternals) (event : ArenaEvent) (id : Bytes) (t : Tournament) (arena : Arena)
    → Holds id t arena
    → Holds id t (create ext event arena)
unfolding create contains_key
create-Holds ext event id t arena h =
    let m = event.message in
    let capacity = created_capacity m.p in
    let room =
      new_room event capacity (event.sender ∷ []) ((event.sender, event.block_time) ∷ []) in
    elim (Bool-cases (bytes_beq m.t id)) [
      | inl p ↦
          let found : lookup m.t arena ≡ some t = rw ((bytes_beq_iff m.t id).0 p) h in
          let taken : contains_key m.t arena ≡ true = rw (found, contains_key) refl in
          rw (taken, create) h
      | inr p ↦ if-both (Holds id t) (contains_key m.t arena || is_public_id m.t) arena _ h (
          if-both (Holds id t) (not (capacity == 2 || is_valid_create_key ext m.k m.t)) arena
            (insert m.t room arena) h (insert-Holds id m.t t room arena h p))
    ]

join-Holds :
    (event : ArenaEvent) (id : Bytes) (t : Tournament) (arena : Arena)
    → Holds id t arena
    → is_open t ≡ false
    → Holds id t (join event arena)
unfolding join
join-Holds event id t arena h closed =
    let key = event.message.t in
    elim (Bool-cases (bytes_beq key id)) [
      | inl p ↦
          let found : lookup key arena ≡ some t = rw ((bytes_beq_iff key id).0 p) h in
          rw (found, closed, join) h
      | inr p ↦ elim (Option-cases (lookup key arena)) [
        | inr (s, e) ↦
            rw (e, join)
              (if-both (Holds id t) (is_open s)
                (insert key (seat event.sender event.block_time s) arena) arena
                (insert-Holds id key t (seat event.sender event.block_time s) arena h p) h)
        | inl e ↦ elim (Option-cases (room_capacity key)) [
          | inl g ↦ rw (e, g, join) h
          | inr (capacity, g) ↦
              rw (e, g, join)
                (insert-Holds id key t
                  (seat event.sender event.block_time (new_room event capacity [] [])) arena h p)
        ]
      ]
    ]

-- No event changes a tournament that is neither open nor live.
pub apply_event-closed :
    (ext : ChessExternals) (event : ArenaEvent) (id : Bytes) (t : Tournament) (arena : Arena)
    → lookup id arena ≡ some t
    → is_open t ≡ false
    → is_live t ≡ false
    → lookup id (apply_event ext event arena) ≡ some t
unfolding apply_event
apply_event-closed ext event id t arena h closed still =
    let m = event.message in
    let sender = event.sender in
    let same = if-both (Holds id t) in
    let in_room =
      λ (f : Tournament → Option Tournament) (e : f t ≡ none). update-Holds id m.t f t arena h e in
    let in_game =
      λ (f : Game → Option Game). in_room (update_game m.g f) (still_update_game m.g f t still) in
    same _ _ _ (create-Holds ext event id t arena h) (
      same _ _ _ (join-Holds event id t arena h closed) (
        same _ _ _ (in_room (leave sender) (closed_leave sender t closed)) (
          same _ _ _ (in_room (cancel m.t sender) (closed_cancel m.t sender t closed)) (
            same _ _ _ (in_game (play_move event))
              (same _ _ _ (in_game (resign event)) (same _ _ _ (in_game (claim event)) h))))))
