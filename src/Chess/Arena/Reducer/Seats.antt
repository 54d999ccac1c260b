-- ===== src/Chess/Arena/Reducer/Seats.antt =====
-- The seats of one room.
use ka_chat_indexer.Prelude.{
  ◌<◌, ◌≡◌, refl, sym, ◌∙◌, ◌⊎◌, inl, inr, true, false, ◌&&◌, not, [], ◌∷◌, ◌++◌, Option, none,
  some, Bytes, lookup, insert, length, length-append, true_of_and_left, remove, ◌==◌, nat_eq,
  nat_beq_iff, int_eq, bytes_eq, Bool-cases, some_of_bind, some_injective, arith,
}
use ka_chat_indexer.Prelude.Int.{ℤ}
use ka_chat_indexer.Chess.Arena.Message.{is_public_id}
use ka_chat_indexer.Chess.Arena.State.{Game, Tournament, is_over, is_open, is_live}
use ka_chat_indexer.Chess.Arena.Bracket.{
  remove_first, filter_bytes, keeps_seat, forget, expire_seats, start,
}
use ka_chat_indexer.Chess.Arena.Bracket.Seats.{
  is_listed, IsDistinct, filter_bytes-IsDistinct, length-filter_bytes, append-IsDistinct,
  remove_first-IsDistinct, length-remove_first, SameSeats, start-SameSeats, advance_after-SameSeats,
}
use ka_chat_indexer.Chess.Arena.Play.Guards.{true_of_guard}
use ka_chat_indexer.Chess.Arena.Reducer.{put_game, update_game, add_player, seat, leave, cancel}
use ka_chat_indexer.Chess.Arena.Reducer.RoomSteps.{start-started, put_game-started, is_some_start}
use ka_chat_indexer.Chess.Arena.Reducer.Advance.{not_started}

-- Two or eight seats, no player twice; a room that has not started has a free seat, and one that has
-- started is full.
pub record IsRoom (t : Tournament) : Type 0 where
  pub sized : (t.capacity ≡ 2) ⊎ (t.capacity ≡ 8)
  pub distinct : IsDistinct t.players
  pub waiting : t.started_at ≡ none → length t.players < t.capacity
  pub full : (time : ℤ) → t.started_at ≡ some time → length t.players ≡ t.capacity

-- A room that has started.
started-IsRoom :
    (t t' : Tournament) (time : ℤ)
    → (t.capacity ≡ 2) ⊎ (t.capacity ≡ 8)
    → IsDistinct t.players
    → length t.players ≡ t.capacity
    → SameSeats t t'
    → t'.started_at ≡ some time
    → IsRoom t'
started-IsRoom t t' time sized distinct full (players, capacity) started = record {
  sized = rw capacity sized;
  distinct = rw players distinct;
  waiting = λ h. ground (arith, h, started);
  full = λ _ _. rw (players, capacity) full;
}

-- A room that waits.
pub waiting-IsRoom :
    (t : Tournament)
    → (t.capacity ≡ 2) ⊎ (t.capacity ≡ 8)
    → IsDistinct t.players
    → length t.players < t.capacity
    → t.started_at ≡ none
    → IsRoom t
waiting-IsRoom t sized distinct free none_yet = record {
  sized = sized;
  distinct = distinct;
  waiting = λ _. free;
  full = λ time h. ground (arith, h, none_yet);
}

expire-IsRoom :
    (time : ℤ) (t : Tournament)
    → IsRoom t
    → t.started_at ≡ none
    → IsRoom (expire_seats time t) × ((expire_seats time t).started_at ≡ none)
unfolding expire_seats
expire-IsRoom time t ok waits =
    let kept = filter_bytes (keeps_seat t time) t.players in
    let short = length-filter_bytes (keeps_seat t time) t.players in
    let free = ok.waiting waits in
    let t' : Tournament = record t {
      players = kept;
      joined_at = forget kept t.players t.joined_at;
    } in
    elim (Bool-cases (length kept == length t.players)) [
      | inl p ↦ rw (p, expire_seats) (ok, waits)
      | inr p ↦
          rw (p, expire_seats)
            (
              waiting-IsRoom t' ok.sized
                  (filter_bytes-IsDistinct (keeps_seat t time) t.players ok.distinct)
                  (ground (arith, short, free)) waits,
              waits,
            )
    ]

add_player-IsRoom :
    (sender : Bytes) (time : ℤ) (t : Tournament)
    → IsRoom t
    → t.started_at ≡ none
    → is_listed sender t.players ≡ false
    → IsRoom (add_player sender time t)
unfolding add_player
add_player-IsRoom sender time t ok waits fresh =
    let players = t.players ++ (sender ∷ []) in
    let t' : Tournament = record t {
      players = players;
      joined_at = insert sender time t.joined_at;
    } in
    let distinct = append-IsDistinct sender t.players ok.distinct fresh in
    let longer = length-append t.players (sender ∷ []) in
    let free = ok.waiting waits in
    elim (Bool-cases (length t'.players == t'.capacity)) [
      | inl p ↦
          rw (p, add_player)
            (started-IsRoom t' (start time t') time ok.sized distinct
              ((nat_beq_iff (length players) t.capacity).0 p) (start-SameSeats time t')
              (start-started time t'))
      | inr p ↦
          rw (p, add_player)
            (waiting-IsRoom t' ok.sized distinct
              (ground (arith, p, longer, free, nat_beq_iff (length players) t.capacity)) waits)
    ]

pub seat-IsRoom :
    (sender : Bytes) (time : ℤ) (t : Tournament)
    → IsRoom t
    → t.started_at ≡ none
    → IsRoom (seat sender time t)
unfolding seat
seat-IsRoom sender time t ok waits =
    let (ok', waits') = expire-IsRoom time t ok waits in
    elim (Bool-cases (is_listed sender (expire_seats time t).players)) [
      | inl p ↦ rw (p, seat) ok'
      | inr p ↦ rw (p, seat) (add_player-IsRoom sender time (expire_seats time t) ok' waits' p)
    ]

pub leave-IsRoom :
    (sender : Bytes) (t t' : Tournament) → leave sender t ≡ some t' → IsRoom t → IsRoom t'
unfolding leave
leave-IsRoom sender t t' h ok = elim (Bool-cases (is_open t && is_listed sender t.players)) [
  | inr p ↦ ground (arith, h, p)
  | inl p ↦
      let waits = not_started t (true_of_and_left (is_open t) (is_listed sender t.players) p) in
      let shorter = length-remove_first sender t.players in
      let free = ok.waiting waits in
      let left : Tournament = record t {
        players = remove_first sender t.players;
        joined_at = remove sender t.joined_at;
      } in
      let gone : leave sender t ≡ some left = rw (p, leave) refl in
      rw (sym (some_injective left t' (sym gone ∙ h))) (
        waiting-IsRoom left ok.sized (remove_first-IsDistinct sender t.players ok.distinct)
          (ground (arith, shorter, free)) waits)
]

pub cancel-IsRoom :
    (id sender : Bytes) (t t' : Tournament) → cancel id sender t ≡ some t' → IsRoom t → IsRoom t'
unfolding cancel
cancel-IsRoom id sender t t' h ok =
    elim (Bool-cases (is_open t && not (is_public_id id) && t.creator == sender)) [
      | inr p ↦ ground (arith, h, p)
      | inl p ↦
          let cancelled : Tournament = record t { cancelled = true } in
          let gone : cancel id sender t ≡ some cancelled = rw (p, cancel) refl in
          rw (sym (some_injective cancelled t' (sym gone ∙ h))) (record {
            sized = ok.sized;
            distinct = ok.distinct;
            waiting = ok.waiting;
            full = ok.full;
          })
    ]

put_game-SameSeats : (id : Bytes) (g : Game) (t : Tournament) → SameSeats t (put_game id g t)
unfolding put_game
put_game-SameSeats id g t =
    let t' : Tournament = record t { games = insert id g t.games } in
    elim (Bool-cases (is_over g)) [
      | inl p ↦ rw (p, put_game) (advance_after-SameSeats id t')
      | inr p ↦ rw (p, put_game) (refl, refl)
    ]

pub update_game-IsRoom :
    (m : Option Bytes) (f : Game → Option Game) (t t' : Tournament)
    → update_game m f t ≡ some t'
    → IsRoom t
    → IsRoom t'
unfolding update_game
update_game-IsRoom none f t t' h ok = ground (arith, h)
update_game-IsRoom (some id) f t t' h ok =
    let (live, h1) = true_of_guard (is_live t) _ t' h in
    let (g, found, h2) = some_of_bind (lookup id t.games) _ t' h1 in
    let (g', changed, h3) = some_of_bind (f g) _ t' h2 in
    let result : put_game id g' t ≡ t' = some_injective _ t' h3 in
    let (time, started) = is_some_start t live in
    rw (sym result) (
      started-IsRoom t (put_game id g' t) time ok.sized ok.distinct (ok.full time started)
        (put_game-SameSeats id g' t) (put_game-started id g' t ∙ started))
