-- ===== src/Chess/Arena/Bracket/Seats.antt =====
-- The players of a room, over its seats, its start and its games.
use ka_chat_indexer.Prelude.{
  ℕ, suc, ◌≤◌, ◌≡◌, refl, inl, inr, Bool, false, List, [], ◌∷◌, ◌++◌, some, Bytes, length, any,
  get_or, ◌==◌, nat_eq, bytes_eq, bytes_beq_iff, Bool-cases, if◌then◌else◌, arith,
}
use ka_chat_indexer.Prelude.Int.{ℤ}
use ka_chat_indexer.Chess.Arena.State.{Tournament, is_duel}
use ka_chat_indexer.Chess.Arena.Bracket.{
  filter_bytes, remove_first, add_game, start_pairs, start, duel_pairs, seed_pairs, pair_winners,
  next_game, advance_after,
}

abbrev pub is_listed : Bytes → List Bytes → Bool
is_listed s ps = any (λ p. p == s) ps

-- No player twice.
abbrev pub IsDistinct : List Bytes → Type 0
IsDistinct [] = Unit
IsDistinct (p ∷ ps) = (is_listed p ps ≡ false) × IsDistinct ps

filter_bytes-unlisted :
    (p : Bytes → Bool) (s : Bytes) (l : List Bytes)
    → is_listed s l ≡ false
    → is_listed s (filter_bytes p l) ≡ false
unfolding filter_bytes any
filter_bytes-unlisted p s [] h = refl
filter_bytes-unlisted p s (x ∷ l) h = ground (arith, h, filter_bytes-unlisted p s l)

pub filter_bytes-IsDistinct :
    (p : Bytes → Bool) (l : List Bytes) → IsDistinct l → IsDistinct (filter_bytes p l)
unfolding filter_bytes
filter_bytes-IsDistinct p [] h = tt
filter_bytes-IsDistinct p (x ∷ l) (fresh, rest) = elim (Bool-cases (p x)) [
  | inl e ↦
      rw (e, filter_bytes) (filter_bytes-unlisted p x l fresh, filter_bytes-IsDistinct p l rest)
  | inr e ↦ rw (e, filter_bytes) (filter_bytes-IsDistinct p l rest)
]

pub length-filter_bytes : (p : Bytes → Bool) (l : List Bytes) → length (filter_bytes p l) ≤ length l
unfolding filter_bytes
length-filter_bytes p [] = ground arith
length-filter_bytes p (x ∷ l) = ground (arith, length-filter_bytes p l)

append-unlisted :
    (s x : Bytes) (l : List Bytes)
    → is_listed s l ≡ false
    → (x == s) ≡ false
    → is_listed s (l ++ (x ∷ [])) ≡ false
unfolding any
append-unlisted s x [] h k = ground (arith, k)
append-unlisted s x (p ∷ l) h k = ground (arith, h, append-unlisted s x l, k)

pub append-IsDistinct :
    (x : Bytes) (l : List Bytes) → IsDistinct l → is_listed x l ≡ false → IsDistinct (l ++ (x ∷ []))
unfolding any
append-IsDistinct x [] h k = (refl, tt)
append-IsDistinct x (p ∷ l) (fresh, rest) k = (
  append-unlisted p x l fresh (ground (arith, k, bytes_beq_iff p x, bytes_beq_iff x p)),
  append-IsDistinct x l rest (ground (arith, k)),
)

remove_first-unlisted :
    (s x : Bytes) (l : List Bytes) → is_listed s l ≡ false → is_listed s (remove_first x l) ≡ false
unfolding remove_first any
remove_first-unlisted s x [] h = refl
remove_first-unlisted s x (p ∷ l) h = ground (arith, h, remove_first-unlisted s x l)

pub remove_first-IsDistinct :
    (x : Bytes) (l : List Bytes) → IsDistinct l → IsDistinct (remove_first x l)
unfolding remove_first
remove_first-IsDistinct x [] h = tt
remove_first-IsDistinct x (p ∷ l) (fresh, rest) = elim (Bool-cases (p == x)) [
  | inl e ↦ rw (e, remove_first) rest
  | inr e ↦
      rw (e, remove_first) (remove_first-unlisted p x l fresh, remove_first-IsDistinct x l rest)
]

pub length-remove_first : (x : Bytes) (l : List Bytes) → length (remove_first x l) ≤ length l
unfolding remove_first
length-remove_first x [] = ground arith
length-remove_first x (p ∷ l) = ground (arith, length-remove_first x l)

-- The players and the capacity are the same.
abbrev pub SameSeats : Tournament → Tournament → Type 0
SameSeats t t' = (t'.players ≡ t.players) × (t'.capacity ≡ t.capacity)

start_pairs-SameSeats :
    (seeds : List Bytes) (time : ℤ) (index : ℕ) (pairs : List (ℕ × ℕ)) (t : Tournament)
    → SameSeats t (start_pairs seeds time index pairs t)
unfolding start_pairs add_game
start_pairs-SameSeats seeds time index [] t = (refl, refl)
start_pairs-SameSeats seeds time index ((a, b) ∷ pairs) t =
    start_pairs-SameSeats seeds time (suc index) pairs
      (add_game 1 index (get_or seeds a []) (get_or seeds b []) time t)

pub start-SameSeats : (time : ℤ) (t : Tournament) → SameSeats t (start time t)
unfolding start
start-SameSeats time t =
    start_pairs-SameSeats t.players time 0 (if is_duel t then duel_pairs else seed_pairs)
      (record t { started_at = some time })

next_game-SameSeats :
    (round index : ℕ) (time : ℤ) (t : Tournament) → SameSeats t (next_game round index time t)
unfolding next_game pair_winners add_game
next_game-SameSeats round index time t = (ground arith, ground arith)

next_game-players :
    (round index : ℕ) (time : ℤ) (t : Tournament)
    → (next_game round index time t).players ≡ t.players
next_game-players round index time t = (next_game-SameSeats round index time t).0

next_game-capacity :
    (round index : ℕ) (time : ℤ) (t : Tournament)
    → (next_game round index time t).capacity ≡ t.capacity
next_game-capacity round index time t = (next_game-SameSeats round index time t).1

pub advance_after-SameSeats : (id : Bytes) (t : Tournament) → SameSeats t (advance_after id t)
unfolding advance_after
advance_after-SameSeats id t = (grind (arith, next_game-players), grind (arith, next_game-capacity))
