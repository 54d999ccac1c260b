-- ===== src/Chess/Arena/Bracket/Grows.antt =====
-- The games of a tournament only grow by new games.
use ka_chat_indexer.Prelude.{
  ℕ, suc, ◌+◌, ◌*◌, ◌/◌, ◌≡◌, refl, sym, ◌∙◌, ◌⊎◌, inl, inr, List, [], ◌∷◌, none, some, Bytes, Map,
  lookup, lookup-insert, get_or, bytes_eq, bytes_beq, bytes_beq_iff, if◌then◌else◌, Bool-cases,
  Option-cases, ltb, arith,
}
use ka_chat_indexer.Prelude.Int.{ℤ}
use ka_chat_indexer.Chess.Arena.State.{Game, Tournament, game_key, game_at, rounds, is_duel}
use ka_chat_indexer.Chess.Arena.Bracket.{
  make_game, add_game, duel_pairs, seed_pairs, start_pairs, start, pair_winners, a_is_white,
  winner_at, next_game, advance_after,
}

abbrev pub Games : Type 0
Games = Map Bytes Game

-- A game as `make_game` makes it.
pub record IsNew (g : Game) : Type 0 where
  pub round : ℕ
  pub index : ℕ
  pub white_player : Bytes
  pub black_player : Bytes
  pub time : ℤ
  pub made : g ≡ make_game round index white_player black_player time

-- At each key the game is the one before, or a new one where none was.
abbrev pub Grows : Games → Games → Type 0
Grows m m' =
    (k : Bytes)
    → (lookup k m' ≡ lookup k m)
      ⊎ ((lookup k m ≡ none) × (g : Game) × (lookup k m' ≡ some g) × IsNew g)

pub Grows-refl : (m : Games) → Grows m m
Grows-refl m k = inl refl

add_game-Grows :
    (round index : ℕ) (a b : Bytes) (time : ℤ) (t : Tournament)
    → lookup (game_key round index) t.games ≡ none
    → Grows t.games (add_game round index a b time t).games
unfolding add_game
add_game-Grows round index a b time t free k =
    let g = make_game round index a b time in
    let key = game_key round index in
    elim (Bool-cases (bytes_beq key k)) [
      | inl p ↦ inr (
        rw (sym ((bytes_beq_iff key k).0 p)) free,
        g,
        lookup-insert key k g t.games ∙ rw p refl,
        record {
          round = round;
          index = index;
          white_player = a;
          black_player = b;
          time = time;
          made = refl;
        },
      )
      | inr p ↦ inl (lookup-insert key k g t.games ∙ rw p refl)
    ]

pair_winners-Grows :
    (round index : ℕ) (time : ℤ) (a b : Bytes) (t : Tournament)
    → lookup (game_key round index) t.games ≡ none
    → Grows t.games (pair_winners round index time a b t).games
unfolding pair_winners
pair_winners-Grows round index time a b t free = elim (Bool-cases (a_is_white t a b)) [
  | inl p ↦ rw (p, pair_winners) (add_game-Grows round index a b time t free)
  | inr p ↦ rw (p, pair_winners) (add_game-Grows round index b a time t free)
]

next_game-Grows :
    (round index : ℕ) (ended_at : ℤ) (t : Tournament)
    → Grows t.games (next_game round index ended_at t).games
unfolding next_game game_at
next_game-Grows round index ended_at t = elim (Option-cases (winner_at t round (index / 2 * 2))) [
  | inl e ↦ rw (e, next_game) (Grows-refl t.games)
  | inr (a, e) ↦ elim (Option-cases (winner_at t round (index / 2 * 2 + 1))) [
    | inl f ↦ rw (e, f, next_game) (Grows-refl t.games)
    | inr (b, f) ↦ elim (Option-cases (lookup (game_key (round + 1) (index / 2)) t.games)) [
      | inr (g, x) ↦ rw (e, f, x, next_game) (Grows-refl t.games)
      | inl x ↦
          rw (e, f, x, next_game) (pair_winners-Grows (round + 1) (index / 2) ended_at a b t x)
    ]
  ]
]

pub advance_after-Grows : (id : Bytes) (t : Tournament) → Grows t.games (advance_after id t).games
unfolding advance_after
advance_after-Grows id t = elim (Option-cases (lookup id t.games)) [
  | inl e ↦ rw (e, advance_after) (Grows-refl t.games)
  | inr (g, e) ↦ elim (Option-cases g.ended_at) [
    | inl f ↦ rw (e, f, advance_after) (Grows-refl t.games)
    | inr (time, f) ↦ elim (Bool-cases (ltb g.round (rounds t))) [
      | inl p ↦ rw (e, f, p, advance_after) (next_game-Grows g.round g.index time t)
      | inr p ↦ rw (e, f, p, advance_after) (Grows-refl t.games)
    ]
  ]
]

-- Every game found is new.
abbrev pub AllNew : Games → Type 0
AllNew m = (k : Bytes) (g : Game) → lookup k m ≡ some g → IsNew g

add_game-AllNew :
    (round index : ℕ) (a b : Bytes) (time : ℤ) (t : Tournament)
    → AllNew t.games
    → AllNew (add_game round index a b time t).games
unfolding add_game
add_game-AllNew round index a b time t old k g h =
    let new = make_game round index a b time in
    let key = game_key round index in
    let at = sym (lookup-insert key k new t.games) ∙ h in
    elim (Bool-cases (bytes_beq key k)) [
      | inl p ↦ record {
        round = round;
        index = index;
        white_player = a;
        black_player = b;
        time = time;
        made = ground (arith, at, p);
      }
      | inr p ↦ old k g (ground (arith, at, p))
    ]

start_pairs-AllNew :
    (seeds : List Bytes) (time : ℤ) (index : ℕ) (pairs : List (ℕ × ℕ)) (t : Tournament)
    → AllNew t.games
    → AllNew (start_pairs seeds time index pairs t).games
unfolding start_pairs
start_pairs-AllNew seeds time index [] t old = old
start_pairs-AllNew seeds time index ((a, b) ∷ pairs) t old =
    start_pairs-AllNew seeds time (suc index) pairs
      (add_game 1 index (get_or seeds a []) (get_or seeds b []) time t)
      (add_game-AllNew 1 index (get_or seeds a []) (get_or seeds b []) time t old)

-- A room that starts had no games, and has new ones only.
pub start-AllNew : (time : ℤ) (t : Tournament) → t.games ≡ [] → AllNew (start time t).games
unfolding start lookup
start-AllNew time t empty =
    start_pairs-AllNew t.players time 0 (if is_duel t then duel_pairs else seed_pairs)
      (record t { started_at = some time }) (rw empty (λ k g h. cc))
