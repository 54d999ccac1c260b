-- ===== src/Chess/Rules/Targets.antt =====
-- Predicates of lists of moves, and the squares that some moves lead to.
use ka_chat_indexer.Prelude.{
  ℕ, ◌≤◌, ◌≡◌, refl, inl, inr, Bool, true, false, ◌&&◌, List, [], ◌∷◌, ◌++◌, Option, none, some,
  ◌==◌, int_eq, Bool-cases, arith,
}
use ka_chat_indexer.Prelude.Int.{ℤ, pos, ◌+ℤ◌}
use ka_chat_indexer.Chess.Rules.Board.{
  Color, white, black, color_eq, Piece, Square, sq, is_valid, in_range, offset, Move,
}
use ka_chat_indexer.Chess.Rules.Moves.{home_rank, start_rank, twice_direction}
use ka_chat_indexer.Chess.Rules.Rays.{in_range-pos, on_board}
use ka_chat_indexer.Chess.Rules.Legal.{filter_moves}

-- A predicate of every move of a list.
abbrev pub Each : (Move → Type 0) → List Move → Type 0
Each P [] = Unit
Each P (m ∷ moves) = P m × Each P moves

pub Each-append : (P : Move → Type 0) (l k : List Move) → Each P l → Each P k → Each P (l ++ k)
Each-append P [] k p q = q
Each-append P (m ∷ l) k (p, rest) q = (p, Each-append P l k rest q)

pub Each-weaken :
    (P Q : Move → Type 0) → ((m : Move) → P m → Q m) → (l : List Move) → Each P l → Each Q l
Each-weaken P Q f [] p = tt
Each-weaken P Q f (m ∷ l) (p, rest) = (f m p, Each-weaken P Q f l rest)

pub Each-filter_moves :
    (P : Move → Type 0) (test : Move → Bool) (l : List Move)
    → Each P l
    → Each (λ m. P m × (test m ≡ true)) (filter_moves test l)
unfolding filter_moves
Each-filter_moves P test [] h = tt
Each-filter_moves P test (m ∷ l) (p, rest) = elim (Bool-cases (test m)) [
  | inl e ↦ rw (e, filter_moves) ((p, e), Each-filter_moves P test l rest)
  | inr e ↦ rw (e, filter_moves) (Each-filter_moves P test l rest)
]

-- A piece of the colour stands there.
abbrev pub is_own : Color → Option Piece → Bool
is_own color none = false
is_own color (some p) = p.color == color

same_file : (z : ℤ) → in_range z ≡ true → in_range (z +ℤ pos 0) ≡ true
unfolding ◌+ℤ◌
same_file z h = let (n, e, low) = in_range-pos z h in rw e (ground (arith, low))

double_push_in_range :
    (c : Color) (file : ℤ)
    → in_range file ≡ true
    → (in_range (file +ℤ pos 0) && in_range (start_rank c +ℤ twice_direction c)) ≡ true
unfolding ◌+ℤ◌
double_push_in_range white file h = rw (same_file file h) refl
double_push_in_range black file h = rw (same_file file h) refl

-- A double push from the start rank stays on the board.
pub double_push_valid :
    (color : Color) (s : Square)
    → is_valid s ≡ true
    → s.rank ≡ start_rank color
    → is_valid (offset s (pos 0, twice_direction color)) ≡ true
unfolding is_valid offset
double_push_valid color s v r = rw r (double_push_in_range color s.file (on_board s v).0)

pub castle_target_valid :
    (color : Color) (file : ℕ) → file ≤ 7 → is_valid (sq (pos file) (home_rank color)) ≡ true
unfolding is_valid
castle_target_valid white file low = ground (arith, low)
castle_target_valid black file low = ground (arith, low)
