-- ===== src/Chess/Rules/Rays.antt =====
-- The fuel of the sliding loops.
use ka_chat_indexer.Prelude.{
  ℕ, zero, suc, ◌+◌, ◌≤◌, ◌<◌, ◌≡◌, refl, sym, ap, ◌∙◌, ◌⊎◌, inl, inr, true, false, List, ◌∷◌, none,
  Bool-cases, true_of_and_left, true_of_and_right, Option-cases, arith,
}
use ka_chat_indexer.Prelude.Int.{ℤ, pos, negsuc, pos_part, ◌+ℤ◌, ◌-ℤ◌}
use ka_chat_indexer.Chess.Rules.Board.{
  Color, color_eq, PieceType, Square, in_range, is_valid, offset, Board, piece_at,
}
use ka_chat_indexer.Chess.Rules.Attack.{slide_attacker, board_width}
use ka_chat_indexer.Chess.Rules.Moves.{plain, slide_moves}

-- A direction that moves by one square along a file or a rank, as those of all the sliding pieces.
abbrev pub IsUnitStep : ℤ × ℤ → Type 0
IsUnitStep (df, dr) = ((df ≡ pos 1) ⊎ (df ≡ negsuc 0)) ⊎ ((dr ≡ pos 1) ⊎ (dr ≡ negsuc 0))

-- Over a free square of the board the loop goes on.
pub slide_moves-free :
    (fuel : ℕ) (t : Square) (d : ℤ × ℤ) (color : Color) (s : Square) (board : Board)
    → is_valid t ≡ true
    → piece_at board t ≡ none
    → slide_moves (suc fuel) t d color s board
      ≡ plain s t ∷ slide_moves fuel (offset t d) d color s board
unfolding slide_moves
slide_moves-free fuel t d color s board p e = rw (p, e, slide_moves) refl

slide_attacker-free :
    (fuel : ℕ) (t : Square) (d : ℤ × ℤ) (board : Board) (color : Color) (types : List PieceType)
    → is_valid t ≡ true
    → piece_at board t ≡ none
    → slide_attacker (suc fuel) t d board color types
      ≡ slide_attacker fuel (offset t d) d board color types
unfolding slide_attacker
slide_attacker-free fuel t d board color types p e = rw (p, e, slide_attacker) refl

-- `left` bounds the squares that are left in the direction.
module _ (d : ℤ × ℤ) (left : Square → ℕ)
    (nearer : (t : Square) → is_valid t ≡ true → left (offset t d) < left t) where
  -- With no squares left, the square is off the board.
  off_board : (t : Square) → left t ≤ 0 → is_valid t ≡ false
  off_board t h = elim (Bool-cases (is_valid t)) [
    | inl p ↦ let n = nearer t p in ground (arith, h, n)
    | inr p ↦ p
  ]

  slide_moves-suc :
      (fuel : ℕ) (t : Square) (color : Color) (s : Square) (board : Board)
      → left t ≤ fuel
      → slide_moves (suc fuel) t d color s board ≡ slide_moves fuel t d color s board
  unfolding slide_moves
  slide_moves-suc zero t color s board h = rw (off_board t h, slide_moves) refl
  slide_moves-suc (suc fuel) t color s board h = elim (Bool-cases (is_valid t)) [
    | inr p ↦ rw (p, slide_moves) refl
    | inl p ↦ elim (Option-cases (piece_at board t)) [
      | inr (occupant, e) ↦ rw (p, e, slide_moves) refl
      | inl e ↦
          let n = nearer t p in
          slide_moves-free (suc fuel) t d color s board p e
          ∙ ap (λ l. plain s t ∷ l)
              (slide_moves-suc fuel (offset t d) color s board (ground (arith, h, n)))
          ∙ sym (slide_moves-free fuel t d color s board p e)
    ]
  ]

  slide_attacker-suc :
      (fuel : ℕ) (t : Square) (board : Board) (color : Color) (types : List PieceType)
      → left t ≤ fuel
      → slide_attacker (suc fuel) t d board color types ≡ slide_attacker fuel t d board color types
  unfolding slide_attacker
  slide_attacker-suc zero t board color types h = rw (off_board t h, slide_attacker) refl
  slide_attacker-suc (suc fuel) t board color types h = elim (Bool-cases (is_valid t)) [
    | inr p ↦ rw (p, slide_attacker) refl
    | inl p ↦ elim (Option-cases (piece_at board t)) [
      | inr (occupant, e) ↦ rw (p, e, slide_attacker) refl
      | inl e ↦
          let n = nearer t p in
          slide_attacker-free (suc fuel) t d board color types p e
          ∙ slide_attacker-suc fuel (offset t d) board color types (ground (arith, h, n))
          ∙ sym (slide_attacker-free fuel t d board color types p e)
    ]
  ]

  slides :
      (n : ℕ) (t : Square) (color : Color) (s : Square) (board : Board) (types : List PieceType)
      → left t ≤ board_width
      → (slide_moves (n + board_width) t d color s board
          ≡ slide_moves board_width t d color s board)
        × (slide_attacker (n + board_width) t d board color types
            ≡ slide_attacker board_width t d board color types)
  slides zero t color s board types h = (refl, refl)
  slides (suc n) t color s board types h =
      let (m, a) = slides n t color s board types h in
      let more : suc n + board_width ≡ suc (n + board_width) = ground arith in
      rw more (
        slide_moves-suc (n + board_width) t color s board (ground (arith, h)) ∙ m,
        slide_attacker-suc (n + board_width) t board color types (ground (arith, h)) ∙ a,
      )

-- The squares left to the east, the west, the north and the south.
below_eight : ℤ → ℕ
below_eight z = pos_part (pos 8 -ℤ z)

from_zero : ℤ → ℕ
from_zero z = pos_part (z +ℤ pos 1)

pub in_range-pos : (z : ℤ) → in_range z ≡ true → (n : ℕ) × (z ≡ pos n) × (n ≤ 7)
in_range-pos (pos n) h = (n, refl, ground (arith, h))
in_range-pos (negsuc n) h = ground (arith, h)

pub on_board :
    (s : Square) → is_valid s ≡ true → (in_range s.file ≡ true) × (in_range s.rank ≡ true)
unfolding is_valid
on_board s h = (
  true_of_and_left (in_range s.file) (in_range s.rank) h,
  true_of_and_right (in_range s.file) (in_range s.rank) h,
)

below_eight-nearer :
    (z : ℤ) → in_range z ≡ true → (below_eight (z +ℤ pos 1) < below_eight z) × (below_eight z ≤ 8)
unfolding below_eight ◌+ℤ◌ ◌-ℤ◌
below_eight-nearer z h =
    let (n, e, low) = in_range-pos z h in rw e (ground (arith, low), ground arith)

from_zero-nearer :
    (z : ℤ) → in_range z ≡ true → (from_zero (z +ℤ negsuc 0) < from_zero z) × (from_zero z ≤ 8)
unfolding from_zero ◌+ℤ◌
from_zero-nearer z h =
    let (n, e, low) = in_range-pos z h in rw e (ground (arith, low), ground (arith, low))

-- A measure of the squares left, of at most 8 on the board.
record IsMeasure (d : ℤ × ℤ) (left : Square → ℕ) : Type 0 where
  nearer : (t : Square) → is_valid t ≡ true → left (offset t d) < left t
  bounded : (t : Square) → is_valid t ≡ true → left t ≤ 8

measure : (d : ℤ × ℤ) → IsUnitStep d → (left : Square → ℕ) × IsMeasure d left
unfolding offset
measure (df, dr) (inl (inl e)) = (
  λ t. below_eight t.file,
  record {
    nearer = λ t h. rw e (below_eight-nearer t.file (on_board t h).0).0;
    bounded = λ t h. (below_eight-nearer t.file (on_board t h).0).1;
  },
)
measure (df, dr) (inl (inr e)) = (
  λ t. from_zero t.file,
  record {
    nearer = λ t h. rw e (from_zero-nearer t.file (on_board t h).0).0;
    bounded = λ t h. (from_zero-nearer t.file (on_board t h).0).1;
  },
)
measure (df, dr) (inr (inl e)) = (
  λ t. below_eight t.rank,
  record {
    nearer = λ t h. rw e (below_eight-nearer t.rank (on_board t h).1).0;
    bounded = λ t h. (below_eight-nearer t.rank (on_board t h).1).1;
  },
)
measure (df, dr) (inr (inr e)) = (
  λ t. from_zero t.rank,
  record {
    nearer = λ t h. rw e (from_zero-nearer t.rank (on_board t h).1).0;
    bounded = λ t h. (from_zero-nearer t.rank (on_board t h).1).1;
  },
)

-- From a square of the board, in a direction of a sliding piece, the loops of the moves and of the
-- attacks end within 8 steps: more fuel gives the same result.
pub slides-board_width :
    (n : ℕ) (d : ℤ × ℤ) (s : Square) (color : Color) (board : Board) (types : List PieceType)
    → is_valid s ≡ true
    → IsUnitStep d
    → (slide_moves (n + board_width) (offset s d) d color s board
        ≡ slide_moves board_width (offset s d) d color s board)
      × (slide_attacker (n + board_width) (offset s d) d board color types
          ≡ slide_attacker board_width (offset s d) d board color types)
slides-board_width n d s color board types valid unit =
    let (left, m) = measure d unit in
    let next = m.nearer s valid in
    let eight = m.bounded s valid in
    slides d left m.nearer n (offset s d) color s board types (ground (arith, next, eight))
