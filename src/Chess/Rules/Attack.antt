-- ===== src/Chess/Rules/Attack.antt =====
-- kachat-webserver/src/chess.rs: which squares a colour attacks.
use ka_chat_indexer.Prelude.{
  ℕ, zero, suc, Bool, true, false, ◌&&◌, ◌||◌, List, [], ◌∷◌, Option, none, some, any, ◌==◌,
}
use ka_chat_indexer.Prelude.Int.{ℤ, pos, negsuc}
use ka_chat_indexer.Chess.Rules.Board.{
  Color, white, black, opposite, color_eq, PieceType, pawn, knight, bishop, rook, queen, king,
  type_eq, Piece, Square, is_valid, offset, Board, piece_at, all_squares,
}

abbrev one : ℤ
one = pos 1

abbrev two : ℤ
two = pos 2

abbrev neg_one : ℤ
neg_one = negsuc 0

abbrev neg_two : ℤ
neg_two = negsuc 1

abbrev pub knight_offsets : List (ℤ × ℤ)
knight_offsets =
    (one, two)
    ∷ (two, one)
    ∷ (two, neg_one)
    ∷ (one, neg_two)
    ∷ (neg_one, neg_two)
    ∷ (neg_two, neg_one)
    ∷ (neg_two, one)
    ∷ (neg_one, two)
    ∷ []

abbrev pub king_offsets : List (ℤ × ℤ)
king_offsets =
    (one, pos 0)
    ∷ (one, one)
    ∷ (pos 0, one)
    ∷ (neg_one, one)
    ∷ (neg_one, pos 0)
    ∷ (neg_one, neg_one)
    ∷ (pos 0, neg_one)
    ∷ (one, neg_one)
    ∷ []

abbrev pub diagonal_dirs : List (ℤ × ℤ)
diagonal_dirs = (one, one) ∷ (one, neg_one) ∷ (neg_one, one) ∷ (neg_one, neg_one) ∷ []

abbrev pub straight_dirs : List (ℤ × ℤ)
straight_dirs = (one, pos 0) ∷ (neg_one, pos 0) ∷ (pos 0, one) ∷ (pos 0, neg_one) ∷ []

-- A piece of one of the types and of the colour.
unfoldable pub is_one_of : List PieceType → Color → Piece → Bool
unfolding any
is_one_of types color p = p.color == color && any (λ t. t == p.piece_type) types

unfoldable pub holds : List PieceType → Color → Option Piece → Bool
unfolding is_one_of
holds types color none = false
holds types color (some p) = is_one_of types color p

-- An attacker of the type at one of the offsets.
unfoldable pub stepping_attacker : List (ℤ × ℤ) → PieceType → Square → Board → Color → Bool
unfolding any offset piece_at holds
stepping_attacker offsets piece_type s board color =
    any (λ d. holds (piece_type ∷ []) color (piece_at board (offset s d))) offsets

-- The `while` loop of `sliding_attacker` from `current` on.
unfoldable pub slide_attacker : ℕ → Square → ℤ × ℤ → Board → Color → List PieceType → Bool
unfolding is_valid piece_at offset is_one_of
slide_attacker zero current dir board color types = false
slide_attacker (suc fuel) current dir board color types = elim (is_valid current) [
  | false ↦ false
  | true ↦ elim (piece_at board current) [
    | some p ↦ is_one_of types color p
    | none ↦ slide_attacker fuel (offset current dir) dir board color types
  ]
]

-- A ray from a square of the board leaves it after 8 steps at most.
abbrev pub board_width : ℕ
board_width = 8

unfoldable pub sliding_attacker : Square → ℤ × ℤ → Board → Color → List PieceType → Bool
unfolding slide_attacker offset
sliding_attacker s dir board color types =
    slide_attacker board_width (offset s dir) dir board color types

abbrev pawn_offsets : Color → List (ℤ × ℤ)
pawn_offsets white = (neg_one, neg_one) ∷ (one, neg_one) ∷ []
pawn_offsets black = (neg_one, one) ∷ (one, one) ∷ []

unfoldable pub is_square_attacked : Square → Color → Board → Bool
unfolding any stepping_attacker sliding_attacker
is_square_attacked s color board =
    stepping_attacker (pawn_offsets color) pawn s board color
    || stepping_attacker knight_offsets knight s board color
    || stepping_attacker king_offsets king s board color
    || any (λ dir. sliding_attacker s dir board color (bishop ∷ queen ∷ [])) diagonal_dirs
    || any (λ dir. sliding_attacker s dir board color (rook ∷ queen ∷ [])) straight_dirs

-- The first square of the scan with the king.
find_king_in : List Square → Color → Board → Option Square
unfolding piece_at holds
find_king_in [] color board = none
find_king_in (s ∷ squares) color board = elim (holds (king ∷ []) color (piece_at board s)) [
  | true ↦ some s
  | false ↦ find_king_in squares color board
]

unfoldable pub find_king : Color → Board → Option Square
unfolding find_king_in
find_king color board = find_king_in all_squares color board

unfoldable pub is_king_in_check : Color → Board → Bool
unfolding find_king is_square_attacked
is_king_in_check color board = elim (find_king color board) [
  | none ↦ false
  | some king_sq ↦ is_square_attacked king_sq (opposite color) board
]
