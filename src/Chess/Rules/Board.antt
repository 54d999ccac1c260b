-- ===== src/Chess/Rules/Board.antt =====
-- kachat-webserver/src/chess.rs: colours, pieces, squares and the board.
use ka_chat_indexer.Prelude.{
  ℕ, ◌+◌, ◌-◌, Bool, true, false, ◌&&◌, ◌≡◌, ◌↔◌, List, [], ◌∷◌, ◌++◌, Option, none, some, Bytes,
  leb, get_elem?, Eq, ◌==◌, nat_eq, int_eq, bytes_eq, if◌then◌else◌, arith, ◌>>=◌,
}
use ka_chat_indexer.Prelude.Int.{ℤ, pos, negsuc, pos_part, ◌+ℤ◌, int_beq_iff}
use ka_chat_indexer.Prelude.Text.{codes, lowercase}

pub data Color : Type 0 where
  white black : Color

unfoldable pub opposite : Color → Color
opposite white = black
opposite black = white

abbrev color_beq : Color → Color → Bool
color_beq white white = true
color_beq black black = true
color_beq _ _ = false

pub color_beq_iff : (a b : Color) → (color_beq a b ≡ true) ↔ (a ≡ b)
color_beq_iff white white = ground arith
color_beq_iff white black = ground arith
color_beq_iff black white = ground arith
color_beq_iff black black = ground arith

instance abbrev pub color_eq : Eq Color
color_eq = record { beq = color_beq; beq_iff = color_beq_iff }

pub data PieceType : Type 0 where
  pawn knight bishop rook queen king : PieceType

abbrev type_beq : PieceType → PieceType → Bool
type_beq pawn pawn = true
type_beq knight knight = true
type_beq bishop bishop = true
type_beq rook rook = true
type_beq queen queen = true
type_beq king king = true
type_beq _ _ = false

pub type_beq_iff : (a b : PieceType) → (type_beq a b ≡ true) ↔ (a ≡ b)
type_beq_iff a b = ground arith

instance abbrev pub type_eq : Eq PieceType
type_eq = record { beq = type_beq; beq_iff = type_beq_iff }

-- `PieceType::from_promotion_letter`: only ASCII letters lower to the four.
unfoldable pub from_promotion_letter : Option Bytes → Option PieceType
unfolding lowercase
from_promotion_letter none = none
from_promotion_letter (some letter) =
    let s = lowercase letter in
    if s == codes "q"
    then some queen
    else if s == codes "r"
    then some rook
    else if s == codes "b"
    then some bishop
    else if s == codes "n"
    then some knight
    else none

pub record Piece : Type 0 where
  pub piece_type : PieceType
  pub color : Color

pub record Square : Type 0 where
  pub file : ℤ
  pub rank : ℤ

abbrev pub sq : ℤ → ℤ → Square
sq file rank = record { file = file; rank = rank }

abbrev square_beq : Square → Square → Bool
square_beq a b = a.file == b.file && a.rank == b.rank

pub square_beq_iff : (a b : Square) → (square_beq a b ≡ true) ↔ (a ≡ b)
square_beq_iff a b = (
  λ h. ground (arith, int_beq_iff a.file b.file, int_beq_iff a.rank b.rank),
  λ h. ground (arith, int_beq_iff a.file b.file, int_beq_iff a.rank b.rank),
)

instance abbrev pub square_eq : Eq Square
square_eq = record { beq = square_beq; beq_iff = square_beq_iff }

abbrev pub in_range : ℤ → Bool
in_range (pos n) = leb n 7
in_range (negsuc n) = false

-- `Square::is_valid`.
unfoldable pub is_valid : Square → Bool
is_valid s = in_range s.file && in_range s.rank

-- `Square::new(self.file + df, self.rank + dr)`: coordinates stay small, so nothing overflows.
unfoldable pub offset : Square → ℤ × ℤ → Square
unfolding ◌+ℤ◌
offset s (df, dr) = sq (s.file +ℤ df) (s.rank +ℤ dr)

-- `Square::algebraic`, of a valid square.
unfoldable pub algebraic : Square → Bytes
algebraic s = (b'a' + pos_part s.file) ∷ (b'1' + pos_part s.rank) ∷ []

-- The file and rank letters, after `to_lowercase`: other than ASCII, no character lowers to them.
unfoldable pub square_of : Bytes → Option Square
square_of (f ∷ r ∷ []) =
    if leb 97 f && leb f 104 && leb b'1' r && leb r b'8'
    then some (sq (pos (f - 97)) (pos (r - b'1')))
    else none
square_of _ = none

unfoldable pub from_algebraic : Bytes → Option Square
unfolding square_of lowercase
from_algebraic s = square_of (lowercase s)

pub record Move : Type 0 where
  pub from : Square
  pub to : Square
  pub promotion : Option PieceType

-- `squares` gives the content at a rank and a file, both below 8.
pub record Board : Type 0 where
  pub squares : ℕ → ℕ → Option Piece
  pub side_to_move : Color
  pub white_castle_k : Bool
  pub white_castle_q : Bool
  pub black_castle_k : Bool
  pub black_castle_q : Bool
  pub en_passant : Option Square

unfoldable pub piece_at : Board → Square → Option Piece
unfolding is_valid
piece_at b s = if is_valid s then b.squares (pos_part s.rank) (pos_part s.file) else none

-- `set_piece`, on a valid square: any other would be out of the array's bounds.
unfoldable pub set_piece : Option Piece → Square → Board → Board
set_piece piece s b = record b {
  squares = λ rank file.
      if rank == pos_part s.rank && file == pos_part s.file then piece else b.squares rank file;
}

unfoldable pub can_castle_k : Board → Color → Bool
can_castle_k b white = b.white_castle_k
can_castle_k b black = b.black_castle_k

unfoldable pub can_castle_q : Board → Color → Bool
can_castle_q b white = b.white_castle_q
can_castle_q b black = b.black_castle_q

unfoldable pub set_castle_k : Bool → Color → Board → Board
set_castle_k value white b = record b { white_castle_k = value }
set_castle_k value black b = record b { black_castle_k = value }

unfoldable pub set_castle_q : Bool → Color → Board → Board
set_castle_q value white b = record b { white_castle_q = value }
set_castle_q value black b = record b { black_castle_q = value }

abbrev back_rank : List PieceType
back_rank = rook ∷ knight ∷ bishop ∷ queen ∷ king ∷ bishop ∷ knight ∷ rook ∷ []

back_piece : Color → ℕ → Option Piece
back_piece color file = do
  piece_type ← get_elem? back_rank file
  some (record { piece_type = piece_type; color = color })

initial_squares : ℕ → ℕ → Option Piece
unfolding back_piece
initial_squares rank file =
    if rank == 0
    then back_piece white file
    else if rank == 1
    then some (record { piece_type = pawn; color = white })
    else if rank == 6
    then some (record { piece_type = pawn; color = black })
    else if rank == 7
    then back_piece black file
    else none

unfoldable pub initial_board : Board
unfolding initial_squares
initial_board = record {
  squares = initial_squares;
  side_to_move = white;
  white_castle_k = true;
  white_castle_q = true;
  black_castle_k = true;
  black_castle_q = true;
  en_passant = none;
}

abbrev pub zero_to_seven : List ℕ
zero_to_seven = 0 ∷ 1 ∷ 2 ∷ 3 ∷ 4 ∷ 5 ∷ 6 ∷ 7 ∷ []

abbrev rank_squares : List ℕ → ℕ → List Square
rank_squares [] rank = []
rank_squares (file ∷ files) rank = sq (pos file) (pos rank) ∷ rank_squares files rank

abbrev squares_of : List ℕ → List Square
squares_of [] = []
squares_of (rank ∷ ranks) = rank_squares zero_to_seven rank ++ squares_of ranks

-- `for rank in 0..8 { for file in 0..8 { … } }`.
abbrev pub all_squares : List Square
all_squares = squares_of zero_to_seven
