-- ===== src/Chess/Rules/Legal.antt =====
-- kachat-webserver/src/chess.rs: the legal moves, and how a game ends on the board.
use ka_chat_indexer.Prelude.{
  ◌+◌, ◌%◌, Bool, true, false, ◌&&◌, not, List, [], ◌∷◌, ◌++◌, Option, none, some, any, ◌==◌,
  nat_eq, int_eq, if◌then◌else◌, ◌≡◌, ◌↔◌, arith, refl, true_of_and_left, true_of_and_right,
}
use ka_chat_indexer.Prelude.Int.{pos_part}
use ka_chat_indexer.Chess.Rules.Board.{
  white, black, color_eq, PieceType, pawn, knight, bishop, queen, king, type_eq, type_beq_iff,
  Square, square_eq, square_beq_iff, Move, Board, piece_at, all_squares,
}
use ka_chat_indexer.Chess.Rules.Attack.{is_king_in_check}
use ka_chat_indexer.Chess.Rules.Moves.{pseudo_legal_moves, last_rank}
use ka_chat_indexer.Chess.Rules.Apply.{apply}

abbrev promotion_beq : Option PieceType → Option PieceType → Bool
promotion_beq none none = true
promotion_beq (some p) (some q) = p == q
promotion_beq _ _ = false

promotion_beq_iff : (p q : Option PieceType) → (promotion_beq p q ≡ true) ↔ (p ≡ q)
promotion_beq_iff none none = ground arith
promotion_beq_iff none (some q) = ground arith
promotion_beq_iff (some p) none = ground arith
promotion_beq_iff (some p) (some q) = ground (arith, type_beq_iff p q)

abbrev pub move_beq : Move → Move → Bool
move_beq m n = m.from == n.from && m.to == n.to && promotion_beq m.promotion n.promotion

move_beq_self : (m : Move) → move_beq m m ≡ true
move_beq_self m =
    rw
      (
        (square_beq_iff m.from m.from).1 refl,
        (square_beq_iff m.to m.to).1 refl,
        (promotion_beq_iff m.promotion m.promotion).1 refl,
      )
      refl

pub move_beq_iff : (m n : Move) → (move_beq m n ≡ true) ↔ (m ≡ n)
move_beq_iff m n = (
  λ h.
      let both =
        true_of_and_left (m.from == n.from && m.to == n.to) (promotion_beq m.promotion n.promotion)
          h in
      let from =
        (square_beq_iff m.from n.from).0
          (true_of_and_left (m.from == n.from) (m.to == n.to) both) in
      let to =
        (square_beq_iff m.to n.to).0 (true_of_and_right (m.from == n.from) (m.to == n.to) both) in
      let promotion = (promotion_beq_iff m.promotion n.promotion).0 (
        true_of_and_right (m.from == n.from && m.to == n.to) (promotion_beq m.promotion n.promotion)
          h) in
      λ i. record { from = from i; to = to i; promotion = promotion i },
  λ e. rw e (move_beq_self n),
)

-- The moves of the side to move from a square.
unfoldable pub moves_from : Board → Square → List Move
unfolding piece_at pseudo_legal_moves
moves_from board s = elim (piece_at board s) [
  | none ↦ []
  | some piece ↦ if piece.color == board.side_to_move then pseudo_legal_moves piece s board else []
]

unfoldable pub moves_of : List Square → Board → List Move
unfolding moves_from
moves_of [] board = []
moves_of (s ∷ squares) board = moves_from board s ++ moves_of squares board

-- A move that does not leave the mover's own king in check.
unfoldable pub keeps_king : Board → Move → Bool
unfolding apply is_king_in_check
keeps_king board m = not (is_king_in_check board.side_to_move (apply m board))

unfoldable pub filter_moves : (Move → Bool) → List Move → List Move
filter_moves p [] = []
filter_moves p (m ∷ moves) = let rest = filter_moves p moves in if p m then m ∷ rest else rest

unfoldable pub legal_moves : Board → List Move
unfolding filter_moves keeps_king moves_of
legal_moves board = filter_moves (keeps_king board) (moves_of all_squares board)

-- A pawn that reaches the last rank with no promotion named becomes a queen.
unfoldable pub normalizing_promotion : Move → Board → Move
unfolding piece_at
normalizing_promotion m board = elim m.promotion [
  | some _ ↦ m
  | none ↦ elim (piece_at board m.from) [
    | none ↦ m
    | some piece ↦
        if piece.piece_type == pawn && m.to.rank == last_rank piece.color
        then record m { promotion = some queen }
        else m
  ]
]

unfoldable pub is_legal : Move → Board → Bool
unfolding any legal_moves normalizing_promotion
is_legal m board =
    let normalized = normalizing_promotion m board in
    any (λ x. move_beq x normalized) (legal_moves board)

abbrev is_empty : List Move → Bool
is_empty [] = true
is_empty (_ ∷ _) = false

unfoldable pub is_checkmate : Board → Bool
unfolding is_king_in_check legal_moves
is_checkmate board = is_king_in_check board.side_to_move board && is_empty (legal_moves board)

unfoldable pub is_stalemate : Board → Bool
unfolding is_king_in_check legal_moves
is_stalemate board = not (is_king_in_check board.side_to_move board) && is_empty (legal_moves board)

-- The bishops and knights of each colour, in the order of the scan; none if another piece but a
-- king is on the board.
unfoldable pub minors :
    List Square → Board → List Square → List Square → Option (List Square × List Square)
unfolding piece_at
minors [] board whites blacks = some (whites, blacks)
minors (s ∷ squares) board whites blacks = elim (piece_at board s) [
  | none ↦ minors squares board whites blacks
  | some p ↦ elim p.piece_type [
    | king ↦ minors squares board whites blacks
    | bishop ↦ elim p.color [
      | white ↦ minors squares board (whites ++ (s ∷ [])) blacks
      | black ↦ minors squares board whites (blacks ++ (s ∷ []))
    ]
    | knight ↦ elim p.color [
      | white ↦ minors squares board (whites ++ (s ∷ [])) blacks
      | black ↦ minors squares board whites (blacks ++ (s ∷ []))
    ]
    | _ ↦ none
  ]
]

-- On a square of the board.
unfoldable pub is_light_square : Square → Bool
is_light_square s = (pos_part s.file + pos_part s.rank) % 2 == 1

unfoldable pub holds_bishop : Board → Square → Bool
unfolding piece_at
holds_bishop board s = elim (piece_at board s) [ none ↦ false | some p ↦ p.piece_type == bishop ]

bool_beq : Bool → Bool → Bool
bool_beq true b = b
bool_beq false b = not b

cannot_mate : Board → List Square × List Square → Bool
unfolding holds_bishop is_light_square bool_beq
cannot_mate board ([], []) = true
cannot_mate board (w ∷ [], []) = true
cannot_mate board ([], b ∷ []) = true
cannot_mate board (w ∷ [], b ∷ []) =
    holds_bishop board w && holds_bishop board b && bool_beq (is_light_square w) (is_light_square b)
cannot_mate board _ = false

unfoldable pub is_insufficient_material : Board → Bool
unfolding minors cannot_mate
is_insufficient_material board = elim (minors all_squares board [] []) [
  | none ↦ false
  | some found ↦ cannot_mate board found
]
