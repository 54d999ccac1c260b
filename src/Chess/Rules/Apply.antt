-- ===== src/Chess/Rules/Apply.antt =====
-- kachat-webserver/src/chess.rs: `apply`, the board after a move.
use ka_chat_indexer.Prelude.{
  ℕ, ◌/◌, Bool, false, ◌&&◌, Option, none, some, ◌==◌, nat_eq, int_eq, if◌then◌else◌,
}
use ka_chat_indexer.Prelude.Int.{ℤ, pos, negsuc, pos_part, neg_part, ◌+ℤ◌, ◌-ℤ◌}
use ka_chat_indexer.Chess.Rules.Board.{
  Color, opposite, pawn, rook, king, type_eq, Piece, Square, sq, Move, Board, piece_at, set_piece,
  set_castle_k, set_castle_q,
}
use ka_chat_indexer.Chess.Rules.Moves.{is_free, is_en_passant}

-- `abs`, of a difference of coordinates.
abbrev distance : ℤ → ℤ → ℕ
distance a b = let d = a -ℤ b in elim d [ pos n ↦ n | negsuc n ↦ neg_part (negsuc n) ]

unfoldable pub is_en_passant_capture : Piece → Move → Board → Bool
unfolding is_en_passant is_free
is_en_passant_capture piece m board =
    piece.piece_type == pawn && is_en_passant board m.to && is_free board m.to

unfoldable pub is_castle : Piece → Move → Bool
unfolding ◌-ℤ◌
is_castle piece m = piece.piece_type == king && distance m.to.file m.from.file == 2

-- The piece stands at `to`, and `from` is empty.
unfoldable pub move_piece : Piece → Move → Board → Board
unfolding set_piece
move_piece piece m board =
    set_piece
      (some (record {
        piece_type = elim m.promotion [ none ↦ piece.piece_type | some p ↦ p ];
        color = piece.color;
      }))
      m.to (set_piece none m.from board)

unfoldable pub move_rook : Color → ℤ → ℤ → ℤ → Board → Board
unfolding set_piece
move_rook color rank old new board =
    set_piece (some (record { piece_type = rook; color = color })) (sq new rank)
      (set_piece none (sq old rank) board)

unfoldable pub castle_rook : Color → Move → Board → Board
unfolding move_rook
castle_rook color m board =
    if m.to.file == pos 6
    then move_rook color m.from.rank (pos 7) (pos 5) board
    else move_rook color m.from.rank (pos 0) (pos 3) board

unfoldable pub revoke_castling_right_if_corner_touched : Square → Board → Board
revoke_castling_right_if_corner_touched s board =
    if s.file == pos 0 && s.rank == pos 0
    then record board { white_castle_q = false }
    else if s.file == pos 7 && s.rank == pos 0
    then record board { white_castle_k = false }
    else if s.file == pos 0 && s.rank == pos 7
    then record board { black_castle_q = false }
    else if s.file == pos 7 && s.rank == pos 7
    then record board { black_castle_k = false }
    else board

unfoldable pub revoke_king : Piece → Board → Board
unfolding set_castle_k set_castle_q
revoke_king piece board =
    if piece.piece_type == king
    then set_castle_q false piece.color (set_castle_k false piece.color board)
    else board

-- The square that a double push crossed: ranks of the board are not negative.
unfoldable pub crossed : Piece → Move → Option Square
unfolding ◌-ℤ◌ ◌+ℤ◌
crossed piece m =
    if piece.piece_type == pawn && distance m.to.rank m.from.rank == 2
    then some (sq m.from.file (pos (pos_part (m.from.rank +ℤ m.to.rank) / 2)))
    else none

-- The pieces after the move, of a piece that stands at `from`.
unfoldable pub moved : Piece → Move → Board → Board
unfolding is_en_passant_capture is_castle move_piece set_piece castle_rook
moved piece m board =
    let result = move_piece piece m board in
    let result =
      if is_en_passant_capture piece m board
      then set_piece none (sq m.to.file m.from.rank) result
      else result in
    if is_castle piece m then castle_rook piece.color m result else result

unfoldable pub apply : Move → Board → Board
unfolding piece_at moved revoke_king revoke_castling_right_if_corner_touched crossed opposite
apply m board = elim (piece_at board m.from) [
  | none ↦ board
  | some piece ↦
      let result = revoke_king piece (moved piece m board) in
      let result = revoke_castling_right_if_corner_touched m.from result in
      let result = revoke_castling_right_if_corner_touched m.to result in
      record result { en_passant = crossed piece m; side_to_move = opposite board.side_to_move }
]
