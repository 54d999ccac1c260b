-- ===== src/Chess/Rules/Moves.antt =====
-- kachat-webserver/src/chess.rs: the pseudo-legal moves.
use ka_chat_indexer.Prelude.{
  ℕ, zero, suc, Bool, true, false, ◌&&◌, not, List, [], ◌∷◌, ◌++◌, none, some, ◌==◌, int_eq,
  if◌then◌else◌,
}
use ka_chat_indexer.Prelude.Int.{ℤ, pos, negsuc}
use ka_chat_indexer.Chess.Rules.Board.{
  Color, white, black, opposite, color_eq, PieceType, pawn, knight, bishop, rook, queen, king,
  type_eq, Piece, Square, sq, square_eq, is_valid, offset, Move, Board, piece_at, can_castle_k,
  can_castle_q,
}
use ka_chat_indexer.Chess.Rules.Attack.{
  knight_offsets, king_offsets, diagonal_dirs, straight_dirs, board_width, is_square_attacked,
}

abbrev pub plain : Square → Square → Move
plain from to = record { from = from; to = to; promotion = none }

abbrev pub direction : Color → ℤ
direction white = pos 1
direction black = negsuc 0

abbrev pub twice_direction : Color → ℤ
twice_direction white = pos 2
twice_direction black = negsuc 1

abbrev pub start_rank : Color → ℤ
start_rank white = pos 1
start_rank black = pos 6

abbrev pub last_rank : Color → ℤ
last_rank white = pos 7
last_rank black = pos 0

unfoldable pub promotions : Square → Square → List PieceType → List Move
promotions from to [] = []
promotions from to (p ∷ ps) =
    record { from = from; to = to; promotion = some p } ∷ promotions from to ps

-- The closure `add_move`.
unfoldable pub add_move : Color → Square → Square → List Move
unfolding is_valid promotions
add_move color from to =
    if not (is_valid to)
    then []
    else if to.rank == last_rank color
    then promotions from to (queen ∷ rook ∷ bishop ∷ knight ∷ [])
    else plain from to ∷ []

unfoldable pub is_free : Board → Square → Bool
unfolding piece_at
is_free board s = elim (piece_at board s) [ none ↦ true | some _ ↦ false ]

unfoldable pub pawn_pushes : Color → Square → Board → List Move
unfolding offset is_valid is_free add_move
pawn_pushes color s board =
    let single_push = offset s (pos 0, direction color) in
    let double_push = offset s (pos 0, twice_direction color) in
    if is_valid single_push && is_free board single_push
    then add_move color s single_push
      ++ (if s.rank == start_rank color && is_free board double_push
          then plain s double_push ∷ []
          else [])
    else []

unfoldable pub is_en_passant : Board → Square → Bool
is_en_passant board target = elim board.en_passant [ none ↦ false | some s ↦ target == s ]

unfoldable pub pawn_capture : Color → Square → Board → ℤ → List Move
unfolding offset is_valid piece_at add_move is_en_passant
pawn_capture color s board file_offset =
    let target = offset s (file_offset, direction color) in
    if not (is_valid target) then [] else elim (piece_at board target) [
      | some occupant ↦ if not (occupant.color == color) then add_move color s target else []
      | none ↦ if is_en_passant board target then plain s target ∷ [] else []
    ]

unfoldable pub pawn_moves : Color → Square → Board → List Move
unfolding pawn_pushes pawn_capture
pawn_moves color s board =
    pawn_pushes color s board
    ++ (pawn_capture color s board (negsuc 0) ++ pawn_capture color s board (pos 1))

unfoldable pub step_move : Color → Square → Board → Square → List Move
unfolding is_valid piece_at
step_move color s board target =
    if not (is_valid target) then [] else elim (piece_at board target) [
      | none ↦ plain s target ∷ []
      | some occupant ↦ if occupant.color == color then [] else plain s target ∷ []
    ]

unfoldable pub stepping_moves : List (ℤ × ℤ) → Color → Square → Board → List Move
unfolding step_move offset
stepping_moves [] color s board = []
stepping_moves (d ∷ offsets) color s board =
    step_move color s board (offset s d) ++ stepping_moves offsets color s board

-- The `while` loop of `sliding_moves` from `target` on.
unfoldable pub slide_moves : ℕ → Square → ℤ × ℤ → Color → Square → Board → List Move
unfolding is_valid piece_at offset
slide_moves zero target d color s board = []
slide_moves (suc fuel) target d color s board = elim (is_valid target) [
  | false ↦ []
  | true ↦ elim (piece_at board target) [
    | some occupant ↦ if not (occupant.color == color) then plain s target ∷ [] else []
    | none ↦ plain s target ∷ slide_moves fuel (offset target d) d color s board
  ]
]

unfoldable pub sliding_moves : List (ℤ × ℤ) → Color → Square → Board → List Move
unfolding slide_moves offset
sliding_moves [] color s board = []
sliding_moves (d ∷ directions) color s board =
    slide_moves board_width (offset s d) d color s board ++ sliding_moves directions color s board

abbrev pub home_rank : Color → ℤ
home_rank white = pos 0
home_rank black = pos 7

-- A square that the king may cross: free, and not attacked.
unfoldable pub is_safe : Board → Color → Square → Bool
unfolding is_square_attacked
is_safe board color s = not (is_square_attacked s (opposite color) board)

unfoldable pub castle_k : Color → Square → Board → List Move
unfolding can_castle_k is_free is_safe
castle_k color s board =
    let rank = home_rank color in
    if can_castle_k board color
      && is_free board (sq (pos 5) rank)
      && is_free board (sq (pos 6) rank)
      && is_safe board color (sq (pos 5) rank)
      && is_safe board color (sq (pos 6) rank)
    then plain s (sq (pos 6) rank) ∷ []
    else []

unfoldable pub castle_q : Color → Square → Board → List Move
unfolding can_castle_q is_free is_safe
castle_q color s board =
    let rank = home_rank color in
    if can_castle_q board color
      && is_free board (sq (pos 3) rank)
      && is_free board (sq (pos 2) rank)
      && is_free board (sq (pos 1) rank)
      && is_safe board color (sq (pos 3) rank)
      && is_safe board color (sq (pos 2) rank)
    then plain s (sq (pos 2) rank) ∷ []
    else []

unfoldable pub king_moves : Color → Square → Board → List Move
unfolding stepping_moves is_safe castle_k castle_q
king_moves color s board =
    stepping_moves king_offsets color s board
    ++ (if is_safe board color s then castle_k color s board ++ castle_q color s board else [])

unfoldable pub pseudo_legal_moves : Piece → Square → Board → List Move
unfolding pawn_moves stepping_moves sliding_moves king_moves
pseudo_legal_moves piece s board = elim piece.piece_type [
  | pawn ↦ pawn_moves piece.color s board
  | knight ↦ stepping_moves knight_offsets piece.color s board
  | bishop ↦ sliding_moves diagonal_dirs piece.color s board
  | rook ↦ sliding_moves straight_dirs piece.color s board
  | queen ↦
      sliding_moves diagonal_dirs piece.color s board
      ++ sliding_moves straight_dirs piece.color s board
  | king ↦ king_moves piece.color s board
]
