-- ===== src/Chess/Rules/Sound.antt =====
-- What every legal move is.
use ka_chat_indexer.Prelude.{
  ◌≡◌, refl, sym, inl, inr, true, false, List, [], ◌∷◌, some, ◌==◌, int_eq, Bool-cases,
  Option-cases, all, false_of_not, true_of_and_left, true_of_and_right,
}
use ka_chat_indexer.Chess.Rules.Board.{
  color_eq, color_beq_iff, Piece, Square, is_valid, Move, Board, piece_at, all_squares,
}
use ka_chat_indexer.Chess.Rules.Attack.{is_king_in_check}
use ka_chat_indexer.Chess.Rules.Moves.{pseudo_legal_moves}
use ka_chat_indexer.Chess.Rules.Apply.{apply}
use ka_chat_indexer.Chess.Rules.Legal.{moves_from, moves_of, keeps_king, legal_moves}
use ka_chat_indexer.Chess.Rules.Targets.{Each, Each-append, Each-weaken, Each-filter_moves, is_own}
use ka_chat_indexer.Chess.Rules.Reach.{IsReach, pseudo_legal_moves-Each}

-- The move of a piece of the side to move, to a square of the board that holds none of its own,
-- after which its king is not in check.
pub record IsSoundMove (board : Board) (m : Move) : Type 0 where
  pub own : is_own board.side_to_move (piece_at board m.from) ≡ true
  pub valid : is_valid m.to ≡ true
  pub open_to : is_own board.side_to_move (piece_at board m.to) ≡ false
  pub safe : is_king_in_check board.side_to_move (apply m board) ≡ false

-- A move of the side to move, the king aside.
record IsPseudo (board : Board) (m : Move) : Type 0 where
  own : is_own board.side_to_move (piece_at board m.from) ≡ true
  valid : is_valid m.to ≡ true
  open_to : is_own board.side_to_move (piece_at board m.to) ≡ false

reach-IsPseudo :
    (board : Board) (s : Square) (piece : Piece)
    → piece_at board s ≡ some piece
    → piece.color ≡ board.side_to_move
    → (m : Move) → IsReach piece.color s board m
    → IsPseudo board m
unfolding piece_at
reach-IsPseudo board s piece e c m r = record {
  own = rw (r.leaves, e) ((color_beq_iff piece.color board.side_to_move).1 c);
  valid = r.valid;
  open_to = rw (sym c) r.open_to;
}

moves_from-Each :
    (board : Board) (s : Square) → is_valid s ≡ true → Each (IsPseudo board) (moves_from board s)
unfolding moves_from
moves_from-Each board s v = elim (Option-cases (piece_at board s)) [
  | inl e ↦ rw (e, moves_from) tt
  | inr (piece, e) ↦ elim (Bool-cases (piece.color == board.side_to_move)) [
    | inr c ↦ rw (e, c, moves_from) tt
    | inl c ↦
        let opened : moves_from board s ≡ pseudo_legal_moves piece s board =
          rw (e, c, moves_from) refl in
        rw opened (
          Each-weaken (IsReach piece.color s board) (IsPseudo board)
            (reach-IsPseudo board s piece e ((color_beq_iff piece.color board.side_to_move).0 c))
            (pseudo_legal_moves piece s board) (pseudo_legal_moves-Each piece s board v))
  ]
]

moves_of-Each :
    (board : Board) (l : List Square)
    → all is_valid l ≡ true
    → Each (IsPseudo board) (moves_of l board)
unfolding moves_of all
moves_of-Each board [] v = tt
moves_of-Each board (s ∷ l) v =
    Each-append (IsPseudo board) (moves_from board s) (moves_of l board)
      (moves_from-Each board s (true_of_and_left (is_valid s) (all is_valid l) v))
      (moves_of-Each board l (true_of_and_right (is_valid s) (all is_valid l) v))

keeps_king-safe :
    (board : Board) (m : Move)
    → keeps_king board m ≡ true
    → is_king_in_check board.side_to_move (apply m board) ≡ false
unfolding keeps_king
keeps_king-safe board m h = false_of_not (is_king_in_check board.side_to_move (apply m board)) h

squares_valid : all is_valid all_squares ≡ true
unfolding all is_valid
squares_valid = refl

-- Every legal move is of a piece of the side to move, to a square of the board that holds none of
-- its own pieces, and its own king is not in check after it.
pub legal_moves-IsSoundMove : (board : Board) → Each (IsSoundMove board) (legal_moves board)
unfolding legal_moves
legal_moves-IsSoundMove board =
    Each-weaken (λ m. IsPseudo board m × (keeps_king board m ≡ true)) (IsSoundMove board)
      (λ m (p, h). record {
        own = p.own;
        valid = p.valid;
        open_to = p.open_to;
        safe = keeps_king-safe board m h;
      })
      (legal_moves board)
      (Each-filter_moves (IsPseudo board) (keeps_king board) (moves_of all_squares board)
        (moves_of-Each board all_squares squares_valid))
