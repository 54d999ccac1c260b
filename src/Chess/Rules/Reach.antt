-- ===== src/Chess/Rules/Reach.antt =====
-- Where the pseudo-legal moves lead.
use ka_chat_indexer.Prelude.{
  ℕ, zero, suc, ◌≡◌, refl, inl, inr, true, false, ◌&&◌, List, [], ◌∷◌, ◌++◌, ◌==◌, int_eq,
  Bool-cases, Option-cases, if-both, true_of_and_left, true_of_and_right, arith,
}
use ka_chat_indexer.Prelude.Int.{ℤ, pos, negsuc, int_beq_iff}
use ka_chat_indexer.Chess.Rules.Board.{
  Color, color_eq, PieceType, pawn, knight, bishop, rook, queen, king, Piece, Square, sq, is_valid,
  offset, Move, Board, piece_at, can_castle_k, can_castle_q,
}
use ka_chat_indexer.Chess.Rules.Attack.{
  knight_offsets, king_offsets, diagonal_dirs, straight_dirs, board_width,
}
use ka_chat_indexer.Chess.Rules.Moves.{
  plain, promotions, last_rank, add_move, is_free, pawn_pushes, pawn_capture, pawn_moves,
  is_en_passant, step_move, stepping_moves, slide_moves, sliding_moves, castle_k, castle_q,
  home_rank, start_rank, direction, twice_direction, is_safe, king_moves, pseudo_legal_moves,
}
use ka_chat_indexer.Chess.Rules.Rays.{slide_moves-free, on_board}
use ka_chat_indexer.Chess.Rules.Targets.{
  Each, Each-append, is_own, double_push_valid, castle_target_valid,
}

-- From `s` to a square of the board without a piece of the colour.
pub record IsReach (color : Color) (s : Square) (board : Board) (m : Move) : Type 0 where
  pub leaves : m.from ≡ s
  pub valid : is_valid m.to ≡ true
  pub open_to : is_own color (piece_at board m.to) ≡ false

module _ (color : Color) (s : Square) (board : Board) where
  abbrev P : Move → Type 0
  P = IsReach color s board

  promotions-Each :
      (t : Square) (l : List PieceType)
      → is_valid t ≡ true
      → is_own color (piece_at board t) ≡ false
      → Each P (promotions s t l)
  unfolding promotions
  promotions-Each t [] v o = tt
  promotions-Each t (p ∷ l) v o =
      (record { leaves = refl; valid = v; open_to = o }, promotions-Each t l v o)

  plain-Each :
      (t : Square)
      → is_valid t ≡ true
      → is_own color (piece_at board t) ≡ false
      → Each P (plain s t ∷ [])
  plain-Each t v o = (record { leaves = refl; valid = v; open_to = o }, tt)

  add_move-Each :
      (t : Square) → is_own color (piece_at board t) ≡ false → Each P (add_move color s t)
  unfolding add_move
  add_move-Each t o = elim (Bool-cases (is_valid t)) [
    | inr v ↦ rw (v, add_move) tt
    | inl v ↦ elim (Bool-cases (t.rank == last_rank color)) [
      | inl p ↦ rw (v, p, add_move) (promotions-Each t (queen ∷ rook ∷ bishop ∷ knight ∷ []) v o)
      | inr p ↦ rw (v, p, add_move) (plain-Each t v o)
    ]
  ]

  free_not_own : (t : Square) → is_free board t ≡ true → is_own color (piece_at board t) ≡ false
  unfolding is_free
  free_not_own t h = elim (Option-cases (piece_at board t)) [
    | inl e ↦ rw e refl
    | inr (p, e) ↦ ground (arith, h, e)
  ]

  step_move-Each : (t : Square) → Each P (step_move color s board t)
  unfolding step_move
  step_move-Each t = elim (Bool-cases (is_valid t)) [
    | inr v ↦ rw (v, step_move) tt
    | inl v ↦ elim (Option-cases (piece_at board t)) [
      | inl e ↦ rw (e, v, step_move) (plain-Each t v (rw e refl))
      | inr (p, e) ↦ elim (Bool-cases (p.color == color)) [
        | inl c ↦ rw (e, v, c, step_move) tt
        | inr c ↦ rw (e, v, c, step_move) (plain-Each t v (rw e c))
      ]
    ]
  ]

  stepping_moves-Each : (l : List (ℤ × ℤ)) → Each P (stepping_moves l color s board)
  unfolding stepping_moves
  stepping_moves-Each [] = tt
  stepping_moves-Each (d ∷ l) =
      Each-append P (step_move color s board (offset s d)) (stepping_moves l color s board)
        (step_move-Each (offset s d)) (stepping_moves-Each l)

  slide_moves-Each :
      (fuel : ℕ) (t : Square) (d : ℤ × ℤ) → Each P (slide_moves fuel t d color s board)
  unfolding slide_moves
  slide_moves-Each zero t d = tt
  slide_moves-Each (suc fuel) t d = elim (Bool-cases (is_valid t)) [
    | inr v ↦ rw (v, slide_moves) tt
    | inl v ↦ elim (Option-cases (piece_at board t)) [
      | inl e ↦
          let rest = slide_moves-Each fuel (offset t d) d in
          rw (slide_moves-free fuel t d color s board v e) (
            Each-append P (plain s t ∷ []) (slide_moves fuel (offset t d) d color s board)
              (plain-Each t v (rw e refl)) rest)
      | inr (p, e) ↦ elim (Bool-cases (p.color == color)) [
        | inl c ↦ rw (v, e, c, slide_moves) tt
        | inr c ↦ rw (v, e, c, slide_moves) (plain-Each t v (rw e c))
      ]
    ]
  ]

  sliding_moves-Each : (l : List (ℤ × ℤ)) → Each P (sliding_moves l color s board)
  unfolding sliding_moves
  sliding_moves-Each [] = tt
  sliding_moves-Each (d ∷ l) =
      Each-append P (slide_moves board_width (offset s d) d color s board)
        (sliding_moves l color s board) (slide_moves-Each board_width (offset s d) d)
        (sliding_moves-Each l)

  pawn_capture-Each : (d : ℤ) → Each P (pawn_capture color s board d)
  unfolding pawn_capture
  pawn_capture-Each d =
      let t = offset s (d, direction color) in
      elim (Bool-cases (is_valid t)) [
        | inr v ↦ rw (v, pawn_capture) tt
        | inl v ↦ elim (Option-cases (piece_at board t)) [
          | inl e ↦ elim (Bool-cases (is_en_passant board t)) [
            | inl q ↦ rw (e, v, q, pawn_capture) (plain-Each t v (rw e refl))
            | inr q ↦ rw (e, v, q, pawn_capture) tt
          ]
          | inr (p, e) ↦ elim (Bool-cases (p.color == color)) [
            | inl c ↦ rw (e, v, c, pawn_capture) tt
            | inr c ↦
                let opened : pawn_capture color s board d ≡ add_move color s t =
                  rw (e, v, c, pawn_capture) refl in
                rw opened (add_move-Each t (rw e c))
          ]
        ]
      ]

  pawn_pushes-Each : is_valid s ≡ true → Each P (pawn_pushes color s board)
  unfolding pawn_pushes
  pawn_pushes-Each on_board =
      let single = offset s (pos 0, direction color) in
      let double = offset s (pos 0, twice_direction color) in
      elim (Bool-cases (is_valid single && is_free board single)) [
        | inr p ↦ rw (p, pawn_pushes) tt
        | inl p ↦
            let single_free =
              free_not_own single (true_of_and_right (is_valid single) (is_free board single) p) in
            elim (Bool-cases (s.rank == start_rank color && is_free board double)) [
              | inl q ↦
                  let start =
                    (int_beq_iff s.rank (start_rank color)).0
                      (true_of_and_left (s.rank == start_rank color) (is_free board double) q) in
                  let free =
                    true_of_and_right (s.rank == start_rank color) (is_free board double) q in
                  let opened : pawn_pushes color s board
                      ≡ add_move color s single ++ (plain s double ∷ []) =
                    rw (p, q, pawn_pushes) refl in
                  rw opened (
                    Each-append P (add_move color s single) (plain s double ∷ [])
                      (add_move-Each single single_free)
                      (plain-Each double (double_push_valid color s on_board start)
                        (free_not_own double free)))
              | inr q ↦
                  let opened : pawn_pushes color s board ≡ add_move color s single ++ [] =
                    rw (p, q, pawn_pushes) refl in
                  rw opened (
                    Each-append P (add_move color s single) [] (add_move-Each single single_free)
                      tt)
            ]
      ]

  castle_k-Each : Each P (castle_k color s board)
  unfolding castle_k
  castle_k-Each =
      let rank = home_rank color in
      let target = sq (pos 6) rank in
      elim (Bool-cases (
        can_castle_k board color
        && is_free board (sq (pos 5) rank)
        && is_free board (sq (pos 6) rank)
        && is_safe board color (sq (pos 5) rank)
        && is_safe board color (sq (pos 6) rank))) [
          | inr p ↦ rw (p, castle_k) tt
          | inl p ↦
              let free : is_free board target ≡ true = ground (arith, p) in
              rw (p, castle_k)
                (plain-Each target (castle_target_valid color 6 (ground arith))
                  (free_not_own target free))
        ]

  castle_q-Each : Each P (castle_q color s board)
  unfolding castle_q
  castle_q-Each =
      let rank = home_rank color in
      let target = sq (pos 2) rank in
      elim (Bool-cases (
        can_castle_q board color
        && is_free board (sq (pos 3) rank)
        && is_free board (sq (pos 2) rank)
        && is_free board (sq (pos 1) rank)
        && is_safe board color (sq (pos 3) rank)
        && is_safe board color (sq (pos 2) rank))) [
          | inr p ↦ rw (p, castle_q) tt
          | inl p ↦
              let free : is_free board target ≡ true = ground (arith, p) in
              rw (p, castle_q)
                (plain-Each target (castle_target_valid color 2 (ground arith))
                  (free_not_own target free))
        ]

  king_moves-Each : Each P (king_moves color s board)
  unfolding king_moves
  king_moves-Each =
      Each-append P (stepping_moves king_offsets color s board) _ (stepping_moves-Each king_offsets)
        (if-both (Each P) (is_safe board color s) (castle_k color s board ++ castle_q color s board)
          []
          (Each-append P (castle_k color s board) (castle_q color s board) castle_k-Each
            castle_q-Each)
          tt)

  pawn_moves-Each : is_valid s ≡ true → Each P (pawn_moves color s board)
  unfolding pawn_moves
  pawn_moves-Each v = Each-append P (pawn_pushes color s board) _ (pawn_pushes-Each v) (
      Each-append P (pawn_capture color s board (negsuc 0)) (pawn_capture color s board (pos 1))
        (pawn_capture-Each (negsuc 0)) (pawn_capture-Each (pos 1)))

pub pseudo_legal_moves-Each :
    (piece : Piece) (s : Square) (board : Board)
    → is_valid s ≡ true
    → Each (IsReach piece.color s board) (pseudo_legal_moves piece s board)
unfolding pseudo_legal_moves
pseudo_legal_moves-Each piece s board v = go piece.piece_type refl
  where
    go :
        (t : PieceType)
        → piece.piece_type ≡ t
        → Each (IsReach piece.color s board) (pseudo_legal_moves piece s board)
    go pawn e = rw (e, pseudo_legal_moves) (pawn_moves-Each piece.color s board v)
    go knight e =
        rw (e, pseudo_legal_moves) (stepping_moves-Each piece.color s board knight_offsets)
    go bishop e = rw (e, pseudo_legal_moves) (sliding_moves-Each piece.color s board diagonal_dirs)
    go rook e = rw (e, pseudo_legal_moves) (sliding_moves-Each piece.color s board straight_dirs)
    go queen e =
        rw (e, pseudo_legal_moves)
          (Each-append (IsReach piece.color s board)
            (sliding_moves diagonal_dirs piece.color s board)
            (sliding_moves straight_dirs piece.color s board)
            (sliding_moves-Each piece.color s board diagonal_dirs)
            (sliding_moves-Each piece.color s board straight_dirs))
    go king e = rw (e, pseudo_legal_moves) (king_moves-Each piece.color s board)
