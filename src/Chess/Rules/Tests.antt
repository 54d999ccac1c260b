-- ===== src/Chess/Rules/Tests.antt =====
-- The rules at known positions.
use ka_chat_indexer.Prelude.{◌≡◌, refl, length}
use ka_chat_indexer.Chess.Rules.Board.{initial_board}
use ka_chat_indexer.Chess.Rules.Legal.{legal_moves}

initial_has_twenty : length (legal_moves initial_board) ≡ 20
unfolding legal_moves initial_board
initial_has_twenty = refl
