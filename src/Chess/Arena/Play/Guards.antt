-- ===== src/Chess/Arena/Play/Guards.antt =====
-- What a move, a resignation and a claim that are taken went through.
use ka_chat_indexer.Prelude.{
  ◌≡◌, refl, Bool, true, false, not, Option, some, ◌==◌, bytes_eq, bytes_beq_iff, arith, ◌>>=◌,
  some_of_bind, false_of_not, some_injective,
}
use ka_chat_indexer.Prelude.Int.{ltb_ℤ}
use ka_chat_indexer.Chess.Rules.Board.{Color, opposite, color_eq, Piece, Move, piece_at}
use ka_chat_indexer.Chess.Rules.Legal.{is_legal}
use ka_chat_indexer.Chess.Arena.Message.{ArenaEvent}
use ka_chat_indexer.Chess.Arena.State.{
  Game, resignation, timeout, address_of, is_over, color_of, player_to_move, side_to_move,
}
use ka_chat_indexer.Chess.Arena.Bracket.{finish}
use ka_chat_indexer.Chess.Arena.Play.{
  guard, settle, moved_game, exhaust, elapsed_at, remaining_of, named_move, move_number_ok,
  play_move, resign, claim,
}

pub true_of_guard {κ} :
    {B : Type κ} (test : Bool) (f : Unit {0} → Option B) (b : B)
    → (guard test >>= f) ≡ some b
    → (test ≡ true) × (f tt ≡ some b)
true_of_guard true f b h = (refl, h)
true_of_guard false f b h = ground (arith, h)

-- What lets a move, a resignation or a claim through, and what the game is then.
pub record Played (event : ArenaEvent) (g g' : Game) : Type 0 where
  pub running : is_over g ≡ false
  pub on_turn : player_to_move g ≡ event.sender
  pub numbered : move_number_ok event.message.n g ≡ true
  pub mv : Move
  pub named : named_move event.message g.board ≡ some mv
  pub in_time : ltb_ℤ (elapsed_at g event.block_time) (remaining_of g) ≡ true
  pub legal : is_legal mv g.board ≡ true
  pub piece : Piece
  pub standing : piece_at g.board mv.from ≡ some piece
  pub result :
      settle
        (side_to_move g)
        event.block_time
        (moved_game piece mv (elapsed_at g event.block_time) event.block_time g)
      ≡ g'

pub record Resigned (event : ArenaEvent) (g g' : Game) : Type 0 where
  pub running : is_over g ≡ false
  pub color : Color
  pub player : color_of g event.sender ≡ some color
  pub result : finish (address_of g (opposite color)) resignation event.block_time g ≡ g'

pub record Claimed (event : ArenaEvent) (g g' : Game) : Type 0 where
  pub running : is_over g ≡ false
  pub color : Color
  pub player : color_of g event.sender ≡ some color
  pub waiting : (color == side_to_move g) ≡ false
  pub late : ltb_ℤ (elapsed_at g event.block_time) (remaining_of g) ≡ false
  pub result : finish event.sender timeout event.block_time (exhaust g) ≡ g'

pub play_move-Played :
    (event : ArenaEvent) (g g' : Game) → play_move event g ≡ some g' → Played event g g'
unfolding play_move
play_move-Played event g g' h =
    let (running, h1) = true_of_guard (not (is_over g)) _ g' h in
    let (turn, h2) = true_of_guard (player_to_move g == event.sender) _ g' h1 in
    let (numbered, h3) = true_of_guard (move_number_ok event.message.n g) _ g' h2 in
    let (mv, named, h4) = some_of_bind (named_move event.message g.board) _ g' h3 in
    let (in_time, h5) =
      true_of_guard (ltb_ℤ (elapsed_at g event.block_time) (remaining_of g)) _ g' h4 in
    let (legal, h6) = true_of_guard (is_legal mv g.board) _ g' h5 in
    let (piece, standing, h7) = some_of_bind (piece_at g.board mv.from) _ g' h6 in
    record {
      running = false_of_not (is_over g) running;
      on_turn = (bytes_beq_iff (player_to_move g) event.sender).0 turn;
      numbered = numbered;
      mv = mv;
      named = named;
      in_time = in_time;
      legal = legal;
      piece = piece;
      standing = standing;
      result = some_injective _ g' h7;
    }

pub resign-Resigned :
    (event : ArenaEvent) (g g' : Game) → resign event g ≡ some g' → Resigned event g g'
unfolding resign
resign-Resigned event g g' h =
    let (running, h1) = true_of_guard (not (is_over g)) _ g' h in
    let (color, player, h2) = some_of_bind (color_of g event.sender) _ g' h1 in
    record {
      running = false_of_not (is_over g) running;
      color = color;
      player = player;
      result = some_injective _ g' h2;
    }

pub claim-Claimed :
    (event : ArenaEvent) (g g' : Game) → claim event g ≡ some g' → Claimed event g g'
unfolding claim
claim-Claimed event g g' h =
    let (running, h1) = true_of_guard (not (is_over g)) _ g' h in
    let (color, player, h2) = some_of_bind (color_of g event.sender) _ g' h1 in
    let (waiting, h3) = true_of_guard (not (color == side_to_move g)) _ g' h2 in
    let (late, h4) =
      true_of_guard (not (ltb_ℤ (elapsed_at g event.block_time) (remaining_of g))) _ g' h3 in
    record {
      running = false_of_not (is_over g) running;
      color = color;
      player = player;
      waiting = false_of_not (color == side_to_move g) waiting;
      late = false_of_not (ltb_ℤ (elapsed_at g event.block_time) (remaining_of g)) late;
      result = some_injective _ g' h4;
    }
