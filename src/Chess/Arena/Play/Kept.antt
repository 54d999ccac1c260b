-- ===== src/Chess/Arena/Play/Kept.antt =====
-- What a move, a resignation and a claim keep of a game.
use ka_chat_indexer.Prelude.{
  ◌≡◌, refl, sym, ap, ◌∙◌, ◌⊎◌, inl, inr, true, false, some, Bytes, nat_eq, bytes_eq, arith,
}
use ka_chat_indexer.Prelude.Int.{ℤ, ltb_ℤ, add_i64}
use ka_chat_indexer.Chess.Rules.Board.{
  Color, white, black, opposite, piece_at, Piece, Move, type_eq,
}
use ka_chat_indexer.Chess.Arena.Message.{ArenaEvent}
use ka_chat_indexer.Chess.Arena.State.{
  Game, resignation, timeout, is_over, side_to_move, address_of, used_ms,
}
use ka_chat_indexer.Chess.Arena.Play.{
  play_move, resign, claim, moved_game, charge, exhaust, elapsed_at, remaining_of,
}
use ka_chat_indexer.Chess.Arena.Play.Guards.{play_move-Played, resign-Resigned, claim-Claimed}
use ka_chat_indexer.Chess.Arena.Play.Clocks.{
  IsTimed, IsUsed, turn_of-suc, charge-IsUsed, apply-turn,
}
use ka_chat_indexer.Chess.Arena.Play.Valid.{
  IsPlayer, IsGame, IsRunning, address_of-IsPlayer, color_of-IsPlayer, finish-IsGame, settle-IsGame,
}

charge-clocks :
    (c : Color) (elapsed : ℤ) (g : Game)
    → IsUsed g.white_used_ms
    → IsUsed g.black_used_ms
    → IsUsed (add_i64 (used_ms g c) elapsed)
    → IsUsed (charge c elapsed g).white_used_ms × IsUsed (charge c elapsed g).black_used_ms
unfolding charge used_ms
charge-clocks white elapsed g w b used = (used, b)
charge-clocks black elapsed g w b used = (w, used)

pub used_ms-IsUsed : (g : Game) (c : Color) → IsTimed g → IsUsed (used_ms g c)
unfolding used_ms
used_ms-IsUsed g white timed = timed.white_clock
used_ms-IsUsed g black timed = timed.black_clock

moved-IsTimed :
    (g : Game) (piece : Piece) (mv : Move) (time : ℤ)
    → IsTimed g
    → piece_at g.board mv.from ≡ some piece
    → ltb_ℤ (elapsed_at g time) (remaining_of g) ≡ true
    → IsTimed (moved_game piece mv (elapsed_at g time) time g)
unfolding moved_game
moved-IsTimed g piece mv time timed standing in_time =
    let (w, b) =
      charge-clocks (side_to_move g) (elapsed_at g time) g timed.white_clock timed.black_clock
        (charge-IsUsed g time (used_ms-IsUsed g (side_to_move g) timed) in_time) in
    record {
      white_clock = w;
      black_clock = b;
      turn =
          apply-turn g.board mv piece standing
          ∙ ap opposite timed.turn
          ∙ sym (turn_of-suc g.moves_count);
    }

IsGame-IsRunning : (g : Game) → IsGame g → is_over g ≡ false → IsRunning g
unfolding is_over
IsGame-IsRunning g ok h = record {
  unended = ground (arith, h, ok.ended);
  undecided = ground (arith, h, ok.decided);
  unwon = ground (arith, h);
}

charge-IsRunning :
    (c : Color) (elapsed : ℤ) (g : Game) → IsRunning g → IsRunning (charge c elapsed g)
unfolding charge
charge-IsRunning white elapsed g r = record {
  unended = r.unended;
  undecided = r.undecided;
  unwon = r.unwon;
}
charge-IsRunning black elapsed g r = record {
  unended = r.unended;
  undecided = r.undecided;
  unwon = r.unwon;
}

moved-IsRunning :
    (g : Game) (piece : Piece) (mv : Move) (elapsed time : ℤ)
    → IsRunning g
    → IsRunning (moved_game piece mv elapsed time g)
unfolding moved_game
moved-IsRunning g piece mv elapsed time r =
    let c = charge-IsRunning (side_to_move g) elapsed g r in
    record { unended = c.unended; undecided = c.undecided; unwon = c.unwon }

pub play_move-IsGame :
    (event : ArenaEvent) (g g' : Game) → play_move event g ≡ some g' → IsGame g → IsGame g'
play_move-IsGame event g g' h ok =
    let p = play_move-Played event g g' h in
    let time = event.block_time in
    let g1 = moved_game p.piece p.mv (elapsed_at g time) time g in
    rw (sym p.result) (
      settle-IsGame (side_to_move g) time g1
        (moved-IsTimed g p.piece p.mv time ok.timed p.standing p.in_time)
        (moved-IsRunning g p.piece p.mv (elapsed_at g time) time (IsGame-IsRunning g ok p.running)))

pub resign-IsGame :
    (event : ArenaEvent) (g g' : Game) → resign event g ≡ some g' → IsGame g → IsGame g'
resign-IsGame event g g' h ok =
    let r = resign-Resigned event g g' h in
    rw (sym r.result) (
      finish-IsGame (address_of g (opposite r.color)) resignation event.block_time g ok.timed
        (address_of-IsPlayer g (opposite r.color)))

Color-cases : (c : Color) → (c ≡ white) ⊎ (c ≡ black)
Color-cases white = inl refl
Color-cases black = inr refl

exhaust-kept :
    (g : Game) (w : Bytes) → IsTimed g → IsPlayer g w → IsTimed (exhaust g) × IsPlayer (exhaust g) w
unfolding exhaust
exhaust-kept g w t plays = elim (Color-cases (side_to_move g)) [
  | inl e ↦
      rw (e, exhaust)
        (
          record {
            white_clock = ground arith;
            black_clock = t.black_clock;
            turn = e ∙ sym e ∙ t.turn;
          },
          plays,
        )
  | inr e ↦
      rw (e, exhaust)
        (
          record {
            white_clock = t.white_clock;
            black_clock = ground arith;
            turn = e ∙ sym e ∙ t.turn;
          },
          plays,
        )
]

pub claim-IsGame :
    (event : ArenaEvent) (g g' : Game) → claim event g ≡ some g' → IsGame g → IsGame g'
claim-IsGame event g g' h ok =
    let c = claim-Claimed event g g' h in
    let (timed, plays) =
      exhaust-kept g event.sender ok.timed (color_of-IsPlayer g event.sender c.color c.player) in
    rw (sym c.result) (finish-IsGame event.sender timeout event.block_time (exhaust g) timed plays)
