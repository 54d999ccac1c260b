-- ===== src/Chess/Arena/Play/Valid.antt =====
-- What holds of every game, whatever is played in it.
use ka_chat_indexer.Prelude.{
  ℕ, ◌<◌, ◌≡◌, refl, sym, ◌⊎◌, inl, inr, Bool, false, ◌||◌, none, some, Bytes, lookup, ◌==◌, nat_eq,
  bytes_eq, leb, arith, Bool-cases, bytes_beq_iff, some_injective,
}
use ka_chat_indexer.Prelude.Int.{ℤ, ltb_ℤ, sub_i64}
use ka_chat_indexer.Chess.Rules.Board.{Color, white, black, type_eq}
use ka_chat_indexer.Chess.Rules.Legal.{is_checkmate, is_stalemate, is_insufficient_material}
use ka_chat_indexer.Chess.Arena.Message.{is_some}
use ka_chat_indexer.Chess.Arena.State.{
  Game, Outcome, checkmate, draw_tiebreak, is_over, address_of, color_of, clock_ms,
}
use ka_chat_indexer.Chess.Arena.Bracket.{make_game, finish, finish_draw, position_key, or_default}
use ka_chat_indexer.Chess.Arena.Bracket.Grows.{IsNew}
use ka_chat_indexer.Chess.Arena.Play.{settle}
use ka_chat_indexer.Chess.Arena.Play.Clocks.{IsTimed}

abbrev pub IsPlayer : Game → Bytes → Type 0
IsPlayer g address = (address ≡ g.white) ⊎ (address ≡ g.black)

pub record IsGame (g : Game) : Type 0 where
  pub timed : IsTimed g
  pub winner_plays : (w : Bytes) → g.winner ≡ some w → IsPlayer g w
  pub ended : is_some g.ended_at ≡ is_over g
  pub decided : is_some g.outcome ≡ is_over g
  pub halfmoves : is_over g ≡ false → g.halfmove_clock < 100

pub new-IsGame : (g : Game) → IsNew g → IsGame g
unfolding make_game is_over
new-IsGame g n = rw n.made (record {
  timed = record { white_clock = ground arith; black_clock = ground arith; turn = refl };
  winner_plays = λ w h. ground (arith, h);
  ended = refl;
  decided = refl;
  halfmoves = λ h. ground arith;
})

pub address_of-IsPlayer : (g : Game) (c : Color) → IsPlayer g (address_of g c)
unfolding address_of
address_of-IsPlayer g white = inl refl
address_of-IsPlayer g black = inr refl

pub color_of-IsPlayer :
    (g : Game) (address : Bytes) (c : Color) → color_of g address ≡ some c → IsPlayer g address
unfolding color_of
color_of-IsPlayer g address c h = elim (Bool-cases (address == g.white)) [
  | inl p ↦ inl ((bytes_beq_iff address g.white).0 p)
  | inr p ↦ elim (Bool-cases (address == g.black)) [
    | inl q ↦ inr ((bytes_beq_iff address g.black).0 q)
    | inr q ↦ ground (arith, h, p, q)
  ]
]

pub finish-IsGame :
    (w : Bytes) (o : Outcome) (time : ℤ) (g : Game)
    → IsTimed g
    → IsPlayer g w
    → IsGame (finish w o time g)
unfolding finish is_over
finish-IsGame w o time g timed plays = record {
  timed = record {
    white_clock = timed.white_clock;
    black_clock = timed.black_clock;
    turn = timed.turn;
  };
  winner_plays = λ v h. rw (sym (some_injective w v h)) plays;
  ended = refl;
  decided = refl;
  halfmoves = λ h. ground (arith, h);
}

finish_draw-IsGame : (time : ℤ) (g : Game) → IsTimed g → IsGame (finish_draw time g)
unfolding finish_draw
finish_draw-IsGame time g timed =
    elim (Bool-cases
      (ltb_ℤ (sub_i64 clock_ms g.black_used_ms) (sub_i64 clock_ms g.white_used_ms))) [
        | inl p ↦ rw (p, finish_draw) (finish-IsGame g.white draw_tiebreak time g timed (inl refl))
        | inr p ↦ rw (p, finish_draw) (finish-IsGame g.black draw_tiebreak time g timed (inr refl))
      ]

-- A game that has not ended.
pub record IsRunning (g : Game) : Type 0 where
  pub unended : g.ended_at ≡ none
  pub undecided : g.outcome ≡ none
  pub unwon : g.winner ≡ none

running-IsGame : (g : Game) → IsTimed g → IsRunning g → g.halfmove_clock < 100 → IsGame g
unfolding is_over
running-IsGame g timed running few = record {
  timed = timed;
  winner_plays = λ w h. ground (arith, running.unwon, h);
  ended = rw (running.unended, running.unwon) refl;
  decided = rw (running.undecided, running.unwon) refl;
  halfmoves = λ _. few;
}

few_halfmoves : (a b c : Bool) (n : ℕ) → (a || b || leb 100 n || c) ≡ false → n < 100
few_halfmoves a b c n h = ground (arith, h)

pub settle-IsGame :
    (mover : Color) (time : ℤ) (g : Game) → IsTimed g → IsRunning g → IsGame (settle mover time g)
unfolding settle
settle-IsGame mover time g timed running =
    let repeated = leb 3 (or_default 0 (lookup (position_key g.board) g.position_counts)) in
    elim (Bool-cases (is_checkmate g.board)) [
      | inl p ↦
          rw (p, settle)
            (finish-IsGame (address_of g mover) checkmate time g timed
              (address_of-IsPlayer g mover))
      | inr p ↦
          elim (Bool-cases (
            is_stalemate g.board
            || is_insufficient_material g.board
            || leb 100 g.halfmove_clock
            || repeated)) [
              | inl q ↦ rw (p, q, settle) (finish_draw-IsGame time g timed)
              | inr q ↦
                  rw (p, q, settle)
                    (running-IsGame g timed running (
                      few_halfmoves (is_stalemate g.board) (is_insufficient_material g.board)
                        repeated g.halfmove_clock q))
            ]
    ]
