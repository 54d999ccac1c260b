-- ===== src/Chess/Arena/Bracket.antt =====
-- kachat-webserver/src/chess.rs: seats, pairings, and how a game ends and feeds the next round.
pub mod Grows
pub mod Seats
use ka_chat_indexer.Prelude.{
  ℕ, suc, ◌+◌, ◌-◌, ◌*◌, ◌/◌, Bool, true, false, ◌&&◌, not, List, [], ◌∷◌, ◌++◌, Option, none, some,
  Bytes, Map, lookup, insert, remove, length, get_or, any, ltb, ◌==◌, nat_eq, bytes_eq,
  if◌then◌else◌, ◌>>=◌,
}
use ka_chat_indexer.Prelude.Int.{ℤ, pos, pos_part, ltb_ℤ, add_i64, sub_i64}
use ka_chat_indexer.Prelude.Text.{codes}
use ka_chat_indexer.Chess.Rules.Board.{
  Color, PieceType, pawn, knight, bishop, rook, queen, king, Piece, Square, algebraic, Board,
  initial_board, zero_to_seven,
}
use ka_chat_indexer.Chess.Arena.State.{
  Outcome, draw_tiebreak, Game, Tournament, is_duel, rounds, game_key, game_at, seed_of, clock_ms,
  seat_ttl_ms,
}

letter : PieceType → ℕ
letter pawn = b'p'
letter knight = b'n'
letter bishop = b'b'
letter rook = b'r'
letter queen = b'q'
letter king = b'k'

square_letter : Option Piece → ℕ
unfolding letter
square_letter none = b'.'
square_letter (some p) = elim p.color [
  | Color.white ↦ letter p.piece_type - 32
  | Color.black ↦ letter p.piece_type
]

rank_letters : Board → ℕ → List ℕ → Bytes
unfolding square_letter
rank_letters b rank [] = []
rank_letters b rank (file ∷ files) = square_letter (b.squares rank file) ∷ rank_letters b rank files

board_letters : Board → List ℕ → Bytes
unfolding rank_letters
board_letters b [] = []
board_letters b (rank ∷ ranks) = rank_letters b rank zero_to_seven ++ board_letters b ranks

flag : Bool → ℕ → ℕ
flag b c = if b then c else b'-'

unfoldable pub position_key : Board → Bytes
unfolding board_letters flag algebraic
position_key b =
    board_letters b zero_to_seven
    ++ (elim b.side_to_move [ Color.white ↦ b'w' | Color.black ↦ b'b' ]
        ∷ flag b.white_castle_k b'K'
        ∷ flag b.white_castle_q b'Q'
        ∷ flag b.black_castle_k b'k'
        ∷ flag b.black_castle_q b'q'
        ∷ elim b.en_passant [ none ↦ codes "-" | some s ↦ algebraic s ])

unfoldable pub make_game : ℕ → ℕ → Bytes → Bytes → ℤ → Game
unfolding initial_board position_key
make_game round index white black time = record {
  round = round;
  index = index;
  white = white;
  black = black;
  board = initial_board;
  started_at = time;
  moves_count = 0;
  white_used_ms = pos 0;
  black_used_ms = pos 0;
  last_event_at = time;
  winner = none;
  outcome = none;
  ended_at = none;
  position_counts = (position_key initial_board, 1) ∷ [];
  halfmove_clock = 0;
}

unfoldable pub finish : Bytes → Outcome → ℤ → Game → Game
finish winner outcome time g = record g {
  winner = some winner;
  outcome = some outcome;
  ended_at = some time;
}

-- A draw on the board: more clock left advances; equal, black.
unfoldable pub finish_draw : ℤ → Game → Game
unfolding finish sub_i64
finish_draw time g =
    let white_left = sub_i64 clock_ms g.white_used_ms in
    let black_left = sub_i64 clock_ms g.black_used_ms in
    finish (if ltb_ℤ black_left white_left then g.white else g.black) draw_tiebreak time g

abbrev pub or_default {ℓ} : {A : Type ℓ} → A → Option A → A
or_default a none = a
or_default a (some b) = b

unfoldable pub filter_bytes : (Bytes → Bool) → List Bytes → List Bytes
filter_bytes p [] = []
filter_bytes p (x ∷ xs) = let rest = filter_bytes p xs in if p x then x ∷ rest else rest

-- The seat still counts at `time`.
unfoldable pub keeps_seat : Tournament → ℤ → Bytes → Bool
unfolding add_i64
keeps_seat t time p =
    ltb_ℤ time (add_i64 (or_default t.created_at (lookup p t.joined_at)) seat_ttl_ms)

unfoldable pub forget : List Bytes → List Bytes → Map Bytes ℤ → Map Bytes ℤ
unfolding any
forget kept [] joined = joined
forget kept (gone ∷ players) joined =
    forget kept players (if any (λ p. p == gone) kept then joined else remove gone joined)

unfoldable pub expire_seats : ℤ → Tournament → Tournament
unfolding filter_bytes keeps_seat forget
expire_seats time t =
    let kept = filter_bytes (keeps_seat t time) t.players in
    if length kept == length t.players
    then t
    else record t { players = kept; joined_at = forget kept t.players t.joined_at }

-- `players.remove(idx)` at the first position.
unfoldable pub remove_first : Bytes → List Bytes → List Bytes
remove_first x [] = []
remove_first x (y ∷ ys) = let rest = remove_first x ys in if y == x then ys else y ∷ rest

-- `*entry(white).or_insert(0) += 1`.
unfoldable pub bump : Bytes → Map Bytes ℕ → Map Bytes ℕ
bump key counts = insert key (or_default 0 (lookup key counts) + 1) counts

unfoldable pub add_game : ℕ → ℕ → Bytes → Bytes → ℤ → Tournament → Tournament
unfolding make_game game_key bump
add_game round index white black time t = record t {
  games = insert (game_key round index) (make_game round index white black time) t.games;
  white_count = bump white t.white_count;
}

-- `seeds[pair.0]` and `seeds[pair.1]`: a room that starts is full.
unfoldable pub start_pairs : List Bytes → ℤ → ℕ → List (ℕ × ℕ) → Tournament → Tournament
unfolding add_game
start_pairs seeds time index [] t = t
start_pairs seeds time index ((a, b) ∷ pairs) t =
    start_pairs seeds time (suc index) pairs
      (add_game 1 index (get_or seeds a []) (get_or seeds b []) time t)

abbrev pub duel_pairs : List (ℕ × ℕ)
duel_pairs = (0, 1) ∷ []

abbrev pub seed_pairs : List (ℕ × ℕ)
seed_pairs = (0, 7) ∷ (1, 6) ∷ (2, 5) ∷ (3, 4) ∷ []

unfoldable pub start : ℤ → Tournament → Tournament
unfolding start_pairs is_duel
start time t =
    start_pairs t.players time 0 (if is_duel t then duel_pairs else seed_pairs)
      (record t { started_at = some time })

-- Whether `a` takes the white pieces against `b`: fewer games as white, then the better seed.
unfoldable pub a_is_white : Tournament → Bytes → Bytes → Bool
unfolding seed_of
a_is_white t a b =
    let whites_a = or_default 0 (lookup a t.white_count) in
    let whites_b = or_default 0 (lookup b t.white_count) in
    if not (whites_a == whites_b)
    then ltb whites_a whites_b
    else ltb (or_default 99 (seed_of t a)) (or_default 99 (seed_of t b))

unfoldable pub pair_winners : ℕ → ℕ → ℤ → Bytes → Bytes → Tournament → Tournament
unfolding a_is_white add_game
pair_winners round index time a b t =
    if a_is_white t a b then add_game round index a b time t else add_game round index b a time t

unfoldable pub winner_at : Tournament → ℕ → ℕ → Option Bytes
unfolding game_at
winner_at t round index = do g ← game_at t round index; g.winner

-- The next round's game, if both of its feeders are over and it does not exist.
unfoldable pub next_game : ℕ → ℕ → ℤ → Tournament → Tournament
unfolding winner_at game_at pair_winners
next_game round index ended_at t = elim (winner_at t round (index / 2 * 2)) [
  | none ↦ t
  | some a ↦ elim (winner_at t round (index / 2 * 2 + 1)) [
    | none ↦ t
    | some b ↦ elim (game_at t (round + 1) (index / 2)) [
      | some _ ↦ t
      | none ↦ pair_winners (round + 1) (index / 2) ended_at a b t
    ]
  ]
]

unfoldable pub advance_after : Bytes → Tournament → Tournament
unfolding rounds next_game
advance_after game_id t = elim (lookup game_id t.games) [
  | none ↦ t
  | some game ↦ elim game.ended_at [
    | none ↦ t
    | some ended_at ↦
        if ltb game.round (rounds t) then next_game game.round game.index ended_at t else t
  ]
]
