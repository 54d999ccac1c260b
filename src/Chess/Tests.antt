-- ===== src/Chess/Tests.antt =====
-- A 1v1 of the arena at known events.
use ka_chat_indexer.Prelude.{
  ℕ, ◌+◌, ◌≤◌, ◌≡◌, ◌≢◌, refl, inl, inr, false, List, [], ◌∷◌, ◌++◌, none, some, Bytes, lookup,
  insert, contains_key, bytes_eq, bytes_beq, arith,
}
use ka_chat_indexer.Prelude.Int.{pos}
use ka_chat_indexer.Prelude.Text.{codes}
use ka_chat_indexer.Prelude.Sort.{sort_by, keep, exchange, done}
use ka_chat_indexer.Prelude.ByteOrder.{smaller}
use ka_chat_indexer.Chess.Rules.Board.{
  Color, sq, initial_board, queen, rook, opposite, offset, is_valid,
}
use ka_chat_indexer.Chess.Rules.Moves.{slide_moves}
use ka_chat_indexer.Chess.Rules.Attack.{slide_attacker, board_width}
use ka_chat_indexer.Chess.Rules.Legal.{legal_moves}
use ka_chat_indexer.Chess.Rules.Targets.{Each}
use ka_chat_indexer.Chess.Rules.Rays.{slides-board_width}
use ka_chat_indexer.Chess.Rules.Sound.{IsSoundMove, legal_moves-IsSoundMove}
use ka_chat_indexer.Chess.Arena.Message.{ChessExternals, TournamentMessage, ArenaEvent}
use ka_chat_indexer.Chess.Arena.State.{
  Game, Tournament, timeout, resignation, address_of, is_over, is_open, is_live,
}
use ka_chat_indexer.Chess.Arena.Bracket.{make_game, finish, start}
use ka_chat_indexer.Chess.Arena.Play.Valid.{IsGame}
use ka_chat_indexer.Chess.Arena.Reducer.{apply_event, apply_events, event_lt, reduce}
use ka_chat_indexer.Chess.Arena.Reducer.Waiting.{apply_events-claim}
use ka_chat_indexer.Chess.Arena.Reducer.Order.{reduce-Shuffled}
use ka_chat_indexer.Chess.Arena.Reducer.Steps.{game_in}
use ka_chat_indexer.Chess.Arena.Reducer.History.{
  GameHistory, reduce-GameHistory, reduce-IsGame, apply_events-over,
}
use ka_chat_indexer.Chess.Arena.Reducer.Players.{ByPlayer, apply_events-ByPlayer}
use ka_chat_indexer.Chess.Arena.Reducer.Seats.{IsRoom}
use ka_chat_indexer.Chess.Arena.Reducer.FullRooms.{reduce-IsRoom}
use ka_chat_indexer.Chess.Arena.Reducer.Frozen.{apply_event-closed}
use ka_chat_indexer.Chess.Bots.{BotGame, BotBoardRow, in_board, play_board}
use ka_chat_indexer.Chess.Bots.Best.{Win, here, play_board-Win}
use ka_chat_indexer.Chess.Calendar.{utc_month_start_ms}
use ka_chat_indexer.Chess.Calendar.Month.{IsMonthStart, utc_month_start_ms-IsMonthStart}
use ka_chat_indexer.Chess.Leaderboard.{leaderboard}
use ka_chat_indexer.Chess.Leaderboard.Balance.{IsBalanced, leaderboard-IsBalanced}

abbrev ext : ChessExternals
ext = record { sha256 = λ b. b; tournament_message = λ _. none }

abbrev room : Bytes
room = codes "r"

abbrev anna : Bytes
anna = codes "a"

abbrev bert : Bytes
bert = codes "b"

abbrev message : Bytes → TournamentMessage
message action = record {
  msg_type = codes "chess_t";
  v = pos 1;
  t = room;
  a = action;
  g = some (codes "1-0");
  n = none;
  from = none;
  to = none;
  promo = none;
  k = none;
  p = some (pos 2);
}

abbrev event : Bytes → Bytes → ℕ → Bytes → ArenaEvent
event tx sender time action = record {
  tx_id = tx;
  sender = sender;
  block_time = pos time;
  message = message action;
}

abbrev creates : ArenaEvent
creates = event (codes "1") anna 1000 (codes "create")

abbrev joins : ArenaEvent
joins = event (codes "2") bert 2000 (codes "join")

abbrev resigns : ArenaEvent
resigns = event (codes "3") bert 3000 (codes "resign")

abbrev claims : ArenaEvent
claims = event (codes "4") bert 400000 (codes "claim")

abbrev key : Bytes
key = codes "1-0"

abbrev new_game : Game
new_game = make_game 1 0 anna bert (pos 2000)

abbrev duel_game : Game
duel_game = finish anna resignation (pos 3000) new_game

started_in_order : game_in (apply_events ext (creates ∷ joins ∷ []) []) room key ≡ some new_game
unfolding game_in apply_events lookup bytes_beq contains_key insert
started_in_order = refl

resigned_game :
    game_in (apply_events ext (creates ∷ joins ∷ resigns ∷ []) []) room key ≡ some duel_game
unfolding game_in apply_events lookup bytes_beq contains_key insert
resigned_game = refl

resigned_in_reduce : game_in (reduce ext (resigns ∷ joins ∷ creates ∷ [])) room key ≡ some duel_game
unfolding game_in reduce lookup bytes_beq contains_key insert
resigned_in_reduce = refl

abbrev waiting_room : Tournament
waiting_room = record {
  creator = anna;
  created_at = pos 1000;
  capacity = 2;
  started_at = none;
  cancelled = false;
  players = anna ∷ bert ∷ [];
  joined_at = (anna, pos 1000) ∷ (bert, pos 2000) ∷ [];
  games = [];
  white_count = [];
}

abbrev started_room : Tournament
started_room = start (pos 2000) waiting_room

abbrev finished_room : Tournament
finished_room = record started_room { games = (key, duel_game) ∷ [] }

-- In the block of the creation, with a greater txid.
abbrev joins_at_once : ArenaEvent
joins_at_once = event (codes "2") bert 1000 (codes "join")

reduce-Shuffled_example :
    reduce ext (joins_at_once ∷ creates ∷ resigns ∷ [])
    ≡ apply_events ext (creates ∷ joins_at_once ∷ resigns ∷ []) []
reduce-Shuffled_example =
    reduce-Shuffled ext (joins_at_once ∷ creates ∷ resigns ∷ [])
      (creates ∷ joins_at_once ∷ resigns ∷ []) (exchange creates joins_at_once (keep resigns done))
      (
        (inr (refl, smaller (ground arith)), (inl (ground arith), tt)),
        ((inl (ground arith), tt), (tt, tt)),
      )

reduce-GameHistory_example :
    GameHistory
      (sort_by event_lt (resigns ∷ joins ∷ creates ∷ []))
      none
      (game_in (reduce ext (resigns ∷ joins ∷ creates ∷ [])) room key)
reduce-GameHistory_example = reduce-GameHistory ext (resigns ∷ joins ∷ creates ∷ []) room key

reduce-IsGame_example : IsGame duel_game
reduce-IsGame_example =
    reduce-IsGame ext (resigns ∷ joins ∷ creates ∷ []) room key duel_game resigned_in_reduce

reduce-IsRoom_example : IsRoom started_room
unfolding reduce start lookup bytes_beq contains_key insert
reduce-IsRoom_example = reduce-IsRoom ext (joins ∷ creates ∷ []) room started_room refl

apply_events-over_example :
    game_in (apply_events ext ((creates ∷ joins ∷ resigns ∷ []) ++ (claims ∷ [])) []) room key
    ≡ some duel_game
unfolding is_over finish
apply_events-over_example =
    apply_events-over ext (creates ∷ joins ∷ resigns ∷ []) (claims ∷ []) room key duel_game
      resigned_game refl

apply_events-ByPlayer_example :
    (g' : Game) × (game_in (apply_events ext ((creates ∷ joins ∷ []) ++ (resigns ∷ [])) []) room key
      ≡ some g')
    × ByPlayer resigns new_game g'
apply_events-ByPlayer_example =
    apply_events-ByPlayer ext (creates ∷ joins ∷ []) resigns room key new_game started_in_order

apply_event-closed_example :
    lookup room (apply_event ext resigns ((room, finished_room) ∷ [])) ≡ some finished_room
unfolding lookup is_open is_live bytes_beq start finish
apply_event-closed_example =
    apply_event-closed ext resigns room finished_room ((room, finished_room) ∷ []) refl refl refl

anna≢bert : anna ≢ bert
anna≢bert e = ground (arith, e)

started_room_found : lookup room (apply_events ext (creates ∷ joins ∷ []) []) ≡ some started_room
unfolding apply_events lookup bytes_beq contains_key insert start
started_room_found = refl

apply_events-claim_example :
    (g' : Game) × (game_in (apply_events ext ((creates ∷ joins ∷ []) ++ (claims ∷ [])) []) room key
      ≡ some g')
    × (g'.winner ≡ some bert)
    × (g'.outcome ≡ some timeout)
unfolding is_live is_over address_of opposite lookup bytes_beq insert start
apply_events-claim_example =
    apply_events-claim ext (creates ∷ joins ∷ []) claims started_room key new_game 400000 2000
      started_room_found refl refl refl refl refl anna≢bert refl refl refl (ground arith)
      (ground arith)

legal_moves-IsSoundMove_example : Each (IsSoundMove initial_board) (legal_moves initial_board)
legal_moves-IsSoundMove_example = legal_moves-IsSoundMove initial_board

slides-board_width_example :
    (slide_moves
        (100 + board_width)
        (sq (pos 3) (pos 2))
        (pos 0, pos 1)
        Color.white
        (sq (pos 3) (pos 1))
        initial_board
      ≡ slide_moves board_width
          (sq (pos 3) (pos 2))
          (pos 0, pos 1)
          Color.white
          (sq (pos 3) (pos 1))
          initial_board)
    × (slide_attacker
          (100 + board_width)
          (sq (pos 3) (pos 2))
          (pos 0, pos 1)
          initial_board
          Color.white
          (queen ∷ rook ∷ [])
        ≡ slide_attacker board_width
            (sq (pos 3) (pos 2))
            (pos 0, pos 1)
            initial_board
            Color.white
            (queen ∷ rook ∷ []))
unfolding is_valid offset
slides-board_width_example =
    slides-board_width 100 (pos 0, pos 1) (sq (pos 3) (pos 1)) Color.white initial_board
      (queen ∷ rook ∷ []) refl (inr (inl refl))

leaderboard-IsBalanced_example : IsBalanced (leaderboard ((room, finished_room) ∷ []) (pos 0))
leaderboard-IsBalanced_example = leaderboard-IsBalanced ((room, finished_room) ∷ []) (pos 0)

utc_month_start_ms-IsMonthStart_example :
    (start : ℕ) × (utc_month_start_ms (pos 1792647960000) ≡ pos start)
    × IsMonthStart 1792647960000 start
utc_month_start_ms-IsMonthStart_example =
    utc_month_start_ms-IsMonthStart 1792647960000 (ground arith)

abbrev bot_win : Bytes → ℕ → BotGame
bot_win tx moves = record {
  level = pos 3;
  sender = anna;
  tx_id = tx;
  block_time = pos 5000;
  game_id = codes "g";
  win_moves = some moves;
}

abbrev bot_wins : List BotGame
bot_wins = bot_win (codes "1") 9 ∷ bot_win (codes "2") 7 ∷ []

play_board-Win_example :
    (r : BotBoardRow) × (lookup anna (play_board (pos 3) (pos 0) bot_wins (0, [])).1 ≡ some r)
    × (r.moves ≤ 9)
    × Win (pos 3) (pos 0) anna r.moves bot_wins
unfolding in_board
play_board-Win_example =
    play_board-Win (pos 3) (pos 0) bot_wins anna 9
      (here (bot_win (codes "1") 9) (bot_win (codes "2") 7 ∷ []) refl refl refl)
