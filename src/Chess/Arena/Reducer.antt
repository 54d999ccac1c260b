-- ===== src/Chess/Arena/Reducer.antt =====
-- kachat-webserver/src/chess.rs: `apply_event` and `reduce`.
pub mod Order
pub mod Every
pub mod Steps
pub mod RoomSteps
pub mod Advance
pub mod History
pub mod Players
pub mod Seats
pub mod FullRooms
pub mod Frozen
pub mod Waiting
use ka_chat_indexer.Prelude.{
  ℕ, ◌+◌, Bool, true, false, ◌&&◌, ◌||◌, not, List, [], ◌∷◌, ◌++◌, Option, none, some, Bytes, Map,
  lookup, insert, remove, contains_key, length, any, ◌==◌, nat_eq, int_eq, bytes_eq, if◌then◌else◌,
  ◌>>=◌,
}
use ka_chat_indexer.Prelude.Int.{ℤ, pos, ltb_ℤ}
use ka_chat_indexer.Prelude.Text.{codes, bytes_lt}
use ka_chat_indexer.Prelude.Sort.{sort_by}
use ka_chat_indexer.Chess.Arena.Message.{
  ChessExternals, TournamentMessage, ArenaEvent, player_count, public_number, duel_number,
  is_public_id, is_valid_create_key, is_some,
}
use ka_chat_indexer.Chess.Arena.State.{Game, Tournament, is_over, is_open, is_live}
use ka_chat_indexer.Chess.Arena.Bracket.{remove_first, expire_seats, start, advance_after}
use ka_chat_indexer.Chess.Arena.Play.{guard, play_move, resign, claim}

abbrev pub Arena : Type 0
Arena = Map Bytes Tournament

-- A change of the tournament under the id; none where the code returns early.
unfoldable pub update : Bytes → (Tournament → Option Tournament) → Arena → Arena
update id f arena = elim (lookup id arena) [
  | none ↦ arena
  | some t ↦ elim (f t) [ none ↦ arena | some t' ↦ insert id t' arena ]
]

-- The game is written back; the winner of a game that is over moves on.
unfoldable pub put_game : Bytes → Game → Tournament → Tournament
unfolding is_over advance_after
put_game game_id game t =
    let t' = record t { games = insert game_id game t.games } in
    if is_over game then advance_after game_id t' else t'

-- A change of the game that the message names.
unfoldable pub update_game : Option Bytes → (Game → Option Game) → Tournament → Option Tournament
unfolding is_live put_game
update_game none f t = none
update_game (some game_id) f t = do
  _ ← guard (is_live t)
  game ← lookup game_id t.games
  game' ← f game
  some (put_game game_id game' t)

unfoldable pub new_room : ArenaEvent → ℕ → List Bytes → Map Bytes ℤ → Tournament
new_room event capacity players joined_at = record {
  creator = event.sender;
  created_at = event.block_time;
  capacity = capacity;
  started_at = none;
  cancelled = false;
  players = players;
  joined_at = joined_at;
  games = [];
  white_count = [];
}

unfoldable pub created_capacity : Option ℤ → ℕ
created_capacity none = player_count
created_capacity (some p) = if p == pos 2 then 2 else player_count

unfoldable pub create : ChessExternals → ArenaEvent → Arena → Arena
unfolding created_capacity is_public_id is_valid_create_key new_room
create ext event arena =
    let m = event.message in
    let capacity = created_capacity m.p in
    if contains_key m.t arena || is_public_id m.t
    then arena
    else if not (capacity == 2 || is_valid_create_key ext m.k m.t)
    then arena
    else insert m.t
        (new_room event capacity (event.sender ∷ []) ((event.sender, event.block_time) ∷ [])) arena

-- The capacity of the public room that a first join opens.
unfoldable pub room_capacity : Bytes → Option ℕ
unfolding public_number duel_number
room_capacity id =
    if is_some (public_number id)
    then some player_count
    else if is_some (duel_number id)
    then some 2
    else none

-- The joiner takes a seat; the room that is then full starts.
unfoldable pub add_player : Bytes → ℤ → Tournament → Tournament
unfolding start
add_player sender time t =
    let t' = record t {
      players = t.players ++ (sender ∷ []);
      joined_at = insert sender time t.joined_at;
    } in
    if length t'.players == t'.capacity then start time t' else t'

unfoldable pub seat : Bytes → ℤ → Tournament → Tournament
unfolding expire_seats any add_player
seat sender time t =
    let t' = expire_seats time t in
    if any (λ p. p == sender) t'.players then t' else add_player sender time t'

unfoldable pub join : ArenaEvent → Arena → Arena
unfolding room_capacity new_room seat is_open
join event arena =
    let id = event.message.t in
    elim (lookup id arena) [
      | some t ↦ if is_open t then insert id (seat event.sender event.block_time t) arena else arena
      | none ↦ elim (room_capacity id) [
        | none ↦ arena
        | some capacity ↦
            insert id (seat event.sender event.block_time (new_room event capacity [] [])) arena
      ]
    ]

unfoldable pub leave : Bytes → Tournament → Option Tournament
unfolding is_open any remove_first
leave sender t =
    if is_open t && any (λ p. p == sender) t.players
    then some (record t {
      players = remove_first sender t.players;
      joined_at = remove sender t.joined_at;
    })
    else none

unfoldable pub cancel : Bytes → Bytes → Tournament → Option Tournament
unfolding is_open is_public_id
cancel id sender t =
    if is_open t && not (is_public_id id) && t.creator == sender
    then some (record t { cancelled = true })
    else none

unfoldable pub apply_event : ChessExternals → ArenaEvent → Arena → Arena
unfolding create join update update_game leave cancel play_move resign claim
apply_event ext event arena =
    let m = event.message in
    if m.a == codes "create"
    then create ext event arena
    else if m.a == codes "join"
    then join event arena
    else if m.a == codes "leave"
    then update m.t (leave event.sender) arena
    else if m.a == codes "cancel"
    then update m.t (cancel m.t event.sender) arena
    else if m.a == codes "move"
    then update m.t (update_game m.g (play_move event)) arena
    else if m.a == codes "resign"
    then update m.t (update_game m.g (resign event)) arena
    else if m.a == codes "claim"
    then update m.t (update_game m.g (claim event)) arena
    else arena

-- Chain order: block time, then txid.
unfoldable pub event_lt : ArenaEvent → ArenaEvent → Bool
unfolding bytes_lt
event_lt a b =
    if a.block_time == b.block_time
    then bytes_lt a.tx_id b.tx_id
    else ltb_ℤ a.block_time b.block_time

unfoldable pub apply_events : ChessExternals → List ArenaEvent → Arena → Arena
unfolding apply_event
apply_events ext [] arena = arena
apply_events ext (e ∷ events) arena = apply_events ext events (apply_event ext e arena)

unfoldable pub reduce : ChessExternals → List ArenaEvent → Arena
unfolding apply_events sort_by event_lt
reduce ext events = apply_events ext (sort_by event_lt events) []
