-- ===== src/Chess/Leaderboard.antt =====
-- kachat-webserver/src/chess.rs: the leaderboard.
pub mod Balance
use ka_chat_indexer.Prelude.{
  ℕ, suc, ◌+◌, Bool, true, false, ◌&&◌, ◌||◌, List, [], ◌∷◌, Option, none, some, Bytes, Map, lookup,
  insert, ltb, ◌==◌, nat_eq, int_eq, bytes_eq, if◌then◌else◌,
}
use ka_chat_indexer.Prelude.Int.{ℤ, pos, ltb_ℤ, leb_ℤ, max_ℤ}
use ka_chat_indexer.Prelude.Text.{bytes_lt}
use ka_chat_indexer.Prelude.Sort.{sort_by}
use ka_chat_indexer.Chess.Arena.State.{Game, Tournament, is_duel, champion}
use ka_chat_indexer.Chess.Arena.Bracket.{or_default}
use ka_chat_indexer.Chess.Arena.Reducer.{Arena}

-- The counters are counts of games and tournaments, far below 2^63.
pub record LeaderboardRow : Type 0 where
  pub address : Bytes
  pub wins : ℕ
  pub losses : ℕ
  pub duel_wins : ℕ
  pub duel_losses : ℕ
  pub tournament_game_wins : ℕ
  pub tournament_game_losses : ℕ
  pub tournaments_played : ℕ
  pub tournaments_won : ℕ
  pub tournaments_lost : ℕ
  pub last_played_at : ℤ

abbrev pub Rows : Type 0
Rows = Map Bytes LeaderboardRow

unfoldable pub empty_row : Bytes → LeaderboardRow
empty_row address = record {
  address = address;
  wins = 0;
  losses = 0;
  duel_wins = 0;
  duel_losses = 0;
  tournament_game_wins = 0;
  tournament_game_losses = 0;
  tournaments_played = 0;
  tournaments_won = 0;
  tournaments_lost = 0;
  last_played_at = pos 0;
}

-- A change through `row(rows, address)`.
unfoldable pub change_row : Bytes → (LeaderboardRow → LeaderboardRow) → Rows → Rows
unfolding empty_row
change_row address f rows =
    insert address (f (or_default (empty_row address) (lookup address rows))) rows

unfoldable pub played : ℤ → LeaderboardRow → LeaderboardRow
played started_at r = record r {
  tournaments_played = r.tournaments_played + 1;
  last_played_at = max_ℤ r.last_played_at started_at;
}

unfoldable pub won_game : Bool → ℤ → LeaderboardRow → LeaderboardRow
won_game duel ended r =
    let w = record r { wins = r.wins + 1; last_played_at = max_ℤ r.last_played_at ended } in
    if duel
    then record w { duel_wins = r.duel_wins + 1 }
    else record w { tournament_game_wins = r.tournament_game_wins + 1 }

unfoldable pub lost_game : Bool → ℤ → LeaderboardRow → LeaderboardRow
lost_game duel ended r =
    let l = record r { losses = r.losses + 1; last_played_at = max_ℤ r.last_played_at ended } in
    if duel then record l { duel_losses = r.duel_losses + 1 } else record l {
      tournament_game_losses = r.tournament_game_losses + 1;
      tournaments_lost = r.tournaments_lost + 1;
    }

unfoldable pub won_tournament : LeaderboardRow → LeaderboardRow
won_tournament r = record r { tournaments_won = r.tournaments_won + 1 }

unfoldable pub count_players : ℤ → List Bytes → Rows → Rows
unfolding change_row played
count_players started_at [] rows = rows
count_players started_at (p ∷ players) rows =
    count_players started_at players (change_row p (played started_at) rows)

unfoldable pub count_game : Bool → Game → Rows → Rows
unfolding change_row won_game lost_game
count_game duel g rows = elim g.winner [
  | none ↦ rows
  | some winner ↦
      let loser = if winner == g.white then g.black else g.white in
      let ended = or_default (pos 0) g.ended_at in
      change_row loser (lost_game duel ended) (change_row winner (won_game duel ended) rows)
]

unfoldable pub count_games : Bool → Map Bytes Game → Rows → Rows
unfolding count_game
count_games duel [] rows = rows
count_games duel ((_, g) ∷ games) rows = count_games duel games (count_game duel g rows)

unfoldable pub count_champion : Tournament → Rows → Rows
unfolding champion change_row won_tournament
count_champion t rows = elim (champion t) [
  | none ↦ rows
  | some winner ↦ change_row winner won_tournament rows
]

-- A tournament that started at `started_at`, in the period.
unfoldable pub count_tournament : ℤ → Tournament → Rows → Rows
unfolding is_duel count_players count_games count_champion
count_tournament started_at t rows =
    if is_duel t
    then count_games true t.games rows
    else count_champion t (count_games false t.games (count_players started_at t.players rows))

-- Whether the tournament started in the period, and when.
unfoldable pub counted_from : ℤ → Tournament → Option ℤ
counted_from since_ms t = elim t.started_at [
  | none ↦ none
  | some s ↦ if leb_ℤ since_ms s then some s else none
]

unfoldable pub count_all : ℤ → Arena → Rows → Rows
unfolding counted_from count_tournament
count_all since_ms [] rows = rows
count_all since_ms ((_, t) ∷ arena) rows =
    count_all since_ms arena (elim (counted_from since_ms t) [
      | none ↦ rows
      | some started_at ↦ count_tournament started_at t rows
    ])

-- Most wins first, then fewest losses, then played last, then the address.
unfoldable pub row_lt : LeaderboardRow → LeaderboardRow → Bool
unfolding bytes_lt
row_lt a b =
    if not_same a.wins b.wins
    then ltb b.wins a.wins
    else if not_same a.losses b.losses
    then ltb a.losses b.losses
    else if ltb_ℤ a.last_played_at b.last_played_at || ltb_ℤ b.last_played_at a.last_played_at
    then ltb_ℤ b.last_played_at a.last_played_at
    else bytes_lt a.address b.address
  where
    not_same : ℕ → ℕ → Bool
    not_same m n = ltb m n || ltb n m

unfoldable pub values {ℓ} : {A : Type ℓ} → Map Bytes A → List A
values [] = []
values ((_, a) ∷ m) = a ∷ values m

unfoldable pub leaderboard : Arena → ℤ → List LeaderboardRow
unfolding count_all values sort_by row_lt
leaderboard arena since_ms = sort_by row_lt (values (count_all since_ms arena []))
