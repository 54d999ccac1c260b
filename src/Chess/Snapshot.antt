-- ===== src/Chess/Snapshot.antt =====
-- kachat-webserver/src/chess.rs: `compute_all`, the views of one replay.
use Prim.Native.String.{String}
use ka_chat_indexer.Prelude.{
  ℕ, ◌+◌, Bool, true, false, List, [], ◌∷◌, Option, none, some, Bytes, length, ◌==◌, int_eq,
  if◌then◌else◌,
}
use ka_chat_indexer.Prelude.Int.{ℤ, pos, ltb_ℤ}
use ka_chat_indexer.Prelude.Text.{bytes_lt}
use ka_chat_indexer.Prelude.Sort.{sort_by}
use ka_chat_indexer.Chess.Arena.Message.{ChessExternals, ArenaEvent, arena_event}
use ka_chat_indexer.Chess.Arena.State.{Tournament, champion, is_finished, is_live}
use ka_chat_indexer.Chess.Arena.Bracket.{or_default}
use ka_chat_indexer.Chess.Arena.Reducer.{Arena, reduce}
use ka_chat_indexer.Chess.Leaderboard.{LeaderboardRow, leaderboard}
use ka_chat_indexer.Chess.Calendar.{period_since_ms}

pub record ArenaRow : Type 0 where
  pub tx_id : Bytes
  pub sender : Bytes
  pub block_time : ℤ
  pub content : Bytes

pub record TournamentSummary : Type 0 where
  pub id : Bytes
  pub status : String
  pub capacity : ℕ
  pub players : List Bytes
  pub started_at : Option ℤ
  pub champion : Option Bytes

pub record ArenaSnapshot : Type 0 where
  pub all_time : List LeaderboardRow
  pub all_time_since : ℤ
  pub monthly : List LeaderboardRow
  pub monthly_since : ℤ
  pub lobby : List TournamentSummary
  pub games_started : ℕ

unfoldable pub events_of : ChessExternals → List ArenaRow → List ArenaEvent
unfolding arena_event
events_of ext [] = []
events_of ext (r ∷ rows) =
    let rest = events_of ext rows in
    elim (arena_event ext r.tx_id r.sender r.block_time r.content) [
      | none ↦ rest
      | some e ↦ e ∷ rest
    ]

unfoldable pub status : Tournament → String
unfolding is_finished is_live
status t =
    if t.cancelled
    then "cancelled"
    else if is_finished t
    then "done"
    else if is_live t
    then "live"
    else "open"

unfoldable pub summary : Bytes → Tournament → TournamentSummary
unfolding status
summary id t = record {
  id = id;
  status = status t;
  capacity = t.capacity;
  players = t.players;
  started_at = t.started_at;
  champion = champion t;
}

unfoldable pub summaries : Arena → List TournamentSummary
unfolding summary
summaries [] = []
summaries ((id, t) ∷ arena) = summary id t ∷ summaries arena

-- Started last first, then by id.
unfoldable pub summary_lt : TournamentSummary → TournamentSummary → Bool
unfolding bytes_lt
summary_lt a b =
    let at = or_default (pos 0) a.started_at in
    let bt = or_default (pos 0) b.started_at in if at == bt then bytes_lt a.id b.id else ltb_ℤ bt at

unfoldable pub games_started : Arena → ℕ
games_started [] = 0
games_started ((_, t) ∷ arena) = length t.games + games_started arena

unfoldable pub compute_all : ChessExternals → List ArenaRow → ℤ → ArenaSnapshot
unfolding events_of reduce period_since_ms leaderboard summaries sort_by summary_lt games_started
compute_all ext rows now_ms =
    let arena = reduce ext (events_of ext rows) in
    let all_time_since = period_since_ms false now_ms in
    let monthly_since = period_since_ms true now_ms in
    record {
      all_time = leaderboard arena all_time_since;
      all_time_since = all_time_since;
      monthly = leaderboard arena monthly_since;
      monthly_since = monthly_since;
      lobby = sort_by summary_lt (summaries arena);
      games_started = games_started arena;
    }
