-- ===== src/Chess/Leaderboard/Balance.antt =====
-- The sums of the columns of the leaderboard.
use ka_chat_indexer.Prelude.{
  ℕ, ◌+◌, ◌≡◌, refl, sym, ap, ◌∙◌, inl, inr, Bool, true, false, List, [], ◌∷◌, Option, none, some,
  Bytes, Map, lookup, insert, bytes_eq, bytes_beq, ◌==◌, Bool-cases, Option-cases, if◌then◌else◌,
  if-both, arith,
}
use ka_chat_indexer.Prelude.Int.{ℤ, pos}
use ka_chat_indexer.Prelude.Sort.{insert_by, sort_by}
use ka_chat_indexer.Chess.Arena.State.{Game, Tournament, is_duel, champion}
use ka_chat_indexer.Chess.Arena.Bracket.{or_default}
use ka_chat_indexer.Chess.Arena.Reducer.{Arena}
use ka_chat_indexer.Chess.Leaderboard.{
  LeaderboardRow, Rows, empty_row, change_row, played, won_game, lost_game, won_tournament,
  count_players, count_game, count_games, count_champion, count_tournament, counted_from, count_all,
  row_lt, values, leaderboard,
}

-- The sum of a column.
abbrev pub total : (LeaderboardRow → ℕ) → List LeaderboardRow → ℕ
total f [] = 0
total f (r ∷ rows) = f r + total f rows

total-insert_by :
    (f : LeaderboardRow → ℕ) (lt : LeaderboardRow → LeaderboardRow → Bool) (r : LeaderboardRow)
    (l : List LeaderboardRow)
    → total f (insert_by lt r l) ≡ f r + total f l
unfolding insert_by
total-insert_by f lt r [] = refl
total-insert_by f lt r (s ∷ l) = elim (Bool-cases (lt s r)) [
  | inl p ↦ let h = total-insert_by f lt r l in rw (p, insert_by) (ground (arith, h))
  | inr p ↦ rw (p, insert_by) refl
]

total-sort_by :
    (f : LeaderboardRow → ℕ) (lt : LeaderboardRow → LeaderboardRow → Bool) (l : List LeaderboardRow)
    → total f (sort_by lt l) ≡ total f l
unfolding sort_by
total-sort_by f lt [] = refl
total-sort_by f lt (r ∷ l) =
    total-insert_by f lt r (sort_by lt l) ∙ ap (λ n. f r + n) (total-sort_by f lt l)

-- What a row that is missing counts as.
abbrev entry_of : (LeaderboardRow → ℕ) → Option LeaderboardRow → ℕ
entry_of f none = 0
entry_of f (some r) = f r

total-insert :
    (f : LeaderboardRow → ℕ) (k : Bytes) (r : LeaderboardRow) (rows : Rows)
    → total f (values (insert k r rows)) + entry_of f (lookup k rows) ≡ total f (values rows) + f r
unfolding insert lookup values
total-insert f k r [] = ground arith
total-insert f k r ((key, s) ∷ rows) = elim (Bool-cases (bytes_beq key k)) [
  | inl p ↦ rw (p, insert, lookup) (ground arith)
  | inr p ↦ let h = total-insert f k r rows in rw (p, insert, lookup) (ground (arith, h))
]

entry_of-or_default :
    (f : LeaderboardRow → ℕ) (k : Bytes) (o : Option LeaderboardRow)
    → f (empty_row k) ≡ 0
    → f (or_default (empty_row k) o) ≡ entry_of f o
entry_of-or_default f k none h = h
entry_of-or_default f k (some r) h = refl

-- A change of one row by `n`.
total-change_row :
    (f : LeaderboardRow → ℕ) (k : Bytes) (g : LeaderboardRow → LeaderboardRow) (n : ℕ) (rows : Rows)
    → f (empty_row k) ≡ 0
    → ((r : LeaderboardRow) → f (g r) ≡ f r + n)
    → total f (values (change_row k g rows)) ≡ total f (values rows) + n
unfolding change_row
total-change_row f k g n rows zero_row step =
    let r = or_default (empty_row k) (lookup k rows) in
    let sum = total-insert f k (g r) rows in
    let here = step r in
    let before = entry_of-or_default f k (lookup k rows) zero_row in
    omega (arith, sum, here, before)

abbrev pub IsBalanced : List LeaderboardRow → Type 0
IsBalanced rows = total (λ r. r.wins) rows ≡ total (λ r. r.losses) rows

-- A change that counts no game.
change_row-IsBalanced :
    (k : Bytes) (g : LeaderboardRow → LeaderboardRow) (rows : Rows)
    → ((r : LeaderboardRow) → ((g r).wins ≡ r.wins) × ((g r).losses ≡ r.losses))
    → IsBalanced (values rows)
    → IsBalanced (values (change_row k g rows))
unfolding empty_row
change_row-IsBalanced k g rows step h =
    let wins = total-change_row (λ r. r.wins) k g 0 rows refl (λ r. (step r).0 ∙ ground arith) in
    let losses =
      total-change_row (λ r. r.losses) k g 0 rows refl (λ r. (step r).1 ∙ ground arith) in
    ground (arith, wins, losses, h)

won_game-counts :
    (duel : Bool) (time : ℤ) (r : LeaderboardRow)
    → ((won_game duel time r).wins ≡ r.wins + 1) × ((won_game duel time r).losses ≡ r.losses)
unfolding won_game
won_game-counts true time r = (refl, refl)
won_game-counts false time r = (refl, refl)

lost_game-counts :
    (duel : Bool) (time : ℤ) (r : LeaderboardRow)
    → ((lost_game duel time r).wins ≡ r.wins) × ((lost_game duel time r).losses ≡ r.losses + 1)
unfolding lost_game
lost_game-counts true time r = (refl, refl)
lost_game-counts false time r = (refl, refl)

-- A game is one win and one loss.
count_game-IsBalanced :
    (duel : Bool) (g : Game) (rows : Rows)
    → IsBalanced (values rows)
    → IsBalanced (values (count_game duel g rows))
unfolding count_game empty_row
count_game-IsBalanced duel g rows h = elim (Option-cases g.winner) [
  | inl e ↦ rw (e, count_game) h
  | inr (winner, e) ↦
      let loser = if winner == g.white then g.black else g.white in
      let ended = or_default (pos 0) g.ended_at in
      let won = change_row winner (won_game duel ended) rows in
      let lost = change_row loser (lost_game duel ended) won in
      let wins =
        total-change_row (λ r. r.wins) winner (won_game duel ended) 1 rows refl
          (λ r. (won_game-counts duel ended r).0) in
      let wins' =
        total-change_row (λ r. r.wins) loser (lost_game duel ended) 0 won refl
          (λ r. (lost_game-counts duel ended r).0 ∙ ground arith) in
      let losses =
        total-change_row (λ r. r.losses) winner (won_game duel ended) 0 rows refl
          (λ r. (won_game-counts duel ended r).1 ∙ ground arith) in
      let losses' =
        total-change_row (λ r. r.losses) loser (lost_game duel ended) 1 won refl
          (λ r. (lost_game-counts duel ended r).1) in
      let counted : count_game duel g rows ≡ lost = rw (e, count_game) refl in
      rw counted (omega (arith, wins, wins', losses, losses', h))
]

count_games-IsBalanced :
    (duel : Bool) (games : Map Bytes Game) (rows : Rows)
    → IsBalanced (values rows)
    → IsBalanced (values (count_games duel games rows))
unfolding count_games
count_games-IsBalanced duel [] rows h = h
count_games-IsBalanced duel ((_, g) ∷ games) rows h =
    count_games-IsBalanced duel games (count_game duel g rows) (count_game-IsBalanced duel g rows h)

count_players-IsBalanced :
    (time : ℤ) (players : List Bytes) (rows : Rows)
    → IsBalanced (values rows)
    → IsBalanced (values (count_players time players rows))
unfolding count_players played
count_players-IsBalanced time [] rows h = h
count_players-IsBalanced time (p ∷ players) rows h =
    count_players-IsBalanced time players (change_row p (played time) rows)
      (change_row-IsBalanced p (played time) rows (λ r. (refl, refl)) h)

count_champion-IsBalanced :
    (t : Tournament) (rows : Rows)
    → IsBalanced (values rows)
    → IsBalanced (values (count_champion t rows))
unfolding count_champion won_tournament
count_champion-IsBalanced t rows h = elim (Option-cases (champion t)) [
  | inl e ↦ rw (e, count_champion) h
  | inr (w, e) ↦
      rw (e, count_champion) (change_row-IsBalanced w won_tournament rows (λ r. (refl, refl)) h)
]

count_tournament-IsBalanced :
    (time : ℤ) (t : Tournament) (rows : Rows)
    → IsBalanced (values rows)
    → IsBalanced (values (count_tournament time t rows))
unfolding count_tournament
count_tournament-IsBalanced time t rows h =
    let entered = count_players time t.players rows in
    let counted = count_games false t.games entered in
    if-both (λ r. IsBalanced (values r)) (is_duel t) (count_games true t.games rows)
      (count_champion t counted) (count_games-IsBalanced true t.games rows h)
      (count_champion-IsBalanced t counted (
        count_games-IsBalanced false t.games entered
          (count_players-IsBalanced time t.players rows h)))

count_all-IsBalanced :
    (since : ℤ) (arena : Arena) (rows : Rows)
    → IsBalanced (values rows)
    → IsBalanced (values (count_all since arena rows))
unfolding count_all
count_all-IsBalanced since [] rows h = h
count_all-IsBalanced since ((_, t) ∷ arena) rows h = elim (Option-cases (counted_from since t)) [
  | inl e ↦ rw (e, count_all) (count_all-IsBalanced since arena rows h)
  | inr (time, e) ↦
      rw (e, count_all)
        (count_all-IsBalanced since arena (count_tournament time t rows)
          (count_tournament-IsBalanced time t rows h))
]

-- The wins of all the rows of the leaderboard are as many as their losses.
pub leaderboard-IsBalanced :
    (arena : Arena) (since_ms : ℤ) → IsBalanced (leaderboard arena since_ms)
unfolding leaderboard values
leaderboard-IsBalanced arena since_ms =
    let rows = values (count_all since_ms arena []) in
    total-sort_by (λ r. r.wins) row_lt rows
    ∙ count_all-IsBalanced since_ms arena [] refl
    ∙ sym (total-sort_by (λ r. r.losses) row_lt rows)
