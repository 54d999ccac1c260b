-- ===== src/Chess/Arena/Reducer/Steps.antt =====
-- The transitions of one game of the arena.
use ka_chat_indexer.Prelude.{
  ◌≡◌, refl, sym, ◌∙◌, inl, inr, Option, none, some, Bytes, lookup, insert, lookup-insert, bytes_eq,
  bytes_beq, bytes_beq_iff, Bool-cases, Option-cases,
}
use ka_chat_indexer.Chess.Arena.Message.{ArenaEvent}
use ka_chat_indexer.Chess.Arena.State.{Game, Tournament}
use ka_chat_indexer.Chess.Arena.Bracket.Grows.{Games, IsNew, Grows}
use ka_chat_indexer.Chess.Arena.Play.{play_move, resign, claim}
use ka_chat_indexer.Chess.Arena.Reducer.{Arena, update}

-- What one event may do at one key of one tournament: nothing, a new game where none was, or one of
-- the three actions of a player.
pub data GameStep (event : ArenaEvent) : Option Game → Option Game → Type 0 where
  kept : (o : Option Game) → GameStep event o o
  made : (g : Game) → IsNew g → GameStep event none (some g)
  moves : (g g' : Game) → play_move event g ≡ some g' → GameStep event (some g) (some g')
  resigns : (g g' : Game) → resign event g ≡ some g' → GameStep event (some g) (some g')
  claims : (g g' : Game) → claim event g ≡ some g' → GameStep event (some g) (some g')

unfoldable pub game_of : Option Tournament → Bytes → Option Game
game_of none k = none
game_of (some t) k = lookup k t.games

-- The game at the key `k` of the tournament `id`.
unfoldable pub game_in : Arena → Bytes → Bytes → Option Game
unfolding game_of
game_in arena id k = game_of (lookup id arena) k

-- A step at every key of a tournament's games.
abbrev pub Steps : ArenaEvent → (Bytes → Option Game) → (Bytes → Option Game) → Type 0
Steps event before after = (k : Bytes) → GameStep event (before k) (after k)

pub kept_of : (event : ArenaEvent) (o o' : Option Game) → o' ≡ o → GameStep event o o'
kept_of event o o' e = rw e (kept o)

pub Grows-Steps :
    (event : ArenaEvent) (m m' : Games)
    → Grows m m'
    → Steps event (λ k. lookup k m) (λ k. lookup k m')
Grows-Steps event m m' grows k = elim (grows k) [
  | inl e ↦ kept_of event (lookup k m) (lookup k m') e
  | inr (before, g, after, new) ↦ rw (before, after) (made g new)
]

pub insert-Steps :
    (event : ArenaEvent) (arena : Arena) (id : Bytes) (t : Tournament)
    → Steps event (game_of (lookup id arena)) (game_of (some t))
    → (other : Bytes) → Steps event (game_in arena other) (game_in (insert id t arena) other)
unfolding game_in
insert-Steps event arena id t steps other k = elim (Bool-cases (bytes_beq id other)) [
  | inl p ↦
      let e = (bytes_beq_iff id other).0 p in
      let found : lookup other (insert id t arena) ≡ some t =
        lookup-insert id other t arena ∙ rw p refl in
      rw (found, sym e) (steps k)
  | inr p ↦
      let found : lookup other (insert id t arena) ≡ lookup other arena =
        lookup-insert id other t arena ∙ rw p refl in
      rw found (kept (game_of (lookup other arena) k))
]

pub update-Steps :
    (event : ArenaEvent) (id : Bytes) (f : Tournament → Option Tournament) (arena : Arena)
    → ((t t' : Tournament)
        → lookup id arena ≡ some t
        → f t ≡ some t'
        → Steps event (game_of (some t)) (game_of (some t')))
    → (other : Bytes) → Steps event (game_in arena other) (game_in (update id f arena) other)
unfolding update
update-Steps event id f arena step other k = elim (Option-cases (lookup id arena)) [
  | inl e ↦ rw (e, update) (kept (game_in arena other k))
  | inr (t, e) ↦ elim (Option-cases (f t)) [
    | inl h ↦ rw (e, h, update) (kept (game_in arena other k))
    | inr (t', h) ↦
        let steps : Steps event (game_of (lookup id arena)) (game_of (some t')) =
          λ j. rw e (step t t' e h j) in
        rw (e, h, update) (insert-Steps event arena id t' steps other k)
  ]
]
