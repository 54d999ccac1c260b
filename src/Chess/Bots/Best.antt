-- ===== src/Chess/Bots/Best.antt =====
-- The best win of each player on a bot's board.
use ka_chat_indexer.Prelude.{
  ℕ, ◌+◌, ◌≤◌, ◌≡◌, refl, sym, ap, ◌∙◌, ◌⊎◌, inl, inr, Bool, true, false, List, [], ◌∷◌, Option,
  none, some, Bytes, Map, lookup, insert, lookup-insert, bytes_eq, bytes_beq, bytes_beq_iff, leb→le,
  Bool-cases, Option-cases, some_injective, if◌then◌else◌, arith,
}
use ka_chat_indexer.Prelude.Int.{ℤ}
use ka_chat_indexer.Chess.Bots.{BotGame, BotBoardRow, in_board, is_beaten, keep_best, play_board}

-- The games have a win of the player in `m` moves, at the level and in the period.
pub data Win (level since_ms : ℤ) (player : Bytes) (m : ℕ) : List BotGame → Type 0 where
  here :
      (g : BotGame) (games : List BotGame)
      → in_board level since_ms g ≡ true
      → g.sender ≡ player
      → g.win_moves ≡ some m
      → Win level since_ms player m (g ∷ games)
  there :
      (g : BotGame) (games : List BotGame)
      → Win level since_ms player m games
      → Win level since_ms player m (g ∷ games)

abbrev Best : Type 0
Best = Map Bytes BotBoardRow

-- A row of at most `m` moves.
abbrev pub AtMost : ℕ → Option BotBoardRow → Type 0
AtMost m o = (r : BotBoardRow) × (o ≡ some r) × (r.moves ≤ m)

new_row : BotGame → ℕ → BotBoardRow
new_row g m = record {
  address = g.sender;
  moves = m;
  at = g.block_time;
  game_id = g.game_id;
  tx_id = g.tx_id;
}

keep_best-beaten :
    (g : BotGame) (best : Best) (m : ℕ)
    → g.win_moves ≡ some m
    → is_beaten m (lookup g.sender best) ≡ true
    → keep_best g best ≡ best
unfolding keep_best
keep_best-beaten g best m w b = rw (w, b, keep_best) refl

keep_best-new :
    (g : BotGame) (best : Best) (m : ℕ)
    → g.win_moves ≡ some m
    → is_beaten m (lookup g.sender best) ≡ false
    → keep_best g best ≡ insert g.sender (new_row g m) best
unfolding keep_best new_row
keep_best-new g best m w b = rw (w, b, keep_best) refl

keep_best-none : (g : BotGame) (best : Best) → g.win_moves ≡ none → keep_best g best ≡ best
unfolding keep_best
keep_best-none g best w = rw (w, keep_best) refl

beaten-AtMost : (m : ℕ) (o : Option BotBoardRow) → is_beaten m o ≡ true → AtMost m o
unfolding is_beaten
beaten-AtMost m none h = ground (arith, h)
beaten-AtMost m (some r) h = (r, refl, leb→le r.moves m h)

unbeaten-le :
    (m : ℕ) (r : BotBoardRow) (o : Option BotBoardRow)
    → o ≡ some r
    → is_beaten m o ≡ false
    → m ≤ r.moves
unfolding is_beaten
unbeaten-le m r none e h = ground (arith, e)
unbeaten-le m r (some s) e h = let same = some_injective s r e in rw (sym same) (ground (arith, h))

-- The win of the game is on the board after it.
keep_best-AtMost :
    (g : BotGame) (best : Best) (m : ℕ)
    → g.win_moves ≡ some m
    → AtMost m (lookup g.sender (keep_best g best))
unfolding new_row
keep_best-AtMost g best m w = elim (Bool-cases (is_beaten m (lookup g.sender best))) [
  | inl b ↦ rw (keep_best-beaten g best m w b) (beaten-AtMost m (lookup g.sender best) b)
  | inr b ↦ rw (keep_best-new g best m w b) (
    new_row g m,
    lookup-insert g.sender g.sender (new_row g m) best
        ∙ rw ((bytes_beq_iff g.sender g.sender).1 refl) refl,
    ground arith,
  )
]

-- A row is kept, or gives way to a better one.
keep_best-kept :
    (g : BotGame) (best : Best) (s : Bytes) (r : BotBoardRow)
    → lookup s best ≡ some r
    → AtMost r.moves (lookup s (keep_best g best))
unfolding new_row
keep_best-kept g best s r h = elim (Option-cases g.win_moves) [
  | inl w ↦ rw (keep_best-none g best w) (r, h, ground arith)
  | inr (m, w) ↦ elim (Bool-cases (is_beaten m (lookup g.sender best))) [
    | inl b ↦ rw (keep_best-beaten g best m w b) (r, h, ground arith)
    | inr b ↦ elim (Bool-cases (bytes_beq g.sender s)) [
      | inl p ↦
          let e = (bytes_beq_iff g.sender s).0 p in
          let found : lookup g.sender best ≡ some r = rw e h in
          rw (keep_best-new g best m w b) (
            new_row g m,
            lookup-insert g.sender s (new_row g m) best ∙ rw p refl,
            unbeaten-le m r (lookup g.sender best) found b,
          )
      | inr p ↦
          rw (keep_best-new g best m w b)
            (r, lookup-insert g.sender s (new_row g m) best ∙ rw p h, ground arith)
    ]
  ]
]

if_of_true {ℓ} : {A : Type ℓ} (b : Bool) (x y : A) → b ≡ true → (if b then x else y) ≡ x
if_of_true b x y p = rw p refl

if_of_false {ℓ} : {A : Type ℓ} (b : Bool) (x y : A) → b ≡ false → (if b then x else y) ≡ y
if_of_false b x y p = rw p refl

-- A row on the board was there, or is that of the game.
keep_best-origin :
    (g : BotGame) (best : Best) (s : Bytes) (r : BotBoardRow)
    → lookup s (keep_best g best) ≡ some r
    → (lookup s best ≡ some r) ⊎ ((g.sender ≡ s) × (g.win_moves ≡ some r.moves))
unfolding new_row
keep_best-origin g best s r h = elim (Option-cases g.win_moves) [
  | inl w ↦ inl (ap (lookup s) (sym (keep_best-none g best w)) ∙ h)
  | inr (m, w) ↦ elim (Bool-cases (is_beaten m (lookup g.sender best))) [
    | inl b ↦ inl (ap (lookup s) (sym (keep_best-beaten g best m w b)) ∙ h)
    | inr b ↦
        let at : (if bytes_beq g.sender s then some (new_row g m) else lookup s best) ≡ some r =
          sym (lookup-insert g.sender s (new_row g m) best)
          ∙ ap (lookup s) (sym (keep_best-new g best m w b))
          ∙ h in
        elim (Bool-cases (bytes_beq g.sender s)) [
          | inl p ↦
              let row : some (new_row g m) ≡ some r =
                sym (if_of_true (bytes_beq g.sender s) (some (new_row g m)) (lookup s best) p)
                ∙ at in
              inr (
                (bytes_beq_iff g.sender s).0 p,
                w ∙ ap (λ q. some q.moves) (some_injective (new_row g m) r row),
              )
          | inr p ↦
              inl (
                sym (if_of_false (bytes_beq g.sender s) (some (new_row g m)) (lookup s best) p)
                ∙ at)
        ]
  ]
]

module _ (level since_ms : ℤ) where
  -- The board after one game of the list.
  after : BotGame → ℕ × Best → ℕ × Best
  unfolding in_board keep_best
  after g (played, best) =
      if in_board level since_ms g then (played + 1, keep_best g best) else (played, best)

  after-kept :
      (g : BotGame) (played : ℕ) (best : Best) (s : Bytes) (r : BotBoardRow)
      → lookup s best ≡ some r
      → AtMost r.moves (lookup s (after g (played, best)).1)
  unfolding after
  after-kept g played best s r h = elim (Bool-cases (in_board level since_ms g)) [
    | inl p ↦ rw (p, after) (keep_best-kept g best s r h)
    | inr p ↦ rw (p, after) (r, h, ground arith)
  ]

  play_board-kept :
      (games : List BotGame) (played : ℕ) (best : Best) (s : Bytes) (m : ℕ)
      → AtMost m (lookup s best)
      → AtMost m (lookup s (play_board level since_ms games (played, best)).1)
  unfolding play_board after
  play_board-kept [] played best s m h = h
  play_board-kept (g ∷ games) played best s m (r, e, low) =
      let (r', e', low') = after-kept g played best s r e in
      let next = after g (played, best) in
      play_board-kept games next.0 next.1 s m (r', e', ground (arith, low, low'))

  play_board-least :
      (s : Bytes) (m : ℕ) (games : List BotGame) (played : ℕ) (best : Best)
      → Win level since_ms s m games
      → AtMost m (lookup s (play_board level since_ms games (played, best)).1)
  unfolding play_board after
  play_board-least s m _ played best (here g games counted sender moves) =
      let next = after g (played, best) in
      play_board-kept games next.0 next.1 s m
        (rw (counted, sym sender) (keep_best-AtMost g best m moves))
  play_board-least s m _ played best (there g games w) =
      let next = after g (played, best) in play_board-least s m games next.0 next.1 w

  after-origin :
      (g : BotGame) (played : ℕ) (best : Best) (s : Bytes) (r : BotBoardRow)
      → lookup s (after g (played, best)).1 ≡ some r
      → (lookup s best ≡ some r)
        ⊎ ((in_board level since_ms g ≡ true) × (g.sender ≡ s) × (g.win_moves ≡ some r.moves))
  unfolding after
  after-origin g played best s r h = elim (Bool-cases (in_board level since_ms g)) [
    | inr p ↦ inl (
        ap (lookup s) (
          sym (
            ap pair_best (
              if_of_false (in_board level since_ms g) (played + 1, keep_best g best) (played, best)
                p)))
        ∙ h)
    | inl p ↦
        let h' =
          ap (lookup s) (
            sym (
              ap pair_best (
                if_of_true (in_board level since_ms g) (played + 1, keep_best g best) (played, best)
                  p)))
          ∙ h in
        elim (keep_best-origin g best s r h') [ inl e ↦ inl e | inr (e, w) ↦ inr (p, e, w) ]
  ]
    where
      pair_best : ℕ × Best → Best
      pair_best (n, b) = b

  play_board-origin :
      (games : List BotGame) (played : ℕ) (best : Best) (s : Bytes) (r : BotBoardRow)
      → lookup s (play_board level since_ms games (played, best)).1 ≡ some r
      → (lookup s best ≡ some r) ⊎ Win level since_ms s r.moves games
  unfolding play_board after
  play_board-origin [] played best s r h = inl h
  play_board-origin (g ∷ games) played best s r h =
      let next = after g (played, best) in
      elim (play_board-origin games next.0 next.1 s r h) [
        | inr w ↦ inr (there g games w)
        | inl e ↦ elim (after-origin g played best s r e) [
          | inl e' ↦ inl e'
          | inr (p, sender, moves) ↦ inr (here g games p sender moves)
        ]
      ]

-- A player with a win at a level and in the period has a row on the level's board: it is of one of
-- the player's wins there, and none of them took fewer moves.
pub play_board-Win :
    (level since_ms : ℤ) (games : List BotGame) (player : Bytes) (m : ℕ)
    → Win level since_ms player m games
    → (r : BotBoardRow) × (lookup player (play_board level since_ms games (0, [])).1 ≡ some r)
      × (r.moves ≤ m)
      × Win level since_ms player r.moves games
unfolding lookup
play_board-Win level since_ms games player m w =
    let (r, found, low) = play_board-least level since_ms player m games 0 [] w in
    (
      r,
      found,
      low,
      elim (play_board-origin level since_ms games 0 [] player r found) [
        | inl e ↦ ground (arith, e)
        | inr w' ↦ w'
      ],
    )
