-- ===== src/Chess/Arena/Reducer/Every.antt =====
-- A predicate of every tournament of the arena.
use ka_chat_indexer.Prelude.{
  ◌≡◌, refl, sym, ◌∙◌, inl, inr, [], Option, some, Bytes, lookup, insert, lookup-insert, bytes_eq,
  bytes_beq, Bool-cases, Option-cases, some_injective, arith,
}
use ka_chat_indexer.Chess.Arena.State.{Tournament}
use ka_chat_indexer.Chess.Arena.Reducer.{Arena, update}

module _ {ℓ} (P : Tournament → Type ℓ) where
  abbrev pub Every : Arena → Type ℓ
  Every arena = (id : Bytes) (t : Tournament) → lookup id arena ≡ some t → P t

  pub empty-Every : Every []
  unfolding lookup
  empty-Every id t h = ground (arith, h)

  pub insert-Every :
      (arena : Arena) (id : Bytes) (t : Tournament) → Every arena → P t → Every (insert id t arena)
  insert-Every arena id t ok new other t' found = elim (Bool-cases (bytes_beq id other)) [
    | inl p ↦
        let here : lookup other (insert id t arena) ≡ some t =
          lookup-insert id other t arena ∙ rw p refl in
        rw (sym (some_injective t t' (sym here ∙ found))) new
    | inr p ↦
        let there : lookup other (insert id t arena) ≡ lookup other arena =
          lookup-insert id other t arena ∙ rw p refl in
        ok other t' (sym there ∙ found)
  ]

  pub update-Every :
      (id : Bytes) (f : Tournament → Option Tournament) (arena : Arena)
      → ((t t' : Tournament) → f t ≡ some t' → P t → P t')
      → Every arena
      → Every (update id f arena)
  unfolding update
  update-Every id f arena step ok = elim (Option-cases (lookup id arena)) [
    | inl e ↦ rw (e, update) ok
    | inr (t, e) ↦ elim (Option-cases (f t)) [
      | inl h ↦ rw (e, h, update) ok
      | inr (t', h) ↦ rw (e, h, update) (insert-Every arena id t' ok (step t t' h (ok id t e)))
    ]
  ]
