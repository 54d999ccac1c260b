-- ===== src/Prelude/Assoc.antt =====
-- `HashMap` as an association list: its iteration order is the list's.
use mathlib.Core.Path.{◌≡◌, refl}
use mathlib.Core.Bool.{Bool, true, false}
use mathlib.Core.List.{List, [], ◌∷◌}
use mathlib.Core.Option.{Option, none, some}
use native.Mathlib.Omega.{arith}
use ka_chat_indexer.Prelude.Tests.{if◌then◌else◌}
use ka_chat_indexer.Prelude.Equality.{Eq, ◌==◌}

abbrev pub Map {ℓ κ} : Type ℓ → Type κ → Type (ℓ ⊔ κ)
Map K V = List (K × V)

module _ {ℓ κ} {K : Type ℓ} {V : Type κ} ⦃e : Eq K⦄ where
  unfoldable pub lookup : K → Map K V → Option V
  lookup key [] = none
  lookup key ((entry_key, value) ∷ rows) = if entry_key == key then some value else lookup key rows

  unfoldable pub contains_key : K → Map K V → Bool
  unfolding lookup
  contains_key key rows = elim (lookup key rows) [ none ↦ false | some _ ↦ true ]

  unfoldable pub remove : K → Map K V → Map K V
  remove key [] = []
  remove key ((entry_key, value) ∷ rows) =
      let rest = remove key rows in if entry_key == key then rest else (entry_key, value) ∷ rest

  -- The row of the key is replaced where it stands; a new key goes last.
  unfoldable pub insert : K → V → Map K V → Map K V
  insert key value [] = (key, value) ∷ []
  insert key value ((entry_key, old) ∷ rows) =
      if entry_key == key then (key, value) ∷ rows else (entry_key, old) ∷ insert key value rows

  pub lookup-remove :
      (key other : K) (rows : Map K V)
      → lookup other (remove key rows) ≡ (if key == other then none else lookup other rows)
  unfolding lookup remove
  lookup-remove key other [] = ground arith
  lookup-remove key other ((first, value) ∷ rows) = ground (
    arith,
    e.beq_iff key other,
    e.beq_iff first key,
    e.beq_iff first other,
    lookup-remove key other rows,
  )

  pub lookup-insert :
      (key other : K) (value : V) (rows : Map K V)
      → lookup other (insert key value rows)
        ≡ (if key == other then some value else lookup other rows)
  unfolding lookup insert
  lookup-insert key other value [] = refl
  lookup-insert key other value ((first, old) ∷ rows) = ground (
    arith,
    e.beq_iff key other,
    e.beq_iff first key,
    e.beq_iff first other,
    lookup-insert key other value rows,
  )
