-- ===== src/Names/Registry/Runs/Laws.antt =====
-- What follows for work that stays within `Runs`.
use ka_chat_indexer.Prelude.{
  ℕ, ◌%◌, ◌^◌, ◌≡◌, refl, ap, ◌⊎◌, inl, inr, false, ◌||◌, List, [], ◌∷◌, ◌++◌, some, any, lookup,
  lookup-insert, insert, ◌==◌, nat_eq, bytes_beq, Bool-cases, arith, ◌∙◌, sym,
}
use mathlib.Core.Path.{subst}
use ka_chat_indexer.Names.Externals.{Externals}
use ka_chat_indexer.Names.Templates.{
  Templates, Outpoint, Tracked, outpoint_eq, outpoint_beq, outpoint_beq_iff,
}
use ka_chat_indexer.Names.Tx.{Tx}
use ka_chat_indexer.Names.Registry.Outputs.{Work}
use ka_chat_indexer.Names.Registry.State.{Utxos}
use ka_chat_indexer.Names.Registry.Runs.{Runs, here, emits, places, Backed}

-- The output of index `i`, as an outpoint.
abbrev pub output_at : Tx → ℕ → Outpoint
output_at tx i = record { txid = tx.id; index = i % 2 ^ 32 }

-- `x` is tracked at `o` because the transaction has an output that backs it.
abbrev pub Created : Externals → Templates → Tx → Outpoint → Tracked → Type 0
Created ext t tx o x = (i : ℕ) × (o ≡ output_at tx i) × Backed ext t tx i x

-- Each index stands once in the list.
abbrev pub Distinct : List ℕ → Type 0
Distinct [] = Unit
Distinct (x ∷ xs) = (any (λ u. u == x) xs ≡ false) × Distinct xs

-- The outputs of the transaction are tracked, each at its index.
abbrev pub track : Tx → List (ℕ × Tracked) → Utxos → Utxos
track tx [] m = m
track tx ((i, x) ∷ claims) m = track tx claims (insert (output_at tx i) x m)

abbrev pub indices : List (ℕ × Tracked) → List ℕ
indices [] = []
indices ((i, _) ∷ claims) = i ∷ indices claims

-- Each claimed output carries the state that is tracked at it.
abbrev pub AllBacked : Externals → Templates → Tx → List (ℕ × Tracked) → Type 0
AllBacked ext t tx [] = Unit
AllBacked ext t tx ((i, x) ∷ claims) = Backed ext t tx i x × AllBacked ext t tx claims

track-append :
    (tx : Tx) (claims : List (ℕ × Tracked)) (i : ℕ) (x : Tracked) (m : Utxos)
    → track tx (claims ++ (i, x) ∷ []) m ≡ insert (output_at tx i) x (track tx claims m)
track-append tx [] i x m = refl
track-append tx ((j, y) ∷ claims) i x m = track-append tx claims i x (insert (output_at tx j) y m)

indices-append :
    (claims : List (ℕ × Tracked)) (i : ℕ) (x : Tracked)
    → indices (claims ++ (i, x) ∷ []) ≡ indices claims ++ i ∷ []
indices-append [] i x = refl
indices-append ((j, y) ∷ claims) i x = ap (◌∷◌ j) (indices-append claims i x)

AllBacked-append :
    (ext : Externals) (t : Templates) (tx : Tx) (claims : List (ℕ × Tracked)) (i : ℕ) (x : Tracked)
    → AllBacked ext t tx claims
    → Backed ext t tx i x
    → AllBacked ext t tx (claims ++ (i, x) ∷ [])
AllBacked-append ext t tx [] i x h b = (b, tt)
AllBacked-append ext t tx (_ ∷ claims) i x (first, h) b =
    (first, AllBacked-append ext t tx claims i x h b)

any-append :
    (x i : ℕ) (xs : List ℕ) → any (λ u. u == x) (xs ++ i ∷ []) ≡ (any (λ u. u == x) xs || i == x)
unfolding any
any-append x i [] = ground arith
any-append x i (y ∷ xs) = ground (arith, any-append x i xs)

Distinct-append :
    (xs : List ℕ) (i : ℕ) → any (λ u. u == i) xs ≡ false → Distinct xs → Distinct (xs ++ i ∷ [])
unfolding any
Distinct-append [] i h d = (refl, tt)
Distinct-append (x ∷ xs) i h d =
    (ground (arith, any-append x i xs), Distinct-append xs i (ground arith) d.1)

module _ (ext : Externals) (t : Templates) (tx : Tx) where
  -- What is tracked by work that starts with no claims is what its claims say, one for each index
  -- that is used, and no index is used twice.
  pub Runs-track :
      {w v : Work}
      → Runs ext t tx w v
      → w.used ≡ []
      → (claims : List (ℕ × Tracked)) × (v.utxos ≡ track tx claims w.utxos)
        × (v.used ≡ indices claims)
        × Distinct (indices claims)
        × AllBacked ext t tx claims
  Runs-track here start = ([], refl, start, tt, tt)
  Runs-track (emits e r) start = Runs-track r start
  Runs-track {w} (places {v = v} x i free b r) start =
      let (claims, tracked, used, distinct, backed) = Runs-track r start in
      (
        claims ++ (i, x) ∷ [],
        ap (insert (output_at tx i) x) tracked ∙ sym (track-append tx claims i x w.utxos),
        ap (λ (l : List ℕ). l ++ i ∷ []) used ∙ sym (indices-append claims i x),
        rw (indices-append claims i x)
            (Distinct-append (indices claims) i (rw (← used) free) distinct),
        AllBacked-append ext t tx claims i x backed b,
      )

  other_outpoint :
      (o : Outpoint) (i : ℕ)
      → bytes_beq tx.id o.txid ≡ false
      → outpoint_beq (output_at tx i) o ≡ false
  unfolding outpoint_beq
  other_outpoint o i h = ground arith

  pub lookup-placed_other :
      (o : Outpoint) (i : ℕ) (x : Tracked) (m : Utxos)
      → bytes_beq tx.id o.txid ≡ false
      → lookup o (insert (output_at tx i) x m) ≡ lookup o m
  lookup-placed_other o i x m h =
      lookup-insert (output_at tx i) o x m ∙ ground (arith, other_outpoint o i h)

  -- Outputs of other transactions are left as they are.
  pub Runs-lookup_other :
      {w v : Work} (o : Outpoint)
      → Runs ext t tx w v
      → bytes_beq tx.id o.txid ≡ false
      → lookup o v.utxos ≡ lookup o w.utxos
  Runs-lookup_other o here h = refl
  Runs-lookup_other o (emits e r) h = Runs-lookup_other o r h
  Runs-lookup_other o (places {v = v} x i u b r) h =
      lookup-placed_other o i x v.utxos h ∙ Runs-lookup_other o r h

  pub lookup-placed :
      (o : Outpoint) (i : ℕ) (x y : Tracked) (m : Utxos)
      → Backed ext t tx i x
      → lookup o (insert (output_at tx i) x m) ≡ some y
      → (lookup o m ≡ some y) ⊎ Created ext t tx o y
  lookup-placed o i x y m b h = elim (Bool-cases (outpoint_beq (output_at tx i) o)) [
    | inl p ↦
        let e : some x ≡ some y = ground (arith, lookup-insert (output_at tx i) o x m) in
        inr (i, sym ((outpoint_beq_iff (output_at tx i) o).0 p), subst_backed i x y e b)
    | inr p ↦ inl (ground (arith, lookup-insert (output_at tx i) o x m))
  ]
    where
      subst_backed :
          (i : ℕ) (x y : Tracked) → some x ≡ some y → Backed ext t tx i x → Backed ext t tx i y
      subst_backed i x y e b = subst (Backed ext t tx i) (cc) b

  -- What is tracked after was tracked before, or stands at an output that backs it.
  pub Runs-lookup :
      {w v : Work} (o : Outpoint) (y : Tracked)
      → Runs ext t tx w v
      → lookup o v.utxos ≡ some y
      → (lookup o w.utxos ≡ some y) ⊎ Created ext t tx o y
  Runs-lookup o y here h = inl h
  Runs-lookup o y (emits e r) h = Runs-lookup o y r h
  Runs-lookup o y (places {v = v} x i u b r) h = elim (lookup-placed o i x y v.utxos b h) [
    | inl p ↦ Runs-lookup o y r p
    | inr c ↦ inr c
  ]
