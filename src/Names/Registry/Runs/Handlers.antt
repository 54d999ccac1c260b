-- ===== src/Names/Registry/Runs/Handlers.antt =====
-- Recording an output keeps the work within `Runs`.
use ka_chat_indexer.Prelude.{ℕ, ◌≡◌, sym, ◌∙◌, ◌⊎◌, inl, inr, true, Option, none, some, Bytes, ap}
use ka_chat_indexer.Names.Externals.{Externals}
use ka_chat_indexer.Names.States.{GapState, NameState, PriceState}
use ka_chat_indexer.Names.Templates.{Templates, Tracked, gap, name, shard, tracked_spk}
use ka_chat_indexer.Names.Tx.{Tx, TxOutput}
use ka_chat_indexer.Names.Registry.Outputs.{
  Work, Bind, bindings_known, bound_ok, place, place_quietly, reg_bind,
}
use ka_chat_indexer.Names.Registry.Outputs.Found.{placed, place_cases, bound_ok-covenant}
use ka_chat_indexer.Names.Registry.Runs.{Runs, places, IsBound}

module _ (ext : Externals) (t : Templates) (tx : Tx) where
  -- The binding that a handler asks for gives the covenant that the kind of output must have.
  abbrev pub Binds : Bind → Tracked → Type 0
  Binds bind x = (o : TxOutput) → bound_ok (bindings_known tx) bind o ≡ true → IsBound t tx x o

  reg_bind-some :
      (auth : ℕ) (id : Bytes) → t.registry_id ≡ some id → reg_bind t auth ≡ some (auth, id)
  unfolding reg_bind
  reg_bind-some auth id e = rw (e, reg_bind)

  pub reg_bind-Binds_gap : (auth : ℕ) (g : GapState) → Binds (reg_bind t auth) (gap g)
  reg_bind-Binds_gap auth g =
      λ o h id e known. (auth, bound_ok-covenant _ _ o auth id h known (reg_bind-some auth id e))

  pub reg_bind-Binds_name : (auth : ℕ) (n : NameState) → Binds (reg_bind t auth) (name n)
  reg_bind-Binds_name auth n =
      λ o h id e known. (auth, bound_ok-covenant _ _ o auth id h known (reg_bind-some auth id e))

  pub price_bind-Binds :
      (auth : ℕ) (price_id : Bytes) (p : PriceState)
      → t.price_id ≡ some price_id
      → Binds (some (auth, price_id)) (shard p)
  price_bind-Binds auth price_id p e = λ o h id e' known.
      (auth, bound_ok-covenant _ _ o auth id h known (ap (pair auth) (sym e ∙ e')))
    where
      pair : ℕ → Option Bytes → Bind
      pair a none = none
      pair a (some i) = some (a, i)

  pub place-Runs :
      {w : Work} (spk : Bytes) (bind : Bind) (x : Tracked) (v : Work)
      → spk ≡ tracked_spk ext t x
      → Binds bind x
      → Runs ext t tx w v
      → (place tx spk bind x v ≡ none)
        ⊎ ((v' : Work) × (place tx spk bind x v ≡ some v') × Runs ext t tx w v')
  place-Runs spk bind x v e b r = elim (place_cases tx spk bind x v) [
    | inl p ↦ inl p
    | inr (i, o, at, c, p) ↦ inr (
      placed tx x i v,
      p,
      places x i c.unused (record { output = o; at = at; pays = c.pays ∙ e; bound = b o c.bound })
          r,
    )
  ]

  pub place_quietly-Runs :
      {w : Work} (spk : Bytes) (bind : Bind) (x : Tracked) (v : Work)
      → spk ≡ tracked_spk ext t x
      → Binds bind x
      → Runs ext t tx w v
      → Runs ext t tx w (place_quietly tx spk bind x v)
  unfolding place_quietly
  place_quietly-Runs spk bind x v e b r = elim (place-Runs spk bind x v e b r) [
    | inl p ↦ rw (p, place_quietly) r
    | inr (v', p, r') ↦ rw (p, place_quietly) r'
  ]
