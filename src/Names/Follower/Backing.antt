-- ===== src/Names/Follower/Backing.antt =====
-- Where the outputs that the follower tracks come from.
use ka_chat_indexer.Prelude.{
  ℕ, suc, ◌≡◌, refl, ◌⊎◌, inl, inr, List, [], ◌∷◌, ◌++◌, some, get_elem?, lookup,
}
use ka_chat_indexer.Names.Externals.{Externals}
use ka_chat_indexer.Names.Templates.{Templates, Outpoint, Tracked, outpoint_eq}
use ka_chat_indexer.Names.Tx.{Tx}
use ka_chat_indexer.Names.Registry.State.{Registry, Event}
use ka_chat_indexer.Names.Registry.Apply.{apply}
use ka_chat_indexer.Names.Registry.Apply.Effect.{apply-lookup}
use ka_chat_indexer.Names.Registry.Runs.Laws.{Created}
use ka_chat_indexer.Names.Follower.{apply_all}

module _ (ext : Externals) (t : Templates) where
  -- One of the transactions has an output that backs `y` at `o`.
  abbrev pub CreatedBy : List Tx → Outpoint → Tracked → Type 0
  CreatedBy txs o y = (k : ℕ) × (tx : Tx) × (get_elem? txs k ≡ some tx) × Created ext t tx o y

  -- After any run of transactions, a tracked output was tracked at the start, or one of the
  -- transactions created it: its script is the P2SH of the state, and, where the covenant id and
  -- the transaction's bindings are known, it is under the covenant (an offer: under none).
  pub apply_all-lookup :
      (txs : List Tx) (r : Registry) (events : List Event) (o : Outpoint) (y : Tracked)
      → lookup o (apply_all ext t txs r events).0.utxos ≡ some y
      → (lookup o r.utxos ≡ some y) ⊎ CreatedBy txs o y
  unfolding apply_all
  apply_all-lookup [] r events o y h = inl h
  apply_all-lookup (tx ∷ txs) r events o y h =
      elim (apply_all-lookup txs (apply ext t r tx).0 (events ++ (apply ext t r tx).1) o y h) [
        | inl held ↦ elim (apply-lookup ext t r tx o y held) [
          | inl before ↦ inl before
          | inr c ↦ inr (0, tx, refl, c)
        ]
        | inr (k, tx', at, c) ↦ inr (suc k, tx', at, c)
      ]
