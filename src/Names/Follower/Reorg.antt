-- ===== src/Names/Follower/Reorg.antt =====
-- The follower on a reorg of one block.
use ka_chat_indexer.Prelude.{
  ℕ, ◌≤◌, ◌≡◌, refl, sym, ap, ◌∙◌, false, List, [], ◌∷◌, Option, some, Bytes, All, length,
  length-append, bytes_beq, arith,
}
use mathlib.Core.Path.{subst}
use ka_chat_indexer.Names.Externals.{Externals}
use ka_chat_indexer.Names.Templates.{Templates}
use ka_chat_indexer.Names.Tx.{Tx}
use ka_chat_indexer.Names.Registry.State.{Utxos, Event, Registry}
use ka_chat_indexer.Names.Registry.Apply.{apply, undo_block, prune_journal}
use ka_chat_indexer.Names.Registry.Apply.Undo.{Fresh}
use ka_chat_indexer.Names.Registry.Apply.View.{SameView, NoneOf}
use ka_chat_indexer.Names.Registry.Apply.Reorg.{
  Undone, Undone-refl, Undone-trans, undo_block-Undone, apply-Undone, apply-Fresh,
}
use ka_chat_indexer.Names.Follower.{Follower, apply_all, undo_blocks, advance, step_batch}

-- The transactions have ids of their own, none of which the registry tracks an output of.
abbrev pub FreshAll : List Tx → Utxos → Type 0
FreshAll [] m = Unit
FreshAll (tx ∷ txs) m =
    Fresh tx m × All (λ other. bytes_beq tx.id other.id ≡ false) txs × FreshAll txs m

abbrev pub AcceptedIn : Bytes → List Tx → Type 0
AcceptedIn block txs = All (λ tx. tx.accepting_block ≡ block) txs

module _ (ext : Externals) (t : Templates) where
  apply-FreshAll :
      (txs : List Tx) (tx : Tx) (r : Registry)
      → All (λ other. bytes_beq tx.id other.id ≡ false) txs
      → FreshAll txs r.utxos
      → FreshAll txs (apply ext t r tx).0.utxos
  apply-FreshAll [] tx r d f = tt
  apply-FreshAll (other ∷ txs) tx r d f =
      (apply-Fresh ext t r tx other d.0 f.0, f.1, apply-FreshAll txs tx r d.1 f.2)

  pub apply_all-Undone :
      (block : Bytes) (txs : List Tx) (r : Registry) (events : List Event)
      → AcceptedIn block txs
      → FreshAll txs r.utxos
      → Undone block r (apply_all ext t txs r events).0
  unfolding apply_all
  apply_all-Undone block [] r events b f = Undone-refl block r
  apply_all-Undone block (tx ∷ txs) r events b f =
      Undone-trans block r (apply ext t r tx).0 _
        (subst (λ k. Undone k r (apply ext t r tx).0) b.0 (apply-Undone ext t r tx f.0))
        (apply_all-Undone block txs (apply ext t r tx).0 _ b.1 (apply-FreshAll txs tx r f.1 f.2))

  -- Whatever transactions a block accepted, taking the block back restores what every lookup of
  -- an output or a profile gives, and the journal: if the transactions have ids of their own, none
  -- of which the registry tracks an output of, and the journal held no entry of the block.
  pub undo_block-apply_all :
      (block : Bytes) (txs : List Tx) (r : Registry) (events : List Event)
      → AcceptedIn block txs
      → FreshAll txs r.utxos
      → NoneOf block r.journal
      → let r' = (apply_all ext t txs r events).0 in
        SameView (undo_block r' block) r × ((undo_block r' block).journal ≡ r.journal)
  undo_block-apply_all block txs r events b f n =
      undo_block-Undone block r _ n (apply_all-Undone block txs r events b f)

  prune_journal-short :
      (r : Registry) (keep : ℕ) → length r.journal ≤ keep → prune_journal r keep ≡ r
  unfolding prune_journal
  prune_journal-short r keep h = ground arith

  abbrev pub after_block : Follower → List Tx → Bytes → Follower
  after_block f txs block =
      (step_batch ext t f (record { removed_blocks = []; accepted = txs; tip = some block })).0

  abbrev pub after_reorg : Follower → Bytes → Option Bytes → Follower
  after_reorg f block tip =
      (step_batch ext t f (record { removed_blocks = block ∷ []; accepted = []; tip = tip })).0

  -- A step that accepts a block, and a step that removes it, lead back to the view of the registry
  -- and the journal before, with the second step's tip as checkpoint: if the transactions are fresh,
  -- the journal held no entry of the block, and the entries do not exceed `finality_keep`.
  pub step_batch-reorg :
      (f : Follower) (block : Bytes) (txs : List Tx) (tip : Bytes)
      → AcceptedIn block txs
      → FreshAll txs f.registry.utxos
      → NoneOf block f.registry.journal
      → length (apply_all ext t txs f.registry []).0.journal ≤ f.finality_keep
      → let f' = after_reorg (after_block f txs block) block (some tip) in
        SameView f'.registry f.registry
        × (f'.registry.journal ≡ f.registry.journal)
        × (f'.checkpoint ≡ some tip)
  unfolding step_batch undo_blocks apply_all advance
  step_batch-reorg f block txs tip b fresh n fits =
      let (view, journal) = undo_block-apply_all block txs f.registry [] b fresh n in
      (
        subst (λ r. SameView r f.registry) (sym (pruned journal)) view,
        ap (λ (r : Registry). r.journal) (pruned journal) ∙ journal,
        refl,
      )
    where
      grown : Registry
      grown = (apply_all ext t txs f.registry []).0

      shorter :
          (undo_block grown block).journal ≡ f.registry.journal
          → length (undo_block grown block).journal ≤ f.finality_keep
      shorter journal =
          let (us, more, _, _) = apply_all-Undone block txs f.registry [] b fresh in
          omega
            (arith, ap length journal, ap length more, length-append f.registry.journal us, fits)

      pruned :
          (undo_block grown block).journal ≡ f.registry.journal
          → prune_journal (undo_block (prune_journal grown f.finality_keep) block) f.finality_keep
            ≡ undo_block grown block
      pruned journal =
          ap (λ r. prune_journal (undo_block r block) f.finality_keep)
            (prune_journal-short grown f.finality_keep fits)
          ∙ prune_journal-short (undo_block grown block) f.finality_keep (shorter journal)
