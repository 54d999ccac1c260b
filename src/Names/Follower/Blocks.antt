-- ===== src/Names/Follower/Blocks.antt =====
-- The follower on a reorg of several blocks, the newest first.
use ka_chat_indexer.Prelude.{◌≡◌, refl, ap, ◌∙◌, List, [], ◌∷◌, ◌++◌, Bytes}
use mathlib.Core.Path.{subst}
use ka_chat_indexer.Names.Externals.{Externals}
use ka_chat_indexer.Names.Templates.{Templates}
use ka_chat_indexer.Names.Tx.{Tx}
use ka_chat_indexer.Names.Registry.State.{Event, Registry}
use ka_chat_indexer.Names.Registry.Apply.{apply, undo_block}
use ka_chat_indexer.Names.Registry.Apply.View.{SameView, SameView-refl, NoneOf}
use ka_chat_indexer.Names.Registry.Apply.Reorg.{undo_block-Undone_view}
use ka_chat_indexer.Names.Follower.{apply_all, undo_blocks}
use ka_chat_indexer.Names.Follower.Reorg.{FreshAll, AcceptedIn, apply_all-Undone}

-- Blocks with the transactions that each accepted, the newest block first.
abbrev pub Blocks : Type 0
Blocks = List (Bytes × List Tx)

abbrev pub ids : Blocks → List Bytes
ids [] = []
ids ((block, _) ∷ older) = block ∷ ids older

-- The transactions in the order of acceptance.
abbrev pub accepted : Blocks → List Tx
accepted [] = []
accepted ((_, txs) ∷ older) = accepted older ++ txs

module _ (ext : Externals) (t : Templates) where
  abbrev pub after : Blocks → Registry → Registry
  after blocks r = (apply_all ext t (accepted blocks) r []).0

  -- Each block accepts its own transactions, fresh when it does, and is not in the journal before.
  abbrev pub AreNew : Blocks → Registry → Type 0
  AreNew [] r = Unit
  AreNew ((block, txs) ∷ older) r =
      AcceptedIn block txs
      × FreshAll txs (after older r).utxos
      × NoneOf block (after older r).journal
      × AreNew older r

  apply_all-events :
      (txs : List Tx) (r : Registry) (e f : List Event)
      → (apply_all ext t txs r e).0 ≡ (apply_all ext t txs r f).0
  unfolding apply_all
  apply_all-events [] r e f = refl
  apply_all-events (tx ∷ txs) r e f = apply_all-events txs (apply ext t r tx).0 _ _

  apply_all-append :
      (xs ys : List Tx) (r : Registry) (e : List Event)
      → (apply_all ext t (xs ++ ys) r e).0 ≡ (apply_all ext t ys (apply_all ext t xs r e).0 e).0
  unfolding apply_all
  apply_all-append [] ys r e = refl
  apply_all-append (tx ∷ xs) ys r e =
      apply_all-append xs ys (apply ext t r tx).0 _ ∙ apply_all-events ys _ _ e

  undo_blocks-view :
      (blocks : Blocks) (r s : Registry)
      → AreNew blocks r
      → SameView s (after blocks r)
      → s.journal ≡ (after blocks r).journal
      → SameView (undo_blocks (ids blocks) s) r × ((undo_blocks (ids blocks) s).journal ≡ r.journal)
  unfolding undo_blocks apply_all
  undo_blocks-view [] r s n v j = (v, j)
  undo_blocks-view ((block, txs) ∷ older) r s (b, f, n, more) v j =
      let split = apply_all-append (accepted older) txs r [] in
      let (view, journal) =
        undo_block-Undone_view block (after older r) (apply_all ext t txs (after older r) []).0 s n
          (apply_all-Undone ext t block txs (after older r) [] b f) (subst (SameView s) split v)
          (j ∙ ap (λ (x : Registry). x.journal) split) in
      undo_blocks-view older r (undo_block s block) more view journal

  -- Whatever blocks were applied, taking them back from the newest to the oldest restores what
  -- every lookup of an output or a profile gives, and the journal: if each block's transactions
  -- were fresh when it was applied and the journal held no entry of it.
  pub undo_blocks-apply_all :
      (blocks : Blocks) (r : Registry)
      → AreNew blocks r
      → let r' = (apply_all ext t (accepted blocks) r []).0 in
        SameView (undo_blocks (ids blocks) r') r
        × ((undo_blocks (ids blocks) r').journal ≡ r.journal)
  undo_blocks-apply_all blocks r n =
      undo_blocks-view blocks r (after blocks r) n (SameView-refl (after blocks r)) refl
