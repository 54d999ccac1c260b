-- ===== src/Names/Follower.antt =====
-- kachat-names/src/follower.rs: the loop that drives the registry from batches of the chain.
pub mod Reorg
pub mod Profiles
pub mod Blocks
pub mod Backing
use ka_chat_indexer.Prelude.{ℕ, List, [], ◌∷◌, ◌++◌, Option, none, some, Bytes, if◌then◌else◌}
use ka_chat_indexer.Names.Externals.{Externals}
use ka_chat_indexer.Names.States.{GapState, PriceState}
use ka_chat_indexer.Names.Templates.{Outpoint, Templates}
use ka_chat_indexer.Names.Tx.{Tx}
use ka_chat_indexer.Names.Registry.State.{Registry, Event, new, seed_genesis, seed_shard}
use ka_chat_indexer.Names.Registry.Apply.{apply, apply_profile_only, undo_block, prune_journal}

pub record VccBatch : Type 0 where
  pub removed_blocks : List Bytes
  pub accepted : List Tx
  pub tip : Option Bytes

pub data Result {ℓ κ} (E : Type ℓ) (A : Type κ) : Type (ℓ ⊔ κ) where
  ok : A → Result E A
  err : E → Result E A

-- The trait: a source of batches, with the state that a call leaves.
pub record ChainSource {ℓ κ} (S : Type ℓ) (E : Type κ) : Type (ℓ ⊔ κ) where
  pub next_batch : S → Option Bytes → S × Result E VccBatch

pub record Follower : Type 0 where
  pub registry : Registry
  pub checkpoint : Option Bytes
  pub finality_keep : ℕ

unfoldable pub start : ℕ → Follower
start finality_keep = record { registry = new; checkpoint = none; finality_keep = finality_keep }

unfoldable pub seed : Follower → Bytes → Outpoint → GapState → Follower
unfolding seed_genesis
seed f scan_from genesis_outpoint genesis_gap = record f {
  registry = seed_genesis f.registry genesis_outpoint genesis_gap;
  checkpoint = some scan_from;
}

unfoldable pub seed_shards : Follower → List (Outpoint × PriceState) → Follower
unfolding seed_shard
seed_shards f [] = f
seed_shards f ((op, s) ∷ shards) =
    seed_shards (record f { registry = seed_shard f.registry op s }) shards

unfoldable pub undo_blocks : List Bytes → Registry → Registry
undo_blocks [] r = r
undo_blocks (block ∷ blocks) r = undo_blocks blocks (undo_block r block)

unfoldable pub apply_all :
    Externals → Templates → List Tx → Registry → List Event → Registry × List Event
apply_all ext templates [] r events = (r, events)
apply_all ext templates (tx ∷ txs) r events =
    let (r', new_events) = apply ext templates r tx in
    apply_all ext templates txs r' (events ++ new_events)

unfoldable pub apply_profiles : Externals → List Tx → Registry → List Bytes → Registry × List Bytes
apply_profiles ext [] r ids = (r, ids)
apply_profiles ext (tx ∷ txs) r ids =
    let (r', accepted) = apply_profile_only ext r tx in
    apply_profiles ext txs r' (if accepted then ids ++ (tx.id ∷ []) else ids)

unfoldable pub advance : Option Bytes → Option Bytes → Option Bytes
advance none checkpoint = checkpoint
advance (some tip) checkpoint = some tip

-- What a step does with the batch that it pulled.
unfoldable pub step_batch : Externals → Templates → Follower → VccBatch → Follower × List Event
unfolding undo_blocks apply_all advance prune_journal
step_batch ext templates f batch =
    let undone = undo_blocks batch.removed_blocks f.registry in
    let (registry, events) = apply_all ext templates batch.accepted undone [] in
    (
      record f {
        registry = prune_journal registry f.finality_keep;
        checkpoint = advance batch.tip f.checkpoint;
      },
      events,
    )

unfoldable pub step_profiles_batch : Externals → Follower → VccBatch → Follower × List Bytes
unfolding undo_blocks apply_profiles advance prune_journal
step_profiles_batch ext f batch =
    let undone = undo_blocks batch.removed_blocks f.registry in
    let (registry, applied) = apply_profiles ext batch.accepted undone [] in
    (
      record f {
        registry = prune_journal registry f.finality_keep;
        checkpoint = advance batch.tip f.checkpoint;
      },
      applied,
    )

module _ {ℓ κ} {S : Type ℓ} {E : Type κ} (source : ChainSource S E) where
  -- A step whose pull fails leaves the follower as it was.
  unfoldable pub step :
      Externals → Templates → Follower → S → Follower × S × Result E (VccBatch × List Event)
  unfolding step_batch
  step ext templates f src =
      let (src', pulled) = source.next_batch src f.checkpoint in
      elim pulled [
        | err e ↦ (f, src', err e)
        | ok batch ↦
            let (f', events) = step_batch ext templates f batch in (f', src', ok (batch, events))
      ]

  unfoldable pub step_profiles :
      Externals → Follower → S → Follower × S × Result E (VccBatch × List Bytes)
  unfolding step_profiles_batch
  step_profiles ext f src =
      let (src', pulled) = source.next_batch src f.checkpoint in
      elim pulled [
        | err e ↦ (f, src', err e)
        | ok batch ↦
            let (f', applied) = step_profiles_batch ext f batch in (f', src', ok (batch, applied))
      ]
