-- ===== src/Names/Registry/Runs.antt =====
-- kachat-names/src/ingest.rs: what the spends of one transaction may do to the registry, as a
-- relation between the work before and after. The children show that the handlers stay within it.
pub mod Handlers
pub mod Prices
pub mod Spends
pub mod Laws
use ka_chat_indexer.Prelude.{
  ℕ, ◌%◌, ◌^◌, ◌≡◌, true, false, List, Option, none, some, Bytes, get_elem?, any, ◌==◌, nat_eq,
}
use ka_chat_indexer.Names.Externals.{Externals}
use ka_chat_indexer.Names.Templates.{Templates, Tracked, gap, name, offer, shard, tracked_spk}
use ka_chat_indexer.Names.Tx.{Tx, TxOutput}
use ka_chat_indexer.Names.Registry.State.{Event}
use ka_chat_indexer.Names.Registry.Outputs.{Work, bindings_known, emit}
use ka_chat_indexer.Names.Registry.Outputs.Found.{placed}

-- The output names the covenant `id`, and an authorizing input.
abbrev pub UnderCovenant : Bytes → TxOutput → Type 0
UnderCovenant id o =
    (auth : ℕ) × (o.covenant
      ≡ some (record { authorizing_input = auth % 2 ^ 16; covenant_id = id }))

-- What the covenant of an output must be, for what is tracked at it.
abbrev pub IsBound : Templates → Tx → Tracked → TxOutput → Type 0
IsBound t tx (gap _) o =
    (id : Bytes) → t.registry_id ≡ some id → bindings_known tx ≡ true → UnderCovenant id o
IsBound t tx (name _) o =
    (id : Bytes) → t.registry_id ≡ some id → bindings_known tx ≡ true → UnderCovenant id o
IsBound t tx (shard _) o =
    (id : Bytes) → t.price_id ≡ some id → bindings_known tx ≡ true → UnderCovenant id o
IsBound t tx (offer _) o = o.covenant ≡ none

-- Output `i` of the transaction carries the state: it pays its script, under its covenant.
pub record Backed (ext : Externals) (t : Templates) (tx : Tx) (i : ℕ) (x : Tracked) : Type 0 where
  pub output : TxOutput
  pub at : get_elem? tx.outputs i ≡ some output
  pub pays : output.script_public_key ≡ tracked_spk ext t x
  pub bound : IsBound t tx x output

pub data Runs (ext : Externals) (t : Templates) (tx : Tx) (w : Work) : Work → Type 0 where
  here : Runs ext t tx w w
  emits : {v : Work} (e : Event) → Runs ext t tx w v → Runs ext t tx w (emit e v)
  places :
      {v : Work} (x : Tracked) (i : ℕ)
      → any (λ u. u == i) v.used ≡ false
      → Backed ext t tx i x
      → Runs ext t tx w v
      → Runs ext t tx w (placed tx x i v)
