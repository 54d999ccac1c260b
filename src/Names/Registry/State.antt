-- ===== src/Names/Registry/State.antt =====
-- kachat-names/src/ingest.rs: the tracked registry, its undo journal, its events, and lookups.
use Prim.Native.String.{String}
use ka_chat_indexer.Prelude.{
  ℕ, List, [], ◌∷◌, Option, none, some, Bytes, Map, insert, ◌==◌, bytes_eq, if◌then◌else◌,
}
use ka_chat_indexer.Prelude.Int.{ℤ, ltb_ℤ}
use ka_chat_indexer.Names.States.{GapState, NameState, PriceState}
use ka_chat_indexer.Names.Transition.{Entry}
use ka_chat_indexer.Names.Script.{SigScript}
use ka_chat_indexer.Names.Templates.{Outpoint, Tracked, gap, name, shard, outpoint_eq}
use ka_chat_indexer.Names.Tx.{Tx, fee}

abbrev pub Utxos : Type 0
Utxos = Map Outpoint Tracked

-- A profile's JSON and the order key of the transaction that set it.
pub record ProfileRow : Type 0 where
  pub json : Bytes
  pub daa : ℕ
  pub tx_id : Bytes

abbrev pub Profiles : Type 0
Profiles = Map Bytes ProfileRow

pub record UndoEntry : Type 0 where
  pub block : Bytes
  pub added : List Outpoint
  pub removed : List (Outpoint × Tracked)
  pub profile : Option (Bytes × Option ProfileRow)

pub record Event : Type 0 where
  pub op : String
  pub key : Bytes
  pub tx_id : Bytes
  pub block : Bytes
  pub daa : ℕ
  pub at : ℤ
  pub from : Option Bytes
  pub to : Option Bytes
  pub price : Option ℤ
  pub years : Option ℤ
  pub fee : Option ℤ

pub record Registry : Type 0 where
  pub utxos : Utxos
  pub profiles : Profiles
  pub journal : List UndoEntry

abbrev pub new : Registry
new = record { utxos = []; profiles = []; journal = [] }

unfoldable pub seed_genesis : Registry → Outpoint → GapState → Registry
seed_genesis r outpoint s = record r { utxos = insert outpoint (gap s) r.utxos }

unfoldable pub seed_shard : Registry → Outpoint → PriceState → Registry
seed_shard r outpoint s = record r { utxos = insert outpoint (shard s) r.utxos }

unfoldable pub names : Utxos → List (Outpoint × NameState)
names [] = []
names ((o, name n) ∷ m) = (o, n) ∷ names m
names ((o, _) ∷ m) = names m

find_key : Bytes → List (Outpoint × NameState) → Option (Outpoint × NameState)
find_key key [] = none
find_key key ((o, n) ∷ ns) =
    let rest = find_key key ns in if n.key == key then some (o, n) else rest

unfoldable pub name_by_key : Utxos → Bytes → Option (Outpoint × NameState)
unfolding names find_key
name_by_key utxos key = find_key key (names utxos)

tracked_shards : Utxos → List (Outpoint × PriceState)
tracked_shards [] = []
tracked_shards ((o, shard p) ∷ m) = (o, p) ∷ tracked_shards m
tracked_shards ((o, _) ∷ m) = tracked_shards m

insert_shard : Outpoint × PriceState → List (Outpoint × PriceState) → List (Outpoint × PriceState)
insert_shard (o, p) [] = (o, p) ∷ []
insert_shard (o, p) ((o', p') ∷ rest) =
    if ltb_ℤ p'.shard p.shard then (o', p') ∷ insert_shard (o, p) rest else (o, p) ∷ (o', p') ∷ rest

sort_shards : List (Outpoint × PriceState) → List (Outpoint × PriceState)
unfolding insert_shard
sort_shards [] = []
sort_shards (x ∷ xs) = insert_shard x (sort_shards xs)

-- `Registry::shards`: `sort_by_key` is stable.
unfoldable pub shards : Utxos → List (Outpoint × PriceState)
unfolding tracked_shards sort_shards
shards utxos = sort_shards (tracked_shards utxos)

-- A tracked output that the transaction spends, under which entry.
pub record Spend : Type 0 where
  pub idx : ℕ
  pub outpoint : Outpoint
  pub tracked : Tracked
  pub entry : Entry
  pub sig : SigScript

unfoldable pub event : Tx → String → Bytes → Event
unfolding fee
event tx op key = record {
  op = op;
  key = key;
  tx_id = tx.id;
  block = tx.accepting_block;
  daa = tx.accepting_daa;
  at = tx.block_time;
  from = none;
  to = none;
  price = none;
  years = none;
  fee = fee tx;
}
