-- ===== src/Names/Templates.antt =====
-- kachat-names/src/ingest.rs: tracked outputs, contract templates, transactions, and the scripts.
pub mod Dispatch
use ka_chat_indexer.Prelude.{
  ℕ, Bool, true, false, ◌&&◌, List, [], ◌∷◌, ◌++◌, Option, none, some, Bytes, Eq, ◌==◌, nat_eq,
  nat_beq, bytes_eq, bytes_beq, bytes_beq_iff, leb, if◌then◌else◌, ◌≡◌, ◌↔◌, arith,
}
use ka_chat_indexer.Prelude.Int.{ℤ}
use ka_chat_indexer.Names.Externals.{Externals}
use ka_chat_indexer.Names.Hashes.{p2sh_script}
use ka_chat_indexer.Names.States.{
  GapState, NameState, OfferState, PriceState, encode_gap, encode_name, encode_offer, encode_price,
}
use ka_chat_indexer.Names.Transition.{
  Contract, Entry, contract, entry_for_tag, contract_eq, year_ms,
}

pub record Outpoint : Type 0 where
  pub txid : Bytes
  pub index : ℕ

unfoldable pub outpoint_beq : Outpoint → Outpoint → Bool
outpoint_beq a b = bytes_beq a.txid b.txid && nat_beq a.index b.index

pub outpoint_beq_iff : (a b : Outpoint) → (outpoint_beq a b ≡ true) ↔ (a ≡ b)
unfolding outpoint_beq
outpoint_beq_iff a b = (
  λ h. ground (arith, bytes_beq_iff a.txid b.txid),
  λ h. ground (arith, bytes_beq_iff a.txid b.txid),
)

instance abbrev pub outpoint_eq : Eq Outpoint
outpoint_eq = record { beq = outpoint_beq; beq_iff = outpoint_beq_iff }

pub data Tracked : Type 0 where
  gap : GapState → Tracked
  name : NameState → Tracked
  offer : OfferState → Tracked
  shard : PriceState → Tracked

-- `Tracked::contract`.
unfoldable pub tracked_contract : Tracked → Contract
tracked_contract (gap s) = Contract.gap
tracked_contract (name s) = Contract.name
tracked_contract (offer s) = Contract.offer
tracked_contract (shard s) = Contract.price

pub record ContractTemplate : Type 0 where
  pub prefix : Bytes
  pub suffix : Bytes
  pub state_offset : ℕ
  pub state_len : ℕ

unfoldable pub redeem : ContractTemplate → Bytes → Bytes
redeem t state = t.prefix ++ (state ++ t.suffix)

pub record Templates : Type 0 where
  pub version : ℕ
  pub gap : ContractTemplate
  pub name : ContractTemplate
  pub offer : ContractTemplate
  pub price : Option ContractTemplate
  pub tags : List (Contract × Bytes × Entry)
  pub period_ms : ℤ
  pub registry_id : Option Bytes
  pub price_id : Option Bytes

-- `Templates::new`.
unfoldable pub new : ContractTemplate → ContractTemplate → ContractTemplate → Templates
new gap_template name_template offer_template = record {
  version = 2;
  gap = gap_template;
  name = name_template;
  offer = offer_template;
  price = none;
  tags = [];
  period_ms = year_ms;
  registry_id = none;
  price_id = none;
}

unfoldable pub is_covenant_registry : Templates → Bool
is_covenant_registry t = leb 3 t.version

unfoldable pub has_price_record : Templates → Bool
has_price_record t = elim t.price [ none ↦ false | some _ ↦ true ]

find_tag : Contract → Bytes → List (Contract × Bytes × Entry) → Option Entry
find_tag c tag [] = none
find_tag c tag ((d, t, e) ∷ tags) =
    let rest = find_tag c tag tags in if d == c && t == tag then some e else rest

only_of : Contract → Option Entry → Option Entry
unfolding contract
only_of c none = none
only_of c (some e) = if contract e == c then some e else none

entry_in : List (Contract × Bytes × Entry) → Contract → Bytes → Option Entry
unfolding find_tag only_of entry_for_tag
entry_in [] c tag = only_of c (entry_for_tag tag)
entry_in (x ∷ xs) c tag = find_tag c tag (x ∷ xs)

-- `Templates::entry`.
unfoldable pub entry : Templates → Contract → Bytes → Option Entry
unfolding entry_in
entry t = entry_in t.tags

module _ (ext : Externals) where
  -- `ContractTemplate::spk`.
  unfoldable pub spk : ContractTemplate → Bytes → Bytes
  unfolding redeem
  spk t state = p2sh_script ext (redeem t state)

  unfoldable pub gap_spk : Templates → GapState → Bytes
  gap_spk t s = spk t.gap (encode_gap s)

  unfoldable pub name_spk : Templates → NameState → Bytes
  name_spk t s = spk t.name (encode_name s)

  unfoldable pub offer_spk : Templates → OfferState → Bytes
  offer_spk t s = spk t.offer (encode_offer s)

  unfoldable pub price_spk : Templates → PriceState → Bytes
  price_spk t s = elim t.price [ none ↦ [] | some p ↦ spk p (encode_price s) ]

  unfoldable pub tracked_spk : Templates → Tracked → Bytes
  tracked_spk t (gap s) = gap_spk t s
  tracked_spk t (name s) = name_spk t s
  tracked_spk t (offer s) = offer_spk t s
  tracked_spk t (shard s) = price_spk t s
