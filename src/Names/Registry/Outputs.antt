-- ===== src/Names/Registry/Outputs.antt =====
-- kachat-names/src/ingest.rs: `find_output`, and recording what it finds.
pub mod Found
use ka_chat_indexer.Prelude.{
  ℕ, suc, ◌%◌, ◌^◌, Bool, true, false, ◌&&◌, not, List, [], ◌∷◌, ◌++◌, Option, none, some, Bytes,
  any, insert, ◌==◌, nat_eq, bytes_eq, if◌then◌else◌,
}
use ka_chat_indexer.Names.Templates.{Templates, Tracked, outpoint_eq}
use ka_chat_indexer.Names.Tx.{Tx, TxOutput, CovenantBinding, covenant_beq}
use ka_chat_indexer.Names.Registry.State.{Utxos, Event}

-- What `apply_spends` and its callees change: `self.utxos`, `used` and `events`.
pub record Work : Type 0 where
  pub utxos : Utxos
  pub used : List ℕ
  pub events : List Event

-- `bind`: the authorizing input and the covenant id.
abbrev pub Bind : Type 0
Bind = Option (ℕ × Bytes)

has_covenant : TxOutput → Bool
has_covenant o = elim o.covenant [ none ↦ false | some _ ↦ true ]

unfoldable pub bindings_known : Tx → Bool
unfolding any has_covenant
bindings_known tx = any has_covenant tx.outputs

covenant_is : CovenantBinding → Option CovenantBinding → Bool
unfolding covenant_beq
covenant_is b none = false
covenant_is b (some c) = covenant_beq c b

unfoldable pub bound_ok : Bool → Bind → TxOutput → Bool
unfolding covenant_is
bound_ok false bind o = true
bound_ok true none o = true
bound_ok true (some (auth, id)) o =
    covenant_is (record { authorizing_input = auth % 2 ^ 16; covenant_id = id }) o.covenant

unfoldable pub claims : Bool → Bytes → List ℕ → Bind → ℕ → TxOutput → Bool
unfolding any bound_ok
claims known spk used bind i o =
    not (any (λ u. u == i) used) && o.script_public_key == spk && bound_ok known bind o

find_from : Bool → Bytes → List ℕ → Bind → ℕ → List TxOutput → Option ℕ
unfolding claims
find_from known spk used bind i [] = none
find_from known spk used bind i (o ∷ outputs) =
    let rest = find_from known spk used bind (suc i) outputs in
    if claims known spk used bind i o then some i else rest

-- `find_output`; the caller then adds the index to `used`.
unfoldable pub find_output : Tx → Bytes → List ℕ → Bind → Option ℕ
unfolding find_from bindings_known
find_output tx spk used bind = find_from (bindings_known tx) spk used bind 0 tx.outputs

unfoldable pub reg_bind : Templates → ℕ → Bind
reg_bind templates auth = elim templates.registry_id [ none ↦ none | some id ↦ some (auth, id) ]

-- `if let Some(i) = find_output(…) { self.utxos.insert((tx.id, i as u32), tracked); … }`
unfoldable pub place : Tx → Bytes → Bind → Tracked → Work → Option Work
unfolding find_output
place tx spk bind tracked w = elim (find_output tx spk w.used bind) [
  | none ↦ none
  | some i ↦ some (record w {
    utxos = insert (record { txid = tx.id; index = i % 2 ^ 32 }) tracked w.utxos;
    used = w.used ++ (i ∷ []);
  })
]

abbrev pub emit : Event → Work → Work
emit e w = record w { events = w.events ++ (e ∷ []) }

abbrev pub or_else {ℓ} : {A : Type ℓ} → A → Option A → A
or_else a none = a
or_else a (some b) = b

unfoldable pub place_quietly : Tx → Bytes → Bind → Tracked → Work → Work
unfolding place
place_quietly tx spk bind tracked w = or_else w (place tx spk bind tracked w)
