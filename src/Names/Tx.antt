-- ===== src/Names/Tx.antt =====
-- kachat-names/src/ingest.rs: an accepted transaction as the applier reads it, and its fee.
pub mod Fee
use ka_chat_indexer.Prelude.{
  ℕ, ◌+◌, ◌-◌, ◌^◌, ◌≡◌, ◌↔◌, Bool, true, ◌&&◌, List, [], ◌∷◌, Option, none, some, Bytes, nat_beq,
  bytes_beq, bytes_beq_iff, ltb, if◌then◌else◌, ◌>>=◌, arith,
}
use ka_chat_indexer.Prelude.Int.{ℤ, pos}
use ka_chat_indexer.Names.Templates.{Outpoint}

pub record TxInput : Type 0 where
  pub previous_outpoint : Outpoint
  pub signature_script : Bytes
  pub spent_script : Bytes
  pub spent_amount : Option ℕ

pub record CovenantBinding : Type 0 where
  pub authorizing_input : ℕ
  pub covenant_id : Bytes

pub record TxOutput : Type 0 where
  pub script_public_key : Bytes
  pub value : ℕ
  pub covenant : Option CovenantBinding

pub record Tx : Type 0 where
  pub id : Bytes
  pub inputs : List TxInput
  pub outputs : List TxOutput
  pub payload : Bytes
  pub accepting_block : Bytes
  pub accepting_daa : ℕ
  pub block_time : ℤ

-- `u64::checked_add` and `checked_sub`.
unfoldable pub checked_add : ℕ → ℕ → Option ℕ
checked_add a b = if ltb (a + b) (2 ^ 64) then some (a + b) else none

unfoldable pub checked_sub : ℕ → ℕ → Option ℕ
checked_sub a b = if ltb a b then none else some (a - b)

spent_from : ℕ → List TxInput → Option ℕ
unfolding checked_add
spent_from spent [] = some spent
spent_from spent (i ∷ inputs) = elim i.spent_amount [
  | none ↦ none
  | some amount ↦ elim (checked_add spent amount) [
    | none ↦ none
    | some spent' ↦ spent_from spent' inputs
  ]
]

paid_from : ℕ → List TxOutput → Option ℕ
unfolding checked_add
paid_from a [] = some a
paid_from a (o ∷ outputs) = elim (checked_add a o.value) [
  | none ↦ none
  | some a' ↦ paid_from a' outputs
]

-- `Tx::fee`.
unfoldable pub fee : Tx → Option ℤ
unfolding spent_from paid_from checked_sub
fee tx = do
  spent ← spent_from 0 tx.inputs
  out ← paid_from 0 tx.outputs
  difference ← checked_sub spent out
  if ltb difference (2 ^ 63) then some (pos difference) else none

unfoldable pub covenant_beq : CovenantBinding → CovenantBinding → Bool
covenant_beq a b =
    nat_beq a.authorizing_input b.authorizing_input && bytes_beq a.covenant_id b.covenant_id

pub covenant_beq_iff : (a b : CovenantBinding) → (covenant_beq a b ≡ true) ↔ (a ≡ b)
unfolding covenant_beq
covenant_beq_iff a b = (
  λ h. ground (arith, bytes_beq_iff a.covenant_id b.covenant_id),
  λ h. ground (arith, bytes_beq_iff a.covenant_id b.covenant_id),
)
