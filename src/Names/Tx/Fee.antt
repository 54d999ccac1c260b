-- ===== src/Names/Tx/Fee.antt =====
-- The fee of a transaction, its inputs and its outputs.
use ka_chat_indexer.Prelude.{ℕ, ◌+◌, ◌-◌, ◌≡◌, List, [], ◌∷◌, some, Option-cases, inl, inr, arith}
use ka_chat_indexer.Prelude.Int.{ℤ, pos}
use ka_chat_indexer.Names.Tx.{
  Tx, TxInput, TxOutput, spent_from, paid_from, checked_add, checked_sub, fee,
}

-- The inputs' amounts, all of them known, add up to the total.
pub data Spends : List TxInput → ℕ → Type 0 where
  none_spent : Spends [] 0
  and_spent :
      {inputs : List TxInput} {total : ℕ} (i : TxInput) (amount : ℕ)
      → i.spent_amount ≡ some amount
      → Spends inputs total
      → Spends (i ∷ inputs) (amount + total)

unfoldable pub total_paid : List TxOutput → ℕ
total_paid [] = 0
total_paid (o ∷ outputs) = o.value + total_paid outputs

spent_from-Spends :
    (acc : ℕ) (inputs : List TxInput) (spent : ℕ)
    → spent_from acc inputs ≡ some spent
    → (total : ℕ) × Spends inputs total × (spent ≡ acc + total)
unfolding spent_from checked_add
spent_from-Spends acc [] spent h = (0, none_spent, ground arith)
spent_from-Spends acc (i ∷ inputs) spent h = elim (Option-cases i.spent_amount) [
  | inl e ↦ absurd (ground arith)
  | inr (amount, e) ↦
      let (total, s, eq) = spent_from-Spends (acc + amount) inputs spent (ground arith) in
      (amount + total, and_spent i amount e s, omega arith)
]

paid_from-total_paid :
    (acc : ℕ) (outputs : List TxOutput) (paid : ℕ)
    → paid_from acc outputs ≡ some paid
    → paid ≡ acc + total_paid outputs
unfolding paid_from checked_add total_paid
paid_from-total_paid acc [] paid h = ground arith
paid_from-total_paid acc (o ∷ outputs) paid h =
    ground (arith, paid_from-total_paid (acc + o.value) outputs paid)

-- A fee is reported only when every input's amount is known; then inputs are outputs plus the fee.
pub fee_lem :
    (tx : Tx) (v : ℤ)
    → fee tx ≡ some v
    → (f : ℕ) × (total : ℕ) × (v ≡ pos f)
      × Spends tx.inputs total
      × (total ≡ total_paid tx.outputs + f)
unfolding fee checked_sub
fee_lem tx v h = elim (Option-cases (spent_from 0 tx.inputs)) [
  | inl e ↦ absurd (ground arith)
  | inr (spent, e) ↦ elim (Option-cases (paid_from 0 tx.outputs)) [
    | inl p ↦ absurd (ground arith)
    | inr (paid, p) ↦
        let (total, s, eq) = spent_from-Spends 0 tx.inputs spent e in
        let eq' = paid_from-total_paid 0 tx.outputs paid p in
        (spent - paid, total, ground arith, s, ground arith)
  ]
]
