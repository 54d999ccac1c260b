-- ===== src/Names/Registry/Apply/Spent.antt =====
-- What a collected spend says of the input that it comes from.
use ka_chat_indexer.Prelude.{
  ◌≡◌, refl, zero, ◌+◌, ℕ, suc, List, [], ◌∷◌, some, lookup, get_elem?, Option-cases, inl, inr,
  arith,
}
use mathlib.Core.Path.{subst}
use ka_chat_indexer.Names.Script.{decode_sig_script}
use ka_chat_indexer.Names.Transition.{contract}
use ka_chat_indexer.Names.Templates.{Templates, outpoint_eq, tracked_contract, entry}
use ka_chat_indexer.Names.Templates.Dispatch.{AreMatched, entry-contract}
use ka_chat_indexer.Names.Tx.{TxInput}
use ka_chat_indexer.Names.Registry.State.{Utxos, Spend}
use ka_chat_indexer.Names.Registry.Apply.{spend_of, collect_spends}

-- The spend is of a tracked output, by a signature script that decodes, under an entry of the
-- output's contract.
pub record IsSpendOf (m : Utxos) (input : TxInput) (s : Spend) : Type 0 where
  pub outpoint : s.outpoint ≡ input.previous_outpoint
  pub tracked : lookup input.previous_outpoint m ≡ some s.tracked
  pub sig : decode_sig_script input.signature_script ≡ some s.sig
  pub entry : contract s.entry ≡ tracked_contract s.tracked

spend_of-IsSpendOf :
    (t : Templates) (m : Utxos) (idx : ℕ) (input : TxInput) (s : Spend)
    → AreMatched t.tags
    → spend_of t m idx input ≡ some s
    → (s.idx ≡ idx) × IsSpendOf m input s
unfolding spend_of
spend_of-IsSpendOf t m idx input s tags h = elim (Option-cases (lookup input.previous_outpoint m)) [
  | inl e ↦ absurd (ground arith)
  | inr (x, e) ↦ elim (Option-cases (decode_sig_script input.signature_script)) [
    | inl f ↦ absurd (ground arith)
    | inr (sig, f) ↦ elim (Option-cases (entry t (tracked_contract x) sig.dispatch_tag)) [
      | inl g ↦ absurd (ground arith)
      | inr (called, g) ↦
          let same : record {
            idx = idx;
            outpoint = input.previous_outpoint;
            tracked = x;
            entry = called;
            sig = sig;
          }
              ≡ s =
            ground arith in
          subst (λ k. (k.idx ≡ idx) × IsSpendOf m input k) same
            (
              refl,
              record {
                outpoint = refl;
                tracked = e;
                sig = f;
                entry = entry-contract t (tracked_contract x) sig.dispatch_tag called tags g;
              },
            )
    ]
  ]
]

abbrev SpendAt : Utxos → ℕ → List TxInput → Spend → Type 0
SpendAt m start inputs s =
    (i : ℕ) × (input : TxInput) × (s.idx ≡ start + i)
    × (get_elem? inputs i ≡ some input)
    × IsSpendOf m input s

later :
    (m : Utxos) (start : ℕ) (first : TxInput) (inputs : List TxInput) (s : Spend)
    → SpendAt m (suc start) inputs s
    → SpendAt m start (first ∷ inputs) s
later m start first inputs s (i, input, idx, found, spend) =
    (suc i, input, omega (arith, idx), found, spend)

collect_spends-SpendAt :
    (t : Templates) (m : Utxos) (start : ℕ) (inputs : List TxInput) (k : ℕ) (s : Spend)
    → AreMatched t.tags
    → get_elem? (collect_spends t m start inputs) k ≡ some s
    → SpendAt m start inputs s
unfolding collect_spends
collect_spends-SpendAt t m start [] k s tags h = absurd cc
collect_spends-SpendAt t m start (first ∷ inputs) zero s tags h =
    elim (Option-cases (spend_of t m start first)) [
      | inl e ↦
          later m start first inputs s
            (collect_spends-SpendAt t m (suc start) inputs zero s tags (ground (arith, h, e)))
      | inr (own, e) ↦
          let same : own ≡ s = ground (arith, h, e) in
          let (idx, spend) = spend_of-IsSpendOf t m start first s tags (ground arith) in
          (0, first, omega (arith, idx), refl, spend)
    ]
collect_spends-SpendAt t m start (first ∷ inputs) (suc k) s tags h =
    elim (Option-cases (spend_of t m start first)) [
      | inl e ↦
          later m start first inputs s
            (collect_spends-SpendAt t m (suc start) inputs (suc k) s tags (ground (arith, h, e)))
      | inr (own, e) ↦
          later m start first inputs s
            (collect_spends-SpendAt t m (suc start) inputs k s tags (ground (arith, h, e)))
    ]

-- Each collected spend is of the input at its index: the input's outpoint is tracked, its
-- signature script decodes, and the entry is one of the contract of the tracked output. The pinned
-- tags must stand with the contracts of their entries.
pub collect_spends-IsSpendOf :
    (t : Templates) (m : Utxos) (inputs : List TxInput) (k : ℕ) (s : Spend)
    → AreMatched t.tags
    → get_elem? (collect_spends t m 0 inputs) k ≡ some s
    → (input : TxInput) × (get_elem? inputs s.idx ≡ some input) × IsSpendOf m input s
collect_spends-IsSpendOf t m inputs k s tags h =
    let (i, input, idx, found, spend) = collect_spends-SpendAt t m 0 inputs k s tags h in
    let same : i ≡ s.idx = omega (arith, idx) in
    (input, subst (λ n. get_elem? inputs n ≡ some input) same found, spend)
