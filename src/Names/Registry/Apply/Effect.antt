-- ===== src/Names/Registry/Apply/Effect.antt =====
-- What one accepted transaction changes of the tracked outputs.
use ka_chat_indexer.Prelude.{
  ℕ, zero, suc, ◌≡◌, refl, sym, ◌∙◌, ◌⊎◌, Bool, true, false, List, [], ◌∷◌, none, some, get_elem?,
  lookup, bytes_beq, if◌then◌else◌, arith,
}
use ka_chat_indexer.Names.Externals.{Externals}
use ka_chat_indexer.Names.Script.{SigScript, decode_sig_script}
use ka_chat_indexer.Names.Transition.{Entry}
use ka_chat_indexer.Names.Templates.{
  Templates, Outpoint, Tracked, outpoint_eq, outpoint_beq_iff, tracked_contract, entry,
}
use ka_chat_indexer.Names.Tx.{Tx, TxInput}
use ka_chat_indexer.Names.Registry.State.{Utxos, Registry, Spend}
use ka_chat_indexer.Names.Registry.Outputs.{Work}
use ka_chat_indexer.Names.Registry.Markers.{apply_offer_marker}
use ka_chat_indexer.Names.Registry.Apply.{spend_of, collect_spends, removed_of, worked, apply}
use ka_chat_indexer.Names.Registry.Apply.Tables.{keyed, lookup-remove_all}
use ka_chat_indexer.Names.Registry.Apply.Undo.{spend_work-Runs, worked-lookup, worked-lookup_other}
use ka_chat_indexer.Names.Registry.Runs.Laws.{
  Created, Distinct, track, indices, AllBacked, Runs-track,
}

module _ (ext : Externals) (t : Templates) (r : Registry) (tx : Tx) where
  -- A tracked output was tracked before, or it is an output of the transaction that pays the P2SH
  -- script of its state: an offer without a covenant, any other under the registry's or the
  -- shards' covenant, where the templates have it and the transaction's bindings are known.
  pub apply-lookup :
      (o : Outpoint) (y : Tracked)
      → lookup o (apply ext t r tx).0.utxos ≡ some y
      → (lookup o r.utxos ≡ some y) ⊎ Created ext t tx o y
  unfolding apply
  apply-lookup o y h =
      worked-lookup ext t tx spends r.utxos o y
        (held (keyed o (removed_of spends)) (sym (lookup-remove_all o (removed_of spends) w) ∙ h))
    where
      spends : List Spend
      spends = collect_spends t r.utxos 0 tx.inputs

      w : Utxos
      w = (worked ext t tx spends r.utxos).utxos

      held : (b : Bool) → (if b then none else lookup o w) ≡ some y → lookup o w ≡ some y
      held true e = cc
      held false e = e

  -- An output of a transaction of another id stays as it is, or is gone if it is among the spends.
  pub apply-lookup_other :
      (o : Outpoint)
      → bytes_beq tx.id o.txid ≡ false
      → lookup o (apply ext t r tx).0.utxos ≡ (
          if keyed o (removed_of (collect_spends t r.utxos 0 tx.inputs))
          then none
          else lookup o r.utxos)
  unfolding apply
  apply-lookup_other o h =
      let spends = collect_spends t r.utxos 0 tx.inputs in
      ground (
        arith,
        lookup-remove_all o (removed_of spends) (worked ext t tx spends r.utxos).utxos,
        worked-lookup_other ext t tx spends r.utxos o h,
      )

  -- What the spends of a transaction track, after the offer marker, is a sequence of claims: each
  -- inserts a state at an output of the transaction that pays the P2SH script of the state (an offer
  -- without a covenant, any other under the registry's or the shards' covenant, where the templates
  -- have it and the transaction's bindings are known). The indices that count as used are those of
  -- the claims, in their order, and no two claims have the same index.
  pub worked-track :
      let w = worked ext t tx (collect_spends t r.utxos 0 tx.inputs) r.utxos in
      (claims : List (ℕ × Tracked)) × (w.utxos
        ≡ track tx claims (apply_offer_marker ext t tx r.utxos).0)
      × (w.used ≡ indices claims)
      × Distinct (indices claims)
      × AllBacked ext t tx claims
  unfolding worked
  worked-track =
      Runs-track ext t tx
        (spend_work-Runs ext t tx (collect_spends t r.utxos 0 tx.inputs) marked_work) refl
    where
      marked_work : Work
      marked_work = record {
        utxos = (apply_offer_marker ext t tx r.utxos).0;
        used = [];
        events = (apply_offer_marker ext t tx r.utxos).1;
      }

keyed-collect_spends :
    (t : Templates) (m : Utxos) (idx : ℕ) (inputs : List TxInput) (k : ℕ) (input : TxInput)
    (s : Spend)
    → get_elem? inputs k ≡ some input
    → ((i : ℕ) → (u : Spend) × (spend_of t m i input ≡ some u) × (u.outpoint ≡ s.outpoint))
    → keyed s.outpoint (removed_of (collect_spends t m idx inputs)) ≡ true
unfolding keyed collect_spends removed_of
keyed-collect_spends t m idx [] k input s at h = cc
keyed-collect_spends t m idx (first ∷ inputs) zero input s at h =
    let (u, e, same) = h idx in
    let e' : spend_of t m idx first ≡ some u = cc in
    ground (arith, e', (outpoint_beq_iff u.outpoint s.outpoint).1 same)
keyed-collect_spends t m idx (first ∷ inputs) (suc k) input s at h =
    let rest = keyed-collect_spends t m (suc idx) inputs k input s at h in ground (arith, rest)

module _ (ext : Externals) (t : Templates) (r : Registry) (tx : Tx) where
  -- A tracked output that an input spends, with a signature script that decodes and a dispatch tag
  -- of an entry of its contract, is no longer tracked.
  pub apply-lookup_spent :
      (k : ℕ) (input : TxInput) (x : Tracked) (sig : SigScript) (e : Entry)
      → get_elem? tx.inputs k ≡ some input
      → lookup input.previous_outpoint r.utxos ≡ some x
      → decode_sig_script input.signature_script ≡ some sig
      → entry t (tracked_contract x) sig.dispatch_tag ≡ some e
      → lookup input.previous_outpoint (apply ext t r tx).0.utxos ≡ none
  unfolding apply spend_of
  apply-lookup_spent k input x sig e at held decodes known = ground (
    arith,
    lookup-remove_all input.previous_outpoint (removed_of spends)
        (worked ext t tx spends r.utxos).utxos,
    keyed-collect_spends t r.utxos 0 tx.inputs k input (spend 0) at (λ i. (spend i, spent i, refl)),
  )
    where
      spends : List Spend
      spends = collect_spends t r.utxos 0 tx.inputs

      spend : ℕ → Spend
      spend i = record {
        idx = i;
        outpoint = input.previous_outpoint;
        tracked = x;
        entry = e;
        sig = sig;
      }

      spent : (i : ℕ) → spend_of t r.utxos i input ≡ some (spend i)
      spent i = ground arith
