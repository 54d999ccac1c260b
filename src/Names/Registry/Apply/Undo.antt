-- ===== src/Names/Registry/Apply/Undo.antt =====
-- A transaction's effect on the map of tracked outputs, and its undo.
use ka_chat_indexer.Prelude.{
  ℕ, ◌≡◌, sym, ap, ◌∙◌, ◌⊎◌, inl, inr, true, false, List, [], ◌∷◌, none, some, Bytes, lookup,
  bytes_beq, bytes_beq_iff, bytes_eq, Bool-cases, arith,
}
use ka_chat_indexer.Names.Externals.{Externals}
use ka_chat_indexer.Names.Templates.{Templates, Outpoint, Tracked, outpoint_eq}
use ka_chat_indexer.Names.Tx.{Tx}
use ka_chat_indexer.Names.Registry.State.{Utxos, Spend}
use ka_chat_indexer.Names.Registry.Outputs.{Work}
use ka_chat_indexer.Names.Registry.Markers.Offers.{MarksOffer, apply_offer_marker-MarksOffer}
use ka_chat_indexer.Names.Registry.Runs.{Runs, here}
use ka_chat_indexer.Names.Registry.Runs.Spends.{apply_spends-Runs}
use ka_chat_indexer.Names.Registry.Runs.Laws.{
  Created, Runs-lookup, Runs-lookup_other, lookup-placed, lookup-placed_other,
}
use ka_chat_indexer.Names.Registry.Apply.{
  collect_spends, removed_of, remove_all, added_keys, delete_all, insert_all, spend_work, worked,
}
use ka_chat_indexer.Names.Registry.Apply.Tables.{
  keyed-lookup, contains_key-lookup, lookup-remove_all, lookup-delete_all, Holds, lookup-insert_all,
  any-added_keys, removed_of-Holds,
}

module _ (ext : Externals) (t : Templates) (tx : Tx) where
  pub spend_work-Runs :
      (spends : List Spend) (w : Work) → Runs ext t tx w (spend_work ext t tx spends w)
  unfolding spend_work
  spend_work-Runs [] w = here
  spend_work-Runs (s ∷ spends) w = apply_spends-Runs ext t tx (s ∷ spends) w here

  marks-other :
      (o : Outpoint) (m m' : Utxos)
      → MarksOffer ext t tx m m'
      → bytes_beq tx.id o.txid ≡ false
      → lookup o m' ≡ lookup o m
  marks-other o m m' (inl e) h = ap (lookup o) e
  marks-other o m m' (inr (i, x, b, e)) h = ap (lookup o) e ∙ lookup-placed_other ext t tx o i x m h

  marks-lookup :
      (o : Outpoint) (y : Tracked) (m m' : Utxos)
      → MarksOffer ext t tx m m'
      → lookup o m' ≡ some y
      → (lookup o m ≡ some y) ⊎ Created ext t tx o y
  marks-lookup o y m m' (inl e) h = inl (sym (ap (lookup o) e) ∙ h)
  marks-lookup o y m m' (inr (i, x, b, e)) h =
      lookup-placed ext t tx o i x y m b (sym (ap (lookup o) e) ∙ h)

  pub worked-lookup_other :
      (spends : List Spend) (m : Utxos) (o : Outpoint)
      → bytes_beq tx.id o.txid ≡ false
      → lookup o (worked ext t tx spends m).utxos ≡ lookup o m
  unfolding worked
  worked-lookup_other spends m o h =
      Runs-lookup_other ext t tx o (spend_work-Runs spends _) h
      ∙ marks-other o m _ (apply_offer_marker-MarksOffer ext t tx m) h

  pub worked-lookup :
      (spends : List Spend) (m : Utxos) (o : Outpoint) (y : Tracked)
      → lookup o (worked ext t tx spends m).utxos ≡ some y
      → (lookup o m ≡ some y) ⊎ Created ext t tx o y
  unfolding worked
  worked-lookup spends m o y h = elim (Runs-lookup ext t tx o y (spend_work-Runs spends _) h) [
    | inl p ↦ marks-lookup o y m _ (apply_offer_marker-MarksOffer ext t tx m) p
    | inr c ↦ inr c
  ]

-- No output of the transaction is tracked yet.
abbrev pub Fresh : Tx → Utxos → Type 0
Fresh tx m = (index : ℕ) → lookup (record { txid = tx.id; index = index }) m ≡ none

Fresh-lookup :
    (tx : Tx) (m : Utxos) (o : Outpoint)
    → Fresh tx m
    → bytes_beq tx.id o.txid ≡ true
    → lookup o m ≡ none
Fresh-lookup tx m o f h =
    ap (λ (i : Bytes). lookup (record { txid = i; index = o.index }) m)
      (sym ((bytes_beq_iff _ _).0 h))
    ∙ f o.index

-- Restoring: what holds of the map before (`b`), after the work (`w`), with `r` what was removed.
undo_lookup :
    (o : Outpoint) (b w r : Utxos)
    → Holds b r
    → (lookup o w ≡ lookup o b) ⊎ (lookup o b ≡ none)
    → lookup o (insert_all r (delete_all (added_keys b (remove_all r w)) (remove_all r w)))
      ≡ lookup o b
undo_lookup o b w r h frame =
    lookup-insert_all o b r (delete_all (added_keys b (remove_all r w)) (remove_all r w)) h
    ∙ ground (
      arith,
      lookup-delete_all o (added_keys b (remove_all r w)) (remove_all r w),
      any-added_keys o b (remove_all r w),
      keyed-lookup o (remove_all r w),
      contains_key-lookup o b,
      lookup-remove_all o r w,
      frame,
    )

module _ (ext : Externals) (t : Templates) (tx : Tx) where
  -- The map before is back after the undo of the entry that `apply` records.
  pub undo-apply_utxos :
      (m : Utxos) (o : Outpoint)
      → Fresh tx m
      → let spends = collect_spends t m 0 tx.inputs in
        let after = remove_all (removed_of spends) (worked ext t tx spends m).utxos in
        lookup o (insert_all (removed_of spends) (delete_all (added_keys m after) after))
        ≡ lookup o m
  undo-apply_utxos m o f =
      undo_lookup o m (worked ext t tx spends m).utxos (removed_of spends)
        (removed_of-Holds t m 0 tx.inputs)
        (elim (Bool-cases (bytes_beq tx.id o.txid)) [
          | inl own ↦ inr (Fresh-lookup tx m o f own)
          | inr other ↦ inl (worked-lookup_other ext t tx spends m o other)
        ])
    where
      spends : List Spend
      spends = collect_spends t m 0 tx.inputs
