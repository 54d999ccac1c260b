-- ===== src/Names/Registry/Markers/Offers.antt =====
-- What `apply_offer_marker` records.
use ka_chat_indexer.Prelude.{
  ℕ, suc, ◌+◌, ◌≡◌, refl, ◌⊎◌, inl, inr, true, false, List, [], ◌∷◌, Option, none, some, Bytes,
  get_elem?, insert, ap, ◌∙◌, Bool-cases, Option-cases, bytes_beq_iff, arith, ◌==◌, bytes_eq,
}
use ka_chat_indexer.Names.Externals.{Externals}
use ka_chat_indexer.Names.States.{OfferState}
use ka_chat_indexer.Names.Templates.{Templates, Tracked, offer, offer_spk, tracked_spk, outpoint_eq}
use ka_chat_indexer.Names.Tx.{Tx, TxOutput, CovenantBinding}
use ka_chat_indexer.Names.Registry.State.{Utxos}
use ka_chat_indexer.Names.Registry.Markers.{
  pays_offer, find_offer_output, marked_offer, apply_offer_marker,
}
use ka_chat_indexer.Names.Registry.Runs.{Backed}
use ka_chat_indexer.Names.Registry.Runs.Laws.{output_at}

pays_offer-facts :
    (spk : Bytes) (o : TxOutput) (c : Option CovenantBinding)
    → o.covenant ≡ c
    → (elim c [ none ↦ o.script_public_key == spk | some _ ↦ false ]) ≡ true
    → (o.script_public_key ≡ spk) × (o.covenant ≡ none)
pays_offer-facts spk o none e h = ((bytes_beq_iff _ _).0 h, e)
pays_offer-facts spk o (some c) e h = cc

abbrev FindsOffer : Bytes → ℕ → List TxOutput → ℕ → Type 0
FindsOffer spk k outputs i =
    (j : ℕ) × (o : TxOutput) × (i ≡ k + j)
    × (get_elem? outputs j ≡ some o)
    × (o.script_public_key ≡ spk)
    × (o.covenant ≡ none)

find_offer_output-FindsOffer :
    (spk : Bytes) (k : ℕ) (outputs : List TxOutput) (i v : ℕ)
    → find_offer_output spk k outputs ≡ some (i, v)
    → FindsOffer spk k outputs i
unfolding find_offer_output
find_offer_output-FindsOffer spk k [] i v h = cc
find_offer_output-FindsOffer spk k (o ∷ outputs) i v h = elim (Bool-cases (pays_offer spk o)) [
  | inl p ↦
      let (pays, free) = pays_offer-facts spk o o.covenant refl (unfold pays_offer in p) in
      let e : i ≡ k = ground arith in (0, o, omega arith, refl, pays, free)
  | inr p ↦
      let (j, o', e, at, pays, free) =
        find_offer_output-FindsOffer spk (suc k) outputs i v (ground arith) in
      (suc j, o', omega arith, at, pays, free)
]

module _ (ext : Externals) (t : Templates) (tx : Tx) where
  -- What a marker does to the map: nothing, or one output that backs the offer.
  abbrev pub MarksOffer : Utxos → Utxos → Type 0
  MarksOffer m m' =
      (m' ≡ m)
      ⊎ ((i : ℕ) × (x : Tracked) × Backed ext t tx i x × (m' ≡ insert (output_at tx i) x m))

  found_Backed :
      (o : OfferState) (i v : ℕ)
      → find_offer_output (offer_spk ext t o) 0 tx.outputs ≡ some (i, v)
      → Backed ext t tx i (offer o)
  unfolding tracked_spk
  found_Backed o i v f =
      let (j, out, i_eq, at, pays, free) =
        find_offer_output-FindsOffer (offer_spk ext t o) 0 tx.outputs i v f in
      let at_i : get_elem? tx.outputs i ≡ some out = ap (get_elem? tx.outputs) (omega arith) ∙ at in
      record { output = out; at = at_i; pays = pays; bound = free }

  pub apply_offer_marker-MarksOffer : (m : Utxos) → MarksOffer m (apply_offer_marker ext t tx m).0
  unfolding apply_offer_marker
  apply_offer_marker-MarksOffer m = elim (Option-cases (marked_offer ext t tx)) [
    | inl e ↦ rw (e, apply_offer_marker) (inl refl)
    | inr (o, e) ↦
        rw (e, apply_offer_marker)
          (elim (Option-cases (find_offer_output (offer_spk ext t o) 0 tx.outputs)) [
            | inl f ↦ rw f (inl refl)
            | inr ((i, v), f) ↦ rw f (inr (i, offer o, found_Backed o i v f, refl))
          ])
  ]
