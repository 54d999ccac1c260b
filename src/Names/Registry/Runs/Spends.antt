-- ===== src/Names/Registry/Runs/Spends.antt =====
-- `apply_spends` stays within `Runs`, with the handlers that it calls.
use Prim.Native.String.{String}
use ka_chat_indexer.Prelude.{
  ℕ, refl, inl, inr, Bool, false, List, [], ◌∷◌, Option, none, some, ◌==◌, if◌then◌else◌,
  Bool-cases, Option-cases,
}
use ka_chat_indexer.Prelude.Int.{ℤ}
use ka_chat_indexer.Names.Externals.{Externals}
use ka_chat_indexer.Names.Script.{SigScript}
use ka_chat_indexer.Names.States.{GapState, NameState}
use ka_chat_indexer.Names.Transition.{Entry, entry_eq}
use ka_chat_indexer.Names.Moves
use ka_chat_indexer.Names.Templates.{
  Templates, Tracked, gap, name, offer, shard, gap_spk, name_spk, tracked_spk,
}
use ka_chat_indexer.Names.Tx.{Tx}
use ka_chat_indexer.Names.Registry.State.{Spend, event, name_by_key}
use ka_chat_indexer.Names.Registry.Outputs.{Work, emit, reg_bind, place_quietly}
use ka_chat_indexer.Names.Registry.Prices.{arg_key, arg_i64}
use ka_chat_indexer.Names.Registry.Continue.{
  has, find_spend, register_args, import_args, exit_op, offer_exits, place_merged, name_exits,
  apply_merge, place_split, register_gap, import_gap, apply_register, apply_import, record_name,
  continue_spend, continue_spends, branch, apply_spends,
}
use ka_chat_indexer.Names.Registry.Runs.{Runs, emits}
use ka_chat_indexer.Names.Registry.Runs.Handlers.{
  reg_bind-Binds_gap, reg_bind-Binds_name, place-Runs, place_quietly-Runs,
}
use ka_chat_indexer.Names.Registry.Runs.Prices.{apply_price_spends-Runs}

module _ (ext : Externals) (t : Templates) (tx : Tx) where
  offer_exit-Runs :
      {w : Work} (op : Option String) (f : String → Work) (v : Work)
      → Runs ext t tx w v
      → ((s : String) → Runs ext t tx w (f s))
      → Runs ext t tx w (elim op [ none ↦ v | some s ↦ f s ])
  offer_exit-Runs none f v r h = r
  offer_exit-Runs (some s) f v r h = h s

  offer_exits-Runs :
      {w : Work} (spends : List Spend) (v : Work)
      → Runs ext t tx w v
      → Runs ext t tx w (offer_exits ext t tx spends v)
  unfolding offer_exits
  offer_exits-Runs [] v r = r
  offer_exits-Runs {w} (s ∷ spends) v r = offer_exits-Runs spends _ (go s.tracked)
    where
      go :
          (x : Tracked)
          → Runs ext t tx w (elim x [
            | offer o ↦ elim (exit_op s.entry) [
              | none ↦ v
              | some op ↦
                  let e = event tx op o.key in
                  emit (record e { to = some o.buyer; from = o.seller }) v
            ]
            | _ ↦ v
          ])
      go (offer o) = offer_exit-Runs (exit_op s.entry) _ v r (λ op. emits _ r)
      go (gap _) = r
      go (name _) = r
      go (shard _) = r

  place_gap-Runs :
      {w : Work} (auth : ℕ) (g : GapState) (v : Work)
      → Runs ext t tx w v
      → Runs ext t tx w (place_quietly tx (gap_spk ext t g) (reg_bind t auth) (gap g) v)
  unfolding tracked_spk
  place_gap-Runs auth g v r =
      place_quietly-Runs ext t tx (gap_spk ext t g) (reg_bind t auth) (gap g) v refl
        (reg_bind-Binds_gap ext t tx auth g) r

  place_merged-Runs :
      {w : Work} (lo hi : Option (ℕ × GapState)) (v : Work)
      → Runs ext t tx w v
      → Runs ext t tx w (place_merged ext t tx lo hi v)
  unfolding place_merged
  place_merged-Runs (some (auth, lo)) (some (_, hi)) v r =
      place_gap-Runs auth (Moves.merge_gaps lo hi) v r
  place_merged-Runs none hi v r = r
  place_merged-Runs (some (auth, lo)) none v r = r

  name_exits-Runs :
      {w : Work} (spends : List Spend) (v : Work)
      → Runs ext t tx w v
      → Runs ext t tx w (name_exits ext t tx spends v)
  unfolding name_exits
  name_exits-Runs [] v r = r
  name_exits-Runs {w} (s ∷ spends) v r = name_exits-Runs spends _ (go s.tracked)
    where
      go :
          (x : Tracked)
          → Runs ext t tx w (elim x [
            | name n ↦
                let op = if s.entry == Entry.name_reclaim then "reclaim" else "release" in
                let e = event tx op n.key in emit (record e { from = some n.owner }) v
            | _ ↦ v
          ])
      go (name n) = emits _ r
      go (gap _) = r
      go (offer _) = r
      go (shard _) = r

  place_split-Runs :
      {w : Work} (op : String) (years : Option ℤ) (auth : ℕ)
      (split : GapState × GapState × NameState) (v : Work)
      → Runs ext t tx w v
      → Runs ext t tx w (place_split ext t tx op years auth split v)
  unfolding place_split tracked_spk
  place_split-Runs op years auth (left, right, nm) v r =
      let r₂ = place_gap-Runs auth right _ (place_gap-Runs auth left v r) in
      elim (place-Runs ext t tx (name_spk ext t nm) (reg_bind t auth) (name nm) _ refl
        (reg_bind-Binds_name ext t tx auth nm) r₂) [
          | inl p ↦ rw (p, place_split) r₂
          | inr (v', p, r') ↦ rw (p, place_split) (emits _ r')
        ]

  register_gap-Runs :
      {w : Work} (s : Spend) (x : Tracked) (v : Work)
      → Runs ext t tx w v
      → Runs ext t tx w (register_gap ext t tx s x v)
  unfolding register_gap
  register_gap-Runs s (gap g) v r = elim (Option-cases (register_args s.sig)) [
    | inl p ↦ rw (p, register_gap) r
    | inr ((n, owner, now, years), p) ↦
        rw (p, register_gap) (place_split-Runs "register" (some years) s.idx _ v r)
  ]
  register_gap-Runs s (name _) v r = r
  register_gap-Runs s (offer _) v r = r
  register_gap-Runs s (shard _) v r = r

  import_gap-Runs :
      {w : Work} (s : Spend) (x : Tracked) (v : Work)
      → Runs ext t tx w v
      → Runs ext t tx w (import_gap ext t tx s x v)
  unfolding import_gap
  import_gap-Runs s (gap g) v r = elim (Option-cases (import_args s.sig)) [
    | inl p ↦ rw (p, import_gap) r
    | inr ((n, owner, period_start, expires_at), p) ↦
        rw (p, import_gap) (place_split-Runs "import" none s.idx _ v r)
  ]
  import_gap-Runs s (name _) v r = r
  import_gap-Runs s (offer _) v r = r
  import_gap-Runs s (shard _) v r = r

  record_name-Runs :
      {w : Work} (auth : ℕ) (ns : NameState) (op : String) (old : NameState)
      (price years : Option ℤ) (v : Work)
      → Runs ext t tx w v
      → Runs ext t tx w (record_name ext t tx auth ns op old price years v)
  unfolding record_name tracked_spk
  record_name-Runs auth ns op old price years v r =
      elim (place-Runs ext t tx (name_spk ext t ns) (reg_bind t auth) (name ns) v refl
        (reg_bind-Binds_name ext t tx auth ns) r) [
          | inl p ↦ rw (p, record_name) r
          | inr (v', p, r') ↦ rw (p, record_name) (emits _ r')
        ]

  -- A handler that records a name only when its argument decodes.
  optional-Runs {ℓ} :
      {A : Type ℓ} {w : Work} (o : Option A) (f : A → Work) (v : Work)
      → Runs ext t tx w v
      → ((a : A) → Runs ext t tx w (f a))
      → Runs ext t tx w (elim o [ none ↦ v | some a ↦ f a ])
  optional-Runs none f v r h = r
  optional-Runs (some a) f v r h = h a

  continue_spend-Runs :
      {w : Work} (accepted transferred : Bool) (auth : ℕ) (x : Tracked) (entry : Entry)
      (sig : SigScript) (v : Work)
      → Runs ext t tx w v
      → Runs ext t tx w (continue_spend ext t tx accepted transferred auth x entry sig v)
  unfolding continue_spend
  continue_spend-Runs a b auth (name old) Entry.name_transfer sig v r =
      optional-Runs (arg_key sig 0) _ v r (λ owner. record_name-Runs auth _ _ old none none v r)
  continue_spend-Runs a b auth (name old) Entry.name_buy sig v r =
      optional-Runs (arg_key sig 0) _ v r (λ owner. record_name-Runs auth _ _ old _ none v r)
  continue_spend-Runs a b auth (name old) Entry.name_list sig v r =
      optional-Runs (arg_i64 sig 0) _ v r (λ price. record_name-Runs auth _ _ old _ none v r)
  continue_spend-Runs a b auth (name old) Entry.name_renew sig v r =
      optional-Runs (arg_i64 sig 0) _ v r (λ years. record_name-Runs auth _ _ old none _ v r)
  continue_spend-Runs a b auth (name old) Entry.name_extend sig v r =
      optional-Runs (arg_i64 sig 0) _ v r (λ years. record_name-Runs auth _ _ old none _ v r)
  continue_spend-Runs a false auth (offer o) Entry.offer_accept sig v r =
      optional-Runs (name_by_key v.utxos o.key) _ v r
        (λ found. record_name-Runs auth _ _ found.1 none none v r)
  continue_spend-Runs a b auth x entry sig v r = r

  continue_spends-Runs :
      {w : Work} (accepted transferred : Bool) (spends : List Spend) (v : Work)
      → Runs ext t tx w v
      → Runs ext t tx w (continue_spends ext t tx accepted transferred spends v)
  unfolding continue_spends
  continue_spends-Runs a b [] v r = r
  continue_spends-Runs a b (s ∷ spends) v r =
      continue_spends-Runs a b spends _ (continue_spend-Runs a b s.idx s.tracked s.entry s.sig v r)

  apply_register-Runs :
      {w : Work} (spends : List Spend) (v : Work)
      → Runs ext t tx w v
      → Runs ext t tx w (apply_register ext t tx spends v)
  unfolding apply_register
  apply_register-Runs spends v r =
      optional-Runs (find_spend Entry.gap_register spends) _ v r
        (λ s. register_gap-Runs s s.tracked v r)

  apply_import-Runs :
      {w : Work} (spends : List Spend) (v : Work)
      → Runs ext t tx w v
      → Runs ext t tx w (apply_import ext t tx spends v)
  unfolding apply_import
  apply_import-Runs spends v r =
      optional-Runs (find_spend Entry.gap_import spends) _ v r
        (λ s. import_gap-Runs s s.tracked v r)

  branch-Runs :
      {w : Work} (spends : List Spend) (v : Work)
      → Runs ext t tx w v
      → Runs ext t tx w (branch ext t tx spends v)
  unfolding branch
  branch-Runs spends v r = elim (Bool-cases (has spends Entry.gap_merge)) [
    | inl p ↦ rw p (unfold apply_merge in name_exits-Runs spends _ (place_merged-Runs _ _ v r))
    | inr p ↦ rw p (elim (Bool-cases (has spends Entry.gap_register)) [
      | inl q ↦ rw q (apply_register-Runs spends v r)
      | inr q ↦ rw q (elim (Bool-cases (has spends Entry.gap_import)) [
        | inl u ↦ rw u (apply_import-Runs spends v r)
        | inr u ↦ rw u (continue_spends-Runs _ _ spends v r)
      ])
    ])
  ]

  -- Whatever is spent, the work goes on by recording backed outputs and emitting events.
  pub apply_spends-Runs :
      {w : Work} (spends : List Spend) (v : Work)
      → Runs ext t tx w v
      → Runs ext t tx w (apply_spends ext t tx spends v)
  unfolding apply_spends
  apply_spends-Runs spends v r =
      branch-Runs spends _ (offer_exits-Runs spends _ (apply_price_spends-Runs ext t tx spends v r))
