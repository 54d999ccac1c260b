-- ===== src/Names/Registry/Runs/Prices.antt =====
-- `apply_price_spends` stays within `Runs`.
use ka_chat_indexer.Prelude.{
  ℕ, ◌+◌, ◌≡◌, refl, inl, inr, List, [], ◌∷◌, Option, none, some, Bytes, Bool-cases, Option-cases,
  ltb,
}
use ka_chat_indexer.Prelude.Int.{ℤ}
use ka_chat_indexer.Names.Externals.{Externals}
use ka_chat_indexer.Names.Script.{SigScript}
use ka_chat_indexer.Names.States.{PriceState}
use ka_chat_indexer.Names.Transition.{Entry, price_use, price_update}
use ka_chat_indexer.Names.Templates.{
  Templates, Tracked, gap, name, offer, shard, price_spk, tracked_spk,
}
use ka_chat_indexer.Names.Tx.{Tx}
use ka_chat_indexer.Names.Registry.State.{Spend}
use ka_chat_indexer.Names.Registry.Outputs.{Work}
use ka_chat_indexer.Names.Registry.Prices.{
  update_args, shard_ins, rewrite_shards, emit_prices, update_shards, price_spend, price_spends,
  apply_price_spends,
}
use ka_chat_indexer.Names.Registry.Runs.{Runs, emits}
use ka_chat_indexer.Names.Registry.Runs.Handlers.{price_bind-Binds, place-Runs, place_quietly-Runs}

module _ (ext : Externals) (t : Templates) (tx : Tx) (price_id : Bytes)
    (e : t.price_id ≡ some price_id) where
  rewrite_shards-Runs :
      {w : Work} (authority : Bytes) (prices : List ℤ) (ins : List (ℕ × PriceState)) (moved : ℕ)
      (v : Work)
      → Runs ext t tx w v
      → Runs ext t tx w (rewrite_shards ext t tx price_id authority prices ins moved v).0
  unfolding rewrite_shards tracked_spk
  rewrite_shards-Runs authority prices [] moved v r = r
  rewrite_shards-Runs authority prices ((j, other) ∷ ins) moved v r =
      let next : PriceState = record {
        shard = other.shard;
        authority = authority;
        prices = prices;
      } in
      elim (place-Runs ext t tx (price_spk ext t next) (some (j, price_id)) (shard next) v refl
        (price_bind-Binds ext t tx j price_id next e) r) [
          | inl p ↦ rw (p, rewrite_shards) (rewrite_shards-Runs authority prices ins moved v r)
          | inr (v', p, r') ↦
              rw (p, rewrite_shards) (rewrite_shards-Runs authority prices ins (moved + 1) v' r')
        ]

  emit_prices-Runs :
      {w : Work} (cur : PriceState) (authority : Bytes) (prices : List ℤ) (v : Work × ℕ)
      → Runs ext t tx w v.0
      → Runs ext t tx w (emit_prices ext t tx cur authority prices v)
  unfolding emit_prices
  emit_prices-Runs cur authority prices (v, moved) r = elim (Bool-cases (ltb 0 moved)) [
    | inl p ↦ rw p (emits _ r)
    | inr p ↦ rw p r
  ]

  price_spend-Runs :
      {w : Work} (ins : List (ℕ × PriceState)) (auth : ℕ) (cur : PriceState) (entry : Entry)
      (sig : SigScript) (v : Work)
      → Runs ext t tx w v
      → Runs ext t tx w (price_spend ext t tx price_id ins auth cur entry sig v)
  unfolding price_spend tracked_spk
  price_spend-Runs ins auth cur price_use sig v r =
      place_quietly-Runs ext t tx (price_spk ext t cur) (some (auth, price_id)) (shard cur) v refl
        (price_bind-Binds ext t tx auth price_id cur e) r
  price_spend-Runs ins auth cur price_update sig v r = elim (Option-cases (update_args sig)) [
    | inl p ↦ rw (p, update_shards) r
    | inr ((authority, prices), p) ↦
        rw (p, update_shards)
          (emit_prices-Runs cur authority prices _ (rewrite_shards-Runs authority prices ins 0 v r))
  ]
  price_spend-Runs ins auth cur _ sig v r = r

  spent_shard-Runs :
      {w : Work} (ins : List (ℕ × PriceState)) (s : Spend) (x : Tracked) (v : Work)
      → Runs ext t tx w v
      → Runs ext t tx w (elim x [
        | shard cur ↦ price_spend ext t tx price_id ins s.idx cur s.entry s.sig v
        | _ ↦ v
      ])
  spent_shard-Runs ins s (shard cur) v r = price_spend-Runs ins s.idx cur s.entry s.sig v r
  spent_shard-Runs ins s (gap _) v r = r
  spent_shard-Runs ins s (name _) v r = r
  spent_shard-Runs ins s (offer _) v r = r

  price_spends-Runs :
      {w : Work} (ins : List (ℕ × PriceState)) (spends : List Spend) (v : Work)
      → Runs ext t tx w v
      → Runs ext t tx w (price_spends ext t tx price_id ins spends v)
  unfolding price_spends
  price_spends-Runs ins [] v r = r
  price_spends-Runs ins (s ∷ spends) v r =
      price_spends-Runs ins spends _ (spent_shard-Runs ins s s.tracked v r)

module _ (ext : Externals) (t : Templates) (tx : Tx) where
  pub apply_price_spends-Runs :
      {w : Work} (spends : List Spend) (v : Work)
      → Runs ext t tx w v
      → Runs ext t tx w (apply_price_spends ext t tx spends v)
  unfolding apply_price_spends
  apply_price_spends-Runs {w} spends v r = go t.price_id refl
    where
      go :
          (o : Option Bytes)
          → t.price_id ≡ o
          → Runs ext t tx w (elim o [
            | none ↦ v
            | some price_id ↦ price_spends ext t tx price_id (shard_ins spends) spends v
          ])
      go none p = r
      go (some price_id) p = price_spends-Runs ext t tx price_id p (shard_ins spends) spends v r
