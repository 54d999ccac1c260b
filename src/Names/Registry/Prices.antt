-- ===== src/Names/Registry/Prices.antt =====
-- kachat-names/src/ingest.rs: `apply_price_spends`.
use ka_chat_indexer.Prelude.{
  ℕ, zero, suc, ◌+◌, Bool, true, false, ◌&&◌, List, [], ◌∷◌, Option, none, some, Bytes, length,
  get_elem?, replicate, any, ltb, ◌==◌, nat_eq, int_eq, if◌then◌else◌, ◌>>=◌,
}
use ka_chat_indexer.Prelude.Int.{ℤ, pos, ltb_ℤ}
use ka_chat_indexer.Names.Externals.{Externals}
use ka_chat_indexer.Names.Script.{SigScript, push_data, as_i64}
use ka_chat_indexer.Names.States.{PriceState}
use ka_chat_indexer.Names.Transition.{Entry, price_use, price_update}
use ka_chat_indexer.Names.Templates.{Templates, shard, price_spk}
use ka_chat_indexer.Names.Tx.{Tx}
use ka_chat_indexer.Names.Registry.State.{Spend, event}
use ka_chat_indexer.Names.Registry.Outputs.{Work, place, place_quietly, emit}

-- `<[u8; 32]>::try_from`.
unfoldable pub to_array32 : Bytes → Option Bytes
to_array32 d = if length d == 32 then some d else none

-- The argument at `k`, as bytes, as a 32-byte key, and as a number.
unfoldable pub arg_data : SigScript → ℕ → Option Bytes
arg_data sig k = do a ← get_elem? sig.args k; push_data a

unfoldable pub arg_key : SigScript → ℕ → Option Bytes
unfolding arg_data to_array32
arg_key sig k = do d ← arg_data sig k; to_array32 d

unfoldable pub arg_i64 : SigScript → ℕ → Option ℤ
unfolding as_i64
arg_i64 sig k = do a ← get_elem? sig.args k; as_i64 a

unfoldable pub prices_beq : List ℤ → List ℤ → Bool
prices_beq [] [] = true
prices_beq [] (q ∷ qs) = false
prices_beq (p ∷ ps) [] = false
prices_beq (p ∷ ps) (q ∷ qs) = p == q && prices_beq ps qs

-- Arguments `k`, `k + 1`, …, `count` of them: all numbers, or none.
arg_prices : SigScript → ℕ → ℕ → Option (List ℤ)
unfolding arg_i64
arg_prices sig k zero = some []
arg_prices sig k (suc count) = do
  p ← arg_i64 sig k
  ps ← arg_prices sig (suc k) count
  some (p ∷ ps)

-- `update(newAuthority, n1..n5, sig)`, refused with a negative price.
unfoldable pub update_args : SigScript → Option (Bytes × List ℤ)
unfolding arg_key arg_prices any
update_args sig = do
  authority ← arg_key sig 0
  prices ← arg_prices sig 1 5
  if any (λ p. ltb_ℤ p (pos 0)) prices then none else some (authority, prices)

unfoldable pub shard_ins : List Spend → List (ℕ × PriceState)
shard_ins [] = []
shard_ins (s ∷ spends) =
    let rest = shard_ins spends in elim s.tracked [ shard p ↦ (s.idx, p) ∷ rest | _ ↦ rest ]

module _ (ext : Externals) (templates : Templates) (tx : Tx) where
  -- Each shard's continuation, authorized by its own input; and how many moved.
  unfoldable pub rewrite_shards :
      Bytes → Bytes → List ℤ → List (ℕ × PriceState) → ℕ → Work → Work × ℕ
  unfolding place
  rewrite_shards price_id authority prices [] moved w = (w, moved)
  rewrite_shards price_id authority prices ((j, other) ∷ ins) moved w =
      let next : PriceState = record {
        shard = other.shard;
        authority = authority;
        prices = prices;
      } in
      elim (place tx (price_spk ext templates next) (some (j, price_id)) (shard next) w) [
        | none ↦ rewrite_shards price_id authority prices ins moved w
        | some w' ↦ rewrite_shards price_id authority prices ins (moved + 1) w'
      ]

  unfoldable pub emit_prices : PriceState → Bytes → List ℤ → Work × ℕ → Work
  emit_prices cur authority prices (w, moved) =
      let op = if prices_beq prices cur.prices then "price_authority" else "prices" in
      let e = event tx op (replicate 32 0) in
      if ltb 0 moved
      then emit (record e { from = some cur.authority; to = some authority }) w
      else w

  unfoldable pub update_shards :
      Bytes → List (ℕ × PriceState) → PriceState → SigScript → Work → Work
  unfolding rewrite_shards emit_prices update_args
  update_shards price_id ins cur sig w = elim (update_args sig) [
    | none ↦ w
    | some (authority, prices) ↦
        emit_prices cur authority prices (rewrite_shards price_id authority prices ins 0 w)
  ]

  -- The body of the loop over the spends, for a spent shard.
  unfoldable pub price_spend :
      Bytes → List (ℕ × PriceState) → ℕ → PriceState → Entry → SigScript → Work → Work
  unfolding update_shards
  price_spend price_id ins auth cur price_use sig w =
      place_quietly tx (price_spk ext templates cur) (some (auth, price_id)) (shard cur) w
  price_spend price_id ins auth cur price_update sig w = update_shards price_id ins cur sig w
  price_spend price_id ins auth cur _ sig w = w

  unfoldable pub price_spends : Bytes → List (ℕ × PriceState) → List Spend → Work → Work
  unfolding price_spend
  price_spends price_id ins [] w = w
  price_spends price_id ins (s ∷ spends) w =
      price_spends price_id ins spends
        (elim s.tracked [ shard cur ↦ price_spend price_id ins s.idx cur s.entry s.sig w | _ ↦ w ])

  unfoldable pub apply_price_spends : List Spend → Work → Work
  unfolding price_spends shard_ins
  apply_price_spends spends w = elim templates.price_id [
    | none ↦ w
    | some price_id ↦ price_spends price_id (shard_ins spends) spends w
  ]
