-- ===== src/Names/States.antt =====
-- kachat-names/src/lib.rs: the four contract states and their byte forms.
pub mod Fields
pub mod RoundTrip
use Prim.Native.Nat.{min, max}
use ka_chat_indexer.Prelude.{
  ℕ, zero, suc, ◌+◌, ◌-◌, Bool, ◌&&◌, ◌||◌, not, List, [], ◌∷◌, ◌++◌, Option, none, some, Bytes,
  length, get_or, take, drop, position, leb, ◌==◌, nat_eq, if◌then◌else◌, ◌>>=◌,
}
use ka_chat_indexer.Prelude.Int.{ℤ, pos}
use ka_chat_indexer.Names.Num8.{num8_encode, num8_decode}

pub record GapState : Type 0 where
  pub lo : Bytes
  pub hi : Bytes

pub record NameState : Type 0 where
  pub key : Bytes
  pub name : Bytes
  pub owner : Bytes
  pub price : ℤ
  pub period_start : ℤ
  pub expires_at : ℤ

pub record OfferState : Type 0 where
  pub key : Bytes
  pub buyer : Bytes
  pub seller : Option Bytes
  pub refund_after : ℤ

-- `prices` has five entries.
pub record PriceState : Type 0 where
  pub shard : ℤ
  pub authority : Bytes
  pub prices : List ℤ

unfoldable pub take32 : Bytes → ℕ → Option Bytes
take32 b at = if leb (at + 32) (length b) then some (take 32 (drop at b)) else none

unfoldable pub take8 : Bytes → ℕ → Option Bytes
take8 b at = if leb (at + 8) (length b) then some (take 8 (drop at b)) else none

abbrev pub byte_is : Bytes → ℕ → ℕ → Bool
byte_is b at x = get_or b at 0 == x

unfoldable pub encode_gap : GapState → Bytes
encode_gap s = 0x20 ∷ (s.lo ++ (0x20 ∷ s.hi))

unfoldable pub decode_gap : Bytes → Option GapState
decode_gap state =
    if not (length state == 66) || not (byte_is state 0 0x20) || not (byte_is state 33 0x20)
    then none
    else do lo ← take32 state 1; hi ← take32 state 34; some (record { lo = lo; hi = hi })

unfoldable pub encode_name : NameState → Bytes
encode_name s =
    0x20
    ∷ (s.key
        ++ (0x20
            ∷ (s.name
                ++ (0x20
                    ∷ (s.owner
                        ++ (0x08
                            ∷ (num8_encode s.price
                                ++ (0x08
                                    ∷ (num8_encode s.period_start
                                        ++ (0x08 ∷ num8_encode s.expires_at))))))))))

unfoldable pub decode_name : Bytes → Option NameState
decode_name state =
    if not (length state == 126)
      || not (byte_is state 0 0x20)
      || not (byte_is state 33 0x20)
      || not (byte_is state 66 0x20)
      || not (byte_is state 99 0x08)
      || not (byte_is state 108 0x08)
      || not (byte_is state 117 0x08)
    then none
    else do
      key ← take32 state 1
      name ← take32 state 34
      owner ← take32 state 67
      price ← take8 state 100
      period_start ← take8 state 109
      expires_at ← take8 state 118
      some (record {
        key = key;
        name = name;
        owner = owner;
        price = num8_decode price;
        period_start = num8_decode period_start;
        expires_at = num8_decode expires_at;
      })

-- The bytes that `NameState::name_str` turns into a string.
unfoldable pub name_bytes : NameState → Bytes
unfolding position
name_bytes s = elim (position (λ c. c == 0) s.name) [ none ↦ s.name | some end ↦ take end s.name ]

unfoldable pub encode_offer : OfferState → Bytes
encode_offer s = elim s.seller [
  | none ↦ 0x20 ∷ (s.key ++ (0x20 ∷ (s.buyer ++ (0x08 ∷ num8_encode s.refund_after))))
  | some seller ↦
      0x20
      ∷ (s.key ++ (0x20 ∷ (s.buyer ++ (0x20 ∷ (seller ++ (0x08 ∷ num8_encode s.refund_after))))))
]

unfoldable pub decode_offer : Bytes → Option OfferState
decode_offer state =
    if length state == 75 && byte_is state 0 0x20 && byte_is state 33 0x20 && byte_is state 66 0x08
    then (do
      key ← take32 state 1
      buyer ← take32 state 34
      refund_after ← take8 state 67
      some (record {
        key = key;
        buyer = buyer;
        seller = none;
        refund_after = num8_decode refund_after;
      }))
    else if length state == 108
        && byte_is state 0 0x20
        && byte_is state 33 0x20
        && byte_is state 66 0x20
        && byte_is state 99 0x08
    then (do
      key ← take32 state 1
      buyer ← take32 state 34
      seller ← take32 state 67
      refund_after ← take8 state 100
      some (record {
        key = key;
        buyer = buyer;
        seller = some seller;
        refund_after = num8_decode refund_after;
      }))
    else none

encode_prices : List ℤ → Bytes
encode_prices [] = []
encode_prices (p ∷ ps) = 0x08 ∷ (num8_encode p ++ encode_prices ps)

unfoldable pub encode_price : PriceState → Bytes
unfolding encode_prices
encode_price s = 0x08 ∷ (num8_encode s.shard ++ (0x20 ∷ (s.authority ++ encode_prices s.prices)))

-- `count` prices from tier `t` on; tier `t` stands at `42 + t * 9`, given as `at`.
decode_prices : ℕ → ℕ → Bytes → Option (List ℤ)
decode_prices zero at state = some []
decode_prices (suc count) at state = do
  p ← (if byte_is state at 0x08 then take8 state (at + 1) else none)
  ps ← decode_prices count (at + 9) state
  some (num8_decode p ∷ ps)

unfoldable pub decode_price : Bytes → Option PriceState
unfolding decode_prices
decode_price state =
    if not (length state == 87) || not (byte_is state 0 0x08) || not (byte_is state 9 0x20)
    then none
    else do
      prices ← decode_prices 5 42 state
      shard ← take8 state 1
      authority ← take32 state 10
      some (record { shard = num8_decode shard; authority = authority; prices = prices })

unfoldable pub price_for_len : PriceState → ℕ → ℤ
price_for_len s len = get_or s.prices (min (max len 1) 5 - 1) (pos 0)

unfoldable pub state_span : Bytes → ℕ → ℕ → Option Bytes
state_span redeem offset len =
    if leb (offset + len) (length redeem) then some (take len (drop offset redeem)) else none
