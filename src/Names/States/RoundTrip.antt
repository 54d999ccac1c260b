-- ===== src/Names/States/RoundTrip.antt =====
-- The states, written and read.
use ka_chat_indexer.Prelude.{
  ℕ, ◌≡◌, refl, sym, [], ◌∷◌, ◌++◌, Option, none, some, Bytes, length, get_or, arith,
}
use mathlib.Core.List.{append-nil}
use mathlib.Core.Path.{subst}
use ka_chat_indexer.Prelude.Int.{ℤ}
use ka_chat_indexer.Names.Num8.{num8_encode}
use ka_chat_indexer.Names.Num8.RoundTrip.{IsNum8, num8_decode-num8_encode, length-num8_encode}
use ka_chat_indexer.Names.States.{
  GapState, NameState, OfferState, encode_gap, decode_gap, encode_name, decode_name, encode_offer,
  decode_offer, take32, take8,
}
use ka_chat_indexer.Names.States.Fields.{
  At, At-start, At-append, At-cons, At-byte, At-take32, At-take8,
}

pub record IsGap (s : GapState) : Type 0 where
  pub lo : length s.lo ≡ 32
  pub hi : length s.hi ≡ 32

pub record IsName (s : NameState) : Type 0 where
  pub key : length s.key ≡ 32
  pub name : length s.name ≡ 32
  pub owner : length s.owner ≡ 32
  pub price : IsNum8 s.price
  pub period_start : IsNum8 s.period_start
  pub expires_at : IsNum8 s.expires_at

At-end : (b : Bytes) (n : ℕ) (xs : Bytes) → At b n xs → At b n (xs ++ [])
At-end b n xs h = subst (At b n) (sym (append-nil xs)) h

-- The bytes of a gap with two 32-byte ends decode to the gap.
pub decode_gap-encode_gap : (s : GapState) → IsGap s → decode_gap (encode_gap s) ≡ some s
unfolding decode_gap
decode_gap-encode_gap s v = ground (
  arith,
  size,
  At-byte b 0 0x20 _ a0,
  At-byte b 33 0x20 _ a33,
  At-take32 b 1 s.lo (0x20 ∷ s.hi) v.lo a1,
  At-take32 b 34 s.hi [] v.hi (At-end b 34 s.hi a34),
)
  where
    b : Bytes
    b = encode_gap s

    a0 : At b 0 (0x20 ∷ (s.lo ++ (0x20 ∷ s.hi)))
    a0 = unfold encode_gap in At-start b

    a1 : At b 1 (s.lo ++ (0x20 ∷ s.hi))
    a1 = At-cons b 0 1 0x20 _ refl a0

    a33 : At b 33 (0x20 ∷ s.hi)
    a33 = At-append b 1 32 33 s.lo _ v.lo refl a1

    a34 : At b 34 s.hi
    a34 = At-cons b 33 34 0x20 _ refl a33

    size : length b ≡ 66
    size = omega (arith, a34.1, v.hi)

-- A prefix of `k` bytes from the position of the field before.
module _ (s : NameState) (v : IsName s) where
  name_state : Bytes
  name_state = encode_name s

  At-key : At name_state 1 (
      s.key
      ++ (0x20
          ∷ (s.name
              ++ (0x20
                  ∷ (s.owner
                      ++ (0x08
                          ∷ (num8_encode s.price
                              ++ (0x08
                                  ∷ (num8_encode s.period_start
                                      ++ (0x08 ∷ num8_encode s.expires_at))))))))))
  unfolding name_state encode_name
  At-key = At-cons (encode_name s) 0 1 0x20 _ refl (At-start (encode_name s))

  name_fields :
      (take32 name_state 1 ≡ some s.key)
      × (take32 name_state 34 ≡ some s.name)
      × (take32 name_state 67 ≡ some s.owner)
      × (take8 name_state 100 ≡ some (num8_encode s.price))
      × (take8 name_state 109 ≡ some (num8_encode s.period_start))
      × (take8 name_state 118 ≡ some (num8_encode s.expires_at))
      × (get_or name_state 0 0 ≡ 0x20)
      × (get_or name_state 33 0 ≡ 0x20)
      × (get_or name_state 66 0 ≡ 0x20)
      × (get_or name_state 99 0 ≡ 0x08)
      × (get_or name_state 108 0 ≡ 0x08)
      × (get_or name_state 117 0 ≡ 0x08)
      × (length name_state ≡ 126)
  name_fields =
      let b = name_state in
      let l4 = length-num8_encode s.price in
      let l5 = length-num8_encode s.period_start in
      let l6 = length-num8_encode s.expires_at in
      let a33 = At-append b 1 32 33 s.key _ v.key refl At-key in
      let a34 = At-cons b 33 34 0x20 _ refl a33 in
      let a66 = At-append b 34 32 66 s.name _ v.name refl a34 in
      let a67 = At-cons b 66 67 0x20 _ refl a66 in
      let a99 = At-append b 67 32 99 s.owner _ v.owner refl a67 in
      let a100 = At-cons b 99 100 0x08 _ refl a99 in
      let a108 = At-append b 100 8 108 (num8_encode s.price) _ l4 refl a100 in
      let a109 = At-cons b 108 109 0x08 _ refl a108 in
      let a117 = At-append b 109 8 117 (num8_encode s.period_start) _ l5 refl a109 in
      let a118 = At-cons b 117 118 0x08 (num8_encode s.expires_at) refl a117 in
      (
        At-take32 b 1 s.key _ v.key At-key,
        At-take32 b 34 s.name _ v.name a34,
        At-take32 b 67 s.owner _ v.owner a67,
        At-take8 b 100 _ _ l4 a100,
        At-take8 b 109 _ _ l5 a109,
        At-take8 b 118 _ [] l6 (At-end b 118 _ a118),
        (unfold name_state encode_name in refl),
        At-byte b 33 0x20 _ a33,
        At-byte b 66 0x20 _ a66,
        At-byte b 99 0x08 _ a99,
        At-byte b 108 0x08 _ a108,
        At-byte b 117 0x08 _ a117,
        omega (arith, a118.1, l6),
      )

-- The bytes of a name state decode to it, if its fields have their widths and its numbers fit.
pub decode_name-encode_name : (s : NameState) → IsName s → decode_name (encode_name s) ≡ some s
unfolding decode_name name_state
decode_name-encode_name s v = ground (
  arith,
  name_fields s v,
  num8_decode-num8_encode s.price v.price,
  num8_decode-num8_encode s.period_start v.period_start,
  num8_decode-num8_encode s.expires_at v.expires_at,
)

abbrev pub IsSeller : Option Bytes → Type 0
IsSeller none = Unit
IsSeller (some seller) = length seller ≡ 32

pub record IsOffer (s : OfferState) : Type 0 where
  pub key : length s.key ≡ 32
  pub buyer : length s.buyer ≡ 32
  pub seller : IsSeller s.seller
  pub refund_after : IsNum8 s.refund_after

-- An offer with its seller left out, over its fields.
offer_v2 :
    (key buyer : Bytes) (refund : ℤ)
    → length key ≡ 32
    → length buyer ≡ 32
    → IsNum8 refund
    → let o : OfferState = record {
      key = key;
      buyer = buyer;
      seller = none;
      refund_after = refund;
    } in
      decode_offer (encode_offer o) ≡ some o
unfolding decode_offer encode_offer
offer_v2 key buyer refund lk lb r =
    let b : Bytes = 0x20 ∷ (key ++ (0x20 ∷ (buyer ++ (0x08 ∷ num8_encode refund)))) in
    let l = length-num8_encode refund in
    let a1 =
      At-cons b 0 1 0x20 (key ++ (0x20 ∷ (buyer ++ (0x08 ∷ num8_encode refund)))) refl
        (At-start b) in
    let a33 = At-append b 1 32 33 key _ lk refl a1 in
    let a34 = At-cons b 33 34 0x20 _ refl a33 in
    let a66 = At-append b 34 32 66 buyer _ lb refl a34 in
    let a67 = At-cons b 66 67 0x08 (num8_encode refund) refl a66 in
    let size : length b ≡ 75 = omega (arith, a67.1, l) in
    ground (
      arith,
      size,
      At-byte b 33 0x20 _ a33,
      At-byte b 66 0x08 _ a66,
      At-take32 b 1 key _ lk a1,
      At-take32 b 34 buyer _ lb a34,
      At-take8 b 67 (num8_encode refund) [] l (At-end b 67 _ a67),
      num8_decode-num8_encode refund r,
    )

offer_v3 :
    (key buyer seller : Bytes) (refund : ℤ)
    → length key ≡ 32
    → length buyer ≡ 32
    → length seller ≡ 32
    → IsNum8 refund
    → let o : OfferState = record {
      key = key;
      buyer = buyer;
      seller = some seller;
      refund_after = refund;
    } in
      decode_offer (encode_offer o) ≡ some o
unfolding decode_offer encode_offer
offer_v3 key buyer seller refund lk lb ls r =
    let t : Bytes = key ++ (0x20 ∷ (buyer ++ (0x20 ∷ (seller ++ (0x08 ∷ num8_encode refund))))) in
    let b : Bytes = 0x20 ∷ t in
    let l = length-num8_encode refund in
    let a1 = At-cons b 0 1 0x20 t refl (At-start b) in
    let a33 = At-append b 1 32 33 key _ lk refl a1 in
    let a34 = At-cons b 33 34 0x20 _ refl a33 in
    let a66 = At-append b 34 32 66 buyer _ lb refl a34 in
    let a67 = At-cons b 66 67 0x20 _ refl a66 in
    let a99 = At-append b 67 32 99 seller _ ls refl a67 in
    let a100 = At-cons b 99 100 0x08 (num8_encode refund) refl a99 in
    let size : length b ≡ 108 = omega (arith, a100.1, l) in
    ground (
      arith,
      size,
      At-byte b 33 0x20 _ a33,
      At-byte b 66 0x20 _ a66,
      At-byte b 99 0x08 _ a99,
      At-take32 b 1 key _ lk a1,
      At-take32 b 34 buyer _ lb a34,
      At-take32 b 67 seller _ ls a67,
      At-take8 b 100 (num8_encode refund) [] l (At-end b 100 _ a100),
      num8_decode-num8_encode refund r,
    )

offer_cases :
    (s : OfferState) (seller : Option Bytes)
    → s.seller ≡ seller
    → IsOffer s
    → IsSeller seller
    → decode_offer (encode_offer (record s { seller = seller }))
      ≡ some (record s { seller = seller })
offer_cases s none e v l = offer_v2 s.key s.buyer s.refund_after v.key v.buyer v.refund_after
offer_cases s (some seller) e v l =
    offer_v3 s.key s.buyer seller s.refund_after v.key v.buyer l v.refund_after

-- The bytes of an offer, with a seller or without one, decode to it, if its fields have their
-- widths and its number fits.
pub decode_offer-encode_offer :
    (s : OfferState) → IsOffer s → decode_offer (encode_offer s) ≡ some s
decode_offer-encode_offer s v = offer_cases s s.seller refl v v.seller

-- The bytes of a gap, a name and an offer whose keys have 32 bytes and whose integers fit num8 each
-- decode to the state that they encode.
pub decode_states-encode_states :
    (g : GapState) (n : NameState) (o : OfferState)
    → IsGap g
    → IsName n
    → IsOffer o
    → (decode_gap (encode_gap g) ≡ some g)
      × (decode_name (encode_name n) ≡ some n)
      × (decode_offer (encode_offer o) ≡ some o)
decode_states-encode_states g n o a b c =
    (decode_gap-encode_gap g a, decode_name-encode_name n b, decode_offer-encode_offer o c)
