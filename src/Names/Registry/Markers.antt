-- ===== src/Names/Registry/Markers.antt =====
-- kachat-names/src/ingest.rs: the payload markers, `apply_offer_marker` and `apply_profile`.
pub mod Newest
pub mod Offers
use ka_chat_indexer.Prelude.{
  ℕ, suc, ◌%◌, ◌^◌, Bool, true, false, ◌&&◌, ◌||◌, not, List, [], ◌∷◌, Option, none, some, Bytes,
  any, replicate, lookup, insert, ltb, ◌==◌, nat_eq, bytes_eq, if◌then◌else◌, ◌>>=◌,
}
use ka_chat_indexer.Prelude.Int.{pos, ltb_ℤ, of_word}
use ka_chat_indexer.Prelude.Text.{bytes_lt, codes, is_utf8, strip_prefix, split, parse_i64}
use ka_chat_indexer.Names.Externals.{Externals}
use ka_chat_indexer.Names.States.{OfferState}
use ka_chat_indexer.Names.Templates.{Templates, offer, offer_spk, outpoint_eq}
use ka_chat_indexer.Names.Tx.{Tx, TxInput, TxOutput}
use ka_chat_indexer.Names.Profile.{parse_profile}
use ka_chat_indexer.Names.Registry.State.{Utxos, Event, ProfileRow, Profiles, event}
use ka_chat_indexer.Names.Registry.Prices.{to_array32}

unfoldable pub usable_key : Externals → Bytes → Bool
usable_key ext k = not (k == replicate 32 0) && ext.is_x_only_key k

unfoldable pub decode32 : Externals → Bytes → Option Bytes
unfolding to_array32
decode32 ext s = do v ← ext.hex_decode s; to_array32 v

-- The text after a marker, of a payload that is UTF-8.
unfoldable pub marked : Bytes → Bytes → Option Bytes
unfolding is_utf8 strip_prefix
marked prefix payload = if is_utf8 payload then strip_prefix prefix payload else none

-- The offer of the parts of a marker, for the length of the registry's offer state.
offer_of_parts : Externals → ℕ → List Bytes → Option OfferState
unfolding decode32
offer_of_parts ext len (key_hex ∷ buyer_hex ∷ refund_dec ∷ []) =
    if len == 75
    then (do
      key ← decode32 ext key_hex
      buyer ← decode32 ext buyer_hex
      refund_after ← parse_i64 refund_dec
      some (record { key = key; buyer = buyer; seller = none; refund_after = refund_after }))
    else none
offer_of_parts ext len (key_hex ∷ buyer_hex ∷ seller_hex ∷ refund_dec ∷ []) =
    if len == 108
    then (do
      key ← decode32 ext key_hex
      buyer ← decode32 ext buyer_hex
      seller ← decode32 ext seller_hex
      refund_after ← parse_i64 refund_dec
      some (record { key = key; buyer = buyer; seller = some seller; refund_after = refund_after }))
    else none
offer_of_parts ext len _ = none

seller_ok : Externals → Option Bytes → Bool
unfolding usable_key
seller_ok ext none = true
seller_ok ext (some s) = usable_key ext s

is_usable : Externals → OfferState → Bool
unfolding usable_key seller_ok
is_usable ext o =
    not (ltb_ℤ o.refund_after (pos 0)) && usable_key ext o.buyer && seller_ok ext o.seller

unfoldable pub marked_offer : Externals → Templates → Tx → Option OfferState
unfolding marked split offer_of_parts is_usable
marked_offer ext templates tx = do
  rest ← marked (codes "kchat:1:offer:") tx.payload
  o ← offer_of_parts ext templates.offer.state_len (split b':' rest)
  if is_usable ext o then some o else none

-- The first output that pays the offer's script and carries no covenant.
unfoldable pub pays_offer : Bytes → TxOutput → Bool
pays_offer spk o = elim o.covenant [ none ↦ o.script_public_key == spk | some _ ↦ false ]

unfoldable pub find_offer_output : Bytes → ℕ → List TxOutput → Option (ℕ × ℕ)
unfolding pays_offer
find_offer_output spk i [] = none
find_offer_output spk i (o ∷ outputs) =
    let rest = find_offer_output spk (suc i) outputs in
    if pays_offer spk o then some (i, o.value) else rest

unfoldable pub apply_offer_marker : Externals → Templates → Tx → Utxos → Utxos × List Event
unfolding marked_offer find_offer_output event of_word
apply_offer_marker ext templates tx utxos = elim (marked_offer ext templates tx) [
  | none ↦ (utxos, [])
  | some o ↦ elim (find_offer_output (offer_spk ext templates o) 0 tx.outputs) [
    | none ↦ (utxos, [])
    | some (i, value) ↦
        let e = event tx "offer" o.key in
        (
          insert (record { txid = tx.id; index = i % 2 ^ 32 }) (offer o) utxos,
          record e { to = some o.buyer; from = o.seller; price = some (of_word value) } ∷ [],
        )
  ]
]

-- The order key of a profile.
unfoldable pub is_newer : Tx → Option ProfileRow → Bool
unfolding bytes_lt
is_newer tx none = true
is_newer tx (some row) =
    ltb row.daa tx.accepting_daa || (row.daa == tx.accepting_daa && bytes_lt row.tx_id tx.id)

unfoldable pub first_script : List TxOutput → Option Bytes
first_script [] = none
first_script (o ∷ _) = some o.script_public_key

-- A self-send from `addr`.
unfoldable pub spends_from : Bytes → List TxInput → Bool
unfolding any
spends_from addr inputs = any (λ i. not (i.spent_script == []) && i.spent_script == addr) inputs

-- The record of a valid self-send that is newer than the one held.
unfoldable pub accepted_profile : Externals → Tx → Profiles → Option (Bytes × ProfileRow)
accepted_profile ext tx profiles = do
  json ← marked (codes "kchat:1:profile:") tx.payload
  _ ← parse_profile ext json
  addr ← first_script tx.outputs
  if spends_from addr tx.inputs && is_newer tx (lookup addr profiles)
      then some (addr, record { json = json; daa = tx.accepting_daa; tx_id = tx.id })
      else none

-- The new profiles, and the address with what it held before.
unfoldable pub apply_profile :
    Externals → Tx → Profiles → Profiles × Option (Bytes × Option ProfileRow)
unfolding accepted_profile
apply_profile ext tx profiles = elim (accepted_profile ext tx profiles) [
  | none ↦ (profiles, none)
  | some (addr, row) ↦ (insert addr row profiles, some (addr, lookup addr profiles))
]
