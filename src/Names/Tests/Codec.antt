-- ===== src/Names/Tests/Codec.antt =====
-- The codec's theorems at concrete inputs.
use ka_chat_indexer.Prelude.{◌≡◌, refl, [], ◌∷◌, some, replicate, ◌⊎◌, arith}
use ka_chat_indexer.Prelude.Int.{pos, negsuc, ◌+ℤ◌, ◌<ℤ◌, ◌≤ℤ◌}
use ka_chat_indexer.Prelude.Text.{codes}
use ka_chat_indexer.Names.Num8.{num8_encode, num8_decode}
use ka_chat_indexer.Names.Num8.RoundTrip.{num8_decode-num8_encode}
use ka_chat_indexer.Names.Script.{num, data_push, parse_loop, parse_pushes, decode_sig_script}
use ka_chat_indexer.Names.Script.Fuel.{parse_loop-fuel}
use ka_chat_indexer.Names.Script.RoundTrip.{
  encode_pushes, parse_pushes-encode_pushes, decode_sig_script-encode_pushes,
}
use ka_chat_indexer.Names.States.{
  NameState, OfferState, encode_gap, decode_gap, encode_name, decode_name, encode_offer,
  decode_offer, name_bytes,
}
use ka_chat_indexer.Names.States.RoundTrip.{decode_states-encode_states}
use ka_chat_indexer.Names.Hashes.{is_valid_name, pad_name}
use ka_chat_indexer.Names.Hashes.Padding.{name_bytes-pad_name}
use ka_chat_indexer.Names.Moves.{
  merge_gaps, register_with_period, name_status, active, grace, lapsed,
}
use ka_chat_indexer.Names.Moves.Split.{merge_gaps-register, name_status_lem}
use ka_chat_indexer.Names.Tests.Data.{toy, genesis_gap, owner_key}

abbrev alice : NameState
alice = record {
  key = replicate 32 1;
  name = pad_name (codes "alice");
  owner = owner_key;
  price = pos 500;
  period_start = pos 1000;
  expires_at = pos 2000;
}

abbrev alice_offer : OfferState
alice_offer = record {
  key = replicate 32 1;
  buyer = owner_key;
  seller = some (replicate 32 6);
  refund_after = negsuc 4;
}

num8_decode-num8_encode_example : num8_decode (num8_encode (negsuc 299)) ≡ negsuc 299
num8_decode-num8_encode_example = num8_decode-num8_encode (negsuc 299) (omega arith)

parse_pushes-encode_pushes_example :
    parse_pushes (encode_pushes (num (pos 3) ∷ data_push (replicate 80 7) ∷ []))
    ≡ some (num (pos 3) ∷ data_push (replicate 80 7) ∷ [])
parse_pushes-encode_pushes_example =
    parse_pushes-encode_pushes (num (pos 3) ∷ data_push (replicate 80 7) ∷ []) (omega arith)

decode_sig_script-encode_pushes_example :
    decode_sig_script
      (encode_pushes (num (pos 3) ∷ data_push (replicate 4 7) ∷ data_push (9 ∷ []) ∷ []))
    ≡ some (record { args = num (pos 3) ∷ []; dispatch_tag = replicate 4 7; redeem = 9 ∷ [] })
decode_sig_script-encode_pushes_example =
    decode_sig_script-encode_pushes (num (pos 3) ∷ []) (replicate 4 7) (9 ∷ []) (omega arith) refl

parse_loop-fuel_example : parse_loop 9 (1 ∷ 5 ∷ []) [] ≡ parse_loop 2 (1 ∷ 5 ∷ []) []
parse_loop-fuel_example = parse_loop-fuel 9 2 (1 ∷ 5 ∷ []) [] (omega arith) (omega arith)

decode_states-encode_states_example :
    (decode_gap (encode_gap genesis_gap) ≡ some genesis_gap)
    × (decode_name (encode_name alice) ≡ some alice)
    × (decode_offer (encode_offer alice_offer) ≡ some alice_offer)
unfolding pad_name
decode_states-encode_states_example =
    decode_states-encode_states genesis_gap alice alice_offer (record { lo = refl; hi = refl })
      (record {
        key = refl;
        name = refl;
        owner = refl;
        price = omega arith;
        period_start = omega arith;
        expires_at = omega arith;
      })
      (record { key = refl; buyer = refl; seller = refl; refund_after = omega arith })

name_bytes-pad_name_example : name_bytes alice ≡ codes "alice"
unfolding is_valid_name
name_bytes-pad_name_example = name_bytes-pad_name alice (codes "alice") refl refl

merge_gaps-register_example :
    let (left, right, nm) =
      register_with_period toy genesis_gap (codes "alice") owner_key (pos 5) (pos 2) (pos 9) in
    (left.hi ≡ nm.key) × (right.lo ≡ nm.key) × (merge_gaps left right ≡ genesis_gap)
merge_gaps-register_example =
    merge_gaps-register toy genesis_gap (codes "alice") owner_key (pos 5) (pos 2) (pos 9)

name_status_lem_example :
    ((name_status (pos 10) (pos 5) (pos 12) ≡ active) × (pos 12 <ℤ pos 10))
    ⊎ (((name_status (pos 10) (pos 5) (pos 12) ≡ grace)
          × (pos 10 ≤ℤ pos 12)
          × (pos 12 <ℤ pos 10 +ℤ pos 5))
        ⊎ ((name_status (pos 10) (pos 5) (pos 12) ≡ lapsed)
            × (pos 10 ≤ℤ pos 12)
            × (pos 10 +ℤ pos 5 ≤ℤ pos 12)))
unfolding ◌+ℤ◌
name_status_lem_example = name_status_lem (pos 10) (pos 5) (pos 12) (omega arith)
