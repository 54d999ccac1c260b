-- ===== src/Names/Moves.antt =====
-- kachat-names/src/transition.rs: the new states that an entry produces, and the status of a name.
pub mod Split
use ka_chat_indexer.Prelude.{Bytes, if◌then◌else◌}
use ka_chat_indexer.Prelude.Int.{ℤ, pos, add_i64, mul_i64, ltb_ℤ}
use ka_chat_indexer.Names.Externals.{Externals}
use ka_chat_indexer.Names.Hashes.{name_key, pad_name}
use ka_chat_indexer.Names.States.{GapState, NameState, OfferState}
use ka_chat_indexer.Names.Transition.{year_ms}

module _ (ext : Externals) where
  unfoldable pub register_with_period :
      GapState → Bytes → Bytes → ℤ → ℤ → ℤ → GapState × GapState × NameState
  unfolding name_key pad_name add_i64 mul_i64
  register_with_period gap name owner_key now_ms years period_ms =
      let key = name_key ext name in
      (
        record { lo = gap.lo; hi = key },
        record { lo = key; hi = gap.hi },
        record {
          key = key;
          name = pad_name name;
          owner = owner_key;
          price = pos 0;
          period_start = now_ms;
          expires_at = add_i64 now_ms (mul_i64 years period_ms);
        },
      )

  unfoldable pub register : GapState → Bytes → Bytes → ℤ → ℤ → GapState × GapState × NameState
  unfolding register_with_period
  register gap name owner_key now_ms years =
      register_with_period gap name owner_key now_ms years year_ms

  unfoldable pub import_name : GapState → Bytes → Bytes → ℤ → ℤ → GapState × GapState × NameState
  unfolding name_key pad_name
  import_name gap name owner_key period_start expires_at =
      let key = name_key ext name in
      (
        record { lo = gap.lo; hi = key },
        record { lo = key; hi = gap.hi },
        record {
          key = key;
          name = pad_name name;
          owner = owner_key;
          price = pos 0;
          period_start = period_start;
          expires_at = expires_at;
        },
      )

unfoldable pub name_transfer : NameState → Bytes → NameState
name_transfer name new_owner = record name { owner = new_owner; price = pos 0 }

unfoldable pub name_list : NameState → ℤ → NameState
name_list name price = record name { price = price }

unfoldable pub name_buy : NameState → Bytes → NameState
name_buy name new_owner = record name { owner = new_owner; price = pos 0 }

unfoldable pub name_renew_with_period : NameState → ℤ → ℤ → NameState
unfolding add_i64 mul_i64
name_renew_with_period name years period_ms = record name {
  period_start = name.expires_at;
  expires_at = add_i64 name.expires_at (mul_i64 years period_ms);
}

unfoldable pub name_renew : NameState → ℤ → NameState
unfolding name_renew_with_period
name_renew name years = name_renew_with_period name years year_ms

unfoldable pub name_extend_with_period : NameState → ℤ → ℤ → NameState
unfolding add_i64 mul_i64
name_extend_with_period name years period_ms = record name {
  expires_at = add_i64 name.expires_at (mul_i64 years period_ms);
}

unfoldable pub name_extend : NameState → ℤ → NameState
unfolding name_extend_with_period
name_extend name years = name_extend_with_period name years year_ms

unfoldable pub offer_accept : NameState → OfferState → NameState
offer_accept name offer = record name { owner = offer.buyer; price = pos 0 }

unfoldable pub merge_gaps : GapState → GapState → GapState
merge_gaps lo_gap hi_gap = record { lo = lo_gap.lo; hi = hi_gap.hi }

pub data NameStatus : Type 0 where
  active grace lapsed : NameStatus

unfoldable pub name_status : ℤ → ℤ → ℤ → NameStatus
name_status expires_at grace_ms now_ms =
    if ltb_ℤ now_ms expires_at
    then active
    else if ltb_ℤ now_ms (add_i64 expires_at grace_ms)
    then grace
    else lapsed
