-- ===== src/Names/Moves/Split.antt =====
-- Transitions together: a split and its merge, the status of a name.
use ka_chat_indexer.Prelude.{◌≡◌, refl, ◌⊎◌, Bytes, arith}
use ka_chat_indexer.Prelude.Int.{ℤ, IsI64, ◌≤ℤ◌, ◌<ℤ◌, ◌+ℤ◌, add_i64, wrap_i64_of_IsI64}
use ka_chat_indexer.Names.Externals.{Externals}
use ka_chat_indexer.Names.States.{GapState}
use ka_chat_indexer.Names.Moves.{
  register_with_period, merge_gaps, name_status, active, grace, lapsed,
}

-- The two halves that a registration leaves meet at the key of the name, the name has that key, and
-- merging the halves gives the gap that was split.
pub merge_gaps-register :
    (ext : Externals) (g : GapState) (label owner : Bytes) (now years period : ℤ)
    → let (left, right, nm) = register_with_period ext g label owner now years period in
      (left.hi ≡ nm.key) × (right.lo ≡ nm.key) × (merge_gaps left right ≡ g)
unfolding register_with_period merge_gaps
merge_gaps-register ext g label owner now years period = (refl, refl, refl)

add_i64-IsI64 : (a b : ℤ) → IsI64 (a +ℤ b) → add_i64 a b ≡ a +ℤ b
unfolding add_i64
add_i64-IsI64 a b h = wrap_i64_of_IsI64 (a +ℤ b) h

-- A name is active exactly before its expiry, in grace exactly from it and before the end of the
-- grace period, and lapsed from then on, where the end does not overflow.
pub name_status_lem :
    (expires grace_ms now : ℤ)
    → IsI64 (expires +ℤ grace_ms)
    → ((name_status expires grace_ms now ≡ active) × (now <ℤ expires))
      ⊎ (((name_status expires grace_ms now ≡ grace)
            × (expires ≤ℤ now)
            × (now <ℤ expires +ℤ grace_ms))
          ⊎ ((name_status expires grace_ms now ≡ lapsed)
              × (expires ≤ℤ now)
              × (expires +ℤ grace_ms ≤ℤ now)))
unfolding name_status
name_status_lem expires grace_ms now h = ground (arith, add_i64-IsI64 expires grace_ms h)
