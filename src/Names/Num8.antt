-- ===== src/Names/Num8.antt =====
-- kachat-names/src/lib.rs: `num8`, the fixed 8-byte sign-magnitude form of an integer in a state.
pub mod RoundTrip
use Prim.Native.Nat.{bit_and, bit_or}
use ka_chat_indexer.Prelude.{
  ℕ, zero, suc, ◌+◌, ◌*◌, ◌/◌, ◌%◌, ◌^◌, [], ◌∷◌, Bytes, get_or, set, ltb, if◌then◌else◌,
}
use ka_chat_indexer.Prelude.Int.{ℤ, pos, negsuc, ltb_ℤ, of_word, neg_i64}

-- `to_le_bytes` and `from_le_bytes` of an unsigned integer of `k` bytes.
unfoldable pub le_bytes : ℕ → ℕ → Bytes
le_bytes zero v = []
le_bytes (suc k) v = (v % 256) ∷ le_bytes k (v / 256)

unfoldable pub from_le_bytes : Bytes → ℕ
from_le_bytes [] = 0
from_le_bytes (b ∷ bs) = b + 256 * from_le_bytes bs

abbrev pub unsigned_abs : ℤ → ℕ
unsigned_abs (pos n) = n
unsigned_abs (negsuc n) = suc n

unfoldable pub num8_encode : ℤ → Bytes
unfolding le_bytes
num8_encode v =
    let out = le_bytes 8 (unsigned_abs v) in
    if ltb_ℤ v (pos 0) then set out 7 (bit_or (get_or out 7 0) 0x80) else out

unfoldable pub num8_decode : Bytes → ℤ
unfolding from_le_bytes of_word neg_i64
num8_decode b =
    let negative = ltb 0 (bit_and (get_or b 7 0) 0x80) in
    let bytes = set b 7 (bit_and (get_or b 7 0) 0x7f) in
    let mag = of_word (from_le_bytes bytes % 2 ^ 64) in if negative then neg_i64 mag else mag
