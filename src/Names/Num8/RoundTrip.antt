-- ===== src/Names/Num8/RoundTrip.antt =====
-- The `num8` form, written and read.
use Prim.Native.Nat.{bit_and, bit_or}
use ka_chat_indexer.Prelude.{
  ℕ, zero, suc, ◌+◌, ◌*◌, ◌/◌, ◌%◌, ◌^◌, ◌<◌, ◌≡◌, refl, ap, ◌∙◌, Bool, true, ◌&&◌, length, get_or,
  set, ltb, ◌==◌, nat_eq, nat_beq_iff, if◌then◌else◌, arith,
}
use ka_chat_indexer.Prelude.Int.{ℤ, pos, negsuc, of_word, neg_i64}
use ka_chat_indexer.Names.Num8.{le_bytes, from_le_bytes, num8_encode, num8_decode}

-- Whether a test passes on each number under a bound: the bounds here are sizes of a byte.
passes : (ℕ → Bool) → ℕ → Bool
passes test zero = true
passes test (suc bound) = passes test bound && test bound

passes-lt :
    (test : ℕ → Bool) (bound : ℕ)
    → passes test bound ≡ true
    → (byte : ℕ) → byte < bound
    → test byte ≡ true
unfolding passes
passes-lt test zero all byte below = absurd (omega arith)
passes-lt test (suc bound) all byte below = ground (arith, passes-lt test bound (ground arith) byte)

sign_table : passes (λ x. bit_and x 0x80 == (x / 128 * 128)) 256 ≡ true
unfolding passes
sign_table = refl

rest_table : passes (λ x. bit_and x 0x7f == (x % 128)) 256 ≡ true
unfolding passes
rest_table = refl

set_table : passes (λ x. bit_or x 0x80 == (x + 128)) 128 ≡ true
unfolding passes
set_table = refl

-- The sign bit of a byte, the byte without it, and the byte with it.
pub bit_and_sign : (x : ℕ) → x < 256 → bit_and x 0x80 ≡ x / 128 * 128
bit_and_sign x h = (nat_beq_iff _ _).0 (passes-lt _ 256 sign_table x h)

pub bit_and_rest : (x : ℕ) → x < 256 → bit_and x 0x7f ≡ x % 128
bit_and_rest x h = (nat_beq_iff _ _).0 (passes-lt _ 256 rest_table x h)

pub bit_or_sign : (x : ℕ) → x < 128 → bit_or x 0x80 ≡ x + 128
bit_or_sign x h = (nat_beq_iff _ _).0 (passes-lt _ 128 set_table x h)

-- The magnitude of an integer of a state: below 2 ^ 63, so not the least `i64`.
abbrev pub IsNum8 : ℤ → Type 0
IsNum8 (pos n) = n < 2 ^ 63
IsNum8 (negsuc n) = suc n < 2 ^ 63

top_byte : ℕ → ℕ
top_byte n = n / 256 / 256 / 256 / 256 / 256 / 256 / 256 % 256

low_value : (n t : ℕ) → n < 2 ^ 63 → t ≡ top_byte n → from_le_bytes (set (le_bytes 8 n) 7 t) ≡ n
unfolding from_le_bytes le_bytes top_byte
low_value n t h e = omega arith

top_byte-lt : (n : ℕ) → n < 2 ^ 63 → top_byte n < 128
unfolding top_byte
top_byte-lt n h = omega arith

get_or-le_bytes : (n : ℕ) → get_or (le_bytes 8 n) 7 0 ≡ top_byte n
unfolding le_bytes top_byte
get_or-le_bytes n = refl

read_magnitude :
    (n t : ℕ)
    → t < 256
    → n < 2 ^ 63
    → t % 128 ≡ top_byte n
    → of_word (from_le_bytes (set (le_bytes 8 n) 7 (bit_and t 0x7f)) % 2 ^ 64) ≡ pos n
unfolding of_word
read_magnitude n t ht hn e =
    ap (λ m. of_word (m % 2 ^ 64))
      (ap (λ u. from_le_bytes (set (le_bytes 8 n) 7 u)) (bit_and_rest t ht)
        ∙ low_value n (t % 128) hn e)
    ∙ ground arith

-- The eight bytes of `n`, with `t` for the top one, decode to `n` or its opposite.
decode_bytes :
    (n t : ℕ)
    → t < 256
    → n < 2 ^ 63
    → t % 128 ≡ top_byte n
    → num8_decode (set (le_bytes 8 n) 7 t)
      ≡ (if ltb 0 (t / 128 * 128) then neg_i64 (pos n) else pos n)
unfolding num8_decode le_bytes
decode_bytes n t ht hn e =
    ap (λ x. if ltb 0 (bit_and t 0x80) then neg_i64 x else x) (read_magnitude n t ht hn e)
    ∙ ap (λ s. if ltb 0 s then neg_i64 (pos n) else pos n) (bit_and_sign t ht)

num8_encode_pos : (n : ℕ) → num8_encode (pos n) ≡ set (le_bytes 8 n) 7 (top_byte n)
unfolding num8_encode top_byte
num8_encode_pos n = ground arith

num8_encode_neg :
    (n : ℕ) → num8_encode (negsuc n) ≡ set (le_bytes 8 (suc n)) 7 (bit_or (top_byte (suc n)) 0x80)
unfolding num8_encode top_byte
num8_encode_neg n = ground arith

neg_i64-suc : (n : ℕ) → suc n < 2 ^ 63 → neg_i64 (pos (suc n)) ≡ negsuc n
unfolding neg_i64
neg_i64-suc n h = ground arith

-- Encoding an integer that `IsNum8` holds of, above -2^63 and below 2^63, into eight bytes and
-- decoding them gives the integer.
pub num8_decode-num8_encode : (v : ℤ) → IsNum8 v → num8_decode (num8_encode v) ≡ v
num8_decode-num8_encode (pos n) h =
    let top = top_byte-lt n h in
    ap num8_decode (num8_encode_pos n)
    ∙ decode_bytes n (top_byte n) (omega (arith, top)) h (omega (arith, top))
    ∙ ground (arith, top)
num8_decode-num8_encode (negsuc n) h =
    let top = top_byte-lt (suc n) h in
    ap num8_decode
      (num8_encode_neg n ∙ ap (set (le_bytes 8 (suc n)) 7) (bit_or_sign (top_byte (suc n)) top))
    ∙ decode_bytes (suc n) (top_byte (suc n) + 128) (omega (arith, top)) h (omega (arith, top))
    ∙ ground (arith, top, neg_i64-suc n h)

pub length-num8_encode : (v : ℤ) → length (num8_encode v) ≡ 8
unfolding num8_encode
length-num8_encode (pos n) = ground arith
length-num8_encode (negsuc n) = ground arith
