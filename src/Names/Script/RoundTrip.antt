-- ===== src/Names/Script/RoundTrip.antt =====
-- Signature scripts, written and read.
use ka_chat_indexer.Prelude.{
  ℕ, zero, suc, ◌+◌, ◌/◌, ◌^◌, ◌≤◌, ◌<◌, ◌≡◌, refl, sym, ap, ◌∙◌, inl, inr, List, [], ◌∷◌, ◌++◌,
  some, Bytes, All, length, length-append, take_append, drop_append, leb, ◌==◌, nat_eq,
  if◌then◌else◌, Bool-cases, arith,
}
use mathlib.Core.List.{append-nil, append_assoc}
use ka_chat_indexer.Prelude.Int.{pos, negsuc}
use ka_chat_indexer.Names.Num8.{le_bytes, from_le_bytes}
use ka_chat_indexer.Names.Script.Fuel.{parse_loop-some}
use ka_chat_indexer.Names.Script.{
  Push, num, data_push, take_data, take_count, take_counted, next_push, parse_loop, parse_pushes,
  pop, decode_sig_script,
}

-- The script form of a push: its opcode, and what follows. A count takes the least opcode.
unfoldable pub push_op : Push → ℕ
push_op (num (pos n)) = if n == 0 then 0x00 else 0x50 + n
push_op (num (negsuc n)) = 0x4f
push_op (data_push d) =
    if leb (length d) 75
    then length d
    else if leb (length d) 255
    then 0x4c
    else if leb (length d) 65535
    then 0x4d
    else 0x4e

unfoldable pub push_tail : Push → Bytes
unfolding le_bytes
push_tail (num n) = []
push_tail (data_push d) =
    if leb (length d) 75
    then d
    else if leb (length d) 255
    then le_bytes 1 (length d) ++ d
    else if leb (length d) 65535
    then le_bytes 2 (length d) ++ d
    else le_bytes 4 (length d) ++ d

unfoldable pub encode_pushes : List Push → Bytes
unfolding push_op push_tail
encode_pushes [] = []
encode_pushes (p ∷ ps) = push_op p ∷ (push_tail p ++ encode_pushes ps)

-- The pushes that have a script form: -1, 0 to 16, and data that is not empty and has a 32-bit
-- length (the empty string is written as the number 0).
abbrev pub IsPush : Push → Type 0
IsPush (num (pos n)) = n ≤ 16
IsPush (num (negsuc n)) = n ≡ 0
IsPush (data_push d) = (0 < length d) × (length d < 2 ^ 32)

take_data_append : (d rest : Bytes) → take_data (length d) (d ++ rest) ≡ some (data_push d, rest)
unfolding take_data
take_data_append d rest = ground (
  arith,
  length-append d rest,
  take_append d rest (length d) refl,
  drop_append d rest (length d) refl,
)

length-le_bytes : (k n : ℕ) → length (le_bytes k n) ≡ k
unfolding le_bytes
length-le_bytes zero n = refl
length-le_bytes (suc k) n = ap suc (length-le_bytes k (n / 256))

take_count_append :
    (k n : ℕ) (rest : Bytes)
    → take_count k (le_bytes k n ++ rest) ≡ some (from_le_bytes (le_bytes k n), rest)
unfolding take_count
take_count_append k n rest = ground (
  arith,
  length-append (le_bytes k n) rest,
  length-le_bytes k n,
  take_append (le_bytes k n) rest k (length-le_bytes k n),
  drop_append (le_bytes k n) rest k (length-le_bytes k n),
)

counted :
    (k : ℕ) (d rest : Bytes)
    → from_le_bytes (le_bytes k (length d)) ≡ length d
    → take_counted (take_count k ((le_bytes k (length d) ++ d) ++ rest)) ≡ some (data_push d, rest)
unfolding take_counted
counted k d rest e =
    ap (λ s. take_counted (take_count k s)) (append_assoc (le_bytes k (length d)) d rest)
    ∙ ap take_counted (take_count_append k (length d) (d ++ rest))
    ∙ ap (λ n. take_data n (d ++ rest)) e
    ∙ take_data_append d rest

from_le_bytes_one : (n : ℕ) → n < 256 → from_le_bytes (le_bytes 1 n) ≡ n
unfolding le_bytes from_le_bytes
from_le_bytes_one n h = omega arith

from_le_bytes_two : (n : ℕ) → n < 65536 → from_le_bytes (le_bytes 2 n) ≡ n
unfolding le_bytes from_le_bytes
from_le_bytes_two n h = omega arith

from_le_bytes_four : (n : ℕ) → n < 2 ^ 32 → from_le_bytes (le_bytes 4 n) ≡ n
unfolding le_bytes from_le_bytes
from_le_bytes_four n h = omega arith

next_push-data :
    (d rest : Bytes)
    → 0 < length d
    → length d < 2 ^ 32
    → next_push (push_op (data_push d)) (push_tail (data_push d) ++ rest) ≡ some (data_push d, rest)
unfolding next_push push_op push_tail
next_push-data d rest pos_len h = elim (Bool-cases (leb (length d) 75)) [
  | inl p ↦ rw p (ground (arith, take_data_append d rest))
  | inr p ↦ rw p (elim (Bool-cases (leb (length d) 255)) [
    | inl q ↦ rw q (counted 1 d rest (from_le_bytes_one (length d) (ground arith)))
    | inr q ↦ rw q (elim (Bool-cases (leb (length d) 65535)) [
      | inl u ↦ rw u (counted 2 d rest (from_le_bytes_two (length d) (ground arith)))
      | inr u ↦ rw u (counted 4 d rest (from_le_bytes_four (length d) h))
    ])
  ])
]

next_push-encode :
    (p : Push) (rest : Bytes)
    → IsPush p
    → next_push (push_op p) (push_tail p ++ rest) ≡ some (p, rest)
unfolding next_push push_op push_tail
next_push-encode (num (pos n)) rest h = ground arith
next_push-encode (num (negsuc n)) rest h = ground arith
next_push-encode (data_push d) rest h = next_push-data d rest h.0 h.1

parse_loop-encode :
    (ps : List Push) (fuel : ℕ) (out : List Push)
    → All IsPush ps
    → length (encode_pushes ps) ≤ fuel
    → parse_loop fuel (encode_pushes ps) out ≡ some (out ++ ps)
unfolding parse_loop encode_pushes
parse_loop-encode [] zero out h f = ap some (sym (append-nil out))
parse_loop-encode [] (suc fuel) out h f = ap some (sym (append-nil out))
parse_loop-encode (p ∷ ps) zero out h f = absurd (omega arith)
parse_loop-encode (p ∷ ps) (suc fuel) out h f =
    parse_loop-some fuel (push_op p) (push_tail p ++ encode_pushes ps) out p (encode_pushes ps)
      (next_push-encode p (encode_pushes ps) h.0)
    ∙ (parse_loop-encode ps fuel (out ++ (p ∷ [])) h.1
          (omega (arith, length-append (push_tail p) (encode_pushes ps)))
        ∙ ap some (append_assoc out (p ∷ []) ps))

-- Every list of pushes that have a script form is read back from its script.
pub parse_pushes-encode_pushes :
    (ps : List Push) → All IsPush ps → parse_pushes (encode_pushes ps) ≡ some ps
unfolding parse_pushes
parse_pushes-encode_pushes ps h =
    parse_loop-encode ps (length (encode_pushes ps)) [] h (omega arith)

pop-append {ℓ} : {A : Type ℓ} (xs : List A) (x : A) → pop (xs ++ x ∷ []) ≡ some (xs, x)
unfolding pop
pop-append [] x = refl
pop-append (y ∷ []) x = refl
pop-append (y ∷ z ∷ xs) x = rw (pop-append (z ∷ xs) x) refl

pop_two {ℓ} : {A : Type ℓ} (xs : List A) (x y : A) → pop (xs ++ x ∷ y ∷ []) ≡ some (xs ++ x ∷ [], y)
pop_two xs x y = ap pop (sym (append_assoc xs (x ∷ []) (y ∷ []))) ∙ pop-append (xs ++ x ∷ []) y

-- A signature script of arguments, a 4-byte dispatch tag and a redeem script decodes to the three,
-- if each has a script form.
pub decode_sig_script-encode_pushes :
    (args : List Push) (tag redeem : Bytes)
    → All IsPush (args ++ data_push tag ∷ data_push redeem ∷ [])
    → length tag ≡ 4
    → decode_sig_script (encode_pushes (args ++ data_push tag ∷ data_push redeem ∷ []))
      ≡ some (record { args = args; dispatch_tag = tag; redeem = redeem })
unfolding decode_sig_script
decode_sig_script-encode_pushes args tag redeem h four =
    simp
      (
        parse_pushes-encode_pushes (args ++ data_push tag ∷ data_push redeem ∷ []) h,
        pop_two args (data_push tag) (data_push redeem),
        pop-append args (data_push tag),
      )
      (ground arith)
