-- ===== src/Names/Script.antt =====
-- kachat-names/src/lib.rs: signature scripts, which hold pushes only.
pub mod Fuel
pub mod RoundTrip
use Prim.Native.Nat.{bit_and, bit_or}
use ka_chat_indexer.Prelude.{
  ℕ, zero, suc, ◌-◌, ◌*◌, ◌%◌, ◌^◌, ◌&&◌, List, [], ◌∷◌, ◌++◌, Option, none, some, Bytes, length,
  get_or, take, drop, ltb, leb, ◌==◌, nat_eq, if◌then◌else◌, ◌>>=◌,
}
use ka_chat_indexer.Prelude.Int.{ℤ, pos, negsuc, of_word, neg_i64}
use ka_chat_indexer.Names.Num8.{from_le_bytes}

pub data Push : Type 0 where
  num : ℤ → Push
  data_push : Bytes → Push

-- `result |= (byte as i64) << (8 * i)` on the bit patterns: a shift takes its amount modulo 64.
unfoldable pub or_bytes : ℕ → Bytes → ℕ → ℕ
or_bytes i [] result = result
or_bytes i (byte ∷ b) result =
    or_bytes (suc i) b (bit_or result ((byte * 2 ^ ((8 * i) % 64)) % 2 ^ 64))

unfoldable pub decode_script_number : Bytes → ℤ
unfolding or_bytes of_word neg_i64
decode_script_number [] = pos 0
decode_script_number (byte ∷ rest) =
    let b : Bytes = byte ∷ rest in
    let result = or_bytes 0 b 0 in
    let top = length b - 1 in
    let mask = (0x80 * 2 ^ ((8 * top) % 64)) % 2 ^ 64 in
    if ltb 0 (bit_and (get_or b top 0) 0x80)
    then neg_i64 (of_word (bit_and result (2 ^ 64 - 1 - mask)))
    else of_word result

-- `Push::data`.
abbrev pub push_data : Push → Option Bytes
push_data (data_push d) = some d
push_data (num n) = none

unfoldable pub as_i64 : Push → Option ℤ
as_i64 (num n) = some n
as_i64 (data_push d) = some (decode_script_number d)

-- `script.get(i..i + n)?`, on what follows position `i`; then `i += n`.
unfoldable pub take_data : ℕ → Bytes → Option (Push × Bytes)
take_data n rest = if leb n (length rest) then some (data_push (take n rest), drop n rest) else none

-- A little-endian count of `k` bytes.
unfoldable pub take_count : ℕ → Bytes → Option (ℕ × Bytes)
unfolding from_le_bytes
take_count k rest =
    if leb k (length rest) then some (from_le_bytes (take k rest), drop k rest) else none

unfoldable pub take_counted : Option (ℕ × Bytes) → Option (Push × Bytes)
unfolding take_data
take_counted none = none
take_counted (some (n, rest)) = take_data n rest

-- The body of the loop: the token that begins with `op`, and what follows it.
unfoldable pub next_push : ℕ → Bytes → Option (Push × Bytes)
unfolding take_data take_count take_counted
next_push op rest =
    if op == 0x00
    then some (num (pos 0), rest)
    else if op == 0x4f
    then some (num (negsuc 0), rest)
    else if leb 0x51 op && leb op 0x60
    then some (num (pos (op - 0x50)), rest)
    else if leb 0x01 op && leb op 0x4b
    then take_data op rest
    else if op == 0x4c
    then take_counted (take_count 1 rest)
    else if op == 0x4d
    then take_counted (take_count 2 rest)
    else if op == 0x4e
    then take_counted (take_count 4 rest)
    else none

-- The loop over what is left of the script, with fuel for its rounds.
unfoldable pub parse_loop : ℕ → Bytes → List Push → Option (List Push)
parse_loop fuel [] out = some out
parse_loop zero (op ∷ rest) out = none
parse_loop (suc fuel) (op ∷ rest) out = elim (next_push op rest) [
  | none ↦ none
  | some (p, rest') ↦ parse_loop fuel rest' (out ++ (p ∷ []))
]

unfoldable pub parse_pushes : Bytes → Option (List Push)
unfolding parse_loop next_push
parse_pushes script = parse_loop (length script) script []

pub record SigScript : Type 0 where
  pub args : List Push
  pub dispatch_tag : Bytes
  pub redeem : Bytes

-- `Vec::pop`: what is left, and the last element.
unfoldable pub pop {ℓ} : {A : Type ℓ} → List A → Option (List A × A)
pop [] = none
pop (x ∷ []) = some ([], x)
pop (x ∷ y ∷ xs) = elim (pop (y ∷ xs)) [ none ↦ none | some (rest, z) ↦ some (x ∷ rest, z) ]

unfoldable pub decode_sig_script : Bytes → Option SigScript
unfolding parse_pushes pop
decode_sig_script script = do
  pushes ← parse_pushes script
  (rest, last) ← pop pushes
  redeem ← push_data last
  (args, tag_push) ← pop rest
  tag ← push_data tag_push
  if length tag == 4
      then some (record { args = args; dispatch_tag = tag; redeem = redeem })
      else none
