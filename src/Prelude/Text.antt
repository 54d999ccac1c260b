-- ===== src/Prelude/Text.antt =====
-- Text as the bytes of its UTF-8 form: what the program uses of Rust's `str`.
use Prim.Native.Nat.{ℕ, zero, suc, ◌+◌, ◌-◌, ◌*◌, ◌/◌, ◌%◌}
use Prim.Native.Char.{code}
use Prim.Native.String.{String}
use mathlib.Core.Bool.{Bool, true, false, ◌&&◌, ◌||◌}
use mathlib.Core.List.{List, [], ◌∷◌, ◌++◌}
use mathlib.Core.Option.{Option, none, some}
use ka_chat_indexer.Prelude.Tests.{ltb, leb, if◌then◌else◌, ◌>>=◌}
use ka_chat_indexer.Prelude.Lists.{Bytes}
use ka_chat_indexer.Prelude.Equality.{◌==◌, nat_eq}
use ka_chat_indexer.Prelude.Int.{ℤ, pos, negsuc}

-- The bytes of an ASCII literal.
abbrev pub codes : String → Bytes
codes String.[] = []
codes (String.◌∷◌ c s) = code c ∷ codes s

-- `str::strip_prefix`.
unfoldable pub strip_prefix : Bytes → Bytes → Option Bytes
strip_prefix [] s = some s
strip_prefix (p ∷ ps) [] = none
strip_prefix (p ∷ ps) (c ∷ s) = let rest = strip_prefix ps s in if p == c then rest else none

-- `str::starts_with`.
unfoldable pub starts_with : Bytes → Bytes → Bool
starts_with [] s = true
starts_with (p ∷ ps) [] = false
starts_with (p ∷ ps) (c ∷ s) = p == c && starts_with ps s

push_front : ℕ → List Bytes → List Bytes
push_front c [] = (c ∷ []) ∷ []
push_front c (part ∷ parts) = (c ∷ part) ∷ parts

-- `str::split` on a one-byte separator: never empty.
unfoldable pub split : ℕ → Bytes → List Bytes
unfolding push_front
split sep [] = [] ∷ []
split sep (c ∷ s) = let rest = split sep s in if c == sep then [] ∷ rest else push_front c rest

is_tail : ℕ → Bool
is_tail c = leb 0x80 c && leb c 0xbf

-- The second byte that may follow a leading byte of three or four bytes: no overlong form, no
-- surrogate, nothing above U+10FFFF.
second_ok : ℕ → ℕ → Bool
unfolding is_tail
second_ok a b =
    if a == 0xe0
    then leb 0xa0 b && leb b 0xbf
    else if a == 0xed
    then leb 0x80 b && leb b 0x9f
    else if a == 0xf0
    then leb 0x90 b && leb b 0xbf
    else if a == 0xf4
    then leb 0x80 b && leb b 0x8f
    else is_tail b

-- `str::from_utf8(…).is_ok()`.
unfoldable pub is_utf8 : Bytes → Bool
unfolding is_tail second_ok
is_utf8 [] = true
is_utf8 (a ∷ []) = ltb a 0x80
is_utf8 (a ∷ b ∷ []) = (ltb a 0x80 && ltb b 0x80) || (leb 0xc2 a && leb a 0xdf && is_tail b)
is_utf8 (a ∷ b ∷ c ∷ []) =
    let one = is_utf8 (b ∷ c ∷ []) in
    let two = is_utf8 (c ∷ []) in
    if ltb a 0x80
    then one
    else if leb 0xc2 a && leb a 0xdf
    then is_tail b && two
    else leb 0xe0 a && leb a 0xef && second_ok a b && is_tail c
is_utf8 (a ∷ b ∷ c ∷ d ∷ s) =
    let one = is_utf8 (b ∷ c ∷ d ∷ s) in
    let two = is_utf8 (c ∷ d ∷ s) in
    let three = is_utf8 (d ∷ s) in
    let four = is_utf8 s in
    if ltb a 0x80
    then one
    else if leb 0xc2 a && leb a 0xdf
    then is_tail b && two
    else if leb 0xe0 a && leb a 0xef
    then second_ok a b && is_tail c && three
    else leb 0xf0 a && leb a 0xf4 && second_ok a b && is_tail c && is_tail d && four

is_digit : ℕ → Bool
is_digit c = leb b'0' c && leb c b'9'

digits_value : ℕ → Bytes → Option ℕ
unfolding is_digit
digits_value n [] = some n
digits_value n (c ∷ s) =
    let rest = digits_value (n * 10 + (c - b'0')) s in if is_digit c then rest else none

negated : ℕ → ℤ
negated zero = pos 0
negated (suc n) = negsuc n

-- `str::parse::<i64>`: an optional sign, then at least one decimal digit, in range.
unfoldable pub parse_i64 : Bytes → Option ℤ
unfolding digits_value negated
parse_i64 [] = none
parse_i64 (c ∷ []) = do n ← digits_value 0 (c ∷ []); some (pos n)
parse_i64 (c ∷ d ∷ s) =
    if c == b'-'
    then (do
      n ← digits_value 0 (d ∷ s)
      if leb n 0x8000000000000000 then some (negated n) else none)
    else if c == b'+'
    then (do n ← digits_value 0 (d ∷ s); if ltb n 0x8000000000000000 then some (pos n) else none)
    else do n ← digits_value 0 (c ∷ d ∷ s); if ltb n 0x8000000000000000 then some (pos n) else none

-- `str::parse::<u64>`: an optional `+`, then at least one decimal digit, in range.
unfoldable pub parse_u64 : Bytes → Option ℕ
unfolding digits_value
parse_u64 [] = none
parse_u64 (c ∷ []) = digits_value 0 (c ∷ [])
parse_u64 (c ∷ d ∷ s) = do
  n ← digits_value 0 (if c == b'+' then d ∷ s else c ∷ d ∷ s)
  if ltb n 0x10000000000000000 then some n else none

-- What stands before and after the first `sep`, found by `iter().position`.
unfoldable pub split_once : ℕ → Bytes → Option (Bytes × Bytes)
split_once sep [] = none
split_once sep (c ∷ s) =
    let rest = split_once sep s in
    if c == sep then some ([], s) else (do (before, after) ← rest; some (c ∷ before, after))

-- `str::to_lowercase` on ASCII.
unfoldable pub lowercase : Bytes → Bytes
lowercase [] = []
lowercase (c ∷ s) = (if leb b'A' c && leb c b'Z' then c + 32 else c) ∷ lowercase s

-- `str::contains`.
unfoldable pub contains : Bytes → Bytes → Bool
unfolding starts_with
contains p [] = starts_with p []
contains p (c ∷ s) = let rest = contains p s in starts_with p (c ∷ s) || rest

-- `chars().count()`: the bytes that start a character.
unfoldable pub char_count : Bytes → ℕ
unfolding is_tail
char_count [] = 0
char_count (c ∷ s) = let rest = char_count s in if is_tail c then rest else rest + 1

digits_from : ℕ → ℕ → Bytes → Bytes
digits_from zero n acc = acc
digits_from (suc fuel) n acc =
    let shown = (b'0' + n % 10) ∷ acc in if ltb n 10 then shown else digits_from fuel (n / 10) shown

-- `{}` of a number below 10^20.
unfoldable pub show_nat : ℕ → Bytes
unfolding digits_from
show_nat n = digits_from 20 n []

-- `Ord` on byte strings.
unfoldable pub bytes_lt : Bytes → Bytes → Bool
bytes_lt [] [] = false
bytes_lt [] (y ∷ ys) = true
bytes_lt (x ∷ xs) [] = false
bytes_lt (x ∷ xs) (y ∷ ys) = ltb x y || (x == y && bytes_lt xs ys)

-- The bytes of a white space character at the front, or 0 (`char::is_whitespace`).
space_length : Bytes → ℕ
space_length [] = 0
space_length (a ∷ []) = if (leb 9 a && leb a 13) || a == 32 then 1 else 0
space_length (a ∷ b ∷ []) =
    if (leb 9 a && leb a 13) || a == 32
    then 1
    else if a == 0xc2 && ((b == 0x85) || (b == 0xa0))
    then 2
    else 0
space_length (a ∷ b ∷ c ∷ s) =
    if (leb 9 a && leb a 13) || a == 32
    then 1
    else if a == 0xc2 && ((b == 0x85) || (b == 0xa0))
    then 2
    else if (a == 0xe1 && b == 0x9a && c == 0x80)
        || (a == 0xe2 && b == 0x80 && (leb c 0x8a || (c == 0xa8) || (c == 0xa9) || (c == 0xaf)))
        || (a == 0xe2 && b == 0x81 && c == 0x9f)
        || (a == 0xe3 && b == 0x80 && c == 0x80)
    then 3
    else 0

add_part : Bytes → List Bytes → List Bytes
add_part [] parts = parts
add_part (c ∷ s) parts = (c ∷ s) ∷ parts

-- `skip` bytes of a white space character are left.
split_spaces : ℕ → Bytes → Bytes → List Bytes
unfolding space_length add_part
split_spaces skip [] part = add_part part []
split_spaces (suc skip) (c ∷ s) part = split_spaces skip s part
split_spaces zero (c ∷ s) part = elim (space_length (c ∷ s)) [
  | zero ↦ split_spaces 0 s (part ++ (c ∷ []))
  | suc more ↦ add_part part (split_spaces more s [])
]

-- `str::split_whitespace`, of UTF-8.
unfoldable pub split_whitespace : Bytes → List Bytes
unfolding split_spaces
split_whitespace s = split_spaces 0 s []
