-- ===== src/Prelude/ByteOrder.antt =====
-- The order of byte strings is strict.
use mathlib.Core.Path.{◌≡◌, refl}
use Prim.Native.Nat.{ℕ, ◌<◌}
use mathlib.Core.Logic.{inl, inr}
use mathlib.Core.Bool.{true, false}
use ka_chat_indexer.Prelude.Tests.{ltb, ltb→lt, Bool-cases}
use mathlib.Core.List.{[], ◌∷◌}
use native.Mathlib.Omega.{arith}
use ka_chat_indexer.Prelude.Lists.{Bytes}
use ka_chat_indexer.Prelude.Text.{bytes_lt}

pub bytes_lt_asym : (a b : Bytes) → bytes_lt a b ≡ true → bytes_lt b a ≡ false
unfolding bytes_lt
bytes_lt_asym [] [] h = cc
bytes_lt_asym [] (y ∷ b) h = refl
bytes_lt_asym (x ∷ a) [] h = cc
bytes_lt_asym (x ∷ a) (y ∷ b) h = ground (arith, bytes_lt_asym a b)

pub bytes_lt_trans :
    (a b c : Bytes) → bytes_lt a b ≡ true → bytes_lt b c ≡ true → bytes_lt a c ≡ true
unfolding bytes_lt
bytes_lt_trans [] [] [] h k = k
bytes_lt_trans [] (y ∷ b) [] h k = cc
bytes_lt_trans [] b (z ∷ c) h k = refl
bytes_lt_trans (x ∷ a) [] c h k = cc
bytes_lt_trans (x ∷ a) (y ∷ b) [] h k = cc
bytes_lt_trans (x ∷ a) (y ∷ b) (z ∷ c) h k = ground (arith, bytes_lt_trans a b c)

-- The first is a proper prefix of the second, or its byte is the smaller one where they differ.
pub data TextLess : Bytes → Bytes → Type 0 where
  prefix : {y : ℕ} {b : Bytes} → TextLess [] (y ∷ b)
  smaller : {x y : ℕ} {a b : Bytes} → x < y → TextLess (x ∷ a) (y ∷ b)
  next : {x : ℕ} {a b : Bytes} → TextLess a b → TextLess (x ∷ a) (x ∷ b)

pub TextLess-bytes_lt : {a b : Bytes} → TextLess a b → bytes_lt a b ≡ true
unfolding bytes_lt
TextLess-bytes_lt prefix = refl
TextLess-bytes_lt (smaller h) = ground (arith, h)
TextLess-bytes_lt (next {x} {a} {b} h) = let r = TextLess-bytes_lt h in ground (arith, r)

pub bytes_lt-TextLess : (a b : Bytes) → bytes_lt a b ≡ true → TextLess a b
unfolding bytes_lt
bytes_lt-TextLess [] [] h = ground (arith, h)
bytes_lt-TextLess [] (y ∷ b) h = prefix
bytes_lt-TextLess (x ∷ a) [] h = ground (arith, h)
bytes_lt-TextLess (x ∷ a) (y ∷ b) h = elim (Bool-cases (ltb x y)) [
  | inl p ↦ smaller (ltb→lt x y p)
  | inr p ↦
      let same : y ≡ x = ground (arith, h, p) in
      let rest : bytes_lt a b ≡ true = ground (arith, h, p) in
      rw same (next (bytes_lt-TextLess a b rest))
]
