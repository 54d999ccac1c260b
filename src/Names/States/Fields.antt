-- ===== src/Names/States/Fields.antt =====
-- Reading a state's bytes at a position, from what stands there.
use ka_chat_indexer.Prelude.{
  ℕ, zero, suc, ◌+◌, ◌≡◌, refl, sym, ap, ◌∙◌, [], ◌∷◌, ◌++◌, some, Bytes, length, length-append,
  get_or, take, drop, take_append, drop_append, arith,
}
use ka_chat_indexer.Names.States.{take32, take8}

-- From position `n` on, the bytes are `s`.
abbrev pub At : Bytes → ℕ → Bytes → Type 0
At b n s = (drop n b ≡ s) × (n + length s ≡ length b)

drop_nil : (n : ℕ) → drop {A = ℕ} n [] ≡ []
drop_nil zero = refl
drop_nil (suc n) = refl

drop-drop : (n k : ℕ) (b : Bytes) → drop k (drop n b) ≡ drop (n + k) b
drop-drop zero k b = ap (λ m. drop m b) (omega arith)
drop-drop (suc n) k [] = drop_nil k ∙ sym (drop_nil (suc n + k))
drop-drop (suc n) k (x ∷ b) = drop-drop n k b ∙ ap (λ m. drop m (x ∷ b)) (suc_add n k)
  where
    suc_add : (n k : ℕ) → suc (n + k) ≡ suc n + k
    suc_add n k = omega arith

get_or-drop : (n : ℕ) (b : Bytes) (d : ℕ) → get_or b n d ≡ get_or (drop n b) 0 d
get_or-drop zero [] d = refl
get_or-drop zero (x ∷ b) d = refl
get_or-drop (suc n) [] d = refl
get_or-drop (suc n) (x ∷ b) d = get_or-drop n b d

pub At-start : (b : Bytes) → At b 0 b
At-start b = (refl, omega arith)

pub At-append :
    (b : Bytes) (n k m : ℕ) (xs ys : Bytes)
    → length xs ≡ k
    → n + k ≡ m
    → At b n (xs ++ ys)
    → At b m ys
At-append b n k m xs ys l e (a, len) = (
  ap (λ i. drop i b) (sym e) ∙ sym (drop-drop n k b) ∙ ap (drop k) a ∙ drop_append xs ys k l,
  omega (arith, length-append xs ys),
)

pub At-cons : (b : Bytes) (n m x : ℕ) (ys : Bytes) → n + 1 ≡ m → At b n (x ∷ ys) → At b m ys
At-cons b n m x ys e h = At-append b n 1 m (x ∷ []) ys refl e h

pub At-byte : (b : Bytes) (n x : ℕ) (ys : Bytes) → At b n (x ∷ ys) → get_or b n 0 ≡ x
At-byte b n x ys (a, len) = get_or-drop n b 0 ∙ ap (λ s. get_or s 0 0) a

pub At-take32 :
    (b : Bytes) (n : ℕ) (xs ys : Bytes) → length xs ≡ 32 → At b n (xs ++ ys) → take32 b n ≡ some xs
unfolding take32
At-take32 b n xs ys l (a, len) =
    ground (arith, ap (take 32) a, take_append xs ys 32 l, length-append xs ys)

pub At-take8 :
    (b : Bytes) (n : ℕ) (xs ys : Bytes) → length xs ≡ 8 → At b n (xs ++ ys) → take8 b n ≡ some xs
unfolding take8
At-take8 b n xs ys l (a, len) =
    ground (arith, ap (take 8) a, take_append xs ys 8 l, length-append xs ys)
