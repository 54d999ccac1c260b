-- ===== src/Names/Hashes/Padding.antt =====
-- Names in their padded form.
use Prim.Native.Nat.{min}
use mathlib.Core.List.{append-nil}
use ka_chat_indexer.Prelude.{
  ℕ, zero, suc, ◌-◌, ◌≤◌, ◌<◌, ◌≡◌, refl, ap, ◌∙◌, true, [], ◌∷◌, ◌++◌, none, some, Bytes, length,
  length-append, length-take, length-replicate, take, take_append, replicate, position, all, ◌==◌,
  nat_eq, arith,
}
use ka_chat_indexer.Names.States.{NameState, name_bytes}
use ka_chat_indexer.Names.Hashes.{is_name_byte, is_valid_name, pad_name}

-- A padded name fills the 32 bytes of the state.
pub length-pad_name : (s : Bytes) → length (pad_name s) ≡ 32
unfolding pad_name
length-pad_name s = omega (
  arith,
  length-append (take (min (length s) 32) s) (replicate (32 - min (length s) 32) 0),
  length-take (min (length s) 32) s,
  length-replicate {A = ℕ} (32 - min (length s) 32) 0,
)

position_end :
    (s : Bytes) (k : ℕ)
    → all is_name_byte s ≡ true
    → position (λ c. c == 0) (s ++ replicate (suc k) 0) ≡ some (length s)
unfolding position all is_name_byte
position_end [] k h = refl
position_end (c ∷ s) k h = ground (arith, position_end s k (ground arith))

position-none : (s : Bytes) → all is_name_byte s ≡ true → position (λ c. c == 0) s ≡ none
unfolding position all is_name_byte
position-none [] h = refl
position-none (c ∷ s) h = ground (arith, position-none s (ground arith))

valid_bytes :
    (s : Bytes)
    → is_valid_name s ≡ true
    → (all is_name_byte s ≡ true) × (length s ≤ 32) × (0 < length s)
unfolding is_valid_name
valid_bytes s h = (ground arith, ground arith, ground arith)

take_all : (s : Bytes) (n : ℕ) → length s ≡ n → take n s ≡ s
take_all [] zero h = refl
take_all [] (suc n) h = refl
take_all (c ∷ s) zero h = absurd (omega arith)
take_all (c ∷ s) (suc n) h = ap (◌∷◌ c) (take_all s n (omega arith))

padded : (s : Bytes) → length s ≤ 32 → pad_name s ≡ s ++ replicate (32 - length s) 0
unfolding pad_name
padded s h =
    let e : min (length s) 32 ≡ length s = omega arith in
    ap (λ n. take n s ++ replicate (32 - n) 0) e
    ∙ ap (λ t. t ++ replicate (32 - length s) 0) (take_all s (length s) refl)

abbrev shown : Bytes → Bytes
shown t = elim (position (λ c. c == 0) t) [ none ↦ t | some end ↦ take end t ]

shown-append : (s : Bytes) (k : ℕ) → all is_name_byte s ≡ true → shown (s ++ replicate k 0) ≡ s
shown-append s zero h =
    ap shown (append-nil s)
    ∙ ap (λ o. elim o [ none ↦ s | some end ↦ take end s ]) (position-none s h)
shown-append s (suc k) h =
    ap
      (λ o. elim o [
        | none ↦ s ++ replicate (suc k) 0
        | some end ↦ take end (s ++ replicate (suc k) 0)
      ])
      (position_end s k h)
    ∙ take_append s (replicate (suc k) 0) (length s) refl

-- The bytes shown for a state whose name field is a padded valid name are the name.
pub name_bytes-pad_name :
    (n : NameState) (s : Bytes) → is_valid_name s ≡ true → n.name ≡ pad_name s → name_bytes n ≡ s
unfolding name_bytes
name_bytes-pad_name n s valid e =
    let (bytes, short, _) = valid_bytes s valid in
    ap shown (e ∙ padded s short) ∙ shown-append s (32 - length s) bytes
