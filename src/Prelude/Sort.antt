-- ===== src/Prelude/Sort.antt =====
-- A stable sort, and why it gives one order to lists that differ in the order of unequal elements.
use mathlib.Core.Path.{◌≡◌, refl, ap, ◌∙◌, sym}
use mathlib.Core.Bool.{Bool, true, false}
use mathlib.Core.Logic.{◌⊎◌, inl, inr}
use mathlib.Core.List.{List, [], ◌∷◌}
use native.Mathlib.Omega.{arith}
use ka_chat_indexer.Prelude.Tests.{if◌then◌else◌, Bool-cases}

-- The same elements in any order.
pub data Shuffled {ℓ} {A : Type ℓ} : List A → List A → Type ℓ where
  done : Shuffled [] []
  keep : {xs ys : List A} (x : A) → Shuffled xs ys → Shuffled (x ∷ xs) (x ∷ ys)
  exchange : {xs ys : List A} (x y : A) → Shuffled xs ys → Shuffled (x ∷ (y ∷ xs)) (y ∷ (x ∷ ys))
  both : {xs ys zs : List A} → Shuffled xs ys → Shuffled ys zs → Shuffled xs zs

abbrev pub All {ℓ κ} : {A : Type ℓ} → (A → Type κ) → List A → Type κ
All P [] = Unit
All P (x ∷ xs) = P x × All P xs

-- A relation from each element to all that follow it.
abbrev pub Pairs {ℓ κ} : {A : Type ℓ} → (A → A → Type κ) → List A → Type κ
Pairs R [] = Unit
Pairs R (x ∷ xs) = All (R x) xs × Pairs R xs

All-weaken {ℓ κ μ} :
    {A : Type ℓ} {P : A → Type κ} {Q : A → Type μ}
    → ((x : A) → P x → Q x)
    → (xs : List A) → All P xs
    → All Q xs
All-weaken f [] h = tt
All-weaken f (x ∷ xs) (p, rest) = (f x p, All-weaken f xs rest)

pub Pairs-weaken {ℓ κ μ} :
    {A : Type ℓ} {R : A → A → Type κ} {S : A → A → Type μ}
    → ((x y : A) → R x y → S x y)
    → (xs : List A) → Pairs R xs
    → Pairs S xs
Pairs-weaken f [] h = tt
Pairs-weaken f (x ∷ xs) (p, rest) = (All-weaken (f x) xs p, Pairs-weaken f xs rest)

module _ {ℓ κ} {A : Type ℓ} where
  All-Shuffled : (P : A → Type κ) {xs ys : List A} → Shuffled xs ys → All P xs → All P ys
  All-Shuffled P done h = tt
  All-Shuffled P (keep x r) (p, rest) = (p, All-Shuffled P r rest)
  All-Shuffled P (exchange x y r) (p, (q, rest)) = (q, (p, All-Shuffled P r rest))
  All-Shuffled P (both r s) h = All-Shuffled P s (All-Shuffled P r h)

  Pairs-Shuffled :
      (R : A → A → Type κ)
      → ((x y : A) → R x y → R y x)
      → {xs ys : List A} → Shuffled xs ys
      → Pairs R xs
      → Pairs R ys
  Pairs-Shuffled R sy done h = tt
  Pairs-Shuffled R sy (keep x r) (p, rest) = (All-Shuffled (R x) r p, Pairs-Shuffled R sy r rest)
  Pairs-Shuffled R sy (exchange x y r) ((xy, px), (py, rest)) =
      ((sy x y xy, All-Shuffled (R y) r py), (All-Shuffled (R x) r px, Pairs-Shuffled R sy r rest))
  Pairs-Shuffled R sy (both r s) h = Pairs-Shuffled R sy s (Pairs-Shuffled R sy r h)

module _ {ℓ} {A : Type ℓ} (lt : A → A → Bool) where
  -- Before the first element that is not below it: equal elements keep their order.
  unfoldable pub insert_by : A → List A → List A
  insert_by x [] = x ∷ []
  insert_by x (y ∷ ys) = let rest = insert_by x ys in if lt y x then y ∷ rest else x ∷ (y ∷ ys)

  -- `sort_by` of the standard library.
  unfoldable pub sort_by : List A → List A
  unfolding insert_by
  sort_by [] = []
  sort_by (x ∷ xs) = insert_by x (sort_by xs)

  pub record IsStrictOrder : Type ℓ where
    pub asym : (x y : A) → lt x y ≡ true → lt y x ≡ false
    pub trans : (x y z : A) → lt x y ≡ true → lt y z ≡ true → lt x z ≡ true

  insert_by-lt :
      IsStrictOrder
      → (x y : A) (l : List A) → lt x y ≡ true
      → insert_by x (insert_by y l) ≡ insert_by y (insert_by x l)
  unfolding insert_by
  insert_by-lt o x y [] h = ground (arith, o.asym x y h)
  insert_by-lt o x y (z ∷ l) h = elim (Bool-cases (lt z x)) [
    | inl p ↦ ground (arith, o.trans z x y p h, insert_by-lt o x y l h)
    | inr p ↦ ground (arith, o.asym x y h)
  ]

  insert_by_comm :
      IsStrictOrder
      → (x y : A) (l : List A) → (lt x y ≡ true) ⊎ (lt y x ≡ true)
      → insert_by x (insert_by y l) ≡ insert_by y (insert_by x l)
  insert_by_comm o x y l (inl h) = insert_by-lt o x y l h
  insert_by_comm o x y l (inr h) = sym (insert_by-lt o y x l h)

  insert_by-least :
      IsStrictOrder → (x : A) (l : List A) → All (λ y. lt x y ≡ true) l → insert_by x l ≡ x ∷ l
  unfolding insert_by
  insert_by-least o x [] h = refl
  insert_by-least o x (y ∷ l) (p, rest) = rw (o.asym x y p) refl

  -- The order tells the elements apart.
  abbrev pub Apart : A → A → Type 0
  Apart x y = (lt x y ≡ true) ⊎ (lt y x ≡ true)

  -- No two elements are alike to the order.
  abbrev pub AllApart : List A → Type 0
  AllApart = Pairs Apart

  Apart-sym : (x y : A) → Apart x y → Apart y x
  Apart-sym x y (inl h) = inr h
  Apart-sym x y (inr h) = inl h

  -- Two orders of the same elements are sorted to one list.
  sort_by-Shuffled :
      IsStrictOrder → (xs ys : List A) → Shuffled xs ys → AllApart xs → sort_by xs ≡ sort_by ys
  unfolding sort_by
  sort_by-Shuffled o _ _ done a = refl
  sort_by-Shuffled o _ _ (keep x r) a = ap (insert_by x) (sort_by-Shuffled o _ _ r a.1)
  sort_by-Shuffled o _ _ (exchange {xs} {ys} x y r) a =
      ap (λ l. insert_by x (insert_by y l)) (sort_by-Shuffled o _ _ r a.1.1)
      ∙ insert_by_comm o x y (sort_by ys) a.0.0
  sort_by-Shuffled o _ _ (both {xs} {ys} {zs} r s) a =
      sort_by-Shuffled o _ _ r a ∙ sort_by-Shuffled o _ _ s (Pairs-Shuffled Apart Apart-sym r a)

  -- Each element is below all that follow it.
  abbrev pub Ascending : List A → Type 0
  Ascending = Pairs (λ x y. lt x y ≡ true)

  sort_by-Ascending : IsStrictOrder → (xs : List A) → Ascending xs → sort_by xs ≡ xs
  unfolding sort_by
  sort_by-Ascending o [] a = refl
  sort_by-Ascending o (x ∷ xs) a =
      ap (insert_by x) (sort_by-Ascending o xs a.1) ∙ insert_by-least o x xs a.0

  -- A list is sorted to any ascending order of its elements.
  pub sort_by-sorted :
      IsStrictOrder
      → (xs sorted : List A) → Shuffled sorted xs
      → Ascending sorted
      → sort_by xs ≡ sorted
  sort_by-sorted o xs sorted r a =
      sym (sort_by-Shuffled o sorted xs r (Pairs-weaken (λ x y h. inl h) sorted a))
      ∙ sort_by-Ascending o sorted a
