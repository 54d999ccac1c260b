-- ===== src/Names/Script/Fuel.antt =====
-- The fuel of the loop of `parse_pushes`.
use ka_chat_indexer.Prelude.{
  ℕ, zero, suc, ◌≤◌, ◌≡◌, refl, sym, ◌∙◌, inl, inr, List, [], ◌∷◌, ◌++◌, Option, none, some, Bytes,
  length, length-drop, Option-cases, arith,
}
use ka_chat_indexer.Names.Script.{Push, take_data, take_count, take_counted, next_push, parse_loop}

-- What a reader leaves is no longer than what it was given.
abbrev Shrinks {ℓ} : {A : Type ℓ} → Option (A × Bytes) → Bytes → Type 0
Shrinks none s = Unit
Shrinks (some (_, rest)) s = length rest ≤ length s

take_data-Shrinks : (n : ℕ) (s : Bytes) → Shrinks (take_data n s) s
unfolding take_data
take_data-Shrinks n s = ground (arith, length-drop n s)

take_count-Shrinks : (k : ℕ) (s : Bytes) → Shrinks (take_count k s) s
unfolding take_count
take_count-Shrinks k s = ground (arith, length-drop k s)

take_counted-Shrinks :
    (o : Option (ℕ × Bytes)) (s : Bytes) → Shrinks o s → Shrinks (take_counted o) s
unfolding take_counted
take_counted-Shrinks none s h = tt
take_counted-Shrinks (some (n, rest)) s h = ground (arith, take_data-Shrinks n rest)

next_push-Shrinks : (op : ℕ) (s : Bytes) → Shrinks (next_push op s) s
unfolding next_push
next_push-Shrinks op s = ground (
  arith,
  take_data-Shrinks op s,
  take_counted-Shrinks (take_count 1 s) s (take_count-Shrinks 1 s),
  take_counted-Shrinks (take_count 2 s) s (take_count-Shrinks 2 s),
  take_counted-Shrinks (take_count 4 s) s (take_count-Shrinks 4 s),
)

pub parse_loop-none :
    (f op : ℕ) (s : Bytes) (out : List Push)
    → next_push op s ≡ none
    → parse_loop (suc f) (op ∷ s) out ≡ none
unfolding parse_loop
parse_loop-none f op s out e = rw (e, parse_loop) refl

pub parse_loop-some :
    (f op : ℕ) (s : Bytes) (out : List Push) (p : Push) (rest : Bytes)
    → next_push op s ≡ some (p, rest)
    → parse_loop (suc f) (op ∷ s) out ≡ parse_loop f rest (out ++ (p ∷ []))
unfolding parse_loop
parse_loop-some f op s out p rest e = rw (e, parse_loop) refl

-- Any fuel that is at least the length of what is left to read gives the same result: the loop
-- ends by itself before the fuel does.
pub parse_loop-fuel :
    (f g : ℕ) (s : Bytes) (out : List Push)
    → length s ≤ f
    → length s ≤ g
    → parse_loop f s out ≡ parse_loop g s out
unfolding parse_loop
parse_loop-fuel zero zero [] out h k = refl
parse_loop-fuel zero (suc g) [] out h k = refl
parse_loop-fuel (suc f) zero [] out h k = refl
parse_loop-fuel (suc f) (suc g) [] out h k = refl
parse_loop-fuel zero g (op ∷ s) out h k = absurd (omega arith)
parse_loop-fuel (suc f) zero (op ∷ s) out h k = absurd (omega arith)
parse_loop-fuel (suc f) (suc g) (op ∷ s) out h k = elim (Option-cases (next_push op s)) [
  | inl e ↦ parse_loop-none f op s out e ∙ sym (parse_loop-none g op s out e)
  | inr ((p, rest), e) ↦
      let shorter : length rest ≤ length s = ground (arith, next_push-Shrinks op s) in
      parse_loop-some f op s out p rest e
      ∙ parse_loop-fuel f g rest (out ++ (p ∷ [])) (omega arith) (omega arith)
      ∙ sym (parse_loop-some g op s out p rest e)
]
