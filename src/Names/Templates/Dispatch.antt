-- ===== src/Names/Templates/Dispatch.antt =====
-- Dispatch tags and the contracts of their entries.
use ka_chat_indexer.Prelude.{
  ◌≡◌, List, [], ◌∷◌, Option, none, some, Bytes, All, arith, inl, inr, Bool-cases, ◌==◌, bytes_eq,
  ◌&&◌,
}
use ka_chat_indexer.Names.Transition.{Contract, Entry, contract, contract_eq, entry_for_tag}
use ka_chat_indexer.Names.Templates.{Templates, find_tag, only_of, entry_in, entry}

-- Each pinned tag stands with the contract of its entry.
abbrev pub AreMatched : List (Contract × Bytes × Entry) → Type 0
AreMatched tags = All (λ row. contract row.2 ≡ row.0) tags

only_of-contract :
    (c : Contract) (o : Option Entry) (e : Entry) → only_of c o ≡ some e → contract e ≡ c
unfolding only_of
only_of-contract c none e h = cc
only_of-contract c (some f) e h = elim (Bool-cases (contract f == c)) [
  | inl p ↦ ground (arith, contract_eq.beq_iff (contract f) c)
  | inr p ↦ absurd (ground arith)
]

find_tag-contract :
    (c : Contract) (tag : Bytes) (tags : List (Contract × Bytes × Entry)) (e : Entry)
    → AreMatched tags
    → find_tag c tag tags ≡ some e
    → contract e ≡ c
unfolding find_tag
find_tag-contract c tag [] e m h = cc
find_tag-contract c tag ((d, t, f) ∷ tags) e m h = elim (Bool-cases (d == c && t == tag)) [
  | inl p ↦ ground (arith, m.0, contract_eq.beq_iff d c)
  | inr p ↦ find_tag-contract c tag tags e m.1 (ground arith)
]

entry_in-contract :
    (tags : List (Contract × Bytes × Entry)) (c : Contract) (tag : Bytes) (e : Entry)
    → AreMatched tags
    → entry_in tags c tag ≡ some e
    → contract e ≡ c
unfolding entry_in
entry_in-contract [] c tag e m h = only_of-contract c (entry_for_tag tag) e h
entry_in-contract (x ∷ xs) c tag e m h = find_tag-contract c tag (x ∷ xs) e m h

-- A dispatch tag only gives an entry of the contract that is spent, with the pinned tags of a
-- manifest, if each stands with its entry's contract, and with those of registry v2.
pub entry-contract :
    (t : Templates) (c : Contract) (tag : Bytes) (e : Entry)
    → AreMatched t.tags
    → entry t c tag ≡ some e
    → contract e ≡ c
unfolding entry
entry-contract t c tag e m h = entry_in-contract t.tags c tag e m h
