-- ===== src/Names/Registry/Apply/View.antt =====
-- Two registries that no lookup tells apart, and the undo of journal entries up to that.
use ka_chat_indexer.Prelude.{
  ◌≡◌, refl, ap, ◌∙◌, inl, inr, true, false, List, [], ◌∷◌, ◌++◌, Option, none, some, Bytes, All,
  lookup, insert, lookup-insert, lookup-remove, bytes_eq, bytes_beq, bytes_beq_iff, Bool-cases,
  Option-cases, arith,
}
use ka_chat_indexer.Names.Externals.{Externals}
use ka_chat_indexer.Names.Templates.{Outpoint, Tracked, outpoint_eq}
use ka_chat_indexer.Names.Tx.{Tx}
use ka_chat_indexer.Names.Registry.State.{Utxos, Profiles, ProfileRow, UndoEntry, Registry}
use ka_chat_indexer.Names.Registry.Markers.{accepted_profile, apply_profile}
use ka_chat_indexer.Names.Registry.Apply.{
  delete_all, insert_all, restore_profile, undo_entry, undo_entries, kept,
}
use ka_chat_indexer.Names.Registry.Apply.Tables.{lookup-delete_all}

pub record SameView (r s : Registry) : Type 0 where
  pub utxos : (o : Outpoint) → lookup o r.utxos ≡ lookup o s.utxos
  pub profiles : (a : Bytes) → lookup a r.profiles ≡ lookup a s.profiles

pub SameView-refl : (r : Registry) → SameView r r
SameView-refl r = record { utxos = λ o. refl; profiles = λ a. refl }

pub SameView-trans : {r s u : Registry} → SameView r s → SameView s u → SameView r u
SameView-trans v w = record {
  utxos = λ o. v.utxos o ∙ w.utxos o;
  profiles = λ a. v.profiles a ∙ w.profiles a;
}

abbrev SameLookups : Utxos → Utxos → Type 0
SameLookups m n = (o : Outpoint) → lookup o m ≡ lookup o n

insert-SameLookups :
    (p : Outpoint) (x : Tracked) (m n : Utxos)
    → SameLookups m n
    → SameLookups (insert p x m) (insert p x n)
insert-SameLookups p x m n h o = ground (arith, lookup-insert p o x m, lookup-insert p o x n, h o)

insert_all-SameLookups :
    (r m n : Utxos) → SameLookups m n → SameLookups (insert_all r m) (insert_all r n)
unfolding insert_all
insert_all-SameLookups [] m n h = h
insert_all-SameLookups ((p, x) ∷ r) m n h =
    insert_all-SameLookups r _ _ (insert-SameLookups p x m n h)

delete_all-SameLookups :
    (a : List Outpoint) (m n : Utxos)
    → SameLookups m n
    → SameLookups (delete_all a m) (delete_all a n)
delete_all-SameLookups a m n h o =
    ground (arith, lookup-delete_all o a m, lookup-delete_all o a n, h o)

restore_profile-lookup :
    (p : Option (Bytes × Option ProfileRow)) (m n : Profiles)
    → ((a : Bytes) → lookup a m ≡ lookup a n)
    → (a : Bytes) → lookup a (restore_profile p m) ≡ lookup a (restore_profile p n)
unfolding restore_profile
restore_profile-lookup none m n h a = h a
restore_profile-lookup (some (addr, none)) m n h a =
    ground (arith, lookup-remove addr a m, lookup-remove addr a n, h a)
restore_profile-lookup (some (addr, some v)) m n h a =
    ground (arith, lookup-insert addr a v m, lookup-insert addr a v n, h a)

pub undo_entry-SameView :
    (u : UndoEntry) (r s : Registry) → SameView r s → SameView (undo_entry u r) (undo_entry u s)
unfolding undo_entry
undo_entry-SameView u r s v = record {
  utxos =
      insert_all-SameLookups u.removed _ _ (delete_all-SameLookups u.added r.utxos s.utxos v.utxos);
  profiles = restore_profile-lookup u.profile r.profiles s.profiles v.profiles;
}

pub undo_entries-SameView :
    (block : Bytes) (us : List UndoEntry) (r s : Registry)
    → SameView r s
    → SameView (undo_entries block us r) (undo_entries block us s)
unfolding undo_entries
undo_entries-SameView block [] r s v = v
undo_entries-SameView block (u ∷ us) r s v = elim (Bool-cases (bytes_beq u.block block)) [
  | inl p ↦ rw p (undo_entry-SameView u _ _ (undo_entries-SameView block us r s v))
  | inr p ↦ rw p (undo_entries-SameView block us r s v)
]

pub undo_entries-append :
    (block : Bytes) (us vs : List UndoEntry) (r : Registry)
    → undo_entries block (us ++ vs) r ≡ undo_entries block us (undo_entries block vs r)
unfolding undo_entries
undo_entries-append block [] vs r = refl
undo_entries-append block (u ∷ us) vs r = rw (undo_entries-append block us vs r) refl

abbrev pub NoneOf : Bytes → List UndoEntry → Type 0
NoneOf block us = All (λ u. bytes_beq u.block block ≡ false) us

abbrev pub AllOf : Bytes → List UndoEntry → Type 0
AllOf block us = All (λ u. bytes_beq u.block block ≡ true) us

pub undo_entries-NoneOf :
    (block : Bytes) (us : List UndoEntry) (r : Registry)
    → NoneOf block us
    → undo_entries block us r ≡ r
unfolding undo_entries
undo_entries-NoneOf block [] r h = refl
undo_entries-NoneOf block (u ∷ us) r h = rw h.0 (undo_entries-NoneOf block us r h.1)

pub kept-append_AllOf :
    (block : Bytes) (us vs : List UndoEntry)
    → NoneOf block us
    → AllOf block vs
    → kept block (us ++ vs) ≡ us
unfolding kept
kept-append_AllOf block [] [] h k = refl
kept-append_AllOf block [] (v ∷ vs) h k = rw k.0 (kept-append_AllOf block [] vs h k.1)
kept-append_AllOf block (u ∷ us) vs h k = rw h.0 (ap (◌∷◌ u) (kept-append_AllOf block us vs h.1 k))

pub journal-undo_entries :
    (block : Bytes) (us : List UndoEntry) (r : Registry)
    → (undo_entries block us r).journal ≡ r.journal
unfolding undo_entries undo_entry
journal-undo_entries block [] r = refl
journal-undo_entries block (u ∷ us) r = ground (arith, journal-undo_entries block us r)

-- Undoing the profile part of a transaction restores every address.
pub undo-apply_profile :
    (ext : Externals) (tx : Tx) (m : Profiles) (a : Bytes)
    → let p = apply_profile ext tx m in lookup a (restore_profile p.1 p.0) ≡ lookup a m
unfolding apply_profile restore_profile
undo-apply_profile ext tx m a = elim (Option-cases (accepted_profile ext tx m)) [
  | inl e ↦ rw (e, apply_profile) refl
  | inr ((addr, row), e) ↦
      rw (e, apply_profile)
        (elim (Option-cases (lookup addr m)) [
          | inl f ↦ rw f (
              ground (
                arith,
                lookup-remove addr a (insert addr row m),
                lookup-insert addr a row m,
                bytes_beq_iff addr a,
              ))
          | inr (v, f) ↦ rw f (
              ground (
                arith,
                lookup-insert addr a v (insert addr row m),
                lookup-insert addr a row m,
                bytes_beq_iff addr a,
              ))
        ])
]
