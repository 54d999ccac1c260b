-- ===== src/Names/Registry/Apply/Reorg.antt =====
-- `undo_block` after the transactions that a block accepted.
use ka_chat_indexer.Prelude.{
  ◌≡◌, refl, sym, ap, ◌∙◌, inl, inr, true, false, List, [], ◌∷◌, ◌++◌, Option, none, some, Bytes,
  bytes_beq, bytes_beq_iff, Bool-cases, arith,
}
use mathlib.Core.Path.{subst}
use mathlib.Core.List.{append-nil, append_assoc}
use ka_chat_indexer.Names.Externals.{Externals}
use ka_chat_indexer.Names.Templates.{Templates, Outpoint, Tracked, outpoint_eq}
use ka_chat_indexer.Names.Tx.{Tx}
use ka_chat_indexer.Names.Registry.State.{ProfileRow, UndoEntry, Registry}
use ka_chat_indexer.Names.Registry.Markers.{apply_profile}
use ka_chat_indexer.Names.Registry.Apply.{
  collect_spends, removed_of, remove_all, added_keys, worked, changes, push_undo, apply, insert_all,
  delete_all, restore_profile, undo_entry, undo_entries, kept, undo_block,
}
use ka_chat_indexer.Names.Registry.Apply.Tables.{lookup-remove_all}
use ka_chat_indexer.Names.Registry.Apply.Undo.{Fresh, undo-apply_utxos, worked-lookup_other}
use ka_chat_indexer.Names.Registry.Apply.View.{
  SameView, SameView-refl, SameView-trans, undo_entry-SameView, undo_entries-append, NoneOf, AllOf,
  undo_entries-NoneOf, kept-append_AllOf, journal-undo_entries, undo-apply_profile,
}

-- From `r` to `r'` the journal grew by entries of the block, and undoing them leads back.
abbrev pub Undone : Bytes → Registry → Registry → Type 0
Undone block r r' =
    (us : List UndoEntry) × (r'.journal ≡ r.journal ++ us)
    × AllOf block us
    × ((s : Registry) → SameView s r' → SameView (undo_entries block us s) r)

pub Undone-refl : (block : Bytes) (r : Registry) → Undone block r r
unfolding undo_entries
Undone-refl block r = ([], sym (append-nil r.journal), tt, λ s v. v)

AllOf-append :
    (block : Bytes) (us vs : List UndoEntry)
    → AllOf block us
    → AllOf block vs
    → AllOf block (us ++ vs)
AllOf-append block [] vs h k = k
AllOf-append block (u ∷ us) vs h k = (h.0, AllOf-append block us vs h.1 k)

pub Undone-trans :
    (block : Bytes) (r s u : Registry) → Undone block r s → Undone block s u → Undone block r u
Undone-trans block r s u (us, j, a, back) (vs, k, b, back') = (
  us ++ vs,
  k ∙ ap (λ l. l ++ vs) j ∙ append_assoc r.journal us vs,
  AllOf-append block us vs a b,
  λ x v. rw (undo_entries-append block us vs x) (back (undo_entries block vs x) (back' x v)),
)

-- A block none of whose entries the journal held is taken back whole from any registry with the
-- view and the journal of the one that it led to, and the journal with it.
pub undo_block-Undone_view :
    (block : Bytes) (r r' s : Registry)
    → NoneOf block r.journal
    → Undone block r r'
    → SameView s r'
    → s.journal ≡ r'.journal
    → SameView (undo_block s block) r × ((undo_block s block).journal ≡ r.journal)
unfolding undo_block
undo_block-Undone_view block r r' s other (us, j, a, back) v same = (
  subst (λ x. SameView x r) (sym undone)
      (back x (record { utxos = v.utxos; profiles = v.profiles })),
  journal-undo_entries block s.journal x
      ∙ ap (kept block) (same ∙ j)
      ∙ kept-append_AllOf block r.journal us other a,
)
  where
    x : Registry
    x = record s { journal = kept block s.journal }

    undone : undo_entries block s.journal x ≡ undo_entries block us x
    undone =
        ap (λ l. undo_entries block l x) (same ∙ j)
        ∙ undo_entries-append block r.journal us x
        ∙ undo_entries-NoneOf block r.journal _ other

pub undo_block-Undone :
    (block : Bytes) (r r' : Registry)
    → NoneOf block r.journal
    → Undone block r r'
    → SameView (undo_block r' block) r × ((undo_block r' block).journal ≡ r.journal)
undo_block-Undone block r r' other u =
    undo_block-Undone_view block r r' r' other u (SameView-refl r') refl

no_changes-undo :
    (a : List Outpoint) (l : List (Outpoint × Tracked)) (p : Option (Bytes × Option ProfileRow))
    (s : Registry)
    → changes a l p ≡ false
    → record s {
      utxos = insert_all l (delete_all a s.utxos);
      profiles = restore_profile p s.profiles;
    }
      ≡ s
unfolding changes insert_all delete_all restore_profile
no_changes-undo [] [] none s h = refl
no_changes-undo [] [] (some p) s h = cc
no_changes-undo [] (x ∷ l) p s h = cc
no_changes-undo (o ∷ a) l p s h = cc

module _ (ext : Externals) (t : Templates) where
  entry_of : Registry → Tx → UndoEntry
  entry_of r tx =
      let spends = collect_spends t r.utxos 0 tx.inputs in
      let removed = removed_of spends in
      record {
        block = tx.accepting_block;
        added = added_keys r.utxos (remove_all removed (worked ext t tx spends r.utxos).utxos);
        removed = removed;
        profile = (apply_profile ext tx r.profiles).1;
      }

  undo_entry-apply :
      (r : Registry) (tx : Tx)
      → Fresh tx r.utxos
      → SameView (undo_entry (entry_of r tx) (apply ext t r tx).0) r
  unfolding undo_entry apply entry_of
  undo_entry-apply r tx f = record {
    utxos = λ o. undo-apply_utxos ext t tx r.utxos o f;
    profiles = undo-apply_profile ext tx r.profiles;
  }

  push_undo-Undone :
      (r : Registry) (tx : Tx) (u : UndoEntry)
      → u.block ≡ tx.accepting_block
      → (r' : Registry) → r'.journal ≡ push_undo u r.journal
      → SameView (undo_entry u r') r
      → Undone tx.accepting_block r r'
  unfolding push_undo undo_entries
  push_undo-Undone r tx u b r' j v = elim (Bool-cases (changes u.added u.removed u.profile)) [
    | inl c ↦
        let own : bytes_beq u.block tx.accepting_block ≡ true = (bytes_beq_iff _ _).1 b in
        (
          u ∷ [],
          j ∙ rw c refl,
          (own, tt),
          λ s w. rw own (SameView-trans (undo_entry-SameView u s r' w) v),
        )
    | inr c ↦ (
      [],
      j ∙ rw c (sym (append-nil r.journal)),
      tt,
      λ s w. SameView-trans w (
          subst (λ x. SameView x r)
            (unfold undo_entry in no_changes-undo u.added u.removed u.profile r' c) v),
    )
  ]

  pub apply-Undone :
      (r : Registry) (tx : Tx) → Fresh tx r.utxos → Undone tx.accepting_block r (apply ext t r tx).0
  apply-Undone r tx f =
      push_undo-Undone r tx (entry_of r tx) (unfold entry_of in refl) (apply ext t r tx).0
        (unfold apply entry_of in refl) (undo_entry-apply r tx f)

  -- A transaction leaves the outputs of another one fresh.
  pub apply-Fresh :
      (r : Registry) (tx other : Tx)
      → bytes_beq tx.id other.id ≡ false
      → Fresh other r.utxos
      → Fresh other (apply ext t r tx).0.utxos
  unfolding apply
  apply-Fresh r tx other d f index =
      let o : Outpoint = record { txid = other.id; index = index } in
      let spends = collect_spends t r.utxos 0 tx.inputs in
      ground (
        arith,
        lookup-remove_all o (removed_of spends) (worked ext t tx spends r.utxos).utxos,
        worked-lookup_other ext t tx spends r.utxos o d,
        f index,
      )
