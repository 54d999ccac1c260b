-- ===== src/Names/Follower/Profiles.antt =====
-- The profiles follower on a reorg of one block.
use ka_chat_indexer.Prelude.{
  ◌≡◌, refl, inl, inr, true, List, [], ◌∷◌, ◌++◌, Option, some, Bytes, bytes_beq, bytes_beq_iff,
  bytes_eq, lookup, Option-cases,
}
use mathlib.Core.Path.{subst}
use ka_chat_indexer.Names.Externals.{Externals}
use ka_chat_indexer.Names.Tx.{Tx}
use ka_chat_indexer.Names.Registry.State.{UndoEntry, Profiles, ProfileRow, Registry}
use ka_chat_indexer.Names.Registry.Markers.{apply_profile}
use ka_chat_indexer.Names.Registry.Apply.{
  apply_profile_only, undo_block, undo_entry, undo_entries, insert_all, delete_all, restore_profile,
}
use ka_chat_indexer.Names.Registry.Apply.View.{
  SameView, SameView-trans, undo_entry-SameView, NoneOf, undo-apply_profile,
}
use ka_chat_indexer.Names.Registry.Apply.Reorg.{
  Undone, Undone-refl, Undone-trans, undo_block-Undone,
}
use ka_chat_indexer.Names.Follower.{apply_profiles}
use ka_chat_indexer.Names.Follower.Reorg.{AcceptedIn}

module _ (ext : Externals) where
  profile_entry : Bytes → Bytes × Option ProfileRow → UndoEntry
  profile_entry block p = record { block = block; added = []; removed = []; profile = some p }

  recorded : Registry → Bytes → Profiles → Bytes × Option ProfileRow → Registry
  unfolding profile_entry
  recorded r block profiles p = record {
    utxos = r.utxos;
    profiles = profiles;
    journal = r.journal ++ (profile_entry block p ∷ []);
  }

  recorded-Undone :
      (r : Registry) (block : Bytes) (profiles : Profiles) (p : Bytes × Option ProfileRow)
      → ((a : Bytes) → lookup a (restore_profile (some p) profiles) ≡ lookup a r.profiles)
      → Undone block r (recorded r block profiles p)
  unfolding recorded undo_entry undo_entries insert_all delete_all
  recorded-Undone r block profiles p back =
      let own : bytes_beq block block ≡ true = (bytes_beq_iff block block).1 refl in
      (
        profile_entry block p ∷ [],
        refl,
        (own, tt),
        λ s v. rw own (
            SameView-trans
              (undo_entry-SameView (profile_entry block p) s (recorded r block profiles p) v)
              (record { utxos = λ o. refl; profiles = back })),
      )

  apply_profile_only-Undone :
      (r : Registry) (tx : Tx) → Undone tx.accepting_block r (apply_profile_only ext r tx).0
  unfolding recorded apply_profile_only undo_entries
  apply_profile_only-Undone r tx = elim (Option-cases (apply_profile ext tx r.profiles).1) [
    | inl e ↦ rw (e, apply_profile_only) (Undone-refl tx.accepting_block r)
    | inr (p, e) ↦
        rw (e, apply_profile_only)
          (recorded-Undone r tx.accepting_block (apply_profile ext tx r.profiles).0 p (λ a.
            subst
              (λ q.
                lookup a (restore_profile q (apply_profile ext tx r.profiles).0)
                ≡ lookup a r.profiles)
              e (undo-apply_profile ext tx r.profiles a)))
  ]

  apply_profiles-Undone :
      (block : Bytes) (txs : List Tx) (r : Registry) (ids : List Bytes)
      → AcceptedIn block txs
      → Undone block r (apply_profiles ext txs r ids).0
  unfolding apply_profiles
  apply_profiles-Undone block [] r ids b = Undone-refl block r
  apply_profiles-Undone block (tx ∷ txs) r ids b =
      Undone-trans block r (apply_profile_only ext r tx).0 _
        (subst (λ k. Undone k r (apply_profile_only ext r tx).0) b.0
          (apply_profile_only-Undone r tx))
        (apply_profiles-Undone block txs (apply_profile_only ext r tx).0 _ b.1)

  -- Whatever transactions a block accepted, taking the block back restores every profile and the
  -- journal that the profiles follower had: if the journal held no entry of the block.
  pub undo_block-apply_profiles :
      (block : Bytes) (txs : List Tx) (r : Registry) (ids : List Bytes)
      → AcceptedIn block txs
      → NoneOf block r.journal
      → let r' = (apply_profiles ext txs r ids).0 in
        SameView (undo_block r' block) r × ((undo_block r' block).journal ≡ r.journal)
  undo_block-apply_profiles block txs r ids b n =
      undo_block-Undone block r _ n (apply_profiles-Undone block txs r ids b)
