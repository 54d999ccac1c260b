-- ===== src/Names/Registry/Apply.antt =====
-- kachat-names/src/ingest.rs: `apply`, `apply_profile_only`, `undo_block` and the journal.
pub mod Tables
pub mod Undo
pub mod View
pub mod Reorg
pub mod Effect
pub mod Spent
use ka_chat_indexer.Prelude.{
  ℕ, suc, ◌-◌, Bool, true, false, List, [], ◌∷◌, ◌++◌, Option, none, some, Bytes, length, drop, any,
  lookup, insert, remove, contains_key, ltb, ◌==◌, bytes_eq, if◌then◌else◌, ◌>>=◌,
}
use ka_chat_indexer.Names.Externals.{Externals}
use ka_chat_indexer.Names.Script.{decode_sig_script}
use ka_chat_indexer.Names.Templates.{
  Outpoint, Tracked, Templates, outpoint_eq, tracked_contract, entry,
}
use ka_chat_indexer.Names.Tx.{Tx, TxInput}
use ka_chat_indexer.Names.Registry.State.{
  Utxos, Profiles, ProfileRow, UndoEntry, Event, Registry, Spend,
}
use ka_chat_indexer.Names.Registry.Outputs.{Work}
use ka_chat_indexer.Names.Registry.Continue.{apply_spends}
use ka_chat_indexer.Names.Registry.Markers.{apply_offer_marker, apply_profile}

unfoldable pub spend_of : Templates → Utxos → ℕ → TxInput → Option Spend
unfolding decode_sig_script tracked_contract entry
spend_of templates utxos idx input = do
  tracked ← lookup input.previous_outpoint utxos
  sig ← decode_sig_script input.signature_script
  e ← entry templates (tracked_contract tracked) sig.dispatch_tag
  some (record {
    idx = idx;
    outpoint = input.previous_outpoint;
    tracked = tracked;
    entry = e;
    sig = sig;
  })

unfoldable pub collect_spends : Templates → Utxos → ℕ → List TxInput → List Spend
unfolding spend_of
collect_spends templates utxos idx [] = []
collect_spends templates utxos idx (input ∷ inputs) =
    let rest = collect_spends templates utxos (suc idx) inputs in
    elim (spend_of templates utxos idx input) [ none ↦ rest | some s ↦ s ∷ rest ]

unfoldable pub removed_of : List Spend → List (Outpoint × Tracked)
removed_of [] = []
removed_of (s ∷ spends) = (s.outpoint, s.tracked) ∷ removed_of spends

unfoldable pub remove_all : List (Outpoint × Tracked) → Utxos → Utxos
remove_all [] utxos = utxos
remove_all ((op, _) ∷ removed) utxos = remove_all removed (remove op utxos)

-- The keys of `utxos` that are not keys of `before`.
unfoldable pub added_keys : Utxos → Utxos → List Outpoint
added_keys before [] = []
added_keys before ((op, _) ∷ utxos) =
    let rest = added_keys before utxos in if contains_key op before then rest else op ∷ rest

-- Whether there is anything to journal.
unfoldable pub changes :
    List Outpoint → List (Outpoint × Tracked) → Option (Bytes × Option ProfileRow) → Bool
changes [] [] none = false
changes _ _ _ = true

unfoldable pub push_undo : UndoEntry → List UndoEntry → List UndoEntry
unfolding changes
push_undo u journal = if changes u.added u.removed u.profile then journal ++ (u ∷ []) else journal

unfoldable pub spend_work : Externals → Templates → Tx → List Spend → Work → Work
unfolding apply_spends
spend_work ext templates tx [] w = w
spend_work ext templates tx (s ∷ spends) w = apply_spends ext templates tx (s ∷ spends) w

-- The utxos and events after the markers and the spends, before what is spent is removed.
unfoldable pub worked : Externals → Templates → Tx → List Spend → Utxos → Work
unfolding spend_work apply_offer_marker
worked ext templates tx spends utxos =
    let (utxos', events) = apply_offer_marker ext templates tx utxos in
    spend_work ext templates tx spends (record { utxos = utxos'; used = []; events = events })

unfoldable pub apply : Externals → Templates → Registry → Tx → Registry × List Event
unfolding collect_spends worked apply_profile removed_of remove_all added_keys push_undo
apply ext templates r tx =
    let spends = collect_spends templates r.utxos 0 tx.inputs in
    let w = worked ext templates tx spends r.utxos in
    let p = apply_profile ext tx r.profiles in
    let removed = removed_of spends in
    let utxos = remove_all removed w.utxos in
    let u : UndoEntry = record {
      block = tx.accepting_block;
      added = added_keys r.utxos utxos;
      removed = removed;
      profile = p.1;
    } in
    (record { utxos = utxos; profiles = p.0; journal = push_undo u r.journal }, w.events)

unfoldable pub apply_profile_only : Externals → Registry → Tx → Registry × Bool
unfolding apply_profile
apply_profile_only ext r tx =
    let (profiles, prior) = apply_profile ext tx r.profiles in
    elim prior [
      | none ↦ (r, false)
      | some p ↦ (
        record {
          utxos = r.utxos;
          profiles = profiles;
          journal =
              r.journal
              ++ (record { block = tx.accepting_block; added = []; removed = []; profile = some p }
                  ∷ []);
        },
        true,
      )
    ]

unfoldable pub delete_all : List Outpoint → Utxos → Utxos
delete_all [] utxos = utxos
delete_all (op ∷ added) utxos = delete_all added (remove op utxos)

unfoldable pub insert_all : List (Outpoint × Tracked) → Utxos → Utxos
insert_all [] utxos = utxos
insert_all ((op, t) ∷ removed) utxos = insert_all removed (insert op t utxos)

unfoldable pub restore_profile : Option (Bytes × Option ProfileRow) → Profiles → Profiles
restore_profile none profiles = profiles
restore_profile (some (addr, none)) profiles = remove addr profiles
restore_profile (some (addr, some v)) profiles = insert addr v profiles

-- The body of the second loop of `undo_block`.
unfoldable pub undo_entry : UndoEntry → Registry → Registry
unfolding delete_all insert_all restore_profile
undo_entry u r = record r {
  utxos = insert_all u.removed (delete_all u.added r.utxos);
  profiles = restore_profile u.profile r.profiles;
}

-- The entries of the block, undone from the last to the first.
unfoldable pub undo_entries : Bytes → List UndoEntry → Registry → Registry
unfolding undo_entry
undo_entries block [] r = r
undo_entries block (u ∷ journal) r =
    let r' = undo_entries block journal r in if u.block == block then undo_entry u r' else r'

unfoldable pub kept : Bytes → List UndoEntry → List UndoEntry
kept block [] = []
kept block (u ∷ journal) =
    let rest = kept block journal in if u.block == block then rest else u ∷ rest

unfoldable pub undo_block : Registry → Bytes → Registry
unfolding undo_entries kept
undo_block r block = undo_entries block r.journal (record r { journal = kept block r.journal })

unfoldable pub prune_journal : Registry → ℕ → Registry
prune_journal r keep_last =
    if ltb keep_last (length r.journal)
    then record r { journal = drop (length r.journal - keep_last) r.journal }
    else r

unfoldable pub journal_len : Registry → ℕ
journal_len r = length r.journal

unfoldable pub restore_journal : Registry → List UndoEntry → Registry
restore_journal r journal = record r { journal = journal }

unfoldable pub journal_has_block : Registry → Bytes → Bool
unfolding any
journal_has_block r block = any (λ u. u.block == block) r.journal
