-- ===== src/Names/Tests/Chain.antt =====
-- Runs of the applier and the follower, and their theorems at these runs.
use ka_chat_indexer.Prelude.{
  get_elem?, ℕ, ◌≡◌, ◌⊎◌, ◌+◌, refl, true, false, List, [], ◌∷◌, ◌++◌, Option, none, some, Bytes,
  lookup, insert, remove, any, bytes_eq, bytes_beq, replicate, if◌then◌else◌, arith,
}
use ka_chat_indexer.Prelude.Int.{pos}
use ka_chat_indexer.Prelude.Text.{codes}
use ka_chat_indexer.Names.Script.{num, decode_sig_script}
use ka_chat_indexer.Names.Script.RoundTrip.{encode_pushes}
use ka_chat_indexer.Names.Transition.{Contract, gap_register, contract}
use ka_chat_indexer.Names.Templates.{
  Outpoint, Tracked, gap, name, outpoint_eq, outpoint_beq, entry, tracked_contract, gap_spk,
  name_spk,
}
use ka_chat_indexer.Names.Hashes.{p2sh_script}
use ka_chat_indexer.Names.States.{encode_gap, encode_name}
use ka_chat_indexer.Names.Moves.{register_with_period}
use ka_chat_indexer.Names.Tx.{Tx, TxInput}
use ka_chat_indexer.Names.Registry.State.{ProfileRow, Profiles}
use ka_chat_indexer.Names.Registry.Apply.{apply, collect_spends, removed_of, worked, undo_block}
use ka_chat_indexer.Names.Registry.Apply.Tables.{keyed}
use ka_chat_indexer.Names.Registry.Apply.Effect.{
  apply-lookup, apply-lookup_other, apply-lookup_spent, worked-track,
}
use ka_chat_indexer.Names.Registry.Apply.View.{SameView}
use ka_chat_indexer.Names.Registry.Runs.Laws.{Created, Distinct, track, indices, AllBacked}
use ka_chat_indexer.Names.Registry.Markers.{
  apply_offer_marker, accepted_profile, apply_profile, marked, first_script, spends_from, is_newer,
}
use ka_chat_indexer.Names.Registry.Markers.Newest.{SetsProfile, apply_profile-lookup}
use ka_chat_indexer.Names.Profile.{Profile, parse_profile, validate, allowed, is_one}
use ka_chat_indexer.Names.Tx.{fee}
use ka_chat_indexer.Names.Tx.Fee.{Spends, total_paid, fee_lem}
use ka_chat_indexer.Names.Follower.{apply_all, apply_profiles, undo_blocks}
use ka_chat_indexer.Names.Follower.Reorg.{
  FreshAll, after_block, after_reorg, undo_block-apply_all, step_batch-reorg,
}
use ka_chat_indexer.Names.Follower.Blocks.{Blocks, AreNew, ids, accepted, undo_blocks-apply_all}
use ka_chat_indexer.Names.Templates.Dispatch.{entry-contract}
use ka_chat_indexer.Names.Registry.State.{Spend}
use ka_chat_indexer.Names.Registry.Apply.Spent.{IsSpendOf, collect_spends-IsSpendOf}
use ka_chat_indexer.Names.Follower.Profiles.{undo_block-apply_profiles}
use ka_chat_indexer.Names.Follower.Backing.{CreatedBy, apply_all-lookup}
use ka_chat_indexer.Names.Tests.Data.{
  toy, templates, genesis, genesis_gap, start_registry, start_follower, block_a, split,
  register_script, register_tx, profile_tx,
}

abbrev block_txs : List Tx
block_txs = register_tx ∷ profile_tx ∷ []

abbrev name_outpoint : Outpoint
name_outpoint = record { txid = replicate 32 2; index = 2 }

-- The registration tracks the two halves of the gap and the name, and drops the gap.
register_tracks_name :
    lookup name_outpoint (apply toy templates start_registry register_tx).0.utxos
    ≡ some (name split.2)
unfolding apply lookup outpoint_beq gap_spk name_spk p2sh_script encode_gap encode_name
    register_with_period insert remove encode_pushes bytes_beq ka_chat_indexer.Names.Templates.new
    ka_chat_indexer.Names.Registry.Outputs.place_quietly ka_chat_indexer.Names.Templates.spk
    ka_chat_indexer.Names.Script.decode_script_number
register_tracks_name = refl

fresh : FreshAll block_txs start_registry.utxos
unfolding lookup outpoint_beq bytes_beq
fresh = (λ i. refl, (refl, tt), (λ i. refl, tt, tt))

register_sig :
    decode_sig_script register_script
    ≡ some (record {
      args = elim (decode_sig_script register_script) [ none ↦ [] | some s ↦ s.args ];
      dispatch_tag = 0x86 ∷ 0x67 ∷ 0xaf ∷ 0x5e ∷ [];
      redeem = 0x6b ∷ [];
    })
unfolding decode_sig_script encode_pushes
register_sig = refl

step_batch-reorg_example :
    let f' =
      after_reorg toy templates
        (after_block toy templates start_follower block_txs block_a)
        block_a
        (some (replicate 32 0)) in
    SameView f'.registry start_registry
    × (f'.registry.journal ≡ [])
    × (f'.checkpoint ≡ some (replicate 32 0))
unfolding ka_chat_indexer.Prelude.contains_key parse_profile ka_chat_indexer.Names.Profile.is_one
    first_script spends_from is_newer apply_all apply lookup outpoint_beq gap_spk name_spk
    p2sh_script encode_gap encode_name register_with_period insert remove encode_pushes bytes_beq
    ka_chat_indexer.Names.Templates.new ka_chat_indexer.Names.Registry.Outputs.place_quietly
    ka_chat_indexer.Names.Templates.spk ka_chat_indexer.Names.Script.decode_script_number
step_batch-reorg_example =
    step_batch-reorg toy templates start_follower block_a block_txs (replicate 32 0)
      (refl, (refl, tt)) fresh tt (omega arith)

undo_block-apply_all_example :
    let r' = (apply_all toy templates block_txs start_registry []).0 in
    SameView (undo_block r' block_a) start_registry × ((undo_block r' block_a).journal ≡ [])
undo_block-apply_all_example =
    undo_block-apply_all toy templates block_a block_txs start_registry [] (refl, (refl, tt)) fresh
      tt

apply-lookup_example :
    (lookup name_outpoint start_registry.utxos ≡ some (name split.2))
    ⊎ Created toy templates register_tx name_outpoint (name split.2)
apply-lookup_example =
    apply-lookup toy templates start_registry register_tx name_outpoint (name split.2)
      register_tracks_name

apply-lookup_other_example :
    lookup genesis (apply toy templates start_registry register_tx).0.utxos ≡ (
      if keyed genesis
        (removed_of (collect_spends templates start_registry.utxos 0 register_tx.inputs))
      then none
      else lookup genesis start_registry.utxos)
unfolding bytes_beq
apply-lookup_other_example =
    apply-lookup_other toy templates start_registry register_tx genesis refl

worked-track_example :
    let w =
      worked toy templates register_tx
        (collect_spends templates start_registry.utxos 0 register_tx.inputs)
        start_registry.utxos in
    (claims : List (ℕ × Tracked)) × (w.utxos
      ≡ track register_tx claims
          (apply_offer_marker toy templates register_tx start_registry.utxos).0)
    × (w.used ≡ indices claims)
    × Distinct (indices claims)
    × AllBacked toy templates register_tx claims
worked-track_example = worked-track toy templates start_registry register_tx

apply-lookup_spent_example :
    lookup genesis (apply toy templates start_registry register_tx).0.utxos ≡ none
unfolding lookup outpoint_beq bytes_beq entry tracked_contract ka_chat_indexer.Names.Templates.new
apply-lookup_spent_example =
    apply-lookup_spent toy templates start_registry register_tx 0 _ (gap genesis_gap) _ gap_register
      refl refl register_sig refl

apply_all-lookup_example :
    (lookup name_outpoint start_registry.utxos ≡ some (name split.2))
    ⊎ CreatedBy toy templates (register_tx ∷ []) name_outpoint (name split.2)
unfolding apply_all
apply_all-lookup_example =
    apply_all-lookup toy templates (register_tx ∷ []) start_registry [] name_outpoint (name split.2)
      register_tracks_name

fee_lem_example :
    (f : ℕ) × (total : ℕ) × (pos 100 ≡ pos f)
    × Spends register_tx.inputs total
    × (total ≡ total_paid register_tx.outputs + f)
unfolding fee
fee_lem_example = fee_lem register_tx (pos 100) refl

-- What the address held before, from a transaction of the same block with a smaller txid.
abbrev held_row : ProfileRow
held_row = record { json = codes "{}"; daa = 2; tx_id = replicate 32 3 }

abbrev held_profiles : Profiles
held_profiles = (codes "spk", held_row) ∷ []

held_row_replaced :
    lookup (codes "spk") (apply_profile toy profile_tx held_profiles).0
    ≡ some (record { json = codes "{}"; daa = 2; tx_id = replicate 32 4 })
unfolding apply_profile accepted_profile marked parse_profile validate is_one lookup insert
    bytes_beq first_script spends_from is_newer
held_row_replaced = refl

apply_profile-lookup_example :
    let held = lookup (codes "spk") held_profiles in
    ((row : ProfileRow) × (lookup (codes "spk") (apply_profile toy profile_tx held_profiles).0
        ≡ some row)
      × SetsProfile toy profile_tx held (codes "spk") row)
    ⊎ ((lookup (codes "spk") (apply_profile toy profile_tx held_profiles).0 ≡ held)
        × ((row : ProfileRow) → ¬ SetsProfile toy profile_tx held (codes "spk") row))
apply_profile-lookup_example = apply_profile-lookup toy profile_tx held_profiles (codes "spk")

abbrev alice_profile : Profile
alice_profile = record {
  avatar = some (codes "https://x.com/a");
  banner = none;
  bio = none;
  linktree = none;
  primary_name = some (codes "alice");
}

undo_block-apply_profiles_example :
    let r' = (apply_profiles toy (profile_tx ∷ []) start_registry []).0 in
    SameView (undo_block r' block_a) start_registry × ((undo_block r' block_a).journal ≡ [])
undo_block-apply_profiles_example =
    undo_block-apply_profiles toy block_a (profile_tx ∷ []) start_registry [] (refl, tt) tt

-- The registration in one block, the profile in the next.
abbrev two_blocks : Blocks
two_blocks =
    (replicate 32 0xb0, record profile_tx { accepting_block = replicate 32 0xb0 } ∷ [])
    ∷ (block_a, register_tx ∷ [])
    ∷ []

two_blocks-AreNew : AreNew toy templates two_blocks start_registry
unfolding ka_chat_indexer.Prelude.contains_key parse_profile ka_chat_indexer.Names.Profile.is_one
    first_script spends_from is_newer apply_all apply lookup outpoint_beq gap_spk name_spk
    p2sh_script encode_gap encode_name register_with_period insert remove encode_pushes bytes_beq
    ka_chat_indexer.Names.Templates.new ka_chat_indexer.Names.Registry.Outputs.place_quietly
    ka_chat_indexer.Names.Templates.spk ka_chat_indexer.Names.Script.decode_script_number
two_blocks-AreNew =
    ((refl, tt), (λ i. refl, tt, tt), (refl, tt), ((refl, tt), (λ i. refl, tt, tt), tt, tt))

undo_blocks-apply_all_example :
    let r' = (apply_all toy templates (accepted two_blocks) start_registry []).0 in
    SameView (undo_blocks (ids two_blocks) r') start_registry
    × ((undo_blocks (ids two_blocks) r').journal ≡ [])
undo_blocks-apply_all_example =
    undo_blocks-apply_all toy templates two_blocks start_registry two_blocks-AreNew

abbrev register_tag : Bytes
register_tag = 0x86 ∷ 0x67 ∷ 0xaf ∷ 0x5e ∷ []

entry-contract_example : contract gap_register ≡ Contract.gap
unfolding entry ka_chat_indexer.Names.Templates.new bytes_beq
entry-contract_example = entry-contract templates Contract.gap register_tag gap_register tt refl

abbrev register_spend : Spend
register_spend = record {
  idx = 0;
  outpoint = genesis;
  tracked = gap genesis_gap;
  entry = gap_register;
  sig = record {
    args = elim (decode_sig_script register_script) [ none ↦ [] | some s ↦ s.args ];
    dispatch_tag = register_tag;
    redeem = 0x6b ∷ [];
  };
}

collect_spends-IsSpendOf_example :
    (input : TxInput) × (get_elem? register_tx.inputs 0 ≡ some input)
    × IsSpendOf start_registry.utxos input register_spend
unfolding collect_spends lookup outpoint_beq bytes_beq entry tracked_contract
    ka_chat_indexer.Names.Templates.new decode_sig_script encode_pushes
collect_spends-IsSpendOf_example =
    collect_spends-IsSpendOf templates start_registry.utxos register_tx.inputs 0 register_spend tt
      refl
