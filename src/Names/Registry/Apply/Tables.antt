-- ===== src/Names/Registry/Apply/Tables.antt =====
-- The helpers of `apply` and `undo_entry` on the map of tracked outputs, read through `lookup`.
use ka_chat_indexer.Prelude.{
  ℕ, suc, ◌≡◌, refl, Bool, true, false, not, ◌&&◌, ◌||◌, List, [], ◌∷◌, Option, none, some, any,
  lookup, insert, remove, lookup-insert, lookup-remove, contains_key, if◌then◌else◌, arith,
}
use ka_chat_indexer.Names.Templates.{
  Templates, Outpoint, Tracked, outpoint_eq, outpoint_beq, outpoint_beq_iff,
}
use ka_chat_indexer.Names.Tx.{TxInput}
use ka_chat_indexer.Names.Registry.State.{Utxos, Spend}
use ka_chat_indexer.Names.Registry.Apply.{
  spend_of, collect_spends, removed_of, remove_all, added_keys, delete_all, insert_all,
}

-- Whether the map holds the key.
unfoldable pub keyed : Outpoint → Utxos → Bool
keyed o [] = false
keyed o ((p, _) ∷ m) = outpoint_beq p o || keyed o m

abbrev pub is_held : Option Tracked → Bool
is_held none = false
is_held (some _) = true

pub keyed-lookup : (o : Outpoint) (m : Utxos) → keyed o m ≡ is_held (lookup o m)
unfolding keyed lookup
keyed-lookup o [] = refl
keyed-lookup o ((p, x) ∷ m) = ground (arith, keyed-lookup o m)

pub contains_key-lookup : (o : Outpoint) (m : Utxos) → contains_key o m ≡ is_held (lookup o m)
unfolding contains_key
contains_key-lookup o m = ground arith

pub lookup-remove_all :
    (o : Outpoint) (r m : Utxos)
    → lookup o (remove_all r m) ≡ (if keyed o r then none else lookup o m)
unfolding remove_all keyed
lookup-remove_all o [] m = refl
lookup-remove_all o ((p, x) ∷ r) m =
    ground (arith, lookup-remove_all o r (remove p m), lookup-remove p o m)

pub lookup-delete_all :
    (o : Outpoint) (a : List Outpoint) (m : Utxos)
    → lookup o (delete_all a m) ≡ (if any (λ p. outpoint_beq p o) a then none else lookup o m)
unfolding delete_all any
lookup-delete_all o [] m = refl
lookup-delete_all o (p ∷ a) m =
    ground (arith, lookup-delete_all o a (remove p m), lookup-remove p o m)

-- Every entry of the list is what the map `b` holds at its key.
abbrev pub Holds : Utxos → Utxos → Type 0
Holds b [] = Unit
Holds b ((p, x) ∷ r) = (lookup p b ≡ some x) × Holds b r

pub lookup-insert_all :
    (o : Outpoint) (b r m : Utxos)
    → Holds b r
    → lookup o (insert_all r m) ≡ (if keyed o r then lookup o b else lookup o m)
unfolding insert_all keyed
lookup-insert_all o b [] m h = refl
lookup-insert_all o b ((p, x) ∷ r) m h =
    ground (
      arith,
      lookup-insert_all o b r (insert p x m) h.1,
      lookup-insert p o x m,
      outpoint_beq_iff p o,
    )

pub any-added_keys :
    (o : Outpoint) (before m : Utxos)
    → any (λ p. outpoint_beq p o) (added_keys before m) ≡ (keyed o m && not (contains_key o before))
unfolding any added_keys keyed
any-added_keys o before [] = refl
any-added_keys o before ((p, x) ∷ m) =
    ground (arith, any-added_keys o before m, outpoint_beq_iff p o)

spend_of-Holds :
    (t : Templates) (utxos : Utxos) (idx : ℕ) (input : TxInput) (s : Spend)
    → spend_of t utxos idx input ≡ some s
    → lookup s.outpoint utxos ≡ some s.tracked
unfolding spend_of
spend_of-Holds t utxos idx input s h = ground arith

-- What is recorded as removed is what the registry held.
pub removed_of-Holds :
    (t : Templates) (utxos : Utxos) (idx : ℕ) (inputs : List TxInput)
    → Holds utxos (removed_of (collect_spends t utxos idx inputs))
unfolding removed_of collect_spends
removed_of-Holds t utxos idx [] = tt
removed_of-Holds t utxos idx (input ∷ inputs) =
    collected (spend_of t utxos idx input) refl (removed_of-Holds t utxos (suc idx) inputs)
  where
    rest : List Spend
    rest = collect_spends t utxos (suc idx) inputs

    collected :
        (o : Option Spend)
        → spend_of t utxos idx input ≡ o
        → Holds utxos (removed_of rest)
        → Holds utxos (removed_of (elim o [ none ↦ rest | some s ↦ s ∷ rest ]))
    collected none e h = h
    collected (some s) e h = (spend_of-Holds t utxos idx input s e, h)
