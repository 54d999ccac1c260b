-- ===== src/Names/Registry/Outputs/Found.antt =====
-- What `find_output` and `place` of the applier find.
use ka_chat_indexer.Prelude.{
  ℕ, suc, ◌+◌, ◌%◌, ◌^◌, ◌≡◌, refl, ap, ◌∙◌, ◌⊎◌, inl, inr, Bool, true, false, List, [], ◌∷◌, ◌++◌,
  Option, none, some, Bytes, get_elem?, any, insert, ◌==◌, nat_eq, Bool-cases, Option-cases,
  bytes_beq_iff, arith,
}
use ka_chat_indexer.Names.Templates.{Tracked, outpoint_eq}
use ka_chat_indexer.Names.Tx.{Tx, TxOutput, CovenantBinding, covenant_beq_iff}
use ka_chat_indexer.Names.Registry.Outputs.{
  Work, Bind, bindings_known, covenant_is, bound_ok, claims, find_from, find_output, place,
}

pub record Claim (known : Bool) (spk : Bytes) (used : List ℕ) (bind : Bind) (i : ℕ) (o : TxOutput)
    : Type 0 where
  pub unused : any (λ u. u == i) used ≡ false
  pub pays : o.script_public_key ≡ spk
  pub bound : bound_ok known bind o ≡ true

claims-Claim :
    (known : Bool) (spk : Bytes) (used : List ℕ) (bind : Bind) (i : ℕ) (o : TxOutput)
    → claims known spk used bind i o ≡ true
    → Claim known spk used bind i o
unfolding claims
claims-Claim known spk used bind i o h = record {
  unused = ground arith;
  pays = (bytes_beq_iff _ _).0 (ground arith);
  bound = ground arith;
}

abbrev Finds : Bool → Bytes → List ℕ → Bind → ℕ → List TxOutput → ℕ → Type 0
Finds known spk used bind k outputs i =
    (j : ℕ) × (o : TxOutput) × (i ≡ k + j)
    × (get_elem? outputs j ≡ some o)
    × Claim known spk used bind i o

find_from-Finds :
    (known : Bool) (spk : Bytes) (used : List ℕ) (bind : Bind) (k : ℕ) (outputs : List TxOutput)
    (i : ℕ)
    → find_from known spk used bind k outputs ≡ some i
    → Finds known spk used bind k outputs i
unfolding find_from
find_from-Finds known spk used bind k [] i h = cc
find_from-Finds known spk used bind k (o ∷ outputs) i h =
    elim (Bool-cases (claims known spk used bind k o)) [
      | inl yes' ↦
          let e : k ≡ i = ground arith in
          (0, o, omega arith, refl, rw (← e) (claims-Claim known spk used bind k o yes'))
      | inr no' ↦
          let (j, o', e, at, c) =
            find_from-Finds known spk used bind (suc k) outputs i (ground arith) in
          (suc j, o', omega arith, at, c)
    ]

-- An output that `find_output` returns pays the script, is bound, and was not used before.
pub find_output-Claim :
    (tx : Tx) (spk : Bytes) (used : List ℕ) (bind : Bind) (i : ℕ)
    → find_output tx spk used bind ≡ some i
    → (o : TxOutput) × (get_elem? tx.outputs i ≡ some o)
      × Claim (bindings_known tx) spk used bind i o
unfolding find_output
find_output-Claim tx spk used bind i h =
    let (j, o, e, at, c) = find_from-Finds (bindings_known tx) spk used bind 0 tx.outputs i h in
    let e' : i ≡ j = omega arith in (o, rw e' at, c)

abbrev pub placed : Tx → Tracked → ℕ → Work → Work
placed tx x i w = record w {
  utxos = insert (record { txid = tx.id; index = i % 2 ^ 32 }) x w.utxos;
  used = w.used ++ (i ∷ []);
}

-- `place` either finds no output, or records the one that it finds.
pub place_cases :
    (tx : Tx) (spk : Bytes) (bind : Bind) (x : Tracked) (w : Work)
    → (place tx spk bind x w ≡ none)
      ⊎ ((i : ℕ) × (o : TxOutput) × (get_elem? tx.outputs i ≡ some o)
          × Claim (bindings_known tx) spk w.used bind i o
          × (place tx spk bind x w ≡ some (placed tx x i w)))
unfolding place
place_cases tx spk bind x w = elim (Option-cases (find_output tx spk w.used bind)) [
  | inl e ↦ inl (rw (e, place))
  | inr (i, e) ↦
      let (o, at, c) = find_output-Claim tx spk w.used bind i e in inr (i, o, at, c, rw (e, place))
]

covenant_is-eq :
    (b : CovenantBinding) (c : Option CovenantBinding) → covenant_is b c ≡ true → c ≡ some b
unfolding covenant_is
covenant_is-eq b none h = cc
covenant_is-eq b (some c) h = ap some ((covenant_beq_iff c b).0 h)

-- An output that passes the test under a known binding names the input and the covenant.
pub bound_ok-covenant :
    (known : Bool) (bind : Bind) (o : TxOutput) (auth : ℕ) (id : Bytes)
    → bound_ok known bind o ≡ true
    → known ≡ true
    → bind ≡ some (auth, id)
    → o.covenant ≡ some (record { authorizing_input = auth % 2 ^ 16; covenant_id = id })
unfolding bound_ok
bound_ok-covenant false bind o auth id h k e = cc
bound_ok-covenant true none o auth id h k e = cc
bound_ok-covenant true (some (a, i)) o auth id h k e =
    let p =
      covenant_is-eq (record { authorizing_input = a % 2 ^ 16; covenant_id = i }) o.covenant h in
    p
    ∙ ap
        (λ (b : Bind). elim b [
          | none ↦ none
          | some (a', i') ↦ some (record { authorizing_input = a' % 2 ^ 16; covenant_id = i' })
        ])
        e
