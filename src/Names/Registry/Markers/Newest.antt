-- ===== src/Names/Registry/Markers/Newest.antt =====
-- Profiles: the rows that a transaction changes.
use ka_chat_indexer.Prelude.{
  some_injective, zero, none, ap, sym, false, ◌==◌, ◌&&◌, not, ◌∙◌, ℕ, ◌≡◌, ◌≢◌, ◌<◌, ◌⊎◌, refl,
  inl, inr, true, suc, List, [], ◌∷◌, ◌++◌, Option, some, Bytes, get_elem?, any, lookup,
  lookup-insert, bytes_beq, bytes_beq_iff, Bool-cases, some_of_bind, Option-cases, arith, bytes_eq,
}
use ka_chat_indexer.Prelude.Text.{codes, bytes_lt, is_utf8}
use ka_chat_indexer.Prelude.ByteOrder.{TextLess, bytes_lt-TextLess, TextLess-bytes_lt}
use ka_chat_indexer.Prelude.Prefixes.{strip_prefix-append, strip_prefix_append}
use ka_chat_indexer.Names.Externals.{Externals}
use ka_chat_indexer.Names.Tx.{Tx, TxInput, TxOutput}
use ka_chat_indexer.Names.Profile.{Profile, parse_profile}
use ka_chat_indexer.Names.Registry.State.{Profiles, ProfileRow}
use ka_chat_indexer.Names.Registry.Markers.{
  marked, accepted_profile, apply_profile, is_newer, spends_from, first_script,
}

-- The transaction is later than the row: in a later DAA score, or in the same one under a txid that
-- is greater byte by byte.
abbrev pub IsLater : Tx → ProfileRow → Type 0
IsLater tx old =
    (old.daa < tx.accepting_daa) ⊎ ((old.daa ≡ tx.accepting_daa) × TextLess old.tx_id tx.id)

-- The transaction sets the profile of the address `a`.
pub record SetsProfile (ext : Externals) (tx : Tx) (held : Option ProfileRow) (a : Bytes)
    (row : ProfileRow) : Type 0 where
  pub daa : row.daa ≡ tx.accepting_daa
  pub tx_id : row.tx_id ≡ tx.id
  pub text : is_utf8 tx.payload ≡ true
  pub payload : tx.payload ≡ codes "kchat:1:profile:" ++ row.json
  pub profile : (p : Profile) × (parse_profile ext row.json ≡ some p)
  pub paid : (o : TxOutput) × (get_elem? tx.outputs 0 ≡ some o) × (o.script_public_key ≡ a)
  pub spent : (k : ℕ) × (i : TxInput) × (get_elem? tx.inputs k ≡ some i) × (i.spent_script ≡ a)
  pub nonempty : a ≢ []
  pub later : (old : ProfileRow) → held ≡ some old → IsLater tx old

first_script-output :
    (outputs : List TxOutput) (a : Bytes)
    → first_script outputs ≡ some a
    → (o : TxOutput) × (get_elem? outputs 0 ≡ some o) × (o.script_public_key ≡ a)
unfolding first_script
first_script-output [] a h = cc
first_script-output (o ∷ outputs) a h = (o, refl, ground (arith, h))

abbrev SpendsAt : Bytes → List TxInput → Type 0
SpendsAt a inputs =
    (a ≢ []) × ((k : ℕ) × (i : TxInput) × (get_elem? inputs k ≡ some i) × (i.spent_script ≡ a))

spends_from-input :
    (a : Bytes) (inputs : List TxInput) → spends_from a inputs ≡ true → SpendsAt a inputs
unfolding spends_from any
spends_from-input a [] h = cc
spends_from-input a (i ∷ inputs) h =
    elim (Bool-cases (not (i.spent_script == []) && i.spent_script == a)) [
      | inl p ↦
          let same = (bytes_beq_iff i.spent_script a).0 (ground (arith, p)) in
          (λ e. ground (arith, p, bytes_beq_iff i.spent_script [], same ∙ e), (0, i, refl, same))
      | inr p ↦
          let (nonempty, (k, j, at, same)) = spends_from-input a inputs (ground (arith, h, p)) in
          (nonempty, (suc k, j, at, same))
    ]

is_newer-IsLater : (tx : Tx) (old : ProfileRow) → is_newer tx (some old) ≡ true → IsLater tx old
unfolding is_newer
is_newer-IsLater tx old h = elim (Bool-cases (bytes_lt old.tx_id tx.id)) [
  | inl less ↦ ground (arith, h, bytes_lt-TextLess old.tx_id tx.id less)
  | inr no' ↦ inl (ground (arith, h, no'))
]

marked-payload :
    (prefix payload rest : Bytes) → marked prefix payload ≡ some rest → payload ≡ prefix ++ rest
unfolding marked
marked-payload prefix payload rest h = strip_prefix-append prefix payload rest (ground (arith, h))

marked-is_utf8 :
    (prefix payload rest : Bytes) → marked prefix payload ≡ some rest → is_utf8 payload ≡ true
unfolding marked
marked-is_utf8 prefix payload rest h = ground (arith, h)

accepted_profile-SetsProfile :
    (ext : Externals) (tx : Tx) (m : Profiles) (a : Bytes) (row : ProfileRow)
    → accepted_profile ext tx m ≡ some (a, row)
    → SetsProfile ext tx (lookup a m) a row
unfolding accepted_profile
accepted_profile-SetsProfile ext tx m a row h =
    let prefix = codes "kchat:1:profile:" in
    let (json, read, h1) = some_of_bind (marked prefix tx.payload) _ (a, row) h in
    let (p, parsed, h2) = some_of_bind (parse_profile ext json) _ (a, row) h1 in
    let (addr, first, h3) = some_of_bind (first_script tx.outputs) _ (a, row) h2 in
    let same : addr ≡ a = ground (arith, h3) in
    let text : json ≡ row.json = ground (arith, h3) in
    let (nonempty, spent) = spends_from-input a tx.inputs (ground (arith, h3)) in
    let newer : is_newer tx (lookup a m) ≡ true = ground (arith, h3) in
    record {
      daa = ground (arith, h3);
      tx_id = ground (arith, h3);
      text = marked-is_utf8 prefix tx.payload json read;
      payload = rw (← text) (marked-payload prefix tx.payload json read);
      profile = rw (← text) (p, parsed);
      paid = first_script-output tx.outputs a (rw (← same) first);
      spent = spent;
      nonempty = nonempty;
      later = λ old e. is_newer-IsLater tx old (rw (← e) newer);
    }

first_script_of_output :
    (outputs : List TxOutput) (o : TxOutput)
    → get_elem? outputs 0 ≡ some o
    → first_script outputs ≡ some o.script_public_key
unfolding first_script
first_script_of_output [] o h = cc
first_script_of_output (p ∷ outputs) o h = rw (some_injective p o h) refl

nonempty_beq : (s a : Bytes) → s ≡ a → a ≢ [] → bytes_beq s [] ≡ false
nonempty_beq s a same full = elim (Bool-cases (bytes_beq s [])) [
  | inl p ↦ absurd (full (sym same ∙ (bytes_beq_iff s []).0 p))
  | inr p ↦ p
]

spends_from_of_input :
    (a : Bytes) (inputs : List TxInput) (k : ℕ) (i : TxInput)
    → a ≢ []
    → get_elem? inputs k ≡ some i
    → i.spent_script ≡ a
    → spends_from a inputs ≡ true
unfolding spends_from any
spends_from_of_input a [] k i full at same = cc
spends_from_of_input a (j ∷ inputs) zero i full at same =
    let e : j.spent_script ≡ a = rw (some_injective j i at) same in
    ground (arith, bytes_beq_iff j.spent_script a, nonempty_beq j.spent_script a e full, e)
spends_from_of_input a (j ∷ inputs) (suc k) i full at same =
    ground (arith, spends_from_of_input a inputs k i full at same)

is_newer_of_IsLater :
    (tx : Tx) (held : Option ProfileRow)
    → ((old : ProfileRow) → held ≡ some old → IsLater tx old)
    → is_newer tx held ≡ true
unfolding is_newer
is_newer_of_IsLater tx none later = refl
is_newer_of_IsLater tx (some old) later = elim (later old refl) [
  | inl h ↦ ground (arith, h)
  | inr (e, h) ↦ let less = TextLess-bytes_lt h in ground (arith, e, less)
]

SetsProfile-accepted_profile :
    (ext : Externals) (tx : Tx) (m : Profiles) (a : Bytes) (row : ProfileRow)
    → SetsProfile ext tx (lookup a m) a row
    → accepted_profile ext tx m ≡ some (a, row)
unfolding accepted_profile marked
SetsProfile-accepted_profile ext tx m a row s =
    let prefix = codes "kchat:1:profile:" in
    let (p, parsed) = s.profile in
    let (o, first, pays) = s.paid in
    let (k, i, at, spends) = s.spent in
    let read : marked prefix tx.payload ≡ some row.json =
      rw (s.text, s.payload) (strip_prefix_append prefix row.json) in
    let addr : first_script tx.outputs ≡ some a =
      first_script_of_output tx.outputs o first ∙ ap some pays in
    let sent = spends_from_of_input a tx.inputs k i s.nonempty at spends in
    let newer = is_newer_of_IsLater tx (lookup a m) s.later in
    let same : record { json = row.json; daa = tx.accepting_daa; tx_id = tx.id } ≡ row =
      rw (← s.daa, ← s.tx_id) refl in
    rw (read, parsed, addr, sent, newer) (ap (λ (r : ProfileRow). some (a, r)) same)

-- A transaction does one of two things to an address. It sets the address' row, to one of its DAA
-- score and txid: then its payload is the marker and the JSON of a valid profile, in UTF-8, its
-- first output pays the address, which is not empty, an input spends from it, and the row that was
-- there, if any, is of an earlier DAA score, or of the same one under a smaller txid. Or the address
-- keeps what it had, and no row meets these conditions.
pub apply_profile-lookup :
    (ext : Externals) (tx : Tx) (m : Profiles) (a : Bytes)
    → ((row : ProfileRow) × (lookup a (apply_profile ext tx m).0 ≡ some row)
        × SetsProfile ext tx (lookup a m) a row)
      ⊎ ((lookup a (apply_profile ext tx m).0 ≡ lookup a m)
          × ((row : ProfileRow) → ¬ SetsProfile ext tx (lookup a m) a row))
unfolding apply_profile
apply_profile-lookup ext tx m a = elim (Option-cases (accepted_profile ext tx m)) [
  | inl e ↦ inr (
    ground arith,
    λ row s. let set = SetsProfile-accepted_profile ext tx m a row s in ground (arith, e, set),
  )
  | inr ((addr, row'), e) ↦ elim (Bool-cases (bytes_beq addr a)) [
    | inl p ↦
        let same : addr ≡ a = (bytes_beq_iff addr a).0 p in
        inl (
          row',
          ground (arith, lookup-insert addr a row' m),
          accepted_profile-SetsProfile ext tx m a row' (rw (← same) e),
        )
    | inr p ↦ inr (
      ground (arith, lookup-insert addr a row' m),
      λ row s.
          let set = SetsProfile-accepted_profile ext tx m a row s in
          let same : addr ≡ a = ground (arith, e, set) in
          ground (arith, p, bytes_beq_iff addr a, same),
    )
  ]
]
