-- ===== src/Names/Registry/Continue.antt =====
-- kachat-names/src/ingest.rs: `apply_spends`, `apply_register`, `apply_import` and `record_name`.
use Prim.Native.String.{String}
use ka_chat_indexer.Prelude.{
  ℕ, Bool, false, not, List, [], ◌∷◌, Option, none, some, Bytes, any, ◌==◌, bytes_eq, int_eq,
  if◌then◌else◌, ◌>>=◌,
}
use ka_chat_indexer.Prelude.Int.{ℤ, pos}
use ka_chat_indexer.Names.Externals.{Externals}
use ka_chat_indexer.Names.Hashes.{is_valid_name}
use ka_chat_indexer.Names.Script.{SigScript}
use ka_chat_indexer.Names.States.{GapState, NameState}
use ka_chat_indexer.Names.Transition.{Entry, entry_eq}
use ka_chat_indexer.Names.Moves
use ka_chat_indexer.Names.Templates.{Templates, Tracked, gap, name, offer, gap_spk, name_spk}
use ka_chat_indexer.Names.Tx.{Tx}
use ka_chat_indexer.Names.Registry.State.{Spend, event, name_by_key}
use ka_chat_indexer.Names.Registry.Outputs.{Work, place, place_quietly, emit, reg_bind}
use ka_chat_indexer.Names.Registry.Prices.{arg_data, arg_key, arg_i64, apply_price_spends}

-- `has`.
unfoldable pub has : List Spend → Entry → Bool
unfolding any
has spends e = any (λ s. s.entry == e) spends

unfoldable pub find_spend : Entry → List Spend → Option Spend
find_spend e [] = none
find_spend e (s ∷ spends) = let rest = find_spend e spends in if s.entry == e then some s else rest

-- The first spent gap under an entry, with the index of its input.
unfoldable pub find_gap : Entry → List Spend → Option (ℕ × GapState)
find_gap e [] = none
find_gap e (s ∷ spends) =
    let rest = find_gap e spends in
    elim s.tracked [ gap g ↦ if s.entry == e then some (s.idx, g) else rest | _ ↦ rest ]

abbrev pub exit_op : Entry → Option String
exit_op Entry.offer_decline = some "offer_decline"
exit_op Entry.offer_withdraw = some "offer_withdraw"
exit_op Entry.offer_refund = some "offer_refund"
exit_op _ = none

-- `register(name, ownerKey, salt, now, years, …)`, with a valid name.
unfoldable pub register_args : SigScript → Option (Bytes × Bytes × ℤ × ℤ)
unfolding arg_data arg_key arg_i64 is_valid_name
register_args sig = do
  label ← arg_data sig 0
  owner ← arg_key sig 1
  now ← arg_i64 sig 3
  years ← arg_i64 sig 4
  if is_valid_name label then some (label, owner, now, years) else none

-- `import(name, owner, periodStart, expiresAt, …)`, with a valid name.
unfoldable pub import_args : SigScript → Option (Bytes × Bytes × ℤ × ℤ)
unfolding arg_data arg_key arg_i64 is_valid_name
import_args sig = do
  label ← arg_data sig 0
  owner ← arg_key sig 1
  period_start ← arg_i64 sig 2
  expires_at ← arg_i64 sig 3
  if is_valid_name label then some (label, owner, period_start, expires_at) else none

module _ (ext : Externals) (templates : Templates) (tx : Tx) where
  unfoldable pub offer_exits : List Spend → Work → Work
  unfolding event
  offer_exits [] w = w
  offer_exits (s ∷ spends) w = offer_exits spends (elim s.tracked [
    | offer o ↦ elim (exit_op s.entry) [
      | none ↦ w
      | some op ↦
          let e = event tx op o.key in emit (record e { to = some o.buyer; from = o.seller }) w
    ]
    | _ ↦ w
  ])

  unfoldable pub place_merged : Option (ℕ × GapState) → Option (ℕ × GapState) → Work → Work
  unfolding Moves.merge_gaps
  place_merged (some (auth, lo_gap)) (some (_, hi_gap)) w =
      let merged = Moves.merge_gaps lo_gap hi_gap in
      place_quietly tx (gap_spk ext templates merged) (reg_bind templates auth) (gap merged) w
  place_merged _ _ w = w

  unfoldable pub name_exits : List Spend → Work → Work
  unfolding event
  name_exits [] w = w
  name_exits (s ∷ spends) w = name_exits spends (elim s.tracked [
    | name n ↦
        let op = if s.entry == Entry.name_reclaim then "reclaim" else "release" in
        let e = event tx op n.key in emit (record e { from = some n.owner }) w
    | _ ↦ w
  ])

  unfoldable pub apply_merge : List Spend → Work → Work
  unfolding place_merged name_exits find_gap
  apply_merge spends w =
      name_exits spends
        (place_merged (find_gap Entry.gap_merge spends) (find_gap Entry.gap_absorbed spends) w)

  -- The two halves of the gap, then the name; its event only with the name's output.
  unfoldable pub place_split : String → Option ℤ → ℕ → GapState × GapState × NameState → Work → Work
  unfolding place event
  place_split op years auth (left, right, nm) w =
      let bind = reg_bind templates auth in
      let w₁ = place_quietly tx (gap_spk ext templates left) bind (gap left) w in
      let w₂ = place_quietly tx (gap_spk ext templates right) bind (gap right) w₁ in
      elim (place tx (name_spk ext templates nm) bind (name nm) w₂) [
        | none ↦ w₂
        | some w₃ ↦
            let e = event tx op nm.key in emit (record e { to = some nm.owner; years = years }) w₃
      ]

  unfoldable pub register_gap : Spend → Tracked → Work → Work
  unfolding place_split register_args Moves.register_with_period
  register_gap s (gap g) w = elim (register_args s.sig) [
    | none ↦ w
    | some (n, owner, now, years) ↦
        place_split "register" (some years) s.idx
          (Moves.register_with_period ext g n owner now years templates.period_ms) w
  ]
  register_gap s _ w = w

  unfoldable pub import_gap : Spend → Tracked → Work → Work
  unfolding place_split import_args Moves.import_name
  import_gap s (gap g) w = elim (import_args s.sig) [
    | none ↦ w
    | some (n, owner, period_start, expires_at) ↦
        place_split "import" none s.idx (Moves.import_name ext g n owner period_start expires_at) w
  ]
  import_gap s _ w = w

  unfoldable pub apply_register : List Spend → Work → Work
  unfolding register_gap find_spend
  apply_register spends w = elim (find_spend Entry.gap_register spends) [
    | none ↦ w
    | some s ↦ register_gap s s.tracked w
  ]

  unfoldable pub apply_import : List Spend → Work → Work
  unfolding import_gap find_spend
  apply_import spends w = elim (find_spend Entry.gap_import spends) [
    | none ↦ w
    | some s ↦ import_gap s s.tracked w
  ]

  -- `old` is always given; `from` and `to` are set when the owner changes.
  unfoldable pub record_name :
      ℕ → NameState → String → NameState → Option ℤ → Option ℤ → Work → Work
  unfolding place event
  record_name auth ns op old price years w =
      elim (place tx (name_spk ext templates ns) (reg_bind templates auth) (name ns) w) [
        | none ↦ w
        | some w' ↦
            let e = event tx op ns.key in
            let moved = not (old.owner == ns.owner) in
            emit
              (record e {
                from = if moved then some old.owner else none;
                to = if moved then some ns.owner else none;
                price = price;
                years = years;
              })
              w'
      ]

  -- The match on a spend in the loop over continuations; `accepted`, `transferred` are `has`.
  unfoldable pub continue_spend : Bool → Bool → ℕ → Tracked → Entry → SigScript → Work → Work
  unfolding record_name arg_key arg_i64
  continue_spend accepted transferred auth (name old) Entry.name_transfer sig w =
      elim (arg_key sig 0) [
        | none ↦ w
        | some owner ↦
            record_name auth (Moves.name_transfer old owner)
              (if accepted then "offer_accepted" else "transfer") old none none w
      ]
  continue_spend accepted transferred auth (name old) Entry.name_buy sig w = elim (arg_key sig 0) [
    | none ↦ w
    | some owner ↦
        record_name auth (Moves.name_transfer old owner) "sale" old (some old.price) none w
  ]
  continue_spend accepted transferred auth (name old) Entry.name_list sig w = elim (arg_i64 sig 0) [
    | none ↦ w
    | some price ↦
        record_name auth (Moves.name_list old price) (if price == pos 0 then "delist" else "list")
          old (some price) none w
  ]
  continue_spend accepted transferred auth (name old) Entry.name_renew sig w =
      elim (arg_i64 sig 0) [
        | none ↦ w
        | some years ↦
            record_name auth (Moves.name_renew_with_period old years templates.period_ms) "renew"
              old none (some years) w
      ]
  continue_spend accepted transferred auth (name old) Entry.name_extend sig w =
      elim (arg_i64 sig 0) [
        | none ↦ w
        | some years ↦
            record_name auth (Moves.name_extend_with_period old years templates.period_ms) "extend"
              old none (some years) w
      ]
  continue_spend accepted false auth (offer o) Entry.offer_accept sig w =
      elim (name_by_key w.utxos o.key) [
        | none ↦ w
        | some (_, n) ↦ record_name auth (Moves.offer_accept n o) "offer_accepted" n none none w
      ]
  continue_spend accepted transferred auth _ _ sig w = w

  unfoldable pub continue_spends : Bool → Bool → List Spend → Work → Work
  unfolding continue_spend
  continue_spends accepted transferred [] w = w
  continue_spends accepted transferred (s ∷ spends) w =
      continue_spends accepted transferred spends
        (continue_spend accepted transferred s.idx s.tracked s.entry s.sig w)

  unfoldable pub branch : List Spend → Work → Work
  unfolding apply_merge apply_register apply_import continue_spends has
  branch spends w =
      if has spends Entry.gap_merge
      then apply_merge spends w
      else if has spends Entry.gap_register
      then apply_register spends w
      else if has spends Entry.gap_import
      then apply_import spends w
      else continue_spends (has spends Entry.offer_accept) (has spends Entry.name_transfer) spends w

  unfoldable pub apply_spends : List Spend → Work → Work
  unfolding apply_price_spends offer_exits branch
  apply_spends spends w =
      branch spends (offer_exits spends (apply_price_spends ext templates tx spends w))
