-- ===== src/Names/Transition.antt =====
-- kachat-names/src/transition.rs: the contracts, their entries, and what each entry does to a state.
use Prim.Native.String.{String}
use text.Mathlib.Text.{◌==◌ as str_eq}
use ka_chat_indexer.Prelude.{
  ℕ, ◌≡◌, refl, ap, ◌∙◌, sym, Bool, true, false, List, [], ◌∷◌, Option, none, some, Bytes, Eq, ◌==◌,
  nat_beq, nat_beq_iff, bytes_eq, if◌then◌else◌,
}
use ka_chat_indexer.Prelude.Int.{ℤ, pos}

abbrev pub year_ms : ℤ
year_ms = pos 31_536_000_000

pub data Contract : Type 0 where
  gap name offer price : Contract

pub data Entry : Type 0 where
  gap_register gap_import gap_merge gap_absorbed : Entry
  name_transfer name_list name_buy name_renew name_extend name_release name_reclaim : Entry
  offer_accept offer_withdraw offer_refund offer_decline : Entry
  price_use price_update price_follow : Entry

abbrev pub contract_index : Contract → ℕ
contract_index gap = 0
contract_index name = 1
contract_index offer = 2
contract_index price = 3

contract_at : ℕ → Contract
contract_at n =
    if nat_beq n 0 then gap else if nat_beq n 1 then name else if nat_beq n 2 then offer else price

contract_at-contract_index : (c : Contract) → contract_at (contract_index c) ≡ c
unfolding contract_at
contract_at-contract_index gap = refl
contract_at-contract_index name = refl
contract_at-contract_index offer = refl
contract_at-contract_index price = refl

pub contract_beq_iff :
    (a b : Contract)
    → (nat_beq (contract_index a) (contract_index b) ≡ true → a ≡ b)
      × (a ≡ b → nat_beq (contract_index a) (contract_index b) ≡ true)
contract_beq_iff a b = (
  λ h.
      sym (contract_at-contract_index a)
      ∙ ap contract_at ((nat_beq_iff _ _).0 h)
      ∙ contract_at-contract_index b,
  λ e. (nat_beq_iff _ _).1 (ap contract_index e),
)

instance abbrev pub contract_eq : Eq Contract
contract_eq = record {
  beq = λ a b. nat_beq (contract_index a) (contract_index b);
  beq_iff = contract_beq_iff;
}

abbrev pub entry_index : Entry → ℕ
entry_index gap_register = 0
entry_index gap_import = 1
entry_index gap_merge = 2
entry_index gap_absorbed = 3
entry_index name_transfer = 4
entry_index name_list = 5
entry_index name_buy = 6
entry_index name_renew = 7
entry_index name_extend = 8
entry_index name_release = 9
entry_index name_reclaim = 10
entry_index offer_accept = 11
entry_index offer_withdraw = 12
entry_index offer_refund = 13
entry_index offer_decline = 14
entry_index price_use = 15
entry_index price_update = 16
entry_index price_follow = 17

abbrev entries : List Entry
entries =
    gap_register ∷ gap_import ∷ gap_merge ∷ gap_absorbed ∷ name_transfer ∷ name_list ∷ name_buy
    ∷ name_renew ∷ name_extend ∷ name_release ∷ name_reclaim ∷ offer_accept ∷ offer_withdraw
    ∷ offer_refund ∷ offer_decline ∷ price_use ∷ price_update ∷ price_follow ∷ []

entry_at : ℕ → List Entry → Entry
entry_at n [] = gap_register
entry_at n (e ∷ es) = let rest = entry_at n es in if nat_beq n (entry_index e) then e else rest

entry_at-entry_index : (e : Entry) → entry_at (entry_index e) entries ≡ e
unfolding entry_at
entry_at-entry_index gap_register = refl
entry_at-entry_index _ = refl

pub entry_beq_iff :
    (a b : Entry)
    → (nat_beq (entry_index a) (entry_index b) ≡ true → a ≡ b)
      × (a ≡ b → nat_beq (entry_index a) (entry_index b) ≡ true)
entry_beq_iff a b = (
  λ h.
      sym (entry_at-entry_index a)
      ∙ ap (λ n. entry_at n entries) ((nat_beq_iff _ _).0 h)
      ∙ entry_at-entry_index b,
  λ e. (nat_beq_iff _ _).1 (ap entry_index e),
)

instance abbrev pub entry_eq : Eq Entry
entry_eq = record { beq = λ a b. nat_beq (entry_index a) (entry_index b); beq_iff = entry_beq_iff }

-- `Entry::from_manifest_name`.
unfoldable pub from_manifest_name : Contract → String → Option Entry
from_manifest_name gap s =
    if str_eq s "register"
    then some gap_register
    else if str_eq s "import"
    then some gap_import
    else if str_eq s "merge"
    then some gap_merge
    else if str_eq s "absorbed"
    then some gap_absorbed
    else none
from_manifest_name name s =
    if str_eq s "transfer"
    then some name_transfer
    else if str_eq s "list"
    then some name_list
    else if str_eq s "buy"
    then some name_buy
    else if str_eq s "renew"
    then some name_renew
    else if str_eq s "extend"
    then some name_extend
    else if str_eq s "release"
    then some name_release
    else if str_eq s "reclaim"
    then some name_reclaim
    else none
from_manifest_name offer s =
    if str_eq s "accept"
    then some offer_accept
    else if str_eq s "withdraw"
    then some offer_withdraw
    else if str_eq s "refund"
    then some offer_refund
    else if str_eq s "decline"
    then some offer_decline
    else none
from_manifest_name price s =
    if str_eq s "use"
    then some price_use
    else if str_eq s "update"
    then some price_update
    else if str_eq s "follow"
    then some price_follow
    else none

-- `Entry::contract`.
unfoldable pub contract : Entry → Contract
contract gap_register = gap
contract gap_import = gap
contract gap_merge = gap
contract gap_absorbed = gap
contract name_transfer = name
contract name_list = name
contract name_buy = name
contract name_renew = name
contract name_extend = name
contract name_release = name
contract name_reclaim = name
contract offer_accept = offer
contract offer_withdraw = offer
contract offer_refund = offer
contract offer_decline = offer
contract price_use = price
contract price_update = price
contract price_follow = price

-- `Entry::is_exit`.
unfoldable pub is_exit : Entry → Bool
is_exit gap_merge = true
is_exit gap_absorbed = true
is_exit name_release = true
is_exit name_reclaim = true
is_exit offer_accept = true
is_exit offer_withdraw = true
is_exit offer_refund = true
is_exit offer_decline = true
is_exit _ = false

-- The pinned dispatch tags of registry v2.
unfoldable pub entry_for_tag : Bytes → Option Entry
entry_for_tag tag =
    if tag == 0x86 ∷ 0x67 ∷ 0xaf ∷ 0x5e ∷ []
    then some gap_register
    else if tag == 0x63 ∷ 0xd2 ∷ 0x5b ∷ 0xc2 ∷ []
    then some gap_merge
    else if tag == 0xda ∷ 0xb7 ∷ 0x63 ∷ 0x55 ∷ []
    then some gap_absorbed
    else if tag == 0x79 ∷ 0x4d ∷ 0xca ∷ 0x54 ∷ []
    then some name_transfer
    else if tag == 0x67 ∷ 0x4a ∷ 0x8e ∷ 0xa4 ∷ []
    then some name_list
    else if tag == 0x76 ∷ 0xa0 ∷ 0x2e ∷ 0xb9 ∷ []
    then some name_buy
    else if tag == 0xb7 ∷ 0x06 ∷ 0xac ∷ 0x38 ∷ []
    then some name_renew
    else if tag == 0x2c ∷ 0xe7 ∷ 0xcc ∷ 0xeb ∷ []
    then some name_extend
    else if tag == 0x38 ∷ 0x8a ∷ 0xd0 ∷ 0xb4 ∷ []
    then some name_release
    else if tag == 0xf5 ∷ 0x6a ∷ 0xf4 ∷ 0xdf ∷ []
    then some name_reclaim
    else if tag == 0x9d ∷ 0x40 ∷ 0x43 ∷ 0xb4 ∷ []
    then some offer_accept
    else if tag == 0x80 ∷ 0x34 ∷ 0x4f ∷ 0xf1 ∷ []
    then some offer_withdraw
    else if tag == 0x77 ∷ 0x7f ∷ 0x5b ∷ 0x11 ∷ []
    then some offer_refund
    else none
