-- ===== src/Names/Hashes.antt =====
-- kachat-names/src/lib.rs: keys, script hashes, commitments, and the rule for a name.
pub mod Padding
use ka_chat_indexer.Prelude.{
  ℕ, ◌-◌, Bool, false, ◌&&◌, ◌||◌, [], ◌∷◌, ◌++◌, Bytes, length, take, replicate, get_or, all, ltb,
  leb, ◌==◌, nat_eq, if◌then◌else◌,
}
use Prim.Native.Nat.{min}
use ka_chat_indexer.Prelude.Text.{codes}
use ka_chat_indexer.Names.Externals.{Externals}

unfoldable pub pad_name : Bytes → Bytes
pad_name name = let n = min (length name) 32 in take n name ++ replicate (32 - n) 0

abbrev pub commit_domain : Bytes
commit_domain = codes "kachat-commit:v1"

unfoldable pub commit_redeem : Bytes → Bytes → Bytes
commit_redeem c owner = (0x20 ∷ []) ++ (c ++ ((0x75 ∷ 0x20 ∷ []) ++ (owner ++ (0xac ∷ []))))

is_name_byte : ℕ → Bool
is_name_byte c = (leb b'a' c && leb c b'z') || (leb b'0' c && leb c b'9') || c == b'-'

unfoldable pub is_valid_name : Bytes → Bool
unfolding is_name_byte all
is_valid_name name =
    if length name == 0 || ltb 32 (length name)
    then false
    else if get_or name 0 0 == b'-' || get_or name (length name - 1) 0 == b'-'
    then false
    else all is_name_byte name

module _ (ext : Externals) where
  unfoldable pub name_key : Bytes → Bytes
  name_key name = ext.blake3 name

  unfoldable pub blake2b_256 : Bytes → Bytes
  blake2b_256 b = ext.blake2b b

  unfoldable pub p2sh_script : Bytes → Bytes
  unfolding blake2b_256
  p2sh_script redeem = 0xaa ∷ 0x20 ∷ (blake2b_256 redeem ++ (0x87 ∷ []))

  -- `Hasher::update` appends to what is hashed.
  unfoldable pub commitment : Bytes → Bytes → Bytes → Bytes
  commitment name owner salt = ext.blake3 (commit_domain ++ (name ++ (owner ++ salt)))
