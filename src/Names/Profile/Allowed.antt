-- ===== src/Names/Profile/Allowed.antt =====
-- What a parsed profile can hold.
use ka_chat_indexer.Prelude.{◌≡◌, true, ◌&&◌, ltb, some, Bytes, length}
use ka_chat_indexer.Prelude.Text.{starts_with}
use ka_chat_indexer.Names.Externals.{Externals}
use ka_chat_indexer.Names.Hashes.{is_valid_name}
use ka_chat_indexer.Names.Profile.{
  Profile, allowed, avatar_hosts, banner_hosts, bio_hosts, linktree_prefix,
}

-- Every link is on a host that its field allows, with a handle after it; the name is valid.
pub record IsAllowed (p : Profile) : Type 0 where
  pub avatar : (s : Bytes) → p.avatar ≡ some s → allowed s avatar_hosts ≡ true
  pub banner : (s : Bytes) → p.banner ≡ some s → allowed s banner_hosts ≡ true
  pub bio : (s : Bytes) → p.bio ≡ some s → allowed s bio_hosts ≡ true
  pub linktree :
      (s : Bytes)
      → p.linktree ≡ some s
      → (starts_with linktree_prefix s && ltb (length linktree_prefix) (length s)) ≡ true
  pub primary_name : (s : Bytes) → p.primary_name ≡ some s → is_valid_name s ≡ true
