-- ===== src/Names/Profile.antt =====
-- kachat-names/src/profile.rs: address profiles.
pub mod Allowed
use ka_chat_indexer.Prelude.{
  ℕ, Bool, false, ◌&&◌, List, [], ◌∷◌, Option, none, some, Bytes, length, any, ltb, ◌==◌, nat_eq,
  if◌then◌else◌, ◌>>=◌,
}
use ka_chat_indexer.Prelude.Text.{codes, starts_with}
use ka_chat_indexer.Names.Externals.{Externals, RawProfile}
use ka_chat_indexer.Names.Hashes.{is_valid_name}

abbrev pub max_profile_bytes : ℕ
max_profile_bytes = 2048

abbrev pub x_host : Bytes
x_host = codes "https://x.com/"

abbrev pub youtube : Bytes
youtube = codes "https://www.youtube.com/"

abbrev pub discord : Bytes
discord = codes "https://discord.gg/"

abbrev pub telegram : Bytes
telegram = codes "https://t.me/"

abbrev pub twitch : Bytes
twitch = codes "https://www.twitch.tv/"

abbrev pub github : Bytes
github = codes "https://github.com/"

abbrev pub facebook : Bytes
facebook = codes "https://www.facebook.com/"

abbrev pub instagram : Bytes
instagram = codes "https://www.instagram.com/"

abbrev pub tiktok : Bytes
tiktok = codes "https://www.tiktok.com/"

abbrev pub linkedin : Bytes
linkedin = codes "https://www.linkedin.com/"

unfoldable pub avatar_hosts : List Bytes
avatar_hosts =
    x_host ∷ youtube ∷ discord ∷ telegram ∷ twitch ∷ github ∷ facebook ∷ instagram ∷ tiktok
    ∷ linkedin ∷ []

unfoldable pub banner_hosts : List Bytes
banner_hosts = x_host ∷ youtube ∷ discord ∷ []

unfoldable pub bio_hosts : List Bytes
bio_hosts = x_host ∷ youtube ∷ discord ∷ telegram ∷ twitch ∷ github ∷ []

abbrev pub linktree_prefix : Bytes
linktree_prefix = codes "https://linktr.ee/"

pub record Profile : Type 0 where
  pub avatar : Option Bytes
  pub banner : Option Bytes
  pub bio : Option Bytes
  pub linktree : Option Bytes
  pub primary_name : Option Bytes

unfoldable pub allowed : Bytes → List Bytes → Bool
unfolding any starts_with
allowed url hosts = any (λ h. starts_with h url && ltb (length h) (length url)) hosts

-- `Option::filter`.
abbrev pub keep_if : (Bytes → Bool) → Option Bytes → Option Bytes
keep_if test none = none
keep_if test (some s) = if test s then some s else none

unfoldable pub validate : RawProfile → Profile
unfolding allowed is_valid_name
validate raw = record {
  avatar = keep_if (λ s. allowed s avatar_hosts) raw.avatar;
  banner = keep_if (λ s. allowed s banner_hosts) raw.banner;
  bio = keep_if (λ s. allowed s bio_hosts) raw.bio;
  linktree =
      keep_if (λ s. starts_with linktree_prefix s && ltb (length linktree_prefix) (length s))
        raw.linktree;
  primary_name = keep_if is_valid_name raw.primary_name;
}

unfoldable pub is_one : Option ℕ → Bool
is_one none = false
is_one (some v) = v == 1

unfoldable pub parse_profile : Externals → Bytes → Option Profile
parse_profile ext json =
    if ltb max_profile_bytes (length json)
    then none
    else do raw ← ext.raw_profile json; if is_one raw.v then some (validate raw) else none

find_host : Bytes → List (Bytes × Bytes) → Option Bytes
unfolding starts_with
find_host url [] = none
find_host url ((h, p) ∷ hosts) =
    let rest = find_host url hosts in if starts_with h url then some p else rest

unfoldable pub platform_of : Bytes → Option Bytes
unfolding find_host
platform_of url = find_host url (
    (x_host, codes "x")
    ∷ (youtube, codes "youtube")
    ∷ (discord, codes "discord")
    ∷ (telegram, codes "telegram")
    ∷ (twitch, codes "twitch")
    ∷ (github, codes "github")
    ∷ (facebook, codes "facebook")
    ∷ (instagram, codes "instagram")
    ∷ (tiktok, codes "tiktok")
    ∷ (linkedin, codes "linkedin")
    ∷ [])
