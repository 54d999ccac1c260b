-- ===== src/Names/Externals.antt =====
-- What kachat-names/src takes from other crates: hashes, hex, curve points, and JSON.
use ka_chat_indexer.Prelude.{ℕ, Bool, Option, Bytes}

-- The deserialised record of profile.rs.
pub record RawProfile : Type 0 where
  pub v : Option ℕ
  pub avatar : Option Bytes
  pub banner : Option Bytes
  pub bio : Option Bytes
  pub linktree : Option Bytes
  pub primary_name : Option Bytes

pub record Externals : Type 0 where
  -- `blake3::hash`, and `blake2b_simd` with a 32-byte digest and no key.
  pub blake3 : Bytes → Bytes
  pub blake2b : Bytes → Bytes
  -- `hex::decode`.
  pub hex_decode : Bytes → Option Bytes
  -- `secp256k1::XOnlyPublicKey::from_slice(…).is_ok()`.
  pub is_x_only_key : Bytes → Bool
  -- `serde_json::from_str::<RawProfile>`.
  pub raw_profile : Bytes → Option RawProfile
