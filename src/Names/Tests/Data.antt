-- ===== src/Names/Tests/Data.antt =====
-- A toy instance of the external functions, and a chain that registers a name and lists it.
use ka_chat_indexer.Prelude.{ℕ, true, [], ◌∷◌, ◌++◌, none, some, Bytes, take, replicate}
use ka_chat_indexer.Prelude.Int.{pos}
use ka_chat_indexer.Prelude.Text.{codes}
use ka_chat_indexer.Names.Externals.{Externals}
use ka_chat_indexer.Names.Script.{num, data_push}
use ka_chat_indexer.Names.Script.RoundTrip.{encode_pushes}
use ka_chat_indexer.Names.States.{GapState, NameState}
use ka_chat_indexer.Names.Moves.{register_with_period}
use ka_chat_indexer.Names.Transition.{year_ms}
use ka_chat_indexer.Names.Templates.{
  Outpoint, ContractTemplate, Templates, new, gap, gap_spk, name_spk,
}
use ka_chat_indexer.Names.Tx.{Tx, TxOutput}
use ka_chat_indexer.Names.Registry.State.{Registry}
use ka_chat_indexer.Names.Follower.{Follower}

-- Digests of 32 bytes: what is hashed, padded and cut.
abbrev pub toy : Externals
toy = record {
  blake3 = λ b. take 32 (b ++ replicate 32 7);
  blake2b = λ b. take 32 (b ++ replicate 32 9);
  hex_decode = λ b. some b;
  is_x_only_key = λ b. true;
  raw_profile = λ b. some (record {
    v = some 1;
    avatar = some (codes "https://x.com/a");
    banner = some (codes "https://t.me/a");
    bio = none;
    linktree = none;
    primary_name = some (codes "alice");
  });
}

abbrev template : ℕ → ContractTemplate
template len = record { prefix = 0x6b ∷ []; suffix = 0xaa ∷ []; state_offset = 1; state_len = len }

abbrev pub templates : Templates
templates = new (template 66) (template 126) (template 75)

abbrev pub genesis : Outpoint
genesis = record { txid = replicate 32 1; index = 0 }

abbrev pub genesis_gap : GapState
genesis_gap = record { lo = replicate 32 0; hi = replicate 32 255 }

abbrev pub start_registry : Registry
start_registry = record { utxos = (genesis, gap genesis_gap) ∷ []; profiles = []; journal = [] }

abbrev pub start_follower : Follower
start_follower = record {
  registry = start_registry;
  checkpoint = some (replicate 32 0);
  finality_keep = 10;
}

abbrev pub owner_key : Bytes
owner_key = replicate 32 5

abbrev pub block_a : Bytes
block_a = replicate 32 0xa0

abbrev pub split : GapState × GapState × NameState
split = register_with_period toy genesis_gap (codes "alice") owner_key (pos 1000) (pos 2) year_ms

abbrev output : Bytes → TxOutput
output spk = record { script_public_key = spk; value = 100; covenant = none }

abbrev pub register_script : Bytes
register_script = encode_pushes (
    data_push (codes "alice")
    ∷ data_push owner_key
    ∷ data_push (replicate 32 3)
    ∷ data_push (0xe8 ∷ 0x03 ∷ [])
    ∷ num (pos 2)
    ∷ data_push (0x86 ∷ 0x67 ∷ 0xaf ∷ 0x5e ∷ [])
    ∷ data_push (0x6b ∷ [])
    ∷ [])

abbrev pub register_tx : Tx
register_tx = record {
  id = replicate 32 2;
  inputs =
      record {
        previous_outpoint = genesis;
        signature_script = register_script;
        spent_script = codes "spk";
        spent_amount = some 400;
      }
      ∷ [];
  outputs =
      output (gap_spk toy templates split.0)
      ∷ output (gap_spk toy templates split.1)
      ∷ output (name_spk toy templates split.2)
      ∷ [];
  payload = [];
  accepting_block = block_a;
  accepting_daa = 1;
  block_time = pos 1000;
}

-- A self-send that sets a profile.
abbrev pub profile_tx : Tx
profile_tx = record {
  id = replicate 32 4;
  inputs =
      record {
        previous_outpoint = record { txid = replicate 32 6; index = 0 };
        signature_script = [];
        spent_script = codes "spk";
        spent_amount = none;
      }
      ∷ [];
  outputs = output (codes "spk") ∷ [];
  payload = codes "kchat:1:profile:{}";
  accepting_block = block_a;
  accepting_daa = 2;
  block_time = pos 2000;
}
