-- ===== src/Lib.antt =====
-- KaChat indexer: the .kachat names registry, the chat protocol and the chess arena.
--
-- The names crate (kachat-names/src) follows the chain's accepted transactions and keeps the
-- registry of .kachat names. A name is a covenant output whose P2SH script commits to its state; a
-- gap output holds the free interval between two names; offers and price shards are outputs too.
-- The follower pulls a batch (blocks removed by a reorg, then accepted transactions), takes the
-- removed blocks back, applies the transactions, moves its checkpoint and prunes the journal.
-- Applying a transaction finds the tracked outputs that it spends, decodes each input's signature
-- script to an entry and its arguments, computes the successor state, and tracks the output that
-- pays the successor's script under the covenant that binds it. Each application is journaled.
-- The chat crate (kasia-indexer/protocol/src) parses payloads into sealed operations.
-- The web server's chess module (kachat-webserver/src/chess.rs) replays the messages of the arena:
-- it sorts them by block time and txid, and folds them over the tournaments. A message opens a
-- room, takes or gives up a seat, cancels, moves, resigns or claims the time; a full room starts its
-- games, and the winners of two games meet in the next round. The leaderboards, the lobby and the
-- boards of games against bots are computed from the replay. The rules of chess are in the module.
--
-- Files:
--   Prelude        shared helpers: byte strings, Boolean tests, equality instances, association
--                  lists, 64-bit integers with wrap-around, text as UTF-8 bytes, a stable sort.
--   Names/Externals  what other crates compute: blake3, blake2b, hex, secp256k1, serde_json.
--   Names/Hashes   kachat-names/src/lib.rs: pad_name, name_key, p2sh_script, commitment,
--                  commit_redeem, is_valid_name.
--   Names/Num8, Names/Script, Names/States  kachat-names/src/lib.rs: num8 integers; pushes, script
--                  numbers and signature scripts; the codecs of the four states.
--   Names/Transition, Names/Moves  kachat-names/src/transition.rs: the entries and their tags; the
--                  successor states.
--   Names/Templates, Names/Tx  kachat-names/src/ingest.rs: contract templates, tracked outputs,
--                  transactions, Tx::fee.
--   Names/Profile  kachat-names/src/profile.rs: parse_profile, platform_of.
--   Names/Registry kachat-names/src/ingest.rs: State (Registry, its lookups, events), Outputs
--                  (find_output, reg_bind), Prices (apply_price_spends), Continue (apply_spends,
--                  apply_register, apply_import, record_name), Markers (apply_offer_marker,
--                  apply_profile), Apply (apply, apply_profile_only, undo_block, the journal).
--                  Runs describes what any handler does to the outputs as a relation.
--   Names/Follower kachat-names/src/follower.rs: Follower, step, step_profiles.
--   Chat/Operation, Chat/Deserializer  kasia-indexer/protocol/src/operation.rs and
--                  operation/deserializer.rs: the sealed operations, parse_sealed_operation.
--   Chess          kachat-webserver/src/chess.rs. Chess/Rules: Board (pieces, squares, the board),
--                  Attack (is_square_attacked, is_king_in_check), Moves (pseudo_legal_moves), Apply
--                  (apply), Legal (legal_moves and the ends of a game); Rays, Targets, Reach and
--                  Sound have lemmas. Chess/Arena: Message (room ids, decode), State (Game,
--                  Tournament), Bracket (start, advance_after, finish, position_key, expire_seats), Play
--                  (apply_move, and the part of "resign" and "claim" that changes a game), Reducer
--                  (apply_event, reduce). Chess/Leaderboard, Chess/Calendar (the periods),
--                  Chess/Snapshot (compute_all), Chess/Bots (compute_bots).
--                  A step of the reducer on one game is the relation GameStep of
--                  Chess/Arena/Reducer/Steps, a replay the relation GameHistory of History.
--   Names/Tests, Chat/Tests, Chess/Tests  the theorems at concrete inputs.
--
-- Representation: a byte is a natural number and a string is its UTF-8 bytes. An i64 is an integer
-- whose sums and products wrap as in a release build. A HashMap is an association list, and where
-- the code iterates over one the order is the list's. What methods of Registry change in place is
-- the record Work (the tracked outputs, the claimed indices, the events), passed on from call to
-- call; `find_output` and the insertion after it are `place`. A step of the follower is given the
-- batch that the chain source returned; an error of the source leaves the follower as it was.
-- `name_str` is represented by the bytes before its lossy conversion. Logging is left out.
-- The chess board is a function of rank and file, both below 8; set_piece is called on squares of
-- the board only, where the array's index is in bounds. Coordinates, seats, rounds and counters are
-- small and do not overflow; times are i64 that wrap. `to_lowercase` is that of ASCII: no other
-- character lowers to a letter that the code compares. `seeds[i]` of a room that starts is the
-- empty string where the list is shorter; such a room is full.
--
-- Fuel: the loop of `parse_pushes` runs on the bytes that are left, with the script's length as
-- fuel: each round reads at least one byte. A sliding piece's loop has 8 as fuel, the width of the
-- board. Every other loop is structural recursion.
--
-- Not modelled: Templates::from_manifest (JSON), and the crates that do I/O around these: the
-- names follower's store and bootstrap, the post transaction processor, the rest of the web server,
-- the admin tool, the chat indexer's database, actors and HTTP service.
pub mod Prelude
pub mod Names
pub mod Chat
pub mod Chess
