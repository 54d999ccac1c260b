-- ===== src/Chess/Arena/Reducer/Order.antt =====
-- The replay and the order in which its rows come.
use ka_chat_indexer.Prelude.{◌≡◌, ◌⊎◌, inl, inr, ap, true, false, List, [], arith, int_eq}
use ka_chat_indexer.Prelude.Int.{◌<ℤ◌, int_beq_iff}
use ka_chat_indexer.Prelude.ByteOrder.{bytes_lt_asym, bytes_lt_trans, TextLess, TextLess-bytes_lt}
use ka_chat_indexer.Prelude.Sort.{Shuffled, Pairs, Pairs-weaken, IsStrictOrder, sort_by-sorted}
use ka_chat_indexer.Chess.Arena.Message.{ChessExternals, ArenaEvent}
use ka_chat_indexer.Chess.Arena.Reducer.{apply_events, event_lt, reduce}

event_lt_asym : (a b : ArenaEvent) → event_lt a b ≡ true → event_lt b a ≡ false
unfolding event_lt
event_lt_asym a b h = ground (
  arith,
  bytes_lt_asym a.tx_id b.tx_id,
  int_beq_iff a.block_time b.block_time,
  int_beq_iff b.block_time a.block_time,
)

event_lt_trans :
    (a b c : ArenaEvent) → event_lt a b ≡ true → event_lt b c ≡ true → event_lt a c ≡ true
unfolding event_lt
event_lt_trans a b c h k = ground (
  arith,
  bytes_lt_trans a.tx_id b.tx_id c.tx_id,
  int_beq_iff a.block_time b.block_time,
  int_beq_iff b.block_time c.block_time,
  int_beq_iff a.block_time c.block_time,
)

event_lt-IsStrictOrder : IsStrictOrder event_lt
event_lt-IsStrictOrder = record { asym = event_lt_asym; trans = event_lt_trans }

-- Chain order: the block time, then the txid.
abbrev pub Before : ArenaEvent → ArenaEvent → Type 0
Before a b =
    (a.block_time <ℤ b.block_time) ⊎ ((a.block_time ≡ b.block_time) × TextLess a.tx_id b.tx_id)

event_lt-Before : (a b : ArenaEvent) → Before a b → event_lt a b ≡ true
unfolding event_lt
event_lt-Before a b (inl h) = ground (arith, h, int_beq_iff a.block_time b.block_time)
event_lt-Before a b (inr (e, h)) =
    let t = TextLess-bytes_lt h in ground (arith, e, t, int_beq_iff a.block_time b.block_time)

-- The replay of events in any order applies them, to no tournaments, in chain order: by block time,
-- and by txid where block times are equal, provided that no two have one block time and one txid.
pub reduce-Shuffled :
    (ext : ChessExternals) (events chain : List ArenaEvent)
    → Shuffled chain events
    → Pairs Before chain
    → reduce ext events ≡ apply_events ext chain []
unfolding reduce
reduce-Shuffled ext events chain r ordered =
    ap (λ l. apply_events ext l [])
      (sort_by-sorted event_lt event_lt-IsStrictOrder events chain r
        (Pairs-weaken event_lt-Before chain ordered))
