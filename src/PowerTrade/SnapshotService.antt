-- ===== src/PowerTrade/SnapshotService.antt =====
-- arby/power_trade/orderbook_snapshot_service.hpp and .cpp: the service that applies each tick to
-- the order book, and brings a snapshot up to it, a released one by replaying the ticks since.
pub mod Replay
pub mod CatchUp
pub mod Held
pub mod Histories
pub mod Runs
pub mod Sums
use arby.Common.{
  ℕ, ◌+◌, ◌%◌, Bool, true, false, if◌then◌else◌, ◌==◌, List, [], ◌∷◌, Option, none, some,
}
use arby.Common.Result.{Result, ok, ◌>>=◌}
use arby.Trading.Types.{Timestamp}
use arby.Trading.Feed.{FeedSnapshot, new_feed_snapshot}
use arby.PowerTrade.Ticks.{AddTick, TickRecord, SnapshotTick}
use arby.PowerTrade.Ticks
use arby.PowerTrade.OrderBook.{OrderBook, empty_book}
use arby.PowerTrade.OrderBook
use arby.PowerTrade.TickHistory.{
  TickHistory, empty_history, u64_mod, highest_sequence, add_tick, add_watermark, remove_watermark,
}
use arby.PowerTrade.TickHistory
use arby.PowerTrade.TickHistory.Sequences.{find, after}
use Replay.{replay_tick, replay_all}

pub record Snapshot : Type 0 where
  pub feed : FeedSnapshot
  pub generation : ℕ
  pub sequence : ℕ
  pub book : OrderBook

-- The head of the free list is the back of the vector.
pub record Service : Type 0 where
  pub tick_history : TickHistory TickRecord
  pub current_generation : ℕ
  pub order_book : OrderBook
  pub free_snaps : List Snapshot

abbrev pub new_service : Service
new_service = record {
  tick_history = empty_history;
  current_generation = 0;
  order_book = empty_book;
  free_snaps = [];
}

abbrev pub new_snapshot : Timestamp → Snapshot
new_snapshot now = record {
  feed = new_feed_snapshot now;
  generation = 0;
  sequence = 0;
  book = empty_book;
}

abbrev pub allocate_snapshot : Timestamp → List Snapshot → Snapshot × List Snapshot
allocate_snapshot now [] = (new_snapshot now, [])
allocate_snapshot now (x ∷ free) = (x, free)

unfoldable pub deallocate_snapshot : Snapshot → Service → Service
deallocate_snapshot x s = record s {
  free_snaps = record x { feed = record (x.feed) { parents = [] } } ∷ s.free_snaps;
}

-- A snapshot tick begins a generation, with no history.
abbrev pub begin : TickRecord → Service → Service
begin (TickRecord.snapshot t) s = record s {
  tick_history = TickHistory.reset s.tick_history;
  current_generation = (s.current_generation + 1) % u64_mod;
}
begin t s = s

-- The book of an allocated snapshot, brought up to the book of the service, and the history then.
unfoldable pub catch_up :
    ℕ → OrderBook → TickHistory TickRecord → Snapshot → Result (OrderBook × TickHistory TickRecord)
unfolding OrderBook.assign find after replay_all remove_watermark
catch_up generation book h x =
    if x.generation == generation
    then elim (find x.sequence h.history) [
      | none ↦ ok (OrderBook.assign x.book book, h)
      | some _ ↦ do
        b ← replay_all x.book (after x.sequence h.history)
        ok (b, remove_watermark x.sequence h)
    ]
    else ok (OrderBook.assign x.book book, h)

abbrev pub issue :
    Timestamp → OrderBook → OrderBook → ℕ → TickHistory TickRecord → Snapshot → Snapshot
issue now book copy generation h x = record x {
  feed = record (x.feed) { timestamp = now; upstream_time = book.last_update };
  generation = generation;
  sequence = highest_sequence h;
  book = copy;
}

-- `now` is what the clock says.
unfoldable pub process_tick : Timestamp → TickRecord → Service → Result (Snapshot × Service)
process_tick now tick s0 = do
  let s = begin tick s0
  let h = add_tick tick s.tick_history
  book ← replay_tick s.order_book tick
  let allocated = allocate_snapshot now s.free_snaps
  (copy, h') ← catch_up s.current_generation book h allocated.0
  ok (
    issue now book copy s.current_generation h' allocated.0,
    record {
      tick_history = add_watermark (highest_sequence h') h';
      current_generation = s.current_generation;
      order_book = book;
      free_snaps = allocated.1;
    },
  )
