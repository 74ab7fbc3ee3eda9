-- ===== src/PowerTrade/ServiceExamples.antt =====
-- Histories of the snapshot service.
use arby.Common.{◌≡◌, refl, inl, List, [], ◌∷◌, map, String_discrete, ℕ_discrete, arith}
use arby.Common.Int.{pos, ◌-ℤ◌, ◌+ℤ◌, ℤ_discrete}
use arby.Common.Assoc.{lookup, assign}
use arby.Common.Result.{ok, err, dangling_iterator}
use arby.Trading.Types.{buy}
use arby.PowerTrade.Ticks.{AddTick, TickRecord}
use arby.PowerTrade.OrderBook.{add, remove, reset, view, empty_book}
use arby.PowerTrade.OrderBook
use arby.PowerTrade.OrderBook.Spec.{find_order, order_of}
use arby.PowerTrade.OrderBook.Side.{emplace_level, assign_side, index_ladder}
use arby.PowerTrade.SnapshotService.{Snapshot, process_tick, catch_up, deallocate_snapshot}
use arby.PowerTrade.TickHistory.{add_tick, add_watermark}
use arby.PowerTrade.TickHistory.Sequences.{emplace, find, insert}
use arby.PowerTrade.SnapshotService.Replay.{replay_tick, tick_view, add_all, add_all_view}
use arby.PowerTrade.SnapshotService.Runs
use arby.PowerTrade.SnapshotService.Runs.{Event, System, new_system, run, views, run-views}

abbrev bid : AddTick
bid = record {
  order_id = "a";
  price = pos 300_000_000_000;
  qty = pos 500_000_000;
  timestamp = 7;
  side = buy;
}

abbrev whole_book : TickRecord
whole_book = TickRecord.snapshot (record { bids = bid ∷ []; offers = [] })

-- The snapshot of the first tick comes back, and is brought up to the second.
abbrev history : List Event
history =
    Event.ticked 1 whole_book
    ∷ Event.released 0
    ∷ Event.ticked 2 (TickRecord.add (record bid { order_id = "b" }))
    ∷ []

run-views_example :
    (xs : List Snapshot) × (after : System) × (run history new_system ≡ ok (xs, after))
    × (views history (view empty_book) ≡ ok (map (λ x. view x.book) xs))
unfolding Runs.step Runs.take_out process_tick catch_up replay_tick tick_view add_all add_all_view
    deallocate_snapshot find_order order_of add_tick emplace find add_watermark insert OrderBook.add
    OrderBook.assign lookup assign emplace_level assign_side index_ladder String_discrete ℤ_discrete
    ℕ_discrete
run-views_example = run-views history (
  record {
    fresh = ((refl, tt), tt);
    next = _;
    leads = refl;
    generations = omega arith;
    sequences = omega arith;
    begun = omega arith;
    reusable = tt;
  },
  (
    (_, _, refl),
    (
      record {
        fresh = refl;
        next = _;
        leads = refl;
        generations = omega arith;
        sequences = omega arith;
        begun = omega arith;
        reusable = inl (refl, (whole_book, refl));
      },
      tt,
    ),
  ),
)

-- The one observer gives each snapshot back before the next tick. The second time the watermarks run
-- out and the history with them, so the book is copied over one that has an order, and the replay of
-- the removal of that order follows an iterator of the book before.
abbrev four_ticks : List Event
four_ticks =
    Event.ticked 1 whole_book
    ∷ Event.released 0
    ∷ Event.ticked 2 (TickRecord.add (record bid { order_id = "b" }))
    ∷ Event.released 0
    ∷ Event.ticked 3 (TickRecord.add (record bid { order_id = "c" }))
    ∷ Event.released 0
    ∷ Event.ticked 4 (TickRecord.remove (record { order_id = "a"; timestamp = 10; side = buy }))
    ∷ []

four_ticks_test : run four_ticks new_system ≡ err dangling_iterator
unfolding Runs.run Runs.step process_tick replay_tick catch_up Runs.take_out deallocate_snapshot
    add_tick add_watermark assign String_discrete ℤ_discrete ◌-ℤ◌ ◌+ℤ◌
four_ticks_test = refl
