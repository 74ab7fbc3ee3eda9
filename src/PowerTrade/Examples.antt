-- ===== src/PowerTrade/Examples.antt =====
-- Runs of the order book and of the snapshot service, and the theorems at concrete books.
use arby.Common.{List, false, ℕ, ◌≡◌, refl, String_discrete, ℕ_discrete, [], ◌∷◌, none, arith}
use arby.Common.Int.{pos, ℤ_discrete, ◌+ℤ◌, ◌-ℤ◌}
use arby.Common.Result.{ok, err, map_ok, use_after_free, dangling_iterator}
use arby.Common.Assoc.{lookup, assign}
use arby.Trading.Types.{buy, epoch}
use arby.Trading.Feed.{good}
use arby.PowerTrade.Ticks.{AddTick, ExecuteTick, TickRecord}
use arby.PowerTrade.OrderBook.{OrderBook, empty_book, add, execute, view}
use arby.PowerTrade.OrderBook.BookSpec.{BookView, remove_view, no_orders}
use arby.PowerTrade.OrderBook.Spec.{find_order, order_of}
use arby.PowerTrade.OrderBook.Side.{BookSide, emplace_level, assign_side, remove_order}
use arby.PowerTrade.OrderBook.Refines.{side_view}
use arby.PowerTrade.OrderBook.Assigned.{assign_side-dangles}
use arby.PowerTrade.OrderBook.Books.{IsSoundBook, empty_book-IsSoundBook, add-IsSoundBook}
use arby.PowerTrade.TickHistory.{TickHistory, remove_watermark}
use arby.PowerTrade.TickHistory.Sequences.{find, after, erase}
use arby.PowerTrade.TickHistory.Retained.{IsLow, find-remove_watermark}
use arby.PowerTrade.SnapshotService.{Snapshot, Service, new_snapshot, process_tick}
use arby.PowerTrade.SnapshotService.Replay.{
  replay_tick, tick_view, replay_tick-IsSoundBook, replay_tick-refines,
}
use arby.PowerTrade.SnapshotService.Sums.{IsSummedBook, replay_tick-IsSummedBook}
use arby.PowerTrade.SnapshotService.CatchUp.{Issued, process_tick_total}
use arby.PowerTrade.Listener
use arby.PowerTrade.SnapshotService
use arby.PowerTrade.Listener.{Listener, Event, construct, handle, run, down}
use arby.PowerTrade.Listener.Conditions.{IsHonest, run-good}

abbrev first_bid : AddTick
first_bid = record {
  order_id = "a";
  price = pos 300_000_000_000;
  qty = pos 500_000_000;
  timestamp = 7;
  side = buy;
}

abbrev second_bid : AddTick
second_bid = record first_bid { order_id = "b"; timestamp = 8 }

abbrev higher_bid : AddTick
higher_bid = record first_bid { order_id = "c"; price = pos 310_000_000_000; timestamp = 9 }

-- Two bids at one price and one above it.
abbrev three_bids : OrderBook
three_bids = add (add (add empty_book first_bid) second_bid) higher_bid

three_bids-IsSoundBook : IsSoundBook three_bids
unfolding add lookup assign find_order order_of emplace_level String_discrete ℤ_discrete ℕ_discrete
three_bids-IsSoundBook =
    add-IsSoundBook (add (add empty_book first_bid) second_bid) higher_bid refl (
      add-IsSoundBook (add empty_book first_bid) second_bid refl
        (add-IsSoundBook empty_book first_bid refl empty_book-IsSoundBook))

abbrev cancel_a : TickRecord
cancel_a = TickRecord.remove (record { order_id = "a"; timestamp = 10; side = buy })

abbrev execute_c : ExecuteTick
execute_c = record {
  order_id = "c";
  price = pos 310_000_000_000;
  qty = pos 100_000_000;
  timestamp = 11;
  side = buy;
}

abbrev two_bids : BookView
two_bids = record {
  last_update = epoch;
  offers = no_orders;
  bids = record {
    ladder =
        (
          pos 310_000_000_000,
          (pos 500_000_000, record { orderid = "c"; qty = pos 500_000_000 } ∷ []),
        )
        ∷ (
          pos 300_000_000_000,
          (pos 500_000_000, record { orderid = "b"; qty = pos 500_000_000 } ∷ []),
        )
        ∷ [];
    aggregate = pos 1_000_000_000;
  };
}

cancel_a-two_bids : tick_view (view three_bids) cancel_a ≡ ok two_bids
unfolding tick_view remove_view find_order order_of add emplace_level assign String_discrete
    ℤ_discrete ℕ_discrete ◌+ℤ◌ ◌-ℤ◌
cancel_a-two_bids = refl

replay_tick-refines_example :
    map_ok view (replay_tick three_bids cancel_a) ≡ tick_view (view three_bids) cancel_a
replay_tick-refines_example = replay_tick-refines three_bids cancel_a three_bids-IsSoundBook

replay_tick-IsSoundBook_example : IsSoundBook (add three_bids (record first_bid { order_id = "d" }))
unfolding replay_tick find_order order_of emplace_level assign String_discrete ℤ_discrete ℕ_discrete
replay_tick-IsSoundBook_example =
    replay_tick-IsSoundBook three_bids (add three_bids (record first_bid { order_id = "d" }))
      (TickRecord.add (record first_bid { order_id = "d" })) three_bids-IsSoundBook refl refl

-- The last order of a level is executed in part: the code reads the index entry that it has erased.
execute_last_test : execute three_bids execute_c ≡ err use_after_free
unfolding add execute assign ℤ_discrete ℕ_discrete String_discrete ◌+ℤ◌ ◌-ℤ◌
execute_last_test = refl

-- A snapshot that was handed out with the book of three bids, and has come back.
abbrev released : Snapshot
released = record (new_snapshot 9) { generation = 1; sequence = 0; book = three_bids }

abbrev serving : Service
serving = record {
  tick_history = record {
    next_sequence = 1;
    history = (0, TickRecord.snapshot (record { bids = []; offers = [] })) ∷ [];
    watermarks = 0 ∷ [];
  };
  current_generation = 1;
  order_book = three_bids;
  free_snaps = released ∷ [];
}

process_tick_total_example :
    (x : Snapshot) × (s' : Service) × (process_tick 12 cancel_a serving ≡ ok (x, s'))
    × Issued s' two_bids x
unfolding after
process_tick_total_example =
    process_tick_total 12 cancel_a serving two_bids three_bids-IsSoundBook (omega arith)
      (record {
        old = omega arith;
        given = λ same. omega arith;
        ready = λ same t there. (three_bids-IsSoundBook, refl);
      })
      (omega arith) (omega arith) tt cancel_a-two_bids

abbrev two_marks : TickHistory ℕ
two_marks = record {
  next_sequence = 3;
  history = (0, 5) ∷ (1, 6) ∷ (2, 7) ∷ [];
  watermarks = 0 ∷ 1 ∷ 2 ∷ [];
}

find-remove_watermark_example :
    (find 0 (remove_watermark 0 two_marks).history ≡ none) × IsLow 1 (2 ∷ [])
unfolding erase
find-remove_watermark_example = find-remove_watermark 0 0 1 (2 ∷ []) two_marks (omega arith) refl

abbrev bids : BookSide
bids = three_bids.bids

bids_without_a : BookSide
bids_without_a = record {
  ladder =
      (
        pos 310_000_000_000,
        record {
          aggregate_depth = pos 500_000_000;
          orders = (2, record { orderid = "c"; qty = pos 500_000_000 }) ∷ [];
        },
      )
      ∷ (
        pos 300_000_000_000,
        record {
          aggregate_depth = pos 500_000_000;
          orders = (1, record { orderid = "b"; qty = pos 500_000_000 }) ∷ [];
        },
      )
      ∷ [];
  cache = ("b", (pos 300_000_000_000, 1)) ∷ ("c", (pos 310_000_000_000, 2)) ∷ [];
  aggregate = pos 1_000_000_000;
  next_node = 3;
}

three_bids-IsSummedBook : IsSummedBook three_bids
unfolding add assign emplace_level String_discrete ℤ_discrete ℕ_discrete ◌+ℤ◌
three_bids-IsSummedBook = ((refl, (refl, (refl, tt))), (refl, tt))

abbrev without_a : OrderBook
without_a = record three_bids { bids = bids_without_a }

replay_tick-IsSummedBook_example : IsSummedBook without_a
unfolding bids_without_a replay_tick add remove_order emplace_level assign String_discrete
    ℤ_discrete ℕ_discrete ◌+ℤ◌ ◌-ℤ◌
replay_tick-IsSummedBook_example =
    replay_tick-IsSummedBook three_bids without_a cancel_a three_bids-IsSoundBook
      three_bids-IsSummedBook tt refl

-- A book of orders that the exchange still has is copied over one of the same orders.
assign_side-dangles_example :
    (side_view (assign_side bids bids) ≡ side_view bids)
    × (remove_order "a" (assign_side bids bids) ≡ err dangling_iterator)
unfolding add lookup assign String_discrete
assign_side-dangles_example =
    assign_side-dangles bids bids "a" (pos 300_000_000_000, 0) three_bids-IsSoundBook.bids.indexed
      refl

abbrev starting : Listener
starting = construct 0 "BTC-USD" "order_book:btc/usd" "listener[btc/usd]"

-- The connection comes up, the exchange confirms, sends its book and one order more.
abbrev events : List Event
events =
    Event.connection none
    ∷ Event.command_response "0"
    ∷ Event.tick 1 (TickRecord.snapshot (record { bids = first_bid ∷ []; offers = [] }))
    ∷ Event.tick 2 (TickRecord.add second_bid)
    ∷ []

abbrev listening : Listener
listening = elim (run events starting) [ ok l ↦ l | err fault ↦ starting ]

run-good_example :
    IsHonest listening
    × (listening.snapshot.feed.condition.state ≡ good
        → (listening.snapshot.feed.condition.errors ≡ []) × (down listening.connstate ≡ false))
unfolding run handle String_discrete ℤ_discrete ℕ_discrete Listener.on_tick process_tick replay_tick
    SnapshotService.catch_up Listener.on_command_response Listener.update
    Listener.on_connection_state construct Listener.ticked
run-good_example =
    run-good 0 "BTC-USD" "order_book:btc/usd" "listener[btc/usd]" events listening refl
