-- ===== src/PowerTrade/OrderBook.antt =====
-- arby/power_trade/order_book.hpp and .cpp: the order book. Its fields are grouped by side, and the
-- code of each side is in `Side`; here the two branches of each function are put together.
pub mod Side
pub mod Spec
pub mod Ordered
pub mod Index
pub mod Found
pub mod Keep
pub mod Added
pub mod Sound
pub mod Sums
pub mod Deducted
pub mod BookSpec
pub mod Books
pub mod Copy
pub mod Assigned
pub mod Refines
use arby.Common.{max, Option, none, some}
use arby.Common.Int.{◌-ℤ◌}
use arby.Common.Result.{Result, ok, ◌>>=◌}
use arby.Trading.Types.{buy, sell, Qty, Timestamp, time_min, epoch}
use arby.Trading.Types
use arby.PowerTrade.Ticks.{AddTick, RemoveTick, ExecuteTick}
use Side.{BookSide, empty_side, add_order, remove_order, execute_order, assign_side, reset_side}
use Refines.{side_view}
use BookSpec.{BookView, offer_before, bid_before}

pub record OrderBook : Type 0 where
  pub last_update : Timestamp
  pub offers : BookSide
  pub bids : BookSide

abbrev pub empty_book : OrderBook
empty_book = record { last_update = epoch; offers = empty_side; bids = empty_side }

abbrev on_side : Types.Side → (BookSide → BookSide) → (BookSide → BookSide) → OrderBook → OrderBook
on_side buy f g b = record b { bids = f b.bids }
on_side sell f g b = record b { offers = g b.offers }

unfoldable pub add : OrderBook → AddTick → OrderBook
unfolding add_order
add b r =
    on_side r.side (add_order bid_before r.order_id r.price r.qty)
      (add_order offer_before r.order_id r.price r.qty)
      (record b { last_update = max b.last_update r.timestamp })

abbrev pub finish_remove : Types.Side → Timestamp → OrderBook → Option BookSide → OrderBook
finish_remove side t b none = b
finish_remove buy t b (some s) = record b { last_update = max t b.last_update; bids = s }
finish_remove sell t b (some s) = record b { last_update = max t b.last_update; offers = s }

abbrev pub side_of : Types.Side → OrderBook → BookSide
side_of buy b = b.bids
side_of sell b = b.offers

unfoldable pub remove : OrderBook → RemoveTick → Result OrderBook
unfolding remove_order
remove b tick = do
  s ← remove_order tick.order_id (side_of tick.side b)
  ok (finish_remove tick.side tick.timestamp b s)

-- Both branches of `execute` subtract from the total of the bids.
abbrev pub deduct_bids : Qty → OrderBook → OrderBook
deduct_bids q b = record b { bids = record (b.bids) { aggregate = b.bids.aggregate -ℤ q } }

abbrev pub finish_execute : Types.Side → ExecuteTick → OrderBook → Option BookSide → OrderBook
finish_execute side tick b none = b
finish_execute side tick b (some s) =
    deduct_bids tick.qty (finish_remove side tick.timestamp b (some s))

unfoldable pub execute : OrderBook → ExecuteTick → Result OrderBook
unfolding execute_order
execute b tick = do
  s ← execute_order tick.order_id tick.qty (side_of tick.side b)
  ok (finish_execute tick.side tick b s)

unfoldable pub reset : OrderBook → OrderBook
unfolding reset_side
reset b = record { last_update = time_min; bids = reset_side b.bids; offers = reset_side b.offers }

-- `operator=`.
unfoldable pub assign : OrderBook → OrderBook → OrderBook
unfolding assign_side
assign target source = record {
  last_update = source.last_update;
  offers = assign_side target.offers source.offers;
  bids = assign_side target.bids source.bids;
}

-- Two books are `==` when their views are equal.
abbrev pub view : OrderBook → BookView
view b = record {
  last_update = b.last_update;
  offers = side_view b.offers;
  bids = side_view b.bids;
}
