-- ===== src/PowerTrade/OrderBook/BookSpec.antt =====
-- What an order book promises, said of what `operator==` compares: the time of the last update, and
-- of each side the total and the levels with their orders. Each function says what the book's
-- function of that name does to these.
use arby.Common.{max, Option, none, some, Bool, []}
use arby.Common.Int.{◌+ℤ◌, ◌-ℤ◌, ltb_ℤ, pos}
use arby.Common.Result.{Result, ok, ◌>>=◌}
use arby.Trading.Types.{buy, sell, Price, Qty, Timestamp, time_min}
use arby.Trading.Types
use arby.PowerTrade.Ticks.{AddTick, RemoveTick, ExecuteTick}
use arby.PowerTrade.OrderBook.Spec.{SideView, add_spec, remove_spec, execute_spec}

pub record BookView : Type 0 where
  pub last_update : Timestamp
  pub offers : SideView
  pub bids : SideView

-- `std::less` orders the offers, and `std::greater` the bids.
abbrev pub offer_before : Price → Price → Bool
offer_before = ltb_ℤ

abbrev pub bid_before : Price → Price → Bool
bid_before p q = ltb_ℤ q p

abbrev add_side : (Price → Price → Bool) → AddTick → SideView → SideView
add_side before r v = record {
  ladder = add_spec before r.price (record { orderid = r.order_id; qty = r.qty }) v.ladder;
  aggregate = v.aggregate +ℤ r.qty;
}

abbrev on_side : Types.Side → (SideView → SideView) → (SideView → SideView) → BookView → BookView
on_side buy f g v = record v { bids = f v.bids }
on_side sell f g v = record v { offers = g v.offers }

unfoldable pub add_view : BookView → AddTick → BookView
unfolding add_spec
add_view v r =
    on_side r.side (add_side bid_before r) (add_side offer_before r)
      (record v { last_update = max v.last_update r.timestamp })

abbrev pub side_of : Types.Side → BookView → SideView
side_of buy v = v.bids
side_of sell v = v.offers

-- An order that is not there changes nothing, not the time either.
abbrev finish : Types.Side → Timestamp → BookView → Option SideView → BookView
finish side t v none = v
finish buy t v (some s) = record v { last_update = max t v.last_update; bids = s }
finish sell t v (some s) = record v { last_update = max t v.last_update; offers = s }

unfoldable pub remove_view : BookView → RemoveTick → Result BookView
unfolding remove_spec
remove_view v tick = do
  s ← remove_spec tick.order_id (side_of tick.side v)
  ok (finish tick.side tick.timestamp v s)

abbrev deduct_bids : Option SideView → Qty → BookView → BookView
deduct_bids none q v = v
deduct_bids (some s) q v = record v { bids = record (v.bids) { aggregate = v.bids.aggregate -ℤ q } }

-- Whichever side the order was on, the total of the bids falls.
unfoldable pub execute_view : BookView → ExecuteTick → Result BookView
unfolding execute_spec
execute_view v tick = do
  s ← execute_spec tick.order_id tick.qty (side_of tick.side v)
  ok (deduct_bids s tick.qty (finish tick.side tick.timestamp v s))

abbrev pub no_orders : SideView
no_orders = record { ladder = []; aggregate = pos 0 }

abbrev pub reset_view : BookView
reset_view = record { last_update = time_min; offers = no_orders; bids = no_orders }
