-- ===== src/PowerTrade/SnapshotService/Sums.antt =====
-- The totals of the book of a service, while no order is executed.
use arby.Common.{◌≡◌, refl, subst, Option, none, some, List, [], ◌∷◌}
use arby.Common.Result.{ok, first_ok}
use arby.Trading.Types.{buy, sell, Timestamp}
use arby.Trading.Types
use arby.PowerTrade.Ticks.{AddTick, RemoveTick, TickRecord}
use arby.PowerTrade.OrderBook.{OrderBook, finish_remove, side_of}
use arby.PowerTrade.OrderBook
use arby.PowerTrade.OrderBook.Side.{BookSide, remove_order, reset_side}
use arby.PowerTrade.OrderBook.BookSpec.{bid_before, offer_before}
use arby.PowerTrade.OrderBook.Index.{IsIndexed}
use arby.PowerTrade.OrderBook.Books.{IsSoundBook}
use arby.PowerTrade.OrderBook.Sums.{IsSummed, add_order-IsSummed}
use arby.PowerTrade.OrderBook.Deducted.{remove_order-IsSummed}
use arby.PowerTrade.SnapshotService.Replay.{add_all, replay_tick}

-- On both sides the total is the sum of the depths of the levels, and the depth of a level that of
-- its orders.
abbrev pub IsSummedBook : OrderBook → Type 0
IsSummedBook b = IsSummed b.bids × IsSummed b.offers

abbrev pub IsNoExecution : TickRecord → Type 0
IsNoExecution (TickRecord.execute e) = ⊥
IsNoExecution t = Unit

add-IsSummedBook : (b : OrderBook) (r : AddTick) → IsSummedBook b → IsSummedBook (OrderBook.add b r)
unfolding OrderBook.add
add-IsSummedBook b r (bids, offers) = on_side r.side
  where
    on_side : (side : Types.Side) → IsSummedBook (OrderBook.add b (record r { side = side }))
    on_side buy = (add_order-IsSummed bid_before r.order_id r.price r.qty b.bids bids, offers)
    on_side sell = (bids, add_order-IsSummed offer_before r.order_id r.price r.qty b.offers offers)

add_all-IsSummedBook :
    (rs : List AddTick) (b : OrderBook) → IsSummedBook b → IsSummedBook (add_all rs b)
unfolding add_all
add_all-IsSummedBook [] b h = h
add_all-IsSummedBook (r ∷ rs) b h =
    add_all-IsSummedBook rs (OrderBook.add b r) (add-IsSummedBook b r h)

finish_remove-IsSummedBook :
    (side : Types.Side) (t : Timestamp) (b : OrderBook) (s : Option BookSide)
    → IsSummedBook b
    → ((s' : BookSide) → s ≡ some s' → IsSummed s')
    → IsSummedBook (finish_remove side t b s)
finish_remove-IsSummedBook side t b none h made = h
finish_remove-IsSummedBook buy t b (some s) (bids, offers) made = (made s refl, offers)
finish_remove-IsSummedBook sell t b (some s) (bids, offers) made = (bids, made s refl)

side_of-IsIndexed : (side : Types.Side) (b : OrderBook) → IsSoundBook b → IsIndexed (side_of side b)
side_of-IsIndexed buy b v = v.bids.indexed
side_of-IsIndexed sell b v = v.offers.indexed

side_of-IsSummed : (side : Types.Side) (b : OrderBook) → IsSummedBook b → IsSummed (side_of side b)
side_of-IsSummed buy b h = h.0
side_of-IsSummed sell b h = h.1

reset-IsSummedBook : (b : OrderBook) → IsSummedBook (OrderBook.reset b)
unfolding OrderBook.reset reset_side
reset-IsSummedBook b = ((refl, tt), (refl, tt))

remove-IsSummedBook :
    (b c : OrderBook) (t : RemoveTick)
    → IsSoundBook b
    → IsSummedBook b
    → OrderBook.remove b t ≡ ok c
    → IsSummedBook c
unfolding OrderBook.remove
remove-IsSummedBook b c t v h e =
    let (s, done, found) =
      first_ok (remove_order t.order_id (side_of t.side b))
        (λ s. ok (finish_remove t.side t.timestamp b s)) e in
    let done' : finish_remove t.side t.timestamp b s ≡ c = cc in
    subst IsSummedBook done' (
      finish_remove-IsSummedBook t.side t.timestamp b s h (λ s' there.
        remove_order-IsSummed t.order_id (side_of t.side b) s' (side_of-IsIndexed t.side b v)
          (side_of-IsSummed t.side b h) (cc)))

-- If on both sides of a sound book the total is the sum of the depths of the levels, and the depth of
-- each level the sum of its orders, then it is so after any tick but an execution that is replayed.
pub replay_tick-IsSummedBook :
    (b c : OrderBook) (t : TickRecord)
    → IsSoundBook b
    → IsSummedBook b
    → IsNoExecution t
    → replay_tick b t ≡ ok c
    → IsSummedBook c
unfolding replay_tick
replay_tick-IsSummedBook b c (TickRecord.snapshot t) v h change e =
    let e' : add_all t.offers (add_all t.bids (OrderBook.reset b)) ≡ c = cc in
    subst IsSummedBook e' (
      add_all-IsSummedBook t.offers (add_all t.bids (OrderBook.reset b))
        (add_all-IsSummedBook t.bids (OrderBook.reset b) (reset-IsSummedBook b)))
replay_tick-IsSummedBook b c (TickRecord.add r) v h change e =
    let e' : OrderBook.add b r ≡ c = cc in subst IsSummedBook e' (add-IsSummedBook b r h)
replay_tick-IsSummedBook b c (TickRecord.remove r) v h change e = remove-IsSummedBook b c r v h e
replay_tick-IsSummedBook b c (TickRecord.execute r) v h change e = absurd change
