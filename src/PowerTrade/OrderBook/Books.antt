-- ===== src/PowerTrade/OrderBook/Books.antt =====
-- The whole book: its invariant, and that its functions do what `BookSpec` says.
use arby.Common.{
  String, Option-cases, inl, inr, ◌≡◌, refl, Option, none, some, String_discrete, Bool, arith,
}
use arby.Common.Result.{ok, map_ok, first_ok}
use arby.Common.Assoc.{lookup}
use arby.Trading.Types.{buy, sell, Price}
use arby.Trading.Types
use arby.PowerTrade.Ticks.{AddTick, RemoveTick, ExecuteTick}
use arby.PowerTrade.OrderBook.{
  OrderBook, empty_book, add, remove, execute, reset, view, finish_remove, finish_execute,
  deduct_bids, side_of,
}
use arby.PowerTrade.OrderBook.Side.{levels, BookSide, remove_order, execute_order, reset_side}
use arby.PowerTrade.OrderBook.BookSpec.{
  BookView, offer_before, bid_before, add_view, remove_view, execute_view, reset_view,
}
use arby.PowerTrade.OrderBook.BookSpec
use arby.PowerTrade.OrderBook.Spec.{find_order}
use arby.PowerTrade.OrderBook.Index.{IsIndexed, find_order-lookup}
use arby.PowerTrade.OrderBook.Ordered.{IsStrictOrder}
use arby.PowerTrade.OrderBook.Sound.{
  IsSound, empty_side-IsSound, reset_side-IsSound, add_order-IsSound, remove_order-IsSound,
  execute_order-IsSound,
}
use arby.PowerTrade.OrderBook.Refines.{
  add_order-refines, remove_order-refines, execute_order-refines,
}

pub offer_before-IsStrictOrder : IsStrictOrder offer_before
offer_before-IsStrictOrder = record {
  irrefl = λ p. ground arith;
  trans = λ p q r a b. ground arith;
  total = λ p q ne a. ground arith;
}

pub bid_before-IsStrictOrder : IsStrictOrder bid_before
bid_before-IsStrictOrder = record {
  irrefl = λ p. ground arith;
  trans = λ p q r a b. ground arith;
  total = λ p q ne a. ground arith;
}

pub record IsSoundBook (b : OrderBook) : Type 0 where
  pub offers : IsSound offer_before b.offers
  pub bids : IsSound bid_before b.bids

-- The side of an `add` has no order of its identifier yet.
abbrev pub IsFresh : BookView → AddTick → Type 0
IsFresh v r = find_order r.order_id (BookSpec.side_of r.side v).ladder ≡ none

pub empty_book-IsSoundBook : IsSoundBook empty_book
empty_book-IsSoundBook = record {
  offers = empty_side-IsSound offer_before;
  bids = empty_side-IsSound bid_before;
}

pub reset-IsSoundBook : (b : OrderBook) → IsSoundBook (reset b)
unfolding reset
reset-IsSoundBook b = record {
  offers = reset_side-IsSound offer_before b.offers;
  bids = reset_side-IsSound bid_before b.bids;
}

-- An identifier that no level has is not in the index either.
lookup-absent :
    (id : String) (s : BookSide)
    → IsIndexed s
    → find_order id (levels s.ladder) ≡ none
    → lookup String_discrete id s.cache ≡ none
lookup-absent id s v e = elim (Option-cases (lookup String_discrete id s.cache)) [
  | inl gone ↦ gone
  | inr ((p, node), at) ↦
      let (d, o, level, order, name) = v.named id p node at in
      absurd (
        ground (
          arith,
          find_order-lookup s.cache s.next_node id p node at s.ladder d o v.owned level order name,
        ))
]

pub add-IsSoundBook :
    (b : OrderBook) (r : AddTick) → IsFresh (view b) r → IsSoundBook b → IsSoundBook (add b r)
unfolding add
add-IsSoundBook b r fresh v = on_side r.side fresh
  where
    on_side :
        (side : Types.Side)
        → IsFresh (view b) (record r { side = side })
        → IsSoundBook (add b (record r { side = side }))
    on_side buy f = record {
      offers = v.offers;
      bids =
          add_order-IsSound bid_before bid_before-IsStrictOrder r.order_id r.price r.qty b.bids
            (lookup-absent r.order_id b.bids v.bids.indexed f) v.bids;
    }
    on_side sell f = record {
      offers =
          add_order-IsSound offer_before offer_before-IsStrictOrder r.order_id r.price r.qty
            b.offers (lookup-absent r.order_id b.offers v.offers.indexed f) v.offers;
      bids = v.bids;
    }

pub add-refines : (b : OrderBook) (r : AddTick) → view (add b r) ≡ add_view (view b) r
unfolding add add_view
add-refines b r = ground (
  arith,
  add_order-refines bid_before r.order_id r.price r.qty b.bids,
  add_order-refines offer_before r.order_id r.price r.qty b.offers,
)

pub reset-refines : (b : OrderBook) → view (reset b) ≡ reset_view
unfolding reset reset_side
reset-refines b = refl

-- Of an indexed book, `remove` does to the levels, the totals and the time what `remove_view` says,
-- faults included.
pub remove-refines :
    (b : OrderBook) (t : RemoveTick)
    → IsSoundBook b
    → map_ok view (remove b t) ≡ remove_view (view b) t
unfolding remove remove_view
remove-refines b t v = ground (
  arith,
  remove_order-refines b.bids t.order_id v.bids.indexed,
  remove_order-refines b.offers t.order_id v.offers.indexed,
)

-- Of an indexed book, `execute` does to the levels, the totals and the time what `execute_view`
-- says, faults included.
pub execute-refines :
    (b : OrderBook) (t : ExecuteTick)
    → IsSoundBook b
    → map_ok view (execute b t) ≡ execute_view (view b) t
unfolding execute execute_view
execute-refines b t v = ground (
  arith,
  execute_order-refines b.bids t.order_id t.qty v.bids.indexed,
  execute_order-refines b.offers t.order_id t.qty v.offers.indexed,
)

abbrev before_of : Types.Side → Price → Price → Bool
before_of buy = bid_before
before_of sell = offer_before

-- A book with one side made anew is as sound as that side.
finish_remove-IsSoundBook :
    (side : Types.Side) (t : Types.Timestamp) (b : OrderBook) (s : Option BookSide)
    → IsSoundBook b
    → ((s' : BookSide) → s ≡ some s' → IsSound (before_of side) s')
    → IsSoundBook (finish_remove side t b s)
finish_remove-IsSoundBook side t b none v h = v
finish_remove-IsSoundBook buy t b (some s) v h = record { offers = v.offers; bids = h s refl }
finish_remove-IsSoundBook sell t b (some s) v h = record { offers = h s refl; bids = v.bids }

side_of-IsSound :
    (side : Types.Side) (b : OrderBook) → IsSoundBook b → IsSound (before_of side) (side_of side b)
side_of-IsSound buy b v = v.bids
side_of-IsSound sell b v = v.offers

pub remove-IsSoundBook :
    (b c : OrderBook) (t : RemoveTick) → IsSoundBook b → remove b t ≡ ok c → IsSoundBook c
unfolding remove
remove-IsSoundBook b c t v e =
    let (s, done, found) =
      first_ok (remove_order t.order_id (side_of t.side b))
        (λ s. ok (finish_remove t.side t.timestamp b s)) e in
    let done' : finish_remove t.side t.timestamp b s ≡ c = cc in
    rw (← done') (
      finish_remove-IsSoundBook t.side t.timestamp b s v (λ s' there.
        remove_order-IsSound (before_of t.side) t.order_id (side_of t.side b) s'
          (side_of-IsSound t.side b v) (cc)))

-- The total of the bids says nothing of the index.
deduct_bids-IsSoundBook :
    (q : Types.Qty) (b : OrderBook) → IsSoundBook b → IsSoundBook (deduct_bids q b)
deduct_bids-IsSoundBook q b v = record {
  offers = v.offers;
  bids = record {
    ordered = v.bids.ordered;
    indexed = record {
      prices = v.bids.indexed.prices;
      owned = v.bids.indexed.owned;
      named = v.bids.indexed.named;
    };
  };
}

finish_execute-IsSoundBook :
    (b : OrderBook) (t : ExecuteTick) (s : Option BookSide)
    → IsSoundBook b
    → ((s' : BookSide) → s ≡ some s' → IsSound (before_of t.side) s')
    → IsSoundBook (finish_execute t.side t b s)
finish_execute-IsSoundBook b t none v h = v
finish_execute-IsSoundBook b t (some s) v h =
    deduct_bids-IsSoundBook t.qty (finish_remove t.side t.timestamp b (some s))
      (finish_remove-IsSoundBook t.side t.timestamp b (some s) v h)

pub execute-IsSoundBook :
    (b c : OrderBook) (t : ExecuteTick) → IsSoundBook b → execute b t ≡ ok c → IsSoundBook c
unfolding execute
execute-IsSoundBook b c t v e =
    let (s, done, found) =
      first_ok (execute_order t.order_id t.qty (side_of t.side b))
        (λ s. ok (finish_execute t.side t b s)) e in
    let done' : finish_execute t.side t b s ≡ c = cc in
    rw (← done') (
      finish_execute-IsSoundBook b t s v (λ s' there.
        execute_order-IsSound (before_of t.side) t.order_id t.qty (side_of t.side b) s'
          (side_of-IsSound t.side b v) (cc)))
