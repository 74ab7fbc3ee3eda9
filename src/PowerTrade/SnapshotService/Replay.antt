-- ===== src/PowerTrade/SnapshotService/Replay.antt =====
-- arby/power_trade/orderbook_snapshot_service.cpp, `replay_tick`, and the loop of `process_tick` that
-- calls it for the ticks that a snapshot has missed.
use arby.Common.{◌≡◌, refl, List, [], ◌∷◌, ◌++◌, arith}
use arby.Common.Result.{Result, ok, err, ◌>>=◌, map_ok}
use arby.PowerTrade.Ticks.{AddTick, TickRecord}
use arby.PowerTrade.OrderBook.{OrderBook, view}
use arby.PowerTrade.OrderBook
use arby.PowerTrade.OrderBook.BookSpec.{BookView, add_view, remove_view, execute_view, reset_view}
use arby.PowerTrade.OrderBook.Books.{
  IsSoundBook, IsFresh, add-IsSoundBook, remove-IsSoundBook, execute-IsSoundBook, reset-IsSoundBook,
  add-refines, remove-refines, execute-refines, reset-refines,
}

unfoldable pub add_all : List AddTick → OrderBook → OrderBook
unfolding OrderBook.add
add_all [] b = b
add_all (r ∷ rs) b = add_all rs (OrderBook.add b r)

unfoldable pub replay_tick : OrderBook → TickRecord → Result OrderBook
unfolding OrderBook.add OrderBook.remove OrderBook.execute OrderBook.reset add_all
replay_tick b (TickRecord.snapshot t) = ok (add_all t.offers (add_all t.bids (OrderBook.reset b)))
replay_tick b (TickRecord.add r) = ok (OrderBook.add b r)
replay_tick b (TickRecord.remove r) = OrderBook.remove b r
replay_tick b (TickRecord.execute e) = OrderBook.execute b e

unfoldable pub replay_all : OrderBook → List TickRecord → Result OrderBook
unfolding replay_tick
replay_all b [] = ok b
replay_all b (t ∷ ts) = replay_tick b t >>= λ c. replay_all c ts

unfoldable pub add_all_view : List AddTick → BookView → BookView
add_all_view [] v = v
add_all_view (r ∷ rs) v = add_all_view rs (add_view v r)

-- What a tick does to a book, said of its levels, totals and time alone.
unfoldable pub tick_view : BookView → TickRecord → Result BookView
unfolding add_all_view
tick_view v (TickRecord.snapshot t) = ok (add_all_view t.offers (add_all_view t.bids reset_view))
tick_view v (TickRecord.add r) = ok (add_view v r)
tick_view v (TickRecord.remove r) = remove_view v r
tick_view v (TickRecord.execute e) = execute_view v e

-- The exchange gives no two orders of a side one identifier.
abbrev pub AreFresh : BookView → List AddTick → Type 0
AreFresh v [] = Unit
AreFresh v (r ∷ rs) = IsFresh v r × AreFresh (add_view v r) rs

abbrev pub IsFreshTick : BookView → TickRecord → Type 0
IsFreshTick v (TickRecord.snapshot t) =
    AreFresh reset_view t.bids × AreFresh (add_all_view t.bids reset_view) t.offers
IsFreshTick v (TickRecord.add r) = IsFresh v r
IsFreshTick v (TickRecord.remove r) = Unit
IsFreshTick v (TickRecord.execute e) = Unit

add_all-IsSoundBook :
    (rs : List AddTick) (b : OrderBook) (v : BookView)
    → view b ≡ v
    → AreFresh v rs
    → IsSoundBook b
    → IsSoundBook (add_all rs b)
unfolding add_all
add_all-IsSoundBook [] b v e f s = s
add_all-IsSoundBook (r ∷ rs) b v e f s =
    add_all-IsSoundBook rs (OrderBook.add b r) (add_view v r) (ground (arith, add-refines b r)) f.1
      (add-IsSoundBook b r (rw e f.0) s)

add_all-refines :
    (rs : List AddTick) (b : OrderBook) → view (add_all rs b) ≡ add_all_view rs (view b)
unfolding add_all add_all_view
add_all-refines [] b = refl
add_all-refines (r ∷ rs) b = ground (arith, add_all-refines rs (OrderBook.add b r), add-refines b r)

-- Every tick whose new orders are new keeps the invariant of the book.
pub replay_tick-IsSoundBook :
    (b c : OrderBook) (t : TickRecord)
    → IsSoundBook b
    → IsFreshTick (view b) t
    → replay_tick b t ≡ ok c
    → IsSoundBook c
unfolding replay_tick
replay_tick-IsSoundBook b c (TickRecord.snapshot t) s f e =
    let e' : add_all t.offers (add_all t.bids (OrderBook.reset b)) ≡ c = cc in
    rw (← e') (
      add_all-IsSoundBook t.offers (add_all t.bids (OrderBook.reset b))
        (add_all_view t.bids reset_view)
        (ground (arith, add_all-refines t.bids (OrderBook.reset b), reset-refines b)) f.1
        (add_all-IsSoundBook t.bids (OrderBook.reset b) reset_view (reset-refines b) f.0
          (reset-IsSoundBook b)))
replay_tick-IsSoundBook b c (TickRecord.add r) s f e =
    let e' : OrderBook.add b r ≡ c = cc in rw (← e') (add-IsSoundBook b r f s)
replay_tick-IsSoundBook b c (TickRecord.remove r) s f e = remove-IsSoundBook b c r s e
replay_tick-IsSoundBook b c (TickRecord.execute r) s f e = execute-IsSoundBook b c r s e

-- What a tick does to the levels, the totals and the time of a sound book, faults included, depends
-- on these alone.
pub replay_tick-refines :
    (b : OrderBook) (t : TickRecord)
    → IsSoundBook b
    → map_ok view (replay_tick b t) ≡ tick_view (view b) t
unfolding replay_tick tick_view
replay_tick-refines b (TickRecord.snapshot t) v = ground (
  arith,
  add_all-refines t.offers (add_all t.bids (OrderBook.reset b)),
  add_all-refines t.bids (OrderBook.reset b),
  reset-refines b,
)
replay_tick-refines b (TickRecord.add r) v = ground (arith, add-refines b r)
replay_tick-refines b (TickRecord.remove r) v = remove-refines b r v
replay_tick-refines b (TickRecord.execute r) v = execute-refines b r v

-- The ticks lead from one view to another, with no fault and with new orders that are new.
abbrev pub Leads : BookView → List TickRecord → BookView → Type 0
Leads v [] w = v ≡ w
Leads v (t ∷ ts) w = IsFreshTick v t × ((u : BookView) × (tick_view v t ≡ ok u) × Leads u ts w)

pub Leads-snoc :
    (v w u : BookView) (ts : List TickRecord) (t : TickRecord)
    → Leads v ts w
    → IsFreshTick w t
    → tick_view w t ≡ ok u
    → Leads v (ts ++ t ∷ []) u
Leads-snoc v w u [] t l f e = (rw l f, (u, rw l e, refl))
Leads-snoc v w u (x ∷ ts) t (g, (x', d, l)) f e = (g, (x', d, Leads-snoc x' w u ts t l f e))

-- What the levels of a sound book show that a tick does, the tick does.
pub replay_tick_total :
    (b : OrderBook) (t : TickRecord) (u : BookView)
    → IsSoundBook b
    → IsFreshTick (view b) t
    → tick_view (view b) t ≡ ok u
    → (c : OrderBook) × (replay_tick b t ≡ ok c) × IsSoundBook c × (view c ≡ u)
replay_tick_total b t u s f e = from_result (replay_tick b t) refl
  where
    from_result :
        (r : Result OrderBook)
        → replay_tick b t ≡ r
        → (c : OrderBook) × (replay_tick b t ≡ ok c) × IsSoundBook c × (view c ≡ u)
    from_result (ok c) g =
        (c, g, replay_tick-IsSoundBook b c t s f g, ground (arith, replay_tick-refines b t s))
    from_result (err x) g = absurd (ground (arith, replay_tick-refines b t s))

-- So a replay of the ticks that lead from the view of a sound book to another makes a book with that
-- view, with no fault.
pub replay_all_total :
    (b : OrderBook) (ts : List TickRecord) (w : BookView)
    → IsSoundBook b
    → Leads (view b) ts w
    → (c : OrderBook) × (replay_all b ts ≡ ok c) × IsSoundBook c × (view c ≡ w)
unfolding replay_all
replay_all_total b [] w s l = (b, refl, s, l)
replay_all_total b (t ∷ ts) w s (f, (u, e, l)) =
    let (c, r, s', v) = replay_tick_total b t u s f e in
    let (d, r', s'', v') = replay_all_total c ts w s' (rw v l) in (d, ground arith, s'', v')
