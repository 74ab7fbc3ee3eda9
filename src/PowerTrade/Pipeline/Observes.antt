-- ===== src/PowerTrade/Pipeline/Observes.antt =====
-- What a listener shows its observers of the messages of the exchange.
use arby.Common.{◌≡◌, List, ◌++◌, map}
use arby.Common.Result.{ok}
use arby.PowerTrade.OrderBook.{view}
use arby.PowerTrade.OrderBook.BookSpec.{BookView}
use arby.PowerTrade.TickRecord.{Json}
use arby.PowerTrade.Listener.{Listener, Event}
use arby.PowerTrade.Listener.Shows.{shown, books}
use arby.PowerTrade.Listener.Shows
use arby.PowerTrade.Pipeline.{Input, Pipe, observe}
use arby.PowerTrade.Pipeline.Meaning.{posted_as}

module _ (json : Json) (eq : Discrete json.Value) (self : Listener) where
  -- The events that were handled, and those that wait, of those that were said; and what is signalled.
  Observed : List (Input json eq) → Pipe json eq → List Event → Type 0
  Observed is p said =
      (q : Pipe json eq) × (done : List Event) × (waiting : List Event) × (us : List BookView)
      × (observe json eq self is p ≡ ok q)
      × (said ≡ done ++ waiting)
      × (q.posted ≡ map posted_as waiting)
      × (shown done (view p.listener.snapshot_service.order_book) ≡ ok us)
      × (books q.listener.signalled ≡ books p.listener.signalled ++ us)
