-- ===== src/PowerTrade/PipelineExamples.antt =====
-- A listener from the messages of the exchange on.
use arby.Common.{◌≡◌, refl, String, String_discrete, ite, Option, none, some, List, [], ◌∷◌}
use arby.Common.Int.{pos}
use arby.Common.Result.{err, null_reference}
use arby.Trading.Types.{buy}
use arby.PowerTrade.Ticks.{AddTick, TickRecord}
use arby.PowerTrade.OrderBook
use arby.PowerTrade.Messages.{InboundMessage, Object, object}
use arby.PowerTrade.TickRecord.{Json}
use arby.PowerTrade.Subscriptions.{answered}
use arby.PowerTrade.Listener.{Listener, Event, construct}
use arby.PowerTrade.Pipeline.{Input, Pipe, prepared, message, connection, ran, observe}
use arby.PowerTrade.Pipeline.Late.{observe-late}

-- Values are texts; "entry" is an object, and "bids" and "offers" are arrays.
abbrev objects : String → Option (Object String)
objects s =
    ite (String_discrete s "entry")
      (some
        (("orderid", "a") ∷ ("price", "3000") ∷ ("quantity", "5") ∷ ("utc_timestamp", "7") ∷ []))
      none

abbrev arrays : String → Option (List String)
arrays s =
    ite (String_discrete s "bids") (some ("entry" ∷ []))
      (ite (String_discrete s "offers") (some []) none)

abbrev json : Json
json = record {
  Value = String;
  if_string = λ s. some s;
  if_array = arrays;
  if_object = objects;
  price_of = λ s. some (pos 300_000_000_000);
  qty_of = λ s. some (pos 500_000_000);
  time_of = λ s. 7;
}

abbrev from_exchange : String → Object String → InboundMessage String
from_exchange type o = record {
  timestamp = 1;
  buffer = "";
  value = none;
  type = type;
  object = some o;
}

abbrev answer : Object String
answer = ("user_tag", "order_book:btc/usd") ∷ ("error_code", "0") ∷ []

abbrev whole_book : Object String
whole_book = ("symbol", "BTC-USD") ∷ ("market_id", "0") ∷ ("buy", "bids") ∷ ("sell", "offers") ∷ []

abbrev of_ether : Object String
of_ether = ("symbol", "ETH-USD") ∷ []

abbrev added : Object String
added =
    ("symbol", "BTC-USD")
    ∷ ("market_id", "0")
    ∷ ("order_id", "b")
    ∷ ("price", "3000")
    ∷ ("quantity", "5")
    ∷ ("utc_timestamp", "7")
    ∷ ("side", "buy")
    ∷ []

-- The answer is handled before the next message is read; the ticks are handled late, and one waits.
abbrev inputs : List (Input json String_discrete)
inputs =
    connection none
    ∷ message 1 (from_exchange "command_response" answer)
    ∷ ran
    ∷ ran
    ∷ prepared 2
    ∷ message 2 (from_exchange "snapshot" whole_book)
    ∷ prepared 3
    ∷ message 3 (from_exchange "order_added" of_ether)
    ∷ prepared 4
    ∷ message 4 (from_exchange "order_added" added)
    ∷ ran
    ∷ []

abbrev bid : AddTick
bid = record {
  order_id = "a";
  price = pos 300_000_000_000;
  qty = pos 500_000_000;
  timestamp = 7;
  side = buy;
}

abbrev book : TickRecord
book = TickRecord.snapshot (record { bids = bid ∷ []; offers = [] })

abbrev more : TickRecord
more = TickRecord.add (record bid { order_id = "b" })

abbrev events : List Event
events =
    Event.connection none ∷ Event.command_response "0" ∷ Event.tick 2 book ∷ Event.tick 4 more ∷ []

abbrev listener : Listener
listener = construct 0 "BTC-USD" "order_book:btc/usd" "listener[btc/usd]"

abbrev nothing : InboundMessage String
nothing = record { timestamp = 0; buffer = ""; value = none; type = ""; object = none }

abbrev answered_pipe : Pipe json String_discrete
answered_pipe = record {
  pmessage = from_exchange "command_response" answer;
  posted = answered ∷ [];
  listener = listener;
}

observe-late_example :
    observe json String_discrete listener (prepared 2 ∷ connection none ∷ ran ∷ []) answered_pipe
    ≡ err null_reference
observe-late_example =
    observe-late json String_discrete listener 2 answered_pipe [] (connection none ∷ []) refl
      (tt, tt)
