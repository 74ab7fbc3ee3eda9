-- ===== src/PowerTrade/ConnectorExamples.antt =====
-- Runs of the connector, its messages and the ticks that are made of them, with a small type of JSON
-- values.
use arby.Common.{
  ◌+◌, ◌*◌, ◌==◌, ite, ◌≡◌, ◌↔◌, refl, String, String_discrete, true, Option, none, some, List, [],
  ◌∷◌, ◌++◌, replicate, arith,
}
use mathlib.Core.List.Permᴰ
use arby.Common.Int.{pos}
use arby.Common.Assoc.{lookup}
use arby.Common.Result.{ok, err, invalid_argument, null_reference}
use arby.Trading.Types.{buy}
use arby.PowerTrade.Ticks.{TickRecord}
use arby.PowerTrade.Listener.{Listener, construct}
use arby.PowerTrade.Listener
use arby.PowerTrade.Connector.{
  Connector, connector_impl, Event, run, sleeping, writing, reading, connected, receive_threw,
  handle, dispatch, on_start, begin, on_connect, send_loop, set_connection_state, on_read_threw,
  join,
}
use arby.PowerTrade.Connector.Queue.{IsCoherent}
use arby.PowerTrade.Connector.Runs.{all_texts, run-IsCoherent}
use arby.PowerTrade.Connector.Drain.{run-drained}
use arby.PowerTrade.Messages.{
  Hashing, Object, FieldSet, MessageMatcher, InboundMessage, Slot, field_matcher, matches, if_match,
  signal, handle_message,
}
use arby.PowerTrade.Messages.Matchers.{HasFields, matches-HasFields, if_match-some}
use arby.PowerTrade.Messages.Dispatch.{watch_all, slots_of, calls, handle_message-calls}
use arby.PowerTrade.TickRecord.{
  TickCode, Json, construct2, make_add, text_at, to_price, to_qty, to_timestamp, to_side,
}
use arby.PowerTrade.TickRecord.Reads.{Text}
use arby.PowerTrade.TickRecord.Describes.{Describes, construct2-Describes}
use arby.PowerTrade.Subscriptions.{event, code_of, on_message}
use arby.PowerTrade.Subscriptions.Posts.{on_message-tick}

-- A request before the connection is made, one while it is up, and the loss of the connection while the
-- second is written.
abbrev events : List Event
events =
    Event.sent "first"
    ∷ Event.start
    ∷ Event.connect_done
    ∷ Event.write_done
    ∷ Event.sent "second"
    ∷ Event.cv_done
    ∷ Event.read_failed "eof"
    ∷ Event.write_failed
    ∷ Event.stop
    ∷ []

-- The same with a wait for a message that throws once the group is cancelled: the connection is up until
-- the sender has ended too.
abbrev threw : List Event
threw = Event.start ∷ Event.connect_done ∷ Event.read_threw ∷ []

threw-up :
    run threw connector_impl
    ≡ ok (record connector_impl {
      connstate = none;
      phase = connected sleeping receive_threw;
      signalled = none ∷ [];
    })
unfolding run handle dispatch connector_impl on_start begin on_connect send_loop
    set_connection_state on_read_threw join
threw-up = refl

run-IsCoherent_example :
    (d : Connector) × (run events connector_impl ≡ ok d)
    × IsCoherent d
    × (d.written ++ d.send_queue ≡ all_texts events)
run-IsCoherent_example = run-IsCoherent events (ground arith)

abbrev busy : Connector
busy = record connector_impl {
  connstate = none;
  send_queue = "first" ∷ "second" ∷ [];
  phase = connected writing reading;
  signalled = none ∷ [];
}

busy-IsCoherent : IsCoherent busy
busy-IsCoherent = record { fits = (refl, refl); told = refl }

run-drained_example :
    run (Event.cv_done ∷ replicate 2 Event.write_done) busy
    ≡ ok (record busy {
      phase = connected sleeping reading;
      written = "first" ∷ "second" ∷ [];
      send_queue = [];
    })
unfolding connector_impl
run-drained_example = run-drained busy writing busy-IsCoherent refl (λ e. cc)

-- Values that are texts, of which one names an object.
abbrev book : Object String
book = ("symbol", "BTC-USD") ∷ ("market_id", "0") ∷ []

abbrev objects : String → Option (Object String)
objects s = ite (String_discrete s "book") (some book) none

abbrev hashing : Hashing String
hashing = record {
  sort = λ l. l;
  size_hash = λ n. n;
  key_hash = λ k. 1;
  value_hash = λ v. 2;
  combine = λ m n. 31 * m + n;
}

abbrev wanted : FieldSet String
wanted = ("market_id", "0") ∷ ("symbol", "BTC-USD") ∷ []

matches-HasFields_example :
    (matches String String_discrete objects
        (field_matcher String String_discrete objects hashing wanted)
        book
      ≡ true)
    ↔ HasFields String String_discrete objects book wanted
matches-HasFields_example =
    matches-HasFields String String_discrete objects hashing wanted book (λ l. Permᴰ.refl l)

abbrev snapshots : MessageMatcher String
snapshots = record {
  type = "snapshot";
  fields = field_matcher String String_discrete objects hashing wanted;
}

abbrev one_book : Object String
one_book = ("snapshot", "book") ∷ []

if_match-some_example :
    ((if_match String String_discrete objects snapshots one_book ≡ ok (some book)) ↔ (
      (v : String) × (one_book ≡ ("snapshot", v) ∷ [])
      × (objects v ≡ some book)
      × HasFields String String_discrete objects book wanted))
    × ((if_match String String_discrete objects snapshots one_book ≡ err null_reference)
        ↔ ((v : String) × (one_book ≡ ("snapshot", v) ∷ []) × (objects v ≡ none)))
if_match-some_example =
    if_match-some String String_discrete objects hashing "snapshot" wanted one_book book
      (λ l. Permᴰ.refl l)

-- Two slots watch one type and a third another.
abbrev watched : List (String × Slot)
watched = ("snapshot", 1) ∷ ("order_added", 2) ∷ ("snapshot", 3) ∷ []

abbrev message : InboundMessage String
message = record {
  timestamp = 5;
  buffer = "{}";
  value = none;
  type = "snapshot";
  object = some book;
}

handle_message-calls_example :
    ((handle_message (λ s m. s == 1) message (watch_all watched [])).0
      ≡ calls (λ s m. s == 1) message (1 ∷ []))
    × ((handle_message (λ s m. s == 1) message (watch_all watched [])).2 ≡ err invalid_argument)
    × ((t : String)
        → signal t (handle_message (λ s m. s == 1) message (watch_all watched [])).1
          ≡ slots_of t watched)
unfolding String_discrete
handle_message-calls_example = handle_message-calls (λ s m. s == 1) message watched

abbrev json : Json
json = record {
  Value = String;
  if_string = λ s. some s;
  if_array = λ s. none;
  if_object = objects;
  price_of = λ s. ite (String_discrete s "3000") (some (pos 300_000_000_000)) none;
  qty_of = λ s. ite (String_discrete s "5") (some (pos 500_000_000)) none;
  time_of = λ s. 7;
}

abbrev added : Object String
added =
    ("symbol", "BTC-USD")
    ∷ ("market_id", "0")
    ∷ ("order_id", "a")
    ∷ ("price", "3000")
    ∷ ("quantity", "5")
    ∷ ("utc_timestamp", "1650000000")
    ∷ ("side", "buy")
    ∷ []

abbrev added_tick : TickRecord
added_tick = TickRecord.add (record {
  order_id = "a";
  price = pos 300_000_000_000;
  qty = pos 500_000_000;
  timestamp = 7;
  side = buy;
})

construct2_test : construct2 json TickCode.add added ≡ ok added_tick
unfolding construct2 make_add text_at to_price to_qty to_timestamp to_side String_discrete lookup
construct2_test = refl

construct2-Describes_example :
    (construct2 json TickCode.add added ≡ ok added_tick)
    ↔ Describes json TickCode.add added added_tick
construct2-Describes_example = construct2-Describes json TickCode.add added added_tick

abbrev listener : Listener
listener = construct 0 "BTC-USD" "order_book:btc/usd" "listener[btc/usd]"

abbrev added_message : InboundMessage String
added_message = record message { type = "order_added"; object = some added }

on_message-tick_example :
    (on_message json String_discrete listener 9 added_message
      ≡ ok (some (event (Listener.Event.tick 9 added_tick))))
    ↔ ((p : Object String) × (some added ≡ some p)
        × Text json p "symbol" listener.symbol
        × Text json p "market_id" "0"
        × Describes json TickCode.add p added_tick)
unfolding code_of String_discrete
on_message-tick_example =
    on_message-tick json String_discrete listener 9 added_message TickCode.add added_tick refl
