-- ===== src/Logging/Examples.antt =====
-- The log over a queue that accepts two messages at once, by itself and behind a tick logger.
use arby.Common.{
  ◌≡◌, refl, true, false, ltb, if◌then◌else◌, Option, none, some, List, [], ◌∷◌, ◌++◌, length,
  replicate, arith,
}
use arby.Common.{◌≢◌, String, String_discrete, ite, All}
use arby.Common.Result.{ok}
use arby.PowerTrade.Messages.{Slot, InboundMessage}
use arby.PowerTrade.Messages.Dispatch.{slots_of, watch_all}
use arby.PowerTrade.TickRecord.{Json}
use arby.PowerTrade.TickLogger.{Session, tick_logger}
use arby.PowerTrade.TickLogger
use arby.PowerTrade.TickLogger.Logs.{logged, run-logs}
use arby.Logging.DataLog.{
  Message, Channel, Event, data_log, do_send, receive, handle_message, round, handle, run,
}
use arby.Logging.DataLog.Writes.{messages, Stage, run-Stage}
use arby.Logging.DataLog.Finishes.{run-finishes}

abbrev first : List Message → Option (Message × List Message)
first [] = none
first (m ∷ q) = some (m, q)

abbrev accept : Message → List Message → Option (List Message)
accept m q = if ltb (length q) 2 then some (q ++ m ∷ []) else none

accept_lem :
    (m : Message) (c d : List Message)
    → true ≡ true
    → accept m c ≡ some d
    → (d ≡ c ++ m ∷ []) × (true ≡ true)
accept_lem m c d live e = (ground arith, refl)

first_lem :
    (m : Message) (c d : List Message)
    → true ≡ true
    → first c ≡ some (m, d)
    → (c ≡ m ∷ d) × (true ≡ true)
first_lem m [] d live e = absurd (cc)
first_lem m (n ∷ q) d live e = (ground arith, refl)

first_none : (c : List Message) → true ≡ true → first c ≡ none → c ≡ []
first_none [] live e = refl
first_none (n ∷ q) live e = absurd (cc)

abbrev small_channel : Channel
small_channel = record {
  State = List Message;
  fresh = [];
  try_send = accept;
  async_send = λ m q. q ++ m ∷ [];
  try_receive = first;
  async_receive = first;
  close = λ q. q;
  queue = λ q. q;
  is_open = λ q. true;
  fresh_lem = (refl, refl);
  try_send_lem = accept_lem;
  async_send_lem = λ m c live. (refl, refl);
  try_receive_lem = first_lem;
  async_receive_lem = first_lem;
  async_receive_waits = first_none;
}

abbrev events : List Event
events =
    Event.sent "The"
    ∷ Event.sent "cat"
    ∷ Event.written
    ∷ Event.sent "sat"
    ∷ Event.stopped
    ∷ Event.sent "late"
    ∷ []

run-Stage_example :
    Stage small_channel (run small_channel events (data_log small_channel)) (messages events)
run-Stage_example = run-Stage small_channel events

run-finishes_example :
    ((run small_channel (events ++ replicate 4 Event.written) (data_log small_channel)).running
      ≡ false)
    × ((run small_channel (events ++ replicate 4 Event.written) (data_log small_channel)).stream_
        ≡ "The" ∷ "\n" ∷ "cat" ∷ "\n" ∷ "sat" ∷ "\n" ∷ [])
unfolding data_log do_send receive handle_message round handle run
run-finishes_example =
    run-finishes small_channel events ("The" ∷ "cat" ∷ "sat" ∷ []) (Message.line "late" ∷ []) refl
      refl

-- Values are texts, and one of them is an object.
abbrev json : Json
json = record {
  Value = String;
  if_string = λ s. some s;
  if_array = λ s. none;
  if_object = λ s. ite (String_discrete s "tick") (some (("symbol", "BTC-USD") ∷ [])) none;
  price_of = λ s. none;
  qty_of = λ s. none;
  time_of = λ s. 0;
}

abbrev message : String → String → InboundMessage String
message type text = record {
  timestamp = 1;
  buffer = text;
  value = none;
  type = type;
  object = some (("symbol", "BTC-USD") ∷ []);
}

-- Another slot watches one of the types.
abbrev watched : List (String × Slot)
watched = ("order_added", 1) ∷ []

watched_apart : (t : String) → All (λ s. s ≢ 0) (slots_of t watched)
watched_apart t = ground arith

abbrev ticks : List (TickLogger.Event json String_discrete small_channel)
ticks =
    TickLogger.received (message "snapshot" "the book")
    ∷ TickLogger.received (message "command_response" "an answer")
    ∷ TickLogger.written
    ∷ TickLogger.destroyed
    ∷ []

run-logs_example :
    (v : Session json String_discrete small_channel) × (TickLogger.run json String_discrete
        small_channel 0 "BTC-USD"
        (λ s m. false)
        ticks
        (tick_logger json String_discrete small_channel 0 (watch_all watched []))
      ≡ ok v)
    × Stage small_channel v.logger_
        (logged json String_discrete small_channel 0 "BTC-USD" (λ s m. false) watched ticks)
run-logs_example =
    run-logs json String_discrete small_channel 0 "BTC-USD" (λ s m. false) watched ticks
      watched_apart ((λ e. (_, refl)), ((λ e. (_, refl)), tt))
