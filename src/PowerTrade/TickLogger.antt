-- ===== src/PowerTrade/TickLogger.antt =====
-- arby/power_trade/tick_logger.hpp and .cpp: the messages of an instrument, as the connector gives them
-- to its slots, are written by a data log. One logger; the other slots of the connector are given by
-- what they watch and for which messages they throw. Its four connections are one slot here.
pub mod Slots
pub mod Logs
use arby.Common.{
  ℕ, ◌≡◌, String, String_discrete, ℕ_discrete, Bool, true, false, not, ◌==◌, ◌&&◌, if◌then◌else◌,
  ite, Option, none, some, List, [], ◌∷◌, map,
}
use arby.Common.Result.{Result, ok, err, ◌>>=◌}
use arby.Logging.DataLog.{Message, Channel, DataLog, data_log, do_send, round, line, eof}
use arby.PowerTrade.Messages.{
  Slot, SignalMap, InboundMessage, object, watch_messages, handle_message,
}
use arby.PowerTrade.TickRecord.{Json, text_at}

-- What `start` watches.
unfoldable pub start : Slot → SignalMap → SignalMap
start me m = watch_messages "order_executed" me (
    watch_messages "order_deleted" me
      (watch_messages "order_added" me (watch_messages "snapshot" me m)))

-- `persistent_connections_.clear()`: the slot is taken out of each signal.
unfoldable pub without : Slot → List Slot → List Slot
without me [] = []
without me (s ∷ slots) = ite (ℕ_discrete s me) (without me slots) (s ∷ without me slots)

unfoldable pub stop : Slot → SignalMap → SignalMap
stop me [] = []
stop me ((type, slots) ∷ m) = (type, without me slots) ∷ stop me m

abbrev pub fails : Result String → Bool
fails (ok s) = false
fails (err fault) = true

-- Whether the slot of the logger for `symbol` sends a line.
abbrev pub is_symbol : String → Result String → Bool
is_symbol symbol (ok s) = ite (String_discrete s symbol) true false
is_symbol symbol (err fault) = false

module _ (json : Json) (eq : Discrete json.Value) where
  -- The text under "symbol" of the message's object.
  unfoldable pub symbol_of : InboundMessage json.Value → Result String
  symbol_of m = object json.Value eq json.if_object m >>= text_at json "symbol"

  -- `others` says for which messages the slots of others throw. A message of which the object is null
  -- ends the calls here; that this is no exception is what `on_call` says, with which the run ends.
  unfoldable pub throws :
      Slot → (Slot → InboundMessage json.Value → Bool) → Slot → InboundMessage json.Value → Bool
  throws me others s m = ite (ℕ_discrete s me) (fails (symbol_of m)) (others s m)

  module _ (channel : Channel) where
    -- The weak pointer of the slot leads to the logger while it is alive.
    pub record Session : Type 0 where
      pub signals : SignalMap
      pub alive : Bool
      pub logger_ : DataLog channel

    -- What the call of a slot does to the log. The read of an object through a null pointer is no
    -- exception.
    unfoldable pub on_call :
        Slot
        → String
        → Bool
        → Slot × InboundMessage json.Value
        → DataLog channel
        → Result (DataLog channel)
    on_call me symbol alive (s, m) log =
        ite (ℕ_discrete s me)
          (object json.Value eq json.if_object m >>= λ p. ok (
            if is_symbol symbol (symbol_of m) && alive
            then do_send channel (line m.buffer) log
            else log))
          (ok log)

    unfoldable pub on_calls :
        Slot
        → String
        → Bool
        → List (Slot × InboundMessage json.Value)
        → DataLog channel
        → Result (DataLog channel)
    on_calls me symbol alive [] log = ok log
    on_calls me symbol alive (c ∷ calls) log =
        on_call me symbol alive c log >>= on_calls me symbol alive calls

    -- `destroyed` is the end of the handle. The log itself is stopped with the logger.
    pub data Event : Type 0 where
      received : InboundMessage json.Value → Event
      destroyed written : Event
      torn : List String → Event

    unfoldable pub receive :
        Slot
        → String
        → (Slot → InboundMessage json.Value → Bool)
        → InboundMessage json.Value
        → Session
        → Result Session
    receive me symbol others m w =
        let r = handle_message (throws me others) m w.signals in
        on_calls me symbol w.alive r.0 w.logger_ >>= λ log.
        ok (record w { signals = r.1; logger_ = log })

    unfoldable pub destroy : Slot → Session → Session
    destroy me w =
        if w.alive
        then record {
          signals = stop me w.signals;
          alive = false;
          logger_ = do_send channel eof w.logger_;
        }
        else w

    unfoldable pub handle :
        Slot → String → (Slot → InboundMessage json.Value → Bool) → Event → Session → Result Session
    handle me symbol others (received m) w = receive me symbol others m w
    handle me symbol others destroyed w = ok (destroy me w)
    handle me symbol others written w = ok (record w { logger_ = round channel none w.logger_ })
    handle me symbol others (torn part) w =
        ok (record w { logger_ = round channel (some part) w.logger_ })

    unfoldable pub run :
        Slot
        → String
        → (Slot → InboundMessage json.Value → Bool)
        → List Event
        → Session
        → Result Session
    run me symbol others [] w = ok w
    run me symbol others (e ∷ es) w = handle me symbol others e w >>= run me symbol others es

    -- A logger that is made while the signals are these.
    abbrev pub tick_logger : Slot → SignalMap → Session
    tick_logger me m = record { signals = start me m; alive = true; logger_ = data_log channel }
