-- ===== src/PowerTrade/Subscriptions.antt =====
-- arby/power_trade/orderbook_listener_impl.cpp: what the listener does with a message on the executor of
-- the connector: the filters, and what it posts to its own executor.
pub mod Posts
use arby.Common.{
  ◌≡◌, String, String_discrete, Bool, true, false, if◌then◌else◌, ite, Option, none, some, List, [],
  ◌∷◌,
}
use arby.Common.Assoc.{lookup}
use arby.Common.Result.{Result, ok, err, ◌>>=◌, or_fail, bad_optional, out_of_range, bad_cast}
use arby.Trading.Types.{Timestamp}
use arby.PowerTrade.Ticks.{TickRecord}
use arby.PowerTrade.Messages.{InboundMessage, object}
use arby.PowerTrade.TickRecord.{TickCode, Json, Payload, text_at, construct2}
use arby.PowerTrade.Listener.{Listener, Event}

-- What is watched by `run`: the types of messages that carry ticks.
unfoldable pub code_of : String → Option TickCode
code_of type = ite (String_discrete type "snapshot") (some TickCode.snapshot) (
    ite (String_discrete type "order_added") (some TickCode.add) (
      ite (String_discrete type "order_deleted") (some TickCode.remove)
        (ite (String_discrete type "order_executed") (some TickCode.execute) none)))

-- What a slot posts to the listener's executor: an event, or `on_command_response` with the message, which
-- it reads when it runs.
pub data Posted : Type 0 where
  event : Event → Posted
  answered : Posted

abbrev pub make_message_filter : Listener → List (String × String)
make_message_filter l = ("symbol", l.symbol) ∷ ("market_id", "0") ∷ []

module _ (json : Json) where
  -- The loop of `filter_message`.
  unfoldable pub passes : List (String × String) → Payload json → Bool
  passes [] p = true
  passes ((k, v) ∷ filters) p = elim (lookup String_discrete k p) [
    | none ↦ false
    | some pv ↦ elim (json.if_string pv) [
      | none ↦ false
      | some ps ↦ ite (String_discrete ps v) (passes filters p) false
    ]
  ]

  -- What the `try` block of a handler lets through: an exception is caught and printed, but not a read of
  -- what is not there.
  abbrev pub caught : Result TickRecord → (TickRecord → Event) → Result (Option Posted)
  caught (ok t) post = ok (some (event (post t)))
  caught (err bad_optional) post = err bad_optional
  caught (err fault) post = ok none

  unfoldable pub handle_tick : Timestamp → TickCode → Payload json → Result (Option Posted)
  handle_tick now code p = caught (construct2 json code p) (Event.tick now)

  -- The code of a response, which nothing catches. A value that is no text is not "0".
  abbrev pub code_at : Payload json → Result String
  code_at p = or_fail (lookup String_discrete "error_code" p) out_of_range >>= λ v.
      ok (elim (json.if_string v) [ none ↦ "" | some s ↦ s ])

  -- `on_command_response` up to its test, with the message as it is when it runs.
  unfoldable pub read_code : Discrete json.Value → InboundMessage json.Value → Result String
  read_code eq m = object json.Value eq json.if_object m >>= code_at

  unfoldable pub handle_command_response : Listener → Payload json → Result (Option Posted)
  handle_command_response l p = elim (text_at json "user_tag" p) [
    | err fault ↦ ok none
    | ok tag ↦ ite (String_discrete tag l.subscribe_id) (ok (some answered)) (ok none)
  ]

  unfoldable pub handle_watched :
      Listener → Timestamp → TickCode → Payload json → Result (Option Posted)
  handle_watched l now code p =
      if passes (make_message_filter l) p then handle_tick now code p else ok none

  -- The slot that watches the type of a message, if there is one.
  unfoldable pub on_message :
      Discrete json.Value
      → Listener
      → Timestamp
      → InboundMessage json.Value
      → Result (Option Posted)
  on_message eq l now m = elim (code_of m.type) [
    | some code ↦ object json.Value eq json.if_object m >>= handle_watched l now code
    | none ↦
        ite (String_discrete m.type "command_response")
          (object json.Value eq json.if_object m >>= handle_command_response l) (ok none)
  ]
