-- ===== src/PowerTrade/Pipeline.antt =====
-- arby/power_trade/orderbook_listener_impl.cpp, from the messages of the connector to the snapshots that
-- are signalled, on two executors. The connector's has one inbound message, which `receive_loop` clears
-- and fills again for each read, and whose slots post to the listener's; `run` makes the filter of
-- messages once. The listener's runs what was posted, in that order, at any time. What is posted for an
-- answer holds the shared message, and reads it when it runs.
pub mod Meaning
pub mod Schedules
pub mod Late
pub mod Observes
use arby.Common.{Option, none, some, List, [], ◌∷◌, ◌++◌}
use arby.Common.Result.{Result, ok, ◌>>=◌}
use arby.Trading.Types.{Timestamp}
use arby.PowerTrade.Messages.{InboundMessage, prepare}
use arby.PowerTrade.TickRecord.{Json}
use arby.PowerTrade.Subscriptions.{Posted, event, answered, read_code, on_message}
use arby.PowerTrade.SnapshotService.{Snapshot}
use arby.PowerTrade.Listener.{Listener, ConnectionState, Event, handle}

abbrev pub with_posted : Option Posted → List Posted → List Posted
with_posted none ps = ps
with_posted (some p) ps = ps ++ p ∷ []

module _ (json : Json) (eq : Discrete json.Value) where
  -- `message` is after `commit`, when the slots are called.
  pub data Input : Type 0 where
    prepared : Timestamp → Input
    message : Timestamp → InboundMessage json.Value → Input
    connection : ConnectionState → Input
    released : List Snapshot → Snapshot → List Snapshot → Input
    ran : Input

  pub record Pipe : Type 0 where
    pub pmessage : InboundMessage json.Value
    pub posted : List Posted
    pub listener : Listener

  abbrev pub new_pipe : InboundMessage json.Value → Listener → Pipe
  new_pipe m l = record { pmessage = m; posted = []; listener = l }

  abbrev pub post : Event → Pipe → Pipe
  post e p = record p { posted = p.posted ++ event e ∷ [] }

  -- What was posted runs on the listener's executor.
  unfoldable pub run_posted : InboundMessage json.Value → Posted → Listener → Result Listener
  run_posted m (event e) l = handle e l
  run_posted m answered l = read_code json eq m >>= λ code. handle (Event.command_response code) l

  unfoldable pub run_first : List Posted → Pipe → Result Pipe
  run_first [] p = ok p
  run_first (t ∷ posted) p =
      run_posted p.pmessage t p.listener >>= λ l. ok (record p { posted = posted; listener = l })

  -- `self` is the listener as it was made, of which the filters have the symbol and the identifier.
  unfoldable pub step : Listener → Input → Pipe → Result Pipe
  step self (prepared now) p =
      ok (record p { pmessage = prepare json.Value eq json.if_object now p.pmessage })
  step self (message now m) p = on_message json eq self now m >>= λ posted.
      ok (record p { pmessage = m; posted = with_posted posted p.posted })
  step self (connection s) p = ok (post (Event.connection s) p)
  step self (released before x behind) p = ok (post (Event.released before x behind) p)
  step self ran p = run_first p.posted p

  unfoldable pub observe : Listener → List Input → Pipe → Result Pipe
  observe self [] p = ok p
  observe self (i ∷ is) p = step self i p >>= observe self is
