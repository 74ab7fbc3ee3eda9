-- ===== src/PowerTrade/Connector.antt =====
-- arby/power_trade/detail/connector_impl.cpp: the coroutines of the connector. They run on one executor,
-- so each runs from one `co_await` to the next with nothing in between: an event is what ends such
-- a wait, or a call from outside, and its handler is the code up to the next wait. An event that no
-- coroutine waits for changes nothing.
pub mod Queue
pub mod Runs
pub mod Drain
use arby.Common.{
  ℕ, ◌≡◌, String, Bool, true, false, not, ◌&&◌, if◌then◌else◌, Option, none, some, List, [], ◌∷◌,
  ◌++◌, is_empty,
}
use arby.Common.Result.{Result, ok, err, ◌>>=◌, ◌>>◌, guard, assertion_failed}
use arby.PowerTrade.Listener.{ConnectionState, down}

-- Where `send_loop` waits: for its condition variable, with that cancelled, or for a write.
pub data Sender : Type 0 where
  sleeping woken writing send_done : Sender

-- `receive_threw` is the end of `receive_loop` by the exception of a wait, which its outer `catch` prints.
pub data Receiver : Type 0 where
  reading receive_done receive_threw : Receiver

-- Where `run` is: not started, in `interruptible_connect` (and whether it was interrupted), in the two
-- loops, in the delay before it connects again, or at its end.
pub data Phase : Type 0 where
  not_started : Phase
  connecting : Bool → Phase
  connected : Sender → Receiver → Phase
  delaying : Phase
  finished : Phase

pub record Connector : Type 0 where
  pub connstate : ConnectionState
  pub send_queue : List String
  pub stopped : Bool
  pub phase : Phase
  -- What was signalled to those who watch the state, and the writes that were completed.
  pub signalled : List ConnectionState
  pub written : List String

unfoldable pub connector_impl : Connector
connector_impl = record {
  connstate = some "not_connected";
  send_queue = [];
  stopped = false;
  phase = not_started;
  signalled = [];
  written = [];
}

unfoldable pub set_connection_state : ConnectionState → Connector → Connector
set_connection_state ec c = record c { connstate = ec; signalled = c.signalled ++ ec ∷ [] }

-- `send_cv_.cancel()`
abbrev pub wake : Sender → Sender
wake sleeping = woken
wake s = s

abbrev pub cancel_cv : Phase → Phase
cancel_cv (connected s r) = connected (wake s) r
cancel_cv p = p

unfoldable pub send : String → Connector → Connector
send s c = record c { send_queue = c.send_queue ++ s ∷ []; phase = cancel_cv c.phase }

-- The end of `run_connection`, and `run` up to the delay or to its end.
unfoldable pub end_connection : ConnectionState → Connector → Connector
end_connection ec c = record (set_connection_state ec c) {
  phase = if c.stopped then finished else delaying;
}

-- The parallel group of the two loops ends with both of them.
unfoldable pub join : Connector → Connector
join c = elim c.phase [
  | connected send_done receive_done ↦ end_connection (some "not_connected") c
  | connected send_done receive_threw ↦ end_connection (some "not_connected") c
  | other ↦ c
]

-- `send_loop` from the head of its loop on, with the receiver's place.
unfoldable pub send_loop : Receiver → Connector → Result Connector
send_loop r c =
    if not (down c.connstate) && is_empty c.send_queue
    then ok (record c { phase = connected sleeping r })
    else if down c.connstate
    then ok (record c { phase = connected send_done r })
    else guard (not (is_empty c.send_queue)) assertion_failed
      >> ok (record c { phase = connected writing r })

-- `receive_loop` once its error code is set.
unfoldable pub end_receive : Sender → String → Connector → Connector
end_receive s ec c = record (if down c.connstate then c else set_connection_state (some ec) c) {
  phase = connected (wake s) receive_done;
}

pub data Event : Type 0 where
  -- Calls from outside.
  start : Event
  stop : Event
  interrupt : Event
  sent : String → Event
  -- The ends of waits: `run`, the connection with its exceptions, the delay.
  connect_done : Event
  connect_failed : String → Event
  connect_threw : Event
  delay_done : Event
  delay_cancelled : Event
  -- Those of `send_loop`: the wait is over as the variable was cancelled, as the group was, or a write
  -- ends.
  cv_done : Event
  cv_aborted : Event
  write_done : Event
  write_failed : Event
  -- Those of `receive_loop`: the read fails, or has a message, of which `none` says that it was
  -- handled, and a code that an exception was caught; or the wait throws, as it does once the group
  -- was cancelled.
  read_failed : String → Event
  read_done : Option String → Event
  read_threw : Event

abbrev pub pop_front : List String → List String
pop_front [] = []
pop_front (s ∷ q) = q

abbrev pub front : List String → List String
front [] = []
front (s ∷ q) = s ∷ []

-- The head of the loop of `run`.
unfoldable pub begin : Connector → Connector
begin c = record c { phase = if c.stopped then finished else connecting false }

unfoldable pub on_start : Phase → Connector → Connector
on_start not_started c = begin c
on_start p c = c

-- The cancellation that `stop` emits interrupts a connection that is not made yet. What it ends
-- otherwise is an event.
abbrev pub interrupted : Phase → Phase
interrupted (connecting i) = connecting true
interrupted p = p

unfoldable pub on_stop : Connector → Result Connector
on_stop c =
    guard (not c.stopped) assertion_failed
    >> ok (record c { stopped = true; phase = interrupted c.phase })

unfoldable pub on_interrupt : Connector → Connector
on_interrupt c = record c { phase = interrupted c.phase }

-- What follows `interruptible_connect` where it returns.
unfoldable pub on_connect : Phase → Connector → Result Connector
on_connect (connecting true) c = ok (end_connection (some "operation_aborted") c)
on_connect (connecting false) c = send_loop reading (set_connection_state none c)
on_connect p c = ok c

unfoldable pub on_connect_failed : Phase → String → Connector → Connector
on_connect_failed (connecting i) code c = end_connection (some code) c
on_connect_failed p code c = c

unfoldable pub on_delay_done : Phase → Connector → Connector
on_delay_done delaying c = begin c
on_delay_done p c = c

unfoldable pub on_delay_cancelled : Phase → Connector → Connector
on_delay_cancelled delaying c = record c { phase = finished }
on_delay_cancelled p c = c

unfoldable pub on_cv_done : Phase → Connector → Result Connector
on_cv_done (connected woken r) c = send_loop r c
on_cv_done p c = ok c

unfoldable pub on_cv_aborted : Phase → Connector → Connector
on_cv_aborted (connected sleeping r) c = record c { phase = connected send_done r }
on_cv_aborted (connected woken r) c = record c { phase = connected send_done r }
on_cv_aborted p c = c

unfoldable pub on_written : Phase → Connector → Result Connector
on_written (connected writing r) c =
    send_loop r
      (record c { written = c.written ++ front c.send_queue; send_queue = pop_front c.send_queue })
on_written p c = ok c

unfoldable pub on_write_failed : Phase → Connector → Connector
on_write_failed (connected writing r) c = record c { phase = connected send_done r }
on_write_failed p c = c

unfoldable pub on_read : Phase → Option String → Connector → Connector
on_read (connected s reading) (some code) c = end_receive s code c
on_read p code c = c

-- The outer `catch` only prints: the state stays up, and the sender is not woken.
unfoldable pub on_read_threw : Phase → Connector → Connector
on_read_threw (connected s reading) c = record c { phase = connected s receive_threw }
on_read_threw p c = c

unfoldable pub dispatch : Event → Connector → Result Connector
dispatch start c = ok (on_start c.phase c)
dispatch stop c = on_stop c
dispatch interrupt c = ok (on_interrupt c)
dispatch (sent s) c = ok (send s c)
dispatch connect_done c = on_connect c.phase c
dispatch (connect_failed code) c = ok (on_connect_failed c.phase code c)
dispatch connect_threw c = ok (on_connect_failed c.phase "no_such_device" c)
dispatch delay_done c = ok (on_delay_done c.phase c)
dispatch delay_cancelled c = ok (on_delay_cancelled c.phase c)
dispatch cv_done c = on_cv_done c.phase c
dispatch cv_aborted c = ok (on_cv_aborted c.phase c)
dispatch write_done c = on_written c.phase c
dispatch write_failed c = ok (on_write_failed c.phase c)
dispatch (read_failed code) c = ok (on_read c.phase (some code) c)
dispatch (read_done code) c = ok (on_read c.phase code c)
dispatch read_threw c = ok (on_read_threw c.phase c)

-- An event, and the end of the connection where both loops have come to theirs.
unfoldable pub handle : Event → Connector → Result Connector
handle e c = do d ← dispatch e c; ok (join d)

unfoldable pub run : List Event → Connector → Result Connector
run [] c = ok c
run (e ∷ es) c = handle e c >>= run es
