-- ===== src/Logging/DataLog.antt =====
-- `data_log` of logging/data_log.hpp and .cpp, over a channel of Boost.Asio, which is a parameter.
-- The function objects that are given to the executor run at once: the caller is on it. The file is
-- the texts that were written.
pub mod Writes
pub mod Finishes
use arby.Common.{
  ◌≡◌, String, Bool, true, false, if◌then◌else◌, Option, none, some, List, [], ◌∷◌, ◌++◌,
}

-- What `send` and `stop` put in the channel: a line with no error, or the error `eof`.
pub data Message : Type 0 where
  line : String → Message
  eof : Message

-- A channel that is open holds its messages in order, those included that wait to be accepted.
pub record Channel : Type 1 where
  pub State : Type 0
  pub fresh : State
  pub try_send : Message → State → Option State
  pub async_send : Message → State → State
  pub try_receive : State → Option (Message × State)
  pub async_receive : State → Option (Message × State)
  pub close : State → State
  pub queue : State → List Message
  pub is_open : State → Bool
  pub fresh_lem : (queue fresh ≡ []) × (is_open fresh ≡ true)
  pub try_send_lem :
      (m : Message) (c d : State)
      → is_open c ≡ true
      → try_send m c ≡ some d
      → (queue d ≡ queue c ++ m ∷ []) × (is_open d ≡ true)
  pub async_send_lem :
      (m : Message) (c : State)
      → is_open c ≡ true
      → (queue (async_send m c) ≡ queue c ++ m ∷ []) × (is_open (async_send m c) ≡ true)
  pub try_receive_lem :
      (m : Message) (c d : State)
      → is_open c ≡ true
      → try_receive c ≡ some (m, d)
      → (queue c ≡ m ∷ queue d) × (is_open d ≡ true)
  pub async_receive_lem :
      (m : Message) (c d : State)
      → is_open c ≡ true
      → async_receive c ≡ some (m, d)
      → (queue c ≡ m ∷ queue d) × (is_open d ≡ true)
  pub async_receive_waits : (c : State) → is_open c ≡ true → async_receive c ≡ none → queue c ≡ []

-- `written` a round of the coroutine whose write succeeds, `torn` one whose write fails after a part.
pub data Event : Type 0 where
  sent : String → Event
  stopped written : Event
  torn : List String → Event

module _ (channel : Channel) where
  pub record DataLog : Type 0 where
    pub channel_ : channel.State
    pub stream_ : List String
    pub running : Bool

  unfoldable pub data_log : DataLog
  data_log = record { channel_ = channel.fresh; stream_ = []; running = true }

  -- Nothing of the channel is read after the coroutine has closed it.
  unfoldable pub do_send : Message → DataLog → DataLog
  do_send m log = elim (channel.try_send m log.channel_) [
    | some c ↦ record log { channel_ = c }
    | none ↦ record log { channel_ = channel.async_send m log.channel_ }
  ]

  unfoldable pub receive : channel.State → Option (Message × channel.State)
  receive c = elim (channel.try_receive c) [ some r ↦ some r | none ↦ channel.async_receive c ]

  abbrev pub finish : channel.State → List String → DataLog
  finish c stream = record { channel_ = channel.close c; stream_ = stream; running = false }

  -- One round of the loop: `none` is a write that succeeds, else the part that was written.
  unfoldable pub handle_message : Option (List String) → Message → channel.State → DataLog → DataLog
  handle_message failed eof c log = finish c log.stream_
  handle_message none (line s) c log = record log {
    channel_ = c;
    stream_ = log.stream_ ++ s ∷ "\n" ∷ [];
  }
  handle_message (some part) (line s) c log = finish c (log.stream_ ++ part)

  unfoldable pub round : Option (List String) → DataLog → DataLog
  round failed log =
      if log.running
      then elim (receive log.channel_) [ some (m, c) ↦ handle_message failed m c log | none ↦ log ]
      else log

  unfoldable pub handle : Event → DataLog → DataLog
  handle (sent s) log = do_send (line s) log
  handle stopped log = do_send eof log
  handle written log = round none log
  handle (torn part) log = round (some part) log

  unfoldable pub run : List Event → DataLog → DataLog
  run [] log = log
  run (e ∷ events) log = run events (handle e log)
