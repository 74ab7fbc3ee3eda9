-- ===== src/PowerTrade/Pipeline/Meaning.antt =====
-- What a message says to a listener.
use arby.Common.{◌≡◌, ◌≢◌, refl, ap, ◌∙◌, String, String_discrete, ite, Option, none, some, arith}
use arby.Common.Result.{ok}
use arby.Trading.Types.{Timestamp}
use arby.PowerTrade.Ticks.{TickRecord}
use arby.PowerTrade.Messages.{InboundMessage, object}
use arby.PowerTrade.TickRecord.{TickCode, Json, Payload}
use arby.PowerTrade.TickRecord.Reads.{Text, text_at-Text}
use arby.PowerTrade.TickRecord.Describes.{Describes}
use arby.PowerTrade.Subscriptions.{
  Posted, event, answered, code_of, passes, handle_watched, handle_command_response, read_code,
  on_message,
}
use arby.PowerTrade.Subscriptions.Posts.{on_message-tick, on_message-code}
use arby.PowerTrade.Listener.{Listener, Event}

-- What is posted for an event: for an answer, the message.
abbrev pub posted_as : Event → Posted
posted_as (Event.command_response code) = answered
posted_as e = event e

abbrev pub posted_if : Option Event → Option Posted
posted_if none = none
posted_if (some e) = some (posted_as e)

module _ (json : Json) (eq : Discrete json.Value) (l : Listener) where
  -- A tick of the market; a tick of another instrument; the answer to the listener's request, or to
  -- another's; or a message of another type.
  pub data Says (now : Timestamp) (m : InboundMessage json.Value) (said : Option Event)
      : Type 0 where
    of_tick :
        (code : TickCode) (p : Payload json) (t : TickRecord)
        → code_of m.type ≡ some code
        → m.object ≡ some p
        → Text json p "symbol" l.symbol
        → Text json p "market_id" "0"
        → Describes json code p t
        → said ≡ some (Event.tick now t)
        → Says now m said
    of_other :
        (code : TickCode) (p : Payload json) (symbol : String)
        → code_of m.type ≡ some code
        → m.object ≡ some p
        → Text json p "symbol" symbol
        → symbol ≢ l.symbol
        → said ≡ none
        → Says now m said
    of_answer :
        (p : Payload json) (code : String)
        → m.type ≡ "command_response"
        → m.object ≡ some p
        → Text json p "user_tag" l.subscribe_id
        → Text json p "error_code" code
        → said ≡ some (Event.command_response code)
        → Says now m said
    of_others_answer :
        (p : Payload json) (tag : String)
        → m.type ≡ "command_response"
        → m.object ≡ some p
        → Text json p "user_tag" tag
        → tag ≢ l.subscribe_id
        → said ≡ none
        → Says now m said
    of_type : code_of m.type ≡ none → m.type ≢ "command_response" → said ≡ none → Says now m said

  of_other-on_message :
      (now : Timestamp) (m : InboundMessage json.Value) (code : TickCode) (p : Payload json)
      (symbol : String)
      → code_of m.type ≡ some code
      → m.object ≡ some p
      → Text json p "symbol" symbol
      → symbol ≢ l.symbol
      → on_message json eq l now m ≡ ok none
  unfolding handle_watched passes object
  of_other-on_message now m code p symbol typed there (v, found, text) other =
      on_message-code json eq l now m code typed ∙ ground (arith, there, found, text, other)

  command_response-code : code_of "command_response" ≡ none
  unfolding code_of String_discrete
  command_response-code = refl

  answer-on_message :
      (now : Timestamp) (m : InboundMessage json.Value) (p : Payload json)
      → m.type ≡ "command_response"
      → m.object ≡ some p
      → on_message json eq l now m ≡ handle_command_response json l p
  unfolding on_message object
  answer-on_message now m p typed there =
      ground (arith, typed, there, ap code_of typed ∙ command_response-code)

  of_answer-response :
      (p : Payload json) (tag : String)
      → Text json p "user_tag" tag
      → handle_command_response json l p
        ≡ ite (String_discrete tag l.subscribe_id) (ok (some answered)) (ok none)
  unfolding handle_command_response
  of_answer-response p tag text =
      rw (handle_command_response, (text_at-Text json "user_tag" p tag).1 text) refl

  -- What an event needs of the message, to be run.
  abbrev pub IsReadable : InboundMessage json.Value → Event → Type 0
  IsReadable m (Event.command_response code) = read_code json eq m ≡ ok code
  IsReadable m e = Unit

  abbrev pub IsReadableIf : InboundMessage json.Value → Option Event → Type 0
  IsReadableIf m none = Unit
  IsReadableIf m (some e) = IsReadable m e

  answer-read_code :
      (m : InboundMessage json.Value) (p : Payload json) (code : String)
      → m.object ≡ some p
      → Text json p "error_code" code
      → read_code json eq m ≡ ok code
  unfolding read_code object
  answer-read_code m p code there (w, answer, c) = ground (arith, there, answer, c)

  -- A message is posted as what it says, and nothing fails.
  pub on_message-Says :
      (now : Timestamp) (m : InboundMessage json.Value) (said : Option Event)
      → Says now m said
      → (on_message json eq l now m ≡ ok (posted_if said)) × IsReadableIf m said
  unfolding on_message
  on_message-Says now m said (of_tick code p t typed there symbol market told e) =
      rw e ((on_message-tick json eq l now m code t typed).1 (p, there, symbol, market, told), tt)
  on_message-Says now m said (of_other code p symbol typed there text other e) =
      rw e (of_other-on_message now m code p symbol typed there text other, tt)
  on_message-Says now m said (of_answer p code typed there tag text e) = rw e (
    answer-on_message now m p typed there ∙ of_answer-response p l.subscribe_id tag ∙ ground arith,
    answer-read_code m p code there text,
  )
  on_message-Says now m said (of_others_answer p tag typed there text other e) = rw e (
    answer-on_message now m p typed there ∙ of_answer-response p tag text ∙ ground (arith, other),
    tt,
  )
  on_message-Says now m said (of_type untyped other e) = rw e (ground (arith, untyped, other), tt)
