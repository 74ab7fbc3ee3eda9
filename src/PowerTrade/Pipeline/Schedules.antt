-- ===== src/PowerTrade/Pipeline/Schedules.antt =====
-- What may come to the two executors of a listener, and when what was posted can still be run.
use arby.Common.{
  ◌≡◌, refl, ap, sym, ◌∙◌, Option, none, some, List, [], ◌∷◌, ◌++◌, map, map-append, append-nil,
  All,
}
use arby.Common.Result.{Result, ok, err}
use arby.PowerTrade.Messages.{InboundMessage}
use arby.PowerTrade.TickRecord.{Json}
use arby.PowerTrade.Subscriptions.{Posted, event, answered}
use arby.PowerTrade.Listener.{Listener, Event, handle}
use arby.PowerTrade.Pipeline.{
  with_posted, Input, prepared, message, connection, released, ran, Pipe, run_posted, step,
}
use arby.PowerTrade.Pipeline.Meaning.{Says, posted_as, posted_if, IsReadable, IsReadableIf}

abbrev pub said_events : Option Event → List Event
said_events none = []
said_events (some e) = e ∷ []

-- No answer waits to be read.
abbrev pub NoAnswer : List Posted → Type 0
NoAnswer [] = Unit
NoAnswer (event e ∷ posted) = NoAnswer posted
NoAnswer (answered ∷ posted) = ⊥

pub All-append {ℓ κ} :
    {A : Type ℓ} (P : A → Type κ) (l m : List A) → All P l → All P m → All P (l ++ m)
All-append P [] m h k = k
All-append P (x ∷ l) m (here, h) k = (here, All-append P l m h k)

module _ (json : Json) (eq : Discrete json.Value) (self : Listener) where
  -- What the inputs say, each on its own.
  abbrev pub SayAll : List (Input json eq) → List Event → Type 0
  SayAll [] es = es ≡ []
  SayAll (prepared now ∷ is) es = SayAll is es
  SayAll (message now m ∷ is) es =
      (said : Option Event) × (rest : List Event) × Says json eq self now m said
      × (es ≡ said_events said ++ rest)
      × SayAll is rest
  SayAll (connection s ∷ is) es =
      (rest : List Event) × (es ≡ Event.connection s ∷ rest) × SayAll is rest
  SayAll (released before x behind ∷ is) es =
      (rest : List Event) × (es ≡ Event.released before x behind ∷ rest) × SayAll is rest
  SayAll (ran ∷ is) es = SayAll is es

  abbrev pub IsCalm : Input json eq → Pipe json eq → Type 0
  IsCalm (prepared now) p = NoAnswer p.posted
  IsCalm (message now m) p = NoAnswer p.posted
  IsCalm i p = Unit

  abbrev pub Then : (Pipe json eq → Type 0) → Result (Pipe json eq) → Type 0
  Then P (ok p) = P p
  Then P (err fault) = Unit

  -- Whenever the shared message is cleared or filled, no answer waits to be read.
  abbrev pub Calm : List (Input json eq) → Pipe json eq → Type 0
  Calm [] p = Unit
  Calm (i ∷ is) p = IsCalm i p × Then (Calm is) (step json eq self i p)

  abbrev pub AreReadable : (m : InboundMessage json.Value) → List Event → Type 0
  AreReadable m = All (IsReadable json eq self m)

  -- A message that no answer waits to read can change.
  pub NoAnswer-AreReadable :
      (m : InboundMessage json.Value) (pend : List Event)
      → NoAnswer (map posted_as pend)
      → AreReadable m pend
  NoAnswer-AreReadable m [] h = tt
  NoAnswer-AreReadable m (Event.connection s ∷ pend) h = (tt, NoAnswer-AreReadable m pend h)
  NoAnswer-AreReadable m (Event.command_response code ∷ pend) h = absurd h
  NoAnswer-AreReadable m (Event.tick now t ∷ pend) h = (tt, NoAnswer-AreReadable m pend h)
  NoAnswer-AreReadable m (Event.released before x behind ∷ pend) h =
      (tt, NoAnswer-AreReadable m pend h)

  pub run_posted-IsReadable :
      (m : InboundMessage json.Value) (e : Event) (l : Listener)
      → IsReadable json eq self m e
      → run_posted json eq m (posted_as e) l ≡ handle e l
  unfolding run_posted
  run_posted-IsReadable m (Event.connection s) l h = refl
  run_posted-IsReadable m (Event.command_response code) l h = rw h refl
  run_posted-IsReadable m (Event.tick now t) l h = refl
  run_posted-IsReadable m (Event.released before x behind) l h = refl

  pub said-AreReadable :
      (m : InboundMessage json.Value) (said : Option Event)
      → IsReadableIf json eq self m said
      → AreReadable m (said_events said)
  said-AreReadable m none h = tt
  said-AreReadable m (some e) h = (h, tt)

  pub with_said :
      (said : Option Event) (posted : List Posted)
      → with_posted (posted_if said) posted ≡ posted ++ map posted_as (said_events said)
  with_said none posted = sym (append-nil posted)
  with_said (some e) posted = refl

  -- Events that are put behind those that wait.
  pub behind_waiting :
      (pend more rest : List Event) (posted : List Posted)
      → posted ≡ map posted_as pend
      → posted ++ map posted_as more ≡ map posted_as (pend ++ more)
  behind_waiting pend more rest posted e =
      ap (λ l. l ++ map posted_as more) e ∙ sym (map-append posted_as pend more)
