-- ===== src/PowerTrade/Pipeline/Late.antt =====
-- An answer that is handled too late.
use arby.Common.{◌≡◌, refl, ap, ◌∙◌, none, List, [], ◌∷◌, ◌++◌, All}
use arby.Common.Result.{err, ◌>>=◌, null_reference}
use arby.Trading.Types.{Timestamp}
use arby.PowerTrade.Messages.{object, prepare}
use arby.PowerTrade.TickRecord.{Json}
use arby.PowerTrade.Subscriptions.{Posted, event, answered, read_code}
use arby.PowerTrade.Listener.{Listener, Event}
use arby.PowerTrade.Pipeline.{
  Input, prepared, message, connection, released, ran, Pipe, post, run_posted, run_first, step,
  observe,
}

module _ (json : Json) (eq : Discrete json.Value) (self : Listener) where
  -- No message comes and nothing of what was posted runs.
  abbrev pub IsQuiet : Input json eq → Type 0
  IsQuiet (message now m) = ⊥
  IsQuiet ran = ⊥
  IsQuiet i = Unit

  late :
      (is : List (Input json eq)) (p : Pipe json eq) (rest : List Posted)
      → All IsQuiet is
      → p.posted ≡ answered ∷ rest
      → p.pmessage.object ≡ none
      → observe json eq self (is ++ ran ∷ []) p ≡ err null_reference
  unfolding observe step run_first run_posted read_code object prepare
  late [] p rest quiet first gone =
      ap (λ l. run_first json eq l p >>= observe json eq self []) first ∙ rw gone refl
  late (prepared now ∷ is) p rest (q, quiet) first gone = late is _ rest quiet first refl
  late (message now m ∷ is) p rest (q, quiet) first gone = absurd q
  late (connection s ∷ is) p rest (q, quiet) first gone =
      let e : Posted = event (Event.connection s) in
      late is (post json eq (Event.connection s) p) (rest ++ e ∷ []) quiet
        (ap (λ l. l ++ e ∷ []) first) gone
  late (released before x behind ∷ is) p rest (q, quiet) first gone =
      let e : Posted = event (Event.released before x behind) in
      late is (post json eq (Event.released before x behind) p) (rest ++ e ∷ []) quiet
        (ap (λ l. l ++ e ∷ []) first) gone
  late (ran ∷ is) p rest (q, quiet) first gone = absurd q

  -- Whatever the listener and the shared message are: if the answer to a request is the first of what was
  -- posted when the message is cleared for the next read, and it runs before the next message has come,
  -- whatever else is posted in between, its handler reads a null pointer.
  pub observe-late :
      (now : Timestamp) (p : Pipe json eq) (rest : List Posted) (is : List (Input json eq))
      → p.posted ≡ answered ∷ rest
      → All IsQuiet is
      → observe json eq self (prepared now ∷ (is ++ ran ∷ [])) p ≡ err null_reference
  unfolding observe step prepare
  observe-late now p rest is first quiet = late is _ rest quiet first refl
