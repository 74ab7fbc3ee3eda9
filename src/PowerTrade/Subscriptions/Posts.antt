-- ===== src/PowerTrade/Subscriptions/Posts.antt =====
-- The messages of which the listener makes a tick.
use arby.Common.{
  ◌≡◌, ◌↔◌, refl, String, String_discrete, true, some, Option-cases, Bool-cases, inl, inr, List, [],
  ◌∷◌, arith,
}
use arby.Common.Assoc.{lookup}
use arby.Common.Result.{Result, ok, ◌>>=◌}
use arby.Trading.Types.{Timestamp}
use arby.PowerTrade.Ticks.{TickRecord}
use arby.PowerTrade.Messages.{InboundMessage, object}
use arby.PowerTrade.TickRecord.{TickCode, Json, Payload, construct2}
use arby.PowerTrade.TickRecord.Reads.{Text}
use arby.PowerTrade.TickRecord.Describes.{Describes, construct2-Describes}
use arby.PowerTrade.Listener.{Listener, Event}
use arby.PowerTrade.Subscriptions.{
  event, code_of, make_message_filter, passes, caught, handle_tick, handle_watched, on_message,
}

module _ (json : Json) where
  passes-Text :
      (k v : String) (filters : List (String × String)) (p : Payload json)
      → (passes json ((k, v) ∷ filters) p ≡ true)
        ↔ (Text json p k v × (passes json filters p ≡ true))
  unfolding passes
  passes-Text k v filters p = elim (Option-cases (lookup String_discrete k p)) [
    | inl gone ↦ (λ e. absurd (ground (arith, gone)), λ (t, more). absurd (ground (arith, gone, t)))
    | inr (w, found) ↦ (
      λ e. ((w, found, ground (arith, found)), ground (arith, found)),
      λ ((x, there, text), more). ground (arith, found, there, text, more),
    )
  ]

  passes_none : (p : Payload json) → passes json [] p ≡ true
  unfolding passes
  passes_none p = refl

  caught-tick :
      (now : Timestamp) (m : Result TickRecord) (t : TickRecord)
      → (caught json m (Event.tick now) ≡ ok (some (event (Event.tick now t)))) ↔ (m ≡ ok t)
  caught-tick now m t = (λ e. ground arith, λ e. ground arith)

  watched-tick :
      (l : Listener) (now : Timestamp) (code : TickCode) (p : Payload json) (t : TickRecord)
      → (handle_watched json l now code p ≡ ok (some (event (Event.tick now t))))
        ↔ (Text json p "symbol" l.symbol × Text json p "market_id" "0" × Describes json code p t)
  unfolding handle_watched handle_tick
  watched-tick l now code p t =
      let filters = make_message_filter l in
      let (posted, post) = caught-tick now (construct2 json code p) t in
      let (made, make) = construct2-Describes json code p t in
      let (symbol, with_symbol) = passes-Text "symbol" l.symbol (("market_id", "0") ∷ []) p in
      let (market, with_market) = passes-Text "market_id" "0" [] p in
      elim (Bool-cases (passes json filters p)) [
        | inl pass ↦ (
          λ e.
              let e' = posted (rw (← e, pass) refl) in
              ((symbol pass).0, (market (symbol pass).1).0, made e'),
          λ (s, m, d). rw pass (post (make d)),
        )
        | inr stop ↦ (
          λ e. absurd (ground (arith, stop)),
          λ (s, m, d).
              absurd (ground (arith, stop, with_symbol (s, with_market (m, passes_none p)))),
        )
      ]

  pub on_message-code :
      (eq : Discrete json.Value) (l : Listener) (now : Timestamp) (m : InboundMessage json.Value)
      (code : TickCode)
      → code_of m.type ≡ some code
      → on_message json eq l now m
        ≡ (object json.Value eq json.if_object m >>= handle_watched json l now code)
  unfolding on_message
  on_message-code eq l now m code typed = ground (arith, typed)

  object_iff :
      {A : Type 0} (next : Payload json → Result A) (eq : Discrete json.Value)
      (m : InboundMessage json.Value) (a : A)
      → ((object json.Value eq json.if_object m >>= next) ≡ ok a)
        ↔ ((p : Payload json) × (m.object ≡ some p) × (next p ≡ ok a))
  unfolding object
  object_iff next eq m a = elim (Option-cases m.object) [
    | inl gone ↦
        (λ e. absurd (ground (arith, gone)), λ (p, there, e). absurd (ground (arith, gone, there)))
    | inr (p, found) ↦
        (λ e. (p, found, ground (arith, found)), λ (q, there, e). ground (arith, found, there, e))
  ]

  -- A message of a type that carries ticks is posted as a tick exactly when it has an object whose symbol is the
  -- listener's, whose market is "0", and which describes that tick.
  pub on_message-tick :
      (eq : Discrete json.Value) (l : Listener) (now : Timestamp) (m : InboundMessage json.Value)
      (code : TickCode) (t : TickRecord)
      → code_of m.type ≡ some code
      → (on_message json eq l now m ≡ ok (some (event (Event.tick now t)))) ↔ (
          (p : Payload json) × (m.object ≡ some p)
          × Text json p "symbol" l.symbol
          × Text json p "market_id" "0"
          × Describes json code p t)
  on_message-tick eq l now m code t typed =
      let (watched, watch) =
        object_iff (handle_watched json l now code) eq m (some (event (Event.tick now t))) in
      rw (on_message-code eq l now m code typed) (
        λ e.
            let (p, there, done) = watched e in
            let (symbol, market, told) = (watched-tick l now code p t).0 done in
            (p, there, symbol, market, told),
        λ (p, there, symbol, market, told).
            watch (p, there, (watched-tick l now code p t).1 (symbol, market, told)),
      )
