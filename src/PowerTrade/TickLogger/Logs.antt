-- ===== src/PowerTrade/TickLogger/Logs.antt =====
-- What a logger sends to its log.
use arby.Common.{
  ◌≡◌, ◌≢◌, refl, sym, subst, ap, ◌∙◌, String, Bool, true, false, not, ◌&&◌, if◌then◌else◌, List,
  [], ◌∷◌, ◌++◌, arith, All, append_assoc, append-nil, none, some,
}
use arby.Common.Assoc.{lookup}
use arby.Common.Result.{Result, ok}
use arby.Logging.DataLog.{Message, Channel, DataLog, data_log, do_send, line, eof}
use arby.Logging.DataLog.Writes.{Stage, do_send-Stage, round-Stage}
use arby.PowerTrade.Messages.{
  Slot, SignalMap, InboundMessage, Object, object, signal, handle_message,
}
use arby.PowerTrade.Messages.Dispatch.{
  slots_of, watch_all, signal-watch_all, calls, up_to_thrower, any_throws, emit_lem,
}
use arby.PowerTrade.TickRecord.{Json}
use arby.PowerTrade.TickLogger.{
  symbol_of, fails, is_symbol, throws, Session, on_call, on_calls, Event, received, destroyed,
  written, torn, receive, destroy, handle, run, tick_logger,
}
use arby.PowerTrade.TickLogger
use arby.PowerTrade.TickLogger.Slots.{is_tick, signal-start, stop-IsOther}

module _ (json : Json) (eq : Discrete json.Value) (channel : Channel) (me : Slot) (symbol : String)
    (others : Slot → InboundMessage json.Value → Bool) where
  IsOther : Slot → Type 0
  IsOther s = s ≢ me

  thrown : Slot → InboundMessage json.Value → Bool
  thrown = throws json eq me others

  abbrev pub HasObject : InboundMessage json.Value → Type 0
  HasObject m = (p : Object json.Value) × (m.object ≡ some p)

  sends :
      Bool → List (Slot × InboundMessage json.Value) → DataLog channel → Result (DataLog channel)
  sends = on_calls json eq channel me symbol

  -- Messages that the logger does not get leave the log as it is.
  on_calls-others :
      (m : InboundMessage json.Value) (b : Bool) (slots : List Slot) (log : DataLog channel)
      → All IsOther slots
      → sends b (calls thrown m slots) log ≡ ok log
  unfolding on_calls on_call sends IsOther
  on_calls-others m b [] log h = refl
  on_calls-others m b (s ∷ slots) log (other, h) =
      ground (arith, other, on_calls-others m b slots log h)

  -- What the logger's slot does, where it stands behind others.
  behind :
      (m : InboundMessage json.Value) (slots : List Slot) (log : DataLog channel)
      → All IsOther slots
      → HasObject m
      → sends true (calls thrown m (up_to_thrower thrown m (slots ++ me ∷ []))) log
        ≡ ok (
            if not (any_throws others m slots) && is_symbol symbol (symbol_of json eq m)
            then do_send channel (line m.buffer) log
            else log)
  unfolding on_calls on_call sends thrown throws IsOther object
  behind m [] log h (p, there) = ground (arith, there)
  behind m (s ∷ slots) log (other, h) has = ground (arith, other, behind m slots log h has)

  module _ (ws : List (String × Slot)) where
    -- A message of a type that carries ticks, with the symbol, that no slot of its type before the
    -- logger's throws at.
    abbrev pub is_logged : InboundMessage json.Value → Bool
    is_logged m =
        is_tick m.type
        && (not (any_throws others m (slots_of m.type ws))
            && is_symbol symbol (symbol_of json eq m))

    -- What the log of a logger is sent: a line for each such message, until the handle ends.
    abbrev pub logged : List (Event json eq channel) → List Message
    logged [] = []
    logged (received m ∷ es) =
        let rest = logged es in if is_logged m then line m.buffer ∷ rest else rest
    logged (destroyed ∷ es) = eof ∷ []
    logged (written ∷ es) = logged es
    logged (torn part ∷ es) = logged es

    -- The slots of each type, the logger's behind the others.
    IsBehind : SignalMap → Type 0
    IsBehind m = (t : String) → signal t m ≡ slots_of t ws ++ (if is_tick t then me ∷ [] else [])

    AreOthers : Type 0
    AreOthers = (t : String) → All IsOther (slots_of t ws)

    up_to_thrower-IsOther :
        (m : InboundMessage json.Value) (slots : List Slot)
        → All IsOther slots
        → All IsOther (up_to_thrower thrown m slots)
    up_to_thrower-IsOther m [] h = tt
    up_to_thrower-IsOther m (s ∷ slots) (other, h) =
        ground (arith, other, up_to_thrower-IsOther m slots h)

    sends-logged :
        (m : InboundMessage json.Value) (b : Bool) (slots : List Slot) (log : DataLog channel)
        → All IsOther slots
        → (b ≡ true → HasObject m)
        → sends true
            (calls thrown m (up_to_thrower thrown m (slots ++ (if b then me ∷ [] else []))))
            log
          ≡ ok (
              if b && (not (any_throws others m slots) && is_symbol symbol (symbol_of json eq m))
              then do_send channel (line m.buffer) log
              else log)
    sends-logged m true slots log h has = behind m slots log h (has refl)
    sends-logged m false slots log h has =
        ap (λ l. sends true (calls thrown m (up_to_thrower thrown m l)) log) (append-nil slots)
        ∙ on_calls-others m true (up_to_thrower thrown m slots) log
            (up_to_thrower-IsOther m slots h)

    Received : InboundMessage json.Value → Session json eq channel → Type 0
    Received m w =
        (v : Session json eq channel) × (receive json eq channel me symbol others m w ≡ ok v)
        × (v.alive ≡ w.alive)
        × (v.logger_
            ≡ (if is_logged m then do_send channel (line m.buffer) w.logger_ else w.logger_))
        × ((t : String) → signal t v.signals ≡ signal t w.signals)

    receive-logs :
        (m : InboundMessage json.Value) (w : Session json eq channel)
        → AreOthers
        → (is_tick m.type ≡ true → HasObject m)
        → w.alive ≡ true
        → IsBehind w.signals
        → Received m w
    unfolding receive handle_message AreOthers IsBehind thrown sends Received
    receive-logs m w apart has on there =
        let (called, result, kept) = emit_lem thrown m w.signals (signal m.type w.signals) in
        (
          _,
          rw
              (
                on,
                called,
                there m.type,
                sends-logged m (is_tick m.type) (slots_of m.type ws) w.logger_ (apart m.type) has,
              )
              refl,
          sym on,
          refl,
          λ t. kept t refl,
        )

    -- No signal has the slot.
    IsApart : SignalMap → Type 0
    IsApart m = (t : String) → All IsOther (signal t m)

    receive_apart :
        (m : InboundMessage json.Value) (w : Session json eq channel)
        → IsApart w.signals
        → receive json eq channel me symbol others m w
          ≡ ok (record w { signals = (handle_message thrown m w.signals).1 })
    unfolding receive handle_message IsApart thrown sends
    receive_apart m w apart =
        let (called, result, kept) = emit_lem thrown m w.signals (signal m.type w.signals) in
        rw
          (
            called,
            on_calls-others m w.alive (up_to_thrower thrown m (signal m.type w.signals)) w.logger_
                (up_to_thrower-IsOther m (signal m.type w.signals) (apart m.type)),
          )
          refl

    handle_message-IsApart :
        (m : InboundMessage json.Value) (sm : SignalMap)
        → IsApart sm
        → IsApart (handle_message thrown m sm).1
    unfolding handle_message IsApart
    handle_message-IsApart m sm apart t =
        let (called, result, kept) = emit_lem thrown m sm (signal m.type sm) in
        subst (All IsOther) (sym (kept t refl)) (apart t)

    -- The events are handled with no fault, and the log has come that far.
    Ran : List (Event json eq channel) → Session json eq channel → List Message → Type 0
    Ran es w sent =
        (v : Session json eq channel) × (run json eq channel me symbol others es w ≡ ok v)
        × Stage channel v.logger_ sent

    -- A logger that has ended sends nothing more.
    run-ended :
        (es : List (Event json eq channel)) (w : Session json eq channel) (sent : List Message)
        → w.alive ≡ false
        → IsApart w.signals
        → Stage channel w.logger_ sent
        → Ran es w sent
    unfolding Ran run handle destroy
    run-ended [] w sent off apart stage = (w, refl, stage)
    run-ended (received m ∷ es) w sent off apart stage = rw (receive_apart m w apart) (
        run-ended es (record w { signals = (handle_message thrown m w.signals).1 }) sent off
          (handle_message-IsApart m w.signals apart) stage)
    run-ended (destroyed ∷ es) w sent off apart stage =
        let same : w ≡ destroy json eq channel me w = ground (arith, off) in
        subst (λ v. Ran es v sent) same (run-ended es w sent off apart stage)
    run-ended (written ∷ es) w sent off apart stage =
        run-ended es _ sent off apart (round-Stage channel none w.logger_ sent stage)
    run-ended (torn part ∷ es) w sent off apart stage =
        run-ended es _ sent off apart (round-Stage channel (some part) w.logger_ sent stage)

    logged_more :
        (b : Bool) (m : Message) (log : DataLog channel) (sent rest : List Message)
        → Stage channel log sent
        → (more : List Message) × Stage channel (if b then do_send channel m log else log) more
          × (more ++ rest ≡ sent ++ (if b then m ∷ rest else rest))
    logged_more true m log sent rest stage =
        (sent ++ m ∷ [], do_send-Stage channel m log sent stage, append_assoc sent (m ∷ []) rest)
    logged_more false m log sent rest stage = (sent, stage, refl)

    -- Until the handle ends, the messages of the types that carry ticks have an object.
    abbrev pub HaveObjects : List (Event json eq channel) → Type 0
    HaveObjects [] = Unit
    HaveObjects (received m ∷ es) = (is_tick m.type ≡ true → HasObject m) × HaveObjects es
    HaveObjects (destroyed ∷ es) = Unit
    HaveObjects (written ∷ es) = HaveObjects es
    HaveObjects (torn part ∷ es) = HaveObjects es

    run_from :
        (es : List (Event json eq channel)) (w : Session json eq channel) (sent : List Message)
        → AreOthers
        → HaveObjects es
        → w.alive ≡ true
        → IsBehind w.signals
        → Stage channel w.logger_ sent
        → Ran es w (sent ++ logged es)
    unfolding Ran run handle destroy Received IsBehind IsApart IsOther
    run_from [] w sent apart have on there stage =
        (w, refl, subst (Stage channel w.logger_) (sym (append-nil sent)) stage)
    run_from (received m ∷ es) w sent apart (has, have) on there stage =
        let (v, done, alive, logs, kept) = receive-logs m w apart has on there in
        let (more, stage', split) =
          logged_more (is_logged m) (line m.buffer) w.logger_ sent (logged es) stage in
        rw done (
          subst (Ran es v) split (
            run_from es v more apart have (alive ∙ on) (λ t. kept t ∙ there t)
              (subst (λ l. Stage channel l more) (sym logs) stage')))
    run_from (destroyed ∷ es) w sent apart have on there stage =
        let end : Session json eq channel = record {
          signals = TickLogger.stop me w.signals;
          alive = false;
          logger_ = do_send channel eof w.logger_;
        } in
        rw on (
          run-ended es end (sent ++ eof ∷ []) refl (λ t. stop-IsOther t me w.signals)
            (do_send-Stage channel eof w.logger_ sent stage))
    run_from (written ∷ es) w sent apart have on there stage =
        run_from es _ sent apart have on there (round-Stage channel none w.logger_ sent stage)
    run_from (torn part ∷ es) w sent apart have on there stage =
        run_from es _ sent apart have on there
          (round-Stage channel (some part) w.logger_ sent stage)

    -- If the other slots are others, and until the handle of a logger ends each message of a type that
    -- carries ticks has an object, then any events are handled with no read through a null pointer, and
    -- the file of the logger holds the views of the messages first that came until its handle ended,
    -- are of a type that carries ticks, have its symbol, and at which no slot of their type before the
    -- logger's throws: in order and each once. The coroutine goes on with the others of these, or ended
    -- with the handle, or at a line whose write failed.
    pub run-logs :
        (es : List (Event json eq channel))
        → ((t : String) → All (λ s. s ≢ me) (slots_of t ws))
        → HaveObjects es
        → (v : Session json eq channel) × (run json eq channel me symbol others es
              (tick_logger json eq channel me (watch_all ws []))
            ≡ ok v)
          × Stage channel v.logger_ (logged es)
    unfolding Ran AreOthers IsBehind IsOther data_log lookup
    run-logs es apart have =
        run_from es (tick_logger json eq channel me (watch_all ws [])) [] apart have refl
          (λ t.
            signal-start t me (watch_all ws [])
            ∙ ap (λ l. l ++ (if is_tick t then me ∷ [] else [])) (signal-watch_all t ws []))
          (Stage.going [] refl channel.fresh_lem.1 (sym channel.fresh_lem.0) refl)
