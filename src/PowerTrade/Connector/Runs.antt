-- ===== src/PowerTrade/Connector/Runs.antt =====
-- The connector over any events.
use arby.Common.{
  ◌≡◌, refl, ap, subst, sym, ◌∙◌, String, Bool, true, false, ◌||◌, List, [], ◌∷◌, ◌++◌,
  append_assoc, append-nil, arith,
}
use arby.Common.Result.{Result, ok, err, ◌>>=◌}
use arby.PowerTrade.Connector.{
  Connector, connector_impl, set_connection_state, send, end_connection, join, send_loop,
  end_receive, Event, pop_front, front, begin, on_start, on_stop, on_interrupt, on_connect,
  on_connect_failed, on_delay_done, on_delay_cancelled, on_cv_done, on_cv_aborted, on_written,
  on_write_failed, on_read, on_read_threw, dispatch, handle, run,
}
use arby.PowerTrade.Connector.Queue.{IsCoherent, Ensures, dispatch-Ensures, join-IsCoherent}

abbrev is_stop : Event → Bool
is_stop Event.stop = true
is_stop e = false

-- The texts that an event asks to send.
abbrev pub texts : Event → List String
texts (Event.sent s) = s ∷ []
texts e = []

front-pop : (q : List String) → front q ++ pop_front q ≡ q
front-pop [] = refl
front-pop (s ∷ q) = refl

-- What an event does to the texts and to the flag of the connector.
abbrev Keeps : Connector → Event → Result Connector → Type 0
Keeps c e (ok d) =
    (d.written ++ d.send_queue ≡ (c.written ++ c.send_queue) ++ texts e)
    × (d.stopped ≡ (c.stopped || is_stop e))
Keeps c e (err fault) = Unit

Keeps-dispatch : (e : Event) (c : Connector) → Keeps c e (dispatch e c)
unfolding dispatch begin on_start on_stop on_interrupt on_connect on_connect_failed on_delay_done
    on_delay_cancelled on_cv_done on_cv_aborted on_written on_write_failed on_read on_read_threw
    send_loop end_receive end_connection set_connection_state send
Keeps-dispatch e c = ground (
  arith,
  append-nil (c.written ++ c.send_queue),
  append_assoc c.written c.send_queue (texts e),
  append_assoc c.written (front c.send_queue) (pop_front c.send_queue),
  front-pop c.send_queue,
)

Keeps-join :
    (c : Connector)
    → ((join c).written ≡ c.written)
      × ((join c).send_queue ≡ c.send_queue)
      × ((join c).stopped ≡ c.stopped)
unfolding join end_connection set_connection_state
Keeps-join c = ground arith

-- One event: it is handled with no fault, and what was written with what is to be written grows by
-- what the event asks to send.
handle-kept :
    (e : Event) (c : Connector)
    → (is_stop e ≡ true → c.stopped ≡ false)
    → IsCoherent c
    → (d : Connector) × (handle e c ≡ ok d)
      × IsCoherent d
      × (d.written ++ d.send_queue ≡ (c.written ++ c.send_queue) ++ texts e)
      × (d.stopped ≡ (c.stopped || is_stop e))
unfolding handle
handle-kept e c once h =
    joined (dispatch e c) (dispatch-Ensures e c (λ same. once (rw same refl)) h)
      (Keeps-dispatch e c)
  where
    joined :
        (m : Result Connector)
        → Ensures IsCoherent m
        → Keeps c e m
        → (d : Connector) × ((m >>= λ d. ok (join d)) ≡ ok d)
          × IsCoherent d
          × (d.written ++ d.send_queue ≡ (c.written ++ c.send_queue) ++ texts e)
          × (d.stopped ≡ (c.stopped || is_stop e))
    joined (ok d) fine kept =
        let (w, q, f) = Keeps-join d in
        (join d, refl, join-IsCoherent d fine, rw (w, q) kept.0, rw f kept.1)
    joined (err fault) fine kept = absurd fine

-- `stop` is called once at most, by the destructor.
abbrev pub StopsOnce : Bool → List Event → Type 0
StopsOnce stopped [] = Unit
StopsOnce stopped (e ∷ es) =
    (is_stop e ≡ true → stopped ≡ false) × StopsOnce (stopped || is_stop e) es

-- The texts that the events ask to send, in order.
abbrev pub all_texts : List Event → List String
all_texts [] = []
all_texts (e ∷ es) = texts e ++ all_texts es

run-kept :
    (es : List Event) (c : Connector)
    → StopsOnce c.stopped es
    → IsCoherent c
    → (d : Connector) × (run es c ≡ ok d)
      × IsCoherent d
      × (d.written ++ d.send_queue ≡ (c.written ++ c.send_queue) ++ all_texts es)
unfolding run
run-kept [] c once h = (c, refl, h, sym (append-nil (c.written ++ c.send_queue)))
run-kept (e ∷ es) c once h =
    let (d, done, fine, kept, flag) = handle-kept e c once.0 h in
    let (f, ran, coherent, all) =
      run-kept es d (subst (λ b. StopsOnce b es) (sym flag) once.1) fine in
    (
      f,
      rw done ran,
      coherent,
      all
          ∙ ap (λ q. q ++ all_texts es) kept
          ∙ append_assoc (c.written ++ c.send_queue) (texts e) (all_texts es),
    )

-- After any events of which at most one is `stop`, no assertion fails. The connection is up exactly
-- while its messages are read, or, after a wait for one threw, until both loops have ended; a
-- sender that sleeps has nothing to send, those who watch the state were told the current one last,
-- and what was written is, with the queue behind it, what was asked to be sent, in that order.
pub run-IsCoherent :
    (es : List Event)
    → StopsOnce false es
    → (d : Connector) × (run es connector_impl ≡ ok d)
      × IsCoherent d
      × (d.written ++ d.send_queue ≡ all_texts es)
unfolding connector_impl
run-IsCoherent es once = run-kept es connector_impl once (record { fits = refl; told = refl })
