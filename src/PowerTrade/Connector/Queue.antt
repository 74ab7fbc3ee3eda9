-- ===== src/PowerTrade/Connector/Queue.antt =====
-- What the coroutines of the connector keep true of its queue and of its state.
use arby.Common.{
  ◌≡◌, ◌≢◌, ◌⊎◌, refl, subst, sym, String, true, false, inl, inr, Option, none, some, List, [], ◌∷◌,
  ◌++◌, is_empty, arith,
}
use arby.Common.Result.{Result, ok, err}
use arby.PowerTrade.Listener.{ConnectionState, down}
use arby.PowerTrade.Connector.{
  Sender, sleeping, woken, writing, send_done, reading, receive_done, receive_threw, Phase,
  not_started, connecting, connected, delaying, finished, Connector, set_connection_state, wake,
  cancel_cv, send, end_connection, join, send_loop, end_receive, Event, pop_front, front, begin,
  on_start, interrupted, on_stop, on_interrupt, on_connect, on_connect_failed, on_delay_done,
  on_delay_cancelled, on_cv_done, on_cv_aborted, on_written, on_write_failed, on_read,
  on_read_threw, dispatch,
}

-- A sender that sleeps has nothing to send, and one that writes has.
abbrev pub Sending : Sender → List String → Type 0
Sending sleeping q = q ≡ []
Sending writing q = is_empty q ≡ false
Sending s q = Unit

abbrev pub Fits : Phase → Connector → Type 0
Fits (connected s reading) c = (down c.connstate ≡ false) × Sending s c.send_queue
Fits (connected s receive_done) c =
    (down c.connstate ≡ true) × (s ≢ sleeping) × Sending s c.send_queue
Fits (connected s receive_threw) c = (down c.connstate ≡ false) × Sending s c.send_queue
Fits p c = down c.connstate ≡ true

-- What those who watch the state were told last.
abbrev pub last : ConnectionState → List ConnectionState → ConnectionState
last d [] = d
last d (x ∷ l) = last x l

-- The connection is up exactly while its messages are read, or, after a wait for one threw, until both
-- loops have ended; a sender that sleeps has nothing to send, and the state is what was signalled
-- last.
pub record IsCoherent (c : Connector) : Type 0 where
  pub fits : Fits c.phase c
  pub told : last (some "not_connected") c.signalled ≡ c.connstate

last-append : (d x : ConnectionState) (l : List ConnectionState) → last d (l ++ x ∷ []) ≡ x
last-append d x [] = refl
last-append d x (y ∷ l) = last-append y x l

-- A result that is no fault, with a property.
abbrev pub Ensures : (Connector → Type 0) → Result Connector → Type 0
Ensures P (ok c) = P c
Ensures P (err fault) = ⊥

List-cases {ℓ} : {A : Type ℓ} (l : List A) → (l ≡ []) ⊎ (is_empty l ≡ false)
List-cases [] = inl refl
List-cases (x ∷ l) = inr refl

is_empty-append {ℓ} : {A : Type ℓ} (l : List A) (x : A) → is_empty (l ++ x ∷ []) ≡ false
is_empty-append [] x = refl
is_empty-append (y ∷ l) x = refl

module _ (c : Connector) (told : last (some "not_connected") c.signalled ≡ c.connstate) where
  send_loop-reading : down c.connstate ≡ false → Ensures IsCoherent (send_loop reading c)
  unfolding send_loop
  send_loop-reading up = elim (List-cases c.send_queue) [
    | inl empty ↦ rw (up, empty) (record { fits = (up, refl); told = told })
    | inr some_left ↦ rw (up, some_left) (record { fits = (up, some_left); told = told })
  ]

  send_loop-threw : down c.connstate ≡ false → Ensures IsCoherent (send_loop receive_threw c)
  unfolding send_loop
  send_loop-threw up = elim (List-cases c.send_queue) [
    | inl empty ↦ rw (up, empty) (record { fits = (up, refl); told = told })
    | inr some_left ↦ rw (up, some_left) (record { fits = (up, some_left); told = told })
  ]

  send_loop-done : down c.connstate ≡ true → Ensures IsCoherent (send_loop receive_done c)
  unfolding send_loop
  send_loop-done dropped = rw dropped (record { fits = (dropped, (λ e. cc), tt); told = told })

begin-IsCoherent :
    (c : Connector)
    → down c.connstate ≡ true
    → last (some "not_connected") c.signalled ≡ c.connstate
    → IsCoherent (begin c)
unfolding begin
begin-IsCoherent c h told = ground arith

end-IsCoherent : (code : String) (c : Connector) → IsCoherent (end_connection (some code) c)
unfolding end_connection set_connection_state
end-IsCoherent code c = ground (arith, last-append (some "not_connected") (some code) c.signalled)

wake-Sending :
    (s : Sender) (q : List String) → Sending s q → (wake s ≢ sleeping) × Sending (wake s) q
wake-Sending sleeping q h = ((λ e. cc), tt)
wake-Sending woken q h = ((λ e. cc), tt)
wake-Sending writing q h = ((λ e. cc), h)
wake-Sending send_done q h = ((λ e. cc), tt)

-- Each handler, with the phase that it looks at apart.
module _ (c : Connector) (told : last (some "not_connected") c.signalled ≡ c.connstate) where
  abbrev At : Phase → Type 0
  At p = (c.phase ≡ p) × Fits p c

  stay : (p : Phase) → At p → IsCoherent c
  stay p h = record { fits = subst (λ p. Fits p c) (sym h.0) h.1; told = told }

  on_start-IsCoherent : (p : Phase) → At p → IsCoherent (on_start p c)
  unfolding on_start
  on_start-IsCoherent p h = ground (arith, stay p h, begin-IsCoherent c)

  on_connect-Ensures : (p : Phase) → At p → Ensures IsCoherent (on_connect p c)
  unfolding on_connect
  on_connect-Ensures (connecting true) h = end-IsCoherent "operation_aborted" c
  on_connect-Ensures (connecting false) h =
      unfold set_connection_state in
      send_loop-reading (set_connection_state none c)
        (last-append (some "not_connected") none c.signalled) refl
  on_connect-Ensures not_started h = stay not_started h
  on_connect-Ensures (connected s r) h = stay (connected s r) h
  on_connect-Ensures delaying h = stay delaying h
  on_connect-Ensures finished h = stay finished h

  on_connect_failed-IsCoherent :
      (p : Phase) (code : String) → At p → IsCoherent (on_connect_failed p code c)
  unfolding on_connect_failed
  on_connect_failed-IsCoherent p code h = ground (arith, stay p h, end-IsCoherent code c)

  on_delay_done-IsCoherent : (p : Phase) → At p → IsCoherent (on_delay_done p c)
  unfolding on_delay_done
  on_delay_done-IsCoherent p h = ground (arith, stay p h, begin-IsCoherent c)

  on_delay_cancelled-IsCoherent : (p : Phase) → At p → IsCoherent (on_delay_cancelled p c)
  unfolding on_delay_cancelled
  on_delay_cancelled-IsCoherent p h = ground (arith, stay p h)

  on_interrupt-IsCoherent : (p : Phase) → At p → IsCoherent (record c { phase = interrupted p })
  on_interrupt-IsCoherent p h = ground (arith, stay p h)

  send-IsCoherent :
      (s : String) (p : Phase)
      → At p
      → IsCoherent (record c { send_queue = c.send_queue ++ s ∷ []; phase = cancel_cv p })
  send-IsCoherent s p h = ground (arith, stay p h, is_empty-append c.send_queue s)

  on_cv_done-Ensures : (p : Phase) → At p → Ensures IsCoherent (on_cv_done p c)
  unfolding on_cv_done
  on_cv_done-Ensures p h =
      ground
        (arith, stay p h, send_loop-reading c told, send_loop-threw c told, send_loop-done c told)

  on_cv_aborted-IsCoherent : (p : Phase) → At p → IsCoherent (on_cv_aborted p c)
  unfolding on_cv_aborted
  on_cv_aborted-IsCoherent p h = ground (arith, stay p h)

  on_written-Ensures : (p : Phase) → At p → Ensures IsCoherent (on_written p c)
  unfolding on_written
  on_written-Ensures p h =
      let d = record c {
        written = c.written ++ front c.send_queue;
        send_queue = pop_front c.send_queue;
      } in
      ground
        (arith, stay p h, send_loop-reading d told, send_loop-threw d told, send_loop-done d told)

  on_write_failed-IsCoherent : (p : Phase) → At p → IsCoherent (on_write_failed p c)
  unfolding on_write_failed
  on_write_failed-IsCoherent p h = ground (arith, stay p h)

  end_receive-IsCoherent :
      (s : Sender) (code : String)
      → down c.connstate ≡ false
      → Sending s c.send_queue
      → IsCoherent (end_receive s code c)
  unfolding end_receive set_connection_state
  end_receive-IsCoherent s code up sending =
      let (awake, sends) = wake-Sending s c.send_queue sending in
      rw up (record {
        fits = (refl, awake, sends);
        told = last-append (some "not_connected") (some code) c.signalled;
      })

  on_read-IsCoherent : (p : Phase) (code : Option String) → At p → IsCoherent (on_read p code c)
  unfolding on_read
  on_read-IsCoherent p none h = ground (arith, stay p h)
  on_read-IsCoherent (connected s reading) (some code) h = end_receive-IsCoherent s code h.1.0 h.1.1
  on_read-IsCoherent (connected s receive_done) (some code) h = stay (connected s receive_done) h
  on_read-IsCoherent (connected s receive_threw) (some code) h = stay (connected s receive_threw) h
  on_read-IsCoherent not_started (some code) h = stay not_started h
  on_read-IsCoherent (connecting i) (some code) h = stay (connecting i) h
  on_read-IsCoherent delaying (some code) h = stay delaying h
  on_read-IsCoherent finished (some code) h = stay finished h

  on_read_threw-IsCoherent : (p : Phase) → At p → IsCoherent (on_read_threw p c)
  unfolding on_read_threw
  on_read_threw-IsCoherent p h = ground (arith, stay p h)

  stopped-IsCoherent :
      (p : Phase) → At p → IsCoherent (record c { stopped = true; phase = interrupted p })
  stopped-IsCoherent p h = ground (arith, stay p h)

-- What an event leaves, before the loops are joined.
pub dispatch-Ensures :
    (e : Event) (c : Connector)
    → (e ≡ Event.stop → c.stopped ≡ false)
    → IsCoherent c
    → Ensures IsCoherent (dispatch e c)
unfolding dispatch send on_interrupt on_stop
dispatch-Ensures Event.start c once h = on_start-IsCoherent c h.told c.phase (refl, h.fits)
dispatch-Ensures Event.stop c once h =
    rw (once refl) (stopped-IsCoherent c h.told c.phase (refl, h.fits))
dispatch-Ensures Event.interrupt c once h = on_interrupt-IsCoherent c h.told c.phase (refl, h.fits)
dispatch-Ensures (Event.sent s) c once h = send-IsCoherent c h.told s c.phase (refl, h.fits)
dispatch-Ensures Event.connect_done c once h = on_connect-Ensures c h.told c.phase (refl, h.fits)
dispatch-Ensures (Event.connect_failed code) c once h =
    on_connect_failed-IsCoherent c h.told c.phase code (refl, h.fits)
dispatch-Ensures Event.connect_threw c once h =
    on_connect_failed-IsCoherent c h.told c.phase "no_such_device" (refl, h.fits)
dispatch-Ensures Event.delay_done c once h =
    on_delay_done-IsCoherent c h.told c.phase (refl, h.fits)
dispatch-Ensures Event.delay_cancelled c once h =
    on_delay_cancelled-IsCoherent c h.told c.phase (refl, h.fits)
dispatch-Ensures Event.cv_done c once h = on_cv_done-Ensures c h.told c.phase (refl, h.fits)
dispatch-Ensures Event.cv_aborted c once h =
    on_cv_aborted-IsCoherent c h.told c.phase (refl, h.fits)
dispatch-Ensures Event.write_done c once h = on_written-Ensures c h.told c.phase (refl, h.fits)
dispatch-Ensures Event.write_failed c once h =
    on_write_failed-IsCoherent c h.told c.phase (refl, h.fits)
dispatch-Ensures (Event.read_failed code) c once h =
    on_read-IsCoherent c h.told c.phase (some code) (refl, h.fits)
dispatch-Ensures (Event.read_done code) c once h =
    on_read-IsCoherent c h.told c.phase code (refl, h.fits)
dispatch-Ensures Event.read_threw c once h =
    on_read_threw-IsCoherent c h.told c.phase (refl, h.fits)

pub join-IsCoherent : (c : Connector) → IsCoherent c → IsCoherent (join c)
unfolding join
join-IsCoherent c h = ground (arith, end-IsCoherent "not_connected" c)
