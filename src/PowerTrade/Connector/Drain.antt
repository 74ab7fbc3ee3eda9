-- ===== src/PowerTrade/Connector/Drain.antt =====
-- While the connection is up and its writes end well, what is queued is written.
use arby.Common.{
  ◌≡◌, ◌≢◌, refl, ap, subst, sym, String, false, List, [], ◌∷◌, ◌++◌, append_assoc, append-nil,
  length, replicate, arith,
}
use arby.Common.Result.{ok}
use arby.PowerTrade.Listener.{down}
use arby.PowerTrade.Connector.{
  Sender, sleeping, woken, writing, send_done, reading, connected, Connector, join, send_loop,
  cv_done, write_done, on_cv_done, on_written, dispatch, handle, run,
}
use arby.PowerTrade.Connector.Queue.{IsCoherent, Fits}

module _ (c : Connector) (up : down c.connstate ≡ false) where
  abbrev busy : Sender → List String → List String → Connector
  busy s w q = record c { phase = connected s reading; written = w; send_queue = q }

  write-next :
      (s t : String) (w q : List String)
      → handle write_done (busy writing w (s ∷ t ∷ q)) ≡ ok (busy writing (w ++ s ∷ []) (t ∷ q))
  unfolding handle dispatch on_written send_loop join
  write-next s t w q = rw up refl

  write-last :
      (s : String) (w : List String)
      → handle write_done (busy writing w (s ∷ [])) ≡ ok (busy sleeping (w ++ s ∷ []) [])
  unfolding handle dispatch on_written send_loop join
  write-last s w = rw up refl

  wake-empty : (w : List String) → handle cv_done (busy woken w []) ≡ ok (busy sleeping w [])
  unfolding handle dispatch on_cv_done send_loop join
  wake-empty w = rw up refl

  wake-full :
      (w : List String) (s : String) (q : List String)
      → handle cv_done (busy woken w (s ∷ q)) ≡ ok (busy writing w (s ∷ q))
  unfolding handle dispatch on_cv_done send_loop join
  wake-full w s q = rw up refl

  stay-asleep : (w : List String) → handle cv_done (busy sleeping w []) ≡ ok (busy sleeping w [])
  unfolding handle dispatch on_cv_done join
  stay-asleep w = refl

  stay-writing : (w q : List String) → handle cv_done (busy writing w q) ≡ ok (busy writing w q)
  unfolding handle dispatch on_cv_done join
  stay-writing w q = refl

  -- A write for each text.
  writes :
      (s : String) (w q : List String)
      → run (replicate (length (s ∷ q)) write_done) (busy writing w (s ∷ q))
        ≡ ok (busy sleeping (w ++ s ∷ q) [])
  unfolding run
  writes s w [] = rw (write-last s w) refl
  writes s w (t ∷ q) =
      rw (write-next s t w q, writes t (w ++ s ∷ []) q, append_assoc w (s ∷ []) (t ∷ q)) refl

  drain :
      (s : Sender) (w q : List String)
      → s ≢ send_done
      → Fits (connected s reading) (busy s w q)
      → run (cv_done ∷ replicate (length q) write_done) (busy s w q)
        ≡ ok (busy sleeping (w ++ q) [])
  unfolding run
  drain sleeping w [] active fits = rw (stay-asleep w, append-nil w) refl
  drain sleeping w (s ∷ q) active fits = absurd (ground (arith, fits.1))
  drain woken w [] active fits = rw (wake-empty w, append-nil w) refl
  drain woken w (s ∷ q) active fits = rw (wake-full w s q) (writes s w q)
  drain writing w [] active fits = absurd (ground (arith, fits.1))
  drain writing w (s ∷ q) active fits = rw (stay-writing w (s ∷ q)) (writes s w q)
  drain send_done w q active fits = absurd (active refl)

-- If the connection is coherent, its messages are read and its sender has not ended, then the end of its
-- wait and a write for each text of the queue leave the queue empty, with all of it written, and the
-- sender asleep.
pub run-drained :
    (c : Connector) (s : Sender)
    → IsCoherent c
    → c.phase ≡ connected s reading
    → s ≢ send_done
    → run (cv_done ∷ replicate (length c.send_queue) write_done) c
      ≡ ok (record c {
        phase = connected sleeping reading;
        written = c.written ++ c.send_queue;
        send_queue = [];
      })
run-drained c s h at active =
    let fits = subst (λ p. Fits p c) at h.fits in
    subst
      (λ k.
        run (cv_done ∷ replicate (length c.send_queue) write_done) k
        ≡ ok (record c {
          phase = connected sleeping reading;
          written = c.written ++ c.send_queue;
          send_queue = [];
        }))
      (ap (λ p. record c { phase = p }) (sym at))
      (drain c fits.0 s c.written c.send_queue active fits)
