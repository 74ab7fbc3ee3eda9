-- ===== src/Asioex/Semaphore/Counts.antt =====
-- The count against the operations that wait, and where the code of lib/asioex/impl leaves the promises
-- of lib/asioex/async_semaphore.hpp.
use arby.Common.{
  ℕ, suc, ◌≡◌, ◌≢◌, ◌⊎◌, inl, inr, refl, subst, List, [], ◌∷◌, ◌++◌, map, append-nil, append_assoc,
  arith,
}
use arby.Common.Result.{ok, err, bad_downcast}
use arby.Asioex.Semaphore.{
  Address, Handler, Posts, no_error, Semaphore, head, construct, complete, destroy_from,
  async_acquire, Event, handle, run,
}
use arby.Asioex.Semaphore.Ring.{Leads}
use arby.Asioex.Semaphore.Waiters.{Waiters, addresses, Waiting, Live, Represents}
use arby.Asioex.Semaphore.Refines.{Step, Steps, run-Represents}

-- No operation waits while the count is above zero.
abbrev pub NoneIdle : Waiting → Type 0
NoneIdle q = (q.count ≡ 0) ⊎ (q.queue ≡ [])

Step-NoneIdle : (e : Event) (q r : Waiting) → NoneIdle q → Step e q r → NoneIdle r
Step-NoneIdle (Event.acquire a h) q r n (inl (left, e)) = ground arith
Step-NoneIdle (Event.acquire a h) q r n (inr (left, new, away, e)) = ground arith
Step-NoneIdle Event.attempt q r n (inl (left, e)) = ground arith
Step-NoneIdle Event.attempt q r n (inr (left, e)) = ground arith
Step-NoneIdle Event.post q r n (small, inl (empty, e)) = ground arith
Step-NoneIdle Event.post q r n (small, inr (a, h, rest, first, e)) = ground arith
Step-NoneIdle (Event.cancel a) q r (inl none_left) (h, before, behind, there, e) = ground arith
Step-NoneIdle (Event.cancel a) q r (inr empty) (h, [], behind, there, e) = ground arith
Step-NoneIdle (Event.cancel a) q r (inr empty) (h, w ∷ before, behind, there, e) = ground arith

Steps-NoneIdle : (es : List Event) (q r : Waiting) → NoneIdle q → Steps es q r → NoneIdle r
Steps-NoneIdle [] q r n steps = subst NoneIdle steps n
Steps-NoneIdle (e ∷ es) q r n (m, step, steps) =
    Steps-NoneIdle es m r (Step-NoneIdle e q m n step) steps

-- From a new semaphore, the events that follow the specification are handled with no fault, and then
-- the count is zero or the ring is empty: no release is lost on an operation that waits.
pub run-idle :
    (initial_count : ℕ) (es : List Event) (r : Waiting)
    → Steps es (record { count = initial_count; queue = []; posts = [] }) r
    → (t : Semaphore) × (run es (construct initial_count) ≡ ok t)
      × ((t.count ≡ 0) ⊎ (t.next head ≡ head))
run-idle initial_count es r steps =
    let (t, done, rep) = run-Represents initial_count es r steps in
    (
      t,
      done,
      elim (Steps-NoneIdle es _ r (inr refl) steps) [
        | inl none_left ↦ inl (ground (arith, rep.count))
        | inr empty ↦
            inr (
              (subst (λ ws. Leads t.next t.prev head (addresses ws ++ head ∷ [])) empty rep.ring).0)
      ],
    )

abbrev pub acquisitions : Waiters → List Event
acquisitions = map λ w. Event.acquire w.0 w.1

abbrev pub grants : Waiters → Posts
grants = map λ w. (w.1, no_error)

-- If the count is above zero, then any number of acquisitions are granted at once, and the count stays.
pub run-granted :
    (s : Semaphore) (ws : Waiters)
    → s.count ≢ 0
    → run (acquisitions ws) s ≡ ok (record s { posts = s.posts ++ grants ws })
unfolding run handle async_acquire
run-granted s [] some_left = rw (append-nil s.posts) refl
run-granted s ((a, h) ∷ ws) some_left =
    let granted : async_acquire a h s ≡ ok (record s { posts = s.posts ++ (h, no_error) ∷ [] }) =
      ground arith in
    rw
      (
        granted,
        run-granted (record s { posts = s.posts ++ (h, no_error) ∷ [] }) ws some_left,
        append_assoc s.posts ((h, no_error) ∷ []) (grants ws),
      )
      refl

-- If an operation waits, then the destructor of the semaphore calls `complete` through a downcast of
-- the list head.
pub destroy-waiting :
    (s : Semaphore) (q : Waiting) (w : Address × Handler) (ws : Waiters) (fuel : ℕ)
    → Represents s q
    → q.queue ≡ w ∷ ws
    → destroy_from (suc fuel) head s ≡ err bad_downcast
unfolding destroy_from complete
destroy-waiting s q w ws fuel rep e =
    let ring = subst (λ ws. Leads s.next s.prev head (addresses ws ++ head ∷ [])) e rep.ring in
    let live = subst (Live s.handler) e rep.live in ground (arith, ring.0, live.0.0)
