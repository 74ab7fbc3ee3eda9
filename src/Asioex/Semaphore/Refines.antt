-- ===== src/Asioex/Semaphore/Refines.antt =====
-- The semaphore does to its ring what is said here of a queue: an operation that waits goes to the end,
-- a release lets the first one go, and a cancellation takes one out wherever it stands.
use arby.Common.{
  ℕ, ◌+◌, ◌-◌, ◌<◌, ◌≡◌, ◌≢◌, ◌⊎◌, inl, inr, refl, ap, subst, List, [], ◌∷◌, ◌++◌, arith,
}
use arby.Common.Result.{ok}
use arby.Asioex.Semaphore.{
  Address, Handler, no_error, operation_aborted, Semaphore, head, construct, int_max, release,
  try_acquire, async_acquire, Event, handle, run,
}
use arby.Asioex.Semaphore.Ring.{Leads, Away}
use arby.Asioex.Semaphore.Waiters.{Waiters, addresses, Waiting, Represents}
use arby.Asioex.Semaphore.Operations.{acquire-Represents, release-Represents, complete-Represents}

-- What an event does to the queue. The allocator gives an address that is not in use, a cancellation
-- is of an operation that waits, and the count stays in the range of `int`.
abbrev pub Step : Event → Waiting → Waiting → Type 0
Step (Event.acquire a h) q r =
    ((q.count ≢ 0) × (r ≡ record q { posts = q.posts ++ (h, no_error) ∷ [] }))
    ⊎ ((q.count ≡ 0)
        × (a ≢ head)
        × Away a (addresses q.queue)
        × (r ≡ record q { queue = q.queue ++ (a, h) ∷ [] }))
Step Event.attempt q r =
    ((q.count ≡ 0) × (r ≡ q)) ⊎ ((q.count ≢ 0) × (r ≡ record q { count = q.count - 1 }))
Step Event.post q r =
    (q.count < int_max)
    × (((q.queue ≡ []) × (r ≡ record q { count = q.count + 1 }))
        ⊎ ((a : Address) × (h : Handler) × (rest : Waiters) × (q.queue ≡ (a, h) ∷ rest)
            × (r ≡ record q { queue = rest; posts = q.posts ++ (h, no_error) ∷ [] })))
Step (Event.cancel a) q r =
    (h : Handler) × (before : Waiters) × (behind : Waiters) × (q.queue ≡ before ++ (a, h) ∷ behind)
    × (r ≡ record q { queue = before ++ behind; posts = q.posts ++ (h, operation_aborted) ∷ [] })

abbrev pub Steps : List Event → Waiting → Waiting → Type 0
Steps [] q r = q ≡ r
Steps (e ∷ es) q r = (m : Waiting) × Step e q m × Steps es m r

Step-Represents :
    (e : Event) (s : Semaphore) (q r : Waiting)
    → Represents s q
    → Step e q r
    → (t : Semaphore) × (handle e s ≡ ok t) × Represents t r
unfolding handle async_acquire try_acquire release
Step-Represents (Event.acquire a h) s q r rep (inl (some_left, e)) = (
  record s { posts = s.posts ++ (h, no_error) ∷ [] },
  ground (arith, rep.count),
  rw e (record {
    count = rep.count;
    posts = ap (λ p. p ++ (h, no_error) ∷ []) rep.posts;
    ring = rep.ring;
    apart = rep.apart;
    live = rep.live;
  }),
)
Step-Represents (Event.acquire a h) s q r rep (inr (none_left, new, away, e)) =
    rw e (acquire-Represents s q a h rep none_left new away)
Step-Represents Event.attempt s q r rep (inl (none_left, e)) =
    (s, ground (arith, rep.count), rw e rep)
Step-Represents Event.attempt s q r rep (inr (some_left, e)) = (
  record s { count = s.count - 1 },
  ground (arith, rep.count),
  rw e (record {
    count = ap (λ c. c - 1) rep.count;
    posts = rep.posts;
    ring = rep.ring;
    apart = rep.apart;
    live = rep.live;
  }),
)
Step-Represents Event.post s q r rep (small, inl (empty, e)) =
    let ring = subst (λ ws. Leads s.next s.prev head (addresses ws ++ head ∷ [])) empty rep.ring in
    (
      record s { count = s.count + 1 },
      ground (arith, rep.count, ring.0),
      rw e (record {
        count = ap (λ c. c + 1) rep.count;
        posts = rep.posts;
        ring = rep.ring;
        apart = rep.apart;
        live = rep.live;
      }),
    )
Step-Represents Event.post s q r rep (small, inr (a, h, rest, first, e)) =
    rw e (release-Represents s q a h rest rep small first)
Step-Represents (Event.cancel a) s q r rep (h, before, behind, there, e) =
    rw e (complete-Represents s q a h operation_aborted before behind rep there)

Steps-Represents :
    (es : List Event) (s : Semaphore) (q r : Waiting)
    → Represents s q
    → Steps es q r
    → (t : Semaphore) × (run es s ≡ ok t) × Represents t r
unfolding run
Steps-Represents [] s q r rep steps = (s, refl, subst (Represents s) steps rep)
Steps-Represents (e ∷ es) s q r rep (m, step, steps) =
    let (t, done, rep') = Step-Represents e s q m rep step in
    let (u, rest, rep'') = Steps-Represents es t m r rep' steps in (u, rw done rest, rep'')

-- From a new semaphore, whatever follows: if a sequence of events leads by the specification from the
-- empty queue to a queue, then the events are handled with no fault, and the ring that they leave
-- represents that queue, with its count and with what was posted.
pub run-Represents :
    (initial_count : ℕ) (es : List Event) (r : Waiting)
    → Steps es (record { count = initial_count; queue = []; posts = [] }) r
    → (t : Semaphore) × (run es (construct initial_count) ≡ ok t) × Represents t r
unfolding construct
run-Represents initial_count es r steps =
    Steps-Represents es (construct initial_count)
      (record { count = initial_count; queue = []; posts = [] }) r
      (record { count = refl; posts = refl; ring = (refl, refl, tt); apart = tt; live = tt }) steps
