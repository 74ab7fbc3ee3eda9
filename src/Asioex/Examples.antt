-- ===== src/Asioex/Examples.antt =====
-- Runs of the semaphore, and the theorems at concrete events.
use arby.Common.{◌≡◌, ◌⊎◌, ℕ_discrete, refl, inr, none, some, List, [], ◌∷◌, arith}
use arby.Common.Result.{ok, err, bad_downcast}
use arby.Asioex.Semaphore.{
  no_error, operation_aborted, Semaphore, head, store, construct, destroy_from, Event, run,
}
use arby.Asioex.Semaphore.Waiters.{Waiting, Represents}
use arby.Asioex.Semaphore.Refines.{Steps, run-Represents}
use arby.Asioex.Semaphore.Counts.{acquisitions, run-idle, run-granted, destroy-waiting}

-- Three operations wait for a semaphore that nobody can take, the second is cancelled, and a release
-- lets the first one go.
abbrev events : List Event
events =
    Event.acquire 7 70 ∷ Event.acquire 5 50 ∷ Event.acquire 9 90 ∷ Event.cancel 5 ∷ Event.post ∷ []

abbrev one_left : Waiting
one_left = record {
  count = 0;
  queue = (9, 90) ∷ [];
  posts = (50, operation_aborted) ∷ (70, no_error) ∷ [];
}

steps : Steps events (record { count = 0; queue = []; posts = [] }) one_left
steps = (
  _,
  inr (refl, omega arith, tt, refl),
  (
    _,
    inr (refl, omega arith, ground arith, refl),
    (
      _,
      inr (refl, omega arith, ground arith, refl),
      (
        _,
        (50, (7, 70) ∷ [], (9, 90) ∷ [], refl, refl),
        (_, (omega arith, inr (7, 70, (9, 90) ∷ [], refl, refl)), refl),
      ),
    ),
  ),
)

run-Represents_example : (t : Semaphore) × (run events (construct 0) ≡ ok t) × Represents t one_left
run-Represents_example = run-Represents 0 events one_left steps

run-idle_example :
    (t : Semaphore) × (run events (construct 0) ≡ ok t) × ((t.count ≡ 0) ⊎ (t.next head ≡ head))
run-idle_example = run-idle 0 events one_left steps

-- A semaphore that one operation may hold is given to two.
run-granted_example :
    run (acquisitions ((7, 70) ∷ (5, 50) ∷ [])) (construct 1)
    ≡ ok (record (construct 1) { posts = (70, no_error) ∷ (50, no_error) ∷ [] })
unfolding construct
run-granted_example = run-granted (construct 1) ((7, 70) ∷ (5, 50) ∷ []) (omega arith)

-- The ring of the operation 7 alone.
abbrev waiting : Semaphore
waiting = record {
  next = store 7 0 (store 0 7 λ p. p);
  prev = store 7 0 (store 0 7 λ p. p);
  handler = store 7 (some 70) λ p. none;
  count = 0;
  posts = [];
}

abbrev one_waits : Waiting
one_waits = record { count = 0; queue = (7, 70) ∷ []; posts = [] }

waiting-Represents : Represents waiting one_waits
unfolding ℕ_discrete
waiting-Represents = record {
  count = refl;
  posts = refl;
  ring = (refl, refl, (refl, refl, tt));
  apart = (tt, tt);
  live = ((omega arith, refl), tt);
}

destroy-waiting_example : destroy_from 3 head waiting ≡ err bad_downcast
destroy-waiting_example = destroy-waiting waiting one_waits (7, 70) [] 2 waiting-Represents refl
