-- ===== src/Entity/Service/Tasks.antt =====
-- What the function objects of entities keep as they run.
use arby.Common.{ℕ, ◌+◌, ◌≡◌, ◌<◌, refl, true, some, [], ◌∷◌, arith}
use arby.Common.Result.{Result, ok}
use arby.Common.Totals.{same, total-append}
use arby.Entity.Service.{
  EntityId, EntityState, Call, Tasks, World, is_for, queued, release, is_started, take_out, update,
  dispatch, stop, perform, run_task,
}
use arby.Entity.Service.Uses.{stops, to_stop, Sound, release-Sound, take_out-total}

abbrev pub Goes : Result World → Type 0
Goes m = (v : World) × (m ≡ ok v) × Sound v

-- A function object that did not stop its entity ends.
quiet_end :
    (i : EntityId) (n : ℕ) (c : Call) (rest : Tasks) (w : World)
    → Sound w
    → take_out n w.tasks ≡ some ((c, i), rest)
    → ((j : EntityId) → stops j (c, i) ≡ 0)
    → Sound (release i (record w { tasks = rest }))
quiet_end i n c rest w (k, known) taken harmless =
    let fewer : (j : EntityId) → queued j w.tasks ≡ is_for j (c, i) + queued j rest =
      λ j. take_out-total (is_for j) n w.tasks rest (c, i) taken in
    let below : i < w.next = ground (arith, fewer i, k.quiet i) in
    release-Sound i (record w { tasks = rest }) below
      (record {
        once = λ j.
            ground
              (arith, k.once j, harmless j, take_out-total (stops j) n w.tasks rest (c, i) taken);
        made = k.made;
        quiet = λ j above. ground (arith, k.quiet j above, fewer j);
        gone = k.gone;
        apart = k.apart;
      })
      (ground (arith, known i, fewer i)) (λ j other. ground (arith, known j, fewer j, other))

-- The world after `stop` was called by a function object.
abbrev after_stop : EntityId → Tasks → World → World
after_stop i rest w =
    update i (record (w.entity_of i) { estate = EntityState.stopped })
      (dispatch Call.stop_handler i (record w { tasks = rest }))

stop_end :
    (i : EntityId) (n : ℕ) (rest : Tasks) (w : World)
    → Sound w
    → take_out n w.tasks ≡ some ((Call.stop_call, i), rest)
    → (is_started (w.entity_of i).estate ≡ true) × Sound (release i (after_stop i rest w))
stop_end i n rest w (k, known) taken =
    let task : Call × EntityId = (Call.stop_handler, i) in
    let fewer : (j : EntityId) → queued j w.tasks ≡ same j i + queued j rest =
      λ j. take_out-total (is_for j) n w.tasks rest (Call.stop_call, i) taken in
    let stopped : (j : EntityId) → to_stop j w.tasks ≡ same j i + to_stop j rest =
      λ j. take_out-total (stops j) n w.tasks rest (Call.stop_call, i) taken in
    let below : i < w.next = ground (arith, fewer i, k.quiet i) in
    let running : is_started (w.entity_of i).estate ≡ true = ground (arith, stopped i, k.once i) in
    (
      running,
      release-Sound i (after_stop i rest w) below
          (record {
            once = λ j.
                ground
                  (arith, k.once j, running, stopped j, total-append (stops j) rest (task ∷ []));
            made = λ j. ground (arith, k.made j, below);
            quiet = λ j above.
                ground (
                  arith,
                  above,
                  below,
                  k.quiet j,
                  fewer j,
                  total-append (is_for j) rest (task ∷ []),
                );
            gone = k.gone;
            apart = k.apart;
          })
          (ground (arith, known i, fewer i))
          (λ j other.
            ground (arith, known j, fewer j, other, total-append (is_for j) rest (task ∷ []))),
    )

pub run_task-Goes :
    (n : ℕ) (c : Call) (i : EntityId) (rest : Tasks) (w : World)
    → Sound w
    → take_out n w.tasks ≡ some ((c, i), rest)
    → Goes (run_task n w)
unfolding run_task perform stop
run_task-Goes n Call.stop_call i rest w sound taken =
    let (running, fine) = stop_end i n rest w sound taken in
    (release i (after_stop i rest w), rw (taken, running) refl, fine)
run_task-Goes n Call.start_handler i rest w sound taken = (
  release i (record w { tasks = rest }),
  rw taken refl,
  quiet_end i n Call.start_handler rest w sound taken (λ j. refl),
)
run_task-Goes n Call.stop_handler i rest w sound taken = (
  release i (record w { tasks = rest }),
  rw taken refl,
  quiet_end i n Call.stop_handler rest w sound taken (λ j. refl),
)
run_task-Goes n Call.summary_call i rest w sound taken = (
  release i (record w { tasks = rest }),
  rw taken refl,
  quiet_end i n Call.summary_call rest w sound taken (λ j. refl),
)
