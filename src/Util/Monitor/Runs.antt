-- ===== src/Util/Monitor/Runs.antt =====
-- What any sentinels do to the set of instances.
use arby.Common.{◌≡◌, ◌≤◌, refl, subst, List, [], ◌∷◌, arith}
use arby.Common.Result.{ok}
use arby.Common.Totals.{total}
use arby.Util.Monitor.{Node, Monitor, no_instances, Op, run}
use arby.Util.Monitor.Kept.{keeps, is_at, AllDiffer, IsKept}
use arby.Util.Monitor.Steps.{Then, Legal, Goes, step-Goes}

run-IsKept : (ops : List Op) (m : Monitor) → IsKept m → Legal ops m → Goes (run ops m)
unfolding run
run-IsKept [] m h legal = (m, refl, h)
run-IsKept (op ∷ ops) m h (possible, legal) =
    let (n, done, kept) = step-Goes op m h possible in
    let (l, went, end) = run-IsKept ops n kept (subst (Then (Legal ops)) done legal) in
    (l, rw done went, end)

-- From no instance, whatever sentinels are recorded, moved and destroyed, each operation enabled where
-- it is made: no iterator dangles, each instance in the set has one sentinel that will erase it and no other
-- is left to erase what is not there, and no two instances in the set share their name and version.
pub run-instances :
    (ops : List Op)
    → Legal ops no_instances
    → (m : Monitor) × (run ops no_instances ≡ ok m)
      × ((n : Node)
          → (total (keeps n) m.sentinels ≡ total (is_at n) m.instances_)
            × (total (is_at n) m.instances_ ≤ 1))
      × AllDiffer m.instances_
run-instances ops legal =
    let (m, went, kept) =
      run-IsKept ops no_instances
        (record {
          once = λ n. refl;
          single = λ n. ground arith;
          below = tt;
          differ = tt;
          apart = tt;
        })
        legal in
    (m, went, λ n. (kept.once n, ground (arith, kept.single n)), kept.differ)
