-- ===== src/Util/MonitorExamples.antt =====
-- Two coroutines of one name, of which the sentinel of the first is moved.
use arby.Common.{ℕ, ◌≡◌, ◌≤◌, refl, String_discrete, ℕ_discrete, List, [], ◌∷◌, arith}
use arby.Common.Assoc.{lookup, assign, erase}
use arby.Common.Result.{ok}
use arby.Common.Totals.{total}
use arby.Util.Monitor.{
  Op, Monitor, no_instances, run, step, record_instance, insert, find_same, move_construct, destroy,
  erase_instance,
}
use arby.Util.Monitor.Kept.{keeps, is_at, AllDiffer}
use arby.Util.Monitor.Runs.{run-instances}

abbrev ops : List Op
ops =
    Op.recorded 0 "send_loop" 5
    ∷ Op.recorded 1 "send_loop" 5
    ∷ Op.moved 2 0
    ∷ Op.destroyed 0
    ∷ Op.destroyed 2
    ∷ []

run-instances_example :
    (m : Monitor) × (run ops no_instances ≡ ok m)
    × ((n : ℕ)
        → (total (keeps n) m.sentinels ≡ total (is_at n) m.instances_)
          × (total (is_at n) m.instances_ ≤ 1))
    × AllDiffer m.instances_
unfolding step record_instance insert find_same move_construct destroy erase_instance lookup assign
    erase String_discrete ℕ_discrete
run-instances_example =
    run-instances ops (
      (refl, omega arith),
      ((refl, omega arith), ((refl, (_, refl)), ((_, refl), ((_, refl), tt)))),
    )
