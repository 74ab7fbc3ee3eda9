-- ===== src/Entity/Examples.antt =====
-- Keys at concrete operations.
use arby.Common.{
  ℕ, ◌+◌, ◌≤◌, ◌==◌, ltb, if◌then◌else◌, ℕ_discrete, ◌≡◌, refl, false, none, List, [], ◌∷◌, length,
}
use arby.Common.Assoc.{lookup, assign, erase}
use arby.Common.Result.{map_ok, ok}
use arby.Common.Totals.{count}
use arby.Entity.Service
use arby.Entity.Service.{
  no_entities, enumerate, uses, construct, start, move_assign, move_construct, stop_check, run_task,
  take_out, perform, stop, release, remove,
}
use arby.Entity.Service.Runs.{run-lives}
use arby.Entity.Keys.{Library, Op, empty_world, run}
use arby.Entity.Keys.Sharing.{view, act_all, run-act_all}

abbrev small_library : Library
small_library = record {
  before = λ k j. false;
  hash_values = λ m. length m;
  sha1 = λ m. length m ∷ [];
}

abbrev operations : List Op
operations =
    Op.made 0 (("base", "btc") ∷ [])
    ∷ Op.copied 1 0
    ∷ Op.entered 1 "base" "eth"
    ∷ Op.entered 1 "term" "usd"
    ∷ Op.merged 0 1
    ∷ Op.dropped 1
    ∷ Op.locked 0
    ∷ []

run-act_all_example :
    map_ok view (run small_library operations empty_world) ≡ act_all operations (λ k. none)
run-act_all_example = run-act_all small_library operations

-- Two entities, a handle that moves over another, and all that is queued run.
abbrev lives : List Service.Op
lives =
    Service.Op.constructed 0 7
    ∷ Service.Op.constructed 1 8
    ∷ Service.Op.ran 0
    ∷ Service.Op.move_assigned 0 1
    ∷ Service.Op.ran 1
    ∷ Service.Op.ran 1
    ∷ Service.Op.destroyed 1
    ∷ []

run-lives_example :
    (w : Service.World) × (Service.run lives no_entities ≡ ok w)
    × ((i : ℕ) → count i (enumerate w) ≡ (if uses i w == 0 then 0 else 1))
    × ((i : ℕ) → count i w.impl_cache + count i w.destroyed ≡ (if ltb i w.next then 1 else 0))
    × ((i : ℕ) → 1 ≤ count i w.destroyed → (w.entity_of i).estate ≡ Service.EntityState.stopped)
unfolding Service.step construct start move_assign move_construct stop_check Service.destroy
    run_task take_out perform stop release lookup assign erase remove ℕ_discrete
run-lives_example = run-lives lives (
  refl,
  (
    refl,
    ((_, _, _, refl), ((_, _, refl, refl), ((_, _, _, refl), ((_, _, _, refl), ((_, refl), tt))))),
  ),
)
