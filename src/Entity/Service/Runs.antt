-- ===== src/Entity/Service/Runs.antt =====
-- Entities over any operations.
use arby.Common.{
  ◌+◌, ◌≡◌, ◌≤◌, refl, subst, ℕ_discrete, false, ◌==◌, ltb, if◌then◌else◌, Option, none, some, List,
  [], ◌∷◌, arith,
}
use arby.Common.Assoc.{lookup}
use arby.Common.Result.{Result, ok, err}
use arby.Common.Totals.{total_le, count}
use arby.Entity.Service.{
  EntityId, EntityState, Call, Tasks, World, Op, no_entities, uses, is_for, is_started,
  is_not_started, take_out, alive, enumerate, step, run,
}
use arby.Entity.Service.Uses.{stops, Counted, Sound}
use arby.Entity.Service.Tasks.{Goes, run_task-Goes}
use arby.Entity.Service.Lives.{construct-Goes, move_construct-Goes, move_assign-Goes, destroy-Goes}

-- An operation names handles that are there, or makes one that is not, or runs a function object
-- that is there.
abbrev pub Enabled : Op → World → Type 0
Enabled (Op.constructed h exec) w = lookup ℕ_discrete h w.handles ≡ none
Enabled (Op.move_constructed h j) w =
    (impl : Option EntityId) × (lookup ℕ_discrete h w.handles ≡ none)
    × (lookup ℕ_discrete j w.handles ≡ some impl)
Enabled (Op.move_assigned h j) w =
    (t : Option EntityId) × (s : Option EntityId) × (lookup ℕ_discrete h w.handles ≡ some t)
    × (lookup ℕ_discrete j w.handles ≡ some s)
Enabled (Op.destroyed h) w = (impl : Option EntityId) × (lookup ℕ_discrete h w.handles ≡ some impl)
Enabled (Op.ran n) w =
    (c : Call) × (i : EntityId) × (rest : Tasks) × (take_out n w.tasks ≡ some ((c, i), rest))

abbrev pub Then : (World → Type 0) → Result World → Type 0
Then P (ok w) = P w
Then P (err fault) = Unit

-- Each operation is enabled where it is made.
abbrev pub Legal : List Op → World → Type 0
Legal [] w = Unit
Legal (op ∷ ops) w = Enabled op w × Then (Legal ops) (step op w)

step-Goes : (op : Op) (w : World) → Sound w → Enabled op w → Goes (step op w)
unfolding step
step-Goes (Op.constructed h exec) w sound free = construct-Goes h exec w sound free
step-Goes (Op.move_constructed h j) w sound (impl, free, there) =
    move_construct-Goes h j impl w sound free there
step-Goes (Op.move_assigned h j) w sound (t, s, here, there) =
    move_assign-Goes h j t s w sound here there
step-Goes (Op.destroyed h) w sound (impl, here) = destroy-Goes h impl w sound here
step-Goes (Op.ran n) w sound (c, i, rest, taken) = run_task-Goes n c i rest w sound taken

run-Goes : (ops : List Op) (w : World) → Sound w → Legal ops w → Goes (run ops w)
unfolding run
run-Goes [] w sound legal = (w, refl, sound)
run-Goes (op ∷ ops) w sound legal =
    let (v, done, fine) = step-Goes op w sound legal.0 in
    let (u, ran, sound') = run-Goes ops v fine (subst (Then (Legal ops)) done legal.1) in
    (u, rw done ran, sound')

no_entities-Sound : Sound no_entities
no_entities-Sound =
    let counted : Counted no_entities = record {
      once = λ i. omega arith;
      made = λ i. ground arith;
      quiet = λ i above. omega arith;
      gone = λ i. ground arith;
      apart = tt;
    } in
    (counted, λ i. ground arith)

count-alive :
    (w : World) (i : EntityId) (m : List EntityId)
    → count i (alive w m) ≡ (if uses i w == 0 then 0 else count i m)
unfolding alive
count-alive w i [] = ground arith
count-alive w i (j ∷ m) = ground (arith, count-alive w i m)

state-stopped :
    (e : EntityState) → is_not_started e ≡ false → is_started e ≡ false → e ≡ EntityState.stopped
state-stopped EntityState.not_started h g = absurd (cc)
state-stopped EntityState.started h g = absurd (cc)
state-stopped EntityState.stopped h g = refl

stops-is_for : (i : EntityId) (t : Call × EntityId) → stops i t ≤ is_for i t
stops-is_for i (Call.stop_call, j) = omega arith
stops-is_for i (Call.start_handler, j) = omega arith
stops-is_for i (Call.stop_handler, j) = omega arith
stops-is_for i (Call.summary_call, j) = omega arith

destroyed-stopped :
    (w : World) (i : EntityId)
    → Sound w
    → 1 ≤ count i w.destroyed
    → (w.entity_of i).estate ≡ EntityState.stopped
destroyed-stopped w i (k, known) gone =
    state-stopped (w.entity_of i).estate (ground (arith, gone, k.gone i, k.made i)) (
      ground (
        arith,
        gone,
        k.gone i,
        known i,
        k.once i,
        total_le (stops i) (is_for i) w.tasks (stops-is_for i),
      ))

-- From no entity, if each operation is enabled where it is made: no assertion fails, enumerate gives
-- each entity that a handle or a function object has, once, and no other; each entity that was made
-- is in the cache or was destroyed, once; and one that was destroyed had been stopped.
pub run-lives :
    (ops : List Op)
    → Legal ops no_entities
    → (w : World) × (run ops no_entities ≡ ok w)
      × ((i : EntityId) → count i (enumerate w) ≡ (if uses i w == 0 then 0 else 1))
      × ((i : EntityId)
          → count i w.impl_cache + count i w.destroyed ≡ (if ltb i w.next then 1 else 0))
      × ((i : EntityId) → 1 ≤ count i w.destroyed → (w.entity_of i).estate ≡ EntityState.stopped)
run-lives ops legal =
    let (w, ran, sound) = run-Goes ops no_entities no_entities-Sound legal in
    (
      w,
      ran,
      λ i. ground (arith, count-alive w i w.impl_cache, sound.1 i),
      sound.0.gone,
      λ i. destroyed-stopped w i sound,
    )
