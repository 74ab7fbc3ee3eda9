-- ===== src/Entity/Service.antt =====
-- The life of entities: entity/entity_base.hpp and .cpp, and the entities that
-- entity/entity_service.hpp knows. Handles and entities are numbers. An entity lives as long as a
-- handle has it, or a function object that was given to its executor and did not run yet; these may
-- run in any order. The constructor of a handle over an entity made elsewhere, the cache by keys and
-- the services of interfaces are not modelled here.
pub mod Uses
pub mod Tasks
pub mod Lives
pub mod Runs
use arby.Common.{
  ℕ, zero, suc, ◌+◌, ◌≡◌, ℕ_discrete, Bool, true, false, not, ◌==◌, if◌then◌else◌, Option, none,
  some, List, [], ◌∷◌, ◌++◌, ite,
}
use arby.Common.Assoc.{lookup, assign, erase}
use arby.Common.Totals.{same, total}
use arby.Common.Result.{
  Result, ok, err, ◌>>=◌, ◌>>◌, guard, or_fail, null_reference, assertion_failed,
}

abbrev pub EntityId : Type 0
EntityId = ℕ

abbrev pub HandleId : Type 0
HandleId = ℕ

abbrev pub Executor : Type 0
Executor = ℕ

pub data EntityState : Type 0 where
  not_started started stopped : EntityState

pub record Entity : Type 0 where
  pub exec : Executor
  pub estate : EntityState

-- The calls that function objects make: of `handle_start`, `stop`, `handle_stop` and `summary`.
pub data Call : Type 0 where
  start_handler stop_call stop_handler summary_call : Call

abbrev pub Handles : Type 0
Handles = List (HandleId × Option EntityId)

abbrev pub Tasks : Type 0
Tasks = List (Call × EntityId)

pub record World : Type 0 where
  pub entity_of : EntityId → Entity
  pub next : EntityId
  pub handles : Handles
  pub tasks : Tasks
  pub impl_cache : List EntityId
  pub destroyed : List EntityId

abbrev pub no_entities : World
no_entities = record {
  entity_of = λ i. record { exec = 0; estate = EntityState.not_started };
  next = 0;
  handles = [];
  tasks = [];
  impl_cache = [];
  destroyed = [];
}

abbrev pub handle : HandleId → World → Result (Option EntityId)
handle h w = or_fail (lookup ℕ_discrete h w.handles) null_reference

abbrev pub update : EntityId → Entity → World → World
update i x w = record w { entity_of = λ j. ite (ℕ_discrete j i) x (w.entity_of j) }

abbrev pub dispatch : Call → EntityId → World → World
dispatch call i w = record w { tasks = w.tasks ++ (call, i) ∷ [] }

-- `use_count` by handles, and by function objects.
abbrev pub has : EntityId → HandleId × Option EntityId → ℕ
has i (h, none) = 0
has i (h, some j) = same i j

abbrev pub held : EntityId → Handles → ℕ
held i m = total (has i) m

abbrev pub is_for : EntityId → Call × EntityId → ℕ
is_for i (c, j) = same i j

abbrev pub queued : EntityId → Tasks → ℕ
queued i m = total (is_for i) m

abbrev pub uses : EntityId → World → ℕ
uses i w = held i w.handles + queued i w.tasks

-- `notify_create` and `notify_destroy`, on a set.
unfoldable pub remove : EntityId → List EntityId → List EntityId
remove i [] = []
remove i (j ∷ m) = ite (ℕ_discrete i j) (remove i m) (j ∷ remove i m)

abbrev pub notify_create : EntityId → World → World
notify_create i w = record w { impl_cache = remove i w.impl_cache ++ i ∷ [] }

abbrev pub notify_destroy : EntityId → World → World
notify_destroy i w = record w { impl_cache = remove i w.impl_cache }

-- The end of a shared pointer: the last one runs the deleter.
unfoldable pub release : EntityId → World → World
release i w =
    if uses i w == 0 then record (notify_destroy i w) { destroyed = w.destroyed ++ i ∷ [] } else w

abbrev pub is_not_started : EntityState → Bool
is_not_started EntityState.not_started = true
is_not_started _ = false

abbrev pub is_started : EntityState → Bool
is_started EntityState.started = true
is_started _ = false

unfoldable pub start : EntityId → World → Result World
start i w =
    guard (is_not_started (w.entity_of i).estate) assertion_failed
    >> ok (
        update i (record (w.entity_of i) { estate = EntityState.started })
          (dispatch Call.start_handler i w))

unfoldable pub stop : EntityId → World → Result World
stop i w =
    guard (is_started (w.entity_of i).estate) assertion_failed
    >> ok (
        update i (record (w.entity_of i) { estate = EntityState.stopped })
          (dispatch Call.stop_handler i w))

-- `entity_handle::construct`, by the constructor of a handle from an executor.
unfoldable pub construct : HandleId → Executor → World → Result World
construct h exec w =
    let i = w.next in
    let made = record (update i (record { exec = exec; estate = EntityState.not_started }) w) {
      next = i + 1;
      handles = assign ℕ_discrete h (some i) w.handles;
    } in
    start i (notify_create i made)

unfoldable pub move_construct : HandleId → HandleId → World → Result World
move_construct h j w = handle j w >>= λ impl.
    ok (record w { handles = assign ℕ_discrete h impl (assign ℕ_discrete j none w.handles) })

-- A function object that has the entity, and that calls `stop`.
abbrev pub dispatch_stop : Option EntityId → World → World
dispatch_stop none w = w
dispatch_stop (some i) w = dispatch Call.stop_call i w

unfoldable pub stop_check : HandleId → World → Result World
stop_check h w = handle h w >>= λ impl. ok (dispatch_stop impl w)

unfoldable pub move_assign : HandleId → HandleId → World → Result World
move_assign h j w =
    let moved = stop_check h w >>= λ v. move_construct h j v in
    if h == j then (handle h w >>= λ impl. ok w) else moved

unfoldable pub destroy : HandleId → World → Result World
destroy h w = stop_check h w >>= λ v. ok (record v { handles = erase ℕ_discrete h v.handles })

-- The function object at a place of the queues, and the others.
unfoldable pub take_out : ℕ → Tasks → Option ((Call × EntityId) × Tasks)
take_out n [] = none
take_out zero (t ∷ tasks) = some (t, tasks)
take_out (suc n) (t ∷ tasks) = elim (take_out n tasks) [
  | none ↦ none
  | some (u, rest) ↦ some (u, t ∷ rest)
]

abbrev pub call : Call → EntityId → World → Result World
call Call.stop_call i w = stop i w
call c i w = ok w

-- It runs, and is destroyed with its shared pointer.
unfoldable pub perform : (Call × EntityId) × Tasks → World → Result World
perform ((c, i), rest) w = call c i (record w { tasks = rest }) >>= λ v. ok (release i v)

unfoldable pub run_task : ℕ → World → Result World
run_task n w = or_fail (take_out n w.tasks) null_reference >>= λ t. perform t w

-- `enumerate`: what is given to its function.
unfoldable pub alive : World → List EntityId → List EntityId
alive w [] = []
alive w (i ∷ m) = let rest = alive w m in if uses i w == 0 then rest else i ∷ rest

abbrev pub enumerate : World → List EntityId
enumerate w = alive w w.impl_cache

pub data Op : Type 0 where
  constructed : HandleId → Executor → Op
  move_constructed move_assigned : HandleId → HandleId → Op
  destroyed : HandleId → Op
  ran : ℕ → Op

unfoldable pub step : Op → World → Result World
step (constructed h exec) w = construct h exec w
step (move_constructed h j) w = move_construct h j w
step (move_assigned h j) w = move_assign h j w
step (destroyed h) w = destroy h w
step (ran n) w = run_task n w

unfoldable pub run : List Op → World → Result World
run [] w = ok w
run (op ∷ ops) w = step op w >>= run ops
