-- ===== src/Entity/Service/Lives.antt =====
-- What each operation on handles keeps.
use arby.Common.{
  ◌+◌, ◌≡◌, ◌≢◌, refl, ap, ℕ_discrete, Bool, true, false, ◌==◌, if◌then◌else◌, Option, none, some,
  [], ◌∷◌, if_pos, arith,
}
use arby.Common.Assoc.{lookup, assign, erase, Distinct, lookup-assign}
use arby.Common.Result.{ok, ◌>>=◌, ◌>>◌, guard, assertion_failed}
use arby.Common.Totals.{
  same, total-append, total-assign_new, total-assign_old, total-erase, assign-Distinct,
  erase-Distinct,
}
use arby.Entity.Service.{
  HandleId, Executor, EntityId, EntityState, Call, Handles, World, has, held, is_for, remove,
  is_not_started, update, dispatch, handle, notify_create, start, construct, move_construct,
  dispatch_stop, stop_check, move_assign, destroy,
}
use arby.Entity.Service.Tasks.{Goes}
use arby.Entity.Service.Uses.{stops, Counted, Sound, count-remove}

-- The world after `construct`.
abbrev unstarted : HandleId → Executor → World → World
unstarted h exec w =
    notify_create w.next
      (record (update w.next (record { exec = exec; estate = EntityState.not_started }) w) {
        next = w.next + 1;
        handles = assign ℕ_discrete h (some w.next) w.handles;
      })

abbrev with_new : HandleId → Executor → World → World
with_new h exec w =
    let m = unstarted h exec w in
    update w.next (record (m.entity_of w.next) { estate = EntityState.started })
      (dispatch Call.start_handler w.next m)

with_new-Sound :
    (h : HandleId) (exec : Executor) (w : World)
    → Sound w
    → lookup ℕ_discrete h w.handles ≡ none
    → Sound (with_new h exec w)
with_new-Sound h exec w (c, known) free =
    let i : EntityId = w.next in
    let task : Call × EntityId = (Call.start_handler, i) in
    (
      record {
        once = λ j. ground (
          arith,
          c.once j,
          c.once i,
          c.made i,
          c.quiet i,
          total-assign_new (has j) h (some i) w.handles free,
          total-append (stops j) w.tasks (task ∷ []),
        );
        made = λ j. ground (arith, c.made j);
        quiet = λ j above. ground (
          arith,
          above,
          c.quiet j,
          total-assign_new (has j) h (some i) w.handles free,
          total-append (is_for j) w.tasks (task ∷ []),
        );
        gone = λ j. ground (
          arith,
          c.gone j,
          count-remove i j w.impl_cache,
          total-append (same j) (remove i w.impl_cache) (i ∷ []),
        );
        apart = assign-Distinct h (some i) w.handles c.apart;
      },
      λ j. ground (
        arith,
        known j,
        c.quiet i,
        total-assign_new (has j) h (some i) w.handles free,
        total-append (is_for j) w.tasks (task ∷ []),
        count-remove i j w.impl_cache,
        total-append (same j) (remove i w.impl_cache) (i ∷ []),
      ),
    )

pub construct-Goes :
    (h : HandleId) (exec : Executor) (w : World)
    → Sound w
    → lookup ℕ_discrete h w.handles ≡ none
    → Goes (construct h exec w)
unfolding construct start
construct-Goes h exec w sound free = (
  with_new h exec w,
  ap (λ e. guard (is_not_started e.estate) assertion_failed >> ok (with_new h exec w))
      (if_pos (ℕ_discrete w.next w.next) refl
        (record { exec = exec; estate = EntityState.not_started }) (w.entity_of w.next)),
  with_new-Sound h exec w sound free,
)

-- Other handles, and what one of them had is to be stopped.
rehandle-Sound :
    (impl : Option EntityId) (m : Handles) (w : World)
    → Sound w
    → Distinct ℕ_discrete m
    → ((i : EntityId) → held i m + has i (0, impl) ≡ held i w.handles)
    → Sound (record (dispatch_stop impl w) { handles = m })
rehandle-Sound none m w (c, known) apart moved =
    let v : World = record w { handles = m } in
    let counted : Counted v = record {
      once = λ i. ground (arith, c.once i, moved i);
      made = c.made;
      quiet = λ i above. ground (arith, c.quiet i above, moved i);
      gone = c.gone;
      apart = apart;
    } in
    (counted, λ i. ground (arith, known i, moved i))
rehandle-Sound (some s) m w (c, known) apart moved =
    let task : Call × EntityId = (Call.stop_call, s) in
    let v : World = record (dispatch Call.stop_call s w) { handles = m } in
    let counted : Counted v = record {
      once = λ i. ground (arith, c.once i, moved i, total-append (stops i) w.tasks (task ∷ []));
      made = c.made;
      quiet = λ i above.
          ground (arith, c.quiet i above, moved i, total-append (is_for i) w.tasks (task ∷ []));
      gone = c.gone;
      apart = apart;
    } in
    (counted, λ i. ground (arith, known i, moved i, total-append (is_for i) w.tasks (task ∷ [])))

-- The handles after one moved to another.
abbrev moved : HandleId → HandleId → Option EntityId → Handles → Handles
moved h j impl m = assign ℕ_discrete h impl (assign ℕ_discrete j none m)

pub move_construct-Goes :
    (h j : HandleId) (impl : Option EntityId) (w : World)
    → Sound w
    → lookup ℕ_discrete h w.handles ≡ none
    → lookup ℕ_discrete j w.handles ≡ some impl
    → Goes (move_construct h j w)
unfolding move_construct
move_construct-Goes h j impl w sound free there =
    let apart : h ≢ j = λ same. ground (arith, free, there, same) in
    let still : lookup ℕ_discrete h (assign ℕ_discrete j none w.handles) ≡ none =
      ground (arith, free, apart, lookup-assign ℕ_discrete j h none w.handles) in
    (
      record w { handles = moved h j impl w.handles },
      rw there refl,
      rehandle-Sound none (moved h j impl w.handles) w sound
          (assign-Distinct h impl _ (assign-Distinct j none w.handles sound.0.apart))
          (λ i. ground (
            arith,
            total-assign_new (has i) h impl (assign ℕ_discrete j none w.handles) still,
            total-assign_old (has i) j none impl w.handles there,
          )),
    )

dispatch_stop-handles :
    (impl : Option EntityId) (w : World) → (dispatch_stop impl w).handles ≡ w.handles
dispatch_stop-handles none w = refl
dispatch_stop-handles (some i) w = refl

pub destroy-Goes :
    (h : HandleId) (impl : Option EntityId) (w : World)
    → Sound w
    → lookup ℕ_discrete h w.handles ≡ some impl
    → Goes (destroy h w)
unfolding destroy stop_check
destroy-Goes h impl w sound here = (
  record (dispatch_stop impl w) { handles = erase ℕ_discrete h w.handles },
  rw here (
      ap (λ m. ok (record (dispatch_stop impl w) { handles = erase ℕ_discrete h m }))
        (dispatch_stop-handles impl w)),
  rehandle-Sound impl (erase ℕ_discrete h w.handles) w sound
      (erase-Distinct h w.handles sound.0.apart)
      (λ i. ground (arith, total-erase (has i) h impl w.handles sound.0.apart here)),
)

move_construct-stopping :
    (h j : HandleId) (t s : Option EntityId) (w : World)
    → lookup ℕ_discrete j w.handles ≡ some s
    → move_construct h j (dispatch_stop t w)
      ≡ ok (record (dispatch_stop t w) { handles = moved h j s w.handles })
unfolding move_construct
move_construct-stopping h j none s w there = rw there refl
move_construct-stopping h j (some i) s w there = rw there refl

pub move_assign-Goes :
    (h j : HandleId) (t s : Option EntityId) (w : World)
    → Sound w
    → lookup ℕ_discrete h w.handles ≡ some t
    → lookup ℕ_discrete j w.handles ≡ some s
    → Goes (move_assign h j w)
unfolding move_assign stop_check
move_assign-Goes h j t s w sound here there = either (h == j) refl
  where
    either :
        (b : Bool)
        → (h == j) ≡ b
        → Goes (
            if b
            then (handle h w >>= λ impl. ok w)
            else (stop_check h w >>= λ v. move_construct h j v))
    either true same = (w, rw here refl, sound)
    either false other =
        let apart : h ≢ j = λ same. ground (arith, other, same) in
        let still : lookup ℕ_discrete h (assign ℕ_discrete j none w.handles) ≡ some t =
          ground (arith, here, apart, lookup-assign ℕ_discrete j h none w.handles) in
        (
          record (dispatch_stop t w) { handles = moved h j s w.handles },
          rw here (move_construct-stopping h j t s w there),
          rehandle-Sound t (moved h j s w.handles) w sound
              (assign-Distinct h s _ (assign-Distinct j none w.handles sound.0.apart))
              (λ i. ground (
                arith,
                total-assign_old (has i) h s t (assign ℕ_discrete j none w.handles) still,
                total-assign_old (has i) j none s w.handles there,
              )),
        )
