-- ===== src/PowerTrade/EventListener/Runs.antt =====
-- What any operations on listeners do, and the end of one that was moved from.
use arby.Common.{
  ◌+◌, ◌≡◌, ◌≢◌, ◌≤◌, refl, subst, ℕ_discrete, Bool, true, false, Option, none, some, List, [], ◌∷◌,
  arith,
}
use arby.Common.Assoc.{lookup, assign, erase, lookup-assign}
use arby.Common.Result.{ok, err, first_ok, null_reference}
use arby.Common.Totals.{total, count, total-erase, erase-Distinct}
use arby.PowerTrade.Listener.{ConnectionState}
use arby.PowerTrade.EventListener.{
  ImplId, HandleId, World, no_listeners, start, handle, check, stop_impl, construct, take_over,
  move_construct, destroy, on_connection_state, Op, constructed, move_constructed, move_assigned,
  destroyed, told_state, told_message, step, run,
}
use arby.PowerTrade.EventListener.Slots.{
  has, held, watches, IsConnected, give_up-IsConnected, construct-IsConnected,
}
use arby.PowerTrade.EventListener.Moves.{
  Enabled, Then, Legal, Goes, check_ok, made, move_construct-Goes, move_assign-Goes,
}

step-Goes :
    (debug : Bool) (op : Op) (w : World)
    → IsConnected w
    → Enabled debug op w
    → Goes (step debug op w)
unfolding step construct destroy on_connection_state
step-Goes debug (constructed h primary) w c free = (
  record (start w.next primary w) {
    next = w.next + 1;
    handles = assign ℕ_discrete h (some w.next) w.handles;
  },
  rw (check_ok debug (some w.next) (made debug w.next)) refl,
  construct-IsConnected h primary w c free,
)
step-Goes debug (move_constructed h j) w c e = move_construct-Goes debug h j w c e
step-Goes debug (move_assigned h j) w c e = move_assign-Goes debug h j w c e
step-Goes debug (destroyed h) w c (old, there, usable) = (
  record (stop_impl old w) { handles = erase ℕ_discrete h w.handles },
  rw (there, check_ok debug old usable) refl,
  give_up-IsConnected old h (erase ℕ_discrete h w.handles) w c (erase-Distinct h w.handles c.apart)
      (λ i. total-erase (has i) h old w.handles c.apart there),
)
step-Goes debug (told_state s) w c e =
    (_, refl, record { status = c.status; message = c.message; single = c.single; apart = c.apart })
step-Goes debug (told_message type text) w c e =
    (_, refl, record { status = c.status; message = c.message; single = c.single; apart = c.apart })

run-Goes :
    (debug : Bool) (ops : List Op) (w : World)
    → IsConnected w
    → Legal debug ops w
    → Goes (run debug ops w)
unfolding run
run-Goes debug [] w c legal = (w, refl, c)
run-Goes debug (op ∷ ops) w c (possible, legal) =
    let (v, done, kept) = step-Goes debug op w c possible in
    let (u, went, end) = run-Goes debug ops v kept (subst (Then (Legal debug ops)) done legal) in
    (u, rw done went, end)

-- From no listener, whatever operations on the executor of the connector, where a new handle has a new
-- name, the others are there, and in a debug build a handle that was moved from is only assigned from:
-- nothing fails, and each listener that a handle has is connected to both signals, once, and no other
-- listener is.
pub run-IsConnected :
    (debug : Bool) (s : ConnectionState) (ops : List Op)
    → Legal debug ops (no_listeners s)
    → (w : World) × (run debug ops (no_listeners s) ≡ ok w)
      × ((i : ImplId)
          → (count i w.status_slots ≡ held i w)
            × (total (watches i) w.message_slots ≡ held i w)
            × (held i w ≤ 1))
run-IsConnected debug s ops legal =
    let (w, went, c) =
      run-Goes debug ops (no_listeners s)
        (record { status = λ i. refl; message = λ i. refl; single = λ i. ground arith; apart = tt })
        legal in
    (w, went, λ i. (c.status i, c.message i, ground (arith, c.single i)))

lookup-take_over :
    (h j : HandleId) (impl : Option ImplId) (w : World)
    → h ≢ j
    → lookup ℕ_discrete j (take_over h j impl w).handles ≡ some none
lookup-take_over h j impl w other = ground (
  arith,
  other,
  lookup-assign ℕ_discrete h j impl (assign ℕ_discrete j none w.handles),
  lookup-assign ℕ_discrete j j none w.handles,
)

abbrev Ends : Bool → HandleId → World → Type 0
Ends here j v =
    (destroy true here j v ≡ err null_reference)
    × (destroy false here j v ≡ ok (record v { handles = erase ℕ_discrete j v.handles }))

destroy-null :
    (here : Bool) (j : HandleId) (v : World)
    → lookup ℕ_discrete j v.handles ≡ some none
    → Ends here j v
unfolding destroy check
destroy-null here j v e = (rw e refl, rw e refl)

-- In a debug build, the end of a handle that a constructor has moved from reads a null pointer, on whatever executor; in
-- another build it is the end of the handle alone.
pub destroy-move_construct :
    (here here' : Bool) (h j : HandleId) (w v : World)
    → h ≢ j
    → move_construct true here h j w ≡ ok v
    → (destroy true here' j v ≡ err null_reference)
      × (destroy false here' j v ≡ ok (record v { handles = erase ℕ_discrete j v.handles }))
unfolding move_construct
destroy-move_construct here here' h j w v other e =
    let (impl, checked, found) = first_ok (handle j w) _ e in
    let (u, done, passed) = first_ok (check true here impl) _ checked in
    subst (Then (Ends here' j)) done
      (destroy-null here' j (take_over h j impl w) (lookup-take_over h j impl w other))
