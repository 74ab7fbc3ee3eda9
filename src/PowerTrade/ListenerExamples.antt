-- ===== src/PowerTrade/ListenerExamples.antt =====
-- Two printing listeners, one of which is moved.
use arby.Common.{
  ℕ, ◌≡◌, ◌≤◌, refl, String_discrete, ℕ_discrete, true, false, none, some, List, [], ◌∷◌, arith,
}
use arby.Common.Assoc.{lookup, assign, erase}
use arby.Common.Result.{ok, err, null_reference}
use arby.Common.Totals.{total, count}
use arby.PowerTrade.EventListener.{
  Op, World, no_listeners, run, step, construct, move_construct, move_assign, destroy, check, start,
  stop, without, unwatched, on_connection_state, on_message,
}
use arby.PowerTrade.EventListener.Slots.{held, watches}
use arby.PowerTrade.EventListener.Runs.{run-IsConnected, destroy-move_construct}

abbrev ops : List Op
ops =
    Op.constructed 0 "heartbeat"
    ∷ Op.constructed 1 "command_response"
    ∷ Op.told_message "heartbeat" "{}"
    ∷ Op.move_assigned 0 1
    ∷ Op.told_state none
    ∷ Op.destroyed 0
    ∷ []

run-IsConnected_example :
    (w : World) × (run true ops (no_listeners (some "not_connected")) ≡ ok w)
    × ((i : ℕ)
        → (count i w.status_slots ≡ held i w)
          × (total (watches i) w.message_slots ≡ held i w)
          × (held i w ≤ 1))
unfolding step construct move_assign check start stop without unwatched on_connection_state
    on_message lookup assign ℕ_discrete String_discrete destroy
run-IsConnected_example =
    run-IsConnected true (some "not_connected") ops
      (refl, (refl, (tt, (((_, refl, tt), (_, refl)), (tt, ((_, refl, tt), tt))))))

abbrev one_listener : World
one_listener = record (no_listeners none) { handles = (0, some 0) ∷ []; next = 1 }

abbrev moved : World
moved = record one_listener { handles = (0, none) ∷ (1, some 0) ∷ [] }

destroy-move_construct_example :
    (destroy true true 0 moved ≡ err null_reference)
    × (destroy false true 0 moved
        ≡ ok (record moved { handles = erase ℕ_discrete 0 moved.handles }))
unfolding move_construct check lookup assign ℕ_discrete
destroy-move_construct_example =
    destroy-move_construct true true 1 0 one_listener moved (λ e. omega (arith, e)) refl
