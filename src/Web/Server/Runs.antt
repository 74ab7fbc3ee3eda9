-- ===== src/Web/Server/Runs.antt =====
-- Servers over any operations.
use arby.Common.{
  ◌+◌, ◌≡◌, ◌<◌, ◌≢◌, refl, subst, ℕ_discrete, dec_lt, String, Option, none, some, List, [], ◌∷◌,
  ◌++◌, ite, arith,
}
use arby.Common.Assoc.{lookup, lookup-assign}
use arby.Common.Result.{Result, ok, err, first_ok, bad_executor, null_reference}
use arby.Web.Apps.{Request, Reply, add_app}
use arby.Web.Server.{
  ServerId, Executor, Address, Server, World, Op, server, put, moved_from, no_servers, ImplId,
  http_server, move_construct, serve, add_server_app, step, run,
}
use arby.Common.Totals.{count}
use arby.Web.Server.Held.{held}
use arby.Web.Server.Stops.{
  Sound, Present, Goes, keep-Sound, http_server-Sound, move_construct-Goes, move_assign-Goes,
  destroy-Goes, serve-Goes, shutdown-closed, closed-Sound, closed,
}

module _ (Regex Match : Type 0) (regex : String → Option Regex) where
  -- An operation names servers that are there, or makes one that is not; what serves has an executor,
  -- what gets an application a store, and its pattern compiles.
  abbrev pub Enabled : Op Regex Match regex → World Regex Match → Type 0
  Enabled (Op.constructed k exec) w = lookup ℕ_discrete k w.servers ≡ none
  Enabled (Op.move_constructed k j) w =
      (lookup ℕ_discrete k w.servers ≡ none) × Present Regex Match j w
  Enabled (Op.move_assigned k j) w = Present Regex Match k w × Present Regex Match j w
  Enabled (Op.destroyed k) w = Present Regex Match k w
  Enabled (Op.shut_down k) w = Present Regex Match k w
  Enabled (Op.served k host port) w =
      (s : Server) × (e : Executor) × (lookup ℕ_discrete k w.servers ≡ some s) × (s.exec ≡ some e)
  Enabled (Op.app_added k text app) w =
      (s : Server) × (a : Address) × (re : Regex) × (lookup ℕ_discrete k w.servers ≡ some s)
      × (s.apps ≡ some a)
      × (regex text ≡ some re)

  step-Goes :
      (op : Op Regex Match regex) (w : World Regex Match)
      → Sound Regex Match w
      → Enabled op w
      → Goes Regex Match (step Regex Match regex op w)
  unfolding step add_server_app add_app
  step-Goes (Op.constructed k exec) w sound gone =
      (http_server Regex Match k exec w, refl, http_server-Sound Regex Match k exec w sound gone)
  step-Goes (Op.move_constructed k j) w sound (gone, there) =
      move_construct-Goes Regex Match k j w sound gone there
  step-Goes (Op.move_assigned k j) w sound (here, there) =
      move_assign-Goes Regex Match k j w sound here there
  step-Goes (Op.destroyed k) w sound here = destroy-Goes Regex Match k w sound here
  step-Goes (Op.shut_down k) w sound (s, here) = (
    closed Regex Match k s w,
    shutdown-closed Regex Match k s w sound here,
    closed-Sound Regex Match k s w sound here,
  )
  step-Goes (Op.served k host port) w sound (s, e, here, runs) =
      serve-Goes Regex Match k host port s e w sound here runs
  step-Goes (Op.app_added k text app) w sound (s, a, re, here, store, compiles) = (
    record w {
      stores = λ b.
          ite (ℕ_discrete b a) (w.stores a ++ record { def = text; re = re; app = app } ∷ [])
            (w.stores b);
    },
    rw (here, store, compiles) refl,
    keep-Sound Regex Match w _ sound refl refl sound.apart (λ i. refl),
  )

  -- The property holds of the world, if there is one.
  abbrev pub Then : (World Regex Match → Type 0) → Result (World Regex Match) → Type 0
  Then P (ok w) = P w
  Then P (err fault) = Unit

  -- Each operation is enabled where it is made.
  abbrev pub Legal : List (Op Regex Match regex) → World Regex Match → Type 0
  Legal [] w = Unit
  Legal (op ∷ ops) w = Enabled op w × Then (Legal ops) (step Regex Match regex op w)

  run-Goes :
      (ops : List (Op Regex Match regex)) (w : World Regex Match)
      → Sound Regex Match w
      → Legal ops w
      → Goes Regex Match (run Regex Match regex ops w)
  unfolding run
  run-Goes [] w sound legal = (w, refl, sound)
  run-Goes (op ∷ ops) w sound legal =
      let (v, done, fine) = step-Goes op w sound legal.0 in
      let (u, ran, sound') = run-Goes ops v fine (subst (Then (Legal ops)) done legal.1) in
      (u, rw done ran, sound')

  none-Sound : Sound Regex Match (no_servers Regex Match)
  none-Sound = record {
    counted = λ i. ground arith;
    apart = tt;
    run_on = λ i below. absurd (omega (arith, below));
  }

  -- From no server, if each operation is enabled where it is made: none throws, and every
  -- implementation that was made was stopped once and is held by no server, or is held once by one
  -- server and was not stopped. Once no server is left, each was stopped once.
  pub run-stops :
      (ops : List (Op Regex Match regex))
      → Legal ops (no_servers Regex Match)
      → (w : World Regex Match) × (run Regex Match regex ops (no_servers Regex Match) ≡ ok w)
        × ((i : ImplId) → count i w.stopped + held i w.servers ≡ ite (dec_lt i w.next_impl) 1 0)
        × (w.servers ≡ [] → (i : ImplId) → i < w.next_impl → count i w.stopped ≡ 1)
  run-stops ops legal =
      let (w, ran, sound) = run-Goes ops (no_servers Regex Match) none-Sound legal in
      (w, ran, sound.counted, λ gone i below. ground (arith, sound.counted i, gone, below))

  -- After a move construction, whatever the servers were: to serve from the new server throws, since its
  -- executor was left out, and to add an application to the old one reads a null pointer.
  pub serve-move_construct :
      (k j : ServerId) (w v : World Regex Match)
      → k ≢ j
      → move_construct Regex Match k j w ≡ ok v
      → ((host port : String) → serve Regex Match k host port v ≡ err bad_executor)
        × ((text : String) (app : Request → Match → Reply)
            → add_server_app Regex Match regex j text app v ≡ err null_reference)
  unfolding move_construct serve add_server_app
  serve-move_construct k j w v apart made =
      let (s, built, found) = first_ok (server Regex Match j w) _ made in
      let old = put Regex Match j (moved_from s) w in
      let new : Server = record s { exec = none } in
      let same : put Regex Match k new old ≡ v = ground (arith, built) in
      let at_k : lookup ℕ_discrete k v.servers ≡ some new =
        subst (λ v. lookup ℕ_discrete k v.servers ≡ some new) same
          (ground (arith, lookup-assign ℕ_discrete k k new old.servers)) in
      let at_j : lookup ℕ_discrete j v.servers ≡ some (moved_from s) =
        subst (λ v. lookup ℕ_discrete j v.servers ≡ some (moved_from s)) same
          (ground (
            arith,
            apart,
            lookup-assign ℕ_discrete k j new old.servers,
            lookup-assign ℕ_discrete j j (moved_from s) w.servers,
          )) in
      (λ host port. rw at_k refl, λ text app. rw at_j refl)
