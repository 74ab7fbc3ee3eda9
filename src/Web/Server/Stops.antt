-- ===== src/Web/Server/Stops.antt =====
-- Every implementation is stopped once, or held by one server.
use arby.Common.{
  ◌+◌, ◌≡◌, ◌≤◌, ◌<◌, ◌≢◌, refl, sym, ap, subst, ◌∙◌, ℕ_discrete, dec_lt, String, none, some, List,
  [], ◌∷◌, ◌++◌, ite, if_pos, if_neg, arith, append_assoc, append-nil,
}
use arby.Common.Assoc.{lookup, assign, erase, Distinct, lookup-assign}
use arby.Common.Result.{Result, ok}
use arby.Web.Server.{
  ServerId, ImplId, Executor, Impl, Server, World, put, http_server, moved_from, move_construct,
  stop_all, shutdown, move_assign, destroy, serve,
}
use arby.Common.Totals.{
  same, count, total-append, total-assign_new, total-assign_old, total-erase, le_total,
  assign-Distinct, erase-Distinct,
}
use arby.Web.Server.Held.{held_by, held}

module _ (Regex Match : Type 0) where
  abbrev HasExecutor : Impl → Type 0
  HasExecutor impl = (e : Executor) × (impl.exec ≡ some e)

  -- Those that were made are stopped once or held once, the others never, and each has an executor.
  pub record Sound (w : World Regex Match) : Type 0 where
    pub counted :
        (i : ImplId) → count i w.stopped + held i w.servers ≡ ite (dec_lt i w.next_impl) 1 0
    pub apart : Distinct ℕ_discrete w.servers
    pub run_on : (i : ImplId) → i < w.next_impl → HasExecutor (w.impl_of i)

  -- A world with the same implementations, that holds and has stopped as many.
  pub keep-Sound :
      (w v : World Regex Match)
      → Sound w
      → v.impl_of ≡ w.impl_of
      → v.next_impl ≡ w.next_impl
      → Distinct ℕ_discrete v.servers
      → ((i : ImplId) → count i v.stopped + held i v.servers ≡ count i w.stopped + held i w.servers)
      → Sound v
  keep-Sound w v sound same next apart counts = record {
    counted = λ i. rw next (counts i ∙ sound.counted i);
    apart = apart;
    run_on = λ i below. rw same (sound.run_on i (rw (sym next) below));
  }

  stop_all-ends :
      (impls : List ImplId) (w : World Regex Match)
      → ((i : ImplId) → 1 ≤ count i impls → HasExecutor (w.impl_of i))
      → stop_all Regex Match impls w ≡ ok (record w { stopped = w.stopped ++ impls })
  unfolding stop_all
  stop_all-ends [] w h = ap (λ l. ok (record w { stopped = l })) (sym (append-nil w.stopped))
  stop_all-ends (i ∷ impls) w h =
      let (e, runs) = h i (ground arith) in
      rw runs (
        stop_all-ends impls (record w { stopped = w.stopped ++ i ∷ [] })
          (λ j once. h j (ground (arith, once)))
        ∙ ap (λ l. ok (record w { stopped = l })) (append_assoc w.stopped (i ∷ []) impls))

  -- The world after `shutdown`.
  abbrev pub closed : ServerId → Server → World Regex Match → World Regex Match
  closed k s w = record (put Regex Match k (record s { impls = [] }) w) {
    stopped = w.stopped ++ s.impls;
  }

  pub closed-Sound :
      (k : ServerId) (s : Server) (w : World Regex Match)
      → Sound w
      → lookup ℕ_discrete k w.servers ≡ some s
      → Sound (closed k s w)
  closed-Sound k s w sound here =
      keep-Sound w (closed k s w) sound refl refl
        (assign-Distinct k (record s { impls = [] }) w.servers sound.apart)
        (λ i. ground (
          arith,
          total-assign_old (held_by i) k (record s { impls = [] }) s w.servers here,
          total-append (same i) w.stopped s.impls,
        ))

  pub shutdown-closed :
      (k : ServerId) (s : Server) (w : World Regex Match)
      → Sound w
      → lookup ℕ_discrete k w.servers ≡ some s
      → shutdown Regex Match k w ≡ ok (closed k s w)
  unfolding shutdown
  shutdown-closed k s w sound here = rw here (
      stop_all-ends s.impls (put Regex Match k (record s { impls = [] }) w) (λ i once.
        sound.run_on i
          (ground (arith, once, sound.counted i, le_total (held_by i) k s w.servers here))))

  abbrev pub Present : ServerId → World Regex Match → Type 0
  Present k w = (s : Server) × (lookup ℕ_discrete k w.servers ≡ some s)

  abbrev pub Goes : Result (World Regex Match) → Type 0
  Goes m = (v : World Regex Match) × (m ≡ ok v) × Sound v

  pub http_server-Sound :
      (k : ServerId) (exec : Executor) (w : World Regex Match)
      → Sound w
      → lookup ℕ_discrete k w.servers ≡ none
      → Sound (http_server Regex Match k exec w)
  unfolding http_server
  http_server-Sound k exec w sound gone =
      let s : Server = record { exec = some exec; impls = []; apps = some w.next_store } in
      keep-Sound w (http_server Regex Match k exec w) sound refl refl
        (assign-Distinct k s w.servers sound.apart)
        (λ i. ground (arith, total-assign_new (held_by i) k s w.servers gone))

  pub destroy-Goes :
      (k : ServerId) (w : World Regex Match)
      → Sound w
      → Present k w
      → Goes (destroy Regex Match k w)
  unfolding destroy
  destroy-Goes k w sound (s, here) =
      let v = closed k s w in
      let fine = closed-Sound k s w sound here in
      let emptied : lookup ℕ_discrete k v.servers ≡ some (record s { impls = [] }) =
        ground (arith, lookup-assign ℕ_discrete k k (record s { impls = [] }) w.servers) in
      (
        record v { servers = erase ℕ_discrete k v.servers },
        rw (shutdown-closed k s w sound here) refl,
        keep-Sound v _ fine refl refl (erase-Distinct k v.servers fine.apart) (λ i. ground (
          arith,
          total-erase (held_by i) k (record s { impls = [] }) v.servers fine.apart emptied,
        )),
      )

  pub serve-Goes :
      (k : ServerId) (host port : String) (s : Server) (e : Executor) (w : World Regex Match)
      → Sound w
      → lookup ℕ_discrete k w.servers ≡ some s
      → s.exec ≡ some e
      → Goes (serve Regex Match k host port w)
  unfolding serve
  serve-Goes k host port s e w sound here runs =
      let more : Server = record s { impls = s.impls ++ w.next_impl ∷ [] } in
      let impl : Impl = record { exec = s.exec; host = host; port = port; apps = s.apps } in
      let served_world : World Regex Match = record (put Regex Match k more w) {
        impl_of = λ i. ite (ℕ_discrete i w.next_impl) impl (w.impl_of i);
        next_impl = w.next_impl + 1;
      } in
      (
        served_world,
        rw (here, runs) refl,
        record {
          counted = λ i. ground (
            arith,
            sound.counted i,
            total-assign_old (held_by i) k more s w.servers here,
            total-append (same i) s.impls (w.next_impl ∷ []),
          );
          apart = assign-Distinct k more w.servers sound.apart;
          run_on = λ i below. elim (ℕ_discrete i w.next_impl) [
            | yes new ↦ (e, ground (arith, new, runs))
            | no old ↦
                let (f, fits) = sound.run_on i (omega (arith, below, old)) in
                (f, ground (arith, old, fits))
          ];
        },
      )

  move-Sound :
      (k j : ServerId) (t s : Server) (w : World Regex Match)
      → Sound w
      → k ≢ j
      → t.impls ≡ s.impls
      → lookup ℕ_discrete j w.servers ≡ some s
      → ((i : ImplId)
          → held i (assign ℕ_discrete k t (assign ℕ_discrete j (moved_from s) w.servers))
            ≡ held i (assign ℕ_discrete j (moved_from s) w.servers) + count i s.impls)
      → Sound (put Regex Match k t (put Regex Match j (moved_from s) w))
  move-Sound k j t s w sound apart same there grows =
      keep-Sound w _ sound refl refl
        (assign-Distinct k t _ (assign-Distinct j (moved_from s) w.servers sound.apart))
        (λ i.
          ground (arith, grows i, total-assign_old (held_by i) j (moved_from s) s w.servers there))

  pub move_construct-Goes :
      (k j : ServerId) (w : World Regex Match)
      → Sound w
      → lookup ℕ_discrete k w.servers ≡ none
      → Present j w
      → Goes (move_construct Regex Match k j w)
  unfolding move_construct
  move_construct-Goes k j w sound gone (s, there) =
      let apart : k ≢ j = λ same. ground (arith, gone, there, same) in
      let free : lookup ℕ_discrete k (assign ℕ_discrete j (moved_from s) w.servers) ≡ none =
        ground (arith, lookup-assign ℕ_discrete j k (moved_from s) w.servers) in
      (
        put Regex Match k (record s { exec = none }) (put Regex Match j (moved_from s) w),
        rw there refl,
        move-Sound k j (record s { exec = none }) s w sound apart refl there
            (λ i.
              total-assign_new (held_by i) k (record s { exec = none })
                (assign ℕ_discrete j (moved_from s) w.servers) free),
      )

  pub move_assign-Goes :
      (k j : ServerId) (w : World Regex Match)
      → Sound w
      → Present k w
      → Present j w
      → Goes (move_assign Regex Match k j w)
  unfolding move_assign
  move_assign-Goes k j w sound (t, here) (s, there) =
      let v = closed k t w in
      let fine = closed-Sound k t w sound here in
      let empty : Server = record t { impls = [] } in
      let emptied : lookup ℕ_discrete k v.servers ≡ some empty =
        ground (arith, lookup-assign ℕ_discrete k k empty w.servers) in
      elim (ℕ_discrete k j) [
        | yes same ↦
            let again : lookup ℕ_discrete j v.servers ≡ some empty =
              subst (λ x. lookup ℕ_discrete x v.servers ≡ some empty) same emptied in
            (
              v,
              rw (shutdown-closed k t w sound here)
                  (rw (emptied, again) (ap ok (if_pos (ℕ_discrete k j) same _ _))),
              fine,
            )
        | no apart ↦
            let other : lookup ℕ_discrete j v.servers ≡ some s =
              ground (arith, apart, there, lookup-assign ℕ_discrete k j empty w.servers) in
            let still : lookup ℕ_discrete k (assign ℕ_discrete j (moved_from s) v.servers)
                ≡ some empty =
              ground
                (arith, apart, emptied, lookup-assign ℕ_discrete j k (moved_from s) v.servers) in
            let given : Server = record empty { impls = s.impls; apps = s.apps } in
            (
              put Regex Match k given (put Regex Match j (moved_from s) v),
              rw (shutdown-closed k t w sound here)
                  (rw (emptied, other) (ap ok (if_neg (ℕ_discrete k j) apart _ _))),
              move-Sound k j given s v fine apart refl other (λ i. ground (
                arith,
                total-assign_old (held_by i) k given empty
                    (assign ℕ_discrete j (moved_from s) v.servers) still,
              )),
            )
      ]
