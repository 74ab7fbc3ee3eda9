-- ===== src/Asioex/Semaphore/Operations.antt =====
-- A ring that represents a queue goes on to represent one as operations wait, complete and are released.
use arby.Common.{
  ◌+◌, ◌-◌, ◌<◌, ◌≡◌, ◌≢◌, refl, sym, ap, subst, ◌∙◌, true, false, ltb, ◌==◌, Option, none, some,
  [], ◌∷◌, ◌++◌, map-append, arith,
}
use arby.Common.Result.{ok}
use arby.Asioex.Semaphore.{
  Address, Handler, ErrorCode, no_error, Semaphore, head, store, alive, unlink, link_before_head,
  complete, decrement, int_max, release, async_acquire,
}
use arby.Asioex.Semaphore.Ring.{Leads, Away, AllApart, unlink-Leads, link-Leads}
use arby.Asioex.Semaphore.Waiters.{
  Waiters, addresses, Waiting, Live, Represents, head-Away, AllApart-drop, Live-drop, Live-add,
  AllApart-add, prev-alive, next-alive,
}

abbrev completed : Address → Handler → ErrorCode → Semaphore → Semaphore
completed a h ec s = record s {
  prev = store (s.next a) (s.prev a) s.prev;
  next = store (s.prev a) (s.next a) s.next;
  handler = store a none s.handler;
  posts = s.posts ++ (h, ec) ∷ [];
}

addresses-split :
    (before : Waiters) (a : Address) (h : Handler) (behind : Waiters)
    → addresses (before ++ (a, h) ∷ behind) ++ head ∷ []
      ≡ addresses before ++ a ∷ (addresses behind ++ head ∷ [])
addresses-split [] a h behind = refl
addresses-split (w ∷ before) a h behind = ap (λ l. w.0 ∷ l) (addresses-split before a h behind)

addresses-join :
    (before behind : Waiters)
    → addresses (before ++ behind) ++ head ∷ []
      ≡ addresses before ++ (addresses behind ++ head ∷ [])
addresses-join [] behind = refl
addresses-join (w ∷ before) behind = ap (λ l. w.0 ∷ l) (addresses-join before behind)

complete-ok :
    (s : Semaphore) (a : Address) (h : Handler) (ec : ErrorCode)
    → a ≢ head
    → s.handler a ≡ some h
    → alive (s.next a) s ≡ true
    → alive (s.prev a) s ≡ true
    → complete a ec s ≡ ok (completed a h ec s)
unfolding complete unlink
complete-ok s a h ec new there next prev = ground arith

Live-at :
    (handler : Address → Option Handler) (before : Waiters) (a : Address) (h : Handler)
    (behind : Waiters)
    → Live handler (before ++ (a, h) ∷ behind)
    → (a ≢ head) × (handler a ≡ some h) × Live handler before × Live handler behind
Live-at handler [] a h behind live = (live.0.0, live.0.1, tt, live.1)
Live-at handler (w ∷ before) a h behind live =
    let (new, there, front, back) = Live-at handler before a h behind live.1 in
    (new, there, (live.0, front), back)

-- What completes leaves the ring, wherever it stands.
pub complete-Represents :
    (s : Semaphore) (q : Waiting) (a : Address) (h : Handler) (ec : ErrorCode)
    (before behind : Waiters)
    → Represents s q
    → q.queue ≡ before ++ (a, h) ∷ behind
    → (t : Semaphore) × (complete a ec s ≡ ok t)
      × Represents t (record q { queue = before ++ behind; posts = q.posts ++ (h, ec) ∷ [] })
complete-Represents s q a h ec before behind rep e =
    let live : Live s.handler (before ++ (a, h) ∷ behind) = subst (Live s.handler) e rep.live in
    let apart : AllApart (addresses (before ++ (a, h) ∷ behind)) =
      subst (λ ws. AllApart (addresses ws)) e rep.apart in
    let (new, there, front, back) = Live-at s.handler before a h behind live in
    let ring : Leads s.next s.prev head (addresses before ++ a ∷ (addresses behind ++ head ∷ [])) =
      subst (Leads s.next s.prev head)
        (ap (λ ws. addresses ws ++ head ∷ []) e ∙ addresses-split before a h behind) rep.ring in
    let names : addresses (before ++ (a, h) ∷ behind) ≡ addresses before ++ a ∷ addresses behind =
      map-append (λ w. w.0) before ((a, h) ∷ behind) in
    let away : Away head (addresses before ++ a ∷ addresses behind) =
      subst (Away head) names (head-Away s.handler (before ++ (a, h) ∷ behind) live) in
    (
      completed a h ec s,
      complete-ok s a h ec new there (next-alive s head before a behind ring back)
          (prev-alive s head before a (addresses behind ++ head ∷ []) ring refl front),
      record {
        count = rep.count;
        posts = ap (λ p. p ++ (h, ec) ∷ []) rep.posts;
        ring = subst (Leads _ _ head) (sym (addresses-join before behind)) (
            unlink-Leads s.next s.prev head (addresses before) a (addresses behind) ring away away
              (subst AllApart names apart));
        apart = AllApart-drop a h before behind apart;
        live = Live-drop a h s.handler before behind live apart;
      },
    )

alive-acquired :
    (s : Semaphore) (a : Address) (h : Handler) (p : Address)
    → alive p s ≡ true
    → alive p (record s { handler = store a (some h) s.handler }) ≡ true
alive-acquired s a h p there = ground arith

pub acquire-Represents :
    (s : Semaphore) (q : Waiting) (a : Address) (h : Handler)
    → Represents s q
    → q.count ≡ 0
    → a ≢ head
    → Away a (addresses q.queue)
    → (t : Semaphore) × (async_acquire a h s ≡ ok t)
      × Represents t (record q { queue = q.queue ++ (a, h) ∷ [] })
unfolding async_acquire link_before_head
acquire-Represents s q a h rep none_left new away =
    let ok_prev : alive (s.prev head) s ≡ true =
      prev-alive s head q.queue head [] rep.ring refl rep.live in
    (
      record s {
        next = store (s.prev head) a (store a head s.next);
        prev = store head a (store a (s.prev head) s.prev);
        handler = store a (some h) s.handler;
      },
      rw (rep.count, none_left, alive-acquired s a h (s.prev head) ok_prev) refl,
      record {
        count = rep.count;
        posts = rep.posts;
        ring = subst (Leads _ _ head) (sym (addresses-join q.queue ((a, h) ∷ []))) (
            link-Leads s.next s.prev head (addresses q.queue) a rep.ring new
              (λ e. new (sym e), away) (head-Away s.handler q.queue rep.live)
              (head-Away s.handler q.queue rep.live) rep.apart);
        apart = AllApart-add a h q.queue rep.apart away;
        live = Live-add a h s.handler q.queue rep.live new away;
      },
    )

-- With an operation that waits, the count goes up and down again, and the first one completes.
release_passes :
    (s : Semaphore) (a : Address)
    → s.count < int_max
    → s.next head ≡ a
    → a ≢ head
    → release s ≡ complete a no_error s
unfolding release decrement
release_passes s a small first new =
    let back : s.count + 1 - 1 ≡ s.count = omega arith in
    let some_left : ltb 0 (s.count + 1) ≡ true = ground arith in
    let in_range : ltb s.count int_max ≡ true = ground arith in
    let waits : s.next head == head ≡ false = ground arith in
    rw (in_range, waits, some_left, back, first) refl

pub release-Represents :
    (s : Semaphore) (q : Waiting) (a : Address) (h : Handler) (rest : Waiters)
    → Represents s q
    → q.count < int_max
    → q.queue ≡ (a, h) ∷ rest
    → (t : Semaphore) × (release s ≡ ok t)
      × Represents t (record q { queue = rest; posts = q.posts ++ (h, no_error) ∷ [] })
release-Represents s q a h rest rep small e =
    let (t, done, rep') = complete-Represents s q a h no_error [] rest rep e in
    let live = subst (Live s.handler) e rep.live in
    let ring = subst (λ ws. Leads s.next s.prev head (addresses ws ++ head ∷ [])) e rep.ring in
    (t, release_passes s a (rw rep.count small) ring.0 live.0.0 ∙ done, rep')
