-- ===== src/PowerTrade/SnapshotService/Runs.antt =====
-- The snapshot service over any ticks and releases: the snapshots that it handed out are in the hands
-- of observers until each comes back to the free list.
use arby.Common.{
  ℕ, zero, suc, ◌≡◌, refl, sym, subst, ap, inl, inr, List, [], ◌∷◌, ◌++◌, Option, none, some,
  Option-cases, map, All, All-map, arith,
}
use arby.Common.Result.{Result, ok, err, or_fail, ◌>>=◌, null_reference}
use arby.Trading.Types.{Timestamp}
use arby.PowerTrade.Ticks.{TickRecord}
use arby.PowerTrade.OrderBook.{view, empty_book}
use arby.PowerTrade.OrderBook.BookSpec.{BookView}
use arby.PowerTrade.OrderBook.Books.{empty_book-IsSoundBook}
use arby.PowerTrade.SnapshotService.{
  Snapshot, Service, new_service, deallocate_snapshot, process_tick,
}
use arby.PowerTrade.SnapshotService.Replay.{tick_view}
use arby.PowerTrade.SnapshotService.CatchUp.{IsUpToDate}
use arby.PowerTrade.SnapshotService.Histories.{Enabled, IsKept, process_tick_kept}

pub data Event : Type 0 where
  ticked : Timestamp → TickRecord → Event
  released : ℕ → Event

pub record System : Type 0 where
  pub service : Service
  pub observed : List Snapshot

abbrev pub new_system : System
new_system = record { service = new_service; observed = [] }

-- The snapshot at a place, and the others.
unfoldable pub take_out : ℕ → List Snapshot → Option (Snapshot × List Snapshot)
take_out n [] = none
take_out zero (x ∷ xs) = some (x, xs)
take_out (suc n) (x ∷ xs) = elim (take_out n xs) [
  | none ↦ none
  | some (y, rest) ↦ some (y, x ∷ rest)
]

-- What is handed out, and the system then.
unfoldable pub step : Event → System → Result (List Snapshot × System)
step (ticked now t) sys = process_tick now t sys.service >>= λ r.
    ok (r.0 ∷ [], record { service = r.1; observed = sys.observed ++ r.0 ∷ [] })
step (released n) sys = or_fail (take_out n sys.observed) null_reference >>= λ r.
    ok ([], record { service = deallocate_snapshot r.0 sys.service; observed = r.1 })

unfoldable pub run : List Event → System → Result (List Snapshot × System)
run [] sys = ok ([], sys)
run (e ∷ es) sys = step e sys >>= λ r. run es r.1 >>= λ s. ok (r.0 ++ s.0, s.1)

-- The specification: what each tick leads to, from the view of the book; releases change nothing.
abbrev pub views : List Event → BookView → Result (List BookView)
views [] v = ok []
views (ticked now t ∷ es) v = tick_view v t >>= λ u. views es u >>= λ us. ok (u ∷ us)
views (released n ∷ es) v = views es v

abbrev pub Then : (System → Type 0) → Result (List Snapshot × System) → Type 0
Then P (ok (xs, sys)) = P sys
Then P (err fault) = Unit

abbrev pub IsPossible : Event → System → Type 0
IsPossible (ticked now t) sys = Enabled t sys.service
IsPossible (released n) sys =
    (x : Snapshot) × (rest : List Snapshot) × (take_out n sys.observed ≡ some (x, rest))

-- Each event is possible where it comes.
abbrev pub Legal : List Event → System → Type 0
Legal [] sys = Unit
Legal (e ∷ es) sys = IsPossible e sys × Then (Legal es) (step e sys)

abbrev Sound : System → Type 0
Sound sys = IsKept sys.service × All (IsUpToDate sys.service) sys.observed

take_out-All {κ} :
    (P : Snapshot → Type κ) (n : ℕ) (xs rest : List Snapshot) (x : Snapshot)
    → take_out n xs ≡ some (x, rest)
    → All P xs
    → P x × All P rest
unfolding take_out
take_out-All P n [] rest x e all = absurd (ground arith)
take_out-All P zero (y ∷ xs) rest x e all =
    let same : y ≡ x = ground arith in
    let those : xs ≡ rest = ground arith in (subst P same all.0, subst (All P) those all.1)
take_out-All P (suc n) (y ∷ xs) rest x e all = elim (Option-cases (take_out n xs)) [
  | inl none_left ↦ absurd (ground (arith, none_left))
  | inr ((z, left), found) ↦
      let (first, others) = take_out-All P n xs left z found all.1 in
      let same : z ≡ x = ground (arith, found) in
      let those : y ∷ left ≡ rest = ground (arith, found) in
      (subst P same first, subst (All P) those (all.0, others))
]

All-snoc {κ} :
    (P : Snapshot → Type κ) (xs : List Snapshot) (x : Snapshot)
    → All P xs
    → P x
    → All P (xs ++ x ∷ [])
All-snoc P [] x all h = (h, tt)
All-snoc P (y ∷ xs) x all h = (all.0, All-snoc P xs x all.1 h)

-- A snapshot that comes back changes nothing for the others.
pub given_back :
    (x : Snapshot) (s : Service) (y : Snapshot)
    → IsUpToDate s y
    → IsUpToDate (deallocate_snapshot x s) y
unfolding deallocate_snapshot
given_back x s y up = record { old = up.old; given = up.given; ready = up.ready }

pub deallocate_snapshot-IsKept :
    (x : Snapshot) (s : Service) → IsUpToDate s x → IsKept s → IsKept (deallocate_snapshot x s)
unfolding deallocate_snapshot given_back
deallocate_snapshot-IsKept x s up kept = record {
  book = kept.book;
  retained = kept.retained;
  free = (
    record { old = up.old; given = up.given; ready = up.ready },
    All-map (IsUpToDate s) (IsUpToDate (deallocate_snapshot x s)) s.free_snaps (given_back x s)
        kept.free,
  );
}

-- What is handed out by the events, and the system after them.
abbrev Shows : List Event → System → Type 0
Shows es sys =
    (xs : List Snapshot) × (after : System) × (run es sys ≡ ok (xs, after))
    × (views es (view sys.service.order_book) ≡ ok (map (λ x. view x.book) xs))
    × Sound after

run-Shows : (es : List Event) (sys : System) → Sound sys → Legal es sys → Shows es sys
unfolding run step deallocate_snapshot
run-Shows [] sys sound legal = ([], sys, refl, refl, sound)
run-Shows (ticked now t ∷ es) sys (kept, up) (e, legal) =
    let (x, s', done, ticks) =
      process_tick_kept now t sys.service kept e sys.service.free_snaps refl in
    let then : System = record { service = s'; observed = sys.observed ++ x ∷ [] } in
    let stepped : step (ticked now t) sys ≡ ok (x ∷ [], then) = rw done refl in
    let up' =
      All-snoc (IsUpToDate s') sys.observed x
        (All-map (IsUpToDate sys.service) (IsUpToDate s') sys.observed ticks.later up)
        ticks.issued in
    let (xs, after, ran, seen, sound) =
      run-Shows es then (ticks.kept, up') (subst (Then (Legal es)) stepped legal) in
    let seen' : views es e.next ≡ ok (map (λ x. view x.book) xs) =
      subst (λ v. views es v ≡ ok (map (λ x. view x.book) xs)) ticks.book seen in
    (
      x ∷ xs,
      after,
      rw (done, ran) refl,
      rw (e.leads, seen') (ap (λ v. ok (v ∷ map (λ x. view x.book) xs)) (sym ticks.copy)),
      sound,
    )
run-Shows (released n ∷ es) sys (kept, up) ((x, rest, out), legal) =
    let (old, others) = take_out-All (IsUpToDate sys.service) n sys.observed rest x out up in
    let then : System = record { service = deallocate_snapshot x sys.service; observed = rest } in
    let others' =
      All-map (IsUpToDate sys.service) (IsUpToDate then.service) rest (given_back x sys.service)
        others in
    let stepped : step (released n) sys ≡ ok ([], then) = rw out refl in
    let (xs, after, ran, seen, sound) =
      run-Shows es then (deallocate_snapshot-IsKept x sys.service old kept, others')
        (subst (Then (Legal es)) stepped legal) in
    (xs, after, rw (out, ran) refl, seen, sound)

new_system-Sound : Sound new_system
new_system-Sound = (
  record {
    book = empty_book-IsSoundBook;
    retained = record { ascending = tt; below = tt; sorted = tt };
    free = tt;
  },
  tt,
)

-- From a new service: if each tick has a meaning by the specification, with new orders that are new,
-- the first is a snapshot, the numbers do not wrap, and a released snapshot that a tick takes has its
-- tick kept or no order in its index, then there is no fault, and the snapshots that are handed out
-- show, one by one, what the ticks lead to by the specification, whichever came back before and in
-- whatever order.
pub run-views :
    (es : List Event)
    → Legal es new_system
    → (xs : List Snapshot) × (after : System) × (run es new_system ≡ ok (xs, after))
      × (views es (view empty_book) ≡ ok (map (λ x. view x.book) xs))
run-views es legal =
    let (xs, after, ran, seen, sound) = run-Shows es new_system new_system-Sound legal in
    (xs, after, ran, seen)
