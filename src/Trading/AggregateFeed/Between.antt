-- ===== src/Trading/AggregateFeed/Between.antt =====
-- What one event of a feed gives to its subscribers.
use arby.Common.{
  ℕ, ◌+◌, ◌≡◌, ◌≤◌, ◌<◌, refl, sym, subst, ℕ_discrete, Bool, Option, none, some, List, [], ◌∷◌,
  ◌++◌, map, ite, arith,
}
use arby.Common.Assoc.{lookup}
use arby.Common.Result.{Result, ok, err}
use arby.Common.Totals.{count, same, total-append}
use arby.Util.Connections.{ConnectionId, HandleId, connect}
use arby.Util.Connections.Held.{Sound, Enabled, held, to_cut}
use arby.Util.Connections.Steps.{connect-Sound, step-Fades}
use arby.Util.Connections.Steps
use arby.Trading.AggregateFeed.{
  SnapshotId, Feed, Given, Event, subscribed, updated, changed, subscribe, update_snapshot, step,
}

-- What of it is for one connection.
abbrev pub given_to : ConnectionId → Given → List (Option SnapshotId)
given_to c [] = []
given_to c ((d, s) ∷ g) = let rest = given_to c g in ite (ℕ_discrete c d) (s ∷ rest) rest

-- The snapshots that are published.
abbrev pub published : List Event → List (Option SnapshotId)
published [] = []
published (updated (some s) ∷ es) = some s ∷ published es
published (e ∷ es) = published es

abbrev pub latest : Option SnapshotId → List Event → Option SnapshotId
latest last [] = last
latest last (updated (some s) ∷ es) = latest (some s) es
latest last (e ∷ es) = latest last es

abbrev pub IsPossible : Bool → Event → Feed → Type 0
IsPossible direct (subscribed h) f = lookup ℕ_discrete h f.snap_sig_.handles ≡ none
IsPossible direct (updated s) f = (a : SnapshotId) × (s ≡ some a)
IsPossible direct (changed op) f = Enabled direct op f.snap_sig_

abbrev pub Then : (Feed → Type 0) → Result (Given × Feed) → Type 0
Then P (ok (g, f)) = P f
Then P (err fault) = Unit

-- Each event is possible where it comes: new handles have new names, and no null pointer is
-- published. `direct` is whether `disconnect()` is called by itself.
abbrev pub Legal : Bool → List Event → Feed → Type 0
Legal direct [] f = Unit
Legal direct (e ∷ es) f = IsPossible direct e f × Then (Legal direct es) (step e f)

-- How many handles and function objects have it.
abbrev pub holders : ConnectionId → Feed → ℕ
holders c f = held c f.snap_sig_ + to_cut c f.snap_sig_

pub given_to-append :
    (c : ConnectionId) (g h : Given) → given_to c (g ++ h) ≡ given_to c g ++ given_to c h
given_to-append c [] h = refl
given_to-append c ((d, s) ∷ g) h = ground (arith, given_to-append c g h)

-- Between two moments: a connection that is up later was given all that was published, and one that
-- is not up is given nothing.
pub record Between (es : List Event) (f : Feed) (g : Given) (f' : Feed) : Type 0 where
  pub later : f.snap_sig_.next ≤ f'.snap_sig_.next
  pub last : f'.last_snapshot_ ≡ latest f.last_snapshot_ es
  pub fades :
      (c : ConnectionId)
      → c < f.snap_sig_.next
      → count c f'.snap_sig_.connected ≤ count c f.snap_sig_.connected
  pub up :
      (c : ConnectionId)
      → c < f.snap_sig_.next
      → 0 < count c f'.snap_sig_.connected
      → given_to c g ≡ published es
  pub down :
      (c : ConnectionId)
      → c < f.snap_sig_.next
      → count c f.snap_sig_.connected ≡ 0
      → given_to c g ≡ []
  pub beyond : (c : ConnectionId) → f'.snap_sig_.next ≤ c → given_to c g ≡ []

-- A slot is called once for each connection of it.
given_to-calls :
    (c : ConnectionId) (s : Option SnapshotId) (m : List ConnectionId)
    → ((count c m ≡ 0) → given_to c (map (λ d. (d, s)) m) ≡ [])
      × ((count c m ≡ 1) → given_to c (map (λ d. (d, s)) m) ≡ s ∷ [])
given_to-calls c s [] = (λ h. refl, λ h. absurd (omega (arith, h)))
given_to-calls c s (d ∷ m) =
    let rest = given_to-calls c s m in (λ h. ground (arith, rest, h), λ h. ground (arith, rest, h))

abbrev pub Goes : Bool → Event → Feed → Type 0
Goes direct e f =
    (g : Given) × (f' : Feed) × (step e f ≡ ok (g, f'))
    × Sound direct f'.snap_sig_
    × Between (e ∷ []) f g f'

update-Goes :
    (direct : Bool) (a : SnapshotId) (f : Feed)
    → Sound direct f.snap_sig_
    → Goes direct (updated (some a)) f
unfolding step update_snapshot
update-Goes direct a f s = (
  map (λ c. (c, some a)) f.snap_sig_.connected,
  record f { last_snapshot_ = some a },
  refl,
  s,
  record {
    later = omega arith;
    last = refl;
    fades = λ c below. omega arith;
    up = λ c below h.
        (given_to-calls c (some a) f.snap_sig_.connected).1 (ground (arith, s.single c, h));
    down = λ c below h. (given_to-calls c (some a) f.snap_sig_.connected).0 h;
    beyond = λ c above.
        (given_to-calls c (some a) f.snap_sig_.connected).0 (ground (arith, s.single c, above));
  },
)

subscribe-Goes :
    (direct : Bool) (h : HandleId) (f : Feed)
    → Sound direct f.snap_sig_
    → lookup ℕ_discrete h f.snap_sig_.handles ≡ none
    → Goes direct (subscribed h) f
unfolding step subscribe connect
subscribe-Goes direct h f s free =
    let n : ConnectionId = f.snap_sig_.next in
    (
      (n, f.last_snapshot_) ∷ [],
      record f { snap_sig_ = connect h f.snap_sig_ },
      refl,
      connect-Sound direct h f.snap_sig_ s free,
      record {
        later = omega arith;
        last = refl;
        fades =
            λ c below. ground (arith, below, total-append (same c) f.snap_sig_.connected (n ∷ []));
        up = λ c below h. ground (arith, below);
        down = λ c below h. ground (arith, below);
        beyond = λ c above. ground (arith, above);
      },
    )

pub step-Goes :
    (direct : Bool) (e : Event) (f : Feed)
    → Sound direct f.snap_sig_
    → IsPossible direct e f
    → Goes direct e f
unfolding step
step-Goes direct (subscribed h) f s free = subscribe-Goes direct h f s free
step-Goes direct (updated x) f s (a, e) =
    subst (λ y. Goes direct (updated y) f) (sym e) (update-Goes direct a f s)
step-Goes direct (changed op) f s e =
    let (l, done, sound) = Steps.step-Goes direct op f.snap_sig_ s e in
    let (same_next, less) = step-Fades op f.snap_sig_ l done in
    (
      [],
      record f { snap_sig_ = l },
      rw done refl,
      sound,
      record {
        later = omega (arith, same_next);
        last = refl;
        fades = λ c below. less c;
        up = λ c below h. refl;
        down = λ c below h. refl;
        beyond = λ c above. refl;
      },
    )
