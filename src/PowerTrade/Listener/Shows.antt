-- ===== src/PowerTrade/Listener/Shows.antt =====
-- What the books of the snapshots show that a listener signals to its observers.
use arby.Common.{
  ◌≡◌, ap, ◌∙◌, Bool, true, false, if◌then◌else◌, List, [], ◌∷◌, ◌++◌, map, map-append, All,
}
use arby.Common.Result.{Result, ok, err, ◌>>=◌}
use arby.Trading.Feed.{FeedCondition}
use arby.PowerTrade.OrderBook.{view}
use arby.PowerTrade.OrderBook.BookSpec.{BookView}
use arby.PowerTrade.SnapshotService.{Snapshot, Service}
use arby.PowerTrade.SnapshotService.Replay.{tick_view}
use arby.PowerTrade.SnapshotService.CatchUp.{IsUpToDate}
use arby.PowerTrade.SnapshotService.Histories.{Enabled, IsKept}
use arby.PowerTrade.Listener.{Event, handle, Listener, update}

abbrev pub books : List Snapshot → List BookView
books = map λ x. view x.book

-- The specification: what each event shows, from the view of the book.
abbrev pub shown : List Event → BookView → Result (List BookView)
shown [] v = ok []
shown (Event.tick now t ∷ es) v = tick_view v t >>= λ u. shown es u >>= λ us. ok (u ∷ us)
shown (Event.connection s ∷ es) v = shown es v >>= λ us. ok (v ∷ us)
shown (Event.command_response code ∷ es) v = shown es v >>= λ us. ok (v ∷ us)
shown (Event.released before x behind ∷ es) v = shown es v

abbrev pub IsPossible : Event → Listener → Type 0
IsPossible (Event.tick now t) l = Enabled t l.snapshot_service
IsPossible (Event.connection s) l = Unit
IsPossible (Event.command_response code) l = Unit
IsPossible (Event.released before x behind) l = l.held ≡ before ++ x ∷ behind

abbrev pub Then : (Listener → Type 0) → Result Listener → Type 0
Then P (ok l) = P l
Then P (err fault) = Unit

-- Each tick is possible where it comes, and what is released was held.
abbrev pub Legal : List Event → Listener → Type 0
Legal [] l = Unit
Legal (e ∷ es) l = IsPossible e l × Then (Legal es) (handle e l)

abbrev pub IsPooled : Bool → Service → Snapshot → Type 0
IsPooled true s x = IsUpToDate s x
IsPooled false s x = Unit

-- The current snapshot has the book of the service; those in hand can be brought up later.
pub record IsShowing (l : Listener) : Type 0 where
  pub service : IsKept l.snapshot_service
  pub held : All (IsUpToDate l.snapshot_service) l.held
  pub current : IsPooled l.pooled l.snapshot_service l.snapshot
  pub same : view l.snapshot.book ≡ view l.snapshot_service.order_book

IsPooled-condition :
    (b : Bool) (s : Service) (x : Snapshot) (c : FeedCondition)
    → IsPooled b s x
    → IsPooled b s (record x { feed = record (x.feed) { condition = c } })
IsPooled-condition true s x c up = record { old = up.old; given = up.given; ready = up.ready }
IsPooled-condition false s x c up = tt

pub update-Showing :
    (l : Listener)
    → IsShowing l
    → (books (update l).signalled ≡ books l.signalled ++ view l.snapshot_service.order_book ∷ [])
      × IsShowing (update l)
unfolding update
update-Showing l h = (
  map-append (λ x. view x.book) l.signalled _ ∙ ap (λ v. books l.signalled ++ v ∷ []) h.same,
  record {
    service = h.service;
    held = h.held;
    current = IsPooled-condition l.pooled l.snapshot_service l.snapshot _ h.current;
    same = h.same;
  },
)

pub keep_former-All :
    (l : Listener) (s : Service)
    → IsPooled l.pooled l.snapshot_service l.snapshot
    → ((y : Snapshot) → IsUpToDate l.snapshot_service y → IsUpToDate s y)
    → All (IsUpToDate s) l.held
    → All (IsUpToDate s) (if l.pooled then l.snapshot ∷ l.held else l.held)
keep_former-All l s current later held = either l.pooled current
  where
    either :
        (b : Bool)
        → IsPooled b l.snapshot_service l.snapshot
        → All (IsUpToDate s) (if b then l.snapshot ∷ l.held else l.held)
    either true up = (later l.snapshot up, held)
    either false none_up = held

pub All-middle {κ} :
    (P : Snapshot → Type κ) (before : List Snapshot) (x : Snapshot) (behind : List Snapshot)
    → All P (before ++ x ∷ behind)
    → P x × All P (before ++ behind)
All-middle P [] x behind all = all
All-middle P (y ∷ before) x behind (first, all) =
    let (here, others) = All-middle P before x behind all in (here, (first, others))

pub IsPooled-later :
    (b : Bool) (s s' : Service) (x : Snapshot)
    → ((y : Snapshot) → IsUpToDate s y → IsUpToDate s' y)
    → IsPooled b s x
    → IsPooled b s' x
IsPooled-later true s s' x later up = later x up
IsPooled-later false s s' x later up = tt

-- After an event: what was signalled, by the specification, and the invariant.
pub record Step (e : Event) (l m : Listener) : Type 0 where
  pub vs : List BookView
  pub signals : books m.signalled ≡ books l.signalled ++ vs
  pub specified :
      (es : List Event) (us : List BookView)
      → shown es (view m.snapshot_service.order_book) ≡ ok us
      → shown (e ∷ es) (view l.snapshot_service.order_book) ≡ ok (vs ++ us)
  pub showing : IsShowing m

abbrev pub Handled : Event → Listener → Type 0
Handled e l = (m : Listener) × (handle e l ≡ ok m) × Step e l m
