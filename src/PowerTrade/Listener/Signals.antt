-- ===== src/PowerTrade/Listener/Signals.antt =====
-- What each event signals by the specification, and what any events do.
use arby.Common.{
  ◌≡◌, refl, sym, subst, ap, ◌∙◌, String, String_discrete, none, some, List, [], ◌∷◌, ◌++◌,
  append_assoc, append-nil, ite, All, All-map,
}
use arby.Common.Result.{ok, ◌>>=◌}
use arby.Trading.Types.{Timestamp}
use arby.Trading.Feed.{FeedCondition, not_ready, error}
use arby.Trading.Feed
use arby.PowerTrade.Ticks.{TickRecord}
use arby.PowerTrade.OrderBook.{view}
use arby.PowerTrade.OrderBook.BookSpec.{BookView}
use arby.PowerTrade.OrderBook.Books.{empty_book-IsSoundBook}
use arby.PowerTrade.SnapshotService.{Snapshot, Service, deallocate_snapshot}
use arby.PowerTrade.SnapshotService.CatchUp.{IsUpToDate}
use arby.PowerTrade.SnapshotService.Histories.{Enabled, process_tick_kept}
use arby.PowerTrade.SnapshotService.Runs.{given_back, deallocate_snapshot-IsKept}
use arby.PowerTrade.Listener.{
  Event, ConnectionState, Subscribe, construct, handle, run, release, Listener, update,
  on_connection_state, on_command_response, on_tick, ticked,
}
use arby.PowerTrade.Listener.Shows.{
  books, shown, IsPossible, Then, Legal, IsShowing, update-Showing, keep_former-All, All-middle,
  IsPooled-later, Step, Handled,
}

-- An event that changes conditions, and signals the snapshot that is there.
told-Step :
    (e : Event) (l : Listener) (cstate : ConnectionState) (connection book : FeedCondition)
    (sent : List Subscribe)
    → ((es : List Event) (v : BookView) → shown (e ∷ es) v ≡ (shown es v >>= λ us. ok (v ∷ us)))
    → IsShowing l
    → Step e l (
        update (record l {
          connstate = cstate;
          connection_condition = connection;
          book_condition = book;
          sent = sent;
        }))
unfolding update
told-Step e l cstate connection book sent spec h =
    let k : Listener = record l {
      connstate = cstate;
      connection_condition = connection;
      book_condition = book;
      sent = sent;
    } in
    let (signals, showing) =
      update-Showing k
        (record { service = h.service; held = h.held; current = h.current; same = h.same }) in
    record {
      vs = view l.snapshot_service.order_book ∷ [];
      signals = signals;
      specified = λ es us e'. spec es (view l.snapshot_service.order_book) ∙ rw e' refl;
      showing = showing;
    }

connection-Step :
    (s : ConnectionState) (l : Listener)
    → IsShowing l
    → Step (Event.connection s) l (on_connection_state s l)
unfolding on_connection_state
connection-Step none l h = told-Step (Event.connection none) l _ _ _ _ (λ es v. refl) h
connection-Step (some code) l h =
    told-Step (Event.connection (some code)) l _ _ _ _ (λ es v. refl) h

command_response-Step :
    (code : String) (l : Listener)
    → IsShowing l
    → Step (Event.command_response code) l (on_command_response code l)
unfolding on_command_response Feed.reset
command_response-Step code l h = either (String_discrete code "0")
  where
    either :
        (d : Dec (code ≡ "0"))
        → Step (Event.command_response code) l (
            update (
              ite d
                (record l {
                  book_condition = record { state = not_ready; errors = "subscribed" ∷ [] };
                })
                (record l {
                  book_condition = record { state = error; errors = "failed to subscribe" ∷ [] };
                })))
    either (yes e) = told-Step (Event.command_response code) l _ _ _ _ (λ es v. refl) h
    either (no n) = told-Step (Event.command_response code) l _ _ _ _ (λ es v. refl) h

tick-Handled :
    (now : Timestamp) (t : TickRecord) (l : Listener)
    → IsShowing l
    → Enabled t l.snapshot_service
    → Handled (Event.tick now t) l
unfolding handle on_tick ticked update
tick-Handled now t l h e =
    let (x, s, done, ticks) =
      process_tick_kept now t l.snapshot_service h.service e l.snapshot_service.free_snaps refl in
    let k : Listener = ticked l x s in
    let held' : All (IsUpToDate s) l.held =
      All-map (IsUpToDate l.snapshot_service) (IsUpToDate s) l.held ticks.later h.held in
    let (signals, showing) = update-Showing k (record {
      service = ticks.kept;
      held = keep_former-All l s h.current ticks.later held';
      current = ticks.issued;
      same = ticks.copy ∙ sym ticks.book;
    }) in
    (
      update k,
      rw done refl,
      record {
        vs = view s.order_book ∷ [];
        signals = signals;
        specified = λ es us e'. rw e.leads (
            subst (λ v. (shown es v >>= λ vs. ok (v ∷ vs)) ≡ ok (view s.order_book ∷ us)) ticks.book
              (rw e' refl));
        showing = showing;
      },
    )

-- A snapshot comes back to the free list.
released-Handled :
    (before : List Snapshot) (x : Snapshot) (behind : List Snapshot) (l : Listener)
    → IsShowing l
    → l.held ≡ before ++ x ∷ behind
    → Handled (Event.released before x behind) l
unfolding handle release deallocate_snapshot
released-Handled before x behind l h e =
    let up : All (IsUpToDate l.snapshot_service) (before ++ x ∷ behind) =
      subst (All (IsUpToDate l.snapshot_service)) e h.held in
    let (old, others) = All-middle (IsUpToDate l.snapshot_service) before x behind up in
    let s : Service = deallocate_snapshot x l.snapshot_service in
    (
      record l { snapshot_service = s; held = before ++ behind },
      refl,
      record {
        vs = [];
        signals = sym (append-nil (books l.signalled));
        specified = λ es us e'. e';
        showing = record {
          service = deallocate_snapshot-IsKept x l.snapshot_service old h.service;
          held =
              All-map (IsUpToDate l.snapshot_service) (IsUpToDate s) (before ++ behind)
                (given_back x l.snapshot_service) others;
          current =
              IsPooled-later l.pooled l.snapshot_service s l.snapshot
                (given_back x l.snapshot_service) h.current;
          same = h.same;
        };
      },
    )

pub handle-Handled : (e : Event) (l : Listener) → IsShowing l → IsPossible e l → Handled e l
unfolding handle
handle-Handled (Event.connection s) l h e = (_, refl, connection-Step s l h)
handle-Handled (Event.command_response code) l h e = (_, refl, command_response-Step code l h)
handle-Handled (Event.tick now t) l h e = tick-Handled now t l h e
handle-Handled (Event.released before x behind) l h e = released-Handled before x behind l h e

-- What events signal, by the specification.
abbrev pub Showing : List Event → Listener → Type 0
Showing es l =
    (m : Listener) × (us : List BookView) × (run es l ≡ ok m)
    × (shown es (view l.snapshot_service.order_book) ≡ ok us)
    × (books m.signalled ≡ books l.signalled ++ us)

pub run-Showing : (es : List Event) (l : Listener) → IsShowing l → Legal es l → Showing es l
unfolding run
run-Showing [] l h legal = (l, [], refl, refl, sym (append-nil (books l.signalled)))
run-Showing (e ∷ es) l h (possible, legal) =
    let (k, done, step) = handle-Handled e l h possible in
    let (m, us, went, spec, signals) =
      run-Showing es k step.showing (subst (Then (Legal es)) done legal) in
    (
      m,
      step.vs ++ us,
      rw done went,
      step.specified es us spec,
      signals ∙ ap (λ v. v ++ us) step.signals ∙ append_assoc (books l.signalled) step.vs us,
    )

pub construct-IsShowing :
    (now : Timestamp) (symbol subscribe_id source_id : String)
    → IsShowing (construct now symbol subscribe_id source_id)
unfolding construct
construct-IsShowing now symbol subscribe_id source_id = record {
  service = record {
    book = empty_book-IsSoundBook;
    retained = record { ascending = tt; below = tt; sorted = tt };
    free = tt;
  };
  held = tt;
  current = tt;
  same = refl;
}
