-- ===== src/PowerTrade/Listener.antt =====
-- arby/power_trade/orderbook_listener_impl.hpp and .cpp: the listener of one market. Its handlers run
-- on its own executor, one at a time; what it sends to the connector and signals to its observers
-- is collected in the order of the calls. Observers keep the snapshots that they were given: `held`
-- has those of the service that are not the current one any more.
pub mod Conditions
pub mod Shows
pub mod Signals
use arby.Common.{
  ℕ, String, String_discrete, Bool, true, false, if◌then◌else◌, ite, List, [], ◌∷◌, ◌++◌, Option,
  none, some,
}
use arby.Common.Result.{Result, ok, ◌>>=◌}
use arby.Trading.Types.{Timestamp}
use arby.Trading.Feed.{
  FeedState, FeedCondition, FeedSnapshot, good, stale, not_ready, error, default_condition, merge,
  merge_state,
}
use arby.Trading.Feed
use arby.PowerTrade.Ticks.{TickRecord}
use arby.PowerTrade.SnapshotService.{
  Snapshot, Service, new_service, new_snapshot, deallocate_snapshot, process_tick,
}

-- `connection_state`: `none` is an error code of no error.
abbrev pub ConnectionState : Type 0
ConnectionState = Option String

abbrev pub down : ConnectionState → Bool
down none = false
down (some error_code) = true

-- The fields of the request that `on_connection_state` serialises.
pub record Subscribe : Type 0 where
  pub market_id : String
  pub symbol : String
  pub type : String
  pub interval : String
  pub user_tag : String

pub record Listener : Type 0 where
  pub symbol : String
  pub subscribe_id : String
  pub source_id : String
  pub connstate : ConnectionState
  pub connection_condition : FeedCondition
  pub book_condition : FeedCondition
  pub snapshot_service : Service
  pub snapshot : Snapshot
  -- Whether the current snapshot is one of the service: the first one is not.
  pub pooled : Bool
  pub held : List Snapshot
  pub sent : List Subscribe
  pub signalled : List Snapshot

abbrev push_error : String → FeedCondition → FeedCondition
push_error e c = record c { errors = c.errors ++ e ∷ [] }

abbrev with_condition : FeedCondition → Snapshot → Snapshot
with_condition c x = record x { feed = record (x.feed) { condition = c } }

-- `symbol` is the native symbol, and the two identifiers are built from the market key.
unfoldable pub construct : Timestamp → String → String → String → Listener
unfolding merge
construct now symbol subscribe_id source_id =
    let connection = push_error "connection state unknown" default_condition in
    let book = push_error "no book" default_condition in
    let fresh = new_snapshot now in
    record {
      symbol = symbol;
      subscribe_id = subscribe_id;
      source_id = source_id;
      connstate = some "not_connected";
      connection_condition = connection;
      book_condition = book;
      snapshot_service = new_service;
      snapshot = record fresh {
        feed = record (fresh.feed) {
          condition = merge book (merge connection fresh.feed.condition);
          source = source_id;
        };
      };
      pooled = false;
      held = [];
      sent = [];
      signalled = [];
    }

unfoldable pub update : Listener → Listener
unfolding merge Feed.reset
update l =
    let c =
      merge l.book_condition
        (merge l.connection_condition (Feed.reset good l.snapshot.feed.condition)) in
    let x = with_condition c l.snapshot in
    record l { snapshot = x; signalled = l.signalled ++ x ∷ [] }

abbrev subscription : Listener → Subscribe
subscription l = record {
  market_id = "0";
  symbol = l.symbol;
  type = "snap_full_updates";
  interval = "0";
  user_tag = l.subscribe_id;
}

unfoldable pub on_connection_state : ConnectionState → Listener → Listener
unfolding merge_state Feed.reset
on_connection_state cstate l = update (
    if down cstate
    then record l {
      connstate = cstate;
      connection_condition =
          push_error "connection dropped" (Feed.reset stale l.connection_condition);
      book_condition = merge_state stale l.book_condition;
    }
    else record l {
      connstate = cstate;
      connection_condition = Feed.reset good l.connection_condition;
      sent = l.sent ++ subscription l ∷ [];
    })

-- `code` is the value of the field error_code.
unfoldable pub on_command_response : String → Listener → Listener
unfolding Feed.reset
on_command_response code l = update (
    ite (String_discrete code "0")
      (record l {
        book_condition = push_error "subscribed" (Feed.reset not_ready l.book_condition);
      })
      (record l {
        book_condition = push_error "failed to subscribe" (Feed.reset error l.book_condition);
      }))

-- The former snapshot stays with the observers that have it; the first one is not kept.
-- If none has it, its release is the next event: the code runs it at once, and what is left of the
-- handler does not touch the service.
abbrev keep_former : Listener → List Snapshot
keep_former l = if l.pooled then l.snapshot ∷ l.held else l.held

-- A snapshot that the service gave takes the place of the former one.
unfoldable pub ticked : Listener → Snapshot → Service → Listener
unfolding Feed.reset
ticked l x service = record l {
  snapshot_service = service;
  snapshot = x;
  pooled = true;
  held = keep_former l;
  book_condition = Feed.reset good l.book_condition;
}

unfoldable pub on_tick : Timestamp → TickRecord → Listener → Result Listener
on_tick now tick l = do r ← process_tick now tick l.snapshot_service; ok (update (ticked l r.0 r.1))

-- The deleter: the last observer lets a held snapshot go.
unfoldable pub release : List Snapshot → Snapshot → List Snapshot → Listener → Listener
release before x behind l = record l {
  snapshot_service = deallocate_snapshot x l.snapshot_service;
  held = before ++ behind;
}

-- What reaches the listener's executor. A released snapshot is one of those held.
pub data Event : Type 0 where
  connection : ConnectionState → Event
  command_response : String → Event
  tick : Timestamp → TickRecord → Event
  released : List Snapshot → Snapshot → List Snapshot → Event

unfoldable pub handle : Event → Listener → Result Listener
handle (connection s) l = ok (on_connection_state s l)
handle (command_response code) l = ok (on_command_response code l)
handle (tick now t) l = on_tick now t l
handle (released before x behind) l = ok (release before x behind l)

unfoldable pub run : List Event → Listener → Result Listener
unfolding handle
run [] l = ok l
run (e ∷ es) l = handle e l >>= run es
