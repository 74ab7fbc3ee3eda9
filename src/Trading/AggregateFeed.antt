-- ===== src/Trading/AggregateFeed.antt =====
-- arby/trading/aggregate_book_feed.hpp: a feed that gives snapshots to its subscribers, over the
-- connections of Util/Connections. Snapshots are named by their addresses. The body of `subscribe`
-- runs on the feed's executor, wherever it is called from.
pub mod Between
pub mod Follows
use arby.Common.{ℕ, Option, none, some, List, [], ◌∷◌, ◌++◌, map}
use arby.Common.Result.{Result, ok, ◌>>=◌, map_ok, or_fail, assertion_failed}
use arby.Util.Connections.{HandleId, ConnectionId, Links, no_links, connect, Op}
use arby.Util.Connections

abbrev pub SnapshotId : Type 0
SnapshotId = ℕ

pub record Feed : Type 0 where
  pub last_snapshot_ : Option SnapshotId
  pub snap_sig_ : Links

abbrev pub new_feed : Feed
new_feed = record { last_snapshot_ = none; snap_sig_ = no_links }

-- What subscribers are given: the snapshot of the result of `subscribe`, or a call of their slot.
abbrev pub Given : Type 0
Given = List (ConnectionId × Option SnapshotId)

-- The result's connection is in the handle.
unfoldable pub subscribe : HandleId → Feed → Given × Feed
subscribe h f =
    ((f.snap_sig_.next, f.last_snapshot_) ∷ [], record f { snap_sig_ = connect h f.snap_sig_ })

unfoldable pub update_snapshot : Option SnapshotId → Feed → Result (Given × Feed)
update_snapshot candidate f = or_fail candidate assertion_failed >>= λ s.
    ok (map (λ c. (c, some s)) f.snap_sig_.connected, record f { last_snapshot_ = some s })

pub data Event : Type 0 where
  subscribed : HandleId → Event
  updated : Option SnapshotId → Event
  changed : Op → Event

unfoldable pub step : Event → Feed → Result (Given × Feed)
step (subscribed h) f = ok (subscribe h f)
step (updated s) f = update_snapshot s f
step (changed op) f = Connections.step op f.snap_sig_ >>= λ l. ok ([], record f { snap_sig_ = l })

unfoldable pub run : List Event → Feed → Result (Given × Feed)
run [] f = ok ([], f)
run (e ∷ es) f = step e f >>= λ r. run es r.1 >>= λ s. ok (r.0 ++ s.0, s.1)
