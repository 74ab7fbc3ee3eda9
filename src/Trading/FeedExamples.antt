-- ===== src/Trading/FeedExamples.antt =====
-- Feeds with subscribers on other executors.
use arby.Common.{◌≡◌, ◌<◌, ◌≤◌, refl, true, false, none, some, List, [], ◌∷◌, ◌++◌, ℕ_discrete}
use arby.Common.Assoc.{lookup, assign, erase}
use arby.Common.Result.{ok, map_ok}
use arby.Common.Totals.{count}
use arby.Util.Connections.{
  HandleId, disconnected, disconnect_handle, move_constructed, destroyed, ran, step, connect,
  move_construct, destroy, disconnect, without, take_out,
}
use arby.Util.Connections
use arby.Trading.AggregateFeed.{
  Feed, new_feed, Given, Event, subscribed, updated, changed, run, subscribe, update_snapshot,
}
use arby.Trading.AggregateFeed
use arby.Trading.AggregateFeed.Between.{given_to, published, latest, holders}
use arby.Trading.AggregateFeed.Follows.{run-follows}

-- A handle is moved and ends on another executor; its disconnection comes after one more snapshot.
abbrev before : List Event
before = updated (some 10) ∷ subscribed 0 ∷ []

abbrev since : List Event
since =
    changed (move_constructed 2 1)
    ∷ updated (some 11)
    ∷ changed (destroyed false 2)
    ∷ updated (some 12)
    ∷ []

abbrev rest : List Event
rest = changed (ran 0) ∷ updated (some 13) ∷ []

run-follows_example :
    (g0 g1 g2 : Given) × (f f' f'' : Feed) × (run before new_feed ≡ ok (g0, f))
    × (run (subscribed 1 ∷ since) f ≡ ok (g1, f'))
    × (run rest f' ≡ ok (g2, f''))
    × (count f.snap_sig_.next f'.snap_sig_.connected ≤ 1)
    × (0 < count f.snap_sig_.next f'.snap_sig_.connected
        → given_to f.snap_sig_.next (g0 ++ g1) ≡ latest none before ∷ published since)
    × (count f.snap_sig_.next f'.snap_sig_.connected ≡ 0 → given_to f.snap_sig_.next g2 ≡ [])
    × (count f.snap_sig_.next f'.snap_sig_.connected ≤ holders f.snap_sig_.next f')
    × (false ≡ false → holders f.snap_sig_.next f' ≡ count f.snap_sig_.next f'.snap_sig_.connected)
unfolding AggregateFeed.step Connections.step Connections.run_posted subscribe update_snapshot
    connect move_construct destroy disconnect lookup assign erase ℕ_discrete without take_out
run-follows_example = run-follows false before 1 since rest (
  (10, refl),
  (
    refl,
    (
      refl,
      (
        (refl, (_, refl)),
        ((11, refl), ((_, refl), ((12, refl), ((_, _, refl), ((13, refl), tt))))),
      ),
    ),
  ),
)

-- A handle that was disconnected by itself still has its connection, which the signal does not call.
disconnected_by_itself :
    map_ok
      (λ r. r.0)
      (run
        (subscribed 0
          ∷ changed (disconnected true 0)
          ∷ updated (some 10)
          ∷ changed (destroyed true 0)
          ∷ [])
        new_feed)
    ≡ ok ((0, none) ∷ [])
unfolding run AggregateFeed.step Connections.step subscribe update_snapshot connect destroy
    disconnect disconnect_handle lookup assign erase ℕ_discrete without
disconnected_by_itself = refl
