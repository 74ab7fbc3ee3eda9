-- ===== src/Trading/AggregateFeed/Follows.antt =====
-- What one subscriber of a feed is given.
use arby.Common.{
  ◌≡◌, ◌≤◌, ◌<◌, refl, sym, subst, ap, Bool, false, Option, none, some, List, [], ◌∷◌, ◌++◌,
  append-nil, arith,
}
use arby.Common.Result.{ok}
use arby.Common.Totals.{count}
use arby.Util.Connections.{ConnectionId, HandleId, connect}
use arby.Util.Connections.Held.{Sound}
use arby.Util.Connections.Steps.{connect-Sound}
use arby.Trading.AggregateFeed.{
  SnapshotId, Feed, new_feed, Given, Event, subscribed, updated, changed, subscribe, step, run,
}
use arby.Trading.AggregateFeed.Between.{
  given_to, published, latest, Then, Legal, holders, given_to-append, Between, step-Goes,
}

published-append : (es fs : List Event) → published (es ++ fs) ≡ published es ++ published fs
published-append [] fs = refl
published-append (updated (some s) ∷ es) fs = ap (λ l. some s ∷ l) (published-append es fs)
published-append (updated none ∷ es) fs = published-append es fs
published-append (subscribed h ∷ es) fs = published-append es fs
published-append (changed op ∷ es) fs = published-append es fs

latest-append :
    (last : Option SnapshotId) (es fs : List Event)
    → latest last (es ++ fs) ≡ latest (latest last es) fs
latest-append last [] fs = refl
latest-append last (updated (some s) ∷ es) fs = latest-append (some s) es fs
latest-append last (updated none ∷ es) fs = latest-append last es fs
latest-append last (subscribed h ∷ es) fs = latest-append last es fs
latest-append last (changed op ∷ es) fs = latest-append last es fs

Between-append :
    (es fs : List Event) (f f' f'' : Feed) (g h : Given)
    → Between es f g f'
    → Between fs f' h f''
    → Between (es ++ fs) f (g ++ h) f''
Between-append es fs f f' f'' g h b b' = record {
  later = omega (arith, b.later, b'.later);
  last = ground (arith, b.last, b'.last, latest-append f.last_snapshot_ es fs);
  fades = λ c below. ground (arith, b.fades c below, b'.fades c, b.later, below);
  up = λ c below h'. ground (
    arith,
    below,
    h',
    b.later,
    b'.fades c,
    b.up c below,
    b'.up c,
    given_to-append c g h,
    published-append es fs,
  );
  down = λ c below h'. ground (
    arith,
    below,
    h',
    b.later,
    b.fades c below,
    b.down c below,
    b'.down c,
    given_to-append c g h,
  );
  beyond =
      λ c above. ground (arith, above, b'.later, b.beyond c, b'.beyond c, given_to-append c g h);
}

-- The events before a moment are made, and those behind it are possible then.
RunsTo : Bool → List Event → List Event → Feed → Type 0
RunsTo direct es rest f =
    (g : Given) × (f' : Feed) × (run es f ≡ ok (g, f'))
    × Sound direct f'.snap_sig_
    × Legal direct rest f'
    × Between es f g f'

run-RunsTo :
    (direct : Bool) (es rest : List Event) (f : Feed)
    → Sound direct f.snap_sig_
    → Legal direct (es ++ rest) f
    → RunsTo direct es rest f
unfolding run RunsTo
run-RunsTo direct [] rest f s legal = (
  [],
  f,
  refl,
  s,
  legal,
  record {
    later = omega arith;
    last = refl;
    fades = λ c below. omega arith;
    up = λ c below h. refl;
    down = λ c below h. refl;
    beyond = λ c above. refl;
  },
)
run-RunsTo direct (e ∷ es) rest f s (possible, legal) =
    let (g, f', done, sound, b) = step-Goes direct e f s possible in
    let (h, f'', ran, sound', legal', b') =
      run-RunsTo direct es rest f' sound (subst (Then (Legal direct (es ++ rest))) done legal) in
    (g ++ h, f'', rw (done, ran) refl, sound', legal', Between-append (e ∷ []) es f f' f'' g h b b')

new_feed-Sound : (direct : Bool) → Sound direct new_feed.snap_sig_
new_feed-Sound direct = record {
  most = λ i. ground arith;
  once = λ only i. refl;
  single = λ i. ground arith;
  apart = tt;
}

-- From a new feed, whatever subscriptions, publications and operations on handles, calls of disconnect()
-- by itself among them only if `direct`, where new handles have new names, no handle is assigned to
-- itself and no null pointer is published: nothing fails. For each subscription, at each moment after
-- it, the signal calls its connection or not, once at most. If it does, the subscriber was given the
-- snapshot that was published last before it, or none if there was none, and then each that was
-- published since, once and in order; if it does not, it is given nothing more. It does only while a
-- handle or a function object has the connection; and if not `direct`, exactly while one has, and one
-- only.
pub run-follows :
    (direct : Bool) (before : List Event) (h : HandleId) (since rest : List Event)
    → Legal direct (before ++ subscribed h ∷ (since ++ rest)) new_feed
    → (g0 g1 g2 : Given) × (f f' f'' : Feed) × (run before new_feed ≡ ok (g0, f))
      × (run (subscribed h ∷ since) f ≡ ok (g1, f'))
      × (run rest f' ≡ ok (g2, f''))
      × (count f.snap_sig_.next f'.snap_sig_.connected ≤ 1)
      × (0 < count f.snap_sig_.next f'.snap_sig_.connected
          → given_to f.snap_sig_.next (g0 ++ g1) ≡ latest none before ∷ published since)
      × (count f.snap_sig_.next f'.snap_sig_.connected ≡ 0 → given_to f.snap_sig_.next g2 ≡ [])
      × (count f.snap_sig_.next f'.snap_sig_.connected ≤ holders f.snap_sig_.next f')
      × (direct ≡ false
          → holders f.snap_sig_.next f' ≡ count f.snap_sig_.next f'.snap_sig_.connected)
unfolding run RunsTo step subscribe connect
run-follows direct before h since rest legal =
    let (g0, f, ran, sound, (free, legal'), b) =
      run-RunsTo direct before (subscribed h ∷ (since ++ rest)) new_feed (new_feed-Sound direct)
        legal in
    let n : ConnectionId = f.snap_sig_.next in
    let f1 : Feed = record f { snap_sig_ = connect h f.snap_sig_ } in
    let (g, f', ran', sound', legal'', b') =
      run-RunsTo direct since rest f1 (connect-Sound direct h f.snap_sig_ sound free) legal' in
    let (g2, f'', ran'', sound'', done, b'') =
      run-RunsTo direct rest [] f' sound'
        (subst (λ es. Legal direct es f') (sym (append-nil rest)) legal'') in
    (
      g0,
      (n, f.last_snapshot_) ∷ g,
      g2,
      f,
      f',
      f'',
      ran,
      rw ran' refl,
      ran'',
      ground (arith, sound'.single n),
      λ up. ground (
        arith,
        b.beyond n,
        b.last,
        b'.up n,
        up,
        given_to-append n g0 ((n, f.last_snapshot_) ∷ g),
      ),
      λ gone. b''.down n (omega (arith, b'.later)) gone,
      sound'.most n,
      λ only. sound'.once only n,
    )
