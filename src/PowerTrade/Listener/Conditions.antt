-- ===== src/PowerTrade/Listener/Conditions.antt =====
-- What the condition of a snapshot tells its observers of the connection and of the book.
use arby.Common.{◌≡◌, String, false, max, List, [], ◌∷◌, ◌++◌, arith}
use arby.Common.Result.{ok, first_ok}
use arby.Trading.Types.{Timestamp}
use arby.Trading.Feed.{
  FeedState, FeedCondition, good, stale, not_ready, error, rank, merge, merge_state,
}
use arby.Trading.Feed
use arby.PowerTrade.Ticks.{TickRecord}
use arby.PowerTrade.SnapshotService.{process_tick}
use arby.PowerTrade.Listener.{
  Event, construct, handle, run, release, Listener, ConnectionState, down, update,
  on_connection_state, on_command_response, on_tick, ticked,
}

-- The snapshot tells the worse of the two conditions and the errors of both, and neither condition is
-- good without reason: a good connection is up, and a good condition has no errors.
pub record IsHonest (l : Listener) : Type 0 where
  pub state :
      rank l.snapshot.feed.condition.state
      ≡ max (rank l.connection_condition.state) (rank l.book_condition.state)
  pub errors :
      l.snapshot.feed.condition.errors ≡ l.connection_condition.errors ++ l.book_condition.errors
  pub up : l.connection_condition.state ≡ good → down l.connstate ≡ false
  pub clean_connection : l.connection_condition.state ≡ good → l.connection_condition.errors ≡ []
  pub clean_book : l.book_condition.state ≡ good → l.book_condition.errors ≡ []

-- What an update needs: the conditions alone.
record IsGrounded (l : Listener) : Type 0 where
  up : l.connection_condition.state ≡ good → down l.connstate ≡ false
  clean_connection : l.connection_condition.state ≡ good → l.connection_condition.errors ≡ []
  clean_book : l.book_condition.state ≡ good → l.book_condition.errors ≡ []

update-IsHonest : (l : Listener) → IsGrounded l → IsHonest (update l)
unfolding update merge merge_state Feed.reset
update-IsHonest l g = ground arith

IsGrounded-of_honest : (l : Listener) → IsHonest l → IsGrounded l
IsGrounded-of_honest l h = record {
  up = h.up;
  clean_connection = h.clean_connection;
  clean_book = h.clean_book;
}

pub construct-IsHonest :
    (now : Timestamp) (symbol subscribe_id source_id : String)
    → IsHonest (construct now symbol subscribe_id source_id)
unfolding construct merge merge_state
construct-IsHonest now symbol subscribe_id source_id = ground arith

on_connection_state-IsHonest :
    (s : ConnectionState) (l : Listener) → IsHonest l → IsHonest (on_connection_state s l)
unfolding on_connection_state merge_state Feed.reset
on_connection_state-IsHonest s l h = update-IsHonest _ (ground arith)

on_command_response-IsHonest :
    (code : String) (l : Listener) → IsHonest l → IsHonest (on_command_response code l)
unfolding on_command_response Feed.reset
on_command_response-IsHonest code l h = update-IsHonest _ (ground arith)

on_tick-IsHonest :
    (now : Timestamp) (t : TickRecord) (l m : Listener)
    → IsHonest l
    → on_tick now t l ≡ ok m
    → IsHonest m
unfolding on_tick ticked Feed.reset
on_tick-IsHonest now t l m h e =
    let (r, told, done) =
      first_ok (process_tick now t l.snapshot_service) (λ r. ok (update (ticked l r.0 r.1))) e in
    let e' : update (ticked l r.0 r.1) ≡ m = cc in rw (← e') (update-IsHonest _ (ground arith))

pub handle-IsHonest : (e : Event) (l m : Listener) → IsHonest l → handle e l ≡ ok m → IsHonest m
unfolding handle
handle-IsHonest (Event.connection s) l m h e =
    let e' : on_connection_state s l ≡ m = cc in rw (← e') (on_connection_state-IsHonest s l h)
handle-IsHonest (Event.command_response code) l m h e =
    let e' : on_command_response code l ≡ m = cc in
    rw (← e') (on_command_response-IsHonest code l h)
handle-IsHonest (Event.tick now t) l m h e = on_tick-IsHonest now t l m h e
handle-IsHonest (Event.released before x behind) l m h e =
    let e' : release before x behind l ≡ m = cc in rw (← e') (unfold release in ground arith)

run-IsHonest : (es : List Event) (l m : Listener) → IsHonest l → run es l ≡ ok m → IsHonest m
unfolding run
run-IsHonest [] l m h e = let e' : l ≡ m = cc in rw (← e') h
run-IsHonest (x ∷ es) l m h e =
    let (k, more, first) = first_ok (handle x l) (run es) e in
    run-IsHonest es k m (handle-IsHonest x l k h first) more

-- After any events, of whatever order and content, that are handled with no fault, the current
-- snapshot tells the worse of the conditions and the errors of both, and a snapshot that is told to be
-- good has no errors and a connection that is up.
pub run-good :
    (now : Timestamp) (symbol subscribe_id source_id : String) (es : List Event) (l : Listener)
    → run es (construct now symbol subscribe_id source_id) ≡ ok l
    → IsHonest l
      × (l.snapshot.feed.condition.state ≡ good
          → (l.snapshot.feed.condition.errors ≡ []) × (down l.connstate ≡ false))
run-good now symbol subscribe_id source_id es l e =
    let h =
      run-IsHonest es (construct now symbol subscribe_id source_id) l
        (construct-IsHonest now symbol subscribe_id source_id) e in
    (h, λ told. ground arith)
