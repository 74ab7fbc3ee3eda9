-- ===== src/Util/Truncate/Runs.antt =====
-- What the operations of a thread show, in any order of their creation and destruction.
use arby.Common.{
  ℕ, ◌-◌, ◌≤◌, ◌≡◌, max, List, [], ◌∷◌, ◌++◌, length, length-append, length-take, take, All,
  All-map, arith,
}
use arby.Util.Truncate.{Text, string_list, dots, view, Thread, Event, handle, run}
use arby.Util.Truncate.Buffers.{shortened, IsApart, free, held, truncated-IsApart, dropped-IsApart}

-- An operation that is destroyed is one of those that live.
abbrev pub Follows : List Event → Thread → Type 0
Follows [] t = Unit
Follows (Event.truncated sv limit ∷ es) t = Follows es (handle (Event.truncated sv limit) t)
Follows (Event.dropped before op behind ∷ es) t =
    (t.live ≡ before ++ op ∷ behind) × Follows es (handle (Event.dropped before op behind) t)

abbrev pub new_thread : Thread
new_thread = record { buffers = string_list; live = [] }

length-shortened : (sv : Text) (limit : ℕ) → length (shortened sv limit) ≤ max limit 3
length-shortened sv limit =
    ground (arith, length-append (take (max limit 3 - 3) sv) dots, length-take (max limit 3 - 3) sv)

run-IsApart : (es : List Event) (t : Thread) → IsApart t → Follows es t → IsApart (run es t)
run-IsApart [] t h follows = h
run-IsApart (Event.truncated sv limit ∷ es) t h follows =
    run-IsApart es (handle (Event.truncated sv limit) t) (truncated-IsApart sv limit t h) follows
run-IsApart (Event.dropped before op behind ∷ es) t h follows =
    run-IsApart es (handle (Event.dropped before op behind) t)
      (dropped-IsApart before op behind t follows.0 h) follows.1

-- If the events start from a new thread and each destroys an operation that lives or makes one, then
-- each operation that lives shows its own source, shortened by the three dots where it is longer than
-- the limit, in at most the limit's bytes or three: no buffer is shared or taken back too early.
pub run-shows :
    (es : List Event)
    → Follows es new_thread
    → All
        (λ op.
          (view (run es new_thread).buffers op ≡ shortened op.source op.limit)
          × (length (view (run es new_thread).buffers op) ≤ max op.limit 3))
        (run es new_thread).live
unfolding free held
run-shows es follows =
    let start : IsApart new_thread = record {
      once = λ a. omega arith;
      unborn = λ a old. omega arith;
      shows = tt;
    } in
    All-map _ _ (run es new_thread).live
      (λ op shown. (shown, rw shown (length-shortened op.source op.limit)))
      (run-IsApart es new_thread start follows).shows
