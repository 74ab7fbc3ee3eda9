-- ===== src/PowerTrade/SnapshotService/CatchUp.antt =====
-- arby/power_trade/orderbook_snapshot_service.cpp, `process_tick`: the snapshot that it hands out
-- compares equal to the order book, whether it is new, overwritten or brought up by a replay.
use arby.Common.{
  ℕ, ◌+◌, ◌≤◌, ◌<◌, ◌≡◌, refl, ◌∙◌, ◌==◌, Bool-cases, Option-cases, inl, inr, List, [], ◌∷◌, some,
  arith,
}
use arby.Common.Result.{ok}
use arby.Trading.Types.{Timestamp}
use arby.PowerTrade.Ticks.{TickRecord}
use arby.PowerTrade.OrderBook.{OrderBook, view}
use arby.PowerTrade.OrderBook
use arby.PowerTrade.OrderBook.BookSpec.{BookView}
use arby.PowerTrade.OrderBook.Books.{IsSoundBook}
use arby.PowerTrade.OrderBook.Assigned.{assign_side-view}
use arby.PowerTrade.TickHistory.{
  TickHistory, u64_mod, add_tick, remove_watermark, highest_sequence, add_watermark,
}
use arby.PowerTrade.TickHistory.Sequences.{find, after}
use arby.PowerTrade.TickHistory.Retained.{IsRetained, find-emplace, after-emplace}
use arby.PowerTrade.SnapshotService.{
  Snapshot, Service, allocate_snapshot, begin, issue, catch_up, process_tick,
}
use arby.PowerTrade.SnapshotService.Replay.{
  replay_tick, tick_view, IsFreshTick, Leads, Leads-snoc, replay_tick_total, replay_all_total,
}

-- A copy of a book compares equal to it, whatever it is copied into.
pub assign-view : (target source : OrderBook) → view (OrderBook.assign target source) ≡ view source
unfolding OrderBook.assign
assign-view target source =
    ground (
      arith,
      assign_side-view target.bids source.bids,
      assign_side-view target.offers source.offers,
    )

-- The ticks kept since a snapshot of this generation lead from its book to the view.
abbrev pub IsReady : ℕ → TickHistory TickRecord → BookView → Snapshot → Type 0
IsReady generation h v x =
    x.generation ≡ generation
    → (t : TickRecord) → find x.sequence h.history ≡ some t
    → IsSoundBook x.book × Leads (view x.book) (after x.sequence h.history) v

pub catch_up_total :
    (generation : ℕ) (b : OrderBook) (h : TickHistory TickRecord) (x : Snapshot)
    → IsReady generation h (view b) x
    → (c : OrderBook) × (h' : TickHistory TickRecord) × (catch_up generation b h x ≡ ok (c, h'))
      × (view c ≡ view b)
      × (h'.next_sequence ≡ h.next_sequence)
unfolding catch_up
catch_up_total generation b h x ready = elim (Bool-cases (x.generation == generation)) [
  | inl same ↦ elim (Option-cases (find x.sequence h.history)) [
    | inl gone ↦ (OrderBook.assign x.book b, h, ground arith, assign-view x.book b, refl)
    | inr (t, there) ↦
        let (s, l) = ready (ground arith) t there in
        let (c, r, s', v) = replay_all_total x.book (after x.sequence h.history) (view b) s l in
        (c, remove_watermark x.sequence h, ground arith, v, refl)
  ]
  | inr other ↦ (OrderBook.assign x.book b, h, ground arith, assign-view x.book b, refl)
]

-- A snapshot in the service's hands that the next tick can use.
pub record IsUpToDate (s : Service) (x : Snapshot) : Type 0 where
  pub old : x.generation ≤ s.current_generation
  pub given : x.generation ≡ s.current_generation → x.sequence < s.tick_history.next_sequence
  pub ready : IsReady s.current_generation s.tick_history (view s.order_book) x

-- The snapshot that the next tick takes, if it takes a released one.
abbrev pub IsFirstUpToDate : Service → List Snapshot → Type 0
IsFirstUpToDate s [] = Unit
IsFirstUpToDate s (x ∷ free) = IsUpToDate s x

add_tick-IsReady :
    (g : ℕ) (h : TickHistory TickRecord) (v u : BookView) (x : Snapshot) (t : TickRecord)
    → IsRetained h
    → IsReady g h v x
    → (x.generation ≡ g → x.sequence < h.next_sequence)
    → IsFreshTick v t
    → tick_view v t ≡ ok u
    → IsReady g (add_tick t h) u x
unfolding add_tick
add_tick-IsReady g h v u x t k r below f e same t' there =
    let earlier : find x.sequence h.history ≡ some t' =
      ground (arith, below same, find-emplace h.next_sequence x.sequence t h.history k.below) in
    let (s, l) = r same t' earlier in
    (
      s,
      rw (after-emplace x.sequence h.next_sequence t t' h.history k.below earlier)
          (Leads-snoc (view x.book) v u (after x.sequence h.history) t l f e),
    )

pub begin-IsRetained :
    (t : TickRecord) (s : Service) → IsRetained s.tick_history → IsRetained (begin t s).tick_history
begin-IsRetained (TickRecord.snapshot t) s k = record { ascending = tt; below = tt; sorted = tt }
begin-IsRetained t s k = k

pub begin-order_book : (t : TickRecord) (s : Service) → (begin t s).order_book ≡ s.order_book
begin-order_book (TickRecord.snapshot t) s = refl
begin-order_book t s = refl

pub begin-free_snaps : (t : TickRecord) (s : Service) → (begin t s).free_snaps ≡ s.free_snaps
begin-free_snaps (TickRecord.snapshot t) s = refl
begin-free_snaps t s = refl

-- After the tick, a released snapshot is ready: in a new generation it is of an older one.
pub begin-IsReady :
    (t : TickRecord) (s : Service) (u : BookView) (x : Snapshot)
    → IsRetained s.tick_history
    → IsUpToDate s x
    → s.current_generation + 1 < u64_mod
    → IsFreshTick (view s.order_book) t
    → tick_view (view s.order_book) t ≡ ok u
    → IsReady (begin t s).current_generation (add_tick t (begin t s).tick_history) u x
begin-IsReady (TickRecord.snapshot t) s u x k y fits f e =
    λ same t' there. absurd (omega (arith, same, y.old))
begin-IsReady (TickRecord.add r) s u x k y fits f e =
    add_tick-IsReady s.current_generation s.tick_history (view s.order_book) u x (TickRecord.add r)
      k y.ready y.given f e
begin-IsReady (TickRecord.remove r) s u x k y fits f e =
    add_tick-IsReady s.current_generation s.tick_history (view s.order_book) u x
      (TickRecord.remove r) k y.ready y.given f e
begin-IsReady (TickRecord.execute r) s u x k y fits f e =
    add_tick-IsReady s.current_generation s.tick_history (view s.order_book) u x
      (TickRecord.execute r) k y.ready y.given f e

pub allocated-IsReady :
    (now : Timestamp) (t : TickRecord) (s : Service) (u : BookView) (free : List Snapshot)
    → IsRetained s.tick_history
    → IsFirstUpToDate s free
    → s.current_generation + 1 < u64_mod
    → 0 < (begin t s).current_generation
    → IsFreshTick (view s.order_book) t
    → tick_view (view s.order_book) t ≡ ok u
    → IsReady
        (begin t s).current_generation
        (add_tick t (begin t s).tick_history)
        u
        (allocate_snapshot now free).0
allocated-IsReady now t s u [] k y fits begun f e = λ same t' there. absurd (omega (arith, same))
allocated-IsReady now t s u (x ∷ free) k y fits begun f e = begin-IsReady t s u x k y fits f e

-- What the service and the snapshot are after a tick.
pub record Issued (s' : Service) (u : BookView) (x : Snapshot) : Type 0 where
  pub sound : IsSoundBook s'.order_book
  pub book : view s'.order_book ≡ u
  pub copy : view x.book ≡ u
  pub generation : x.generation ≡ s'.current_generation
  pub sequence : x.sequence ≡ highest_sequence s'.tick_history
  pub upstream_time : x.feed.upstream_time ≡ s'.order_book.last_update

-- A tick that leads from the view of a sound book to another is processed with no fault: the book has
-- that view then, and so has the snapshot that is handed out, with the number of the tick and the
-- generation of the service.
pub process_tick_total :
    (now : Timestamp) (t : TickRecord) (s : Service) (u : BookView)
    → IsSoundBook s.order_book
    → IsRetained s.tick_history
    → IsFirstUpToDate s s.free_snaps
    → s.current_generation + 1 < u64_mod
    → 0 < (begin t s).current_generation
    → IsFreshTick (view s.order_book) t
    → tick_view (view s.order_book) t ≡ ok u
    → (x : Snapshot) × (s' : Service) × (process_tick now t s ≡ ok (x, s')) × Issued s' u x
unfolding process_tick add_watermark
process_tick_total now t s u sound k y fits begun f e =
    let s1 = begin t s in
    let (b, replayed, sound', v) = replay_tick_total s.order_book t u sound f e in
    let replayed' : replay_tick s1.order_book t ≡ ok b = rw (begin-order_book t s) replayed in
    let y' : IsFirstUpToDate s s1.free_snaps = rw (begin-free_snaps t s) y in
    let (x, free) = allocate_snapshot now s1.free_snaps in
    let (c, h', caught, w, n) =
      catch_up_total s1.current_generation b (add_tick t s1.tick_history) x
        (rw v (allocated-IsReady now t s u s1.free_snaps k y' fits begun f e)) in
    (
      issue now b c s1.current_generation h' x,
      record {
        tick_history = add_watermark (highest_sequence h') h';
        current_generation = s1.current_generation;
        order_book = b;
        free_snaps = free;
      },
      rw (replayed', caught),
      record {
        sound = sound';
        book = v;
        copy = w ∙ v;
        generation = refl;
        sequence = refl;
        upstream_time = refl;
      },
    )
