-- ===== src/PowerTrade/SnapshotService/Histories.antt =====
-- What one tick keeps of the service and of the snapshots in hand.
use arby.Common.{
  ℕ, suc, ◌+◌, ◌≤◌, ◌<◌, ◌≡◌, refl, sym, subst, ap, ◌∙◌, inr, List, [], ◌∷◌, All, All-map, arith,
}
use arby.Common.Result.{ok}
use arby.Trading.Types.{Timestamp}
use arby.PowerTrade.Ticks.{TickRecord}
use arby.PowerTrade.OrderBook.{OrderBook, view}
use arby.PowerTrade.OrderBook.BookSpec.{BookView}
use arby.PowerTrade.OrderBook.Books.{IsSoundBook}
use arby.PowerTrade.TickHistory.{TickHistory, u64_mod, add_tick, add_watermark, highest_sequence}
use arby.PowerTrade.TickHistory.Sequences.{after}
use arby.PowerTrade.TickHistory.Retained.{
  IsRetained, IsBelow, add_tick-IsRetained, add_watermark-IsRetained,
}
use arby.PowerTrade.SnapshotService.{
  Snapshot, Service, new_snapshot, allocate_snapshot, begin, issue, process_tick,
}
use arby.PowerTrade.SnapshotService.Replay.{
  replay_tick, tick_view, IsFreshTick, Leads, replay_tick_total,
}
use arby.PowerTrade.SnapshotService.CatchUp.{
  IsReady, IsUpToDate, begin-IsReady, begin-IsRetained, begin-order_book, begin-free_snaps,
}
use arby.PowerTrade.SnapshotService.Held.{Trimmed, after_last, IsReusable, catch_up_kept}

Trimmed-IsReady :
    (g : ℕ) (h h' : TickHistory TickRecord) (v : BookView) (x : Snapshot)
    → Trimmed h h'
    → IsReady g h v x
    → IsReady g h' v x
Trimmed-IsReady g h h' v x trimmed ready same t there =
    let (earlier, tail) = trimmed.kept x.sequence t there in
    let (s, l) = ready same t earlier in (s, subst (λ ts. Leads (view x.book) ts v) (sym tail) l)

abbrev pub IsFirstReusable : ℕ → TickHistory TickRecord → List Snapshot → Type 0
IsFirstReusable g h [] = Unit
IsFirstReusable g h (x ∷ free) = IsReusable g h x

-- The tick has a meaning, its new orders are new, the numbers do not wrap, a generation has begun, and
-- the released snapshot that it takes, if any, can be brought up.
pub record Enabled (t : TickRecord) (s : Service) : Type 0 where
  pub fresh : IsFreshTick (view s.order_book) t
  pub next : BookView
  pub leads : tick_view (view s.order_book) t ≡ ok next
  pub generations : s.current_generation + 1 < u64_mod
  pub sequences : (begin t s).tick_history.next_sequence + 1 < u64_mod
  pub begun : 0 < (begin t s).current_generation
  pub reusable :
      IsFirstReusable
        (begin t s).current_generation
        (add_tick t (begin t s).tick_history)
        s.free_snaps

pub record IsKept (s : Service) : Type 0 where
  pub book : IsSoundBook s.order_book
  pub retained : IsRetained s.tick_history
  pub free : All (IsUpToDate s) s.free_snaps

begin_later :
    (t : TickRecord) (s : Service) (y : Snapshot)
    → s.current_generation + 1 < u64_mod
    → IsUpToDate s y
    → (y.generation ≤ (begin t s).current_generation)
      × (y.generation ≡ (begin t s).current_generation
          → y.sequence < (begin t s).tick_history.next_sequence)
begin_later (TickRecord.snapshot t) s y fits up =
    (omega (arith, up.old, fits), λ same. absurd (omega (arith, up.old, fits, same)))
begin_later (TickRecord.add r) s y fits up = (up.old, up.given)
begin_later (TickRecord.remove r) s y fits up = (up.old, up.given)
begin_later (TickRecord.execute r) s y fits up = (up.old, up.given)

-- The service after a tick, of whose history h' is left.
abbrev ticked : TickRecord → OrderBook → TickHistory TickRecord → List Snapshot → Service → Service
ticked t b h' free s = record {
  tick_history = add_watermark (highest_sequence h') h';
  current_generation = (begin t s).current_generation;
  order_book = b;
  free_snaps = free;
}

module _ (t : TickRecord) (s : Service) (b : OrderBook) (h' : TickHistory TickRecord)
    (free : List Snapshot) (kept : IsKept s) (e : Enabled t s)
    (trimmed : Trimmed (add_tick t (begin t s).tick_history) h') (shows : view b ≡ e.next) where
  numbered : h'.next_sequence ≡ (begin t s).tick_history.next_sequence + 1
  unfolding add_tick
  numbered = ground (arith, trimmed.next_sequence, e.sequences)

  -- Those in hand before are up to date after.
  pub later-IsUpToDate : (y : Snapshot) → IsUpToDate s y → IsUpToDate (ticked t b h' free s) y
  unfolding add_watermark
  later-IsUpToDate y up =
      let (old, given) = begin_later t s y e.generations up in
      record {
        old = old;
        given = λ same. omega (arith, given same, numbered);
        ready =
            subst (λ v. IsReady (begin t s).current_generation h' v y) (sym shows)
              (Trimmed-IsReady (begin t s).current_generation (add_tick t (begin t s).tick_history)
                h' e.next y trimmed
                (begin-IsReady t s e.next y kept.retained up e.generations e.fresh e.leads));
      }

  -- And so is the one that is handed out.
  pub issued-IsUpToDate :
      (now : Timestamp) (c : OrderBook) (x : Snapshot)
      → view c ≡ view b
      → IsSoundBook c
      → IsUpToDate (ticked t b h' free s) (issue now b c (begin t s).current_generation h' x)
  unfolding add_watermark
  issued-IsUpToDate now c x same sound =
      let n : ℕ = (begin t s).tick_history.next_sequence in
      let last : highest_sequence h' ≡ n = omega (arith, numbered, e.sequences) in
      let counted : h'.next_sequence ≡ suc n = omega (arith, numbered) in
      let nothing : after n h'.history ≡ [] =
        after_last n h'.history trimmed.retained.ascending
          (subst (λ m. IsBelow m h'.history) counted trimmed.retained.below) in
      record {
        old = omega arith;
        given = λ g. omega (arith, last, numbered);
        ready = λ g u there. (sound, rw (last, nothing) same);
      }

-- The service after a tick: what it handed out shows what the tick leads to, and all snapshots in
-- hand stay up to date.
pub record Ticks (s s' : Service) (u : BookView) (x : Snapshot) : Type 0 where
  pub kept : IsKept s'
  pub book : view s'.order_book ≡ u
  pub copy : view x.book ≡ u
  pub numbered :
      (x.generation ≡ s'.current_generation)
      × (x.sequence ≡ highest_sequence s'.tick_history)
      × (x.feed.upstream_time ≡ s'.order_book.last_update)
  pub issued : IsUpToDate s' x
  pub later : (y : Snapshot) → IsUpToDate s y → IsUpToDate s' y

module _ (now : Timestamp) (t : TickRecord) (s : Service) (kept : IsKept s) (e : Enabled t s) where
  -- With the snapshot that the tick takes.
  with_snapshot :
      (x : Snapshot) (rest : List Snapshot)
      → allocate_snapshot now (begin t s).free_snaps ≡ (x, rest)
      → IsReady (begin t s).current_generation (add_tick t (begin t s).tick_history) e.next x
      → IsReusable (begin t s).current_generation (add_tick t (begin t s).tick_history) x
      → All (IsUpToDate s) rest
      → (y : Snapshot) × (s' : Service) × (process_tick now t s ≡ ok (y, s')) × Ticks s s' e.next y
  unfolding process_tick add_watermark
  with_snapshot x rest taken ready reusable up =
      let s1 = begin t s in
      let (b, replayed, sound, shows) =
        replay_tick_total s.order_book t e.next kept.book e.fresh e.leads in
      let replayed' : replay_tick s1.order_book t ≡ ok b = rw (begin-order_book t s) replayed in
      let retained =
        add_tick-IsRetained t s1.tick_history e.sequences (begin-IsRetained t s kept.retained) in
      let (c, h', caught, w, sound', trimmed) =
        catch_up_kept s1.current_generation b (add_tick t s1.tick_history) x retained sound
          (subst (λ v. IsReady s1.current_generation (add_tick t s1.tick_history) v x) (sym shows)
            ready)
          reusable in
      let later = later-IsUpToDate t s b h' rest kept e trimmed shows in
      (
        issue now b c s1.current_generation h' x,
        ticked t b h' rest s,
        rw (replayed', taken, caught) refl,
        record {
          kept = record {
            book = sound;
            retained = add_watermark-IsRetained (highest_sequence h') h' trimmed.retained;
            free = All-map (IsUpToDate s) (IsUpToDate (ticked t b h' rest s)) rest later up;
          };
          book = shows;
          copy = w ∙ shows;
          numbered = (refl, refl, refl);
          issued = issued-IsUpToDate t s b h' rest kept e trimmed shows now c x w sound';
          later = later;
        },
      )

  pub process_tick_kept :
      (free : List Snapshot)
      → s.free_snaps ≡ free
      → (x : Snapshot) × (s' : Service) × (process_tick now t s ≡ ok (x, s')) × Ticks s s' e.next x
  process_tick_kept [] there =
      with_snapshot (new_snapshot now) []
        (ap (allocate_snapshot now) (begin-free_snaps t s ∙ there))
        (λ same u found. absurd (omega (arith, same, e.begun))) (inr (refl, refl)) tt
  process_tick_kept (x ∷ free) there =
      let up : All (IsUpToDate s) (x ∷ free) = subst (All (IsUpToDate s)) there kept.free in
      with_snapshot x free (ap (allocate_snapshot now) (begin-free_snaps t s ∙ there))
        (begin-IsReady t s e.next x kept.retained up.0 e.generations e.fresh e.leads)
        (subst
          (IsFirstReusable (begin t s).current_generation (add_tick t (begin t s).tick_history))
          there e.reusable)
        up.1
