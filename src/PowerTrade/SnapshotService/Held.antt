-- ===== src/PowerTrade/SnapshotService/Held.antt =====
-- What a tick keeps of the snapshots that were handed out before, and of those that came back.
use arby.Common.{
  ℕ, suc, ◌≤◌, ◌≡◌, refl, ◌⊎◌, inl, inr, ◌==◌, Bool-cases, Option-cases, List, [], ◌∷◌, none, some,
  false, arith,
}
use arby.Common.Result.{ok}
use arby.PowerTrade.Ticks.{TickRecord}
use arby.PowerTrade.OrderBook.{OrderBook, view}
use arby.PowerTrade.OrderBook
use arby.PowerTrade.OrderBook.BookSpec.{bid_before, offer_before}
use arby.PowerTrade.OrderBook.Books.{IsSoundBook}
use arby.PowerTrade.OrderBook.Assigned.{assign_side-IsSound}
use arby.PowerTrade.TickHistory.{TickHistory, remove_watermark}
use arby.PowerTrade.TickHistory.Sequences.{find, after, erase}
use arby.PowerTrade.TickHistory.Retained.{
  IsRetained, IsAbove, IsBelow, IsAscending, find-remove_watermark, remove_watermark-IsRetained,
  after-erase_below,
}
use arby.PowerTrade.SnapshotService.{Snapshot, catch_up}
use arby.PowerTrade.SnapshotService.Replay.{replay_all_total}
use arby.PowerTrade.SnapshotService.CatchUp.{IsReady, assign-view}

-- Fewer ticks may be kept, but after one that is kept the same.
pub record Trimmed (h h' : TickHistory TickRecord) : Type 0 where
  pub kept :
      (s : ℕ) (t : TickRecord)
      → find s h'.history ≡ some t
      → (find s h.history ≡ some t) × (after s h'.history ≡ after s h.history)
  pub next_sequence : h'.next_sequence ≡ h.next_sequence
  pub retained : IsRetained h'

remove_watermark-Trimmed :
    (w : ℕ) (h : TickHistory TickRecord) → IsRetained h → Trimmed h (remove_watermark w h)
unfolding remove_watermark find
remove_watermark-Trimmed w h r = record {
  kept = kept_by (erase w h.watermarks) refl;
  next_sequence = refl;
  retained = remove_watermark-IsRetained w h r;
}
  where
    kept_by :
        (ws : List ℕ)
        → erase w h.watermarks ≡ ws
        → (s : ℕ) (t : TickRecord) → find s (remove_watermark w h).history ≡ some t
        → (find s h.history ≡ some t) × (after s (remove_watermark w h).history ≡ after s h.history)
    kept_by [] none_left s t there = absurd (ground (arith, none_left, there))
    kept_by (lo ∷ ws) left s t there = ground (
      arith,
      left,
      there,
      (find-remove_watermark s w lo ws h r left).0,
      after-erase_below s lo h.history r.ascending,
    )

none_above :
    (n r : ℕ) (h : List (ℕ × TickRecord)) → n ≤ r → IsAbove r h → IsBelow (suc n) h → h ≡ []
none_above n r [] l a b = refl
none_above n r ((q, t) ∷ h) l a b = absurd (omega (arith, a.0, b.0, l))

-- Nothing is after the last tick.
pub after_last :
    (n : ℕ) (h : List (ℕ × TickRecord)) → IsAscending h → IsBelow (suc n) h → after n h ≡ []
unfolding after
after_last n [] up below = refl
after_last n ((r, t) ∷ h) up below = ground (arith, after_last n h up.1 below.1, none_above n r h)

-- A book with no order in its index can be overwritten.
abbrev pub HasNoIndex : OrderBook → Type 0
HasNoIndex b = (b.bids.cache ≡ []) × (b.offers.cache ≡ [])

assign-IsSoundBook :
    (target source : OrderBook)
    → HasNoIndex target
    → IsSoundBook source
    → IsSoundBook (OrderBook.assign target source)
unfolding OrderBook.assign
assign-IsSoundBook target source (no_bids, no_offers) v = record {
  bids = assign_side-IsSound bid_before target.bids source.bids v.bids no_bids;
  offers = assign_side-IsSound offer_before target.offers source.offers v.offers no_offers;
}

-- A released snapshot that the tick takes is brought up by a replay, or has no order in its index.
abbrev pub IsReusable : ℕ → TickHistory TickRecord → Snapshot → Type 0
IsReusable generation h x =
    ((x.generation ≡ generation) × ((t : TickRecord) × (find x.sequence h.history ≡ some t)))
    ⊎ HasNoIndex x.book

pub catch_up_kept :
    (generation : ℕ) (b : OrderBook) (h : TickHistory TickRecord) (x : Snapshot)
    → IsRetained h
    → IsSoundBook b
    → IsReady generation h (view b) x
    → IsReusable generation h x
    → (c : OrderBook) × (h' : TickHistory TickRecord) × (catch_up generation b h x ≡ ok (c, h'))
      × (view c ≡ view b)
      × IsSoundBook c
      × Trimmed h h'
unfolding catch_up
catch_up_kept generation b h x r v ready reusable = elim (Bool-cases (x.generation == generation)) [
  | inl same ↦ elim (Option-cases (find x.sequence h.history)) [
    | inl gone ↦ (
      OrderBook.assign x.book b,
      h,
      ground arith,
      assign-view x.book b,
      assign-IsSoundBook x.book b (no_index_gone gone reusable) v,
      untrimmed,
    )
    | inr (t, there) ↦
        let (s, l) = ready (ground arith) t there in
        let (c, replayed, s', w) =
          replay_all_total x.book (after x.sequence h.history) (view b) s l in
        (
          c,
          remove_watermark x.sequence h,
          ground arith,
          w,
          s',
          remove_watermark-Trimmed x.sequence h r,
        )
  ]
  | inr other ↦ (
    OrderBook.assign x.book b,
    h,
    ground arith,
    assign-view x.book b,
    assign-IsSoundBook x.book b (no_index_other other reusable) v,
    untrimmed,
  )
]
  where
    untrimmed : Trimmed h h
    untrimmed = record { kept = λ s t there. (there, refl); next_sequence = refl; retained = r }

    no_index_gone : find x.sequence h.history ≡ none → IsReusable generation h x → HasNoIndex x.book
    no_index_gone gone (inl (same, (t, there))) = absurd (ground (arith, gone, there))
    no_index_gone gone (inr none_there) = none_there

    no_index_other :
        (x.generation == generation) ≡ false → IsReusable generation h x → HasNoIndex x.book
    no_index_other other (inl (same, (t, there))) = absurd (ground (arith, other, same))
    no_index_other other (inr none_there) = none_there
