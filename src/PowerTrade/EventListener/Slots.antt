-- ===== src/PowerTrade/EventListener/Slots.antt =====
-- Which listeners are connected.
use arby.Common.{
  ℕ, ◌+◌, ◌≡◌, ◌≤◌, String, ℕ_discrete, ltb, if◌then◌else◌, ite, Option, none, some, List, [], ◌∷◌,
  arith,
}
use arby.Common.Assoc.{lookup, assign, Distinct}
use arby.Common.Totals.{same, total, count, total-append, total-assign_new, assign-Distinct}
use arby.PowerTrade.EventListener.{
  ImplId, HandleId, World, start, without, unwatched, stop, stop_impl,
}

abbrev pub has : ImplId → HandleId × Option ImplId → ℕ
has i (h, none) = 0
has i (h, some j) = same i j

abbrev pub held : ImplId → World → ℕ
held i w = total (has i) w.handles

abbrev pub watches : ImplId → String × ImplId → ℕ
watches i (type, j) = same i j

-- Each listener that a handle has is connected to both signals, once, and no other is.
pub record IsConnected (w : World) : Type 0 where
  pub status : (i : ImplId) → count i w.status_slots ≡ held i w
  pub message : (i : ImplId) → total (watches i) w.message_slots ≡ held i w
  pub single : (i : ImplId) → held i w ≤ (if ltb i w.next then 1 else 0)
  pub apart : Distinct ℕ_discrete w.handles

count-without :
    (i j : ImplId) (slots : List ImplId)
    → count j (without i slots) ≡ ite (ℕ_discrete j i) 0 (count j slots)
unfolding without
count-without i j [] = ground arith
count-without i j (k ∷ slots) = ground (arith, count-without i j slots)

watches-unwatched :
    (i j : ImplId) (slots : List (String × ImplId))
    → total (watches j) (unwatched i slots) ≡ ite (ℕ_discrete j i) 0 (total (watches j) slots)
unfolding unwatched
watches-unwatched i j [] = ground arith
watches-unwatched i j ((t, k) ∷ slots) = ground (arith, watches-unwatched i j slots)

-- A handle gives its listener up, and the others have what they had together.
pub give_up-IsConnected :
    (old : Option ImplId) (h : HandleId) (m : List (HandleId × Option ImplId)) (w : World)
    → IsConnected w
    → Distinct ℕ_discrete m
    → ((i : ImplId) → total (has i) m + has i (h, old) ≡ held i w)
    → IsConnected (record (stop_impl old w) { handles = m })
unfolding stop
give_up-IsConnected none h m w c apart given = record {
  status = λ i. ground (arith, c.status i, given i);
  message = λ i. ground (arith, c.message i, given i);
  single = λ i. ground (arith, c.single i, given i);
  apart = apart;
}
give_up-IsConnected (some k) h m w c apart given = record {
  status = λ i. ground (arith, c.status i, c.single i, given i, count-without k i w.status_slots);
  message =
      λ i. ground (arith, c.message i, c.single i, given i, watches-unwatched k i w.message_slots);
  single = λ i. ground (arith, c.single i, given i);
  apart = apart;
}

pub construct-IsConnected :
    (h : HandleId) (primary : String) (w : World)
    → IsConnected w
    → lookup ℕ_discrete h w.handles ≡ none
    → IsConnected (record (start w.next primary w) {
      next = w.next + 1;
      handles = assign ℕ_discrete h (some w.next) w.handles;
    })
unfolding start
construct-IsConnected h primary w c free =
    let n : ImplId = w.next in
    record {
      status = λ i. ground (
        arith,
        c.status i,
        total-append (same i) w.status_slots (n ∷ []),
        total-assign_new (has i) h (some n) w.handles free,
      );
      message = λ i. ground (
        arith,
        c.message i,
        total-append (watches i) w.message_slots ((primary, n) ∷ []),
        total-assign_new (has i) h (some n) w.handles free,
      );
      single = λ i. ground (arith, c.single i, total-assign_new (has i) h (some n) w.handles free);
      apart = assign-Distinct h (some n) w.handles c.apart;
    }
