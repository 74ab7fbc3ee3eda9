-- ===== src/PowerTrade/TickHistory.antt =====
-- arby/power_trade/tick_history.hpp: the ticks that snapshots may still replay, by their sequence
-- numbers, and the watermarks of the snapshots. A `std::map` and a `std::multiset` are lists in the
-- order of their keys; sequence numbers are 64 bits wide.
pub mod Sequences
pub mod Retained
use arby.Common.{ℕ, ◌+◌, ◌-◌, ◌%◌, ◌^◌, List, [], ◌∷◌}
use Sequences.{emplace, erase_below, insert, erase}

abbrev pub u64_mod : ℕ
u64_mod = 2 ^ 64

pub record TickHistory {ℓ} (Tick : Type ℓ) : Type ℓ where
  pub next_sequence : ℕ
  pub history : List (ℕ × Tick)
  pub watermarks : List ℕ

abbrev pub empty_history {ℓ} : {Tick : Type ℓ} → TickHistory Tick
empty_history = record { next_sequence = 0; history = []; watermarks = [] }

module _ {ℓ} {Tick : Type ℓ} where
  abbrev pub reset : TickHistory Tick → TickHistory Tick
  reset h = record h { next_sequence = 0; history = []; watermarks = [] }

  unfoldable pub add_tick : Tick → TickHistory Tick → TickHistory Tick
  unfolding emplace
  add_tick t h = record h {
    next_sequence = (h.next_sequence + 1) % u64_mod;
    history = emplace h.next_sequence t h.history;
  }

  -- Of an empty history this is the greatest number of 64 bits.
  abbrev pub highest_sequence : TickHistory Tick → ℕ
  highest_sequence h = (h.next_sequence + u64_mod - 1) % u64_mod

  unfoldable pub add_watermark : ℕ → TickHistory Tick → TickHistory Tick
  unfolding insert
  add_watermark w h = record h { watermarks = insert w h.watermarks }

  -- Without watermarks nothing is kept, and else all from the lowest on.
  abbrev kept : List ℕ → List (ℕ × Tick) → List (ℕ × Tick)
  kept [] h = []
  kept (w ∷ ws) h = erase_below w h

  unfoldable pub remove_watermark : ℕ → TickHistory Tick → TickHistory Tick
  unfolding erase erase_below
  remove_watermark w h = record h {
    watermarks = erase w h.watermarks;
    history = kept (erase w h.watermarks) h.history;
  }
