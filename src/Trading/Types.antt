-- ===== src/Trading/Types.antt =====
-- arby/trading/types.hpp. A price or a quantity is a `cpp_dec_float_50`: an exact decimal here,
-- counted in units of 10^-8, the last place that the exchange's feed carries. A time point is
-- counted in nanoseconds from `time_point::min()`.
use arby.Common.{ℕ, ◌^◌}
use arby.Common.Int.{ℤ, pos}

pub data Side : Type 0 where
  buy sell : Side

abbrev pub Price : Type 0
Price = ℤ

abbrev pub Qty : Type 0
Qty = ℤ

abbrev pub Timestamp : Type 0
Timestamp = ℕ

-- The quantity 1, that a `true` is converted to.
abbrev pub unit_qty : Qty
unit_qty = pos 100_000_000

abbrev pub time_min : Timestamp
time_min = 0

abbrev pub epoch : Timestamp
epoch = 2 ^ 63
