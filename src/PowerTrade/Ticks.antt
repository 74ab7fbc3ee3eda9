-- ===== src/PowerTrade/Ticks.antt =====
-- arby/power_trade/tick_record.hpp: the ticks that an order book is built from.
use arby.Common.{String, List}
use arby.Trading.Types.{Side, Price, Qty, Timestamp}

pub record AddTick : Type 0 where
  pub order_id : String
  pub price : Price
  pub qty : Qty
  pub timestamp : Timestamp
  pub side : Side

pub record SnapshotTick : Type 0 where
  pub bids : List AddTick
  pub offers : List AddTick

pub record RemoveTick : Type 0 where
  pub order_id : String
  pub timestamp : Timestamp
  pub side : Side

pub record ExecuteTick : Type 0 where
  pub order_id : String
  pub price : Price
  pub qty : Qty
  pub timestamp : Timestamp
  pub side : Side

-- `impl_var`, the variant behind a `tick_record`.
pub data TickRecord : Type 0 where
  add : AddTick → TickRecord
  remove : RemoveTick → TickRecord
  execute : ExecuteTick → TickRecord
  snapshot : SnapshotTick → TickRecord
