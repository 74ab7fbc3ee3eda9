-- ===== src/PowerTrade/TickRecord.antt =====
-- arby/power_trade/tick_record.cpp: ticks from the objects of messages. The values of Boost.JSON are
-- a parameter, as are the conversions of texts to decimals, which may throw, and `atol` with the
-- conversion to a time point.
pub mod Reads
pub mod Describes
use arby.Common.{String, String_discrete, Option, none, some, List, [], ◌∷◌, ite}
use arby.Common.Assoc.{lookup}
use arby.Common.Result.{
  Result, ok, ◌>>=◌, or_fail, map_ok, out_of_range, bad_cast, invalid_argument, bad_optional,
}
use arby.Trading.Types.{Side, buy, sell, Price, Qty, Timestamp}
use arby.PowerTrade.Ticks.{AddTick, SnapshotTick, RemoveTick, ExecuteTick, TickRecord}
use arby.PowerTrade.Messages.{Object}

pub data TickCode : Type 0 where
  snapshot add remove execute : TickCode

pub record Json : Type 1 where
  pub Value : Type 0
  pub if_string : Value → Option String
  pub if_array : Value → Option (List Value)
  pub if_object : Value → Option (Object Value)
  pub price_of : String → Option Price
  pub qty_of : String → Option Qty
  pub time_of : String → Timestamp

-- `wise_enum::from_string`, with the names of the enumerators of `side_type`.
abbrev pub side_of : String → Option Side
side_of s =
    ite (String_discrete s "buy") (some buy) (ite (String_discrete s "sell") (some sell) none)

module _ (json : Json) where
  abbrev pub Payload : Type 0
  Payload = Object json.Value

  -- `p.at(k)` throws where there is no such member.
  abbrev pub at : String → Payload → Result json.Value
  at k p = or_fail (lookup String_discrete k p) out_of_range

  abbrev pub as_string : json.Value → Result String
  as_string v = or_fail (json.if_string v) bad_cast

  unfoldable pub text_at : String → Payload → Result String
  text_at k p = at k p >>= as_string

  unfoldable pub to_price : String → Payload → Result Price
  unfolding text_at
  to_price k p = text_at k p >>= λ s. or_fail (json.price_of s) invalid_argument

  unfoldable pub to_qty : String → Payload → Result Qty
  unfolding text_at
  to_qty k p = text_at k p >>= λ s. or_fail (json.qty_of s) invalid_argument

  -- The empty optional is dereferenced where the text names no side.
  unfoldable pub to_side : String → Payload → Result Side
  unfolding text_at
  to_side k p = text_at k p >>= λ s. or_fail (side_of s) bad_optional

  unfoldable pub to_timestamp : String → Payload → Result Timestamp
  unfolding text_at
  to_timestamp k p = text_at k p >>= λ s. ok (json.time_of s)

  -- An entry of the arrays of a snapshot, whose identifier has another name than that of a tick.
  unfoldable pub entry : Side → json.Value → Result AddTick
  entry side v = do
    oe ← or_fail (json.if_object v) bad_cast
    order_id ← text_at "orderid" oe
    price ← to_price "price" oe
    qty ← to_qty "quantity" oe
    timestamp ← to_timestamp "utc_timestamp" oe
    ok (record {
      order_id = order_id;
      price = price;
      qty = qty;
      timestamp = timestamp;
      side = side;
    })

  unfoldable pub entries : Side → List json.Value → Result (List AddTick)
  entries side [] = ok []
  entries side (v ∷ vs) = do t ← entry side v; ts ← entries side vs; ok (t ∷ ts)

  unfoldable pub array_at : String → Payload → Result (List json.Value)
  array_at k p = at k p >>= λ v. or_fail (json.if_array v) bad_cast

  unfoldable pub make_snapshot : Payload → Result SnapshotTick
  make_snapshot p = do
    buys ← array_at "buy" p
    bids ← entries buy buys
    sells ← array_at "sell" p
    offers ← entries sell sells
    ok (record { bids = bids; offers = offers })

  unfoldable pub make_add : Payload → Result AddTick
  make_add p = do
    order_id ← text_at "order_id" p
    price ← to_price "price" p
    qty ← to_qty "quantity" p
    timestamp ← to_timestamp "utc_timestamp" p
    side ← to_side "side" p
    ok (record {
      order_id = order_id;
      price = price;
      qty = qty;
      timestamp = timestamp;
      side = side;
    })

  unfoldable pub make_remove : Payload → Result RemoveTick
  make_remove p = do
    order_id ← text_at "order_id" p
    timestamp ← to_timestamp "utc_timestamp" p
    side ← to_side "side" p
    ok (record { order_id = order_id; timestamp = timestamp; side = side })

  unfoldable pub make_execute : Payload → Result ExecuteTick
  make_execute p = do
    order_id ← text_at "order_id" p
    price ← to_price "price" p
    qty ← to_qty "quantity" p
    timestamp ← to_timestamp "utc_timestamp" p
    side ← to_side "side" p
    ok (record {
      order_id = order_id;
      price = price;
      qty = qty;
      timestamp = timestamp;
      side = side;
    })

  unfoldable pub construct2 : TickCode → Payload → Result TickRecord
  construct2 TickCode.add p = map_ok TickRecord.add (make_add p)
  construct2 TickCode.remove p = map_ok TickRecord.remove (make_remove p)
  construct2 TickCode.execute p = map_ok TickRecord.execute (make_execute p)
  construct2 TickCode.snapshot p = map_ok TickRecord.snapshot (make_snapshot p)
