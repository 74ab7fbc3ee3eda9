-- ===== src/PowerTrade/TickRecord/Describes.antt =====
-- The payloads that describe a tick.
use arby.Common.{◌≡◌, ◌↔◌, refl, List, arith}
use arby.Common.Result.{ok, first_ok}
use arby.Trading.Types.{buy, sell}
use arby.PowerTrade.Ticks.{AddTick, SnapshotTick, RemoveTick, ExecuteTick, TickRecord}
use arby.PowerTrade.TickRecord.{
  TickCode, Json, side_of, Payload, text_at, to_price, to_qty, to_side, to_timestamp, entries,
  array_at, make_snapshot, make_add, make_remove, make_execute, construct2,
}
use arby.PowerTrade.TickRecord.Reads.{
  Text, Reads, Times, ArrayAt, DescribesEntries, text_at-Text, to_price-Reads, to_qty-Reads,
  to_side-Reads, to_timestamp-Times, entries-DescribesEntries, array_at-ArrayAt,
}

module _ (json : Json) where
  -- The members that a payload has for a tick of the code. A tick of another kind is described by none.
  abbrev pub Describes : TickCode → Payload json → TickRecord → Type 0
  Describes TickCode.add p (TickRecord.add t) =
      Text json p "order_id" t.order_id
      × Reads json json.price_of p "price" t.price
      × Reads json json.qty_of p "quantity" t.qty
      × Times json p "utc_timestamp" t.timestamp
      × Reads json side_of p "side" t.side
  Describes TickCode.remove p (TickRecord.remove t) =
      Text json p "order_id" t.order_id
      × Times json p "utc_timestamp" t.timestamp
      × Reads json side_of p "side" t.side
  Describes TickCode.execute p (TickRecord.execute t) =
      Text json p "order_id" t.order_id
      × Reads json json.price_of p "price" t.price
      × Reads json json.qty_of p "quantity" t.qty
      × Times json p "utc_timestamp" t.timestamp
      × Reads json side_of p "side" t.side
  Describes TickCode.snapshot p (TickRecord.snapshot t) =
      ((buys : List json.Value) × ArrayAt json p "buy" buys × DescribesEntries json buy buys t.bids)
      × ((sells : List json.Value) × ArrayAt json p "sell" sells
          × DescribesEntries json sell sells t.offers)
  Describes code p t = ⊥

  make_add-parts :
      (p : Payload json) (t : AddTick)
      → (make_add json p ≡ ok t) ↔ (
          (text_at json "order_id" p ≡ ok t.order_id)
          × (to_price json "price" p ≡ ok t.price)
          × (to_qty json "quantity" p ≡ ok t.qty)
          × (to_timestamp json "utc_timestamp" p ≡ ok t.timestamp)
          × (to_side json "side" p ≡ ok t.side))
  unfolding make_add
  make_add-parts p t = (λ e. ground arith, λ h. ground arith)

  make_execute-parts :
      (p : Payload json) (t : ExecuteTick)
      → (make_execute json p ≡ ok t) ↔ (
          (text_at json "order_id" p ≡ ok t.order_id)
          × (to_price json "price" p ≡ ok t.price)
          × (to_qty json "quantity" p ≡ ok t.qty)
          × (to_timestamp json "utc_timestamp" p ≡ ok t.timestamp)
          × (to_side json "side" p ≡ ok t.side))
  unfolding make_execute
  make_execute-parts p t = (λ e. ground arith, λ h. ground arith)

  make_remove-parts :
      (p : Payload json) (t : RemoveTick)
      → (make_remove json p ≡ ok t) ↔ (
          (text_at json "order_id" p ≡ ok t.order_id)
          × (to_timestamp json "utc_timestamp" p ≡ ok t.timestamp)
          × (to_side json "side" p ≡ ok t.side))
  unfolding make_remove
  make_remove-parts p t = (λ e. ground arith, λ h. ground arith)

  make_snapshot-parts :
      (p : Payload json) (t : SnapshotTick)
      → (make_snapshot json p ≡ ok t) ↔ (
          ((buys : List json.Value) × (array_at json "buy" p ≡ ok buys)
            × (entries json buy buys ≡ ok t.bids))
          × ((sells : List json.Value) × (array_at json "sell" p ≡ ok sells)
              × (entries json sell sells ≡ ok t.offers)))
  unfolding make_snapshot
  make_snapshot-parts p t = (
    λ e.
        let (buys, bought, found) = first_ok (array_at json "buy" p) _ e in
        let (bids, selling, read) = first_ok (entries json buy buys) _ bought in
        let (sells, sold, there) = first_ok (array_at json "sell" p) _ selling in
        let (offers, made, last) = first_ok (entries json sell sells) _ sold in
        ((buys, found, ground arith), (sells, there, ground arith)),
    λ ((buys, found, bids), (sells, there, offers)). rw (found, bids, there, offers) refl,
  )

  add-Describes :
      (p : Payload json) (t : AddTick)
      → (make_add json p ≡ ok t) ↔ Describes TickCode.add p (TickRecord.add t)
  add-Describes p t = (
    λ e.
        let (id, price, qty, time, side) = (make_add-parts p t).0 e in
        (
          (text_at-Text json "order_id" p t.order_id).0 id,
          (to_price-Reads json "price" p t.price).0 price,
          (to_qty-Reads json "quantity" p t.qty).0 qty,
          (to_timestamp-Times json "utc_timestamp" p t.timestamp).0 time,
          (to_side-Reads json "side" p t.side).0 side,
        ),
    λ (id, price, qty, time, side). (make_add-parts p t).1 (
      (text_at-Text json "order_id" p t.order_id).1 id,
      (to_price-Reads json "price" p t.price).1 price,
      (to_qty-Reads json "quantity" p t.qty).1 qty,
      (to_timestamp-Times json "utc_timestamp" p t.timestamp).1 time,
      (to_side-Reads json "side" p t.side).1 side,
    ),
  )

  remove-Describes :
      (p : Payload json) (t : RemoveTick)
      → (make_remove json p ≡ ok t) ↔ Describes TickCode.remove p (TickRecord.remove t)
  remove-Describes p t = (
    λ e.
        let (id, time, side) = (make_remove-parts p t).0 e in
        (
          (text_at-Text json "order_id" p t.order_id).0 id,
          (to_timestamp-Times json "utc_timestamp" p t.timestamp).0 time,
          (to_side-Reads json "side" p t.side).0 side,
        ),
    λ (id, time, side). (make_remove-parts p t).1 (
      (text_at-Text json "order_id" p t.order_id).1 id,
      (to_timestamp-Times json "utc_timestamp" p t.timestamp).1 time,
      (to_side-Reads json "side" p t.side).1 side,
    ),
  )

  execute-Describes :
      (p : Payload json) (t : ExecuteTick)
      → (make_execute json p ≡ ok t) ↔ Describes TickCode.execute p (TickRecord.execute t)
  execute-Describes p t = (
    λ e.
        let (id, price, qty, time, side) = (make_execute-parts p t).0 e in
        (
          (text_at-Text json "order_id" p t.order_id).0 id,
          (to_price-Reads json "price" p t.price).0 price,
          (to_qty-Reads json "quantity" p t.qty).0 qty,
          (to_timestamp-Times json "utc_timestamp" p t.timestamp).0 time,
          (to_side-Reads json "side" p t.side).0 side,
        ),
    λ (id, price, qty, time, side). (make_execute-parts p t).1 (
      (text_at-Text json "order_id" p t.order_id).1 id,
      (to_price-Reads json "price" p t.price).1 price,
      (to_qty-Reads json "quantity" p t.qty).1 qty,
      (to_timestamp-Times json "utc_timestamp" p t.timestamp).1 time,
      (to_side-Reads json "side" p t.side).1 side,
    ),
  )

  snapshot-Describes :
      (p : Payload json) (t : SnapshotTick)
      → (make_snapshot json p ≡ ok t) ↔ Describes TickCode.snapshot p (TickRecord.snapshot t)
  snapshot-Describes p t = (
    λ e.
        let ((buys, found, bids), (sells, there, offers)) = (make_snapshot-parts p t).0 e in
        (
          (
            buys,
            (array_at-ArrayAt json "buy" p buys).0 found,
            (entries-DescribesEntries json buy buys t.bids).0 bids,
          ),
          (
            sells,
            (array_at-ArrayAt json "sell" p sells).0 there,
            (entries-DescribesEntries json sell sells t.offers).0 offers,
          ),
        ),
    λ ((buys, found, bids), (sells, there, offers)). (make_snapshot-parts p t).1 (
      (
        buys,
        (array_at-ArrayAt json "buy" p buys).1 found,
        (entries-DescribesEntries json buy buys t.bids).1 bids,
      ),
      (
        sells,
        (array_at-ArrayAt json "sell" p sells).1 there,
        (entries-DescribesEntries json sell sells t.offers).1 offers,
      ),
    ),
  )

  -- A tick record is made of a payload, with no exception, exactly when the payload describes it: it is of the
  -- kind of its code, each field is the conversion of the text under its name, and the orders of a snapshot are
  -- the entries of the two arrays in their order, each on the side of its array.
  pub construct2-Describes :
      (code : TickCode) (p : Payload json) (t : TickRecord)
      → (construct2 json code p ≡ ok t) ↔ Describes code p t
  unfolding construct2
  construct2-Describes TickCode.snapshot p (TickRecord.snapshot t) =
      let (there, back) = snapshot-Describes p t in
      (λ e. there (ground arith), λ h. rw (back h) refl)
  construct2-Describes TickCode.snapshot p (TickRecord.add t) = (λ e. ground arith, λ h. absurd h)
  construct2-Describes TickCode.snapshot p (TickRecord.remove t) =
      (λ e. ground arith, λ h. absurd h)
  construct2-Describes TickCode.snapshot p (TickRecord.execute t) =
      (λ e. ground arith, λ h. absurd h)
  construct2-Describes TickCode.add p (TickRecord.snapshot t) = (λ e. ground arith, λ h. absurd h)
  construct2-Describes TickCode.add p (TickRecord.add t) =
      let (there, back) = add-Describes p t in (λ e. there (ground arith), λ h. rw (back h) refl)
  construct2-Describes TickCode.add p (TickRecord.remove t) = (λ e. ground arith, λ h. absurd h)
  construct2-Describes TickCode.add p (TickRecord.execute t) = (λ e. ground arith, λ h. absurd h)
  construct2-Describes TickCode.remove p (TickRecord.snapshot t) =
      (λ e. ground arith, λ h. absurd h)
  construct2-Describes TickCode.remove p (TickRecord.add t) = (λ e. ground arith, λ h. absurd h)
  construct2-Describes TickCode.remove p (TickRecord.remove t) =
      let (there, back) = remove-Describes p t in (λ e. there (ground arith), λ h. rw (back h) refl)
  construct2-Describes TickCode.remove p (TickRecord.execute t) = (λ e. ground arith, λ h. absurd h)
  construct2-Describes TickCode.execute p (TickRecord.snapshot t) =
      (λ e. ground arith, λ h. absurd h)
  construct2-Describes TickCode.execute p (TickRecord.add t) = (λ e. ground arith, λ h. absurd h)
  construct2-Describes TickCode.execute p (TickRecord.remove t) = (λ e. ground arith, λ h. absurd h)
  construct2-Describes TickCode.execute p (TickRecord.execute t) =
      let (there, back) = execute-Describes p t in
      (λ e. there (ground arith), λ h. rw (back h) refl)
