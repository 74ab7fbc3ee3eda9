-- ===== src/PowerTrade/TickRecord/Reads.antt =====
-- What the members of an object say of the tick that is made of it.
use arby.Common.{
  ◌≡◌, ◌↔◌, refl, String, String_discrete, Option, some, Option-cases, inl, inr, List, [], ◌∷◌,
  arith,
}
use arby.Common.Assoc.{lookup}
use arby.Common.Result.{
  Fault, ok, or_fail, ◌>>=◌, first_ok, or_fail_ok, bad_cast, invalid_argument, bad_optional,
}
use arby.Trading.Types.{Side, Price, Qty, Timestamp}
use arby.PowerTrade.Ticks.{AddTick}
use arby.PowerTrade.TickRecord.{
  Json, side_of, Payload, text_at, to_price, to_qty, to_side, to_timestamp, entry, entries,
  array_at,
}

module _ (json : Json) where
  -- A member of the object is a text.
  abbrev pub Text : Payload json → String → String → Type 0
  Text p k s =
      (v : json.Value) × (lookup String_discrete k p ≡ some v) × (json.if_string v ≡ some s)

  -- A member is a text that is converted to a value.
  abbrev pub Reads {ℓ} : {A : Type ℓ} → (String → Option A) → Payload json → String → A → Type ℓ
  Reads f p k a = (s : String) × Text p k s × (f s ≡ some a)

  pub text_at-Text :
      (k : String) (p : Payload json) (s : String) → (text_at json k p ≡ ok s) ↔ Text p k s
  unfolding text_at
  text_at-Text k p s = elim (Option-cases (lookup String_discrete k p)) [
    | inl gone ↦ (λ e. absurd (ground (arith, gone)), λ t. absurd (ground (arith, gone)))
    | inr (v, found) ↦ (
      λ e. (v, found, or_fail_ok (json.if_string v) bad_cast (ground (arith, found))),
      λ (w, there, text). ground (arith, found, text, there),
    )
  ]

  converted-Reads :
      {A : Type 0} (f : String → Option A) (fault : Fault) (k : String) (p : Payload json) (a : A)
      → ((text_at json k p >>= λ s. or_fail (f s) fault) ≡ ok a) ↔ Reads f p k a
  converted-Reads f fault k p a = (
    λ e.
        let (s, made, read) = first_ok (text_at json k p) (λ s. or_fail (f s) fault) e in
        (s, (text_at-Text k p s).0 read, or_fail_ok (f s) fault made),
    λ (s, text, made). rw ((text_at-Text k p s).1 text, made) refl,
  )

  abbrev pub Times : Payload json → String → Timestamp → Type 0
  Times = Reads λ s. some (json.time_of s)

  pub to_price-Reads :
      (k : String) (p : Payload json) (a : Price)
      → (to_price json k p ≡ ok a) ↔ Reads json.price_of p k a
  unfolding to_price
  to_price-Reads = converted-Reads json.price_of invalid_argument

  pub to_qty-Reads :
      (k : String) (p : Payload json) (a : Qty) → (to_qty json k p ≡ ok a) ↔ Reads json.qty_of p k a
  unfolding to_qty
  to_qty-Reads = converted-Reads json.qty_of invalid_argument

  pub to_side-Reads :
      (k : String) (p : Payload json) (a : Side) → (to_side json k p ≡ ok a) ↔ Reads side_of p k a
  unfolding to_side
  to_side-Reads = converted-Reads side_of bad_optional

  pub to_timestamp-Times :
      (k : String) (p : Payload json) (a : Timestamp) → (to_timestamp json k p ≡ ok a) ↔ Times p k a
  unfolding to_timestamp
  to_timestamp-Times = converted-Reads (λ s. some (json.time_of s)) bad_cast

  abbrev pub DescribesEntry : Side → json.Value → AddTick → Type 0
  DescribesEntry side v t =
      (o : Payload json) × (json.if_object v ≡ some o)
      × Text o "orderid" t.order_id
      × Reads json.price_of o "price" t.price
      × Reads json.qty_of o "quantity" t.qty
      × Times o "utc_timestamp" t.timestamp
      × (t.side ≡ side)

  entry-parts :
      (side : Side) (v : json.Value) (t : AddTick)
      → (entry json side v ≡ ok t) ↔ (
          (o : Payload json) × (json.if_object v ≡ some o)
          × (text_at json "orderid" o ≡ ok t.order_id)
          × (to_price json "price" o ≡ ok t.price)
          × (to_qty json "quantity" o ≡ ok t.qty)
          × (to_timestamp json "utc_timestamp" o ≡ ok t.timestamp)
          × (t.side ≡ side))
  unfolding entry
  entry-parts side v t = elim (Option-cases (json.if_object v)) [
    | inl gone ↦ (λ e. absurd (ground (arith, gone)), λ h. absurd (ground (arith, gone)))
    | inr (o, found) ↦ (
      λ e. (
        o,
        found,
        ground (arith, found),
        ground (arith, found),
        ground (arith, found),
        ground (arith, found),
        ground (arith, found),
      ),
      λ (q, there, id, price, qty, time, same).
          ground (arith, found, there, id, price, qty, time, same),
    )
  ]

  entry-DescribesEntry :
      (side : Side) (v : json.Value) (t : AddTick)
      → (entry json side v ≡ ok t) ↔ DescribesEntry side v t
  entry-DescribesEntry side v t = (
    λ e.
        let (o, found, id, price, qty, time, same) = (entry-parts side v t).0 e in
        (
          o,
          found,
          (text_at-Text "orderid" o t.order_id).0 id,
          (to_price-Reads "price" o t.price).0 price,
          (to_qty-Reads "quantity" o t.qty).0 qty,
          (to_timestamp-Times "utc_timestamp" o t.timestamp).0 time,
          same,
        ),
    λ (o, found, id, price, qty, time, same). (entry-parts side v t).1 (
      o,
      found,
      (text_at-Text "orderid" o t.order_id).1 id,
      (to_price-Reads "price" o t.price).1 price,
      (to_qty-Reads "quantity" o t.qty).1 qty,
      (to_timestamp-Times "utc_timestamp" o t.timestamp).1 time,
      same,
    ),
  )

  -- The entries of an array, one by one.
  abbrev pub DescribesEntries : Side → List json.Value → List AddTick → Type 0
  DescribesEntries side [] [] = Unit
  DescribesEntries side [] (t ∷ ts) = ⊥
  DescribesEntries side (v ∷ vs) [] = ⊥
  DescribesEntries side (v ∷ vs) (t ∷ ts) = DescribesEntry side v t × DescribesEntries side vs ts

  pub entries-DescribesEntries :
      (side : Side) (vs : List json.Value) (ts : List AddTick)
      → (entries json side vs ≡ ok ts) ↔ DescribesEntries side vs ts
  unfolding entries
  entries-DescribesEntries side [] [] = (λ e. tt, λ h. refl)
  entries-DescribesEntries side [] (t ∷ ts) = (λ e. cc, λ h. absurd h)
  entries-DescribesEntries side (v ∷ vs) [] = (λ e. absurd (ground arith), λ h. absurd h)
  entries-DescribesEntries side (v ∷ vs) (t ∷ ts) =
      let (one, one') = entry-DescribesEntry side v t in
      let (more, more') = entries-DescribesEntries side vs ts in
      (λ e. (one (ground arith), more (ground arith)), λ (h, hs). rw (one' h, more' hs) refl)

  abbrev pub ArrayAt : Payload json → String → List json.Value → Type 0
  ArrayAt p k vs =
      (v : json.Value) × (lookup String_discrete k p ≡ some v) × (json.if_array v ≡ some vs)

  pub array_at-ArrayAt :
      (k : String) (p : Payload json) (vs : List json.Value)
      → (array_at json k p ≡ ok vs) ↔ ArrayAt p k vs
  unfolding array_at
  array_at-ArrayAt k p vs = elim (Option-cases (lookup String_discrete k p)) [
    | inl gone ↦ (λ e. absurd (ground (arith, gone)), λ t. absurd (ground (arith, gone)))
    | inr (v, found) ↦ (
      λ e. (v, found, or_fail_ok (json.if_array v) bad_cast (ground (arith, found))),
      λ (w, there, text). ground (arith, found, text, there),
    )
  ]
