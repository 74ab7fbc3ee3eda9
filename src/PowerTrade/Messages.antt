-- ===== src/PowerTrade/Messages.antt =====
-- arby/power_trade/detail/connector_impl.hpp and .cpp: inbound messages, what matches them, and the
-- signals that they are dispatched to. A value of Boost.JSON is a parameter with the operations that
-- the code calls; an object is its members in order.
pub mod Matchers
pub mod Dispatch
use arby.Common.{
  ℕ, ◌≡◌, String, String_discrete, Bool, true, false, ◌&&◌, ◌==◌, if◌then◌else◌, ite, Option, none,
  some, List, [], ◌∷◌, ◌++◌, length,
}
use arby.Common.Assoc.{lookup, assign}
use arby.Common.Result.{Result, ok, err, map_ok, null_reference, invalid_argument}
use arby.Trading.Types.{Timestamp}

-- What the code is built with: `std::sort` by the keys, the hash functions, and `hash_combine`.
pub record Hashing (Value : Type 0) : Type 0 where
  pub sort : List (String × Value) → List (String × Value)
  pub size_hash : ℕ → ℕ
  pub key_hash : String → ℕ
  pub value_hash : Value → ℕ
  pub combine : ℕ → ℕ → ℕ

abbrev pub Object : Type 0 → Type 0
Object Value = List (String × Value)

abbrev pub FieldSet : Type 0 → Type 0
FieldSet Value = List (String × Value)

pub record FieldMatcher (Value : Type 0) : Type 0 where
  pub required : FieldSet Value
  pub hash : ℕ

pub record MessageMatcher (Value : Type 0) : Type 0 where
  pub type : String
  pub fields : FieldMatcher Value

pub record InboundMessage (Value : Type 0) : Type 0 where
  pub timestamp : Timestamp
  pub buffer : String
  -- `none` is null.
  pub value : Option Value
  pub type : String
  pub object : Option (Object Value)

module _ (Value : Type 0) (value_eq : Discrete Value)
    (if_object : Value → Option (Object Value)) where
  -- `compute_hash`, from a seed on.
  unfoldable pub hash_from : Hashing Value → ℕ → FieldSet Value → ℕ
  hash_from h seed [] = seed
  hash_from h seed ((k, v) ∷ fs) =
      hash_from h (h.combine (h.combine seed (h.key_hash k)) (h.value_hash v)) fs

  unfoldable pub compute_hash : Hashing Value → FieldSet Value → ℕ
  compute_hash h fs = hash_from h (h.size_hash (length fs)) fs

  unfoldable pub field_matcher : Hashing Value → FieldSet Value → FieldMatcher Value
  field_matcher h required = record {
    required = h.sort required;
    hash = compute_hash h (h.sort required);
  }

  unfoldable pub contains_all : FieldSet Value → Object Value → Bool
  contains_all [] r = true
  contains_all ((k, lv) ∷ fs) r = elim (lookup String_discrete k r) [
    | none ↦ false
    | some rv ↦ ite (value_eq rv lv) (contains_all fs r) false
  ]

  unfoldable pub matches : FieldMatcher Value → Object Value → Bool
  matches m r = contains_all m.required r

  unfoldable pub same_fields : FieldSet Value → FieldSet Value → Bool
  same_fields [] [] = true
  same_fields [] (y ∷ r) = false
  same_fields (x ∷ l) [] = false
  same_fields ((j, v) ∷ l) ((k, w) ∷ r) =
      ite (String_discrete j k) (ite (value_eq v w) (same_fields l r) false) false

  unfoldable pub equal : FieldMatcher Value → FieldMatcher Value → Bool
  equal l r = l.hash == r.hash && same_fields l.required r.required

  -- A null pointer is `none`. The fields are looked for through the pointer of `if_object`, which may be
  -- null.
  unfoldable pub if_match : MessageMatcher Value → Object Value → Result (Option (Object Value))
  if_match m [] = ok none
  if_match m ((k, v) ∷ []) =
      ite (String_discrete k m.type)
        (elim (if_object v) [
          | none ↦ err null_reference
          | some o ↦ ok (if matches m.fields o then some o else none)
        ])
        (ok none)
  if_match m ((k, v) ∷ x ∷ o) = ok none

  unfoldable pub prepare : Timestamp → InboundMessage Value → InboundMessage Value
  prepare now m = record { timestamp = now; buffer = ""; value = none; type = ""; object = none }

  -- The outer object's first member names the type.
  abbrev pub first_member : Value → InboundMessage Value → InboundMessage Value
  first_member v m = elim (if_object v) [
    | none ↦ m
    | some [] ↦ m
    | some ((k, inner) ∷ rest) ↦ record m { type = k; object = if_object inner }
  ]

  -- `commit`, with the parser of the library, which throws where it has no value.
  unfoldable pub commit :
      (String → Option Value) → Timestamp → InboundMessage Value → Result (InboundMessage Value)
  commit parse now m = elim (parse m.buffer) [
    | none ↦ err invalid_argument
    | some v ↦ ok (first_member v (record m { timestamp = now; value = some v }))
  ]

  -- `object()`
  unfoldable pub object : InboundMessage Value → Result (Object Value)
  object m = elim m.object [ none ↦ err null_reference | some o ↦ ok o ]

abbrev pub Slot : Type 0
Slot = ℕ

abbrev pub SignalMap : Type 0
SignalMap = List (String × List Slot)

abbrev pub signal : String → SignalMap → List Slot
signal type m = elim (lookup String_discrete type m) [ none ↦ [] | some slots ↦ slots ]

-- `signal_map_[type]` makes an empty signal where there is none, and `connect` puts the slot behind the
-- others.
unfoldable pub watch_messages : String → Slot → SignalMap → SignalMap
watch_messages type slot m = assign String_discrete type (signal type m ++ slot ∷ []) m

-- The slots are called in order. One that throws ends the call: `throws` says which do.
unfoldable pub call_slots :
    {M : Type 0} → (Slot → M → Bool) → List Slot → M → List (Slot × M) × Result (Unit {0})
call_slots throws [] message = ([], ok tt)
call_slots throws (slot ∷ slots) message =
    let rest = call_slots throws slots message in
    if throws slot message
    then ((slot, message) ∷ [], err invalid_argument)
    else ((slot, message) ∷ rest.0, rest.1)

-- The signal of the message's type: the calls that are made, the signals, and whether any slot is there.
unfoldable pub emit :
    {Value : Type 0}
    → (Slot → InboundMessage Value → Bool)
    → InboundMessage Value
    → SignalMap
    → List Slot
    → List (Slot × InboundMessage Value) × SignalMap × Result Bool
emit throws message m [] = ([], assign String_discrete message.type [] m, ok false)
emit throws message m (slot ∷ slots) =
    let called = call_slots throws (slot ∷ slots) message in
    (called.0, m, map_ok (λ u. true) called.1)

unfoldable pub handle_message :
    {Value : Type 0}
    → (Slot → InboundMessage Value → Bool)
    → InboundMessage Value
    → SignalMap
    → List (Slot × InboundMessage Value) × SignalMap × Result Bool
handle_message throws message m = emit throws message m (signal message.type m)
