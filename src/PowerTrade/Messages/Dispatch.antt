-- ===== src/PowerTrade/Messages/Dispatch.antt =====
-- Who is called with a message.
use arby.Common.{
  Bool-cases, inl, inr, ◌≡◌, refl, ap, sym, ◌∙◌, String, String_discrete, Bool, true, false, not,
  ◌||◌, if◌then◌else◌, ite, List, [], ◌∷◌, ◌++◌, append_assoc, append-nil, map, is_empty, arith,
}
use arby.Common.Assoc.{lookup, lookup-assign}
use arby.Common.Result.{ok, err, map_ok, invalid_argument}
use arby.PowerTrade.Messages.{
  Slot, SignalMap, InboundMessage, signal, watch_messages, call_slots, emit, handle_message,
}

-- Subscriptions in the order in which they are made.
abbrev pub watch_all : List (String × Slot) → SignalMap → SignalMap
watch_all [] m = m
watch_all ((type, slot) ∷ ws) m = watch_all ws (watch_messages type slot m)

-- The slots that watch a type, in that order.
abbrev pub slots_of : String → List (String × Slot) → List Slot
slots_of t [] = []
slots_of t ((type, slot) ∷ ws) =
    let rest = slots_of t ws in ite (String_discrete t type) (slot ∷ rest) rest

signal-watch_messages :
    (t type : String) (slot : Slot) (m : SignalMap)
    → signal t (watch_messages type slot m)
      ≡ ite (String_discrete t type) (signal type m ++ slot ∷ []) (signal t m)
unfolding watch_messages
signal-watch_messages t type slot m =
    ground (arith, lookup-assign String_discrete type t (signal type m ++ slot ∷ []) m)

pub signal-watch_all :
    (t : String) (ws : List (String × Slot)) (m : SignalMap)
    → signal t (watch_all ws m) ≡ signal t m ++ slots_of t ws
signal-watch_all t [] m = sym (append-nil (signal t m))
signal-watch_all t ((type, slot) ∷ ws) m = ground (
  arith,
  signal-watch_all t ws (watch_messages type slot m),
  signal-watch_messages t type slot m,
  append_assoc (signal t m) (slot ∷ []) (slots_of t ws),
)

module _ {Value : Type 0} (throws : Slot → InboundMessage Value → Bool)
    (message : InboundMessage Value) where
  abbrev pub calls : List Slot → List (Slot × InboundMessage Value)
  calls = map λ s. (s, message)

  -- The slots up to the first that throws, with it.
  abbrev pub up_to_thrower : List Slot → List Slot
  up_to_thrower [] = []
  up_to_thrower (s ∷ slots) =
      let rest = up_to_thrower slots in if throws s message then s ∷ [] else s ∷ rest

  abbrev pub any_throws : List Slot → Bool
  any_throws [] = false
  any_throws (s ∷ slots) = throws s message || any_throws slots

  call_slots_lem :
      (slots : List Slot)
      → call_slots throws slots message
        ≡ (calls (up_to_thrower slots), if any_throws slots then err invalid_argument else ok tt)
  unfolding call_slots
  call_slots_lem [] = refl
  call_slots_lem (s ∷ slots) = elim (Bool-cases (throws s message)) [
    | inl e ↦ rw e refl
    | inr e ↦ rw (e, call_slots_lem slots) refl
  ]

  handled :
      (b c : Bool)
      → map_ok (λ (u : Unit {0}). c) (if b then err invalid_argument else ok tt)
        ≡ (if b then err invalid_argument else ok c)
  handled true c = refl
  handled false c = refl

  pub emit_lem :
      (m : SignalMap) (slots : List Slot)
      → ((emit throws message m slots).0 ≡ calls (up_to_thrower slots))
        × ((emit throws message m slots).2
            ≡ (if any_throws slots then err invalid_argument else ok (not (is_empty slots))))
        × ((t : String)
            → signal message.type m ≡ slots
            → signal t (emit throws message m slots).1 ≡ signal t m)
  unfolding emit
  emit_lem m [] =
      (refl, refl, λ t at. ground (arith, at, lookup-assign String_discrete message.type t [] m))
  emit_lem m (s ∷ slots) =
      let called = call_slots_lem (s ∷ slots) in
      (
        ap (λ c. c.0) called,
        ap (λ c. map_ok (λ u. true) c.1) called ∙ handled (any_throws (s ∷ slots)) true,
        λ t at. refl,
      )

  -- A message is given to those that watch its type, once each and in the order of their
  -- subscriptions, up to the first that throws. The exception leaves `handle_message`; if none throws, the message counts as
  -- handled if there is one that watches. The signals stay.
  pub handle_message-calls :
      (ws : List (String × Slot))
      → ((handle_message throws message (watch_all ws [])).0
          ≡ calls (up_to_thrower (slots_of message.type ws)))
        × ((handle_message throws message (watch_all ws [])).2 ≡ (
            if any_throws (slots_of message.type ws)
            then err invalid_argument
            else ok (not (is_empty (slots_of message.type ws)))))
        × ((t : String)
            → signal t (handle_message throws message (watch_all ws [])).1 ≡ slots_of t ws)
  unfolding handle_message lookup
  handle_message-calls ws =
      let watched = signal-watch_all message.type ws [] in
      let (called, result, kept) = emit_lem (watch_all ws []) (slots_of message.type ws) in
      (
        rw watched called,
        rw watched result,
        λ t. rw watched (kept t watched ∙ signal-watch_all t ws []),
      )
