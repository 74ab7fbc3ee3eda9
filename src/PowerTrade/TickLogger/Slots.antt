-- ===== src/PowerTrade/TickLogger/Slots.antt =====
-- Which slots of the connector a logger is behind.
use arby.Common.{
  ◌≡◌, refl, sym, subst, ap, ◌∙◌, String, String_discrete, Bool, true, false, ite, if◌then◌else◌,
  List, [], ◌∷◌, ◌++◌, arith, ◌≢◌, All,
}
use arby.PowerTrade.Messages.{Slot, SignalMap, signal}
use arby.PowerTrade.Messages.Dispatch.{slots_of, signal-watch_all}
use arby.Common.Assoc.{lookup}
use arby.PowerTrade.TickLogger.{start, without, stop}

-- The types of messages that are logged.
abbrev pub is_tick : String → Bool
is_tick t = ite (String_discrete t "snapshot") true (
    ite (String_discrete t "order_added") true (
      ite (String_discrete t "order_deleted") true
        (ite (String_discrete t "order_executed") true false)))

abbrev four : Slot → List (String × Slot)
four me =
    ("snapshot", me) ∷ ("order_added", me) ∷ ("order_deleted", me) ∷ ("order_executed", me) ∷ []

slots_of-four :
    (t : String) (me : Slot) → slots_of t (four me) ≡ (if is_tick t then me ∷ [] else [])
unfolding String_discrete
slots_of-four t me = elim (String_discrete t "snapshot") [
  | yes e ↦ subst (λ u. slots_of u (four me) ≡ (if is_tick u then me ∷ [] else [])) (sym e) refl
  | no n ↦ elim (String_discrete t "order_added") [
    | yes e ↦ subst (λ u. slots_of u (four me) ≡ (if is_tick u then me ∷ [] else [])) (sym e) refl
    | no n' ↦ elim (String_discrete t "order_deleted") [
      | yes e ↦ subst (λ u. slots_of u (four me) ≡ (if is_tick u then me ∷ [] else [])) (sym e) refl
      | no n'' ↦ ground (arith, n, n', n'')
    ]
  ]
]

pub signal-start :
    (t : String) (me : Slot) (m : SignalMap)
    → signal t (start me m) ≡ signal t m ++ (if is_tick t then me ∷ [] else [])
unfolding start
signal-start t me m =
    signal-watch_all t (four me) m ∙ ap (λ l. signal t m ++ l) (slots_of-four t me)

without-IsOther : (me : Slot) (slots : List Slot) → All (λ s. s ≢ me) (without me slots)
unfolding without
without-IsOther me [] = tt
without-IsOther me (s ∷ slots) = ground (arith, without-IsOther me slots)

-- After the end of a logger no signal has its slot.
pub stop-IsOther :
    (t : String) (me : Slot) (m : SignalMap) → All (λ s. s ≢ me) (signal t (stop me m))
unfolding stop lookup
stop-IsOther t me [] = tt
stop-IsOther t me ((type, slots) ∷ m) =
    ground (arith, without-IsOther me slots, stop-IsOther t me m)
