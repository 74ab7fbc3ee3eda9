-- ===== src/PowerTrade/EventListener/Moves.antt =====
-- What the moves of a listener keep.
use arby.Common.{
  ◌≡◌, ◌≢◌, refl, sym, subst, ℕ_discrete, Bool, true, false, Option, none, some, List, [], ◌∷◌,
  arith,
}
use arby.Common.Assoc.{lookup, assign, lookup-assign}
use arby.Common.Result.{Result, ok, err}
use arby.Common.Totals.{total-assign_new, total-assign_old, assign-Distinct}
use arby.PowerTrade.EventListener.{
  ImplId, HandleId, World, stop, check, stop_impl, take_over, move_construct, move_assign, Op,
  constructed, move_constructed, move_assigned, destroyed, told_state, told_message, step,
}
use arby.PowerTrade.EventListener.Slots.{has, held, IsConnected, give_up-IsConnected}

-- What a debug build lets be moved by a constructor, assigned to and destroyed: a handle that was not
-- moved from.
abbrev pub IsUsable : Bool → Option ImplId → Type 0
IsUsable true none = ⊥
IsUsable true (some i) = Unit
IsUsable false impl = Unit

abbrev pub IsUsableAt : Bool → HandleId → World → Type 0
IsUsableAt debug h w =
    (impl : Option ImplId) × (lookup ℕ_discrete h w.handles ≡ some impl) × IsUsable debug impl

abbrev pub Enabled : Bool → Op → World → Type 0
Enabled debug (constructed h primary) w = lookup ℕ_discrete h w.handles ≡ none
Enabled debug (move_constructed h j) w =
    (lookup ℕ_discrete h w.handles ≡ none) × IsUsableAt debug j w
Enabled debug (move_assigned h j) w =
    IsUsableAt debug h w × ((impl : Option ImplId) × (lookup ℕ_discrete j w.handles ≡ some impl))
Enabled debug (destroyed h) w = IsUsableAt debug h w
Enabled debug (told_state s) w = Unit
Enabled debug (told_message type text) w = Unit

abbrev pub Then : (World → Type 0) → Result World → Type 0
Then P (ok w) = P w
Then P (err fault) = Unit

abbrev pub Legal : Bool → List Op → World → Type 0
Legal debug [] w = Unit
Legal debug (op ∷ ops) w = Enabled debug op w × Then (Legal debug ops) (step debug op w)

abbrev pub Goes : Result World → Type 0
Goes r = (w : World) × (r ≡ ok w) × IsConnected w

pub check_ok :
    (debug : Bool) (impl : Option ImplId) → IsUsable debug impl → check debug true impl ≡ ok tt
unfolding check
check_ok true none u = absurd u
check_ok true (some i) u = refl
check_ok false impl u = refl

pub made : (debug : Bool) (i : ImplId) → IsUsable debug (some i)
made true i = tt
made false i = tt

handles-stop_impl : (old : Option ImplId) (w : World) → (stop_impl old w).handles ≡ w.handles
unfolding stop
handles-stop_impl none w = refl
handles-stop_impl (some i) w = refl

pub move_construct-Goes :
    (debug : Bool) (h j : HandleId) (w : World)
    → IsConnected w
    → Enabled debug (move_constructed h j) w
    → Goes (move_construct debug true h j w)
unfolding move_construct
move_construct-Goes debug h j w c (free, (impl, there, usable)) = (
  take_over h j impl w,
  rw (there, check_ok debug impl usable) refl,
  record {
    status = λ i. ground (arith, c.status i, kept i);
    message = λ i. ground (arith, c.message i, kept i);
    single = λ i. ground (arith, c.single i, kept i);
    apart =
        assign-Distinct h impl (assign ℕ_discrete j none w.handles)
          (assign-Distinct j none w.handles c.apart);
  },
)
  where
    kept : (i : ImplId) → held i (take_over h j impl w) ≡ held i w
    kept i = ground (
      arith,
      total-assign_old (has i) j none impl w.handles there,
      total-assign_new (has i) h impl (assign ℕ_discrete j none w.handles)
          (ground (arith, free, there, lookup-assign ℕ_discrete j h none w.handles)),
    )

-- One that is assigned to itself ends with no listener.
assign_self-Goes :
    (debug : Bool) (h : HandleId) (w : World) (old : Option ImplId)
    → IsConnected w
    → lookup ℕ_discrete h w.handles ≡ some old
    → IsUsable debug old
    → Goes (move_assign debug true h h w)
unfolding move_assign
assign_self-Goes debug h w old c here usable =
    let empty : lookup ℕ_discrete h (assign ℕ_discrete h none w.handles) ≡ some none =
      ground (arith, lookup-assign ℕ_discrete h h none w.handles) in
    (
      take_over h h none (stop_impl old w),
      rw (here, check_ok debug old usable, empty) refl,
      subst
          (λ m. IsConnected (record (stop_impl old w) {
            handles = assign ℕ_discrete h none (assign ℕ_discrete h none m);
          }))
          (sym (handles-stop_impl old w))
          (give_up-IsConnected old h (assign ℕ_discrete h none (assign ℕ_discrete h none w.handles))
            w c
            (assign-Distinct h none (assign ℕ_discrete h none w.handles)
              (assign-Distinct h none w.handles c.apart))
            (λ i. ground (
              arith,
              total-assign_old (has i) h none old w.handles here,
              total-assign_old (has i) h none none (assign ℕ_discrete h none w.handles) empty,
            ))),
    )

assign_other-Goes :
    (debug : Bool) (h j : HandleId) (w : World)
    → IsConnected w
    → h ≢ j
    → Enabled debug (move_assigned h j) w
    → Goes (move_assign debug true h j w)
unfolding move_assign
assign_other-Goes debug h j w c other ((old, here, usable), (impl, there)) =
    let there' : lookup ℕ_discrete j (assign ℕ_discrete h none w.handles) ≡ some impl =
      ground (arith, other, there, lookup-assign ℕ_discrete h j none w.handles) in
    (
      take_over h j impl (stop_impl old w),
      rw (here, check_ok debug old usable, there') refl,
      subst
          (λ m. IsConnected (record (stop_impl old w) {
            handles = assign ℕ_discrete h impl (assign ℕ_discrete j none m);
          }))
          (sym (handles-stop_impl old w))
          (give_up-IsConnected old h (assign ℕ_discrete h impl (assign ℕ_discrete j none w.handles))
            w c
            (assign-Distinct h impl (assign ℕ_discrete j none w.handles)
              (assign-Distinct j none w.handles c.apart))
            (λ i. ground (
              arith,
              total-assign_old (has i) j none impl w.handles there,
              total-assign_old (has i) h impl old (assign ℕ_discrete j none w.handles)
                  (ground (arith, other, here, lookup-assign ℕ_discrete j h none w.handles)),
            ))),
    )

pub move_assign-Goes :
    (debug : Bool) (h j : HandleId) (w : World)
    → IsConnected w
    → Enabled debug (move_assigned h j) w
    → Goes (move_assign debug true h j w)
move_assign-Goes debug h j w c e = elim (ℕ_discrete h j) [
  | no other ↦ assign_other-Goes debug h j w c other e
  | yes same ↦
      subst (λ k. Goes (move_assign debug true h k w)) same
        (assign_self-Goes debug h w e.0.0 c e.0.1 e.0.2)
]
