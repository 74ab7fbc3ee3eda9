-- ===== src/Entity/Service/Uses.antt =====
-- What keeps entities alive, and what the service knows of them.
use arby.Common.{
  ℕ, zero, suc, ◌+◌, ◌≡◌, ◌≤◌, ◌<◌, ◌≢◌, refl, ℕ_discrete, Bool, true, false, not, ◌==◌, ltb,
  if◌then◌else◌, some, List, [], ◌∷◌, ◌++◌, ite, arith, Option-cases, inl, inr,
}
use arby.Common.Assoc.{Distinct}
use arby.Common.Totals.{same, total, count, total-append}
use arby.Entity.Service.{
  EntityId, Call, Tasks, World, held, uses, remove, release, is_started, is_not_started, take_out,
}

-- The function objects that stop an entity.
abbrev pub stops : EntityId → Call × EntityId → ℕ
stops i (Call.stop_call, j) = same i j
stops i (c, j) = 0

abbrev pub to_stop : EntityId → Tasks → ℕ
to_stop i m = total (stops i) m

-- An entity that is started has one handle, or one function object that stops it; one that is
-- stopped has neither; and each that was made is in the cache or was destroyed.
pub record Counted (w : World) : Type 0 where
  pub once :
      (i : EntityId)
      → held i w.handles + to_stop i w.tasks ≡ (if is_started (w.entity_of i).estate then 1 else 0)
  pub made : (i : EntityId) → is_not_started (w.entity_of i).estate ≡ not (ltb i w.next)
  pub quiet : (i : EntityId) → w.next ≤ i → uses i w ≡ 0
  pub gone :
      (i : EntityId) → count i w.impl_cache + count i w.destroyed ≡ (if ltb i w.next then 1 else 0)
  pub apart : Distinct ℕ_discrete w.handles

-- It is in the cache, once, exactly while something keeps it alive.
abbrev pub IsKnown : World → EntityId → Type 0
IsKnown w i = count i w.impl_cache ≡ (if uses i w == 0 then 0 else 1)

abbrev pub Sound : World → Type 0
Sound w = Counted w × ((i : EntityId) → IsKnown w i)

pub count-remove :
    (i j : EntityId) (m : List EntityId) → count j (remove i m) ≡ ite (ℕ_discrete j i) 0 (count j m)
unfolding remove
count-remove i j [] = ground arith
count-remove i j (k ∷ m) = ground (arith, count-remove i j m)

-- The world without the entity.
abbrev ended : EntityId → World → World
ended i w = record w { impl_cache = remove i w.impl_cache; destroyed = w.destroyed ++ i ∷ [] }

pub release-Sound :
    (i : EntityId) (w : World)
    → i < w.next
    → Counted w
    → count i w.impl_cache ≡ 1
    → ((j : EntityId) → j ≢ i → IsKnown w j)
    → Sound (release i w)
unfolding release
release-Sound i w below counted there known = either (uses i w == 0) refl
  where
    either : (b : Bool) → (uses i w == 0) ≡ b → Sound (if b then ended i w else w)
    either true last = (
      record {
        once = counted.once;
        made = counted.made;
        quiet = counted.quiet;
        gone = λ j. ground (
          arith,
          counted.gone j,
          there,
          below,
          count-remove i j w.impl_cache,
          total-append (same j) w.destroyed (i ∷ []),
        );
        apart = counted.apart;
      },
      λ j. ground (arith, last, known j, count-remove i j w.impl_cache),
    )
    either false used = (counted, λ j. ground (arith, used, there, known j))

pub take_out-total :
    (f : Call × EntityId → ℕ) (n : ℕ) (m rest : Tasks) (t : Call × EntityId)
    → take_out n m ≡ some (t, rest)
    → total f m ≡ f t + total f rest
unfolding take_out
take_out-total f n [] rest t e = absurd (ground arith)
take_out-total f zero (u ∷ m) rest t e = ground arith
take_out-total f (suc n) (u ∷ m) rest t e = elim (Option-cases (take_out n m)) [
  | inl none_left ↦ absurd (ground (arith, none_left))
  | inr (p, found) ↦ ground (arith, found, take_out-total f n m p.1 p.0 found)
]
