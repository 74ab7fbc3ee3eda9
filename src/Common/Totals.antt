-- ===== src/Common/Totals.antt =====
-- Sums over lists and over association lists.
use Prim.Native.Nat.{ℕ, ◌+◌, ◌≤◌}
use mathlib.Core.Path.{◌≡◌, refl}
use mathlib.Core.List.{List, [], ◌∷◌, ◌++◌}
use mathlib.Core.Logic.{ite}
use mathlib.Core.Option.{none, some}
use native.Mathlib.Omega.{arith}
use native.Mathlib.Decide.{ℕ_discrete}
use arby.Common.Assoc.{lookup, assign, erase, Distinct, lookup-assign, lookup-erase}

abbrev pub total {ℓ} : {A : Type ℓ} → (A → ℕ) → List A → ℕ
total f [] = 0
total f (x ∷ m) = f x + total f m

pub total-append {ℓ} :
    {A : Type ℓ} (f : A → ℕ) (l m : List A) → total f (l ++ m) ≡ total f l + total f m
total-append f [] m = omega arith
total-append f (x ∷ l) m = ground (arith, total-append f l m)

pub total_le {ℓ} :
    {A : Type ℓ} (f g : A → ℕ) (m : List A) → ((x : A) → f x ≤ g x) → total f m ≤ total g m
total_le f g [] h = omega arith
total_le f g (x ∷ m) h = omega (arith, h x, total_le f g m h)

-- How often a number is in a list.
abbrev pub same : ℕ → ℕ → ℕ
same i j = ite (ℕ_discrete i j) 1 0

abbrev pub count : ℕ → List ℕ → ℕ
count i m = total (same i) m

module _ {V : Type 0} (f : ℕ × V → ℕ) (k : ℕ) where
  pub total-assign_new :
      (s : V) (m : List (ℕ × V))
      → lookup ℕ_discrete k m ≡ none
      → total f (assign ℕ_discrete k s m) ≡ total f m + f (k, s)
  unfolding lookup assign
  total-assign_new s [] h = omega arith
  total-assign_new s ((j, t) ∷ m) h = ground (arith, total-assign_new s m)

  pub total-assign_old :
      (s t : V) (m : List (ℕ × V))
      → lookup ℕ_discrete k m ≡ some t
      → total f (assign ℕ_discrete k s m) + f (k, t) ≡ total f m + f (k, s)
  unfolding lookup assign
  total-assign_old s t [] h = absurd (cc)
  total-assign_old s t ((j, u) ∷ m) h = ground (arith, total-assign_old s t m)

  erase_absent : (m : List (ℕ × V)) → lookup ℕ_discrete k m ≡ none → erase ℕ_discrete k m ≡ m
  unfolding lookup erase
  erase_absent [] h = refl
  erase_absent ((j, u) ∷ m) h = ground (arith, erase_absent m)

  pub total-erase :
      (t : V) (m : List (ℕ × V))
      → Distinct ℕ_discrete m
      → lookup ℕ_discrete k m ≡ some t
      → total f (erase ℕ_discrete k m) + f (k, t) ≡ total f m
  unfolding lookup erase
  total-erase t [] d h = absurd (cc)
  total-erase t ((j, u) ∷ m) d h = ground (arith, d.0, total-erase t m d.1, erase_absent m)

  pub le_total : (t : V) (m : List (ℕ × V)) → lookup ℕ_discrete k m ≡ some t → f (k, t) ≤ total f m
  unfolding lookup
  le_total t [] h = absurd (cc)
  le_total t ((j, u) ∷ m) h = ground (arith, le_total t m)

pub assign-Distinct :
    {V : Type 0} (k : ℕ) (s : V) (m : List (ℕ × V))
    → Distinct ℕ_discrete m
    → Distinct ℕ_discrete (assign ℕ_discrete k s m)
unfolding assign lookup
assign-Distinct k s [] d = (refl, tt)
assign-Distinct k s ((j, t) ∷ m) d =
    ground (arith, d.0, assign-Distinct k s m d.1, lookup-assign ℕ_discrete k j s m)

pub erase-Distinct :
    {V : Type 0} (k : ℕ) (m : List (ℕ × V))
    → Distinct ℕ_discrete m
    → Distinct ℕ_discrete (erase ℕ_discrete k m)
unfolding erase
erase-Distinct k [] d = tt
erase-Distinct k ((j, t) ∷ m) d =
    ground (arith, d.0, erase-Distinct k m d.1, lookup-erase ℕ_discrete k j m)
