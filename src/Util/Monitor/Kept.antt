-- ===== src/Util/Monitor/Kept.antt =====
-- Which instances are in the set of a monitor.
use arby.Common.{
  ℕ, ◌≡◌, ◌≢◌, ◌≤◌, ◌<◌, refl, String, String_discrete, ℕ_discrete, ltb, if◌then◌else◌, ite, none,
  some, List, [], ◌∷◌, ◌++◌, All, arith,
}
use arby.Common.Assoc.{lookup, erase, Distinct}
use arby.Common.Totals.{same, total}
use arby.Util.Monitor.{Node, Instance, Sentinel, SentinelId, Monitor, find_same}

-- The sentinels that are to erase the node, and the nodes at the address.
abbrev pub keeps : Node → SentinelId × Sentinel → ℕ
keeps n (k, s) = if s.valid then same n s.iter else 0

abbrev pub is_at : Node → Node × Instance → ℕ
is_at n (j, i) = same n j

abbrev pub IsBelow : List (String × ℕ) → Node × Instance → Type 0
IsBelow index (n, i) =
    i.version < (elim (lookup String_discrete i.name index) [ none ↦ 0 | some v ↦ v ])

-- Another name or another version.
abbrev pub Differs : Node × Instance → Node × Instance → Type 0
Differs (n, i) (m, j) = i.name ≡ j.name → i.version ≢ j.version

abbrev pub AllDiffer : List (Node × Instance) → Type 0
AllDiffer [] = Unit
AllDiffer (x ∷ m) = All (Differs x) m × AllDiffer m

pub record IsKept (m : Monitor) : Type 0 where
  pub once : (n : Node) → total (keeps n) m.sentinels ≡ total (is_at n) m.instances_
  pub single : (n : Node) → total (is_at n) m.instances_ ≤ (if ltb n m.next_node then 1 else 0)
  pub below : All (IsBelow m.next_index_) m.instances_
  pub differ : AllDiffer m.instances_
  pub apart : Distinct ℕ_discrete m.sentinels

pub All-snoc {ℓ κ} :
    {A : Type ℓ} (P : A → Type κ) (xs : List A) (x : A) → All P xs → P x → All P (xs ++ x ∷ [])
All-snoc P [] x all h = (h, tt)
All-snoc P (y ∷ xs) x all h = (all.0, All-snoc P xs x all.1 h)

pub AllDiffer-snoc :
    (x : Node × Instance) (m : List (Node × Instance))
    → AllDiffer m
    → All (λ y. Differs y x) m
    → AllDiffer (m ++ x ∷ [])
AllDiffer-snoc x [] d h = (tt, tt)
AllDiffer-snoc x (y ∷ m) d h = (All-snoc (Differs y) m x d.0 h.0, AllDiffer-snoc x m d.1 h.1)

pub All-erase :
    (P : Node × Instance → Type 0) (n : Node) (m : List (Node × Instance))
    → All P m
    → All P (erase ℕ_discrete n m)
unfolding erase
All-erase P n [] all = tt
All-erase P n ((j, i) ∷ m) all = ground (arith, all.0, All-erase P n m all.1)

pub AllDiffer-erase :
    (n : Node) (m : List (Node × Instance)) → AllDiffer m → AllDiffer (erase ℕ_discrete n m)
unfolding erase
AllDiffer-erase n [] d = tt
AllDiffer-erase n ((j, i) ∷ m) d =
    ground (arith, All-erase (Differs (j, i)) n m d.0, AllDiffer-erase n m d.1)

pub is_at-erase :
    (n j : Node) (m : List (Node × Instance))
    → total (is_at j) (erase ℕ_discrete n m) ≡ ite (ℕ_discrete j n) 0 (total (is_at j) m)
unfolding erase
is_at-erase n j [] = ground arith
is_at-erase n j ((k, i) ∷ m) = ground (arith, is_at-erase n j m)

-- A later version is new.
pub find_same-none :
    (i : Instance) (index : List (String × ℕ)) (m : List (Node × Instance))
    → i.version ≡ (elim (lookup String_discrete i.name index) [ none ↦ 0 | some v ↦ v ])
    → All (IsBelow index) m
    → find_same i m ≡ none
unfolding find_same
find_same-none i index [] e all = refl
find_same-none i index ((n, j) ∷ m) e all = elim (String_discrete i.name j.name) [
  | yes same_name ↦ ground (arith, same_name, e, all.0, find_same-none i index m e all.1)
  | no other ↦ ground (arith, other, find_same-none i index m e all.1)
]

-- A node that a sentinel is to erase is there.
pub lookup-is_at :
    (n : Node) (m : List (Node × Instance))
    → 0 < total (is_at n) m
    → (i : Instance) × (lookup ℕ_discrete n m ≡ some i)
unfolding lookup
lookup-is_at n [] h = absurd (omega (arith, h))
lookup-is_at n ((j, i) ∷ m) h = elim (ℕ_discrete n j) [
  | yes e ↦ (i, ground (arith, e))
  | no other ↦
      let (k, found) = lookup-is_at n m (ground (arith, h, other)) in
      (k, ground (arith, found, other))
]
