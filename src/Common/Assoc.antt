-- ===== src/Common/Assoc.antt =====
-- A map from keys to values as an association list: `std::map` and `std::unordered_map` where the
-- program only looks up, assigns, erases and emplaces.
use mathlib.Core.Path.{◌≡◌, refl, subst}
use mathlib.Core.List.{List, [], ◌∷◌, ◌++◌}
use mathlib.Core.Logic.{ite, ◌≢◌}
use mathlib.Core.Option
use mathlib.Core.Option.{Option, none, some}
use arby.Common.Lists.{All}
use native.Mathlib.Omega.{arith}

module _ {ℓ} {K V : Type ℓ} (dec : Discrete K) where
  -- `m.find(k)`
  unfoldable pub lookup : K → List (K × V) → Option V
  lookup k [] = none
  lookup k ((j, v) ∷ m) = ite (dec k j) (some v) (lookup k m)

  -- `m[k] = v`
  unfoldable pub assign : K → V → List (K × V) → List (K × V)
  assign k v [] = (k, v) ∷ []
  assign k v ((j, w) ∷ m) = ite (dec k j) ((j, v) ∷ m) ((j, w) ∷ assign k v m)

  -- `m.emplace(k, v)`: an entry that is there stays.
  unfoldable pub emplace : K → V → List (K × V) → List (K × V)
  emplace k v [] = (k, v) ∷ []
  emplace k v ((j, w) ∷ m) = ite (dec k j) ((j, w) ∷ m) ((j, w) ∷ emplace k v m)

  -- `m.erase(k)`
  unfoldable pub erase : K → List (K × V) → List (K × V)
  erase k [] = []
  erase k ((j, w) ∷ m) = ite (dec k j) (erase k m) ((j, w) ∷ erase k m)

  pub lookup-assign :
      (k j : K) (v : V) (m : List (K × V))
      → lookup j (assign k v m) ≡ ite (dec j k) (some v) (lookup j m)
  unfolding lookup assign
  lookup-assign k j v [] = refl
  lookup-assign k j v ((i, w) ∷ m) = ground (arith, lookup-assign k j v m)

  pub lookup-emplace_self :
      (k : K) (v : V) (m : List (K × V)) → lookup k m ≡ none → lookup k (emplace k v m) ≡ some v
  unfolding lookup emplace
  lookup-emplace_self k v [] h = ground arith
  lookup-emplace_self k v ((i, w) ∷ m) h = ground (arith, lookup-emplace_self k v m)

  -- An entry that is there survives any emplace.
  pub lookup-emplace_old :
      (k j : K) (v w : V) (m : List (K × V))
      → lookup j m ≡ some w
      → lookup j (emplace k v m) ≡ some w
  unfolding lookup emplace
  lookup-emplace_old k j v w [] h = cc
  lookup-emplace_old k j v w ((i, u) ∷ m) h = ground (arith, lookup-emplace_old k j v w m)

  pub lookup-emplace_ne :
      (k j : K) (v : V) (m : List (K × V)) → j ≢ k → lookup j (emplace k v m) ≡ lookup j m
  unfolding lookup emplace
  lookup-emplace_ne k j v [] h = ground arith
  lookup-emplace_ne k j v ((i, u) ∷ m) h = ground (arith, lookup-emplace_ne k j v m)

  pub lookup-emplace :
      (k j : K) (v : V) (m : List (K × V))
      → lookup j (emplace k v m) ≡ ite (dec j k) (some (Option.get_or (lookup k m) v)) (lookup j m)
  unfolding lookup emplace
  lookup-emplace k j v [] = ground arith
  lookup-emplace k j v ((i, w) ∷ m) = ground (arith, lookup-emplace k j v m)

  pub lookup-erase :
      (k j : K) (m : List (K × V)) → lookup j (erase k m) ≡ ite (dec j k) none (lookup j m)
  unfolding lookup erase
  lookup-erase k j [] = ground arith
  lookup-erase k j ((i, w) ∷ m) = ground (arith, lookup-erase k j m)

  -- Through an iterator to `k`: change the entry in place, or erase it.
  unfoldable pub alter : K → (V → Option V) → List (K × V) → List (K × V)
  alter k f [] = []
  alter k f ((j, v) ∷ m) =
      ite (dec k j) (elim (f v) [ none ↦ m | some w ↦ (j, w) ∷ m ]) ((j, v) ∷ alter k f m)

  pub lookup-alter_ne :
      (k j : K) (f : V → Option V) (m : List (K × V)) → j ≢ k → lookup j (alter k f m) ≡ lookup j m
  unfolding lookup alter
  lookup-alter_ne k j f [] h = refl
  lookup-alter_ne k j f ((i, v) ∷ m) h = ground (arith, lookup-alter_ne k j f m)

  pub lookup-alter_absent :
      (k j : K) (f : V → Option V) (m : List (K × V))
      → lookup j m ≡ none
      → lookup j (alter k f m) ≡ none
  unfolding lookup alter
  lookup-alter_absent k j f [] h = refl
  lookup-alter_absent k j f ((i, v) ∷ m) h = ground (arith, lookup-alter_absent k j f m)

  -- No key stands twice.
  abbrev pub Distinct : List (K × V) → Type ℓ
  Distinct [] = Unit
  Distinct ((k, v) ∷ m) = (lookup k m ≡ none) × Distinct m

  pub alter-Distinct :
      (k : K) (f : V → Option V) (m : List (K × V)) → Distinct m → Distinct (alter k f m)
  unfolding alter
  alter-Distinct k f [] d = tt
  alter-Distinct k f ((j, v) ∷ m) d =
      ground (arith, alter-Distinct k f m d.1, lookup-alter_absent k j f m)

  pub lookup-alter_self :
      (k : K) (f : V → Option V) (m : List (K × V)) (v : V)
      → Distinct m
      → lookup k m ≡ some v
      → lookup k (alter k f m) ≡ f v
  unfolding lookup alter
  lookup-alter_self k f [] v d h = cc
  lookup-alter_self k f ((j, w) ∷ m) v d h = ground (arith, lookup-alter_self k f m v d.1)

  pub lookup-append :
      (k : K) (m n : List (K × V)) → lookup k m ≡ none → lookup k (m ++ n) ≡ lookup k n
  unfolding lookup
  lookup-append k [] n h = refl
  lookup-append k ((j, w) ∷ m) n h = ground (arith, lookup-append k m n)

  pub lookup-append_hit :
      (k : K) (m n : List (K × V)) (v : V) → lookup k m ≡ some v → lookup k (m ++ n) ≡ some v
  unfolding lookup
  lookup-append_hit k [] n v h = cc
  lookup-append_hit k ((j, w) ∷ m) n v h = ground (arith, lookup-append_hit k m n v)

  pub append-Distinct :
      (m : List (K × V)) (k : K) (v : V)
      → lookup k m ≡ none
      → Distinct m
      → Distinct (m ++ (k, v) ∷ [])
  unfolding lookup
  append-Distinct [] k v h d = (refl, tt)
  append-Distinct ((j, w) ∷ m) k v h d =
      (ground (arith, lookup-append j m ((k, v) ∷ [])), append-Distinct m k v (ground arith) d.1)

  pub All-lookup {κ} :
      (P : K × V → Type κ) (m : List (K × V)) (k : K) (v : V)
      → All P m
      → lookup k m ≡ some v
      → P (k, v)
  unfolding lookup
  All-lookup P [] k v h e = cc
  All-lookup P ((j, w) ∷ m) k v h e = elim (dec k j) [
    | yes hit ↦ subst P (ground arith) h.0
    | no miss ↦ All-lookup P m k v h.1 (ground arith)
  ]

  pub lookup-alter :
      (k j : K) (f : V → Option V) (m : List (K × V)) (v : V)
      → Distinct m
      → lookup k m ≡ some v
      → lookup j (alter k f m) ≡ ite (dec j k) (f v) (lookup j m)
  lookup-alter k j f m v d h =
      ground (arith, lookup-alter_self k f m v d h, lookup-alter_ne k j f m)

  -- A property of every lookup is one of every entry, where no key stands twice.
  pub All-of_lookup {κ} :
      (P : K × V → Type κ) (m : List (K × V))
      → Distinct m
      → ((k : K) (v : V) → lookup k m ≡ some v → P (k, v))
      → All P m
  unfolding lookup
  All-of_lookup P [] d h = tt
  All-of_lookup P ((j, w) ∷ m) d h =
      (h j w (ground arith), All-of_lookup P m d.1 (λ k v e. h k v (ground (arith, d.0))))
