-- ===== src/Entity/Keys/Maps.antt =====
-- What is found in the values of a key after they were written.
use arby.Common.{
  ◌≡◌, refl, ◌∙◌, ap, String, String_discrete, Option, none, some, Option-cases, inl, inr, [], ◌∷◌,
  ite, arith,
}
use arby.Common.Assoc.{lookup}
use arby.Entity.Keys.{Values, Library, put, emplace, emplace_all}

-- The first of the two that is there.
abbrev pub or_else : Option String → Option String → Option String
or_else (some v) other = some v
or_else none other = other

abbrev pub find : Values → String → Option String
find m k = lookup String_discrete k m

module _ (library : Library) where
  pub find-put :
      (k j v : String) (m : Values)
      → find (put library k v m) j ≡ ite (String_discrete j k) (some v) (find m j)
  unfolding put lookup
  find-put k j v [] = refl
  find-put k j v ((i, w) ∷ m) = ground (arith, find-put k j v m)

  find-emplace :
      (k j v : String) (m : Values)
      → find (emplace library k v m) j
        ≡ or_else (find m j) (ite (String_discrete j k) (some v) none)
  unfolding emplace
  find-emplace k j v m = elim (Option-cases (find m k)) [
    | inl gone ↦ ground (arith, gone, find-put k j v m)
    | inr (w, found) ↦ ground (arith, found)
  ]

  or_else_assoc : (a b c : Option String) → or_else (or_else a b) c ≡ or_else a (or_else b c)
  or_else_assoc none b c = refl
  or_else_assoc (some v) b c = refl

  or_else-find :
      (k j v : String) (m : Values)
      → or_else (ite (String_discrete j k) (some v) none) (find m j) ≡ find ((k, v) ∷ m) j
  unfolding lookup
  or_else-find k j v m = ground arith

  -- An entry of the target stays, and of the others the first comes.
  pub find-emplace_all :
      (other target : Values) (j : String)
      → find (emplace_all library other target) j ≡ or_else (find target j) (find other j)
  unfolding emplace_all lookup
  find-emplace_all [] target j = ground arith
  find-emplace_all ((k, v) ∷ other) target j =
      find-emplace_all other (emplace library k v target) j
      ∙ ap (λ x. or_else x (find other j)) (find-emplace k j v target)
      ∙ or_else_assoc (find target j) (ite (String_discrete j k) (some v) none) (find other j)
      ∙ ap (or_else (find target j)) (or_else-find k j v other)
