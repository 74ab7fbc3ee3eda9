-- ===== src/PowerTrade/Messages/Matchers.antt =====
-- What the matchers accept.
use arby.Common.{
  ◌≡◌, ◌↔◌, refl, subst, ap, String, String_discrete, true, Option, none, some, Option-cases, inl,
  inr, List, [], ◌∷◌, All, arith,
}
use mathlib.Core.List.{Permᴰ}
use mathlib.Core.List.Permᴰ
use arby.Common.Assoc.{lookup}
use arby.Common.Result.{ok, err, null_reference}
use arby.PowerTrade.Messages.{
  Hashing, Object, FieldSet, FieldMatcher, field_matcher, contains_all, matches, same_fields, equal,
  if_match,
}

-- What holds of every entry holds of every entry in another order.
All-Permᴰ {ℓ κ} : {A : Type ℓ} (P : A → Type κ) {l m : List A} → Permᴰ l m → All P l → All P m
All-Permᴰ P Permᴰ.nil h = tt
All-Permᴰ P (Permᴰ.cons e p) h = (subst P e h.0, All-Permᴰ P p h.1)
All-Permᴰ P (Permᴰ.swap e f) h = (subst P f h.1.0, (subst P e h.0, h.1.1))
All-Permᴰ P (Permᴰ.trans p q) h = All-Permᴰ P q (All-Permᴰ P p h)

module _ (Value : Type 0) (value_eq : Discrete Value)
    (if_object : Value → Option (Object Value)) where
  -- The object has each of the fields.
  abbrev pub HasFields : Object Value → FieldSet Value → Type 0
  HasFields r = All λ f. lookup String_discrete f.0 r ≡ some f.1

  contains_all-HasFields :
      (fs : FieldSet Value) (r : Object Value)
      → (contains_all Value value_eq if_object fs r ≡ true) ↔ HasFields r fs
  unfolding contains_all
  contains_all-HasFields [] r = (λ h. tt, λ h. refl)
  contains_all-HasFields ((k, lv) ∷ fs) r =
      let (there, back) = contains_all-HasFields fs r in
      elim (Option-cases (lookup String_discrete k r)) [
        | inl gone ↦ rw gone (λ h. absurd (cc), λ h. cc)
        | inr (rv, found) ↦ (λ h. ground (arith, found, there), λ h. ground (arith, found, back))
      ]

  -- If the sort only changes the order, a matcher accepts the objects that have each of the fields that it
  -- was made of, in whatever order these were given.
  pub matches-HasFields :
      (h : Hashing Value) (fs : FieldSet Value) (r : Object Value)
      → ((l : FieldSet Value) → Permᴰ (h.sort l) l)
      → (matches Value value_eq if_object (field_matcher Value value_eq if_object h fs) r ≡ true)
        ↔ HasFields r fs
  unfolding matches field_matcher
  matches-HasFields h fs r order =
      let (there, back) = contains_all-HasFields (h.sort fs) r in
      (λ e. All-Permᴰ _ (order fs) (there e), λ all. back (All-Permᴰ _ (Permᴰ.symm (order fs)) all))

  same_fields-eq : (l r : FieldSet Value) → same_fields Value value_eq if_object l r ≡ true → l ≡ r
  unfolding same_fields
  same_fields-eq [] [] e = refl
  same_fields-eq [] (y ∷ r) e = absurd (cc)
  same_fields-eq (x ∷ l) [] e = absurd (cc)
  same_fields-eq ((j, v) ∷ l) ((k, w) ∷ r) e = ground (arith, same_fields-eq l r)

  -- Matchers that compare equal accept the same objects.
  pub equal-matches :
      (l m : FieldMatcher Value) (r : Object Value)
      → equal Value value_eq if_object l m ≡ true
      → matches Value value_eq if_object l r ≡ matches Value value_eq if_object m r
  unfolding equal matches
  equal-matches l m r e =
      let same : l.required ≡ m.required = same_fields-eq l.required m.required (ground arith) in
      ap (λ fs. contains_all Value value_eq if_object fs r) same

  -- If the sort only changes the order, the result of `if_match` is an object exactly when the message has
  -- that one member under the type of the matcher and the object has each of the fields that the
  -- matcher was made of; and it is a read through a null pointer exactly when that one member is no
  -- object.
  pub if_match-some :
      (h : Hashing Value) (type : String) (fs : FieldSet Value) (o r : Object Value)
      → ((l : FieldSet Value) → Permᴰ (h.sort l) l)
      → ((if_match Value value_eq if_object
              (record { type = type; fields = field_matcher Value value_eq if_object h fs })
              o
            ≡ ok (some r))
          ↔ ((v : Value) × (o ≡ (type, v) ∷ []) × (if_object v ≡ some r) × HasFields r fs))
        × ((if_match Value value_eq if_object
                (record { type = type; fields = field_matcher Value value_eq if_object h fs })
                o
              ≡ err null_reference)
            ↔ ((v : Value) × (o ≡ (type, v) ∷ []) × (if_object v ≡ none)))
  unfolding if_match
  if_match-some h type fs [] r order =
      ((λ e. absurd (cc), λ f. absurd (cc)), (λ e. absurd (cc), λ f. absurd (cc)))
  if_match-some h type fs ((k, v) ∷ []) r order =
      let (there, back) = matches-HasFields h fs r order in
      (
        (
          λ e. (v, ground arith, ground arith, there (ground arith)),
          λ f. let (x, same, found, fits) = f in let fits' = back fits in ground arith,
        ),
        (λ e. (v, ground arith, ground arith), λ f. let (x, same, found) = f in ground arith),
      )
  if_match-some h type fs ((k, v) ∷ x ∷ o) r order =
      ((λ e. absurd (cc), λ f. absurd (cc)), (λ e. absurd (cc), λ f. absurd (cc)))
