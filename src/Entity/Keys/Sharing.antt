-- ===== src/Entity/Keys/Sharing.antt =====
-- The keys against keys that share nothing.
use arby.Common.{
  ◌≤◌, ◌<◌, ◌≡◌, refl, subst, fun_ext, ap, ◌∙◌, ℕ_discrete, String, Bool, true, false, ◌==◌, Option,
  none, some, Option-cases, inl, inr, List, [], ◌∷◌, ite, if◌then◌else◌, String_discrete, arith,
}
use arby.Common.Assoc.{lookup, lookup-assign, lookup-erase}
use arby.Common.Result.{Result, ok, err, ◌>>=◌, or_fail, map_ok, assertion_failed, null_reference}
use arby.Entity.Keys.{
  Values, World, Key, Address, Library, Op, owners, make, copy, drop, change, set, merge, lock,
  hash_value, sha1_digest, empty_world, step, run, put, emplace_all,
}
use arby.Entity.Keys.Maps.{find, or_else, find-put, find-emplace_all}

abbrev Fields : Type 0
Fields = String → Option String

-- What is found in each key that is there.
abbrev pub Independent : Type 0
Independent = Key → Option Fields

abbrev seen : World → Option Address → Option Fields
seen w none = none
seen w (some a) = some (find (w.impls a).values)

abbrev pub view : World → Independent
view w k = seen w (lookup ℕ_discrete k w.keys)

abbrev update : Key → Fields → Independent → Independent
update k f s j = ite (ℕ_discrete j k) (some f) (s j)

-- The specification: an operation changes its own key and no other, and none is ever locked.
abbrev pub act : Op → Independent → Result Independent
act (Op.made k values) s = ok (update k (find values) s)
act (Op.copied k j) s = or_fail (s j) null_reference >>= λ f. ok (update k f s)
act (Op.entered k key value) s = or_fail (s k) null_reference >>= λ f.
    ok (update k (λ j. ite (String_discrete j key) (some value) (f j)) s)
act (Op.merged k j) s = or_fail (s k) null_reference >>= λ f.
    or_fail (s j) null_reference >>= λ g. ok (update k (λ i. or_else (f i) (g i)) s)
act (Op.locked k) s = or_fail (s k) null_reference >>= λ f. err assertion_failed
act (Op.hashed k) s = or_fail (s k) null_reference >>= λ f. err assertion_failed
act (Op.digested k) s = or_fail (s k) null_reference >>= λ f. err assertion_failed
act (Op.dropped k) s =
    or_fail (s k) null_reference >>= λ f. ok (λ j. ite (ℕ_discrete j k) none (s j))

abbrev pub act_all : List Op → Independent → Result Independent
act_all [] s = ok s
act_all (e ∷ es) s = act e s >>= act_all es

-- The implementations of the keys are not locked, and no new one has their address.
abbrev Sound : World → Type 0
Sound w =
    (k : Key) (a : Address)
    → lookup ℕ_discrete k w.keys ≡ some a
    → (a < w.fresh) × ((w.impls a).locked ≡ false)

owners-found :
    (k : Key) (a : Address) (m : List (Key × Address))
    → lookup ℕ_discrete k m ≡ some a
    → 1 ≤ owners a m
unfolding owners lookup
owners-found k a [] h = absurd (cc)
owners-found k a ((j, b) ∷ m) h = ground (arith, owners-found k a m)

-- The address of one owner is that of no other key.
owners-sole :
    (k j : Key) (a : Address) (m : List (Key × Address))
    → owners a m ≡ 1
    → lookup ℕ_discrete k m ≡ some a
    → lookup ℕ_discrete j m ≡ some a
    → j ≡ k
unfolding owners lookup
owners-sole k j a [] one h g = absurd (cc)
owners-sole k j a ((i, b) ∷ m) one h g =
    ground (arith, owners-sole k j a m, owners-found k a m, owners-found j a m)

make-Sound : (k : Key) (values : Values) (w : World) → Sound w → Sound (make k values w)
unfolding make
make-Sound k values w sound j a h =
    ground (arith, lookup-assign ℕ_discrete k j w.fresh w.keys, sound j a)

view-make :
    (k : Key) (values : Values) (w : World) (j : Key)
    → Sound w
    → view (make k values w) j ≡ update k (find values) (view w) j
unfolding make
view-make k values w j sound = elim (Option-cases (lookup ℕ_discrete j w.keys)) [
  | inl gone ↦ ground (arith, gone, lookup-assign ℕ_discrete k j w.fresh w.keys)
  | inr (a, found) ↦
      ground (arith, found, (sound j a found).0, lookup-assign ℕ_discrete k j w.fresh w.keys)
]

if-Sound : (b : Bool) (v w : World) → Sound v → Sound w → Sound (if b then v else w)
if-Sound true v w h g = h
if-Sound false v w h g = g

change-Sound :
    (k : Key) (a : Address) (f : Values → Values) (w : World)
    → lookup ℕ_discrete k w.keys ≡ some a
    → Sound w
    → Sound (change k a f w)
unfolding change
change-Sound k a f w here sound =
    if-Sound (owners a w.keys == 1) _ _ (λ j b h. ground (arith, sound j b h, sound k a here))
      (make-Sound k (f (w.impls a).values) w sound)

view-change :
    (k : Key) (a : Address) (f : Values → Values) (w : World) (j : Key)
    → lookup ℕ_discrete k w.keys ≡ some a
    → Sound w
    → view (change k a f w) j ≡ update k (find (f (w.impls a).values)) (view w) j
unfolding change
view-change k a f w j here sound = elim (ℕ_discrete (owners a w.keys) 1) [
  | yes one ↦ elim (Option-cases (lookup ℕ_discrete j w.keys)) [
    | inl gone ↦ ground (arith, one, gone, here)
    | inr (b, found) ↦ ground (arith, one, found, here, owners-sole k j a w.keys one here)
  ]
  | no more ↦ ground (arith, more, view-make k (f (w.impls a).values) w j sound)
]

-- What becomes of a step: the views agree, and the result is sound.
abbrev Follows : Result World → Result Independent → Type 0
Follows (ok w) (ok s) = Sound w × (view w ≡ s)
Follows (err e) (err f) = e ≡ f
Follows (ok w) (err f) = ⊥
Follows (err e) (ok s) = ⊥

change-Follows :
    (k : Key) (a : Address) (f : Values → Values) (g : Fields) (w : World)
    → lookup ℕ_discrete k w.keys ≡ some a
    → Sound w
    → ((j : String) → find (f (w.impls a).values) j ≡ g j)
    → Follows (ok (change k a f w)) (ok (update k g (view w)))
change-Follows k a f g w here sound law = (
  change-Sound k a f w here sound,
  fun_ext λ j. view-change k a f w j here sound ∙ ap (λ h. update k h (view w) j) (fun_ext law),
)

module _ (library : Library) where
  step-Follows : (op : Op) (w : World) → Sound w → Follows (step library op w) (act op (view w))
  unfolding step copy drop set merge lock hash_value sha1_digest
  step-Follows (Op.made k values) w sound =
      (make-Sound k values w sound, fun_ext λ j. view-make k values w j sound)
  step-Follows (Op.copied k j) w sound = elim (Option-cases (lookup ℕ_discrete j w.keys)) [
    | inl gone ↦ rw gone refl
    | inr (a, found) ↦ rw found (
      λ i b h. ground (arith, lookup-assign ℕ_discrete k i a w.keys, sound i b, sound j a found),
      fun_ext λ i. ground (arith, lookup-assign ℕ_discrete k i a w.keys),
    )
  ]
  step-Follows (Op.entered k key value) w sound = elim (Option-cases (lookup ℕ_discrete k w.keys)) [
    | inl gone ↦ rw gone refl
    | inr (a, found) ↦ rw found (
        change-Follows k a (put library key value) _ w found sound
          (λ j. find-put library key j value (w.impls a).values))
  ]
  step-Follows (Op.merged k j) w sound = elim (Option-cases (lookup ℕ_discrete k w.keys)) [
    | inl gone ↦ rw gone refl
    | inr (a, found) ↦ elim (Option-cases (lookup ℕ_discrete j w.keys)) [
      | inl gone ↦ rw (found, gone) refl
      | inr (b, other) ↦
          rw (found, other, (sound k a found).1)
            (change-Follows k a (emplace_all library (w.impls b).values) _ w found sound
              (find-emplace_all library (w.impls b).values (w.impls a).values))
    ]
  ]
  step-Follows (Op.locked k) w sound = elim (Option-cases (lookup ℕ_discrete k w.keys)) [
    | inl gone ↦ rw gone refl
    | inr (a, found) ↦ rw (found, (sound k a found).1) refl
  ]
  step-Follows (Op.hashed k) w sound = elim (Option-cases (lookup ℕ_discrete k w.keys)) [
    | inl gone ↦ rw gone refl
    | inr (a, found) ↦ rw (found, (sound k a found).1) refl
  ]
  step-Follows (Op.digested k) w sound = elim (Option-cases (lookup ℕ_discrete k w.keys)) [
    | inl gone ↦ rw gone refl
    | inr (a, found) ↦ rw (found, (sound k a found).1) refl
  ]
  step-Follows (Op.dropped k) w sound = elim (Option-cases (lookup ℕ_discrete k w.keys)) [
    | inl gone ↦ rw gone refl
    | inr (a, found) ↦ rw found (
      λ i b h. ground (arith, lookup-erase ℕ_discrete k i w.keys, sound i b),
      fun_ext λ i. ground (arith, lookup-erase ℕ_discrete k i w.keys),
    )
  ]

  bind-Follows :
      (ops : List Op) (m : Result World) (s : Result Independent)
      → Follows m s
      → ((w : World) → Sound w → Follows (run library ops w) (act_all ops (view w)))
      → Follows (m >>= run library ops) (s >>= act_all ops)
  bind-Follows ops (ok w) (ok s) h rest =
      subst (λ s. Follows (run library ops w) (act_all ops s)) h.1 (rest w h.0)
  bind-Follows ops (err e) (err f) h rest = h
  bind-Follows ops (ok w) (err f) h rest = absurd h
  bind-Follows ops (err e) (ok s) h rest = absurd h

  run-Follows :
      (ops : List Op) (w : World) → Sound w → Follows (run library ops w) (act_all ops (view w))
  unfolding run
  run-Follows [] w sound = (sound, refl)
  run-Follows (op ∷ ops) w sound =
      bind-Follows ops (step library op w) (act op (view w)) (step-Follows op w sound)
        (run-Follows ops)

  to_equal : (m : Result World) (s : Result Independent) → Follows m s → map_ok view m ≡ s
  to_equal (ok w) (ok s) h = ap ok h.1
  to_equal (err e) (err f) h = ap err h
  to_equal (ok w) (err f) h = absurd h
  to_equal (err e) (ok s) h = absurd h

  -- From no keys, whatever operations follow: what is found in each key, or the fault, is what the
  -- specification says, in which keys share nothing and no key is ever locked.
  pub run-act_all :
      (ops : List Op) → map_ok view (run library ops empty_world) ≡ act_all ops (λ k. none)
  unfolding lookup
  run-act_all ops = to_equal _ _ (run-Follows ops empty_world (λ k a h. absurd (cc)))
