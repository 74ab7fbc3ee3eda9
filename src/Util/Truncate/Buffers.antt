-- ===== src/Util/Truncate/Buffers.antt =====
-- No two operations have one buffer, so each shows its own text.
use arby.Common.{
  ap, ◌∙◌, Option-cases, Bool-cases, inl, inr, ℕ, ◌+◌, ◌-◌, ◌≤◌, ◌≡◌, refl, subst, max, ℕ_discrete,
  ltb, if◌then◌else◌, ite, Option, none, some, List, [], ◌∷◌, ◌++◌, length, take, All, arith,
}
use arby.Util.Truncate.{
  Text, Address, StringList, TruncateOp, pop, write, dots, transform, view, drop, Thread, Event,
  handle,
}

-- The text of a truncated source.
abbrev pub shortened : Text → ℕ → Text
shortened sv limit = if ltb (max limit 3) (length sv) then take (max limit 3 - 3) sv ++ dots else sv

unfoldable pub one_if : Address → Address → ℕ
one_if a b = ite (ℕ_discrete a b) 1 0

-- How often a node is free, and how many operations have it.
unfoldable pub free : Address → List Address → ℕ
free a [] = 0
free a (b ∷ l) = one_if a b + free a l

unfoldable pub node_use : Address → Option Address → ℕ
node_use a none = 0
node_use a (some b) = one_if a b

unfoldable pub held : Address → List TruncateOp → ℕ
held a [] = 0
held a (op ∷ ops) = node_use a op.node + held a ops

held-append : (a : Address) (l m : List TruncateOp) → held a (l ++ m) ≡ held a l + held a m
unfolding held
held-append a [] m = omega arith
held-append a (op ∷ l) m = omega (arith, held-append a l m)

-- The live operations show what they should.
abbrev pub Shows : StringList → List TruncateOp → Type 0
Shows l = All λ op. view l op ≡ shortened op.source op.limit

pub record IsApart (t : Thread) : Type 0 where
  pub once : (a : Address) → free a t.buffers.first + held a t.live ≤ 1
  pub unborn : (a : Address) → t.buffers.fresh ≤ a → free a t.buffers.first + held a t.live ≡ 0
  pub shows : Shows t.buffers t.live

Shows-write :
    (a : Address) (s : Text) (l : StringList) (ops : List TruncateOp)
    → held a ops ≡ 0
    → Shows l ops
    → Shows (write a s l) ops
unfolding held node_use one_if view
Shows-write a s l [] none_held shows = tt
Shows-write a s l (op ∷ ops) none_held shows = ground (arith, Shows-write a s l ops, shows.0)

Shows-text :
    (l m : StringList) (ops : List TruncateOp)
    → ((a : Address) → m.text a ≡ l.text a)
    → Shows l ops
    → Shows m ops
unfolding view
Shows-text l m [] same shows = tt
Shows-text l m (op ∷ ops) same shows = (
  elim (Option-cases op.node) [
    | inl none_has ↦ ground (arith, none_has, shows.0)
    | inr (a, has) ↦ ground (arith, has, shows.0, same a)
  ],
  Shows-text l m ops same shows.1,
)

Shows-without :
    (l : StringList) (before : List TruncateOp) (op : TruncateOp) (behind : List TruncateOp)
    → Shows l (before ++ op ∷ behind)
    → Shows l (before ++ behind)
Shows-without l [] op behind shows = shows.1
Shows-without l (o ∷ before) op behind shows = (shows.0, Shows-without l before op behind shows.1)

-- The counts after a node is taken, free or new.
module _ (text : Address → Text) (fresh : Address) (ops : List TruncateOp) where
  abbrev of_first : List Address → StringList
  of_first first = record { text = text; first = first; fresh = fresh }

  pop-once :
      (first : List Address)
      → ((a : Address) → free a first + held a ops ≤ 1)
      → ((a : Address) → fresh ≤ a → free a first + held a ops ≡ 0)
      → (a : Address)
      → free a (pop (of_first first)).1.first + (one_if a (pop (of_first first)).0 + held a ops) ≤ 1
  unfolding pop free one_if
  pop-once [] once unborn a = ground (arith, once a, unborn a)
  pop-once (b ∷ first) once unborn a = ground (arith, once a)

  pop-unborn :
      (first : List Address)
      → ((a : Address) → fresh ≤ a → free a first + held a ops ≡ 0)
      → (a : Address) → (pop (of_first first)).1.fresh ≤ a
      → free a (pop (of_first first)).1.first + (one_if a (pop (of_first first)).0 + held a ops) ≡ 0
  unfolding pop free one_if
  pop-unborn [] unborn a old = ground (arith, unborn a)
  pop-unborn (b ∷ first) unborn a old = ground (arith, unborn a)

  -- A node that is taken is no other operation's.
  pop-alone :
      (first : List Address)
      → ((a : Address) → free a first + held a ops ≤ 1)
      → ((a : Address) → fresh ≤ a → free a first + held a ops ≡ 0)
      → held (pop (of_first first)).0 ops ≡ 0
  unfolding pop free one_if
  pop-alone [] once unborn = omega (arith, unborn fresh (omega arith))
  pop-alone (b ∷ first) once unborn = ground (arith, once b)

  pop-Shows :
      (first : List Address) → Shows (of_first first) ops → Shows (pop (of_first first)).1 ops
  unfolding pop
  pop-Shows [] shows = Shows-text _ _ ops (λ a. refl) shows
  pop-Shows (b ∷ first) shows = Shows-text _ _ ops (λ a. refl) shows

pub truncated-IsApart :
    (sv : Text) (limit : ℕ) (t : Thread) → IsApart t → IsApart (handle (Event.truncated sv limit) t)
unfolding handle transform held node_use view
truncated-IsApart sv limit t h = elim (Bool-cases (ltb (max limit 3) (length sv))) [
  | inl long ↦ rw long (
      let l = t.buffers in
      let p = (pop l).0 in
      record {
        once = pop-once l.text l.fresh t.live l.first h.once h.unborn;
        unborn = pop-unborn l.text l.fresh t.live l.first h.unborn;
        shows = (
          rw long (ground arith),
          Shows-write p _ (pop l).1 t.live (pop-alone l.text l.fresh t.live l.first h.once h.unborn)
              (pop-Shows l.text l.fresh t.live l.first h.shows),
        );
      })
  | inr short ↦ rw short (record {
    once = λ a. omega (arith, h.once a);
    unborn = λ a old. omega (arith, h.unborn a old);
    shows = (rw short refl, h.shows);
  })
]

pub dropped-IsApart :
    (before : List TruncateOp) (op : TruncateOp) (behind : List TruncateOp) (t : Thread)
    → t.live ≡ before ++ op ∷ behind
    → IsApart t
    → IsApart (handle (Event.dropped before op behind) t)
unfolding handle drop free held node_use
dropped-IsApart before op behind t e h =
    let count : (a : Address)
        → held a t.live ≡ held a before + (node_use a op.node + held a behind) =
      λ a. ap (held a) e ∙ held-append a before (op ∷ behind) in
    let rest : (a : Address) → held a (before ++ behind) ≡ held a before + held a behind =
      λ a. held-append a before behind in
    let shows = Shows-without t.buffers before op behind (subst (Shows t.buffers) e h.shows) in
    elim (Option-cases op.node) [
      | inl none_has ↦ rw none_has (record {
        once = λ a. omega (arith, h.once a, count a, rest a);
        unborn = λ a old. omega (arith, h.unborn a old, count a, rest a);
        shows = shows;
      })
      | inr (b, has) ↦ rw has (record {
        once = λ a. ground (arith, has, h.once a, count a, rest a);
        unborn = λ a old. ground (arith, has, h.unborn a old, count a, rest a);
        shows = Shows-text t.buffers _ (before ++ behind) (λ a. refl) shows;
      })
    ]
