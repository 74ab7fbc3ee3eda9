-- ===== src/Asioex/Semaphore/Ring.antt =====
-- The ring of the waiters as a list of addresses, under the stores of link_before and unlink.
use arby.Common.{◌≡◌, ◌≢◌, subst, sym, List, [], ◌∷◌, ◌++◌, All, arith}
use arby.Asioex.Semaphore.{Address, head, store}

abbrev pub Away : Address → List Address → Type 0
Away a = All λ b. b ≢ a

-- From `x` the pointers lead through `l`, and back.
abbrev pub Leads : (Address → Address) → (Address → Address) → Address → List Address → Type 0
Leads next prev x [] = Unit
Leads next prev x (y ∷ l) = (next x ≡ y) × (prev y ≡ x) × Leads next prev y l

abbrev pub AllApart : List Address → Type 0
AllApart [] = Unit
AllApart (a ∷ l) = Away a l × AllApart l

pub Away-front : (a : Address) (l m : List Address) → Away a (l ++ m) → Away a l
Away-front a [] m away = tt
Away-front a (b ∷ l) m away = (away.0, Away-front a l m away.1)

module _ (next prev : Address → Address) where
  -- What stands before `z` is the last of the nodes that lead to it.
  prev-Away :
      (b x : Address) (l : List Address) (z : Address) (r : List Address)
      → Leads next prev x (l ++ z ∷ r)
      → Away b (x ∷ l)
      → prev z ≢ b
  prev-Away b x [] z r h away = ground arith
  prev-Away b x (y ∷ l) z r h away = prev-Away b y l z r h.2 away.1

  -- What stands behind `a` is none of the nodes before it.
  next-Away :
      (b : Address) (l : List Address) (a : Address) (r : List Address) (x : Address)
      → Leads next prev x (l ++ a ∷ (r ++ head ∷ []))
      → b ≢ head
      → Away b (l ++ a ∷ r)
      → next a ≢ b
  next-Away b [] a [] x h new away = ground arith
  next-Away b [] a (y ∷ r) x h new away = ground arith
  next-Away b (y ∷ l) a r x h new away = next-Away b l a r y h.2 new away.1

  store-Leads :
      (p n u v x : Address) (l : List Address) (z : Address)
      → Leads next prev x (l ++ z ∷ [])
      → Away p (x ∷ l)
      → Away n l
      → z ≢ n
      → Leads (store p u next) (store n v prev) x (l ++ z ∷ [])
  store-Leads p n u v x [] z h away_p away_n apart = ground arith
  store-Leads p n u v x (y ∷ l) z h away_p away_n apart =
      ground (arith, store-Leads p n u v y l z h.2 away_p.1 away_n.1 apart)

  -- `unlink` takes the node out of the ring.
  pub unlink-Leads :
      (x : Address) (xs : List Address) (a : Address) (ys : List Address)
      → Leads next prev x (xs ++ a ∷ (ys ++ head ∷ []))
      → Away head (xs ++ a ∷ ys)
      → Away x (xs ++ a ∷ ys)
      → AllApart (xs ++ a ∷ ys)
      → Leads
          (store (prev a) (next a) next)
          (store (next a) (prev a) prev)
          x
          (xs ++ (ys ++ head ∷ []))
  unlink-Leads x [] a [] h h0 hx d = ground arith
  unlink-Leads x [] a (y ∷ ys) h h0 hx d = ground (
    arith,
    store-Leads (prev a) (next a) (next a) (prev a) y ys head h.2.2
        (subst (λ b. Away b (y ∷ ys)) (sym h.1) hx.1) (subst (λ b. Away b ys) (sym h.2.0) d.1.0)
        (rw h.2.0 (ground arith)),
  )
  unlink-Leads x (y ∷ xs) a ys h h0 hx d = ground (
    arith,
    unlink-Leads y xs a ys h.2 h0.1 d.0 d.1,
    prev-Away x y xs a (ys ++ head ∷ []) h.2 (hx.0, Away-front x xs (a ∷ ys) hx.1),
    next-Away y xs a ys y h.2 h0.0 d.0,
  )

  -- `link_before` puts a new node before the head.
  pub link-Leads :
      (x : Address) (l : List Address) (a : Address)
      → Leads next prev x (l ++ head ∷ [])
      → a ≢ head
      → Away a (x ∷ l)
      → Away head l
      → Away x l
      → AllApart l
      → Leads
          (store (prev head) a (store a head next))
          (store head a (store a (prev head) prev))
          x
          (l ++ a ∷ head ∷ [])
  link-Leads x [] a h new away h0 hx d = ground arith
  link-Leads x (y ∷ l) a h new away h0 hx d = ground (
    arith,
    link-Leads y l a h.2 new away.1 h0.1 d.0 d.1,
    prev-Away x y l head [] h.2 (ground arith),
  )
