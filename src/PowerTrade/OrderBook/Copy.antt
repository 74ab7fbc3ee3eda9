-- ===== src/PowerTrade/OrderBook/Copy.antt =====
-- arby/power_trade/order_book.hpp, `operator=`: the copied ladder, whose nodes are new ones, and the
-- loops that enter its orders into the index.
use mathlib.Core.Option
use arby.Common.{
  ℕ, ◌+◌, ◌<◌, ◌≡◌, refl, Bool, Option, none, some, [], ◌∷◌, String, String_discrete, ℕ_discrete,
  All, Option-cases, inl, inr, arith,
}
use arby.Common.Int.{ℤ_discrete}
use arby.Common.Assoc.{lookup, emplace, Distinct, lookup-emplace, lookup-emplace_old}
use arby.Trading.Types.{Price}
use arby.PowerTrade.OrderBook.Side.{
  OrderQty, Orders, LevelData, Ladder, OrderCache, Iterators, copy_orders, copy_ladder,
  index_orders, index_ladder,
}
use arby.PowerTrade.OrderBook.Ordered.{IsFirst, IsOrdered}

module _ (base : ℕ) where
  abbrev pub copy_level : LevelData → LevelData
  copy_level d = record d { orders = copy_orders base d.orders }

  pub lookup-copy_ladder :
      (p : Price) (l : Ladder)
      → lookup ℤ_discrete p (copy_ladder base l) ≡ Option.map copy_level (lookup ℤ_discrete p l)
  unfolding lookup
  lookup-copy_ladder p [] = refl
  lookup-copy_ladder p ((q, d) ∷ l) = ground (arith, lookup-copy_ladder p l)

  pub lookup-copy_orders :
      (n : ℕ) (os : Orders)
      → lookup ℕ_discrete (base + n) (copy_orders base os) ≡ lookup ℕ_discrete n os
  unfolding lookup
  lookup-copy_orders n [] = refl
  lookup-copy_orders n ((m, o) ∷ os) = ground (arith, lookup-copy_orders n os)

  -- No copied node is an old one.
  pub lookup-copy_orders_old :
      (n : ℕ) (os : Orders) → n < base → lookup ℕ_discrete n (copy_orders base os) ≡ none
  unfolding lookup
  lookup-copy_orders_old n [] h = refl
  lookup-copy_orders_old n ((m, o) ∷ os) h = ground (arith, lookup-copy_orders_old n os h)

  pub copy_ladder-Distinct :
      (l : Ladder) → Distinct ℤ_discrete l → Distinct ℤ_discrete (copy_ladder base l)
  copy_ladder-Distinct [] h = tt
  copy_ladder-Distinct ((p, d) ∷ l) h =
      (ground (arith, lookup-copy_ladder p l, h.0), copy_ladder-Distinct l h.1)

  pub copy_orders-Distinct :
      (os : Orders) → Distinct ℕ_discrete os → Distinct ℕ_discrete (copy_orders base os)
  copy_orders-Distinct [] h = tt
  copy_orders-Distinct ((n, o) ∷ os) h =
      (ground (arith, lookup-copy_orders n os, h.0), copy_orders-Distinct os h.1)

  copy_ladder-IsFirst :
      (before : Price → Price → Bool) (p : Price) (l : Ladder)
      → IsFirst before p l
      → IsFirst before p (copy_ladder base l)
  copy_ladder-IsFirst before p [] h = tt
  copy_ladder-IsFirst before p (x ∷ l) h = (h.0, copy_ladder-IsFirst before p l h.1)

  pub copy_ladder-IsOrdered :
      (before : Price → Price → Bool) (l : Ladder)
      → IsOrdered before l
      → IsOrdered before (copy_ladder base l)
  copy_ladder-IsOrdered before [] h = tt
  copy_ladder-IsOrdered before ((p, d) ∷ l) h =
      (copy_ladder-IsFirst before p l h.0, copy_ladder-IsOrdered before l h.1)

-- The loops keep every entry of the index that is there.
pub lookup-index_orders_old :
    (p : Price) (cache : OrderCache) (os : Orders) (id : String) (it : Iterators)
    → lookup String_discrete id cache ≡ some it
    → lookup String_discrete id (index_orders p cache os) ≡ some it
unfolding index_orders
lookup-index_orders_old p cache [] id it h = h
lookup-index_orders_old p cache ((n, o) ∷ os) id it h =
    lookup-index_orders_old p (emplace String_discrete o.orderid (p, n) cache) os id it
      (lookup-emplace_old String_discrete o.orderid id (p, n) it cache h)

pub lookup-index_ladder_old :
    (cache : OrderCache) (l : Ladder) (id : String) (it : Iterators)
    → lookup String_discrete id cache ≡ some it
    → lookup String_discrete id (index_ladder cache l) ≡ some it
unfolding index_ladder
lookup-index_ladder_old cache [] id it h = h
lookup-index_ladder_old cache ((p, d) ∷ l) id it h =
    lookup-index_ladder_old (index_orders p cache d.orders) l id it
      (lookup-index_orders_old p cache d.orders id it h)

-- Where `expected` says where each order stands, the index says nothing else.
module _ (expected : String → Option Iterators) where
  abbrev pub Agrees : OrderCache → Type 0
  Agrees cache =
      (id : String) (it : Iterators)
      → lookup String_discrete id cache ≡ some it
      → expected id ≡ some it

  abbrev pub OrdersExpected : Price → Orders → Type 0
  OrdersExpected p os = All (λ (n : ℕ × OrderQty). expected n.1.orderid ≡ some (p, n.0)) os

  emplace-Agrees :
      (id : String) (it : Iterators) (cache : OrderCache)
      → expected id ≡ some it
      → Agrees cache
      → Agrees (emplace String_discrete id it cache)
  emplace-Agrees id it cache e h id' it' f =
      ground (arith, lookup-emplace String_discrete id id' it cache, h id' it')

  index_orders-Agrees :
      (p : Price) (cache : OrderCache) (os : Orders)
      → OrdersExpected p os
      → Agrees cache
      → Agrees (index_orders p cache os)
  unfolding index_orders
  index_orders-Agrees p cache [] e h = h
  index_orders-Agrees p cache ((n, o) ∷ os) e h =
      index_orders-Agrees p (emplace String_discrete o.orderid (p, n) cache) os e.1
        (emplace-Agrees o.orderid (p, n) cache e.0 h)

  abbrev pub LadderExpected : Ladder → Type 0
  LadderExpected = All λ x. OrdersExpected x.0 x.1.orders

  pub index_ladder-Agrees :
      (cache : OrderCache) (l : Ladder)
      → LadderExpected l
      → Agrees cache
      → Agrees (index_ladder cache l)
  unfolding index_ladder
  index_ladder-Agrees cache [] e h = h
  index_ladder-Agrees cache ((p, d) ∷ l) e h =
      index_ladder-Agrees (index_orders p cache d.orders) l e.1
        (index_orders-Agrees p cache d.orders e.0 h)

  lookup-emplace_agreeing :
      (id : String) (it : Iterators) (cache : OrderCache)
      → expected id ≡ some it
      → Agrees cache
      → lookup String_discrete id (emplace String_discrete id it cache) ≡ some it
  lookup-emplace_agreeing id it cache e h = elim (Option-cases (lookup String_discrete id cache)) [
    | inl new ↦ ground (arith, lookup-emplace String_discrete id id it cache)
    | inr (w, old) ↦ ground (arith, h id w old, lookup-emplace String_discrete id id it cache)
  ]

  -- Every order of a level is in the index that the loop makes.
  index_orders_covers :
      (p : Price) (cache : OrderCache) (os : Orders) (n : ℕ) (o : OrderQty)
      → OrdersExpected p os
      → Agrees cache
      → lookup ℕ_discrete n os ≡ some o
      → lookup String_discrete o.orderid (index_orders p cache os) ≡ some (p, n)
  unfolding index_orders lookup
  index_orders_covers p cache [] n o e h f = cc
  index_orders_covers p cache ((m, x) ∷ os) n o e h f = elim (ℕ_discrete n m) [
    | yes here ↦
        lookup-index_orders_old p (emplace String_discrete x.orderid (p, m) cache) os o.orderid
          (p, n) (ground (arith, lookup-emplace_agreeing x.orderid (p, m) cache e.0 h))
    | no other ↦
        index_orders_covers p (emplace String_discrete x.orderid (p, m) cache) os n o e.1
          (emplace-Agrees x.orderid (p, m) cache e.0 h) (ground arith)
  ]

  pub index_ladder_covers :
      (cache : OrderCache) (l : Ladder) (p : Price) (d : LevelData) (n : ℕ) (o : OrderQty)
      → LadderExpected l
      → Agrees cache
      → lookup ℤ_discrete p l ≡ some d
      → lookup ℕ_discrete n d.orders ≡ some o
      → lookup String_discrete o.orderid (index_ladder cache l) ≡ some (p, n)
  unfolding index_ladder lookup
  index_ladder_covers cache [] p d n o e h f g = cc
  index_ladder_covers cache ((q, x) ∷ l) p d n o e h f g = elim (ℤ_discrete p q) [
    | yes here ↦
        lookup-index_ladder_old (index_orders q cache x.orders) l o.orderid (p, n)
          (ground (arith, index_orders_covers q cache x.orders n o e.0 h))
    | no other ↦
        index_ladder_covers (index_orders q cache x.orders) l p d n o e.1
          (index_orders-Agrees q cache x.orders e.0 h) (ground arith) g
  ]
