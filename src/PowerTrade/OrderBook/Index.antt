-- ===== src/PowerTrade/OrderBook/Index.antt =====
-- The invariant of one side of the book: each order in the ladder is found through the index, and
-- each entry of the index leads to the order of its name.
use arby.Common.{
  ℕ, ◌<◌, ◌≡◌, ◌≢◌, refl, Option, none, some, [], ◌∷◌, map, All, String, String_discrete,
  ℕ_discrete, arith,
}
use mathlib.Core.Option
use arby.Common.Int.{ℤ_discrete}
use arby.Common.Assoc.{lookup, alter, Distinct, All-lookup}
use arby.Trading.Types.{Price}
use arby.PowerTrade.OrderBook.Side.{
  OrderQty, Orders, LevelData, Ladder, OrderCache, BookSide, levels, level_values,
}
use arby.PowerTrade.OrderBook.Spec.{LevelView, order_of, change_order, find_order, change_level}

-- The nodes of a level: addresses given out before, and each node the one that the index has.
abbrev pub Owned : OrderCache → ℕ → Price → Orders → Type 0
Owned cache next p =
    All λ n. (n.0 < next) × (lookup String_discrete n.1.orderid cache ≡ some (p, n.0))

abbrev pub LevelIndexed : OrderCache → ℕ → Price × LevelData → Type 0
LevelIndexed cache next l = Distinct ℕ_discrete l.1.orders × Owned cache next l.0 l.1.orders

-- What an entry of the index leads to.
abbrev pub Leads : Ladder → String → Price → ℕ → Type 0
Leads l id p node =
    (d : LevelData) × (o : OrderQty) × (lookup ℤ_discrete p l ≡ some d)
    × (lookup ℕ_discrete node d.orders ≡ some o)
    × (o.orderid ≡ id)

pub record IsIndexed (s : BookSide) : Type 0 where
  pub prices : Distinct ℤ_discrete s.ladder
  pub owned : All (LevelIndexed s.cache s.next_node) s.ladder
  pub named :
      (id : String) (p : Price) (node : ℕ)
      → lookup String_discrete id s.cache ≡ some (p, node)
      → Leads s.ladder id p node

pub LevelIndexed-of_lookup :
    (cache : OrderCache) (next : ℕ) (p : Price) (l : Ladder) (d : LevelData)
    → All (LevelIndexed cache next) l
    → lookup ℤ_discrete p l ≡ some d
    → LevelIndexed cache next (p, d)
LevelIndexed-of_lookup cache next p l d h e =
    All-lookup ℤ_discrete (LevelIndexed cache next) l p d h e

module _ (cache : OrderCache) (next : ℕ) (id : String) where
  -- Of an identifier that the index has elsewhere, a level has no order.
  pub order_of-absent :
      (p : Price) (os : Orders)
      → Owned cache next p os
      → ((node : ℕ) → lookup String_discrete id cache ≡ some (p, node) → ⊥)
      → order_of id (map (λ n. n.1) os) ≡ none
  unfolding order_of
  order_of-absent p [] h e = refl
  order_of-absent p ((a, o) ∷ os) h e = ground (arith, order_of-absent p os h.1 e, e a)

  module _ (p : Price) (node : ℕ) (at : lookup String_discrete id cache ≡ some (p, node)) where
    pub order_of-lookup :
        (os : Orders) (o : OrderQty)
        → Owned cache next p os
        → lookup ℕ_discrete node os ≡ some o
        → o.orderid ≡ id
        → order_of id (map (λ n. n.1) os) ≡ some o
    unfolding order_of lookup
    order_of-lookup [] o h f e = cc
    order_of-lookup ((a, x) ∷ os) o h f e = ground (arith, order_of-lookup os o h.1)

    pub change_order-alter :
        (os : Orders) (o : OrderQty) (f : OrderQty → Option OrderQty)
        → Owned cache next p os
        → lookup ℕ_discrete node os ≡ some o
        → o.orderid ≡ id
        → map (λ n. n.1) (alter ℕ_discrete node f os) ≡ change_order id f (map (λ n. n.1) os)
    unfolding change_order lookup alter
    change_order-alter [] o f h g e = cc
    change_order-alter ((a, x) ∷ os) o f h g e = ground (arith, change_order-alter os o f h.1)

    pub find_order-lookup :
        (l : Ladder) (d : LevelData) (o : OrderQty)
        → All (LevelIndexed cache next) l
        → lookup ℤ_discrete p l ≡ some d
        → lookup ℕ_discrete node d.orders ≡ some o
        → o.orderid ≡ id
        → find_order id (levels l) ≡ some (level_values d, o)
    unfolding find_order lookup
    find_order-lookup [] d o h f g e = cc
    find_order-lookup ((q, x) ∷ l) d o h f g e = ground (
      arith,
      find_order-lookup l d o h.1,
      order_of-lookup x.orders o,
      h.0.1,
      λ (q' : p ≢ q). order_of-absent q x.orders h.0.1 (λ m at'. q' (ground arith)),
    )

    -- A change of the level through the iterator is a change of the level that holds the order.
    pub change_level-alter :
        (l : Ladder) (d : LevelData) (o : OrderQty) (g : LevelData → Option LevelData)
        (f : LevelView → Option LevelView)
        → All (LevelIndexed cache next) l
        → lookup ℤ_discrete p l ≡ some d
        → lookup ℕ_discrete node d.orders ≡ some o
        → o.orderid ≡ id
        → Option.map level_values (g d) ≡ f (level_values d)
        → levels (alter ℤ_discrete p g l) ≡ change_level id f (levels l)
    unfolding change_level lookup alter
    change_level-alter [] d o g f h at' i e c = cc
    change_level-alter ((q, x) ∷ l) d o g f h at' i e c = ground (
      arith,
      change_level-alter l d o g f h.1,
      order_of-lookup x.orders o,
      h.0.1,
      λ (q' : p ≢ q). order_of-absent q x.orders h.0.1 (λ m at''. q' (ground arith)),
    )

  pub find_order-absent :
      (l : Ladder)
      → All (LevelIndexed cache next) l
      → lookup String_discrete id cache ≡ none
      → find_order id (levels l) ≡ none
  unfolding find_order
  find_order-absent [] h e = refl
  find_order-absent ((q, x) ∷ l) h e =
      ground (arith, find_order-absent l h.1, order_of-absent q x.orders h.0.1 (λ m at'. cc))
