-- ===== src/PowerTrade/OrderBook/Assigned.antt =====
-- arby/power_trade/order_book.hpp, `operator=`: a copy into a side with no index is as sound as its
-- source, and a copy into one that has an index keeps the entries of what it overwrites.
use mathlib.Core.Option
use arby.Common.{
  ℕ, ◌+◌, ◌<◌, ◌≡◌, refl, ap, Bool, Option, none, some, List, [], ◌∷◌, map, String, String_discrete,
  ℕ_discrete, All, Option-cases, inl, inr, arith,
}
use arby.Common.Int.{ℤ_discrete}
use arby.Common.Result.{err, dangling_iterator}
use arby.Common.Assoc.{lookup}
use arby.Trading.Types.{Price}
use arby.PowerTrade.OrderBook.Side.{
  OrderQty, Orders, LevelData, Ladder, OrderCache, Iterators, BookSide, copy_orders, copy_ladder,
  index_ladder, assign_side, levels, deref, remove_order,
}
use arby.PowerTrade.OrderBook.Index.{IsIndexed, LevelIndexed, Owned, Leads}
use arby.PowerTrade.OrderBook.Found.{IsFound, IsFound-of_indexed, IsIndexed-of_found}
use arby.PowerTrade.OrderBook.Sound.{IsSound}
use arby.PowerTrade.OrderBook.Refines.{side_view}
use arby.PowerTrade.OrderBook.Copy.{
  copy_level, lookup-copy_ladder, lookup-copy_orders, lookup-copy_orders_old, copy_ladder-Distinct,
  copy_orders-Distinct, copy_ladder-IsOrdered, lookup-index_ladder_old, OrdersExpected,
  LadderExpected, index_ladder-Agrees, index_ladder_covers,
}

orders_copied : (base : ℕ) (os : Orders) → map (λ n. n.1) (copy_orders base os) ≡ map (λ n. n.1) os
orders_copied base [] = refl
orders_copied base ((n, o) ∷ os) = ap (λ (r : List OrderQty). o ∷ r) (orders_copied base os)

levels_copied : (base : ℕ) (l : Ladder) → levels (copy_ladder base l) ≡ levels l
levels_copied base [] = refl
levels_copied base ((p, d) ∷ l) = ground (arith, levels_copied base l, orders_copied base d.orders)

-- A copy compares equal to its source, whatever it is copied into.
pub assign_side-view :
    (target source : BookSide) → side_view (assign_side target source) ≡ side_view source
unfolding assign_side
assign_side-view target source = ground (arith, levels_copied target.next_node source.ladder)

-- Where the copy of an order stands.
abbrev moved : ℕ → Iterators → Iterators
moved base (p, n) = (p, base + n)

abbrev expected : ℕ → OrderCache → String → Option Iterators
expected base cache id = Option.map (moved base) (lookup String_discrete id cache)

moved_orders :
    (base next : ℕ) (cache : OrderCache) (p : Price) (os : Orders)
    → Owned cache next p os
    → OrdersExpected (expected base cache) p (copy_orders base os)
moved_orders base next cache p [] h = tt
moved_orders base next cache p ((n, o) ∷ os) h =
    (ground arith, moved_orders base next cache p os h.1)

copied_expected :
    (base next : ℕ) (cache : OrderCache) (l : Ladder)
    → All (LevelIndexed cache next) l
    → LadderExpected (expected base cache) (copy_ladder base l)
copied_expected base next cache [] h = tt
copied_expected base next cache ((p, d) ∷ l) h =
    (moved_orders base next cache p d.orders h.0.1, copied_expected base next cache l h.1)

-- The orders of a copy are those of its source under new addresses.
lookup-copied :
    (base : ℕ) (p : Price) (l : Ladder) (d : LevelData)
    → lookup ℤ_discrete p (copy_ladder base l) ≡ some d
    → (d0 : LevelData) × (lookup ℤ_discrete p l ≡ some d0) × (d ≡ copy_level base d0)
lookup-copied base p l d e = elim (Option-cases (lookup ℤ_discrete p l)) [
  | inl gone ↦ absurd (ground (arith, lookup-copy_ladder base p l))
  | inr (d0, there) ↦ (d0, there, ground (arith, lookup-copy_ladder base p l))
]

lookup-copied_order :
    (base m : ℕ) (os : Orders) (o : OrderQty)
    → lookup ℕ_discrete m (copy_orders base os) ≡ some o
    → (n : ℕ) × (m ≡ base + n) × (lookup ℕ_discrete n os ≡ some o)
unfolding lookup
lookup-copied_order base m [] o e = absurd (ground arith)
lookup-copied_order base m ((k, x) ∷ os) o e = elim (ℕ_discrete m (base + k)) [
  | yes here ↦ (k, here, ground arith)
  | no other ↦
      let (n, eq, there) = lookup-copied_order base m os o (ground arith) in (n, eq, ground arith)
]

module _ (before : Price → Price → Bool) (target source : BookSide) (v : IsSound before source)
    (fresh : target.cache ≡ []) where
  abbrev base : ℕ
  base = target.next_node

  abbrev copied : Ladder
  copied = copy_ladder base source.ladder

  abbrev indexed_copy : BookSide
  indexed_copy = record {
    ladder = copied;
    cache = index_ladder [] copied;
    aggregate = source.aggregate;
    next_node = base + source.next_node;
  }

  found : IsFound source
  found = IsFound-of_indexed source v.indexed

  copy_expected : LadderExpected (expected base source.cache) copied
  copy_expected = copied_expected base source.next_node source.cache source.ladder v.indexed.owned

  copied_owned :
      (p : Price) (d : LevelData) (m : ℕ) (o : OrderQty)
      → lookup ℤ_discrete p copied ≡ some d
      → lookup ℕ_discrete m d.orders ≡ some o
      → (m < base + source.next_node)
        × (lookup String_discrete o.orderid indexed_copy.cache ≡ some (p, m))
  unfolding lookup
  copied_owned p d m o e f =
      let (d0, level, eq) = lookup-copied base p source.ladder d e in
      let (n, m_eq, order) = lookup-copied_order base m d0.orders o (ground arith) in
      (
        omega (arith, (found.owned p d0 n o level order).0, m_eq),
        index_ladder_covers (expected base source.cache) [] copied p d m o copy_expected
            (λ id it none_there. cc) e f,
      )

  copied_named :
      (id : String) (p : Price) (m : ℕ)
      → lookup String_discrete id indexed_copy.cache ≡ some (p, m)
      → Leads copied id p m
  unfolding lookup
  copied_named id p m e = from_source (lookup String_discrete id source.cache) refl
    where
      agrees : expected base source.cache id ≡ some (p, m)
      agrees =
          index_ladder-Agrees (expected base source.cache) [] copied copy_expected
            (λ id it none_there. cc) id (p, m) e

      from_source :
          (it : Option Iterators)
          → lookup String_discrete id source.cache ≡ it
          → Leads copied id p m
      from_source none f = absurd (ground (arith, agrees))
      from_source (some (p0, n)) f =
          let (d, o, level, order, name) = found.named id p0 n f in
          (
            copy_level base d,
            o,
            ground (arith, agrees, lookup-copy_ladder base p source.ladder),
            ground (arith, agrees, lookup-copy_orders base n d.orders),
            name,
          )

  indexed_copy-IsFound : IsFound indexed_copy
  indexed_copy-IsFound = record {
    prices = copy_ladder-Distinct base source.ladder found.prices;
    nodes = λ p d e.
        let (d0, level, eq) = lookup-copied base p source.ladder d e in
        rw eq (copy_orders-Distinct base d0.orders (found.nodes p d0 level));
    owned = copied_owned;
    named = copied_named;
  }

  -- A copy into a side with an empty index is as sound as its source.
  pub assign_side-IsSound : IsSound before (assign_side target source)
  unfolding assign_side
  assign_side-IsSound = rw fresh (record {
    ordered = copy_ladder-IsOrdered base before source.ladder v.ordered;
    indexed = IsIndexed-of_found indexed_copy indexed_copy-IsFound;
  })

deref-copied :
    (base : ℕ) (p : Price) (n : ℕ) (l : Ladder)
    → n < base
    → deref (p, n) (copy_ladder base l) ≡ err dangling_iterator
unfolding deref
deref-copied base p n l h = elim (Option-cases (lookup ℤ_discrete p l)) [
  | inl gone ↦ ground (arith, lookup-copy_ladder base p l)
  | inr (d, there) ↦
      ground (arith, lookup-copy_ladder base p l, lookup-copy_orders_old base n d.orders h)
]

remove_order-dangling :
    (id : String) (it : Iterators) (s : BookSide)
    → lookup String_discrete id s.cache ≡ some it
    → deref it s.ladder ≡ err dangling_iterator
    → remove_order id s ≡ err dangling_iterator
unfolding remove_order
remove_order-dangling id it s e f = ground arith

-- If the side that `operator=` overwrites is indexed and its index has an order, then after the
-- assignment the side compares equal to its source, but the removal of that order dangles.
pub assign_side-dangles :
    (target source : BookSide) (id : String) (it : Iterators)
    → IsIndexed target
    → lookup String_discrete id target.cache ≡ some it
    → (side_view (assign_side target source) ≡ side_view source)
      × (remove_order id (assign_side target source) ≡ err dangling_iterator)
unfolding assign_side
assign_side-dangles target source id (p, node) v e =
    let (d, o, level, order, name) = v.named id p node e in
    (
      assign_side-view target source,
      remove_order-dangling id (p, node) (assign_side target source)
          (lookup-index_ladder_old target.cache (copy_ladder target.next_node source.ladder) id
            (p, node) e)
          (deref-copied target.next_node p node source.ladder
            ((IsFound-of_indexed target v).owned p d node o level order).0),
    )
