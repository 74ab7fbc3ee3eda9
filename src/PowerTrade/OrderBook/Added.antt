-- ===== src/PowerTrade/OrderBook/Added.antt =====
-- What `add` keeps of the invariant of one side, where its order is a new one.
use arby.Common.{
  ℕ, suc, ◌<◌, ◌≡◌, inl, inr, Bool, none, some, [], ◌∷◌, ite, String, String_discrete, ℕ_discrete,
  Option-cases, arith,
}
use mathlib.Core.Option
use arby.Common.Int.{ℤ_discrete}
use arby.Common.Assoc.{
  lookup, Distinct, lookup-alter, lookup-assign, lookup-append, lookup-append_hit, append-Distinct,
}
use arby.Trading.Types.{Price, Qty}
use arby.PowerTrade.OrderBook.Side.{
  OrderQty, LevelData, BookSide, empty_level, emplace_level, append_order, add_order,
}
use arby.PowerTrade.OrderBook.Ordered.{
  IsStrictOrder, IsOrdered, IsOrdered-Distinct, emplace_level-IsOrdered, lookup-emplace_level,
  alter-IsOrdered,
}
use arby.PowerTrade.OrderBook.Index.{Leads}
use arby.PowerTrade.OrderBook.Found.{IsFound}

module _ (before : Price → Price → Bool) (strict : IsStrictOrder before) (s : BookSide)
    (v : IsFound s) (ordered : IsOrdered before s.ladder) (id : String)
    (fresh : lookup String_discrete id s.cache ≡ none) (p : Price) (q : Qty) where
  old_level : LevelData
  old_level = Option.get_or (lookup ℤ_discrete p s.ladder) empty_level

  abbrev added : BookSide
  added = add_order before id p q s

  lookup-added :
      (r : Price)
      → lookup ℤ_discrete r added.ladder
        ≡ ite
            (ℤ_discrete r p)
            (some (append_order s.next_node id q old_level))
            (lookup ℤ_discrete r s.ladder)
  unfolding add_order old_level
  lookup-added r = ground (
    arith,
    lookup-emplace_level before strict p r s.ladder ordered,
    lookup-alter ℤ_discrete p r (λ d. some (append_order s.next_node id q d))
        (emplace_level before p s.ladder) old_level
        (IsOrdered-Distinct before strict (emplace_level before p s.ladder)
          (emplace_level-IsOrdered before strict p s.ladder ordered))
        (ground (arith, lookup-emplace_level before strict p p s.ladder ordered)),
  )

  old_orders :
      (n : ℕ) (x : OrderQty)
      → lookup ℕ_discrete n old_level.orders ≡ some x
      → (n < s.next_node) × (lookup String_discrete x.orderid s.cache ≡ some (p, n))
  unfolding old_level lookup
  old_orders n x e = elim (Option-cases (lookup ℤ_discrete p s.ladder)) [
    | inl none_there ↦ absurd (ground arith)
    | inr (d, there) ↦ v.owned p d n x there (ground arith)
  ]

  old_nodes : Distinct ℕ_discrete old_level.orders
  unfolding old_level
  old_nodes = elim (Option-cases (lookup ℤ_discrete p s.ladder)) [
    | inl none_there ↦ rw none_there tt
    | inr (d, there) ↦ rw there (v.nodes p d there)
  ]

  old_free : lookup ℕ_discrete s.next_node old_level.orders ≡ none
  old_free = elim (Option-cases (lookup ℕ_discrete s.next_node old_level.orders)) [
    | inl free ↦ free
    | inr (x, there) ↦ absurd (omega (arith, old_orders s.next_node x there))
  ]

  lookup-new :
      (n : ℕ)
      → lookup ℕ_discrete n (append_order s.next_node id q old_level).orders
        ≡ ite
            (ℕ_discrete n s.next_node)
            (some (record { orderid = id; qty = q }))
            (lookup ℕ_discrete n old_level.orders)
  unfolding lookup
  lookup-new n = elim (Option-cases (lookup ℕ_discrete n old_level.orders)) [
    | inl free ↦ ground (
      arith,
      lookup-append ℕ_discrete n old_level.orders
          ((s.next_node, record { orderid = id; qty = q }) ∷ []) free,
    )
    | inr (x, there) ↦ ground (
      arith,
      old_free,
      lookup-append_hit ℕ_discrete n old_level.orders
          ((s.next_node, record { orderid = id; qty = q }) ∷ []) x there,
    )
  ]

  lookup-added_cache :
      (id' : String)
      → lookup String_discrete id' added.cache
        ≡ ite (String_discrete id' id) (some (p, s.next_node)) (lookup String_discrete id' s.cache)
  unfolding add_order
  lookup-added_cache id' = lookup-assign String_discrete id id' (p, s.next_node) s.cache

  added_named_old :
      (id' : String) (r : Price) (n : ℕ)
      → lookup String_discrete id' s.cache ≡ some (r, n)
      → Leads added.ladder id' r n
  unfolding old_level
  added_named_old id' r n e =
      let (c, x, level, order, named) = v.named id' r n e in
      elim (ℤ_discrete r p) [
        | yes here ↦ (
          append_order s.next_node id q old_level,
          x,
          ground (arith, lookup-added r),
          ground (arith, lookup-new n, v.owned r c n x level),
          named,
        )
        | no other ↦ (c, x, ground (arith, lookup-added r), order, named)
      ]

  added_named :
      (id' : String) (r : Price) (n : ℕ)
      → lookup String_discrete id' added.cache ≡ some (r, n)
      → Leads added.ladder id' r n
  added_named id' r n e = elim (String_discrete id' id) [
    | yes new ↦ (
      append_order s.next_node id q old_level,
      record { orderid = id; qty = q },
      ground (arith, lookup-added_cache id', lookup-added r),
      ground (arith, lookup-added_cache id', lookup-new n),
      ground arith,
    )
    | no old ↦ added_named_old id' r n (ground (arith, lookup-added_cache id'))
  ]

  added_owned :
      (r : Price) (d : LevelData) (n : ℕ) (x : OrderQty)
      → lookup ℤ_discrete r added.ladder ≡ some d
      → lookup ℕ_discrete n d.orders ≡ some x
      → (n < suc s.next_node) × (lookup String_discrete x.orderid added.cache ≡ some (r, n))
  added_owned r d n x e f = elim (ℤ_discrete r p) [
    | yes here ↦
        ground (arith, lookup-added r, lookup-new n, old_orders n x, lookup-added_cache x.orderid)
    | no other ↦ ground (arith, lookup-added r, v.owned r d n x, lookup-added_cache x.orderid)
  ]

  pub added-IsFound : IsFound added
  unfolding add_order
  added-IsFound = record {
    prices = IsOrdered-Distinct before strict added.ladder (
        alter-IsOrdered before p (λ d. some (append_order s.next_node id q d))
          (emplace_level before p s.ladder)
          (emplace_level-IsOrdered before strict p s.ladder ordered));
    nodes = λ r d e. ground (
      arith,
      lookup-added r,
      v.nodes r d,
      append-Distinct ℕ_discrete old_level.orders s.next_node (record { orderid = id; qty = q })
          old_free old_nodes,
    );
    owned = added_owned;
    named = added_named;
  }
