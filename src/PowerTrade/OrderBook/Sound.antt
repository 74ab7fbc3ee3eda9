-- ===== src/PowerTrade/OrderBook/Sound.antt =====
-- The invariant of one side of the book, and that every operation keeps it: the ladder stands in
-- the order of its comparator, and the index and the ladder lead to one another.
use arby.Common.{
  ℕ, ◌≡◌, refl, ◌⊎◌, inl, inr, Bool, Option, none, some, List, [], ◌∷◌, String, String_discrete,
  ℕ_discrete, Option-cases, arith,
}
use arby.Common.Int.{pos, ◌-ℤ◌, ℤ_discrete}
use arby.Common.Result.{ok}
use arby.Common.Assoc.{lookup, alter, erase, lookup-erase}
use arby.Trading.Types.{Price, Qty}
use arby.PowerTrade.OrderBook.Side.{
  OrderQty, LevelData, BookSide, emplace_level, append_order, add_order, remove_order,
  execute_order, reset_side, empty_side, without_order, keep_depth, erase_node, executed_qty,
}
use arby.PowerTrade.OrderBook.Ordered.{
  IsStrictOrder, IsOrdered, alter-IsOrdered, emplace_level-IsOrdered,
}
use arby.PowerTrade.OrderBook.Index.{IsIndexed}
use arby.PowerTrade.OrderBook.Found.{IsFound-of_indexed, IsIndexed-of_found, dropped-IsFound}
use arby.PowerTrade.OrderBook.Keep.{changed-IsFound}
use arby.PowerTrade.OrderBook.Added.{added-IsFound}

pub record IsSound (before : Price → Price → Bool) (s : BookSide) : Type 0 where
  pub ordered : IsOrdered before s.ladder
  pub indexed : IsIndexed s

pub empty_side-IsSound : (before : Price → Price → Bool) → IsSound before empty_side
unfolding lookup
empty_side-IsSound before = record {
  ordered = tt;
  indexed = record { prices = tt; owned = tt; named = λ id p node e. cc };
}

pub reset_side-IsSound :
    (before : Price → Price → Bool) (s : BookSide) → IsSound before (reset_side s)
unfolding reset_side lookup
reset_side-IsSound before s = record {
  ordered = tt;
  indexed = record { prices = tt; owned = tt; named = λ id p node e. cc };
}

pub add_order-IsSound :
    (before : Price → Price → Bool)
    → IsStrictOrder before
    → (id : String) (p : Price) (q : Qty) (s : BookSide) → lookup String_discrete id s.cache ≡ none
    → IsSound before s
    → IsSound before (add_order before id p q s)
unfolding add_order
add_order-IsSound before strict id p q s fresh v = record {
  ordered =
      alter-IsOrdered before p (λ d. some (append_order s.next_node id q d))
        (emplace_level before p s.ladder)
        (emplace_level-IsOrdered before strict p s.ladder v.ordered);
  indexed =
      IsIndexed-of_found (add_order before id p q s)
        (added-IsFound before strict s (IsFound-of_indexed s v.indexed) v.ordered id fresh p q);
}

-- What `remove_order` finds, and makes of it.
pub record Removed (id : String) (s s' : BookSide) : Type 0 where
  pub p : Price
  pub node : ℕ
  pub d : LevelData
  pub o : OrderQty
  pub at : lookup String_discrete id s.cache ≡ some (p, node)
  pub level : lookup ℤ_discrete p s.ladder ≡ some d
  pub order : lookup ℕ_discrete node d.orders ≡ some o
  pub name : o.orderid ≡ id
  pub result : s' ≡ record s {
    ladder = alter ℤ_discrete p (without_order node o) s.ladder;
    cache = erase String_discrete id s.cache;
    aggregate = s.aggregate -ℤ o.qty;
  }

pub remove_order-Removed :
    (id : String) (s s' : BookSide)
    → IsIndexed s
    → remove_order id s ≡ ok (some s')
    → Removed id s s'
unfolding remove_order
remove_order-Removed id s s' v e = elim (Option-cases (lookup String_discrete id s.cache)) [
  | inl gone ↦ absurd (ground arith)
  | inr ((p, node), at) ↦
      let (d, o, level, order, name) = v.named id p node at in
      record {
        p = p;
        node = node;
        d = d;
        o = o;
        at = at;
        level = level;
        order = order;
        name = name;
        result = ground arith;
      }
]

without_order-Drops :
    (node : ℕ) (o : OrderQty) (d : LevelData)
    → ((without_order node o d ≡ none) × (erase_node node d.orders ≡ []))
      ⊎ ((d' : LevelData) × (without_order node o d ≡ some d')
          × (d'.orders ≡ erase_node node d.orders))
without_order-Drops node o d = from_orders (erase_node node d.orders) refl
  where
    from_orders :
        (os : List (ℕ × OrderQty))
        → erase_node node d.orders ≡ os
        → ((without_order node o d ≡ none) × (erase_node node d.orders ≡ []))
          ⊎ ((d' : LevelData) × (without_order node o d ≡ some d')
              × (d'.orders ≡ erase_node node d.orders))
    from_orders [] e = inl (ground arith, e)
    from_orders (x ∷ os) e = inr (
      record { aggregate_depth = d.aggregate_depth -ℤ o.qty; orders = erase_node node d.orders },
      ground arith,
      refl,
    )

-- Removing an order keeps the invariant of its side.
pub remove_order-IsSound :
    (before : Price → Price → Bool) (id : String) (s s' : BookSide)
    → IsSound before s
    → remove_order id s ≡ ok (some s')
    → IsSound before s'
remove_order-IsSound before id s s' v e =
    let r = remove_order-Removed id s s' v.indexed e in
    rw r.result (record {
      ordered = alter-IsOrdered before r.p (without_order r.node r.o) s.ladder v.ordered;
      indexed = IsIndexed-of_found _ (
          dropped-IsFound s (IsFound-of_indexed s v.indexed) id r.p r.node r.at r.d r.o r.level
            r.order r.name (without_order r.node r.o) (s.aggregate -ℤ r.o.qty)
            (without_order-Drops r.node r.o r.d));
    })

-- A second removal of the same order finds nothing.
pub remove_order_twice :
    (id : String) (s s' : BookSide)
    → IsIndexed s
    → remove_order id s ≡ ok (some s')
    → remove_order id s' ≡ ok none
unfolding remove_order
remove_order_twice id s s' v e =
    let r = remove_order-Removed id s s' v e in
    ground (arith, r.result, lookup-erase String_discrete id id s.cache)

module _ (before : Price → Price → Bool) (s : BookSide) (v : IsSound before s) (id : String)
    (p : Price) (node : ℕ) (at : lookup String_discrete id s.cache ≡ some (p, node)) (d : LevelData)
    (o : OrderQty) (level : lookup ℤ_discrete p s.ladder ≡ some d)
    (order : lookup ℕ_discrete node d.orders ≡ some o) (name : o.orderid ≡ id) (q : Qty) where
  abbrev executed : OrderQty
  executed = record o { qty = executed_qty o.qty q }

  abbrev with_change : LevelData → Option LevelData
  with_change = keep_depth (alter ℕ_discrete node (λ _. some executed) d.orders)

  abbrev with_drop : LevelData → Option LevelData
  with_drop = keep_depth (erase_node node d.orders)

  changed-IsSound : IsSound before (record s { ladder = alter ℤ_discrete p with_change s.ladder })
  changed-IsSound = record {
    ordered = alter-IsOrdered before p with_change s.ladder v.ordered;
    indexed = IsIndexed-of_found _ (
        changed-IsFound s (IsFound-of_indexed s v.indexed) id p node at d o executed level order
          name name with_change
          (record d { orders = alter ℕ_discrete node (λ _. some executed) d.orders }) refl refl);
  }

  dropped-IsSound : IsSound before (record s {
    ladder = alter ℤ_discrete p with_drop s.ladder;
    cache = erase String_discrete id s.cache;
  })
  dropped-IsSound = record {
    ordered = alter-IsOrdered before p with_drop s.ladder v.ordered;
    indexed = IsIndexed-of_found _ (
        dropped-IsFound s (IsFound-of_indexed s v.indexed) id p node at d o level order name
          with_drop s.aggregate (inr (record d { orders = erase_node node d.orders }, refl, refl)));
  }

  execute_order-found_IsSound :
      (s' : BookSide) → execute_order id q s ≡ ok (some s') → IsSound before s'
  unfolding execute_order
  execute_order-found_IsSound s' e = elim (ℤ_discrete (executed_qty o.qty q) (pos 0)) [
    | yes zero_left ↦
        let r : s' ≡ record s { ladder = alter ℤ_discrete p with_change s.ladder } = ground arith in
        rw r changed-IsSound
    | no some_left ↦
        let r : s' ≡ record s {
          ladder = alter ℤ_discrete p with_drop s.ladder;
          cache = erase String_discrete id s.cache;
        } =
          ground arith in
        rw r dropped-IsSound
  ]

-- Executing an order keeps the invariant of its side.
pub execute_order-IsSound :
    (before : Price → Price → Bool) (id : String) (q : Qty) (s s' : BookSide)
    → IsSound before s
    → execute_order id q s ≡ ok (some s')
    → IsSound before s'
unfolding execute_order
execute_order-IsSound before id q s s' v e =
    elim (Option-cases (lookup String_discrete id s.cache)) [
      | inl gone ↦ absurd (ground arith)
      | inr ((p, node), at) ↦
          let (d, o, level, order, name) = v.indexed.named id p node at in
          execute_order-found_IsSound before s v id p node at d o level order name q s' e
    ]
