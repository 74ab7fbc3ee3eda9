-- ===== src/PowerTrade/OrderBook/Keep.antt =====
-- What the change of an order in place keeps of the invariant of one side.
use arby.Common.{ℕ, ◌≡◌, ◌≢◌, ◌⊎◌, Option, some, ite, String, String_discrete, ℕ_discrete, arith}
use arby.Common.Int.{ℤ_discrete}
use arby.Common.Assoc.{lookup, alter, alter-Distinct, lookup-alter}
use arby.Trading.Types.{Price}
use arby.PowerTrade.OrderBook.Side.{OrderQty, LevelData, BookSide}
use arby.PowerTrade.OrderBook.Index.{Leads}
use arby.PowerTrade.OrderBook.Found.{IsFound}

module _ (s : BookSide) (v : IsFound s) (id : String) (p : Price) (node : ℕ)
    (at : lookup String_discrete id s.cache ≡ some (p, node)) (d : LevelData) (o o' : OrderQty)
    (level : lookup ℤ_discrete p s.ladder ≡ some d)
    (order : lookup ℕ_discrete node d.orders ≡ some o) (name : o.orderid ≡ id)
    (name' : o'.orderid ≡ id) (g : LevelData → Option LevelData) (d' : LevelData)
    (some_d' : g d ≡ some d')
    (changed_orders : d'.orders ≡ alter ℕ_discrete node (λ _. some o') d.orders) where
  lookup-changed :
      (q : Price)
      → lookup ℤ_discrete q (alter ℤ_discrete p g s.ladder)
        ≡ ite (ℤ_discrete q p) (g d) (lookup ℤ_discrete q s.ladder)
  lookup-changed q = lookup-alter ℤ_discrete p q g s.ladder d v.prices level

  lookup-order :
      (n : ℕ)
      → lookup ℕ_discrete n d'.orders
        ≡ ite (ℕ_discrete n node) (some o') (lookup ℕ_discrete n d.orders)
  lookup-order n =
      ground
        (arith, lookup-alter ℕ_discrete node n (λ _. some o') d.orders o (v.nodes p d level) order)

  abbrev changed : BookSide
  changed = record s { ladder = alter ℤ_discrete p g s.ladder }

  changed_level :
      (q : Price) (e' : LevelData)
      → lookup ℤ_discrete q changed.ladder ≡ some e'
      → ((q ≡ p) × (e' ≡ d')) ⊎ ((q ≢ p) × (lookup ℤ_discrete q s.ladder ≡ some e'))
  changed_level q e' e = ground (arith, lookup-changed q)

  changed_named_here :
      (id' : String) (n : ℕ) (x : OrderQty)
      → x.orderid ≡ id'
      → lookup String_discrete id' s.cache ≡ some (p, n)
      → lookup ℕ_discrete n d.orders ≡ some x
      → Leads changed.ladder id' p n
  changed_named_here id' n x e c f = elim (ℕ_discrete n node) [
    | yes same ↦ (
      d',
      o',
      ground (arith, lookup-changed p),
      ground (arith, lookup-order n),
      ground (arith, v.owned p d n o level, v.owned p d n x level),
    )
    | no other ↦ (d', x, ground (arith, lookup-changed p), ground (arith, lookup-order n), e)
  ]

  changed_named :
      (id' : String) (q : Price) (n : ℕ)
      → lookup String_discrete id' s.cache ≡ some (q, n)
      → Leads changed.ladder id' q n
  changed_named id' q n e =
      let (c, x, level', order', named) = v.named id' q n e in
      elim (ℤ_discrete q p) [
        | yes here ↦ rw here (changed_named_here id' n x named (ground arith) (ground arith))
        | no other ↦ (c, x, ground (arith, lookup-changed q), order', named)
      ]

  pub changed-IsFound : IsFound changed
  changed-IsFound = record {
    prices = alter-Distinct ℤ_discrete p g s.ladder v.prices;
    nodes = λ q e' e. ground (
      arith,
      changed_level q e' e,
      v.nodes q e',
      v.nodes p d level,
      alter-Distinct ℕ_discrete node (λ _. some o') d.orders,
    );
    owned = λ q e' n x e f. ground (
      arith,
      changed_level q e' e,
      lookup-order n,
      v.owned q e' n x,
      v.owned p d n x level,
      v.owned p d node o level order,
    );
    named = changed_named;
  }
