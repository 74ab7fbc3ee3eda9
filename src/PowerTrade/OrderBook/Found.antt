-- ===== src/PowerTrade/OrderBook/Found.antt =====
-- The invariant of one side of the book, said of lookups instead of entries, and what the changes
-- that `add`, `remove` and `execute` make keep of it.
use arby.Common.{
  ℕ, ◌<◌, ◌≡◌, ◌≢◌, ◌⊎◌, inl, inr, Option, none, some, [], ite, String, String_discrete, ℕ_discrete,
  arith,
}
use arby.Common.Int.{ℤ_discrete}
use arby.Common.Assoc.{
  lookup, alter, erase, Distinct, All-lookup, All-of_lookup, alter-Distinct, lookup-alter,
  lookup-erase,
}
use arby.Trading.Types.{Price, Qty}
use arby.PowerTrade.OrderBook.Side.{OrderQty, LevelData, BookSide, erase_node}
use arby.PowerTrade.OrderBook.Index.{IsIndexed, LevelIndexed, Owned, Leads, LevelIndexed-of_lookup}

pub record IsFound (s : BookSide) : Type 0 where
  pub prices : Distinct ℤ_discrete s.ladder
  pub nodes :
      (p : Price) (d : LevelData)
      → lookup ℤ_discrete p s.ladder ≡ some d
      → Distinct ℕ_discrete d.orders
  pub owned :
      (p : Price) (d : LevelData) (n : ℕ) (o : OrderQty)
      → lookup ℤ_discrete p s.ladder ≡ some d
      → lookup ℕ_discrete n d.orders ≡ some o
      → (n < s.next_node) × (lookup String_discrete o.orderid s.cache ≡ some (p, n))
  pub named :
      (id : String) (p : Price) (n : ℕ)
      → lookup String_discrete id s.cache ≡ some (p, n)
      → Leads s.ladder id p n

pub IsFound-of_indexed : (s : BookSide) → IsIndexed s → IsFound s
IsFound-of_indexed s v = record {
  prices = v.prices;
  nodes = λ p d e. (level p d e).0;
  owned = λ p d n o e f.
      All-lookup ℕ_discrete
        (λ x. (x.0 < s.next_node) × (lookup String_discrete x.1.orderid s.cache ≡ some (p, x.0)))
        d.orders n o (level p d e).1 f;
  named = v.named;
}
  where
    level :
        (p : Price) (d : LevelData)
        → lookup ℤ_discrete p s.ladder ≡ some d
        → LevelIndexed s.cache s.next_node (p, d)
    level p d e = LevelIndexed-of_lookup s.cache s.next_node p s.ladder d v.owned e

pub IsIndexed-of_found : (s : BookSide) → IsFound s → IsIndexed s
IsIndexed-of_found s v = record {
  prices = v.prices;
  owned =
      All-of_lookup ℤ_discrete (LevelIndexed s.cache s.next_node) s.ladder v.prices
        (λ p d e. (v.nodes p d e, orders p d e));
  named = v.named;
}
  where
    orders :
        (p : Price) (d : LevelData)
        → lookup ℤ_discrete p s.ladder ≡ some d
        → Owned s.cache s.next_node p d.orders
    orders p d e =
        All-of_lookup ℕ_discrete
          (λ x. (x.0 < s.next_node) × (lookup String_discrete x.1.orderid s.cache ≡ some (p, x.0)))
          d.orders (v.nodes p d e) (λ n o f. v.owned p d n o e f)

module _ (s : BookSide) (v : IsFound s) (id : String) (p : Price) (node : ℕ)
    (at : lookup String_discrete id s.cache ≡ some (p, node)) (d : LevelData) (o : OrderQty)
    (level : lookup ℤ_discrete p s.ladder ≡ some d)
    (order : lookup ℕ_discrete node d.orders ≡ some o) (name : o.orderid ≡ id)
    (g : LevelData → Option LevelData) (total : Qty) where
  lookup-changed :
      (q : Price)
      → lookup ℤ_discrete q (alter ℤ_discrete p g s.ladder)
        ≡ ite (ℤ_discrete q p) (g d) (lookup ℤ_discrete q s.ladder)
  lookup-changed q = lookup-alter ℤ_discrete p q g s.ladder d v.prices level

  lookup-erased :
      (n : ℕ)
      → lookup ℕ_discrete n (erase_node node d.orders)
        ≡ ite (ℕ_discrete n node) none (lookup ℕ_discrete n d.orders)
  lookup-erased n = lookup-alter ℕ_discrete node n (λ _. none) d.orders o (v.nodes p d level) order

  -- The level goes with its last order, or keeps the others.
  abbrev pub Drops : Type 0
  Drops =
      ((g d ≡ none) × (erase_node node d.orders ≡ []))
      ⊎ ((d' : LevelData) × (g d ≡ some d') × (d'.orders ≡ erase_node node d.orders))

  abbrev dropped : BookSide
  dropped = record s {
    ladder = alter ℤ_discrete p g s.ladder;
    cache = erase String_discrete id s.cache;
    aggregate = total;
  }

  -- A level of the side without the order is an old one, or the changed one.
  dropped_level :
      Drops
      → (q : Price) (d' : LevelData) → lookup ℤ_discrete q dropped.ladder ≡ some d'
      → ((q ≡ p) × (d'.orders ≡ erase_node node d.orders))
        ⊎ ((q ≢ p) × (lookup ℤ_discrete q s.ladder ≡ some d'))
  dropped_level (inl gone) q d' e = ground (arith, lookup-changed q)
  dropped_level (inr (c, some_c, oc)) q d' e = ground (arith, lookup-changed q)

  dropped_named_here :
      Drops
      → (id' : String) (n : ℕ) (x : OrderQty) → id' ≢ id
      → x.orderid ≡ id'
      → lookup ℕ_discrete n d.orders ≡ some x
      → Leads dropped.ladder id' p n
  unfolding lookup
  dropped_named_here (inl gone) id' n x ne e f = absurd (ground (arith, lookup-erased n))
  dropped_named_here (inr (c, some_c, oc)) id' n x ne e f =
      (c, x, ground (arith, lookup-changed p), ground (arith, lookup-erased n), e)

  dropped_named :
      Drops
      → (id' : String) (q : Price) (n : ℕ) → lookup String_discrete id' dropped.cache ≡ some (q, n)
      → Leads dropped.ladder id' q n
  dropped_named drops id' q n e =
      let ne : id' ≢ id = ground (arith, lookup-erase String_discrete id id' s.cache) in
      let (d', x, level', order', name') =
        v.named id' q n (ground (arith, lookup-erase String_discrete id id' s.cache)) in
      elim (ℤ_discrete q p) [
        | yes here ↦ rw here (dropped_named_here drops id' n x ne name' (ground arith))
        | no other ↦ (d', x, ground (arith, lookup-changed q), order', name')
      ]

  pub dropped-IsFound : Drops → IsFound dropped
  dropped-IsFound drops = record {
    prices = alter-Distinct ℤ_discrete p g s.ladder v.prices;
    nodes = λ q d' e. ground (
      arith,
      dropped_level drops q d' e,
      v.nodes q d',
      v.nodes p d level,
      alter-Distinct ℕ_discrete node (λ _. none) d.orders,
    );
    owned = λ q d' n x e f. ground (
      arith,
      dropped_level drops q d' e,
      lookup-erased n,
      v.owned q d' n x,
      v.owned p d n x level,
      lookup-erase String_discrete id x.orderid s.cache,
    );
    named = dropped_named drops;
  }
