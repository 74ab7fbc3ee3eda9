-- ===== src/PowerTrade/OrderBook/Sums.antt =====
-- The totals of a side, while no order is executed.
use arby.Common.{
  ℕ, ◌≡◌, refl, sym, ap, ◌∙◌, String, Bool, some, [], ◌∷◌, ◌++◌, ℕ_discrete, All, arith,
}
use arby.Common.Int.{ℤ, pos, ◌+ℤ◌, ◌-ℤ◌, ℤ_discrete, +ℤ_parts, -ℤ_parts, eq_of_parts}
use arby.Common.Assoc.{lookup, alter}
use arby.Trading.Types.{Price, Qty}
use arby.PowerTrade.OrderBook.Side.{
  OrderQty, Orders, LevelData, Ladder, BookSide, empty_level, emplace_level, append_order,
  add_order, erase_node,
}

abbrev pub sum_orders : Orders → Qty
sum_orders [] = pos 0
sum_orders ((n, o) ∷ os) = o.qty +ℤ sum_orders os

abbrev pub sum_depths : Ladder → Qty
sum_depths [] = pos 0
sum_depths ((p, d) ∷ l) = d.aggregate_depth +ℤ sum_depths l

add_assoc : (a b c : ℤ) → a +ℤ b +ℤ c ≡ a +ℤ (b +ℤ c)
add_assoc a b c =
    eq_of_parts _ _
      (omega (arith, +ℤ_parts (a +ℤ b) c, +ℤ_parts a b, +ℤ_parts a (b +ℤ c), +ℤ_parts b c))

add_swap : (a b c : ℤ) → a +ℤ (b +ℤ c) ≡ b +ℤ (a +ℤ c)
add_swap a b c =
    eq_of_parts _ _
      (omega (arith, +ℤ_parts a (b +ℤ c), +ℤ_parts b c, +ℤ_parts b (a +ℤ c), +ℤ_parts a c))

add_right : (a b c : ℤ) → a +ℤ b +ℤ c ≡ a +ℤ c +ℤ b
add_right a b c =
    eq_of_parts _ _
      (omega (arith, +ℤ_parts (a +ℤ b) c, +ℤ_parts a b, +ℤ_parts (a +ℤ c) b, +ℤ_parts a c))

pub sub_left : (a b c : ℤ) → a -ℤ b +ℤ c ≡ a +ℤ c -ℤ b
sub_left a b c =
    eq_of_parts _ _
      (omega (arith, +ℤ_parts (a -ℤ b) c, -ℤ_parts a b, -ℤ_parts (a +ℤ c) b, +ℤ_parts a c))

pub sub_right : (a b c : ℤ) → a +ℤ (b -ℤ c) ≡ a +ℤ b -ℤ c
sub_right a b c =
    eq_of_parts _ _
      (omega (arith, +ℤ_parts a (b -ℤ c), -ℤ_parts b c, -ℤ_parts (a +ℤ b) c, +ℤ_parts a b))

cancel : (a b : ℤ) → a +ℤ b -ℤ a ≡ b
cancel a b = eq_of_parts _ _ (omega (arith, -ℤ_parts (a +ℤ b) a, +ℤ_parts a b))

add_zero : (a : ℤ) → a +ℤ pos 0 ≡ a
add_zero a = eq_of_parts _ _ (omega (arith, +ℤ_parts a (pos 0)))

pub zero_add : (a : ℤ) → pos 0 +ℤ a ≡ a
zero_add a = eq_of_parts _ _ (omega (arith, +ℤ_parts (pos 0) a))

sum_orders-append :
    (os : Orders) (n : ℕ) (o : OrderQty) → sum_orders (os ++ (n, o) ∷ []) ≡ sum_orders os +ℤ o.qty
sum_orders-append [] n o = add_zero o.qty ∙ sym (zero_add o.qty)
sum_orders-append ((k, x) ∷ os) n o =
    ap (λ s. x.qty +ℤ s) (sum_orders-append os n o) ∙ sym (add_assoc x.qty (sum_orders os) o.qty)

pub sum_orders-erase :
    (n : ℕ) (os : Orders) (o : OrderQty)
    → lookup ℕ_discrete n os ≡ some o
    → sum_orders (erase_node n os) ≡ sum_orders os -ℤ o.qty
unfolding lookup alter
sum_orders-erase n [] o e = absurd (ground (arith, e))
sum_orders-erase n ((k, x) ∷ os) o e = elim (ℕ_discrete n k) [
  | yes same ↦ ground (arith, same, e, cancel x.qty (sum_orders os))
  | no other ↦
      ground (arith, other, e, sum_orders-erase n os o, sub_right x.qty (sum_orders os) o.qty)
]

-- The depth of a level is the sum of its orders.
abbrev pub IsLevelSummed : Price × LevelData → Type 0
IsLevelSummed (p, d) = d.aggregate_depth ≡ sum_orders d.orders

abbrev pub IsSummed : BookSide → Type 0
IsSummed s = (s.aggregate ≡ sum_depths s.ladder) × All IsLevelSummed s.ladder

append_order-IsLevelSummed :
    (p : Price) (node : ℕ) (id : String) (q : Qty) (d : LevelData)
    → IsLevelSummed (p, d)
    → IsLevelSummed (p, append_order node id q d)
append_order-IsLevelSummed p node id q d e =
    ap (λ a. a +ℤ q) e ∙ sym (sum_orders-append d.orders node (record { orderid = id; qty = q }))

-- The ladder with an order more.
abbrev appended : (Price → Price → Bool) → Price → ℕ → String → Qty → Ladder → Ladder
appended before p node id q l =
    alter ℤ_discrete p (λ d. some (append_order node id q d)) (emplace_level before p l)

sum_depths-appended :
    (before : Price → Price → Bool) (p : Price) (node : ℕ) (id : String) (q : Qty) (l : Ladder)
    → sum_depths (appended before p node id q l) ≡ sum_depths l +ℤ q
unfolding alter emplace_level
sum_depths-appended before p node id q [] = ground (arith, add_zero (pos 0 +ℤ q))
sum_depths-appended before p node id q ((r, d) ∷ l) = ground (
  arith,
  sum_depths-appended before p node id q l,
  add_right d.aggregate_depth q (sum_depths l),
  add_assoc d.aggregate_depth (sum_depths l) q,
  add_right (pos 0) q (d.aggregate_depth +ℤ sum_depths l),
  zero_add (d.aggregate_depth +ℤ sum_depths l),
)

appended-IsSummed :
    (before : Price → Price → Bool) (p : Price) (node : ℕ) (id : String) (q : Qty) (l : Ladder)
    → All IsLevelSummed l
    → All IsLevelSummed (appended before p node id q l)
unfolding alter emplace_level
appended-IsSummed before p node id q [] all =
    ground (arith, append_order-IsLevelSummed p node id q empty_level refl)
appended-IsSummed before p node id q ((r, d) ∷ l) (first, all) = ground (
  arith,
  first,
  all,
  appended-IsSummed before p node id q l all,
  append_order-IsLevelSummed r node id q d first,
  append_order-IsLevelSummed p node id q empty_level refl,
)

pub add_order-IsSummed :
    (before : Price → Price → Bool) (id : String) (p : Price) (q : Qty) (s : BookSide)
    → IsSummed s
    → IsSummed (add_order before id p q s)
unfolding add_order
add_order-IsSummed before id p q s (e, all) = (
  ap (λ a. a +ℤ q) e ∙ sym (sum_depths-appended before p s.next_node id q s.ladder),
  appended-IsSummed before p s.next_node id q s.ladder all,
)
