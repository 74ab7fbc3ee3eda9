-- ===== src/PowerTrade/OrderBook/Deducted.antt =====
-- The totals of a side from which an order is removed.
use arby.Common.{
  ℕ, ◌≡◌, ◌≢◌, refl, sym, subst, ap, ◌∙◌, String, Bool, true, false, inl, inr, if◌then◌else◌,
  Option, none, some, Option-cases, [], ◌∷◌, is_empty, ℕ_discrete, All, arith,
}
use arby.Common.Int.{pos, ◌+ℤ◌, ◌-ℤ◌, ℤ_discrete}
use arby.Common.Assoc.{lookup, alter}
use arby.Common.Result.{ok}
use arby.Trading.Types.{Price, Qty}
use arby.PowerTrade.OrderBook.Index.{IsIndexed}
use arby.PowerTrade.OrderBook.Sound.{remove_order-Removed}
use arby.PowerTrade.OrderBook.Side.{
  OrderQty, Orders, LevelData, Ladder, BookSide, erase_node, without_order, remove_order,
}
use arby.PowerTrade.OrderBook.Sums.{
  sum_orders, sum_depths, sub_left, sub_right, zero_add, sum_orders-erase, IsLevelSummed, IsSummed,
}

sum_orders-is_empty : (os : Orders) → is_empty os ≡ true → sum_orders os ≡ pos 0
sum_orders-is_empty [] e = refl
sum_orders-is_empty (x ∷ os) e = absurd (ground (arith, e))

-- What is left of a ladder that the level heads.
abbrev headed : Price → Option LevelData → Ladder → Ladder
headed p none l = l
headed p (some d) l = (p, d) ∷ l

-- The ladder is summed, and the sum is less by a quantity.
abbrev Less : Qty → Qty → Ladder → Type 0
Less total q l = (sum_depths l ≡ total -ℤ q) × All IsLevelSummed l

without_order-Less :
    (p : Price) (node : ℕ) (o : OrderQty) (d : LevelData) (l : Ladder)
    → IsLevelSummed (p, d)
    → All IsLevelSummed l
    → lookup ℕ_discrete node d.orders ≡ some o
    → Less (d.aggregate_depth +ℤ sum_depths l) o.qty (headed p (without_order node o d) l)
without_order-Less p node o d l first all there = either (is_empty (erase_node node d.orders)) refl
  where
    rest : LevelData
    rest = record {
      aggregate_depth = d.aggregate_depth -ℤ o.qty;
      orders = erase_node node d.orders;
    }

    left : d.aggregate_depth -ℤ o.qty ≡ sum_orders (erase_node node d.orders)
    left = ap (λ a. a -ℤ o.qty) first ∙ sym (sum_orders-erase node d.orders o there)

    either :
        (b : Bool)
        → is_empty (erase_node node d.orders) ≡ b
        → Less (d.aggregate_depth +ℤ sum_depths l) o.qty (
            headed p
              (if b
                then none
                else some (record {
                  aggregate_depth = d.aggregate_depth -ℤ o.qty;
                  orders = erase_node node d.orders;
                }))
              l)
    either true gone = (
      sym (zero_add (sum_depths l))
          ∙ ap (λ a. a +ℤ sum_depths l)
              (sym (left ∙ sum_orders-is_empty (erase_node node d.orders) gone))
          ∙ sub_left d.aggregate_depth o.qty (sum_depths l),
      all,
    )
    either false more = (sub_left d.aggregate_depth o.qty (sum_depths l), (left, all))

alter-headed :
    (p r : Price) (f : LevelData → Option LevelData) (e : LevelData) (l : Ladder)
    → p ≡ r
    → alter ℤ_discrete p f ((r, e) ∷ l) ≡ headed r (f e) l
unfolding alter
alter-headed p r f e l same = elim (Option-cases (f e)) [
  | inl gone ↦ ground (arith, same, gone)
  | inr (w, kept) ↦ ground (arith, same, kept)
]

alter_behind :
    (p r : Price) (f : LevelData → Option LevelData) (e : LevelData) (l : Ladder)
    → p ≢ r
    → alter ℤ_discrete p f ((r, e) ∷ l) ≡ (r, e) ∷ alter ℤ_discrete p f l
unfolding alter
alter_behind p r f e l other = ground (arith, other)

alter-Less :
    (p : Price) (node : ℕ) (o : OrderQty) (d : LevelData) (l : Ladder)
    → All IsLevelSummed l
    → lookup ℤ_discrete p l ≡ some d
    → lookup ℕ_discrete node d.orders ≡ some o
    → Less (sum_depths l) o.qty (alter ℤ_discrete p (without_order node o) l)
unfolding lookup
alter-Less p node o d [] all found there = absurd (ground (arith, found))
alter-Less p node o d ((r, e) ∷ l) (first, all) found there = elim (ℤ_discrete p r) [
  | yes same ↦
      let this : e ≡ d = ground (arith, found, same) in
      subst (Less (e.aggregate_depth +ℤ sum_depths l) o.qty)
        (sym (alter-headed p r (without_order node o) e l same))
        (without_order-Less r node o e l first all
          (subst (λ x. lookup ℕ_discrete node x.orders ≡ some o) (sym this) there))
  | no other ↦
      let (sum, summed) = alter-Less p node o d l all (ground (arith, found, other)) there in
      subst (Less (e.aggregate_depth +ℤ sum_depths l) o.qty)
        (sym (alter_behind p r (without_order node o) e l other))
        (
          ap (λ a. e.aggregate_depth +ℤ a) sum ∙ sub_right e.aggregate_depth (sum_depths l) o.qty,
          (first, summed),
        )
]

pub remove_order-IsSummed :
    (id : String) (s s' : BookSide)
    → IsIndexed s
    → IsSummed s
    → remove_order id s ≡ ok (some s')
    → IsSummed s'
remove_order-IsSummed id s s' v (total, all) e =
    let r = remove_order-Removed id s s' v e in
    let (sum, summed) = alter-Less r.p r.node r.o r.d s.ladder all r.level r.order in
    rw r.result (ap (λ a. a -ℤ r.o.qty) total ∙ sym sum, summed)
