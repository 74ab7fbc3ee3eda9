-- ===== src/PowerTrade/OrderBook/Refines.antt =====
-- One side of the order book does what `Spec` says, whatever nodes and iterators it uses.
use mathlib.Core.Option
use arby.Common.{
  ℕ, ◌≡◌, Option, none, some, inl, inr, [], ◌∷◌, map, map-append, String, Bool, is_empty-map,
  Option-cases, String_discrete, ℕ_discrete, arith,
}
use arby.Common.Int.{◌+ℤ◌, ℤ_discrete}
use arby.Common.Result.{map_ok}
use arby.Common.Assoc.{lookup, alter}
use arby.Trading.Types.{Price, Qty}
use arby.PowerTrade.OrderBook.Side.{
  OrderQty, LevelData, Ladder, BookSide, levels, level_values, without_order, keep_depth,
  erase_node, emplace_level, append_order, add_order, remove_order, execute_order, executed_qty,
}
use arby.PowerTrade.OrderBook.Spec.{
  SideView, LevelView, cancel, change_order, drop_order, find_order, change_level, remove_spec,
  execute_spec, add_spec,
}
use arby.PowerTrade.OrderBook.Index.{
  IsIndexed, change_order-alter, find_order-lookup, find_order-absent, change_level-alter,
  LevelIndexed-of_lookup,
}

abbrev pub side_view : BookSide → SideView
side_view s = record { ladder = levels s.ladder; aggregate = s.aggregate }

module _ (s : BookSide) (v : IsIndexed s) (id : String) (p : Price) (node : ℕ)
    (at : lookup String_discrete id s.cache ≡ some (p, node)) (d : LevelData) (o : OrderQty)
    (level : lookup ℤ_discrete p s.ladder ≡ some d)
    (order : lookup ℕ_discrete node d.orders ≡ some o) (name : o.orderid ≡ id) where
  orders_changed :
      (f : OrderQty → Option OrderQty)
      → map (λ n. n.1) (alter ℕ_discrete node f d.orders)
        ≡ change_order id f (map (λ n. n.1) d.orders)
  orders_changed f =
      change_order-alter s.cache s.next_node id p node at d.orders o f
        (LevelIndexed-of_lookup s.cache s.next_node p s.ladder d v.owned level).1 order name

  without_order-cancel :
      Option.map level_values (without_order node o d) ≡ cancel id o (level_values d)
  without_order-cancel =
      ground (arith, orders_changed (λ _. none), is_empty-map (λ n. n.1) (erase_node node d.orders))

  level_changed :
      (g : LevelData → Option LevelData) (f : LevelView → Option LevelView)
      → Option.map level_values (g d) ≡ f (level_values d)
      → levels (alter ℤ_discrete p g s.ladder) ≡ change_level id f (levels s.ladder)
  level_changed g f =
      change_level-alter s.cache s.next_node id p node at s.ladder d o g f v.owned level order name

  found : find_order id (levels s.ladder) ≡ some (level_values d, o)
  found = find_order-lookup s.cache s.next_node id p node at s.ladder d o v.owned level order name

  remove_order-found :
      map_ok (Option.map side_view) (remove_order id s) ≡ remove_spec id (side_view s)
  unfolding remove_order remove_spec
  remove_order-found =
      ground (arith, found, level_changed (without_order node o) (cancel id o) without_order-cancel)

  execute_order-found :
      (q : Qty)
      → map_ok (Option.map side_view) (execute_order id q s) ≡ execute_spec id q (side_view s)
  unfolding execute_order execute_spec
  execute_order-found q =
      let change : OrderQty → Option OrderQty =
        (λ _. some (record o { qty = executed_qty o.qty q })) in
      ground (
        arith,
        found,
        orders_changed (λ _. none),
        is_empty-map (λ n. n.1) (erase_node node d.orders),
        level_changed (keep_depth (alter ℕ_discrete node change d.orders))
            (λ w. some (w.0, change_order id change w.1)) (ground (arith, orders_changed change)),
        level_changed (keep_depth (erase_node node d.orders)) (λ w. some (w.0, drop_order id w.1))
            (ground (arith, orders_changed (λ _. none))),
      )

pub remove_order-refines :
    (s : BookSide) (id : String)
    → IsIndexed s
    → map_ok (Option.map side_view) (remove_order id s) ≡ remove_spec id (side_view s)
unfolding remove_order remove_spec
remove_order-refines s id v = elim (Option-cases (lookup String_discrete id s.cache)) [
  | inl e ↦ ground (arith, find_order-absent s.cache s.next_node id s.ladder v.owned e)
  | inr ((p, node), e) ↦
      let (d, o, level, order, name) = v.named id p node e in
      remove_order-found s v id p node e d o level order name
]

pub execute_order-refines :
    (s : BookSide) (id : String) (q : Qty)
    → IsIndexed s
    → map_ok (Option.map side_view) (execute_order id q s) ≡ execute_spec id q (side_view s)
unfolding execute_order execute_spec
execute_order-refines s id q v = elim (Option-cases (lookup String_discrete id s.cache)) [
  | inl e ↦ ground (arith, find_order-absent s.cache s.next_node id s.ladder v.owned e)
  | inr ((p, node), e) ↦
      let (d, o, level, order, name) = v.named id p node e in
      execute_order-found s v id p node e d o level order name q
]

levels-add :
    (before : Price → Price → Bool) (id : String) (p : Price) (q : Qty) (node : ℕ) (l : Ladder)
    → levels (alter ℤ_discrete p (λ d. some (append_order node id q d)) (emplace_level before p l))
      ≡ add_spec before p (record { orderid = id; qty = q }) (levels l)
unfolding alter emplace_level add_spec
levels-add before id p q node [] = ground arith
levels-add before id p q node ((r, d) ∷ l) = ground (
  arith,
  levels-add before id p q node l,
  map-append (λ (n : ℕ × OrderQty). n.1) d.orders ((node, record { orderid = id; qty = q }) ∷ []),
)

pub add_order-refines :
    (before : Price → Price → Bool) (id : String) (p : Price) (q : Qty) (s : BookSide)
    → side_view (add_order before id p q s) ≡ record {
      ladder = add_spec before p (record { orderid = id; qty = q }) (levels s.ladder);
      aggregate = s.aggregate +ℤ q;
    }
unfolding add_order
add_order-refines before id p q s = ground (arith, levels-add before id p q s.next_node s.ladder)
