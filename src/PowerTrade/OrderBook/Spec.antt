-- ===== src/PowerTrade/OrderBook/Spec.antt =====
-- What one side of an order book promises, said without iterators, addresses and the index: an
-- order is known by its identifier, and is searched for in the levels.
use arby.Common.{
  String, Bool, Option, none, some, List, [], ◌∷◌, ◌++◌, is_empty, if◌then◌else◌, String_discrete,
  ite,
}
use arby.Common.Int.{pos, ◌+ℤ◌, ◌-ℤ◌, leb_ℤ, ℤ_discrete}
use arby.Common.Result.{Result, ok, err, ◌>>◌, guard, use_after_free, assertion_failed}
use arby.Trading.Types.{Price, Qty}
use arby.PowerTrade.OrderBook.Side.{OrderQty, Levels, executed_qty}

abbrev pub LevelView : Type 0
LevelView = Qty × List OrderQty

pub record SideView : Type 0 where
  pub ladder : Levels
  pub aggregate : Qty

unfoldable pub order_of : String → List OrderQty → Option OrderQty
order_of id [] = none
order_of id (o ∷ os) = ite (String_discrete id o.orderid) (some o) (order_of id os)

unfoldable pub change_order : String → (OrderQty → Option OrderQty) → List OrderQty → List OrderQty
change_order id f [] = []
change_order id f (o ∷ os) =
    ite (String_discrete id o.orderid) (elim (f o) [ none ↦ os | some o' ↦ o' ∷ os ])
      (o ∷ change_order id f os)

-- The first level that holds the order, and the order.
unfoldable pub find_order : String → Levels → Option (LevelView × OrderQty)
find_order id [] = none
find_order id ((p, lv) ∷ l) = elim (order_of id lv.1) [
  | none ↦ find_order id l
  | some o ↦ some (lv, o)
]

unfoldable pub change_level : String → (LevelView → Option LevelView) → Levels → Levels
change_level id f [] = []
change_level id f ((p, lv) ∷ l) = elim (order_of id lv.1) [
  | none ↦ (p, lv) ∷ change_level id f l
  | some o ↦ elim (f lv) [ none ↦ l | some w ↦ (p, w) ∷ l ]
]

abbrev pub drop_order : String → List OrderQty → List OrderQty
drop_order id = change_order id (λ _. none)

abbrev pub cancel : String → OrderQty → LevelView → Option LevelView
cancel id o lv =
    if is_empty (drop_order id lv.1) then none else some (lv.0 -ℤ o.qty, drop_order id lv.1)

-- `remove`: the order goes, and its quantity with it; an empty level goes too.
unfoldable pub remove_spec : String → SideView → Result (Option SideView)
unfolding order_of change_order find_order change_level
remove_spec id v = elim (find_order id v.ladder) [
  | none ↦ ok none
  | some (lv, o) ↦ do
    guard (leb_ℤ (pos 0) (lv.0 -ℤ o.qty)) assertion_failed
    guard (leb_ℤ (pos 0) (v.aggregate -ℤ o.qty)) assertion_failed
    ok (
        some (record {
          ladder = change_level id (cancel id o) v.ladder;
          aggregate = v.aggregate -ℤ o.qty;
        }))
]

-- `execute` as the code has it: the order loses 1 if nothing was executed and nothing otherwise;
-- it stays if that leaves nothing, and else it goes, with the depth of the level as it was. On the
-- last order of a level it reads freed memory.
unfoldable pub execute_spec : String → Qty → SideView → Result (Option SideView)
unfolding order_of change_order find_order change_level
execute_spec id q v = elim (find_order id v.ladder) [
  | none ↦ ok none
  | some (lv, o) ↦
      ite (ℤ_discrete (executed_qty o.qty q) (pos 0))
        (ok (
          some (record v {
            ladder =
                change_level id
                  (λ w. some (
                    w.0,
                    change_order id (λ _. some (record o { qty = executed_qty o.qty q })) w.1,
                  ))
                  v.ladder;
          })))
        (if is_empty (drop_order id lv.1)
          then err use_after_free
          else ok (
              some (record v {
                ladder = change_level id (λ w. some (w.0, drop_order id w.1)) v.ladder;
              })))
]

-- `add`: the order goes to the end of its level, which is made where the comparator puts it.
unfoldable pub add_spec : (Price → Price → Bool) → Price → OrderQty → Levels → Levels
add_spec before p o [] = (p, (pos 0 +ℤ o.qty, o ∷ [])) ∷ []
add_spec before p o ((q, lv) ∷ l) =
    let rest = add_spec before p o l in
    ite (ℤ_discrete p q) ((q, (lv.0 +ℤ o.qty, lv.1 ++ o ∷ [])) ∷ l)
      (if before p q then (p, (pos 0 +ℤ o.qty, o ∷ [])) ∷ (q, lv) ∷ l else (q, lv) ∷ rest)
