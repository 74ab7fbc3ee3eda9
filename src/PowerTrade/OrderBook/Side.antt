-- ===== src/PowerTrade/OrderBook/Side.antt =====
-- arby/power_trade/order_book.hpp and .cpp: one side of the book, a ladder of price levels, the
-- index of its orders and their total. `order_book` has each function once for bids and once for
-- offers; the two differ in the comparator, which is a parameter here. A node of an order list has
-- an address, an iterator to an order is the price of its level and that address, and it dangles
-- once the level holds no such node: a level goes only after its last order, so the address of the
-- level itself is not needed to tell. Addresses are handed out by a counter of the side.
use arby.Common.{
  ℕ, suc, ◌+◌, String, Bool, if◌then◌else◌, Option, none, some, List, [], ◌∷◌, ◌++◌, is_empty,
  String_discrete, ℕ_discrete, ite, map,
}
use arby.Common.Int.{pos, ◌+ℤ◌, ◌-ℤ◌, leb_ℤ, ℤ_discrete}
use arby.Common.Assoc.{lookup, assign, emplace, erase, alter}
use arby.Common.Result.{
  Result, ok, err, ◌>>=◌, ◌>>◌, guard, or_fail, dangling_iterator, use_after_free, assertion_failed,
}
use arby.Trading.Types.{Price, Qty, unit_qty}

pub record OrderQty : Type 0 where
  pub orderid : String
  pub qty : Qty

abbrev pub Orders : Type 0
Orders = List (ℕ × OrderQty)

pub record LevelData : Type 0 where
  pub aggregate_depth : Qty
  pub orders : Orders

abbrev pub Ladder : Type 0
Ladder = List (Price × LevelData)

-- A `ladder::iterator` and a `qty_list::iterator`.
abbrev pub Iterators : Type 0
Iterators = Price × ℕ

abbrev pub OrderCache : Type 0
OrderCache = List (String × Iterators)

pub record BookSide : Type 0 where
  pub ladder : Ladder
  pub cache : OrderCache
  pub aggregate : Qty
  pub next_node : ℕ

abbrev pub empty_level : LevelData
empty_level = record { aggregate_depth = pos 0; orders = [] }

-- The level of a price, made where the comparator puts it unless it is there.
unfoldable pub emplace_level : (Price → Price → Bool) → Price → Ladder → Ladder
emplace_level before p [] = (p, empty_level) ∷ []
emplace_level before p ((q, d) ∷ l) =
    let rest = emplace_level before p l in
    ite (ℤ_discrete p q) ((q, d) ∷ l)
      (if before p q then (p, empty_level) ∷ (q, d) ∷ l else (q, d) ∷ rest)

abbrev pub append_order : ℕ → String → Qty → LevelData → LevelData
append_order node id q d = record d {
  aggregate_depth = d.aggregate_depth +ℤ q;
  orders = d.orders ++ (node, record { orderid = id; qty = q }) ∷ [];
}

-- One branch of `order_book::add`.
unfoldable pub add_order : (Price → Price → Bool) → String → Price → Qty → BookSide → BookSide
unfolding emplace_level alter
add_order before id p q s = record {
  ladder =
      alter ℤ_discrete p (λ d. some (append_order s.next_node id q d))
        (emplace_level before p s.ladder);
  cache = assign String_discrete id (p, s.next_node) s.cache;
  aggregate = s.aggregate +ℤ q;
  next_node = suc s.next_node;
}

-- `*ilevel` and `*iqty`, for a pair of iterators out of the cache.
unfoldable pub deref : Iterators → Ladder → Result (LevelData × OrderQty)
unfolding lookup
deref (p, node) l = do
  d ← or_fail (lookup ℤ_discrete p l) dangling_iterator
  o ← or_fail (lookup ℕ_discrete node d.orders) dangling_iterator
  ok (d, o)

abbrev pub erase_node : ℕ → Orders → Orders
erase_node node = alter ℕ_discrete node (λ _. none)

-- The level without an order, or nothing once it is empty.
abbrev pub without_order : ℕ → OrderQty → LevelData → Option LevelData
without_order node o d =
    if is_empty (erase_node node d.orders)
    then none
    else some
        (record { aggregate_depth = d.aggregate_depth -ℤ o.qty; orders = erase_node node d.orders })

-- One branch of `order_book::remove`; `none` is the early return.
unfoldable pub remove_order : String → BookSide → Result (Option BookSide)
unfolding deref lookup alter erase
remove_order id s = elim (lookup String_discrete id s.cache) [
  | none ↦ ok none
  | some it ↦ do
    (d, o) ← deref it s.ladder
    guard (leb_ℤ (pos 0) (d.aggregate_depth -ℤ o.qty)) assertion_failed
    guard (leb_ℤ (pos 0) (s.aggregate -ℤ o.qty)) assertion_failed
    ok (
        some (record s {
          ladder = alter ℤ_discrete it.0 (without_order it.1 o) s.ladder;
          cache = erase String_discrete id s.cache;
          aggregate = s.aggregate -ℤ o.qty;
        }))
]

-- `iqty->qty -= tick.qty == 0`, where `==` binds tighter.
abbrev pub executed_qty : Qty → Qty → Qty
executed_qty held executed = held -ℤ ite (ℤ_discrete executed (pos 0)) unit_qty (pos 0)

abbrev pub keep_depth : Orders → LevelData → Option LevelData
keep_depth orders d = some (record d { orders = orders })

-- One branch of `order_book::execute`, without the total. `bids_.erase(ilevel->first)` reads
-- `ilevel` through the cache entry that the line before has erased.
unfoldable pub execute_order : String → Qty → BookSide → Result (Option BookSide)
unfolding deref lookup alter erase
execute_order id q s = elim (lookup String_discrete id s.cache) [
  | none ↦ ok none
  | some it ↦ do
    (d, o) ← deref it s.ladder
    ite (ℤ_discrete (executed_qty o.qty q) (pos 0))
        (ok (
          some (record s {
            ladder =
                alter ℤ_discrete it.0
                  (keep_depth (
                    alter ℕ_discrete it.1 (λ _. some (record o { qty = executed_qty o.qty q }))
                      d.orders))
                  s.ladder;
          })))
        (if is_empty (erase_node it.1 d.orders)
          then err use_after_free
          else ok (
              some (record s {
                ladder = alter ℤ_discrete it.0 (keep_depth (erase_node it.1 d.orders)) s.ladder;
                cache = erase String_discrete id s.cache;
              })))
]

-- A copied order list has nodes of its own, past those of the side that it is copied into.
abbrev pub copy_orders : ℕ → Orders → Orders
copy_orders base = map λ n. (base + n.0, n.1)

abbrev pub copy_ladder : ℕ → Ladder → Ladder
copy_ladder base = map λ l. (l.0, record (l.1) { orders = copy_orders base l.1.orders })

-- The loops of `operator=` that rebuild an index, which `emplace` into the cache as it is.
unfoldable pub index_orders : Price → OrderCache → Orders → OrderCache
unfolding emplace
index_orders p cache [] = cache
index_orders p cache ((node, o) ∷ orders) =
    index_orders p (emplace String_discrete o.orderid (p, node) cache) orders

unfoldable pub index_ladder : OrderCache → Ladder → OrderCache
unfolding index_orders
index_ladder cache [] = cache
index_ladder cache ((p, d) ∷ l) = index_ladder (index_orders p cache d.orders) l

-- One side of `target = source`.
unfoldable pub assign_side : BookSide → BookSide → BookSide
unfolding index_ladder
assign_side target source =
    let copied = copy_ladder target.next_node source.ladder in
    record {
      ladder = copied;
      cache = index_ladder target.cache copied;
      aggregate = source.aggregate;
      next_node = target.next_node + source.next_node;
    }

abbrev pub empty_side : BookSide
empty_side = record { ladder = []; cache = []; aggregate = pos 0; next_node = 0 }

-- `reset` clears the containers; nodes that it frees are not named again.
unfoldable pub reset_side : BookSide → BookSide
reset_side s = record s { ladder = []; cache = []; aggregate = pos 0 }

-- What `operator==` compares of a ladder: not the addresses.
abbrev pub level_values : LevelData → Qty × List OrderQty
level_values d = (d.aggregate_depth, map (λ n. n.1) d.orders)

abbrev pub Levels : Type 0
Levels = List (Price × (Qty × List OrderQty))

abbrev pub levels : Ladder → Levels
levels = map λ l. (l.0, level_values l.1)
