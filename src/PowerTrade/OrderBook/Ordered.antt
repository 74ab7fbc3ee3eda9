-- ===== src/PowerTrade/OrderBook/Ordered.antt =====
-- arby/power_trade/order_book.hpp: a ladder is a `std::map` under its comparator. Its prices stand in
-- the order of the comparator, and none stands twice.
use arby.Common.{
  ◌≡◌, ◌≢◌, refl, Bool, true, false, Option, none, some, [], ◌∷◌, All, All-map, ite, arith,
}
use mathlib.Core.Option
use arby.Common.Int.{ℤ_discrete}
use arby.Common.Assoc.{lookup, alter, Distinct}
use arby.Trading.Types.{Price}
use arby.PowerTrade.OrderBook.Side.{LevelData, Ladder, empty_level, emplace_level}

-- What the containers ask of a comparator.
pub record IsStrictOrder (before : Price → Price → Bool) : Type 0 where
  pub irrefl : (p : Price) → before p p ≡ false
  pub trans : (p q r : Price) → before p q ≡ true → before q r ≡ true → before p r ≡ true
  pub total : (p q : Price) → p ≢ q → before p q ≡ false → before q p ≡ true

module _ (before : Price → Price → Bool) where
  abbrev pub IsFirst : Price → Ladder → Type 0
  IsFirst p = All λ e. before p e.0 ≡ true

  abbrev pub IsOrdered : Ladder → Type 0
  IsOrdered [] = Unit
  IsOrdered ((p, d) ∷ l) = IsFirst p l × IsOrdered l

  pub alter-IsFirst :
      (p q : Price) (f : LevelData → Option LevelData) (l : Ladder)
      → IsFirst p l
      → IsFirst p (alter ℤ_discrete q f l)
  unfolding alter
  alter-IsFirst p q f [] h = tt
  alter-IsFirst p q f ((r, d) ∷ l) h = ground (arith, alter-IsFirst p q f l h.1)

  pub alter-IsOrdered :
      (q : Price) (f : LevelData → Option LevelData) (l : Ladder)
      → IsOrdered l
      → IsOrdered (alter ℤ_discrete q f l)
  unfolding alter
  alter-IsOrdered q f [] h = tt
  alter-IsOrdered q f ((r, d) ∷ l) h =
      ground (arith, alter-IsOrdered q f l h.1, alter-IsFirst r q f l h.0)

  emplace_level-IsFirst :
      (p q : Price) (l : Ladder)
      → before p q ≡ true
      → IsFirst p l
      → IsFirst p (emplace_level before q l)
  unfolding emplace_level
  emplace_level-IsFirst p q [] b h = (b, tt)
  emplace_level-IsFirst p q ((r, d) ∷ l) b h = ground (arith, emplace_level-IsFirst p q l b h.1)

  module _ (order : IsStrictOrder before) where
    pub lookup-IsFirst : (p : Price) (l : Ladder) → IsFirst p l → lookup ℤ_discrete p l ≡ none
    unfolding lookup
    lookup-IsFirst p [] h = refl
    lookup-IsFirst p ((q, d) ∷ l) h = ground (arith, lookup-IsFirst p l h.1, order.irrefl p)

    pub IsOrdered-Distinct : (l : Ladder) → IsOrdered l → Distinct ℤ_discrete l
    IsOrdered-Distinct [] h = tt
    IsOrdered-Distinct ((p, d) ∷ l) h = (lookup-IsFirst p l h.0, IsOrdered-Distinct l h.1)

    IsFirst-trans : (p q : Price) (l : Ladder) → before p q ≡ true → IsFirst q l → IsFirst p l
    IsFirst-trans p q l b h =
        All-map (λ e. before q e.0 ≡ true) (λ e. before p e.0 ≡ true) l (λ e. order.trans p q e.0 b)
          h

    pub emplace_level-IsOrdered :
        (p : Price) (l : Ladder) → IsOrdered l → IsOrdered (emplace_level before p l)
    unfolding emplace_level
    emplace_level-IsOrdered p [] h = (tt, tt)
    emplace_level-IsOrdered p ((q, d) ∷ l) h = ground (
      arith,
      emplace_level-IsOrdered p l h.1,
      IsFirst-trans p q l,
      emplace_level-IsFirst q p l,
      order.total p q,
    )

    -- A level that is there is found again, and a new one is empty.
    pub lookup-emplace_level :
        (p q : Price) (l : Ladder)
        → IsOrdered l
        → lookup ℤ_discrete q (emplace_level before p l)
          ≡ ite
              (ℤ_discrete q p)
              (some (Option.get_or (lookup ℤ_discrete p l) empty_level))
              (lookup ℤ_discrete q l)
    unfolding lookup emplace_level
    lookup-emplace_level p q [] h = ground arith
    lookup-emplace_level p q ((r, d) ∷ l) h =
        ground (arith, lookup-emplace_level p q l h.1, lookup-IsFirst p l, IsFirst-trans p r l)
