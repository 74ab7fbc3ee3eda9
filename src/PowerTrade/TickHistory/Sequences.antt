-- ===== src/PowerTrade/TickHistory/Sequences.antt =====
-- arby/power_trade/tick_history.hpp: what the history uses of `std::map` and `std::multiset`, on
-- lists in the order of their keys.
use arby.Common.{ℕ, if◌then◌else◌, List, [], ◌∷◌, map, ltb, ◌==◌, Option, none, some}

module _ {ℓ} {A : Type ℓ} where
  -- `history.emplace(s, t)`: an entry that is there stays.
  unfoldable pub emplace : ℕ → A → List (ℕ × A) → List (ℕ × A)
  emplace s t [] = (s, t) ∷ []
  emplace s t ((r, u) ∷ h) =
      let rest = emplace s t h in
      if s == r then (r, u) ∷ h else if ltb s r then (s, t) ∷ (r, u) ∷ h else (r, u) ∷ rest

  -- `history.erase(history.begin(), history.lower_bound(s))`
  unfoldable pub erase_below : ℕ → List (ℕ × A) → List (ℕ × A)
  erase_below s [] = []
  erase_below s ((r, t) ∷ h) = let rest = erase_below s h in if ltb r s then rest else (r, t) ∷ h

  unfoldable pub find : ℕ → List (ℕ × A) → Option A
  find s [] = none
  find s ((r, t) ∷ h) = if s == r then some t else find s h

  -- The ticks from the iterator after that of `s` to the end.
  unfoldable pub after : ℕ → List (ℕ × A) → List A
  after s [] = []
  after s ((r, t) ∷ h) = if s == r then map (λ e. e.1) h else after s h

-- `watermarks.insert(w)`
unfoldable pub insert : ℕ → List ℕ → List ℕ
insert w [] = w ∷ []
insert w (v ∷ ws) = if ltb w v then w ∷ v ∷ ws else v ∷ insert w ws

-- `watermarks.erase(w)`: all that are equal to it.
unfoldable pub erase : ℕ → List ℕ → List ℕ
erase w [] = []
erase w (v ∷ ws) = let rest = erase w ws in if w == v then rest else v ∷ rest
