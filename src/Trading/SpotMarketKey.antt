-- ===== src/Trading/SpotMarketKey.antt =====
-- arby/trading/spot_market_key.hpp and .cpp, arby/trading/market_key.hpp and .cpp (a variant of this
-- key alone), and arby/power_trade/native_symbol.cpp. A text is its bytes. The case mappings are those
-- of boost::algorithm under the locale of the process, and a parameter here.
pub mod RoundTrip
use arby.Common.{
  ℕ, ◌≡◌, Bool, true, false, ◌||◌, ◌==◌, if◌then◌else◌, Option, none, some, List, [], ◌∷◌, ◌++◌,
  map,
}
use arby.Common.Result.{Result, ok, ◌>>=◌, or_fail, invalid_argument}

abbrev pub Bytes : Type 0
Bytes = List ℕ

pub record SpotMarketKey : Type 0 where
  pub base : Bytes
  pub term : Bytes

abbrev pub common_separator : ℕ → Bool
common_separator c = c == b'/' || c == b'-' || c == b' ' || c == b'_'

-- `find_if`, and the texts before and behind the separator that it finds.
unfoldable pub split : Bytes → Option (Bytes × Bytes)
split [] = none
split (c ∷ s) =
    let rest = split s in
    if common_separator c
    then some ([], s)
    else elim rest [ none ↦ none | some (before, behind) ↦ some (c ∷ before, behind) ]

-- What the program asks of a case mapping: separators and letters do not mix, and lower case forgets
-- the case.
pub record Case : Type 0 where
  pub lower : ℕ → ℕ
  pub upper : ℕ → ℕ
  pub lower-lower : (c : ℕ) → lower (lower c) ≡ lower c
  pub lower-upper : (c : ℕ) → lower (upper c) ≡ lower c
  pub separator-lower : (c : ℕ) → common_separator (lower c) ≡ common_separator c
  pub separator-upper : (c : ℕ) → common_separator (upper c) ≡ common_separator c

module _ (case : Case) where
  -- `spot_key`: a text with no separator throws.
  unfoldable pub spot_key : Bytes → Result SpotMarketKey
  unfolding split
  spot_key s = do
    parts ← or_fail (split s) invalid_argument
    ok (record { base = map case.lower parts.0; term = map case.lower parts.1 })

  unfoldable pub native_symbol : SpotMarketKey → Bytes
  native_symbol k = map case.upper (k.base ++ b'-' ∷ k.term)

unfoldable pub to_string : SpotMarketKey → Bytes
to_string k = k.base ++ b'/' ∷ k.term
