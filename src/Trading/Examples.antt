-- ===== src/Trading/Examples.antt =====
-- Keys of markets at concrete texts, with the case mapping of ASCII.
use arby.Common.{ℕ, ◌+◌, ◌-◌, ◌≡◌, refl, ◌&&◌, leb, if◌then◌else◌, [], ◌∷◌, arith}
use arby.Common.Result.{ok}
use arby.Trading.SpotMarketKey.{
  Bytes, SpotMarketKey, Case, common_separator, split, spot_key, native_symbol, to_string,
}
use arby.Trading.SpotMarketKey.RoundTrip.{IsNormal, spot_key_round_trips}

abbrev ascii_lower : ℕ → ℕ
ascii_lower c = if leb 65 c && leb c 90 then c + 32 else c

abbrev ascii_upper : ℕ → ℕ
ascii_upper c = if leb 97 c && leb c 122 then c - 32 else c

lower-lower : (c : ℕ) → ascii_lower (ascii_lower c) ≡ ascii_lower c
lower-lower c = ground arith

lower-upper : (c : ℕ) → ascii_lower (ascii_upper c) ≡ ascii_lower c
lower-upper c = ground arith

separator-lower : (c : ℕ) → common_separator (ascii_lower c) ≡ common_separator c
separator-lower c = ground arith

separator-upper : (c : ℕ) → common_separator (ascii_upper c) ≡ common_separator c
separator-upper c = ground arith

abbrev ascii : Case
ascii = record {
  lower = ascii_lower;
  upper = ascii_upper;
  lower-lower = lower-lower;
  lower-upper = lower-upper;
  separator-lower = separator-lower;
  separator-upper = separator-upper;
}

abbrev btc_usd : SpotMarketKey
btc_usd = record { base = b'b' ∷ b't' ∷ b'c' ∷ []; term = b'u' ∷ b's' ∷ b'd' ∷ [] }

abbrev mixed : Bytes
mixed = b'B' ∷ b't' ∷ b'C' ∷ b'_' ∷ b'u' ∷ b'S' ∷ b'd' ∷ []

spot_key_round_trips_example :
    IsNormal ascii btc_usd
    × (spot_key ascii (to_string btc_usd) ≡ ok btc_usd)
    × (spot_key ascii (native_symbol ascii btc_usd) ≡ ok btc_usd)
unfolding spot_key split
spot_key_round_trips_example = spot_key_round_trips ascii mixed btc_usd refl
