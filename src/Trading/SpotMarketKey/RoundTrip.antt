-- ===== src/Trading/SpotMarketKey/RoundTrip.antt =====
-- Keys are printed and parsed: a key that was parsed is in lower case with no separator in its base,
-- and such a key comes back from its text and from the symbol of the exchange.
use arby.Common.{
  ℕ, ◌≡◌, refl, true, false, Bool-cases, inl, inr, none, some, Option-cases, [], ◌∷◌, ◌++◌, map,
  map-append, All, arith,
}
use arby.Common.Result.{ok, err, invalid_argument}
use arby.Trading.SpotMarketKey.{
  Bytes, SpotMarketKey, Case, common_separator, split, spot_key, native_symbol, to_string,
}

abbrev pub HasNoSeparator : Bytes → Type 0
HasNoSeparator = All λ c. common_separator c ≡ false

split_at :
    (s rest : Bytes) (c : ℕ)
    → HasNoSeparator s
    → common_separator c ≡ true
    → split (s ++ c ∷ rest) ≡ some (s, rest)
unfolding split
split_at [] rest c h e = rw e
split_at (x ∷ s) rest c h e = rw (h.0, split_at s rest c h.1 e)

split-none : (s : Bytes) → HasNoSeparator s → split s ≡ none
unfolding split
split-none [] h = refl
split-none (x ∷ s) h = rw (h.0, split-none s h.1)

split-HasNoSeparator :
    (s : Bytes) (before behind : Bytes) → split s ≡ some (before, behind) → HasNoSeparator before
unfolding split
split-HasNoSeparator [] before behind e = cc
split-HasNoSeparator (x ∷ s) before behind e = elim (Bool-cases (common_separator x)) [
  | inl stop ↦ let none_before : before ≡ [] = ground (arith, stop) in rw none_before tt
  | inr on ↦ elim (Option-cases (split s)) [
    | inl gone ↦ absurd (ground (arith, on, gone))
    | inr ((b, r), found) ↦
        let more : before ≡ x ∷ b = ground (arith, on, found) in
        rw more (on, split-HasNoSeparator s b r found)
  ]
]

module _ (case : Case) where
  -- In lower case, with a base that ends where the separator stands.
  pub record IsNormal (k : SpotMarketKey) : Type 0 where
    pub base : HasNoSeparator k.base
    pub lower_base : map case.lower k.base ≡ k.base
    pub lower_term : map case.lower k.term ≡ k.term

  lower-map : (s : Bytes) → map case.lower (map case.lower s) ≡ map case.lower s
  lower-map [] = refl
  lower-map (c ∷ s) = ground (arith, case.lower-lower c, lower-map s)

  upper-map : (s : Bytes) → map case.lower (map case.upper s) ≡ map case.lower s
  upper-map [] = refl
  upper-map (c ∷ s) = ground (arith, case.lower-upper c, upper-map s)

  lower-HasNoSeparator : (s : Bytes) → HasNoSeparator s → HasNoSeparator (map case.lower s)
  lower-HasNoSeparator [] h = tt
  lower-HasNoSeparator (c ∷ s) h = (rw (case.separator-lower c) h.0, lower-HasNoSeparator s h.1)

  upper-HasNoSeparator : (s : Bytes) → HasNoSeparator s → HasNoSeparator (map case.upper s)
  upper-HasNoSeparator [] h = tt
  upper-HasNoSeparator (c ∷ s) h = (rw (case.separator-upper c) h.0, upper-HasNoSeparator s h.1)

  spot_key-to_string : (k : SpotMarketKey) → IsNormal k → spot_key case (to_string k) ≡ ok k
  unfolding spot_key to_string
  spot_key-to_string k n =
      rw (split_at k.base k.term b'/' n.base refl) (ground (arith, n.lower_base, n.lower_term))

  spot_key-native_symbol :
      (k : SpotMarketKey) → IsNormal k → spot_key case (native_symbol case k) ≡ ok k
  unfolding spot_key native_symbol
  spot_key-native_symbol k n =
      rw
        (
          map-append case.upper k.base (b'-' ∷ k.term),
          split_at (map case.upper k.base) (map case.upper k.term) (case.upper b'-')
              (upper-HasNoSeparator k.base n.base) (case.separator-upper b'-'),
        )
        (ground (arith, upper-map k.base, upper-map k.term, n.lower_base, n.lower_term))

  spot_key-IsNormal : (s : Bytes) (k : SpotMarketKey) → spot_key case s ≡ ok k → IsNormal k
  unfolding spot_key
  spot_key-IsNormal s k e = elim (Option-cases (split s)) [
    | inl gone ↦ absurd (ground (arith, gone))
    | inr ((b, t), found) ↦
        let made : k ≡ record { base = map case.lower b; term = map case.lower t } =
          ground (arith, found) in
        rw made (record {
          base = lower-HasNoSeparator b (split-HasNoSeparator s b t found);
          lower_base = lower-map b;
          lower_term = lower-map t;
        })
  ]

  pub spot_key_fails : (s : Bytes) → HasNoSeparator s → spot_key case s ≡ err invalid_argument
  unfolding spot_key
  spot_key_fails s h = rw (split-none s h)

  -- Whatever is parsed is normal: in lower case, with no separator in its base. It comes back from its
  -- text, and from the symbol that the exchange knows it by.
  pub spot_key_round_trips :
      (s : Bytes) (k : SpotMarketKey)
      → spot_key case s ≡ ok k
      → IsNormal k
        × (spot_key case (to_string k) ≡ ok k)
        × (spot_key case (native_symbol case k) ≡ ok k)
  spot_key_round_trips s k e =
      let n : IsNormal k = spot_key-IsNormal s k e in
      (n, spot_key-to_string k n, spot_key-native_symbol k n)
