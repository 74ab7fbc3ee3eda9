-- ===== src/Web/EntityDetail/RoundTrip.antt =====
-- Digests written by arby/entity/entity_key.cpp and read by arby/web/entity_detail_app.cpp.
use arby.Common.{
  Bool-cases, inl, inr, ℕ, zero, suc, ◌+◌, ◌*◌, ◌/◌, ◌%◌, ◌<◌, ◌≡◌, refl, ◌==◌, leb, ◌&&◌,
  if◌then◌else◌, ℕ_discrete, [], ◌∷◌, map, length, All, some, arith,
}
use arby.Common.Assoc.{lookup, All-lookup}
use arby.Common.Result.{ok, ◌>>=◌, first_ok, or_fail_ok, invalid_argument}
use arby.Entity.Digest.{Bytes, to_hex, stringify}
use arby.Web.EntityDetail.{cases, to_value, read_bytes, to_sha1_digest}

to_value-to_hex : (n : ℕ) → n < 16 → to_value (to_hex n) ≡ ok n
unfolding to_value to_hex lookup ℕ_discrete
to_value-to_hex zero small = refl
to_value-to_hex (suc zero) small = refl
to_value-to_hex (suc (suc zero)) small = refl
to_value-to_hex (suc (suc (suc zero))) small = refl
to_value-to_hex (suc (suc (suc (suc zero)))) small = refl
to_value-to_hex (suc (suc (suc (suc (suc zero))))) small = refl
to_value-to_hex (suc (suc (suc (suc (suc (suc zero)))))) small = refl
to_value-to_hex (suc (suc (suc (suc (suc (suc (suc zero))))))) small = refl
to_value-to_hex (suc (suc (suc (suc (suc (suc (suc (suc zero)))))))) small = refl
to_value-to_hex (suc (suc (suc (suc (suc (suc (suc (suc (suc zero))))))))) small = refl
to_value-to_hex (suc (suc (suc (suc (suc (suc (suc (suc (suc (suc zero)))))))))) small = refl
to_value-to_hex (suc (suc (suc (suc (suc (suc (suc (suc (suc (suc (suc zero))))))))))) small = refl
to_value-to_hex (suc (suc (suc (suc (suc (suc (suc (suc (suc (suc (suc (suc zero)))))))))))) small =
    refl
to_value-to_hex (suc (suc (suc (suc (suc (suc (suc (suc (suc (suc (suc (suc (suc zero)))))))))))))
      small =
    refl
to_value-to_hex
      (suc (suc (suc (suc (suc (suc (suc (suc (suc (suc (suc (suc (suc (suc zero))))))))))))))
      small =
    refl
to_value-to_hex
      (suc (suc (suc (suc (suc (suc (suc (suc (suc (suc (suc (suc (suc (suc (suc zero)))))))))))))))
      small =
    refl
to_value-to_hex
      (suc
        (suc (suc (suc (suc (suc (suc (suc (suc (suc (suc (suc (suc (suc (suc (suc n))))))))))))))))
      small =
    absurd (omega arith)

read_bytes-stringify : (ds : Bytes) → All (λ b. b < 256) ds → read_bytes (stringify ds) ≡ ok ds
unfolding read_bytes stringify
read_bytes-stringify [] small = refl
read_bytes-stringify (b ∷ ds) small =
    let whole : (b / 16 * 16 + b % 16) % 256 ≡ b = omega (arith, small.0) in
    rw
      (
        to_value-to_hex (b / 16) (omega (arith, small.0)),
        to_value-to_hex (b % 16) (omega arith),
        read_bytes-stringify ds small.1,
        whole,
      )
      refl

length-stringify : (ds : Bytes) → length (stringify ds) ≡ 2 * length ds
unfolding stringify
length-stringify [] = refl
length-stringify (b ∷ ds) = omega (arith, length-stringify ds)

-- A digest of 20 bytes comes back from its text.
pub to_sha1_digest-stringify :
    (ds : Bytes) → length ds ≡ 20 → All (λ b. b < 256) ds → to_sha1_digest (stringify ds) ≡ ok ds
unfolding to_sha1_digest
to_sha1_digest-stringify ds size small =
    let forty : length (stringify ds) ≡ 40 = omega (arith, length-stringify ds) in
    rw (forty, read_bytes-stringify ds small) refl

-- The lower case of a hexadecimal digit.
abbrev pub lower_digit : ℕ → ℕ
lower_digit c = if leb b'A' c && leb c b'F' then c + 32 else c

cases-right : All (λ x. (x.1 < 16) × (to_hex x.1 ≡ lower_digit x.0)) cases
unfolding to_hex
cases-right = omega arith

-- What a digit of any case stands for.
to_hex-to_value : (c n : ℕ) → to_value c ≡ ok n → (n < 16) × (to_hex n ≡ lower_digit c)
unfolding to_value
to_hex-to_value c n e =
    let found : lookup ℕ_discrete c cases ≡ some n =
      or_fail_ok (lookup ℕ_discrete c cases) invalid_argument e in
    All-lookup ℕ_discrete (λ x. (x.1 < 16) × (to_hex x.1 ≡ lower_digit x.0)) cases c n cases-right
      found

read_bytes-right :
    (s ds : Bytes)
    → read_bytes s ≡ ok ds
    → (stringify ds ≡ map lower_digit s) × All (λ b. b < 256) ds × (2 * length ds ≡ length s)
unfolding read_bytes stringify
read_bytes-right [] ds e = let none : [] ≡ ds = cc in rw (← none) (refl, tt, refl)
read_bytes-right (c ∷ []) ds e = absurd (cc)
read_bytes-right (c ∷ d ∷ s) ds e =
    let (h, more, high) =
      first_ok (to_value c)
        (λ h. to_value d >>= λ l. read_bytes s >>= λ rest. ok ((h * 16 + l) % 256 ∷ rest)) e in
    let (l, last, low) =
      first_ok (to_value d) (λ l. read_bytes s >>= λ rest. ok ((h * 16 + l) % 256 ∷ rest)) more in
    let (rest, made, found) =
      first_ok (read_bytes s) (λ rest. ok ((h * 16 + l) % 256 ∷ rest)) last in
    let (small_h, hex_h) = to_hex-to_value c h high in
    let (small_l, hex_l) = to_hex-to_value d l low in
    let (text, small, size) = read_bytes-right s rest found in
    let made' : (h * 16 + l) % 256 ∷ rest ≡ ds = cc in
    let top : ((h * 16 + l) % 256) / 16 ≡ h = omega (arith, small_h, small_l) in
    let bottom : ((h * 16 + l) % 256) % 16 ≡ l = omega (arith, small_h, small_l) in
    rw (← made')
      (rw (top, bottom, hex_h, hex_l, text) refl, (omega arith, small), omega (arith, size))

-- A text is read only as the digest that is written as it is, but for the case of its digits: that has
-- 20 bytes, each below 256.
pub stringify-to_sha1_digest :
    (s ds : Bytes)
    → to_sha1_digest s ≡ ok ds
    → (stringify ds ≡ map lower_digit s) × (length ds ≡ 20) × All (λ b. b < 256) ds
unfolding to_sha1_digest
stringify-to_sha1_digest s ds e = elim (Bool-cases (length s == 40)) [
  | inl forty ↦
      let read : read_bytes s ≡ ok ds = rw (← e, forty) refl in
      let (text, small, size) = read_bytes-right s ds read in
      (text, ground (arith, forty, size), small)
  | inr other ↦ absurd (ground (arith, other))
]
