-- ===== src/Common/Result.antt =====
-- Results of code that can fail: by an exception that the C++ code throws, by an `assert` of a
-- debug build, or by undefined behaviour.
use mathlib.Core.Path.{◌≡◌, refl}
use mathlib.Core.Bool.{Bool, true, false}
use mathlib.Core.Option.{Option, none, some}

pub data Fault : Type 0 where
  dangling_iterator use_after_free bad_downcast null_reference : Fault
  assertion_failed signed_overflow : Fault
  invalid_argument out_of_range bad_cast bad_optional bad_regex bad_executor : Fault
  not_connected write_failed length_error : Fault

pub data Result {ℓ} (A : Type ℓ) : Type ℓ where
  err : Fault → Result A
  ok : A → Result A

-- The value behind a pointer or an iterator, if it leads to one.
abbrev pub or_fail {ℓ} : {A : Type ℓ} → Option A → Fault → Result A
or_fail (some a) fault = ok a
or_fail none fault = err fault

abbrev pub map_ok {ℓ κ} : {A : Type ℓ} {B : Type κ} → (A → B) → Result A → Result B
map_ok f (ok a) = ok (f a)
map_ok f (err fault) = err fault

infixl 5 ◌>>=◌ ◌>>◌
abbrev pub ◌>>=◌ {κ ℓ} : {B : Type κ} {A : Type ℓ} → Result B → (B → Result A) → Result A
err fault >>= next = err fault
ok b >>= next = next b

-- `assert(b)`, or a check that throws.
abbrev pub guard : Bool → Fault → Result (Unit {0})
guard false fault = err fault
guard true fault = ok tt

abbrev pub ◌>>◌ {κ} : {A : Type κ} → Result (Unit {0}) → Result A → Result A
m >> rest = m >>= λ _. rest

-- A chain that ends well went through its first step.
pub first_ok {κ ℓ} :
    {B : Type κ} {A : Type ℓ} (first : Result B) (next : B → Result A) {end : A}
    → (first >>= next) ≡ ok end
    → (b : B) × (next b ≡ ok end) × (first ≡ ok b)
first_ok (err fault) next chain = cc
first_ok (ok b) next chain = (b, chain, refl)

pub or_fail_ok {ℓ} :
    {A : Type ℓ} (o : Option A) (fault : Fault) {a : A} → or_fail o fault ≡ ok a → o ≡ some a
or_fail_ok none fault found = cc
or_fail_ok (some a) fault found = cc
