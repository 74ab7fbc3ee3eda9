-- ===== src/Entity/Keys.antt =====
-- `entity_key` of arby/entity/entity_key.hpp and .cpp: keys that share an implementation until one of
-- them is written. A key is a number, and its pointer an address of the heap; `std::less` on
-- texts, the hash functions and SHA-1 are parameters.
pub mod Maps
pub mod Sharing
use arby.Common.{
  ℕ, suc, ◌+◌, ◌≡◌, ℕ_discrete, String, String_discrete, Bool, true, false, not, ◌==◌,
  if◌then◌else◌, ite, Option, none, some, List, [], ◌∷◌,
}
use arby.Common.Assoc.{lookup, assign, erase}
use arby.Common.Result.{
  Result, ok, err, ◌>>=◌, ◌>>◌, guard, or_fail, assertion_failed, null_reference,
}
use arby.Entity.Digest.{Bytes, stringify}

-- `map_type`: the entries in the order of their keys.
abbrev pub Values : Type 0
Values = List (String × String)

pub record Impl : Type 0 where
  pub values : Values
  pub cpphash : ℕ
  pub sha1hash : Bytes
  pub locked : Bool

-- The constructor of `impl`, which `clone` calls too.
abbrev pub new_impl : Values → Impl
new_impl values = record { values = values; cpphash = 0; sha1hash = []; locked = false }

abbrev pub Address : Type 0
Address = ℕ

abbrev pub Key : Type 0
Key = ℕ

pub record World : Type 0 where
  pub impls : Address → Impl
  pub keys : List (Key × Address)
  pub fresh : Address

abbrev pub empty_world : World
empty_world = record { impls = λ a. new_impl []; keys = []; fresh = 0 }

pub record Library : Type 0 where
  pub before : String → String → Bool
  pub hash_values : Values → ℕ
  pub sha1 : Values → Bytes

-- `use_count`
unfoldable pub owners : Address → List (Key × Address) → ℕ
owners a [] = 0
owners a ((k, b) ∷ m) = let rest = owners a m in if a == b then suc rest else rest

abbrev pub write : Address → Impl → World → World
write a x w = record w { impls = λ b. ite (ℕ_discrete b a) x (w.impls b) }

-- A new implementation for the key.
unfoldable pub make : Key → Values → World → World
make k values w = record (write w.fresh (new_impl values) w) {
  keys = assign ℕ_discrete k w.fresh w.keys;
  fresh = w.fresh + 1;
}

abbrev pub address : Key → World → Result Address
address k w = or_fail (lookup ℕ_discrete k w.keys) null_reference

-- The copy constructor and the assignment share the implementation.
unfoldable pub copy : Key → Key → World → Result World
copy k j w = address j w >>= λ a. ok (record w { keys = assign ℕ_discrete k a w.keys })

-- The destructor.
unfoldable pub drop : Key → World → Result World
drop k w = address k w >>= λ a. ok (record w { keys = erase ℕ_discrete k w.keys })

-- What is written through `copy_check()`: the values in place if the key is the only owner, and else
-- those of a clone.
unfoldable pub change : Key → Address → (Values → Values) → World → World
unfolding make
change k a f w =
    if owners a w.keys == 1
    then write a (record (w.impls a) { values = f (w.impls a).values }) w
    else make k (f (w.impls a).values) w

pub data Op : Type 0 where
  made : Key → Values → Op
  copied : Key → Key → Op
  entered : Key → String → String → Op
  merged : Key → Key → Op
  locked hashed digested dropped : Key → Op

module _ (library : Library) where
  -- `values[key] = value`
  unfoldable pub put : String → String → Values → Values
  put k v [] = (k, v) ∷ []
  put k v ((j, w) ∷ m) =
      let rest = put k v m in
      ite (String_discrete k j) ((j, v) ∷ m)
        (if library.before k j then (k, v) ∷ (j, w) ∷ m else (j, w) ∷ rest)

  -- `target.emplace(k, v)`: an entry that is there stays.
  unfoldable pub emplace : String → String → Values → Values
  emplace k v m = elim (lookup String_discrete k m) [ some old ↦ m | none ↦ put k v m ]

  unfoldable pub emplace_all : Values → Values → Values
  emplace_all [] target = target
  emplace_all ((k, v) ∷ other) target = emplace_all other (emplace k v target)

  unfoldable pub set : Key → String → String → World → Result World
  set k key value w = address k w >>= λ a. ok (change k a (put key value) w)

  unfoldable pub merge : Key → Key → World → Result World
  merge k j w = do
    a ← address k w
    b ← address j w
    guard (not (w.impls a).locked) assertion_failed
    ok (change k a (emplace_all (w.impls b).values) w)

  -- The first assertion is the source's.
  unfoldable pub lock : Key → World → Result World
  lock k w = do
    a ← address k w
    guard (w.impls a).locked assertion_failed
    guard ((w.impls a).cpphash == 0) assertion_failed
    ok (
        write a
          (record (w.impls a) {
            cpphash = library.hash_values (w.impls a).values;
            sha1hash = stringify (library.sha1 (w.impls a).values);
            locked = true;
          })
          w)

  -- `hash_value`
  unfoldable pub hash_value : Key → World → Result ℕ
  hash_value k w =
      address k w >>= λ a. guard (w.impls a).locked assertion_failed >> ok (w.impls a).cpphash

  unfoldable pub sha1_digest : Key → World → Result Bytes
  sha1_digest k w =
      address k w >>= λ a. guard (w.impls a).locked assertion_failed >> ok (w.impls a).sha1hash

  unfoldable pub step : Op → World → Result World
  step (made k values) w = ok (make k values w)
  step (copied k j) w = copy k j w
  step (entered k key value) w = set k key value w
  step (merged k j) w = merge k j w
  step (locked k) w = lock k w
  step (hashed k) w = hash_value k w >>= λ h. ok w
  step (digested k) w = sha1_digest k w >>= λ d. ok w
  step (dropped k) w = drop k w

  unfoldable pub run : List Op → World → Result World
  run [] w = ok w
  run (op ∷ ops) w = step op w >>= run ops
