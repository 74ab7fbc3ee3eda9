-- ===== src/Util/Monitor/Steps.antt =====
-- What each operation on sentinels keeps of the set of instances.
use arby.Common.{
  ℕ, ◌+◌, ◌%◌, ◌≡◌, ◌<◌, refl, subst, ap, String, String_discrete, ℕ_discrete, Bool, true, false,
  none, some, List, [], ◌∷◌, All-map, arith,
}
use arby.Common.Assoc.{lookup, assign, erase, lookup-assign}
use arby.Common.Result.{Result, ok, err, ◌>>=◌, or_fail, null_reference}
use arby.Common.Totals.{
  total-append, total-assign_new, total-assign_old, total-erase, assign-Distinct, erase-Distinct,
  le_total,
}
use arby.Util.Monitor.{
  Node, Instance, Sentinel, SentinelId, Monitor, size_mod, insert, next_index, record_instance,
  move_construct, erase_instance, end_sentinel, destroy, Op, recorded, moved, destroyed, step,
}
use arby.Util.Monitor.Kept.{
  keeps, is_at, IsBelow, Differs, IsKept, All-snoc, AllDiffer-snoc, All-erase, AllDiffer-erase,
  is_at-erase, find_same-none, lookup-is_at,
}

-- A new sentinel has a new name, and its version does not wrap; others are there.
abbrev pub Enabled : Op → Monitor → Type 0
Enabled (recorded k name now) m =
    (lookup ℕ_discrete k m.sentinels ≡ none) × (next_index name m + 1 < size_mod)
Enabled (moved k j) m =
    (lookup ℕ_discrete k m.sentinels ≡ none)
    × ((s : Sentinel) × (lookup ℕ_discrete j m.sentinels ≡ some s))
Enabled (destroyed k) m = (s : Sentinel) × (lookup ℕ_discrete k m.sentinels ≡ some s)

abbrev pub Then : (Monitor → Type 0) → Result Monitor → Type 0
Then P (ok m) = P m
Then P (err fault) = Unit

abbrev pub Legal : List Op → Monitor → Type 0
Legal [] m = Unit
Legal (op ∷ ops) m = Enabled op m × Then (Legal ops) (step op m)

abbrev pub Goes : Result Monitor → Type 0
Goes r = (m : Monitor) × (r ≡ ok m) × IsKept m

IsBelow-more :
    (name : String) (v : ℕ) (index : List (String × ℕ)) (x : Node × Instance)
    → v ≡ (elim (lookup String_discrete name index) [ none ↦ 0 | some w ↦ w ])
    → v + 1 < size_mod
    → IsBelow index x
    → IsBelow (assign String_discrete name ((v + 1) % size_mod) index) x
IsBelow-more name v index (n, i) e fits below =
    ground
      (arith, e, fits, below, lookup-assign String_discrete name i.name ((v + 1) % size_mod) index)

IsBelow-new :
    (name : String) (v : ℕ) (index : List (String × ℕ)) (n now : ℕ)
    → v + 1 < size_mod
    → IsBelow
        (assign String_discrete name ((v + 1) % size_mod) index)
        (n, record { name = name; version = v; creation_time = now })
IsBelow-new name v index n now fits =
    ground (arith, fits, lookup-assign String_discrete name name ((v + 1) % size_mod) index)

Differs-new :
    (i : Instance) (index : List (String × ℕ)) (n : Node) (y : Node × Instance)
    → i.version ≡ (elim (lookup String_discrete i.name index) [ none ↦ 0 | some w ↦ w ])
    → IsBelow index y
    → Differs y (n, i)
Differs-new i index n (j, k) e below same_name same_version = omega (
  arith,
  same_version,
  e,
  subst (λ s. k.version < (elim (lookup String_discrete s index) [ none ↦ 0 | some w ↦ w ]))
      same_name below,
)

recorded-IsKept :
    (k : SentinelId) (name : String) (now : ℕ) (m : Monitor)
    → IsKept m
    → Enabled (recorded k name now) m
    → IsKept (record_instance k name now m)
unfolding record_instance insert
recorded-IsKept k name now m h (free, fits) =
    let v : ℕ = next_index name m in
    let i : Instance = record { name = name; version = v; creation_time = now } in
    let n : Node = m.next_node in
    let s : Sentinel = record { iter = n; valid = true } in
    rw (record_instance, insert, find_same-none i m.next_index_ m.instances_ refl h.below)
      (record {
        once = λ j. ground (
          arith,
          h.once j,
          total-assign_new (keeps j) k s m.sentinels free,
          total-append (is_at j) m.instances_ ((n, i) ∷ []),
        );
        single = λ j. ground (arith, h.single j, total-append (is_at j) m.instances_ ((n, i) ∷ []));
        below =
            All-snoc _ m.instances_ (n, i)
              (All-map (IsBelow m.next_index_) _ m.instances_
                (λ x. IsBelow-more name v m.next_index_ x refl fits) h.below)
              (IsBelow-new name v m.next_index_ n now fits);
        differ =
            AllDiffer-snoc (n, i) m.instances_ h.differ
              (All-map (IsBelow m.next_index_) _ m.instances_
                (λ y. Differs-new i m.next_index_ n y refl) h.below);
        apart = assign-Distinct k s m.sentinels h.apart;
      })

moved-Goes :
    (k j : SentinelId) (m : Monitor)
    → IsKept m
    → Enabled (moved k j) m
    → Goes (move_construct k j m)
unfolding move_construct
moved-Goes k j m h (free, (s, there)) =
    let empty : Sentinel = record { iter = s.iter; valid = false } in
    (
      _,
      ap
          (λ found. or_fail found null_reference >>= λ t. ok (record m {
            sentinels =
                assign ℕ_discrete k t
                  (assign ℕ_discrete j (record { iter = t.iter; valid = false }) m.sentinels);
          }))
          there,
      record {
        once = λ n. ground (
          arith,
          h.once n,
          total-assign_old (keeps n) j empty s m.sentinels there,
          total-assign_new (keeps n) k s (assign ℕ_discrete j empty m.sentinels)
              (ground (arith, free, there, lookup-assign ℕ_discrete j k empty m.sentinels)),
        );
        single = h.single;
        below = h.below;
        differ = h.differ;
        apart =
            assign-Distinct k s (assign ℕ_discrete j empty m.sentinels)
              (assign-Distinct j empty m.sentinels h.apart);
      },
    )

-- The end of a sentinel, whether it is valid or was moved from.
ended-Goes :
    (valid : Bool) (n : Node) (k : SentinelId) (m : Monitor)
    → IsKept m
    → lookup ℕ_discrete k m.sentinels ≡ some (record { iter = n; valid = valid })
    → Goes (
        end_sentinel (record { iter = n; valid = valid }) m >>= λ l.
        ok (record l { sentinels = erase ℕ_discrete k l.sentinels }))
unfolding erase_instance
ended-Goes true n k m h there =
    let s : Sentinel = record { iter = n; valid = true } in
    let (i, found) =
      lookup-is_at n m.instances_
        (ground (arith, h.once n, le_total (keeps n) k s m.sentinels there)) in
    (
      record m {
        instances_ = erase ℕ_discrete n m.instances_;
        sentinels = erase ℕ_discrete k m.sentinels;
      },
      rw found refl,
      record {
        once = λ j. ground (
          arith,
          h.once j,
          h.single j,
          is_at-erase n j m.instances_,
          total-erase (keeps j) k s m.sentinels h.apart there,
        );
        single = λ j. ground (arith, h.single j, is_at-erase n j m.instances_);
        below = All-erase (IsBelow m.next_index_) n m.instances_ h.below;
        differ = AllDiffer-erase n m.instances_ h.differ;
        apart = erase-Distinct k m.sentinels h.apart;
      },
    )
ended-Goes false n k m h there = (
  record m { sentinels = erase ℕ_discrete k m.sentinels },
  refl,
  record {
    once = λ j. ground (
      arith,
      h.once j,
      total-erase (keeps j) k (record { iter = n; valid = false }) m.sentinels h.apart there,
    );
    single = h.single;
    below = h.below;
    differ = h.differ;
    apart = erase-Distinct k m.sentinels h.apart;
  },
)

pub step-Goes : (op : Op) (m : Monitor) → IsKept m → Enabled op m → Goes (step op m)
unfolding step destroy
step-Goes (recorded k name now) m h e = (_, refl, recorded-IsKept k name now m h e)
step-Goes (moved k j) m h e = moved-Goes k j m h e
step-Goes (destroyed k) m h (s, there) =
    let (l, done, kept) = ended-Goes s.valid s.iter k m h there in (l, rw there done, kept)
