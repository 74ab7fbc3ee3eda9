-- ===== src/Util/Truncate.antt =====
-- lib/util/truncate.hpp and .cpp: truncated texts, in buffers that a thread's `string_list` hands out and
-- takes back. A node is an address, with its text in `text`; `first` has the free nodes in the order
-- of their links.
pub mod Buffers
pub mod Runs
use arby.Common.{
  ℕ, suc, ◌+◌, ◌-◌, ◌≡◌, max, ℕ_discrete, Bool, true, false, ltb, if◌then◌else◌, ite, Option, none,
  some, List, [], ◌∷◌, ◌++◌, length, take,
}

abbrev pub Text : Type 0
Text = List ℕ

abbrev pub Address : Type 0
Address = ℕ

pub record StringList : Type 0 where
  pub text : Address → Text
  pub first : List Address
  -- The allocator's next address.
  pub fresh : Address

abbrev pub string_list : StringList
string_list = record { text = λ a. []; first = []; fresh = 0 }

-- A `truncate_op`: without a node its view is of the source.
pub record TruncateOp : Type 0 where
  pub source : Text
  pub limit : ℕ
  pub node : Option Address

unfoldable pub pop : StringList → Address × StringList
pop l = elim l.first [
  | [] ↦ (l.fresh, record l { fresh = l.fresh + 1 })
  | a ∷ rest ↦ (a, record l { first = rest })
]

abbrev pub write : Address → Text → StringList → StringList
write a s l = record l { text = λ b. ite (ℕ_discrete b a) s (l.text b) }

abbrev pub dots : Text
dots = b'.' ∷ b'.' ∷ b'.' ∷ []

-- The constructor of `truncate_op` by `transform`.
unfoldable pub transform : Text → ℕ → StringList → TruncateOp × StringList
transform sv limit l =
    let n = max limit 3 in
    if ltb n (length sv)
    then (
      record { source = sv; limit = limit; node = some ((pop l).0) },
      write ((pop l).0) (take (n - 3) sv ++ dots) ((pop l).1),
    )
    else (record { source = sv; limit = limit; node = none }, l)

-- The view `sv_`.
unfoldable pub view : StringList → TruncateOp → Text
view l op = elim op.node [ none ↦ op.source | some a ↦ l.text a ]

-- The destructor of the handle, with `link`.
unfoldable pub drop : TruncateOp → StringList → StringList
drop op l = elim op.node [ none ↦ l | some a ↦ record l { first = a ∷ l.first } ]

-- A thread with its operations, the newest one in front.
pub record Thread : Type 0 where
  pub buffers : StringList
  pub live : List TruncateOp

pub data Event : Type 0 where
  truncated : Text → ℕ → Event
  dropped : List TruncateOp → TruncateOp → List TruncateOp → Event

unfoldable pub handle : Event → Thread → Thread
handle (truncated sv limit) t =
    let r = transform sv limit t.buffers in record { buffers = r.1; live = r.0 ∷ t.live }
handle (dropped before op behind) t = record {
  buffers = drop op t.buffers;
  live = before ++ behind;
}

abbrev pub run : List Event → Thread → Thread
run [] t = t
run (e ∷ es) t = run es (handle e t)
