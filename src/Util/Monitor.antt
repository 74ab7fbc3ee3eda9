-- ===== src/Util/Monitor.antt =====
-- The instances that a program shows of its coroutines: lib/util/monitor.hpp and .cpp. An iterator of the
-- set is the address of a node. The set is a list: its order shows only where `mon` prints it.
pub mod Kept
pub mod Steps
pub mod Runs
use arby.Common.{
  ℕ, zero, suc, ◌+◌, ◌%◌, ◌^◌, ◌≡◌, String, String_discrete, ℕ_discrete, Bool, true, false, ◌==◌,
  ◌&&◌, if◌then◌else◌, ite, Option, none, some, List, [], ◌∷◌, ◌++◌,
}
use arby.Common.Assoc.{lookup, assign, erase}
use arby.Common.Result.{Result, ok, err, ◌>>=◌, or_fail, null_reference, dangling_iterator}

abbrev pub Node : Type 0
Node = ℕ

pub record Instance : Type 0 where
  pub name : String
  pub version : ℕ
  pub creation_time : ℕ

pub record Sentinel : Type 0 where
  pub iter : Node
  pub valid : Bool

abbrev pub SentinelId : Type 0
SentinelId = ℕ

pub record Monitor : Type 0 where
  pub next_index_ : List (String × ℕ)
  pub instances_ : List (Node × Instance)
  pub next_node : Node
  pub sentinels : List (SentinelId × Sentinel)

abbrev pub no_instances : Monitor
no_instances = record { next_index_ = []; instances_ = []; next_node = 0; sentinels = [] }

abbrev pub size_mod : ℕ
size_mod = 2 ^ 64

-- Neither is less than the other by `operator<`.
abbrev pub is_same : Instance → Instance → Bool
is_same i j =
    ite (String_discrete i.name j.name)
      (i.version == j.version && i.creation_time == j.creation_time) false

-- The node that `insert` finds.
unfoldable pub find_same : Instance → List (Node × Instance) → Option Node
find_same i [] = none
find_same i ((n, j) ∷ m) = if is_same i j then some n else find_same i m

-- The iterator that `insert` gives, and the set.
unfoldable pub insert : Instance → Monitor → Node × Monitor
insert i m = elim (find_same i m.instances_) [
  | some n ↦ (n, m)
  | none ↦ (
    m.next_node,
    record m { instances_ = m.instances_ ++ (m.next_node, i) ∷ []; next_node = m.next_node + 1 },
  )
]

-- `next_index_[name]`
abbrev pub next_index : String → Monitor → ℕ
next_index name m = elim (lookup String_discrete name m.next_index_) [ none ↦ 0 | some v ↦ v ]

-- `record` of the source, with what the clock says; the sentinel gets the identifier.
unfoldable pub record_instance : SentinelId → String → ℕ → Monitor → Monitor
record_instance k name now m =
    let version = next_index name m in
    let counted = record m {
      next_index_ = assign String_discrete name ((version + 1) % size_mod) m.next_index_;
    } in
    let r = insert (record { name = name; version = version; creation_time = now }) counted in
    record (r.1) {
      sentinels = assign ℕ_discrete k (record { iter = r.0; valid = true }) (r.1).sentinels;
    }

abbrev pub sentinel : SentinelId → Monitor → Result Sentinel
sentinel k m = or_fail (lookup ℕ_discrete k m.sentinels) null_reference

unfoldable pub move_construct : SentinelId → SentinelId → Monitor → Result Monitor
move_construct k j m = sentinel j m >>= λ s. ok (record m {
  sentinels =
      assign ℕ_discrete k s
        (assign ℕ_discrete j (record { iter = s.iter; valid = false }) m.sentinels);
})

-- `erase`, which reads the node and takes it out.
unfoldable pub erase_instance : Node → Monitor → Result Monitor
erase_instance n m = or_fail (lookup ℕ_discrete n m.instances_) dangling_iterator >>= λ i.
    ok (record m { instances_ = erase ℕ_discrete n m.instances_ })

abbrev pub end_sentinel : Sentinel → Monitor → Result Monitor
end_sentinel s m = elim s.valid [ true ↦ erase_instance s.iter m | false ↦ ok m ]

unfoldable pub destroy : SentinelId → Monitor → Result Monitor
destroy k m = sentinel k m >>= λ s.
    end_sentinel s m >>= λ n. ok (record n { sentinels = erase ℕ_discrete k n.sentinels })

pub data Op : Type 0 where
  recorded : SentinelId → String → ℕ → Op
  moved : SentinelId → SentinelId → Op
  destroyed : SentinelId → Op

unfoldable pub step : Op → Monitor → Result Monitor
step (recorded k name now) m = ok (record_instance k name now m)
step (moved k j) m = move_construct k j m
step (destroyed k) m = destroy k m

unfoldable pub run : List Op → Monitor → Result Monitor
run [] m = ok m
run (op ∷ ops) m = step op m >>= run ops
