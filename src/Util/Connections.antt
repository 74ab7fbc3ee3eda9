-- ===== src/Util/Connections.antt =====
-- Connections of a signal that are held on other executors: lib/util/cross_executor_connection.hpp and
-- .cpp. One owner has a signal of Boost.Signals2, the connections of which are numbers; `connected`
-- are those that the signal still calls, in the order in which they were made. What a handle
-- dispatches runs at once on the owner's executor, else it is posted there.
pub mod Held
pub mod Steps
use arby.Common.{
  ℕ, zero, suc, ◌+◌, ℕ_discrete, Bool, true, false, ◌==◌, if◌then◌else◌, Option, none, some, List,
  [], ◌∷◌, ◌++◌, ite,
}
use arby.Common.Assoc.{lookup, assign, erase}
use arby.Common.Result.{Result, ok, err, ◌>>=◌, or_fail, null_reference}

abbrev pub ConnectionId : Type 0
ConnectionId = ℕ

abbrev pub HandleId : Type 0
HandleId = ℕ

-- `owner_` is whether the pointer leads to the owner.
pub record Handle : Type 0 where
  pub owner_ : Bool
  pub connection_ : Option ConnectionId

pub record Links : Type 0 where
  pub connected : List ConnectionId
  pub next : ConnectionId
  pub handles : List (HandleId × Handle)
  pub posted : List (Option ConnectionId)

abbrev pub no_links : Links
no_links = record { connected = []; next = 0; handles = []; posted = [] }

unfoldable pub without : ConnectionId → List ConnectionId → List ConnectionId
without i [] = []
without i (j ∷ m) = ite (ℕ_discrete i j) (without i m) (j ∷ without i m)

-- `connection.disconnect()`, which does nothing to one that is empty or was disconnected.
abbrev pub cut : Option ConnectionId → Links → Links
cut none l = l
cut (some i) l = record l { connected = without i l.connected }

abbrev pub handle : HandleId → Links → Result Handle
handle h l = or_fail (lookup ℕ_discrete h l.handles) null_reference

-- `here` is whether the caller is on the owner's executor.
abbrev pub dispatch : Bool → Option ConnectionId → Links → Links
dispatch true c l = cut c l
dispatch false c l = record l { posted = l.posted ++ c ∷ [] }

unfoldable pub disconnect : Bool → Handle → Links → Links
disconnect here x l = if x.owner_ then dispatch here x.connection_ l else l

abbrev pub moved_from : Handle
moved_from = record { owner_ = false; connection_ = none }

-- A connection that was made is put in a handle.
unfoldable pub connect : HandleId → Links → Links
connect h l = record l {
  connected = l.connected ++ l.next ∷ [];
  next = l.next + 1;
  handles = assign ℕ_discrete h (record { owner_ = true; connection_ = some l.next }) l.handles;
}

-- Both members of `j` go to `h`.
abbrev pub take_over : HandleId → HandleId → Handle → Links → Links
take_over h j y l = record l {
  handles = assign ℕ_discrete h y (assign ℕ_discrete j moved_from l.handles);
}

unfoldable pub move_construct : HandleId → HandleId → Links → Result Links
move_construct h j l = handle j l >>= λ y. ok (take_over h j y l)

-- `exchange` leaves a handle that is assigned to itself as it was, but for its disconnection.
unfoldable pub move_assign : Bool → HandleId → HandleId → Links → Result Links
move_assign here h j l =
    handle h l >>= λ x. handle j l >>= λ y. ok (take_over h j y (disconnect here x l))

unfoldable pub destroy : Bool → HandleId → Links → Result Links
destroy here h l = handle h l >>= λ x.
    let d = disconnect here x l in ok (record d { handles = erase ℕ_discrete h d.handles })

-- A call of `disconnect()` leaves the members of the handle.
unfoldable pub disconnect_handle : Bool → HandleId → Links → Result Links
disconnect_handle here h l = handle h l >>= λ x. ok (disconnect here x l)

-- The function object at a place of the queue, and the others.
unfoldable pub take_out {ℓ} : {A : Type ℓ} → ℕ → List A → Option (A × List A)
take_out n [] = none
take_out zero (t ∷ tasks) = some (t, tasks)
take_out (suc n) (t ∷ tasks) = elim (take_out n tasks) [
  | none ↦ none
  | some (u, rest) ↦ some (u, t ∷ rest)
]

unfoldable pub run_posted : ℕ → Links → Result Links
run_posted n l =
    or_fail (take_out n l.posted) null_reference >>= λ t. ok (cut t.0 (record l { posted = t.1 }))

-- What is done with handles.
pub data Op : Type 0 where
  move_constructed : HandleId → HandleId → Op
  move_assigned : Bool → HandleId → HandleId → Op
  -- The last is a call of `disconnect()` by itself.
  destroyed disconnected : Bool → HandleId → Op
  ran : ℕ → Op

unfoldable pub step : Op → Links → Result Links
step (move_constructed h j) l = move_construct h j l
step (move_assigned here h j) l = move_assign here h j l
step (destroyed here h) l = destroy here h l
step (disconnected here h) l = disconnect_handle here h l
step (ran n) l = run_posted n l
