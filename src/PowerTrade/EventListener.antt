-- ===== src/PowerTrade/EventListener.antt =====
-- arby/power_trade/event_listener.hpp and .cpp: listeners that print what the connector tells them. All of
-- it runs on the connector's executor; `here` is whether a caller is on it, which a debug build asserts.
-- Printing adds a line to `printed`, in which a message is as Util/Truncate cuts it.
pub mod Slots
pub mod Moves
pub mod Runs
use arby.Common.{
  ℕ, ◌+◌, ◌≡◌, String, String_discrete, ℕ_discrete, Bool, true, false, ◌==◌, if◌then◌else◌, ite,
  Option, none, some, List, [], ◌∷◌, ◌++◌, map,
}
use arby.Common.Assoc.{lookup, assign, erase}
use arby.Common.Result.{
  Result, ok, err, ◌>>=◌, ◌>>◌, guard, or_fail, null_reference, assertion_failed,
}
use arby.PowerTrade.Listener.{ConnectionState}

abbrev pub ImplId : Type 0
ImplId = ℕ

abbrev pub HandleId : Type 0
HandleId = ℕ

pub data Line : Type 0 where
  of_state : ConnectionState → Line
  of_message : String → Line

-- The two signals of the connector, with the types that are watched.
pub record World : Type 0 where
  pub connstate : ConnectionState
  pub status_slots : List ImplId
  pub message_slots : List (String × ImplId)
  pub handles : List (HandleId × Option ImplId)
  pub next : ImplId
  pub printed : List (ImplId × Line)

abbrev pub no_listeners : ConnectionState → World
no_listeners s = record {
  connstate = s;
  status_slots = [];
  message_slots = [];
  handles = [];
  next = 0;
  printed = [];
}

unfoldable pub start : ImplId → String → World → World
start i primary w = record w {
  status_slots = w.status_slots ++ i ∷ [];
  message_slots = w.message_slots ++ (primary, i) ∷ [];
  printed = w.printed ++ (i, of_state w.connstate) ∷ [];
}

unfoldable pub without : ImplId → List ImplId → List ImplId
without i [] = []
without i (j ∷ slots) = ite (ℕ_discrete i j) (without i slots) (j ∷ without i slots)

unfoldable pub unwatched : ImplId → List (String × ImplId) → List (String × ImplId)
unwatched i [] = []
unwatched i ((type, j) ∷ slots) =
    ite (ℕ_discrete i j) (unwatched i slots) ((type, j) ∷ unwatched i slots)

unfoldable pub stop : ImplId → World → World
stop i w = record w {
  status_slots = without i w.status_slots;
  message_slots = unwatched i w.message_slots;
}

abbrev pub handle : HandleId → World → Result (Option ImplId)
handle h w = or_fail (lookup ℕ_discrete h w.handles) null_reference

-- `assert(on_correct_thread(get_executor()))`, which reads the executor through `impl_`.
unfoldable pub check : Bool → Bool → Option ImplId → Result (Unit {0})
check debug here impl =
    if debug then (or_fail impl null_reference >>= λ i. guard here assertion_failed) else ok tt

-- `destroy()`, but for its assertion.
abbrev pub stop_impl : Option ImplId → World → World
stop_impl none w = w
stop_impl (some i) w = stop i w

unfoldable pub construct : Bool → Bool → HandleId → String → World → Result World
construct debug here h primary w =
    let i = w.next in
    check debug here (some i)
    >> ok (record (start i primary w) {
      next = i + 1;
      handles = assign ℕ_discrete h (some i) w.handles;
    })

abbrev pub take_over : HandleId → HandleId → Option ImplId → World → World
take_over h j impl w = record w {
  handles = assign ℕ_discrete h impl (assign ℕ_discrete j none w.handles);
}

unfoldable pub move_construct : Bool → Bool → HandleId → HandleId → World → Result World
move_construct debug here h j w =
    handle j w >>= λ impl. check debug here impl >> ok (take_over h j impl w)

-- The assertion is made twice, by the operator and by `destroy`.
unfoldable pub move_assign : Bool → Bool → HandleId → HandleId → World → Result World
move_assign debug here h j w = handle h w >>= λ old.
    check debug here old
    >> handle j (record (stop_impl old w) { handles = assign ℕ_discrete h none w.handles })
    >>= λ impl. ok (take_over h j impl (stop_impl old w))

unfoldable pub destroy : Bool → Bool → HandleId → World → Result World
destroy debug here h w = handle h w >>= λ old.
    check debug here old >> ok (record (stop_impl old w) { handles = erase ℕ_discrete h w.handles })

-- The connector tells of a state, or of a message by its type.
unfoldable pub on_connection_state : ConnectionState → World → World
on_connection_state s w = record w {
  connstate = s;
  printed = w.printed ++ map (λ i. (i, of_state s)) w.status_slots;
}

unfoldable pub on_message : String → String → List (String × ImplId) → List (ImplId × Line)
on_message type text [] = []
on_message type text ((t, i) ∷ slots) =
    let rest = on_message type text slots in
    ite (String_discrete t type) ((i, of_message text) ∷ rest) rest

pub data Op : Type 0 where
  constructed : HandleId → String → Op
  move_constructed move_assigned : HandleId → HandleId → Op
  destroyed : HandleId → Op
  told_state : ConnectionState → Op
  told_message : String → String → Op

unfoldable pub step : Bool → Op → World → Result World
step debug (constructed h primary) w = construct debug true h primary w
step debug (move_constructed h j) w = move_construct debug true h j w
step debug (move_assigned h j) w = move_assign debug true h j w
step debug (destroyed h) w = destroy debug true h w
step debug (told_state s) w = ok (on_connection_state s w)
step debug (told_message type text) w =
    ok (record w { printed = w.printed ++ on_message type text w.message_slots })

unfoldable pub run : Bool → List Op → World → Result World
run debug [] w = ok w
run debug (op ∷ ops) w = step debug op w >>= run debug ops
