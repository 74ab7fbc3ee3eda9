-- ===== src/Web/Server.antt =====
-- `http_server` of web/http_server.hpp and .cpp: which server owns which implementation. Servers,
-- implementations and stores of applications are numbers; an executor that was default-constructed
-- is `none`. An implementation is stopped by a call that its executor is given, and `stopped` holds
-- these calls in order. Its coroutine is not part of this file.
pub mod Held
pub mod Stops
pub mod Runs
use arby.Common.{ℕ, suc, ◌+◌, ◌≡◌, ℕ_discrete, String, Option, none, some, List, [], ◌∷◌, ◌++◌, ite}
use arby.Common.Assoc.{lookup, assign, erase}
use arby.Common.Result.{Result, ok, err, ◌>>=◌, or_fail, null_reference, bad_executor}
use arby.Web.Apps.{Request, Reply, Store, add_app}

abbrev pub ServerId : Type 0
ServerId = ℕ

abbrev pub ImplId : Type 0
ImplId = ℕ

abbrev pub Executor : Type 0
Executor = ℕ

abbrev pub Address : Type 0
Address = ℕ

-- The null pointer of `apps` is `none`.
pub record Impl : Type 0 where
  pub exec : Option Executor
  pub host : String
  pub port : String
  pub apps : Option Address

pub record Server : Type 0 where
  pub exec : Option Executor
  pub impls : List ImplId
  pub apps : Option Address

abbrev pub moved_from : Server → Server
moved_from s = record s { impls = []; apps = none }

module _ (Regex Match : Type 0) where
  pub record World : Type 0 where
    pub servers : List (ServerId × Server)
    pub impl_of : ImplId → Impl
    pub next_impl : ImplId
    pub stores : Address → Store Regex Match
    pub next_store : Address
    pub stopped : List ImplId

  -- No server yet; what the numbers not given out yet stand for is never looked at.
  abbrev pub no_servers : World
  no_servers = record {
    servers = [];
    impl_of = λ i. record { exec = none; host = ""; port = ""; apps = none };
    next_impl = 0;
    stores = λ a. [];
    next_store = 0;
    stopped = [];
  }

  abbrev pub server : ServerId → World → Result Server
  server k w = or_fail (lookup ℕ_discrete k w.servers) null_reference

  abbrev pub put : ServerId → Server → World → World
  put k s w = record w { servers = assign ℕ_discrete k s w.servers }

  -- The constructor makes the store of the applications.
  unfoldable pub http_server : ServerId → Executor → World → World
  http_server k exec w =
      record (put k (record { exec = some exec; impls = []; apps = some w.next_store }) w) {
        stores = λ a. ite (ℕ_discrete a w.next_store) [] (w.stores a);
        next_store = w.next_store + 1;
      }

  -- The move constructor, which leaves the executor of the new server out.
  unfoldable pub move_construct : ServerId → ServerId → World → Result World
  move_construct k j w =
      server j w >>= λ s. ok (put k (record s { exec = none }) (put j (moved_from s) w))

  -- `dispatch` to the executor of each; a default-constructed one throws.
  unfoldable pub stop_all : List ImplId → World → Result World
  stop_all [] w = ok w
  stop_all (i ∷ impls) w = or_fail (w.impl_of i).exec bad_executor >>= λ e.
      stop_all impls (record w { stopped = w.stopped ++ i ∷ [] })

  unfoldable pub shutdown : ServerId → World → Result World
  shutdown k w = server k w >>= λ s. stop_all s.impls (put k (record s { impls = [] }) w)

  -- `operator=`: a server that is assigned to itself keeps its applications.
  unfoldable pub move_assign : ServerId → ServerId → World → Result World
  move_assign k j w = do
    v ← shutdown k w
    t ← server k v
    s ← server j v
    ok (
        ite (ℕ_discrete k j) v
          (put k (record t { impls = s.impls; apps = s.apps }) (put j (moved_from s) v)))

  unfoldable pub destroy : ServerId → World → Result World
  destroy k w = shutdown k w >>= λ v. ok (record v { servers = erase ℕ_discrete k v.servers })

  -- `co_spawn` throws at a default-constructed executor.
  unfoldable pub serve : ServerId → String → String → World → Result World
  serve k host port w = do
    s ← server k w
    e ← or_fail s.exec bad_executor
    let impl : Impl = record { exec = s.exec; host = host; port = port; apps = s.apps }
    ok (record (put k (record s { impls = s.impls ++ w.next_impl ∷ [] }) w) {
      impl_of = λ i. ite (ℕ_discrete i w.next_impl) impl (w.impl_of i);
      next_impl = w.next_impl + 1;
    })

  module _ (regex : String → Option Regex) where
    unfoldable pub add_server_app :
        ServerId → String → (Request → Match → Reply) → World → Result World
    add_server_app k text app w = do
      s ← server k w
      a ← or_fail s.apps null_reference
      store ← add_app Regex Match regex text app (w.stores a)
      ok (record w { stores = λ b. ite (ℕ_discrete b a) store (w.stores b) })

    pub data Op : Type 0 where
      constructed : ServerId → Executor → Op
      move_constructed move_assigned : ServerId → ServerId → Op
      destroyed shut_down : ServerId → Op
      served : ServerId → String → String → Op
      app_added : ServerId → String → (Request → Match → Reply) → Op

    unfoldable pub step : Op → World → Result World
    step (constructed k exec) w = ok (http_server k exec w)
    step (move_constructed k j) w = move_construct k j w
    step (move_assigned k j) w = move_assign k j w
    step (destroyed k) w = destroy k w
    step (shut_down k) w = shutdown k w
    step (served k host port) w = serve k host port w
    step (app_added k text app) w = add_server_app k text app w

    unfoldable pub run : List Op → World → Result World
    run [] w = ok w
    run (op ∷ ops) w = step op w >>= run ops
