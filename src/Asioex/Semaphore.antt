-- ===== src/Asioex/Semaphore.antt =====
-- lib/asioex/async_semaphore.hpp with lib/asioex/impl and lib/asioex/detail: a counting semaphore whose
-- waiters are nodes of an intrusive ring. The ring stands on a heap: each field of `bilist_node` is a
-- map from addresses, and an operation that waits is an address that has a handler. The head of the
-- ring, the member `waiters_`, has the address 0 and no handler.
pub mod Ring
pub mod Waiters
pub mod Operations
pub mod Refines
pub mod Counts
use arby.Common.{
  ℕ, zero, suc, ◌+◌, ◌-◌, ◌^◌, ◌≡◌, ℕ_discrete, Bool, true, false, ◌||◌, ◌==◌, ltb, if◌then◌else◌,
  ite, Option, none, some, List, [], ◌∷◌, ◌++◌,
}
use arby.Common.Result.{
  Result, ok, err, ◌>>=◌, ◌>>◌, guard, assertion_failed, signed_overflow, use_after_free,
  bad_downcast,
}

abbrev pub Address : Type 0
Address = ℕ

abbrev pub Handler : Type 0
Handler = ℕ

pub data ErrorCode : Type 0 where
  no_error operation_aborted : ErrorCode

-- What was posted to the executors, in order.
abbrev pub Posts : Type 0
Posts = List (Handler × ErrorCode)

abbrev pub head : Address
head = 0

pub record Semaphore : Type 0 where
  pub next : Address → Address
  pub prev : Address → Address
  pub handler : Address → Option Handler
  pub count : ℕ
  pub posts : Posts

-- A store through a pointer.
abbrev pub store {ℓ} : {A : Type ℓ} → Address → A → (Address → A) → Address → A
store p a field q = ite (ℕ_discrete q p) a (field q)

-- The constructor: a node that is alone leads to itself.
unfoldable pub construct : ℕ → Semaphore
construct initial_count = record {
  next = λ p. p;
  prev = λ p. p;
  handler = λ p. none;
  count = initial_count;
  posts = [];
}

abbrev is_some {ℓ} : {A : Type ℓ} → Option A → Bool
is_some none = false
is_some (some a) = true

-- Whether a node is in memory.
abbrev pub alive : Address → Semaphore → Bool
alive p s = p == head || is_some (s.handler p)

-- `bilist_node::unlink`
unfoldable pub unlink : Address → Semaphore → Result Semaphore
unlink this s =
    let p = s.prev this in
    let n = s.next this in
    guard (alive n s) use_after_free
    >> (guard (alive p s) use_after_free
        >> ok (record s { prev = store n p s.prev; next = store p n s.next }))

-- `bilist_node::link_before`, for the list head.
unfoldable pub link_before_head : Address → Semaphore → Result Semaphore
link_before_head this s =
    let p = s.prev head in
    guard (alive p s) use_after_free
    >> ok (record s {
      next = store p this (store this head s.next);
      prev = store head this (store this p s.prev);
    })

-- `semaphore_wait_op_model::complete`. The list head is no operation: the downcast of it is undefined.
unfoldable pub complete : Address → ErrorCode → Semaphore → Result Semaphore
complete this ec s = if this == head then err bad_downcast else elim (s.handler this) [
  | none ↦ err use_after_free
  | some h ↦ unlink this s >>= λ t.
      ok (record t { handler = store this none t.handler; posts = t.posts ++ (h, ec) ∷ [] })
]

unfoldable pub decrement : Semaphore → Result Semaphore
decrement s = guard (ltb 0 s.count) assertion_failed >> ok (record s { count = s.count - 1 })

abbrev pub int_max : ℕ
int_max = 2 ^ 31 - 1

unfoldable pub release : Semaphore → Result Semaphore
release s =
    guard (ltb s.count int_max) signed_overflow
    >> (let t = record s { count = s.count + 1 } in
        if t.next head == head
        then ok t
        else decrement t >>= λ u. complete (u.next head) no_error u)

unfoldable pub try_acquire : Semaphore → Semaphore × Bool
try_acquire s = if ltb 0 s.count then (record s { count = s.count - 1 }, true) else (s, false)

-- `this` is the address that the allocator gives to a new operation.
unfoldable pub async_acquire : Address → Handler → Semaphore → Result Semaphore
async_acquire this h s =
    if s.count == 0
    then link_before_head this (record s { handler = store this (some h) s.handler })
    else ok (record s { posts = s.posts ++ (h, no_error) ∷ [] })

-- The loop of the destructor from the node `p`; a pass in the loop takes one unit of fuel.
unfoldable pub destroy_from : ℕ → Address → Semaphore → Result Semaphore
destroy_from zero p s = ok s
destroy_from (suc fuel) p s =
    if s.next p == head
    then ok s
    else complete p operation_aborted s >>= λ t. destroy_from fuel (s.next p) t

pub data Event : Type 0 where
  acquire : Address → Handler → Event
  attempt : Event
  post : Event
  cancel : Address → Event

unfoldable pub handle : Event → Semaphore → Result Semaphore
handle (acquire this h) s = async_acquire this h s
handle attempt s = ok ((try_acquire s).0)
handle post s = release s
handle (cancel this) s = complete this operation_aborted s

unfoldable pub run : List Event → Semaphore → Result Semaphore
run [] s = ok s
run (e ∷ es) s = handle e s >>= run es
