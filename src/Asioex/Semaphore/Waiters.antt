-- ===== src/Asioex/Semaphore/Waiters.antt =====
-- The operations that wait, as a queue of addresses with their handlers, and the semaphores whose ring
-- represents such a queue.
use arby.Common.{
  ℕ, ◌≡◌, ◌≢◌, refl, sym, true, Option, none, some, List, [], ◌∷◌, ◌++◌, map, All, arith,
}
use arby.Asioex.Semaphore.{Address, Handler, Posts, Semaphore, head, store, alive}
use arby.Asioex.Semaphore.Ring.{Leads, Away, AllApart}

abbrev pub Waiters : Type 0
Waiters = List (Address × Handler)

abbrev pub addresses : Waiters → List Address
addresses = map λ w. w.0

-- The count, the operations that wait, the one that came first in front, and what was posted.
pub record Waiting : Type 0 where
  pub count : ℕ
  pub queue : Waiters
  pub posts : Posts

-- Each operation is in memory with its handler.
abbrev pub Live : (Address → Option Handler) → Waiters → Type 0
Live handler = All λ w. (w.0 ≢ head) × (handler w.0 ≡ some w.1)

pub record Represents (s : Semaphore) (q : Waiting) : Type 0 where
  pub count : s.count ≡ q.count
  pub posts : s.posts ≡ q.posts
  pub ring : Leads s.next s.prev head (addresses q.queue ++ head ∷ [])
  pub apart : AllApart (addresses q.queue)
  pub live : Live s.handler q.queue

pub head-Away :
    (handler : Address → Option Handler) (ws : Waiters) → Live handler ws → Away head (addresses ws)
head-Away handler [] live = tt
head-Away handler (w ∷ ws) live = (live.0.0, head-Away handler ws live.1)

module _ (a : Address) (h : Handler) where
  Away-at :
      (b : Address) (before behind : Waiters)
      → Away b (addresses (before ++ (a, h) ∷ behind))
      → a ≢ b
  Away-at b [] behind away = away.0
  Away-at b (w ∷ before) behind away = Away-at b before behind away.1

  Away-drop :
      (b : Address) (before behind : Waiters)
      → Away b (addresses (before ++ (a, h) ∷ behind))
      → Away b (addresses (before ++ behind))
  Away-drop b [] behind away = away.1
  Away-drop b (w ∷ before) behind away = (away.0, Away-drop b before behind away.1)

  pub AllApart-drop :
      (before behind : Waiters)
      → AllApart (addresses (before ++ (a, h) ∷ behind))
      → AllApart (addresses (before ++ behind))
  AllApart-drop [] behind d = d.1
  AllApart-drop (w ∷ before) behind d =
      (Away-drop w.0 before behind d.0, AllApart-drop before behind d.1)

  pub Live-store :
      (handler : Address → Option Handler) (v : Option Handler) (ws : Waiters)
      → Live handler ws
      → Away a (addresses ws)
      → Live (store a v handler) ws
  Live-store handler v [] live away = tt
  Live-store handler v (w ∷ ws) live away = ground (arith, Live-store handler v ws)

  pub Live-drop :
      (handler : Address → Option Handler) (before behind : Waiters)
      → Live handler (before ++ (a, h) ∷ behind)
      → AllApart (addresses (before ++ (a, h) ∷ behind))
      → Live (store a none handler) (before ++ behind)
  Live-drop handler [] behind live d = Live-store handler none behind live.1 d.0
  Live-drop handler (w ∷ before) behind live d =
      ground
        (arith, Live-drop handler before behind live.1 d.1, Away-at w.0 before behind d.0, live.0)

  -- The new operation at the end.
  pub Live-add :
      (handler : Address → Option Handler) (ws : Waiters)
      → Live handler ws
      → a ≢ head
      → Away a (addresses ws)
      → Live (store a (some h) handler) (ws ++ (a, h) ∷ [])
  Live-add handler [] live new away = ground arith
  Live-add handler (w ∷ ws) live new away =
      ground (arith, Live-add handler ws live.1 new away.1, live.0)

  Away-add :
      (b : Address) (ws : Waiters)
      → Away b (addresses ws)
      → a ≢ b
      → Away b (addresses (ws ++ (a, h) ∷ []))
  Away-add b [] away e = (e, tt)
  Away-add b (w ∷ ws) away e = (away.0, Away-add b ws away.1 e)

  pub AllApart-add :
      (ws : Waiters)
      → AllApart (addresses ws)
      → Away a (addresses ws)
      → AllApart (addresses (ws ++ (a, h) ∷ []))
  AllApart-add [] d away = (tt, tt)
  AllApart-add (w ∷ ws) d away =
      (Away-add w.0 ws d.0 (λ e. away.0 (sym e)), AllApart-add ws d.1 away.1)

-- The neighbours of a node of the ring are in memory.
module _ (s : Semaphore) where
  pub prev-alive :
      (x : Address) (l : Waiters) (z : Address) (r : List Address)
      → Leads s.next s.prev x (addresses l ++ z ∷ r)
      → alive x s ≡ true
      → Live s.handler l
      → alive (s.prev z) s ≡ true
  prev-alive x [] z r h there live = rw h.1 there
  prev-alive x (w ∷ l) z r h there live = prev-alive w.0 l z r h.2 (ground arith) live.1

  pub next-alive :
      (x : Address) (l : Waiters) (a : Address) (r : Waiters)
      → Leads s.next s.prev x (addresses l ++ a ∷ (addresses r ++ head ∷ []))
      → Live s.handler r
      → alive (s.next a) s ≡ true
  next-alive x [] a [] h live = rw h.2.0 refl
  next-alive x [] a (w ∷ r) h live = rw h.2.0 (ground arith)
  next-alive x (w ∷ l) a r h live = next-alive w.0 l a r h.2 live
