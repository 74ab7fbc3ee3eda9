-- ===== src/Util/Connections/Held.antt =====
-- Each connection that is up is in one handle, or in one function object that will cut it.
use arby.Common.{
  ℕ, zero, suc, ◌+◌, ◌≡◌, ◌≢◌, ◌≤◌, ℕ_discrete, Bool, true, false, ltb, if◌then◌else◌, Option, none,
  some, Option-cases, inl, inr, List, [], ◌∷◌, ite, arith,
}
use arby.Common.Assoc.{lookup, Distinct}
use arby.Common.Totals.{same, total, count, total-append}
use arby.Util.Connections.{
  ConnectionId, HandleId, Handle, Links, without, dispatch, take_out, Op, move_constructed,
  move_assigned, destroyed, disconnected, ran,
}

abbrev pub names : ConnectionId → Option ConnectionId → ℕ
names i none = 0
names i (some j) = same i j

abbrev has_owner : ConnectionId → Bool → Option ConnectionId → ℕ
has_owner i true c = names i c
has_owner i false c = 0

-- How many handles have it, with their owner.
abbrev pub has : ConnectionId → HandleId × Handle → ℕ
has i (h, x) = has_owner i x.owner_ x.connection_

abbrev pub held : ConnectionId → Links → ℕ
held i l = total (has i) l.handles

abbrev pub to_cut : ConnectionId → Links → ℕ
to_cut i l = total (names i) l.posted

-- `direct` is whether `disconnect()` is called by itself.
pub record Sound (direct : Bool) (l : Links) : Type 0 where
  pub most : (i : ConnectionId) → count i l.connected ≤ held i l + to_cut i l
  pub once : direct ≡ false → (i : ConnectionId) → held i l + to_cut i l ≡ count i l.connected
  pub single : (i : ConnectionId) → count i l.connected ≤ (if ltb i l.next then 1 else 0)
  pub apart : Distinct ℕ_discrete l.handles

pub count-without :
    (i j : ConnectionId) (m : List ConnectionId)
    → count j (without i m) ≡ ite (ℕ_discrete j i) 0 (count j m)
unfolding without
count-without i j [] = ground arith
count-without i j (k ∷ m) = ground (arith, count-without i j m)

pub take_out-total {ℓ} :
    {A : Type ℓ} (f : A → ℕ) (n : ℕ) (m rest : List A) (t : A)
    → take_out n m ≡ some (t, rest)
    → total f m ≡ f t + total f rest
unfolding take_out
take_out-total f n [] rest t e = absurd (ground arith)
take_out-total f zero (u ∷ m) rest t e = ground arith
take_out-total f (suc n) (u ∷ m) rest t e = elim (Option-cases (take_out n m)) [
  | inl none_left ↦ absurd (ground (arith, none_left))
  | inr (p, found) ↦ ground (arith, found, take_out-total f n m p.1 p.0 found)
]

-- What an operation needs: a new handle has a new name, the others are there, and no handle is
-- assigned to itself. A call of `disconnect()` by itself has to be allowed.
abbrev pub Enabled : Bool → Op → Links → Type 0
Enabled direct (move_constructed h j) l =
    (lookup ℕ_discrete h l.handles ≡ none)
    × ((y : Handle) × (lookup ℕ_discrete j l.handles ≡ some y))
Enabled direct (move_assigned here h j) l =
    (h ≢ j)
    × ((x : Handle) × (lookup ℕ_discrete h l.handles ≡ some x))
    × ((y : Handle) × (lookup ℕ_discrete j l.handles ≡ some y))
Enabled direct (destroyed here h) l = (x : Handle) × (lookup ℕ_discrete h l.handles ≡ some x)
Enabled direct (disconnected here h) l =
    (direct ≡ true) × ((x : Handle) × (lookup ℕ_discrete h l.handles ≡ some x))
Enabled direct (ran n) l =
    (t : Option ConnectionId) × (rest : List (Option ConnectionId)) × (take_out n l.posted
      ≡ some (t, rest))

-- Other handles, with which a connection that no other has is given up.
pub give_up-Sound :
    (direct here o : Bool) (c : Option ConnectionId) (m : List (HandleId × Handle)) (l : Links)
    → Sound direct l
    → Distinct ℕ_discrete m
    → ((i : ConnectionId) → total (has i) m + has_owner i o c ≡ held i l)
    → Sound direct (record (if o then dispatch here c l else l) { handles = m })
give_up-Sound direct here false c m l s apart moved = record {
  most = λ i. ground (arith, s.most i, moved i);
  once = λ only i. ground (arith, s.once only i, moved i);
  single = s.single;
  apart = apart;
}
give_up-Sound direct true true none m l s apart moved = record {
  most = λ i. ground (arith, s.most i, moved i);
  once = λ only i. ground (arith, s.once only i, moved i);
  single = s.single;
  apart = apart;
}
give_up-Sound direct true true (some c) m l s apart moved = record {
  most = λ i. ground (arith, s.most i, s.single i, moved i, count-without c i l.connected);
  once =
      λ only i. ground (arith, s.once only i, s.single i, moved i, count-without c i l.connected);
  single = λ i. ground (arith, s.single i, count-without c i l.connected);
  apart = apart;
}
give_up-Sound direct false true c m l s apart moved = record {
  most = λ i. ground (arith, s.most i, moved i, total-append (names i) l.posted (c ∷ []));
  once = λ only i. ground (arith, s.once only i, moved i, total-append (names i) l.posted (c ∷ []));
  single = s.single;
  apart = apart;
}

-- Or with the handles as they were, if that is allowed.
pub disconnect-Sound :
    (here o : Bool) (c : Option ConnectionId) (l : Links)
    → Sound true l
    → Sound true (if o then dispatch here c l else l)
disconnect-Sound here false c l s = s
disconnect-Sound true true none l s = s
disconnect-Sound true true (some c) l s = record {
  most = λ i. ground (arith, s.most i, count-without c i l.connected);
  once = λ e. absurd (cc);
  single = λ i. ground (arith, s.single i, count-without c i l.connected);
  apart = s.apart;
}
disconnect-Sound false true c l s = record {
  most = λ i. ground (arith, s.most i, total-append (names i) l.posted (c ∷ []));
  once = λ e. absurd (cc);
  single = s.single;
  apart = s.apart;
}
