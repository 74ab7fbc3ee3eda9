-- ===== src/Util/Connections/Steps.antt =====
-- What each operation on handles keeps, and that it makes no connection.
use arby.Common.{
  ◌+◌, ◌≡◌, ◌≢◌, ◌≤◌, refl, sym, subst, ap, ℕ_discrete, Bool, true, false, if◌then◌else◌, Option,
  none, some, List, [], ◌∷◌, arith,
}
use arby.Common.Assoc.{lookup, assign, erase, Distinct, lookup-assign}
use arby.Common.Result.{Result, ok, err, first_ok, ◌>>=◌, or_fail, null_reference}
use arby.Common.Totals.{
  same, total, count, total-append, total-assign_new, total-assign_old, total-erase,
  assign-Distinct, erase-Distinct,
}
use arby.Util.Connections.{
  ConnectionId, HandleId, Handle, Links, cut, handle, dispatch, disconnect, moved_from, connect,
  take_over, move_construct, move_assign, destroy, take_out, run_posted, Op, step, move_constructed,
  move_assigned, destroyed, disconnected, ran, disconnect_handle,
}
use arby.Util.Connections.Held.{
  names, has, held, to_cut, Sound, count-without, take_out-total, Enabled, give_up-Sound,
  disconnect-Sound,
}

-- The operation is made, and keeps the invariant.
abbrev pub Goes : Bool → Result Links → Type 0
Goes direct r = (l : Links) × (r ≡ ok l) × Sound direct l

pub connect-Sound :
    (direct : Bool) (h : HandleId) (l : Links)
    → Sound direct l
    → lookup ℕ_discrete h l.handles ≡ none
    → Sound direct (connect h l)
unfolding connect
connect-Sound direct h l s free =
    let y : Handle = record { owner_ = true; connection_ = some l.next } in
    record {
      most = λ i. ground (
        arith,
        s.most i,
        total-assign_new (has i) h y l.handles free,
        total-append (same i) l.connected (l.next ∷ []),
      );
      once = λ only i. ground (
        arith,
        s.once only i,
        total-assign_new (has i) h y l.handles free,
        total-append (same i) l.connected (l.next ∷ []),
      );
      single = λ i. ground (arith, s.single i, total-append (same i) l.connected (l.next ∷ []));
      apart = assign-Distinct h y l.handles s.apart;
    }

-- What `h` is given leaves `j`.
held-take_over :
    (i : ConnectionId) (h j : HandleId) (x y : Handle) (l : Links)
    → h ≢ j
    → lookup ℕ_discrete h l.handles ≡ some x
    → lookup ℕ_discrete j l.handles ≡ some y
    → held i (take_over h j y l) + has i (h, x) ≡ held i l
held-take_over i h j x y l apart here there = ground (
  arith,
  total-assign_old (has i) j moved_from y l.handles there,
  total-assign_old (has i) h y x (assign ℕ_discrete j moved_from l.handles)
      (ground (arith, apart, lookup-assign ℕ_discrete j h moved_from l.handles)),
)

take_over-apart :
    (h j : HandleId) (y : Handle) (l : Links)
    → Distinct ℕ_discrete l.handles
    → Distinct ℕ_discrete (take_over h j y l).handles
take_over-apart h j y l apart =
    assign-Distinct h y (assign ℕ_discrete j moved_from l.handles)
      (assign-Distinct j moved_from l.handles apart)

handles-give_up :
    (here o : Bool) (c : Option ConnectionId) (l : Links)
    → (if o then dispatch here c l else l).handles ≡ l.handles
handles-give_up here false c l = refl
handles-give_up true true none l = refl
handles-give_up true true (some c) l = refl
handles-give_up false true c l = refl

move_construct-Goes :
    (direct : Bool) (h j : HandleId) (l : Links)
    → Sound direct l
    → Enabled direct (move_constructed h j) l
    → Goes direct (step (move_constructed h j) l)
unfolding step move_construct
move_construct-Goes direct h j l s (free, (y, there)) = (
  take_over h j y l,
  ap (λ found. or_fail found null_reference >>= λ z. ok (take_over h j z l)) there,
  record {
    most = λ i. ground (
      arith,
      s.most i,
      total-assign_old (has i) j moved_from y l.handles there,
      total-assign_new (has i) h y (assign ℕ_discrete j moved_from l.handles)
          (ground (arith, free, there, lookup-assign ℕ_discrete j h moved_from l.handles)),
    );
    once = λ only i. ground (
      arith,
      s.once only i,
      total-assign_old (has i) j moved_from y l.handles there,
      total-assign_new (has i) h y (assign ℕ_discrete j moved_from l.handles)
          (ground (arith, free, there, lookup-assign ℕ_discrete j h moved_from l.handles)),
    );
    single = s.single;
    apart = take_over-apart h j y l s.apart;
  },
)

move_assign-Goes :
    (direct : Bool) (here : Bool) (h j : HandleId) (l : Links)
    → Sound direct l
    → Enabled direct (move_assigned here h j) l
    → Goes direct (step (move_assigned here h j) l)
unfolding step move_assign disconnect
move_assign-Goes direct here h j l s (other, (x, found), (y, there)) =
    let d : Links = if x.owner_ then dispatch here x.connection_ l else l in
    let same_handles : d.handles ≡ l.handles = handles-give_up here x.owner_ x.connection_ l in
    (
      take_over h j y d,
      rw (found, there) refl,
      subst
          (λ m.
            Sound direct
              (record d { handles = assign ℕ_discrete h y (assign ℕ_discrete j moved_from m) }))
          (sym same_handles)
          (give_up-Sound direct here x.owner_ x.connection_ (take_over h j y l).handles l s
            (take_over-apart h j y l s.apart) (λ i. held-take_over i h j x y l other found there)),
    )

destroy-Goes :
    (direct : Bool) (here : Bool) (h : HandleId) (l : Links)
    → Sound direct l
    → Enabled direct (destroyed here h) l
    → Goes direct (step (destroyed here h) l)
unfolding step destroy disconnect
destroy-Goes direct here h l s (x, found) =
    let d : Links = if x.owner_ then dispatch here x.connection_ l else l in
    let same_handles : d.handles ≡ l.handles = handles-give_up here x.owner_ x.connection_ l in
    (
      record d { handles = erase ℕ_discrete h d.handles },
      rw found refl,
      subst (λ m. Sound direct (record d { handles = erase ℕ_discrete h m })) (sym same_handles)
          (give_up-Sound direct here x.owner_ x.connection_ (erase ℕ_discrete h l.handles) l s
            (erase-Distinct h l.handles s.apart)
            (λ i. total-erase (has i) h x l.handles s.apart found)),
    )

cut-Sound :
    (direct : Bool) (c : Option ConnectionId) (rest : List (Option ConnectionId)) (l : Links)
    → Sound direct l
    → ((i : ConnectionId) → to_cut i l ≡ names i c + total (names i) rest)
    → Sound direct (cut c (record l { posted = rest }))
cut-Sound direct none rest l s e = record {
  most = λ i. ground (arith, s.most i, e i);
  once = λ only i. ground (arith, s.once only i, e i);
  single = s.single;
  apart = s.apart;
}
cut-Sound direct (some c) rest l s e = record {
  most = λ i. ground (arith, s.most i, s.single i, e i, count-without c i l.connected);
  once = λ only i. ground (arith, s.once only i, s.single i, e i, count-without c i l.connected);
  single = λ i. ground (arith, s.single i, count-without c i l.connected);
  apart = s.apart;
}

pub step-Goes :
    (direct : Bool) (op : Op) (l : Links)
    → Sound direct l
    → Enabled direct op l
    → Goes direct (step op l)
unfolding step run_posted disconnect_handle disconnect
step-Goes direct (move_constructed h j) l s e = move_construct-Goes direct h j l s e
step-Goes direct (move_assigned here h j) l s e = move_assign-Goes direct here h j l s e
step-Goes direct (destroyed here h) l s e = destroy-Goes direct here h l s e
step-Goes direct (disconnected here h) l s (allowed, (x, found)) = (
  disconnect here x l,
  rw found refl,
  subst (λ b. Sound b (disconnect here x l)) (sym allowed)
      (disconnect-Sound here x.owner_ x.connection_ l (subst (λ b. Sound b l) allowed s)),
)
step-Goes direct (ran n) l s (t, rest, found) = (
  cut t (record l { posted = rest }),
  rw found refl,
  cut-Sound direct t rest l s (λ i. take_out-total (names i) n l.posted rest t found),
)

-- No operation on handles makes a connection.
abbrev pub Fades : Links → Links → Type 0
Fades l m = (m.next ≡ l.next) × ((i : ConnectionId) → count i m.connected ≤ count i l.connected)

abbrev FadesTo : Links → Result Links → Type 0
FadesTo l (err fault) = Unit
FadesTo l (ok m) = Fades l m

cut-Fades : (c : Option ConnectionId) (l : Links) → Fades l (cut c l)
cut-Fades none l = (refl, λ i. omega arith)
cut-Fades (some c) l = (refl, λ i. ground (arith, count-without c i l.connected))

give_up-Fades :
    (here o : Bool) (c : Option ConnectionId) (l : Links)
    → Fades l (if o then dispatch here c l else l)
give_up-Fades here false c l = (refl, λ i. omega arith)
give_up-Fades true true c l = cut-Fades c l
give_up-Fades false true c l = (refl, λ i. omega arith)

pub step-Fades : (op : Op) (l m : Links) → step op l ≡ ok m → Fades l m
unfolding step move_construct move_assign destroy run_posted disconnect disconnect_handle
step-Fades (move_constructed h j) l m e =
    let (y, done, found) = first_ok (handle j l) _ e in
    subst (FadesTo l) done (refl, λ i. omega arith)
step-Fades (move_assigned here h j) l m e =
    let (x, done, found) = first_ok (handle h l) _ e in
    let (y, end, there) = first_ok (handle j l) _ done in
    subst (FadesTo l) end (give_up-Fades here x.owner_ x.connection_ l)
step-Fades (destroyed here h) l m e =
    let (x, done, found) = first_ok (handle h l) _ e in
    subst (FadesTo l) done (give_up-Fades here x.owner_ x.connection_ l)
step-Fades (disconnected here h) l m e =
    let (x, done, found) = first_ok (handle h l) _ e in
    subst (FadesTo l) done (give_up-Fades here x.owner_ x.connection_ l)
step-Fades (ran n) l m e =
    let (t, done, found) = first_ok (or_fail (take_out n l.posted) null_reference) _ e in
    subst (FadesTo l) done (cut-Fades t.0 (record l { posted = t.1 }))
