-- ===== src/Web/Apps/Routes.antt =====
-- Which application gets a request.
use arby.Common.{
  ◌≡◌, ◌↔◌, ap, sym, subst, ◌∙◌, String, Bool, Option, none, some, Option-cases, inl, inr, List, [],
  ◌∷◌, ◌++◌, All, append_assoc, append-nil, arith,
}
use arby.Common.Result.{Result, ok, ◌>>=◌}
use arby.Web.Apps.{Request, Reply, Response, AppEntry, Store, add_app, select}

module _ (Regex Match : Type 0) (regex : String → Option Regex)
    (regex_match : String → Regex → Option Match) (need_eof : Response → Bool) where
  abbrev pub Registration : Type 0
  Registration = String × (Request → Match → Reply)

  abbrev pub add_all : List Registration → Store Regex Match → Result (Store Regex Match)
  add_all [] store = ok store
  add_all ((def, app) ∷ rest) store = add_app Regex Match regex def app store >>= add_all rest

  -- The registration is of a pattern that the target does not match.
  abbrev pub Misses : String → Registration → Type 0
  Misses target r = (re : Regex) → regex r.0 ≡ some re → regex_match target re ≡ none

  abbrev pub Compiles : Registration → Type 0
  Compiles r = (re : Regex) × (regex r.0 ≡ some re)

  -- The first registration of a pattern that the target matches.
  abbrev pub IsFirst : String → List Registration → AppEntry Regex Match → Match → Type 0
  IsFirst target rs entry match =
      (before : List Registration) × (behind : List Registration) × (rs
        ≡ before ++ (entry.def, entry.app) ∷ behind)
      × All (Misses target) before
      × (regex entry.def ≡ some entry.re)
      × (regex_match target entry.re ≡ some match)

  abbrev entries : (rs : List Registration) → All Compiles rs → Store Regex Match
  entries [] h = []
  entries ((def, app) ∷ rs) h = record { def = def; re = h.0.0; app = app } ∷ entries rs h.1

  add_all-entries :
      (rs : List Registration) (h : All Compiles rs) (store : Store Regex Match)
      → add_all rs store ≡ ok (store ++ entries rs h)
  unfolding add_app
  add_all-entries [] h store = ap ok (sym (append-nil store))
  add_all-entries ((def, app) ∷ rs) ((re, e), h) store =
      let entry : AppEntry Regex Match = record { def = def; re = re; app = app } in
      rw e (
        rw (add_all-entries rs h (store ++ entry ∷ []))
          (ap ok (append_assoc store (entry ∷ []) (entries rs h))))

  select-IsFirst :
      (target : String) (rs : List Registration) (h : All Compiles rs)
      (entry : AppEntry Regex Match) (match : Match)
      → select Regex Match regex_match need_eof target (entries rs h) ≡ some (entry, match)
      → IsFirst target rs entry match
  unfolding select
  select-IsFirst target [] h entry match e = absurd (ground arith)
  select-IsFirst target ((def, app) ∷ rs) ((re, c), h) entry match e =
      elim (Option-cases (regex_match target re)) [
        | inl no_match ↦
            let (before, behind, same, misses, fits, hit) =
              select-IsFirst target rs h entry match (ground (arith, no_match)) in
            (
              (def, app) ∷ before,
              behind,
              ap (λ l. (def, app) ∷ l) same,
              (λ re' e'. ground (arith, no_match, c), misses),
              fits,
              hit,
            )
        | inr (m, found) ↦
            let head : AppEntry Regex Match = record { def = def; re = re; app = app } in
            let same : head ≡ entry = ground (arith, found) in
            (
              [],
              rs,
              ap (λ x. (x.def, x.app) ∷ rs) same,
              tt,
              subst (λ x. regex x.def ≡ some x.re) same c,
              ground (arith, found, same),
            )
      ]

  IsFirst-select :
      (target : String) (rs : List Registration) (h : All Compiles rs)
      (entry : AppEntry Regex Match) (match : Match)
      → IsFirst target rs entry match
      → select Regex Match regex_match need_eof target (entries rs h) ≡ some (entry, match)
  unfolding select
  IsFirst-select target [] h entry match ([], behind, e, misses, fits, hit) = absurd (cc)
  IsFirst-select target [] h entry match (b ∷ before, behind, e, misses, fits, hit) = absurd (cc)
  IsFirst-select target ((def, app) ∷ rs) ((re, c), h) entry match
        ([], behind, e, misses, fits, hit) =
      let names : def ≡ entry.def = ground arith in
      let apps : app ≡ entry.app = ground arith in
      let compiled : re ≡ entry.re = ground (arith, c, fits, names) in
      rw (ap (regex_match target) compiled ∙ hit)
        (λ i. some (record { def = names i; re = compiled i; app = apps i }, match))
  IsFirst-select target ((def, app) ∷ rs) ((re, c), h) entry match
        (b ∷ before, behind, e, misses, fits, hit) =
      rw (misses.0 re (ground (arith, c)))
        (IsFirst-select target rs h entry match (before, behind, ground arith, misses.1, fits, hit))

  -- If each pattern compiles, the registrations are all made, and a request goes to an application exactly
  -- if its registration is the first of a pattern that the target matches.
  pub add_all-select :
      (rs : List Registration)
      → All Compiles rs
      → (store : Store Regex Match) × (add_all rs [] ≡ ok store)
        × ((target : String) (entry : AppEntry Regex Match) (match : Match)
            → (select Regex Match regex_match need_eof target store ≡ some (entry, match))
              ↔ IsFirst target rs entry match)
  add_all-select rs h = (
    entries rs h,
    add_all-entries rs h [],
    λ target entry match.
        (select-IsFirst target rs h entry match, IsFirst-select target rs h entry match),
  )
