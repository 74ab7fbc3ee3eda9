-- ===== src/Web/Apps/Answers.antt =====
-- How a request is answered.
use arby.Common.{
  ◌≡◌, refl, ap, ◌∙◌, String, Bool, true, false, not, ◌⊎◌, Option, none, some, Option-cases, inl,
  inr, [], ◌∷◌, ◌++◌, All, arith,
}
use arby.Common.Result.{ok, err, not_connected, write_failed}
use arby.Web.Apps.{Request, Reply, Response, AppEntry, Store, select, no_app, turn}

module _ (Regex Match : Type 0) (regex_match : String → Regex → Option Match)
    (need_eof : Response → Bool) (store : Store Regex Match) where
  -- A request, whether there is a peer, and whether what the server writes is sent.
  abbrev pub Asked : Type 0
  Asked = Request × (Bool × Bool)

  abbrev pub reply : Asked → Reply
  reply a = turn Regex Match regex_match need_eof store a.0 a.1.0 a.1.1

  -- The first application whose pattern the target matches.
  pub record Routed (target : String) (entry : AppEntry Regex Match) (match : Match) : Type 0 where
    pub before : Store Regex Match
    pub behind : Store Regex Match
    pub split : store ≡ before ++ entry ∷ behind
    pub misses : All (λ e. regex_match target e.re ≡ none) before
    pub hit : regex_match target entry.re ≡ some match

  -- How a request is answered: not at all without a peer; by the first application whose pattern its
  -- target matches; or by the server, which says that there is none, if that can be sent.
  pub data Answer (a : Asked) (r : Reply) : Type 0 where
    no_peer : a.1.0 ≡ false → r ≡ ([], err not_connected) → Answer a r
    routed :
        (entry : AppEntry Regex Match) (match : Match)
        → a.1.0 ≡ true
        → Routed (a.0.target) entry match
        → r ≡ entry.app a.0 match
        → Answer a r
    unrouted :
        a.1.0 ≡ true
        → All (λ e. regex_match (a.0.target) e.re ≡ none) store
        → a.1.1 ≡ true
        → r ≡ (
          no_app Regex Match regex_match need_eof store a.0 ∷ [],
          ok (not (need_eof (no_app Regex Match regex_match need_eof store a.0))),
        )
        → Answer a r
    unsent :
        a.1.0 ≡ true
        → All (λ e. regex_match (a.0.target) e.re ≡ none) store
        → a.1.1 ≡ false
        → r ≡ ([], err write_failed)
        → Answer a r

  chosen : String → Store Regex Match → Option (AppEntry Regex Match × Match)
  chosen = select Regex Match regex_match need_eof

  select-hit :
      (target : String) (before behind : Store Regex Match) (entry : AppEntry Regex Match)
      (match : Match)
      → All (λ e. regex_match target e.re ≡ none) before
      → regex_match target entry.re ≡ some match
      → chosen target (before ++ entry ∷ behind) ≡ some (entry, match)
  unfolding select chosen
  select-hit target [] behind entry match misses hit = rw hit refl
  select-hit target (e ∷ before) behind entry match (miss, misses) hit =
      rw miss (select-hit target before behind entry match misses hit)

  select-none :
      (target : String) (s : Store Regex Match)
      → All (λ e. regex_match target e.re ≡ none) s
      → chosen target s ≡ none
  unfolding select chosen
  select-none target [] misses = refl
  select-none target (e ∷ s) (miss, misses) = ground (arith, miss, select-none target s misses)

  -- The search, one way or the other.
  Searched : String → Store Regex Match → Type 0
  Searched target s =
      All (λ e. regex_match target e.re ≡ none) s
      ⊎ ((entry : AppEntry Regex Match) × (match : Match) × (before : Store Regex Match)
          × (behind : Store Regex Match) × (s ≡ before ++ entry ∷ behind)
          × All (λ e. regex_match target e.re ≡ none) before
          × (regex_match target entry.re ≡ some match))

  search_store : (target : String) (s : Store Regex Match) → Searched target s
  unfolding Searched
  search_store target [] = inl tt
  search_store target (e ∷ s) = elim (Option-cases (regex_match target e.re)) [
    | inr (match, hit) ↦ inr (e, match, [], s, refl, tt, hit)
    | inl miss ↦ elim (search_store target s) [
      | inl misses ↦ inl (miss, misses)
      | inr (entry, match, before, behind, split, misses, hit) ↦
          inr (entry, match, e ∷ before, behind, ap (λ l. e ∷ l) split, (miss, misses), hit)
    ]
  ]

  -- What is answered is what the server does.
  pub Answer-reply : (a : Asked) (r : Reply) → Answer a r → reply a ≡ r
  unfolding turn chosen
  Answer-reply (request, (connected, sent)) r (no_peer gone e) = rw (gone, e) refl
  Answer-reply (request, (connected, sent)) r (routed entry match peer x e) =
      rw (peer, x.split, select-hit request.target x.before x.behind entry match x.misses x.hit, e)
        refl
  Answer-reply (request, (connected, sent)) r (unrouted peer misses writes e) =
      rw (peer, select-none request.target store misses, writes, e) refl
  Answer-reply (request, (connected, sent)) r (unsent peer misses fails e) =
      rw (peer, select-none request.target store misses, fails, e) refl

  pub reply-Answer : (a : Asked) → Answer a (reply a)
  unfolding turn Searched chosen
  reply-Answer (request, (false, sent)) = no_peer refl refl
  reply-Answer (request, (true, sent)) = elim (search_store request.target store) [
    | inl misses ↦ unrouted_or_unsent sent misses
    | inr (entry, match, before, behind, split, misses, hit) ↦
        routed entry match refl
          (record { before = before; behind = behind; split = split; misses = misses; hit = hit })
          (rw
            (ap (chosen request.target) split
              ∙ select-hit request.target before behind entry match misses hit)
            refl)
  ]
    where
      unrouted_or_unsent :
          (sent : Bool)
          → All (λ e. regex_match request.target e.re ≡ none) store
          → Answer (request, (true, sent)) (reply (request, (true, sent)))
      unrouted_or_unsent true misses =
          unrouted refl misses refl (rw (select-none request.target store misses) refl)
      unrouted_or_unsent false misses =
          unsent refl misses refl (rw (select-none request.target store misses) refl)
