-- ===== src/Web/Apps/Sessions.antt =====
-- What a connection is sent, as a whole.
use arby.Common.{
  ◌≡◌, ◌↔◌, refl, ap, sym, subst, ◌∙◌, String, Bool, true, false, Option, List, [], ◌∷◌, ◌++◌, map,
  All, append_assoc,
}
use arby.Common.Result.{ok, err, Fault}
use arby.Web.Apps.{Reply, Response, Turn, Ending, Store, again, rounds, session}
use arby.Web.Apps.Turn.{timed_out, read_failed, received}
use arby.Web.Apps.Ending.{waiting, ended, thrown}
use arby.Web.Apps.Answers.{Asked, reply, Answer, Answer-reply, reply-Answer}

module _ (Regex Match : Type 0) (regex_match : String → Regex → Option Match)
    (need_eof : Response → Bool) (store : Store Regex Match) where
  abbrev loop : List Turn → List Response × Ending
  loop = rounds Regex Match regex_match need_eof store

  -- Requests that keep the connection, with what is sent for each.
  abbrev pub written_by :
      List ((Asked Regex Match regex_match need_eof store) × List Response) → List Response
  written_by [] = []
  written_by ((a, written) ∷ kept) = written ++ written_by kept

  abbrev asked : (Asked Regex Match regex_match need_eof store) → Turn
  asked a = received a.0 a.1.0 a.1.1

  -- How a connection ends, and what is sent on it last.
  pub data Ends : List Turn → List Response → Ending → Type 0 where
    idle : Ends [] [] waiting
    late : {turns : List Turn} → Ends (timed_out ∷ turns) [] ended
    broken : {turns : List Turn} → Ends (read_failed ∷ turns) [] ended
    closed :
        {a : (Asked Regex Match regex_match need_eof store)} {turns : List Turn}
        {last : List Response}
        → (Answer Regex Match regex_match need_eof store) a (last, ok false)
        → Ends (asked a ∷ turns) last ended
    failed :
        {a : (Asked Regex Match regex_match need_eof store)} {turns : List Turn}
        {last : List Response} {fault : Fault}
        → (Answer Regex Match regex_match need_eof store) a (last, err fault)
        → Ends (asked a ∷ turns) last (thrown fault)

  -- The requests that keep the connection are answered in order, and then it ends.
  pub record Served (turns : List Turn) (written : List Response) (ending : Ending) : Type 0 where
    pub kept : List ((Asked Regex Match regex_match need_eof store) × List Response)
    pub rest : List Turn
    pub last : List Response
    pub split : turns ≡ map (λ k. asked k.0) kept ++ rest
    pub keep : All (λ k. (Answer Regex Match regex_match need_eof store) k.0 (k.1, ok true)) kept
    pub ends : Ends rest last ending
    pub sent : written ≡ written_by kept ++ last

  Ends-rounds :
      (turns : List Turn) (last : List Response) (ending : Ending)
      → Ends turns last ending
      → loop turns ≡ (last, ending)
  unfolding rounds
  Ends-rounds [] _ _ idle = refl
  Ends-rounds _ _ _ late = refl
  Ends-rounds _ _ _ broken = refl
  Ends-rounds _ _ _ (closed {a} e) =
      rw ((Answer-reply Regex Match regex_match need_eof store) a _ e) refl
  Ends-rounds _ _ _ (failed {a} e) =
      rw ((Answer-reply Regex Match regex_match need_eof store) a _ e) refl

  kept-rounds :
      (kept : List ((Asked Regex Match regex_match need_eof store) × List Response))
      (rest : List Turn) (last : List Response) (ending : Ending)
      → All (λ k. (Answer Regex Match regex_match need_eof store) k.0 (k.1, ok true)) kept
      → Ends rest last ending
      → loop (map (λ k. asked k.0) kept ++ rest) ≡ (written_by kept ++ last, ending)
  unfolding rounds
  kept-rounds [] rest last ending keep ends = Ends-rounds rest last ending ends
  kept-rounds ((a, written) ∷ kept) rest last ending (answer, keep) ends =
      ap (λ r. again r (loop (map (λ k. asked k.0) kept ++ rest)))
        ((Answer-reply Regex Match regex_match need_eof store) a (written, ok true) answer)
      ∙ ap (λ x. (written ++ x.0, x.1)) (kept-rounds kept rest last ending keep ends)
      ∙ ap (λ x. (x, ending)) (sym (append_assoc written (written_by kept) last))

  rounds-Served : (turns : List Turn) → Served turns (loop turns).0 (loop turns).1
  unfolding rounds
  rounds-Served [] = record {
    kept = [];
    rest = [];
    last = [];
    split = refl;
    keep = tt;
    ends = idle;
    sent = refl;
  }
  rounds-Served (timed_out ∷ turns) = record {
    kept = [];
    rest = timed_out ∷ turns;
    last = [];
    split = refl;
    keep = tt;
    ends = late;
    sent = refl;
  }
  rounds-Served (read_failed ∷ turns) = record {
    kept = [];
    rest = read_failed ∷ turns;
    last = [];
    split = refl;
    keep = tt;
    ends = broken;
    sent = refl;
  }
  rounds-Served (received request connected sent ∷ turns) =
      go ((reply Regex Match regex_match need_eof store) (request, (connected, sent)))
        ((reply-Answer Regex Match regex_match need_eof store) (request, (connected, sent)))
        (rounds-Served turns)
    where
      go :
          (r : Reply)
          → (Answer Regex Match regex_match need_eof store) (request, (connected, sent)) r
          → Served turns (loop turns).0 (loop turns).1
          → Served
              (received request connected sent ∷ turns)
              (again r (loop turns)).0
              (again r (loop turns)).1
      go (last, err fault) e s = record {
        kept = [];
        rest = _;
        last = last;
        split = refl;
        keep = tt;
        ends = failed e;
        sent = refl;
      }
      go (last, ok false) e s = record {
        kept = [];
        rest = _;
        last = last;
        split = refl;
        keep = tt;
        ends = closed e;
        sent = refl;
      }
      go (written, ok true) e s = record {
        kept = ((request, (connected, sent)), written) ∷ s.kept;
        rest = s.rest;
        last = s.last;
        split = ap (λ t. received request connected sent ∷ t) s.split;
        keep = (e, s.keep);
        ends = s.ends;
        sent =
            ap (λ x. written ++ x) s.sent ∙ sym (append_assoc written (written_by s.kept) s.last);
      }

  -- On a connection that has a peer, the requests before the first that does not keep it are answered
  -- in order, each by the first application whose pattern its target matches, or else by the server's
  -- own response that there is none; then the connection waits, or ends by that one or its exception
  -- (of the application, for a peer that is gone, or of a write that fails), by a time-out or a read
  -- that fails. Nothing else is sent.
  pub session_iff :
      (turns : List Turn) (written : List Response) (ending : Ending)
      → (session Regex Match regex_match need_eof store true turns ≡ (written, ending))
        ↔ Served turns written ending
  unfolding session
  session_iff turns written ending = (
    λ e. subst (λ x. Served turns x.0 x.1) e (rounds-Served turns),
    λ s. rw s.split (
        kept-rounds s.kept s.rest s.last ending s.keep s.ends ∙ ap (λ x. (x, ending)) (sym s.sent)),
  )
