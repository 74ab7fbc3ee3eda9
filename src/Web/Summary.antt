-- ===== src/Web/Summary.antt =====
-- `entity_summary_app` of web/entity_summary_app.cpp, and `summary` of entity/entity_base.cpp. The
-- entities are summarised in the order in which they are enumerated, where the source has a map by
-- their addresses. Names of classes, what a class adds to its summary, and the printing of numbers
-- and addresses are parameters.
pub mod Local
use arby.Common.{
  ℕ, ◌+◌, ◌≡◌, ℕ_discrete, String, Bool, ◌==◌, if◌then◌else◌, none, some, List, [], ◌∷◌, ◌++◌,
  length,
}
use arby.Common.Assoc.{emplace}
use arby.Entity.Service.{EntityId, EntityState, Executor, Call, World, dispatch, enumerate}
use arby.Web.Apps.{Status, Request, Response, Reply, send}

pub record Texts : Type 0 where
  pub classname : EntityId → String
  pub extend_summary : EntityId → List String
  pub print_size : ℕ → String
  pub print_address : EntityId → String

abbrev pub Summaries : Type 0
Summaries = List (EntityId × List String)

-- `wise_enum::to_string`
abbrev pub to_string : EntityState → String
to_string EntityState.not_started = "not_started"
to_string EntityState.started = "started"
to_string EntityState.stopped = "stopped"

module _ (texts : Texts) where
  abbrev pub summary : EntityId → World → List String
  summary i w =
      texts.classname i ∷ "(" ∷ to_string (w.entity_of i).estate ∷ ") : " ∷ texts.extend_summary i

  -- `enumerator`, whose function object for another executor has the entity.
  unfoldable pub enumerator : Executor → EntityId → Summaries × World → Summaries × World
  enumerator this_exec i (summaries, w) =
      if this_exec == (w.entity_of i).exec
      then (emplace ℕ_discrete i (summary i w) summaries, w)
      else (summaries, dispatch Call.summary_call i w)

  unfoldable pub enumerate_all : Executor → List EntityId → Summaries × World → Summaries × World
  enumerate_all this_exec [] state = state
  enumerate_all this_exec (i ∷ m) state = enumerate_all this_exec m (enumerator this_exec i state)

  unfoldable pub lines : Summaries → List String
  lines [] = []
  lines ((i, buffer) ∷ summaries) =
      texts.print_address i ∷ " - " ∷ buffer ++ "\r\n" ∷ lines summaries

  abbrev pub page : Request → Summaries → Response
  page request summaries = record {
    result = Status.found;
    version = request.version;
    keep_alive = request.keep_alive;
    body = texts.print_size (length summaries) ∷ " entities:\r\n" ∷ lines summaries;
  }

  -- `outstanding` is 0 when the loop tests it, so the loop does not wait.
  unfoldable pub entity_summary_app :
      (Response → Bool) → Executor → Request → Bool → World → Reply × World
  entity_summary_app need_eof this_exec request sent w =
      let state = enumerate_all this_exec (enumerate w) ([], w) in
      (send need_eof (page request state.0) sent, state.1)
