-- ===== src/Web/Summary/Local.antt =====
-- Which entities the page of summaries shows.
use arby.Common.{◌+◌, ◌≡◌, ◌≤◌, ◌==◌, if◌then◌else◌, List, map}
use arby.Common.Totals.{total, count}
use arby.Entity.Service.{EntityId, Executor, World, is_for}
use arby.Web.Summary.{Texts, Summaries}

abbrev pub shown : Summaries → List EntityId
shown summaries = map (λ s. s.0) summaries

module _ (texts : Texts) (this_exec : Executor) where
  -- The entities of the list whose executor it is are shown after, and the others have a function object.
  abbrev Shows : List EntityId → Summaries → World → Summaries × World → Type 0
  Shows m summaries w end =
      ((j : EntityId)
        → count j (shown end.0)
          ≡ count j (shown summaries)
            + (if this_exec == (w.entity_of j).exec then count j m else 0))
      × ((j : EntityId)
          → total (is_for j) end.1.tasks
            ≡ total (is_for j) w.tasks
              + (if this_exec == (w.entity_of j).exec then 0 else count j m))

  abbrev AreApart : List EntityId → Summaries → Type 0
  AreApart m summaries = (j : EntityId) → count j m + count j (shown summaries) ≤ 1
