-- ===== src/Web/SummaryExamples.antt =====
-- The page of summaries at concrete entities.
use arby.Common.{◌==◌, if◌then◌else◌, List, [], ◌∷◌}
use arby.Entity.Service.{Op}
use arby.Web.Summary.{Texts}

abbrev plain_texts : Texts
plain_texts = record {
  classname = λ i. "unnamed_entity";
  extend_summary = λ i. [];
  print_size = λ n. if n == 1 then "1" else "many";
  print_address = λ i. if i == 0 then "0x0" else "0x1";
}

abbrev two_entities : List Op
two_entities = Op.constructed 0 7 ∷ Op.constructed 1 8 ∷ Op.ran 0 ∷ []
