-- ===== src/Tests/Processing.antt =====
-- Runs of the worker.
use cmorflow_tax_api.Processor.{serve_all, Shift, serve}
use cmorflow_tax_api.Common.{map, ℕ, List, ◌∷◌, some, []}
use cmorflow_tax_api.Worker.{World, Document, runs, throws}
use cmorflow_tax_api.Tests.Samples.{world_1}

abbrev good : Shift
good = record { time = 2000; faults = []; replies = some "77" ∷ [] }

good_run : World
good_run = serve good world_1

-- The read of the prepared document fails once: its link is lost, and the next pass prepares a second
-- document with a second folio.
abbrev unlucky : Shift
unlucky = record {
  time = 2000;
  faults =
      runs ∷ runs ∷ runs ∷ runs ∷ runs ∷ runs ∷ runs ∷ runs ∷ runs ∷ runs ∷ throws "timeout" ∷ [];
  replies = [];
}

abbrev afterwards : Shift
afterwards = record { time = 900000; faults = []; replies = some "77" ∷ [] }

two_folios : List ℕ
two_folios =
    map (λ d. Document.folio d) (serve_all (unlucky ∷ afterwards ∷ []) world_1).db.documents
