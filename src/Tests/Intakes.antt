-- ===== src/Tests/Intakes.antt =====
-- The theorems on the intake at a concrete call.
use cmorflow_tax_api.Common.{refl, true, false, ok, err, ◌≡◌, none, ◌∷◌, some, [], String}
use cmorflow_tax_api.Request.{Kind}
use cmorflow_tax_api.Intake.{
  Entry, EnqueueInput, idempotency_conflict, new_entry, violates, insert_entry, enqueue,
}
use cmorflow_tax_api.Intake.Idempotence.{present, earlier, enqueue_replays, enqueue_conflicts}

abbrev input_1 : EnqueueInput
input_1 = record {
  tenant_id = "t1";
  credential_id = some "c1";
  kind = Kind.dte;
  idempotency_key = "k1";
  resource_key = none;
  raw_body = "{}";
  document_type = 33;
  external_reference = some "ref1";
}

abbrev same : String → String
same s = s

abbrev entry_1 : Entry
entry_1 = new_entry "{}" 1000 "r1" input_1

inserts : enqueue same 1000 "r1" input_1 [] [] ≡ ok ((entry_1, false), entry_1 ∷ [])
unfolding enqueue insert_entry violates
inserts = refl

-- The second call has read the table before the first one inserted.
enqueue_replays_example :
    enqueue same 1001 "r2" input_1 [] (entry_1 ∷ []) ≡ ok ((entry_1, true), entry_1 ∷ [])
enqueue_replays_example =
    enqueue_replays same 1000 1001 "r1" "r2" input_1 [] [] [] ((entry_1, false), entry_1 ∷ [])
      present inserts (earlier [] refl refl)

enqueue_conflicts_example :
    enqueue same 1001 "r2" (record input_1 { raw_body = "[]" }) (entry_1 ∷ []) (entry_1 ∷ [])
    ≡ err idempotency_conflict
enqueue_conflicts_example =
    enqueue_conflicts same 1000 1001 "r1" "r2" "[]" input_1 [] (entry_1 ∷ []) []
      ((entry_1, false), entry_1 ∷ []) present inserts present refl
