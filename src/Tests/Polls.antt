-- ===== src/Tests/Polls.antt =====
-- The theorems on the polls at a concrete request.
use cmorflow_tax_api.Common.{◌≡◌, List, refl, inr, inl, none, some, [], ◌∷◌, true, false}
use cmorflow_tax_api.Request.{
  submitted, processing, accepted, Request, Store, DteStatus, moved, notifiable_states,
  is_transition_allowed, allowed_transitions,
}
use cmorflow_tax_api.Request.Persist.{merge}
use cmorflow_tax_api.Polling.{Dte, Documents, pendiente, poll_request, requests_of_tenant}
use cmorflow_tax_api.Polling.Final.{IsFound, IsReported, replied, poll_request-finalizes}
use cmorflow_tax_api.Polling.Trail.{
  Poll, of_document, of_report, Polled, IsKept, poll_all, poll_all-IsKept,
}
use cmorflow_tax_api.Tests.Samples.{request_processing, created}

abbrev waiting : Request
waiting = record request_processing {
  state = submitted;
  dte_id = some 4;
  state_history =
      created
      ∷ record {
        state = submitted;
        timestamp = 3000;
        detail = "Transmitido al SII.";
        from = some processing;
      }
      ∷ [];
}

abbrev waiting_store : Store
waiting_store = record {
  row = waiting;
  outbox = record { state = submitted; detail = "Transmitido al SII." } ∷ [];
}

abbrev dte_4 : Dte
dte_4 = record { id = 4; track_id = some "T4"; status = DteStatus.enviado; status_history = [] }

abbrev documents_4 : Documents
documents_4 = record {
  submissions = record { track_id = "T4"; status = pendiente } ∷ [];
  dtes = record dte_4 { id = 3; track_id = none } ∷ dte_4 ∷ [];
}

dte_4-IsFound : IsFound waiting "T4" dte_4 documents_4
dte_4-IsFound = record { by_id = refl; by_track = refl; track = refl; submission = refl }

poll_request-finalizes_example :
    (poll_request 9000 (replied "ACEPTADO") waiting waiting_store documents_4).0 ≡ record {
      row = moved 9000 (merge waiting waiting_store) accepted "SII responde";
      outbox =
          record { state = submitted; detail = "Transmitido al SII." }
          ∷ record { state = accepted; detail = "SII responde" }
          ∷ [];
    }
poll_request-finalizes_example =
    poll_request-finalizes 9000 waiting "T4" "ACEPTADO" DteStatus.aceptado accepted dte_4
      waiting_store documents_4 IsReported.aceptado dte_4-IsFound refl

waiting-IsKept : IsKept waiting_store
unfolding is_transition_allowed allowed_transitions notifiable_states
waiting-IsKept = record {
  trail = (refl, ((processing, refl, inr (refl, refl), refl, λ e. cc e), inl refl));
  in_step = refl;
}

abbrev polled : Polled
polled = record {
  store = waiting_store;
  documents = documents_4;
  reports = record { rows = []; sends = [] };
}

abbrev polls : List Poll
polls =
    of_document 9000 (replied "ACEPTADO") waiting
    ∷ of_report 9500 (some "RECHAZADO") true waiting none
    ∷ []

poll_all-IsKept_example : IsKept (poll_all polls polled).store
poll_all-IsKept_example = poll_all-IsKept polls polled waiting-IsKept

takes_one : requests_of_tenant 1 false waiting.tenant_id (waiting ∷ waiting ∷ []) ≡ waiting ∷ []
unfolding requests_of_tenant
takes_one = refl
