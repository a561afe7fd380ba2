-- ===== src/Polling/Trail.antt =====
-- What any polls keep of a request.
use cmorflow_tax_api.Common.{
  refl, subst, ◌≡◌, Bool, String, Result, Option, ℕ, List, [], ◌∷◌, none, some, ok, err,
}
use cmorflow_tax_api.Request.{State, Request, Store, apply_state, ErrorCode}
use cmorflow_tax_api.Request.Persist.{
  IsTrail, AreInStep, apply_state-IsTrail, apply_state-AreInStep, store_after,
}
use cmorflow_tax_api.Rcof.Report.{RcofSubmission, Reports}
use cmorflow_tax_api.Polling.{
  Documents, QueryAnswer, QueryError, kept_store, consolidate_state, after_query, query_found,
  track_of, poll_request, poll_rcof_request, refreshed_report, state_of_report, get_dte,
  query_dte_status, reported, public_of,
}

-- The history leads by allowed moves to the present state, and each notifiable entry has its event.
pub record IsKept (store : Store) : Type 0 where
  pub trail : IsTrail store.row.state_history store.row.state
  pub in_step : AreInStep store

consolidate_state-IsKept :
    (now : ℕ) (request : Request) (s : Option State) (store : Store)
    → IsKept store
    → IsKept (consolidate_state now request s store)
unfolding consolidate_state
consolidate_state-IsKept now request none store h = h
consolidate_state-IsKept now request (some s) store h =
    subst IsKept (kept store (apply_state now request s "SII responde" store)) (record {
      trail = apply_state-IsTrail now request s "SII responde" store h.trail;
      in_step = apply_state-AreInStep now request s "SII responde" store h.in_step;
    })
  where
    kept :
        (store : Store) (r : Result ErrorCode (Request × Store))
        → store_after store r ≡ kept_store store r
    kept store (ok (request, after)) = refl
    kept store (err e) = refl

-- One poll, of a document's request or of a report's.
pub data Poll : Type 0 where
  of_document : ℕ → QueryAnswer → Request → Poll
  of_report : ℕ → Option String → Bool → Request → Option RcofSubmission → Poll

pub record Polled : Type 0 where
  pub store : Store
  pub documents : Documents
  pub reports : Reports

abbrev pub after_document : Polled → Store × Documents → Polled
after_document w x = record w { store = x.0; documents = x.1 }

abbrev pub after_report : Polled → Store × Reports → Polled
after_report w x = record w { store = x.0; reports = x.1 }

unfoldable pub poll_all : List Poll → Polled → Polled
unfolding poll_request poll_rcof_request
poll_all [] w = w
poll_all (of_document now a request ∷ polls) w =
    poll_all polls (after_document w (poll_request now a request w.store w.documents))
poll_all (of_report now reply updated request rcof ∷ polls) w =
    poll_all polls
      (after_report w (poll_rcof_request now reply updated request rcof w.store w.reports))

query_found-IsKept :
    (now : ℕ) (a : QueryAnswer) (request : Request) (track : Option String) (store : Store)
    (w : Documents)
    → IsKept store
    → IsKept (query_found now a request track store w).0
unfolding query_found after_query
query_found-IsKept now a request none store w h = h
query_found-IsKept now a request (some t) store w h = after (query_dte_status a t w)
  where
    after :
        (x : Result QueryError (Unit {0}) × Documents) → IsKept (after_query now request x store).0
    after (ok _, w') =
        consolidate_state-IsKept now request (reported (public_of (get_dte request.dte_id w')))
          store h
    after (err e, w') = h

poll_rcof_request-IsKept :
    (now : ℕ) (reply : Option String) (updated : Bool) (request : Request)
    (rcof : Option RcofSubmission) (store : Store) (w : Reports)
    → IsKept store
    → IsKept (poll_rcof_request now reply updated request rcof store w).0
unfolding poll_rcof_request
poll_rcof_request-IsKept now reply updated request none store w h = h
poll_rcof_request-IsKept now reply updated request (some r) store w h =
    consolidate_state-IsKept now request
      (state_of_report (refreshed_report reply updated r r.status w).0) store h

-- Whatever requests are polled, with whatever answers and failures, and whatever the polls hold in
-- memory, if it was so before: the history stays a trail of allowed moves to the present state, and the outbox holds one
-- event for each of its notifiable entries.
pub poll_all-IsKept :
    (polls : List Poll) (w : Polled) → IsKept w.store → IsKept (poll_all polls w).store
unfolding poll_all poll_request
poll_all-IsKept [] w h = h
poll_all-IsKept (of_document now a request ∷ polls) w h =
    poll_all-IsKept polls (after_document w (poll_request now a request w.store w.documents)) (
      query_found-IsKept now a request (track_of (get_dte request.dte_id w.documents)) w.store
        w.documents h)
poll_all-IsKept (of_report now reply updated request rcof ∷ polls) w h =
    poll_all-IsKept polls
      (after_report w (poll_rcof_request now reply updated request rcof w.store w.reports))
      (poll_rcof_request-IsKept now reply updated request rcof w.store w.reports h)
