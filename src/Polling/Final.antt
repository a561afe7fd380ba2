-- ===== src/Polling/Final.antt =====
-- What a poll makes of the SII's answer.
use cmorflow_tax_api.Common.{
  Option, sym, ◌==◌, str_eq, ◌++◌, ap, any, ℕ, truthy, Option-cases, refl, inr, ◌∙◌, subst, inl,
  Bool-cases, ◌≢◌, find, ◌≡◌, List, String, Bool, [], ◌∷◌, none, some, true, false,
}
use cmorflow_tax_api.Request.{
  State, submitted, accepted, observed, rejected, DteStatus, Request, Store, moved, events_for,
  is_transition_allowed, allowed_transitions, map_dte_status_to_public, notifiable_states,
}
use cmorflow_tax_api.Request.Persist.{merge, apply_state-move}
use cmorflow_tax_api.Polling.{
  Dte, Documents, QueryAnswer, reported_status, is_track, with_report, update_first, record_status,
  after_reply, query_dte_status, get_dte, public_of, reported, consolidate_state, after_query,
  query_found, poll_request,
}

found-is : {A : Type 0} (p : A → Bool) (xs : List A) (a : A) → find p xs ≡ some a → p a ≡ true
found-is p [] a h = cc h
found-is p (x ∷ xs) a h = elim (Bool-cases (p x)) [
  | inl e ↦ let y : x ≡ a = cc (h, e) in subst (λ y. p y ≡ true) y e
  | inr e ↦ found-is p xs a (cc (h, e))
]

-- A row that two tests find first is found by the second after its update by the first.
update_first-find :
    {A : Type 0} (p q : A → Bool) (change : A → A) (xs : List A) (a : A)
    → q (change a) ≡ q a
    → find p xs ≡ some a
    → find q xs ≡ some a
    → find q (update_first p change xs) ≡ some (change a)
update_first-find p q change [] a same fp fq = cc fp
update_first-find p q change (x ∷ xs) a same fp fq = elim (Bool-cases (p x)) [
  | inl e ↦
      let y : x ≡ a = cc (fp, e) in
      let found = found-is q (x ∷ xs) a fq in
      let now_found = subst (λ y. q (change y) ≡ true) (sym y) (same ∙ found) in
      rw e (rw now_found (ap (λ y. some (change y)) y))
  | inr e ↦ elim (Bool-cases (q x)) [
    | inl f ↦
        let y : x ≡ a = cc (fq, f) in cc (subst (λ y. p y ≡ false) y e, found-is p (x ∷ xs) a fp)
    | inr f ↦ rw e (rw f (update_first-find p q change xs a same (cc (fp, e)) (cc (fq, f))))
  ]
]

-- A query that runs through.
abbrev pub replied : String → QueryAnswer
replied reply = record {
  session = true;
  reply = some reply;
  submission_saved = true;
  dte_saved = true;
  audited = true;
}

-- What the SII reports of a document, and the public state that stands for it.
pub data IsReported : String → DteStatus → State → Type 0 where
  aceptado : IsReported "ACEPTADO" DteStatus.aceptado accepted
  reparo : IsReported "REPARO" DteStatus.reparo observed
  rechazado : IsReported "RECHAZADO" DteStatus.rechazado rejected

-- What follows from a report.
record Consequences (reply : String) (s : DteStatus) (p : State) : Type 0 where
  pub status : reported_status reply ≡ some s
  pub public : (d : Dte) → reported (public_of (some (with_report (some s) d))) ≡ some p
  pub allowed : is_transition_allowed submitted p ≡ true
  pub moves : submitted ≢ p
  pub events : (detail : String) → events_for p detail ≡ record { state = p; detail = detail } ∷ []

consequences :
    (reply : String) (s : DteStatus) (p : State) → IsReported reply s p → Consequences reply s p
unfolding reported_status public_of map_dte_status_to_public is_transition_allowed
    allowed_transitions events_for notifiable_states
consequences reply s p aceptado = record {
  status = refl;
  public = λ d. refl;
  allowed = refl;
  moves = λ e. cc e;
  events = λ detail. refl;
}
consequences reply s p reparo = record {
  status = refl;
  public = λ d. refl;
  allowed = refl;
  moves = λ e. cc e;
  events = λ detail. refl;
}
consequences reply s p rechazado = record {
  status = refl;
  public = λ d. refl;
  allowed = refl;
  moves = λ e. cc e;
  events = λ detail. refl;
}

-- Where the document of a request is found, and the submission it was sent with.
pub record IsFound (request : Request) (track_id : String) (d : Dte) (w : Documents) : Type 0 where
  pub by_id : get_dte request.dte_id w ≡ some d
  pub by_track : find (λ d. is_track track_id d.track_id) w.dtes ≡ some d
  pub track : truthy d.track_id ≡ some track_id
  pub submission : any (λ s. str_eq s.track_id track_id) w.submissions ≡ true

with_report-id : (o : Option DteStatus) (d : Dte) → (with_report o d).id ≡ d.id
with_report-id none d = refl
with_report-id (some s) d = refl

get_dte-record :
    (request : Request) (track_id reply : String) (d : Dte) (w : Documents)
    → IsFound request track_id d w
    → get_dte request.dte_id (record_status (replied reply) track_id reply w)
      ≡ some (with_report (reported_status reply) d)
unfolding record_status
get_dte-record request track_id reply d w h = elim (Option-cases request.dte_id) [
  | inl e ↦ cc (h.by_id, ap (λ o. get_dte o w) e)
  | inr (id, e) ↦ rw e (
      update_first-find (λ d. is_track track_id d.track_id) (λ d. d.id == id)
        (with_report (reported_status reply)) w.dtes d
        (ap (λ i. i == id) (with_report-id (reported_status reply) d)) h.by_track
        (subst (λ o. get_dte o w ≡ some d) e h.by_id))
]

-- A request in `submitted` whose document is on record with its track id and the submission, polled
-- when the SII answers ACEPTADO, REPARO or RECHAZADO and the query runs through, is moved to
-- `accepted`, `observed` or `rejected`, and exactly one event for that state is added to the outbox,
-- whatever request the poll holds in memory.
pub poll_request-finalizes :
    (now : ℕ) (request : Request) (track_id reply : String) (s : DteStatus) (p : State) (d : Dte)
    (store : Store) (w : Documents)
    → IsReported reply s p
    → IsFound request track_id d w
    → store.row.state ≡ submitted
    → (poll_request now (replied reply) request store w).0 ≡ record {
      row = moved now (merge request store) p "SII responde";
      outbox = store.outbox ++ record { state = p; detail = "SII responde" } ∷ [];
    }
unfolding poll_request query_found after_query query_dte_status after_reply consolidate_state
poll_request-finalizes now request track_id reply s p d store w r found there =
    let c = consequences reply s p r in
    let again : reported
          (public_of (get_dte request.dte_id (record_status (replied reply) track_id reply w)))
        ≡ some p =
      rw (get_dte-record request track_id reply d w found) (rw c.status (c.public d)) in
    let moves : store.row.state ≢ p = λ e. c.moves (sym there ∙ e) in
    let allowed : is_transition_allowed store.row.state p ≡ true = rw there c.allowed in
    rw found.by_id (
      rw found.track (
        rw found.submission (
          rw again (
            rw (apply_state-move now request p "SII responde" store moves allowed)
              (rw (c.events "SII responde") refl)))))
