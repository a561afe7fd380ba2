-- ===== src/Rcof/Report/Saved.antt =====
-- What was sent has been saved, so that it can be taken up again.
use cmorflow_tax_api.Common.{
  is_date_format, subst, arith, ◌&&◌, not, ◌≢◌, truthy, Bool, ◌∙◌, ◌==◌, ◌++◌, inl, if◌then◌else◌,
  ◌⊎◌, refl, inr, codes, ap, Option-cases, ◌≡◌, List, Bool-cases, ℕ, is_some, String, Option, [],
  ◌∷◌, none, some, ok, true,
}
use mathlib.Core.Option.{map as Option_map}
use cmorflow_tax_api.Rcof.Day.{Summary, consolidate_day}
use cmorflow_tax_api.Rcof.Report.{
  RcofSubmission, Reports, Exchange, RcofStatus, is_report, is_settled, update_report, as_sent,
  as_failed, Answer, transmission_failed, after_answer, transmit, create_and_transmit, new_report,
  from_summaries, generate, continue_existing, execute, poll_status, save_status, mapped_status,
  status_rank,
}
use cmorflow_tax_api.Rcof.Report.Table.{find-map, find-last, report_refl}
use cmorflow_tax_api.Rcof.Report.Count.{the_report}
use cmorflow_tax_api.Rcof.Report.Once.{Operation, generating, polling, operate}

is_some-map : {A : Type 0} (f : A → A) (o : Option A) → is_some (Option_map f o) ≡ is_some o
is_some-map f none = refl
is_some-map f (some a) = refl

-- A report that is settled.
abbrev pub IsSettled : Answer → Type 0
IsSettled a = (r : RcofSubmission) × (a.0 ≡ ok r) × (is_settled r ≡ true)

module _ (tenant_id date : String) (sequence : ℕ) where
  -- The report is in the table.
  abbrev Has : Reports → Type 0
  Has w = is_some (the_report tenant_id date sequence w) ≡ true

  update_report-Has :
      (id : ℕ) (patch : RcofSubmission → RcofSubmission) (w : Reports)
      → ((r : RcofSubmission)
          → is_report tenant_id date sequence (patch r) ≡ is_report tenant_id date sequence r)
      → Has w
      → Has (record w { rows = update_report id patch w.rows })
  update_report-Has id patch w same h =
      ap is_some (
        find-map (is_report tenant_id date sequence) (λ r. if r.id == id then patch r else r)
          (λ r. elim (Bool-cases (r.id == id)) [ inl e ↦ rw e (same r) | inr e ↦ rw e refl ])
          w.rows)
      ∙ is_some-map _ (the_report tenant_id date sequence w)
      ∙ h

  failed-Has : (x : Exchange) (id : ℕ) (w : Reports) → Has w → Has ((transmission_failed x id w).1)
  unfolding is_report
  failed-Has x id w h = elim (Bool-cases x.marked) [
    | inr e ↦ rw e h
    | inl e ↦ rw e (update_report-Has id as_failed w (λ r. refl) h)
  ]

  after_answer-Has :
      (x : Exchange) (rcof : RcofSubmission) (answer : Option String) (w : Reports)
      → Has w
      → Has ((after_answer x rcof answer w).1)
  unfolding is_report
  after_answer-Has x rcof none w h = failed-Has x rcof.id w h
  after_answer-Has x rcof (some t) w h = elim (Bool-cases x.recorded) [
    | inr e ↦ rw e (failed-Has x rcof.id w h)
    | inl e ↦ rw e (update_report-Has rcof.id (as_sent t) w (λ r. refl) h)
  ]

  transmit-Has :
      (x : Exchange) (rcof : RcofSubmission) (w : Reports) → Has w → Has ((transmit x rcof w).1)
  unfolding transmit
  transmit-Has x rcof w h = elim (Bool-cases x.token) [
    | inr e ↦ rw e (failed-Has x rcof.id w h)
    | inl e ↦ elim (Bool-cases x.arrives) [
      | inr a ↦ rw e (rw a (after_answer-Has x rcof x.answer w h))
      | inl a ↦
          rw e (rw a (after_answer-Has x rcof x.answer (record w { sends = rcof.id ∷ w.sends }) h))
    ]
  ]

  -- Nothing was sent for a report that is not in the table.
  abbrev IsSaved : Reports → Type 0
  IsSaved w = (w.sends ≡ []) ⊎ Has w

  create_and_transmit-IsSaved :
      (x : Exchange) (xml : String) (w : Reports)
      → the_report tenant_id date sequence w ≡ none
      → IsSaved w
      → IsSaved ((create_and_transmit x (new_report x tenant_id date sequence xml) w).1)
  unfolding create_and_transmit
  create_and_transmit-IsSaved x xml w missing h =
      let rcof = new_report x tenant_id date sequence xml in
      elim (Bool-cases x.created) [
        | inr e ↦ rw e h
        | inl e ↦ rw e (
            inr (
              transmit-Has x rcof (record w { rows = w.rows ++ rcof ∷ [] })
                (ap is_some (
                  find-last (is_report tenant_id date sequence) w.rows rcof missing
                    (report_refl tenant_id date sequence rcof refl refl refl)))))
      ]

  from_summaries-IsSaved :
      (x : Exchange) (w : Reports) (signed : Option String) (ss : List Summary)
      → the_report tenant_id date sequence w ≡ none
      → IsSaved w
      → IsSaved ((from_summaries x tenant_id date sequence w signed ss).1)
  unfolding from_summaries
  from_summaries-IsSaved x w signed [] missing h = h
  from_summaries-IsSaved x w none (s ∷ ss) missing h = h
  from_summaries-IsSaved x w (some xml) (s ∷ ss) missing h =
      create_and_transmit-IsSaved x xml w missing h

  continue_existing-IsSaved :
      (x : Exchange) (w : Reports) (existing : Option RcofSubmission)
      → the_report tenant_id date sequence w ≡ existing
      → IsSaved w
      → IsSaved ((continue_existing x tenant_id date sequence w existing).1)
  unfolding continue_existing generate
  continue_existing-IsSaved x w none missing h = elim (Option-cases x.documents) [
    | inl e ↦ rw e h
    | inr (documents, e) ↦
        rw e
          (from_summaries-IsSaved x w x.signed (consolidate_day (codes date) documents) missing h)
  ]
  continue_existing-IsSaved x w (some r) there h = elim (Bool-cases (is_settled r)) [
    | inl s ↦ rw s h
    | inr s ↦ rw s (inr (transmit-Has x r w (ap is_some there)))
  ]

  execute-IsSaved :
      (x : Exchange) (w : Reports) → IsSaved w → IsSaved ((execute x tenant_id date sequence w).1)
  unfolding execute
  execute-IsSaved x w h = elim (Bool-cases (is_date_format (codes date))) [
    | inr e ↦ rw e h
    | inl e ↦ elim (Bool-cases x.found) [
      | inr f ↦ rw e (rw f h)
      | inl f ↦
          rw e (rw f (continue_existing-IsSaved x w (the_report tenant_id date sequence w) refl h))
    ]
  ]

  save_status-IsSaved :
      (updated : Bool) (mapped : RcofStatus) (rcof : RcofSubmission) (w : Reports)
      → IsSaved w
      → IsSaved ((save_status updated mapped rcof w).1)
  unfolding is_report
  save_status-IsSaved updated mapped rcof w h =
      elim (Bool-cases (not (status_rank mapped == status_rank rcof.status) && updated)) [
        | inr e ↦ rw e h
        | inl e ↦ rw e (elim h [
          | inl nothing ↦ inl nothing
          | inr there ↦
              inr
                (update_report-Has rcof.id (λ r. record r { status = mapped }) w (λ r. refl) there)
        ])
      ]

  poll_status-IsSaved :
      (reply : Option String) (updated : Bool) (rcof : RcofSubmission) (w : Reports)
      → IsSaved w
      → IsSaved ((poll_status reply updated rcof w).1)
  unfolding poll_status
  poll_status-IsSaved none updated rcof w h = h
  poll_status-IsSaved (some s) updated rcof w h =
      elim (Bool-cases (is_some (truthy rcof.track_id))) [
        | inr e ↦ rw e h
        | inl e ↦ rw e (save_status-IsSaved updated (mapped_status s rcof.status) rcof w h)
      ]

  operate-IsSaved :
      (ops : List Operation) (w : Reports)
      → IsSaved w
      → IsSaved (operate tenant_id date sequence ops w)
  operate-IsSaved [] w h = h
  operate-IsSaved (generating x ∷ ops) w h =
      operate-IsSaved ops ((execute x tenant_id date sequence w).1) (execute-IsSaved x w h)
  operate-IsSaved (polling reply updated rcof ∷ ops) w h =
      operate-IsSaved ops ((poll_status reply updated rcof w).1)
        (poll_status-IsSaved reply updated rcof w h)

  transmit-IsSettled :
      (x : Exchange) (r : RcofSubmission) (w : Reports)
      → x.token ≡ true
      → is_some (truthy x.answer) ≡ true
      → x.recorded ≡ true
      → IsSettled (transmit x r w)
  unfolding transmit is_settled
  transmit-IsSettled x r w token answer recorded = elim (Option-cases x.answer) [
    | inl e ↦ cc (answer, e)
    | inr (t, e) ↦ rw token (
        rw e (
          rw recorded
            (as_sent t r, refl, ground (arith, subst (λ o. is_some (truthy o) ≡ true) e answer))))
  ]

  -- From a table without envelopes: once an envelope of the report has arrived, whatever failed before and after it, the next call for
  -- the same report whose first read, token, answer and update run returns the report settled; whether
  -- the documents of the day can be read and signed again does not matter.
  pub operate-recovers :
      (ops : List Operation) (x : Exchange) (w : Reports)
      → w.sends ≡ []
      → (operate tenant_id date sequence ops w).sends ≢ []
      → is_date_format (codes date) ≡ true
      → x.found ≡ true
      → x.token ≡ true
      → is_some (truthy x.answer) ≡ true
      → x.recorded ≡ true
      → IsSettled (execute x tenant_id date sequence (operate tenant_id date sequence ops w))
  unfolding execute continue_existing
  operate-recovers ops x w fresh some_sent format found token answer recorded =
      elim (operate-IsSaved ops w (inl fresh)) [
        | inl nothing ↦ absurd (some_sent nothing)
        | inr there ↦
            elim (Option-cases
              (the_report tenant_id date sequence (operate tenant_id date sequence ops w))) [
                | inl e ↦ cc (there, e)
                | inr (r, e) ↦ elim (Bool-cases (is_settled r)) [
                  | inl s ↦ rw format (rw found (rw e (rw s (r, refl, s))))
                  | inr s ↦
                      rw format
                        (rw found (rw e (rw s (transmit-IsSettled x r _ token answer recorded))))
                ]
              ]
      ]
