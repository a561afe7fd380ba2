-- ===== src/Rcof/Report/Count.antt =====
-- The envelopes of one operation on a report, against what is owed of it before and after.
use cmorflow_tax_api.Common.{
  is_date_format, codes, Option-cases, ==_iff, ◌∙◌, ap, ◌==◌, inr, inl, if◌then◌else◌, Bool-cases,
  refl, ◌+◌, ◌++◌, truthy, not, length, find, arith, ◌≤◌, ◌≡◌, ◌&&◌, ℕ, is_some, List, String,
  Option, Bool, [], ◌∷◌, none, some, true, false,
}
use cmorflow_tax_api.Rcof.Report.Table.{find-map, find-last, report_refl}
use cmorflow_tax_api.Rcof.Report.{
  consolidate_day, Summary, Boleta, RcofSubmission, Reports, Exchange, RcofStatus, is_report,
  is_settled, is_final, update_report, as_sent, transmission_failed, after_answer, transmit,
  create_and_transmit, new_report, from_summaries, generate, continue_existing, execute,
  poll_status, save_status, mapped_status, status_rank,
}
use mathlib.Core.Option.{map as Option_map}

-- An envelope that arrives although the report keeps no track id of it.
abbrev pub is_lost : Exchange → Bool
is_lost x = x.token && x.arrives && not (is_some (truthy x.answer) && x.recorded)

abbrev pub as_number : Bool → ℕ
as_number true = 1
as_number false = 0

-- One envelope is to be sent while the report is not settled.
abbrev pub owed : Option RcofSubmission → ℕ
owed none = 1
owed (some r) = as_number (not (is_settled r))

pub owed-le : (o : Option RcofSubmission) → owed o ≤ 1
owed-le none = omega arith
owed-le (some r) = ground arith

as_sent-owed :
    (t : String) (r : RcofSubmission)
    → owed (some (as_sent t r)) ≤ as_number (not (is_some (truthy (some t)) && true))
unfolding is_settled
as_sent-owed t r = ground arith

unrecorded : (b : Bool) → 1 ≤ as_number (not (b && false))
unrecorded b = ground arith

mapped_status-final :
    (reply : String) (status : RcofStatus)
    → (status_rank (mapped_status reply status) == status_rank status) ≡ false
    → is_final (mapped_status reply status) ≡ true
mapped_status-final reply status h = ground (arith, h)

module _ (tenant_id date : String) (sequence : ℕ) where
  abbrev pub the_report : Reports → Option RcofSubmission
  the_report w = find (is_report tenant_id date sequence) w.rows

  abbrev pub count : Reports → ℕ
  count w = length w.sends + owed (the_report w)

  count-le : (w : Reports) → count w ≤ length w.sends + 1
  count-le w = omega (arith, owed-le (the_report w))

  -- Marking the failure sends nothing.
  failed-count :
      (x : Exchange) (id : ℕ) (w : Reports)
      → count ((transmission_failed x id w).1) ≤ length w.sends + 1
  failed-count x id w =
      let kept : (transmission_failed x id w).1.sends ≡ w.sends = elim (Bool-cases x.marked) [
        | inl e ↦ rw e refl
        | inr e ↦ rw e refl
      ] in
      omega (arith, count-le ((transmission_failed x id w).1), ap length kept)

  update_report-find :
      (patch : RcofSubmission → RcofSubmission) (rcof : RcofSubmission) (w : Reports)
      → ((r : RcofSubmission)
          → is_report tenant_id date sequence (patch r) ≡ is_report tenant_id date sequence r)
      → the_report w ≡ some rcof
      → the_report (record w { rows = update_report rcof.id patch w.rows }) ≡ some (patch rcof)
  update_report-find patch rcof w same found =
      find-map (is_report tenant_id date sequence) (λ r. if r.id == rcof.id then patch r else r)
        (λ r. elim (Bool-cases (r.id == rcof.id)) [ inl e ↦ rw e (same r) | inr e ↦ rw e refl ])
        w.rows
      ∙ ap (λ o. Option_map (λ r. if r.id == rcof.id then patch r else r) o) found
      ∙ rw ((==_iff rcof.id rcof.id).1 refl) refl

  -- With the answer's track id on record, the report is settled.
  after_answer-count :
      (x : Exchange) (rcof : RcofSubmission) (answer : Option String) (w : Reports)
      → the_report w ≡ some rcof
      → count ((after_answer x rcof answer w).1)
        ≤ length w.sends + as_number (not (is_some (truthy answer) && x.recorded))
  unfolding is_report
  after_answer-count x rcof none w found = failed-count x rcof.id w
  after_answer-count x rcof (some t) w found = elim (Bool-cases x.recorded) [
    | inr e ↦ rw e (omega (arith, failed-count x rcof.id w, unrecorded (is_some (truthy (some t)))))
    | inl e ↦
        let after = update_report-find (as_sent t) rcof w (λ r. refl) found in
        rw e (rw after (omega (arith, as_sent-owed t rcof)))
  ]

  transmit-count :
      (x : Exchange) (rcof : RcofSubmission) (w : Reports)
      → the_report w ≡ some rcof
      → count ((transmit x rcof w).1) ≤ length w.sends + 1 + as_number (is_lost x)
  unfolding transmit
  transmit-count x rcof w found = elim (Bool-cases x.token) [
    | inr e ↦ rw e (omega (arith, failed-count x rcof.id w))
    | inl e ↦ elim (Bool-cases x.arrives) [
      | inr a ↦ rw e (rw a (ground (arith, after_answer-count x rcof x.answer w found)))
      | inl a ↦ rw e (
          rw a (
            ground (
              arith,
              after_answer-count x rcof x.answer (record w { sends = rcof.id ∷ w.sends }) found,
            )))
    ]
  ]

  -- A report that is not there yet is saved, then sent.
  create_and_transmit-count :
      (x : Exchange) (xml : String) (w : Reports)
      → the_report w ≡ none
      → count ((create_and_transmit x (new_report x tenant_id date sequence xml) w).1)
        ≤ count w + as_number (is_lost x)
  unfolding create_and_transmit is_report
  create_and_transmit-count x xml w missing =
      let rcof = new_report x tenant_id date sequence xml in
      let own = report_refl tenant_id date sequence rcof refl refl refl in
      elim (Bool-cases x.created) [
        | inr e ↦ rw e (omega arith)
        | inl e ↦ rw e (
            rw missing (
              omega (
                arith,
                transmit-count x rcof (record w { rows = w.rows ++ rcof ∷ [] })
                    (find-last (is_report tenant_id date sequence) w.rows rcof missing own),
              )))
      ]

  from_summaries-count :
      (x : Exchange) (w : Reports) (signed : Option String) (ss : List Summary)
      → the_report w ≡ none
      → count ((from_summaries x tenant_id date sequence w signed ss).1)
        ≤ count w + as_number (is_lost x)
  unfolding from_summaries
  from_summaries-count x w signed [] missing = omega arith
  from_summaries-count x w none (s ∷ ss) missing = omega arith
  from_summaries-count x w (some xml) (s ∷ ss) missing = create_and_transmit-count x xml w missing

  generate-count :
      (x : Exchange) (w : Reports) (documents : Option (List Boleta))
      → the_report w ≡ none
      → count ((generate x tenant_id date sequence w documents).1) ≤ count w + as_number (is_lost x)
  unfolding generate
  generate-count x w none missing = omega arith
  generate-count x w (some documents) missing =
      from_summaries-count x w x.signed (consolidate_day (codes date) documents) missing

  continue_existing-count :
      (x : Exchange) (w : Reports) (existing : Option RcofSubmission)
      → the_report w ≡ existing
      → count ((continue_existing x tenant_id date sequence w existing).1)
        ≤ count w + as_number (is_lost x)
  unfolding continue_existing
  continue_existing-count x w none missing = generate-count x w x.documents missing
  continue_existing-count x w (some r) there = elim (Bool-cases (is_settled r)) [
    | inl s ↦ rw s (omega arith)
    | inr s ↦ rw s (rw there (rw s (transmit-count x r w there)))
  ]

  pub execute-count :
      (x : Exchange) (w : Reports)
      → count ((execute x tenant_id date sequence w).1) ≤ count w + as_number (is_lost x)
  unfolding execute
  execute-count x w = elim (Bool-cases (is_date_format (codes date))) [
    | inr e ↦ rw e (omega arith)
    | inl e ↦ elim (Bool-cases x.found) [
      | inr f ↦ rw e (rw f (omega arith))
      | inl f ↦ rw e (rw f (continue_existing-count x w (the_report w) refl))
    ]
  ]

  -- Another status for the row of `rcof`.
  abbrev with_status : RcofStatus → RcofSubmission → RcofSubmission
  with_status s r = record r { status = s }

  update_report-owed :
      (id : ℕ) (s : RcofStatus) (w : Reports)
      → is_final s ≡ true
      → owed (the_report (record w { rows = update_report id (with_status s) w.rows }))
        ≤ owed (the_report w)
  unfolding is_report is_settled
  update_report-owed id s w final =
      let moved =
        find-map (is_report tenant_id date sequence)
          (λ r. if r.id == id then with_status s r else r)
          (λ r. elim (Bool-cases (r.id == id)) [ inl e ↦ rw e refl | inr e ↦ rw e refl ]) w.rows in
      rw moved (elim (Option-cases (the_report w)) [
        | inl e ↦ rw e (omega arith)
        | inr (r, e) ↦ rw e (ground (arith, final))
      ])

  save_status-count :
      (updated : Bool) (mapped : RcofStatus) (rcof : RcofSubmission) (w : Reports)
      → ((status_rank mapped == status_rank rcof.status) ≡ false → is_final mapped ≡ true)
      → count ((save_status updated mapped rcof w).1) ≤ count w
  save_status-count updated mapped rcof w final =
      elim (Bool-cases (status_rank mapped == status_rank rcof.status)) [
        | inl e ↦ rw e (omega arith)
        | inr e ↦ elim (Bool-cases updated) [
          | inr u ↦ rw e (rw u (omega arith))
          | inl u ↦ rw e (rw u (omega (arith, update_report-owed rcof.id mapped w (final e))))
        ]
      ]

  -- Polling sends nothing and unsettles nothing.
  pub poll_status-count :
      (reply : Option String) (updated : Bool) (rcof : RcofSubmission) (w : Reports)
      → count ((poll_status reply updated rcof w).1) ≤ count w
  unfolding poll_status
  poll_status-count none updated rcof w = omega arith
  poll_status-count (some s) updated rcof w = elim (Bool-cases (is_some (truthy rcof.track_id))) [
    | inr e ↦ rw e (omega arith)
    | inl e ↦ rw e (
        save_status-count updated (mapped_status s rcof.status) rcof w
          (mapped_status-final s rcof.status))
  ]
