-- ===== src/Rcof/Report/Once.antt =====
-- How often a report is uploaded.
use cmorflow_tax_api.Common.{
  ap, length, arith, ◌≤◌, ◌≡◌, ◌+◌, ℕ, Bool, String, Option, List, [], ◌∷◌,
}
use cmorflow_tax_api.Rcof.Report.{RcofSubmission, Reports, Exchange, execute, poll_status}
use cmorflow_tax_api.Rcof.Report.Count.{
  is_lost, as_number, owed-le, the_report, count, execute-count, poll_status-count,
}

-- What is done for one report: generating it or asking for its status, with what the outside answers.
pub data Operation : Type 0 where
  generating : Exchange → Operation
  polling : Option String → Bool → RcofSubmission → Operation

abbrev pub lost_count : List Operation → ℕ
lost_count [] = 0
lost_count (generating x ∷ ops) = as_number (is_lost x) + lost_count ops
lost_count (polling reply updated rcof ∷ ops) = lost_count ops

module _ (tenant_id date : String) (sequence : ℕ) where
  abbrev pub operate : List Operation → Reports → Reports
  operate [] w = w
  operate (generating x ∷ ops) w = operate ops ((execute x tenant_id date sequence w).1)
  operate (polling reply updated rcof ∷ ops) w = operate ops ((poll_status reply updated rcof w).1)

  operate-count :
      (ops : List Operation) (w : Reports)
      → count tenant_id date sequence (operate ops w)
        ≤ count tenant_id date sequence w + lost_count ops
  operate-count [] w = omega arith
  operate-count (generating x ∷ ops) w = omega (
    arith,
    execute-count tenant_id date sequence x w,
    operate-count ops ((execute x tenant_id date sequence w).1),
  )
  operate-count (polling reply updated rcof ∷ ops) w = omega (
    arith,
    poll_status-count tenant_id date sequence reply updated rcof w,
    operate-count ops ((poll_status reply updated rcof w).1),
  )

  -- From a table without envelopes: however often a report is asked for and polled, with whatever
  -- failures, it is uploaded at most once, and once more for each envelope that arrived without its
  -- track id being saved.
  pub operate-sends :
      (ops : List Operation) (w : Reports)
      → w.sends ≡ []
      → length ((operate ops w).sends) ≤ 1 + lost_count ops
  operate-sends ops w fresh =
      omega (
        arith,
        operate-count ops w,
        owed-le (the_report tenant_id date sequence w),
        ap length fresh,
      )
