-- ===== src/Rcof/Report/Table.antt =====
-- The row of a report in the table.
use cmorflow_tax_api.Common.{
  refl, arith, ◌++◌, map, ==_iff, str_eq_iff, find, ◌≡◌, ℕ, List, String, Bool, [], ◌∷◌, none, some,
  true,
}
use mathlib.Core.Option.{map as Option_map}
use cmorflow_tax_api.Rcof.Report.{RcofSubmission, is_report}

pub find-map :
    {A : Type 0} (p : A → Bool) (f : A → A)
    → ((x : A) → p (f x) ≡ p x)
    → (xs : List A) → find p (map f xs) ≡ Option_map f (find p xs)
find-map p f same [] = refl
find-map p f same (x ∷ xs) = ground (arith, same x, find-map p f same xs)

pub find-last :
    {A : Type 0} (p : A → Bool) (xs : List A) (x : A)
    → find p xs ≡ none
    → p x ≡ true
    → find p (xs ++ x ∷ []) ≡ some x
find-last p [] x missing h = rw h refl
find-last p (y ∷ ys) x missing h = ground (arith, missing, find-last p ys x)

pub report_refl :
    (tenant_id date : String) (sequence : ℕ) (r : RcofSubmission)
    → r.tenant_id ≡ tenant_id
    → r.period_date ≡ date
    → r.sequence ≡ sequence
    → is_report tenant_id date sequence r ≡ true
unfolding is_report
report_refl tenant_id date sequence r a b c =
    rw ((str_eq_iff r.tenant_id tenant_id).1 a)
      (rw ((str_eq_iff r.period_date date).1 b) ((==_iff r.sequence sequence).1 c))
