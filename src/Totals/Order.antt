-- ===== src/Totals/Order.antt =====
-- The order of a document's lines.
use cmorflow_tax_api.Common.{
  ◌↔◌, ◌||◌, inl, subst, inr, arith, ◌≡◌, bind-ok, Result-cases, ℕ, List, Bool, ok, ◌∷◌,
}
use mathlib.Core.List.Permᴰ
use mathlib.Core.List.{Permᴰ}
use cmorflow_tax_api.Totals.{
  Doubles, DteLineItem, apply_item_discount, DteTotals, TotalsOptions, add_line, add_lines,
  add_amount, calculate_totals, is_exempt_type, is_gross_mode,
}

add_amount-swap :
    (is_gross e1 e2 : Bool) (m n : ℕ) (sums : ℕ × ℕ)
    → add_amount e1 is_gross m (add_amount e2 is_gross n sums)
      ≡ add_amount e2 is_gross n (add_amount e1 is_gross m sums)
unfolding add_amount
add_amount-swap is_gross e1 e2 m n sums = ground arith

module _ {W : Type 0} ⦃d : Doubles W⦄ (exempt_only is_gross : Bool) where
  -- Every run over `b` that succeeds, a run over `a` makes too.
  abbrev Carries : List (DteLineItem W) → List (DteLineItem W) → Type 0
  Carries a b =
      (sums out : ℕ × ℕ)
      → add_lines exempt_only is_gross a sums ≡ ok out
      → add_lines exempt_only is_gross b sums ≡ ok out

  -- The order of two lines does not matter to the loop.
  swap-Carries : (x y : DteLineItem W) (l : List (DteLineItem W)) → Carries (x ∷ y ∷ l) (y ∷ x ∷ l)
  unfolding add_lines add_line
  swap-Carries x y l sums out h = elim (Result-cases (apply_item_discount x)) [
    | inr (e, bad) ↦ cc (h, bad)
    | inl (r, good_x) ↦ elim (Result-cases (apply_item_discount y)) [
      | inr (e, bad) ↦ cc (h, good_x, bad)
      | inl (s, good_y) ↦
          let swap =
            add_amount-swap is_gross (exempt_only || x.exempt) (exempt_only || y.exempt)
              r.net_amount s.net_amount sums in
          cc (h, good_x, good_y, swap)
    ]
  ]

  Permᴰ-Carries : {a b : List (DteLineItem W)} → Permᴰ a b → Carries a b
  unfolding add_lines
  Permᴰ-Carries Permᴰ.nil sums out h = h
  Permᴰ-Carries (Permᴰ.cons {a = x} {b = y} {l₂ = l} e p) sums out h =
      let (next, first, rest) = bind-ok (add_line exempt_only is_gross x sums) _ out h in
      let tail = Permᴰ-Carries p next out rest in
      subst (λ y. add_lines exempt_only is_gross (y ∷ l) sums ≡ ok out) e (rw first tail)
  Permᴰ-Carries (Permᴰ.swap {a = x} {b = y} {b' = x'} {l = l} ex ey) sums out h =
      subst (λ u. add_lines exempt_only is_gross (u ∷ x' ∷ l) sums ≡ ok out) ey
        (subst (λ v. add_lines exempt_only is_gross (y ∷ v ∷ l) sums ≡ ok out) ex
          (swap-Carries x y l sums out h))
  Permᴰ-Carries (Permᴰ.trans p q) sums out h = Permᴰ-Carries q sums out (Permᴰ-Carries p sums out h)

module _ {W : Type 0} ⦃d : Doubles W⦄ where
  calculate_totals-Permᴰ :
      {a b : List (DteLineItem W)} (type : ℕ) (options : TotalsOptions W) (t : DteTotals)
      → Permᴰ a b
      → calculate_totals type a options ≡ ok t
      → calculate_totals type b options ≡ ok t
  unfolding calculate_totals
  calculate_totals-Permᴰ {a} type options t p h =
      let (sums, e, k) =
        bind-ok (add_lines (is_exempt_type type) (is_gross_mode options.pricing_mode) a (0, 0)) _ t
          h in
      rw (Permᴰ-Carries (is_exempt_type type) (is_gross_mode options.pricing_mode) p (0, 0) sums e)
        k

  -- The same lines in another order have the same totals, or are refused both times.
  pub calculate_totals-order :
      {a b : List (DteLineItem W)} (type : ℕ) (options : TotalsOptions W) (t : DteTotals)
      → Permᴰ a b
      → (calculate_totals type a options ≡ ok t) ↔ (calculate_totals type b options ≡ ok t)
  calculate_totals-order type options t p = (
    calculate_totals-Permᴰ type options t p,
    calculate_totals-Permᴰ type options t (Permᴰ.symm p),
  )
