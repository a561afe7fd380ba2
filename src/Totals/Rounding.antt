-- ===== src/Totals/Rounding.antt =====
-- How far the rounded amounts are from the exact ones.
use cmorflow_tax_api.Common.{
  Option, none, some, inl, inr, Bool-cases, ok, ◌>>◌, Result, arith, ◌+◌, true, ◌≤◌, ◌^◌, false,
  ◌≡◌, ◌<◌, ◌*◌, ℕ,
}
use native.Mathlib.Nat.{mul-le-mul_left}
use cmorflow_tax_api.Totals.{Doubles, TotalsError, check_percentage, calculate_vat, net_of_gross}

-- What the checks of a percentage let through.
pub record IsPercentage {W : Type 0} (d : Doubles W) (p : W) : Type 0 where
  pub finite : d.is_finite p ≡ true
  pub not_negative : d.lt p d.nought ≡ false
  pub at_most_whole : d.lt d.hundred p ≡ false
  pub decimals : d.has_two_decimals p ≡ true

-- What the engine relies on of the doubles, for a percentage that is the double nearest to a numeral of
-- at most two decimals, as `JSON.parse` reads it and the DTO asks for: `Math.round((amount * percentage) / 100)` is a whole
-- number nearest to the exact share. The percentage and the two operations are each off by 2^-53 of the
-- value at most, together by less than 0.00003 below 2^36, and an exact share that is no half is at least
-- 0.0001 away from one; at a half the number may go either way. The check of the decimals lets other
-- doubles pass too, since it tolerates 1e-8: nothing is said of these.
pub record IsAccurate {W : Type 0} (d : Doubles W) : Type 1 where
  pub IsDecimal : W → Type 0
  pub hundredths : W → ℕ
  pub zero_not-positive : (p : W) → d.eq p d.nought ≡ true → d.lt d.nought p ≡ false
  pub hundredths-le : (p : W) → IsPercentage d p → IsDecimal p → hundredths p ≤ 10000
  pub share_above :
      (n : ℕ) (p : W)
      → n < 2 ^ 36
      → IsPercentage d p
      → IsDecimal p
      → n * hundredths p ≤ 10000 * d.share n p + 5000
  pub share_below :
      (n : ℕ) (p : W)
      → n < 2 ^ 36
      → IsPercentage d p
      → IsDecimal p
      → 10000 * d.share n p ≤ n * hundredths p + 5000

pub calculate_vat-nearest :
    (n : ℕ) → (100 * calculate_vat n ≤ 19 * n + 50) × (19 * n ≤ 100 * calculate_vat n + 50)
unfolding calculate_vat
calculate_vat-nearest n = (omega arith, omega arith)

pub net_of_gross-nearest :
    (g : ℕ) → (238 * net_of_gross g ≤ 200 * g + 119) × (200 * g ≤ 238 * net_of_gross g + 119)
unfolding net_of_gross
net_of_gross-nearest g = (omega arith, omega arith)

module _ {W : Type 0} ⦃d : Doubles W⦄ (law : IsAccurate d) where
  -- `off` is a whole number nearest to the percentage's share of `n`.
  abbrev pub IsNearest : ℕ → W → ℕ → Type 0
  IsNearest n p off =
      (n * law.hundredths p ≤ 10000 * off + 5000) × (10000 * off ≤ n * law.hundredths p + 5000)

  pub share-IsNearest :
      (n : ℕ) (p : W)
      → n < 2 ^ 36
      → IsPercentage d p
      → law.IsDecimal p
      → IsNearest n p (d.share n p) × (d.share n p ≤ n)
  share-IsNearest n p small h k =
      let above = law.share_above n p small h k in
      let below = law.share_below n p small h k in
      ((above, below), omega (arith, mul-le-mul_left n (law.hundredths-le p h k), below))

  -- A percentage that may be given is such a double.
  abbrev pub IsReadable : Option W → Type 0
  IsReadable none = Unit
  IsReadable (some p) = law.IsDecimal p

module _ {W : Type 0} ⦃d : Doubles W⦄ where
  pub check_percentage-IsPercentage :
      {A : Type 0} (p : W) (k : Result TotalsError A) (a : A)
      → (check_percentage p >> k) ≡ ok a
      → IsPercentage d p × (k ≡ ok a)
  unfolding check_percentage
  check_percentage-IsPercentage p k a h = elim (Bool-cases (d.is_finite p)) [
    | inr e ↦ cc (h, e)
    | inl finite ↦ elim (Bool-cases (d.lt p d.nought)) [
      | inl e ↦ cc (h, finite, e)
      | inr not_negative ↦ elim (Bool-cases (d.lt d.hundred p)) [
        | inl e ↦ cc (h, finite, not_negative, e)
        | inr whole ↦ elim (Bool-cases (d.has_two_decimals p)) [
          | inr e ↦ cc (h, finite, not_negative, whole, e)
          | inl decimals ↦ (
            record {
              finite = finite;
              not_negative = not_negative;
              at_most_whole = whole;
              decimals = decimals;
            },
            cc (h, finite, not_negative, whole, decimals),
          )
        ]
      ]
    ]
  ]
