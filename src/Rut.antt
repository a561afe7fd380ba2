-- ===== src/Rut.antt =====
-- src/infrastructure/decorators/is-chilean-rut.decorator.ts: the check of a RUT, on character codes.
pub mod Mistakes
use cmorflow_tax_api.Common.{
  inr, sym, subst, ◌⊎◌, inl, ==_iff, refl, ◌∙◌, length, ◌||◌, ◌&&◌, true, leb, ap, [], ◌==◌, ◌+◌,
  ◌++◌, is_digit, filter, false, codes, arith, all, ◌≤◌, ◌≡◌, ◌∷◌, ◌-◌, map, if◌then◌else◌, Bool, ℕ,
  String, List,
}
use mathlib.Core.List.{reverse}
use Prim.Native.Nat.{◌%◌, ◌*◌}

-- `replace(/[^0-9kK]/g, '').toUpperCase()`
abbrev is_rut_char : ℕ → Bool
is_rut_char c = is_digit c || (c == b'k') || (c == b'K')

abbrev upper : ℕ → ℕ
upper c = if c == b'k' then b'K' else c

unfoldable pub clean : List ℕ → List ℕ
clean s = map upper (filter is_rut_char s)

abbrev pub next_multiplier : ℕ → ℕ
next_multiplier m = if m == 7 then 2 else m + 1

-- The loop, from the last digit of the body to the first.
unfoldable pub weighted_sum : ℕ → List ℕ → ℕ
weighted_sum m [] = 0
weighted_sum m (c ∷ cs) = (c - b'0') * m + weighted_sum (next_multiplier m) cs

unfoldable pub expected_dv : ℕ → ℕ
expected_dv sum =
    let dvr = 11 - sum % 11 in if dvr == 10 then b'K' else if dvr == 11 then b'0' else b'0' + dvr

-- The check digit and the body behind it, the last digit first. A `K` in the body makes the sum NaN,
-- which no check digit equals.
unfoldable pub is_valid_reversed : List ℕ → Bool
is_valid_reversed [] = false
is_valid_reversed (dv ∷ body) = all is_digit body && (expected_dv (weighted_sum 2 body) == dv)

unfoldable pub validate_rut : String → Bool
validate_rut rut =
    let c = clean (codes rut) in
    leb 8 (length c) && leb (length c) 9 && is_valid_reversed (reverse c)
