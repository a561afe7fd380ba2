-- ===== src/Caf/Numerals.antt =====
-- Decimal numerals: printed, read back, and free of markup and white space.
use cmorflow_tax_api.Common.{
  sym, ap, ◌%◌, ◌/◌, ◌-◌, ◌+◌, inr, ◌*◌, refl, inl, ltb, false, [], ◌∷◌, ◌&&◌, true, Bool-cases,
  ◌≡◌, ◌++◌, is_digit, arith, all, Bool, ℕ, List, ◌∙◌, ◌<◌, zero, suc,
}
use mathlib.Core.List.{reverse, reverse-cons, reverse-append, reverse-reverse}
use cmorflow_tax_api.Xml.{trim, trim_start, is_white}
use cmorflow_tax_api.Xml.Elements.{IsPlain}
use cmorflow_tax_api.Caf.{decimal_from, show, show_from, is_nonempty}

abbrev pub IsNumeral : List ℕ → Type 0
IsNumeral s = (is_nonempty s ≡ true) × (all is_digit s ≡ true)

all-append : (p : ℕ → Bool) (xs ys : List ℕ) → all p (xs ++ ys) ≡ (all p xs && all p ys)
all-append p [] ys = refl
all-append p (x ∷ xs) ys = ground (arith, all-append p xs ys)

nonempty-append : (xs : List ℕ) (y : ℕ) → is_nonempty (xs ++ y ∷ []) ≡ true
nonempty-append [] y = refl
nonempty-append (x ∷ xs) y = refl

decimal_from-append :
    (n : ℕ) (xs : List ℕ) (d : ℕ)
    → decimal_from n (xs ++ d ∷ []) ≡ decimal_from n xs * 10 + (d - b'0')
decimal_from-append n [] d = refl
decimal_from-append n (x ∷ xs) d = decimal_from-append (n * 10 + (x - b'0')) xs d

show_from-IsNumeral : (fuel n : ℕ) → n < fuel → IsNumeral (show_from fuel n)
unfolding show_from
show_from-IsNumeral zero n h = absurd (omega arith)
show_from-IsNumeral (suc fuel) n h = elim (Bool-cases (ltb n 10)) [
  | inl e ↦ rw (e, show_from) (refl, ground (arith, e))
  | inr e ↦
      let smaller = show_from-IsNumeral fuel (n / 10) (ground (arith, e)) in
      rw (e, show_from)
        (
          nonempty-append (show_from fuel (n / 10)) (b'0' + n % 10),
          rw (all-append is_digit (show_from fuel (n / 10)) ((b'0' + n % 10) ∷ []))
              (ground (arith, smaller)),
        )
]

show_from-decimal : (fuel n : ℕ) → n < fuel → decimal_from 0 (show_from fuel n) ≡ n
unfolding show_from
show_from-decimal zero n h = absurd (omega arith)
show_from-decimal (suc fuel) n h = elim (Bool-cases (ltb n 10)) [
  | inl e ↦ rw (e, show_from, decimal_from) (omega arith)
  | inr e ↦
      let smaller = show_from-decimal fuel (n / 10) (ground (arith, e)) in
      rw (e, show_from)
        (decimal_from-append 0 (show_from fuel (n / 10)) (b'0' + n % 10) ∙ omega (arith, smaller))
]

pub show-IsNumeral : (n : ℕ) → IsNumeral (show n)
show-IsNumeral n = show_from-IsNumeral (suc n) n (omega arith)

-- What is printed is read back.
pub decimal-show : (n : ℕ) → decimal_from 0 (show n) ≡ n
decimal-show n = show_from-decimal (suc n) n (omega arith)

pub numeral-IsPlain : (s : List ℕ) → all is_digit s ≡ true → IsPlain s
numeral-IsPlain [] h = refl
numeral-IsPlain (c ∷ cs) h = ground (arith, numeral-IsPlain cs)

digit-white : (c : ℕ) → is_digit c ≡ true → is_white c ≡ false
digit-white c h = ground (arith, h)

trim_start-numeral : (s : List ℕ) → all is_digit s ≡ true → trim_start s ≡ s
trim_start-numeral [] h = refl
trim_start-numeral (c ∷ cs) h =
    let first : is_digit c ≡ true = ground (arith, h) in rw (digit-white c first) refl

all-reverse : (p : ℕ → Bool) (xs : List ℕ) → all p xs ≡ true → all p (reverse xs) ≡ true
all-reverse p [] h = refl
all-reverse p (x ∷ xs) h =
    rw (reverse-cons x xs)
      (rw (all-append p (reverse xs) (x ∷ [])) (ground (arith, h, all-reverse p xs)))

pub trim-numeral : (s : List ℕ) → all is_digit s ≡ true → trim s ≡ s
trim-numeral s h =
    rw (trim_start-numeral s h)
      (rw (trim_start-numeral (reverse s) (all-reverse is_digit s h)) (reverse-reverse s))

-- A text between two characters that are not white is trimmed already.
pub trim-ends :
    (c : ℕ) (mid : List ℕ) (d : ℕ)
    → is_white c ≡ false
    → is_white d ≡ false
    → trim (c ∷ mid ++ d ∷ []) ≡ c ∷ mid ++ d ∷ []
trim-ends c mid d first last =
    rw (first, trim_start)
      (rw (reverse-append (c ∷ mid) (d ∷ [])) (
        rw (last, trim_start)
          (ap reverse (sym (reverse-append (c ∷ mid) (d ∷ [])))
            ∙ reverse-reverse (c ∷ mid ++ d ∷ []))))
