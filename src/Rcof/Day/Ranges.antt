-- ===== src/Rcof/Day/Ranges.antt =====
-- The folio ranges of the report, against the folios themselves.
use cmorflow_tax_api.Common.{
  ◌<◌, subst, sym, ◌∙◌, ==_iff, ◌≤◌, arith, ap, inr, inl, ◌==◌, ◌-◌, zero, refl, Bool-cases, ◌≡◌,
  ◌+◌, ◌++◌, suc, ℕ, List, [], ◌∷◌,
}
use cmorflow_tax_api.Rcof.Day.{FolioRange, ranges_from, folio_ranges}

-- `count` numbers from `start` on.
abbrev pub numbers : ℕ → ℕ → List ℕ
numbers start zero = []
numbers start (suc count) = start ∷ numbers (suc start) count

-- The folios of a range.
abbrev pub folios_of : FolioRange → List ℕ
folios_of r = numbers r.start (suc r.end - r.start)

abbrev pub expand : List FolioRange → List ℕ
expand [] = []
expand (r ∷ rs) = folios_of r ++ expand rs

numbers-last :
    (start count : ℕ) (rest : List ℕ)
    → numbers start (suc count) ++ rest ≡ numbers start count ++ ((start + count) ∷ rest)
numbers-last start zero rest = ap (λ n. n ∷ rest) (omega arith)
numbers-last start (suc count) rest =
    ap (λ ns. start ∷ ns)
      (numbers-last (suc start) count rest
        ∙ ap (λ n. numbers (suc start) count ++ (n ∷ rest)) (omega arith))

-- The next folio closes up to a range.
join :
    (start prev : ℕ) (rest : List ℕ)
    → start ≤ prev
    → folios_of (record { start = start; end = prev + 1 }) ++ rest
      ≡ folios_of (record { start = start; end = prev }) ++ ((prev + 1) ∷ rest)
join start prev rest h =
    ap (λ n. numbers start n ++ rest) {x = suc (prev + 1) - start} {y = suc (suc prev - start)}
      (omega (arith, h))
    ∙ numbers-last start (suc prev - start) rest
    ∙ ap (λ n. numbers start (suc prev - start) ++ (n ∷ rest)) (omega (arith, h))

ranges_from-expand :
    (start prev : ℕ) (folios : List ℕ)
    → start ≤ prev
    → expand (ranges_from start prev folios)
      ≡ folios_of (record { start = start; end = prev }) ++ folios
unfolding ranges_from
ranges_from-expand start prev [] h = refl
ranges_from-expand start prev (folio ∷ folios) h = elim (Bool-cases (folio == prev + 1)) [
  | inl e ↦
      let next : folio ≡ prev + 1 = (==_iff folio (prev + 1)).0 e in
      rw e (
        ranges_from-expand start folio folios (omega (arith, h, next))
        ∙ ap (λ f. folios_of (record { start = start; end = f }) ++ folios) next
        ∙ join start prev folios h
        ∙ ap (λ f. folios_of (record { start = start; end = prev }) ++ (f ∷ folios)) (sym next))
  | inr e ↦ rw e (
      ap (λ fs. folios_of (record { start = start; end = prev }) ++ fs)
        (ranges_from-expand folio folio folios (omega arith)
          ∙ ap (λ n. numbers folio n ++ folios) {x = suc folio - folio} {y = 1} (omega arith)))
]

-- Whatever the folios are, the ranges hold exactly them, in their order.
pub folio_ranges-expand : (folios : List ℕ) → expand (folio_ranges folios) ≡ folios
unfolding folio_ranges
folio_ranges-expand [] = refl
folio_ranges-expand (folio ∷ folios) =
    ranges_from-expand folio folio folios (omega arith)
    ∙ ap (λ n. numbers folio n ++ folios) {x = suc folio - folio} {y = 1} (omega arith)

-- Each folio comes after the one before.
abbrev pub IsAscending : List ℕ → Type 0
IsAscending [] = Unit
IsAscending (x ∷ []) = Unit
IsAscending (x ∷ y ∷ ys) = (x < y) × IsAscending (y ∷ ys)

-- A range is not empty, and the next one starts beyond the folio after its end.
abbrev pub AreSeparate : List FolioRange → Type 0
AreSeparate [] = Unit
AreSeparate (r ∷ []) = r.start ≤ r.end
AreSeparate (r ∷ s ∷ rs) = (r.start ≤ r.end) × (suc r.end < s.start) × AreSeparate (s ∷ rs)

-- The first range of the loop starts where it stands, and the next ones follow.
record IsOpened (start : ℕ) (rs : List FolioRange) : Type 0 where
  pub first : FolioRange
  pub rest : List FolioRange
  pub split : rs ≡ first ∷ rest
  pub starts : first.start ≡ start
  pub separate : AreSeparate (first ∷ rest)

ranges_from-IsOpened :
    (start prev : ℕ) (folios : List ℕ)
    → start ≤ prev
    → IsAscending (prev ∷ folios)
    → IsOpened start (ranges_from start prev folios)
unfolding ranges_from
ranges_from-IsOpened start prev [] h up = record {
  first = record { start = start; end = prev };
  rest = [];
  split = refl;
  starts = refl;
  separate = h;
}
ranges_from-IsOpened start prev (folio ∷ folios) h up = elim (Bool-cases (folio == prev + 1)) [
  | inl e ↦ rw e (ranges_from-IsOpened start folio folios (omega (arith, h, up.0)) up.1)
  | inr e ↦
      let next = ranges_from-IsOpened folio folio folios (omega arith) up.1 in
      rw e (record {
        first = record { start = start; end = prev };
        rest = next.first ∷ next.rest;
        split = ap (λ rs. record { start = start; end = prev } ∷ rs) next.split;
        starts = refl;
        separate = (h, ground (arith, up.0, e, next.starts), next.separate);
      })
]

-- Ascending folios make ranges that could not be fewer: none is empty, and none meets the next.
pub folio_ranges-AreSeparate :
    (folios : List ℕ) → IsAscending folios → AreSeparate (folio_ranges folios)
unfolding folio_ranges
folio_ranges-AreSeparate [] up = tt
folio_ranges-AreSeparate (folio ∷ folios) up =
    let o = ranges_from-IsOpened folio folio folios (omega arith) up in
    subst AreSeparate (sym o.split) o.separate
