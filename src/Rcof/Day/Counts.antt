-- ===== src/Rcof/Day/Counts.antt =====
-- The counts of the daily report, against the documents of the day.
use cmorflow_tax_api.Common.{
  All-map, All-append, ◌==◌, ◌++◌, All, inr, not, inl, ap, ◌+◌, sym, leb, filter, arith, ◌≡◌, subst,
  refl, map, length, Bool-cases, ℕ, List, Bool, [], ◌∷◌,
}
use mathlib.Core.List.{Permᴰ}
use mathlib.Core.List.Permᴰ
use cmorflow_tax_api.Request.{DteStatus}
use cmorflow_tax_api.Rcof.Day.{
  Boleta, Summary, has_status, insert, sort, active_folios, summary_of, summarize, summaries_of,
  consolidate_day, is_boleta_of,
}
use cmorflow_tax_api.Rcof.Day.Ranges.{expand, folio_ranges-expand}

insert-Permᴰ : (x : ℕ) (xs : List ℕ) → Permᴰ (x ∷ xs) (insert x xs)
unfolding insert
insert-Permᴰ x [] = Permᴰ.refl (x ∷ [])
insert-Permᴰ x (y ∷ ys) = elim (Bool-cases (leb x y)) [
  | inl e ↦ rw e (Permᴰ.refl (x ∷ y ∷ ys))
  | inr e ↦ rw e (Permᴰ.trans (Permᴰ.swap refl refl) (Permᴰ.cons refl (insert-Permᴰ x ys)))
]

sort-Permᴰ : (xs : List ℕ) → Permᴰ xs (sort xs)
unfolding sort
sort-Permᴰ [] = Permᴰ.nil
sort-Permᴰ (x ∷ xs) = Permᴰ.trans (Permᴰ.cons refl (sort-Permᴰ xs)) (insert-Permᴰ x (sort xs))

module _ {A : Type 0} where
  -- A test splits a list in two.
  length-filter-not :
      (p : A → Bool) (xs : List A)
      → length (filter p xs) + length (filter (λ x. not (p x)) xs) ≡ length xs
  length-filter-not p [] = refl
  length-filter-not p (x ∷ xs) = ground (arith, length-filter-not p xs)

  length-map : {B : Type 0} (f : A → B) (xs : List A) → length (map f xs) ≡ length xs
  length-map f [] = refl
  length-map f (x ∷ xs) = omega (arith, length-map f xs)

  length-Permᴰ : {xs ys : List A} → Permᴰ xs ys → length xs ≡ length ys
  length-Permᴰ Permᴰ.nil = refl
  length-Permᴰ (Permᴰ.cons e p) = omega (arith, length-Permᴰ p)
  length-Permᴰ (Permᴰ.swap e f) = omega arith
  length-Permᴰ (Permᴰ.trans p q) = omega (arith, length-Permᴰ p, length-Permᴰ q)

-- The folios of a type's documents that are not annulled.
abbrev pub in_use : List Boleta → List ℕ
in_use ds = map (λ d. d.folio) (filter (λ d. not (has_status DteStatus.anulado d)) ds)

-- A summary accounts for the documents `ds`.
pub record IsAccounted (ds : List Boleta) (s : Summary) : Type 0 where
  pub issued : s.folios_emitidos ≡ length ds
  pub balance : s.folios_anulados + s.folios_utilizados ≡ s.folios_emitidos
  pub folios : Permᴰ (in_use ds) (expand s.ranges)
  pub used : length (expand s.ranges) ≡ s.folios_utilizados

summary_of-IsAccounted : (type : ℕ) (ds : List Boleta) → IsAccounted ds (summary_of type ds)
unfolding summary_of active_folios
summary_of-IsAccounted type ds = record {
  issued = refl;
  balance = omega (
    arith,
    length-filter-not (has_status DteStatus.anulado) ds,
    length-map (λ (d : Boleta). d.folio) (filter (λ d. not (has_status DteStatus.anulado d)) ds),
    length-Permᴰ (sort-Permᴰ (in_use ds)),
  );
  folios =
      subst (Permᴰ (in_use ds)) (sym (folio_ranges-expand (sort (in_use ds))))
        (sort-Permᴰ (in_use ds));
  used = ap length (folio_ranges-expand (sort (in_use ds)));
}

abbrev pub of_type : ℕ → List Boleta → List Boleta
of_type type ds = filter (λ d. d.type == type) ds

abbrev pub total_issued : List Summary → ℕ
total_issued [] = 0
total_issued (s ∷ ss) = s.folios_emitidos + total_issued ss

summaries_of-each :
    (type : ℕ) (ds : List Boleta)
    → All (λ s. (s.type ≡ type) × IsAccounted ds s) (summaries_of type ds)
unfolding summary_of
summaries_of-each type [] = tt
summaries_of-each type (d ∷ ds) = ((refl, summary_of-IsAccounted type (d ∷ ds)), tt)

summaries_of-issued :
    (type : ℕ) (ds : List Boleta) → total_issued (summaries_of type ds) ≡ length ds
unfolding summary_of
summaries_of-issued type [] = refl
summaries_of-issued type (d ∷ ds) = omega arith

summarize-each :
    (type : ℕ) (ds : List Boleta) → All (λ s. IsAccounted (of_type s.type ds) s) (summarize type ds)
unfolding summarize
summarize-each type ds =
    All-map (λ s h. subst (λ t. IsAccounted (of_type t ds) s) (sym (h.0)) (h.1)) _
      (summaries_of-each type (of_type type ds))

-- The boletas of a day have one of two types.
of_type-both :
    (date : List ℕ) (ds : List Boleta)
    → length (of_type 39 (filter (is_boleta_of date) ds))
        + length (of_type 41 (filter (is_boleta_of date) ds))
      ≡ length (filter (is_boleta_of date) ds)
unfolding is_boleta_of
of_type-both date [] = refl
of_type-both date (d ∷ ds) = ground (arith, of_type-both date ds)

total_issued-append : (a b : List Summary) → total_issued (a ++ b) ≡ total_issued a + total_issued b
total_issued-append [] b = omega arith
total_issued-append (s ∷ a) b = omega (arith, total_issued-append a b)

-- Each boleta of the day, drafts left out, counts in exactly one summary. In each summary the issued
-- folios are the boletas of its type, the annulled and the used ones make them up, and its ranges hold
-- the folios that are not annulled, each as often as it occurs.
pub consolidate_day-AreAccounted :
    (date : List ℕ) (documents : List Boleta)
    → All
        (λ s. IsAccounted (of_type s.type (filter (is_boleta_of date) documents)) s)
        (consolidate_day date documents)
      × (total_issued (consolidate_day date documents)
          ≡ length (filter (is_boleta_of date) documents))
unfolding consolidate_day summarize
consolidate_day-AreAccounted date documents =
    let boletas = filter (is_boleta_of date) documents in
    (
      All-append (λ s. IsAccounted (of_type s.type boletas) s) (summarize 39 boletas)
          (summarize 41 boletas) (summarize-each 39 boletas) (summarize-each 41 boletas),
      omega (
        arith,
        total_issued-append (summarize 39 boletas) (summarize 41 boletas),
        summaries_of-issued 39 (of_type 39 boletas),
        summaries_of-issued 41 (of_type 41 boletas),
        of_type-both date documents,
      ),
    )
