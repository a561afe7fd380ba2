-- ===== src/Repository/Rows.antt =====
-- The rows of one tenant in the common table.
use cmorflow_tax_api.Common.{
  str_eq, sym, subst, str_eq_iff, ap, refl, inr, inl, arith, ◌&&◌, any, Bool-cases, ◌≡◌, not, find,
  filter, List, Bool, String, [], ◌∷◌, some, true, false,
}
use cmorflow_tax_api.Repository.{Row, has_id, is_own, save, is_row_of}

pub and-right : (a b : Bool) → (a && b) ≡ true → b ≡ true
and-right a b h = ground (arith, h)

pub differ : (a b : String) → str_eq a b ≡ false → str_eq b a ≡ false
differ a b h = elim (Bool-cases (str_eq b a)) [
  | inl e ↦ cc (h, (str_eq_iff a b).1 (sym ((str_eq_iff b a).0 e)))
  | inr e ↦ e
]

module _ {A : Type 0} where
  -- The primary key: no two rows have one id.
  abbrev pub AreKeyed : List (Row A) → Type 0
  AreKeyed [] = Unit
  AreKeyed (r ∷ rows) = (any (has_id r.id) rows ≡ false) × AreKeyed rows

  any-less :
      (p q : Row A → Bool) (rows : List (Row A))
      → any p rows ≡ false
      → any (λ r. p r && q r) rows ≡ false
  any-less p q [] h = refl
  any-less p q (r ∷ rows) h = ground (arith, h, any-less p q rows)

  found-any :
      (p : Row A → Bool) (rows : List (Row A)) (r : Row A)
      → find p rows ≡ some r
      → any p rows ≡ true
  found-any p [] r h = cc h
  found-any p (x ∷ rows) r h = ground (arith, h, found-any p rows r)

  pub found-is :
      (p : Row A → Bool) (rows : List (Row A)) (r : Row A) → find p rows ≡ some r → p r ≡ true
  found-is p [] r h = cc h
  found-is p (x ∷ rows) r h = elim (Bool-cases (p x)) [
    | inl e ↦ let y : x ≡ r = cc (h, e) in subst (λ y. p y ≡ true) y e
    | inr e ↦ found-is p rows r (cc (h, e))
  ]

  any-save :
      (id : String) (row : Row A) (rows : List (Row A))
      → has_id id row ≡ false
      → any (has_id id) rows ≡ false
      → any (has_id id) (save row rows) ≡ false
  unfolding save
  any-save id row [] other h = ground (arith, other)
  any-save id row (r ∷ rows) other h = elim (Bool-cases (has_id row.id r)) [
    | inl e ↦ rw e (ground (arith, other, h))
    | inr e ↦ rw e (ground (arith, h, any-save id row rows other))
  ]

  pub save-AreKeyed : (row : Row A) (rows : List (Row A)) → AreKeyed rows → AreKeyed (save row rows)
  unfolding save
  save-AreKeyed row [] keyed = (refl, tt)
  save-AreKeyed row (r ∷ rows) keyed = elim (Bool-cases (has_id row.id r)) [
    | inl e ↦
        rw e (
          subst (λ i. any (has_id i) rows ≡ false) ((str_eq_iff r.id row.id).0 e) (keyed.0),
          keyed.1,
        )
    | inr e ↦
        rw e (
          any-save r.id row rows (differ r.id row.id e) (keyed.0),
          save-AreKeyed row rows (keyed.1),
        )
  ]

module _ {A : Type 0} (t : String) where
  abbrev pub own : List (Row A) → List (Row A)
  own rows = filter (is_own t) rows

  abbrev pub others : List (Row A) → List (Row A)
  others rows = filter (λ r. not (is_own t r)) rows

  -- No row of another tenant has the id.
  abbrev pub is_clear : String → List (Row A) → Bool
  is_clear id rows = not (any (λ r. has_id id r && not (is_own t r)) rows)

  rest_clear :
      (id : String) (r : Row A) (rows : List (Row A))
      → is_clear id (r ∷ rows) ≡ true
      → is_clear id rows ≡ true
  rest_clear id r rows h = ground (arith, h)

  pub save-own :
      (row : Row A) (rows : List (Row A))
      → is_own t row ≡ true
      → is_clear row.id rows ≡ true
      → (own (save row rows) ≡ save row (own rows)) × (others (save row rows) ≡ others rows)
  unfolding save
  save-own row [] mine clear = rw mine (refl, refl)
  save-own row (r ∷ rows) mine clear = elim (Bool-cases (has_id row.id r)) [
    | inl e ↦ elim (Bool-cases (is_own t r)) [
      | inl o ↦ rw e (rw o (rw e (rw mine (refl, refl))))
      | inr o ↦ cc (clear, e, o)
    ]
    | inr e ↦ elim (Bool-cases (is_own t r)) [
      | inl o ↦
          let (a, b) = save-own row rows mine (rest_clear row.id r rows clear) in
          rw e (rw o (rw e (ap (λ rs. r ∷ rs) a, b)))
      | inr o ↦
          let (a, b) = save-own row rows mine (rest_clear row.id r rows clear) in
          rw e (rw o (a, ap (λ rs. r ∷ rs) b))
    ]
  ]

  pub find-own :
      (p : Row A → Bool) (rows : List (Row A))
      → find (λ r. p r && is_own t r) rows ≡ find p (own rows)
  find-own p [] = refl
  find-own p (r ∷ rows) = ground (arith, find-own p rows)

  pub find-own_left :
      (p : Row A → Bool) (rows : List (Row A))
      → find (λ r. is_own t r && p r) rows ≡ find p (own rows)
  find-own_left p [] = refl
  find-own_left p (r ∷ rows) = ground (arith, find-own_left p rows)

  pub filter-own :
      (p : Row A → Bool) (rows : List (Row A))
      → filter (λ r. is_own t r && p r) rows ≡ filter p (own rows)
  filter-own p [] = refl
  filter-own p (r ∷ rows) = ground (arith, filter-own p rows)

  -- A row of the tenant's shares its id with no other row.
  pub keyed-clear :
      (id : String) (rows : List (Row A)) (r : Row A)
      → AreKeyed rows
      → find (is_row_of t id) rows ≡ some r
      → is_clear id rows ≡ true
  keyed-clear id [] r keyed found = refl
  keyed-clear id (x ∷ rows) r keyed found = elim (Bool-cases (has_id id x)) [
    | inr e ↦ let rest = keyed-clear id rows r (keyed.1) (cc (found, e)) in ground (arith, rest, e)
    | inl e ↦
        let same : x.id ≡ id = (str_eq_iff x.id id).0 e in
        let none_after = subst (λ i. any (has_id i) rows ≡ false) same (keyed.0) in
        elim (Bool-cases (is_own t x)) [
          | inl o ↦
              let clear = any-less (has_id id) (λ r. not (is_own t r)) rows none_after in
              ground (arith, o, clear)
          | inr o ↦
              let later : find (is_row_of t id) rows ≡ some r = cc (found, e, o) in
              cc (
                found-any (is_row_of t id) rows r later,
                any-less (has_id id) (is_own t) rows none_after,
              )
        ]
  ]
