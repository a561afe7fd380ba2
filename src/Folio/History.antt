-- ===== src/Folio/History.antt =====
-- Every history of reservations and CAF uploads on one tenant's configuration, and the way from a
-- reservation to the CAF that signs its folio.
use cmorflow_tax_api.Common.{
  leb, ◌&&◌, ◌==◌, Bool-cases, ◌≤◌, ap, [], none, arith, Option-cases, ◌≢◌, true, inr, false, err,
  ◌≡◌, ◌∷◌, ok, inl, All, ℕ, some, Result-cases, Option, List,
}
use cmorflow_tax_api.Folio.{CafData, TenantConfig, reserve_folio_atomic, register_caf, covering_caf}
use cmorflow_tax_api.Folio.Ranges.{AreConsistent, is_used}
use cmorflow_tax_api.Folio.Reserve.{reserve_folio_atomic-fresh}
use cmorflow_tax_api.Folio.Register.{IsFresh, register_caf-keeps}

pub data Operation : Type 0 where
  reserve : ℕ → Operation
  upload : CafData → Operation

-- What an operation leaves in the row: a transaction that throws is rolled back.
abbrev pub row_after : TenantConfig → Operation → TenantConfig
row_after config (reserve t) = elim (reserve_folio_atomic t (some config)) [
  | ok (n, config') ↦ config'
  | err e ↦ config
]
row_after config (upload d) = elim (register_caf d config) [ ok config' ↦ config' | err e ↦ config ]

-- The type and folio that an operation hands out.
abbrev pub folio_of : TenantConfig → Operation → Option (ℕ × ℕ)
folio_of config (reserve t) = elim (reserve_folio_atomic t (some config)) [
  | ok (n, config') ↦ some (t, n)
  | err e ↦ none
]
folio_of config (upload d) = none

abbrev pub cons? : Option (ℕ × ℕ) → List (ℕ × ℕ) → List (ℕ × ℕ)
cons? none rest = rest
cons? (some x) rest = x ∷ rest

-- The folios handed out by a history, in order.
unfoldable pub issued : TenantConfig → List Operation → List (ℕ × ℕ)
issued config [] = []
issued config (op ∷ ops) = cons? (folio_of config op) (issued (row_after config op) ops)

-- An upload brings a CAF without used folios, whose range starts above 0 and does not end before it
-- starts.
abbrev pub IsProper : Operation → Type 0
IsProper (reserve t) = Unit
IsProper (upload d) = IsFresh d

abbrev pub AreDistinct : List (ℕ × ℕ) → Type 0
AreDistinct [] = Unit
AreDistinct (x ∷ xs) = All (λ y. x ≢ y) xs × AreDistinct xs

row_after-AreConsistent :
    (config : TenantConfig) (op : Operation)
    → AreConsistent config.cafs
    → IsProper op
    → AreConsistent (row_after config op).cafs
row_after-AreConsistent config (reserve t) valid p =
    elim (Result-cases (reserve_folio_atomic t (some config))) [
      | inl ((n, config'), e) ↦
          rw (e, row_after, AreConsistent)
            ((reserve_folio_atomic-fresh t n config config' valid e).2)
      | inr (x, e) ↦ rw (e, row_after, AreConsistent) valid
    ]
row_after-AreConsistent config (upload d) valid p = elim (Result-cases (register_caf d config)) [
  | inl (config', e) ↦
      rw (e, row_after, AreConsistent) ((register_caf-keeps d config config' p valid e).0)
  | inr (x, e) ↦ rw (e, row_after, AreConsistent) valid
]

-- A folio that counts as handed out keeps counting so.
row_after-is_used :
    (config : TenantConfig) (op : Operation) (t f : ℕ)
    → AreConsistent config.cafs
    → IsProper op
    → is_used t f config.cafs ≡ true
    → is_used t f (row_after config op).cafs ≡ true
row_after-is_used config (reserve u) t f valid p used =
    elim (Result-cases (reserve_folio_atomic u (some config))) [
      | inl ((n, config'), e) ↦
          rw (e, row_after)
            (ground (arith, (reserve_folio_atomic-fresh u n config config' valid e).1 t f))
      | inr (x, e) ↦ rw (e, row_after) used
    ]
row_after-is_used config (upload d) t f valid p used = elim (Result-cases (register_caf d config)) [
  | inl (config', e) ↦
      rw (e, row_after) (ground (arith, (register_caf-keeps d config config' p valid e).1 t f))
  | inr (x, e) ↦ rw (e, row_after) used
]

-- What an operation hands out was not used before it, and is used after it.
folio_of-fresh :
    (config : TenantConfig) (op : Operation) (t n : ℕ)
    → AreConsistent config.cafs
    → folio_of config op ≡ some (t, n)
    → (is_used t n config.cafs ≡ false) × (is_used t n (row_after config op).cafs ≡ true)
folio_of-fresh config (reserve u) t n valid given =
    elim (Result-cases (reserve_folio_atomic u (some config))) [
      | inl ((m, config'), e) ↦
          let (fresh, marks, _, _, _, _) = reserve_folio_atomic-fresh u m config config' valid e in
          let same : (u ≡ t) × (m ≡ n) = ground arith in
          rw (e, row_after, ← same.0, ← same.1) (fresh, ground (arith, marks u m))
      | inr (x, e) ↦ absurd (ground arith)
    ]
folio_of-fresh config (upload d) t n valid given = absurd (ground arith)

used-not-issued :
    (config : TenantConfig) (ops : List Operation) (t f : ℕ)
    → AreConsistent config.cafs
    → All IsProper ops
    → is_used t f config.cafs ≡ true
    → All (λ y. (t, f) ≢ y) (issued config ops)
unfolding issued
used-not-issued config [] t f valid p used = tt
used-not-issued config (op ∷ ops) t f valid p used = elim (Option-cases (folio_of config op)) [
  | inl nothing ↦ rw nothing (
      used-not-issued (row_after config op) ops t f (row_after-AreConsistent config op valid p.0)
        p.1 (row_after-is_used config op t f valid p.0 used))
  | inr ((u, n), given) ↦ rw given (
    λ same. cc (
      (folio_of-fresh config op u n valid given).0,
      used,
      ap (λ q. is_used q.0 q.1 config.cafs) same,
    ),
    used-not-issued (row_after config op) ops t f (row_after-AreConsistent config op valid p.0) p.1
        (row_after-is_used config op t f valid p.0 used),
  )
]

-- Along every history of reservations and uploads, failed ones included, that starts from consistent
-- ranges and whose uploads bring CAFs without used folios, each with a range that starts above 0 and
-- does not end before it starts, no folio of a document type is handed out twice.
pub issued-AreDistinct :
    (config : TenantConfig) (ops : List Operation)
    → AreConsistent config.cafs
    → All IsProper ops
    → AreDistinct (issued config ops)
unfolding issued
issued-AreDistinct config [] valid p = tt
issued-AreDistinct config (op ∷ ops) valid p =
    let later =
      issued-AreDistinct (row_after config op) ops (row_after-AreConsistent config op valid p.0)
        p.1 in
    elim (Option-cases (folio_of config op)) [
      | inl nothing ↦ rw nothing later
      | inr ((u, n), given) ↦ rw given (
        used-not-issued (row_after config op) ops u n (row_after-AreConsistent config op valid p.0)
            p.1 ((folio_of-fresh config op u n valid given).1),
        later,
      )
    ]

-- A folio that was handed out lies in a loaded range, which the search for the signing CAF finds.
covering_caf-of-used :
    (t f : ℕ) (cafs : List CafData)
    → AreConsistent cafs
    → is_used t f cafs ≡ true
    → (c : CafData) × (covering_caf t f cafs ≡ ok c)
      × (c.type ≡ t)
      × (c.range_from ≤ f)
      × (f ≤ c.range_to)
unfolding is_used covering_caf
covering_caf-of-used t f [] valid used = absurd (ground arith)
covering_caf-of-used t f (d ∷ cs) valid used =
    elim (Bool-cases (d.type == t && leb d.range_from f && leb f d.range_to)) [
      | inl here ↦ (d, rw (here, covering_caf), ground arith, ground arith, ground arith)
      | inr other ↦
          let later : is_used t f cs ≡ true = ground (arith, valid.0.within) in
          rw (other, covering_caf) (covering_caf-of-used t f cs valid.2 later)
    ]

-- The folio that a reservation returns is covered by a loaded CAF of its type, so the search for the
-- CAF that signs it, over the configuration that was saved, succeeds.
pub reserve_folio_atomic-covered :
    (t n : ℕ) (config config' : TenantConfig)
    → AreConsistent config.cafs
    → reserve_folio_atomic t (some config) ≡ ok (n, config')
    → (c : CafData) × (covering_caf t n config'.cafs ≡ ok c)
      × (c.type ≡ t)
      × (c.range_from ≤ n)
      × (n ≤ c.range_to)
reserve_folio_atomic-covered t n config config' valid e =
    let (fresh, marks, valid', _, _, _) = reserve_folio_atomic-fresh t n config config' valid e in
    covering_caf-of-used t n config'.cafs valid' (ground (arith, marks t n))
