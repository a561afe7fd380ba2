-- ===== src/Intake/Payload.antt =====
-- src/application/integrations/integration-request.service.ts: `validatePayloadAndTotals`. The DTO has
-- already made the fields the numbers and texts that their types say; retentions are whole pesos. A
-- declared total is a double, and `none` where it is undefined.
pub mod Conditions
pub mod Declared
pub mod Accepted
use cmorflow_tax_api.Common.{
  minus, all, ◌+◌, truthy, ◌-◌, ◌&&◌, is_some, ◌||◌, ◌>>=◌, plus, not, leb, ◌>>◌, ◌==◌, true, guard,
  false, any, String, ℕ, Signed, Result, List, Bool, none, some, Option, ok, err, [], ◌∷◌,
}
use cmorflow_tax_api.Totals.{
  Doubles, DteLineItem, PricingMode, TotalsError, DteTotals, TotalsOptions, preview_totals,
  is_supported, is_exempt_type, difference,
}

pub record DeclaredTotals (W : Type 0) : Type 0 where
  pub net_amount : Option W
  pub exempt_amount : Option W
  pub iva_amount : Option W
  pub total_amount : Option W

pub record Payload (W : Type 0) : Type 0 where
  pub document_type : ℕ
  pub references : Option (List String)  -- the folios
  pub items : List (DteLineItem W)
  pub receiver_rut : Option String
  pub receiver_name : Option String
  pub transfer_type : Option ℕ  -- of the transport
  pub options : TotalsOptions W
  pub tax_retentions : List Signed
  pub totals : Option (DeclaredTotals W)

pub data PayloadError : Type 0 where
  bad_type note_type no_references no_items bad_quantity bad_price both_given no_receiver
        not_all_exempt some_exempt no_transfer totals_mismatch :
      PayloadError
  bad_totals : TotalsError → PayloadError

unfoldable pub is_note : ℕ → Bool
is_note type = (type == 56) || (type == 61)

unfoldable pub needs_receiver : ℕ → Bool
needs_receiver type = any (λ t. t == type) (33 ∷ 34 ∷ 46 ∷ 52 ∷ [])

abbrev pub is_present {ℓ} : {A : Type ℓ} → Option (List A) → Bool
is_present none = false
is_present (some []) = false
is_present (some (x ∷ xs)) = true

abbrev pub is_nonempty {ℓ} : {A : Type ℓ} → List A → Bool
is_nonempty [] = false
is_nonempty (x ∷ xs) = true

abbrev pub is_nonzero : Option ℕ → Bool
is_nonzero none = false
is_nonzero (some n) = not (n == 0)

abbrev pub lift {ℓ} : {A : Type ℓ} → Result TotalsError A → Result PayloadError A
lift (ok a) = ok a
lift (err e) = err (bad_totals e)

module _ {W : Type 0} ⦃d : Doubles W⦄ where
  -- A total that is declared, against the one computed.
  abbrev pub agrees : Option W → Signed → Bool
  agrees none expected = true
  agrees (some v) expected = not (d.is_off v expected)

  unfoldable pub agree : Option (DeclaredTotals W) → DteTotals → Bool
  agree none t = true
  agree (some c) t =
      agrees c.net_amount (plus t.net_amount)
      && agrees c.exempt_amount (plus t.exempt_amount)
      && agrees c.iva_amount (plus t.iva_amount)
      && agrees c.total_amount t.total_amount

  unfoldable pub check_item : DteLineItem W → Result PayloadError (Unit {0})
  check_item i =
      guard (not (d.le i.quantity d.nought)) bad_quantity
      >> guard (not (d.lt i.price d.nought)) bad_price
      >> guard (not (is_some i.discount_percentage && is_some i.discount_amount)) both_given

  unfoldable pub check_items : List (DteLineItem W) → Result PayloadError (Unit {0})
  unfolding check_item
  check_items [] = ok tt
  check_items (i ∷ items) = check_item i >> check_items items

  -- What the document type asks of the payload.
  unfoldable pub check_type : Payload W → Result PayloadError (Unit {0})
  unfolding needs_receiver is_exempt_type
  check_type p =
      guard
        (not (needs_receiver p.document_type)
          || (is_some (truthy p.receiver_rut) && is_some (truthy p.receiver_name)))
        no_receiver
      >> guard (not (is_exempt_type p.document_type) || all (λ i. i.exempt) p.items) not_all_exempt
      >> guard (not ((p.document_type == 39) && any (λ i. i.exempt) p.items)) some_exempt
      >> guard (not (p.document_type == 52) || is_nonzero p.transfer_type) no_transfer

  unfoldable pub check_note : Bool → Payload W → Result PayloadError (Unit {0})
  unfolding is_note is_supported
  check_note allow_note_types p =
      guard (is_supported p.document_type) bad_type
      >> guard (not (is_note p.document_type) || allow_note_types) note_type
      >> guard (not (is_note p.document_type) || is_present p.references) no_references

  unfoldable pub validate_payload : Bool → Payload W → Result PayloadError DteTotals
  unfolding check_note check_items check_type preview_totals agree
  validate_payload allow_note_types p =
      check_note allow_note_types p
      >> guard (is_nonempty p.items) no_items
      >> check_items p.items
      >> check_type p
      >> (lift (preview_totals p.document_type p.items p.options p.tax_retentions) >>= λ totals.
          guard (agree p.totals totals) totals_mismatch >> ok totals)
