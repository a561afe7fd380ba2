-- ===== src/Intake/Payload/Accepted.antt =====
-- Which payloads `validate_payload` accepts.
use cmorflow_tax_api.Common.{
  ◌≢◌, ==_iff, ◌^◌, ◌<◌, subst, guard_iff, then_iff, arith, refl, ◌⊎◌, All, ◌↔◌, true, false, ◌≡◌,
  List, Bool, none, some, ok, [], ◌∷◌,
}
use cmorflow_tax_api.Totals.{
  gross_prices, Doubles, DteLineItem, DteTotals, TotalsOptions, is_supported, calculate_totals,
}
use cmorflow_tax_api.Totals.Rounding.{IsAccurate}
use cmorflow_tax_api.Totals.Lines.{AreReadable, gross_sum}
use cmorflow_tax_api.Totals.Retention.{IsRetained}
use cmorflow_tax_api.Totals.Gross.{AreTaxed, IsGrossTotal, calculate_totals-gross}
use cmorflow_tax_api.Intake.Payload.{
  DeclaredTotals, Payload, needs_receiver, is_present, check_item, check_items, check_type,
  check_note, validate_payload,
}
use cmorflow_tax_api.Intake.Payload.Conditions.{
  HasItems, HasNumber, HasText, IsOneOf, all_iff, any_iff, both, both_iff, implies_iff,
  is_exempt_type_iff, is_nonempty_iff, is_nonzero_iff, is_note_iff, is_present_iff, kept-whole,
  never_iff, none_iff, not-true, one_none_iff, same_iff, supported_types, unless_iff,
}
use cmorflow_tax_api.Intake.Payload.Declared.{
  IsDeclared, IsTotal, agree_iff, compared_iff, preview_totals_iff,
}

module _ {W : Type 0} ⦃d : Doubles W⦄ where
  -- A line's numbers: a quantity above zero, a price that is not below zero, and one discount at most.
  pub record IsItem (i : DteLineItem W) : Type 0 where
    pub quantity : d.le i.quantity d.nought ≡ false
    pub price : d.lt i.price d.nought ≡ false
    pub one_discount : (i.discount_percentage ≡ none) ⊎ (i.discount_amount ≡ none)

  check_item_iff : (i : DteLineItem W) → (check_item i ≡ ok tt) ↔ IsItem i
  unfolding check_item
  check_item_iff i = (
    λ h.
        let (h, one_discount) = (then_iff _ _ tt).0 h in
        let (quantity, price) = (then_iff _ _ tt).0 h in
        record {
          quantity = not-true ((guard_iff _ _).0 quantity);
          price = not-true ((guard_iff _ _).0 price);
          one_discount = (one_none_iff _ _).0 ((guard_iff _ _).0 one_discount);
        },
    λ r. rw r.quantity (
        rw r.price (
          (guard_iff _ _).1
            ((one_none_iff i.discount_percentage i.discount_amount).1 r.one_discount))),
  )

  check_items_iff : (items : List (DteLineItem W)) → (check_items items ≡ ok tt) ↔ All IsItem items
  unfolding check_items
  check_items_iff [] = (λ _. tt, λ _. refl)
  check_items_iff (i ∷ items) = (
    λ h.
        let (first, rest) = (then_iff (check_item i) _ tt).0 h in
        ((check_item_iff i).0 first, (check_items_iff items).0 rest),
    λ h. (then_iff (check_item i) _ tt).1 ((check_item_iff i).1 h.0, (check_items_iff items).1 h.1),
  )

  -- What a payload must be: of a supported type; a note (56, 61) where those are allowed, with a
  -- reference; with lines, each with proper numbers; with a receiver that has a RUT and a name (33, 34,
  -- 46, 52); exempt in every line (34, 41) or in none (39); with a transfer type (52).
  pub record IsAcceptable (allow_note_types : Bool) (p : Payload W) : Type 0 where
    pub supported : IsOneOf p.document_type supported_types
    pub note : IsOneOf p.document_type (56 ∷ 61 ∷ []) → allow_note_types ≡ true
    pub references : IsOneOf p.document_type (56 ∷ 61 ∷ []) → HasItems p.references
    pub lines : p.items ≢ []
    pub items : All IsItem p.items
    pub receiver :
        IsOneOf p.document_type (33 ∷ 34 ∷ 46 ∷ 52 ∷ [])
        → HasText p.receiver_rut × HasText p.receiver_name
    pub exempt : IsOneOf p.document_type (34 ∷ 41 ∷ []) → All (λ i. i.exempt ≡ true) p.items
    pub taxed : p.document_type ≡ 39 → All (λ i. i.exempt ≡ false) p.items
    pub transfer : p.document_type ≡ 52 → HasNumber p.transfer_type

  -- The guards of `check_note`, one by one.
  abbrev Notes : Bool → Payload W → Type 0
  Notes allow_note_types p =
      IsOneOf p.document_type supported_types
      × (IsOneOf p.document_type (56 ∷ 61 ∷ []) → allow_note_types ≡ true)
      × (IsOneOf p.document_type (56 ∷ 61 ∷ []) → HasItems p.references)

  check_note_iff :
      (allow_note_types : Bool) (p : Payload W)
      → (check_note allow_note_types p ≡ ok tt) ↔ Notes allow_note_types p
  unfolding check_note is_supported
  check_note_iff allow_note_types p =
      let supported = any_iff p.document_type supported_types in
      let is_note = is_note_iff p.document_type in
      let note = both (unless_iff _ allow_note_types) (implies_iff is_note same_iff) in
      let references =
        both (unless_iff _ (is_present p.references))
          (implies_iff is_note (is_present_iff p.references)) in
      (
        λ h.
            let (h, c) = (then_iff _ _ tt).0 h in
            let (a, b) = (then_iff _ _ tt).0 h in
            (
              supported.0 ((guard_iff _ _).0 a),
              note.0 ((guard_iff _ _).0 b),
              references.0 ((guard_iff _ _).0 c),
            ),
        λ (a, b, c). (then_iff _ _ tt).1 (
          (then_iff _ _ tt).1 ((guard_iff _ _).1 (supported.1 a), (guard_iff _ _).1 (note.1 b)),
          (guard_iff _ _).1 (references.1 c),
        ),
      )

  -- The guards of `check_type`.
  abbrev Types : Payload W → Type 0
  Types p =
      (IsOneOf p.document_type (33 ∷ 34 ∷ 46 ∷ 52 ∷ [])
        → HasText p.receiver_rut × HasText p.receiver_name)
      × (IsOneOf p.document_type (34 ∷ 41 ∷ []) → All (λ i. i.exempt ≡ true) p.items)
      × (p.document_type ≡ 39 → All (λ i. i.exempt ≡ false) p.items)
      × (p.document_type ≡ 52 → HasNumber p.transfer_type)

  check_type_iff : (p : Payload W) → (check_type p ≡ ok tt) ↔ Types p
  unfolding check_type needs_receiver
  check_type_iff p =
      let receiver = both (unless_iff _ _) (
        implies_iff (any_iff p.document_type (33 ∷ 34 ∷ 46 ∷ 52 ∷ []))
          (both_iff p.receiver_rut p.receiver_name)) in
      let exempt =
        both (unless_iff _ _)
          (implies_iff (is_exempt_type_iff p.document_type) (all_iff (λ i. i.exempt) p.items)) in
      let taxed =
        both (never_iff _ _)
          (implies_iff (==_iff p.document_type 39) (none_iff (λ i. i.exempt) p.items)) in
      let transfer =
        both (unless_iff _ _)
          (implies_iff (==_iff p.document_type 52) (is_nonzero_iff p.transfer_type)) in
      (
        λ h.
            let (h, e) = (then_iff _ _ tt).0 h in
            let (h, c) = (then_iff _ _ tt).0 h in
            let (a, b) = (then_iff _ _ tt).0 h in
            (
              receiver.0 ((guard_iff _ _).0 a),
              exempt.0 ((guard_iff _ _).0 b),
              taxed.0 ((guard_iff _ _).0 c),
              transfer.0 ((guard_iff _ _).0 e),
            ),
        λ (a, b, c, e). (then_iff _ _ tt).1 (
          (then_iff _ _ tt).1 (
            (then_iff _ _ tt).1 ((guard_iff _ _).1 (receiver.1 a), (guard_iff _ _).1 (exempt.1 b)),
            (guard_iff _ _).1 (taxed.1 c),
          ),
          (guard_iff _ _).1 (transfer.1 e),
        ),
      )

  -- A payload is accepted, with the totals `t`, exactly where it is `IsAcceptable`, `t` is what the engine
  -- computes of its lines less the sum of its retentions where that is above 0, and each of the four
  -- totals that it declares is at most one peso off its computed one.
  pub validate_payload_iff :
      (allow_note_types : Bool) (p : Payload W) (t : DteTotals)
      → (validate_payload allow_note_types p ≡ ok t) ↔ (
          IsAcceptable allow_note_types p
          × IsTotal p t
          × ((c : DeclaredTotals W) → p.totals ≡ some c → IsDeclared c t))
  unfolding validate_payload is_supported
  validate_payload_iff allow_note_types p t = (
    λ h.
        let (h, totals) = (then_iff _ _ t).0 h in
        let (h, typed) = (then_iff _ _ tt).0 h in
        let (h, items) = (then_iff _ _ tt).0 h in
        let (noted, lines) = (then_iff _ _ tt).0 h in
        let (computed, agreed) = (compared_iff p _ t).0 totals in
        let (supported, note, references) = (check_note_iff allow_note_types p).0 noted in
        let (receiver, exempt, taxed, transfer) = (check_type_iff p).0 typed in
        (
          record {
            supported = supported;
            note = note;
            references = references;
            lines = (is_nonempty_iff p.items).0 ((guard_iff _ _).0 lines);
            items = (check_items_iff p.items).0 items;
            receiver = receiver;
            exempt = exempt;
            taxed = taxed;
            transfer = transfer;
          },
          (preview_totals_iff p t ((any_iff p.document_type supported_types).1 supported)).0
              computed,
          (agree_iff p.totals t).0 agreed,
        ),
    λ (r, computed, agreed). (then_iff _ _ t).1 (
      (then_iff _ _ tt).1 (
        (then_iff _ _ tt).1 (
          (then_iff _ _ tt).1 (
            (check_note_iff allow_note_types p).1 (r.supported, r.note, r.references),
            (guard_iff _ _).1 ((is_nonempty_iff p.items).1 r.lines),
          ),
          (check_items_iff p.items).1 r.items,
        ),
        (check_type_iff p).1 (r.receiver, r.exempt, r.taxed, r.transfer),
      ),
      (compared_iff p _ t).1 (
        (preview_totals_iff p t ((any_iff p.document_type supported_types).1 r.supported)).1
            computed,
        (agree_iff p.totals t).1 agreed,
      ),
    ),
  )

  abbrev pub gross_options : TotalsOptions W
  gross_options = record { global_discount_percentage = none; pricing_mode = some gross_prices }

  All-AreTaxed : (items : List (DteLineItem W)) → All (λ i. i.exempt ≡ false) items → AreTaxed items
  All-AreTaxed [] h = tt
  All-AreTaxed (i ∷ items) h = (h.0, All-AreTaxed items h.1)

  -- An accepted boleta (39) with the mode of prices that include IVA, without a discount of the document
  -- and without retentions, of gross amounts below 2^36 together and with percentages that are the doubles
  -- of numerals of at most two decimals, has a total within one peso a line of the sum of its lines, each
  -- its quantity by its price less its discount.
  pub validate_payload-boleta :
      (law : IsAccurate d) (allow_note_types : Bool) (p : Payload W) (t : DteTotals)
      → p.document_type ≡ 39
      → p.options ≡ gross_options
      → p.tax_retentions ≡ []
      → gross_sum p.items < 2 ^ 36
      → AreReadable law p.items
      → validate_payload allow_note_types p ≡ ok t
      → IsGrossTotal law 39 p.items t
  validate_payload-boleta law allow_note_types p t boleta prices free small readable h =
      let (r, (c, computed, kept), _) = (validate_payload_iff allow_note_types p t).0 h in
      let same = kept-whole c t (subst (λ xs. IsRetained xs c t) free kept) in
      let k : calculate_totals 39 p.items gross_options ≡ ok t =
        cc (computed, boleta, prices, same) in
      calculate_totals-gross law 39 p.items t (λ e. ground (arith, e)) (λ e. ground (arith, e))
        (All-AreTaxed p.items (r.taxed boleta)) small readable k
