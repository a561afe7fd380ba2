-- ===== src/Preflight/Agreement.antt =====
-- The two implementations of the checks of a CAF compared: the parser's, which throws at the first failure, and
-- the validator's, which lists them all.
use cmorflow_tax_api.Common.{
  ◌≡◌, ◌↔◌, refl, codes, List, ℕ, Bool, Option, true, false, some, none, ◌∷◌, [], ◌++◌, ◌==◌, ◌||◌,
  ◌&&◌, ◌>>◌, not, leb, is_some, is_date_format, guard, Result, ok, subst, sym,
}
use mathlib.Core.Option.{map as Option_map}
use mathlib.Core.List.{append_assoc}
use cmorflow_tax_api.Xml.{trim, element, contains, number_element}
use cmorflow_tax_api.Caf.{
  CafError, no_version, no_data, no_tag, no_signature, zero_folio, inverted_range, bad_date,
  decimal_from, is_versioned, is_present, optional_tag, check_tags, check_range, check_date,
  required_tags, date_element, validate_surgical_rules,
}
use cmorflow_tax_api.Caf.Chains.{then_assoc}
use cmorflow_tax_api.Preflight.{unless}
use cmorflow_tax_api.Preflight.Documents.{
  tag_errors, range_errors, date_errors, has_signature, caf_errors, validate_caf_surgical_rules,
}

-- A chain of tests that throw passes exactly where the list of errors is empty and `Q` holds.
abbrev Agree : Result CafError (Unit {0}) → List CafError → Type 0 → Type 0
Agree m l Q = (m ≡ ok tt) ↔ ((l ≡ []) × Q)

step :
    (b : Bool) (e : CafError) (m : Result CafError (Unit {0})) (l : List CafError) (Q : Type 0)
    → Agree m l Q
    → Agree (guard b e >> m) (unless b e ++ l) Q
step true e m l Q h = h
step false e m l Q h = (λ x. cc x, λ x. cc (x.0))

-- The last test of a chain.
last_step : (b : Bool) (e : CafError) (Q : Type 0) → Q → Agree (guard b e) (unless b e) Q
last_step true e Q q = (λ x. (refl, q), λ x. refl)
last_step false e Q q = (λ x. cc x, λ x. cc (x.0))

check_tags-Agree :
    (xml : List ℕ) (names : List (List ℕ)) (m : Result CafError (Unit {0})) (l : List CafError)
    (Q : Type 0)
    → Agree m l Q
    → Agree (check_tags xml names >> m) (tag_errors xml names ++ l) Q
check_tags-Agree xml [] m l Q h = h
check_tags-Agree xml (name ∷ names) m l Q h =
    let here : Result CafError (Unit {0}) =
      guard (is_present (optional_tag name xml)) (no_tag name) in
    let missing : List CafError = unless (is_present (optional_tag name xml)) (no_tag name) in
    subst (λ x. Agree x ((missing ++ tag_errors xml names) ++ l) Q)
      (sym (then_assoc here (check_tags xml names) m))
      (subst (λ y. Agree (here >> (check_tags xml names >> m)) y Q)
        (sym (append_assoc missing (tag_errors xml names) l))
        (step (is_present (optional_tag name xml)) (no_tag name) (check_tags xml names >> m)
          (tag_errors xml names ++ l) Q (check_tags-Agree xml names m l Q h)))

-- The parser wants a signature with text, the validator only its element.
signature_step :
    (b s : Bool) (m : Result CafError (Unit {0})) (l : List CafError)
    → (b ≡ true → s ≡ true)
    → Agree m l Unit
    → Agree (guard b no_signature >> m) (unless s no_signature ++ l) (b ≡ true)
signature_step true true m l h agree = (λ x. ((agree.0 x).0, refl), λ x. agree.1 (x.0, tt))
signature_step true false m l h agree = cc (h refl)
signature_step false s m l h agree = (λ x. cc x, λ x. cc (x.1))

range_step :
    (p q r : Bool) (m : Result CafError (Unit {0})) (l : List CafError)
    → Agree m l Unit
    → Agree
        ((guard (p && q) zero_folio >> guard r inverted_range) >> m)
        ((unless p zero_folio ++ (unless q zero_folio ++ unless r inverted_range)) ++ l)
        Unit
range_step true true true m l h = h
range_step false q r m l h = (λ x. cc x, λ x. cc (x.0))
range_step true false r m l h = (λ x. cc x, λ x. cc (x.0))
range_step true true false m l h = (λ x. cc x, λ x. cc (x.0))

check_range-Agree :
    (from to : Option (List ℕ)) (m : Result CafError (Unit {0})) (l : List CafError)
    → Agree m l Unit
    → Agree (check_range from to >> m) (range_errors from to ++ l) Unit
check_range-Agree none to m l h = h
check_range-Agree (some from) none m l h = h
check_range-Agree (some from) (some to) m l h =
    range_step (not (decimal_from 0 from == 0)) (not (decimal_from 0 to == 0))
      (leb (decimal_from 0 from) (decimal_from 0 to)) m l h

check_date-Agree : (date : Option (List ℕ)) → Agree (check_date date) (date_errors date) Unit
check_date-Agree none = (λ x. (refl, tt), λ x. refl)
check_date-Agree (some date) = last_step (is_date_format (trim date)) bad_date Unit tt

present-is_some : (o : Option (List ℕ)) → is_present (Option_map trim o) ≡ true → is_some o ≡ true
present-is_some none h = cc h
present-is_some (some v) h = refl

some_of :
    (a b c d : Bool)
    → (a ≡ true → c ≡ true)
    → (b ≡ true → d ≡ true)
    → (a || b) ≡ true
    → (c || d) ≡ true
some_of a b true d f g h = refl
some_of true b false d f g h = cc (f refl)
some_of false b false d f g h = g h

-- Whether the FRMA, or else the FRMT, has text.
abbrev pub has_signature_text : List ℕ → Bool
has_signature_text xml =
    is_present (optional_tag (codes "FRMA") xml) || is_present (optional_tag (codes "FRMT") xml)

-- On the same text, the parser's checks of a CAF pass exactly where the validator's list of errors is empty
-- and its signature has text: the validator is satisfied with an empty signature, and otherwise the two agree.
pub validate_surgical_rules_iff :
    (xml : List ℕ)
    → (validate_surgical_rules (trim xml) ≡ ok tt)
      ↔ ((validate_caf_surgical_rules xml ≡ []) × (has_signature_text (trim xml) ≡ true))
unfolding validate_surgical_rules validate_caf_surgical_rules caf_errors
validate_surgical_rules_iff xml =
    let n : List ℕ = trim xml in
    step (is_versioned n) no_version _ _ (has_signature_text n ≡ true) (
      step (contains (codes "<DA>") n && contains (codes "</DA>") n) no_data _ _
        (has_signature_text n ≡ true)
        (check_tags-Agree n required_tags _ _ (has_signature_text n ≡ true) (
          signature_step (has_signature_text n) (has_signature n) _ _
            (some_of _ _ _ _ (present-is_some (element true (codes "FRMA") n))
              (present-is_some (element true (codes "FRMT") n)))
            (check_range-Agree (number_element (codes "D") n) (number_element (codes "H") n)
              (check_date (date_element n)) (date_errors (date_element n))
              (check_date-Agree (date_element n))))))
