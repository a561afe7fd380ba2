-- ===== src/Caf/Tags.antt =====
-- The CAF of the simulation, tag by tag.
use cmorflow_tax_api.Xml.Elements.{
  lower-angle, through-skip, plain_head, IsPlain, element-skip, before-skip, contains-skip,
  number_element-skip,
}
use cmorflow_tax_api.Common.{is_digit, all, ◌∷◌, refl, ◌≡◌, ◌++◌, true, [], ℕ, List, codes, some}
use mathlib.Core.List.{append-nil}
use cmorflow_tax_api.Xml.{element, contains, number_element, whole_element}
use cmorflow_tax_api.Caf.{Keys, caf_xml, da_xml, show, date_element, is_versioned}
use cmorflow_tax_api.Caf.Numerals.{numeral-IsPlain, show-IsNumeral}

plain_show : (n : ℕ) → IsPlain (show n)
plain_show n = numeral-IsPlain (show n) ((show-IsNumeral n).1)

date_element-skip : (s rest : List ℕ) → IsPlain s → date_element (s ++ rest) ≡ date_element rest
unfolding date_element
date_element-skip [] rest h = refl
date_element-skip (c ∷ cs) rest h =
    let (other, plain) = plain_head c cs h in
    rw (lower-angle c other, date_element) (date_element-skip cs rest plain)

-- What is put into the text has no markup.
pub record ArePlain (keys : Keys) (rut : List ℕ) : Type 0 where
  pub issuer : IsPlain rut
  pub today : IsPlain keys.today
  pub modulus : IsPlain keys.modulus
  pub exponent : IsPlain keys.exponent
  pub signature : (text : List ℕ) → IsPlain (keys.sign text)

module _ (keys : Keys) (rut : List ℕ) (type from to : ℕ) (h : ArePlain keys rut) where
  abbrev text : List ℕ → List ℕ
  text rest = caf_xml keys rut type from to rest

  abbrev signature : List ℕ
  signature = keys.sign (da_xml keys rut type from to [])

  skip_rut : (name rest : List ℕ) → element true name (rut ++ rest) ≡ element true name rest
  skip_rut name rest = element-skip true name rut rest (h.issuer)

  skip_type : (name rest : List ℕ) → element true name (show type ++ rest) ≡ element true name rest
  skip_type name rest = element-skip true name (show type) rest (plain_show type)

  skip_from : (name rest : List ℕ) → element true name (show from ++ rest) ≡ element true name rest
  skip_from name rest = element-skip true name (show from) rest (plain_show from)

  skip_to : (name rest : List ℕ) → element true name (show to ++ rest) ≡ element true name rest
  skip_to name rest = element-skip true name (show to) rest (plain_show to)

  skip_today :
      (name rest : List ℕ) → element true name (keys.today ++ rest) ≡ element true name rest
  skip_today name rest = element-skip true name keys.today rest (h.today)

  skip_modulus :
      (name rest : List ℕ) → element true name (keys.modulus ++ rest) ≡ element true name rest
  skip_modulus name rest = element-skip true name keys.modulus rest (h.modulus)

  skip_exponent :
      (name rest : List ℕ) → element true name (keys.exponent ++ rest) ≡ element true name rest
  skip_exponent name rest = element-skip true name keys.exponent rest (h.exponent)

  pub tag-re : (rest : List ℕ) → element true (codes "RE") (text rest) ≡ some rut
  unfolding element
  tag-re rest = rw (element, before-skip (codes "/RE>") rut _ (h.issuer), append-nil)

  pub tag-td : (rest : List ℕ) → element true (codes "TD") (text rest) ≡ some (show type)
  unfolding element
  tag-td rest = rw (
    skip_rut (codes "TD") _,
    element,
    before-skip (codes "/TD>") (show type) _ (plain_show type),
    append-nil,
  )

  pub tag-d : (rest : List ℕ) → element true (codes "D") (text rest) ≡ some (show from)
  unfolding element
  tag-d rest = rw (
    skip_rut (codes "D") _,
    skip_type (codes "D") _,
    element,
    before-skip (codes "/D>") (show from) _ (plain_show from),
    append-nil,
  )

  pub tag-h : (rest : List ℕ) → element true (codes "H") (text rest) ≡ some (show to)
  unfolding element
  tag-h rest = rw (
    skip_rut (codes "H") _,
    skip_type (codes "H") _,
    skip_from (codes "H") _,
    element,
    before-skip (codes "/H>") (show to) _ (plain_show to),
    append-nil,
  )

  pub tag-fa : (rest : List ℕ) → element true (codes "FA") (text rest) ≡ some keys.today
  unfolding element
  tag-fa rest = rw (
    skip_rut (codes "FA") _,
    skip_type (codes "FA") _,
    skip_from (codes "FA") _,
    skip_to (codes "FA") _,
    element,
    before-skip (codes "/FA>") keys.today _ (h.today),
    append-nil,
  )

  pub tag-m : (rest : List ℕ) → element true (codes "M") (text rest) ≡ some keys.modulus
  unfolding element
  tag-m rest = rw (
    skip_rut (codes "M") _,
    skip_type (codes "M") _,
    skip_from (codes "M") _,
    skip_to (codes "M") _,
    skip_today (codes "M") _,
    element,
    before-skip (codes "/M>") keys.modulus _ (h.modulus),
    append-nil,
  )

  pub tag-e : (rest : List ℕ) → element true (codes "E") (text rest) ≡ some keys.exponent
  unfolding element
  tag-e rest = rw (
    skip_rut (codes "E") _,
    skip_type (codes "E") _,
    skip_from (codes "E") _,
    skip_to (codes "E") _,
    skip_today (codes "E") _,
    skip_modulus (codes "E") _,
    element,
    before-skip (codes "/E>") keys.exponent _ (h.exponent),
    append-nil,
  )

  pub tag-frma : (rest : List ℕ) → element true (codes "FRMA") (text rest) ≡ some signature
  unfolding element
  tag-frma rest = rw (
    skip_rut (codes "FRMA") _,
    skip_type (codes "FRMA") _,
    skip_from (codes "FRMA") _,
    skip_to (codes "FRMA") _,
    skip_today (codes "FRMA") _,
    skip_modulus (codes "FRMA") _,
    skip_exponent (codes "FRMA") _,
    element,
    before-skip (codes "/FRMA>") signature _ (h.signature (da_xml keys rut type from to [])),
    append-nil,
  )

  pub tag-rs :
      (rest : List ℕ) → element true (codes "RS") (text rest) ≡ some (codes "CAF DE SIMULACION")
  unfolding element
  tag-rs rest = rw (skip_rut (codes "RS") _, element)

  pub contains-da : (rest : List ℕ) → contains (codes "<DA>") (text rest) ≡ true
  unfolding contains
  contains-da rest = refl

  pub contains-da_end : (rest : List ℕ) → contains (codes "</DA>") (text rest) ≡ true
  unfolding contains
  contains-da_end rest = rw (
    contains-skip (codes "/DA>") rut _ h.issuer,
    contains-skip (codes "/DA>") (show type) _ (plain_show type),
    contains-skip (codes "/DA>") (show from) _ (plain_show from),
    contains-skip (codes "/DA>") (show to) _ (plain_show to),
    contains-skip (codes "/DA>") keys.today _ h.today,
    contains-skip (codes "/DA>") keys.modulus _ h.modulus,
    contains-skip (codes "/DA>") keys.exponent _ h.exponent,
    contains,
  )

  pub is_versioned-text : (rest : List ℕ) → is_versioned (text rest) ≡ true
  unfolding is_versioned
  is_versioned-text rest = refl

  pub number-d :
      (rest : List ℕ) (c : ℕ) (cs : List ℕ)
      → show from ≡ c ∷ cs
      → all is_digit (c ∷ cs) ≡ true
      → number_element (codes "D") (text rest) ≡ some (c ∷ cs)
  unfolding number_element
  number-d rest c cs e digits = rw (
    number_element-skip (codes "D") rut _ h.issuer,
    number_element-skip (codes "D") (show type) _ (plain_show type),
    number_element,
    before-skip (codes "/D>") (show from) _ (plain_show from),
    append-nil,
    e,
    digits,
  )

  pub number-h :
      (rest : List ℕ) (c : ℕ) (cs : List ℕ)
      → show to ≡ c ∷ cs
      → all is_digit (c ∷ cs) ≡ true
      → number_element (codes "H") (text rest) ≡ some (c ∷ cs)
  unfolding number_element
  number-h rest c cs e digits = rw (
    number_element-skip (codes "H") rut _ h.issuer,
    number_element-skip (codes "H") (show type) _ (plain_show type),
    number_element-skip (codes "H") (show from) _ (plain_show from),
    number_element,
    before-skip (codes "/H>") (show to) _ (plain_show to),
    append-nil,
    e,
    digits,
  )

  pub date-text : (rest : List ℕ) → date_element (text rest) ≡ some keys.today
  unfolding date_element
  date-text rest = rw (
    date_element-skip rut _ (h.issuer),
    date_element-skip (show type) _ (plain_show type),
    date_element-skip (show from) _ (plain_show from),
    date_element-skip (show to) _ (plain_show to),
    date_element,
    before-skip (codes "/FA>") keys.today _ h.today,
    append-nil,
  )

  pub whole-text :
      (rest : List ℕ)
      → whole_element (codes "CAF") (codes "<AUTORIZACION>" ++ text rest) ≡ some (text [])
  unfolding whole_element
  whole-text rest = rw (
    through-skip (codes "/CAF>") rut _ (h.issuer),
    through-skip (codes "/CAF>") (show type) _ (plain_show type),
    through-skip (codes "/CAF>") (show from) _ (plain_show from),
    through-skip (codes "/CAF>") (show to) _ (plain_show to),
    through-skip (codes "/CAF>") keys.today _ (h.today),
    through-skip (codes "/CAF>") keys.modulus _ (h.modulus),
    through-skip (codes "/CAF>") keys.exponent _ (h.exponent),
    through-skip (codes "/CAF>") signature _ (h.signature (da_xml keys rut type from to [])),
    whole_element,
  )

  pub tag-rsask :
      (pem rest : List ℕ)
      → IsPlain pem
      → element true
          (codes "RSASK")
          (codes "<AUTORIZACION>" ++ text (codes "<RSASK>" ++ (pem ++ (codes "</RSASK>" ++ rest))))
        ≡ some pem
  unfolding element
  tag-rsask pem rest plain = rw (
    skip_rut (codes "RSASK") _,
    skip_type (codes "RSASK") _,
    skip_from (codes "RSASK") _,
    skip_to (codes "RSASK") _,
    skip_today (codes "RSASK") _,
    skip_modulus (codes "RSASK") _,
    skip_exponent (codes "RSASK") _,
    element-skip true (codes "RSASK") signature _ (h.signature (da_xml keys rut type from to [])),
    element,
    before-skip (codes "/RSASK>") pem _ plain,
    append-nil,
  )
