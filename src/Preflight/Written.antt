-- ===== src/Preflight/Written.antt =====
-- The numbers of the `<Totales>` that is written, as the check of it reads them.
use cmorflow_tax_api.Common.{
  ◌+◌, refl, none, [], ◌∙◌, ◌++◌, true, some, ◌≡◌, ◌∷◌, Option, All, ℕ, codes, Signed, List, zero,
  suc, plus, minus,
}
use cmorflow_tax_api.Xml.{number_element}
use cmorflow_tax_api.Xml.Elements.{IsPlain, number_element-skip, number_element-misses, misses}
use cmorflow_tax_api.Caf.{show}
use cmorflow_tax_api.Caf.Numerals.{show-IsNumeral, numeral-IsPlain}
use cmorflow_tax_api.Preflight.{Retention, rate_xml, retentions_xml, show_signed}

pub plain_show : (n : ℕ) → IsPlain (show n)
plain_show n = numeral-IsPlain (show n) ((show-IsNumeral n).1)

pub show_signed-IsPlain : (x : Signed) → IsPlain (show_signed x)
unfolding show_signed
show_signed-IsPlain (plus n) = plain_show n
show_signed-IsPlain (minus zero) = plain_show 0
show_signed-IsPlain (minus (suc n)) = plain_show (suc n)

abbrev pub opening : List ℕ → List ℕ
opening name = b'<' ∷ name ++ b'>' ∷ []

-- The tags of a retention are other tags than `name`.
pub record IsOther (name : List ℕ) : Type 0 where
  start : misses (opening name) (codes "<ImptoReten><NroImpto>") ≡ true
  number : misses (opening name) (codes "</NroImpto><TipoImp>") ≡ true
  type : misses (opening name) (codes "</TipoImp>") ≡ true
  rate : misses (opening name) (codes "<TasaImp>") ≡ true
  rate_end : misses (opening name) (codes "</TasaImp>") ≡ true
  amount : misses (opening name) (codes "<MontoImp>") ≡ true
  end : misses (opening name) (codes "</MontoImp></ImptoReten>") ≡ true

abbrev pub IsPlainRate : Retention → Type 0
IsPlainRate r = (rate : List ℕ) → r.rate ≡ some rate → IsPlain rate

rate-skip :
    (name : List ℕ) (rate : Option (List ℕ)) (rest : List ℕ)
    → IsOther name
    → ((s : List ℕ) → rate ≡ some s → IsPlain s)
    → number_element name (rate_xml rate rest) ≡ number_element name rest
rate-skip name none rest other plain = refl
rate-skip name (some s) rest other plain =
    number_element-misses name (codes "<TasaImp>") (s ++ (codes "</TasaImp>" ++ rest)) other.rate
    ∙ (number_element-skip name s (codes "</TasaImp>" ++ rest) (plain s refl)
        ∙ number_element-misses name (codes "</TasaImp>") rest other.rate_end)

pub retentions-skip :
    (name : List ℕ) (number : ℕ) (rs : List Retention) (rest : List ℕ)
    → IsOther name
    → All IsPlainRate rs
    → number_element name (retentions_xml number rs rest) ≡ number_element name rest
unfolding retentions_xml
retentions-skip name number [] rest other plain = refl
retentions-skip name number (r ∷ rs) rest other plain =
    number_element-misses name (codes "<ImptoReten><NroImpto>") _ other.start
    ∙ (number_element-skip name (show number) _ (plain_show number)
        ∙ (number_element-misses name (codes "</NroImpto><TipoImp>") _ other.number
            ∙ (number_element-skip name (show r.type) _ (plain_show r.type)
                ∙ (number_element-misses name (codes "</TipoImp>") _ other.type
                    ∙ (rate-skip name r.rate _ other (plain.0)
                        ∙ (number_element-misses name (codes "<MontoImp>") _ other.amount
                            ∙ (number_element-skip name (show_signed r.amount) _
                                  (show_signed-IsPlain r.amount)
                                ∙ (number_element-misses name (codes "</MontoImp></ImptoReten>") _
                                      other.end
                                    ∙ retentions-skip name (number + 1) rs rest other
                                        (plain.1)))))))))

pub IsOther-total : IsOther (codes "MntTotal")
IsOther-total = record {
  start = refl;
  number = refl;
  type = refl;
  rate = refl;
  rate_end = refl;
  amount = refl;
  end = refl;
}

pub IsOther-net : IsOther (codes "MntNeto")
IsOther-net = record {
  start = refl;
  number = refl;
  type = refl;
  rate = refl;
  rate_end = refl;
  amount = refl;
  end = refl;
}

pub IsOther-exempt : IsOther (codes "MntExe")
IsOther-exempt = record {
  start = refl;
  number = refl;
  type = refl;
  rate = refl;
  rate_end = refl;
  amount = refl;
  end = refl;
}

pub IsOther-iva : IsOther (codes "IVA")
IsOther-iva = record {
  start = refl;
  number = refl;
  type = refl;
  rate = refl;
  rate_end = refl;
  amount = refl;
  end = refl;
}

-- What `Number` makes of a signed numeral that `\d+` matches.
abbrev pub natural : Signed → Option ℕ
natural (plus n) = some n
natural (minus zero) = some 0
natural (minus (suc n)) = none

-- The four numbers do not stand behind the `<Totales>`.
pub record Lacks (rest : List ℕ) : Type 0 where
  pub net : number_element (codes "MntNeto") rest ≡ none
  pub exempt : number_element (codes "MntExe") rest ≡ none
  pub iva : number_element (codes "IVA") rest ≡ none
  pub total : number_element (codes "MntTotal") rest ≡ none
