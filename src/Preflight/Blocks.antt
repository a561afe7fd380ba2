-- ===== src/Preflight/Blocks.antt =====
-- The four numbers of the `<Totales>` that is written, each found where it stands.
use cmorflow_tax_api.Common.{
  sym, ap, is_digit, subst, all, refl, none, ◌∙◌, ◌++◌, true, some, ◌≡◌, ◌∷◌, All, ℕ, codes, Signed,
  List, zero, suc, plus, minus,
}
use mathlib.Core.List.{append-nil}
use mathlib.Core.Option.{map as Option_map}
use cmorflow_tax_api.Xml.{number_element}
use cmorflow_tax_api.Xml.Elements.{before-skip, number_element-skip, number_element-misses, misses}
use cmorflow_tax_api.Caf.{decimal_from, show}
use cmorflow_tax_api.Caf.Numerals.{show-IsNumeral, decimal-show}
use cmorflow_tax_api.Preflight.{
  Retention, exempt_xml, net_xml, number_tag, or_zero, retentions_xml, show_signed,
}
use cmorflow_tax_api.Caf.Chains.{cons_of}
use cmorflow_tax_api.Preflight.Written.{
  IsPlainRate, Lacks, natural, opening, plain_show, show_signed-IsPlain, retentions-skip,
  IsOther-net, IsOther-exempt, IsOther-iva, IsOther-total,
}

module _ (rest : List ℕ) where
  unfoldable pub total_text : Signed → List ℕ
  total_text x = codes "<MntTotal>" ++ (show_signed x ++ (codes "</MntTotal></Totales>" ++ rest))

  total-skip :
      (name : List ℕ) (x : Signed)
      → misses (opening name) (codes "<MntTotal>") ≡ true
      → misses (opening name) (codes "</MntTotal></Totales>") ≡ true
      → number_element name rest ≡ none
      → number_element name (total_text x) ≡ none
  unfolding total_text
  total-skip name x before after none_left =
      number_element-misses name (codes "<MntTotal>") _ before
      ∙ (number_element-skip name (show_signed x) _ (show_signed-IsPlain x)
          ∙ (number_element-misses name (codes "</MntTotal></Totales>") rest after ∙ none_left))

  total-digits :
      (v c : ℕ) (cs : List ℕ)
      → show v ≡ c ∷ cs
      → all is_digit (c ∷ cs) ≡ true
      → number_element
          (codes "MntTotal")
          (codes "<MntTotal>" ++ (show v ++ (codes "</MntTotal></Totales>" ++ rest)))
        ≡ some (c ∷ cs)
  unfolding number_element
  total-digits v c cs e digits = rw (
    before-skip (codes "/MntTotal>") (show v) _ (plain_show v),
    number_element,
    append-nil,
    e,
    digits,
  )

  total-number :
      (v : ℕ)
      → number_tag
          (codes "MntTotal")
          (codes "<MntTotal>" ++ (show v ++ (codes "</MntTotal></Totales>" ++ rest)))
        ≡ some v
  total-number v =
      let (c, cs, e) = cons_of (show v) ((show-IsNumeral v).0) in
      rw (total-digits v c cs e (subst (λ s. all is_digit s ≡ true) e ((show-IsNumeral v).1)))
        (ap some (ap (decimal_from 0) (sym e) ∙ decimal-show v))

  negative-none :
      (n : ℕ)
      → number_element (codes "MntTotal") rest ≡ none
      → number_element
          (codes "MntTotal")
          (codes "<MntTotal>" ++ (b'-' ∷ show n ++ (codes "</MntTotal></Totales>" ++ rest)))
        ≡ none
  unfolding number_element
  negative-none n h =
      rw
        (
          before-skip (codes "/MntTotal>") (show n) _ (plain_show n),
          number_element-skip (codes "MntTotal") (show n) _ (plain_show n),
          number_element,
        )
        h

  total-tag :
      (x : Signed)
      → number_element (codes "MntTotal") rest ≡ none
      → number_tag (codes "MntTotal") (total_text x) ≡ natural x
  unfolding total_text show_signed
  total-tag (plus n) h = total-number n
  total-tag (minus zero) h = total-number 0
  total-tag (minus (suc n)) h = ap (Option_map (decimal_from 0)) (negative-none (suc n) h)

  -- A number that is written, between its tags.
  net-digits :
      (v iva c : ℕ) (cs after : List ℕ)
      → show v ≡ c ∷ cs
      → all is_digit (c ∷ cs) ≡ true
      → number_element (codes "MntNeto") (
          codes "<Totales><MntNeto>"
          ++ (show v
              ++ (codes "</MntNeto><TasaIVA>19</TasaIVA><IVA>"
                  ++ (show iva ++ (codes "</IVA>" ++ after)))))
        ≡ some (c ∷ cs)
  unfolding number_element
  net-digits v iva c cs after e digits = rw (
    before-skip (codes "/MntNeto>") (show v) _ (plain_show v),
    number_element,
    append-nil,
    e,
    digits,
  )

  iva-digits :
      (v iva c : ℕ) (cs after : List ℕ)
      → show iva ≡ c ∷ cs
      → all is_digit (c ∷ cs) ≡ true
      → number_element (codes "IVA") (
          codes "<Totales><MntNeto>"
          ++ (show v
              ++ (codes "</MntNeto><TasaIVA>19</TasaIVA><IVA>"
                  ++ (show iva ++ (codes "</IVA>" ++ after)))))
        ≡ some (c ∷ cs)
  unfolding number_element
  iva-digits v iva c cs after e digits = rw (
    number_element-skip (codes "IVA") (show v) _ (plain_show v),
    number_element,
    before-skip (codes "/IVA>") (show iva) _ (plain_show iva),
    append-nil,
    e,
    digits,
  )

  exempt-digits :
      (v c : ℕ) (cs after : List ℕ)
      → show v ≡ c ∷ cs
      → all is_digit (c ∷ cs) ≡ true
      → number_element
          (codes "MntExe")
          (codes "<MntExe>" ++ (show v ++ (codes "</MntExe>" ++ after)))
        ≡ some (c ∷ cs)
  unfolding number_element
  exempt-digits v c cs after e digits = rw (
    before-skip (codes "/MntExe>") (show v) _ (plain_show v),
    number_element,
    append-nil,
    e,
    digits,
  )

number_of :
    (name xml : List ℕ) (n : ℕ)
    → ((c : ℕ) (cs : List ℕ)
        → show n ≡ c ∷ cs
        → all is_digit (c ∷ cs) ≡ true
        → number_element name xml ≡ some (c ∷ cs))
    → number_tag name xml ≡ some n
number_of name xml n found =
    let (c, cs, e) = cons_of (show n) ((show-IsNumeral n).0) in
    ap (Option_map (decimal_from 0))
      (found c cs e (subst (λ s. all is_digit s ≡ true) e ((show-IsNumeral n).1)))
    ∙ ap some (ap (decimal_from 0) (sym e) ∙ decimal-show n)

module _ (rest : List ℕ) (lacks : Lacks rest) (rs : List Retention) (plain : All IsPlainRate rs)
    (x : Signed) where
  abbrev pub behind : List ℕ
  behind = retentions_xml 1 rs (total_text rest x)

  abbrev pub block : ℕ → ℕ → ℕ → List ℕ
  block net iva exempt = codes "<Totales>" ++ net_xml net iva (exempt_xml exempt behind)

  net-behind : number_element (codes "MntNeto") behind ≡ none
  net-behind =
      retentions-skip (codes "MntNeto") 1 rs (total_text rest x) IsOther-net plain
      ∙ total-skip rest (codes "MntNeto") x refl refl lacks.net

  exempt-behind : number_element (codes "MntExe") behind ≡ none
  exempt-behind =
      retentions-skip (codes "MntExe") 1 rs (total_text rest x) IsOther-exempt plain
      ∙ total-skip rest (codes "MntExe") x refl refl lacks.exempt

  iva-behind : number_element (codes "IVA") behind ≡ none
  iva-behind =
      retentions-skip (codes "IVA") 1 rs (total_text rest x) IsOther-iva plain
      ∙ total-skip rest (codes "IVA") x refl refl lacks.iva

  exempt_xml-skip :
      (name : List ℕ) (exempt : ℕ)
      → misses (opening name) (codes "<MntExe>") ≡ true
      → misses (opening name) (codes "</MntExe>") ≡ true
      → number_element name (exempt_xml exempt behind) ≡ number_element name behind
  exempt_xml-skip name zero start end = refl
  exempt_xml-skip name (suc n) start end =
      number_element-misses name (codes "<MntExe>") _ start
      ∙ (number_element-skip name (show (suc n)) _ (plain_show (suc n))
          ∙ number_element-misses name (codes "</MntExe>") behind end)

  pub net-block :
      (net iva exempt : ℕ) → or_zero (number_tag (codes "MntNeto") (block net iva exempt)) ≡ net
  net-block zero iva exempt =
      ap (λ o. or_zero (Option_map (decimal_from 0) o))
        (number_element-misses (codes "MntNeto") (codes "<Totales>") _ refl
          ∙ (exempt_xml-skip (codes "MntNeto") exempt refl refl ∙ net-behind))
  net-block (suc n) iva exempt = ap or_zero (
      number_of (codes "MntNeto") (block (suc n) iva exempt) (suc n)
        (λ c cs e digits. net-digits rest (suc n) iva c cs (exempt_xml exempt behind) e digits))

  pub iva-block :
      (net iva exempt : ℕ)
      → (net ≡ 0 → iva ≡ 0)
      → or_zero (number_tag (codes "IVA") (block net iva exempt)) ≡ iva
  iva-block zero iva exempt h =
      ap (λ o. or_zero (Option_map (decimal_from 0) o))
        (number_element-misses (codes "IVA") (codes "<Totales>") _ refl
          ∙ (exempt_xml-skip (codes "IVA") exempt refl refl ∙ iva-behind))
      ∙ sym (h refl)
  iva-block (suc n) iva exempt h = ap or_zero (
      number_of (codes "IVA") (block (suc n) iva exempt) iva
        (λ c cs e digits. iva-digits rest (suc n) iva c cs (exempt_xml exempt behind) e digits))

  -- The net amount and the IVA are passed over.
  net_xml-skip :
      (name : List ℕ) (net iva : ℕ) (after : List ℕ)
      → misses (opening name) (codes "<Totales>") ≡ true
      → misses (opening name) (codes "<MntNeto>") ≡ true
      → misses (opening name) (codes "</MntNeto><TasaIVA>19</TasaIVA><IVA>") ≡ true
      → misses (opening name) (codes "</IVA>") ≡ true
      → number_element name (codes "<Totales>" ++ net_xml net iva after) ≡ number_element name after
  net_xml-skip name zero iva after a b c d = number_element-misses name (codes "<Totales>") after a
  net_xml-skip name (suc n) iva after a b c d =
      number_element-misses name (codes "<Totales>") _ a
      ∙ (number_element-misses name (codes "<MntNeto>") _ b
          ∙ (number_element-skip name (show (suc n)) _ (plain_show (suc n))
              ∙ (number_element-misses name (codes "</MntNeto><TasaIVA>19</TasaIVA><IVA>") _ c
                  ∙ (number_element-skip name (show iva) _ (plain_show iva)
                      ∙ number_element-misses name (codes "</IVA>") after d))))

  pub exempt-block :
      (net iva exempt : ℕ) → or_zero (number_tag (codes "MntExe") (block net iva exempt)) ≡ exempt
  exempt-block net iva exempt =
      ap (λ o. or_zero (Option_map (decimal_from 0) o))
        (net_xml-skip (codes "MntExe") net iva (exempt_xml exempt behind) refl refl refl refl)
      ∙ written exempt
    where
      written : (n : ℕ) → or_zero (number_tag (codes "MntExe") (exempt_xml n behind)) ≡ n
      written zero = ap (λ o. or_zero (Option_map (decimal_from 0) o)) exempt-behind
      written (suc n) = ap or_zero (
          number_of (codes "MntExe") (exempt_xml (suc n) behind) (suc n)
            (λ c cs e digits. exempt-digits rest (suc n) c cs behind e digits))

  pub total-block :
      (net iva exempt : ℕ) → number_tag (codes "MntTotal") (block net iva exempt) ≡ natural x
  total-block net iva exempt =
      ap (Option_map (decimal_from 0)) (
        net_xml-skip (codes "MntTotal") net iva (exempt_xml exempt behind) refl refl refl refl
        ∙ (exempt_xml-skip (codes "MntTotal") exempt refl refl
            ∙ retentions-skip (codes "MntTotal") 1 rs (total_text rest x) IsOther-total plain))
      ∙ total-tag rest x lacks.total
