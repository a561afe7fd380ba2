-- ===== src/Xml/Escape.antt =====
-- Texts that the replacements of entities leave as they are, and texts that are escaped.
use cmorflow_tax_api.Common.{
  ◌≡◌, List, ℕ, all, not, ◌==◌, true, false, [], ◌∷◌, refl, ap, arith, codes, ◌++◌,
}
use cmorflow_tax_api.Xml.{replace_from, decode_xml_entities, escape_char, escape_xml}
use cmorflow_tax_api.Xml.Elements.{IsPlain}

-- A text without `&` has no entity to replace.
replace_from-none :
    (p r s : List ℕ) → all (λ c. not (c == b'&')) s ≡ true → replace_from 0 (b'&' ∷ p) r s ≡ s
unfolding replace_from
replace_from-none p r [] h = refl
replace_from-none p r (c ∷ cs) h =
    let other : (b'&' == c) ≡ false = ground (arith, h) in
    rw (other, replace_from) (ap (λ l. c ∷ l) (replace_from-none p r cs (ground (arith, h))))

pub decode-none : (s : List ℕ) → all (λ c. not (c == b'&')) s ≡ true → decode_xml_entities s ≡ s
unfolding decode_xml_entities
decode-none s h =
    rw
      (
        replace_from-none (codes "lt;") (codes "<") s h,
        replace_from-none (codes "gt;") (codes ">") s h,
        replace_from-none (codes "amp;") (codes "&") s h,
        replace_from-none (codes "quot;") (codes "\"") s h,
      )
      (replace_from-none (codes "apos;") (codes "'") s h)

escape_char-append : (c : ℕ) (s : List ℕ) → IsPlain s → IsPlain (escape_char c ++ s)
escape_char-append c s h = ground arith

-- An escaped text opens no element.
escape_xml-IsPlain : (s : List ℕ) → IsPlain (escape_xml s)
unfolding escape_xml
escape_xml-IsPlain [] = refl
escape_xml-IsPlain (c ∷ cs) = escape_char-append c (escape_xml cs) (escape_xml-IsPlain cs)
