-- ===== src/Xml.antt =====
-- The regular expressions by which the services read XML
-- (src/infrastructure/framework/sii/caf.service.ts, sii-soap.client.ts, sii-xsd.validator.ts), on the
-- codes of a text: the first element of a name, whatever the case of its letters.
pub mod Elements
pub mod Escape
use cmorflow_tax_api.Common.{
  zero, ◌-◌, strip_prefix, length, take, suc, is_some, codes, ℕ, ◌+◌, ◌∷◌, ◌++◌, [], List, Bool,
  true, false, ◌||◌, ◌&&◌, not, Option, none, some, leb, ◌==◌, if◌then◌else◌, is_digit, all, Signed,
  plus,
}
use mathlib.Core.List.{reverse}
use mathlib.Core.Option.{map as Option_map}

-- `i`: letters of ASCII alone have another case that is in ASCII.
abbrev pub lower : ℕ → ℕ
lower c = if leb b'A' c && leb c b'Z' then c + 32 else c

-- `\w`
abbrev pub is_word : ℕ → Bool
is_word c = is_digit c || (leb b'a' (lower c) && leb (lower c) b'z') || (c == b'_')

-- What `trim` takes off.
abbrev pub is_white : ℕ → Bool
is_white c =
    (leb 9 c && leb c 13)
    || (c == 32)
    || (c == 160)
    || (c == 5760)
    || (leb 8192 c && leb c 8202)
    || (c == 8232)
    || (c == 8233)
    || (c == 8239)
    || (c == 8287)
    || (c == 12288)
    || (c == 65279)

abbrev pub trim_start : List ℕ → List ℕ
trim_start [] = []
trim_start (c ∷ cs) = let rest = trim_start cs in if is_white c then rest else c ∷ cs

abbrev pub trim : List ℕ → List ℕ
trim s = reverse (trim_start (reverse (trim_start s)))

-- The text after a prefix, whatever the case.
abbrev pub after_prefix : List ℕ → List ℕ → Option (List ℕ)
after_prefix [] s = some s
after_prefix (p ∷ ps) [] = none
after_prefix (p ∷ ps) (c ∷ cs) =
    let rest = after_prefix ps cs in if lower p == lower c then rest else none

-- `\b` after a word.
abbrev pub ends_word : List ℕ → Bool
ends_word [] = true
ends_word (c ∷ cs) = not (is_word c)

-- `[^>]*>`
abbrev pub after_angle : List ℕ → Option (List ℕ)
after_angle [] = none
after_angle (c ∷ cs) = let rest = after_angle cs in if c == b'>' then some cs else rest

-- `([\s\S]*?)` before the first closing text.
abbrev pub before : List ℕ → List ℕ → Option (List ℕ)
before close [] = none
before close (c ∷ cs) =
    let rest = before close cs in
    elim (after_prefix close (c ∷ cs)) [
      | some _ ↦ some []
      | none ↦ elim rest [ none ↦ none | some v ↦ some (c ∷ v) ]
    ]

abbrev pub closing : List ℕ → List ℕ
closing name = b'<' ∷ b'/' ∷ name ++ b'>' ∷ []

-- What follows an opening tag: `<name\b[^>]*>` where `bounded`, `<name[^>]*>` else.
abbrev pub after_opening : Bool → List ℕ → List ℕ → Option (List ℕ)
after_opening bounded name s = elim (after_prefix (b'<' ∷ name) s) [
  | none ↦ none
  | some rest ↦ if bounded && not (ends_word rest) then none else after_angle rest
]

-- The content of the element that starts here.
abbrev pub element_at : Bool → List ℕ → List ℕ → Option (List ℕ)
element_at bounded name s = elim (after_opening bounded name s) [
  | none ↦ none
  | some rest ↦ before (closing name) rest
]

-- `exec`: the first place that matches.
unfoldable pub element : Bool → List ℕ → List ℕ → Option (List ℕ)
element bounded name [] = none
element bounded name (c ∷ cs) =
    let later = element bounded name cs in
    elim (element_at bounded name (c ∷ cs)) [ none ↦ later | some v ↦ some v ]

-- `includes`, whatever the case: also a pattern with the flag `i` and no more in it.
unfoldable pub contains : List ℕ → List ℕ → Bool
contains p [] = elim (after_prefix p []) [ none ↦ false | some _ ↦ true ]
contains p (c ∷ cs) =
    let later = contains p cs in elim (after_prefix p (c ∷ cs)) [ none ↦ later | some _ ↦ true ]

-- `(\d+)` before a closing text: the digits, one at least.
abbrev pub digits_before : List ℕ → List ℕ → Option (List ℕ)
digits_before close s = elim (before close s) [
  | none ↦ none
  | some [] ↦ none
  | some (d ∷ ds) ↦ if all is_digit (d ∷ ds) then some (d ∷ ds) else none
]

abbrev pub number_at : List ℕ → List ℕ → Option (List ℕ)
number_at name s = elim (after_prefix (b'<' ∷ name ++ b'>' ∷ []) s) [
  | none ↦ none
  | some rest ↦ digits_before (closing name) rest
]

-- `<name>(\d+)</name>`
unfoldable pub number_element : List ℕ → List ℕ → Option (List ℕ)
number_element name [] = none
number_element name (c ∷ cs) =
    let later = number_element name cs in
    elim (number_at name (c ∷ cs)) [ none ↦ later | some v ↦ some v ]

-- `includes`
unfoldable pub includes : List ℕ → List ℕ → Bool
includes p [] = is_some (strip_prefix p [])
includes p (c ∷ cs) = let later = includes p cs in is_some (strip_prefix p (c ∷ cs)) || later

-- The text up to the end of a closing text, as it is written there.
abbrev pub through : List ℕ → List ℕ → Option (List ℕ)
through close [] = none
through close (c ∷ cs) =
    let rest = through close cs in
    elim (after_prefix close (c ∷ cs)) [
      | some _ ↦ some (take (length close) (c ∷ cs))
      | none ↦ elim rest [ none ↦ none | some v ↦ some (c ∷ v) ]
    ]

-- The element that starts here, with its tags: `<name\b[^>]*>[\s\S]*?</name>`.
abbrev pub whole_at : List ℕ → List ℕ → Option (List ℕ)
whole_at name s = elim (after_prefix (b'<' ∷ name) s) [
  | none ↦ none
  | some rest ↦ if not (ends_word rest) then none else elim (through (b'>' ∷ []) rest) [
    | none ↦ none
    | some angle ↦ elim (after_angle rest) [
      | none ↦ none
      | some body ↦
          Option_map (λ v. take (length name + 1) s ++ (angle ++ v)) (through (closing name) body)
    ]
  ]
]

unfoldable pub whole_element : List ℕ → List ℕ → Option (List ℕ)
whole_element name [] = none
whole_element name (c ∷ cs) =
    let later = whole_element name cs in
    elim (whole_at name (c ∷ cs)) [ none ↦ later | some v ↦ some v ]

-- `replace(/p/g, r)`: `k` characters of a match are left out.
unfoldable pub replace_from : ℕ → List ℕ → List ℕ → List ℕ → List ℕ
replace_from k p r [] = []
replace_from (suc k) p r (c ∷ cs) = replace_from k p r cs
replace_from zero p r (c ∷ cs) = elim (strip_prefix p (c ∷ cs)) [
  | some _ ↦ r ++ replace_from (length p - 1) p r cs
  | none ↦ c ∷ replace_from zero p r cs
]

-- `escapeXml`
abbrev pub escape_char : ℕ → List ℕ
escape_char c =
    if c == b'<'
    then codes "&lt;"
    else if c == b'>'
    then codes "&gt;"
    else if c == b'&'
    then codes "&amp;"
    else if c == 39
    then codes "&apos;"
    else if c == b'"'
    then codes "&quot;"
    else c ∷ []

unfoldable pub escape_xml : List ℕ → List ℕ
escape_xml [] = []
escape_xml (c ∷ cs) = escape_char c ++ escape_xml cs

-- `decodeXmlEntities` of caf.service.ts: one replacement after the other.
unfoldable pub decode_xml_entities : List ℕ → List ℕ
unfolding replace_from
decode_xml_entities s =
    let lt = replace_from 0 (codes "&lt;") (codes "<") s in
    let gt = replace_from 0 (codes "&gt;") (codes ">") lt in
    let amp = replace_from 0 (codes "&amp;") (codes "&") gt in
    let quot = replace_from 0 (codes "&quot;") (codes "\"") amp in
    replace_from 0 (codes "&apos;") (codes "'") quot
