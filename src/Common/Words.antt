-- ===== src/Common/Words.antt =====
-- Texts as lists of character codes, for the tests that the source writes as regular expressions.
use Prim.Native.Nat.{ℕ, ◌+◌, ◌-◌, ◌*◌}
use Prim.Native.String.{String}
use Prim.Native.Char.{code}
use mathlib.Core.Bool.{Bool, true, false, ◌&&◌, ◌||◌}
use mathlib.Core.Option.{Option, none, some, map as Option_map}
use text.Mathlib.Text.{◌==◌ as str_eq}
use mathlib.Core.List.{List, [], ◌∷◌}
use cmorflow_tax_api.Common.Lists.{length, all}
use cmorflow_tax_api.Common.Tests.{leb, ◌==◌, if◌then◌else◌}

abbrev pub codes : String → List ℕ
codes String.[] = []
codes (String.◌∷◌ c s) = code c ∷ codes s

-- A text that is missing or empty is falsy.
abbrev pub truthy : Option String → Option String
truthy none = none
truthy (some s) = if str_eq s "" then none else some s

abbrev pub is_digit : ℕ → Bool
is_digit c = leb b'0' c && leb c b'9'

abbrev pub digit : Option ℕ → ℕ → ℕ
digit none c = c - b'0'
digit (some n) c = n * 10 + (c - b'0')

-- The value of the digits that a text starts with, after those of `acc`.
abbrev pub digits : Option ℕ → List ℕ → Option ℕ
digits acc [] = acc
digits acc (c ∷ cs) = let rest = digits (some (digit acc c)) cs in if is_digit c then rest else acc

abbrev pub is_space : ℕ → Bool
is_space c = (c == 32) || (leb 9 c && leb c 13)

abbrev pub skip_spaces : List ℕ → List ℕ
skip_spaces [] = []
skip_spaces (c ∷ cs) = let rest = skip_spaces cs in if is_space c then rest else c ∷ cs

-- A sign and a magnitude.
pub data Signed : Type 0 where
  plus minus : ℕ → Signed

abbrev parse_signed : List ℕ → Option Signed
parse_signed [] = none
parse_signed (c ∷ cs) =
    if c == b'-'
    then Option_map minus (digits none cs)
    else if c == b'+'
    then Option_map plus (digits none cs)
    else Option_map plus (digits none (c ∷ cs))

-- `Number.parseInt(s, 10)`, with `none` for NaN.
unfoldable pub parse_int : String → Option Signed
parse_int s = parse_signed (skip_spaces (codes s))

-- The same on codes.
unfoldable pub parse_int_codes : List ℕ → Option Signed
parse_int_codes s = parse_signed (skip_spaces s)

abbrev pub same_codes : List ℕ → List ℕ → Bool
same_codes [] [] = true
same_codes [] (d ∷ ds) = false
same_codes (c ∷ cs) [] = false
same_codes (c ∷ cs) (d ∷ ds) = (c == d) && same_codes cs ds

abbrev is_hex : ℕ → Bool
is_hex c = is_digit c || (leb b'a' c && leb c b'f') || (leb b'A' c && leb c b'F')

-- HEX64.
abbrev pub is_hex64 : List ℕ → Bool
is_hex64 s = (length s == 64) && all is_hex s

abbrev nibble : ℕ → ℕ
nibble c = if is_digit c then c - b'0' else if leb b'a' c then c - b'a' + 10 else c - b'A' + 10

-- Two texts of hexadecimal digits spell the same bytes.
abbrev pub same_bytes : List ℕ → List ℕ → Bool
same_bytes [] [] = true
same_bytes [] (d ∷ ds) = false
same_bytes (c ∷ cs) [] = false
same_bytes (c ∷ cs) (d ∷ ds) = (nibble c == nibble d) && same_bytes cs ds

-- The text after a prefix.
abbrev pub strip_prefix : List ℕ → List ℕ → Option (List ℕ)
strip_prefix [] s = some s
strip_prefix (c ∷ cs) [] = none
strip_prefix (c ∷ cs) (d ∷ ds) = let rest = strip_prefix cs ds in if c == d then rest else none

abbrev is_dash : ℕ → Bool
is_dash c = c == b'-'

-- `/^\d{4}-\d{2}-\d{2}$/`
unfoldable pub is_date_format : List ℕ → Bool
is_date_format (a ∷ b ∷ c ∷ d ∷ s1 ∷ e ∷ f ∷ s2 ∷ g ∷ h ∷ []) =
    all is_digit (a ∷ b ∷ c ∷ d ∷ e ∷ f ∷ g ∷ h ∷ []) && is_dash s1 && is_dash s2
is_date_format _ = false
