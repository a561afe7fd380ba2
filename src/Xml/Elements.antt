-- ===== src/Xml/Elements.antt =====
-- Elements of texts that are put together from parts: a part without `<` is passed over.
use cmorflow_tax_api.Common.{
  ◌&&◌, if◌then◌else◌, refl, none, true, false, arith, [], ◌≡◌, not, ◌∷◌, ◌==◌, ◌++◌, all, ℕ, List,
  Bool,
}
use mathlib.Core.Option.{map as Option_map}
use cmorflow_tax_api.Xml.{through, lower, after_prefix, before, element, contains, number_element}

-- Free of markup.
abbrev pub IsPlain : List ℕ → Type 0
IsPlain s = all (λ c. not (c == b'<')) s ≡ true

pub plain_head : (c : ℕ) (cs : List ℕ) → IsPlain (c ∷ cs) → ((c == b'<') ≡ false) × IsPlain cs
plain_head c cs h = (ground (arith, h), ground (arith, h))

pub lower-angle : (c : ℕ) → (c == b'<') ≡ false → (lower b'<' == lower c) ≡ false
lower-angle c h = ground (arith, h)

-- No tag starts at another character.
after_prefix-other :
    (name : List ℕ) (c : ℕ) (cs : List ℕ)
    → (c == b'<') ≡ false
    → after_prefix (b'<' ∷ name) (c ∷ cs) ≡ none
after_prefix-other name c cs h = rw (lower-angle c h) refl

pub element-skip :
    (bounded : Bool) (name s rest : List ℕ)
    → IsPlain s
    → element bounded name (s ++ rest) ≡ element bounded name rest
unfolding element
element-skip bounded name [] rest h = refl
element-skip bounded name (c ∷ cs) rest h =
    let (other, plain) = plain_head c cs h in
    rw (lower-angle c other, element) (element-skip bounded name cs rest plain)

pub contains-skip :
    (p s rest : List ℕ) → IsPlain s → contains (b'<' ∷ p) (s ++ rest) ≡ contains (b'<' ∷ p) rest
unfolding contains
contains-skip p [] rest h = refl
contains-skip p (c ∷ cs) rest h =
    let (other, plain) = plain_head c cs h in
    rw (lower-angle c other, contains) (contains-skip p cs rest plain)

pub number_element-skip :
    (name s rest : List ℕ) → IsPlain s → number_element name (s ++ rest) ≡ number_element name rest
unfolding number_element
number_element-skip name [] rest h = refl
number_element-skip name (c ∷ cs) rest h =
    let (other, plain) = plain_head c cs h in
    rw (lower-angle c other, number_element) (number_element-skip name cs rest plain)

pub before-skip :
    (close s rest : List ℕ)
    → IsPlain s
    → before (b'<' ∷ close) (s ++ rest) ≡ Option_map (λ v. s ++ v) (before (b'<' ∷ close) rest)
before-skip close [] rest h = ground arith
before-skip close (c ∷ cs) rest h =
    let (other, plain) = plain_head c cs h in
    rw (lower-angle c other, before) (rw (before-skip close cs rest plain) (ground arith))

pub through-skip :
    (close s rest : List ℕ)
    → IsPlain s
    → through (b'<' ∷ close) (s ++ rest) ≡ Option_map (λ v. s ++ v) (through (b'<' ∷ close) rest)
through-skip close [] rest h = ground arith
through-skip close (c ∷ cs) rest h =
    let (other, plain) = plain_head c cs h in
    rw (lower-angle c other, through) (rw (through-skip close cs rest plain) (ground arith))

and-both : (a b : Bool) → (a && b) ≡ true → (a ≡ true) × (b ≡ true)
and-both true b h = (refl, h)
and-both false b h = cc h

-- A text that a pattern cannot start in, whatever follows.
abbrev fails : List ℕ → List ℕ → Bool
fails [] s = false
fails (p ∷ ps) [] = false
fails (p ∷ ps) (c ∷ cs) = let rest = fails ps cs in if lower p == lower c then rest else true

abbrev pub misses : List ℕ → List ℕ → Bool
misses p [] = true
misses p (c ∷ cs) = fails p (c ∷ cs) && misses p cs

fails-none : (p s rest : List ℕ) → fails p s ≡ true → after_prefix p (s ++ rest) ≡ none
fails-none [] s rest h = cc h
fails-none (p ∷ ps) [] rest h = cc h
fails-none (p ∷ ps) (c ∷ cs) rest h = ground (arith, h, fails-none ps cs rest)

pub number_element-misses :
    (name s rest : List ℕ)
    → misses (b'<' ∷ name ++ b'>' ∷ []) s ≡ true
    → number_element name (s ++ rest) ≡ number_element name rest
unfolding number_element
number_element-misses name [] rest h = refl
number_element-misses name (c ∷ cs) rest h =
    let (first, others) = and-both (fails (b'<' ∷ name ++ b'>' ∷ []) (c ∷ cs)) _ h in
    rw (fails-none (b'<' ∷ name ++ b'>' ∷ []) (c ∷ cs) rest first, number_element)
      (number_element-misses name cs rest others)
