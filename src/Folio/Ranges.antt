-- ===== src/Folio/Ranges.antt =====
-- When the ranges of a tenant fit together, and which folios they have handed out.
use cmorflow_tax_api.Common.{
  arith, ◌||◌, ℕ, suc, ◌≤◌, ◌<◌, ◌≡◌, ◌⊎◌, Bool, ◌&&◌, List, [], ◌∷◌, ◌++◌, leb, ◌==◌, any, All,
}
use cmorflow_tax_api.Folio.{CafData, current_last_used}

-- A range that starts at 1 or later, and whose last used folio lies in it or just before it.
pub record IsValid (c : CafData) : Type 0 where
  pub positive : 1 ≤ c.range_from
  pub ordered : c.range_from ≤ c.range_to
  pub started : c.range_from ≤ suc (current_last_used c)
  pub within : current_last_used c ≤ c.range_to

abbrev pub IsApart : CafData → CafData → Type 0
IsApart c d = c.type ≡ d.type → (c.range_to < d.range_from) ⊎ (d.range_to < c.range_from)

-- Every range is valid, and no two ranges of one document type meet.
abbrev pub AreConsistent : List CafData → Type 0
AreConsistent [] = Unit
AreConsistent (c ∷ cs) = IsValid c × All (IsApart c) cs × AreConsistent cs

unfoldable pub is_used_in : ℕ → ℕ → CafData → Bool
is_used_in t f c = c.type == t && leb c.range_from f && leb f (current_last_used c)

-- Folio `f` of document type `t` was handed out.
unfoldable pub is_used : ℕ → ℕ → List CafData → Bool
unfolding is_used_in
is_used t f cafs = any (is_used_in t f) cafs

pub is_used-concat :
    (t f : ℕ) (cs : List CafData) (e : CafData)
    → is_used t f (cs ++ e ∷ []) ≡ (is_used t f cs || is_used_in t f e)
unfolding is_used
is_used-concat t f [] e = ground arith
is_used-concat t f (c ∷ cs) e = ground (arith, is_used-concat t f cs e)
