-- ===== src/Tests/Ruts.antt =====
-- The theorem on the RUT at 12.345.678-5.
use cmorflow_tax_api.Common.{ℕ, ◌++◌, refl, true, false, codes, ◌≡◌, ◌∷◌}
use cmorflow_tax_api.Rut.{weighted_sum, expected_dv, is_valid_reversed, clean, validate_rut}

accepted : validate_rut "12.345.678-5" ≡ true
unfolding validate_rut is_valid_reversed clean weighted_sum expected_dv
accepted = refl

mistaken : validate_rut "12.345.978-5" ≡ false
unfolding validate_rut is_valid_reversed clean weighted_sum expected_dv
mistaken = refl

valid : is_valid_reversed (b'5' ∷ (codes "87" ++ (b'6' ∷ codes "54321"))) ≡ true
unfolding is_valid_reversed weighted_sum expected_dv
valid = refl

abbrev six : ℕ
six = b'6'
