-- ===== src/Tests/Crons.antt =====
-- A signed cron request, accepted, refused and accepted again.
use cmorflow_tax_api.Common.{refl, ◌≡◌, List, [], ◌∷◌, some, ok, err, true}
use cmorflow_tax_api.Cron.{
  CronRequest, CronNonce, nonce_used, can_activate, is_in_window, consume_nonce,
}

-- Its timestamp lies four minutes ahead of the first arrival, at 1000 s.
abbrev ahead : CronRequest
ahead = record {
  timestamp = some "1240";
  seconds = some 1240;
  signature = some "ab";
  nonce = some "n1";
  raw_body = "";
}

abbrev after_first : List CronNonce
after_first = record { nonce = "n1"; expires_at = 1300000 } ∷ []

first_passes : can_activate (λ k t n b s. true) (some "key") 1000000 ahead [] ≡ ok after_first
unfolding can_activate is_in_window consume_nonce
first_passes = refl

second_refused :
    can_activate (λ k t n b s. true) (some "key") 1300000 ahead after_first ≡ err nonce_used
unfolding can_activate is_in_window consume_nonce
second_refused = refl

third_passes :
    can_activate (λ k t n b s. true) (some "key") 1300001 ahead after_first
    ≡ ok (record { nonce = "n1"; expires_at = 1600001 } ∷ [])
unfolding can_activate is_in_window consume_nonce
third_passes = refl
