-- ===== src/Tests/Clients.antt =====
-- Uploads against a network that is silent at first.
use cmorflow_tax_api.Common.{
  ◌≡◌, ◌==◌, List, ℕ, refl, ok, err, none, true, false, codes, if◌then◌else◌,
}
use cmorflow_tax_api.Xml.{element, includes}
use cmorflow_tax_api.Client.{
  Attempt, Settings, timeout, responded, aborted, upload_real_dte, fetch_with_retry, fetch_from,
  fetch_with_timeout, is_connection_error, dte_form, parse_rut, encode, extract_first,
  read_track_id, backoff_ms,
}
use cmorflow_tax_api.Client.Retry.{IsRetried, fetch_with_retry-IsRetried}
use cmorflow_tax_api.Client.Upload.{IsUpload, upload_real_dte-IsUpload}

-- Every POST arrives, and only the second one is answered.
abbrev second_answers : ℕ → Attempt
second_answers i = record {
  arrives = true;
  fetched =
      if i == 2
      then responded (record { is_ok = true; text = codes "<TRACKID>77</TRACKID>" })
      else aborted;
}

abbrev never_answers : ℕ → Attempt
never_answers i = record { arrives = true; fetched = aborted }

abbrev settings : Settings
settings = record {
  sender_rut = none;
  rcof_url = false;
  is_ready = true;
  is_valid_dte = λ xml. true;
  is_valid_boleta = λ xml. true;
  is_valid_rcof = λ xml. true;
}

abbrev envelope : List ℕ
envelope =
    codes "<EnvioDTE><RutEnvia>7.619.208-k</RutEnvia><RUTEmisor>76192083-9</RUTEmisor></EnvioDTE>"

fetch_with_retry-IsRetried_example :
    (last : ℕ) × IsRetried second_answers 1 last (fetch_with_retry second_answers)
fetch_with_retry-IsRetried_example = fetch_with_retry-IsRetried second_answers

upload_real_dte-IsUpload_example :
    IsUpload settings second_answers envelope envelope
      (upload_real_dte settings second_answers envelope envelope)
upload_real_dte-IsUpload_example =
    upload_real_dte-IsUpload settings second_answers envelope envelope

uploaded :
    upload_real_dte settings second_answers envelope envelope
    ≡ record { result = ok (codes "77"); posts = 2; arrivals = 2; waited = 500 }
unfolding upload_real_dte dte_form parse_rut encode extract_first element includes fetch_with_retry
    fetch_from fetch_with_timeout is_connection_error read_track_id backoff_ms
uploaded = refl

-- One envelope arrives three times, and the upload fails.
arrives_three_times :
    upload_real_dte settings never_answers envelope envelope
    ≡ record { result = err timeout; posts = 3; arrivals = 3; waited = 1500 }
unfolding upload_real_dte dte_form parse_rut encode extract_first element includes fetch_with_retry
    fetch_from fetch_with_timeout is_connection_error read_track_id backoff_ms
arrives_three_times = refl
