-- ===== src/Client/Upload.antt =====
-- What an upload has done.
use cmorflow_tax_api.Common.{
  sym, subst, none, refl, ok-inj, false, ap, ◌∷◌, ◌<◌, ◌≤◌, some, inl, guard-ok, ◌>>=◌, true, ok,
  inr, err, ◌≡◌, Result-cases, Option, List, [], ℕ, arith,
}
use cmorflow_tax_api.Client.{
  Response, Fetched, responded, aborted, failed, Attempt, SiiError, Fetches, Form, Settings,
  fetch_with_timeout, fetch_with_retry, read_track_id, some_track_id, extract_first, track_id_names,
  http_error, dte_form, upload_real_dte,
}
use cmorflow_tax_api.Client.Retry.{has_response, fetch_with_retry-IsRetried}

-- The answer to the last of `n` attempts is a success that names the track id.
pub record IsAccepted (net : ℕ → Attempt) (n : ℕ) (track_id : List ℕ) : Type 0 where
  pub response : Response
  pub fetched : Attempt.fetched (net n) ≡ responded response
  pub success : response.is_ok ≡ true
  pub named : extract_first response.text track_id_names ≡ some track_id

pub record IsUpload (settings : Settings) (net : ℕ → Attempt) (normalized xml : List ℕ)
    (x : Fetches (List ℕ)) : Type 0 where
  pub refused :
      (e : SiiError) → dte_form settings normalized xml ≡ err e → (x.posts ≡ 0) × (x.result ≡ err e)
  pub tried : (form : Form) → dte_form settings normalized xml ≡ ok form → 1 ≤ x.posts
  pub bounded : (x.posts ≤ 3) × (x.arrivals ≤ x.posts)
  pub repeated : (i : ℕ) → 1 ≤ i → i < x.posts → has_response (Attempt.fetched (net i)) ≡ false
  pub accepted : (track_id : List ℕ) → x.result ≡ ok track_id → IsAccepted net x.posts track_id

some_track_id-ok : (o : Option (List ℕ)) (id : List ℕ) → some_track_id o ≡ ok id → o ≡ some id
some_track_id-ok none id h = cc h
some_track_id-ok (some []) id h = cc h
some_track_id-ok (some (c ∷ cs)) id h = ap some (ok-inj h)

read-IsAccepted :
    (net : ℕ → Attempt) (n : ℕ) (f : Fetched) (id : List ℕ)
    → Attempt.fetched (net n) ≡ f
    → (fetch_with_timeout f >>= read_track_id) ≡ ok id
    → IsAccepted net n id
unfolding fetch_with_timeout read_track_id
read-IsAccepted net n (responded r) id e h =
    let (success, named) = guard-ok r.is_ok http_error _ id h in
    record {
      response = r;
      fetched = e;
      success = success;
      named = some_track_id-ok (extract_first r.text track_id_names) id named;
    }
read-IsAccepted net n aborted id e h = cc h
read-IsAccepted net n failed id e h = cc h

module _ (settings : Settings) (net : ℕ → Attempt) (normalized xml : List ℕ) where
  -- An upload whose RUTs, validation or encoding fail makes no POST. Any other makes one to three, and
  -- repeats one only after it stayed without an answer. A track id that it returns is one that the answer
  -- to its last POST, a success, names.
  pub upload_real_dte-IsUpload :
      IsUpload settings net normalized xml (upload_real_dte settings net normalized xml)
  unfolding upload_real_dte
  upload_real_dte-IsUpload = elim (Result-cases (dte_form settings normalized xml)) [
    | inr (e, refused) ↦
        rw (refused, upload_real_dte)
          (record {
            refused = λ e' h. (refl, cc (refused, h));
            tried = λ form h. cc (refused, h);
            bounded = (omega arith, omega arith);
            repeated = λ i low high. absurd (omega arith);
            accepted = λ id h. cc h;
          })
    | inl (form, passed) ↦
        let (last, r) = fetch_with_retry-IsRetried net in
        let count : (fetch_with_retry net).posts ≡ last = omega (arith, r.posts, r.from) in
        rw (passed, upload_real_dte)
          (record {
            refused = λ e h. cc (passed, h);
            tried = λ form' h. omega (arith, count, r.from);
            bounded = (omega (arith, count, r.limit), r.arrivals);
            repeated = λ i low high. r.unanswered i low (omega (arith, count, high));
            accepted = λ id h.
                subst (λ n. IsAccepted net n id) (sym count)
                  (read-IsAccepted net last (Attempt.fetched (net last)) id refl
                    (subst (λ f. (f >>= read_track_id) ≡ ok id) r.result h));
          })
  ]
