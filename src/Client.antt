-- ===== src/Client.antt =====
-- src/infrastructure/framework/sii/sii-soap.client.ts in real mode: the uploads, and in Queries
-- the other calls, with the timeouts and the retries around them. Texts are the codes of their characters;
-- the network answers each attempt as an `Attempt` says. What the validators say is given here, and
-- is Preflight's.
pub mod Retry
pub mod Upload
pub mod Queries
use cmorflow_tax_api.Common.{
  zero, ◌==◌, ◌-◌, ◌∷◌, ◌||◌, ◌^◌, ◌>>◌, ◌+◌, ◌&&◌, not, leb, filter, all, [], ◌>>=◌, ◌++◌, ◌*◌,
  true, suc, some, ok, none, map, is_digit, if◌then◌else◌, guard, false, codes, String, ℕ, err,
  Result, Option, List, Bool,
}
use cmorflow_tax_api.Caf.{show}
use cmorflow_tax_api.Xml.{
  escape_xml, lower, is_word, after_prefix, element, includes, contains, trim, escape_xml,
}

pub record Response : Type 0 where
  pub is_ok : Bool
  pub text : List ℕ

-- What `fetch` does within the time that it has.
pub data Fetched : Type 0 where
  responded : Response → Fetched
  aborted failed : Fetched

-- One attempt: whether the POST reaches the SII, and what comes back.
pub record Attempt : Type 0 where
  pub arrives : Bool
  pub fetched : Fetched

pub data SiiError : Type 0 where
  timeout connection_error http_error no_track_id no_sender bad_rut refused_xml not_latin1 no_url
        not_ready no_seed no_token :
      SiiError

unfoldable pub fetch_with_timeout : Fetched → Result SiiError Response
fetch_with_timeout (responded r) = ok r
fetch_with_timeout aborted = err timeout
fetch_with_timeout failed = err connection_error

-- `error instanceof SiiConnectionError`
unfoldable pub is_connection_error : SiiError → Bool
is_connection_error timeout = true
is_connection_error connection_error = true
is_connection_error _ = false

-- What an exchange did: its result, the POSTs that were made, those that arrived, and the wait between
-- them in milliseconds.
pub record Fetches (A : Type 0) : Type 0 where
  pub result : Result SiiError A
  pub posts : ℕ
  pub arrivals : ℕ
  pub waited : ℕ

abbrev pub arrived : Attempt → ℕ
arrived a = if a.arrives then 1 else 0

abbrev pub one : {A : Type 0} → Attempt → Result SiiError A → Fetches A
one a r = record { result = r; posts = 1; arrivals = arrived a; waited = 0 }

-- `500 * Math.pow(2, attempt - 1)`
unfoldable pub backoff_ms : ℕ → ℕ
backoff_ms attempt = 500 * 2 ^ (attempt - 1)

abbrev pub after_failure : {A : Type 0} → ℕ → Attempt → Fetches A → Fetches A
after_failure attempt a rest = record {
  result = rest.result;
  posts = suc rest.posts;
  arrivals = arrived a + rest.arrivals;
  waited = backoff_ms attempt + rest.waited;
}

-- The loop from `attempt` on, with the rounds that are left; `net` answers the attempts by number.
unfoldable pub fetch_from : ℕ → ℕ → ℕ → (ℕ → Attempt) → Fetches Response
unfolding fetch_with_timeout is_connection_error
fetch_from max_attempts zero attempt net = record {
  result = err connection_error;
  posts = 0;
  arrivals = 0;
  waited = 0;
}
fetch_from max_attempts (suc left) attempt net = elim (fetch_with_timeout (net attempt).fetched) [
  | ok r ↦ one (net attempt) (ok r)
  | err e ↦ elim (not (is_connection_error e) || (attempt == max_attempts)) [
    | true ↦ one (net attempt) (err e)
    | false ↦ after_failure attempt (net attempt) (fetch_from max_attempts left (suc attempt) net)
  ]
]

unfoldable pub fetch_with_retry : (ℕ → Attempt) → Fetches Response
fetch_with_retry net = fetch_from 3 3 1 net

-- A step that makes no POST, and what follows it.
abbrev pub no_post : {A : Type 0} → SiiError → Fetches A
no_post e = record { result = err e; posts = 0; arrivals = 0; waited = 0 }

abbrev pub first_check : {A B : Type 0} → Result SiiError A → (A → Fetches B) → Fetches B
first_check (ok a) f = f a
first_check (err e) f = no_post e

abbrev pub then_read : {A B : Type 0} → (A → Result SiiError B) → Fetches A → Fetches B
then_read f x = record {
  result = (x.result >>= f);
  posts = x.posts;
  arrivals = x.arrivals;
  waited = x.waited;
}

-- `if (match?.[1]) return match[1].trim()` for the names in their order.
unfoldable pub extract_first : List ℕ → List (List ℕ) → Option (List ℕ)
extract_first xml [] = none
extract_first xml (name ∷ names) =
    let later = extract_first xml names in
    elim (element false name xml) [
      | none ↦ later
      | some [] ↦ later
      | some (c ∷ cs) ↦ some (trim (c ∷ cs))
    ]

-- A value that is missing or empty is falsy.
abbrev pub nonempty_or : Option (List ℕ) → Option (List ℕ) → Option (List ℕ)
nonempty_or none b = b
nonempty_or (some []) b = b
nonempty_or (some (c ∷ cs)) b = some (c ∷ cs)

abbrev pub upper : ℕ → ℕ
upper c = if leb b'a' c && leb c b'z' then c - 32 else c

pub record RutParts : Type 0 where
  pub body : List ℕ
  pub dv : ℕ

abbrev pub split_end : List ℕ → Option (List ℕ × ℕ)
split_end [] = none
split_end (c ∷ cs) = elim (split_end cs) [
  | none ↦ some ([], c)
  | some (front, last) ↦ some (c ∷ front, last)
]

abbrev pub without_dash : List ℕ → List ℕ
without_dash s = elim (split_end s) [
  | none ↦ []
  | some (front, last) ↦ if last == b'-' then front else s
]

abbrev pub is_dv : ℕ → Bool
is_dv c = is_digit c || (c == b'K')

abbrev pub is_body : List ℕ → Bool
is_body [] = false
is_body (c ∷ cs) = all is_digit (c ∷ cs)

-- `/^(\d+)-?([0-9K])$/`: the digits end at the dash, or before the last character.
abbrev pub match_rut : List ℕ → Result SiiError RutParts
match_rut s = elim (split_end s) [
  | none ↦ err bad_rut
  | some (front, last) ↦
      if is_dv last && is_body (without_dash front)
      then ok (record { body = without_dash front; dv = last })
      else err bad_rut
]

-- `replace(/\./g, '')`
abbrev pub without_dots : List ℕ → List ℕ
without_dots [] = []
without_dots (c ∷ cs) = let rest = without_dots cs in if c == b'.' then rest else c ∷ rest

unfoldable pub parse_rut : List ℕ → Result SiiError RutParts
parse_rut rut = match_rut (trim (map upper (without_dots rut)))

abbrev pub full_rut : RutParts → List ℕ
full_rut r = r.body ++ b'-' ∷ r.dv ∷ []

-- `===`, whatever the case.
abbrev pub is_text : List ℕ → List ℕ → Bool
is_text p s = elim (after_prefix p s) [ none ↦ false | some [] ↦ true | some (_ ∷ _) ↦ false ]

unfoldable pub map_sii_status : Option (List ℕ) → String
map_sii_status none = "PROCESANDO"
map_sii_status (some status) =
    if contains (codes "RECH") status || is_text (codes "RCH") status
    then "RECHAZADO"
    else if contains (codes "REPARO") status || is_text (codes "RPR") status
    then "REPARO"
    else if contains (codes "ACEP") status
        || is_text (codes "EPR") status
        || is_text (codes "OK") status
    then "ACEPTADO"
    else "PROCESANDO"

abbrev pub track_id_names : List (List ℕ)
track_id_names = codes "TRACKID" ∷ codes "trackid" ∷ codes "TrackId" ∷ codes "TRACK_ID" ∷ []

abbrev pub some_track_id : Option (List ℕ) → Result SiiError (List ℕ)
some_track_id none = err no_track_id
some_track_id (some []) = err no_track_id
some_track_id (some (c ∷ cs)) = ok (c ∷ cs)

unfoldable pub read_track_id : Response → Result SiiError (List ℕ)
read_track_id response =
    guard response.is_ok http_error >> some_track_id (extract_first response.text track_id_names)

-- The configured sender, the URL of the RCOF where there is one, and what the validators and the check
-- of ISO-8859-1 say of an envelope.
pub record Settings : Type 0 where
  pub sender_rut : Option (List ℕ)
  pub rcof_url : Bool
  pub is_ready : Bool  -- `assertRealModeReady` returns
  pub is_valid_dte : List ℕ → Bool
  pub is_valid_boleta : List ℕ → Bool
  pub is_valid_rcof : List ℕ → Bool

abbrev pub is_boleta_envelope : List ℕ → Bool
is_boleta_envelope xml = includes (codes "<EnvioBOLETA") xml

abbrev pub or_bad_sender : Option (List ℕ) → Result SiiError (List ℕ)
or_bad_sender none = err no_sender
or_bad_sender (some []) = err no_sender
or_bad_sender (some (c ∷ cs)) = ok (c ∷ cs)

abbrev pub text_or : Option (List ℕ) → List ℕ → List ℕ
text_or none d = d
text_or (some []) d = d
text_or (some (c ∷ cs)) d = c ∷ cs

-- `Iso88591Encoder.encode`
unfoldable pub encode : List ℕ → Result SiiError (List ℕ)
encode xml = if all (λ c. leb c 255) xml then ok xml else err not_latin1

-- The form that is posted: the fields and the file.
pub record Form : Type 0 where
  pub sender : RutParts
  pub company : RutParts
  pub file : List ℕ

unfoldable pub dte_form : Settings → List ℕ → List ℕ → Result SiiError Form
unfolding parse_rut encode extract_first
dte_form settings normalized xml =
    or_bad_sender (nonempty_or (extract_first xml (codes "RutEnvia" ∷ [])) settings.sender_rut)
    >>= λ value. parse_rut value >>= λ sender.
        parse_rut (text_or (extract_first xml (codes "RUTEmisor" ∷ [])) (full_rut sender))
        >>= λ company.
            guard
              (if is_boleta_envelope xml
                then settings.is_valid_boleta normalized
                else settings.is_valid_dte normalized)
              refused_xml
            >> (encode normalized >>= λ file.
                ok (record { sender = sender; company = company; file = file }))

-- `uploadRealDte`; `normalized` is the envelope with the declaration that `normalizeXmlDeclaration` puts.
unfoldable pub upload_real_dte : Settings → (ℕ → Attempt) → List ℕ → List ℕ → Fetches (List ℕ)
unfolding fetch_with_retry read_track_id dte_form
upload_real_dte settings net normalized xml =
    first_check (dte_form settings normalized xml)
      (λ form. then_read read_track_id (fetch_with_retry net))

unfoldable pub rcof_form : Settings → List ℕ → List ℕ → Result SiiError Form
unfolding parse_rut encode extract_first
rcof_form settings normalized xml =
    guard settings.rcof_url no_url
    >> (guard (settings.is_valid_rcof xml) refused_xml
        >> (parse_rut
              (text_or (extract_first xml (codes "RutEnvia" ∷ [])) (text_or settings.sender_rut []))
            >>= λ sender.
                parse_rut (text_or (extract_first xml (codes "RutEmisor" ∷ [])) (full_rut sender))
                >>= λ company. encode normalized >>= λ file.
                    ok (record { sender = sender; company = company; file = file })))

unfoldable pub upload_real_rcof : Settings → (ℕ → Attempt) → List ℕ → List ℕ → Fetches (List ℕ)
unfolding fetch_with_retry read_track_id rcof_form
upload_real_rcof settings net normalized xml =
    first_check (rcof_form settings normalized xml)
      (λ form. then_read read_track_id (fetch_with_retry net))
