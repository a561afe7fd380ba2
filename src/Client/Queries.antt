-- ===== src/Client/Queries.antt =====
-- The other calls of sii-soap.client.ts in real mode: the seed, the token and the status of a track id or
-- of a document; and the status that the simulation answers.
use cmorflow_tax_api.Common.{
  ◌==◌, ◌∷◌, ◌||◌, ◌>>◌, [], ◌>>=◌, ◌++◌, some, ok, none, if◌then◌else◌, guard, codes, String, ℕ,
  err, Result, Option, List,
}
use cmorflow_tax_api.Caf.{show}
use cmorflow_tax_api.Xml.{escape_xml, escape_xml}
use cmorflow_tax_api.Client.{
  Attempt, Fetches, Response, RutParts, Settings, SiiError, encode, extract_first, fetch_with_retry,
  first_check, map_sii_status, parse_rut, split_end, text_or, then_read, http_error, not_ready,
  no_seed, no_token,
}

unfoldable pub read_body : Response → Result SiiError (List ℕ)
read_body response = guard response.is_ok http_error >> ok response.text

abbrev pub soap_envelope : List ℕ → List ℕ
soap_envelope body =
    codes "<?xml version=\"1.0\" encoding=\"ISO-8859-1\"?>"
    ++ (codes "<soapenv:Envelope xmlns:soapenv=\"http://schemas.xmlsoap.org/soap/envelope/\">"
        ++ (codes "<soapenv:Body>" ++ (body ++ codes "</soapenv:Body></soapenv:Envelope>")))

-- The bodies carry the declaration that `normalizeXmlDeclaration` would put.
unfoldable pub post_soap : (ℕ → Attempt) → List ℕ → Fetches (List ℕ)
unfolding fetch_with_retry read_body encode
post_soap net body = first_check (encode body) (λ bytes. then_read read_body (fetch_with_retry net))

abbrev pub present_or : SiiError → Option (List ℕ) → Result SiiError (List ℕ)
present_or e none = err e
present_or e (some []) = err e
present_or e (some (c ∷ cs)) = ok (c ∷ cs)

-- `getRealSeed`
unfoldable pub get_real_seed : Settings → (ℕ → Attempt) → Fetches (List ℕ)
unfolding post_soap extract_first
get_real_seed settings net = first_check (guard settings.is_ready not_ready) (λ ready.
    then_read
      (λ text. present_or no_seed (extract_first text (codes "SEMILLA" ∷ codes "semilla" ∷ [])))
      (post_soap net (soap_envelope (codes "<getSeed/>"))))

-- `getRealToken`
unfoldable pub get_real_token : Settings → (ℕ → Attempt) → List ℕ → Fetches (List ℕ)
unfolding post_soap extract_first escape_xml
get_real_token settings net signed_seed_xml =
    first_check (guard settings.is_ready not_ready) (λ ready.
      then_read
        (λ text. present_or no_token (extract_first text (codes "TOKEN" ∷ codes "token" ∷ [])))
        (post_soap net (
          soap_envelope (
            codes "<getToken><pszXml>"
            ++ (escape_xml signed_seed_xml ++ codes "</pszXml></getToken>")))))

abbrev pub status_names : List (List ℕ)
status_names = codes "ESTADO" ∷ codes "STATUS" ∷ codes "estado" ∷ codes "status" ∷ []

abbrev pub get_est_up : RutParts → List ℕ → List ℕ → List ℕ
get_est_up sender track_id token =
    codes "<getEstUp><RutCompania>"
    ++ (sender.body
        ++ (codes "</RutCompania><DvCompania>"
            ++ (sender.dv
                ∷ (codes "</DvCompania><TrackId>"
                    ++ (track_id
                        ++ (codes "</TrackId><Token>"
                            ++ (token ++ codes "</Token></getEstUp>")))))))

unfoldable pub read_status : List ℕ → Result SiiError String
unfolding map_sii_status extract_first
read_status text = ok (map_sii_status (extract_first text status_names))

-- `queryRealTrackStatus`: the sender of the configuration asks.
unfoldable pub query_real_track_status : Settings → (ℕ → Attempt) → List ℕ → List ℕ → Fetches String
unfolding post_soap read_status parse_rut
query_real_track_status settings net track_id token =
    first_check (guard settings.is_ready not_ready >> parse_rut (text_or settings.sender_rut []))
      (λ sender.
        then_read read_status (post_soap net (soap_envelope (get_est_up sender track_id token))))

-- A document, as the advanced query names it.
pub record DteKey : Type 0 where
  pub issuer_rut : List ℕ
  pub receiver_rut : List ℕ
  pub type : ℕ
  pub folio : ℕ
  pub issue_date : List ℕ
  pub total_amount : ℕ

abbrev pub get_est_dte_av : RutParts → RutParts → DteKey → List ℕ → List ℕ
get_est_dte_av issuer receiver key token =
    codes "<getEstDteAv><Token>"
    ++ (token
        ++ (codes "</Token><RutCompania>"
            ++ (issuer.body
                ++ (codes "</RutCompania><DvCompania>"
                    ++ (issuer.dv
                        ∷ (codes "</DvCompania><RutReceptor>"
                            ++ (receiver.body
                                ++ (codes "</RutReceptor><DvReceptor>"
                                    ++ (receiver.dv
                                        ∷ (codes "</DvReceptor><TipoDte>"
                                            ++ (show key.type
                                                ++ (codes "</TipoDte><FolioDte>"
                                                    ++ (show key.folio
                                                        ++ (codes "</FolioDte><FechaEmisionDte>"
                                                            ++ (key.issue_date
                                                            ++ (codes "</FechaEmisionDte><MontoDte>"
                                                            ++ (show key.total_amount
                                                            ++ codes
                                                            "</MontoDte></getEstDteAv>")))))))))))))))))

abbrev pub both_ruts : Settings → DteKey → Result SiiError (RutParts × RutParts)
both_ruts settings key =
    guard settings.is_ready not_ready
    >> (parse_rut key.issuer_rut >>= λ issuer.
        parse_rut key.receiver_rut >>= λ receiver. ok (issuer, receiver))

-- `queryRealDteAdvancedStatus`
unfoldable pub query_real_dte_advanced_status :
    Settings → (ℕ → Attempt) → DteKey → List ℕ → Fetches String
unfolding post_soap read_status parse_rut
query_real_dte_advanced_status settings net key token =
    first_check (both_ruts settings key) (λ ruts.
      then_read read_status
        (post_soap net (soap_envelope (get_est_dte_av (ruts.0) (ruts.1) key token))))

-- `queryTrackStatus` outside real mode: by the last character of the track id.
unfoldable pub mock_track_status : List ℕ → String
mock_track_status track_id = elim (split_end track_id) [
  | none ↦ "ACEPTADO"
  | some (front, last) ↦
      if last == b'9'
      then "RECHAZADO"
      else if (last == b'8') || (last == b'7')
      then "REPARO"
      else if last == b'0'
      then "PROCESANDO"
      else "ACEPTADO"
]
