-- ===== src/Emit.antt =====
-- src/application/dte/emit-dte.use-case.ts: `prepare` and `transmit`, as far as they touch the
-- configuration, the documents and the SII. The tenant, the tax profile, the certificate, the XML and
-- its signature come from code that only reads; each such step is one action that may throw. The audit
-- row and the submission row are actions with no result of interest here.
use cmorflow_tax_api.Common.{
  [], ◌∷◌, ◌++◌, not, ◌==◌, ◌&&◌, none, false, ok, map, length, if◌then◌else◌, find, err, Bool, ℕ,
  some, String, Result, Option, List,
}
pub mod Frame
use cmorflow_tax_api.Folio.{
  CafData, TenantConfig, FolioError, no_config, no_cafs, no_caf_for_type, exhausted,
  overlapping_range, no_covering_caf, reserve_folio_atomic, covering_caf,
}
use cmorflow_tax_api.Request.{DteStatus}
use cmorflow_tax_api.Worker.{
  World, Database, Document, M, ◌>>=◌, ◌>>◌, return, throw, tick, attempt,
}

-- The messages of the folio errors, without the numbers put into them.
unfoldable pub folio_message : FolioError → String
folio_message no_config =
    "No hay configuración disponible para el tenant. Debe cargar al menos un CAF."
folio_message no_cafs = "No hay archivos CAF cargados para el tenant."
folio_message no_caf_for_type = "No se encontró un archivo CAF para el tipo DTE."
folio_message exhausted =
    "Todos los folios de los CAFs autorizados para el tipo DTE están agotados."
folio_message overlapping_range = "El rango CAF se superpone con otro CAF cargado."
folio_message no_covering_caf = "No existe un CAF activo para DTE que cubra el folio."

-- src/infrastructure/framework/sii/dte-domain-rules.ts
unfoldable pub requires_special_auth : ℕ → Bool
requires_special_auth type = type == 46

abbrev pub can_issue : Option TenantConfig → Bool
can_issue none = false
can_issue (some config) = config.can_issue_t46

abbrev pub or_throw : {A : Type 0} → Result FolioError A → M A
or_throw (ok a) = return a
or_throw (err e) = throw (folio_message e)

abbrev pub set_config : TenantConfig → World → World
set_config config w = record w { db = record w.db { config = some config } }

-- `reserveFolioAtomic`, as an action of the open transaction.
unfoldable pub reserve_folio : ℕ → M ℕ
reserve_folio type = do
  tick
  λ w. elim (reserve_folio_atomic type w.db.config) [
    | err e ↦ throw (folio_message e) w
    | ok reserved ↦ return reserved.0 (set_config reserved.1 w)
  ]

-- The CAF that signs the folio, over the configuration as this transaction has left it.
unfoldable pub decrypted_caf_for_folio : ℕ → ℕ → M CafData
decrypted_caf_for_folio type folio = do
  tick
  λ w. elim w.db.config [
    | none ↦ throw (folio_message no_covering_caf) w
    | some config ↦ or_throw (covering_caf type folio config.cafs) w
  ]

-- `dteDocument.create`; the new id is the number of documents before it.
unfoldable pub create_document : ℕ → ℕ → M Document
create_document type folio = do
  tick
  λ w.
      let doc : Document = record {
        id = length w.db.documents;
        type = type;
        folio = folio;
        status = DteStatus.firmado;
        track_id = none;
      } in
      return doc (record w { db = record w.db { documents = w.db.documents ++ doc ∷ [] } })

abbrev pub gate : ℕ → M (Unit {0})
gate type w =
    if requires_special_auth type && not (can_issue w.db.config)
    then throw "Factura de Compra Electrónica (T46) requiere autorización especial del SII." w
    else return tt w

unfoldable pub prepare : ℕ → M Document
prepare type = do
  tick  -- tenant and tax profile
  gate type
  folio ← reserve_folio type
  caf ← decrypted_caf_for_folio type folio
  tick  -- digital signature, XML, XMLDSig
  tick  -- brand profile
  create_document type folio

abbrev pub document_with : ℕ → List Document → Option Document
document_with id docs = find (λ d. d.id == id) docs

unfoldable pub get_document : ℕ → M (Option Document)
get_document id = do tick; λ w. return (document_with id w.db.documents) w

abbrev pub replaced : Document → List Document → List Document
replaced doc docs = map (λ d. if Document.id d == doc.id then doc else d) docs

unfoldable pub update_document : Document → M (Unit {0})
update_document doc = do
  tick
  λ w. return tt (record w { db = record w.db { documents = replaced doc w.db.documents } })

-- The upload of the envelope (sendDteEnvelope, with the attempts of its client) starts, and its answer
-- comes back or not.
abbrev pub answered : ℕ → List (Option String) → M (Option String)
answered id [] w = return none (record w { sends = id ∷ w.sends })
answered id (r ∷ rs) w = return r (record w { sends = id ∷ w.sends; replies = rs })

unfoldable pub send_dte_envelope : ℕ → M (Option String)
send_dte_envelope id w = answered id w.replies w

-- `savedDte` after the answer, as the three writes of `forkJoin` save it.
unfoldable pub record_submission : Document → M (Unit {0})
unfolding update_document
record_submission sent = do
  update_document sent
  tick  -- siiSubmission.create
  tick  -- auditLog.create

abbrev pub back_to_draft : Document → M (Option String)
back_to_draft doc = do
  update_document (record doc { status = DteStatus.borrador })
  throw "Rechazo del SII"

-- What follows the SII's answer: `switchMap` on a TrackID, `catchError` on an error.
unfoldable pub after_reply : Document → Option String → M (Option String)
after_reply doc none = back_to_draft doc
after_reply doc (some track_id) =
    let sent : Document = record doc { status = DteStatus.enviado; track_id = some track_id } in
    do
      saved ← attempt (record_submission sent)
      elim saved [ ok _ ↦ return (some track_id) | err message ↦ back_to_draft sent ]

-- The rest of `transmit`, once the document was looked up.
unfoldable pub transmit_found : ℕ → Option Document → M (Option String)
transmit_found id none = throw "DTE no encontrado."
transmit_found id (some doc) = do
  tick  -- tenant, profile, signature, envelope
  tick  -- token
  reply ← send_dte_envelope id
  after_reply doc reply

unfoldable pub transmit : ℕ → M (Option String)
transmit id = do found ← get_document id; transmit_found id found
