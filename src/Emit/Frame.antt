-- ===== src/Emit/Frame.antt =====
-- What `prepare` and `transmit` of the emission leave alone: the request's row, and, but for the one
-- envelope of `transmit`, what the SII received.
use cmorflow_tax_api.Common.{
  ap, [], err, ok, none, ◌⊎◌, ◌∷◌, String, not, ◌&&◌, Option-cases, Bool-cases, inr, some, inl, ◌≡◌,
  Result-cases, Option, ℕ, List,
}
use cmorflow_tax_api.Emit.{
  attempt, reserve_folio, decrypted_caf_for_folio, create_document, prepare, get_document,
  update_document, record_submission, send_dte_envelope, answered, after_reply, transmit_found,
  transmit, requires_special_auth, can_issue, gate, back_to_draft,
}
use cmorflow_tax_api.Folio.{reserve_folio_atomic, covering_caf}
use cmorflow_tax_api.Worker.{World, Document, Outcome, continue, tick, M}
use cmorflow_tax_api.Worker.Rules.{
  Ensures, bind_rule, keep_rule, weaken, tick_rule, attempt_rule, AfterTry,
}
use cmorflow_tax_api.Request.{Request, DteStatus}

-- The row is `r` and the SII has received `sends`.
pub record IsKept (r : Request) (sends : List ℕ) (w : World) : Type 0 where
  pub row : w.db.row ≡ r
  pub sent : w.sends ≡ sends

module _ (r : Request) (sends : List ℕ) where
  abbrev Keeps : {A : Type 0} → Outcome A × World → Type 0
  Keeps x = Ensures (IsKept r sends) (λ _ w. IsKept r sends w) x

  pub tick-Keeps : (w : World) → IsKept r sends w → Keeps (tick w)
  tick-Keeps w h = tick_rule (IsKept r sends) (λ w fs h. record { row = h.row; sent = h.sent }) w h

  reserve_folio-Keeps : (type : ℕ) (w : World) → IsKept r sends w → Keeps (reserve_folio type w)
  unfolding reserve_folio
  reserve_folio-Keeps type w h = keep_rule (IsKept r sends) (tick w) _ (tick-Keeps w h) λ _ w' h'.
      elim (Result-cases (reserve_folio_atomic type w'.db.config)) [
        | inl (x, e) ↦ rw e (record { row = h'.row; sent = h'.sent })
        | inr (x, e) ↦ rw e h'
      ]

  decrypted_caf_for_folio-Keeps :
      (type folio : ℕ) (w : World) → IsKept r sends w → Keeps (decrypted_caf_for_folio type folio w)
  unfolding decrypted_caf_for_folio
  decrypted_caf_for_folio-Keeps type folio w h =
      keep_rule (IsKept r sends) (tick w) _ (tick-Keeps w h) λ _ w' h'.
        elim (Option-cases w'.db.config) [
          | inl e ↦ rw e h'
          | inr (c, e) ↦ rw e (elim (Result-cases (covering_caf type folio c.cafs)) [
            | inl (x, found) ↦ rw found h'
            | inr (x, missing) ↦ rw missing h'
          ])
        ]

  create_document-Keeps :
      (type folio : ℕ) (w : World) → IsKept r sends w → Keeps (create_document type folio w)
  unfolding create_document
  create_document-Keeps type folio w h =
      keep_rule (IsKept r sends) (tick w) _ (tick-Keeps w h)
        λ _ w' h'. record { row = h'.row; sent = h'.sent }

  gate-Keeps : (type : ℕ) (w : World) → IsKept r sends w → Keeps (gate type w)
  gate-Keeps type w h =
      elim (Bool-cases (requires_special_auth type && not (can_issue w.db.config))) [
        | inl e ↦ rw e h
        | inr e ↦ rw e h
      ]

  -- `prepare` touches neither the row nor the SII, whatever it returns or throws.
  pub prepare-Keeps : (type : ℕ) (w : World) → IsKept r sends w → Keeps (prepare type w)
  unfolding prepare
  prepare-Keeps type w h = keep_rule P (tick w) _ (tick-Keeps w h) λ _ w1 h1.
      keep_rule P (gate type w1) _ (gate-Keeps type w1 h1) λ _ w2 h2.
        keep_rule P (reserve_folio type w2) _ (reserve_folio-Keeps type w2 h2) λ folio w3 h3.
          keep_rule P (decrypted_caf_for_folio type folio w3) _
            (decrypted_caf_for_folio-Keeps type folio w3 h3)
            λ _ w4 h4. keep_rule P (tick w4) _ (tick-Keeps w4 h4) λ _ w5 h5.
              keep_rule P (tick w5) _ (tick-Keeps w5 h5)
                λ _ w6 h6. create_document-Keeps type folio w6 h6
    where
      P : World → Type 0
      P = IsKept r sends

  pub get_document-Keeps : (id : ℕ) (w : World) → IsKept r sends w → Keeps (get_document id w)
  unfolding get_document
  get_document-Keeps id w h = keep_rule (IsKept r sends) (tick w) _ (tick-Keeps w h) λ _ w' h'. h'

  update_document-Keeps :
      (d : Document) (w : World) → IsKept r sends w → Keeps (update_document d w)
  unfolding update_document
  update_document-Keeps d w h =
      keep_rule (IsKept r sends) (tick w) _ (tick-Keeps w h)
        λ _ w' h'. record { row = h'.row; sent = h'.sent }

  record_submission-Keeps :
      (d : Document) (w : World) → IsKept r sends w → Keeps (record_submission d w)
  unfolding record_submission
  record_submission-Keeps d w h =
      keep_rule P (update_document d w) _ (update_document-Keeps d w h)
        λ _ w1 h1. keep_rule P (tick w1) _ (tick-Keeps w1 h1) λ _ w2 h2. tick-Keeps w2 h2
    where
      P : World → Type 0
      P = IsKept r sends

  back_to_draft-Keeps : (d : Document) (w : World) → IsKept r sends w → Keeps (back_to_draft d w)
  back_to_draft-Keeps d w h =
      keep_rule (IsKept r sends) (update_document (record d { status = DteStatus.borrador }) w) _
        (update_document-Keeps (record d { status = DteStatus.borrador }) w h) λ _ w' h'. h'

-- The row is `r`, and the SII has received at most the document `id` on top of `sends`.
pub record IsSentOnce (r : Request) (sends : List ℕ) (id : ℕ) (w : World) : Type 0 where
  pub row : w.db.row ≡ r
  pub sent : (w.sends ≡ sends) ⊎ (w.sends ≡ id ∷ sends)

module _ (r : Request) (sends : List ℕ) (id : ℕ) where
  abbrev Sends : {A : Type 0} → Outcome A × World → Type 0
  Sends x = Ensures (IsSentOnce r sends id) (λ _ w. IsSentOnce r sends id w) x

  before : {w : World} → IsKept r sends w → IsSentOnce r sends id w
  before h = record { row = h.row; sent = inl h.sent }

  after : {w : World} → IsKept r (id ∷ sends) w → IsSentOnce r sends id w
  after h = record { row = h.row; sent = inr h.sent }

  -- A first part that sends nothing.
  quiet :
      {A B : Type 0} (x : Outcome A × World) (f : A → M B)
      → Keeps r sends x
      → ((a : A) (w : World) → IsKept r sends w → Sends (f a w))
      → Sends (continue x f)
  quiet x f h k =
      bind_rule (IsSentOnce r sends id) (λ _ w. IsKept r sends w) (λ _ w. IsSentOnce r sends id w) x
        f
        (weaken (IsKept r sends) (IsSentOnce r sends id) (λ _ w. IsKept r sends w)
          (λ _ w. IsKept r sends w) x (λ w. before) (λ _ w q. q) h)
        k

  -- What follows the envelope sends nothing more.
  settled : {A : Type 0} (x : Outcome A × World) → Keeps r (id ∷ sends) x → Sends x
  settled x h =
      weaken (IsKept r (id ∷ sends)) (IsSentOnce r sends id) (λ _ w. IsKept r (id ∷ sends) w)
        (λ _ w. IsSentOnce r sends id w) x (λ w. after) (λ _ w. after) h

  after_reply-Keeps :
      (doc : Document) (reply : Option String) (w : World)
      → IsKept r (id ∷ sends) w
      → Keeps r (id ∷ sends) (after_reply doc reply w)
  unfolding after_reply
  after_reply-Keeps doc none w h = back_to_draft-Keeps r (id ∷ sends) doc w h
  after_reply-Keeps doc (some t) w h =
      bind_rule P (λ x w'. AfterTry P (λ _ w''. P w'') x w') (λ _ w'. P w')
        (attempt (record_submission sent) w) _
        (attempt_rule P (λ _ w'. P w') (record_submission sent) w
          (record_submission-Keeps r (id ∷ sends) sent w h))
        (elim [
          | ok _ ↦ λ w' h'. h'
          | err message ↦ λ w' h'. back_to_draft-Keeps r (id ∷ sends) sent w' h'
        ])
    where
      P : World → Type 0
      P = IsKept r (id ∷ sends)

      sent : Document
      sent = record doc { status = DteStatus.enviado; track_id = some t }

  send_dte_envelope-Keeps :
      (w : World) → IsKept r sends w → Keeps r (id ∷ sends) (send_dte_envelope id w)
  unfolding send_dte_envelope
  send_dte_envelope-Keeps w h = elim w.replies as (λ rs. Keeps r (id ∷ sends) (answered id rs w)) [
    | [] ↦ record { row = h.row; sent = ap (λ l. id ∷ l) h.sent }
    | a ∷ rs ↦ record { row = h.row; sent = ap (λ l. id ∷ l) h.sent }
  ]

  sends_once :
      (found : Option Document) (w : World) → IsKept r sends w → Sends (transmit_found id found w)
  unfolding transmit_found
  sends_once none w h = before h
  sends_once (some doc) w h = quiet (tick w) _ (tick-Keeps r sends w h) λ _ w1 h1.
      quiet (tick w1) _ (tick-Keeps r sends w1 h1) λ _ w2 h2.
        settled (continue (send_dte_envelope id w2) (after_reply doc)) (
          keep_rule (IsKept r (id ∷ sends)) (send_dte_envelope id w2) _
            (send_dte_envelope-Keeps w2 h2) λ reply w3 h3. after_reply-Keeps doc reply w3 h3)

  -- `transmit` sends at most the envelope of its document, and leaves the row alone.
  pub transmit-Sends : (w : World) → IsKept r sends w → Sends (transmit id w)
  unfolding transmit
  transmit-Sends w h =
      quiet (get_document id w) _ (get_document-Keeps r sends id w h)
        λ found w1 h1. sends_once found w1 h1
