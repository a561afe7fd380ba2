-- ===== src/Processor/Fence.antt =====
-- The fence of `transmissionStartedAt`: a request's document is uploaded at most once.
pub mod Marking
pub mod Linking
pub mod Serving
use cmorflow_tax_api.Emit.{get_document, transmit as emit_transmit}
use cmorflow_tax_api.Common.{
  Bool-cases, List, refl, ap, inr, ◌∙◌, sym, ◌≢◌, inl, some, err, Result, Option, ◌≤◌, length,
  arith, ◌⊎◌, [], ok, none, ◌≡◌, ℕ, String,
}
use cmorflow_tax_api.Worker.{
  attempt, transaction, Document, World, Outcome, continue, tick, M, returned, threw, died,
}
use cmorflow_tax_api.Processor.{
  report, transmit_marked, transmit_from, consolidate, recover, finalize, finalize_found, link,
  prepared_document, or_missing, after_first_pass, process_from, claimed, begin, return,
  transaction, saved, store_of, apply, retry_later, resolved, get_request, update_request,
  handle_processing_error, quarantine_transmission, mark_attempt, mark_fence, transmit,
  transmit_or_finalize, prepare_and_link, first_pass, process, Shift, serve, serve_all,
}
use cmorflow_tax_api.Emit.Frame.{
  tick-Keeps, IsKept, IsSentOnce, prepare-Keeps, get_document-Keeps, transmit-Sends,
}
use cmorflow_tax_api.Request.{
  State, processing, submitted, state_eq, map_dte_status_to_public, Request, RequestError, Store,
  ErrorCode, moved, apply_state, schedule_retry, persist_state,
}
use cmorflow_tax_api.Worker.Rules.{
  Ensures, bind_rule, keep_rule, weaken, tick_rule, attempt_rule, transaction_rule, AfterTry,
}

-- An envelope was sent only behind the fence, and never two.
pub record IsFenced (w : World) : Type 0 where
  pub behind : w.db.row.transmission_started_at ≡ none → w.sends ≡ []
  pub once : length w.sends ≤ 1

-- A request in memory without the fence was read before any envelope was sent.
abbrev pub Fits : Request → World → Type 0
Fits fresh w = fresh.transmission_started_at ≡ none → w.sends ≡ []

abbrev Safe : {A : Type 0} → Outcome A × World → Type 0
Safe x = Ensures IsFenced (λ _ w. IsFenced w) x

-- What a state change or a retry saves is the request in memory, fence included.
apply_state-fence :
    (now : ℕ) (r : Request) (s : State) (detail : String) (store : Store)
    → (x : Request × Store) → apply_state now r s detail store ≡ ok x
    → (x.0.transmission_started_at ≡ r.transmission_started_at)
      × ((x.1.row.transmission_started_at ≡ r.transmission_started_at) ⊎ (x.1.row ≡ store.row))
unfolding apply_state persist_state moved
apply_state-fence now r s detail store x e = ground arith

schedule_retry-fence :
    (now : ℕ) (r : Request) (error : RequestError) (store : Store)
    → (x : Request × Store) → schedule_retry now r error store ≡ ok x
    → (x.0.transmission_started_at ≡ r.transmission_started_at)
      × ((x.1.row.transmission_started_at ≡ r.transmission_started_at) ⊎ (x.1.row ≡ store.row))
unfolding schedule_retry apply_state persist_state moved
schedule_retry-fence now r error store x e = ground arith

-- The world stays fenced, and what the computation returns fits it.
abbrev pub Fences : Outcome Request × World → Type 0
Fences x = Ensures IsFenced (λ r w. IsFenced w × Fits r w) x

saved-Fences :
    (r : Request) (result : Result ErrorCode (Request × Store)) (w : World)
    → IsFenced w
    → Fits r w
    → ((x : Request × Store)
        → result ≡ ok x
        → (x.0.transmission_started_at ≡ r.transmission_started_at)
          × ((x.1.row.transmission_started_at ≡ r.transmission_started_at) ⊎ (x.1.row ≡ w.db.row)))
    → Fences (saved result w)
saved-Fences r (err e) w h fits same = h
saved-Fences r (ok (x, store)) w h fits same =
    let (mine, rows) = same (x, store) refl in
    (
      record {
        behind = λ none_yet. elim rows [
          | inl e ↦ fits (sym e ∙ none_yet)
          | inr e ↦ h.behind (ap (λ row. Request.transmission_started_at row) (sym e) ∙ none_yet)
        ];
        once = h.once;
      },
      λ none_yet. fits (sym mine ∙ none_yet),
    )

-- One fault, seen by a predicate that the faults do not touch.
tick-Fenced :
    (r : Request) (w : World)
    → IsFenced w
    → Fits r w
    → Ensures IsFenced (λ _ w'. IsFenced w' × Fits r w') (tick w)
tick-Fenced r w h fits =
    weaken (λ w. IsFenced w × Fits r w) IsFenced _ _ (tick w) (λ _ p. p.0) (λ _ _ p. p)
      (tick_rule (λ w. IsFenced w × Fits r w)
        (λ w fs p. (record { behind = p.0.behind; once = p.0.once }, p.1)) w (h, fits))

pub apply-Fences :
    (r : Request) (s : State) (detail : String) (w : World)
    → IsFenced w
    → Fits r w
    → Fences (apply r s detail w)
unfolding apply
apply-Fences r s detail w h fits =
    bind_rule IsFenced (λ _ w'. IsFenced w' × Fits r w') (λ x w'. IsFenced w' × Fits x w') (tick w)
      _ (tick-Fenced r w h fits)
      λ _ w1 p. saved-Fences r _ w1 p.0 p.1 (apply_state-fence w1.clock r s detail (store_of w1))

pub retry_later-Fences :
    (r : Request) (error : RequestError) (w : World)
    → IsFenced w
    → Fits r w
    → Fences (retry_later r error w)
unfolding retry_later
retry_later-Fences r error w h fits =
    bind_rule IsFenced (λ _ w'. IsFenced w' × Fits r w') (λ x w'. IsFenced w' × Fits x w') (tick w)
      _ (tick-Fenced r w h fits)
      λ _ w1 p. saved-Fences r _ w1 p.0 p.1 (schedule_retry-fence w1.clock r error (store_of w1))

pub handle_processing_error-Fences :
    (r : Request) (message : String) (w : World)
    → IsFenced w
    → Fits r w
    → Fences (handle_processing_error r message w)
unfolding handle_processing_error
handle_processing_error-Fences r message w h fits = retry_later-Fences r _ w h fits

pub quarantine_transmission-Fences :
    (r : Request) (w : World) → IsFenced w → Fits r w → Fences (quarantine_transmission r w)
unfolding quarantine_transmission
quarantine_transmission-Fences r w h fits = apply-Fences _ _ _ w h fits

-- A part that keeps the row and the sends keeps the fence.
pub kept-IsFenced :
    (fresh : Request) (w w' : World)
    → IsFenced w
    → Fits fresh w
    → IsKept w.db.row w.sends w'
    → IsFenced w' × Fits fresh w'
kept-IsFenced fresh w w' h fits k = (
  record {
    behind = λ none_yet.
        k.sent ∙ h.behind (ap (λ r. Request.transmission_started_at r) (sym k.row) ∙ none_yet);
    once = rw k.sent h.once;
  },
  λ none_yet. k.sent ∙ fits none_yet,
)

pub kept-Fenced :
    {A : Type 0} (fresh : Request) (w : World) (x : Outcome A × World)
    → IsFenced w
    → Fits fresh w
    → Ensures (IsKept w.db.row w.sends) (λ _ w'. IsKept w.db.row w.sends w') x
    → Ensures IsFenced (λ _ w'. IsFenced w' × Fits fresh w') x
kept-Fenced fresh w x h fits kept =
    weaken (IsKept w.db.row w.sends) IsFenced _ _ x (λ w' k. (kept-IsFenced fresh w w' h fits k).0)
      (λ _ w' k. kept-IsFenced fresh w w' h fits k) kept
