-- ===== src/Processor/Fence/Linking.antt =====
-- The fence through `prepareAndLink` and `transmitOrFinalize`.
use cmorflow_tax_api.Common.{
  Bool-cases, List, refl, ap, inr, ◌∙◌, sym, inl, some, Option, none, ◌≡◌, ℕ, String,
}
use cmorflow_tax_api.Emit.{get_document, prepare}
use cmorflow_tax_api.Worker.{transaction, Document, World, Outcome, continue, tick, M}
use cmorflow_tax_api.Processor.{
  consolidate, recover, finalize, finalize_found, link, prepared_document, or_missing, transaction,
  resolved, get_request, update_request, transmit_or_finalize, prepare_and_link, first_pass,
}
use cmorflow_tax_api.Emit.Frame.{tick-Keeps, IsKept, prepare-Keeps, get_document-Keeps}
use cmorflow_tax_api.Request.{
  State, processing, submitted, state_eq, map_dte_status_to_public, Request,
}
use cmorflow_tax_api.Worker.Rules.{Ensures, bind_rule, weaken, transaction_rule}
use cmorflow_tax_api.Processor.Fence.{
  IsFenced, Fits, Fences, apply-Fences, handle_processing_error-Fences, kept-IsFenced, kept-Fenced,
}
use cmorflow_tax_api.Processor.Fence.Marking.{
  transmit-Fences, get_request-Keeps, update_request-Updates,
}

consolidate-Fences :
    (fresh : Request) (s : State) (w : World)
    → IsFenced w
    → Fits fresh w
    → Fences (consolidate fresh s w)
unfolding consolidate
consolidate-Fences fresh s w h fits = elim (Bool-cases (state_eq fresh.state processing)) [
  | inl e ↦
      rw (e, consolidate)
        (bind_rule IsFenced (λ x w'. IsFenced w' × Fits x w') (λ x w'. IsFenced w' × Fits x w') _ _
          (apply-Fences fresh submitted _ w h fits) λ x w1 q. apply-Fences x s _ w1 q.0 q.1)
  | inr e ↦ rw (e, consolidate) (apply-Fences fresh s _ w h fits)
]

pub transmit_or_finalize-Fences :
    (fresh : Request) (id : ℕ) (w : World)
    → IsFenced w
    → Fits fresh w
    → Fences (transmit_or_finalize fresh id w)
unfolding transmit_or_finalize finalize_found finalize recover
transmit_or_finalize-Fences fresh id w h fits =
    bind_rule IsFenced (λ _ w'. IsFenced w' × Fits fresh w') (λ x w'. IsFenced w' × Fits x w')
      (get_document id w) _
      (kept-Fenced fresh w (get_document id w) h fits
        (get_document-Keeps w.db.row w.sends id w (record { row = refl; sent = refl })))
      λ found w1 q. go found w1 q.0 q.1
  where
    recovered :
        (dte : Document) (track : Option String) (w1 : World)
        → IsFenced w1
        → Fits fresh w1
        → Fences (recover fresh dte.id track w1)
    recovered dte none w1 h1 f1 = transmit-Fences fresh dte.id w1 h1 f1
    recovered dte (some t) w1 h1 f1 = apply-Fences fresh submitted _ w1 h1 f1

    ended :
        (dte : Document) (state : Option State) (w1 : World)
        → IsFenced w1
        → Fits fresh w1
        → Fences (finalize fresh dte state w1)
    ended dte none w1 h1 f1 = recovered dte dte.track_id w1 h1 f1
    ended dte (some s) w1 h1 f1 = consolidate-Fences fresh s w1 h1 f1

    go :
        (found : Option Document) (w1 : World)
        → IsFenced w1
        → Fits fresh w1
        → Fences (finalize_found fresh found w1)
    go none w1 h1 f1 = handle_processing_error-Fences fresh _ w1 h1 f1
    go (some dte) w1 h1 f1 =
        ended dte (resolved (map_dte_status_to_public (some dte.status))) w1 h1 f1

-- The world stays fenced and nothing is sent.
abbrev pub Quietly : List ℕ → World → Type 0
Quietly sends w = IsFenced w × (w.sends ≡ sends)

-- The same, with a request in memory that fits.
abbrev pub Linked : List ℕ → Request → World → Type 0
Linked sends x w = IsFenced w × Fits x w × (w.sends ≡ sends)

-- A first part that keeps the row and the sends.
pub kept_rule :
    {A B : Type 0} (r : Request) (sends : List ℕ) (E : World → Type 0) (R : A → World → Type 0)
    (Q : B → World → Type 0)
    → ((w : World) → IsKept r sends w → E w)
    → (x : Outcome A × World) (f : A → M B) → Ensures (IsKept r sends) R x
    → ((a : A) (w : World) → R a w → Ensures E Q (f a w))
    → Ensures E Q (continue x f)
kept_rule r sends E R Q e x f kept k =
    bind_rule E R Q x f (weaken (IsKept r sends) E R R x e (λ _ _ q. q) kept) k

pub still : (w : World) → IsKept w.db.row w.sends w
still w = record { row = refl; sent = refl }

-- Linking changes neither the fence nor what was sent.
link-Linked :
    (w : World)
    → IsFenced w
    → (r : Request) (id : Option ℕ) (w' : World) → IsKept w.db.row w.sends w'
    → r ≡ w.db.row
    → Ensures (λ w''. Quietly w.sends (record w'' { db = w.db })) (Linked w.sends) (link r id w')
unfolding link
link-Linked w h r (some id) w' k e =
    let (fenced, fits) =
      kept-IsFenced r w w' h
        (λ none_yet. h.behind (ap (λ x. Request.transmission_started_at x) (sym e) ∙ none_yet)) k in
    (fenced, fits, k.sent)
link-Linked w h r none w' k e =
    kept_rule w.db.row w.sends E (λ _ w1. IsKept w.db.row w.sends w1) (Linked w.sends) lost
      (prepare r.document_type w') _ (prepare-Keeps w.db.row w.sends r.document_type w' k)
      λ dte w1 k1.
        weaken (IsKept w.db.row w.sends) E
          (λ x w2. IsKept (set_dte dte.id w.db.row) w.sends w2 × (x ≡ set_dte dte.id w.db.row))
          (Linked w.sends) (update_request (set_dte dte.id) w1) lost
          (λ x w2 q. linked dte.id x w2 q.0 q.1)
          (update_request-Updates (set_dte dte.id) w.db.row w.sends w1 k1)
  where
    set_dte : ℕ → Request → Request
    set_dte id r = record r { dte_id = some id }

    E : World → Type 0
    E w'' = Quietly w.sends (record w'' { db = w.db })

    lost : (w1 : World) → IsKept w.db.row w.sends w1 → E w1
    lost w1 k1 = (
      record { behind = λ none_yet. k1.sent ∙ h.behind none_yet; once = rw k1.sent h.once },
      k1.sent,
    )

    linked :
        (id : ℕ) (x : Request) (w2 : World)
        → IsKept (set_dte id w.db.row) w.sends w2
        → x ≡ set_dte id w.db.row
        → Linked w.sends x w2
    linked id x w2 k2 e2 = (
      record {
        behind = λ none_yet.
            k2.sent
            ∙ h.behind (ap (λ r. Request.transmission_started_at r) (sym k2.row) ∙ none_yet);
        once = rw k2.sent h.once;
      },
      (λ none_yet.
          k2.sent ∙ h.behind (ap (λ r. Request.transmission_started_at r) (sym e2) ∙ none_yet)),
      k2.sent,
    )

prepare_and_link-Linked :
    (w : World)
    → IsFenced w
    → Ensures (Quietly w.sends) (Linked w.sends) (transaction prepare_and_link w)
unfolding prepare_and_link
prepare_and_link-Linked w h =
    transaction_rule (Quietly w.sends) (Linked w.sends) prepare_and_link w (
      kept_rule w.db.row w.sends E _ (Linked w.sends) lost (tick w) _
        (tick-Keeps w.db.row w.sends w (still w))
        λ _ w1 k1.
          kept_rule w.db.row w.sends E (λ x w'. IsKept w.db.row w.sends w' × (x ≡ w.db.row))
            (Linked w.sends) lost (get_request w1) _ (get_request-Keeps w.db.row w.sends w1 k1)
            λ r w2 k2. link-Linked w h r r.dte_id w2 k2.0 k2.1)
  where
    E : World → Type 0
    E w'' = Quietly w.sends (record w'' { db = w.db })

    lost : (w1 : World) → IsKept w.db.row w.sends w1 → E w1
    lost w1 k1 = (
      record { behind = λ none_yet. k1.sent ∙ h.behind none_yet; once = rw k1.sent h.once },
      k1.sent,
    )

pub first_pass-Linked :
    (w : World)
    → IsFenced w
    → Ensures (Quietly w.sends) (λ x w'. Linked w.sends x.0 w') (first_pass w)
unfolding first_pass
first_pass-Linked w h =
    bind_rule (Quietly s) (Linked s) (λ x w'. Linked s x.0 w') (transaction prepare_and_link w) _
      (prepare_and_link-Linked w h)
      λ x w1 q.
        bind_rule (Quietly s) (λ _ w2. Linked s x w2) (λ y w'. Linked s y.0 w')
          (prepared_document x.dte_id w1) _ (prepared x x.dte_id w1 q)
          λ found w2 q2. present x found w2 q2
  where
    s : List ℕ
    s = w.sends

    prepared :
        (x : Request) (id : Option ℕ) (w1 : World)
        → Linked s x w1
        → Ensures (Quietly s) (λ _ w2. Linked s x w2) (prepared_document id w1)
    prepared x none w1 q = q
    prepared x (some id) w1 (h1, fits, same) =
        weaken (IsKept w1.db.row w1.sends) (Quietly s) (λ _ w2. IsKept w1.db.row w1.sends w2)
          (λ _ w2. Linked s x w2) (get_document id w1)
          (λ w2 k. ((kept-IsFenced x w1 w2 h1 fits k).0, k.sent ∙ same))
          (λ _ w2 k. (
            (kept-IsFenced x w1 w2 h1 fits k).0,
            (kept-IsFenced x w1 w2 h1 fits k).1,
            k.sent ∙ same,
          ))
          (get_document-Keeps w1.db.row w1.sends id w1 (still w1))

    present :
        (x : Request) (found : Option Document) (w2 : World)
        → Linked s x w2
        → Ensures (Quietly s) (λ y w'. Linked s y.0 w') (or_missing x found w2)
    present x none w2 (h2, fits, same) = (h2, same)
    present x (some dte) w2 q = q
