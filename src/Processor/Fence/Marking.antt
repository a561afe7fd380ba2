-- ===== src/Processor/Fence/Marking.antt =====
-- The fence through `markAttempt` and `transmit` of the processor.
use cmorflow_tax_api.Common.{
  List, refl, ap, inr, ◌∙◌, sym, ◌≢◌, inl, some, err, Result, Option, arith, [], ok, none, ◌≡◌, ℕ,
  String,
}
use cmorflow_tax_api.Emit.{transmit as emit_transmit}
use cmorflow_tax_api.Worker.{attempt, transaction, World, Outcome, continue, tick, M}
use cmorflow_tax_api.Processor.{
  report, transmit_marked, transmit_from, transaction, get_request, update_request, mark_attempt,
  mark_fence, transmit,
}
use cmorflow_tax_api.Emit.Frame.{tick-Keeps, IsKept, IsSentOnce, transmit-Sends}
use cmorflow_tax_api.Request.{Request}
use cmorflow_tax_api.Worker.Rules.{
  Ensures, bind_rule, weaken, attempt_rule, transaction_rule, AfterTry,
}
use cmorflow_tax_api.Processor.Fence.{
  IsFenced, Fits, Fences, apply-Fences, quarantine_transmission-Fences,
}

-- After a successful mark no envelope was sent yet, and both the row and the request in memory carry
-- the fence; after an unsuccessful one the world stays fenced.
abbrev Marked : Request → Option Request → World → Type 0
Marked fresh none w = IsFenced w × Fits fresh w
Marked fresh (some started) w =
    (w.sends ≡ [])
    × (w.db.row.transmission_started_at ≢ none)
    × (started.transmission_started_at ≢ none)

-- What the database's rollback gives back, while nothing was sent.
rolled_back :
    (w : World)
    → IsFenced w
    → (w' : World) → IsKept w.db.row w.sends w'
    → IsFenced (record w' { db = w.db })
rolled_back w h w' k = record {
  behind = λ none_yet. k.sent ∙ h.behind none_yet;
  once = rw k.sent h.once;
}

-- A first part of a transaction that changes neither the row nor what was sent.
quiet :
    {A B : Type 0} (w : World) (Q : B → World → Type 0)
    → IsFenced w
    → (x : Outcome A × World) (f : A → M B)
    → Ensures (IsKept w.db.row w.sends) (λ _ w'. IsKept w.db.row w.sends w') x
    → ((a : A) (w' : World)
        → IsKept w.db.row w.sends w'
        → Ensures (λ w''. IsFenced (record w'' { db = w.db })) Q (f a w'))
    → Ensures (λ w''. IsFenced (record w'' { db = w.db })) Q (continue x f)
quiet w Q h x f kept k =
    bind_rule (λ w''. IsFenced (record w'' { db = w.db })) (λ _ w'. IsKept w.db.row w.sends w') Q x
      f
      (weaken (IsKept w.db.row w.sends) _ (λ _ w'. IsKept w.db.row w.sends w')
        (λ _ w'. IsKept w.db.row w.sends w') x (rolled_back w h) (λ _ _ q. q) kept)
      k

marked-ne : (t : ℕ) → some t ≢ none
marked-ne t e = cc e

abbrev set_fence : ℕ → Request → Request
set_fence time r = record r { transmission_started_at = some time }

pub get_request-Keeps :
    (r : Request) (sends : List ℕ) (w : World)
    → IsKept r sends w
    → Ensures (IsKept r sends) (λ x w'. IsKept r sends w' × (x ≡ r)) (get_request w)
unfolding get_request
get_request-Keeps r sends w h =
    bind_rule (IsKept r sends) (λ _ w'. IsKept r sends w') (λ x w'. IsKept r sends w' × (x ≡ r))
      (tick w) _ (tick-Keeps r sends w h) λ _ w1 k. (k, k.row)

pub update_request-Updates :
    (change : Request → Request) (r : Request) (sends : List ℕ) (w : World)
    → IsKept r sends w
    → Ensures
        (IsKept r sends)
        (λ x w'. IsKept (change r) sends w' × (x ≡ change r))
        (update_request change w)
unfolding update_request
update_request-Updates change r sends w h =
    bind_rule (IsKept r sends) (λ _ w'. IsKept r sends w')
      (λ x w'. IsKept (change r) sends w' × (x ≡ change r)) (tick w) _ (tick-Keeps r sends w h)
      λ _ w1 k. (record { row = ap change k.row; sent = k.sent }, ap change k.row)

mark_fence-Marked :
    (fresh : Request) (w : World)
    → IsFenced w
    → fresh.transmission_started_at ≡ none
    → Fits fresh w
    → (started : Option ℕ) (w' : World) → started ≡ w.db.row.transmission_started_at
    → IsKept w.db.row w.sends w'
    → Ensures
        (λ w''. IsFenced (record w'' { db = w.db }))
        (Marked fresh)
        (mark_fence fresh started w')
unfolding mark_fence
mark_fence-Marked fresh w h unmarked fits (some t) w' e k = (
  record {
    behind = λ none_yet.
        absurd
          (marked-ne t (e ∙ ap (λ r. Request.transmission_started_at r) (sym k.row) ∙ none_yet));
    once = rw k.sent h.once;
  },
  λ none_yet. k.sent ∙ fits none_yet,
)
mark_fence-Marked fresh w h unmarked fits none w' e k =
    bind_rule (λ w''. IsFenced (record w'' { db = w.db }))
      (λ x w1. IsKept (set_fence w'.clock w.db.row) w.sends w1 × (x ≡ set_fence w'.clock w.db.row))
      (Marked fresh) (update_request (set_fence w'.clock) w') _
      (weaken (IsKept w.db.row w.sends) _ _ _ (update_request (set_fence w'.clock) w')
        (rolled_back w h) (λ _ _ q. q)
        (update_request-Updates (set_fence w'.clock) w.db.row w.sends w' k))
      λ _ w1 q. (
        q.0.sent ∙ fits unmarked,
        λ none_yet.
            marked-ne w'.clock
              (ap (λ r. Request.transmission_started_at r) (sym q.0.row) ∙ none_yet),
        marked-ne w'.clock,
      )

transaction-Marked :
    (fresh : Request) (w : World)
    → IsFenced w
    → fresh.transmission_started_at ≡ none
    → Fits fresh w
    → Ensures IsFenced (Marked fresh) (transaction (mark_attempt fresh) w)
unfolding mark_attempt
transaction-Marked fresh w h unmarked fits =
    transaction_rule IsFenced (Marked fresh) (mark_attempt fresh) w (
      quiet w (Marked fresh) h (tick w) _ (tick-Keeps w.db.row w.sends w same) λ _ w1 k1.
        bind_rule (λ w''. IsFenced (record w'' { db = w.db }))
          (λ x w'. IsKept w.db.row w.sends w' × (x ≡ w.db.row)) (Marked fresh) (get_request w1) _
          (weaken (IsKept w.db.row w.sends) _ _ _ (get_request w1) (rolled_back w h) (λ _ _ q. q)
            (get_request-Keeps w.db.row w.sends w1 k1))
          λ latest w2 k2.
            mark_fence-Marked fresh w h unmarked fits latest.transmission_started_at w2
              (ap (λ r. Request.transmission_started_at r) k2.1) k2.0)
  where
    same : IsKept w.db.row w.sends w
    same = record { row = refl; sent = refl }

-- Once the mark is committed the transmission sends at most one envelope, and every report keeps the
-- fence.
report-Fences :
    (started : Request) (result : Result String (Option String)) (w : World)
    → IsFenced w
    → Fits started w
    → Fences (report started result w)
unfolding report
report-Fences started (err message) w h fits = quarantine_transmission-Fences started w h fits
report-Fences started (ok track_id) w h fits = apply-Fences started _ _ w h fits

sent-IsFenced :
    (r : Request) (id : ℕ) (w : World)
    → r.transmission_started_at ≢ none
    → IsSentOnce r [] id w
    → IsFenced w
sent-IsFenced r id w marked k = record {
  behind = λ none_yet.
      absurd (marked (ap (λ r. Request.transmission_started_at r) (sym k.row) ∙ none_yet));
  once = elim k.sent [ inl e ↦ rw e (omega arith) | inr e ↦ rw e (omega arith) ];
}

transmit_marked-Fences :
    (fresh : Request) (id : ℕ) (marked : Option Request) (w : World)
    → Marked fresh marked w
    → Fences (transmit_marked fresh id marked w)
unfolding transmit_marked
transmit_marked-Fences fresh id none w (h, fits) = quarantine_transmission-Fences fresh w h fits
transmit_marked-Fences fresh id (some started) w (quiet_yet, marked, mine) =
    let P : World → Type 0 = IsSentOnce w.db.row [] id in
    bind_rule IsFenced (λ x w'. AfterTry P (λ _ w''. P w'') x w') (λ x w'. IsFenced w' × Fits x w')
      (attempt (emit_transmit id) w) _
      (weaken P IsFenced _ _ (attempt (emit_transmit id) w)
        (λ w'. sent-IsFenced w.db.row id w' marked) (λ _ _ q. q)
        (attempt_rule P (λ _ w''. P w'') (emit_transmit id) w
          (transmit-Sends w.db.row [] id w (record { row = refl; sent = quiet_yet }))))
      (elim [
        | ok t ↦ λ w' q.
            report-Fences started (ok t) w' (sent-IsFenced w.db.row id w' marked q)
              (λ e. absurd (mine e))
        | err m ↦ λ w' q.
            report-Fences started (err m) w' (sent-IsFenced w.db.row id w' marked q)
              (λ e. absurd (mine e))
      ])

pub transmit-Fences :
    (fresh : Request) (id : ℕ) (w : World)
    → IsFenced w
    → Fits fresh w
    → Fences (transmit fresh id w)
unfolding transmit
transmit-Fences fresh id w h fits = from fresh.transmission_started_at refl
  where
    from :
        (started : Option ℕ)
        → fresh.transmission_started_at ≡ started
        → Fences (transmit_from fresh id started w)
    from (some t) e = quarantine_transmission-Fences fresh w h fits
    from none e =
        bind_rule IsFenced (Marked fresh) (λ x w'. IsFenced w' × Fits x w')
          (transaction (mark_attempt fresh) w) _ (transaction-Marked fresh w h e fits)
          λ marked w1 q. transmit_marked-Fences fresh id marked w1 q
