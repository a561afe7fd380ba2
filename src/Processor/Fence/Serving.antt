-- ===== src/Processor/Fence/Serving.antt =====
-- The fence through a worker that serves the request again and again.
use cmorflow_tax_api.Common.{
  ◌∷◌, Bool-cases, List, ap, inr, ◌∙◌, sym, inl, some, err, Option, ◌≤◌, length, arith, [], ok,
  none, ◌≡◌, ℕ,
}
use cmorflow_tax_api.Worker.{attempt, World, Outcome, returned, threw, died}
use cmorflow_tax_api.Processor.{
  after_first_pass, process_from, claimed, get_request, is_claimable, first_pass, process, Shift,
  serve, serve_all,
}
use cmorflow_tax_api.Emit.Frame.{IsKept}
use cmorflow_tax_api.Request.{Request}
use cmorflow_tax_api.Worker.Rules.{bind_rule, weaken, attempt_rule, AfterTry}
use cmorflow_tax_api.Processor.Fence.{
  IsFenced, Fits, Fences, handle_processing_error-Fences, kept-IsFenced,
}
use cmorflow_tax_api.Processor.Fence.Marking.{transmit-Fences, get_request-Keeps}
use cmorflow_tax_api.Processor.Fence.Linking.{
  transmit_or_finalize-Fences, first_pass-Linked, kept_rule, still, Quietly, Linked,
}

process_from-Fences :
    (fresh : Request) (id : Option ℕ) (w : World)
    → IsFenced w
    → Fits fresh w
    → Fences (process_from fresh id w)
unfolding process_from after_first_pass
process_from-Fences fresh (some id) w h fits = transmit_or_finalize-Fences fresh id w h fits
process_from-Fences fresh none w h fits =
    bind_rule IsFenced (λ x w'. AfterTry (Quietly w.sends) (λ y w''. Linked w.sends y.0 w'') x w')
      (λ x w'. IsFenced w' × Fits x w') (attempt first_pass w) _
      (weaken (Quietly w.sends) IsFenced _ _ (attempt first_pass w) (λ _ q. q.0) (λ _ _ q. q)
        (attempt_rule (Quietly w.sends) (λ y w''. Linked w.sends y.0 w'') first_pass w
          (first_pass-Linked w h)))
      (elim [
        | ok (x, id) ↦ λ w' (h', fits', same). transmit-Fences x id w' h' fits'
        | err m ↦ λ w' (h', same).
            handle_processing_error-Fences fresh m w' h' (λ none_yet. same ∙ fits none_yet)
      ])

process-Fences : (w : World) → IsFenced w → Fences (process w)
unfolding process
process-Fences w h =
    kept_rule w.db.row w.sends IsFenced (λ x w'. IsKept w.db.row w.sends w' × (x ≡ w.db.row))
      (λ x w'. IsFenced w' × Fits x w') (λ w' k. (kept-IsFenced w.db.row w w' h h.behind k).0)
      (get_request w) _ (get_request-Keeps w.db.row w.sends w (still w))
      λ x w1 q.
        process_from-Fences x x.dte_id w1 (kept-IsFenced w.db.row w w1 h h.behind q.0).0
          (λ none_yet.
            q.0.sent ∙ h.behind (ap (λ r. Request.transmission_started_at r) (sym q.1) ∙ none_yet))

world_after-IsFenced : (x : Outcome Request × World) → Fences x → IsFenced x.1
world_after-IsFenced (returned r, w) h = h.0
world_after-IsFenced (threw message, w) h = h
world_after-IsFenced (died, w) h = h

pub serve-IsFenced : (shift : Shift) (w : World) → IsFenced w → IsFenced (serve shift w)
unfolding serve claimed
serve-IsFenced shift w h = elim (Bool-cases (is_claimable shift.time w.db.row)) [
  | inl e ↦
      rw (e, serve)
        (world_after-IsFenced _ (process-Fences _ (record { behind = h.behind; once = h.once })))
  | inr e ↦ rw (e, serve) (record { behind = h.behind; once = h.once })
]

pub serve_all-IsFenced :
    (shifts : List Shift) (w : World) → IsFenced w → IsFenced (serve_all shifts w)
unfolding serve_all
serve_all-IsFenced [] w h = h
serve_all-IsFenced (shift ∷ shifts) w h =
    serve_all-IsFenced shifts (serve shift w) (serve-IsFenced shift w h)

-- However often the request is claimed and processed, with whatever failures of the database, of the
-- remote services and of the worker itself in between, and whatever the SII answers, the upload of an
-- envelope is started at most once, provided none was started before.
pub serve_all-sends :
    (shifts : List Shift) (w : World) → w.sends ≡ [] → length (serve_all shifts w).sends ≤ 1
serve_all-sends shifts w none_sent =
    (serve_all-IsFenced shifts w
      (record { behind = λ _. none_sent; once = rw none_sent (omega arith) })).once
