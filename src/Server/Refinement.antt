-- ===== src/Server/Refinement.antt =====
-- Every happening of the server is one step of the ledger at most.
use pasarelapagos_backend.Prelude.{
  String, true, Option, some, List, [], ◌∷◌, ◌≡◌, refl, inl, inr, arith, String_eq, find, lookup,
  lookup-All, Option-cases, length, ap,
}
use pasarelapagos_backend.Errors.{Result, ok, err}
use pasarelapagos_backend.Json.{Json}
use pasarelapagos_backend.Context.{Env, OrgContext}
use pasarelapagos_backend.World.{World, Payment, has_id, WebhookJob}
use pasarelapagos_backend.World.Rows.{AreDistinct}
use pasarelapagos_backend.World.Rows.Lookup.{clashes-neutral}
use pasarelapagos_backend.Payments.Machine.{PaymentStatus, pending}
use pasarelapagos_backend.Payments.Machine.Diagram.{
  Step, authorize, capture_at_once, fail, cancel, assert_valid_transition_iff,
}
use pasarelapagos_backend.Payments.Create.{
  CreatePaymentDto, PaymentView, create, settle, mark_failed, map_provider_status,
  provider_status_map,
}
use pasarelapagos_backend.Payments.Create.Outcome.{
  Outcome, unrouted, rejected, charged, broke, create_new-Outcome,
}
use pasarelapagos_backend.Payments.Create.Laws.{create-cases}
use pasarelapagos_backend.Payments.Refund.{
  RefundBody, RefundReply, refund as refund_payment, is_refundable, owned_by, new_status,
}
use pasarelapagos_backend.Payments.Refund.Outcome.{
  refund-IsRefunded, refund_throws, transition_holds,
}
use pasarelapagos_backend.Payments.Reconciliation.{mapped_status, reconcile_one, schedule_pending}
use pasarelapagos_backend.Payments.Reconciliation.Laws.{
  Applied, kept, Reconciled, skipped, unanswered, answered, reconcile_one-Reconciled,
}
use pasarelapagos_backend.Webhooks.Processor.{concerns, process, on_failed}
use pasarelapagos_backend.Webhooks.Processor.Laws.{
  Processed, unmatched, ignored, refused, process-Processed,
}
use pasarelapagos_backend.Server.{
  Happening, post_payment, post_refund, post_webhook, webhook_job, webhook_job_failed,
  reconcile_tick, reconcile_job, time, step, run,
}
use pasarelapagos_backend.Server.History.{handle_payments, step-Advances}
use pasarelapagos_backend.Server.Ledger.{LedgerRun, done, next, ledger}
use pasarelapagos_backend.Server.Ledger.Rows.{RowStep, same, added, changed, RowStep-LedgerStep}

first_status : (status : String) → Step pending (map_provider_status status)
unfolding map_provider_status
first_status status = elim (Option-cases (lookup status provider_status_map)) [
  | inl missing ↦ rw missing (inl refl)
  | inr (s, there) ↦ rw there (
      lookup-All (Step pending) status provider_status_map
        (inr authorize, (inr capture_at_once, (inr fail, (inr cancel, (inl refl, tt))))) there)
]

module _ (env : Env) where
  create-RowStep :
      (dto : CreatePaymentDto) (k : Option String) (ctx : OrgContext) (w : World)
      → RowStep w.payments (create env dto k ctx w).1.payments
  create-RowStep dto k ctx w =
      let (r, w') = create env dto k ctx w in
      elim (create-cases env dto ctx k w w' r refl) [
        | inl (x, a, b, e) ↦ same (ap (λ (u : World). u.payments) e)
        | inr (inl (key, p, a, b, c, e)) ↦ same (ap (λ (u : World). u.payments) e)
        | inr (inr (key, a, b, e)) ↦ go key w' r (create_new-Outcome env dto key ctx w.now w w' r e)
      ]
    where
      go :
          (key : String) (w' : World) (r : Result PaymentView)
          → Outcome env dto key ctx w.now w w' r
          → RowStep w.payments w'.payments
      go key w' r (unrouted x a b e) = same (ap (λ (u : World). u.payments) e)
      go key w' r (rejected x a e b g why m) = same e.payments
      go key w' r (charged provider p result new a rows b c g m) =
          let f = settle env dto key ctx result in
          added (f p) (clashes-neutral p f w.payments (λ x y. (refl, refl)) new.fresh)
            (first_status result.status) rows
      go key w' r (broke provider p x new a rows b c g m) =
          let f = mark_failed env dto key ctx x in
          added (f p) (clashes-neutral p f w.payments (λ x y. (refl, refl)) new.fresh) (inr fail)
            rows

  refund-RowStep :
      (id : String) (body : RefundBody) (ctx : OrgContext) (w : World)
      → AreDistinct w.payments
      → RowStep w.payments (refund_payment env body ctx id w).1.payments
  refund-RowStep id body ctx w d = finished (refund_payment env body ctx id w) refl
    where
      finished :
          (m : Result RefundReply × World)
          → refund_payment env body ctx id w ≡ m
          → RowStep w.payments m.1.payments
      finished (ok reply, w') e =
          let s = refund-IsRefunded env body ctx id w w' reply d e in
          let good : is_refundable s.payment.status ≡ true = ground arith in
          changed (owned_by id ctx.organization_id) s.payment (new_status body s.payment) s.found
            ((assert_valid_transition_iff _ _).0 (transition_holds body s.payment good)) s.payments
      finished (err x, w') e =
          let (untouched, _) = refund_throws env body ctx id w w' x d e in same untouched.payments

  process-RowStep :
      (job : WebhookJob) (w : World)
      → AreDistinct w.payments
      → RowStep w.payments (process job w).1.payments
  process-RowStep job w d =
      let (r, w') = process job w in go w' r (process-Processed job w w' r d refl)
    where
      go :
          (w' : World) (r : Result (Unit {0}))
          → Processed job w w' r
          → RowStep w.payments w'.payments
      go w' r (unmatched x a b e) = same (ap (λ (u : World). u.payments) e)
      go w' r (ignored p a b e c) = same e
      go w' r (refused p s x a b c f e) = same (ap (λ (u : World). u.payments) e)
      go w' r (Processed.moved p s found known ne valid rows e) =
          changed (concerns job.event) p s found ((assert_valid_transition_iff _ _).0 valid) rows

  reconcile-RowStep :
      (id : String) (w : World)
      → AreDistinct w.payments
      → RowStep w.payments (reconcile_one env id w).1.payments
  reconcile-RowStep id w d =
      let (r, w') = reconcile_one env id w in
      go w' r (reconcile_one-Reconciled env id w w' r d refl)
    where
      applied :
          (p : Payment) (o : Option PaymentStatus) (raw : Json) (w' : World)
          → find (has_id id) w.payments ≡ some p
          → Applied p o raw w w'
          → RowStep w.payments w'.payments
      applied p o raw w' found (kept i e x) = same e
      applied p o raw w' found (Applied.moved s c ne valid rows e) =
          changed (has_id id) p s found ((assert_valid_transition_iff _ _).0 valid) rows

      go :
          (w' : World) (r : Result (Unit {0}))
          → Reconciled env id w w' r
          → RowStep w.payments w'.payments
      go w' r (skipped i a e) = same (ap (λ (u : World). u.payments) e)
      go w' r (unanswered p ext x f t n a e) = same e.payments
      go w' r (answered p ext provider result found a b c fine h) =
          applied p (mapped_status result.status) result.raw w' found h

  step-RowStep :
      (h : Happening) (w : World)
      → AreDistinct w.payments
      → RowStep w.payments (step env h w).payments
  unfolding step on_failed schedule_pending
  step-RowStep (post_payment dto key ctx) w d = create-RowStep dto key ctx w
  step-RowStep (post_refund id body ctx) w d = refund-RowStep id body ctx w d
  step-RowStep (post_webhook id raw headers) w d = same (handle_payments env id raw headers w)
  step-RowStep (webhook_job job) w d = process-RowStep job w d
  step-RowStep (webhook_job_failed job) w d = same refl
  step-RowStep reconcile_tick w d = same refl
  step-RowStep (reconcile_job id) w d = reconcile-RowStep id w d
  step-RowStep (time ms) w d = same refl

  -- Any sequence of happenings is, for the ledger, as many steps of its specification: each happening
  -- leaves every payment as it is, or opens one under a new id, or moves the status of one along one edge
  -- of the diagram.
  pub run-refines :
      (hs : List Happening) (w : World)
      → AreDistinct w.payments
      → LedgerRun (ledger (run env hs w).payments) (length hs) (ledger w.payments)
  unfolding run
  run-refines [] w d = done
  run-refines (h ∷ hs) w d =
      let w' = step env h w in
      next (RowStep-LedgerStep w.payments w'.payments d (step-RowStep h w d))
        (run-refines hs w' (step-Advances env h w d).distinct)
