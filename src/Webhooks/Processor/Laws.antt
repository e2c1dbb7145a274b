-- ===== src/Webhooks/Processor/Laws.antt =====
-- What the webhook worker may do to a payment, and that a job may safely run twice.
use pasarelapagos_backend.Prelude.{
  ℕ, ◌-◌, none, some, ◌≡◌, refl, ◌⊎◌, inl, inr, arith, find, [], ◌∷◌, ◌++◌, ◌==◌, ◌≢◌, String_eq,
  Option-cases, Bool-cases, ◌<>◌,
}
use pasarelapagos_backend.Errors.{Result, ok, err, error, Exception, Result-cases}
use pasarelapagos_backend.Payments.Machine.{
  PaymentStatus, PaymentStatus_eq, status_eq_iff, assert_valid_transition,
}
use pasarelapagos_backend.Payments.Machine.Diagram.{reached_of_ok}
use pasarelapagos_backend.Payments.Reconciliation.{mapped_status}
use pasarelapagos_backend.World.{World, Payment, WebhookJob, set_status, update_payment, update_row}
use pasarelapagos_backend.World.Rows.{
  AreDistinct, Advances, Advances-refl, update_row-Advances, set_status-Keeps,
}
use pasarelapagos_backend.World.Rows.Lookup.{find-has_id}
use pasarelapagos_backend.Webhooks.Processor.{
  concerns, mark_processed, store_event, webhook_event, process_status, process,
}

-- How the processing of one job ended, for the payment and its events.
pub data Processed (job : WebhookJob) (w w' : World) (r : Result (Unit {0})) : Type 0 where
  -- no payment has the event's id at the event's provider
  unmatched :
      (x : Exception)
      → find (concerns job.event) w.payments ≡ none
      → r ≡ err x
      → w' ≡ w
      → Processed job w w' r
  -- the event's status is unknown, or the payment has it already
  ignored :
      (p : Payment)
      → find (concerns job.event) w.payments ≡ some p
      → (mapped_status job.event.status ≡ none) ⊎ (mapped_status job.event.status ≡ some p.status)
      → w'.payments ≡ w.payments
      → w'.events ≡ w.events
      → Processed job w w' r
  -- the diagram does not allow the change
  refused :
      (p : Payment) (s : PaymentStatus) (x : Exception)
      → find (concerns job.event) w.payments ≡ some p
      → mapped_status job.event.status ≡ some s
      → assert_valid_transition p.status s ≡ err x
      → r ≡ err x
      → w' ≡ w
      → Processed job w w' r
  moved :
      (p : Payment) (s : PaymentStatus)
      → find (concerns job.event) w.payments ≡ some p
      → mapped_status job.event.status ≡ some s
      → p.status ≢ s
      → assert_valid_transition p.status s ≡ ok tt
      → w'.payments ≡ update_row p.id (set_status s) w.payments
      → w'.events ≡ w.events ++ webhook_event p job.event ∷ []
      → Processed job w w' r

status-Processed :
    (job : WebhookJob) (lag : ℕ) (p : Payment) (s : PaymentStatus) (w w' : World)
    (r : Result (Unit {0}))
    → AreDistinct w.payments
    → find (concerns job.event) w.payments ≡ some p
    → mapped_status job.event.status ≡ some s
    → process_status job lag p (some s) w ≡ (r, w')
    → Processed job w w' r
unfolding process_status store_event update_payment mark_processed
status-Processed job lag p s w w' r d found known e = elim (Bool-cases (p.status == s)) [
  | inl same ↦
      ignored p found (inr (ground (arith, status_eq_iff p.status s))) (ground arith) (ground arith)
  | inr other ↦ elim (Result-cases (assert_valid_transition p.status s)) [
    | inr (x, bad) ↦ refused p s x found known bad (ground arith) (ground arith)
    | inl (t, valid) ↦
        let by_id = find-has_id (concerns job.event) p w.payments d found in
        moved p s found known (λ eq. cc (other, (status_eq_iff p.status s).1 eq)) valid
          (ground arith) (ground arith)
  ]
]

unknown-Processed :
    (job : WebhookJob) (lag : ℕ) (p : Payment) (w w' : World) (r : Result (Unit {0}))
    → find (concerns job.event) w.payments ≡ some p
    → mapped_status job.event.status ≡ none
    → process_status job lag p none w ≡ (r, w')
    → Processed job w w' r
unfolding process_status mark_processed
unknown-Processed job lag p w w' r found unknown e =
    ignored p found (inl unknown) (ground arith) (ground arith)

-- Processing a job ends in one of four ways: only a matched payment whose status may change to the
-- event's gets it, with one event; a throw for any other payment leaves everything as it was.
pub process-Processed :
    (job : WebhookJob) (w w' : World) (r : Result (Unit {0}))
    → AreDistinct w.payments
    → process job w ≡ (r, w')
    → Processed job w w' r
unfolding process
process-Processed job w w' r d e = elim (Option-cases (find (concerns job.event) w.payments)) [
  | inl missing ↦
      unmatched (error ("Payment no encontrado: " <> job.event.external_id)) missing (ground arith)
        (ground arith)
  | inr (p, found) ↦ elim (Option-cases (mapped_status job.event.status)) [
    | inl unknown ↦
        unknown-Processed job (w.now - job.enqueued_at) p w w' r found unknown (ground arith)
    | inr (s, known) ↦
        status-Processed job (w.now - job.enqueued_at) p s w w' r d found known (ground arith)
  ]
]

-- A webhook keeps the constraints of the table of payments and every payment; a status moves along
-- the diagram only.
pub process-Advances :
    (job : WebhookJob) (w : World)
    → AreDistinct w.payments
    → Advances w.payments (process job w).1.payments
process-Advances job w d =
    let (r, w') = process job w in go w' r (process-Processed job w w' r d refl)
  where
    go :
        (w' : World) (r : Result (Unit {0}))
        → Processed job w w' r
        → Advances w.payments w'.payments
    go w' r (unmatched x a b same) = rw same (Advances-refl w.payments d)
    go w' r (ignored p a b same e) = rw same (Advances-refl w.payments d)
    go w' r (refused p s x a b c e same) = rw same (Advances-refl w.payments d)
    go w' r (moved p s found known ne valid rows e) = rw rows (
        update_row-Advances (concerns job.event) (set_status s) p w.payments (λ a b. (refl, refl)) d
          found (set_status-Keeps s p (reached_of_ok p.status s valid)))
