-- ===== src/Server/History.antt =====
-- What holds of every payment through any sequence of happenings.
use pasarelapagos_backend.Prelude.{
  String, true, Option, some, List, [], ◌∷◌, ◌≡◌, refl, inl, inr, find, ◌==◌, String_eq, Bool-cases,
}
use pasarelapagos_backend.Errors.{Result-cases}
use pasarelapagos_backend.Context.{Env}
use pasarelapagos_backend.Providers.Registry
use pasarelapagos_backend.World.{World, Payment, has_id}
use pasarelapagos_backend.World.Rows.{
  AreDistinct, Keeps, Evolves, Advances, Advances-refl, Advances-trans,
}
use pasarelapagos_backend.Payments.Machine.{is_terminal}
use pasarelapagos_backend.Payments.Machine.Diagram.{is_terminal_stays}
use pasarelapagos_backend.Payments.Create.Laws.{create-Advances}
use pasarelapagos_backend.Payments.Refund.Outcome.{refund-Advances}
use pasarelapagos_backend.Payments.Reconciliation.Laws.{reconcile_one-Advances}
use pasarelapagos_backend.Payments.Reconciliation.{schedule_pending}
use pasarelapagos_backend.Webhooks.Controller.{handle, accept, verified}
use pasarelapagos_backend.Webhooks.Controller.Dedup.{Accepted, again, fresh, accept-Accepted}
use pasarelapagos_backend.Webhooks.Processor.{on_failed}
use pasarelapagos_backend.Webhooks.Processor.Laws.{process-Advances}
use pasarelapagos_backend.Server.{
  Happening, post_payment, post_refund, post_webhook, webhook_job, webhook_job_failed,
  reconcile_tick, reconcile_job, time, step, run,
}

pub find-Evolves :
    (id : String) (p : Payment) (ps qs : List Payment)
    → Evolves ps qs
    → find (has_id id) ps ≡ some p
    → (q : Payment) × (find (has_id id) qs ≡ some q) × Keeps p q
unfolding find
find-Evolves id p [] qs h e = cc
find-Evolves id p (r ∷ ps) [] h e = absurd h
find-Evolves id p (r ∷ ps) (q ∷ qs) (k, h) e = elim (Bool-cases (r.id == id)) [
  | inl mine ↦
      let same : Path (Option Payment) (some r) (some p) = rw mine at e in
      let eq : r ≡ p = cc in (q, rw (k.id, mine) refl, rw eq at k)
  | inr other ↦
      let (s, f, l) = find-Evolves id p ps qs h (rw other at e) in (s, rw (k.id, other) f, l)
]

module _ (env : Env) where
  -- The delivery of a webhook touches no payment: that is left to the worker.
  pub handle_payments :
      (id raw : String) (headers : List (String × String)) (w : World)
      → (handle env id raw headers w).1.payments ≡ w.payments
  unfolding handle
  handle_payments id raw headers w = elim (Result-cases (Registry.get id env.registry)) [
    | inr (x, unknown) ↦ rw unknown refl
    | inl (provider, known) ↦ elim (Result-cases (verified (provider.verify_webhook raw headers))) [
      | inr (x, failed) ↦ rw (known, failed) refl
      | inl (event, good) ↦
          let (r, w') = accept env id headers event w in
          let (_, ended) = accept-Accepted env id headers event w w' r refl in
          rw (known, good) (same event w' ended)
    ]
  ]
    where
      same :
          (event : _) (w' : World) → Accepted env id headers event w w' → w'.payments ≡ w.payments
      same event w' (again i seen e) = rw e refl
      same event w' (fresh j unseen rows a b c d) = d

  pub step-Advances :
      (h : Happening) (w : World)
      → AreDistinct w.payments
      → Advances w.payments (step env h w).payments
  unfolding step on_failed schedule_pending
  step-Advances (post_payment dto key ctx) w d = create-Advances env dto ctx key w d
  step-Advances (post_refund id body ctx) w d = refund-Advances env body ctx id w d
  step-Advances (post_webhook id raw headers) w d =
      rw (handle_payments id raw headers w) (Advances-refl w.payments d)
  step-Advances (webhook_job job) w d = process-Advances job w d
  step-Advances (webhook_job_failed job) w d = Advances-refl w.payments d
  step-Advances reconcile_tick w d = Advances-refl w.payments d
  step-Advances (reconcile_job id) w d = reconcile_one-Advances env id w d
  step-Advances (time ms) w d = Advances-refl w.payments d

  -- Whatever happens to the server, in whatever order, and whatever the providers answer: the
  -- constraints of the table of payments hold, no payment is lost, each keeps its owner, its amount
  -- and all else that says what it is for, and its status moves along the diagram only.
  pub run-Advances :
      (hs : List Happening) (w : World)
      → AreDistinct w.payments
      → Advances w.payments (run env hs w).payments
  unfolding run
  run-Advances [] w d = Advances-refl w.payments d
  run-Advances (h ∷ hs) w d =
      let first = step-Advances h w d in
      Advances-trans first (run-Advances hs (step env h w) first.distinct)

  -- A payment in a terminal status is found under its id for good, with that status.
  pub run-is_terminal :
      (hs : List Happening) (id : String) (p : Payment) (w : World)
      → AreDistinct w.payments
      → find (has_id id) w.payments ≡ some p
      → is_terminal p.status ≡ true
      → (q : Payment) × (find (has_id id) (run env hs w).payments ≡ some q) × (q.status ≡ p.status)
  run-is_terminal hs id p w d found done =
      let moved = run-Advances hs w d in
      let (q, f, k) = find-Evolves id p w.payments (run env hs w).payments moved.evolves found in
      (q, f, is_terminal_stays done k.status)
