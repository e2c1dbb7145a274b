-- ===== src/Tests/Server.antt =====
-- Histories of the server of the fixtures.
use mathlib.Core.List.{Memᴰ}
use pasarelapagos_backend.Prelude.{
  arith, ◌≤◌, none, some, List, [], ◌∷◌, ◌≡◌, ◌≢◌, refl, length, find, filter,
}
use pasarelapagos_backend.Json.{null}
use pasarelapagos_backend.Providers.{ProviderChargeResult}
use pasarelapagos_backend.Providers.Registry
use pasarelapagos_backend.World.{Payment, has_id}
use pasarelapagos_backend.World.Rows.{AreDistinct}
use pasarelapagos_backend.Payments.Machine.{pending, captured}
use pasarelapagos_backend.Payments.Machine.Diagram.{capture_at_once}
use pasarelapagos_backend.Payments.Reconciliation as Reconciliation
use pasarelapagos_backend.Payments.Reconciliation.{mapped_status, is_stale}
use pasarelapagos_backend.Server.{
  Happening, post_payment, post_refund, webhook_job, reconcile_tick, reconcile_job, time, step, run,
}
use pasarelapagos_backend.Server.Ledger.{LedgerRun, ledger}
use pasarelapagos_backend.Server.Refinement.{run-refines}
use pasarelapagos_backend.Server.Lifetime.{changes, changes-le_4}
use pasarelapagos_backend.Server.Settling.{stale_is_settled}
use pasarelapagos_backend.Tests.Fixtures.{env, org, waiting, world, dto, part, job, stripe}

abbrev evening : List Happening
evening =
    post_payment dto (some "k9") org ∷ post_refund "p2" part org ∷ webhook_job job ∷ time 60000 ∷ []

distinct : AreDistinct world.payments
distinct = ((refl, tt), (tt, tt))

run-refines_example :
    LedgerRun (ledger (run env evening world).payments) (length evening) (ledger world.payments)
run-refines_example = run-refines env evening world distinct

changes-le_4_example : changes env "p1" evening world ≤ 4
unfolding find
changes-le_4_example = changes-le_4 env "p1" evening world waiting distinct refl

abbrev answer : ProviderChargeResult
answer = record { external_id = "ch_1"; status = "captured"; redirect_url = none; raw = null }

stale_is_settled_example :
    Memᴰ (Reconciliation.reconcile_job waiting) (step env reconcile_tick world).reconcile_jobs
    × ((r : Payment) × (find
            (has_id "p1")
            (step env
              (reconcile_job "p1")
              (run env evening (step env reconcile_tick world))).payments
          ≡ some r)
        × (r.status ≢ pending))
unfolding find filter mapped_status Registry.get
stale_is_settled_example =
    stale_is_settled env waiting stripe "ch_1" answer captured refl refl refl refl capture_at_once
      world evening distinct refl refl (omega arith)
