-- ===== src/Payments/Create/Charge.antt =====
-- What the charge of a new payment leaves, where it succeeds and where it fails.
use pasarelapagos_backend.Prelude.{
  ℕ, ◌+◌, ◌-◌, String, false, ◌≡◌, inl, inr, arith, any, List, [], ◌∷◌, ◌++◌,
}
use pasarelapagos_backend.Prelude.Int.{negsuc}
use pasarelapagos_backend.Context.{OrgContext, Env}
use pasarelapagos_backend.Errors.{Result, ok, err, Exception, Result-cases}
use pasarelapagos_backend.Providers.{PaymentProvider, ProviderChargeResult}
use pasarelapagos_backend.Payments.Machine.{status_text}
use pasarelapagos_backend.World.{
  World, Payment, Sample, active_pending, payments_total, payment_duration, charge, clashes,
  update_payment,
}
use pasarelapagos_backend.World.Metrics.{pending_gauge}
use pasarelapagos_backend.World.Metrics.Gauge.{pending_gauge_settled}
use pasarelapagos_backend.World.Rows.Lookup.{find-append_new, update_row-append_new}
use pasarelapagos_backend.Payments.Create.{
  CreatePaymentDto, PaymentView, serialize, charge_input, settle, store_result, charge_payment,
  mark_failed, fail_payment, map_provider_status,
}

module _ (env : Env) (dto : CreatePaymentDto) (key : String) (ctx : OrgContext) where
  abbrev pub down : List Sample → List Sample
  down ss = ss ++ active_pending (negsuc 0) dto.country ∷ []

  -- The samples of a charge that settled, in their order.
  abbrev pub settled_samples :
      PaymentProvider → ProviderChargeResult → (ms : ℕ) → List Sample → List Sample
  settled_samples provider result ms ss =
      (down ss
        ++ payments_total provider.id (status_text (map_provider_status result.status)) dto.country
            dto.method
          ∷ [])
      ++ payment_duration ms provider.id dto.country ∷ []

  module _ (provider : PaymentProvider) (p : Payment) (ps : List Payment)
      (fresh : any (clashes p) ps ≡ false) where
    -- How long the charge took.
    abbrev pub spent : ℕ → World → ℕ
    spent start w =
        w.now + env.latency (charge provider.id (charge_input env dto key ctx p)) - start

    settled_measured :
        (start : ℕ) (w w' : World) (v : PaymentView) (result : ProviderChargeResult)
        → w.payments ≡ ps ++ p ∷ []
        → charge_payment env dto key ctx provider p start w ≡ (ok v, w')
        → provider.create_charge (charge_input env dto key ctx p) ≡ ok result
        → w'.samples ≡ settled_samples provider result (spent start w) w.samples
    unfolding charge_payment store_result update_payment
    settled_measured start w w' v result e h good =
        let by_id = find-append_new p ps fresh in ground arith

    settled_gauge :
        (start : ℕ) (w w' : World) (v : PaymentView) (result : ProviderChargeResult)
        → w.payments ≡ ps ++ p ∷ []
        → charge_payment env dto key ctx provider p start w ≡ (ok v, w')
        → provider.create_charge (charge_input env dto key ctx p) ≡ ok result
        → (c : String) → pending_gauge c w'.samples ≡ pending_gauge c (down w.samples)
    settled_gauge start w w' v result e h good c =
        let same = settled_measured start w w' v result e h good in
        let status = status_text (map_provider_status result.status) in
        rw same (
          pending_gauge_settled c (down w.samples) provider.id status dto.country dto.method
            (spent start w))

    -- The `try`, over a table whose last row is the new payment.
    pub charge_payment_ok :
        (start : ℕ) (w w' : World) (v : PaymentView)
        → w.payments ≡ ps ++ p ∷ []
        → charge_payment env dto key ctx provider p start w ≡ (ok v, w')
        → (result : ProviderChargeResult) × (provider.create_charge (charge_input env dto key ctx p)
            ≡ ok result)
          × (w'.payments ≡ ps ++ settle env dto key ctx result p ∷ [])
          × (v ≡ serialize (settle env dto key ctx result p))
          × (w'.calls ≡ w.calls ++ charge provider.id (charge_input env dto key ctx p) ∷ [])
          × ((c : String) → pending_gauge c w'.samples ≡ pending_gauge c (down w.samples))
          × (w'.samples ≡ settled_samples provider result (spent start w) w.samples)
    unfolding charge_payment store_result update_payment
    charge_payment_ok start w w' v e h =
        let by_id = find-append_new p ps fresh in
        elim (Result-cases (provider.create_charge (charge_input env dto key ctx p))) [
          | inr (x, bad) ↦ absurd (ground arith)
          | inl (result, good) ↦ (
            result,
            good,
            ground (arith, update_row-append_new p (settle env dto key ctx result) ps fresh),
            ground arith,
            ground arith,
            λ c. settled_gauge start w w' v result e h good c,
            settled_measured start w w' v result e h good,
          )
        ]

    pub charge_payment_err :
        (start : ℕ) (w w' : World) (x : Exception)
        → w.payments ≡ ps ++ p ∷ []
        → charge_payment env dto key ctx provider p start w ≡ (err x, w')
        → (provider.create_charge (charge_input env dto key ctx p) ≡ err x)
          × (w'.payments ≡ w.payments)
          × (w'.samples ≡ w.samples)
          × (w'.calls ≡ w.calls ++ charge provider.id (charge_input env dto key ctx p) ∷ [])
    unfolding charge_payment store_result update_payment
    charge_payment_err start w w' x e h =
        let by_id = find-append_new p ps fresh in
        elim (Result-cases (provider.create_charge (charge_input env dto key ctx p))) [
          | inr (y, bad) ↦ ground arith
          | inl (result, good) ↦ absurd (ground arith)
        ]

    -- The `catch`, over the same table.
    pub fail_payment_lem :
        (x : Exception) (w w' : World) (r : Result PaymentView)
        → w.payments ≡ ps ++ p ∷ []
        → fail_payment env dto key ctx p x w ≡ (r, w')
        → (r ≡ err x)
          × (w'.payments ≡ ps ++ mark_failed env dto key ctx x p ∷ [])
          × (w'.samples ≡ down w.samples)
          × (w'.calls ≡ w.calls)
    unfolding fail_payment update_payment
    fail_payment_lem x w w' r e h =
        let by_id = find-append_new p ps fresh in
        ground (arith, update_row-append_new p (mark_failed env dto key ctx x) ps fresh)
