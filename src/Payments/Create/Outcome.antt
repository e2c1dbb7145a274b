-- ===== src/Payments/Create/Outcome.antt =====
-- The ways in which `create` can go once no payment with the key was found.
use pasarelapagos_backend.Prelude.{
  ◌+◌, ◌-◌, ℕ, String, false, Option, ◌≡◌, refl, sym, ap, ◌∙◌, inl, inr, arith, any, List, [], ◌∷◌,
  ◌++◌,
}
use pasarelapagos_backend.Prelude.Int.{pos}
use pasarelapagos_backend.Context.{OrgContext, Env}
use pasarelapagos_backend.Errors.{Result, ok, err, Exception, Result-cases}
use pasarelapagos_backend.Providers.{PaymentProvider, ProviderChargeResult}
use pasarelapagos_backend.Providers.Registry
use pasarelapagos_backend.World.{
  World, Payment, PaymentMethodKind, Sample, active_pending, charge, clashes, transaction,
  try_catch, handle, continue,
}
use pasarelapagos_backend.World.Metrics.{pending_gauge}
use pasarelapagos_backend.World.Metrics.Gauge.{pending_gauge_balanced}
use pasarelapagos_backend.World.Rows.{HasSameTables}
use pasarelapagos_backend.Payments.Create.{
  CreatePaymentDto, PaymentView, serialize, new_payment, insert_pending, charge_input, settle,
  charge_payment, mark_failed, fail_payment, create_new, to_prisma_method,
}
use pasarelapagos_backend.Payments.Create.Insert.{
  IsRefused, insert_pending-IsInserted, insert_pending_throws,
}
use pasarelapagos_backend.Payments.Create.Charge.{
  down, settled_samples, charge_payment_ok, charge_payment_err, fail_payment_lem,
}

module _ (env : Env) (dto : CreatePaymentDto) (key : String) (ctx : OrgContext) where
  -- The state after the gauge was raised.
  abbrev pub raised : World → World
  raised w = record w { samples = w.samples ++ active_pending (pos 1) dto.country ∷ [] }

  -- A row that `create` adds: the provider is the one that was routed to, and the row clashes with
  -- none that was there.
  pub record IsNew (w : World) (provider : PaymentProvider) (p : Payment) : Type 0 where
    pub method : PaymentMethodKind
    pub customer_id : Option String
    pub number : ℕ
    pub routed : Registry.select_for dto.country dto.currency env.registry ≡ ok provider
    pub known : to_prisma_method dto.method ≡ ok method
    pub row : p ≡ new_payment env dto key ctx provider method customer_id number w.now
    pub fresh : any (clashes p) w.payments ≡ false

  -- Why no row was added although a provider was found: the method has no kind, or the table refuses
  -- the row, as its id or its key is taken.
  pub data HasNoRow (w : World) (x : Exception) : Type 0 where
    no_method : to_prisma_method dto.method ≡ err x → HasNoRow w x
    refused :
        (method : PaymentMethodKind) (provider : PaymentProvider)
        → to_prisma_method dto.method ≡ ok method
        → Registry.select_for dto.country dto.currency env.registry ≡ ok provider
        → IsRefused env dto key ctx provider method w x
        → HasNoRow w x

  -- How a call of `create` for a new key ended: what was thrown or returned, what was stored, what
  -- the provider was asked and what was measured.
  pub data Outcome (start : ℕ) (w w' : World) (r : Result PaymentView) : Type 0 where
    -- no provider serves the country and the currency
    unrouted :
        (x : Exception)
        → Registry.select_for dto.country dto.currency env.registry ≡ err x
        → r ≡ err x
        → w' ≡ w
        → Outcome start w w' r
    -- the method is unknown, or the row was refused by the table's constraints
    rejected :
        (x : Exception)
        → r ≡ err x
        → HasSameTables w w'
        → w'.calls ≡ w.calls
        → ((c : String)
            → pending_gauge c w'.samples
              ≡ pending_gauge c (w.samples ++ active_pending (pos 1) dto.country ∷ []))
        → HasNoRow w x
        → w'.samples ≡ (raised w).samples
        → Outcome start w w' r
    -- the provider took the charge
    charged :
        (provider : PaymentProvider) (p : Payment) (result : ProviderChargeResult)
        → IsNew w provider p
        → provider.create_charge (charge_input env dto key ctx p) ≡ ok result
        → w'.payments ≡ w.payments ++ settle env dto key ctx result p ∷ []
        → r ≡ ok (serialize (settle env dto key ctx result p))
        → w'.calls ≡ w.calls ++ charge provider.id (charge_input env dto key ctx p) ∷ []
        → ((c : String) → pending_gauge c w'.samples ≡ pending_gauge c w.samples)
        → w'.samples
          ≡ settled_samples env dto key ctx provider result
              (w.now + env.latency (charge provider.id (charge_input env dto key ctx p)) - start)
              (raised w).samples
        → Outcome start w w' r
    -- the provider threw
    broke :
        (provider : PaymentProvider) (p : Payment) (x : Exception)
        → IsNew w provider p
        → provider.create_charge (charge_input env dto key ctx p) ≡ err x
        → w'.payments ≡ w.payments ++ mark_failed env dto key ctx x p ∷ []
        → r ≡ err x
        → w'.calls ≡ w.calls ++ charge provider.id (charge_input env dto key ctx p) ∷ []
        → ((c : String) → pending_gauge c w'.samples ≡ pending_gauge c w.samples)
        → w'.samples ≡ down env dto key ctx (raised w).samples
        → Outcome start w w' r

  -- After the insertion, the charge settles the new row or marks it failed.
  try-Outcome :
      (provider : PaymentProvider) (p : Payment) (start : ℕ) (w u w' : World)
      (r : Result PaymentView)
      → IsNew w provider p
      → u.payments ≡ w.payments ++ p ∷ []
      → u.samples ≡ w.samples ++ active_pending (pos 1) dto.country ∷ []
      → u.calls ≡ w.calls
      → u.now ≡ w.now
      → try_catch
          (charge_payment env dto key ctx provider p start)
          (fail_payment env dto key ctx p)
          u
        ≡ (r, w')
      → Outcome start w w' r
  try-Outcome provider p start w u w' r new rows samples calls now e =
      go (charge_payment env dto key ctx provider p start u) refl e
    where
      balanced :
          (c : String) (ss : List Sample)
          → ss ≡ down env dto key ctx u.samples
          → pending_gauge c ss ≡ pending_gauge c w.samples
      balanced c ss h = rw (h, samples) (pending_gauge_balanced c dto.country w.samples)

      go :
          (m : Result PaymentView × World)
          → charge_payment env dto key ctx provider p start u ≡ m
          → handle (fail_payment env dto key ctx p) m ≡ (r, w')
          → Outcome start w w' r
      go (ok v, w₁) h e =
          let (result, asked, stored, view, called, gauge, measured) =
            charge_payment_ok env dto key ctx provider p w.payments new.fresh start u w₁ v rows h in
          let same : w₁ ≡ w' = ground arith in
          charged provider p result new asked (ground arith) (ground arith) (ground arith)
            (λ c.
              ap (λ (t : World). pending_gauge c t.samples) (sym same)
              ∙ gauge c
              ∙ balanced c _ refl)
            (rw same at (rw samples at (rw now at measured)))
      go (err x, w₁) h e =
          let (asked, stored, measured, called) =
            charge_payment_err env dto key ctx provider p w.payments new.fresh start u w₁ x rows
              h in
          let (threw, marked, lowered, quiet) =
            fail_payment_lem env dto key ctx provider p w.payments new.fresh x w₁ w' r
              (stored ∙ rows) e in
          broke provider p x new asked marked threw (ground arith)
            (λ c. balanced c w'.samples (ground arith)) (ground arith)

  -- From the insertion on.
  insert-Outcome :
      (provider : PaymentProvider) (method : PaymentMethodKind) (start : ℕ) (w w' : World)
      (r : Result PaymentView) (m : Result Payment × World)
      → Registry.select_for dto.country dto.currency env.registry ≡ ok provider
      → to_prisma_method dto.method ≡ ok method
      → transaction (insert_pending env dto key ctx provider method) (raised w) ≡ m
      → continue
          (λ p.
            try_catch
              (charge_payment env dto key ctx provider p start)
              (fail_payment env dto key ctx p))
          m
        ≡ (r, w')
      → Outcome start w w' r
  insert-Outcome provider method start w w' r (ok p, u) routed known t e =
      let i = insert_pending-IsInserted env dto key ctx provider method (raised w) u p t in
      try-Outcome provider p start w u w' r
        (record {
          method = method;
          customer_id = i.customer_id;
          number = i.number;
          routed = routed;
          known = known;
          row = i.row;
          fresh = i.fresh;
        })
        i.payments i.samples i.calls i.now e
  insert-Outcome provider method start w w' r (err x, u) routed known t e =
      let (same, samples, calls, no_row) =
        insert_pending_throws env dto key ctx provider method (raised w) u x t in
      rejected x (ground arith) (ground arith) (ground arith)
        (λ c. ap (pending_gauge c) (ground arith))
        (refused method provider known routed (record {
          customer_id = no_row.customer_id;
          number = no_row.number;
          taken = no_row.taken;
          is_it = no_row.is_it;
        }))
        (ground arith)

  pub create_new-Outcome :
      (start : ℕ) (w w' : World) (r : Result PaymentView)
      → create_new env dto key ctx start w ≡ (r, w')
      → Outcome start w w' r
  unfolding create_new
  create_new-Outcome start w w' r e =
      elim (Result-cases (Registry.select_for dto.country dto.currency env.registry)) [
        | inr (x, bad) ↦ unrouted x bad (ground arith) (ground arith)
        | inl (provider, routed) ↦ elim (Result-cases (to_prisma_method dto.method)) [
          | inr (x, bad) ↦
              rejected x (ground arith) (ground arith) (ground arith)
                (λ c. ap (pending_gauge c) (ground arith)) (no_method bad) (ground arith)
          | inl (method, known) ↦
              insert-Outcome provider method start w w' r _ routed known refl
                (rw (routed, known) at e)
        ]
      ]
