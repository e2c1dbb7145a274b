-- ===== src/Controllers/Payments.antt =====
-- src/modules/payments/payments.controller.ts. The validation of a body or a query is a parameter. The
-- global guard of the rate limit, which passes a request that has no tenant yet, is left out.
use pasarelapagos_backend.Prelude.{String, Bool, false, Option}
use pasarelapagos_backend.Json.{Json}
use pasarelapagos_backend.Errors.{Result, error}
use pasarelapagos_backend.Context.{Env, OrgContext}
use pasarelapagos_backend.World.{Action, gets, lift, or_throw, ◌>>=◌}
use pasarelapagos_backend.Guards.{Request}
use pasarelapagos_backend.Guards.Auth.{Firebase, auth_guard}
use pasarelapagos_backend.Guards.Access.{tenant_guard, write_guard}
use pasarelapagos_backend.Guards.Pci.{pci_guard}
use pasarelapagos_backend.Payments.Create.{CreatePaymentDto, PaymentView}
use pasarelapagos_backend.Payments.Create as Create
use pasarelapagos_backend.Payments.Refund.{RefundBody, RefundReply}
use pasarelapagos_backend.Payments.Refund as Refund
use pasarelapagos_backend.Payments.Listing.{ListPaymentsDto, PaymentPage, PaymentDetail}
use pasarelapagos_backend.Payments.Listing as Listing

module _ (compare : (raw_key key_hash : String) → Bool) (firebase : Firebase) (is_dev : Bool) where
  -- `@UseGuards(AuthGuard, TenantGuard)` of the controller
  unfoldable pub with_tenant : Request → Action Request
  with_tenant req = do
    req1 ← auth_guard compare firebase false req
    lift (tenant_guard is_dev false req1)

  -- `@OrgCtx()`, whose fields the services read
  abbrev pub org_ctx : Request → Action OrgContext
  org_ctx req =
      or_throw req.org_context
        (error "Cannot read properties of undefined (reading 'organizationId')")

  module _ (stringify : Json → String) (to_lower_case : String → String) (env : Env) where
    -- `create`
    unfoldable pub create :
        (validated : Json → Result CreatePaymentDto)
        → Request
        → (body : Json) → (idempotency_key : Option String) → Action PaymentView
    create validated req body idempotency_key = do
      req2 ← with_tenant req
      req3 ← lift (write_guard req2)
      checked ← lift (pci_guard stringify to_lower_case body)
      dto ← lift (validated body)
      ctx ← org_ctx req3
      Create.create env dto idempotency_key ctx

    -- `refund`
    unfoldable pub refund : Request → String → RefundBody → Action RefundReply
    refund req id body = do
      req2 ← with_tenant req
      req3 ← lift (write_guard req2)
      ctx ← org_ctx req3
      Refund.refund env body ctx id

  -- `findAll`
  unfoldable pub find_all : (validated : Result ListPaymentsDto) → Request → Action PaymentPage
  find_all validated req = do
    req2 ← with_tenant req
    query ← lift validated
    ctx ← org_ctx req2
    gets (Listing.find_all ctx query)

  -- `findOne`
  unfoldable pub find_one : Request → String → Action PaymentDetail
  find_one req id = do req2 ← with_tenant req; ctx ← org_ctx req2; Listing.find_one id ctx
