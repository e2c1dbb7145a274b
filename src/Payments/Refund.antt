-- ===== src/Payments/Refund.antt =====
-- src/modules/payments/payments.service.ts: `refund`. The amount of the body is a signed integer,
-- since its type is an inline one that no validation reads.
pub mod Outcome
use pasarelapagos_backend.Prelude.{
  ℕ, String, Bool, true, false, Option, none, some, List, [], ◌∷◌, ◌&&◌, ◌==◌, String_eq, ℕ_eq, not,
  ◌<>◌, find, truthy, decimal, if◌then◌else◌, ◌||◌,
}
use pasarelapagos_backend.Prelude.Int.{ℤ, pos, negsuc, ltb_ℤ}
use pasarelapagos_backend.Json.{Json, null, num, str, object}
use pasarelapagos_backend.Errors.{bad_request, not_found}
use pasarelapagos_backend.Providers.{RefundInput, ProviderRefundResult}
use pasarelapagos_backend.Providers.Registry
use pasarelapagos_backend.Context.{OrgContext, Env}
use pasarelapagos_backend.Payments.Machine.{
  PaymentStatus, captured, partially_refunded, refunded, status_text, assert_valid_transition,
  PaymentStatus_eq,
}
use pasarelapagos_backend.Payments.Create.{PaymentView, serialize}
use pasarelapagos_backend.World.{
  World, Payment, Refund, ProviderCall, Action, pure, gets, or_throw, throw_if, lift, transaction,
  ◌>>=◌, ◌>>◌, mint, update_payment, set_status, create_event, create_refund, call_provider,
}
use pasarelapagos_backend.World.Audit.{log}

pub record RefundBody : Type 0 where
  pub amount_minor : Option ℤ
  pub reason : Option String

-- A number is truthy if it is there and not 0.
abbrev pub truthy_amount : Option ℤ → Option ℤ
truthy_amount none = none
truthy_amount (some (pos n)) = if n == 0 then none else some (pos n)
truthy_amount (some (negsuc n)) = some (negsuc n)

abbrev pub is_refundable : PaymentStatus → Bool
is_refundable s = s == captured || s == partially_refunded

-- `findFirst({ where: { id, organizationId } })`
abbrev pub owned_by : String → String → Payment → Bool
owned_by id org p = p.id == id && p.organization_id == org

abbrev status_after : Option ℤ → ℕ → PaymentStatus
status_after none paid = refunded
status_after (some amount) paid = if ltb_ℤ amount (pos paid) then partially_refunded else refunded

-- `body.amountMinor && BigInt(body.amountMinor) < payment.amountMinor ? … : …`
unfoldable pub new_status : RefundBody → Payment → PaymentStatus
new_status body p = status_after (truthy_amount body.amount_minor) p.amount_minor

abbrev pub refunded_amount : Option ℤ → ℕ → ℤ
refunded_amount none paid = pos paid
refunded_amount (some amount) paid = amount

abbrev opt_str : Option String → Json
opt_str none = null
opt_str (some s) = str s

-- `body.amountMinor ?? payment.amountMinor.toString()`
abbrev shown_amount : Option ℤ → ℕ → Json
shown_amount none paid = str (decimal paid)
shown_amount (some amount) paid = num amount

pub record RefundReply : Type 0 where
  pub view : PaymentView
  pub refund : Refund

module _ (env : Env) (body : RefundBody) (ctx : OrgContext) where
  abbrev pub refund_input : String → RefundInput
  refund_input external_id = record {
    external_id = external_id;
    amount_minor = truthy_amount body.amount_minor;
    reason = body.reason;
  }

  -- The transaction that stores the refund.
  unfoldable pub store_refund : Payment → ProviderRefundResult → Action (Payment × Refund)
  store_refund payment result = do
    p ← update_payment payment.id (set_status (new_status body payment))
    create_event (record {
      payment_id = payment.id;
      type = "payment.refunded";
      payload = object (
          ("refundId", str result.external_refund_id)
          ∷ ("amount", shown_amount body.amount_minor payment.amount_minor)
          ∷ ("reason", opt_str body.reason)
          ∷ []);
    })
    n ← mint
    r ← create_refund (record {
      id = env.cuid n;
      payment_id = payment.id;
      amount_minor = refunded_amount (truthy_amount body.amount_minor) payment.amount_minor;
      reason = body.reason;
      external_refund_id = some result.external_refund_id;
      status = "REFUNDED";
    })
    pure (p, r)

  -- What follows the checks: the provider's call, and what is written after it.
  unfoldable pub refund_at : Payment → String → Action RefundReply
  refund_at payment external_id = do
    provider ← lift (Registry.get payment.provider_id env.registry)
    let call = ProviderCall.refund provider.id (refund_input external_id)
    call_provider call (env.latency call)
    result ← lift (provider.refund (refund_input external_id))
    lift (assert_valid_transition payment.status (new_status body payment))
    stored ← transaction (store_refund payment result)
    log (record {
      tenant_id = payment.tenant_id;
      organization_id = some ctx.organization_id;
      actor_id = some ctx.user_id;
      action = "payment.refunded";
      resource_id = payment.id;
      resource_type = "Payment";
      before = some (object (("status", str (status_text payment.status)) ∷ []));
      after = some (
          object (
            ("status", str (status_text (new_status body payment)))
            ∷ ("refundId", str stored.1.id)
            ∷ []));
    })
    pure (record { view = serialize stored.0; refund = stored.1 })

  unfoldable pub refund : String → Action RefundReply
  refund id = do
    found ← gets (λ w. find (owned_by id ctx.organization_id) w.payments)
    payment ← or_throw found (not_found ("Payment " <> id <> " no encontrado"))
    throw_if (not (is_refundable payment.status))
        (bad_request ("No se puede refundar un pago en estado " <> status_text payment.status))
    external_id ←
        or_throw (truthy payment.external_id)
          (bad_request "El pago no tiene externalId del provider")
    refund_at payment external_id
