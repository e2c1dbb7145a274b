-- ===== src/Payments/Refund/Outcome.antt =====
-- What `refund` stores when it returns, and that it stores nothing when it throws.
use pasarelapagos_backend.Prelude.{
  String, true, some, ◌≡◌, refl, ◌⊎◌, inl, inr, arith, find, [], ◌∷◌, ◌++◌, truthy, String_eq,
}
use pasarelapagos_backend.Context.{OrgContext, Env}
use pasarelapagos_backend.Errors.{Result, ok, err, Exception, Result-cases}
use pasarelapagos_backend.Providers.{PaymentProvider}
use pasarelapagos_backend.Providers.Registry
use pasarelapagos_backend.Payments.Machine.{captured, partially_refunded, assert_valid_transition}
use pasarelapagos_backend.Payments.Machine.Diagram.{◌⟶*◌, reached_of_ok}
use pasarelapagos_backend.Payments.Create.{serialize}
use pasarelapagos_backend.World.{
  update_payment, World, Payment, ProviderCall, update_row, set_status,
}
use pasarelapagos_backend.World.Rows.{
  HasSameTables, AreDistinct, Advances, Advances-refl, update_row-Advances, set_status-Keeps,
}
use pasarelapagos_backend.World.Rows.Lookup.{find-has_id}
use pasarelapagos_backend.Payments.Refund.{
  RefundBody, RefundReply, owned_by, is_refundable, truthy_amount, new_status, refund_input,
  refund_at, store_refund, refund as refund_payment, refunded_amount,
}

-- After the check of the status, `assertValidTransition` lets the new status through.
pub transition_holds :
    (body : RefundBody) (p : Payment)
    → is_refundable p.status ≡ true
    → assert_valid_transition p.status (new_status body p) ≡ ok tt
unfolding assert_valid_transition new_status
transition_holds body p h = ground arith

-- The new status is reached along the diagram.
new_status_reached :
    (body : RefundBody) (p : Payment)
    → is_refundable p.status ≡ true
    → p.status ⟶* new_status body p
new_status_reached body p h = reached_of_ok _ _ (transition_holds body p h)

module _ (env : Env) (body : RefundBody) (ctx : OrgContext) where
  -- What a refund that returned has found and stored.
  pub record IsRefunded (id : String) (w w' : World) (reply : RefundReply) : Type 0 where
    pub payment : Payment
    pub provider : PaymentProvider
    pub external_id : String
    pub found : find (owned_by id ctx.organization_id) w.payments ≡ some payment
    pub refundable : (payment.status ≡ captured) ⊎ (payment.status ≡ partially_refunded)
    pub external : truthy payment.external_id ≡ some external_id
    pub routed : Registry.get payment.provider_id env.registry ≡ ok provider
    pub payments :
        w'.payments ≡ update_row payment.id (set_status (new_status body payment)) w.payments
    pub refunds : w'.refunds ≡ w.refunds ++ reply.refund ∷ []
    pub refund_of : reply.refund.payment_id ≡ payment.id
    pub amount :
        reply.refund.amount_minor
        ≡ refunded_amount (truthy_amount body.amount_minor) payment.amount_minor
    pub view : reply.view.payment ≡ set_status (new_status body payment) payment
    pub calls :
        w'.calls
        ≡ w.calls ++ ProviderCall.refund provider.id (refund_input env body ctx external_id) ∷ []

  refund_at_routes :
      (payment : Payment) (external_id : String) (w w' : World) (reply : RefundReply)
      → refund_at env body ctx payment external_id w ≡ (ok reply, w')
      → (provider : PaymentProvider) × (Registry.get payment.provider_id env.registry ≡ ok provider)
  unfolding refund_at
  refund_at_routes payment external_id w w' reply e =
      elim (Result-cases (Registry.get payment.provider_id env.registry)) [
        | inl found ↦ found
        | inr (x, missing) ↦ ground arith
      ]

  refund_at_throws :
      (id external_id : String) (payment : Payment) (w w' : World) (x : Exception)
      → AreDistinct w.payments
      → find (owned_by id ctx.organization_id) w.payments ≡ some payment
      → is_refundable payment.status ≡ true
      → refund_at env body ctx payment external_id w ≡ (err x, w')
      → HasSameTables w w'
        × ((w'.calls ≡ w.calls) ⊎ ((c : ProviderCall) × (w'.calls ≡ w.calls ++ c ∷ [])))
  unfolding refund_at store_refund update_payment
  refund_at_throws id external_id payment w w' x d found good e =
      let by_id = find-has_id (owned_by id ctx.organization_id) payment w.payments d found in
      elim (Result-cases (Registry.get payment.provider_id env.registry)) [
        | inr (y, missing) ↦ (ground arith, inl (ground arith))
        | inl (provider, routed) ↦ (
          ground (arith, transition_holds body payment good),
          inr (
            ProviderCall.refund provider.id (refund_input env body ctx external_id),
            ground (arith, transition_holds body payment good),
          ),
        )
      ]

  refund_at_stores :
      (id external_id : String) (payment : Payment) (provider : PaymentProvider) (w w' : World)
      (reply : RefundReply)
      → AreDistinct w.payments
      → find (owned_by id ctx.organization_id) w.payments ≡ some payment
      → is_refundable payment.status ≡ true
      → truthy payment.external_id ≡ some external_id
      → Registry.get payment.provider_id env.registry ≡ ok provider
      → refund_at env body ctx payment external_id w ≡ (ok reply, w')
      → IsRefunded id w w' reply
  unfolding refund_at store_refund update_payment serialize
  refund_at_stores id external_id payment provider w w' reply d found ok_status external routed e =
      let by_id = find-has_id (owned_by id ctx.organization_id) payment w.payments d found in
      record {
        payment = payment;
        provider = provider;
        external_id = external_id;
        found = found;
        refundable = ground arith;
        external = external;
        routed = routed;
        payments = ground arith;
        refunds = ground arith;
        refund_of = ground arith;
        amount = ground arith;
        view = ground arith;
        calls = ground arith;
      }

  -- The checks: `refund` stops before it does anything, or goes on with a payment that it found.
  refund_checks :
      (id : String) (w w' : World) (r : Result RefundReply)
      → refund_payment env body ctx id w ≡ (r, w')
      → ((x : Exception) × (r ≡ err x) × (w' ≡ w))
        ⊎ ((payment : Payment) × (external_id : String) × (find
                (owned_by id ctx.organization_id)
                w.payments
              ≡ some payment)
            × (is_refundable payment.status ≡ true)
            × (truthy payment.external_id ≡ some external_id)
            × (refund_at env body ctx payment external_id w ≡ (r, w')))
  unfolding refund_payment
  refund_checks id w w' r e = ground arith

  -- A refund that returns has found a captured or partly refunded payment of the caller's
  -- organization; it has asked that payment's provider once, has set the payment's status, and has
  -- stored one refund of it for the amount of the body, or for the whole amount if the body's is
  -- missing or 0.
  pub refund-IsRefunded :
      (id : String) (w w' : World) (reply : RefundReply)
      → AreDistinct w.payments
      → refund_payment env body ctx id w ≡ (ok reply, w')
      → IsRefunded id w w' reply
  refund-IsRefunded id w w' reply d e = elim (refund_checks id w w' (ok reply) e) [
    | inl (x, r, same) ↦ cc
    | inr (payment, external_id, found, good, ext, rest) ↦
        let (provider, routed) = refund_at_routes payment external_id w w' reply rest in
        refund_at_stores id external_id payment provider w w' reply d found good ext routed rest
  ]

  -- A refund that throws has written to no table: the most that it has done is one call of the
  -- provider.
  pub refund_throws :
      (id : String) (w w' : World) (x : Exception)
      → AreDistinct w.payments
      → refund_payment env body ctx id w ≡ (err x, w')
      → HasSameTables w w'
        × ((w'.calls ≡ w.calls) ⊎ ((c : ProviderCall) × (w'.calls ≡ w.calls ++ c ∷ [])))
  refund_throws id w w' x d e = elim (refund_checks id w w' (err x) e) [
    | inl (y, r, same) ↦ (ground arith, inl (ground arith))
    | inr (payment, external_id, found, good, ext, rest) ↦
        refund_at_throws id external_id payment w w' x d found good rest
  ]

  -- A refund keeps the constraints of the table, and every payment with its owner, amount and
  -- provider; a status moves along the diagram only.
  pub refund-Advances :
      (id : String) (w : World)
      → AreDistinct w.payments
      → Advances w.payments (refund_payment env body ctx id w).1.payments
  refund-Advances id w d = finished id w (refund_payment env body ctx id w) refl d
    where
      finished :
          (id : String) (w : World) (m : Result RefundReply × World)
          → refund_payment env body ctx id w ≡ m
          → AreDistinct w.payments
          → Advances w.payments m.1.payments
      finished id w (ok reply, w') e d =
          let s = refund-IsRefunded id w w' reply d e in
          let good : is_refundable s.payment.status ≡ true = ground arith in
          rw s.payments (
            update_row-Advances (owned_by id ctx.organization_id)
              (set_status (new_status body s.payment)) s.payment w.payments (λ p q. (refl, refl)) d
              s.found (set_status-Keeps _ s.payment (new_status_reached body s.payment good)))
      finished id w (err x, w') e d =
          let (same, _) = refund_throws id w w' x d e in
          rw same.payments (Advances-refl w.payments d)
