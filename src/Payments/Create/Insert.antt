-- ===== src/Payments/Create/Insert.antt =====
-- What the first transaction of `create` stores.
use pasarelapagos_backend.Prelude.{
  ℕ, String, true, false, refl, Option, none, some, ◌≡◌, inl, inr, arith, any, [], ◌∷◌, ◌++◌,
  truthy,
}
use pasarelapagos_backend.Context.{OrgContext, Env}
use pasarelapagos_backend.Errors.{ok, err, error, Exception, Result-cases}
use pasarelapagos_backend.Providers.{PaymentProvider}
use pasarelapagos_backend.World.{
  World, Payment, PaymentMethodKind, clashes, unique_failed, create_payment, transaction,
}
use pasarelapagos_backend.World.Rows.{HasSameTables}
use pasarelapagos_backend.Payments.Create.{
  CreatePaymentDto, new_payment, insert_pending, customer_of, upsert_customer,
}

module _ (env : Env) (dto : CreatePaymentDto) (key : String) (ctx : OrgContext) where
  -- The customer's part touches neither the payments, nor the measurements, nor the calls.
  customer_of_frame :
      (o : Option String) (w : World)
      → ((customer_of env dto key ctx o w).1.payments ≡ w.payments)
        × ((customer_of env dto key ctx o w).1.samples ≡ w.samples)
        × ((customer_of env dto key ctx o w).1.calls ≡ w.calls)
        × ((customer_of env dto key ctx o w).1.now ≡ w.now)
  unfolding customer_of upsert_customer
  customer_of_frame o w = ground arith

  customer_of_returns :
      (o : Option String) (w : World)
      → (c : Option String) × ((customer_of env dto key ctx o w).0 ≡ ok c)
  unfolding customer_of upsert_customer
  customer_of_returns none w = (none, refl)
  customer_of_returns (some id) w =
      elim (Result-cases (customer_of env dto key ctx (some id) w).0) [
        | inl (c, good) ↦ (c, good)
        | inr (x, bad) ↦ absurd (ground arith)
      ]

  module _ (provider : PaymentProvider) (method : PaymentMethodKind) where
    pub record IsInserted (w w' : World) (p : Payment) : Type 0 where
      pub customer_id : Option String
      pub number : ℕ
      pub row : p ≡ new_payment env dto key ctx provider method customer_id number w.now
      pub fresh : any (clashes p) w.payments ≡ false
      pub payments : w'.payments ≡ w.payments ++ p ∷ []
      pub samples : w'.samples ≡ w.samples
      pub calls : w'.calls ≡ w.calls
      pub now : w'.now ≡ w.now

    pub insert_pending-IsInserted :
        (w w' : World) (p : Payment)
        → transaction (insert_pending env dto key ctx provider method) w ≡ (ok p, w')
        → IsInserted w w' p
    unfolding insert_pending create_payment
    insert_pending-IsInserted w w' p e =
        elim (Result-cases (customer_of env dto key ctx (truthy dto.customer_id) w).0) [
          | inr (x, bad) ↦ absurd (ground arith)
          | inl (c, good) ↦
              let frame = customer_of_frame (truthy dto.customer_id) w in
              record {
                customer_id = c;
                number = (customer_of env dto key ctx (truthy dto.customer_id) w).1.minted;
                row = ground (arith, frame);
                fresh = ground (arith, frame);
                payments = ground (arith, frame);
                samples = ground (arith, frame);
                calls = ground (arith, frame);
                now = ground (arith, frame);
              }
        ]

    -- The table refuses the new row, as its id or its key is taken.
    pub record IsRefused (w : World) (x : Exception) : Type 0 where
      pub customer_id : Option String
      pub number : ℕ
      pub taken :
          any
            (clashes (new_payment env dto key ctx provider method customer_id number w.now))
            w.payments
          ≡ true
      pub is_it : x ≡ error unique_failed

    refused :
        (w w' : World) (x : Exception)
        → transaction (insert_pending env dto key ctx provider method) w ≡ (err x, w')
        → IsRefused w x
    unfolding insert_pending create_payment
    refused w w' x e =
        elim (Result-cases (customer_of env dto key ctx (truthy dto.customer_id) w).0) [
          | inr (y, bad) ↦ absurd (ground (arith, customer_of_returns (truthy dto.customer_id) w))
          | inl (c, good) ↦
              let frame = customer_of_frame (truthy dto.customer_id) w in
              record {
                customer_id = c;
                number = (customer_of env dto key ctx (truthy dto.customer_id) w).1.minted;
                taken = ground (arith, frame);
                is_it = ground (arith, frame);
              }
        ]

    pub insert_pending_throws :
        (w w' : World) (x : Exception)
        → transaction (insert_pending env dto key ctx provider method) w ≡ (err x, w')
        → HasSameTables w w' × (w'.samples ≡ w.samples) × (w'.calls ≡ w.calls) × IsRefused w x
    unfolding insert_pending create_payment
    insert_pending_throws w w' x e =
        elim (Result-cases (insert_pending env dto key ctx provider method w).0) [
          | inl (p, good) ↦ absurd (ground arith)
          | inr (y, bad) ↦ (ground arith, ground arith, ground arith, refused w w' x e)
        ]
