-- ===== src/Controllers/Writing.antt =====
-- Who may move money by the routes of the payments.
use pasarelapagos_backend.Prelude.{
  String, Bool, true, false, none, some, [], ◌≡◌, inl, inr, arith, truthy, lookup, or_else,
  starts_with, slice_from, Option-cases, Bool-cases,
}
use pasarelapagos_backend.Json.{Json}
use pasarelapagos_backend.Errors.{ok, Result-cases}
use pasarelapagos_backend.Context.{TenantContext}
use pasarelapagos_backend.World.{World, TenantApiKey, Action, lift, ◌>>=◌}
use pasarelapagos_backend.Guards.{Request, Permission}
use pasarelapagos_backend.Guards.Auth.{
  Firebase, FirebaseDecodedToken, auth_guard, verify_token, user_of,
}
use pasarelapagos_backend.Guards.Access.{write_guard}
use pasarelapagos_backend.Tenants.ApiKeys.Laws.{LetsIn}
use pasarelapagos_backend.Payments.Create.{PaymentView}
use pasarelapagos_backend.Payments.Create as Create
use pasarelapagos_backend.Payments.Refund.{RefundReply}
use pasarelapagos_backend.Payments.Refund as Refund
use pasarelapagos_backend.Controllers.Payments.{with_tenant}

-- Nothing happened to the payments, and no provider was asked.
pub record HasSamePayments (w w' : World) : Type 0 where
  pub payments : w'.payments ≡ w.payments
  pub events : w'.events ≡ w.events
  pub refunds : w'.refunds ≡ w.refunds
  pub calls : w'.calls ≡ w.calls

module _ (compare : (raw_key key_hash : String) → Bool) (firebase : Firebase) where
  -- Whose request may write: that of a stored key that is active and has not expired, or of a token that grants it.
  pub data IsWriter (req : Request) (w : World) : Type 0 where
    by_key :
        (key : String) (who : TenantContext) (k : TenantApiKey)
        → truthy req.x_api_key ≡ some key
        → LetsIn compare key w who k
        → IsWriter req w
    by_token :
        (header : String) (decoded : FirebaseDecodedToken) (p : Permission)
        → req.authorization ≡ some header
        → starts_with header "Bearer " ≡ true
        → verify_token firebase (slice_from 7 header) ≡ ok decoded
        → lookup "payments" (or_else decoded.product_permissions []) ≡ some p
        → p.can_write ≡ some true
        → IsWriter req w

  pub auth_guard-by_token :
      (req req1 : Request) (w w1 : World)
      → truthy req.x_api_key ≡ none
      → auth_guard compare firebase false req w ≡ (ok req1, w1)
      → (header : String) × (decoded : FirebaseDecodedToken) × (req.authorization ≡ some header)
        × (starts_with header "Bearer " ≡ true)
        × (verify_token firebase (slice_from 7 header) ≡ ok decoded)
        × (req1.user ≡ some (user_of decoded))
  unfolding auth_guard
  auth_guard-by_token req req1 w w1 k e = elim (Option-cases req.authorization) [
    | inl missing ↦ absurd (ground arith)
    | inr (header, there) ↦ elim (Bool-cases (starts_with header "Bearer ")) [
      | inr other ↦ absurd (ground arith)
      | inl bearer ↦ elim (Result-cases (verify_token firebase (slice_from 7 header))) [
        | inr (x, refused) ↦ absurd (ground arith)
        | inl (decoded, verified) ↦ (header, decoded, there, bearer, verified, ground arith)
      ]
    ]
  ]

  -- What the guards of the routes that write let through.
  abbrev guarded : Request → Action Request
  guarded req = do req2 ← with_tenant compare firebase false req; lift (write_guard req2)

  module _ {A : Type 0} (route : Request → Action A) where
    abbrev guarded_route : Request → Action A
    guarded_route req = do
      req2 ← with_tenant compare firebase false req
      req3 ← lift (write_guard req2)
      route req3
