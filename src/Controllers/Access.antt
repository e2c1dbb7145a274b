-- ===== src/Controllers/Access.antt =====
-- What the guards and the services promise together, to the caller of a route.
use pasarelapagos_backend.Prelude.{
  String, Bool, false, some, List, [], ◌∷◌, ◌≡◌, inl, inr, arith, truthy, All, Option-cases,
}
use pasarelapagos_backend.Errors.{ok}
use pasarelapagos_backend.Context.{TenantContext}
use pasarelapagos_backend.World.{World}
use pasarelapagos_backend.Guards.{Request}
use pasarelapagos_backend.Guards.Auth.{Firebase, auth_guard}
use pasarelapagos_backend.Tenants.ApiKeys.{validate, match_of}
use pasarelapagos_backend.Payments.Listing as Listing

pub All-units : {A : Type 0} (xs : List A) → All (λ x. Unit {0}) xs
All-units [] = tt
All-units (x ∷ xs) = (tt, All-units xs)

module _ (compare : (raw_key key_hash : String) → Bool) (firebase : Firebase) where
  -- What the authentication guard makes of a key.
  pub auth_guard-by_key :
      (key : String) (req req1 : Request) (w w1 : World)
      → truthy req.x_api_key ≡ some key
      → auth_guard compare firebase false req w ≡ (ok req1, w1)
      → (who : TenantContext) × (validate compare key w ≡ (ok (some who), w1))
        × (req1.user ≡ req.user)
        × (req1.organization_id ≡ some who.id)
  unfolding auth_guard validate
  auth_guard-by_key key req req1 w w1 k e = elim (Option-cases (match_of compare key w)) [
    | inl missing ↦ absurd (ground arith)
    | inr ((j, t), found) ↦
        (record { id = t.id; name = t.name }, ground arith, ground arith, ground arith)
  ]
