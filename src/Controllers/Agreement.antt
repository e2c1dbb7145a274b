-- ===== src/Controllers/Agreement.antt =====
-- What the two routes of the auth controller say of one caller.
use pasarelapagos_backend.Prelude.{
  String, Bool, true, false, Option, none, some, List, [], ◌≡◌, refl, inl, inr, arith, truthy,
  lookup, or_else, Option-cases,
}
use pasarelapagos_backend.Errors.{ok, Result-cases}
use pasarelapagos_backend.Context.{OrgContext}
use pasarelapagos_backend.World.{World}
use pasarelapagos_backend.Guards.{Request, Permission}
use pasarelapagos_backend.Guards.Auth.{Firebase, FirebaseDecodedToken, auth_guard, user_of}
use pasarelapagos_backend.Guards.Access.{tenant_guard, right}
use pasarelapagos_backend.Guards.Access.Isolation.{Granted, tenant_guard-Granted, by_key, by_user}
use pasarelapagos_backend.Controllers.Payments.{with_tenant}
use pasarelapagos_backend.Controllers.Auth.{Me, Verified, me, verify, grants_reading, permission}
use pasarelapagos_backend.Controllers.Writing.{auth_guard-by_token}

-- A token that grants reading to the guard grants it to `verify`.
right-grants_reading :
    (ps : Option (List (String × Permission)))
    → right (λ p. p.can_read) (lookup "payments" (or_else ps [])) false ≡ true
    → grants_reading (permission ps) ≡ true
unfolding lookup
right-grants_reading none e = ground arith
right-grants_reading (some ps) e = elim (Option-cases (lookup "payments" ps)) [
  | inl silent ↦ absurd (ground arith)
  | inr (p, found) ↦ ground arith
]

module _ (compare : (raw_key key_hash : String) → Bool) (firebase : Firebase) where
  token_context :
      (decoded : FirebaseDecodedToken) (req1 : Request) (ctx : OrgContext)
      → req1.user ≡ some (user_of decoded)
      → Granted false req1 ctx
      → (ctx.user_id ≡ decoded.uid)
        × (ctx.can_read ≡ true)
        × (grants_reading (permission decoded.product_permissions) ≡ true)
  token_context decoded req1 ctx u (by_key org anonymous o c) = absurd (ground arith)
  token_context decoded req1 ctx u (by_user org user can_write has h m r wr c) =
      let same : user ≡ user_of decoded = ground arith in
      let can = rw same at r in
      (ground arith, ground arith, right-grants_reading decoded.product_permissions can)

  -- In production a caller by token to whom `me` answers is one of whom `verify` says, by the same
  -- header, that they have access to the payments, with the same user id; and `me` says that they may
  -- read.
  pub me-verify :
      (req : Request) (w w' : World) (m : Me)
      → truthy req.x_api_key ≡ none
      → me compare firebase false req w ≡ (ok m, w')
      → (v : Verified) × (verify firebase req.authorization ≡ ok v)
        × (v.has_payments_access ≡ true)
        × (v.uid ≡ m.user_id)
        × (m.can_read ≡ true)
  unfolding me with_tenant verify
  me-verify req w w' m k e = elim (Result-cases ((auth_guard compare firebase false req w).0)) [
    | inr (x, refused) ↦ absurd (ground arith)
    | inl (req1, passed) ↦
        let w1 = (auth_guard compare firebase false req w).1 in
        let whole : auth_guard compare firebase false req w ≡ (ok req1, w1) = ground arith in
        let (header, decoded, there, bearer, verified, u1) =
          auth_guard-by_token compare firebase req req1 w w1 k whole in
        elim (Result-cases (tenant_guard false false req1)) [
          | inr (x, refused) ↦ absurd (ground arith)
          | inl (req2, second) ↦
              let (ctx, has, granted) = tenant_guard-Granted false req1 req2 second in
              let (a, b, c) = token_context decoded req1 ctx u1 granted in
              (
                record {
                  valid = true;
                  uid = decoded.uid;
                  email = decoded.email;
                  has_payments_access = true;
                },
                ground arith,
                refl,
                ground arith,
                ground arith,
              )
        ]
  ]
