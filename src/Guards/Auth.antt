-- ===== src/Guards/Auth.antt =====
-- src/common/guards/auth.guard.ts, src/common/guards/api-key.guard.ts and
-- src/modules/firebase/firebase-auth.service.ts. Whether a route is `@Public()` is an argument.
use pasarelapagos_backend.Prelude.{
  String, Bool, true, false, Option, none, some, List, [], or_else, starts_with, slice_from, truthy,
  if◌then◌else◌,
}
use pasarelapagos_backend.Errors.{Result, ok, err, unauthorized}
use pasarelapagos_backend.Context.{TenantContext}
use pasarelapagos_backend.World.{Action, pure, throw, or_throw, lift, ◌>>=◌}
use pasarelapagos_backend.Tenants.ApiKeys.{validate}
use pasarelapagos_backend.Guards.{Request, User, Permission}

pub record FirebaseDecodedToken : Type 0 where
  pub uid : String
  pub email : Option String
  pub name : Option String
  pub organization_id : Option String
  pub product_permissions : Option (List (String × Permission))
  pub organizations : Option (List String)

-- `firebase.auth().verifyIdToken`: none is a throw. There is no app where Firebase is not set up.
abbrev pub Firebase : Type 0
Firebase = Option (String → Option FirebaseDecodedToken)

unfoldable pub verify_token : Firebase → String → Result FirebaseDecodedToken
verify_token none token = err (unauthorized "Firebase Auth no está configurado en este servidor")
verify_token (some verify_id_token) token = elim (verify_id_token token) [
  | none ↦ err (unauthorized "Token inválido o expirado")
  | some decoded ↦ ok decoded
]

abbrev pub user_of : FirebaseDecodedToken → User
user_of d = record {
  uid = d.uid;
  email = d.email;
  name = d.name;
  product_permissions = or_else d.product_permissions [];
  organizations = or_else d.organizations [];
  role = none;
}

abbrev pub bad_key : String
bad_key = "API key inválida o expirada"

abbrev pub no_credentials : String
no_credentials = "Autenticación requerida: x-api-key o Authorization: Bearer <token>"

module _ (compare : (raw_key key_hash : String) → Bool) (firebase : Firebase) where
  abbrev with_key : Request → TenantContext → Request
  with_key req t = record req { tenant = some t; organization_id = some t.id }

  abbrev pub by_key : String → Request → Action Request
  by_key key req = do
    found ← validate compare key
    tenant ← or_throw found (unauthorized bad_key)
    pure (with_key req tenant)

  abbrev with_user : Request → FirebaseDecodedToken → Request
  with_user req d = record req { user = some (user_of d) }

  abbrev by_token : String → Request → Action Request
  by_token header req =
      if starts_with header "Bearer "
      then (do
        decoded ← lift (verify_token firebase (slice_from 7 header))
        pure (with_user req decoded))
      else throw (unauthorized no_credentials)

  abbrev by_header : Option String → Request → Action Request
  by_header none req = throw (unauthorized no_credentials)
  by_header (some header) req = by_token header req

  abbrev by_credentials : Option String → Request → Action Request
  by_credentials none req = by_header req.authorization req
  by_credentials (some key) req = by_key key req

  -- `AuthGuard.canActivate`
  unfoldable pub auth_guard : (is_public : Bool) → Request → Action Request
  auth_guard true req = pure req
  auth_guard false req = by_credentials (truthy req.x_api_key) req

  -- `ApiKeyGuard.canActivate`
  abbrev by_key_only : Option String → Request → Action Request
  by_key_only none req = throw (unauthorized "Falta el header x-api-key")
  by_key_only (some key) req = do
    found ← validate compare key
    tenant ← or_throw found (unauthorized bad_key)
    pure (record req { tenant = some tenant })

  unfoldable pub api_key_guard : (is_public : Bool) → Request → Action Request
  api_key_guard true req = pure req
  api_key_guard false req = by_key_only (truthy req.x_api_key) req
