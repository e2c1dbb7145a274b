-- ===== src/Controllers/Auth.antt =====
-- src/modules/auth/auth.controller.ts
use pasarelapagos_backend.Prelude.{
  String, Bool, true, false, Option, none, some, or_else, lookup, starts_with, slice_from,
  if◌then◌else◌, List, String_eq,
}
use pasarelapagos_backend.Errors.{Result, ok, err, unauthorized}
use pasarelapagos_backend.World.{Action, pure, ◌>>=◌}
use pasarelapagos_backend.Guards.{Request, Permission}
use pasarelapagos_backend.Guards.Auth.{Firebase, FirebaseDecodedToken, verify_token}
use pasarelapagos_backend.Controllers.Payments.{with_tenant, org_ctx}

pub record Me : Type 0 where
  pub organization_id : String
  pub user_id : String
  pub can_read : Bool
  pub can_write : Bool
  pub product : String

pub record Verified : Type 0 where
  pub valid : Bool
  pub uid : String
  pub email : Option String
  pub has_payments_access : Bool

-- `me`, behind the guards of the payments
unfoldable pub me :
    (compare : (raw_key key_hash : String) → Bool)
    → Firebase
    → (is_dev : Bool) → Request
    → Action Me
me compare firebase is_dev req = do
  req2 ← with_tenant compare firebase is_dev req
  ctx ← org_ctx compare firebase is_dev req2
  pure (record {
    organization_id = ctx.organization_id;
    user_id = ctx.user_id;
    can_read = ctx.can_read;
    can_write = ctx.can_write;
    product = "payments";
  })

abbrev pub grants_reading : Option Permission → Bool
grants_reading none = false
grants_reading (some p) = or_else p.can_read false

abbrev pub permission : Option (List (String × Permission)) → Option Permission
permission none = none
permission (some permissions) = lookup "payments" permissions

abbrev shown : Result FirebaseDecodedToken → Result Verified
shown (err e) = err e
shown (ok decoded) = ok (record {
  valid = true;
  uid = decoded.uid;
  email = decoded.email;
  has_payments_access = grants_reading (permission decoded.product_permissions);
})

-- `verify`
unfoldable pub verify : Firebase → Option String → Result Verified
verify firebase none = err (unauthorized "Falta Bearer token")
verify firebase (some header) =
    if starts_with header "Bearer "
    then shown (verify_token firebase (slice_from 7 header))
    else err (unauthorized "Falta Bearer token")
