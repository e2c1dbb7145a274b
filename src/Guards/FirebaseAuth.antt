-- ===== src/Guards/FirebaseAuth.antt =====
-- src/common/guards/firebase-auth.guard.ts. `request.firebaseUser`, which nothing reads, is left out.
pub mod Agreement
use pasarelapagos_backend.Prelude.{
  String, Bool, true, false, Option, none, some, List, [], ◌∷◌, ◌&&◌, not, ◌==◌, String_eq, or_else,
  split_at, if◌then◌else◌,
}
use pasarelapagos_backend.Errors.{Result, ok, err, unauthorized}
use pasarelapagos_backend.Guards.{Request, User}
use pasarelapagos_backend.Guards.Auth.{FirebaseDecodedToken}

-- `firebase.auth().verifyIdToken`, also with `checkRevoked`
abbrev pub RevocableFirebase : Type 0
RevocableFirebase = Option ((token : String) → (check_revoked : Bool) → Option FirebaseDecodedToken)

-- `extractBearerToken`
abbrev token_in : List String → Option String
token_in [] = none
token_in (type ∷ []) = none
token_in (type ∷ token ∷ rest) = if type == "Bearer" && not (token == "") then some token else none

unfoldable pub extract_bearer_token : Option String → Option String
unfolding split_at
extract_bearer_token none = none
extract_bearer_token (some header) = token_in (split_at 32 header)

abbrev pub firebase_user : FirebaseDecodedToken → User
firebase_user d = record {
  uid = d.uid;
  email = some (or_else d.email "");
  name = none;
  product_permissions = or_else d.product_permissions [];
  organizations = or_else d.organizations [];
  role = none;
}

abbrev let_in : Request → Option FirebaseDecodedToken → Result Request
let_in req none = err (unauthorized "Token inválido o expirado")
let_in req (some decoded) = ok (record req { user = some (firebase_user decoded) })

abbrev verified : RevocableFirebase → Request → Option String → Result Request
verified firebase req none =
    err (unauthorized "Autenticación requerida: Authorization: Bearer <firebaseToken>")
verified none req (some token) = err (unauthorized "Firebase no configurado en este entorno")
verified (some verify_id_token) req (some token) = let_in req (verify_id_token token true)

-- `FirebaseAuthGuard.canActivate`
unfoldable pub firebase_auth_guard :
    RevocableFirebase → (is_public : Bool) → Request → Result Request
unfolding extract_bearer_token
firebase_auth_guard firebase true req = ok req
firebase_auth_guard firebase false req =
    verified firebase req (extract_bearer_token req.authorization)
