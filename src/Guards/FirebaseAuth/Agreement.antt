-- ===== src/Guards/FirebaseAuth/Agreement.antt =====
-- What the Firebase guard and the authentication guard make of one request.
use pasarelapagos_backend.Prelude.{
  String, Bool, true, false, Option, none, some, [], ◌∷◌, ◌≡◌, refl, inl, inr, arith, ◌&&◌, not,
  ◌==◌, String_eq, eq_iff, truthy, split_at, split_at-two, starts_with, slice_from, size,
  Option-cases, Bool-cases,
}
use pasarelapagos_backend.Errors.{ok}
use pasarelapagos_backend.World.{World}
use pasarelapagos_backend.Guards.{Request}
use pasarelapagos_backend.Guards.Auth.{
  Firebase, FirebaseDecodedToken, auth_guard, verify_token, user_of,
}
use pasarelapagos_backend.Guards.FirebaseAuth.{
  extract_bearer_token, firebase_auth_guard, firebase_user,
}

-- The verification without the check for revoked tokens.
abbrev pub unrevoked : (verify_id_token : String → Bool → Option FirebaseDecodedToken) → Firebase
unrevoked verify_id_token = some (λ token. verify_id_token token false)

-- A header in two parts from which the Firebase guard reads a token.
bearer_header :
    (header type token : String)
    → split_at 32 header ≡ type ∷ token ∷ []
    → type ≡ "Bearer"
    → (starts_with header "Bearer " ≡ true) × (slice_from 7 header ≡ token)
unfolding size
bearer_header header type token e t = rw t at (split_at-two " " header type token e)

module _ (compare : (raw_key key_hash : String) → Bool)
    (verify_id_token : String → Bool → Option FirebaseDecodedToken) where
  -- A request without an API key, with a header of two parts, that the Firebase guard lets in, the
  -- authentication guard lets in too, as the same user but for the email and the name, if a token
  -- that passes with the check for revoked ones passes without it.
  firebase_auth_guard-auth_guard :
      (header type token : String) (req req1 : Request) (w : World)
      → ((t : String) (d : FirebaseDecodedToken)
          → verify_id_token t true ≡ some d
          → verify_id_token t false ≡ some d)
      → truthy req.x_api_key ≡ none
      → req.authorization ≡ some header
      → split_at 32 header ≡ type ∷ token ∷ []
      → firebase_auth_guard (some verify_id_token) false req ≡ ok req1
      → (decoded : FirebaseDecodedToken) × (auth_guard compare
            (unrevoked verify_id_token)
            false
            req
            w
          ≡ (ok (record req { user = some (user_of decoded) }), w))
        × (req1 ≡ record req { user = some (firebase_user decoded) })
  unfolding firebase_auth_guard extract_bearer_token auth_guard verify_token
  firebase_auth_guard-auth_guard header type token req req1 w revocable k there parts e =
      elim (Bool-cases (type == "Bearer" && not (token == ""))) [
        | inr other ↦
            let no_token : extract_bearer_token req.authorization ≡ none =
              rw (there, parts, other) refl in
            absurd (ground arith)
        | inl bearer ↦
            let has_token : extract_bearer_token req.authorization ≡ some token =
              rw (there, parts, bearer) refl in
            let is_bearer : type ≡ "Bearer" = (eq_iff type "Bearer").0 (ground arith) in
            let (starts, cut) = bearer_header header type token parts is_bearer in
            elim (Option-cases (verify_id_token token true)) [
              | inl refused ↦ absurd (ground arith)
              | inr (decoded, good) ↦
                  let still = revocable token decoded good in
                  (decoded, rw (k, there, starts, cut, still) refl, ground arith)
            ]
      ]
