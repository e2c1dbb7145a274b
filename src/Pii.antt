-- ===== src/Pii.antt =====
-- src/common/services/pii.service.ts. AES-256-GCM and the random IV of node's `crypto` are parameters,
-- on texts in hex; the key is missing where `PII_ENCRYPTION_KEY` is not set.
pub mod RoundTrip
use Prim.Native.Char.{Char, code}
use Prim.Native.String
use pasarelapagos_backend.Prelude.{
  ℕ, String, Bool, true, false, Option, none, some, List, [], ◌∷◌, ◌==◌, ℕ_eq, ◌<>◌, starts_with,
  slice_from, size, truthy, or_else, if◌then◌else◌,
}
use pasarelapagos_backend.Errors.{Result, ok, err, Exception, error}

abbrev pub version : String
version = "enc:v1:"

abbrev push : Char → List String → List String
push c [] = String.◌∷◌ c "" ∷ []
push c (s ∷ ss) = String.◌∷◌ c s ∷ ss

-- `s.split(':')`
unfoldable pub split : String → List String
split String.[] = "" ∷ []
split (String.◌∷◌ c s) = let rest = split s in if code c == 58 then "" ∷ rest else push c rest

-- `onModuleInit`: the key as hex, unless it is not set or empty
abbrev sized : Option String → Result (Option String)
sized none = ok none
sized (some key_hex) =
    if size key_hex == 64
    then ok (some key_hex)
    else err (error "PII_ENCRYPTION_KEY debe ser 32 bytes hex (64 caracteres).")

unfoldable pub load_key : Option String → Result (Option String)
unfolding size
load_key key_hex = sized (truthy key_hex)

-- `searchHash`
unfoldable pub search_hash : (sha256 : String → String) → Option String → String → String
search_hash sha256 salt value = sha256 (or_else salt "default-salt" <> value)

-- `isEncrypted`
unfoldable pub is_encrypted : String → Bool
unfolding starts_with
is_encrypted value = starts_with value version

module _ (random_iv : ℕ → String) (seal : (key iv plaintext : String) → String × String) where
  abbrev sealed : String → String × String → String
  sealed iv (tag, body) = version <> iv <> ":" <> tag <> ":" <> body

  -- `encrypt`; `n` is the number of the call.
  unfoldable pub encrypt : Option String → ℕ → String → String
  unfolding is_encrypted
  encrypt none n plaintext = plaintext
  encrypt (some key) n plaintext =
      if is_encrypted plaintext
      then plaintext
      else sealed (random_iv n) (seal key (random_iv n) plaintext)

module _ (unseal : (key iv tag body : String) → Option String) where
  abbrev unsealed : Option String → Result String
  unsealed none = err (error "Unsupported state or unable to authenticate body")
  unsealed (some plaintext) = ok plaintext

  abbrev open_parts : String → List String → Result String
  open_parts key (iv ∷ tag ∷ body ∷ []) = unsealed (unseal key iv tag body)
  open_parts key _ = err (error "Formato de cifrado inválido.")

  -- `decrypt`
  unfoldable pub decrypt : Option String → String → Result String
  unfolding is_encrypted split slice_from size
  decrypt none ciphertext = ok ciphertext
  decrypt (some key) ciphertext =
      if is_encrypted ciphertext
      then open_parts key (split (slice_from (size version) ciphertext))
      else ok ciphertext
