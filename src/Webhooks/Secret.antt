-- ===== src/Webhooks/Secret.antt =====
-- src/modules/webhooks/webhook-secret.service.ts. The HMAC of node's `crypto`, as hex, is a parameter.
pub mod Rotation
use Prim.Native.String
use Prim.Native.Char.{Char}
use Prim.Native.String.{len}
use pasarelapagos_backend.Prelude.{
  String, Bool, true, false, Option, none, some, ◌||◌, ◌==◌, String_eq, ◌<>◌, truthy, starts_with,
  slice_from, size, if◌then◌else◌,
}

pub record WebhookSecretService : Type 0 where
  pub current : String
  pub previous : Option String

abbrev pub matches_previous : (String → String) → Option String → String → Bool
matches_previous hash none clean = false
matches_previous hash (some secret) clean = hash secret == clean

-- `s.replace(t, '')`: the first occurrence of `t` is taken out.
unfoldable pub remove_first : (t s : String) → String
unfolding starts_with slice_from size
remove_first t String.[] = ""
remove_first t (String.◌∷◌ c s) =
    let later = String.◌∷◌ c (remove_first t s) in
    if starts_with (String.◌∷◌ c s) t then slice_from (size t) (String.◌∷◌ c s) else later

abbrev pub clean : String → String
clean signature = remove_first "sha256=" signature

module _ (hmac : (body secret : String) → String) where
  unfoldable pub verify : WebhookSecretService → String → String → Bool
  unfolding remove_first
  verify s raw signature =
      hmac raw s.current == clean signature
      || matches_previous (hmac raw) (truthy s.previous) (clean signature)

  unfoldable pub sign : WebhookSecretService → String → String
  sign s raw = "sha256=" <> hmac raw s.current
