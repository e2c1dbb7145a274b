-- ===== src/Idempotency.antt =====
-- src/common/interceptors/idempotency.interceptor.ts, around a handler that is an argument. The hash of
-- a body is `hash(JSON.stringify(body))`, and Redis is a list of entries, the latest first.
pub mod Replay
use pasarelapagos_backend.Prelude.{
  ℕ, ◌+◌, String, Bool, true, false, Option, none, some, List, [], ◌∷◌, ◌&&◌, ◌==◌, String_eq, ◌<>◌,
  ltb, truthy, find, if◌then◌else◌,
}
use pasarelapagos_backend.Errors.{Result, ok, err, conflict}
use pasarelapagos_backend.Context.{TenantContext}

-- What the caller is answered.
pub record Reply (A : Type 0) : Type 0 where
  pub status_code : ℕ
  pub response : A

pub record Entry (A : Type 0) : Type 0 where
  pub key : String
  pub body_hash : String
  pub reply : Reply A
  pub expires_at : ℕ

-- `idemp:{tenantId}:{idempotency-key}`
abbrev pub tenant_part : Option TenantContext → String
tenant_part none = "anonymous"
tenant_part (some t) = t.id

abbrev pub redis_key : Option TenantContext → String → String
redis_key tenant idemp_key = "idemp:" <> tenant_part tenant <> ":" <> idemp_key

-- `TTL_SECONDS`, in milliseconds
abbrev pub ttl_ms : ℕ
ttl_ms = 86400000

module _ {A : Type 0} where
  abbrev pub is_live : String → ℕ → Entry A → Bool
  is_live key now e = e.key == key && ltb now e.expires_at

  -- `redis.get`
  unfoldable pub get : String → ℕ → List (Entry A) → Option (Entry A)
  unfolding find
  get key now cache = find (is_live key now) cache

  module _ {S : Type 0} (next : S → Result (Reply A) × S) (now : ℕ) where
    -- `tap`: what the handler returns is kept, a throw is not.
    abbrev pub keep :
        String
        → String
        → List (Entry A)
        → Result (Reply A) × S
        → Result (Reply A) × (S × List (Entry A))
    keep key hash cache (ok reply, s) = (
      ok reply,
      (s, record { key = key; body_hash = hash; reply = reply; expires_at = now + ttl_ms } ∷ cache),
    )
    keep key hash cache (err e, s) = (err e, (s, cache))

    abbrev answer :
        String
        → String
        → Option (Entry A)
        → S
        → List (Entry A)
        → Result (Reply A) × (S × List (Entry A))
    answer key hash none s cache = keep key hash cache (next s)
    answer key hash (some e) s cache =
        if e.body_hash == hash
        then (ok e.reply, (s, cache))
        else (err (conflict "Idempotency-Key reutilizada con un body diferente"), (s, cache))

    abbrev pass : Result (Reply A) × S → List (Entry A) → Result (Reply A) × (S × List (Entry A))
    pass (r, s) cache = (r, (s, cache))

    abbrev with_key :
        Option String
        → Option TenantContext
        → String
        → S
        → List (Entry A)
        → Result (Reply A) × (S × List (Entry A))
    with_key none tenant hash s cache = pass (next s) cache
    with_key (some idemp_key) tenant hash s cache =
        let key = redis_key tenant idemp_key in answer key hash (get key now cache) s cache

    -- `intercept`
    unfoldable pub intercept :
        Option String
        → Option TenantContext
        → String
        → S
        → List (Entry A)
        → Result (Reply A) × (S × List (Entry A))
    unfolding get
    intercept idemp_key tenant hash s cache = with_key (truthy idemp_key) tenant hash s cache
