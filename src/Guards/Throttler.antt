-- ===== src/Guards/Throttler.antt =====
-- src/common/guards/tenant-throttler.guard.ts, on the counters that Redis holds.
pub mod Limit
use pasarelapagos_backend.Prelude.{
  ℕ, suc, zero, ◌+◌, ◌/◌, String, Bool, true, false, Option, none, some, List, [], ◌∷◌, ◌==◌,
  String_eq, ℕ_eq, ◌<>◌, ltb, decimal, truthy, if◌then◌else◌,
}
use pasarelapagos_backend.Errors.{Result, ok, err, throttled}
use pasarelapagos_backend.Context.{TenantContext}
use pasarelapagos_backend.Guards.{Request}

pub record Counter : Type 0 where
  pub key : String
  pub count : ℕ
  pub expires_in : Option ℕ

-- `redis.incr(key)`: the counter after it, or 1 where there was none, and all counters.
unfoldable pub count_of : String → List Counter → ℕ
count_of key [] = 0
count_of key (c ∷ cs) = if c.key == key then c.count else count_of key cs

unfoldable pub incr : String → List Counter → List Counter
incr key [] = record { key = key; count = 1; expires_in = none } ∷ []
incr key (c ∷ cs) = if c.key == key then record c { count = suc c.count } ∷ cs else c ∷ incr key cs

-- `redis.expire(key, seconds)`
unfoldable pub expire : String → ℕ → List Counter → List Counter
expire key seconds [] = []
expire key seconds (c ∷ cs) =
    if c.key == key then record c { expires_in = some seconds } ∷ cs else c ∷ expire key seconds cs

-- `now` is `Date.now()`, and `ttl` and `limit` come from the environment.
module _ (ttl limit : ℕ) where
  abbrev pub window_key : (tenant_id : String) → (now : ℕ) → String
  window_key tenant_id now = "rl:" <> tenant_id <> ":" <> decimal (now / 1000 / ttl)

  unfoldable pub hit : String → Request → List Counter → Result Request × List Counter
  unfolding count_of incr expire
  hit key req counters =
      let counted = incr key counters in
      let current = count_of key counted in
      (
        if ltb limit current then err throttled else ok req,
        if current == 1 then expire key (ttl + 5) counted else counted,
      )

  abbrev throttle :
      Option TenantContext → ℕ → Request → List Counter → Result Request × List Counter
  throttle none now req counters = (ok req, counters)
  throttle (some t) now req counters =
      if t.id == "" then (ok req, counters) else hit (window_key t.id now) req counters

  -- `TenantThrottlerGuard.canActivate`
  unfoldable pub throttler_guard :
      (is_public : Bool) → ℕ → Request → List Counter → Result Request × List Counter
  throttler_guard true now req counters = (ok req, counters)
  throttler_guard false now req counters = throttle req.tenant now req counters
