-- ===== src/Idempotency/Replay.antt =====
-- What a request that is sent again under its key is answered.
use pasarelapagos_backend.Prelude.{
  ℕ, ◌+◌, ◌<◌, String, true, Option, none, some, List, ◌≡◌, inl, inr, arith, ◌==◌, String_eq,
  eq_refl, truthy, find, ltb, if◌then◌else◌,
}
use pasarelapagos_backend.Errors.{Result, ok, err, conflict, Result-cases}
use pasarelapagos_backend.Context.{TenantContext}
use pasarelapagos_backend.Idempotency.{Reply, Entry, redis_key, ttl_ms, get, intercept}

module _ {A S : Type 0} (next : S → Result (Reply A) × S) where
  -- A request that was answered by its handler, sent again under its key by the same tenant within
  -- 24 hours, is answered with the same status and response, and another body under that key with
  -- a conflict; the handler is not run, and the cache stays.
  pub intercept_again :
      (now later : ℕ) (k : Option String) (key : String) (tenant : Option TenantContext)
      (hash hash' : String) (s s' t : S) (cache cache' : List (Entry A)) (reply : Reply A)
      → truthy k ≡ some key
      → get (redis_key tenant key) now cache ≡ none
      → intercept next now k tenant hash s cache ≡ (ok reply, (s', cache'))
      → later < now + ttl_ms
      → intercept next later k tenant hash' t cache' ≡ (
        if hash == hash'
            then ok reply
            else err (conflict "Idempotency-Key reutilizada con un body diferente"),
        (t, cache'),
      )
  unfolding intercept get find
  intercept_again now later k key tenant hash hash' s s' t cache cache' reply is_set fresh e soon =
      elim (Result-cases (next s).0) [
        | inr (x, threw) ↦ absurd (ground arith)
        | inl (r, good) ↦
            let same_key = eq_refl (redis_key tenant key) in
            let in_time : ltb later (now + ttl_ms) ≡ true = ground arith in ground arith
      ]
