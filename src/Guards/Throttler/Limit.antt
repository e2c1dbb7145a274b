-- ===== src/Guards/Throttler/Limit.antt =====
-- How many requests of a tenant pass in one window.
use pasarelapagos_backend.Prelude.{
  ℕ, zero, suc, ◌+◌, ◌-◌, String, List, [], ◌∷◌, ◌≡◌, refl, inl, inr, arith, ◌==◌, String_eq, ℕ_eq,
  eq_refl, Bool-cases, ltb, leb, if◌then◌else◌,
}
use pasarelapagos_backend.Errors.{Result, ok, err}
use pasarelapagos_backend.Guards.{Request}
use pasarelapagos_backend.Guards.Throttler.{Counter, count_of, incr, expire, hit}

count_of-incr :
    (key : String) (cs : List Counter) → count_of key (incr key cs) ≡ suc (count_of key cs)
unfolding count_of incr
count_of-incr key [] = rw (eq_refl key) refl
count_of-incr key (c ∷ cs) = elim (Bool-cases (c.key == key)) [
  | inl h ↦ rw h (rw h refl)
  | inr h ↦ rw h (rw h (count_of-incr key cs))
]

count_of-expire :
    (key : String) (seconds : ℕ) (cs : List Counter)
    → count_of key (expire key seconds cs) ≡ count_of key cs
unfolding count_of expire
count_of-expire key seconds [] = refl
count_of-expire key seconds (c ∷ cs) = elim (Bool-cases (c.key == key)) [
  | inl h ↦ rw h (rw h refl)
  | inr h ↦ rw h (rw h (count_of-expire key seconds cs))
]

module _ (ttl limit : ℕ) where
  count_of-hit :
      (key : String) (req : Request) (cs : List Counter)
      → count_of key (hit ttl limit key req cs).1 ≡ suc (count_of key cs)
  unfolding hit
  count_of-hit key req cs =
      let a = count_of-incr key cs in
      let b = count_of-expire key (ttl + 5) (incr key cs) in ground arith

  -- Whether a request that was answered so passed.
  abbrev pub passed : Result Request → ℕ
  passed (ok req) = 1
  passed (err e) = 0

  -- How many of `n` requests under one key, one after another, pass.
  pub passes : (key : String) → Request → ℕ → List Counter → ℕ
  passes key req zero cs = 0
  passes key req (suc n) cs =
      passed (hit ttl limit key req cs).0 + passes key req n (hit ttl limit key req cs).1

  hit-passed :
      (key : String) (req : Request) (cs : List Counter)
      → passed (hit ttl limit key req cs).0 ≡ (if ltb (count_of key cs) limit then 1 else 0)
  unfolding hit
  hit-passed key req cs = let a = count_of-incr key cs in ground arith

  -- Of any number of requests of one tenant in one window, all pass up to the limit and none past
  -- it: as many as there are, or as the limit has left.
  pub passes_lem :
      (key : String) (req : Request) (n : ℕ) (cs : List Counter)
      → passes key req n cs
        ≡ (if leb (n + count_of key cs) limit then n else limit - count_of key cs)
  unfolding passes
  passes_lem key req zero cs = ground arith
  passes_lem key req (suc n) cs =
      let a = hit-passed key req cs in
      let b = count_of-hit key req cs in
      let later = passes_lem key req n (hit ttl limit key req cs).1 in ground arith
