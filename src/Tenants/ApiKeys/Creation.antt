-- ===== src/Tenants/ApiKeys/Creation.antt =====
-- What a new API key is good for.
use pasarelapagos_backend.Prelude.{
  ℕ, zero, suc, String, Bool, true, false, Option, none, some, List, [], ◌∷◌, ◌++◌, ◌≡◌, refl, ap,
  ◌∙◌, inl, inr, String_eq, ◌<>◌, arith, All, find, filter, eq_refl, Bool-cases, Option-cases,
  slice_to, size, starts_with, starts_with-append, slice_from-append, slice_to-append,
}
use pasarelapagos_backend.Errors.{ok}
use pasarelapagos_backend.World.{World, Tenant, TenantApiKey}
use pasarelapagos_backend.Tenants.ApiKeys.{
  CreateApiKeyResult, has_tenant_id, create_key, is_candidate, prefix_of, raw_key_of, expiry,
  unexpired, admits, first_match, match_of, validate, create, new_key,
}
use pasarelapagos_backend.Tenants.ApiKeys.Laws.{admits-some}

-- A key is found by what it was created as.
prefix-raw_key :
    (random : String)
    → size (slice_to 8 random) ≡ 8
    → prefix_of (raw_key_of random) ≡ slice_to 8 random
unfolding size
prefix-raw_key random long =
    ap (slice_to 8) (slice_from-append "pk_" (slice_to 8 random <> "_" <> random))
    ∙ slice_to-append 8 random ("_" <> random) long

module _ (compare : (raw_key key_hash : String) → Bool) (cuid nanoid : ℕ → String)
    (hash : (raw_key : String) (salt : ℕ) → String) where
  last_match :
      (raw_key : String) (tenants : List Tenant) (c : TenantApiKey → Bool) (ks : List TenantApiKey)
      (k : TenantApiKey) (t : Tenant)
      → All (λ j. compare raw_key j.key_hash ≡ false) ks
      → c k ≡ true
      → admits compare raw_key tenants k ≡ some t
      → first_match compare raw_key tenants (filter c (ks ++ k ∷ [])) ≡ some (k, t)
  unfolding first_match filter
  last_match raw_key tenants c [] k t h good a = rw (good, a) refl
  last_match raw_key tenants c (j ∷ ks) k t (p, h) good a =
      let later = last_match raw_key tenants c ks k t h good a in
      elim (Bool-cases (c j)) [
        | inr out ↦ rw out later
        | inl kept ↦ elim (Option-cases (admits compare raw_key tenants j)) [
          | inl refused ↦ rw (kept, refused) later
          | inr (u, let_in) ↦ let (_, _, m) = admits-some compare raw_key tenants j u let_in in cc
        ]
      ]

  create-stores :
      (tenant_id label : String) (days : Option ℕ) (w w' : World) (res : CreateApiKeyResult)
      → create cuid nanoid hash tenant_id label days w ≡ (ok res, w')
      → (res.raw_key ≡ raw_key_of (nanoid w.minted))
        × (w'.api_keys
            ≡ w.api_keys ++ new_key cuid nanoid hash tenant_id label days w.now w.minted ∷ [])
        × (w'.tenants ≡ w.tenants)
        × (w'.now ≡ w.now)
  unfolding create create_key
  create-stores tenant_id label days w w' res e =
      (ground arith, ground arith, ground arith, ground arith)

  expiry-unexpired : (now : ℕ) (days : Option ℕ) → unexpired now (expiry now days) ≡ true
  expiry-unexpired now none = refl
  expiry-unexpired now (some zero) = refl
  expiry-unexpired now (some (suc days)) = ground arith

  new_key-candidate :
      (tenant_id label : String) (days : Option ℕ) (now n : ℕ)
      → size (slice_to 8 (nanoid n)) ≡ 8
      → is_candidate
          (prefix_of (raw_key_of (nanoid n)))
          now
          (new_key cuid nanoid hash tenant_id label days now n)
        ≡ true
  new_key-candidate tenant_id label days now n long =
      rw (prefix-raw_key (nanoid n) long, eq_refl (slice_to 8 (nanoid n)))
        (expiry-unexpired now days)

  new_key-admits :
      (tenant_id label : String) (days : Option ℕ) (t : Tenant) (tenants : List Tenant) (now n : ℕ)
      → compare (raw_key_of (nanoid n)) (hash (raw_key_of (nanoid n)) n) ≡ true
      → find (has_tenant_id tenant_id) tenants ≡ some t
      → t.active ≡ true
      → admits compare
          (raw_key_of (nanoid n))
          tenants
          (new_key cuid nanoid hash tenant_id label days now n)
        ≡ some t
  unfolding admits
  new_key-admits tenant_id label days t tenants now n right its active_t = ground arith

  -- A key that was just created lets its tenant in, if the tenant is active and the new key matches
  -- the hash of no older key.
  pub create-validate :
      (tenant_id label : String) (days : Option ℕ) (t : Tenant) (w w' : World)
      (res : CreateApiKeyResult)
      → ((raw_key : String) (salt : ℕ) → compare raw_key (hash raw_key salt) ≡ true)
      → ((n : ℕ) → size (slice_to 8 (nanoid n)) ≡ 8)
      → create cuid nanoid hash tenant_id label days w ≡ (ok res, w')
      → find (has_tenant_id tenant_id) w.tenants ≡ some t
      → t.active ≡ true
      → All (λ k. compare res.raw_key k.key_hash ≡ false) w.api_keys
      → (validate compare res.raw_key w').0 ≡ ok (some (record { id = t.id; name = t.name }))
  unfolding validate match_of
  create-validate tenant_id label days t w w' res right long e its active_t others =
      let n = w.minted in
      let raw = raw_key_of (nanoid n) in
      let (raw_is, rows, tenants_are, now_is) = create-stores tenant_id label days w w' res e in
      let pk : starts_with raw "pk_" ≡ true =
        starts_with-append "pk_" (slice_to 8 (nanoid n) <> "_" <> nanoid n) in
      let found =
        last_match raw w.tenants (is_candidate (prefix_of raw) w.now) w.api_keys
          (new_key cuid nanoid hash tenant_id label days w.now n) t (rw raw_is at others)
          (new_key-candidate tenant_id label days w.now n (long n))
          (new_key-admits tenant_id label days t w.tenants w.now n (right raw n) its active_t) in
      rw (raw_is, rows, tenants_are, now_is, pk, found) refl
