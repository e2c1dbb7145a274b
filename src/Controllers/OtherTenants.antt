-- ===== src/Controllers/OtherTenants.antt =====
-- What the routes of the API keys leave of the keys of other tenants.
use pasarelapagos_backend.Prelude.{
  ℕ, String, Bool, true, false, Option, none, some, List, [], ◌∷◌, ◌++◌, ◌≡◌, refl, inl, inr, arith,
  ◌==◌, String_eq, All, All-map, map, find, any, find-none_iff, if◌then◌else◌, eq_iff, eq_refl,
  truthy, Option-cases, Bool-cases, ◌∙◌,
}
use pasarelapagos_backend.Errors.{ok}
use pasarelapagos_backend.Context.{TenantContext}
use pasarelapagos_backend.World.{World, TenantApiKey}
use pasarelapagos_backend.Guards.{Request}
use pasarelapagos_backend.Guards.Auth.{Firebase, api_key_guard}
use pasarelapagos_backend.Tenants.ApiKeys.{
  validate, match_of, change_key, use_key, revoke_key, is_key_of, has_tenant_id, create_key,
  new_key,
}
use pasarelapagos_backend.Tenants.ApiKeys as ApiKeys
use pasarelapagos_backend.Controllers.Tenants.{
  CreateApiKeyDto, is_valid_expiry, tenant_of, list, revoke, create,
}

-- The rows of the others, less the time of their last use.
abbrev unused : TenantApiKey → TenantApiKey
unused k = record k { last_used_at = none }

abbrev pub others : String → List TenantApiKey → List TenantApiKey
others id [] = []
others id (k ∷ ks) = if k.tenant_id == id then others id ks else unused k ∷ others id ks

-- The primary key of the table.
abbrev pub KeysAreDistinct : List TenantApiKey → Type 0
KeysAreDistinct [] = Unit
KeysAreDistinct (k ∷ ks) = All (λ j. j.id == k.id ≡ false) ks × KeysAreDistinct ks

module _ (who id : String) (now : ℕ) where
  others-use :
      (ks : List TenantApiKey) → others who (map (change_key id (use_key now)) ks) ≡ others who ks
  others-use [] = refl
  others-use (k ∷ ks) =
      let rest = others-use ks in
      elim (Bool-cases (k.id == id)) [ inl same ↦ ground arith | inr other ↦ ground arith ]

  -- A change of no key of another tenant.
  others-change :
      (f : TenantApiKey → TenantApiKey)
      → ((k : TenantApiKey) → (f k).tenant_id ≡ k.tenant_id)
      → (ks : List TenantApiKey) → All (λ k. (k.id == id ≡ true) → k.tenant_id == who ≡ true) ks
      → others who (map (change_key id f) ks) ≡ others who ks
  others-change f keeps [] h = refl
  others-change f keeps (k ∷ ks) (mine, h) =
      let rest = others-change f keeps ks h in
      elim (Bool-cases (k.id == id)) [
        | inl same ↦ let own = mine same in let still = keeps k in ground arith
        | inr other ↦ ground arith
      ]

  apart-use :
      (k : TenantApiKey) (ks : List TenantApiKey)
      → All (λ j. j.id == k.id ≡ false) ks
      → All
          (λ j. j.id == (change_key id (use_key now) k).id ≡ false)
          (map (change_key id (use_key now)) ks)
  apart-use k [] h = tt
  apart-use k (j ∷ ks) (a, h) =
      let of_k : (change_key id (use_key now) k).id ≡ k.id = ground arith in
      let of_j : (change_key id (use_key now) j).id ≡ j.id = ground arith in
      (rw (of_k, of_j) a, apart-use k ks h)

  distinct-use :
      (ks : List TenantApiKey)
      → KeysAreDistinct ks
      → KeysAreDistinct (map (change_key id (use_key now)) ks)
  distinct-use [] d = tt
  distinct-use (k ∷ ks) (a, d) = (apart-use k ks a, distinct-use ks d)

  absent :
      (j : TenantApiKey) (ks : List TenantApiKey)
      → j.id == id ≡ true
      → All (λ r. r.id == j.id ≡ false) ks
      → All (λ r. r.id == id ≡ false) ks
  absent j ks same a = let eq : j.id ≡ id = (eq_iff j.id id).0 same in rw eq at a

  -- Of distinct keys the one that was found is the only one with its id.
  found_is_only :
      (ks : List TenantApiKey) (k : TenantApiKey)
      → KeysAreDistinct ks
      → find (is_key_of id who) ks ≡ some k
      → All (λ j. (j.id == id ≡ true) → j.tenant_id == who ≡ true) ks
  unfolding find
  found_is_only [] k d e = tt
  found_is_only (j ∷ ks) k (a, d) e = elim (Bool-cases (j.id == id)) [
    | inr other ↦ (λ same. cc, found_is_only ks k d (ground arith))
    | inl same ↦ elim (Bool-cases (j.tenant_id == who)) [
      | inl own ↦ (λ s. own, All-map (λ r no yes. cc) ks (absent j ks same a))
      | inr not_own ↦
          let gone : All (λ r. is_key_of id who r ≡ false) ks =
            All-map (λ r no. ground arith) ks (absent j ks same a) in
          let none_is = (find-none_iff (is_key_of id who) ks).1 gone in absurd (ground arith)
    ]
  ]

others-append :
    (who : String) (k : TenantApiKey) (ks : List TenantApiKey)
    → k.tenant_id == who ≡ true
    → others who (ks ++ k ∷ []) ≡ others who ks
others-append who k [] e = ground arith
others-append who k (j ∷ ks) e = let rest = others-append who k ks e in ground arith

revoke-others :
    (key_id who : String) (w : World)
    → KeysAreDistinct w.api_keys
    → others who (ApiKeys.revoke key_id who w).1.api_keys ≡ others who w.api_keys
unfolding ApiKeys.revoke
revoke-others key_id who w d = elim (Option-cases (find (is_key_of key_id who) w.api_keys)) [
  | inl missing ↦ rw missing refl
  | inr (k, found) ↦ rw found (
      others-change who key_id w.now (revoke_key w.now) (λ j. refl) w.api_keys
        (found_is_only who key_id w.now w.api_keys k d found))
]

create-others :
    (cuid nanoid : ℕ → String) (hash : (raw_key : String) (salt : ℕ) → String) (who label : String)
    (days : Option ℕ) (w : World)
    → others who (ApiKeys.create cuid nanoid hash who label days w).1.api_keys
      ≡ others who w.api_keys
unfolding ApiKeys.create create_key
create-others cuid nanoid hash who label days w =
    elim (Bool-cases (any (has_tenant_id who) w.tenants)) [
      | inr missing ↦ rw missing refl
      | inl there ↦ rw there (
          others-append who (new_key cuid nanoid hash who label days w.now w.minted) w.api_keys
            (eq_refl who))
    ]

module _ (compare : (raw_key key_hash : String) → Bool) (firebase : Firebase) where
  -- The guard changes the time of a key's last use, at most.
  tenant_of-others :
      (id : String) (req : Request) (w : World)
      → KeysAreDistinct w.api_keys
      → (others id (tenant_of compare firebase req w).1.api_keys ≡ others id w.api_keys)
        × KeysAreDistinct (tenant_of compare firebase req w).1.api_keys
  unfolding tenant_of api_key_guard validate
  tenant_of-others id req w d = elim (Option-cases (truthy req.x_api_key)) [
    | inl k ↦ rw k (refl, d)
    | inr (key, k) ↦ elim (Option-cases (match_of compare key w)) [
      | inl missing ↦ rw (k, missing) (refl, d)
      | inr ((j, t), found) ↦
          rw (k, found)
            (others-use id j.id w.now w.api_keys, distinct-use id j.id w.now w.api_keys d)
    ]
  ]

  module _ (cuid nanoid : ℕ → String) (hash : (raw_key : String) (salt : ℕ) → String) where
    -- Whatever a caller sends to the routes of the API keys, the keys of the tenants other than the
    -- one that the caller's key belongs to stay as they are, in their order, but for the times of
    -- their last use; the primary key of the table is a hypothesis.
    pub routes_keep_others :
        (req : Request) (w w1 : World) (who : TenantContext)
        → KeysAreDistinct w.api_keys
        → tenant_of compare firebase req w ≡ (ok who, w1)
        → (others who.id (list compare firebase req w).1.api_keys ≡ others who.id w.api_keys)
          × ((key_id : String)
              → others who.id (revoke compare firebase req key_id w).1.api_keys
                ≡ others who.id w.api_keys)
          × ((body : CreateApiKeyDto)
              → others who.id (create compare firebase cuid nanoid hash req body w).1.api_keys
                ≡ others who.id w.api_keys)
    unfolding list revoke create ApiKeys.list ApiKeys.revoke ApiKeys.create create_key
    routes_keep_others req w w1 who d e =
        let (same, d1) = tenant_of-others who.id req w d in
        let same1 : others who.id w1.api_keys ≡ others who.id w.api_keys = rw e at same in
        let d2 : KeysAreDistinct w1.api_keys = rw e at d1 in
        (
          rw e same1,
          λ key_id. rw e (revoke-others key_id who.id w1 d2 ∙ same1),
          λ body. created body same1,
        )
      where
        created :
            (body : CreateApiKeyDto)
            → others who.id w1.api_keys ≡ others who.id w.api_keys
            → others who.id (create compare firebase cuid nanoid hash req body w).1.api_keys
              ≡ others who.id w.api_keys
        created body same1 = elim (Bool-cases (is_valid_expiry body.expires_in_days)) [
          | inr bad ↦ rw (e, bad) same1
          | inl good ↦
              rw (e, good)
                (create-others cuid nanoid hash who.id body.label body.expires_in_days w1 ∙ same1)
        ]
