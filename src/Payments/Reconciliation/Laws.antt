-- ===== src/Payments/Reconciliation/Laws.antt =====
-- What reconciliation may do to a payment, and which payments it picks.
use mathlib.Core.List.{Memᴰ}
use pasarelapagos_backend.Prelude.{
  ◌+◌, ◌*◌, ◌≤◌, ◌<◌, String, true, Option, none, some, ◌≡◌, refl, sym, ap, ◌∙◌, inl, inr, arith,
  find, List, [], ◌∷◌, ◌++◌, ◌==◌, String_eq, truthy, Option-cases, Bool-cases, map, filter, take,
  length, length-take, length-map, All, All-image, All-take, All-filter, All-map, ◌≢◌,
}
use pasarelapagos_backend.Json.{Json}
use pasarelapagos_backend.Context.{Env}
use pasarelapagos_backend.Errors.{Result, ok, err, Exception, Result-cases}
use pasarelapagos_backend.Providers.{ProviderChargeResult, PaymentProvider}
use pasarelapagos_backend.Providers.Registry
use pasarelapagos_backend.Payments.Machine.{
  PaymentStatus, PaymentStatus_eq, status_eq_iff, pending, assert_valid_transition,
}
use pasarelapagos_backend.Payments.Machine.Diagram.{reached_of_ok}
use pasarelapagos_backend.World.{
  World, Payment, ReconcileJob, ProviderCall, has_id, set_status, update_payment, update_row,
}
use pasarelapagos_backend.World.Rows.{
  HasSameTables, AreDistinct, Advances, Advances-refl, update_row-Advances, set_status-Keeps,
}
use pasarelapagos_backend.World.Rows.Lookup.{find-has_id}
use pasarelapagos_backend.Payments.Reconciliation.{
  mapped_status, is_stale, reconcile_job, schedule_pending, store_status, apply_status,
  reconciled_event, reconcile_found, reconcile_one,
}

-- Why a provider's status is not applied: it is in no table, is the payment's already, or is refused
-- as a change.
pub data IsIdle (p : Payment) (o : Option PaymentStatus) : Type 0 where
  unknown : o ≡ none → IsIdle p o
  already : o ≡ some p.status → IsIdle p o
  forbidden :
      (s : PaymentStatus) (x : Exception)
      → o ≡ some s
      → assert_valid_transition p.status s ≡ err x
      → IsIdle p o

-- What is done with a provider's status: nothing, for one of these reasons, or the payment's row gets
-- a status that may follow, with one event.
pub data Applied (p : Payment) (o : Option PaymentStatus) (raw : Json) (w w' : World) : Type 0 where
  kept : IsIdle p o → w'.payments ≡ w.payments → w'.events ≡ w.events → Applied p o raw w w'
  moved :
      (s : PaymentStatus)
      → o ≡ some s
      → p.status ≢ s
      → assert_valid_transition p.status s ≡ ok tt
      → w'.payments ≡ update_row p.id (set_status s) w.payments
      → w'.events ≡ w.events ++ reconciled_event p s raw ∷ []
      → Applied p o raw w w'

apply_status-Applied :
    (p : Payment) (o : Option PaymentStatus) (raw : Json) (w w' : World) (r : Result (Unit {0}))
    → find (has_id p.id) w.payments ≡ some p
    → apply_status p o raw w ≡ (r, w')
    → (r ≡ ok tt) × Applied p o raw w w'
unfolding apply_status store_status update_payment
apply_status-Applied p none raw w w' r h e =
    (ground arith, kept (unknown refl) (ground arith) (ground arith))
apply_status-Applied p (some s) raw w w' r h e = elim (Bool-cases (p.status == s)) [
  | inl eq ↦ (
    ground arith,
    kept (already (ap some (sym ((status_eq_iff p.status s).0 eq)))) (ground arith) (ground arith),
  )
  | inr other ↦ elim (Result-cases (assert_valid_transition p.status s)) [
    | inl (t, valid) ↦ (
      ground arith,
      moved s refl (λ eq. cc (other, (status_eq_iff p.status s).1 eq)) valid (ground arith)
          (ground arith),
    )
    | inr (x, bad) ↦ (ground arith, kept (forbidden s x refl bad) (ground arith) (ground arith))
  ]
]

Applied-frame :
    (p : Payment) (o : Option PaymentStatus) (raw : Json) (w u w' : World)
    → u.payments ≡ w.payments
    → u.events ≡ w.events
    → Applied p o raw u w'
    → Applied p o raw w w'
Applied-frame p o raw w u w' a b (kept i c e) = kept i (c ∙ a) (e ∙ b)
Applied-frame p o raw w u w' a b (moved s c ne valid rows events) =
    moved s c ne valid (rw (← a) rows) (rw (← b) events)

module _ (env : Env) where
  -- There is no payment with the id, or it has no id at its provider.
  pub data IsSkipped (id : String) (w : World) : Type 0 where
    no_payment : find (has_id id) w.payments ≡ none → IsSkipped id w
    no_external_id :
        (p : Payment)
        → find (has_id id) w.payments ≡ some p
        → truthy p.external_id ≡ none
        → IsSkipped id w

  -- Why there is no answer: the provider is not registered, or threw.
  pub data HasNoAnswer (provider_id external_id : String) (x : Exception) : Type 0 where
    unregistered :
        Registry.get provider_id env.registry ≡ err x → HasNoAnswer provider_id external_id x
    threw :
        (provider : PaymentProvider)
        → Registry.get provider_id env.registry ≡ ok provider
        → provider.retrieve external_id ≡ err x
        → HasNoAnswer provider_id external_id x

  -- How the reconciliation of one payment ended.
  pub data Reconciled (id : String) (w w' : World) (r : Result (Unit {0})) : Type 0 where
    -- there is no such payment, or it has no id at a provider
    skipped : IsSkipped id w → r ≡ ok tt → w' ≡ w → Reconciled id w w' r
    -- the provider is not registered, or threw
    unanswered :
        (p : Payment) (external_id : String) (x : Exception)
        → find (has_id id) w.payments ≡ some p
        → truthy p.external_id ≡ some external_id
        → HasNoAnswer p.provider_id external_id x
        → r ≡ err x
        → HasSameTables w w'
        → Reconciled id w w' r
    answered :
        (p : Payment) (external_id : String) (provider : PaymentProvider)
        (result : ProviderChargeResult)
        → find (has_id id) w.payments ≡ some p
        → truthy p.external_id ≡ some external_id
        → Registry.get p.provider_id env.registry ≡ ok provider
        → provider.retrieve external_id ≡ ok result
        → r ≡ ok tt
        → Applied p (mapped_status result.status) result.raw w w'
        → Reconciled id w w' r

  found-Reconciled :
      (id external_id : String) (p : Payment) (w w' : World) (r : Result (Unit {0}))
      → AreDistinct w.payments
      → find (has_id id) w.payments ≡ some p
      → truthy p.external_id ≡ some external_id
      → reconcile_found env (some (p, external_id)) w ≡ (r, w')
      → Reconciled id w w' r
  unfolding reconcile_found
  found-Reconciled id external_id p w w' r d found ext e =
      elim (Result-cases (Registry.get p.provider_id env.registry)) [
        | inr (x, bad) ↦
            unanswered p external_id x found ext (unregistered bad) (ground arith) (ground arith)
        | inl (provider, routed) ↦ elim (Result-cases (provider.retrieve external_id)) [
          | inr (x, bad) ↦
              unanswered p external_id x found ext (threw provider routed bad) (ground arith)
                (ground arith)
          | inl (result, good) ↦
              let call = ProviderCall.retrieve provider.id external_id in
              let u : World = record w {
                calls = w.calls ++ call ∷ [];
                now = w.now + env.latency call;
              } in
              let by_id = find-has_id (has_id id) p w.payments d found in
              let (fine, applied) =
                apply_status-Applied p (mapped_status result.status) result.raw u w' r by_id
                  (rw (routed, good) at e) in
              answered p external_id provider result found ext routed good fine
                (Applied-frame p _ _ w u w' refl refl applied)
        ]
      ]

  -- Reconciling a payment ends in one of three ways. It does nothing where there is no such payment or
  -- it has no id at a provider. It throws what the registry or the provider threw, and changes no
  -- table. Else the row takes the provider's status, with one event, unless that status is unknown, is
  -- the payment's already, or may not follow it.
  pub reconcile_one-Reconciled :
      (id : String) (w w' : World) (r : Result (Unit {0}))
      → AreDistinct w.payments
      → reconcile_one env id w ≡ (r, w')
      → Reconciled id w w' r
  unfolding reconcile_one reconcile_found
  reconcile_one-Reconciled id w w' r d e = elim (Option-cases (find (has_id id) w.payments)) [
    | inl missing ↦ skipped (no_payment missing) (ground arith) (ground arith)
    | inr (p, found) ↦ elim (Option-cases (truthy p.external_id)) [
      | inl no_id ↦ skipped (no_external_id p found no_id) (ground arith) (ground arith)
      | inr (external_id, ext) ↦ found-Reconciled id external_id p w w' r d found ext (ground arith)
    ]
  ]

  -- Reconciling a payment keeps the constraints of the table and every payment; a status moves
  -- along the diagram only.
  pub reconcile_one-Advances :
      (id : String) (w : World)
      → AreDistinct w.payments
      → Advances w.payments (reconcile_one env id w).1.payments
  reconcile_one-Advances id w d =
      let (r, w') = reconcile_one env id w in go w' r (reconcile_one-Reconciled id w w' r d refl)
    where
      applied :
          (p : Payment) (o : Option PaymentStatus) (raw : Json) (w' : World)
          → find (has_id id) w.payments ≡ some p
          → Applied p o raw w w'
          → Advances w.payments w'.payments
      applied p o raw w' found (kept i same e) = rw same (Advances-refl w.payments d)
      applied p o raw w' found (moved s c ne valid rows e) = rw rows (
          update_row-Advances (has_id id) (set_status s) p w.payments (λ a b. (refl, refl)) d found
            (set_status-Keeps s p (reached_of_ok p.status s valid)))

      go :
          (w' : World) (r : Result (Unit {0}))
          → Reconciled id w w' r
          → Advances w.payments w'.payments
      go w' r (skipped i a same) = rw same (Advances-refl w.payments d)
      go w' r (unanswered p ext x f t n a same) = rw same.payments (Advances-refl w.payments d)
      go w' r (answered p ext provider result found a b c fine h) =
          applied p (mapped_status result.status) result.raw w' found h

-- A job for a stale payment: it is pending, it has an id at its provider, and it was created more
-- than thirty minutes ago.
abbrev pub IsForStale : World → ReconcileJob → Type 0
IsForStale w j =
    (p : Payment) × Memᴰ p w.payments
    × (p.id ≡ j.payment_id)
    × (p.status ≡ pending)
    × (p.external_id ≢ none)
    × (p.created_at + 30 * 60 * 1000 < w.now)

is_stale-job :
    (w : World) (p : Payment)
    → Memᴰ p w.payments
    → is_stale w.now p ≡ true
    → IsForStale w (reconcile_job p)
is_stale-job w p m h = (p, m, refl, ground arith, ground arith, ground arith)

-- The scheduled task writes to no table. It adds at most a hundred jobs behind those that are
-- there, each for a payment that has been pending for more than thirty minutes and has an id at
-- its provider.
pub schedule_pending_lem :
    (w : World)
    → let w' = (schedule_pending w).1 in
      HasSameTables w w'
      × ((js : List ReconcileJob) × (w'.reconcile_jobs ≡ w.reconcile_jobs ++ js)
          × (length js ≤ 100)
          × All (IsForStale w) js)
unfolding schedule_pending
schedule_pending_lem w =
    let stale = filter (is_stale w.now) w.payments in
    (
      ground arith,
      (
        map reconcile_job (take 100 stale),
        refl,
        omega (arith, length-map reconcile_job (take 100 stale), length-take 100 stale),
        All-image (IsForStale w) reconcile_job (take 100 stale) (
            All-take (λ p. IsForStale w (reconcile_job p)) 100 stale
              (All-map (λ p (m, h). is_stale-job w p m h) stale
                (All-filter (is_stale w.now) w.payments))),
      ),
    )
