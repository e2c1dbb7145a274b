-- ===== src/Webhooks/Controller/Dedup.antt =====
-- What a delivery of a webhook leaves behind: one row and one job for each event id, whatever is
-- delivered again.
use pasarelapagos_backend.Prelude.{
  String, Bool, true, false, none, some, List, [], ◌∷◌, ◌++◌, ◌≡◌, refl, inl, inr, arith, All,
  eq_refl, All-concat, Bool-cases, String_eq, ◌<>◌, find, find-append_none, Option-cases,
  any-find-none,
}
use pasarelapagos_backend.Errors.{Result, ok, err, Result-cases, unauthorized}
use pasarelapagos_backend.Providers.{WebhookEvent, PaymentProvider}
use pasarelapagos_backend.Providers.Registry
use pasarelapagos_backend.Context.{Env}
use pasarelapagos_backend.World.{World, WebhookInbound, WebhookJob}
use pasarelapagos_backend.Webhooks.Controller.{
  same_inbound, new_inbound, create_inbound, persist_and_enqueue, accept, handle, verified,
}

module _ (env : Env) (provider_id : String) (headers : List (String × String)) where
  -- How the delivery of an event ended.
  pub data Accepted (event : WebhookEvent) (w w' : World) : Type 0 where
    again :
        (i : WebhookInbound)
        → find (same_inbound provider_id event.external_id) w.inbounds ≡ some i
        → w' ≡ w
        → Accepted event w w'
    fresh :
        (j : WebhookJob)
        → find (same_inbound provider_id event.external_id) w.inbounds ≡ none
        → w'.inbounds ≡ w.inbounds ++ new_inbound env provider_id headers event w.minted ∷ []
        → w'.webhook_jobs ≡ w.webhook_jobs ++ j ∷ []
        → j.webhook_inbound_id ≡ env.cuid w.minted
        → j.event ≡ event
        → w'.payments ≡ w.payments
        → Accepted event w w'

  -- A delivery is always answered with `received`; it adds nothing when a row has the provider and
  -- the event's id already, and else one row and one job, which names the row and carries the event.
  pub accept-Accepted :
      (event : WebhookEvent) (w w' : World) (r : Result Bool)
      → accept env provider_id headers event w ≡ (r, w')
      → (r ≡ ok true) × Accepted event w w'
  unfolding accept persist_and_enqueue create_inbound
  accept-Accepted event w w' r e =
      let same = same_inbound provider_id event.external_id in
      elim (Option-cases (find same w.inbounds)) [
        | inr (i, seen) ↦ (ground arith, again i seen (ground arith))
        | inl unseen ↦
            let free = any-find-none same w.inbounds unseen in
            (
              ground arith,
              fresh
                  (record {
                    job_id = "webhook:" <> provider_id <> ":" <> event.external_id;
                    webhook_inbound_id = env.cuid w.minted;
                    event = event;
                    enqueued_at = w.now;
                    attempts = 5;
                  })
                  unseen (ground arith) (ground arith) refl refl (ground arith),
            )
      ]

  -- After one delivery of an event, another delivery by the same provider under the same event id
  -- changes nothing, whatever it reports.
  pub redelivered :
      (first second : WebhookEvent) (w : World)
      → second.external_id ≡ first.external_id
      → let w' = (accept env provider_id headers first w).1 in
        accept env provider_id headers second w' ≡ (ok true, w')
  unfolding accept
  redelivered first second w same =
      let (r, w') = accept env provider_id headers first w in
      let id = first.external_id in
      let (_, ended) = accept-Accepted first w w' r refl in
      once_seen second w' (rw same (is_there first w w' ended))
    where
      is_there :
          (event : WebhookEvent) (w w' : World)
          → Accepted event w w'
          → (i : WebhookInbound) × find (same_inbound provider_id event.external_id) w'.inbounds
              ≡ some i
      is_there event w w' (again i seen e) = (i, rw e seen)
      is_there event w w' (fresh j unseen rows a b c d) = (
        new_inbound env provider_id headers event w.minted,
        rw rows (
            find-append_none (same_inbound provider_id event.external_id) w.inbounds
              (new_inbound env provider_id headers event w.minted) unseen
              (rw (eq_refl provider_id, eq_refl event.external_id) refl)),
      )

      once_seen :
          (event : WebhookEvent) (w : World)
          → (i : WebhookInbound) × find (same_inbound provider_id event.external_id) w.inbounds
              ≡ some i
          → accept env provider_id headers event w ≡ (ok true, w)
      once_seen event w (i, seen) = ground arith

-- `@@unique([providerId, externalId])` of the table of inbound webhooks
abbrev pub AreUnique : List WebhookInbound → Type 0
AreUnique [] = Unit
AreUnique (i ∷ rows) =
    All (λ j. same_inbound j.provider_id j.external_id i ≡ false) rows × AreUnique rows

append-AreUnique :
    (i : WebhookInbound) (rows : List WebhookInbound)
    → AreUnique rows
    → find (same_inbound i.provider_id i.external_id) rows ≡ none
    → AreUnique (rows ++ i ∷ [])
unfolding find
append-AreUnique i [] u e = (tt, tt)
append-AreUnique i (j ∷ rows) (apart, u) e =
    elim (Bool-cases (same_inbound i.provider_id i.external_id j)) [
      | inl h ↦ let found : some j ≡ none = rw h at e in cc
      | inr h ↦ (
        All-concat (λ k. same_inbound k.provider_id k.external_id j ≡ false) rows apart h,
        append-AreUnique i rows u (rw h at e),
      )
    ]

-- The failures of a delivery change nothing, and a delivery keeps the unique index of the inbound
-- webhooks.
module _ (env : Env) where
  pub handle_unverified :
      (id raw : String) (headers : List (String × String)) (provider : PaymentProvider) (w : World)
      → Registry.get id env.registry ≡ ok provider
      → ((e : WebhookEvent) → ¬ (provider.verify_webhook raw headers ≡ ok e))
      → handle env id raw headers w ≡ (err (unauthorized "Firma de webhook inválida"), w)
  unfolding handle
  handle_unverified id raw headers provider w known bad =
      elim (Result-cases (provider.verify_webhook raw headers)) [
        | inl (e, good) ↦ absurd (bad e good)
        | inr (x, failed) ↦ ground arith
      ]

  pub handle-AreUnique :
      (id raw : String) (headers : List (String × String)) (w : World)
      → AreUnique w.inbounds
      → AreUnique (handle env id raw headers w).1.inbounds
  unfolding handle
  handle-AreUnique id raw headers w u = elim (Result-cases (Registry.get id env.registry)) [
    | inr (x, unknown) ↦ rw unknown u
    | inl (provider, known) ↦ elim (Result-cases (verified (provider.verify_webhook raw headers))) [
      | inr (x, failed) ↦ rw (known, failed) u
      | inl (event, good) ↦
          let (r, w') = accept env id headers event w in
          let (_, ended) = accept-Accepted env id headers event w w' r refl in
          rw (known, good) (kept id event w' ended)
    ]
  ]
    where
      kept :
          (id : String) (event : WebhookEvent) (w' : World)
          → Accepted env id headers event w w'
          → AreUnique w'.inbounds
      kept id event w' (again i seen e) = rw e u
      kept id event w' (fresh j unseen rows a b c d) =
          rw rows (append-AreUnique (new_inbound env id headers event w.minted) w.inbounds u unseen)
