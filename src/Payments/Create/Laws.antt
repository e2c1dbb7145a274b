-- ===== src/Payments/Create/Laws.antt =====
-- What `create` promises: a payment per key, one charge per payment, a balanced gauge.
use pasarelapagos_backend.Prelude.{
  String, true, Option, none, some, [], ◌∷◌, ◌++◌, ◌≡◌, refl, ap, ◌∙◌, ◌⊎◌, ◌≢◌, inl, inr, arith,
  find, String_eq, eq_refl, find-append_none,
}
use pasarelapagos_backend.Context.{OrgContext, Env}
use pasarelapagos_backend.Errors.{Result, ok, err, Exception}
use pasarelapagos_backend.World.{World, Payment, ProviderCall}
use pasarelapagos_backend.World.Metrics.{pending_gauge}
use pasarelapagos_backend.World.Rows.{AreDistinct, Advances, Advances-refl, append-Advances}
use pasarelapagos_backend.World.Rows.Lookup.{clashes-neutral}
use pasarelapagos_backend.Payments.Create.{
  CreatePaymentDto, PaymentView, serialize, settle, mark_failed, create, create_new, required_key,
  replays,
}
use pasarelapagos_backend.Payments.Create.Outcome.{
  Outcome, unrouted, rejected, charged, broke, create_new-Outcome,
}

module _ (env : Env) (dto : CreatePaymentDto) (ctx : OrgContext) where
  module _ (key : String) where
    Outcome-Advances :
        (w w' : World) (r : Result PaymentView)
        → AreDistinct w.payments
        → Outcome env dto key ctx w.now w w' r
        → Advances w.payments w'.payments
    Outcome-Advances w w' r d (unrouted x a b same) = rw same (Advances-refl w.payments d)
    Outcome-Advances w w' r d (rejected x a same b g why m) =
        rw same.payments (Advances-refl w.payments d)
    Outcome-Advances w w' r d (charged provider p result new a rows b c g m) =
        let f = settle env dto key ctx result in
        rw rows (
          append-Advances (f p) w.payments d
            (clashes-neutral p f w.payments (λ x y. (refl, refl)) new.fresh))
    Outcome-Advances w w' r d (broke provider p x new a rows b c g m) =
        let f = mark_failed env dto key ctx x in
        rw rows (
          append-Advances (f p) w.payments d
            (clashes-neutral p f w.payments (λ x y. (refl, refl)) new.fresh))

  -- The three ways into `create`: it refuses the key, replays, or goes on.
  pub create-cases :
      (k : Option String) (w w' : World) (r : Result PaymentView)
      → create env dto k ctx w ≡ (r, w')
      → ((x : Exception) × (required_key k ≡ none) × (r ≡ err x) × (w' ≡ w))
        ⊎ (((key : String) × (p : Payment) × (required_key k ≡ some key)
              × (find (replays ctx.organization_id key) w.payments ≡ some p)
              × (r ≡ ok (serialize p))
              × (w' ≡ w))
            ⊎ ((key : String) × (required_key k ≡ some key)
                × (find (replays ctx.organization_id key) w.payments ≡ none)
                × (create_new env dto key ctx w.now w ≡ (r, w'))))
  unfolding create
  create-cases k w w' r e = ground arith

  -- A call of `create`, whatever it returns or throws, keeps the constraints of the table and
  -- every payment that was there.
  pub create-Advances :
      (k : Option String) (w : World)
      → AreDistinct w.payments
      → Advances w.payments (create env dto k ctx w).1.payments
  create-Advances k w d =
      let (r, w') = create env dto k ctx w in
      elim (create-cases k w w' r refl) [
        | inl (x, a, b, same) ↦ rw same (Advances-refl w.payments d)
        | inr (inl (key, p, a, b, c, same)) ↦ rw same (Advances-refl w.payments d)
        | inr (inr (key, a, b, e)) ↦
            Outcome-Advances key w w' r d (create_new-Outcome env dto key ctx w.now w w' r e)
      ]

  -- The providers are asked once at most by one call, and then the payment's row is stored under the
  -- organization and the key, whether the provider took the charge or threw.
  pub charge_is_stored :
      (k : Option String) (w w' : World) (r : Result PaymentView)
      → create env dto k ctx w ≡ (r, w')
      → (w'.calls ≡ w.calls)
        ⊎ ((c : ProviderCall) × (key : String) × (p : Payment) × (w'.calls ≡ w.calls ++ c ∷ [])
            × (required_key k ≡ some key)
            × (find (replays ctx.organization_id key) w'.payments ≡ some p))
  charge_is_stored k w w' r e = elim (create-cases k w w' r e) [
    | inl (x, a, b, same) ↦ inl (ap (λ (u : World). u.calls) same)
    | inr (inl (key, p, a, b, c, same)) ↦ inl (ap (λ (u : World). u.calls) same)
    | inr (inr (key, a, b, h)) ↦ stored key a b (create_new-Outcome env dto key ctx w.now w w' r h)
  ]
    where
      stored :
          (key : String)
          → required_key k ≡ some key
          → find (replays ctx.organization_id key) w.payments ≡ none
          → Outcome env dto key ctx w.now w w' r
          → (w'.calls ≡ w.calls)
            ⊎ ((c : ProviderCall) × (key : String) × (p : Payment) × (w'.calls ≡ w.calls ++ c ∷ [])
                × (required_key k ≡ some key)
                × (find (replays ctx.organization_id key) w'.payments ≡ some p))
      stored key a b (unrouted x c d same) = inl (ap (λ (u : World). u.calls) same)
      stored key a b (rejected x c d calls g why m) = inl calls
      stored key a b (charged provider p result new c rows d calls g m) =
          let f = settle env dto key ctx result in
          let own : replays ctx.organization_id key (f p) ≡ true =
            rw new.row (rw (eq_refl ctx.organization_id, eq_refl key)) in
          inr (
            _,
            key,
            f p,
            calls,
            a,
            rw rows (find-append_none (replays ctx.organization_id key) w.payments (f p) b own),
          )
      stored key a b (broke provider p x new c rows d calls g m) =
          let f = mark_failed env dto key ctx x in
          let own : replays ctx.organization_id key (f p) ≡ true =
            rw new.row (rw (eq_refl ctx.organization_id, eq_refl key)) in
          inr (
            _,
            key,
            f p,
            calls,
            a,
            rw rows (find-append_none (replays ctx.organization_id key) w.payments (f p) b own),
          )

-- A key under which a payment is stored is replayed: `create` returns that payment and changes
-- nothing, whatever the body of the request says.
pub create-replays :
    (env : Env) (dto : CreatePaymentDto) (ctx : OrgContext) (k : Option String) (key : String)
    (p : Payment) (w : World)
    → required_key k ≡ some key
    → find (replays ctx.organization_id key) w.payments ≡ some p
    → create env dto k ctx w ≡ (ok (serialize p), w)
unfolding create
create-replays env dto ctx k key p w h e = ground arith

-- No double charge: when a request is sent again with its key, for the same organization, the two
-- calls of `create` have together asked providers nothing, or made one call of one, however the first
-- one ended; and if it was the first that asked, the second has changed nothing.
pub create_charges_once :
    (env : Env) (dto dto' : CreatePaymentDto) (ctx ctx' : OrgContext) (k : Option String)
    (w : World)
    → ctx'.organization_id ≡ ctx.organization_id
    → let w₁ = (create env dto k ctx w).1 in
      let w₂ = (create env dto' k ctx' w₁).1 in
      ((w₂.calls ≡ w.calls) ⊎ ((c : ProviderCall) × (w₂.calls ≡ w.calls ++ c ∷ [])))
      × ((w₁.calls ≡ w.calls) ⊎ (w₂ ≡ w₁))
create_charges_once env dto dto' ctx ctx' k w same =
    let (r, w₁) = create env dto k ctx w in
    elim (charge_is_stored env dto ctx k w w₁ r refl) [
      | inl quiet ↦ (again quiet, inl quiet)
      | inr (c, key, p, one, h, e) ↦
          let still : (create env dto' k ctx' w₁).1 ≡ w₁ =
            ap (λ (t : Result PaymentView × World). t.1)
              (create-replays env dto' ctx' k key p w₁ h (rw same e)) in
          (inr (c, ap (λ (u : World). u.calls) still ∙ one), inr still)
    ]
  where
    again :
        (create env dto k ctx w).1.calls ≡ w.calls
        → let w₂ = (create env dto' k ctx' (create env dto k ctx w).1).1 in
          (w₂.calls ≡ w.calls) ⊎ ((c : ProviderCall) × (w₂.calls ≡ w.calls ++ c ∷ []))
    again quiet = elim (charge_is_stored env dto' ctx' k (create env dto k ctx w).1 _ _ refl) [
      | inl still ↦ inl (still ∙ quiet)
      | inr (c, key, p, one, h, e) ↦ inr (c, one ∙ ap (λ cs. cs ++ c ∷ []) quiet)
    ]

-- The gauge of pending payments: a call of `create` that returns, and one that has asked the
-- provider, leave it as it was in every country.
pub create_balances :
    (env : Env) (dto : CreatePaymentDto) (ctx : OrgContext) (k : Option String) (w w' : World)
    (r : Result PaymentView)
    → create env dto k ctx w ≡ (r, w')
    → ((v : PaymentView) × (r ≡ ok v)) ⊎ (w'.calls ≢ w.calls)
    → (c : String) → pending_gauge c w'.samples ≡ pending_gauge c w.samples
create_balances env dto ctx k w w' r e good c = elim (create-cases env dto ctx k w w' r e) [
  | inl (x, a, b, same) ↦ rw same
  | inr (inl (key, p, a, b, d, same)) ↦ rw same
  | inr (inr (key, a, b, h)) ↦ go key (create_new-Outcome env dto key ctx w.now w w' r h)
]
  where
    go :
        (key : String)
        → Outcome env dto key ctx w.now w w' r
        → pending_gauge c w'.samples ≡ pending_gauge c w.samples
    go key (unrouted x a b same) = rw same
    go key (rejected x threw a calls g why m) = elim good [
      | inl (v, h) ↦ absurd (ground arith)
      | inr asked ↦ absurd (asked calls)
    ]
    go key (charged provider p result new a b d calls g m) = g c
    go key (broke provider p x new a b d calls g m) = g c
