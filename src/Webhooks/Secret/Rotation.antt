-- ===== src/Webhooks/Secret/Rotation.antt =====
-- What the verification of a signature accepts while a secret is rotated.
use Prim.Native.Char.{Char}
use Prim.Native.String.append
use pasarelapagos_backend.Prelude.{
  String, true, some, ◌≡◌, ◌≢◌, ◌⊎◌, ◌↔◌, refl, inl, inr, sym, Option-cases, arith, ◌==◌, String_eq,
  eq_iff, ◌<>◌, truthy, starts_with-append, slice_from-append, starts_with, slice_from, size,
  Bool-cases,
}
use pasarelapagos_backend.Webhooks.Secret.{WebhookSecretService, remove_first, clean, verify, sign}

remove_first-append :
    (c : Char) (t s : String) → remove_first (String.◌∷◌ c t) (String.◌∷◌ c t <> s) ≡ s
unfolding remove_first
remove_first-append c t s =
    let starts : starts_with (String.◌∷◌ c (t <> s)) (String.◌∷◌ c t) ≡ true =
      let h = starts_with-append (String.◌∷◌ c t) s in rw (append.cons c t s) at h in
    let rest : slice_from (size (String.◌∷◌ c t)) (String.◌∷◌ c (t <> s)) ≡ s =
      let h = slice_from-append (String.◌∷◌ c t) s in rw (append.cons c t s) at h in
    rw (append.cons c t s, starts) rest

module _ (hmac : (body secret : String) → String) where
  -- A signature is accepted if and only if, without its first `sha256=`, it is the code of the body
  -- under the current secret, or under the previous one where that is set and not empty.
  pub verify_iff :
      (s : WebhookSecretService) (raw signature : String)
      → (verify hmac s raw signature ≡ true) ↔ (
          (hmac raw s.current ≡ clean signature)
          ⊎ ((old : String) × (truthy s.previous ≡ some old) × (hmac raw old ≡ clean signature)))
  unfolding verify
  verify_iff s raw signature =
      let by = eq_iff (hmac raw s.current) (clean signature) in
      elim (Option-cases (truthy s.previous)) [
        | inl unset ↦
            (λ e. inl (ground arith), λ h. elim h [ inl a ↦ ground arith | inr (o, p, q) ↦ cc ])
        | inr (old, is_set) ↦
            let by_old = eq_iff (hmac raw old) (clean signature) in
            (
              λ e. elim (Bool-cases (hmac raw s.current == clean signature)) [
                | inl h ↦ inl (by.0 h)
                | inr h ↦ inr (old, is_set, ground arith)
              ],
              λ h. elim h [
                | inl a ↦ ground arith
                | inr (o, p, q) ↦ let same : o ≡ old = cc in ground arith
              ],
            )
      ]

  -- What was signed under a secret is accepted under that secret, and, after the rotation to any
  -- other, as long as the first is kept as the previous one.
  pub verify-sign :
      (s next : WebhookSecretService) (raw : String)
      → (next.current ≡ s.current) ⊎ ((next.previous ≡ some s.current) × (s.current ≢ ""))
      → verify hmac next raw (sign hmac s raw) ≡ true
  unfolding sign
  verify-sign s next raw h =
      let code = hmac raw s.current in
      let cleaned : clean (sign hmac s raw) ≡ code = remove_first-append "s" "ha256=" code in
      (verify_iff next raw (sign hmac s raw)).1 (elim h [
        | inl same ↦ inl (rw same (sym cleaned))
        | inr (kept, set) ↦ inr (s.current, still_there kept set, sym cleaned)
      ])
    where
      still_there :
          next.previous ≡ some s.current → s.current ≢ "" → truthy next.previous ≡ some s.current
      still_there kept set = elim (Bool-cases (s.current == "")) [
        | inl blank ↦ absurd (set ((eq_iff s.current "").0 blank))
        | inr h ↦ rw (kept, h) refl
      ]
