-- ===== src/Pii/RoundTrip.antt =====
-- What was encrypted can be read again.
use Prim.Native.Char.{code}
use Prim.Native.String.append
use pasarelapagos_backend.Prelude.{
  ℕ, String, Bool, true, false, not, Option, none, some, [], ◌∷◌, ◌≡◌, refl, ap, ◌∙◌, arith, ◌&&◌,
  ◌==◌, ℕ_eq, ◌<>◌, starts_with, starts_with-append, slice_from, slice_from-append, size,
}
use pasarelapagos_backend.Errors.{ok}
use pasarelapagos_backend.Pii.{version, split, is_encrypted, encrypt, decrypt}

-- A text without a colon, as every text in hex is.
abbrev pub is_hex : String → Bool
is_hex String.[] = true
is_hex (String.◌∷◌ c s) = not (code c == 58) && is_hex s

split-is_hex : (s : String) → is_hex s ≡ true → split s ≡ s ∷ []
unfolding split
split-is_hex String.[] h = refl
split-is_hex (String.◌∷◌ c s) h =
    let no_colon : (code c == 58) ≡ false = ground arith in
    let rest = split-is_hex s (ground arith) in rw (no_colon, rest) refl

split-colon : (s t : String) → is_hex s ≡ true → split (s <> ":" <> t) ≡ s ∷ split t
unfolding split
split-colon String.[] t h = rw (append.nil (":" <> t), append.cons ":" "" t, append.nil t) refl
split-colon (String.◌∷◌ c s) t h =
    let no_colon : (code c == 58) ≡ false = ground arith in
    let rest = split-colon s t (ground arith) in
    rw (append.cons c s (":" <> t), no_colon, rest) refl

module _ (random_iv : ℕ → String) (seal : (key iv plaintext : String) → String × String)
    (unseal : (key iv tag body : String) → Option String) where
  -- A text that does not look encrypted is read again from what it was encrypted to, with a key or
  -- without one, if the cipher opens what it sealed of
  -- that text, and its parts and the IV have no colon.
  pub decrypt-encrypt :
      (key : Option String) (n : ℕ) (plaintext : String)
      → ((k iv : String)
          → unseal k iv (seal k iv plaintext).0 (seal k iv plaintext).1 ≡ some plaintext)
      → ((k iv : String) → is_hex (seal k iv plaintext).0 && is_hex (seal k iv plaintext).1 ≡ true)
      → is_hex (random_iv n) ≡ true
      → is_encrypted plaintext ≡ false
      → decrypt unseal key (encrypt random_iv seal key n plaintext) ≡ ok plaintext
  unfolding encrypt decrypt
  decrypt-encrypt none n plaintext opens hex hex_iv plain = refl
  decrypt-encrypt (some key) n plaintext opens hex hex_iv plain =
      let iv = random_iv n in
      let (tag, body) = seal key iv plaintext in
      let both = hex key iv in
      let tag_hex : is_hex (seal key iv plaintext).0 ≡ true = ground arith in
      let body_hex : is_hex (seal key iv plaintext).1 ≡ true = ground arith in
      let inner = iv <> ":" <> tag <> ":" <> body in
      let marked : starts_with (version <> inner) version ≡ true =
        starts_with-append version inner in
      let cut : slice_from (size version) (version <> inner) ≡ inner =
        slice_from-append version inner in
      let parts : split inner ≡ iv ∷ tag ∷ body ∷ [] =
        split-colon iv (tag <> ":" <> body) hex_iv
        ∙ ap (λ r. iv ∷ r)
            (split-colon tag body tag_hex ∙ ap (λ r. tag ∷ r) (split-is_hex body body_hex)) in
      rw (plain, marked, cut, parts, opens key iv) refl
