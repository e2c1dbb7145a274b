-- ===== src/Guards/Pci/Keys.antt =====
-- Which bodies the PCI guard refuses for their keys.
use pasarelapagos_backend.Prelude.{
  String, Bool, true, false, List, [], ◌∷◌, ◌++◌, ◌≡◌, refl, arith, any, contains, Bool-cases, inl,
  inr, String_eq,
}
use pasarelapagos_backend.Errors.{ok, err, unprocessable}
use pasarelapagos_backend.Json.{Json, Items, Fields, arr, obj, end, field}
use pasarelapagos_backend.Guards.Pci.{
  flat_keys, nested_keys, forbidden_fields, has_pan, tokenize, is_forbidden, pci_guard,
}

-- An object has the key, itself or in an object under it that no array encloses.
pub data HasKey (key : String) : Fields → Type 0 where
  here : (v : Json) (rest : Fields) → HasKey key (field key v rest)
  beside : (k : String) (v : Json) (rest : Fields) → HasKey key rest → HasKey key (field k v rest)
  below :
      (k : String) (fields rest : Fields)
      → HasKey key fields
      → HasKey key (field k (obj fields) rest)

module _ (f : String → Bool) where
  any-append_left : (xs ys : List String) → any f xs ≡ true → any f (xs ++ ys) ≡ true
  unfolding any
  any-append_left [] ys e = cc
  any-append_left (x ∷ xs) ys e = elim (Bool-cases (f x)) [
    | inl h ↦ rw h refl
    | inr h ↦ rw h (any-append_left xs ys (rw h at e))
  ]

  any-append_right : (xs ys : List String) → any f ys ≡ true → any f (xs ++ ys) ≡ true
  unfolding any
  any-append_right [] ys e = e
  any-append_right (x ∷ xs) ys e = let later = any-append_right xs ys e in ground arith

  flat_keys-HasKey :
      (key : String) (fields : Fields)
      → f key ≡ true
      → HasKey key fields
      → any f (flat_keys fields) ≡ true
  unfolding flat_keys any
  flat_keys-HasKey key _ good (here v rest) = rw good refl
  flat_keys-HasKey key _ good (beside k v rest h) =
      any-append_right (k ∷ nested_keys v) (flat_keys rest) (flat_keys-HasKey key rest good h)
  flat_keys-HasKey key _ good (below k fields rest h) =
      any-append_right (k ∷ []) (flat_keys fields ++ flat_keys rest)
        (any-append_left (flat_keys fields) (flat_keys rest) (flat_keys-HasKey key fields good h))

module _ (stringify : Json → String) (to_lower_case : String → String) where
  -- A body with a forbidden key, in whatever case and at whatever depth below objects, is refused.
  pub pci_guard-HasKey :
      (key : String) (fields : Fields)
      → HasKey key fields
      → contains forbidden_fields (to_lower_case key) ≡ true
      → pci_guard stringify to_lower_case (obj fields) ≡ err (unprocessable tokenize)
  unfolding pci_guard
  pci_guard-HasKey key fields h e =
      rw (flat_keys-HasKey (is_forbidden stringify to_lower_case) key fields e h) refl

  -- The keys of the objects in an array are not looked at: a body whose only field is an array with
  -- an allowed name passes whatever the array holds, if its text has no card number.
  pub pci_guard-array :
      (k : String) (items : Items)
      → contains forbidden_fields (to_lower_case k) ≡ false
      → has_pan (stringify (obj (field k (arr items) end))) ≡ false
      → pci_guard stringify to_lower_case (obj (field k (arr items) end)) ≡ ok tt
  unfolding pci_guard flat_keys any
  pci_guard-array k items e no_pan = rw (e, no_pan) refl
