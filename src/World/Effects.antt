-- ===== src/World/Effects.antt =====
-- A service method: it reads and writes the state, and returns or throws. What was written before
-- a throw stays written, but for a transaction.
use pasarelapagos_backend.Prelude.{Bool, Option, none, some, if◌then◌else◌}
use pasarelapagos_backend.Errors.{Result, ok, err, Exception}
use pasarelapagos_backend.World.Tables.{World}

abbrev pub Action : Type 0 → Type 0
Action A = World → Result A × World

module _ {A : Type 0} where
  abbrev pub pure : A → Action A
  pure a w = (ok a, w)

  abbrev pub throw : Exception → Action A
  throw e w = (err e, w)

  abbrev pub gets : (World → A) → Action A
  gets f w = (ok (f w), w)

  abbrev pub or_throw : Option A → Exception → Action A
  or_throw none e w = (err e, w)
  or_throw (some a) e w = (ok a, w)

  -- A result that was computed without touching the state.
  abbrev pub lift : Result A → Action A
  lift r w = (r, w)

  -- `prisma.$transaction(async tx => …)`: a throw takes the writes to the
  -- tables back, but not the ids that were minted.
  abbrev pub roll_back : World → Result A × World → Result A × World
  roll_back w (ok a, w') = (ok a, w')
  roll_back w (err e, w') = (err e, record w { minted = w'.minted })

  abbrev pub transaction : Action A → Action A
  transaction m w = roll_back w (m w)

  -- `try { m } catch (err) { handler }`
  abbrev pub handle : (Exception → Action A) → Result A × World → Result A × World
  handle h (ok a, w) = (ok a, w)
  handle h (err e, w) = h e w

  abbrev pub try_catch : Action A → (Exception → Action A) → Action A
  try_catch m h w = handle h (m w)

infixl 5 ◌>>=◌ ◌>>◌
module _ {A B : Type 0} where
  abbrev pub continue : (A → Action B) → Result A × World → Result B × World
  continue f (ok a, w) = f a w
  continue f (err e, w) = (err e, w)

  abbrev pub ◌>>=◌ : Action A → (A → Action B) → Action B
  ◌>>=◌ m f w = continue f (m w)

  abbrev pub ◌>>◌ : Action A → Action B → Action B
  ◌>>◌ m k w = continue (λ _. k) (m w)

abbrev pub throw_if : Bool → Exception → Action (Unit {0})
throw_if c e w = (if c then err e else ok tt, w)

abbrev pub modify : (World → World) → Action (Unit {0})
modify f w = (ok tt, f w)
