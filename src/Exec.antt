-- ===== src/Exec.antt =====
-- A method that mutates an object and may raise: what was written before a raise stays written, so
-- the state comes back beside the failure too.
pub mod Ensures
pub mod Known
pub mod Runs
use mathlib.Core.List.{List, [], ◌∷◌}
use mathlib.Core.Bool.{Bool}
use mathlib.Core.Option.{Option}
use strix_halo_rocm_toolkit.Results.{Result, ok, err, raise_if, or_raise}

abbrev pub Exec : Type 0 → Type 0 → Type 0 → Type 0
Exec E S A = S → Result E A × S

module _ {E S A : Type 0} where
  unfoldable pub pure : A → Exec E S A
  pure a s = (ok a, s)

  unfoldable pub raise : E → Exec E S A
  raise e s = (err e, s)

  unfoldable pub lift : Result E A → Exec E S A
  lift r s = (r, s)

  unfoldable pub gets : (S → A) → Exec E S A
  gets f s = (ok (f s), s)

module _ {E S : Type 0} where
  unfoldable pub modify : (S → S) → Exec E S (Unit {0})
  modify f s = (ok tt, f s)

module _ {E S A B : Type 0} where
  abbrev pub continue : Result E A → (A → Exec E S B) → Exec E S B
  continue (ok a) f s = f a s
  continue (err e) f s = (err e, s)

  infixl 5 ◌>>=◌ ◌>>◌
  unfoldable pub ◌>>=◌ : Exec E S A → (A → Exec E S B) → Exec E S B
  unfolding pure raise lift gets modify
  ◌>>=◌ m f s = continue (m s).0 f (m s).1

  abbrev pub ◌>>◌ : Exec E S A → Exec E S B → Exec E S B
  m >> n = m >>= λ _. n

-- `try: m except: handler`
module _ {E S A : Type 0} where
  abbrev pub handle : Result E A → (E → Exec E S A) → Exec E S A
  handle (ok a) h s = (ok a, s)
  handle (err e) h s = h e s

  unfoldable pub try_catch : Exec E S A → (E → Exec E S A) → Exec E S A
  try_catch m h s = handle (m s).0 h (m s).1

-- `try: m finally: after`; a raise of `after` replaces what `m` did.
module _ {E A : Type 0} where
  abbrev pub ended : Result E (Unit {0}) → Result E A → Result E A
  ended (ok _) r = r
  ended (err e) r = err e

module _ {E S A : Type 0} where
  unfoldable pub try_finally : Exec E S A → Exec E S (Unit {0}) → Exec E S A
  try_finally m after s = (ended (after (m s).1).0 (m s).0, (after (m s).1).1)

-- `for x in xs: body(x)`
module _ {E S A : Type 0} where
  unfoldable pub for_each : (A → Exec E S (Unit {0})) → List A → Exec E S (Unit {0})
  for_each body [] = pure tt
  for_each body (x ∷ xs) = body x >> for_each body xs

-- What the method did, as a value: `try: m except Exception as error: …` where both go on.
module _ {E S A : Type 0} where
  unfoldable pub attempt : Exec E S A → Exec E S (Result E A)
  attempt m s = (ok (m s).0, (m s).1)

-- `if test: raise error`, and `if value is None: raise error`, before the rest.
module _ {E S B : Type 0} where
  unfoldable pub check : Bool → E → Exec E S B → Exec E S B
  check test error rest = lift (raise_if test error) >>= λ _. rest

  unfoldable pub need : {A : Type 0} → Option A → E → (A → Exec E S B) → Exec E S B
  need value error rest = lift (or_raise value error) >>= rest
