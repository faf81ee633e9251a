-- ===== src/Exec/Runs.antt =====
-- What a method that returned has done: one inversion for each way to build it.
use mathlib.Core.Path.{◌≡◌, refl}
use mathlib.Core.Option.{Option, none, some}
use mathlib.Core.Bool.{Bool, true, false}
use strix_halo_rocm_toolkit.Results.{Result, ok, err}
use strix_halo_rocm_toolkit.Exec.{Exec, pure, raise, lift, ◌>>=◌, check, need, continue}

-- From the first world the method returns the value and leaves the second world.
abbrev pub Runs : {E S A : Type 0} → Exec E S A → S → A → S → Type 0
Runs m s a s' = m s ≡ (ok a, s')

module _ {E S B : Type 0} where
  pub Runs-bind :
      {A : Type 0} (m : Exec E S A) (f : A → Exec E S B) {s s' : S} {b : B}
      → Runs (m >>= f) s b s'
      → (a : A) × (t : S) × Runs m s a t × Runs (f a) t b s'
  unfolding ◌>>=◌
  Runs-bind {A} m f {s} {s'} {b} h = split (m s).0 (m s).1 refl h
    where
      split :
          (r : Result E A) (t : S)
          → m s ≡ (r, t)
          → continue r f t ≡ (ok b, s')
          → (a : A) × (t : S) × Runs m s a t × Runs (f a) t b s'
      split (ok a) t e k = (a, t, e, k)
      split (err e') t e k = cc

  pub Runs-check :
      (b : Bool) (e : E) (n : Exec E S B) {s s' : S} {a : B}
      → Runs (check b e n) s a s'
      → (b ≡ false) × Runs n s a s'
  unfolding check lift ◌>>=◌
  Runs-check true e n h = cc
  Runs-check false e n h = (refl, h)

  pub Runs-need :
      {A : Type 0} (o : Option A) (e : E) (f : A → Exec E S B) {s s' : S} {b : B}
      → Runs (need o e f) s b s'
      → (a : A) × (o ≡ some a) × Runs (f a) s b s'
  unfolding need lift ◌>>=◌
  Runs-need none e f h = cc
  Runs-need (some a) e f h = (a, refl, h)

  pub Runs-pure : {a b : B} {s s' : S} → Runs (pure {E = E} a) s b s' → (a ≡ b) × (s ≡ s')
  unfolding pure
  Runs-pure h = (cc, cc)

  pub Runs-lift : (r : Result E B) {b : B} {s s' : S} → Runs (lift r) s b s' → (r ≡ ok b) × (s ≡ s')
  unfolding lift
  Runs-lift r h = (cc, cc)

  pub Runs-raise : (e : E) (s : S) {b : B} {s' : S} → Runs (raise e) s b s' → ⊥
  unfolding raise
  Runs-raise e s h = cc
