-- ===== src/Results/Known.antt =====
-- The rules for what fallible code returns: one for each way to build it.
use mathlib.Core.Path.{subst}
use strix_halo_rocm_toolkit.Prelude.{
  ◌≡◌, refl, Bool, true, false, Option, none, some, if◌then◌else◌,
}
use strix_halo_rocm_toolkit.Results.{
  Result, ok, err, ◌>>=◌, check, need, branch, on_value, raise_as, Gives, >>=-eq-ok,
}

one_value : {E A : Type 0} {a b : A} (r : Result E A) → r ≡ ok a → r ≡ ok b → a ≡ b
one_value r h k = cc

module _ {E A : Type 0} {Q : A → Type 0} where
  pub Gives-ok : {a : A} → Q a → Gives {E = E} Q (ok a)
  Gives-ok {a} q = record { on_ok = λ h. subst Q (one_value (ok a) refl h) q }

  pub Gives-err : {e : E} → Gives Q (err e)
  Gives-err {e} = record { on_ok = λ h. cc }

  -- What comes first is known, whatever it is.
  pub Gives-known :
      {B : Type 0} {m : Result E B} {f : B → Result E A}
      → ((b : B) → m ≡ ok b → Gives Q (f b))
      → Gives Q (m >>= f)
  Gives-known {m} {f} k = record {
    on_ok = λ h. (k (>>=-eq-ok m f h).0 (>>=-eq-ok m f h).1).on_ok (>>=-eq-ok m f h).2;
  }

  pub Gives-bind :
      {B : Type 0} {P : B → Type 0} {m : Result E B} {f : B → Result E A}
      → Gives P m
      → ((b : B) → P b → Gives Q (f b))
      → Gives Q (m >>= f)
  Gives-bind p k = Gives-known (λ b h. k b (p.on_ok h))

  check-Gives :
      (b : Bool) (e : E) (r : Result E A) → (b ≡ false → Gives Q r) → Gives Q (check b e r)
  unfolding check
  check-Gives true e r k = Gives-err
  check-Gives false e r k = k refl

  pub Gives-check :
      {b : Bool} (e : E) {r : Result E A} → (b ≡ false → Gives Q r) → Gives Q (check b e r)
  Gives-check {b} e {r} k = check-Gives b e r k

  branch-Gives :
      (b : Bool) (r s : Result E A)
      → (b ≡ true → Gives Q r)
      → (b ≡ false → Gives Q s)
      → Gives Q (branch b r s)
  unfolding branch
  branch-Gives true r s k l = k refl
  branch-Gives false r s k l = l refl

  pub Gives-branch :
      {b : Bool} {r s : Result E A}
      → (b ≡ true → Gives Q r)
      → (b ≡ false → Gives Q s)
      → Gives Q (branch b r s)
  Gives-branch {b} {r} {s} k l = branch-Gives b r s k l

  need-Gives :
      {B : Type 0} (o : Option B) (e : E) (f : B → Result E A)
      → ((b : B) → o ≡ some b → Gives Q (f b))
      → Gives Q (need o e f)
  unfolding need
  need-Gives none e f k = Gives-err
  need-Gives (some b) e f k = k b refl

  pub Gives-need :
      {B : Type 0} {o : Option B} (e : E) {f : B → Result E A}
      → ((b : B) → o ≡ some b → Gives Q (f b))
      → Gives Q (need o e f)
  Gives-need {o} e {f} k = need-Gives o e f k

  on_value-Gives :
      {B : Type 0} (o : Option B) (r : Result E A) (f : B → Result E A)
      → (o ≡ none → Gives Q r)
      → ((b : B) → o ≡ some b → Gives Q (f b))
      → Gives Q (on_value o r f)
  unfolding on_value
  on_value-Gives none r f k l = k refl
  on_value-Gives (some b) r f k l = l b refl

  pub Gives-on_value :
      {B : Type 0} {o : Option B} {r : Result E A} {f : B → Result E A}
      → (o ≡ none → Gives Q r)
      → ((b : B) → o ≡ some b → Gives Q (f b))
      → Gives Q (on_value o r f)
  Gives-on_value {o} {r} {f} k l = on_value-Gives o r f k l

  raise_as-Gives : {F : Type 0} (f : F → E) (r : Result F A) → Gives Q r → Gives Q (raise_as f r)
  unfolding raise_as
  raise_as-Gives f (ok a) q = Gives-ok (q.on_ok refl)
  raise_as-Gives f (err e) q = Gives-err

  pub Gives-raise_as :
      {F : Type 0} (f : F → E) {r : Result F A} → Gives Q r → Gives Q (raise_as f r)
  Gives-raise_as f {r} q = raise_as-Gives f r q

  pub Gives-weaken :
      {P : A → Type 0} {r : Result E A} → ((a : A) → P a → Q a) → Gives P r → Gives Q r
  Gives-weaken sub p = record { on_ok = λ {a} h. sub a (p.on_ok h) }

-- A result gives the value that it is.
pub Gives-self : {E A : Type 0} {r : Result E A} → Gives (λ a. r ≡ ok a) r
Gives-self = record { on_ok = λ h. h }

pub Gives-if :
    {E A : Type 0} {Q : A → Type 0} (b : Bool) (r s : Result E A)
    → (b ≡ true → Gives Q r)
    → (b ≡ false → Gives Q s)
    → Gives Q (if b then r else s)
Gives-if true r s k l = k refl
Gives-if false r s k l = l refl
