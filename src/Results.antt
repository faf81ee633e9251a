-- ===== src/Results.antt =====
-- Fallible code without state: a value, or the exception that Python raises.
pub mod Known
use strix_halo_rocm_toolkit.Prelude.{◌≡◌, refl, Bool, true, false, Option, none, some}

-- The outcome of Python code: a value, or the exception that it raised.
pub data Result {ℓ κ} (E : Type ℓ) (A : Type κ) : Type (ℓ ⊔ κ) where
  ok : A → Result E A
  err : E → Result E A

infixl 5 ◌>>=◌ ◌>>◌
unfoldable pub ◌>>=◌ {ℓ κ μ} :
    {E : Type ℓ} {A : Type κ} {B : Type μ} → Result E A → (A → Result E B) → Result E B
ok a >>= f = f a
err e >>= f = err e

abbrev pub ◌>>◌ {ℓ κ} : {E : Type ℓ} {B : Type κ} → Result E (Unit {0}) → Result E B → Result E B
m >> k = m >>= λ _. k

-- `if test: raise error`
abbrev pub raise_if {ℓ} : {E : Type ℓ} → Bool → E → Result E (Unit {0})
raise_if true e = err e
raise_if false e = ok tt

-- A value that must be there.
abbrev pub or_raise {ℓ κ} : {E : Type ℓ} {A : Type κ} → Option A → E → Result E A
or_raise none e = err e
or_raise (some a) e = ok a

-- Inversion of a successful bind, for proofs where the parts stay shut.
pub >>=-eq-ok {ℓ κ μ} :
    {E : Type ℓ} {A : Type κ} {B : Type μ} (m : Result E A) (f : A → Result E B) {b : B}
    → (m >>= f) ≡ ok b
    → (a : A) × (m ≡ ok a) × (f a ≡ ok b)
unfolding ◌>>=◌
>>=-eq-ok (ok a) f h = (a, refl, h)
>>=-eq-ok (err e) f h = cc

-- A branch on an outcome, as a function whose branches a rule can name.
abbrev pub on_result {ℓ κ μ} :
    {E : Type ℓ} {A : Type κ} {B : Type μ} → Result E A → (A → B) → (E → B) → B
on_result (ok a) f g = f a
on_result (err e) f g = g e

-- `if test: raise error`, and `if value is None: raise error`, before the rest.
module _ {ℓ κ} {E : Type ℓ} {B : Type κ} where
  unfoldable pub check : Bool → E → Result E B → Result E B
  check true e rest = err e
  check false e rest = rest

  unfoldable pub need {μ} : {A : Type μ} → Option A → E → (A → Result E B) → Result E B
  need none e rest = err e
  need (some a) e rest = rest a

  -- `if test: return first`, before the rest.
  unfoldable pub branch : Bool → Result E B → Result E B → Result E B
  branch true first rest = first
  branch false first rest = rest

  unfoldable pub on_value {μ} : {A : Type μ} → Option A → Result E B → (A → Result E B) → Result E B
  on_value none r f = r
  on_value (some a) r f = f a

-- `try: … except E as error: raise F`
unfoldable pub raise_as {ℓ κ μ} :
    {E : Type ℓ} {F : Type κ} {A : Type μ} → (E → F) → Result E A → Result F A
raise_as f (ok a) = ok a
raise_as f (err e) = err (f e)

-- What a result satisfies if it is a value.
pub record Gives {E A : Type 0} (Q : A → Type 0) (r : Result E A) : Type 0 where
  pub on_ok : {a : A} → r ≡ ok a → Q a
