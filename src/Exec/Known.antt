-- ===== src/Exec/Known.antt =====
-- The rules for the checks that a method makes on its way: what passed is known afterwards.
use mathlib.Core.Path.{◌≡◌, refl, ap, subst}
use mathlib.Core.List.{List, [], ◌∷◌}
use mathlib.Core.Option.{Option, none, some}
use mathlib.Core.Bool.{Bool, true, false}
use strix_halo_rocm_toolkit.Prelude.{All}
use strix_halo_rocm_toolkit.Results.{Result, ok, err, raise_if, or_raise}
use strix_halo_rocm_toolkit.Exec.{Exec, lift, ◌>>=◌, ◌>>◌, for_each, check, need, continue}
use strix_halo_rocm_toolkit.Exec.Ensures.{
  Ensures, Returns, Keeps-lift, Keeps-intro, Ensures-bind, Ensures-lift, Ensures-pure,
  Ensures-weaken,
}

-- Some run of the method returns the value.
abbrev pub Observed : {E S A : Type 0} → Exec E S A → A → Type 0
Observed {S} m a = (s : S) × ((m s).0 ≡ ok a)

module _ {E S : Type 0} {P : S → Type 0} where
  pub Ensures-raise_if :
      {Q : Unit {0} → Type 0} (b : Bool) (e : E)
      → (b ≡ false → Q tt)
      → Ensures P Q (lift (raise_if b e))
  Ensures-raise_if true e q = Ensures-lift (raise_if true e) tt
  Ensures-raise_if false e q = Ensures-lift (raise_if false e) (q refl)

  Ensures-or_raise :
      {A : Type 0} (o : Option A) (e : E) → Ensures P (λ a. o ≡ some a) (lift (or_raise o e))
  Ensures-or_raise none e = Ensures-lift (or_raise none e) tt
  Ensures-or_raise (some a) e = Ensures-lift (or_raise (some a) e) refl

module _ {E S B : Type 0} {P : S → Type 0} {R : B → Type 0} where
  -- `Ensures-bind`, with the method read off the goal.
  pub Ensures-next :
      {A : Type 0} {Q : A → Type 0} {m : Exec E S A} {f : A → Exec E S B}
      → Ensures P Q m
      → ((a : A) → Q a → Ensures P R (f a))
      → Ensures P R (m >>= f)
  Ensures-next {m} {f} km kf = Ensures-bind m f km kf

  pub Ensures-check :
      {b : Bool} (e : E) {n : Exec E S B} → (b ≡ false → Ensures P R n) → Ensures P R (check b e n)
  unfolding check
  Ensures-check {b} e k =
      Ensures-next {Q = λ _. b ≡ false} (Ensures-raise_if b e (λ h. h)) (λ _ h. k h)

  pub Ensures-need :
      {A : Type 0} {o : Option A} (e : E) {f : A → Exec E S B}
      → ((a : A) → o ≡ some a → Ensures P R (f a))
      → Ensures P R (need o e f)
  unfolding need
  Ensures-need {o} e {f} k = Ensures-next (Ensures-or_raise o e) k

module _ {E S A : Type 0} {P : S → Type 0} (Q : A → Type 0) where
  Ensures-for_each :
      (body : A → Exec E S (Unit {0})) (xs : List A)
      → ((x : A) → Ensures P (λ _. Q x) (body x))
      → Ensures P (λ _. All Q xs) (for_each body xs)
  unfolding for_each
  Ensures-for_each body [] kb = Ensures-pure tt tt
  Ensures-for_each body (x ∷ xs) kb =
      Ensures-next (kb x)
        (λ _ q. Ensures-weaken (for_each body xs) (λ _ h. (q, h)) (Ensures-for_each body xs kb))

  pub Ensures-each :
      {B : Type 0} {R : B → Type 0} {body : A → Exec E S (Unit {0})} (xs : List A) {n : Exec E S B}
      → ((x : A) → Ensures P (λ _. Q x) (body x))
      → (All Q xs → Ensures P R n)
      → Ensures P R (for_each body xs >> n)
  Ensures-each {body} xs kb k = Ensures-next (Ensures-for_each body xs kb) (λ _ h. k h)

one_value : {E A : Type 0} {a b : A} (r : Result E A) → r ≡ ok a → r ≡ ok b → a ≡ b
one_value r h k = cc

-- What a method is known to return, for a run of it.
pub Ensures-ok :
    {E S A : Type 0} {P : S → Type 0} {Q : A → Type 0} (m : Exec E S A)
    → Ensures P Q m
    → (s : S) → P s
    → {a : A} → (m s).0 ≡ ok a
    → Q a
Ensures-ok {E} {A} {Q} m km s p h = returned (m s).0 (km.gives s p) h
  where
    returned : (r : Result E A) → Returns Q r → {a : A} → r ≡ ok a → Q a
    returned (ok b) q e = subst Q (one_value (ok b) refl e) q
    returned (err _) q e = cc

abbrev pub Always : {S : Type 0} → S → Type 0
Always _ = Unit

module _ {E S A B : Type 0} where
  -- Two ways to go on that agree on what the method may return are the same.
  pub bind-agree :
      {Q : A → Type 0} (m : Exec E S A) (f g : A → Exec E S B)
      → Ensures Always Q m
      → ((a : A) → Q a → (s : S) → f a s ≡ g a s)
      → (s : S) → (m >>= f) s ≡ (m >>= g) s
  unfolding ◌>>=◌
  bind-agree {Q} m f g km same s = agree (m s).0 (m s).1 (km.gives s tt)
    where
      agree : (r : Result E A) (s1 : S) → Returns Q r → continue r f s1 ≡ continue r g s1
      agree (ok a) s1 q = same a q s1
      agree (err e) s1 q = refl

module _ {E S B : Type 0} where
  pub check-agree :
      (b : Bool) (e : E) (m n : Exec E S B)
      → ((s : S) → m s ≡ n s)
      → (s : S) → check b e m s ≡ check b e n s
  unfolding check
  check-agree b e m n same s =
      bind-agree (lift (raise_if b e)) (λ _. m) (λ _. n) (Keeps-lift (raise_if b e)) (λ _ _. same) s

  pub need-agree :
      {A : Type 0} (o : Option A) (e : E) (f g : A → Exec E S B)
      → ((a : A) → o ≡ some a → (s : S) → f a s ≡ g a s)
      → (s : S) → need o e f s ≡ need o e g s
  unfolding need
  need-agree o e f g same s = bind-agree (lift (or_raise o e)) f g (Ensures-or_raise o e) same s

module _ {E S A B : Type 0} where
  pub bind-agree_after :
      (m : Exec E S A) (f g : A → Exec E S B)
      → ((a : A) (s : S) → f a s ≡ g a s)
      → (s : S) → (m >>= f) s ≡ (m >>= g) s
  bind-agree_after m f g same = bind-agree m f g (Keeps-intro m (λ _ _. tt)) (λ a _. same a)

  pub bind-agree_first :
      (m n : Exec E S A) (f : A → Exec E S B) (s : S) → m s ≡ n s → (m >>= f) s ≡ (n >>= f) s
  unfolding ◌>>=◌
  bind-agree_first m n f s same = ap (λ (r : Result E A × S). continue r.0 f r.1) same
