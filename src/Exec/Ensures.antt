-- ===== src/Exec/Ensures.antt =====
-- An invariant of the state, with what a returned value satisfies: one rule for each way to build
-- a method.
use mathlib.Core.Path.{◌≡◌, refl}
use mathlib.Core.List.{List, [], ◌∷◌}
use mathlib.Core.Option.{Option, none, some}
use mathlib.Core.Bool.{Bool, true, false}
use strix_halo_rocm_toolkit.Prelude.{on_option, if◌then◌else◌}
use strix_halo_rocm_toolkit.Results.{Result, ok, err, on_result}
use strix_halo_rocm_toolkit.Exec.{
  Exec, pure, raise, lift, gets, ◌>>=◌, continue, try_catch, handle, try_finally, ended, for_each,
  attempt,
}

-- What an outcome that returns satisfies; a raise satisfies everything.
abbrev pub Returns : {E A : Type 0} → (A → Type 0) → Result E A → Type 0
Returns Q (ok a) = Q a
Returns Q (err _) = Unit

-- From a state with `P`, the method ends in a state with `P`, and what it returns satisfies `Q`.
pub record Ensures {E S A : Type 0} (P : S → Type 0) (Q : A → Type 0) (m : Exec E S A)
    : Type 0 where
  pub kept : (s : S) → P s → P (m s).1
  pub gives : (s : S) → P s → Returns Q (m s).0

abbrev pub Anything : {A : Type 0} → A → Type 0
Anything _ = Unit

-- The method keeps `P`, whatever it returns.
abbrev pub Keeps : {E S A : Type 0} → (S → Type 0) → Exec E S A → Type 0
Keeps P m = Ensures P Anything m

module _ {E S A : Type 0} {P : S → Type 0} where
  pub Ensures-pure : {Q : A → Type 0} (a : A) → Q a → Ensures P Q (pure {E = E} a)
  unfolding pure
  Ensures-pure a q = record { kept = λ s h. h; gives = λ s h. q }

  pub Ensures-raise : {Q : A → Type 0} (e : E) → Ensures P Q (raise e)
  unfolding raise
  Ensures-raise e = record { kept = λ s h. h; gives = λ s h. tt }

  pub Ensures-lift : {Q : A → Type 0} (r : Result E A) → Returns Q r → Ensures P Q (lift r)
  unfolding lift
  Ensures-lift r q = record { kept = λ s h. h; gives = λ s h. q }

  pub Ensures-gets :
      {Q : A → Type 0} (f : S → A) → ((s : S) → P s → Q (f s)) → Ensures P Q (gets {E = E} f)
  unfolding gets
  Ensures-gets f q = record { kept = λ s h. h; gives = q }

  -- What is lifted is known afterwards.
  pub Ensures-known : (r : Result E A) → Ensures P (λ a. r ≡ ok a) (lift r)
  Ensures-known (ok a) = Ensures-lift (ok a) refl
  Ensures-known (err e) = Ensures-lift (err e) tt

  pub Keeps-gets : (f : S → A) → Keeps P (gets {E = E} f)
  unfolding gets
  Keeps-gets f = record { kept = λ s h. h; gives = λ s h. tt }

  pub Ensures-if :
      {Q : A → Type 0} (b : Bool) (m n : Exec E S A)
      → (b ≡ true → Ensures P Q m)
      → (b ≡ false → Ensures P Q n)
      → Ensures P Q (if b then m else n)
  Ensures-if true m n km kn = km refl
  Ensures-if false m n km kn = kn refl

  -- The consequence rule.
  pub Ensures-weaken :
      {Q R : A → Type 0} (m : Exec E S A) → ((a : A) → Q a → R a) → Ensures P Q m → Ensures P R m
  Ensures-weaken {Q} {R} m sub km = record {
    kept = km.kept;
    gives = λ s h. weaken (m s).0 (km.gives s h);
  }
    where
      weaken : (r : Result E A) → Returns Q r → Returns R r
      weaken (ok a) q = sub a q
      weaken (err e) q = tt

module _ {E S A B : Type 0} {P : S → Type 0} {Q : A → Type 0} {R : B → Type 0} where
  continue-kept :
      (f : A → Exec E S B)
      → ((a : A) → Q a → Ensures P R (f a))
      → (r : Result E A) (s : S) → P s
      → Returns Q r
      → P (continue r f s).1 × Returns R (continue r f s).0
  continue-kept f kf (ok a) s h q = ((kf a q).kept s h, (kf a q).gives s h)
  continue-kept f kf (err e) s h q = (h, tt)

  pub Ensures-bind :
      (m : Exec E S A) (f : A → Exec E S B)
      → Ensures P Q m
      → ((a : A) → Q a → Ensures P R (f a))
      → Ensures P R (m >>= f)
  unfolding ◌>>=◌
  Ensures-bind m f km kf = record {
    kept = λ s h. (continue-kept f kf (m s).0 (m s).1 (km.kept s h) (km.gives s h)).0;
    gives = λ s h. (continue-kept f kf (m s).0 (m s).1 (km.kept s h) (km.gives s h)).1;
  }

module _ {E S A : Type 0} {P : S → Type 0} {Q : A → Type 0} where
  handle-kept :
      (g : E → Exec E S A)
      → ((e : E) → Ensures P Q (g e))
      → (r : Result E A) (s : S) → P s
      → Returns Q r
      → P (handle r g s).1 × Returns Q (handle r g s).0
  handle-kept g kg (ok a) s h q = (h, q)
  handle-kept g kg (err e) s h q = ((kg e).kept s h, (kg e).gives s h)

  pub Ensures-try_catch :
      (m : Exec E S A) (g : E → Exec E S A)
      → Ensures P Q m
      → ((e : E) → Ensures P Q (g e))
      → Ensures P Q (try_catch m g)
  unfolding try_catch
  Ensures-try_catch m g km kg = record {
    kept = λ s h. (handle-kept g kg (m s).0 (m s).1 (km.kept s h) (km.gives s h)).0;
    gives = λ s h. (handle-kept g kg (m s).0 (m s).1 (km.kept s h) (km.gives s h)).1;
  }

Returns-Anything : {E A : Type 0} (r : Result E A) → Returns Anything r
Returns-Anything (ok a) = tt
Returns-Anything (err e) = tt

pub Keeps-intro :
    {E S A : Type 0} {P : S → Type 0} (m : Exec E S A) → ((s : S) → P s → P (m s).1) → Keeps P m
Keeps-intro m k = record { kept = k; gives = λ s h. Returns-Anything (m s).0 }

-- The rules that hold with nothing known of the values in between.
module _ {E S A B : Type 0} {P : S → Type 0} where
  pub Keeps-bind :
      (m : Exec E S A) (f : A → Exec E S B)
      → Keeps P m
      → ((a : A) → Keeps P (f a))
      → Keeps P (m >>= f)
  Keeps-bind m f km kf = Ensures-bind m f km (λ a _. kf a)

module _ {E S A : Type 0} {P : S → Type 0} where
  pub Keeps-pure : (a : A) → Keeps P (pure {E = E} a)
  Keeps-pure a = Ensures-pure a tt

  pub Keeps-raise : (e : E) → Keeps P (raise {A = A} e)
  Keeps-raise e = Ensures-raise e

  pub Keeps-if :
      (b : Bool) (m n : Exec E S A) → Keeps P m → Keeps P n → Keeps P (if b then m else n)
  Keeps-if b m n km kn = Ensures-if b m n (λ _. km) (λ _. kn)

  pub Keeps-try_catch :
      (m : Exec E S A) (g : E → Exec E S A)
      → Keeps P m
      → ((e : E) → Keeps P (g e))
      → Keeps P (try_catch m g)
  Keeps-try_catch m g km kg = Ensures-try_catch m g km kg

module _ {E A : Type 0} (Q : A → Type 0) where
  ended-Returns : (x : Result E (Unit {0})) (r : Result E A) → Returns Q r → Returns Q (ended x r)
  ended-Returns (ok _) r h = h
  ended-Returns (err e) r h = tt

module _ {E S A : Type 0} {P : S → Type 0} {Q : A → Type 0} where
  pub Ensures-try_finally :
      (m : Exec E S A) (after : Exec E S (Unit {0}))
      → Ensures P Q m
      → Keeps P after
      → Ensures P Q (try_finally m after)
  unfolding try_finally
  Ensures-try_finally m after km ka = record {
    kept = λ s h. ka.kept (m s).1 (km.kept s h);
    gives = λ s h. ended-Returns Q (after (m s).1).0 (m s).0 (km.gives s h);
  }

module _ {E S A : Type 0} {P : S → Type 0} where
  pub Keeps-try_finally :
      (m : Exec E S A) (after : Exec E S (Unit {0}))
      → Keeps P m
      → Keeps P after
      → Keeps P (try_finally m after)
  Keeps-try_finally m after km ka = Ensures-try_finally m after km ka

  pub Keeps-lift : (r : Result E A) → Keeps P (lift r)
  Keeps-lift (ok a) = Ensures-lift (ok a) tt
  Keeps-lift (err e) = Ensures-lift (err e) tt

  pub Keeps-for_each :
      (body : A → Exec E S (Unit {0})) (xs : List A)
      → ((x : A) → Keeps P (body x))
      → Keeps P (for_each body xs)
  unfolding for_each
  Keeps-for_each body [] kb = Keeps-pure tt
  Keeps-for_each body (x ∷ xs) kb =
      Keeps-bind (body x) (λ _. for_each body xs) (kb x) (λ _. Keeps-for_each body xs kb)

  -- What an attempt returns satisfies `Q`, if it is a value.
  pub Ensures-attempt :
      {Q : A → Type 0} (m : Exec E S A) → Ensures P Q m → Ensures P (Returns Q) (attempt m)
  unfolding attempt
  Ensures-attempt m km = record { kept = km.kept; gives = km.gives }

  -- A branch on an optional value.
  pub Keeps-option :
      {B : Type 0} (x : Option B) (m : Exec E S A) (f : B → Exec E S A)
      → Keeps P m
      → ((b : B) → Keeps P (f b))
      → Keeps P (on_option x m f)
  Keeps-option none m f km kf = km
  Keeps-option (some b) m f km kf = kf b

  pub Keeps-result :
      {B D : Type 0} (x : Result D B) (f : B → Exec E S A) (g : D → Exec E S A)
      → ((b : B) → Keeps P (f b))
      → ((d : D) → Keeps P (g d))
      → Keeps P (on_result x f g)
  Keeps-result (ok b) f g kf kg = kf b
  Keeps-result (err d) f g kf kg = kg d

  pub Keeps-attempt : (m : Exec E S A) → Keeps P m → Keeps P (attempt m)
  unfolding attempt
  Keeps-attempt m km = Keeps-intro (attempt m) (λ s h. km.kept s h)

pub ruleset keeps_rules = (
  Keeps-pure, Keeps-raise, Keeps-gets, Keeps-lift, Keeps-if, Keeps-bind, Keeps-try_catch,
  Keeps-try_finally, Keeps-for_each, Keeps-option, Keeps-result, Keeps-attempt,
)

-- The rules that follow the returned value to the end of a method.
module _ {E S A B : Type 0} {P : S → Type 0} {R : B → Type 0} where
  pub Ensures-after :
      (m : Exec E S A) (f : A → Exec E S B)
      → Keeps P m
      → ((a : A) → Ensures P R (f a))
      → Ensures P R (m >>= f)
  Ensures-after m f km kf = Ensures-bind m f km (λ a _. kf a)

module _ {E S A : Type 0} {P : S → Type 0} {R : A → Type 0} where
  pub Ensures-choice :
      (b : Bool) (m n : Exec E S A)
      → Ensures P R m
      → Ensures P R n
      → Ensures P R (if b then m else n)
  Ensures-choice b m n km kn = Ensures-if b m n (λ _. km) (λ _. kn)

  pub Ensures-option :
      {B : Type 0} (x : Option B) (m : Exec E S A) (f : B → Exec E S A)
      → Ensures P R m
      → ((b : B) → Ensures P R (f b))
      → Ensures P R (on_option x m f)
  Ensures-option none m f km kf = km
  Ensures-option (some b) m f km kf = kf b

  pub Ensures-option-known :
      {B : Type 0} (x : Option B) (m : Exec E S A) (f : B → Exec E S A)
      → (x ≡ none → Ensures P R m)
      → ((b : B) → x ≡ some b → Ensures P R (f b))
      → Ensures P R (on_option x m f)
  Ensures-option-known none m f km kf = km refl
  Ensures-option-known (some b) m f km kf = kf b refl

  pub Ensures-result :
      {B D : Type 0} (x : Result D B) (f : B → Exec E S A) (g : D → Exec E S A)
      → ((b : B) → Ensures P R (f b))
      → ((e : D) → Ensures P R (g e))
      → Ensures P R (on_result x f g)
  Ensures-result (ok b) f g kf kg = kf b
  Ensures-result (err e) f g kf kg = kg e

pub ruleset gives_rules =
    (keeps_rules, Ensures-pure, Ensures-raise, Ensures-after, Ensures-choice, Ensures-option)
