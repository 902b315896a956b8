-- ===== src/Prelude/Exec.antt =====
-- Methods that change an object and may raise. What was written before a raise stays written, so
-- the object comes back beside the exception too.
use sketchlog.Prelude.{◌⊎◌, inl, ◌≡◌, refl, Bool, true, false, if◌then◌else◌, List, [], ◌∷◌, ◌++◌}

pub data Result {ℓ κ} (E : Type ℓ) (A : Type κ) : Type (ℓ ⊔ κ) where
  ok : A → Result E A
  err : E → Result E A

abbrev pub Exec : Type 0 → Type 0 → Type 0 → Type 0
Exec E S A = S → Result E A × S

abbrev pub after : {E S A : Type 0} → Result E A × S → S
after r = r.1

-- `if test: raise e`, then the rest
abbrev pub raise_if : {E S A : Type 0} → Bool → E → Exec E S A → Exec E S A
raise_if true e k s = (err e, s)
raise_if false e k s = k s

-- The sequence of two methods on one object.
abbrev pub continue : {E S A B : Type 0} → Result E A → (A → Exec E S B) → Exec E S B
continue (ok a) f s = f a s
continue (err e) f s = (err e, s)

-- A method that has run, and what follows unless it raised.
abbrev pub and_then : {E S A B : Type 0} → Result E A × S → Exec E S B → Result E B × S
and_then (ok a, s) k = k s
and_then (err e, s) k = (err e, s)

-- What both branches of a test establish holds after it; each branch may use the test's value.
pub after-if {ℓ} :
    {R S : Type 0} (P : S → Type ℓ) (b : Bool) (x y : R × S)
    → (b ≡ true → P x.1)
    → (b ≡ false → P y.1)
    → P (if b then x else y).1
after-if P true x y h k = h refl
after-if P false x y h k = k refl

-- A method either leaves the object as it was, or ends in a way that `P` describes.
abbrev pub Outcome : {E S A : Type 0} → (Result E A × S → Type 0) → S → Result E A × S → Type 0
Outcome {E} {S} {A} P s x = ((r : Result E A) × (x ≡ (r, s))) ⊎ P x

-- The checks before a change: what follows one may use that it did not raise.
pub Outcome-raise_if :
    {E S A : Type 0} (P : Result E A × S → Type 0) (b : Bool) (e : E) (k : Exec E S A) (s : S)
    → (b ≡ false → Outcome P s (k s))
    → Outcome P s (raise_if b e k s)
Outcome-raise_if P true e k s h = inl (err e, refl)
Outcome-raise_if P false e k s h = h refl

-- The same for methods that only compute: `if test: raise e`, the sequence of two, and a method of
-- a component, whose exception passes through.
abbrev pub refuse_if : {E A : Type 0} → Bool → E → Result E A → Result E A
refuse_if true e r = err e
refuse_if false e r = r

abbrev pub bind : {E A B : Type 0} → Result E A → (A → Result E B) → Result E B
bind (ok a) k = k a
bind (err e) k = err e

abbrev pub lift : {D E A : Type 0} → (D → E) → Result D A → Result E A
lift f (ok a) = ok a
lift f (err e) = err (f e)

-- What holds of a value, if there is one.
abbrev pub Ensures : {E A : Type 0} → (A → Type 0) → Result E A → Type 0
Ensures P (ok a) = P a
Ensures P (err e) = Unit

pub Ensures-refuse_if :
    {E A : Type 0} (P : A → Type 0) (b : Bool) (e : E) (r : Result E A)
    → (b ≡ false → Ensures P r)
    → Ensures P (refuse_if b e r)
Ensures-refuse_if P true e r h = tt
Ensures-refuse_if P false e r h = h refl

-- The same where the test does not matter.
pub Ensures-unless :
    {E A : Type 0} (P : A → Type 0) (b : Bool) (e : E) (r : Result E A)
    → Ensures P r
    → Ensures P (refuse_if b e r)
Ensures-unless P b e r h = Ensures-refuse_if P b e r λ _. h

pub Ensures-bind :
    {E A B : Type 0} (Q : A → Type 0) (P : B → Type 0) (r : Result E A) (k : A → Result E B)
    → Ensures Q r
    → ((a : A) → Q a → Ensures P (k a))
    → Ensures P (bind r k)
Ensures-bind Q P (ok a) k q h = h a q
Ensures-bind Q P (err e) k q h = tt

pub Ensures-weaken :
    {E A : Type 0} (Q P : A → Type 0) (r : Result E A)
    → Ensures Q r
    → ((a : A) → Q a → P a)
    → Ensures P r
Ensures-weaken Q P (ok a) q h = h a q
Ensures-weaken Q P (err e) q h = tt

pub Ensures-lift :
    {D E A : Type 0} (P : A → Type 0) (g : D → E) (r : Result D A)
    → ((a : A) → r ≡ ok a → P a)
    → Ensures P (lift g r)
Ensures-lift P g (ok a) h = h a refl
Ensures-lift P g (err e) h = tt

-- A constructor that collects its complaints: `if test: errors.append(e)`, then
-- `if errors: raise ValueError`.
abbrev pub append_if : {E : Type 0} → Bool → E → List E
append_if true e = e ∷ []
append_if false e = []

abbrev pub raise_errors : {E A : Type 0} → List E → A → Result (List E) A
raise_errors [] a = ok a
raise_errors (e ∷ es) a = err (e ∷ es)

pub no_error :
    {E : Type 0} (b : Bool) (e : E) (es : List E)
    → append_if b e ++ es ≡ []
    → (b ≡ false) × (es ≡ [])
no_error true e es h = cc
no_error false e es h = (refl, h)

-- What such a constructor returns is its argument, and has no errors.
pub raise_errors-ok :
    {E A : Type 0} (es : List E) (a b : A) → raise_errors es a ≡ ok b → (es ≡ []) × (a ≡ b)
raise_errors-ok [] a b h = (refl, cc)
raise_errors-ok (e ∷ es) a b h = cc

-- A sequence of `if test: raise e`.
abbrev pub refuse_first : {E A : Type 0} → List (Bool × E) → Result E A → Result E A
refuse_first [] r = r
refuse_first ((b, e) ∷ checks) r = refuse_if b e (refuse_first checks r)

-- None of the tests is met.
abbrev pub Passes : {E : Type 0} → List (Bool × E) → Type 0
Passes [] = Unit
Passes ((b, e) ∷ checks) = (b ≡ false) × Passes checks

pub refuse_first-ok :
    {E A : Type 0} (checks : List (Bool × E)) (r : Result E A)
    → Passes checks
    → refuse_first checks r ≡ r
refuse_first-ok [] r h = refl
refuse_first-ok ((b, e) ∷ checks) r h = rw (h.0) (refuse_first-ok checks r h.1)

pub Ensures-refuse_first :
    {E A : Type 0} (P : A → Type 0) (checks : List (Bool × E)) (r : Result E A)
    → (Passes checks → Ensures P r)
    → Ensures P (refuse_first checks r)
Ensures-refuse_first P [] r h = h tt
Ensures-refuse_first P ((b, e) ∷ checks) r h =
    Ensures-refuse_if P b e (refuse_first checks r)
      λ passed. Ensures-refuse_first P checks r λ rest. h (passed, rest)
