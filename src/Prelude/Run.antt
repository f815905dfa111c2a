-- ===== src/Prelude/Run.antt =====
-- What a Go call that may panic does: it finishes with a value, or it panics (an index out of
-- range, a method of a nil interface).
use Prim.Native.Nat.{ℕ, ◌<◌}
use mathlib.Core.Path.{◌≡◌, refl}
use native.Mathlib.Omega.{arith}
use mathlib.Core.List.{List}
use cc_metric_collector.Prelude.Tests.{Option-cases}
use mathlib.Core.Logic.{inl, inr}
use mathlib.Core.Option.{Option, none, some}
use cc_metric_collector.Prelude.Lists.{length, get_elem?, get_elem?-some}

pub data Run {ℓ} (A : Type ℓ) : Type ℓ where
  done : A → Run A
  panic : Run A

infixl 5 ◌>>=◌
abbrev pub ◌>>=◌ {ℓ κ} : {A : Type ℓ} {B : Type κ} → Run A → (A → Run B) → Run B
done a >>= f = f a
panic >>= f = panic

abbrev pub of_option {ℓ} : {A : Type ℓ} → Option A → Run A
of_option none = panic
of_option (some a) = done a

-- xs[i]
abbrev pub at {ℓ} : {A : Type ℓ} → List A → ℕ → Run A
at xs i = of_option (get_elem? xs i)

-- A result that exists and has a property: the call does not panic.
abbrev pub Finishes {ℓ} : {A : Type ℓ} → (A → Type 0) → Run A → Type 0
Finishes P (done a) = P a
Finishes P panic = ⊥

-- The result has a property, if there is one.
abbrev pub Partly {ℓ} : {A : Type ℓ} → (A → Type 0) → Run A → Type 0
Partly P (done a) = P a
Partly P panic = Unit {0}

-- The value of a call that finishes, with its property.
pub Finishes-value {ℓ} :
    {A : Type ℓ} (P : A → Type 0) (m : Run A) → Finishes P m → (a : A) × (m ≡ done a) × P a
Finishes-value P (done a) h = (a, refl, h)
Finishes-value P panic h = elim h [ ]

-- The property of the value that a call is known to finish with.
pub Finishes-at {ℓ} :
    {A : Type ℓ} (P : A → Type 0) (m : Run A) {a : A} → Finishes P m → m ≡ done a → P a
Finishes-at P m {a} h e = rw e at h

-- What a call gives to the next one, if both finish.
pub Finishes-bind :
    {A B : Type 0} (P : A → Type 0) (Q : B → Type 0) (m : Run A) (f : A → Run B)
    → Finishes P m
    → ((a : A) → P a → Finishes Q (f a))
    → Finishes Q (m >>= f)
Finishes-bind P Q (done a) f h k = k a h
Finishes-bind P Q panic f h k = elim h [ ]

pub at-Finishes :
    {A : Type 0} (xs : List A) (i : ℕ) → i < length xs → Finishes (λ a. Unit {0}) (at xs i)
at-Finishes xs i h = let (a, e) = get_elem?-some xs i h in rw e tt

pub at-Finishes_value :
    {A : Type 0} (xs : List A) (i : ℕ)
    → i < length xs
    → Finishes (λ a. get_elem? xs i ≡ some a) (at xs i)
at-Finishes_value xs i h = let (a, e) = get_elem?-some xs i h in rw e refl

-- What a call gives to the next one, where both may panic.
pub Partly-bind :
    {A B : Type 0} (P : A → Type 0) (Q : B → Type 0) (m : Run A) (f : A → Run B)
    → Partly P m
    → ((a : A) → P a → Partly Q (f a))
    → Partly Q (m >>= f)
Partly-bind P Q (done a) f h k = k a h
Partly-bind P Q panic f h k = tt

pub Partly-any : {A : Type 0} (m : Run A) → Partly (λ a. Unit {0}) m
Partly-any (done a) = tt
Partly-any panic = tt

pub Partly-map :
    {A : Type 0} (P Q : A → Type 0) (m : Run A) → ((a : A) → P a → Q a) → Partly P m → Partly Q m
Partly-map P Q (done a) f h = f a h
Partly-map P Q panic f h = tt

pub Partly-value : {A : Type 0} (P : A → Type 0) (m : Run A) {a : A} → Partly P m → m ≡ done a → P a
Partly-value P (done b) h e = ground (arith, h, e)
Partly-value P panic h e = cc

-- A call that panics whatever its value is.
pub bind-panic :
    {A B : Type 0} (P : A → Type 0) (m : Run A) (f : A → Run B)
    → Partly P m
    → ((a : A) → P a → f a ≡ panic)
    → (m >>= f) ≡ panic
bind-panic P (done a) f h k = k a h
bind-panic P panic f h k = refl

pub bind-panic_any :
    {A B : Type 0} (m : Run A) (f : A → Run B) → ((a : A) → f a ≡ panic) → (m >>= f) ≡ panic
bind-panic_any (done a) f h = h a
bind-panic_any panic f h = refl

-- A call that finishes with a value on which the next one panics.
pub bind-panic_at :
    {A B : Type 0} (m : Run A) (a : A) (f : A → Run B)
    → m ≡ done a
    → f a ≡ panic
    → (m >>= f) ≡ panic
bind-panic_at m a f h k = rw h k

pub at-value : {A : Type 0} (xs : List A) (i : ℕ) → Partly (λ a. get_elem? xs i ≡ some a) (at xs i)
at-value xs i = elim (Option-cases (get_elem? xs i)) [ inl e ↦ rw e tt | inr (a, e) ↦ rw e refl ]

-- A call is finished with its value.
pub Partly-self : {A : Type 0} (m : Run A) → Partly (λ a. m ≡ done a) m
Partly-self (done a) = refl
Partly-self panic = tt

pub done-injective : {A : Type 0} (a b : A) → done a ≡ done b → a ≡ b
done-injective a b e = ground (arith, e)
