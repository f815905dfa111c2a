-- ===== src/Prelude/Int.antt =====
-- Go's signed integers over the native numbers: ℤ, its order and tests, and the wrap-around of
-- `int` and `int64` (64 bits) and of `int32`.
use cc_metric_collector.Prelude.Tests.{ltb, leb, if◌then◌else◌, ◌==◌}
use Prim.Native.Nat.{ℕ, suc, ◌+◌, ◌-◌, ◌*◌, ◌/◌, ◌%◌, ◌^◌, ◌≤◌}
use mathlib.Core.Path.{◌≡◌, refl}
use mathlib.Core.Logic.{◌⊎◌, ◌↔◌}
use mathlib.Core.Bool.{Bool, true, false}
use native.Mathlib.Omega.{arith}
use native.Mathlib.Decide.{ℕ_discrete}
use native.Mathlib.Nat.{mod-eq_of_lt}

-- `negsuc n` is -(n + 1).
pub data ℤ : Type 0 where
  pos : ℕ → ℤ
  negsuc : ℕ → ℤ

abbrev pub pos_part : ℤ → ℕ
pos_part (pos n) = n
pos_part (negsuc n) = 0

abbrev pub neg_part : ℤ → ℕ
neg_part (pos n) = 0
neg_part (negsuc n) = suc n

-- a - b, as an integer.
abbrev pub sub_ℕ : ℕ → ℕ → ℤ
sub_ℕ a b = if leb b a then pos (a - b) else negsuc (b - a - 1)

infixl 65 ◌+ℤ◌ ◌-ℤ◌
infix 50 ◌≤ℤ◌
unfoldable pub ◌+ℤ◌ : ℤ → ℤ → ℤ
a +ℤ b = sub_ℕ (pos_part a + pos_part b) (neg_part a + neg_part b)

unfoldable pub ◌-ℤ◌ : ℤ → ℤ → ℤ
a -ℤ b = sub_ℕ (pos_part a + neg_part b) (neg_part a + pos_part b)

abbrev pub ◌≤ℤ◌ : ℤ → ℤ → Type 0
a ≤ℤ b = pos_part a + neg_part b ≤ pos_part b + neg_part a

abbrev pub ltb_ℤ : ℤ → ℤ → Bool
ltb_ℤ a b = ltb (pos_part a + neg_part b) (pos_part b + neg_part a)

abbrev pub leb_ℤ : ℤ → ℤ → Bool
leb_ℤ a b = leb (pos_part a + neg_part b) (pos_part b + neg_part a)

-- `a == b` on Go integers.
abbrev pub eqb_ℤ : ℤ → ℤ → Bool
eqb_ℤ (pos a) (pos b) = a == b
eqb_ℤ (negsuc a) (negsuc b) = a == b
eqb_ℤ _ _ = false

pub eqb_ℤ_iff : (a b : ℤ) → (eqb_ℤ a b ≡ true) ↔ (a ≡ b)
eqb_ℤ_iff a b = (λ e. ground arith, λ e. ground arith)

pub ℤ-discrete : Discrete ℤ
ℤ-discrete = hlevel ℕ_discrete

pub ≤ℤ_total : (a b : ℤ) → (a ≤ℤ b) ⊎ (b ≤ℤ a)
≤ℤ_total a b = omega arith

pub ≤ℤ_antisymm : (a b : ℤ) → a ≤ℤ b → b ≤ℤ a → a ≡ b
≤ℤ_antisymm a b h k = ground arith

-- The bit pattern of `a` in `2 * h` values, read as a signed integer: two's complement.
abbrev pub signed : ℕ → ℕ → ℤ
signed h p = if ltb p h then pos p else negsuc (2 * h - p - 1)

abbrev pub pattern_of : ℕ → ℤ → ℕ
pattern_of h (pos n) = n % (2 * h)
pattern_of h (negsuc n) = 2 * h - 1 - n % (2 * h)

-- `T(a)` for a signed type `T` of `2 * h` values.
unfoldable pub wrap : ℕ → ℤ → ℤ
wrap h a = signed h (pattern_of h a)

abbrev pub half64 : ℕ
half64 = 2 ^ 63

abbrev pub half32 : ℕ
half32 = 2 ^ 31

-- The values that a signed type with `2 * h` values holds.
abbrev pub InRange : ℕ → ℤ → Type 0
InRange h a = (pos_part a + 1 ≤ h) × (neg_part a ≤ h)

-- `wrap` changes nothing in range.
pub wrap_of_InRange : (h : ℕ) (a : ℤ) → InRange h a → wrap h a ≡ a
unfolding wrap
wrap_of_InRange h (pos n) r = rw (mod-eq_of_lt {n = n} {m = 2 * h} (omega arith)) (ground arith)
wrap_of_InRange h (negsuc n) r = rw (mod-eq_of_lt {n = n} {m = 2 * h} (omega arith)) (ground arith)

-- Go's `a / 2`, which truncates towards 0.
abbrev pub half_ℤ : ℤ → ℤ
half_ℤ (pos n) = pos (n / 2)
half_ℤ (negsuc n) = sub_ℕ 0 (suc n / 2)

wrap_max : wrap half64 (pos (2 ^ 63)) ≡ negsuc (2 ^ 63 - 1)
unfolding wrap
wrap_max = refl

wrap_min : wrap half32 (negsuc (2 ^ 31)) ≡ pos (2 ^ 31 - 1)
unfolding wrap
wrap_min = refl
