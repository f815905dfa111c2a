-- ===== src/Values.antt =====
-- Go values of type `any` that the aggregator's expressions compute with, and the operations of the
-- five number types. Floats are a parameter: `float64` and `float32` are types `F` and `G` with the
-- operations that the source uses. Integers are ℤ with the wrap-around of their width.
use cc_metric_collector.Prelude.{◌≡◌, refl, ◌⊎◌, inl, inr, ℕ, Bool, String, List, if◌then◌else◌}
use cc_metric_collector.Prelude.Int.{ℤ, pos, ◌+ℤ◌, ltb_ℤ, half_ℤ, wrap}

-- a call that returns a value or an error, with the error's message
pub data Result {ℓ} (A : Type ℓ) : Type ℓ where
  ok : A → Result A
  err : String → Result A

abbrev pub map_ok {ℓ κ} : {A : Type ℓ} {B : Type κ} → (A → B) → Result A → Result B
map_ok f (ok a) = ok (f a)
map_ok f (err e) = err e

pub data Any (F G : Type 0) : Type 0 where
  float64 : F → Any F G
  float32 : G → Any F G
  int int32 int64 : ℤ → Any F G
  bool : Bool → Any F G
  string : String → Any F G
  float64s : List F → Any F G
  float32s : List G → Any F G
  ints int32s int64s : List ℤ → Any F G
  bools : List Bool → Any F G
  other : Any F G

-- What the functions use of a number type `T`; `F` is float64.
pub record Num (T F : Type 0) : Type 0 where
  pub nought : T
  pub add : T → T → T
  pub less : T → T → Bool  -- cmp.Less, the order of `slices.Sort`
  pub lower : T → T → T  -- the builtin `min`
  pub upper : T → T → T  -- the builtin `max`
  pub halve : T → T  -- x / 2
  pub to_float64 : T → F

-- The two float types, and the division of averages.
pub record Floats (F G : Type 0) : Type 0 where
  pub num64 : Num F F
  pub num32 : Num G F
  pub of_int : ℤ → F
  pub divide : F → F → F

-- An integer type with `2 * h` values: `int` and `int64` with `half64`, `int32` with `half32`.
abbrev pub int_num : {F : Type 0} → ℕ → (ℤ → F) → Num ℤ F
int_num h of_int = record {
  nought = pos 0;
  add = λ a b. wrap h (a +ℤ b);
  less = ltb_ℤ;
  lower = λ a b. if ltb_ℤ b a then b else a;
  upper = λ a b. if ltb_ℤ a b then b else a;
  halve = half_ℤ;
  to_float64 = of_int;
}

pub Result-cases {ℓ} :
    {A : Type ℓ} (r : Result A) → ((a : A) × (r ≡ ok a)) ⊎ ((e : String) × (r ≡ err e))
Result-cases (ok a) = inl (a, refl)
Result-cases (err e) = inr (e, refl)
