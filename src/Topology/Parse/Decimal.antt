-- ===== src/Topology/Parse/Decimal.antt =====
-- `strconv.Atoi` reads back what a number is printed as.
use cc_metric_collector.Prelude.{
  ℕ, zero, suc, ◌+◌, ◌-◌, ◌*◌, ◌/◌, ◌%◌, ◌<◌, ◌≡◌, ◌≢◌, refl, true, Bool-cases, inl, inr, some,
  List, [], ◌∷◌, ◌++◌, ltb, arith, All, All-append, if◌then◌else◌, ◌∙◌, ap,
}
use cc_metric_collector.Prelude.Int.{pos, half64}
use cc_metric_collector.Topology.Parse.{is_digit, digits_value, natural, atoi}

-- the decimal digits of a number below 10 ^ fuel
decimal_fuel : ℕ → ℕ → List ℕ
decimal_fuel zero n = []
decimal_fuel (suc fuel) n =
    let more = decimal_fuel fuel (n / 10) in
    if ltb n 10 then (b'0' + n) ∷ [] else more ++ (b'0' + n % 10) ∷ []

-- the kernel's %d
pub decimal : ℕ → List ℕ
unfolding decimal_fuel
decimal n = decimal_fuel (suc n) n

digits_value-append :
    (acc : ℕ) (xs : List ℕ) (d v : ℕ)
    → d < 10
    → digits_value acc xs ≡ some v
    → digits_value acc (xs ++ (b'0' + d) ∷ []) ≡ some (v * 10 + d)
unfolding digits_value
digits_value-append acc [] d v h e = ground arith
digits_value-append acc (x ∷ xs) d v h e =
    ground (arith, digits_value-append (acc * 10 + (x - b'0')) xs d v h)

digits_value-decimal_fuel : (fuel n : ℕ) → n < fuel → digits_value 0 (decimal_fuel fuel n) ≡ some n
unfolding decimal_fuel
digits_value-decimal_fuel zero n h = elim h [ ]
digits_value-decimal_fuel (suc fuel) n h = elim (Bool-cases (ltb n 10)) [
  | inl small ↦ rw small (unfold digits_value in ground arith)
  | inr large ↦ rw large (
      digits_value-append 0 (decimal_fuel fuel (n / 10)) (n % 10) (n / 10) (omega arith)
        (digits_value-decimal_fuel fuel (n / 10) (ground arith))
      ∙ ap some (omega arith))
]

abbrev pub IsDigit : ℕ → Type 0
IsDigit c = is_digit c ≡ true

decimal_fuel-digits : (fuel n : ℕ) → All IsDigit (decimal_fuel fuel n)
unfolding decimal_fuel
decimal_fuel-digits zero n = tt
decimal_fuel-digits (suc fuel) n = elim (Bool-cases (ltb n 10)) [
  | inl small ↦ rw small (ground arith, tt)
  | inr large ↦ rw large (
      All-append IsDigit (decimal_fuel fuel (n / 10)) _ (decimal_fuel-digits fuel (n / 10))
        (ground arith, tt))
]

pub decimal-digits : (n : ℕ) → All IsDigit (decimal n)
unfolding decimal
decimal-digits n = decimal_fuel-digits (suc n) n

append_cons-ne_nil : (xs : List ℕ) (x : ℕ) (ys : List ℕ) → xs ++ x ∷ ys ≢ []
append_cons-ne_nil [] x ys e = cc
append_cons-ne_nil (c ∷ xs) x ys e = cc

decimal_fuel-nonempty : (fuel n : ℕ) → decimal_fuel (suc fuel) n ≢ []
unfolding decimal_fuel
decimal_fuel-nonempty fuel n e = elim (Bool-cases (ltb n 10)) [
  | inl small ↦ cc (rw small at e)
  | inr large ↦ append_cons-ne_nil (decimal_fuel fuel (n / 10)) _ _ (rw large at e)
]

natural_of_digits :
    (cs : List ℕ) {v : ℕ} → cs ≢ [] → digits_value 0 cs ≡ some v → natural cs ≡ some v
unfolding natural
natural_of_digits [] n e = absurd (n refl)
natural_of_digits (c ∷ cs) n e = e

atoi_of_digits :
    (cs : List ℕ) (v : ℕ)
    → All IsDigit cs
    → natural cs ≡ some v
    → v < half64
    → atoi cs ≡ some (pos v)
unfolding atoi
atoi_of_digits [] v d e h = absurd (unfold natural in cc)
atoi_of_digits (c ∷ cs) v d e h = ground (arith, d.0)

-- `strconv.Atoi` of the decimal text of a number that fits `int` returns the number.
pub atoi-decimal : (n : ℕ) → n < half64 → atoi (decimal n) ≡ some (pos n)
unfolding decimal
atoi-decimal n h =
    atoi_of_digits _ n (decimal_fuel-digits (suc n) n)
      (natural_of_digits _ (decimal_fuel-nonempty n n)
        (digits_value-decimal_fuel (suc n) n (omega arith)))
      h
