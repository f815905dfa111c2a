-- ===== src/Topology/Parse/Ranges.antt =====
-- `fileToList` reads back the kernel's format of a CPU list: ranges between commas, each a number or
-- two numbers with a dash, and a line feed at the end.
use mathlib.Core.List.{reverse, reverse-cons, reverse-append, reverse-reverse}
use cc_metric_collector.Prelude.{
  ℕ, zero, suc, Bool-cases, inl, inr, ◌+◌, ◌-◌, ◌<◌, ◌≡◌, refl, true, false, List, [], ◌∷◌, ◌++◌,
  ◌==◌, arith, All, All-append,
}
use cc_metric_collector.Prelude.Int.{ℤ, pos, pos_part, half64, ◌+ℤ◌, ◌-ℤ◌, leb_ℤ}
use cc_metric_collector.Prelude.Bytes.{is_space}
use cc_metric_collector.Topology.Parse.{
  trim_left, trim_space, split, is_digit, count_up, value_range,
}
use cc_metric_collector.Topology.Parse.Decimal.{decimal, IsDigit, decimal-digits}

pub data Range : Type 0 where
  single : ℕ → Range
  span : ℕ → ℕ → Range

unfoldable pub show_range : Range → List ℕ
show_range (single n) = decimal n
show_range (span a b) = decimal a ++ b'-' ∷ decimal b

-- the ranges between commas
unfoldable pub show_ranges : Range → List Range → List ℕ
show_ranges r [] = show_range r
show_ranges r (s ∷ rs) = show_range r ++ b',' ∷ show_ranges s rs

-- n numbers from a on
unfoldable pub numbers : ℕ → ℕ → List ℤ
numbers zero a = []
numbers (suc n) a = pos a ∷ numbers n (a + 1)

unfoldable pub members : Range → List ℤ
members (single n) = pos n ∷ []
members (span a b) = numbers (b + 1 - a) a

unfoldable pub all_members : List Range → List ℤ
all_members [] = []
all_members (r ∷ rs) = members r ++ all_members rs

-- The numbers of a range fit `int`.
abbrev pub Fits : Range → Type 0
Fits (single n) = n < half64
Fits (span a b) = (a < half64) × (b < half64)

abbrev pub IsNot : ℕ → ℕ → Type 0
IsNot sep c = (c == sep) ≡ false

pub split_plain : (sep : ℕ) (xs : List ℕ) → All (IsNot sep) xs → split sep xs ≡ xs ∷ []
unfolding split
split_plain sep [] h = refl
split_plain sep (x ∷ xs) h = rw (h.0, split_plain sep xs h.1)

pub split_at :
    (sep : ℕ) (xs ys : List ℕ) → All (IsNot sep) xs → split sep (xs ++ sep ∷ ys) ≡ xs ∷ split sep ys
unfolding split
split_at sep [] ys h = ground arith
split_at sep (x ∷ xs) ys h = rw (h.0, split_at sep xs ys h.1)

next_pos : (a : ℕ) → pos a +ℤ pos 1 ≡ pos (a + 1)
unfolding ◌+ℤ◌
next_pos a = ground arith

count_up-numbers : (n a : ℕ) → count_up n (pos a) ≡ numbers n a
unfolding count_up numbers
count_up-numbers zero a = refl
count_up-numbers (suc n) a = rw (next_pos a, count_up-numbers n (a + 1))

rounds : (a b : ℕ) → leb_ℤ (pos a) (pos b) ≡ true → pos_part (pos b -ℤ pos a) + 1 ≡ b + 1 - a
unfolding ◌-ℤ◌
rounds a b h = ground arith

pub value_range-numbers : (a b : ℕ) → value_range (pos a) (pos b) ≡ numbers (b + 1 - a) a
unfolding value_range
value_range-numbers a b = elim (Bool-cases (leb_ℤ (pos a) (pos b))) [
  | inl h ↦ rw (h, rounds a b h) (count_up-numbers (b + 1 - a) a)
  | inr h ↦
      let none_left : b + 1 - a ≡ 0 = ground arith in rw (h, none_left) (unfold numbers in refl)
]

pub All-IsNot : (sep : ℕ) (xs : List ℕ) → is_digit sep ≡ false → All IsDigit xs → All (IsNot sep) xs
All-IsNot sep [] h d = tt
All-IsNot sep (x ∷ xs) h d = (ground (arith, d.0), All-IsNot sep xs h d.1)

-- a byte of the format: a digit, a dash or a comma
abbrev pub IsPlain : ℕ → Type 0
IsPlain c = is_space c ≡ false

pub show_range-IsNot : (r : Range) → All (IsNot b',') (show_range r)
unfolding show_range
show_range-IsNot (single n) = All-IsNot b',' (decimal n) refl (decimal-digits n)
show_range-IsNot (span a b) =
    All-append (IsNot b',') (decimal a) (b'-' ∷ decimal b)
      (All-IsNot b',' (decimal a) refl (decimal-digits a))
      (refl, All-IsNot b',' (decimal b) refl (decimal-digits b))

pub All-IsPlain : (xs : List ℕ) → All IsDigit xs → All IsPlain xs
unfolding is_space
All-IsPlain [] d = tt
All-IsPlain (x ∷ xs) d = (ground (arith, d.0), All-IsPlain xs d.1)

show_range-IsPlain : (r : Range) → All IsPlain (show_range r)
unfolding show_range is_space
show_range-IsPlain (single n) = All-IsPlain (decimal n) (decimal-digits n)
show_range-IsPlain (span a b) =
    All-append IsPlain (decimal a) (b'-' ∷ decimal b) (All-IsPlain (decimal a) (decimal-digits a))
      (refl, All-IsPlain (decimal b) (decimal-digits b))

pub show_ranges-IsPlain : (r : Range) (rs : List Range) → All IsPlain (show_ranges r rs)
unfolding show_ranges is_space
show_ranges-IsPlain r [] = show_range-IsPlain r
show_ranges-IsPlain r (s ∷ rs) =
    All-append IsPlain (show_range r) (b',' ∷ show_ranges s rs) (show_range-IsPlain r)
      (refl, show_ranges-IsPlain s rs)

pub trim_left_plain : (xs : List ℕ) → All IsPlain xs → trim_left xs ≡ xs
unfolding trim_left
trim_left_plain [] h = refl
trim_left_plain (x ∷ xs) h = rw h.0

trim_left_first : (x : ℕ) (xs : List ℕ) → IsPlain x → trim_left (x ∷ xs) ≡ x ∷ xs
unfolding trim_left
trim_left_first x xs h = rw h

trim_left_feed : (xs : List ℕ) → trim_left (10 ∷ xs) ≡ trim_left xs
unfolding trim_left is_space
trim_left_feed xs = refl

pub All-reverse : (xs : List ℕ) → All IsPlain xs → All IsPlain (reverse xs)
All-reverse [] h = tt
All-reverse (x ∷ xs) h =
    rw reverse-cons (All-append IsPlain (reverse xs) (x ∷ []) (All-reverse xs h.1) (h.0, tt))

pub trim_space_line : (xs : List ℕ) → All IsPlain xs → trim_space (xs ++ 10 ∷ []) ≡ xs
unfolding trim_space
trim_space_line [] h = unfold trim_left is_space in refl
trim_space_line (x ∷ xs) h =
    rw (trim_left_first x (xs ++ 10 ∷ []) h.0, reverse-append (x ∷ xs) (10 ∷ []))
      (rw
        (
          trim_left_feed (reverse (x ∷ xs)),
          trim_left_plain (reverse (x ∷ xs)) (All-reverse (x ∷ xs) h),
        )
        (reverse-reverse (x ∷ xs)))
