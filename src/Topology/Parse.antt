-- ===== src/Topology/Parse.antt =====
-- pkg/ccTopology/ccTopology.go, `fileToInt` and `fileToList`, on the bytes of a file that was read:
-- `none` stands for a file that could not be read, and for the nil of `fileToList`. Of Go's library,
-- `strings.TrimSpace` (over ASCII white space), `strings.Split` at one byte and `strconv.Atoi` are
-- modelled with them.
pub mod Decimal
pub mod Ranges
use cc_metric_collector.Prelude.{
  ℕ, zero, suc, ◌+◌, ◌-◌, ◌*◌, ◌≤◌, ◌<◌, Bool, true, false, ◌&&◌, ◌||◌, Option, none, some, List,
  [], ◌∷◌, ◌++◌, leb, ltb, ◌==◌, if◌then◌else◌,
}
use mathlib.Core.List.{reverse}
use cc_metric_collector.Prelude.Bytes.{is_space}
use cc_metric_collector.Prelude.Int.{ℤ, pos, negsuc, pos_part, ◌+ℤ◌, ◌-ℤ◌, leb_ℤ, sub_ℕ, half64}

infixl 5 ◌>>=◌
abbrev pub ◌>>=◌ {ℓ κ} : {A : Type ℓ} {B : Type κ} → Option A → (A → Option B) → Option B
none >>= f = none
some a >>= f = f a

unfoldable pub trim_left : List ℕ → List ℕ
trim_left [] = []
trim_left (c ∷ cs) = let rest = trim_left cs in if is_space c then rest else c ∷ cs

-- strings.TrimSpace
unfoldable pub trim_space : List ℕ → List ℕ
trim_space s = reverse (trim_left (reverse (trim_left s)))

abbrev pub to_first : ℕ → List (List ℕ) → List (List ℕ)
to_first c [] = (c ∷ []) ∷ []
to_first c (w ∷ ws) = (c ∷ w) ∷ ws

-- strings.Split for a separator of one byte
unfoldable pub split : ℕ → List ℕ → List (List ℕ)
split sep [] = [] ∷ []
split sep (c ∷ cs) = let rest = split sep cs in if c == sep then [] ∷ rest else to_first c rest

abbrev pub is_digit : ℕ → Bool
is_digit c = leb b'0' c && leb c b'9'

-- the digits of `strconv.Atoi`, from the left
unfoldable pub digits_value : ℕ → List ℕ → Option ℕ
digits_value n [] = some n
digits_value n (c ∷ cs) =
    let rest = digits_value (n * 10 + (c - b'0')) cs in if is_digit c then rest else none

unfoldable pub natural : List ℕ → Option ℕ
natural [] = none
natural (c ∷ cs) = digits_value 0 (c ∷ cs)

-- the range of `int`
abbrev pub checked_pos : ℕ → Option ℤ
checked_pos n = if ltb n half64 then some (pos n) else none

abbrev pub checked_neg : ℕ → Option ℤ
checked_neg n = if leb n half64 then some (sub_ℕ 0 n) else none

-- strconv.Atoi
unfoldable pub atoi : List ℕ → Option ℤ
atoi [] = none
atoi (c ∷ cs) =
    if c == b'-'
    then (do n ← natural cs; checked_neg n)
    else if c == b'+'
    then (do n ← natural cs; checked_pos n)
    else do n ← natural (c ∷ cs); checked_pos n

-- `fileToInt`: -1 for a file that is not read or not an integer
unfoldable pub file_to_int : Option (List ℕ) → ℤ
file_to_int none = negsuc 0
file_to_int (some buffer) = elim (atoi (trim_space buffer)) [ none ↦ negsuc 0 | some id ↦ id ]

-- `for value := start; value <= end; value++`, in the number of its rounds
unfoldable pub count_up : ℕ → ℤ → List ℤ
count_up zero value = []
count_up (suc rounds) value = value ∷ count_up rounds (value +ℤ pos 1)

unfoldable pub value_range : ℤ → ℤ → List ℤ
value_range start end = if leb_ℤ start end then count_up (pos_part (end -ℤ start) + 1) start else []

-- the `switch` on the number of parts of a range: with three or more nothing is added
unfoldable pub range_values : List (List ℕ) → Option (List ℤ)
range_values (value ∷ []) = do v ← atoi value; some (v ∷ [])
range_values (start ∷ end ∷ []) = do s ← atoi start; e ← atoi end; some (value_range s e)
range_values _ = some []

-- the loop over the parts between commas
unfoldable pub ranges_values : List (List ℕ) → Option (List ℤ)
ranges_values [] = some []
ranges_values (r ∷ rs) = do
  values ← range_values (split b'-' r)
  rest ← ranges_values rs
  some (values ++ rest)

-- `fileToList`
unfoldable pub file_to_list : Option (List ℕ) → Option (List ℤ)
file_to_list none = none
file_to_list (some buffer) = ranges_values (split b',' (trim_space buffer))
