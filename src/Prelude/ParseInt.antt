-- ===== src/Prelude/ParseInt.antt =====
-- Go's strconv.ParseInt for int64 on bytes, in base 10 and in base 0, where a prefix says the base and
-- underscores may separate digits: the number, or one of the two errors with the value beside it.
use cc_metric_collector.Prelude.Tests.{if◌then◌else◌, ltb, leb, ◌==◌}
use cc_metric_collector.Prelude.Int.{ℤ, pos, negsuc, sub_ℕ, half64}
use cc_metric_collector.Prelude.Bytes.{Bytes, codes}
use Prim.Native.Nat.{ℕ, ◌+◌, ◌-◌, ◌*◌, ◌^◌}
use mathlib.Core.Path.{◌≡◌, refl}
use mathlib.Core.Bool.{Bool, true, false, not, ◌&&◌, ◌||◌}
use mathlib.Core.Option.{Option, none, some}
use mathlib.Core.List.{[], ◌∷◌}

-- ErrSyntax comes with the value 0, ErrRange with the nearest value.
pub data Parsed (A : Type 0) : Type 0 where
  number : A → Parsed A
  syntax_error : Parsed A
  range_error : A → Parsed A

-- lower(c) = c | 32, for a letter
abbrev lower : ℕ → ℕ
lower c = if leb b'A' c && leb c b'Z' then c + 32 else c

-- the value of a digit or a letter
unfoldable pub digit_of : ℕ → Option ℕ
digit_of c =
    if leb b'0' c && leb c b'9'
    then some (c - b'0')
    else if leb b'a' (lower c) && leb (lower c) b'z'
    then some (lower c - b'a' + 10)
    else none

abbrev pub max_uint64 : ℕ
max_uint64 = 2 ^ 64 - 1

abbrev step : ℕ → ℕ → Option ℕ → Parsed ℕ
step base n none = syntax_error
step base n (some d) =
    if leb base d
    then syntax_error
    else if ltb max_uint64 (n * base + d)
    then range_error max_uint64
    else number (n * base + d)

-- the loop of ParseUint; an underscore is passed over in base 0
unfoldable pub digits_from : Bool → ℕ → ℕ → Bytes → Parsed ℕ
digits_from base0 base n [] = number n
digits_from base0 base n (c ∷ cs) =
    if (c == b'_') && base0 then digits_from base0 base n cs else elim (step base n (digit_of c)) [
      | number m ↦ digits_from base0 base m cs
      | syntax_error ↦ syntax_error
      | range_error m ↦ range_error m
    ]

-- what the last byte was: nothing yet, a digit or a base prefix, an underscore, another byte
pub data Saw : Type 0 where
  start digit underscore another : Saw

abbrev is_hex_digit : Bool → ℕ → Bool
is_hex_digit hex c = (leb b'0' c && leb c b'9') || (hex && leb b'a' (lower c) && leb (lower c) b'f')

abbrev is_digit : Saw → Bool
is_digit digit = true
is_digit _ = false

abbrev is_underscore : Saw → Bool
is_underscore underscore = true
is_underscore _ = false

-- the loop of underscoreOK: an underscore stands between digits
unfoldable pub underscores_from : Bool → Saw → Bytes → Bool
underscores_from hex saw [] = not (is_underscore saw)
underscores_from hex saw (c ∷ cs) =
    if is_hex_digit hex c
    then underscores_from hex digit cs
    else if c == b'_'
    then is_digit saw && underscores_from hex underscore cs
    else not (is_underscore saw) && underscores_from hex another cs

-- underscoreOK on a text without a sign
unfoldable pub underscore_ok : Bytes → Bool
underscore_ok (z ∷ p ∷ cs) =
    if (z == b'0') && (lower p == b'b' || lower p == b'o' || lower p == b'x')
    then underscores_from (lower p == b'x') digit cs
    else underscores_from false start (z ∷ p ∷ cs)
underscore_ok cs = underscores_from false start cs

abbrev has_underscore : Bytes → Bool
has_underscore [] = false
has_underscore (c ∷ cs) = (c == b'_') || has_underscore cs

-- the syntax error of misplaced underscores
abbrev checked : Bytes → Parsed ℕ → Parsed ℕ
checked s (number n) = if has_underscore s && not (underscore_ok s) then syntax_error else number n
checked s syntax_error = syntax_error
checked s (range_error n) = range_error n

-- ParseUint in base 0, of a text behind its first 0
abbrev after_zero : Bytes → Parsed ℕ
after_zero (p ∷ c ∷ cs) =
    if lower p == b'b'
    then digits_from true 2 0 (c ∷ cs)
    else if lower p == b'o'
    then digits_from true 8 0 (c ∷ cs)
    else if lower p == b'x'
    then digits_from true 16 0 (c ∷ cs)
    else digits_from true 8 0 (p ∷ c ∷ cs)
after_zero cs = digits_from true 8 0 cs

-- ParseUint, in base 0 or 10
unfoldable pub parse_uint : Bool → Bytes → Parsed ℕ
parse_uint base0 [] = syntax_error
parse_uint true (c ∷ cs) =
    checked (c ∷ cs) (if c == b'0' then after_zero cs else digits_from true 10 0 (c ∷ cs))
parse_uint false (c ∷ cs) = digits_from false 10 0 (c ∷ cs)

-- the range of int64
abbrev signed_pos : Parsed ℕ → Parsed ℤ
signed_pos (number n) = if ltb n half64 then number (pos n) else range_error (pos (half64 - 1))
signed_pos syntax_error = syntax_error
signed_pos (range_error n) = range_error (pos (half64 - 1))

abbrev signed_neg : Parsed ℕ → Parsed ℤ
signed_neg (number n) =
    if leb n half64 then number (sub_ℕ 0 n) else range_error (negsuc (half64 - 1))
signed_neg syntax_error = syntax_error
signed_neg (range_error n) = range_error (negsuc (half64 - 1))

-- ParseInt(s, 0, 64) and ParseInt(s, 10, 64)
unfoldable pub parse_int : Bool → Bytes → Parsed ℤ
parse_int base0 [] = syntax_error
parse_int base0 (c ∷ cs) =
    if c == b'-'
    then signed_neg (parse_uint base0 cs)
    else if c == b'+'
    then signed_pos (parse_uint base0 cs)
    else signed_pos (parse_uint base0 (c ∷ cs))

-- the value with `err == nil`
abbrev pub value_of : Parsed ℤ → Option ℤ
value_of (number n) = some n
value_of syntax_error = none
value_of (range_error n) = none

-- the value where the error is not looked at
abbrev pub value_anyway : Parsed ℤ → ℤ
value_anyway (number n) = n
value_anyway syntax_error = pos 0
value_anyway (range_error n) = n

hexadecimal : parse_int true (codes "-0x1_F") ≡ number (negsuc 30)
unfolding parse_int parse_uint digits_from digit_of underscore_ok underscores_from
hexadecimal = refl

octal : parse_int true (codes "017") ≡ number (pos 15)
unfolding parse_int parse_uint digits_from digit_of underscore_ok underscores_from
octal = refl

zero_alone : parse_int true (codes "0") ≡ number (pos 0)
unfolding parse_int parse_uint digits_from digit_of underscore_ok underscores_from
zero_alone = refl

misplaced : parse_int true (codes "1__0") ≡ syntax_error
unfolding parse_int parse_uint digits_from digit_of underscore_ok underscores_from
misplaced = refl

too_large : parse_int false (codes "9223372036854775808") ≡ range_error (pos (2 ^ 63 - 1))
unfolding parse_int parse_uint digits_from digit_of
too_large = refl
