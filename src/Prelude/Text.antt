-- ===== src/Prelude/Text.antt =====
-- The parts of Go's `strings` that the program uses, by recursion over the characters of a text.
use cc_metric_collector.Prelude.Tests.{if◌then◌else◌, ◌==◌}
use Prim.Native.Char.{Char, code}
use Prim.Native.String.{String}
use mathlib.Core.Path.{◌≡◌, refl}
use mathlib.Core.Bool.{Bool, true, false, ◌||◌}
use text.Mathlib.Text.{starts_with}

-- strings.ReplaceAll(s, old, new) for an `old` of one character
unfoldable pub replace_char : Char → Char → String → String
replace_char old new String.[] = String.[]
replace_char old new (String.◌∷◌ c s) =
    String.◌∷◌ (if code c == code old then new else c) (replace_char old new s)

-- strings.Contains(s, sub)
unfoldable pub contains : String → String → Bool
contains String.[] sub = starts_with String.[] sub
contains (String.◌∷◌ c s) sub = starts_with (String.◌∷◌ c s) sub || contains s sub

-- strings.SplitN(s, `.`, 2)[0]
unfoldable pub before_dot : String → String
before_dot String.[] = String.[]
before_dot (String.◌∷◌ c s) =
    let rest = before_dot s in if code c == b'.' then String.[] else String.◌∷◌ c rest

contains_inner : contains "abcdef" "cd" ≡ true
unfolding contains
contains_inner = refl

contains_not : contains "abcdef" "ce" ≡ false
unfolding contains
contains_not = refl

before_dot_fqdn : before_dot "node1.example.org" ≡ "node1"
unfolding before_dot
before_dot_fqdn = refl
