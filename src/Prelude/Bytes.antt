-- ===== src/Prelude/Bytes.antt =====
-- Go texts as bytes, with the parts of `strings` that the collectors use on lines of files, over
-- ASCII white space, and Go maps whose keys are such texts.
use cc_metric_collector.Prelude.Lists.{All}
use cc_metric_collector.Prelude.Tests.{if◌then◌else◌, leb, ◌==◌, Bool-cases}
use Prim.Native.Nat.{ℕ}
use Prim.Native.Char.{code}
use Prim.Native.String.{String}
use mathlib.Core.Path.{◌≡◌, refl}
use mathlib.Core.Logic.{◌↔◌, inl, inr}
use mathlib.Core.Bool.{Bool, true, false, ◌&&◌, ◌||◌}
use mathlib.Core.Option.{Option, none, some}
use mathlib.Core.List.{List, [], ◌∷◌, reverse}
use native.Mathlib.Omega.{arith}

abbrev pub Bytes : Type 0
Bytes = List ℕ

-- the bytes of a literal in ASCII
abbrev pub codes : String → Bytes
codes String.[] = []
codes (String.◌∷◌ c s) = code c ∷ codes s

abbrev pub equal : Bytes → Bytes → Bool
equal [] [] = true
equal (a ∷ as_) (b ∷ bs) = (a == b) && equal as_ bs
equal _ _ = false

pub equal_iff : (a b : Bytes) → (equal a b ≡ true) ↔ (a ≡ b)
equal_iff [] [] = (λ _. refl, λ _. refl)
equal_iff [] (b ∷ bs) = ground arith
equal_iff (a ∷ as_) [] = ground arith
equal_iff (a ∷ as_) (b ∷ bs) = let ih = equal_iff as_ bs in ground (arith, ih)

pub equal_self : (a : Bytes) → equal a a ≡ true
equal_self a = (equal_iff a a).1 refl

-- one byte is white space in ASCII
unfoldable pub is_space : ℕ → Bool
is_space c = (leb 9 c && leb c 13) || c == 32

-- a word in front of the fields, if it is one
abbrev pub add_word : Bytes → List Bytes → List Bytes
add_word [] ws = ws
add_word (c ∷ w) ws = (c ∷ w) ∷ ws

-- the text up to the first white space, and the fields behind it
unfoldable pub cut_fields : Bytes → Bytes × List Bytes
cut_fields [] = ([], [])
cut_fields (c ∷ s) =
    let (w, ws) = cut_fields s in if is_space c then ([], add_word w ws) else (c ∷ w, ws)

-- strings.Fields
unfoldable pub fields : Bytes → List Bytes
fields s = let (w, ws) = cut_fields s in add_word w ws

-- strings.Contains for a sub text of one byte
unfoldable pub contains_byte : ℕ → Bytes → Bool
contains_byte b [] = false
contains_byte b (c ∷ s) = (c == b) || contains_byte b s

-- slices.Contains
unfoldable pub member : Bytes → List Bytes → Bool
member b [] = false
member b (x ∷ xs) = equal x b || member b xs

-- strings.HasPrefix, and strings.TrimPrefix with it
abbrev pub without_prefix : Bytes → Bytes → Option Bytes
without_prefix [] s = some s
without_prefix (p ∷ ps) [] = none
without_prefix (p ∷ ps) (c ∷ s) = if p == c then without_prefix ps s else none

unfoldable pub has_prefix : Bytes → Bytes → Bool
has_prefix p s = elim (without_prefix p s) [ none ↦ false | some _ ↦ true ]

unfoldable pub trim_prefix : Bytes → Bytes → Bytes
trim_prefix s p = elim (without_prefix p s) [ none ↦ s | some rest ↦ rest ]

-- strings.Contains
unfoldable pub contains : Bytes → Bytes → Bool
contains sub [] = has_prefix sub []
contains sub (c ∷ s) = has_prefix sub (c ∷ s) || contains sub s

-- strings.TrimLeft and strings.Trim for a set of bytes
unfoldable pub trim_left_of : Bytes → Bytes → Bytes
trim_left_of set [] = []
trim_left_of set (c ∷ s) =
    let rest = trim_left_of set s in if contains_byte c set then rest else c ∷ s

unfoldable pub trim_of : Bytes → Bytes → Bytes
trim_of set s = reverse (trim_left_of set (reverse (trim_left_of set s)))

-- a map with texts as keys, as an association list without order
abbrev pub Table {ℓ} : Type ℓ → Type ℓ
Table V = List (Bytes × V)

module _ {ℓ} {V : Type ℓ} where
  -- value, ok := table[key]
  unfoldable pub find : Bytes → Table V → Option V
  find key [] = none
  find key ((name, value) ∷ rest) =
      let later = find key rest in if equal name key then some value else later

  -- table[key] = value
  unfoldable pub put : Bytes → V → Table V → Table V
  put key value [] = (key, value) ∷ []
  put key value ((name, old) ∷ rest) =
      let kept = (name, old) ∷ put key value rest in
      if equal name key then (key, value) ∷ rest else kept

  pub find-put :
      (key other : Bytes) (value : V) (table : Table V)
      → find other (put key value table)
        ≡ (if equal key other then some value else find other table)
  unfolding find put
  find-put key other value [] = refl
  find-put key other value ((name, old) ∷ rest) =
      let ih = find-put key other value rest in
      ground (equal_iff name other, equal_iff name key, equal_iff key other, ih, arith)

  pub find-put_self :
      (key : Bytes) (value : V) (table : Table V) → find key (put key value table) ≡ some value
  find-put_self key value table = rw (find-put key key value table, equal_self key) refl

-- A property of all values of a map, under a write and for a value that is found.
module _ {ℓ κ} {V : Type ℓ} (P : V → Type κ) where
  abbrev pub AllValues : Table V → Type κ
  AllValues = All (λ (entry : Bytes × V). P entry.1)

  pub AllValues-put :
      (key : Bytes) (value : V) (table : Table V)
      → P value
      → AllValues table
      → AllValues (put key value table)
  unfolding put
  AllValues-put key value [] p h = (p, tt)
  AllValues-put key value ((name, old) ∷ rest) p (h0, hs) = elim (Bool-cases (equal name key)) [
    | inl e ↦ rw e (p, hs)
    | inr e ↦ rw e (h0, AllValues-put key value rest p hs)
  ]

  pub AllValues-find :
      (key : Bytes) (value : V) (table : Table V)
      → AllValues table
      → find key table ≡ some value
      → P value
  unfolding find
  AllValues-find key value [] h e = cc
  AllValues-find key value ((name, old) ∷ rest) h e =
      let ih = AllValues-find key value rest h.1 in ground (arith, h.0, ih, e)

fields_of_line : fields (codes " lo:  17 4") ≡ codes "lo:" ∷ codes "17" ∷ codes "4" ∷ []
unfolding fields cut_fields is_space
fields_of_line = refl

trim_of_name : trim_of (codes ": ") (codes "eth0: ") ≡ codes "eth0"
unfolding trim_of trim_left_of contains_byte
trim_of_name = refl
