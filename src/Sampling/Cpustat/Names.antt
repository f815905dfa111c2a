-- ===== src/Sampling/Cpustat/Names.antt =====
-- The names that are in the maps of collectors/cpustatMetric.go after `Init`.
use mathlib.Core.Option.{some-injective}
use cc_metric_collector.Prelude.{
  ℕ, ◌<◌, ◌≡◌, refl, sym, ◌∙◌, true, not, Bool-cases, inl, inr, some, List, [], ◌∷◌, length,
  get_elem?, All, Elem, arith, if_both,
}
use cc_metric_collector.Prelude.Int.{ℤ}
use cc_metric_collector.Prelude.Bytes.{
  Bytes, codes, equal, equal_iff, fields, has_prefix, member, Table, find, put, find-put,
}
use cc_metric_collector.Prelude.Run.{Partly, Partly-map, Partly-bind, Partly-any, at-value}
use cc_metric_collector.Values.{Result, ok, err}
use cc_metric_collector.Sampling.Cpustat.{
  Config, Maps, Collector, all_matches, kept_matches, first_values, init_line, init_lines, init,
}

-- A map has an entry.
abbrev pub Has : {V : Type 0} → Bytes → Table V → Type 0
Has {V} name table = (v : V) × (find name table ≡ some v)

pub Has-put :
    {V : Type 0} (key name : Bytes) (value : V) (table : Table V)
    → Has name table
    → Has name (put key value table)
Has-put key name value table (v, h) = elim (Bool-cases (equal key name)) [
  | inl e ↦ (value, find-put key name value table ∙ rw e refl)
  | inr e ↦ (v, find-put key name value table ∙ rw e h)
]

Has-put_self :
    {V : Type 0} (key : Bytes) (value : V) (table : Table V) → Has key (put key value table)
Has-put_self key value table =
    (value, find-put key key value table ∙ rw ((equal_iff key key).1 refl) refl)

-- The first field of a line, and that it begins with "cpu".
abbrev pub IsCpu : Bytes → Bytes → Type 0
IsCpu name line = (get_elem? (fields line) 0 ≡ some name) × (has_prefix (codes "cpu") name ≡ true)

-- A name is that of a line of the file at `Init`.
abbrev pub Seen : List Bytes → Bytes → Type 0
Seen first name = (line : Bytes) × Elem line first × IsCpu name line

-- A line has a field, and if it is one of the node or of a hardware thread, it has the fields up to
-- the last of the metrics and its name was there at `Init`.
abbrev pub IsKnown : List Bytes → Bytes → Type 0
IsKnown first line =
    (0 < length (fields line))
    × ((name : Bytes) → IsCpu name line → (10 < length (fields line)) × Seen first name)

abbrev pub IsBelow : Bytes × ℕ → Type 0
IsBelow entry = entry.1 < 11

kept_matches-IsBelow :
    (excluded : List Bytes) (matches : List (Bytes × ℕ))
    → All IsBelow matches
    → All IsBelow (kept_matches excluded matches)
unfolding kept_matches
kept_matches-IsBelow excluded [] h = tt
kept_matches-IsBelow excluded ((name, index) ∷ rest) (h, hs) =
    let ih = kept_matches-IsBelow excluded rest hs in
    if_both (All IsBelow) (not (member name excluded)) _ _ (h, ih) ih

pub cpu-has_prefix :
    (name : Bytes) → equal name (codes "cpu") ≡ true → has_prefix (codes "cpu") name ≡ true
unfolding has_prefix
cpu-has_prefix name e =
    let same : name ≡ codes "cpu" = (equal_iff name (codes "cpu")).0 e in rw same refl

-- After a line, its name is in the map if it begins with "cpu", and so is what was there.
abbrev Adds : Table (Table ℤ) → Bytes → Table (Table ℤ) → Type 0
Adds before line after =
    ((name : Bytes) → IsCpu name line → Has name after)
    × ((name : Bytes) → Has name before → Has name after)

first_same :
    (xs : List Bytes) {a b : Bytes} → get_elem? xs 0 ≡ some a → get_elem? xs 0 ≡ some b → a ≡ b
first_same xs h k = some-injective _ _ (sym h ∙ k)

put-Adds :
    (line name : Bytes) (values : Table ℤ) (olddata : Table (Table ℤ))
    → get_elem? (fields line) 0 ≡ some name
    → Adds olddata line (put name values olddata)
put-Adds line name values olddata n = (
  λ other c.
      let same : name ≡ other = first_same (fields line) n c.0 in
      rw (← same) (Has-put_self name values olddata),
  λ other h. Has-put name other values olddata h,
)

init_line-Adds :
    (matches : List (Bytes × ℕ)) (line : Bytes) (maps : Maps)
    → Partly (λ after. Adds maps.olddata line after.olddata) (init_line matches line maps)
unfolding init_line
init_line-Adds matches line maps =
    let P : Maps → Type 0 = λ after. Adds maps.olddata line after.olddata in
    Partly-bind (λ name. get_elem? (fields line) 0 ≡ some name) P _ _ (at-value (fields line) 0)
      (λ name n.
        if_both (Partly P) (equal name (codes "cpu")) _ _
          (Partly-bind (λ v. Unit {0}) P _ _ (Partly-any (first_values matches (fields line)))
            (λ values _. put-Adds line name values maps.olddata n))
          (elim (Bool-cases (has_prefix (codes "cpu") name)) [
            | inl p ↦ rw p (
                Partly-bind (λ v. Unit {0}) P _ _ (Partly-any (first_values matches (fields line)))
                  (λ values _. put-Adds line name values maps.olddata n))
            | inr p ↦ rw p (
              λ other c.
                  let same : name ≡ other = first_same (fields line) n c.0 in
                  let starts : has_prefix (codes "cpu") name ≡ true = rw same c.1 in cc,
              λ other h. h,
            )
          ]))

-- The names of the lines, and those there before, are in the map.
abbrev Covers : Table (Table ℤ) → List Bytes → Table (Table ℤ) → Type 0
Covers before lines after =
    ((name : Bytes) → Seen lines name → Has name after)
    × ((name : Bytes) → Has name before → Has name after)

init_lines-Covers :
    (matches : List (Bytes × ℕ)) (lines : List Bytes) (maps : Maps)
    → Partly (λ after. Covers maps.olddata lines after.olddata) (init_lines matches lines maps)
unfolding init_lines
init_lines-Covers matches [] maps = (λ name s. elim s.1 [ ], λ name h. h)
init_lines-Covers matches (line ∷ lines) maps =
    Partly-bind (λ after. Adds maps.olddata line after.olddata)
      (λ after. Covers maps.olddata (line ∷ lines) after.olddata) _ _
      (init_line-Adds matches line maps)
      (λ maps' adds.
        Partly-map (λ after. Covers maps'.olddata lines after.olddata)
          (λ after. Covers maps.olddata (line ∷ lines) after.olddata)
          (init_lines matches lines maps')
          (λ after covers. (
            λ name seen. elim seen.1 [
              | inl e ↦ covers.1 name (adds.0 name (rw (← e) seen.2))
              | inr s ↦ covers.0 name (seen.0, s, seen.2)
            ],
            λ name h. covers.1 name (adds.1 name h),
          ))
          (init_lines-Covers matches lines maps'))

-- A collector is ready: it reads the fields below 11, and its map has the names.
abbrev pub IsReady : {Time : Type 0} → List Bytes → Result (Collector Time) → Type 0
IsReady first (err e) = Unit {0}
IsReady first (ok m) =
    (m.init ≡ true)
    × All IsBelow m.matches
    × ((name : Bytes) → Seen first name → Has name m.maps.olddata)

pub init-IsReady :
    {Time : Type 0} (config : Config) (start : Time) (first : List Bytes)
    → Partly (IsReady first) (init config start (some first))
unfolding init
init-IsReady config start first =
    let matches = kept_matches config.exclude_metrics all_matches in
    Partly-bind (λ after. Covers [] first after.olddata) (IsReady first) _ _
      (init_lines-Covers matches first (record { cputags = []; olddata = [] }))
      (λ maps covers.
        (refl, kept_matches-IsBelow config.exclude_metrics all_matches (omega arith), covers.0))
