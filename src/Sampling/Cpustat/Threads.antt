-- ===== src/Sampling/Cpustat/Threads.antt =====
-- A `Read` of collectors/cpustatMetric.go finishes on the hardware threads that `Init` saw, and counts
-- them.
use cc_metric_collector.Prelude.{
  ℕ, ◌+◌, ◌<◌, ◌≡◌, refl, ap, ◌∙◌, Bool, true, false, Bool-cases, Option-cases, inl, inr, Option,
  none, some, List, [], ◌∷◌, ◌++◌, length, get_elem?, All, arith, if◌then◌else◌,
}
use cc_metric_collector.Prelude.Int.{ℤ}
use cc_metric_collector.Prelude.Bytes.{Bytes, codes, equal, fields, has_prefix, Table, put}
use cc_metric_collector.Prelude.ParseInt.{parse_int, value_of}
use cc_metric_collector.Prelude.Run.{
  done, Finishes, Finishes-bind, at-Finishes, at-Finishes_value, Partly-value,
}
use cc_metric_collector.Values.{ok}
use cc_metric_collector.Sampling.{Calls}
use cc_metric_collector.Sampling.Cpustat.{
  Config, Maps, Collector, init, inner, nodetags, store_value, shares, parse_stat_line, read_line,
  read_lines, number_message, lines_of, read,
}
use cc_metric_collector.Sampling.Cpustat.Names.{
  Has, Has-put, IsCpu, Seen, IsKnown, IsBelow, IsReady, cpu-has_prefix, init-IsReady,
}

-- The names that were in a map stay there.
abbrev Keeps : Table (Table ℤ) → Table (Table ℤ) → Type 0
Keeps before after = (name : Bytes) → Has name before → Has name after

store_value-Keeps :
    (name match : Bytes) (x : ℤ) (olddata : Table (Table ℤ))
    → Has name olddata
    → Finishes (Keeps olddata) (store_value name match x olddata)
unfolding store_value
store_value-Keeps name match x olddata (values, h) =
    rw (h, store_value) (λ other k. Has-put name other (put match x values) olddata k)

abbrev is_thread : Bytes → Bool
is_thread name = if equal name (codes "cpu") then false else has_prefix (codes "cpu") name

-- 1 for the line of a hardware thread
unfoldable pub threads_in : Bytes → ℕ
threads_in line = elim (get_elem? (fields line) 0) [
  | none ↦ 0
  | some name ↦ if is_thread name then 1 else 0
]

-- the number of the lines of hardware threads
unfoldable pub count_threads : List Bytes → ℕ
count_threads [] = 0
count_threads (line ∷ lines) = threads_in line + count_threads lines

threads_in-cpu :
    (line name : Bytes) (n : ℕ)
    → get_elem? (fields line) 0 ≡ some name
    → equal name (codes "cpu") ≡ true
    → n ≡ n + threads_in line
unfolding threads_in
threads_in-cpu line name n h e = rw (h, threads_in) (rw e (omega arith))

threads_in-thread :
    (line name : Bytes) (n : ℕ) (b : Bool)
    → get_elem? (fields line) 0 ≡ some name
    → equal name (codes "cpu") ≡ false
    → has_prefix (codes "cpu") name ≡ b
    → (if b then n + 1 else n) ≡ n + threads_in line
unfolding threads_in
threads_in-thread line name n true h e p = rw (h, threads_in) (rw (e, p) refl)
threads_in-thread line name n false h e p = rw (h, threads_in) (rw (e, p) (omega arith))

-- A line has a field, and the fields and the name that are asked for.
abbrev IsServed : Table (Table ℤ) → Bytes → Type 0
IsServed olddata line =
    (0 < length (fields line))
    × ((name : Bytes) → IsCpu name line → (10 < length (fields line)) × Has name olddata)

All-IsKnown :
    (first : List Bytes) (olddata : Table (Table ℤ)) (lines : List Bytes)
    → ((name : Bytes) → Seen first name → Has name olddata)
    → All (IsKnown first) lines
    → All (IsServed olddata) lines
All-IsKnown first olddata [] names h = tt
All-IsKnown first olddata (line ∷ lines) names ((f, known), hs) = (
  (f, λ name c. let (w, seen) = known name c in (w, names name seen)),
  All-IsKnown first olddata lines names hs,
)

All-IsServed :
    (before after : Table (Table ℤ)) (lines : List Bytes)
    → Keeps before after
    → All (IsServed before) lines
    → All (IsServed after) lines
All-IsServed before after [] k h = tt
All-IsServed before after (line ∷ lines) k ((f, served), hs) = (
  (f, λ name c. let (w, there) = served name c in (w, k name there)),
  All-IsServed before after lines k hs,
)

module _ {F Time Msg : Type 0} (calls : Calls F Time Msg) (clktck : ℤ) (now : Time)
    (seconds : F) where
  shares-Keeps :
      (name : Bytes) (matches : List (Bytes × ℕ)) (linefields : List Bytes)
      (olddata : Table (Table ℤ))
      → All IsBelow matches
      → 10 < length linefields
      → Has name olddata
      → Finishes
          (λ r. Keeps olddata r.1)
          (shares calls clktck now seconds name matches linefields olddata)
  unfolding shares
  shares-Keeps name [] linefields olddata b w h = λ other k. k
  shares-Keeps name ((match, index) ∷ rest) linefields olddata (b, bs) w h =
      let P : List (Bytes × F) × Table (Table ℤ) → Type 0 = λ r. Keeps olddata r.1 in
      let there : index < length linefields = omega (arith, b, w) in
      Finishes-bind (λ f. Unit {0}) P _ _ (at-Finishes linefields index there)
        (λ field _. elim (Option-cases (value_of (parse_int true field))) [
          | inl e ↦ rw e (shares-Keeps name rest linefields olddata bs w h)
          | inr (x, e) ↦ rw e (
              Finishes-bind (Keeps olddata) P _ _ (store_value-Keeps name match x olddata h)
                (λ olddata' keeps.
                  Finishes-bind (λ r. Keeps olddata' r.1) P _ _
                    (shares-Keeps name rest linefields olddata' bs w (keeps name h))
                    (λ r kept. λ other k. kept other (keeps other k))))
        ])

  parse_stat_line-Keeps :
      (name : Bytes) (matches : List (Bytes × ℕ)) (linefields : List Bytes) (tags : Table Bytes)
      (maps : Maps)
      → get_elem? linefields 0 ≡ some name
      → All IsBelow matches
      → 10 < length linefields
      → Has name maps.olddata
      → Finishes
          (λ r. Keeps maps.olddata r.1.olddata)
          (parse_stat_line calls clktck now seconds matches linefields tags maps)
  unfolding parse_stat_line
  parse_stat_line-Keeps name matches linefields tags maps n b w h =
      let P : List Msg × Maps → Type 0 = λ r. Keeps maps.olddata r.1.olddata in
      rw n (
        Finishes-bind (λ r. Keeps maps.olddata r.1) P _ _
          (shares-Keeps name matches linefields maps.olddata b w h) (λ r k. k))

  -- The number after a line, and the names that stay.
  abbrev Counts : Maps → ℕ → Bytes → List Msg × ℕ × Maps → Type 0
  Counts maps n line r = (r.1 ≡ n + threads_in line) × Keeps maps.olddata r.2.olddata

  read_line-Counts :
      (matches : List (Bytes × ℕ)) (line : Bytes) (n : ℕ) (maps : Maps)
      → All IsBelow matches
      → IsServed maps.olddata line
      → Finishes (Counts maps n line) (read_line calls clktck now seconds matches line n maps)
  unfolding read_line
  read_line-Counts matches line n maps b (some_field, served) =
      let P = Counts maps n line in
      Finishes-bind (λ name. get_elem? (fields line) 0 ≡ some name) P _ _
        (at-Finishes_value (fields line) 0 some_field)
        (λ name f. elim (Bool-cases (equal name (codes "cpu"))) [
          | inl e ↦
              let (w, h) = served name (f, cpu-has_prefix name e) in
              rw e (
                Finishes-bind (λ r. Keeps maps.olddata r.1.olddata) P _ _
                  (parse_stat_line-Keeps name matches (fields line) nodetags maps f b w h)
                  (λ r k. (threads_in-cpu line name n f e, k)))
          | inr e ↦ elim (Bool-cases (has_prefix (codes "cpu") name)) [
            | inl p ↦
                let (w, h) = served name (f, p) in
                rw (e, p)
                  (Finishes-bind (λ r. Keeps maps.olddata r.1.olddata) P _ _
                    (parse_stat_line-Keeps name matches (fields line) (inner name maps.cputags) maps
                      f b w h)
                    (λ r k. (threads_in-thread line name n true f e p, k)))
            | inr p ↦ rw (e, p) (threads_in-thread line name n false f e p, λ other k. k)
          ]
        ])

  read_lines-Counts :
      (matches : List (Bytes × ℕ)) (lines : List Bytes) (n : ℕ) (maps : Maps)
      → All IsBelow matches
      → All (IsServed maps.olddata) lines
      → Finishes
          (λ r. r.1 ≡ n + count_threads lines)
          (read_lines calls clktck now seconds matches lines n maps)
  unfolding read_lines count_threads
  read_lines-Counts matches [] n maps b h = omega arith
  read_lines-Counts matches (line ∷ lines) n maps b (h, hs) =
      let P : List Msg × ℕ × Maps → Type 0 =
        λ r. r.1 ≡ n + (threads_in line + count_threads lines) in
      Finishes-bind (Counts maps n line) P _ _ (read_line-Counts matches line n maps b h)
        (λ r (count, keeps).
          Finishes-bind (λ r'. r'.1 ≡ r.1 + count_threads lines) P _ _
            (read_lines-Counts matches lines r.1 r.2 b
              (All-IsServed maps.olddata r.2.olddata lines keeps hs))
            (λ r' total. omega (arith, total, count)))

-- If the fields of every line go up to those of the metrics and its hardware thread was there at
-- `Init`, a `Read` of a collector that `Init` made does not panic. What it sends ends with the number of
-- the lines of hardware threads, unless that is excluded; for a file that cannot be opened, it is 0.
pub read-count_threads :
    {F Time Msg : Type 0} (calls : Calls F Time Msg) (clktck : ℤ) (config : Config)
    (start now : Time) (first : List Bytes) (file : Option (List Bytes)) (m : Collector Time)
    → init config start (some first) ≡ done (ok m)
    → All (IsKnown first) (lines_of file)
    → Finishes
        (λ r.
          (msgs : List Msg) × (r.0
            ≡ msgs
              ++ number_message calls clktck now m.exclude_num_cpus
                  (count_threads (lines_of file))))
        (read calls clktck now file m)
unfolding read
read-count_threads calls clktck config start now first file m i h =
    let seconds = calls.seconds now m.last_timestamp in
    let lines = lines_of file in
    let (ready, below, names) : IsReady first (ok m) =
      Partly-value (IsReady first) (init config start (some first))
        (init-IsReady config start first) i in
    simp (ready) (
      Finishes-bind (λ r. r.1 ≡ 0 + count_threads lines) _
        (read_lines calls clktck now seconds m.matches lines 0 m.maps) _
        (read_lines-Counts calls clktck now seconds m.matches lines 0 m.maps below
          (All-IsKnown first m.maps.olddata lines names h))
        (λ r e. (
          r.0,
          ap (λ n. r.0 ++ number_message calls clktck now m.exclude_num_cpus n) (e ∙ omega arith),
        )))
