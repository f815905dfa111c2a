-- ===== src/Sampling/Netstat/Finishing.antt =====
-- Neither `Init` nor a sequence of `Read` of collectors/netstatMetric.go indexes out of range.
use cc_metric_collector.Prelude.{
  if_both, ℕ, ◌<◌, ◌≡◌, refl, true, false, not, Bool-cases, Option-cases, inl, inr, Option, none,
  some, List, [], ◌∷◌, ◌++◌, length, All, arith,
}
use cc_metric_collector.Prelude.Int.{ℤ}
use cc_metric_collector.Prelude.Bytes.{
  Bytes, codes, trim_of, Table, AllValues, AllValues-put, AllValues-find, is_space, add_word,
  cut_fields, fields, contains_byte, member, find,
}
use cc_metric_collector.Prelude.Run.{Run, done, at, ◌>>=◌, Finishes, Finishes-bind, at-Finishes}
use cc_metric_collector.Values.{Result, ok, err}
use cc_metric_collector.Topology.Parse.{atoi}
use cc_metric_collector.Sampling.{Calls}
use cc_metric_collector.Sampling.Netstat.{
  Config, Metric, Collector, device_metrics, init_line, init_lines, collector_of, init,
  value_metric, read_metric, read_metrics, read_line, read_lines, read, get_canonical_name,
}

abbrev FirstWord : Bytes → Type 0
FirstWord s = 0 < length (add_word (cut_fields s).0 (cut_fields s).1)

cut_fields-FirstWord :
    (b : ℕ) (s : Bytes) → is_space b ≡ false → contains_byte b s ≡ true → FirstWord s
unfolding contains_byte cut_fields
cut_fields-FirstWord b [] h k = cc
cut_fields-FirstWord b (c ∷ s) h k = elim (Bool-cases (is_space c)) [
  | inl e ↦
      let rest : contains_byte b s ≡ true = ground (arith, k, h, e) in
      rw e (cut_fields-FirstWord b s h rest)
  | inr e ↦ rw e (omega arith)
]

-- A text that holds a byte which is not white space has a field.
pub fields-has_first :
    (b : ℕ) (s : Bytes) → is_space b ≡ false → contains_byte b s ≡ true → 0 < length (fields s)
unfolding fields
fields-has_first b s h k = cut_fields-FirstWord b s h k

-- The metrics read the fields below 11.
abbrev IsBelow : Metric → Type 0
IsBelow metric = metric.index < 11

abbrev pub AreBelow : Table (List Metric) → Type 0
AreBelow = AllValues (All IsBelow)

-- A line of a device has the fields up to the packets sent.
abbrev pub IsWide : Bytes → Type 0
IsWide line = contains_byte b':' line ≡ true → 10 < length (fields line)

device_metrics-IsBelow : (raw : Bytes) → All IsBelow (device_metrics raw)
unfolding device_metrics
device_metrics-IsBelow raw = omega arith

module _ (config : Config) (aliases : Table Bytes) where
  init_line-Finishes :
      (line : Bytes) (matches : Table (List Metric))
      → AreBelow matches
      → Finishes AreBelow (init_line config aliases line matches)
  unfolding init_line
  init_line-Finishes line matches h = elim (Bool-cases (contains_byte b':' line)) [
    | inl e ↦ rw e (
        Finishes-bind (λ a. Unit {0}) AreBelow (at (fields line) 0) _
          (at-Finishes (fields line) 0 (fields-has_first b':' line (unfold is_space in refl) e))
          (λ first _.
            let raw = trim_of (codes ": ") first in
            if_both AreBelow (member (get_canonical_name raw aliases) config.include_devices) _
              matches (AllValues-put (All IsBelow) _ _ matches (device_metrics-IsBelow raw) h) h))
    | inr e ↦ rw e h
  ]

  init_lines-Finishes :
      (lines : List Bytes) (matches : Table (List Metric))
      → AreBelow matches
      → Finishes AreBelow (init_lines config aliases lines matches)
  unfolding init_lines
  init_lines-Finishes [] matches h = h
  init_lines-Finishes (line ∷ lines) matches h =
      Finishes-bind AreBelow AreBelow (init_line config aliases line matches) _
        (init_line-Finishes line matches h) (λ a k. init_lines-Finishes lines a k)

module _ {Time : Type 0} where
  -- the counters of a collector that `Init` made
  abbrev pub IsSound : Result (Collector Time) → Type 0
  IsSound (ok m) = AreBelow m.matches
  IsSound (err e) = Unit

  collector_of-IsSound :
      (config : Config) (now : Time) (aliases : Table Bytes) (matches : Table (List Metric))
      → AreBelow matches
      → IsSound (collector_of config now aliases matches)
  collector_of-IsSound config now aliases [] h = tt
  collector_of-IsSound config now aliases (m ∷ ms) h = h

  pub init-Finishes :
      (config : Config) (now : Time) (file : Option (List Bytes))
      → Finishes IsSound (init config now file)
  unfolding init
  init-Finishes config now none = tt
  init-Finishes config now (some lines) =
      Finishes-bind AreBelow IsSound (init_lines config _ lines []) _
        (init_lines-Finishes config _ lines [] tt) (λ a k. collector_of-IsSound config now _ a k)

-- messages with a metric, with metrics and with the map of the metrics
module _ {Msg : Type 0} where
  abbrev OneBelow : List Msg × Metric → Type 0
  OneBelow r = IsBelow r.1

  abbrev AllBelow : List Msg × List Metric → Type 0
  AllBelow r = All IsBelow r.1

  abbrev MapBelow : List Msg × Table (List Metric) → Type 0
  MapBelow r = AreBelow r.1

module _ {F Time Msg : Type 0} (calls : Calls F Time Msg) where
  value_metric-IsBelow :
      (config : Config) (now : Time) (diff : F) (v : ℤ) (metric : Metric)
      → IsBelow metric
      → IsBelow (value_metric calls config now diff v metric).1
  unfolding value_metric
  value_metric-IsBelow config now diff v metric h = elim (Bool-cases config.send_derived_values) [
    | inl e ↦ rw e h
    | inr e ↦ rw e h
  ]

  read_metric-Finishes :
      (config : Config) (now : Time) (diff : F) (f : List Bytes) (metric : Metric)
      → 10 < length f
      → IsBelow metric
      → Finishes OneBelow (read_metric calls config now diff f metric)
  unfolding read_metric
  read_metric-Finishes config now diff f metric w h =
      Finishes-bind (λ a. Unit {0}) OneBelow (at f metric.index) _
        (at-Finishes f metric.index (omega (arith, w, h)))
        (λ field _. elim (Option-cases (atoi field)) [
          | inl e ↦ rw e h
          | inr (v, e) ↦ rw e (value_metric-IsBelow config now diff v metric h)
        ])

  read_metrics-Finishes :
      (config : Config) (now : Time) (diff : F) (f : List Bytes) (metrics : List Metric)
      → 10 < length f
      → All IsBelow metrics
      → Finishes AllBelow (read_metrics calls config now diff f metrics)
  unfolding read_metrics
  read_metrics-Finishes config now diff f [] w h = tt
  read_metrics-Finishes config now diff f (metric ∷ metrics) w h =
      Finishes-bind OneBelow AllBelow _ _ (read_metric-Finishes config now diff f metric w h.0)
        (λ a k.
          Finishes-bind AllBelow AllBelow _ _
            (read_metrics-Finishes config now diff f metrics w h.1) (λ b l. (k, l)))

  read_line-Finishes :
      (m : Collector Time) (now : Time) (diff : F) (line : Bytes) (matches : Table (List Metric))
      → IsWide line
      → AreBelow matches
      → Finishes MapBelow (read_line calls m now diff line matches)
  unfolding read_line
  read_line-Finishes m now diff line matches w h = elim (Bool-cases (contains_byte b':' line)) [
    | inl e ↦ rw e (
        Finishes-bind (λ a. Unit {0}) MapBelow (at (fields line) 0) _
          (at-Finishes (fields line) 0 (omega (arith, w e)))
          (λ first _.
            let canonical = get_canonical_name (trim_of (codes ":") first) m.alias_to_canonical in
            elim (Option-cases (find canonical matches)) [
              | inl n ↦ rw n h
              | inr (devmetrics, n) ↦ rw n (
                  Finishes-bind AllBelow MapBelow _ _
                    (read_metrics-Finishes m.config now diff (fields line) devmetrics (w e)
                      (AllValues-find (All IsBelow) canonical devmetrics matches h n))
                    (λ a k. AllValues-put (All IsBelow) canonical a.1 matches k h))
            ]))
    | inr e ↦ rw e h
  ]

  read_lines-Finishes :
      (m : Collector Time) (now : Time) (diff : F) (lines : List Bytes)
      (matches : Table (List Metric))
      → All IsWide lines
      → AreBelow matches
      → Finishes MapBelow (read_lines calls m now diff lines matches)
  unfolding read_lines
  read_lines-Finishes m now diff [] matches w h = h
  read_lines-Finishes m now diff (line ∷ lines) matches w h =
      Finishes-bind MapBelow MapBelow _ _ (read_line-Finishes m now diff line matches w.0 h) (λ a k.
        Finishes-bind MapBelow MapBelow _ _ (read_lines-Finishes m now diff lines a.1 w.1 k)
          (λ b l. l))

  -- the counters of a collector
  abbrev pub HoldsBelow : List Msg × Collector Time → Type 0
  HoldsBelow r = AreBelow r.1.matches

  -- the lines of a file, if it can be opened
  abbrev pub IsWideFile : Option (List Bytes) → Type 0
  IsWideFile none = Unit
  IsWideFile (some lines) = All IsWide lines

  read-Finishes :
      (now : Time) (file : Option (List Bytes)) (m : Collector Time)
      → IsWideFile file
      → AreBelow m.matches
      → Finishes HoldsBelow (read calls now file m)
  unfolding read
  read-Finishes now none m w h = if_both (Finishes HoldsBelow) (not m.init) _ _ h h
  read-Finishes now (some lines) m w h = if_both (Finishes HoldsBelow) (not m.init) _ _ h (
      Finishes-bind MapBelow HoldsBelow _ _ (read_lines-Finishes m now _ lines m.matches w h)
        (λ a k. k))

  -- `Read` again and again, at times and on what the file is then
  unfoldable pub reads :
      List (Time × Option (List Bytes)) → Collector Time → Run (List Msg × Collector Time)
  reads [] m = done ([], m)
  reads ((now, file) ∷ rest) m = do
    (msgs, m') ← read calls now file m
    (more, last) ← reads rest m'
    done (msgs ++ more, last)

  reads-Finishes :
      (readings : List (Time × Option (List Bytes))) (m : Collector Time)
      → All (λ (r : Time × Option (List Bytes)). IsWideFile r.1) readings
      → AreBelow m.matches
      → Finishes HoldsBelow (reads readings m)
  unfolding reads
  reads-Finishes [] m w h = h
  reads-Finishes ((now, file) ∷ rest) m w h =
      Finishes-bind HoldsBelow HoldsBelow _ _ (read-Finishes now file m w.0 h)
        (λ a k. Finishes-bind HoldsBelow HoldsBelow _ _ (reads-Finishes rest a.1 w.1 k) (λ b l. l))

  abbrev reads_of :
      List (Time × Option (List Bytes))
      → Result (Collector Time)
      → Run (Result (List Msg × Collector Time))
  reads_of readings (ok m) = do r ← reads readings m; done (ok r)
  reads_of readings (err e) = done (err e)

  -- `Init`, and `Read` again and again if it succeeds
  unfoldable pub session :
      Config
      → Time
      → Option (List Bytes)
      → List (Time × Option (List Bytes))
      → Run (Result (List Msg × Collector Time))
  session config now file readings = do made ← init config now file; reads_of readings made

  reads_of-Finishes :
      (readings : List (Time × Option (List Bytes))) (made : Result (Collector Time))
      → All (λ (r : Time × Option (List Bytes)). IsWideFile r.1) readings
      → IsSound made
      → Finishes (λ _. Unit {0}) (reads_of readings made)
  reads_of-Finishes readings (ok m) w h =
      Finishes-bind HoldsBelow (λ _. Unit {0}) _ _ (reads-Finishes readings m w h) (λ r k. tt)
  reads_of-Finishes readings (err e) w h = tt

  -- Whatever the file is at `Init`, and if at each `Read` it cannot be opened or each of its lines with
  -- a colon has at least 11 fields, neither `Init` nor any `Read` of the network collector panics.
  pub session-Finishes :
      (config : Config) (now : Time) (file : Option (List Bytes))
      (readings : List (Time × Option (List Bytes)))
      → All (λ (r : Time × Option (List Bytes)). IsWideFile r.1) readings
      → Finishes (λ _. Unit {0}) (session config now file readings)
  unfolding session
  session-Finishes config now file readings w =
      Finishes-bind IsSound (λ _. Unit {0}) (init config now file) _ (init-Finishes config now file)
        (λ made k. reads_of-Finishes readings made w k)
