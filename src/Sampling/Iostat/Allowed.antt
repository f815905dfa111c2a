-- ===== src/Sampling/Iostat/Allowed.antt =====
-- Only metrics and devices that are not excluded are sent by collectors/iostatMetric.go.
use cc_metric_collector.Prelude.{
  ℕ, ◌≡◌, refl, false, not, Bool-cases, Option-cases, inl, inr, Option, none, some, List, [], ◌∷◌,
  ◌++◌, All, All-append, arith, if_both,
}
use cc_metric_collector.Prelude.Int.{ℤ}
use cc_metric_collector.Prelude.Bytes.{
  Bytes, codes, fields, contains, member, Table, AllValues, AllValues-put, AllValues-find, find,
}
use cc_metric_collector.Values.{Result, ok, err}
use cc_metric_collector.Sampling.{whole, Calls, sent}
use cc_metric_collector.Sampling.Iostat.{
  Config, Entry, Collector, all_matches, kept_matches, device_tags, number_at, device_of, init_line,
  init_lines, init_with, init, meta, read_match, read_matches, read_line, read_lines, read,
}

module _ (config : Config) where
  -- no loop device and none that is excluded
  abbrev pub IsAllowed : Bytes → Type 0
  IsAllowed device =
      (contains (codes "loop") device ≡ false) × (member device config.exclude_devices ≡ false)

  -- a metric that is not excluded
  abbrev pub IsKept : Bytes × ℕ → Type 0
  IsKept match = member match.0 config.exclude_metrics ≡ false

  -- an entry with the tags of an allowed device
  abbrev pub IsTagged : Entry → Type 0
  IsTagged entry = (device : Bytes) × (entry.tags ≡ device_tags device) × IsAllowed device

  -- The metrics and the entries of a collector are allowed.
  pub record IsSound (m : Collector) : Type 0 where
    pub kept : All IsKept m.matches
    pub tagged : AllValues IsTagged m.devices

  kept_matches-IsKept :
      (matches : Table ℕ) → All IsKept (kept_matches config.exclude_metrics matches)
  unfolding kept_matches
  kept_matches-IsKept [] = tt
  kept_matches-IsKept ((name, index) ∷ rest) =
      elim (Bool-cases (member name config.exclude_metrics)) [
        | inl e ↦ rw e (kept_matches-IsKept rest)
        | inr e ↦ rw e (e, kept_matches-IsKept rest)
      ]

  device_of-IsAllowed :
      (linefields : List Bytes) (device : Bytes)
      → device_of config linefields ≡ some device
      → IsAllowed device
  unfolding device_of
  device_of-IsAllowed [] device e = cc
  device_of-IsAllowed (a ∷ []) device e = cc
  device_of-IsAllowed (a ∷ b ∷ []) device e = cc
  device_of-IsAllowed (a ∷ b ∷ c ∷ rest) device e = ground (arith, e)

  init_line-IsTagged :
      (matches : Table ℕ) (line : Bytes) (devices : Table Entry)
      → AllValues IsTagged devices
      → AllValues IsTagged (init_line config matches line devices)
  unfolding init_line
  init_line-IsTagged matches line devices h = elim (Option-cases (device_of config (fields line))) [
    | inl e ↦ rw (e, init_line) h
    | inr (device, e) ↦
        rw (e, init_line)
          (AllValues-put IsTagged device _ devices
            (device, refl, device_of-IsAllowed (fields line) device e) h)
  ]

  init_lines-IsTagged :
      (matches : Table ℕ) (lines : List Bytes) (devices : Table Entry)
      → AllValues IsTagged devices
      → AllValues IsTagged (init_lines config matches lines devices)
  unfolding init_lines
  init_lines-IsTagged matches [] devices h = h
  init_lines-IsTagged matches (line ∷ lines) devices h =
      init_lines-IsTagged matches lines _ (init_line-IsTagged matches line devices h)

  abbrev IsMade : Result Collector → Type 0
  IsMade (ok m) = IsSound m
  IsMade (err e) = Unit {0}

  init_with-IsMade :
      (file : Option (List Bytes)) (matches : Table ℕ)
      → All IsKept matches
      → IsMade (init_with config file matches)
  init_with-IsMade file [] k = tt
  init_with-IsMade none (n ∷ ns) k = tt
  init_with-IsMade (some lines) (n ∷ ns) k = record {
    kept = k;
    tagged = init_lines-IsTagged (n ∷ ns) lines [] tt;
  }

  module _ {F Time Msg : Type 0} (calls : Calls F Time Msg) where
    -- a message of a metric that is not excluded and a device that is allowed
    abbrev pub IsFrom : Msg → Type 0
    IsFrom msg =
        (name : Bytes) × (device : Bytes) × (v : ℤ) × (now : Time) × (calls.new_metric name
            (device_tags device) meta (whole v) now
          ≡ some msg)
        × (member name config.exclude_metrics ≡ false)
        × IsAllowed device

    abbrev pub Keeps : List Msg × Entry → Type 0
    Keeps r = All IsFrom r.0 × IsTagged r.1

    module _ (now : Time) where
      sent-IsFrom :
          (name : Bytes) (v : ℤ) (entry : Entry)
          → member name config.exclude_metrics ≡ false
          → IsTagged entry
          → All IsFrom (sent (calls.new_metric name entry.tags meta (whole v) now))
      sent-IsFrom name v entry k (device, t, a) =
          rw t
            (elim (Option-cases (calls.new_metric name (device_tags device) meta (whole v) now)) [
              | inl e ↦ rw e tt
              | inr (msg, e) ↦ rw e ((name, device, v, now, e, k, a), tt)
            ])

      read_match-Keeps :
          (linefields : List Bytes) (name : Bytes) (index : ℕ) (entry : Entry)
          → member name config.exclude_metrics ≡ false
          → IsTagged entry
          → Keeps (read_match calls now linefields name index entry)
      unfolding read_match
      read_match-Keeps linefields name index entry k t =
          elim (Option-cases (number_at linefields index)) [
            | inl e ↦ rw (e, read_match) (tt, t)
            | inr (x, e) ↦ rw (e, read_match) (sent-IsFrom name _ entry k t, t)
          ]

      read_matches-Keeps :
          (linefields : List Bytes) (matches : Table ℕ) (entry : Entry)
          → All IsKept matches
          → IsTagged entry
          → Keeps (read_matches calls now linefields matches entry)
      unfolding read_matches
      read_matches-Keeps linefields [] entry k t = (tt, t)
      read_matches-Keeps linefields ((name, index) ∷ rest) entry k t =
          let (first, t') = read_match-Keeps linefields name index entry k.0 t in
          let (more, last) = read_matches-Keeps linefields rest _ k.1 t' in
          (All-append IsFrom _ _ first more, last)

      abbrev KeepsAll : List Msg × Table Entry → Type 0
      KeepsAll r = All IsFrom r.0 × AllValues IsTagged r.1

      read_line-KeepsAll :
          (m : Collector) (line : Bytes) (devices : Table Entry)
          → IsSound m
          → AllValues IsTagged devices
          → KeepsAll (read_line calls now m line devices)
      unfolding read_line
      read_line-KeepsAll m line devices s h =
          elim (Option-cases (device_of m.config (fields line))) [
            | inl e ↦ rw (e, read_line) (tt, h)
            | inr (device, e) ↦ elim (Option-cases (find device devices)) [
              | inl n ↦ rw (e, read_line) (rw (n, read_line) (tt, h))
              | inr (entry, n) ↦
                  let (first, t) =
                    read_matches-Keeps (fields line) m.matches entry s.kept
                      (AllValues-find IsTagged device entry devices h n) in
                  rw (e, read_line)
                    (rw (n, read_line) (first, AllValues-put IsTagged device _ devices t h))
            ]
          ]

      read_lines-KeepsAll :
          (m : Collector) (lines : List Bytes) (devices : Table Entry)
          → IsSound m
          → AllValues IsTagged devices
          → KeepsAll (read_lines calls now m lines devices)
      unfolding read_lines
      read_lines-KeepsAll m [] devices s h = (tt, h)
      read_lines-KeepsAll m (line ∷ lines) devices s h =
          let (first, h') = read_line-KeepsAll m line devices s h in
          let (more, last) = read_lines-KeepsAll m lines _ s h' in
          (All-append IsFrom _ _ first more, last)

      abbrev KeepsSound : List Msg × Collector → Type 0
      KeepsSound r = All IsFrom r.0 × IsSound r.1

      read-KeepsSound :
          (file : Option (List Bytes)) (m : Collector)
          → IsSound m
          → KeepsSound (read calls now file m)
      unfolding read
      read-KeepsSound none m s = if_both KeepsSound (not m.init) _ _ (tt, s) (tt, s)
      read-KeepsSound (some lines) m s =
          let (msgs, h) = read_lines-KeepsAll m lines m.devices s s.tagged in
          if_both KeepsSound (not m.init) _ _ (tt, s) (msgs, record { kept = s.kept; tagged = h })

    -- `Read` again and again
    unfoldable pub reads : List (Time × Option (List Bytes)) → Collector → List Msg
    reads [] m = []
    reads ((now, file) ∷ rest) m = let (msgs, m') = read calls now file m in msgs ++ reads rest m'

    reads-IsFrom :
        (readings : List (Time × Option (List Bytes))) (m : Collector)
        → IsSound m
        → All IsFrom (reads readings m)
    unfolding reads
    reads-IsFrom [] m s = tt
    reads-IsFrom ((now, file) ∷ rest) m s =
        let (first, s') = read-KeepsSound now file m s in
        All-append IsFrom _ _ first (reads-IsFrom rest _ s')

    init-IsSound :
        (file : Option (List Bytes)) (m : Collector) → init config file ≡ ok m → IsSound m
    unfolding init
    init-IsSound file m e = rw e at made
      where
        made : IsMade (init config file)
        made =
            init_with-IsMade file (kept_matches config.exclude_metrics all_matches)
              (kept_matches-IsKept all_matches)

    -- Every message of any sequence of `Read` after `Init` is a metric that is not excluded, with the
    -- tags of a device that is neither a loop device nor excluded.
    pub reads-allowed :
        (file : Option (List Bytes)) (readings : List (Time × Option (List Bytes))) (m : Collector)
        → init config file ≡ ok m
        → All IsFrom (reads readings m)
    reads-allowed file readings m e = reads-IsFrom readings m (init-IsSound file m e)
