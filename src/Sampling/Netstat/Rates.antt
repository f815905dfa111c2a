-- ===== src/Sampling/Netstat/Rates.antt =====
-- The rates of a counter of collectors/netstatMetric.go over a sequence of readings.
use cc_metric_collector.Prelude.{
  ℕ, ◌<◌, ◌≡◌, refl, true, false, none, some, List, [], ◌∷◌, ◌++◌, append-nil, arith, if◌then◌else◌,
  get_elem?,
}
use cc_metric_collector.Prelude.Int.{pos, negsuc, ◌-ℤ◌, ltb_ℤ, wrap, half64, wrap_of_InRange}
use cc_metric_collector.Prelude.Bytes.{Bytes, codes}
use cc_metric_collector.Prelude.Run.{Run, done, ◌>>=◌}
use cc_metric_collector.Topology.Parse.{atoi}
use cc_metric_collector.Sampling.{Calls, real, whole, sent}
use cc_metric_collector.Sampling.Netstat.{
  Config, Metric, Collector, value_metric, read_metric, read_lines, read,
}

-- a reading of a line: its fields, when it was read, and the seconds since the last `Read`
pub record Sample (F Time : Type 0) : Type 0 where
  pub f : List Bytes
  pub now : Time
  pub seconds : F
  pub count : ℕ

pos_not_negative : (n : ℕ) → ltb_ℤ (pos n) (pos 0) ≡ false
pos_not_negative n = ground arith

-- The line shows the counter, and the counter fits int64.
abbrev pub Shows : {F Time : Type 0} → ℕ → List (Sample F Time) → Type 0
Shows index [] = Unit {0}
Shows index (s ∷ ss) =
    ((b : Bytes) × (get_elem? s.f index ≡ some b) × (atoi b ≡ some (pos s.count)))
    × (s.count < half64)
    × Shows index ss

exact : (a b : ℕ) → a < half64 → b < half64 → wrap half64 (pos a -ℤ pos b) ≡ pos a -ℤ pos b
exact a b h k = wrap_of_InRange half64 (pos a -ℤ pos b) (unfold ◌-ℤ◌ in ground (arith, h, k))

module _ {F Time Msg : Type 0} (calls : Calls F Time Msg) (config : Config) where
  -- one metric read again and again
  unfoldable pub read_series : List (Sample F Time) → Metric → Run (List Msg)
  read_series [] metric = done []
  read_series (s ∷ ss) metric = do
    (msgs, metric') ← read_metric calls config s.now s.seconds s.f metric
    rest ← read_series ss metric'
    done (msgs ++ rest)

  -- the counter itself
  abbrev pub absolute : Metric → Sample F Time → List Msg
  absolute metric s =
      if config.send_absolute_values
      then sent (calls.new_metric metric.name metric.tags metric.meta (whole (pos s.count)) s.now)
      else []

  -- the difference to the last counter, over the seconds
  abbrev pub rate : Metric → ℕ → Sample F Time → List Msg
  rate metric last s =
      if config.send_derived_values
      then sent (
          calls.new_metric (metric.name ++ codes "_bw") metric.tags metric.meta_rates
            (real (calls.divide (calls.of_int (pos s.count -ℤ pos last)) s.seconds)) s.now)
      else []

  unfoldable pub series : Metric → ℕ → List (Sample F Time) → List Msg
  series metric last [] = []
  series metric last (s ∷ ss) = absolute metric s ++ rate metric last s ++ series metric s.count ss

  value_metric_next :
      (s : Sample F Time) (last : ℕ) (metric : Metric)
      → s.count < half64
      → last < half64
      → config.send_derived_values ≡ true
      → value_metric calls config s.now s.seconds
          (pos s.count)
          (record metric { last_value = pos last })
        ≡ (absolute metric s ++ rate metric last s, record metric { last_value = pos s.count })
  unfolding value_metric
  value_metric_next s last metric h k d = rw (d, exact s.count last h k, pos_not_negative last) refl

  value_metric_first :
      (s : Sample F Time) (metric : Metric)
      → config.send_derived_values ≡ true
      → value_metric calls config s.now s.seconds
          (pos s.count)
          (record metric { last_value = negsuc 0 })
        ≡ (absolute metric s, record metric { last_value = pos s.count })
  unfolding value_metric
  value_metric_first s metric d = rw (d, append-nil) refl

  read_metric_shown :
      (s : Sample F Time) (metric : Metric) {b : Bytes}
      → get_elem? s.f metric.index ≡ some b
      → atoi b ≡ some (pos s.count)
      → read_metric calls config s.now s.seconds s.f metric
        ≡ done (value_metric calls config s.now s.seconds (pos s.count) metric)
  unfolding read_metric
  read_metric_shown s metric h k = rw (h, k) refl

  read_series_next :
      (samples : List (Sample F Time)) (last : ℕ) (metric : Metric)
      → Shows metric.index samples
      → last < half64
      → config.send_derived_values ≡ true
      → read_series samples (record metric { last_value = pos last })
        ≡ done (series metric last samples)
  unfolding read_series series
  read_series_next [] last metric h k d = refl
  read_series_next (s ∷ ss) last metric ((b, g, e), less, rest) k d =
      rw
        (
          read_metric_shown s (record metric { last_value = pos last }) g e,
          value_metric_next s last metric less k d,
          read_series_next ss s.count metric rest less d,
        )
        refl

  -- If the lines show a counter below 2 ^ 63 and the rates are sent, the messages of a new counter
  -- over any number of readings are: with the first one the counter alone, if it is to be sent, and
  -- with each later one the counter likewise and the exact difference to the one before, over the
  -- seconds since the last `Read`.
  pub read_series-series :
      (s : Sample F Time) (ss : List (Sample F Time)) (metric : Metric)
      → Shows metric.index (s ∷ ss)
      → config.send_derived_values ≡ true
      → read_series (s ∷ ss) (record metric { last_value = negsuc 0 })
        ≡ done (absolute metric s ++ series metric s.count ss)
  unfolding read_series
  read_series-series s ss metric ((b, g, e), less, rest) d =
      rw
        (
          read_metric_shown s (record metric { last_value = negsuc 0 }) g e,
          value_metric_first s metric d,
          read_series_next ss s.count metric rest less d,
        )
        refl

  -- A `Read` that cannot open the file moves the time of the last `Read` but not the counters, so the
  -- next `Read` divides the differences over both intervals by the seconds of the second alone.
  pub read_after_failure :
      (first second : Time) (lines : List Bytes) (m : Collector Time)
      → m.init ≡ true
      → let m' : Collector Time = record m { last_timestamp = first } in
        (read calls first none m ≡ done ([], m'))
        × (read calls second (some lines) m' ≡ (do
          (msgs, matches') ← read_lines calls m' second (calls.seconds second first) lines m.matches
          done (msgs, record m' { last_timestamp = second; matches = matches' })))
  unfolding read
  read_after_failure first second lines m i = (simp i, simp i)
