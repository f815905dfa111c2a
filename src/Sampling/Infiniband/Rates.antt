-- ===== src/Sampling/Infiniband/Rates.antt =====
-- The rates of a counter of collectors/infinibandMetric.go over a sequence of readings, some of which
-- may fail, of a counter that goes round at 2 ^ 64.
use native.Mathlib.Nat.{mod-lt, mod-eq_of_lt, mod-eq-sub-mod}
use cc_metric_collector.Prelude.{
  ℕ, ◌+◌, ◌-◌, ◌%◌, ◌≤◌, ◌<◌, ◌≡◌, refl, ap, ◌∙◌, Bool, true, false, Option, none, some, List, [],
  ◌∷◌, ◌++◌, ltb, ltb→lt, Bool-cases, inl, inr, arith, if◌then◌else◌,
}
use cc_metric_collector.Prelude.Int.{pos}
use cc_metric_collector.Prelude.Bytes.{Bytes, codes, Table}
use cc_metric_collector.Sampling.{Calls, real, whole}
use cc_metric_collector.Sampling.Infiniband.{
  Counter, Config, Totals, word, counter_in, scaled, metric, scaled_rate, rate_of, send_rate,
  read_number, read_counter,
}

-- a reading: the file, when it was read, the seconds since the last `Read`, what was counted since
-- the last reading, and whether the file could be read
pub record Sample (F Time : Type 0) : Type 0 where
  pub file : Option Bytes
  pub now : Time
  pub seconds : F
  pub used : ℕ
  pub readable : Bool
  pub totals : Totals F  -- those of the counters of the port before it

abbrev shown : Bool → ℕ → Option ℕ
shown true n = some n
shown false n = none

-- Less than 2 ^ 64 is counted between two readings, and a file shows the counter if it can be read.
abbrev pub Shows : {F Time : Type 0} → ℕ → List (Sample F Time) → Type 0
Shows before [] = Unit {0}
Shows before (s ∷ ss) =
    (s.used < word)
    × (counter_in s.file ≡ shown s.readable ((before + s.used) % word))
    × Shows ((before + s.used) % word) ss

-- the state of a counter: its value, if the last reading gave one
abbrev pub kept : Bool → ℕ → Option ℕ
kept true n = some n
kept false n = none

around :
    (before used : ℕ)
    → before < word
    → used < word
    → ((before + used) % word + (word - before)) % word ≡ used
around before used h k = elim (Bool-cases (ltb (before + used) word)) [
  | inl e ↦
      let less = ltb→lt _ _ e in
      ap (λ n. (n + (word - before)) % word) (mod-eq_of_lt {n = before + used} {m = word} less)
      ∙ mod-eq-sub-mod {n = before + used + (word - before)} {m = word} (omega (arith, h))
      ∙ ap (λ n. n % word) (omega (arith, h))
      ∙ mod-eq_of_lt k
  | inr e ↦
      let above : word ≤ before + used = ground (arith, e) in
      let rest : (before + used) % word ≡ before + used - word =
        mod-eq-sub-mod {n = before + used} {m = word} above
        ∙ mod-eq_of_lt (omega (arith, h, k, above)) in
      ap (λ n. (n + (word - before)) % word) rest
      ∙ ap (λ n. n % word) (omega (arith, h, above))
      ∙ mod-eq_of_lt k
]

module _ {F Time Msg : Type 0} (calls : Calls F Time Msg) (config : Config)
    (tags : Table Bytes) where
  -- one counter read again and again
  unfoldable pub readings : List (Sample F Time) → Counter → List Msg
  readings [] c = []
  readings (s ∷ ss) c =
      let (msgs, c', _) = read_counter calls config tags s.now s.seconds s.file c s.totals in
      msgs ++ readings ss c'

  abbrev pub absolute : Counter → Sample F Time → ℕ → List Msg
  absolute c s value =
      if config.send_absolute_values
      then metric calls config tags s.now s.seconds c.name c.unit (whole (pos (scaled c value)))
      else []

  -- the rate of what was counted, if the last reading gave a value
  abbrev pub rate : Counter → Bool → Sample F Time → List Msg
  rate c false s = []
  rate c true s = metric calls config tags s.now s.seconds (c.name ++ codes "_bw") c.unit_rates (
      real (
        scaled_rate calls config tags s.now s.seconds c
          (calls.divide (calls.of_int (pos s.used)) s.seconds)))

  -- the messages of the readings, from whether the last one gave a value
  unfoldable pub series : Counter → Bool → ℕ → List (Sample F Time) → List Msg
  series c known before [] = []
  series c known before (s ∷ ss) =
      let value = (before + s.used) % word in
      (if s.readable then absolute c s value ++ rate c known s else [])
      ++ series c s.readable value ss

  send_rate-rate :
      (c : Counter) (known : Bool) (before : ℕ) (s : Sample F Time)
      → before < word
      → s.used < word
      → (send_rate calls config tags s.now s.seconds
          (record c { last_state = kept known before })
          ((before + s.used) % word)
          s.totals).0
        ≡ rate c known s
  unfolding send_rate rate_of
  send_rate-rate c false before s h k = refl
  send_rate-rate c true before s h k = rw (around before s.used h k) refl

  read_readable :
      (c : Counter) (known : Bool) (before : ℕ) (s : Sample F Time) {value : ℕ}
      → config.send_derived_values ≡ true
      → counter_in s.file ≡ some value
      → (read_counter calls config tags s.now s.seconds s.file
          (record c { last_state = kept known before })
          s.totals).0
        ≡ absolute c s value
          ++ (send_rate calls config tags s.now s.seconds
              (record c { last_state = kept known before })
              value
              s.totals).0
  unfolding read_counter read_number
  read_readable c known before s d e = rw (e, read_counter) (rw d refl)

  read_readable_state :
      (c : Counter) (known : Bool) (before : ℕ) (s : Sample F Time) {value : ℕ}
      → config.send_derived_values ≡ true
      → counter_in s.file ≡ some value
      → (read_counter calls config tags s.now s.seconds s.file
          (record c { last_state = kept known before })
          s.totals).1
        ≡ record c { last_state = some value }
  unfolding read_counter read_number
  read_readable_state c known before s d e = rw (e, read_counter) (rw d refl)

  read_unreadable :
      (c : Counter) (known : Bool) (before : ℕ) (s : Sample F Time)
      → counter_in s.file ≡ none
      → read_counter calls config tags s.now s.seconds s.file
          (record c { last_state = kept known before })
          s.totals
        ≡ ([], record c { last_state = none }, s.totals)
  unfolding read_counter
  read_unreadable c known before s e = rw (e, read_counter) refl

  readings-series_from :
      (ss : List (Sample F Time)) (c : Counter) (known : Bool) (before : ℕ)
      → config.send_derived_values ≡ true
      → before < word
      → Shows before ss
      → readings ss (record c { last_state = kept known before }) ≡ series c known before ss
  unfolding readings series
  readings-series_from [] c known before d h g = refl
  readings-series_from (s ∷ ss) c known before d h (less, file, rest) =
      let value = (before + s.used) % word in
      let small : value < word = mod-lt (before + s.used) (omega arith) in
      elim (Bool-cases s.readable) [
        | inl e ↦
            let number : counter_in s.file ≡ some value = file ∙ rw e refl in
            let ih = readings-series_from ss c true value d small rest in
            rw
              (
                read_readable c known before s d number,
                read_readable_state c known before s d number,
                send_rate-rate c known before s h less,
                ih,
              )
              (simp e)
        | inr e ↦
            let no_number : counter_in s.file ≡ none = file ∙ rw e refl in
            let ih = readings-series_from ss c false value d small rest in
            rw (read_unreadable c known before s no_number, ih) (simp e)
      ]

  -- If the rates are sent, less than 2 ^ 64 is counted between two readings and the files that can be
  -- read show the counter, the messages of a new counter are: nothing for a reading that fails, and
  -- for another one the counter, if it is to be sent, and behind a reading that did not fail the rate
  -- of exactly what was counted since, also where the counter went round.
  pub readings-series :
      (ss : List (Sample F Time)) (c : Counter) (before : ℕ)
      → config.send_derived_values ≡ true
      → before < word
      → Shows before ss
      → readings ss (record c { last_state = none }) ≡ series c false before ss
  readings-series ss c before d h g = readings-series_from ss c false before d h g
