-- ===== src/Rapl/Energy.antt =====
-- The power over a sequence of readings of a counter that starts again at its range.
use native.Mathlib.Nat.{mod-lt, mod-eq_of_lt, mod-eq-sub-mod}
use cc_metric_collector.Prelude.{
  ℕ, ◌+◌, ◌-◌, ◌%◌, ◌<◌, ◌≤◌, ◌≡◌, refl, ap, ◌∙◌, true, false, ltb, Option, some, List, [], ◌∷◌,
  ◌++◌, arith, Bool-cases, inl, inr, ltb→lt,
}
use cc_metric_collector.Prelude.Int.{
  ℤ, pos, negsuc, ◌+ℤ◌, ◌-ℤ◌, ltb_ℤ, wrap, half64, wrap_of_InRange,
}
use cc_metric_collector.Values.{Floats}
use cc_metric_collector.Prelude.Bytes.{Bytes, codes, Table}
use cc_metric_collector.Sampling.{sent}
use cc_metric_collector.Rapl.{ZoneInfo, Metrics, meta, number_in, energy_diff, read_zone}

wrapped_pos : (n : ℕ) → n < half64 → wrap half64 (pos n) ≡ pos n
wrapped_pos n h = wrap_of_InRange half64 (pos n) (omega (arith, h))

wrapped_negsuc : (n : ℕ) → n < half64 → wrap half64 (negsuc n) ≡ negsuc n
wrapped_negsuc n h = wrap_of_InRange half64 (negsuc n) (omega (arith, h))

pos_not_negative : (n : ℕ) → ltb_ℤ (pos n) (pos 0) ≡ false
pos_not_negative n = ground arith

negsuc_negative : (n : ℕ) → ltb_ℤ (negsuc n) (pos 0) ≡ true
negsuc_negative n = ground arith

forward : (a b : ℕ) → b ≤ a → pos a -ℤ pos b ≡ pos (a - b)
unfolding ◌-ℤ◌
forward a b h = ground (arith, h)

backward : (a b : ℕ) → a < b → pos a -ℤ pos b ≡ negsuc (b - a - 1)
unfolding ◌-ℤ◌
backward a b h = ground (arith, h)

around : (u range : ℕ) → u < range → negsuc (range - u - 1) +ℤ pos range ≡ pos u
unfolding ◌+ℤ◌
around u range h = ground (arith, h)

-- the counter after some energy was used
abbrev pub counter : ℕ → ℕ → ℕ → ℕ
counter range before used = (before + used) % range

counter_below :
    (range before used : ℕ) → before + used < range → counter range before used ≡ before + used
counter_below range before used h = mod-eq_of_lt h

counter_above :
    (range before used : ℕ)
    → range ≤ before + used
    → before < range
    → used < range
    → counter range before used ≡ before + used - range
counter_above range before used h hb hu = mod-eq-sub-mod h ∙ mod-eq_of_lt (omega (arith, h, hb, hu))

module _ {Time : Type 0} (p : ZoneInfo Time) (range before : ℕ) where
  -- the entry has the counter's range and its last reading
  pub record IsAt : Type 0 where
    pub ranged : p.max_energy_range ≡ pos range
    pub last : p.energy ≡ pos before
    pub fits : range < half64
    pub within : before < range

  energy_diff_forward :
      (e : ℕ) → IsAt → before ≤ e → e < range → energy_diff p (pos e) ≡ pos (e - before)
  unfolding energy_diff
  energy_diff_forward e i h k =
      rw
        (
          i.last,
          forward e before h,
          wrapped_pos (e - before) (omega (arith, i.fits, k)),
          pos_not_negative (e - before),
        )
        refl

  energy_diff_around :
      (used : ℕ)
      → IsAt
      → used < range
      → range ≤ before + used
      → energy_diff p (pos (before + used - range)) ≡ pos used
  unfolding energy_diff
  energy_diff_around used i k h =
      rw
        (
          i.last,
          i.ranged,
          back,
          wrapped_negsuc (range - used - 1) (omega (arith, i.fits)),
          negsuc_negative (range - used - 1),
          around used range k,
        )
        (wrapped_pos used (omega (arith, i.fits, k)))
    where
      back : pos (before + used - range) -ℤ pos before ≡ negsuc (range - used - 1)
      back =
          backward (before + used - range) before (omega (arith, k, h, i.within))
          ∙ ap negsuc (omega (arith, k, h, i.within))

  -- The energy since the last reading is what was used, if that is less than the range.
  pub energy_diff-counter :
      (used : ℕ) → IsAt → used < range → energy_diff p (pos (counter range before used)) ≡ pos used
  energy_diff-counter used i k = elim (Bool-cases (ltb (before + used) range)) [
    | inl b ↦
        let below = ltb→lt _ _ b in
        rw (counter_below range before used below)
          (energy_diff_forward (before + used) i (omega arith) below ∙ ap pos (omega arith))
    | inr b ↦
        let above : range ≤ before + used = ground (arith, b) in
        rw (counter_above range before used above i.within k) (energy_diff_around used i k above)
  ]

-- a reading of the counter file at a time, after some energy was used
pub record Sample (Time : Type 0) : Type 0 where
  pub used : ℕ
  pub file : Option Bytes
  pub now : Time

module _ {Time : Type 0} (range : ℕ) where
  -- Less than the range is used between two readings, and each file shows the counter.
  abbrev pub Shows : ℕ → List (Sample Time) → Type 0
  Shows before [] = Unit {0}
  Shows before (s ∷ ss) =
      (s.used < range)
      × (number_in s.file ≡ some (pos (counter range before s.used)))
      × Shows (counter range before s.used) ss

module _ {F G Time Msg : Type 0} (fl : Floats F G) (mt : Metrics F Time Msg) where
  -- reading one zone again and again
  unfoldable pub read_series : List (Sample Time) → ZoneInfo Time → List Msg
  read_series [] p = []
  read_series (s ∷ ss) p =
      let (ms, p') = read_zone fl mt (s.file, s.now) p in ms ++ read_series ss p'

  -- the metrics of the energy that was used, over the time between the readings
  unfoldable pub powers : Table Bytes → Time → List (Sample Time) → List Msg
  powers tags before [] = []
  powers tags before (s ∷ ss) =
      sent (
        mt.new_metric (codes "rapl_average_power") tags meta
          (fl.divide (fl.of_int (pos s.used)) (fl.of_int (mt.microseconds s.now before))) s.now)
      ++ powers tags s.now ss

  read_zone_number :
      (file : Option Bytes) (now : Time) (p : ZoneInfo Time) (e : ℤ)
      → number_in file ≡ some e
      → read_zone fl mt (file, now) p ≡ (
        sent (
            mt.new_metric
              (codes "rapl_average_power")
              p.tags
              meta
              (fl.divide
                (fl.of_int (energy_diff p e))
                (fl.of_int (mt.microseconds now p.energy_timestamp)))
              now),
        record p { energy = e; energy_timestamp = now },
      )
  unfolding read_zone
  read_zone_number file now p e h = rw (h, read_zone) refl

  -- However often the counter starts again: if less than its range is used between two readings and
  -- the files show the counter, the metrics of a zone have the power of the energy that was used.
  pub read_series-powers :
      (range before : ℕ) (samples : List (Sample Time)) (p : ZoneInfo Time)
      → IsAt p range before
      → Shows range before samples
      → read_series samples p ≡ powers p.tags p.energy_timestamp samples
  unfolding read_series powers
  read_series-powers range before [] p i h = refl
  read_series-powers range before (s ∷ ss) p i (less, shown, rest) =
      let e = counter range before s.used in
      let p' : ZoneInfo Time = record p { energy = pos e; energy_timestamp = s.now } in
      let i' : IsAt p' range e = record {
        ranged = i.ranged;
        last = refl;
        fits = i.fits;
        within = mod-lt (before + s.used) (omega (arith, less));
      } in
      rw
        (
          read_zone_number s.file s.now p (pos e) shown,
          energy_diff-counter p range before s.used i less,
        )
        (ap
          (λ ms.
            sent (
              mt.new_metric (codes "rapl_average_power") p.tags meta
                (fl.divide (fl.of_int (pos s.used))
                  (fl.of_int (mt.microseconds s.now p.energy_timestamp)))
                s.now)
            ++ ms)
          (read_series-powers range e ss p' i' rest))
