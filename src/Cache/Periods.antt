-- ===== src/Cache/Periods.antt =====
-- Which interval `GetPeriod` returns, and which one a tick hands to the aggregator.
use cc_metric_collector.Prelude.{
  ℕ, zero, suc, ◌∷◌, ◌∙◌, ◌+◌, ◌-◌, ◌≤◌, ◌≡◌, ◌⊎◌, refl, true, some, none, List, [], arith,
  get_elem?, set, ltb, Bool-cases, inl, inr, if◌then◌else◌,
}
use cc_metric_collector.Prelude.Int.{ℤ, pos, negsuc, ◌-ℤ◌, ltb_ℤ}
use cc_metric_collector.Prelude.Run.{Finishes, Finishes-value, ◌>>=◌, done, at}
use cc_metric_collector.Cache.{Period, Cache, next_period, rotate, period_at, get_period, tick}
use cc_metric_collector.Cache.Invariant.{
  IsValid, period_in_use, next_period_lt, set-IsValid, rotate-IsValid,
}

module _ {Time Msg : Type 0} where
  abbrev pub listed : List (Period Time Msg) → ℕ → List Msg
  listed ps i = elim (get_elem? ps i) [ none ↦ [] | some p ↦ p.metrics ]

  -- the whole list of an interval, the messages left from an earlier round included
  abbrev pub stored : Cache Time Msg → ℕ → List Msg
  stored c i = listed c.intervals i

  -- On a well-formed cache, `GetPeriod` with an index up to the current interval's goes that many
  -- intervals back.
  pub get_period_back :
      (now now' : Time) (i : ℕ) (c : Cache Time Msg)
      → IsValid c
      → i ≤ c.cur_period
      → get_period now now' (pos i) c
        ≡ (do p ← at c.intervals (c.cur_period - i); done (p.startstamp, p.stopstamp, p.metrics))
  unfolding get_period period_at ◌-ℤ◌
  get_period_back now now' i c v h = ground (arith, v.current)

  -- On a well-formed cache, `GetPeriod` gives an empty list and the two readings of the clock for
  -- every negative index and for every index above the current interval's, also one that is less
  -- than the number of intervals.
  pub get_period_outside :
      (now now' : Time) (i : ℤ) (c : Cache Time Msg)
      → IsValid c
      → (ltb_ℤ i (pos 0) ≡ true) ⊎ (ltb_ℤ (pos c.cur_period) i ≡ true)
      → get_period now now' i c ≡ done (now, now', [])
  unfolding get_period period_at ◌-ℤ◌
  get_period_outside now now' (pos i) c v h = ground (arith, v.current)
  get_period_outside now now' (negsuc i) c v h = ground (arith, v.current)

  listed-set :
      (xs : List (Period Time Msg)) (i j : ℕ) (p q : Period Time Msg)
      → at xs i ≡ done p
      → q.metrics ≡ p.metrics
      → listed (set xs i q) j ≡ listed xs j
  listed-set [] i j p q e h = cc
  listed-set (x ∷ xs) zero zero p q e h = ground arith
  listed-set (x ∷ xs) zero (suc j) p q e h = refl
  listed-set (x ∷ xs) (suc i) zero p q e h = refl
  listed-set (x ∷ xs) (suc i) (suc j) p q e h = listed-set xs i j p q e h

  -- Rotating changes the counter and the stamps of intervals, and no list.
  rotate-stored :
      (ts : Time) (c : Cache Time Msg) (j : ℕ)
      → IsValid c
      → Finishes (λ r. stored r.1 j ≡ stored c j) (rotate ts c)
  unfolding rotate
  rotate-stored ts c j v =
      let (p, e, hp) = period_in_use c c.cur_period v v.current in
      let p' = record p { num_metrics = 0; stopstamp = ts } in
      let left = record c { intervals = set c.intervals c.cur_period p' } in
      let (q, e', hq) =
        period_in_use left (next_period c) (set-IsValid c c.cur_period p' v (ground arith))
          (next_period_lt c v) in
      rw (e, e')
        (listed-set left.intervals (next_period c) j q
            (record q { startstamp = ts; stopstamp = ts }) e' refl
          ∙ listed-set c.intervals c.cur_period j p p' e refl)

  get_period-stored :
      (now now' : Time) (i : ℕ) (c : Cache Time Msg)
      → IsValid c
      → i ≤ c.cur_period
      → Finishes (λ b. b.2 ≡ stored c (c.cur_period - i)) (get_period now now' (pos i) c)
  get_period-stored now now' i c v h =
      let (p, e, _) = period_in_use c (c.cur_period - i) v (omega (arith, v.current)) in
      rw (get_period_back now now' i c v h) (ground arith)

  -- With two intervals or more, a tick on a well-formed cache does not panic and hands over the
  -- list of interval 1, whatever interval it leaves, and nothing where the ring goes round.
  pub tick_batch :
      (now now' ts : Time) (c : Cache Time Msg)
      → IsValid c
      → 2 ≤ c.num_periods
      → Finishes
          (λ r. r.0.2 ≡ (if ltb (c.cur_period + 1) c.num_periods then stored c 1 else []))
          (tick now now' ts c)
  unfolding tick next_period
  tick_batch now now' ts c v many =
      let (r, e, h) = Finishes-value _ (rotate ts c) (rotate-IsValid ts c v) in
      let kept : stored r.1 1 ≡ stored c 1 = rw e at (rotate-stored ts c 1 v) in
      elim (Bool-cases (ltb (c.cur_period + 1) c.num_periods)) [
        | inl more ↦
            let (b, e', q) =
              Finishes-value _ (get_period now now' (pos r.0) r.1)
                (get_period-stored now now' r.0 r.1 h.0 (ground arith)) in
            let back : r.1.cur_period - r.0 ≡ 1 = ground arith in
            rw (e, e', more) (q ∙ rw back kept)
        | inr last ↦
            let outside = get_period_outside now now' (pos r.0) r.1 h.0 (inr (ground arith)) in
            rw (e, outside, last)
      ]
