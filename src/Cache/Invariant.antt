-- ===== src/Cache/Invariant.antt =====
-- Well-formed caches: the ring has one interval more than it uses, the index is in the part in
-- use, and the counters of each interval agree with its list.
use cc_metric_collector.Prelude.{
  ℕ, ◌+◌, ◌≤◌, ◌<◌, ◌≡◌, some, arith, length, length-append, length-set, length-replicate, All,
  All-set, All-get_elem?, All-replicate, get_elem?-some, set, [], ◌∷◌, ◌∙◌, lt→ltb, refl,
  Bool-cases, ltb, ltb→lt, inl, inr,
}
use cc_metric_collector.Prelude.Int.{ℤ, pos, negsuc, ◌-ℤ◌}
use cc_metric_collector.Prelude.Run.{Finishes, Finishes-value, done, at}
use cc_metric_collector.Cache.{
  Period, Cache, empty_period, init, next_period, rotate, period_at, get_period, tick, store, add,
}

module _ {Time Msg : Type 0} where
  pub record IsPeriod (p : Period Time Msg) : Type 0 where
    pub sized : p.size_metrics ≡ length p.metrics
    pub within : p.num_metrics ≤ p.size_metrics

  pub record IsValid (c : Cache Time Msg) : Type 0 where
    pub ring : length c.intervals ≡ c.num_periods + 1
    pub current : c.cur_period < c.num_periods
    pub periods : All IsPeriod c.intervals

  pub init-IsValid : (zero_time : Time) (n : ℕ) → 0 < n → IsValid (init {Msg = Msg} zero_time n)
  unfolding init
  init-IsValid zero_time n h = record {
    ring = length-replicate (n + 1) (empty_period zero_time);
    current = h;
    periods = All-replicate IsPeriod (n + 1) (empty_period zero_time) (omega arith);
  }

  store-IsPeriod :
      (time_of : Msg → Time) (m : Msg) (p : Period Time Msg)
      → IsPeriod p
      → Finishes IsPeriod (store time_of m p)
  unfolding store
  store-IsPeriod time_of m p h = ground (
    arith,
    get_elem?-some p.metrics p.num_metrics,
    length-set p.metrics p.num_metrics m,
    length-append p.metrics (m ∷ []),
  )

  -- the interval at an index in use
  pub period_in_use :
      (c : Cache Time Msg) (i : ℕ)
      → IsValid c
      → i < c.num_periods
      → (p : Period Time Msg) × (at c.intervals i ≡ done p) × IsPeriod p
  period_in_use c i v h =
      let (p, e) = get_elem?-some c.intervals i (omega (arith, v.ring)) in
      (p, rw e, All-get_elem? IsPeriod c.intervals i v.periods e)

  pub set-IsValid :
      (c : Cache Time Msg) (i : ℕ) (p : Period Time Msg)
      → IsValid c
      → IsPeriod p
      → IsValid (record c { intervals = set c.intervals i p })
  set-IsValid c i p v h = record {
    ring = length-set c.intervals i p ∙ v.ring;
    current = v.current;
    periods = All-set IsPeriod c.intervals i p v.periods h;
  }

  -- Adding a message to a well-formed cache does not panic and leaves a well-formed cache.
  pub add-IsValid :
      (time_of : Msg → Time) (m : Msg) (c : Cache Time Msg)
      → IsValid c
      → Finishes IsValid (add time_of (some m) c)
  unfolding add
  add-IsValid time_of m c v =
      let (p, e, h) = period_in_use c c.cur_period v v.current in
      let (p', e', h') =
        Finishes-value IsPeriod (store time_of m p) (store-IsPeriod time_of m p h) in
      rw (lt→ltb _ _ v.current, e, e') (set-IsValid c c.cur_period p' v h')

  pub next_period_lt : (c : Cache Time Msg) → IsValid c → next_period c < c.num_periods
  unfolding next_period
  next_period_lt c v = ground arith

  -- Rotating finishes in a well-formed cache whose current interval is the next of the ring, and
  -- returns the index that it left.
  pub rotate-IsValid :
      (ts : Time) (c : Cache Time Msg)
      → IsValid c
      → Finishes
          (λ r.
            IsValid r.1
            × (r.0 ≡ c.cur_period)
            × (r.1.cur_period ≡ next_period c)
            × (r.1.num_periods ≡ c.num_periods))
          (rotate ts c)
  unfolding rotate
  rotate-IsValid ts c v =
      let (p, e, hp) = period_in_use c c.cur_period v v.current in
      let left = set c.intervals c.cur_period (record p { num_metrics = 0; stopstamp = ts }) in
      let v' =
        set-IsValid c c.cur_period (record p { num_metrics = 0; stopstamp = ts }) v
          (ground arith) in
      let (q, e', hq) =
        period_in_use (record c { intervals = left }) (next_period c) v' (next_period_lt c v) in
      let w =
        set-IsValid (record c { intervals = left }) (next_period c)
          (record q { startstamp = ts; stopstamp = ts }) v' (ground arith) in
      rw (e, e')
        (
          record { ring = w.ring; current = next_period_lt c v; periods = w.periods },
          refl,
          refl,
          refl,
        )

  period_at-Finishes :
      (now now' : Time) (i : ℤ) (c : Cache Time Msg)
      → IsValid c
      → Finishes (λ _. Unit {0}) (period_at now now' i c)
  unfolding period_at
  period_at-Finishes now now' (pos k) c v = elim (Bool-cases (ltb k c.num_periods)) [
    | inl b ↦ let (p, e, hp) = period_in_use c k v (ltb→lt _ _ b) in rw (b, e) tt
    | inr b ↦ rw b tt
  ]
  period_at-Finishes now now' (negsuc k) c v = tt

  -- `GetPeriod` does not panic on a well-formed cache, whatever the index.
  get_period-Finishes :
      (now now' : Time) (i : ℤ) (c : Cache Time Msg)
      → IsValid c
      → Finishes (λ _. Unit {0}) (get_period now now' i c)
  unfolding get_period
  get_period-Finishes now now' i c v = ground (
    arith,
    period_at-Finishes now now' (pos c.num_periods -ℤ (pos c.cur_period -ℤ i)) c v,
    period_at-Finishes now now' (pos c.cur_period -ℤ i) c v,
  )

  -- A tick on a well-formed cache does not panic, and leaves a well-formed cache with as many
  -- intervals, whose current interval is the next of the ring.
  pub tick-IsValid :
      (now now' ts : Time) (c : Cache Time Msg)
      → IsValid c
      → Finishes
          (λ r. IsValid r.1 × (r.1.cur_period ≡ next_period c) × (r.1.num_periods ≡ c.num_periods))
          (tick now now' ts c)
  unfolding tick
  tick-IsValid now now' ts c v =
      let (r, e, h) = Finishes-value _ (rotate ts c) (rotate-IsValid ts c v) in
      let (b, e', _) =
        Finishes-value _ (get_period now now' (pos r.0) r.1)
          (get_period-Finishes now now' (pos r.0) r.1 h.0) in
      rw (e, e') (h.0, h.2, h.3)
