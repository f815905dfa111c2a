-- ===== src/Cache/Single.antt =====
-- A cache with one interval, against an abstract machine over two lists.
use cc_metric_collector.Prelude.{
  ◌≡◌, refl, some, List, [], ◌∷◌, ◌++◌, map, arith, length, length-append, drop, drop-nil,
  drop-drop_one, ◌∙◌, append_assoc, append-nil,
}
use cc_metric_collector.Prelude.Int.{◌-ℤ◌}
use cc_metric_collector.Prelude.Run.{Finishes, Finishes-value}
use cc_metric_collector.Cache.{
  Period, Cache, Event, message, tick_at, init, next_period, rotate, period_at, get_period, tick,
  store, add, handed_over, step, run,
}
use cc_metric_collector.Cache.Buffer.{Holds, store-Holds}

module _ {Time Msg : Type 0} where
  -- a cache of one interval with these new and old messages; the ring's spare interval is never used
  pub record IsSingle (c : Cache Time Msg) (fresh stale : List Msg) : Type 0 where
    pub shape :
        (p : Period Time Msg) × (q : Period Time Msg) × (c
          ≡ record { num_periods = 1; cur_period = 0; intervals = p ∷ q ∷ [] })
        × Holds p fresh stale

  -- Adding a message appends it to the new messages, over the oldest of the old ones.
  pub add-IsSingle :
      (time_of : Msg → Time) (m : Msg) (c : Cache Time Msg) (fresh stale : List Msg)
      → IsSingle c fresh stale
      → Finishes (λ c'. IsSingle c' (fresh ++ m ∷ []) (drop 1 stale)) (add time_of (some m) c)
  unfolding add
  add-IsSingle time_of m c fresh stale s =
      let (p, q, e, h) = s.shape in
      let (p', e', h') =
        Finishes-value _ (store time_of m p) (store-Holds time_of m p fresh stale h) in
      rw (e, e') (record { shape = (p', q, refl, h') })

  -- A tick hands over the new messages and the old ones behind them, all stamped with the tick's
  -- own time, and keeps them all as old messages.
  pub tick-IsSingle :
      (now now' ts : Time) (c : Cache Time Msg) (fresh stale : List Msg)
      → IsSingle c fresh stale
      → Finishes
          (λ r. (r.0 ≡ (ts, ts, fresh ++ stale)) × IsSingle r.1 [] (fresh ++ stale))
          (tick now now' ts c)
  unfolding tick rotate next_period get_period period_at ◌-ℤ◌
  tick-IsSingle now now' ts c fresh stale s =
      let (p, q, e, h) = s.shape in
      rw e (
        rw h.listed,
        record {
          shape = (
            record p { num_metrics = 0; stopstamp = ts; startstamp = ts },
            q,
            refl,
            record {
              listed = h.listed;
              counted = refl;
              sized = omega (arith, h.sized, length-append fresh stale);
            },
          );
        },
      )

-- The events of a run with messages that are there.
pub data Input (Time Msg : Type 0) : Type 0 where
  arrive : Msg → Input Time Msg
  expire : Time → Time → Time → Input Time Msg

module _ {Time Msg : Type 0} where
  abbrev pub event : Input Time Msg → Event Time Msg
  event (arrive m) = message (some m)
  event (expire now now' ts) = tick_at now now' ts

  -- The abstract machine: the batches over a sequence of events, from the new and the old messages. A
  -- batch gets the time of its tick as its start too: with one interval, the one that a tick enters is
  -- the one that it leaves, and it is stamped before it is read.
  unfoldable pub batches :
      List (Input Time Msg) → List Msg → List Msg → List (Time × Time × List Msg)
  batches [] fresh stale = []
  batches (arrive m ∷ es) fresh stale = batches es (fresh ++ m ∷ []) (drop 1 stale)
  batches (expire now now' ts ∷ es) fresh stale =
      handed_over (ts, ts, fresh ++ stale) ++ batches es [] (fresh ++ stale)

  run_refines :
      (time_of : Msg → Time) (es : List (Input Time Msg)) (c : Cache Time Msg)
      (fresh stale : List Msg)
      → IsSingle c fresh stale
      → Finishes (λ r. r.0 ≡ batches es fresh stale) (run time_of (map event es) c)
  unfolding run step batches
  run_refines time_of [] c fresh stale s = refl
  run_refines time_of (arrive m ∷ es) c fresh stale s =
      let (c', e, s') =
        Finishes-value _ (add time_of (some m) c) (add-IsSingle time_of m c fresh stale s) in
      let (r, e', h) =
        Finishes-value _ (run time_of (map event es) c') (run_refines time_of es c' _ _ s') in
      rw (e, e') h
  run_refines time_of (expire now now' ts ∷ es) c fresh stale s =
      let (t, e, s') =
        Finishes-value _ (tick now now' ts c) (tick-IsSingle now now' ts c fresh stale s) in
      let (r, e', h) =
        Finishes-value _ (run time_of (map event es) t.1) (run_refines time_of es t.1 _ _ s'.1) in
      rw (e, e', s'.0, h)

  pub init-IsSingle : (zero_time : Time) → IsSingle (init {Msg = Msg} zero_time 1) [] []
  unfolding init
  init-IsSingle zero_time = record {
    shape = (_, _, refl, record { listed = refl; counted = refl; sized = refl });
  }

  -- From a new cache of one interval, every sequence of messages and ticks runs without a panic,
  -- and the aggregator gets exactly the batches of the abstract machine: at each tick, if there are
  -- any, the new messages and behind them the old ones. The start and the end of a batch are both the
  -- time of the tick that ends the interval, also where the tick before it was earlier.
  pub run-batches :
      (time_of : Msg → Time) (zero_time : Time) (es : List (Input Time Msg))
      → Finishes (λ r. r.0 ≡ batches es [] []) (run time_of (map event es) (init zero_time 1))
  run-batches time_of zero_time es = run_refines time_of es _ [] [] (init-IsSingle zero_time)

  arrivals :
      (ms : List Msg) (es : List (Input Time Msg)) (fresh stale : List Msg)
      → batches (map arrive ms ++ es) fresh stale
        ≡ batches es (fresh ++ ms) (drop (length ms) stale)
  unfolding batches
  arrivals [] es fresh stale = rw append-nil
  arrivals (m ∷ ms) es fresh stale =
      arrivals ms es (fresh ++ m ∷ []) (drop 1 stale)
      ∙ rw (append_assoc, drop-drop_one (length ms) stale)

  batches_second :
      (xs ys : List Msg) (t u : Time)
      → batches (map arrive xs ++ (expire t t t ∷ (map arrive ys ++ expire u u u ∷ []))) [] []
        ≡ handed_over (t, t, xs) ++ handed_over (u, u, ys ++ drop (length ys) xs)
  unfolding batches
  batches_second xs ys t u =
      rw (arrivals xs (expire t t t ∷ (map arrive ys ++ expire u u u ∷ [])) [] []) (
        rw (drop-nil (length xs), append-nil xs, arrivals ys (expire u u u ∷ []) [] xs)
          (rw append-nil))

  -- After an interval with the messages `xs`, the batch of the next one is its messages `ys`
  -- and behind them those of `xs` that they have not written over. Each batch starts and ends at the
  -- time of the tick that ends its interval: the second one starts at `u`, not at `t`.
  pub run_second_interval :
      (time_of : Msg → Time) (zero_time : Time) (xs ys : List Msg) (t u : Time)
      → Finishes
          (λ r. r.0 ≡ handed_over (t, t, xs) ++ handed_over (u, u, ys ++ drop (length ys) xs))
          (run time_of
            (map event (map arrive xs ++ (expire t t t ∷ (map arrive ys ++ expire u u u ∷ []))))
            (init zero_time 1))
  run_second_interval time_of zero_time xs ys t u = rw (batches_second xs ys t u) at (
      run-batches time_of zero_time
        (map arrive xs ++ (expire t t t ∷ (map arrive ys ++ expire u u u ∷ []))))
