-- ===== src/Cache/Slices.antt =====
-- internal/metricRouter/metricCache.go: what the slice that a tick hands over shows. `GetPeriod` returns
-- the slice of the interval without a copy, and the goroutine gives the lock back before `Eval` reads it.
-- `Add` assigns to the elements of the same array, up to the length of the slice; only then does it
-- append, which changes no element of the slice.
use cc_metric_collector.Prelude.{
  ℕ, ◌≡◌, refl, sym, ap, ◌∙◌, some, List, [], ◌∷◌, ◌++◌, map, length, take, drop, append_assoc,
  append-nil, drop-drop_one,
}
use cc_metric_collector.Prelude.Run.{Finishes, Finishes-value}
use cc_metric_collector.Cache.{Cache, add, tick, handed_over, init, step, run}
use cc_metric_collector.Cache.Periods.{stored}
use cc_metric_collector.Cache.Single.{
  Input, arrive, expire, event, batches, IsSingle, add-IsSingle, tick-IsSingle, init-IsSingle,
}

module _ {Time Msg : Type 0} where
  -- What a slice of an interval's list, of the given length, shows in a later state of the cache, up to
  -- the next tick. Until then `Add` assigns to elements of the slice and appends only behind them, so that
  -- the first elements of the list are those of the slice also where `append` moves the list.
  unfoldable pub slice_shows : ℕ → ℕ → Cache Time Msg → List Msg
  slice_shows index len c = take len (stored c index)

  -- the messages in the interval after a sequence of events, the new ones first
  unfoldable pub held : List (Input Time Msg) → List Msg → List Msg → List Msg
  held [] fresh stale = fresh ++ stale
  held (arrive m ∷ es) fresh stale = held es (fresh ++ m ∷ []) (drop 1 stale)
  held (expire now now' ts ∷ es) fresh stale = held es [] (fresh ++ stale)

  stored_single :
      (c : Cache Time Msg) (fresh stale : List Msg)
      → IsSingle c fresh stale
      → stored c 0 ≡ fresh ++ stale
  stored_single c fresh stale s = let (p, q, e, h) = s.shape in rw e h.listed

  module _ (time_of : Msg → Time) where
    arrivals-IsSingle :
        (ms : List Msg) (c : Cache Time Msg) (fresh stale : List Msg)
        → IsSingle c fresh stale
        → Finishes
            (λ r. (r.0 ≡ []) × IsSingle r.1 (fresh ++ ms) (drop (length ms) stale))
            (run time_of (map event (map arrive ms)) c)
    unfolding run step
    arrivals-IsSingle [] c fresh stale s = (refl, rw (append-nil fresh) s)
    arrivals-IsSingle (m ∷ ms) c fresh stale s =
        let (c', e, s') =
          Finishes-value _ (add time_of (some m) c) (add-IsSingle time_of m c fresh stale s) in
        let (r, e', h) =
          Finishes-value _ (run time_of (map event (map arrive ms)) c')
            (arrivals-IsSingle ms c' _ _ s') in
        rw (e, e')
          (h.0, rw (append_assoc fresh (m ∷ []) ms, drop-drop_one (length ms) stale) at h.1)

    -- the batch of a tick, and what its slice shows after the messages that arrive behind the tick
    abbrev Overwritten :
        Time
        → List (Time × Time × List Msg)
        → List Msg
        → List Msg
        → List (Time × Time × List Msg) × Cache Time Msg
        → Type 0
    Overwritten ts before batch ms r =
        (r.0 ≡ before ++ handed_over (ts, ts, batch))
        × (slice_shows 0 (length batch) r.1 ≡ take (length batch) (ms ++ drop (length ms) batch))

    run-Overwritten :
        (es : List (Input Time Msg)) (now now' ts : Time) (ms : List Msg) (c : Cache Time Msg)
        (fresh stale : List Msg)
        → IsSingle c fresh stale
        → Finishes
            (Overwritten ts (batches es fresh stale) (held es fresh stale) ms)
            (run time_of (map event (es ++ expire now now' ts ∷ map arrive ms)) c)
    unfolding run step batches held slice_shows
    run-Overwritten [] now now' ts ms c fresh stale s =
        let (t, e, same) =
          Finishes-value _ (tick now now' ts c) (tick-IsSingle now now' ts c fresh stale s) in
        let (r, e', h) =
          Finishes-value _ (run time_of (map event (map arrive ms)) t.1)
            (arrivals-IsSingle ms t.1 [] (fresh ++ stale) same.1) in
        rw (e, e', same.0, h.0)
          (append-nil _, ap (take (length (fresh ++ stale))) (stored_single r.1 _ _ h.1))
    run-Overwritten (arrive m ∷ es) now now' ts ms c fresh stale s =
        let (c', e, s') =
          Finishes-value _ (add time_of (some m) c) (add-IsSingle time_of m c fresh stale s) in
        let (r, e', h) =
          Finishes-value _ (run time_of (map event (es ++ expire now now' ts ∷ map arrive ms)) c')
            (run-Overwritten es now now' ts ms c' _ _ s') in
        rw (e, e') h
    run-Overwritten (expire n n' u ∷ es) now now' ts ms c fresh stale s =
        let (t, e, same) =
          Finishes-value _ (tick n n' u c) (tick-IsSingle n n' u c fresh stale s) in
        let (r, e', h) =
          Finishes-value _ (run time_of (map event (es ++ expire now now' ts ∷ map arrive ms)) t.1)
            (run-Overwritten es now now' ts ms t.1 _ _ same.1) in
        rw (e, e', same.0)
          (
            ap (λ xs. handed_over (u, u, fresh ++ stale) ++ xs) h.0
                ∙ sym (
                    append_assoc (handed_over (u, u, fresh ++ stale))
                      (batches es [] (fresh ++ stale))
                      (handed_over (ts, ts, held es [] (fresh ++ stale)))),
            h.1,
          )

    -- After any sequence of events of a new cache of one interval, a tick hands over a slice of all the
    -- messages in the interval, stamped with its own time at both ends. The messages that arrive behind
    -- the tick, which gave the lock back, and before another tick, take the first places of that slice: `Eval`, which still reads
    -- it, finds messages of the new interval in place of those of the interval that it evaluates.
    pub run-slice_shows :
        (zero_time : Time) (es : List (Input Time Msg)) (now now' ts : Time) (ms : List Msg)
        → Finishes
            (λ r.
              (r.0 ≡ batches es [] [] ++ handed_over (ts, ts, held es [] []))
              × (slice_shows 0 (length (held es [] [])) r.1
                  ≡ take (length (held es [] [])) (ms ++ drop (length ms) (held es [] []))))
            (run time_of (map event (es ++ expire now now' ts ∷ map arrive ms)) (init zero_time 1))
    run-slice_shows zero_time es now now' ts ms =
        run-Overwritten es now now' ts ms (init zero_time 1) [] [] (init-IsSingle zero_time)
