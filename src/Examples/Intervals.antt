-- ===== src/Examples/Intervals.antt =====
-- A cache of messages that are numbers, each its own time.
use cc_metric_collector.Prelude.{
  ℕ, ◌+◌, ◌≡◌, refl, some, List, [], ◌∷◌, ◌++◌, map, ltb, if◌then◌else◌, inr, arith, length, take,
  drop,
}
use cc_metric_collector.Prelude.Int.{pos}
use cc_metric_collector.Prelude.Run.{Finishes, done}
use cc_metric_collector.Cache.{Cache, init, add, tick, get_period, next_period, run, handed_over}
use cc_metric_collector.Cache.Invariant.{IsValid, init-IsValid, add-IsValid, tick-IsValid}
use cc_metric_collector.Cache.Periods.{get_period_outside, tick_batch, stored}
use cc_metric_collector.Cache.Single.{
  Input, arrive, expire, event, batches, run-batches, run_second_interval,
}
use cc_metric_collector.Cache.Slices.{slice_shows, held, run-slice_shows}

abbrev own_time : ℕ → ℕ
own_time m = m

abbrev inputs : List (Input ℕ ℕ)
inputs = arrive 3 ∷ arrive 4 ∷ expire 9 9 5 ∷ arrive 6 ∷ expire 9 9 10 ∷ []

abbrev three : Cache ℕ ℕ
three = init 0 3

three-IsValid : IsValid three
three-IsValid = init-IsValid 0 3 (omega arith)

run-batches_example :
    Finishes (λ r. r.0 ≡ batches inputs [] []) (run own_time (map event inputs) (init 0 1))
run-batches_example = run-batches own_time 0 inputs

run_second_interval_example :
    Finishes
      (λ r. r.0 ≡ handed_over (5, 5, 3 ∷ 4 ∷ []) ++ handed_over (10, 10, 6 ∷ 4 ∷ []))
      (run own_time
        (map event (
          map arrive (3 ∷ 4 ∷ [])
          ++ (expire 5 5 5 ∷ (map arrive (6 ∷ []) ++ expire 10 10 10 ∷ []))))
        (init 0 1))
run_second_interval_example = run_second_interval own_time 0 (3 ∷ 4 ∷ []) (6 ∷ []) 5 10

add-IsValid_example : Finishes IsValid (add own_time (some 7) three)
add-IsValid_example = add-IsValid own_time 7 three three-IsValid

tick-IsValid_example :
    Finishes
      (λ r. IsValid r.1 × (r.1.cur_period ≡ next_period three) × (r.1.num_periods ≡ 3))
      (tick 8 8 9 three)
unfolding init
tick-IsValid_example = tick-IsValid 8 8 9 three three-IsValid

get_period_outside_example : get_period 8 9 (pos 1) three ≡ done (8, 9, [])
unfolding init
get_period_outside_example = get_period_outside 8 9 (pos 1) three three-IsValid (inr refl)

tick_batch_example :
    Finishes
      (λ r. r.0.2 ≡ (if ltb (three.cur_period + 1) three.num_periods then stored three 1 else []))
      (tick 8 8 9 three)
unfolding init
tick_batch_example = tick_batch 8 8 9 three three-IsValid (omega arith)

abbrev two_messages : List (Input ℕ ℕ)
two_messages = arrive 3 ∷ arrive 4 ∷ []

run-slice_shows_example :
    Finishes
      (λ r.
        (r.0 ≡ batches two_messages [] [] ++ handed_over (5, 5, held two_messages [] []))
        × (slice_shows 0 (length (held two_messages [] [])) r.1
            ≡ take
                (length (held two_messages [] []))
                ((6 ∷ []) ++ drop 1 (held two_messages [] []))))
      (run own_time (map event (two_messages ++ expire 9 9 5 ∷ map arrive (6 ∷ []))) (init 0 1))
run-slice_shows_example = run-slice_shows own_time 0 two_messages 9 9 5 (6 ∷ [])
