-- ===== src/Examples/Aggregations.antt =====
-- An aggregator whose messages are values, over an expression language with one result.
use cc_metric_collector.Prelude.{
  ℕ, ◌≡◌, refl, ◌⊎◌, inl, String, true, none, some, List, [], ◌∷◌, ◌++◌, filter,
}
use cc_metric_collector.Prelude.Int.{ℤ, pos}
use cc_metric_collector.Prelude.Run.{panic}
use cc_metric_collector.Values.{Result, ok, err, Any, bool, int, int32, ints}
use cc_metric_collector.Aggregator.{
  Library, IntervalConfig, Aggregator, add_aggregation, double_quotes,
}
use cc_metric_collector.Aggregator.Evaluation.{
  nothing_collected, collect, satisfies, eval_functions, has_case, collect_one, select_values,
  add_value,
}
use cc_metric_collector.Aggregator.Table.{find}
use cc_metric_collector.Aggregator.Table.Changes.{IsAdded, add_aggregation-find}
use cc_metric_collector.Aggregator.Evaluation.Matches.{Holds, collect-Holds}
use cc_metric_collector.Aggregator.Evaluation.Panics.{eval_functions-panics}
use cc_metric_collector.Aggregator.Evaluation.Breaks.{vars_after, eval_functions-break}

abbrev pub Value : Type 0
Value = Any ℤ ℤ

-- every expression has the same result
abbrev pub language : Result Value → Library ℤ ℤ ℕ Value String
language answer = record {
  compile = λ s. ok s;
  eval_bool = λ e params. ok true;
  evaluate = λ code params. answer;
  get_field = λ m key. some m;
  get_tag = λ m key. none;
  get_meta = λ m key. none;
  new_message = λ name tags meta v t. ok v;
}

abbrev ones : Library ℤ ℤ ℕ Value String
ones = language (ok (int (pos 1)))

abbrev load : IntervalConfig String
load = record {
  name = "load_sum";
  function = "sum(values)";
  condition = "true";
  tags = [];
  meta = [];
  gval_cond = "true";
  gval_func = "sum(values)";
}

abbrev one_function : Aggregator ℤ ℤ ℕ Value String
one_function = record { functions = load ∷ []; constants = [] }

abbrev samples : List Value
samples = int (pos 3) ∷ int32 (pos 4) ∷ int (pos 5) ∷ []

collect-Holds_example :
    Holds ones
      (collect ones load [] nothing_collected samples)
      (filter (satisfies ones load []) samples)
collect-Holds_example = collect-Holds ones load [] samples

eval_functions-panics_example :
    eval_functions (language (ok (bool true))) ([] ++ load ∷ load ∷ []) [] 0 (int (pos 3) ∷ [])
    ≡ panic
unfolding vars_after select_values collect collect_one satisfies add_value has_case
eval_functions-panics_example =
    eval_functions-panics (language (ok (bool true))) [] load (load ∷ []) [] 0 (int (pos 3) ∷ [])
      (ints (pos 3 ∷ [])) (bool true) tt refl refl (inl refl)

eval_functions-break_example :
    eval_functions (language (err "no value")) ([] ++ load ∷ load ∷ []) [] 0 (int (pos 3) ∷ [])
    ≡ eval_functions (language (err "no value")) [] [] 0 (int (pos 3) ∷ [])
unfolding vars_after select_values collect collect_one satisfies add_value
eval_functions-break_example =
    eval_functions-break (language (err "no value")) [] load (load ∷ []) [] 0 (int (pos 3) ∷ [])
      (ints (pos 3 ∷ [])) "no value" refl refl

add_aggregation-find_example :
    (((add_aggregation ones "m" "max(values)" "true" [] [] one_function).0 ≡ ok tt)
      × IsAdded ones "m" "max(values)" "true" [] []
          (load ∷ [])
          (add_aggregation ones "m" "max(values)" "true" [] [] one_function).1.functions)
    ⊎ ((e : String) × (add_aggregation ones "m" "max(values)" "true" [] [] one_function
          ≡ (err e, one_function))
        × ((ones.compile (double_quotes "true") ≡ err e)
            ⊎ (ones.compile (double_quotes "max(values)") ≡ err e)))
add_aggregation-find_example =
    add_aggregation-find ones "m" "max(values)" "true" [] [] one_function (unfold find in refl, tt)
