-- ===== src/Aggregator/Evaluation/Breaks.antt =====
-- What an error of an expression does to the aggregations behind it.
use cc_metric_collector.Prelude.{◌≡◌, ap, String, some, List, [], ◌∷◌, ◌++◌}
use cc_metric_collector.Prelude.Dict.{Dict}
use cc_metric_collector.Values.{err, Any}
use cc_metric_collector.Aggregator.{Var, Library, IntervalConfig}
use cc_metric_collector.Aggregator.Evaluation.{
  nothing_collected, collect, select_values, variables_for, eval_one, eval_functions,
}

module _ {F G Time Msg E : Type 0} (lib : Library F G Time Msg E) where
  -- the variables behind a list of aggregations
  unfoldable pub vars_after :
      List (IntervalConfig E) → Dict (Var F G Time Msg) → List Msg → Dict (Var F G Time Msg)
  vars_after [] vars ms = vars
  vars_after (g ∷ gs) vars ms = vars_after gs (variables_for lib g vars ms) ms

  -- If the expression of an aggregation that has values is an error, the messages of the interval
  -- are those of the aggregations before it: none of those behind it is evaluated.
  pub eval_functions-break :
      (gs : List (IntervalConfig E)) (f : IntervalConfig E) (fs : List (IntervalConfig E))
      (vars : Dict (Var F G Time Msg)) (start : Time) (ms : List Msg) (v : Any F G) (e : String)
      → select_values (collect lib f (vars_after gs vars ms) nothing_collected ms) ≡ some v
      → lib.evaluate f.function (variables_for lib f (vars_after gs vars ms) ms) ≡ err e
      → eval_functions lib (gs ++ f ∷ fs) vars start ms ≡ eval_functions lib gs vars start ms
  unfolding eval_functions eval_one vars_after
  eval_functions-break [] f fs vars start ms v e h k = rw (h, eval_one) (rw k)
  eval_functions-break (g ∷ gs) f fs vars start ms v e h k =
      ap (eval_one lib g vars start ms)
        (eval_functions-break gs f fs (variables_for lib g vars ms) start ms v e h k)
