-- ===== src/Aggregator/Evaluation.antt =====
-- internal/metricAggregator/metricAggregator.go: `Eval`, the evaluation at the end of an interval.
-- It returns the messages that it offers to its output channel, in order; an offer that no receiver
-- waits for is dropped by the channel.
pub mod Matches
pub mod Breaks
pub mod Panics
use mathlib.Core.Option
use text.Mathlib.Text.{◌==◌ as str_eq}
use cc_metric_collector.Prelude.{
  Bool, true, false, String, Option, none, some, List, [], ◌∷◌, ◌++◌, if◌then◌else◌,
}
use cc_metric_collector.Prelude.Int.{ℤ}
use cc_metric_collector.Prelude.Dict.{Dict, lookup, insert, delete}
use cc_metric_collector.Prelude.Text.{replace_char}
use cc_metric_collector.Prelude.Run.{Run, done, panic, ◌>>=◌}
use cc_metric_collector.Values.{
  Result, ok, err, Any, float64, float32, int, int32, int64, bool, string, float64s, float32s, ints,
  int32s, int64s, bools,
}
use cc_metric_collector.Aggregator.{
  Var, Library, IntervalConfig, Aggregator, value, time, message, messages,
}

-- The values of the matching messages, by type, and the messages themselves.
pub record Collected (F G Msg : Type 0) : Type 0 where
  pub values_float64 : List F
  pub values_float32 : List G
  pub values_int : List ℤ
  pub values_int32 : List ℤ
  pub values_int64 : List ℤ
  pub values_bool : List Bool
  pub matches : List Msg

module _ {F G Msg : Type 0} where
  abbrev pub nothing_collected : Collected F G Msg
  nothing_collected = record {
    values_float64 = [];
    values_float32 = [];
    values_int = [];
    values_int32 = [];
    values_int64 = [];
    values_bool = [];
    matches = [];
  }

  -- the type switch on a value; one of another type is only logged
  unfoldable pub add_value : Option (Any F G) → Collected F G Msg → Collected F G Msg
  add_value (some (float64 x)) c = record c { values_float64 = c.values_float64 ++ x ∷ [] }
  add_value (some (float32 x)) c = record c { values_float32 = c.values_float32 ++ x ∷ [] }
  add_value (some (int x)) c = record c { values_int = c.values_int ++ x ∷ [] }
  add_value (some (int32 x)) c = record c { values_int32 = c.values_int32 ++ x ∷ [] }
  add_value (some (int64 x)) c = record c { values_int64 = c.values_int64 ++ x ∷ [] }
  add_value (some (bool x)) c = record c { values_bool = c.values_bool ++ x ∷ [] }
  add_value _ c = c

  -- the switch that sets `values`: the first type with a value
  unfoldable pub select_values : Collected F G Msg → Option (Any F G)
  select_values c = elim c.values_float64 [
    | x ∷ xs ↦ some (float64s (x ∷ xs))
    | [] ↦ elim c.values_float32 [
      | x ∷ xs ↦ some (float32s (x ∷ xs))
      | [] ↦ elim c.values_int [
        | x ∷ xs ↦ some (ints (x ∷ xs))
        | [] ↦ elim c.values_int32 [
          | x ∷ xs ↦ some (int32s (x ∷ xs))
          | [] ↦ elim c.values_int64 [
            | x ∷ xs ↦ some (int64s (x ∷ xs))
            | [] ↦ elim c.values_bool [ x ∷ xs ↦ some (bools (x ∷ xs)) | [] ↦ none ]
          ]
        ]
      ]
    ]
  ]

module _ {F G : Type 0} where
  -- the types of results that a message is made of
  unfoldable pub has_case : Any F G → Bool
  has_case (float64 x) = true
  has_case (float32 x) = true
  has_case (int x) = true
  has_case (int64 x) = true
  has_case (string x) = true
  has_case _ = false

module _ {Msg : Type 0} where
  -- the loop of `copy_tags` over the messages for one key: the last value that is there
  unfoldable pub copy_last :
      (Msg → String → Option String) → String → List Msg → Dict String → Dict String
  copy_last get key [] out = out
  copy_last get key (m ∷ ms) out =
      copy_last get key ms (elim (get m key) [ none ↦ out | some v ↦ insert key v out ])

  -- `copy_tags`, and `copy_meta` with the other getter
  unfoldable pub copy_entries :
      (Msg → String → Option String) → Dict String → List Msg → Dict String → Dict String
  copy_entries get [] ms out = out
  copy_entries get ((key, v) ∷ entries) ms out =
      copy_entries get entries ms
        (if str_eq v "<copy>" then copy_last get key ms out else insert key v out)

module _ {F G Time Msg : Type 0} where
  -- the variables after the messages were collected: `values` only if there are some
  abbrev pub with_values :
      Option (Any F G) → Collected F G Msg → Dict (Var F G Time Msg) → Dict (Var F G Time Msg)
  with_values none c vars = insert "metrics" (messages c.matches) vars
  with_values (some v) c vars =
      insert "metrics" (messages c.matches) (insert "values" (value v) vars)

module _ {F G Time Msg E : Type 0} (lib : Library F G Time Msg E) where
  -- does the condition hold of a message? An error counts as no.
  unfoldable pub satisfies : IntervalConfig E → Dict (Var F G Time Msg) → Msg → Bool
  satisfies f vars m = elim (lib.eval_bool f.gval_cond (insert "metric" (message m) vars)) [
    | ok b ↦ b
    | err e ↦ false
  ]

  unfoldable pub collect_one :
      IntervalConfig E → Dict (Var F G Time Msg) → Collected F G Msg → Msg → Collected F G Msg
  collect_one f vars c m =
      if satisfies f vars m
      then (let c' = add_value (lib.get_field m "value") c in
          record c' { matches = c'.matches ++ m ∷ [] })
      else c

  -- the loop over the messages; the variable `metric` is set anew for each
  unfoldable pub collect :
      IntervalConfig E → Dict (Var F G Time Msg) → Collected F G Msg → List Msg → Collected F G Msg
  collect f vars c [] = c
  collect f vars c (m ∷ ms) = collect f vars (collect_one f vars c m) ms

  -- The type switch on the result. With another type, or if the message cannot be made, `m` stays
  -- nil, and its method `ToLineProtocol` panics in the debug output.
  unfoldable pub result_message :
      IntervalConfig E → Dict String → Dict String → Time → Any F G → Run Msg
  result_message f tags meta start v = elim (has_case v) [
    | false ↦ panic
    | true ↦ elim (lib.new_message f.name tags meta v start) [ ok m ↦ done m | err e ↦ panic ]
  ]

  -- the variables of the expression of an aggregation
  unfoldable pub variables_for :
      IntervalConfig E → Dict (Var F G Time Msg) → List Msg → Dict (Var F G Time Msg)
  variables_for f vars metrics =
      let c = collect f vars nothing_collected metrics in with_values (select_values c) c vars

  -- One aggregation, with what the loop does behind it. An error of the expression is a `break`:
  -- it ends the loop.
  unfoldable pub eval_one :
      IntervalConfig E → Dict (Var F G Time Msg) → Time → List Msg → Run (List Msg) → Run (List Msg)
  eval_one f vars start metrics rest =
      let c = collect f vars nothing_collected metrics in
      elim (select_values c) [
        | none ↦ rest
        | some v ↦ elim (lib.evaluate f.function (variables_for f vars metrics)) [
          | err e ↦ done []
          | ok r ↦ do
            m ←
                result_message f (copy_entries lib.get_tag f.tags c.matches [])
                  (copy_entries lib.get_meta f.meta c.matches []) start r
            ms ← rest
            done (m ∷ ms)
        ]
      ]

  -- the loop over the aggregations, whose variables stay for those behind
  unfoldable pub eval_functions :
      List (IntervalConfig E) → Dict (Var F G Time Msg) → Time → List Msg → Run (List Msg)
  eval_functions [] vars start metrics = done []
  eval_functions (f ∷ fs) vars start metrics =
      eval_one f vars start metrics (eval_functions fs (variables_for f vars metrics) start metrics)

  -- `Eval`: the messages offered to the output
  unfoldable pub eval : Aggregator F G Time Msg E → Time → Time → List Msg → Run (List Msg)
  eval c start end metrics =
      eval_functions c.functions
        (insert "endtime" (time end) (insert "starttime" (time start) c.constants)) start metrics
