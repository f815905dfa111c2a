-- ===== src/Aggregator.antt =====
-- internal/metricAggregator/metricAggregator.go: the table of interval aggregations, and the
-- conditions of the router. The expression language gval and the messages of cc-lib are parameters,
-- in the record `Library`. Methods return the new state. Log output is left out.
pub mod Table
pub mod Conditions
pub mod Constants
pub mod Evaluation
use mathlib.Core.Option
use text.Mathlib.Text.{◌==◌ as str_eq}
use cc_metric_collector.Prelude.{
  Bool, true, false, String, Option, none, some, List, [], ◌∷◌, ◌++◌, if◌then◌else◌,
}
use cc_metric_collector.Prelude.Int.{ℤ}
use cc_metric_collector.Prelude.Dict.{Dict, lookup, insert, delete}
use cc_metric_collector.Prelude.Text.{replace_char}
use cc_metric_collector.Prelude.Run.{Run, done, panic, ◌>>=◌}
use cc_metric_collector.Values.{
  Result, ok, err, Any, float64, float32, int, int32, int64, bool, string, float64s, float32s, ints,
  int32s, int64s, bools,
}

-- a value of the variables that expressions are evaluated with
pub data Var (F G Time Msg : Type 0) : Type 0 where
  value : Any F G → Var F G Time Msg
  time : Time → Var F G Time Msg
  message : Msg → Var F G Time Msg
  messages : List Msg → Var F G Time Msg

-- What the aggregator calls of gval (with its own functions) and of cc-lib.
pub record Library (F G Time Msg E : Type 0) : Type 0 where
  pub compile : String → Result E  -- NewEvaluable
  pub eval_bool : E → Dict (Var F G Time Msg) → Result Bool  -- EvalBool
  pub evaluate : String → Dict (Var F G Time Msg) → Result (Any F G)  -- gval.Evaluate
  pub get_field : Msg → String → Option (Any F G)
  pub get_tag : Msg → String → Option String
  pub get_meta : Msg → String → Option String
  pub new_message : String → Dict String → Dict String → Any F G → Time → Result Msg

pub record IntervalConfig (E : Type 0) : Type 0 where
  pub name : String
  pub function : String
  pub condition : String
  pub tags : Dict String
  pub meta : Dict String
  pub gval_cond : E
  pub gval_func : E

pub record Aggregator (F G Time Msg E : Type 0) : Type 0 where
  pub functions : List (IntervalConfig E)
  pub constants : Dict (Var F G Time Msg)

module _ {E : Type 0} where
  -- the loop of `AddAggregation`: overwrite the first entry of the name, or append
  unfoldable pub upsert : IntervalConfig E → List (IntervalConfig E) → List (IntervalConfig E)
  upsert new [] = new ∷ []
  upsert new (agg ∷ aggs) =
      let rest = agg ∷ upsert new aggs in if str_eq agg.name new.name then new ∷ aggs else rest

  -- `slices.IndexFunc` and the removal at that index; `none` if there is no entry of the name
  unfoldable pub remove : String → List (IntervalConfig E) → Option (List (IntervalConfig E))
  remove name [] = none
  remove name (agg ∷ aggs) =
      let rest = Option.map (λ left. agg ∷ left) (remove name aggs) in
      if str_eq agg.name name then some aggs else rest

-- strings.ReplaceAll(s, "'", "\"")
unfoldable pub double_quotes : String → String
double_quotes s = replace_char "'" "\"" s

-- the rewriting of a condition of the router: "'" to "\"", then "%" to "\\"
unfoldable pub gval_text : String → String
gval_text condition = replace_char "%" "\\" (replace_char "'" "\"" condition)

module _ {F G Time Msg E : Type 0} (lib : Library F G Time Msg E) where
  -- both expressions are compiled before the table is changed
  unfoldable pub add_aggregation :
      String
      → String
      → String
      → Dict String
      → Dict String
      → Aggregator F G Time Msg E
      → Result (Unit {0}) × Aggregator F G Time Msg E
  add_aggregation name function condition tags meta c =
      let newfunc = double_quotes function in
      let newcond = double_quotes condition in
      elim (lib.compile newcond) [
        | err e ↦ (err e, c)
        | ok gval_cond ↦ elim (lib.compile newfunc) [
          | err e ↦ (err e, c)
          | ok gval_func ↦ (
            ok tt,
            record c {
              functions =
                  upsert
                    (record {
                      name = name;
                      function = newfunc;
                      condition = newcond;
                      tags = tags;
                      meta = meta;
                      gval_cond = gval_cond;
                      gval_func = gval_func;
                    })
                    c.functions;
            },
          )
        ]
      ]

module _ {F G Time Msg E : Type 0} where
  unfoldable pub delete_aggregation :
      String → Aggregator F G Time Msg E → Result (Unit {0}) × Aggregator F G Time Msg E
  delete_aggregation name c = elim (remove name c.functions) [
    | none ↦ (err "no aggregation for metric name", c)
    | some left ↦ (ok tt, record c { functions = left })
  ]

  unfoldable pub add_constant :
      String → Var F G Time Msg → Aggregator F G Time Msg E → Aggregator F G Time Msg E
  add_constant name v c = record c { constants = insert name v c.constants }

  unfoldable pub del_constant : String → Aggregator F G Time Msg E → Aggregator F G Time Msg E
  del_constant name c = record c { constants = delete name c.constants }

module _ {F G Time Msg E : Type 0} (lib : Library F G Time Msg E) where
  -- `EvalBoolCondition` over the map `evaluables` of compiled conditions
  unfoldable pub eval_bool_condition :
      String → Dict (Var F G Time Msg) → Dict E → Result Bool × Dict E
  eval_bool_condition condition params mapping = elim (lookup condition mapping) [
    | some e ↦ (lib.eval_bool e params, mapping)
    | none ↦ elim (lib.compile (gval_text condition)) [
      | err e ↦ (err e, mapping)
      | ok e ↦ (lib.eval_bool e params, insert condition e mapping)
    ]
  ]

  -- `EvalFloat64Condition` shares the map; `eval_float64` is gval's `EvalFloat64`.
  unfoldable pub eval_float64_condition :
      (E → Dict F → Result F) → String → Dict F → Dict E → Result F × Dict E
  eval_float64_condition eval_float64 condition params mapping = elim (lookup condition mapping) [
    | some e ↦ (eval_float64 e params, mapping)
    | none ↦ elim (lib.compile (gval_text condition)) [
      | err e ↦ (err e, mapping)
      | ok e ↦ (eval_float64 e params, insert condition e mapping)
    ]
  ]
