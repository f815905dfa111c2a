-- ===== src/Aggregator/Evaluation/Panics.antt =====
-- What a result that no message is made of does to the evaluation.
use cc_metric_collector.Prelude.{
  ◌≡◌, refl, ◌⊎◌, inl, inr, Option-cases, Bool-cases, false, String, some, List, [], ◌∷◌, ◌++◌,
}
use cc_metric_collector.Prelude.Dict.{Dict}
use cc_metric_collector.Prelude.Run.{Run, panic, bind-panic_any}
use cc_metric_collector.Values.{ok, err, Result-cases, Any}
use cc_metric_collector.Aggregator.{Var, Library, IntervalConfig}
use cc_metric_collector.Aggregator.Evaluation.{
  Collected, nothing_collected, select_values, has_case, copy_entries, collect, result_message,
  variables_for, eval_functions, eval_one,
}
use cc_metric_collector.Aggregator.Evaluation.Breaks.{vars_after}

module _ {F G Time Msg E : Type 0} (lib : Library F G Time Msg E) where
  -- None of the aggregations has values and an expression that is an error.
  abbrev pub Passes : List (IntervalConfig E) → Dict (Var F G Time Msg) → List Msg → Type 0
  Passes [] vars ms = Unit {0}
  Passes (g ∷ gs) vars ms =
      ((v : Any F G) (e : String)
        → select_values (collect lib g vars nothing_collected ms) ≡ some v
        → ¬ (lib.evaluate g.function (variables_for lib g vars ms) ≡ err e))
      × Passes gs (variables_for lib g vars ms) ms

  -- A result has a type without a case, or cc-lib makes no message of it with the tags and the meta
  -- data of the aggregation.
  abbrev pub IsUnmade : IntervalConfig E → Collected F G Msg → Time → Any F G → Type 0
  IsUnmade f c start r =
      (has_case r ≡ false)
      ⊎ ((e : String) × (lib.new_message f.name (copy_entries lib.get_tag f.tags c.matches [])
              (copy_entries lib.get_meta f.meta c.matches []) r start
            ≡ err e))

  result_message-panics :
      (f : IntervalConfig E) (c : Collected F G Msg) (start : Time) (r : Any F G)
      → IsUnmade f c start r
      → result_message lib f
          (copy_entries lib.get_tag f.tags c.matches [])
          (copy_entries lib.get_meta f.meta c.matches [])
          start
          r
        ≡ panic
  unfolding result_message
  result_message-panics f c start r (inl h) = rw (h, result_message) refl
  result_message-panics f c start r (inr (e, h)) = elim (Bool-cases (has_case r)) [
    | inl x ↦ rw (x, result_message) (rw h refl)
    | inr x ↦ rw (x, result_message) refl
  ]

  eval_one-panics :
      (g : IntervalConfig E) (vars : Dict (Var F G Time Msg)) (start : Time) (ms : List Msg)
      (rest : Run (List Msg))
      → ((v : Any F G) (e : String)
          → select_values (collect lib g vars nothing_collected ms) ≡ some v
          → ¬ (lib.evaluate g.function (variables_for lib g vars ms) ≡ err e))
      → rest ≡ panic
      → eval_one lib g vars start ms rest ≡ panic
  unfolding eval_one
  eval_one-panics g vars start ms rest goes h =
      elim (Option-cases (select_values (collect lib g vars nothing_collected ms))) [
        | inl e ↦ rw (e, eval_one) h
        | inr (v, e) ↦ elim (Result-cases (lib.evaluate g.function (variables_for lib g vars ms))) [
          | inr (x, k) ↦ elim (goes v x e k) [ ]
          | inl (r, k) ↦ rw (e, eval_one) (rw (k, h) (bind-panic_any _ _ (λ m. refl)))
        ]
      ]

  -- If the loop over the aggregations gets to one that has values, and its result has a type without a
  -- case, as bool and int32, or cc-lib makes no message of it, the evaluation panics, whatever the other
  -- aggregations are.
  pub eval_functions-panics :
      (gs : List (IntervalConfig E)) (f : IntervalConfig E) (fs : List (IntervalConfig E))
      (vars : Dict (Var F G Time Msg)) (start : Time) (ms : List Msg) (v r : Any F G)
      → Passes gs vars ms
      → select_values (collect lib f (vars_after lib gs vars ms) nothing_collected ms) ≡ some v
      → lib.evaluate f.function (variables_for lib f (vars_after lib gs vars ms) ms) ≡ ok r
      → IsUnmade f (collect lib f (vars_after lib gs vars ms) nothing_collected ms) start r
      → eval_functions lib (gs ++ f ∷ fs) vars start ms ≡ panic
  unfolding eval_functions eval_one vars_after
  eval_functions-panics [] f fs vars start ms v r p h k u =
      rw (h, eval_one)
        (rw k
          (rw (result_message-panics f (collect lib f vars nothing_collected ms) start r u) refl))
  eval_functions-panics (g ∷ gs) f fs vars start ms v r (p, ps) h k u =
      eval_one-panics g vars start ms _ p
        (eval_functions-panics gs f fs (variables_for lib g vars ms) start ms v r ps h k u)
