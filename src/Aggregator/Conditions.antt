-- ===== src/Aggregator/Conditions.antt =====
-- The conditions of the router: the map of compiled conditions changes no result.
use text.Mathlib.TextEquality.{eq_iff}
use cc_metric_collector.Prelude.{◌≡◌, sym, inl, inr, String, none, some, Option-cases, arith}
use cc_metric_collector.Prelude.Dict.{Dict, lookup, insert, lookup-insert}
use cc_metric_collector.Values.{Result, ok, err, Result-cases}
use cc_metric_collector.Aggregator.{Var, Library, gval_text, eval_bool_condition}

module _ {F G Time Msg E : Type 0} (lib : Library F G Time Msg E) where
  -- Every compiled condition of the map is what its text compiles to.
  pub record IsMemo (mapping : Dict E) : Type 0 where
    pub compiled :
        (c : String) (e : E) → lookup c mapping ≡ some e → lib.compile (gval_text c) ≡ ok e

  -- compiling the condition each time
  unfoldable pub then_eval {ℓ} : {A : Type ℓ} → (E → Result A) → String → Result A
  then_eval run c = elim (lib.compile (gval_text c)) [ ok e ↦ run e | err e ↦ err e ]

  pub IsMemo-insert :
      (c : String) (e : E) (mapping : Dict E)
      → IsMemo mapping
      → lib.compile (gval_text c) ≡ ok e
      → IsMemo (insert c e mapping)
  IsMemo-insert c e mapping m h = record {
    compiled = λ j f q. ground (arith, lookup-insert c j e mapping, eq_iff c j, m.compiled j f);
  }

  module _ (c : String) (mapping : Dict E) (m : IsMemo mapping) where
    bool_cached :
        (params : Dict (Var F G Time Msg)) (e : E)
        → lookup c mapping ≡ some e
        → eval_bool_condition lib c params mapping ≡ (lib.eval_bool e params, mapping)
    unfolding eval_bool_condition
    bool_cached params e h = rw (h, eval_bool_condition)

    bool_compiled :
        (params : Dict (Var F G Time Msg)) (e : E)
        → lookup c mapping ≡ none
        → lib.compile (gval_text c) ≡ ok e
        → eval_bool_condition lib c params mapping ≡ (lib.eval_bool e params, insert c e mapping)
    unfolding eval_bool_condition
    bool_compiled params e h k = rw (h, eval_bool_condition) (rw k)

    bool_invalid :
        (params : Dict (Var F G Time Msg)) (x : String)
        → lookup c mapping ≡ none
        → lib.compile (gval_text c) ≡ err x
        → eval_bool_condition lib c params mapping ≡ (err x, mapping)
    unfolding eval_bool_condition
    bool_invalid params x h k = rw (h, eval_bool_condition) (rw k)

  then_eval_ok {ℓ} :
      {A : Type ℓ} (run : E → Result A) (c : String) (e : E)
      → lib.compile (gval_text c) ≡ ok e
      → then_eval run c ≡ run e
  unfolding then_eval
  then_eval_ok run c e h = rw (h, then_eval)

  then_eval_err {ℓ} :
      {A : Type ℓ} (run : E → Result A) (c x : String)
      → lib.compile (gval_text c) ≡ err x
      → then_eval run c ≡ err x
  unfolding then_eval
  then_eval_err run c x h = rw (h, then_eval)

  -- Over a map of compiled conditions, `EvalBoolCondition` has the result of compiling the condition
  -- and evaluating it, and the map stays one of compiled conditions.
  pub eval_bool_condition-IsMemo :
      (c : String) (params : Dict (Var F G Time Msg)) (mapping : Dict E)
      → IsMemo mapping
      → ((eval_bool_condition lib c params mapping).0 ≡ then_eval (λ e. lib.eval_bool e params) c)
        × IsMemo (eval_bool_condition lib c params mapping).1
  eval_bool_condition-IsMemo c params mapping m = elim (Option-cases (lookup c mapping)) [
    | inr (e, h) ↦
        rw (bool_cached c mapping m params e h)
          (sym (then_eval_ok (λ f. lib.eval_bool f params) c e (m.compiled c e h)), m)
    | inl h ↦ elim (Result-cases (lib.compile (gval_text c))) [
      | inl (e, k) ↦
          rw (bool_compiled c mapping m params e h k)
            (sym (then_eval_ok (λ f. lib.eval_bool f params) c e k), IsMemo-insert c e mapping m k)
      | inr (x, k) ↦
          rw (bool_invalid c mapping m params x h k)
            (sym (then_eval_err (λ f. lib.eval_bool f params) c x k), m)
    ]
  ]
