-- ===== src/Router/Tags/Matching.antt =====
-- `DoAddTags` without the map of compiled conditions.
use text.Mathlib.Text.{◌==◌ as str_eq}
use cc_metric_collector.Prelude.{
  ◌≡◌, refl, ap, Bool, true, false, String, List, [], ◌∷◌, if◌then◌else◌, Bool-cases, inl, inr,
}
use cc_metric_collector.Prelude.Dict.{Dict}
use cc_metric_collector.Values.{Result, ok, err}
use cc_metric_collector.Aggregator.{Library, eval_bool_condition}
use cc_metric_collector.Aggregator.Conditions.{IsMemo, then_eval, eval_bool_condition-IsMemo}
use cc_metric_collector.Router.{TagConfig}
use cc_metric_collector.Router.Tags.{Message, get_param_map, condition_matches, do_add_tags}

-- An error counts as false.
abbrev pub or_false : Result Bool → Bool
or_false (ok b) = b
or_false (err e) = false

module _ {F G Time Msg E : Type 0} (lib : Library F G Time Msg E) (msg : Message F G Time Msg) where
  -- "*", or a condition that compiles and is true of the message
  unfoldable pub holds_of : String → Msg → Bool
  holds_of condition point =
      if str_eq condition "*"
      then true
      else or_false (then_eval lib (λ e. lib.eval_bool e (get_param_map msg point)) condition)

  -- one tag after the other, each on the message with the earlier ones
  unfoldable pub tagged : List TagConfig → Msg → Msg
  tagged [] point = point
  tagged (m ∷ rest) point =
      tagged rest
        (if holds_of m.condition point then msg.add_tag m.key m.tag_value point else point)

  matches-or_false :
      (r : Result Bool) (mapping : Dict E)
      → elim r as (λ _. Bool × Dict E) [ ok b ↦ (b, mapping) | err e ↦ (false, mapping) ]
        ≡ (or_false r, mapping)
  matches-or_false (ok b) mapping = refl
  matches-or_false (err e) mapping = refl

  condition_matches-holds_of :
      (condition : String) (point : Msg) (mapping : Dict E)
      → IsMemo lib mapping
      → ((condition_matches lib msg condition point mapping).0 ≡ holds_of condition point)
        × IsMemo lib (condition_matches lib msg condition point mapping).1
  unfolding condition_matches holds_of
  condition_matches-holds_of condition point mapping m =
      let (h, m') = eval_bool_condition-IsMemo lib condition (get_param_map msg point) mapping m in
      elim (Bool-cases (str_eq condition "*")) [
        | inl b ↦ rw b (refl, m)
        | inr b ↦
            rw
              (
                b,
                matches-or_false
                    (eval_bool_condition lib condition (get_param_map msg point) mapping).0
                    (eval_bool_condition lib condition (get_param_map msg point) mapping).1,
              )
              (ap or_false h, m')
      ]

  -- Over a map of compiled conditions, `DoAddTags` adds exactly the tags whose condition is "*"
  -- or is true of the message with the tags before it, and the map stays one of compiled conditions.
  pub do_add_tags-tagged :
      (tags : List TagConfig) (point : Msg) (mapping : Dict E)
      → IsMemo lib mapping
      → ((do_add_tags lib msg tags point mapping).0 ≡ tagged tags point)
        × IsMemo lib (do_add_tags lib msg tags point mapping).1
  unfolding do_add_tags tagged
  do_add_tags-tagged [] point mapping m = (refl, m)
  do_add_tags-tagged (t ∷ rest) point mapping m =
      let (h, m') = condition_matches-holds_of t.condition point mapping m in
      rw⁻¹ h (do_add_tags-tagged rest _ _ m')
