-- ===== src/Router/Tags.antt =====
-- internal/metricRouter/metricRouter.go: the variables of a message, and `DoAddTags`.
pub mod Matching
use text.Mathlib.Text.{◌==◌ as str_eq}
use cc_metric_collector.Prelude.{Bool, true, false, String, List, [], ◌∷◌, if◌then◌else◌}
use cc_metric_collector.Prelude.Dict.{Dict, insert}
use cc_metric_collector.Values.{Result, ok, err, Any, string}
use cc_metric_collector.Aggregator.{Library, Var, value, time, message, eval_bool_condition}
use cc_metric_collector.Router.{TagConfig}

-- What the two functions use of a message.
pub record Message (F G Time Msg : Type 0) : Type 0 where
  pub name_of : Msg → String
  pub tags_of : Msg → Dict String
  pub meta_of : Msg → Dict String
  pub fields_of : Msg → Dict (Any F G)
  pub time_of : Msg → Time
  pub add_tag : String → String → Msg → Msg

module _ {F G Time Msg : Type 0} (msg : Message F G Time Msg) where
  -- `for key, value := range m { params[key] = value }`, and `maps.Copy`
  unfoldable pub copy_text : Dict String → Dict (Var F G Time Msg) → Dict (Var F G Time Msg)
  copy_text [] params = params
  copy_text ((k, v) ∷ m) params = copy_text m (insert k (value (string v)) params)

  unfoldable pub copy_fields : Dict (Any F G) → Dict (Var F G Time Msg) → Dict (Var F G Time Msg)
  copy_fields [] params = params
  copy_fields ((k, v) ∷ m) params = copy_fields m (insert k (value v) params)

  unfoldable pub get_param_map : Msg → Dict (Var F G Time Msg)
  get_param_map point = insert "timestamp" (time (msg.time_of point)) (
      copy_fields (msg.fields_of point) (
        copy_text (msg.meta_of point) (
          copy_text (msg.tags_of point) (
            insert "name" (value (string (msg.name_of point)))
              (insert "metric" (message point) [])))))

module _ {F G Time Msg E : Type 0} (lib : Library F G Time Msg E) (msg : Message F G Time Msg) where
  -- whether the condition of a tag matches, with the map of compiled conditions
  unfoldable pub condition_matches : String → Msg → Dict E → Bool × Dict E
  condition_matches condition point mapping =
      if str_eq condition "*"
      then (true, mapping)
      else (let (r, mapping') =
            eval_bool_condition lib condition (get_param_map msg point) mapping in
          elim r [ ok b ↦ (b, mapping') | err e ↦ (false, mapping') ])

  -- `DoAddTags`: each condition is evaluated on the message with the tags added so far
  unfoldable pub do_add_tags : List TagConfig → Msg → Dict E → Msg × Dict E
  do_add_tags [] point mapping = (point, mapping)
  do_add_tags (m ∷ rest) point mapping =
      let (matches, mapping') = condition_matches m.condition point mapping in
      do_add_tags rest (if matches then msg.add_tag m.key m.tag_value point else point) mapping'
