-- ===== src/Router.antt =====
-- internal/metricRouter/metricRouter.go: the configuration of the router and `Init`.
-- The message processor of cc-lib is a parameter, the record `Processor`; its method
-- `ProcessMessage` gives a message or nil, and an error or none. Go walks a map in any order:
-- the lists that stand for the two maps of the configuration have the order of one such walk.
pub mod Loop
pub mod Ready
pub mod Tags
use Prim.Native.String.{◌++◌ as text_append}
use text.Mathlib.Text.{◌==◌ as str_eq}
use cc_metric_collector.Prelude.{
  ℕ, max, ◌++◌, Bool, true, false, String, Option, none, some, List, [], ◌∷◌, if◌then◌else◌,
}
use cc_metric_collector.Prelude.Int.{ℤ, pos, negsuc, ltb_ℤ, pos_part}
use cc_metric_collector.Prelude.Dict.{Dict}
use cc_metric_collector.Prelude.Text.{before_dot}
use cc_metric_collector.Values.{Result, ok, err, map_ok}
use cc_metric_collector.Topology.{CpuInformation}
use cc_metric_collector.Cache.{Cache}
use cc_metric_collector.Cache as cache
use cc_metric_collector.Aggregator.{Library, IntervalConfig, Aggregator, add_aggregation}
use cc_metric_collector.Aggregator.Constants.{new_aggregator}

pub record TagConfig : Type 0 where
  pub key : String
  pub tag_value : String
  pub condition : String

-- What the configuration says of an interval aggregation.
pub record AggregationConfig : Type 0 where
  pub name : String
  pub function : String
  pub condition : String
  pub tags : Dict String
  pub meta : Dict String

pub record Config : Type 0 where
  pub hostname_tag_name : String
  pub add_tags : List TagConfig
  pub del_tags : List TagConfig
  pub interval_agg : List AggregationConfig
  pub drop_metrics : List String
  pub drop_metrics_if : List String
  pub rename_metrics : Dict String
  pub interval_stamp : Bool
  pub num_cache_intervals : ℤ
  pub max_forward : ℤ
  pub normalize_units : Bool
  pub change_unit_prefix : Dict String
  pub message_processor : String

-- What the router calls of a message processor with the states `P`.
pub record Processor (P Msg : Type 0) : Type 0 where
  pub new_processor : Result P
  pub from_config_json : String → P → Result P
  pub add_drop_messages_by_name : String → P → Result P
  pub add_drop_messages_by_condition : String → P → Result P
  pub add_add_tags_by_condition : String → String → String → P → Result P
  pub add_delete_tags_by_condition : String → String → String → P → Result P
  pub add_rename_metric_by_name : String → String → P → Result P
  pub add_change_unit_prefix : String → String → P → Result P
  pub set_normalize_units : Bool → P → P
  pub process_message : P → Msg → Option Msg × Option String

-- the next call, or the error of the last one
infixl 5 ◌>>=◌
abbrev pub ◌>>=◌ {ℓ κ} : {A : Type ℓ} {B : Type κ} → Result A → (A → Result B) → Result B
ok a >>= f = f a
err e >>= f = err e

-- a loop whose body may return an error
unfoldable pub each : {A S : Type 0} → (A → S → Result S) → List A → S → Result S
each f [] s = ok s
each f (a ∷ as_) s = do s' ← f a s; each f as_ s'

-- "*" stands for the condition that is always true.
unfoldable pub tag_condition : String → String
tag_condition cond = if str_eq cond "*" then "true" else cond

abbrev pub quoted : String → String → String → String
quoted before name after = text_append before (text_append name after)

-- the two defaults that `Init` sets before it decodes the configuration
abbrev pub router_max_forward : ℕ
router_max_forward = 50

abbrev pub default_config : Config
default_config = record {
  hostname_tag_name = "hostname";
  add_tags = [];
  del_tags = [];
  interval_agg = [];
  drop_metrics = [];
  drop_metrics_if = [];
  rename_metrics = [];
  interval_stamp = false;
  num_cache_intervals = pos 0;
  max_forward = pos router_max_forward;
  normalize_units = false;
  change_unit_prefix = [];
  message_processor = "";
}

-- `max(1, MaxForward)`
unfoldable pub forward_limit : ℤ → ℕ
forward_limit (pos n) = max 1 n
forward_limit (negsuc n) = 1

-- the cache of the router, with its aggregator
pub record Caching (F G Time Msg E : Type 0) : Type 0 where
  pub periods : Cache Time Msg
  pub engine : Aggregator F G Time Msg E

-- what `Init` leaves for the loop of `Start`
pub record Setup (F G Time Msg E P : Type 0) : Type 0 where
  pub hostname : String
  pub config : Config
  pub max_forward : ℕ
  pub caching : Option (Caching F G Time Msg E)
  pub mp : P

module _ {P Msg : Type 0} (mp : Processor P Msg) where
  -- the calls of `Init` that configure the message processor, in its order
  unfoldable pub configure : String → Config → Result P
  configure hostname config = do
    p0 ← mp.new_processor
    p1 ←
        if str_eq config.message_processor ""
        then ok p0
        else mp.from_config_json config.message_processor p0
    p2 ← each mp.add_drop_messages_by_name config.drop_metrics p1
    p3 ← each mp.add_drop_messages_by_condition config.drop_metrics_if p2
    p4 ←
        each (λ d. mp.add_add_tags_by_condition (tag_condition d.condition) d.key d.tag_value)
          config.add_tags p3
    p5 ←
        each (λ d. mp.add_delete_tags_by_condition (tag_condition d.condition) d.key d.tag_value)
          config.del_tags p4
    p6 ← each (λ e. mp.add_rename_metric_by_name e.0 e.1) config.rename_metrics p5
    p7 ←
        each (λ e. mp.add_change_unit_prefix (quoted "name == '" e.0 "'") e.1)
          config.change_unit_prefix p6
    mp.add_add_tags_by_condition (quoted "!msg.HasTag('" config.hostname_tag_name "')")
        config.hostname_tag_name hostname (mp.set_normalize_units config.normalize_units p7)

module _ {F G Time Msg E P : Type 0} (lib : Library F G Time Msg E) (mp : Processor P Msg) where
  -- the loop of `Init` over the interval aggregations
  unfoldable pub add_aggregations :
      List AggregationConfig → Aggregator F G Time Msg E → Result (Aggregator F G Time Msg E)
  add_aggregations [] engine = ok engine
  add_aggregations (a ∷ rest) engine =
      let (r, engine') = add_aggregation lib a.name a.function a.condition a.tags a.meta engine in
      elim r [ err e ↦ err e | ok u ↦ add_aggregations rest engine' ]

  -- the cache and its aggregations, for a positive number of intervals
  unfoldable pub make_cache :
      Time → Result String → CpuInformation → Config → Result (Option (Caching F G Time Msg E))
  make_cache zero_time hostname info config =
      if ltb_ℤ (pos 0) config.num_cache_intervals
      then (do
        engine ← new_aggregator hostname info
        engine' ← add_aggregations config.interval_agg engine
        ok (
            some (record {
              periods = cache.init zero_time (pos_part config.num_cache_intervals);
              engine = engine';
            })))
      else ok none

  -- `Init`; `hostname` is the answer of the system, and `config` is what the JSON decoder
  -- makes of `default_config` and the file, or its error
  unfoldable pub init :
      Time → Result String → CpuInformation → Result Config → Result (Setup F G Time Msg E P)
  init zero_time hostname info decoded = do
    name ← hostname
    config ← decoded
    caching ← make_cache zero_time hostname info config
    p ← configure mp (before_dot name) config
    ok (record {
      hostname = before_dot name;
      config = config;
      max_forward = forward_limit config.max_forward;
      caching = caching;
      mp = p;
    })
