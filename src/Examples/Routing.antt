-- ===== src/Examples/Routing.antt =====
-- A router of messages that are numbers, each its own time; the processor drops zero.
use cc_metric_collector.Prelude.{
  ℕ, ◌+◌, ◌≡◌, refl, true, String, none, some, List, [], ◌∷◌, ◌==◌, if◌then◌else◌, arith,
}
use cc_metric_collector.Prelude.Int.{ℤ, pos}
use cc_metric_collector.Prelude.Dict.{lookup}
use cc_metric_collector.Prelude.Run.{done, panic}
use cc_metric_collector.Values.{ok, int}
use cc_metric_collector.Topology.{CpuInformation}
use cc_metric_collector.Cache as cache
use cc_metric_collector.Cache.{Cache}
use cc_metric_collector.Cache.Invariant.{init-IsValid}
use cc_metric_collector.Aggregator.{Library}
use cc_metric_collector.Aggregator.Conditions.{IsMemo}
use cc_metric_collector.Router.{Processor, Caching, TagConfig, default_config, init}
use cc_metric_collector.Router.Loop.{
  Router, Timed, Event, timer, collected, received, aggregated, stamped, coll_forward, turns,
}
use cc_metric_collector.Router.Loop.History.{sent, history, last_time, turns-history}
use cc_metric_collector.Router.Loop.Caches.{IsCached, coll_forward-dropped}
use cc_metric_collector.Router.Ready.{IfOk, IsReady, init-IsReady}
use cc_metric_collector.Router.Tags.{Message, do_add_tags}
use cc_metric_collector.Router.Tags.Matching.{tagged, do_add_tags-tagged}

abbrev numbers : Library ℤ ℤ ℕ ℕ String
numbers = record {
  compile = λ s. ok s;
  eval_bool = λ e params. ok true;
  evaluate = λ code params. ok (int (pos 1));
  get_field = λ m key. none;
  get_tag = λ m key. none;
  get_meta = λ m key. none;
  new_message = λ name tags meta v t. ok t;
}

-- the state counts the rules
abbrev counting : Processor ℕ ℕ
counting = record {
  new_processor = ok 0;
  from_config_json = λ json p. ok p;
  add_drop_messages_by_name = λ name p. ok p;
  add_drop_messages_by_condition = λ cond p. ok p;
  add_add_tags_by_condition = λ cond key v p. ok p;
  add_delete_tags_by_condition = λ cond key v p. ok p;
  add_rename_metric_by_name = λ from to p. ok p;
  add_change_unit_prefix = λ cond prefix p. ok p;
  set_normalize_units = λ b p. p;
  process_message = λ p m. (if m == 0 then none else some m, none);
}

abbrev clock : Timed ℕ ℕ
clock = record { time_of = λ m. m; set_time = λ ts m. m }

abbrev plain : Router ℤ ℤ ℕ ℕ String ℕ
plain = record {
  setup = record {
    hostname = "node1";
    config = default_config;
    max_forward = 2;
    caching = none;
    mp = 0;
  };
  outputs = [] ∷ [] ∷ [];
  timestamp = 0;
}

abbrev events : List (Event ℕ ℕ)
events = collected 3 (0 ∷ 4 ∷ []) ∷ timer 10 ∷ received 5 [] ∷ aggregated 6 [] ∷ []

turns-history_example :
    turns counting clock events plain
    ≡ done (record (sent (history counting clock plain.setup events 0) plain) {
      timestamp = last_time events 0;
    })
turns-history_example = turns-history counting clock events plain refl

-- a router with a cache of two intervals
abbrev two_intervals : Caching ℤ ℤ ℕ ℕ String
two_intervals = record {
  periods = cache.init 0 2;
  engine = record { functions = []; constants = [] };
}

abbrev caching_router : Router ℤ ℤ ℕ ℕ String ℕ
caching_router = record plain {
  setup = record (plain.setup) {
    config = record (default_config) { num_cache_intervals = pos 2 };
    caching = some two_intervals;
  };
}

is_cached : IsCached caching_router.setup two_intervals
is_cached = record { configured = refl; made = refl; valid = init-IsValid 0 2 (omega arith) }

coll_forward-dropped_example : coll_forward counting clock 0 caching_router ≡ panic
coll_forward-dropped_example =
    coll_forward-dropped counting clock two_intervals 0 caching_router is_cached
      (unfold stamped in refl)

abbrev one_core : CpuInformation
one_core = record {
  num_hwthreads = 1;
  smt_width = 1;
  num_sockets = 1;
  num_dies = 1;
  num_cores = 1;
  num_numa_domains = 1;
}

init-IsReady_example : IfOk (IsReady numbers counting) (
    init numbers counting 0
      (ok "node1.example.org")
      one_core
      (ok (record (default_config) { num_cache_intervals = pos 2 })))
init-IsReady_example =
    init-IsReady numbers counting 0 (ok "node1.example.org") one_core
      (ok (record (default_config) { num_cache_intervals = pos 2 }))

abbrev tagging : Message ℤ ℤ ℕ ℕ
tagging = record {
  name_of = λ m. "load";
  tags_of = λ m. [];
  meta_of = λ m. [];
  fields_of = λ m. [];
  time_of = λ m. m;
  add_tag = λ key v m. m + 1;
}

abbrev tags : List TagConfig
tags =
    record { key = "cluster"; tag_value = "a"; condition = "*" }
    ∷ record { key = "rack"; tag_value = "b"; condition = "name == 'load'" }
    ∷ []

do_add_tags-tagged_example :
    ((do_add_tags numbers tagging tags 3 []).0 ≡ tagged numbers tagging tags 3)
    × IsMemo numbers (do_add_tags numbers tagging tags 3 []).1
do_add_tags-tagged_example =
    do_add_tags-tagged numbers tagging tags 3 []
      (record { compiled = λ c e h. unfold lookup in cc })
