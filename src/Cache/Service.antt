-- ===== src/Cache/Service.antt =====
-- internal/metricRouter/metricCache.go: the cache with its aggregator and its goroutine.
use cc_metric_collector.Prelude.{ℕ, Bool, true, false, String, if◌then◌else◌}
use cc_metric_collector.Prelude.Dict.{Dict}
use cc_metric_collector.Prelude.Run.{Run, done, panic}
use cc_metric_collector.Values.{Result}
use cc_metric_collector.Aggregator.{Library, Aggregator}
use cc_metric_collector.Aggregator
use cc_metric_collector.Cache.{Cache}
use cc_metric_collector.Cache

-- the cache, its aggregator, and whether its goroutine runs
pub record Service (F G Time Msg E : Type 0) : Type 0 where
  pub cache : Cache Time Msg
  pub engine : Aggregator F G Time Msg E
  pub is_open : Bool

module _ {F G Time Msg E : Type 0} where
  -- `Init` and `Start`, with a new aggregator
  unfoldable pub start : Aggregator F G Time Msg E → Time → ℕ → Service F G Time Msg E
  start engine zero_time num_periods = record {
    cache = Cache.init zero_time num_periods;
    engine = engine;
    is_open = true;
  }

  -- `Close`: the signal on the channel, which the goroutine closes. Sending again panics.
  unfoldable pub close : Service F G Time Msg E → Run (Service F G Time Msg E)
  close s = if s.is_open then done (record s { is_open = false }) else panic

  -- `DeleteAggregation`
  unfoldable pub delete_aggregation :
      String → Service F G Time Msg E → Result (Unit {0}) × Service F G Time Msg E
  delete_aggregation name s =
      let (result, engine) = Aggregator.delete_aggregation name s.engine in
      (result, record s { engine = engine })

module _ {F G Time Msg E : Type 0} (lib : Library F G Time Msg E) where
  -- `AddAggregation`
  unfoldable pub add_aggregation :
      String
      → String
      → String
      → Dict String
      → Dict String
      → Service F G Time Msg E
      → Result (Unit {0}) × Service F G Time Msg E
  add_aggregation name function condition tags meta s =
      let (result, engine) =
        Aggregator.add_aggregation lib name function condition tags meta s.engine in
      (result, record s { engine = engine })
