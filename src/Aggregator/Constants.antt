-- ===== src/Aggregator/Constants.antt =====
-- internal/metricAggregator/metricAggregator.go: a new aggregator, with the constants of the node.
-- The host name that the system gives is an argument; the counts are those of the topology.
use cc_metric_collector.Prelude.{ℕ, String, []}
use cc_metric_collector.Prelude.Int.{pos}
use cc_metric_collector.Prelude.Text.{before_dot}
use cc_metric_collector.Prelude.Dict.{Dict, insert}
use cc_metric_collector.Values.{Result, map_ok, string, int}
use cc_metric_collector.Topology.{CpuInformation}
use cc_metric_collector.Aggregator.{Var, Aggregator, value}

module _ {F G Time Msg : Type 0} where
  abbrev count : ℕ → Var F G Time Msg
  count n = value (int (pos n))

  -- the constants that `Init` sets, in its order
  unfoldable pub node_constants : String → CpuInformation → Dict (Var F G Time Msg)
  node_constants hostname info = insert "smtWidth" (count info.smt_width) (
      insert "numDies" (count info.num_dies) (
        insert "numNumaDomains" (count info.num_numa_domains) (
          insert "numSockets" (count info.num_sockets) (
            insert "numHWThreads" (count info.num_hwthreads)
              (insert "hostname" (value (string (before_dot hostname))) [])))))

  -- `Init`, which fails if the host name is not known
  unfoldable pub new_aggregator :
      {E : Type 0} → Result String → CpuInformation → Result (Aggregator F G Time Msg E)
  new_aggregator hostname info =
      map_ok (λ name. record { functions = []; constants = node_constants name info }) hostname
