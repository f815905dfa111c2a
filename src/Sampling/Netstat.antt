-- ===== src/Sampling/Netstat.antt =====
-- collectors/netstatMetric.go: the counters of the network devices and their rates. The map of the
-- aliases is a list in the order in which its loop takes it. The JSON decoder is left out: `init`
-- takes the configuration that it fills.
pub mod Finishing
pub mod Rates
use cc_metric_collector.Prelude.{
  ℕ, Bool, true, false, not, Option, none, some, List, [], ◌∷◌, ◌++◌, if◌then◌else◌,
}
use cc_metric_collector.Prelude.Int.{ℤ, pos, negsuc, ◌-ℤ◌, ltb_ℤ, wrap, half64}
use cc_metric_collector.Prelude.Bytes.{
  Bytes, codes, fields, contains_byte, member, trim_of, Table, find, put,
}
use cc_metric_collector.Prelude.Run.{Run, done, panic, at, ◌>>=◌}
use cc_metric_collector.Values.{Result, ok, err}
use cc_metric_collector.Topology.Parse.{atoi}
use cc_metric_collector.Sampling.{Value, real, whole, Calls, sent}

pub record Config : Type 0 where
  pub include_devices : List Bytes
  pub send_absolute_values : Bool
  pub send_derived_values : Bool
  pub interface_aliases : Table (List Bytes)

pub record Metric : Type 0 where
  pub name : Bytes
  pub index : ℕ
  pub tags : Table Bytes
  pub meta : Table Bytes
  pub meta_rates : Table Bytes
  pub last_value : ℤ

pub record Collector (Time : Type 0) : Type 0 where
  pub config : Config
  pub alias_to_canonical : Table Bytes
  pub matches : Table (List Metric)
  pub last_timestamp : Time
  pub init : Bool

abbrev add_aliases : Bytes → List Bytes → Table Bytes → Table Bytes
add_aliases canon [] table = table
add_aliases canon (alias ∷ aliases) table = add_aliases canon aliases (put alias canon table)

abbrev add_all_aliases : Table (List Bytes) → Table Bytes → Table Bytes
add_all_aliases [] table = table
add_all_aliases ((canon, aliases) ∷ rest) table =
    add_all_aliases rest (add_aliases canon aliases table)

-- `buildAliasMapping`
unfoldable pub build_alias_mapping : Config → Table Bytes
build_alias_mapping config = add_all_aliases config.interface_aliases []

-- `getCanonicalName`
unfoldable pub get_canonical_name : Bytes → Table Bytes → Bytes
get_canonical_name raw aliases = elim (find raw aliases) [ none ↦ raw | some canon ↦ canon ]

abbrev meta_with : Bytes → Table Bytes
meta_with unit =
    (codes "source", codes "NetstatCollector")
    ∷ (codes "group", codes "Network")
    ∷ (codes "unit", unit)
    ∷ []

abbrev new_counter : Bytes → ℕ → Bytes → Bytes → Metric
new_counter raw index name unit = record {
  name = name;
  index = index;
  tags =
      (codes "stype", codes "network")
      ∷ (codes "stype-id", raw)
      ∷ (codes "type", codes "node")
      ∷ [];
  meta = meta_with unit;
  meta_rates = meta_with (unit ++ codes "/sec");
  last_value = negsuc 0;
}

-- the four counters of a device
unfoldable pub device_metrics : Bytes → List Metric
device_metrics raw =
    new_counter raw 1 (codes "net_bytes_in") (codes "bytes")
    ∷ new_counter raw 2 (codes "net_pkts_in") (codes "packets")
    ∷ new_counter raw 9 (codes "net_bytes_out") (codes "bytes")
    ∷ new_counter raw 10 (codes "net_pkts_out") (codes "packets")
    ∷ []

-- the loop body of `Init`
unfoldable pub init_line :
    Config → Table Bytes → Bytes → Table (List Metric) → Run (Table (List Metric))
init_line config aliases line matches = if not (contains_byte b':' line) then done matches else do
  first ← at (fields line) 0
  let raw = trim_of (codes ": ") first
  let canonical = get_canonical_name raw aliases
  done (
      if member canonical config.include_devices
      then put canonical (device_metrics raw) matches
      else matches)

unfoldable pub init_lines :
    Config → Table Bytes → List Bytes → Table (List Metric) → Run (Table (List Metric))
init_lines config aliases [] matches = done matches
init_lines config aliases (line ∷ lines) matches = do
  matches' ← init_line config aliases line matches
  init_lines config aliases lines matches'

module _ {Time : Type 0} where
  -- the end of `Init`
  abbrev pub collector_of :
      Config → Time → Table Bytes → Table (List Metric) → Result (Collector Time)
  collector_of config now aliases [] = err "no devices to collect metrics found"
  collector_of config now aliases (m ∷ ms) = ok record {
    config = config;
    alias_to_canonical = aliases;
    matches = m ∷ ms;
    last_timestamp = now;
    init = true;
  }

  -- `Init`, with the lines of the file and the clock
  unfoldable pub init : Config → Time → Option (List Bytes) → Run (Result (Collector Time))
  init config now none = done (err "failed to open netstat file")
  init config now (some lines) = do
    let aliases = build_alias_mapping config
    matches ← init_lines config aliases lines []
    done (collector_of config now aliases matches)

module _ {F Time Msg : Type 0} (calls : Calls F Time Msg) where
  -- the messages and the new metric for a value
  unfoldable pub value_metric : Config → Time → F → ℤ → Metric → List Msg × Metric
  value_metric config now diff v metric =
      let absolute =
        if config.send_absolute_values
        then sent (calls.new_metric metric.name metric.tags metric.meta (whole v) now)
        else [] in
      let rate = calls.divide (calls.of_int (wrap half64 (v -ℤ metric.last_value))) diff in
      let derived =
        if ltb_ℤ metric.last_value (pos 0)
        then []
        else sent (
            calls.new_metric (metric.name ++ codes "_bw") metric.tags metric.meta_rates (real rate)
              now) in
      if config.send_derived_values
      then (absolute ++ derived, record metric { last_value = v })
      else (absolute, metric)

  -- the body of the loop over the metrics of a device
  unfoldable pub read_metric : Config → Time → F → List Bytes → Metric → Run (List Msg × Metric)
  read_metric config now diff f metric = do
    field ← at f metric.index
    done
        (elim (atoi field) [ none ↦ ([], metric) | some v ↦ value_metric config now diff v metric ])

  unfoldable pub read_metrics :
      Config → Time → F → List Bytes → List Metric → Run (List Msg × List Metric)
  read_metrics config now diff f [] = done ([], [])
  read_metrics config now diff f (metric ∷ metrics) = do
    (msgs, metric') ← read_metric config now diff f metric
    (rest, metrics') ← read_metrics config now diff f metrics
    done (msgs ++ rest, metric' ∷ metrics')

  -- the loop body of `Read`
  unfoldable pub read_line :
      Collector Time → Time → F → Bytes → Table (List Metric) → Run (List Msg × Table (List Metric))
  read_line m now diff line matches =
      if not (contains_byte b':' line) then done ([], matches) else do
        first ← at (fields line) 0
        let canonical = get_canonical_name (trim_of (codes ":") first) m.alias_to_canonical
        elim (find canonical matches) [
          | none ↦ done ([], matches)
          | some devmetrics ↦ do
            (msgs, devmetrics') ← read_metrics m.config now diff (fields line) devmetrics
            done (msgs, put canonical devmetrics' matches)
        ]

  unfoldable pub read_lines :
      Collector Time
      → Time
      → F
      → List Bytes
      → Table (List Metric)
      → Run (List Msg × Table (List Metric))
  read_lines m now diff [] matches = done ([], matches)
  read_lines m now diff (line ∷ lines) matches = do
    (msgs, matches') ← read_line m now diff line matches
    (rest, last) ← read_lines m now diff lines matches'
    done (msgs ++ rest, last)

  -- `Read`: the messages in their order, and the collector behind it
  unfoldable pub read :
      Time → Option (List Bytes) → Collector Time → Run (List Msg × Collector Time)
  read now file m = if not m.init then done ([], m) else elim file [
    | none ↦ done ([], record m { last_timestamp = now })
    | some lines ↦ do
      (msgs, matches') ← read_lines m now (calls.seconds now m.last_timestamp) lines m.matches
      done (msgs, record m { last_timestamp = now; matches = matches' })
  ]

-- `Close`
unfoldable pub close : {Time : Type 0} → Collector Time → Collector Time
close m = record m { init = false }
