-- ===== src/Sampling/Numastats.antt =====
-- collectors/numastatsMetric.go: the counters of the NUMA domains and their rates. The directories of
-- the domains and the lines of their files are parameters; a domain is known by its directory. The
-- JSON decoder is left out.
pub mod History
use cc_metric_collector.Prelude.{
  Bool, true, false, not, Option, none, some, List, [], ◌∷◌, ◌++◌, map, if◌then◌else◌,
}
use cc_metric_collector.Prelude.Int.{ℤ, ◌-ℤ◌, wrap, half64}
use cc_metric_collector.Prelude.Bytes.{Bytes, codes, fields, trim_prefix, Table, find, put}
use cc_metric_collector.Values.{Result, ok, err}
use cc_metric_collector.Topology.Parse.{atoi}
use cc_metric_collector.Sampling.{Value, real, whole, Calls, sent}

pub record Config : Type 0 where
  pub send_absolute_values : Bool
  pub send_derived_values : Bool

-- `NUMAStatsCollectorTopolgy`
pub record Domain : Type 0 where
  pub file : Bytes
  pub tag_set : Table Bytes
  pub previous_values : Table ℤ

pub record Collector (Time : Type 0) : Type 0 where
  pub topology : List Domain
  pub config : Config
  pub last_timestamp : Time
  pub init : Bool

abbrev pub meta : Table Bytes
meta = (codes "source", codes "NUMAStatsCollector") ∷ (codes "group", codes "NUMA") ∷ []

unfoldable pub new_domain : Bytes → Domain
new_domain dir = record {
  file = dir ++ codes "/numastat";
  tag_set =
      (codes "type", codes "memoryDomain")
      ∷ (codes "type-id", trim_prefix dir (codes "/sys/devices/system/node/node"))
      ∷ [];
  previous_values = [];
}

-- `Init` on a collector that is not initialized, with the directories that are found
unfoldable pub init :
    {Time : Type 0} → Config → List Bytes → Collector Time → Result (Collector Time)
init config dirs m = if m.init then ok m else elim dirs [
  | [] ↦ err "unable to find any files with pattern"
  | d ∷ ds ↦ ok (record m { topology = map new_domain (d ∷ ds); config = config; init = true })
]

-- the key and the value of a line with two fields
unfoldable pub entry_of : List Bytes → Option (Bytes × ℤ)
entry_of (key ∷ number ∷ []) = elim (atoi number) [ none ↦ none | some value ↦ some (key, value) ]
entry_of _ = none

module _ {F Time Msg : Type 0} (calls : Calls F Time Msg) (config : Config) where
  -- the messages for a value, with the last one of its key
  unfoldable pub value_messages : Table Bytes → Time → F → Bytes → ℤ → Option ℤ → List Msg
  value_messages tags now diff key value prev =
      (if config.send_absolute_values
        then sent (calls.new_metric (codes "numastats_" ++ key) tags meta (whole value) now)
        else [])
      ++ (if config.send_derived_values
          then elim prev [
            | none ↦ []
            | some p ↦ sent (
                calls.new_metric (codes "numastats_" ++ key ++ codes "_rate") tags meta
                  (real (calls.divide (calls.of_int (wrap half64 (value -ℤ p))) diff)) now)
          ]
          else [])

  -- the body of the loop over the lines of a file
  unfoldable pub read_line : Table Bytes → Time → F → Bytes → Table ℤ → List Msg × Table ℤ
  read_line tags now diff line previous = elim (entry_of (fields line)) [
    | none ↦ ([], previous)
    | some (key, value) ↦ (
      value_messages tags now diff key value (find key previous),
      if config.send_derived_values then put key value previous else previous,
    )
  ]

  unfoldable pub read_lines : Table Bytes → Time → F → List Bytes → Table ℤ → List Msg × Table ℤ
  read_lines tags now diff [] previous = ([], previous)
  read_lines tags now diff (line ∷ lines) previous =
      let (msgs, previous') = read_line tags now diff line previous in
      let (rest, last) = read_lines tags now diff lines previous' in (msgs ++ rest, last)

  -- the body of the loop over the domains, with the lines of the domain's file
  unfoldable pub read_domain : Time → F → Option (List Bytes) → Domain → List Msg × Domain
  read_domain now diff none t = ([], t)
  read_domain now diff (some lines) t =
      let (msgs, previous) = read_lines t.tag_set now diff lines t.previous_values in
      (msgs, record t { previous_values = previous })

  unfoldable pub read_domains :
      Time → F → (Bytes → Option (List Bytes)) → List Domain → List Msg × List Domain
  read_domains now diff files [] = ([], [])
  read_domains now diff files (t ∷ ts) =
      let (msgs, t') = read_domain now diff (files t.file) t in
      let (rest, ts') = read_domains now diff files ts in (msgs ++ rest, t' ∷ ts')

-- `Read`
unfoldable pub read :
    {F Time Msg : Type 0}
    → Calls F Time Msg
    → Time
    → (Bytes → Option (List Bytes))
    → Collector Time
    → List Msg × Collector Time
read calls now files m =
    if not m.init
    then ([], m)
    else let (msgs, topology) =
        read_domains calls m.config now (calls.seconds now m.last_timestamp) files m.topology in
      (msgs, record m { topology = topology; last_timestamp = now })

-- `Close`
unfoldable pub close : {Time : Type 0} → Collector Time → Collector Time
close m = record m { init = false }
