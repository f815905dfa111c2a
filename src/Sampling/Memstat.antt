-- ===== src/Sampling/Memstat.antt =====
-- collectors/memstatMetric.go: the memory of the node and of its NUMA domains. The lines of the files
-- and the files that are found are parameters. The maps of the metrics and of the domains are lists in
-- the order in which the loops take them. The JSON decoder is left out, and the clock is read once.
pub mod Reported
use cc_metric_collector.Prelude.{
  ℕ, Bool, true, false, not, ◌&&◌, Option, none, some, List, [], ◌∷◌, ◌++◌, if◌then◌else◌,
}
use cc_metric_collector.Prelude.Int.{ℤ, eqb_ℤ}
use cc_metric_collector.Prelude.Bytes.{
  Bytes, codes, equal, fields, member, without_prefix, trim_of, Table, find, put,
}
use cc_metric_collector.Values.{Result, ok, err}
use cc_metric_collector.Builtins.{itoa}
use cc_metric_collector.Topology.Parse.{atoi, is_digit}
use cc_metric_collector.Sampling.{Value, real, Calls}

pub record Config : Type 0 where
  pub exclude_metrics : List Bytes
  pub node_stats : Bool
  pub numa_stats : Bool

-- `MemstatCollectorNode`
pub record Node : Type 0 where
  pub file : Bytes
  pub tags : Table Bytes

-- `MemstatStats`
pub record Stat (F : Type 0) : Type 0 where
  pub value : F
  pub unit : Bytes

pub record Collector : Type 0 where
  pub matches : Table Bytes
  pub config : Config
  pub nodefiles : List (ℤ × Node)
  pub send_mem_used : Bool
  pub init : Bool

abbrev pub all_matches : Table Bytes
all_matches =
    (codes "MemTotal", codes "mem_total")
    ∷ (codes "SwapTotal", codes "swap_total")
    ∷ (codes "SReclaimable", codes "mem_sreclaimable")
    ∷ (codes "Slab", codes "mem_slab")
    ∷ (codes "MemFree", codes "mem_free")
    ∷ (codes "Buffers", codes "mem_buffers")
    ∷ (codes "Cached", codes "mem_cached")
    ∷ (codes "MemAvailable", codes "mem_available")
    ∷ (codes "SwapFree", codes "swap_free")
    ∷ (codes "Shmem", codes "mem_shared")
    ∷ (codes "Active", codes "mem_active")
    ∷ (codes "Inactive", codes "mem_inactive")
    ∷ (codes "Dirty", codes "mem_dirty")
    ∷ (codes "Writeback", codes "mem_writeback")
    ∷ (codes "AnonPages", codes "mem_anon_pages")
    ∷ (codes "Mapped", codes "mem_mapped")
    ∷ (codes "VmallocTotal", codes "mem_vmalloc_total")
    ∷ (codes "AnonHugePages", codes "mem_anon_hugepages")
    ∷ (codes "ShmemHugePages", codes "mem_shared_hugepages")
    ∷ (codes "ShmemPmdMapped", codes "mem_shared_pmd_mapped")
    ∷ (codes "HugePages_Total", codes "mem_hugepages_total")
    ∷ (codes "HugePages_Free", codes "mem_hugepages_free")
    ∷ (codes "HugePages_Rsvd", codes "mem_hugepages_reserved")
    ∷ (codes "HugePages_Surp", codes "mem_hugepages_surplus")
    ∷ (codes "Hugepagesize", codes "mem_hugepages_size")
    ∷ (codes "DirectMap4k", codes "mem_direct_mapped_4k")
    ∷ (codes "DirectMap4M", codes "mem_direct_mapped_4m")
    ∷ (codes "DirectMap2M", codes "mem_direct_mapped_2m")
    ∷ (codes "DirectMap1G", codes "mem_direct_mapped_1g")
    ∷ (codes "Mlocked", codes "mem_locked")
    ∷ (codes "PageTables", codes "mem_pagetables")
    ∷ (codes "KernelStack", codes "mem_kernelstack")
    ∷ []

unfoldable pub kept_matches : List Bytes → Table Bytes → Table Bytes
kept_matches excluded [] = []
kept_matches excluded ((k, v) ∷ rest) =
    let others = kept_matches excluded rest in
    if not (member v excluded) then (k, v) ∷ others else others

abbrev pub no_matches : Table Bytes → Bool
no_matches [] = true
no_matches (m ∷ ms) = false

-- the digits at the start of a text, and what is behind them
abbrev digits_of : Bytes → Bytes × Bytes
digits_of [] = ([], [])
digits_of (c ∷ cs) =
    let (digits, rest) = digits_of cs in if is_digit c then (c ∷ digits, rest) else ([], c ∷ cs)

-- the number that the regular expression finds in the path of a domain's file
unfoldable pub node_id : Bytes → Option ℤ
node_id path = elim (without_prefix (codes "/sys/devices/system/node/node") path) [
  | none ↦ none
  | some name ↦
      let (digits, rest) = digits_of name in
      if equal rest (codes "/meminfo") then atoi digits else none
]

-- m.nodefiles[id] = f
abbrev set_node : ℤ → Node → List (ℤ × Node) → List (ℤ × Node)
set_node id node [] = (id, node) ∷ []
set_node id node ((other, old) ∷ rest) =
    let kept = (other, old) ∷ set_node id node rest in
    if eqb_ℤ other id then (id, node) ∷ rest else kept

abbrev add_node : Bytes → List (ℤ × Node) → List (ℤ × Node)
add_node path nodes = elim (node_id path) [
  | none ↦ nodes
  | some id ↦
      set_node id
        (record {
          file = path;
          tags = (codes "type", codes "memoryDomain") ∷ (codes "type-id", codes (itoa id)) ∷ [];
        })
        nodes
]

module _ {F Time Msg : Type 0} (calls : Calls F Time Msg) (zero : F) where
  -- a line's name, number and unit in three of its fields
  abbrev set_stat : Bytes → Bytes → Bytes → Table (Stat F) → Table (Stat F)
  set_stat name number unit stats = elim (calls.parse_float number) [
    | none ↦ stats
    | some v ↦ put (trim_of (codes ":") name) (record { value = v; unit = unit }) stats
  ]

  -- the `switch` on the number of fields
  unfoldable pub add_stat : List Bytes → Table (Stat F) → Table (Stat F)
  add_stat (a ∷ b ∷ c ∷ []) stats = set_stat a b c stats
  add_stat (a ∷ b ∷ c ∷ d ∷ e ∷ []) stats = set_stat c d e stats
  add_stat _ stats = stats

  unfoldable pub stats_of : List Bytes → Table (Stat F) → Table (Stat F)
  stats_of [] stats = stats
  stats_of (line ∷ lines) stats = stats_of lines (add_stat (fields line) stats)

  -- `getStats`; a file that cannot be opened has no lines
  unfoldable pub get_stats : Option (List Bytes) → Table (Stat F)
  get_stats none = []
  get_stats (some lines) = stats_of lines []

  abbrev pub is_empty : Table (Stat F) → Bool
  is_empty [] = true
  is_empty (s ∷ ss) = false

  -- the loop over the files of the domains
  unfoldable pub add_nodes :
      (Bytes → Option (List Bytes)) → List Bytes → List (ℤ × Node) → Result (List (ℤ × Node))
  add_nodes files [] nodes = ok nodes
  add_nodes files (path ∷ paths) nodes =
      if is_empty (get_stats (files path))
      then err "cannot read data from file"
      else add_nodes files paths (add_node path nodes)

  abbrev meminfo : Bytes
  meminfo = codes "/proc/meminfo"

  -- the collector with the files of its domains
  abbrev pub collector_of :
      Config → Table Bytes → Bool → Result (List (ℤ × Node)) → Result Collector
  collector_of config matches mem_used (err e) = err e
  collector_of config matches mem_used (ok nodes) = ok record {
    matches = matches;
    config = config;
    nodefiles = nodes;
    send_mem_used = mem_used;
    init = true;
  }

  -- `Init`, with the files by their paths and the paths that are found for the domains
  unfoldable pub init : Config → (Bytes → Option (List Bytes)) → List Bytes → Result Collector
  init config files paths =
      let matches = kept_matches config.exclude_metrics all_matches in
      let mem_used = not (member (codes "mem_used") config.exclude_metrics) in
      if no_matches matches && not mem_used
      then err "no metrics to collect"
      else if config.node_stats && is_empty (get_stats (files meminfo))
      then err "cannot read data from file"
      else collector_of config matches mem_used
          (if config.numa_stats then add_nodes files paths [] else ok [])

abbrev pub meta : Table Bytes
meta = (codes "source", codes "MemstatCollector") ∷ (codes "group", codes "Memory") ∷ []

-- the first unit that is not empty
abbrev or_unit : Bytes → Bytes → Bytes
or_unit [] other = other
or_unit (c ∷ cs) other = c ∷ cs

module _ {F Time Msg : Type 0} (calls : Calls F Time Msg) (zero : F) (now : Time) where
  abbrev pub with_unit : Bytes → Option Msg → List Msg
  with_unit unit none = []
  with_unit [] (some y) = y ∷ []
  with_unit (c ∷ cs) (some y) = calls.add_meta (codes "unit") (c ∷ cs) y ∷ []

  -- the value and the unit of a name, 0 without a unit where it is missing
  unfoldable pub stat_in : Bytes → Table (Stat F) → Stat F
  stat_in name stats = elim (find name stats) [
    | none ↦ record { value = zero; unit = [] }
    | some s ↦ s
  ]

  -- a value less another one, if that is there
  unfoldable pub less_stat : Bytes → Table (Stat F) → Stat F → Stat F
  less_stat name stats used = elim (find name stats) [
    | none ↦ used
    | some s ↦ record { value = calls.subtract used.value s.value; unit = or_unit used.unit s.unit }
  ]

  -- `memUsed` with its unit: nothing without the total and the free memory, and cached and shared
  -- memory are taken off only where the buffers are there
  unfoldable pub mem_used : Table (Stat F) → Stat F
  mem_used stats = elim (find (codes "MemTotal") stats) [
    | none ↦ record { value = zero; unit = [] }
    | some total ↦ elim (find (codes "MemFree") stats) [
      | none ↦ record { value = zero; unit = [] }
      | some free ↦
          let used : Stat F = record {
            value = calls.subtract total.value free.value;
            unit = or_unit total.unit free.unit;
          } in
          elim (find (codes "Buffers") stats) [
            | none ↦ used
            | some buffers ↦
                less_stat (codes "Shmem") stats
                  (less_stat (codes "Cached") stats (less_stat (codes "Buffers") stats used))
          ]
    ]
  ]

  -- the loop over the metrics in `sendStats`
  unfoldable pub send_matches : Table Bytes → Table (Stat F) → Table Bytes → List Msg
  send_matches tags stats [] = []
  send_matches tags stats ((match, name) ∷ rest) =
      let s = stat_in match stats in
      with_unit s.unit (calls.new_metric name tags meta (real s.value) now)
      ++ send_matches tags stats rest

  -- `sendStats`
  unfoldable pub send_stats : Collector → Table (Stat F) → Table Bytes → List Msg
  send_stats m stats tags =
      send_matches tags stats m.matches
      ++ (if m.send_mem_used
          then with_unit (mem_used stats).unit
              (calls.new_metric (codes "mem_used") tags meta (real (mem_used stats).value) now)
          else [])

  unfoldable pub send_nodes : Collector → (Bytes → Option (List Bytes)) → List (ℤ × Node) → List Msg
  send_nodes m files [] = []
  send_nodes m files ((id, node) ∷ rest) =
      send_stats m (get_stats calls zero (files node.file)) node.tags ++ send_nodes m files rest

  -- `Read`
  unfoldable pub read : (Bytes → Option (List Bytes)) → Collector → List Msg
  read files m =
      if not m.init
      then []
      else (if m.config.node_stats
          then send_stats m (get_stats calls zero (files (codes "/proc/meminfo")))
              ((codes "type", codes "node") ∷ [])
          else [])
        ++ (if m.config.numa_stats then send_nodes m files m.nodefiles else [])

-- `Close`
unfoldable pub close : Collector → Collector
close m = record m { init = false }
