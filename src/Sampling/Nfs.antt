-- ===== src/Sampling/Nfs.antt =====
-- collectors/nfsMetric.go: the counters of NFS version 3 and 4, from the output of nfsstat, which is a
-- parameter with the search for the program. The map of the counters is a list in the order in which
-- the loops take it. The JSON decoder is left out.
pub mod Counters
use cc_metric_collector.Prelude.{
  Bool, true, false, not, ◌&&◌, Option, none, some, List, [], ◌∷◌, ◌++◌, if◌then◌else◌,
}
use cc_metric_collector.Prelude.Int.{ℤ, pos, negsuc, ◌-ℤ◌, ltb_ℤ, wrap, half64}
use cc_metric_collector.Prelude.Bytes.{
  Bytes, codes, equal, fields, member, trim_of, Table, find, put,
}
use cc_metric_collector.Prelude.ParseInt.{parse_int, value_of}
use cc_metric_collector.Values.{Result, ok, err}
use cc_metric_collector.Topology.Parse.{split}
use cc_metric_collector.Sampling.{Value, whole, Calls}

-- `NfsCollectorData`
pub record Counter : Type 0 where
  pub current : ℤ
  pub last : ℤ

pub record Config : Type 0 where
  pub nfsstats : Bytes
  pub exclude_metrics : List Bytes

pub record Collector : Type 0 where
  pub name : Bytes
  pub version : Bytes
  pub config : Config
  pub counters : Table Counter
  pub init : Bool

-- What the collector asks for: the path of a program, and the output of nfsstat.
pub record System : Type 0 where
  pub look_path : Bytes → Option Bytes
  pub nfsstat_output : Bytes → Option Bytes

-- the first loop of `updateStats`
unfoldable pub shifted : Table Counter → Table Counter
shifted [] = []
shifted ((name, c) ∷ rest) = (name, record { current = negsuc 0; last = c.current }) ∷ shifted rest

-- the name and the number of a line of the version; `none` for a line that is passed over
abbrev pub counter_of : Bytes → List Bytes → Option (Bytes × Option ℤ)
counter_of version (a ∷ v ∷ c ∷ name ∷ number ∷ []) =
    if equal v version
    then some (trim_of (codes ":") name, value_of (parse_int true number))
    else none
counter_of version _ = none

-- the counter with a new value; one that was not there has no last value
unfoldable pub set_current : Bytes → ℤ → Table Counter → Table Counter
set_current name value counters = elim (find name counters) [
  | none ↦ put name (record { current = value; last = negsuc 0 }) counters
  | some c ↦ put name (record c { current = value }) counters
]

-- the loop over the lines; it ends with an error at a number that is none
unfoldable pub update_lines : Bytes → List Bytes → Table Counter → Bool × Table Counter
update_lines version [] counters = (true, counters)
update_lines version (line ∷ lines) counters = elim (counter_of version (fields line)) [
  | none ↦ update_lines version lines counters
  | some (name, none) ↦ (false, counters)
  | some (name, some value) ↦ update_lines version lines (set_current name value counters)
]

-- `updateStats`: whether it succeeds, and the counters behind it. `strings.Lines` and a split at the
-- line feeds give lines of the same fields, but for an empty last one.
unfoldable pub update_stats : System → Collector → Bool × Table Counter
update_stats sys m = elim (sys.nfsstat_output m.config.nfsstats) [
  | none ↦ (false, m.counters)
  | some buffer ↦ update_lines m.version (split b'\n' buffer) (shifted m.counters)
]

-- `MainInit` for a name and a version, with the program's name in the configuration
unfoldable pub main_init : System → Bytes → Bytes → Config → Result Collector
main_init sys name version config = elim (sys.look_path config.nfsstats) [
  | none ↦ err "Failed to find nfsstat binary"
  | some p ↦
      let start : Collector = record {
        name = name;
        version = version;
        config = config;
        counters = [];
        init = false;
      } in
      let (succeeds, counters) = update_stats sys start in
      if succeeds then ok (record start { counters = counters; init = true }) else err "Init()"
]

-- `Nfs3Collector.Init` and `Nfs4Collector.Init`
unfoldable pub init3 : System → Config → Result Collector
init3 sys config = main_init sys (codes "Nfs3Collector") (codes "v3") config

unfoldable pub init4 : System → Config → Result Collector
init4 sys config = main_init sys (codes "Nfs4Collector") (codes "v4") config

-- the `switch` on the version
abbrev pub prefix_of : Bytes → Bytes
prefix_of version =
    if equal version (codes "v3")
    then codes "nfs3"
    else if equal version (codes "v4")
    then codes "nfs4"
    else codes "nfs"

abbrev pub tags : Table Bytes
tags = (codes "type", codes "node") ∷ []

abbrev pub meta : Bytes → Table Bytes
meta name = (codes "source", name) ∷ (codes "group", codes "NFS") ∷ []

abbrev pub not_negative : ℤ → Bool
not_negative v = not (ltb_ℤ v (pos 0))

module _ {F Time Msg : Type 0} (calls : Calls F Time Msg) (now : Time) where
  abbrev pub versioned : Bytes → Option Msg → List Msg
  versioned version none = []
  versioned version (some y) = calls.add_meta (codes "version") version y ∷ []

  -- the body of the loop over the counters
  unfoldable pub counter_messages : Collector → Bytes → Counter → List Msg
  counter_messages m name c =
      if member name m.config.exclude_metrics
      then []
      else if not_negative c.current && not_negative c.last
      then versioned m.version (
          calls.new_metric (prefix_of m.version ++ codes "_" ++ name) tags (meta m.name)
            (whole (wrap half64 (c.current -ℤ c.last))) now)
      else []

  unfoldable pub messages : Collector → Table Counter → List Msg
  messages m [] = []
  messages m ((name, c) ∷ rest) = counter_messages m name c ++ messages m rest

  -- `Read`
  unfoldable pub read : System → Collector → List Msg × Collector
  read sys m =
      if not m.init
      then ([], m)
      else let (succeeds, counters) = update_stats sys m in
        (if succeeds then messages m counters else [], record m { counters = counters })

-- `Close`
unfoldable pub close : Collector → Collector
close m = record m { init = false }
