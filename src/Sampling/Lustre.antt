-- ===== src/Sampling/Lustre.antt =====
-- collectors/lustreMetric.go: the counters of the Lustre file systems, from the output of lctl, which
-- is a parameter with the search for programs and the user's ID. The JSON decoder is left out.
pub mod Growth
use cc_metric_collector.Prelude.{
  ℕ, Bool, true, false, not, Option, none, some, List, [], ◌∷◌, ◌++◌, if◌then◌else◌,
}
use cc_metric_collector.Prelude.Int.{ℤ, pos, ◌-ℤ◌, ltb_ℤ, wrap, half64}
use cc_metric_collector.Prelude.Bytes.{
  Bytes, codes, equal, fields, member, has_prefix, Table, find, put,
}
use cc_metric_collector.Prelude.ParseInt.{parse_int, value_of}
use cc_metric_collector.Prelude.Run.{Run, done, at, ◌>>=◌}
use cc_metric_collector.Values.{Result, ok, err}
use cc_metric_collector.Topology.Parse.{split}
use cc_metric_collector.Sampling.{Value, real, whole, Calls, sent}

pub data Calc : Type 0 where
  plain difference derivative : Calc

-- `LustreMetricDefinition`
pub record Definition : Type 0 where
  pub name : Bytes
  pub lineprefix : Bytes
  pub lineoffset : ℕ
  pub unit : Bytes
  pub calc : Calc

pub record Config : Type 0 where
  pub lctl_command : Bytes
  pub exclude_metrics : List Bytes
  pub use_sudo : Bool
  pub send_absolute_values : Bool
  pub send_derived_values : Bool
  pub send_diff_values : Bool

-- What the collector asks for: the current user's ID, the path of a program, and the output of lctl
-- for a device, run with its path, with sudo or without.
pub record System : Type 0 where
  pub current_uid : Option Bytes
  pub look_path : Bytes → Option Bytes
  pub lctl_output : Option Bytes → Bytes → Bytes → Bytes

pub record Collector (Time : Type 0) : Type 0 where
  pub lctl : Bytes
  pub sudo_cmd : Option Bytes
  pub last_timestamp : Time
  pub definitions : List Definition
  pub stats : Table (Table ℤ)
  pub init : Bool

-- the fields of a definition, in their order
abbrev def : Bytes → Bytes → ℕ → Bytes → Calc → Definition
def name lineprefix lineoffset unit calc = record {
  name = name;
  lineprefix = lineprefix;
  lineoffset = lineoffset;
  unit = unit;
  calc = calc;
}

-- `LustreAbsMetrics`
abbrev pub abs_metrics : List Definition
abs_metrics =
    def (codes "lustre_read_requests") (codes "read_bytes") 1 (codes "requests") plain
    ∷ def (codes "lustre_write_requests") (codes "write_bytes") 1 (codes "requests") plain
    ∷ def (codes "lustre_read_bytes") (codes "read_bytes") 6 (codes "bytes") plain
    ∷ def (codes "lustre_write_bytes") (codes "write_bytes") 6 (codes "bytes") plain
    ∷ def (codes "lustre_open") (codes "open") 1 [] plain
    ∷ def (codes "lustre_close") (codes "close") 1 [] plain
    ∷ def (codes "lustre_setattr") (codes "setattr") 1 [] plain
    ∷ def (codes "lustre_getattr") (codes "getattr") 1 [] plain
    ∷ def (codes "lustre_statfs") (codes "statfs") 1 [] plain
    ∷ def (codes "lustre_inode_permission") (codes "inode_permission") 1 [] plain
    ∷ []

-- `LustreDiffMetrics`
abbrev pub diff_metrics : List Definition
diff_metrics =
    def (codes "lustre_read_requests_diff") (codes "read_bytes") 1 (codes "requests") difference
    ∷ def (codes "lustre_write_requests_diff") (codes "write_bytes") 1 (codes "requests") difference
    ∷ def (codes "lustre_read_bytes_diff") (codes "read_bytes") 6 (codes "bytes") difference
    ∷ def (codes "lustre_write_bytes_diff") (codes "write_bytes") 6 (codes "bytes") difference
    ∷ def (codes "lustre_open_diff") (codes "open") 1 [] difference
    ∷ def (codes "lustre_close_diff") (codes "close") 1 [] difference
    ∷ def (codes "lustre_setattr_diff") (codes "setattr") 1 [] difference
    ∷ def (codes "lustre_getattr_diff") (codes "getattr") 1 [] difference
    ∷ def (codes "lustre_statfs_diff") (codes "statfs") 1 [] difference
    ∷ def (codes "lustre_inode_permission_diff") (codes "inode_permission") 1 [] difference
    ∷ []

-- `LustreDeriveMetrics`
abbrev pub derive_metrics : List Definition
derive_metrics =
    def (codes "lustre_read_requests_rate") (codes "read_bytes") 1 (codes "requests/sec") derivative
    ∷ def (codes "lustre_write_requests_rate") (codes "write_bytes") 1 (codes "requests/sec")
        derivative
    ∷ def (codes "lustre_read_bw") (codes "read_bytes") 6 (codes "bytes/sec") derivative
    ∷ def (codes "lustre_write_bw") (codes "write_bytes") 6 (codes "bytes/sec") derivative
    ∷ []

-- `getDeviceDataCommand`, whose error is not looked at
unfoldable pub get_device_data_command : System → Option Bytes → Bytes → Bytes → List Bytes
get_device_data_command sys sudo lctl device =
    split b'\n' (sys.lctl_output sudo lctl (codes "llite." ++ device ++ codes ".stats"))

abbrev device_of : List Bytes → List Bytes
device_of (first ∷ device ∷ third ∷ _) = device ∷ []
device_of _ = []

abbrev devices_in : List Bytes → List Bytes
devices_in [] = []
devices_in (line ∷ lines) =
    let rest = devices_in lines in
    if has_prefix (codes "llite") line then device_of (split b'.' line) ++ rest else rest

-- `getDevices`
unfoldable pub get_devices : System → Option Bytes → Bytes → List Bytes
get_devices sys sudo lctl = devices_in (get_device_data_command sys sudo lctl (codes "*"))

-- `getMetricData`: the number in the first line with the prefix; `none` stands for an error
unfoldable pub get_metric_data : List Bytes → Bytes → ℕ → Run (Option ℤ)
get_metric_data [] prefix offset = done none
get_metric_data (line ∷ lines) prefix offset =
    if has_prefix prefix line
    then (do field ← at (fields line) offset; done (value_of (parse_int true field)))
    else get_metric_data lines prefix offset

abbrev kept : List Bytes → List Definition → List Definition
kept excluded [] = []
kept excluded (d ∷ ds) =
    let rest = kept excluded ds in if member d.name excluded then rest else d ∷ rest

-- the definitions that `Init` combines
unfoldable pub definitions_of : Config → List Definition
definitions_of config =
    (if config.send_absolute_values then kept config.exclude_metrics abs_metrics else [])
    ++ (if config.send_diff_values then kept config.exclude_metrics diff_metrics else [])
    ++ (if config.send_derived_values then kept config.exclude_metrics derive_metrics else [])

-- the test on the user and the search for sudo in `Init`
abbrev sudo_of : System → Bool → Result (Option Bytes)
sudo_of sys true = elim (sys.look_path (codes "sudo")) [
  | none ↦ err "Cannot find 'sudo'"
  | some p ↦ ok (some p)
]
sudo_of sys false = elim sys.current_uid [
  | none ↦ err "Failed to get current user"
  | some uid ↦
      if equal uid (codes "0")
      then ok none
      else err "Lustre file system statistics can only be queried by user root"
]

abbrev lctl_of : System → Bytes → Result Bytes
lctl_of sys command = elim (sys.look_path command) [
  | some p ↦ ok p
  | none ↦ elim (sys.look_path (codes "lctl")) [
    | some p ↦ ok p
    | none ↦ err "Cannot find lctl command"
  ]
]

-- the first values of a device, 0 where there is none
unfoldable pub first_values : List Bytes → List Definition → Table ℤ → Run (Table ℤ)
first_values lines [] values = done values
first_values lines (d ∷ ds) values = do
  x ← get_metric_data lines d.lineprefix d.lineoffset
  first_values lines ds (put d.name (elim x [ none ↦ pos 0 | some v ↦ v ]) values)

unfoldable pub first_stats :
    (Bytes → List Bytes) → List Definition → List Bytes → Table (Table ℤ) → Run (Table (Table ℤ))
first_stats lines definitions [] stats = done stats
first_stats lines definitions (device ∷ devices) stats = do
  values ← first_values (lines device) definitions []
  first_stats lines definitions devices (put device values stats)

module _ {Time : Type 0} where
  -- the rest of `Init`, with the programs that are found
  abbrev init_with : System → Config → Time → Option Bytes → Bytes → Run (Result (Collector Time))
  init_with sys config now sudo lctl = elim (definitions_of config) [
    | [] ↦ done (err "no metrics to collect")
    | d ∷ ds ↦ elim (get_devices sys sudo lctl) [
      | [] ↦ done (err "no Lustre devices found")
      | device ∷ devices ↦ do
        stats ← first_stats (get_device_data_command sys sudo lctl) (d ∷ ds) (device ∷ devices) []
        done (
            ok record {
              lctl = lctl;
              sudo_cmd = sudo;
              last_timestamp = now;
              definitions = d ∷ ds;
              stats = stats;
              init = true;
            })
    ]
  ]

  -- `Init`, with the clock
  unfoldable pub init : System → Config → Time → Run (Result (Collector Time))
  init sys config now = elim (sudo_of sys config.use_sudo) [
    | err e ↦ done (err e)
    | ok sudo ↦ elim (lctl_of sys config.lctl_command) [
      | err e ↦ done (err e)
      | ok lctl ↦ init_with sys config now sudo lctl
    ]
  ]

abbrev pub tags : Table Bytes
tags = (codes "type", codes "node") ∷ []

abbrev pub meta : Table Bytes
meta = (codes "source", codes "LustreCollector") ∷ (codes "group", codes "Lustre") ∷ []

-- the last value of a definition, 0 if there is none
abbrev pub last_of : Bytes → Table ℤ → ℤ
last_of name values = elim (find name values) [ none ↦ pos 0 | some v ↦ v ]

abbrev pub or_last : Option ℤ → ℤ → ℤ
or_last none last = last
or_last (some x) last = x

module _ {F Time Msg : Type 0} (calls : Calls F Time Msg) where
  -- the `switch` on the calculation
  unfoldable pub value_for : Calc → F → ℤ → ℤ → Value F
  value_for plain seconds x last = whole x
  value_for difference seconds x last =
      let diff = wrap half64 (x -ℤ last) in if ltb_ℤ diff (pos 0) then whole (pos 0) else whole diff
  value_for derivative seconds x last =
      let rate = calls.divide (calls.of_int (wrap half64 (x -ℤ last))) seconds in
      if calls.negative rate then whole (pos 0) else real rate

  abbrev pub labelled : Bytes → Bytes → Option Msg → List Msg
  labelled device unit none = []
  labelled device unit (some y) =
      let tagged = calls.add_tag (codes "device") device y in
      (if equal unit [] then tagged else calls.add_meta (codes "unit") unit tagged) ∷ []

  -- the body of the loop over the definitions; the clock is read once for all messages here
  unfoldable pub read_definition :
      Bytes → List Bytes → F → Time → Definition → Table ℤ → Run (List Msg × Table ℤ)
  read_definition device lines seconds now d values = do
    x ← get_metric_data lines d.lineprefix d.lineoffset
    let last = last_of d.name values
    let value = value_for d.calc seconds (or_last x last) last
    done (
      labelled device d.unit (calls.new_metric d.name tags meta value now),
      put d.name (or_last x last) values,
    )

  unfoldable pub read_definitions :
      Bytes → List Bytes → F → Time → List Definition → Table ℤ → Run (List Msg × Table ℤ)
  read_definitions device lines seconds now [] values = done ([], values)
  read_definitions device lines seconds now (d ∷ ds) values = do
    (msgs, values') ← read_definition device lines seconds now d values
    (rest, last) ← read_definitions device lines seconds now ds values'
    done (msgs ++ rest, last)

  -- the loop over the devices
  unfoldable pub read_devices :
      (Bytes → List Bytes)
      → F
      → Time
      → List Definition
      → Table (Table ℤ)
      → Run (List Msg × Table (Table ℤ))
  read_devices lines seconds now ds [] = done ([], [])
  read_devices lines seconds now ds ((device, values) ∷ stats) = do
    (msgs, values') ← read_definitions device (lines device) seconds now ds values
    (rest, stats') ← read_devices lines seconds now ds stats
    done (msgs ++ rest, (device, values') ∷ stats')

  -- `Read`
  unfoldable pub read : System → Time → Collector Time → Run (List Msg × Collector Time)
  read sys now m = if not m.init then done ([], m) else do
    (msgs, stats) ←
        read_devices (get_device_data_command sys m.sudo_cmd m.lctl)
          (calls.seconds now m.last_timestamp) now m.definitions m.stats
    done (msgs, record m { stats = stats; last_timestamp = now })

-- `Close`
unfoldable pub close : {Time : Type 0} → Collector Time → Collector Time
close m = record m { init = false }
