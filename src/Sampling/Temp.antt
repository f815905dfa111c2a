-- ===== src/Sampling/Temp.antt =====
-- collectors/tempMetric.go: the temperature sensors of a node. A sensor file stands with what it and the
-- files beside it hold. Labels are ASCII, as those of the kernel are: `ToLower` changes A to Z. The
-- overrides of the tags are a list in the order in which their loop takes them. The JSON decoder is left
-- out, and the clock is read once.
pub mod Naming
use cc_metric_collector.Prelude.{
  ℕ, ◌+◌, ◌/◌, Bool, true, false, not, ◌&&◌, ◌||◌, Option, none, some, List, [], ◌∷◌, ◌++◌, map,
  leb, ◌==◌, if◌then◌else◌,
}
use cc_metric_collector.Prelude.Int.{ℤ, pos, negsuc, ◌-ℤ◌, eqb_ℤ}
use cc_metric_collector.Prelude.Bytes.{
  Bytes, codes, equal, has_prefix, without_prefix, contains, Table,
}
use cc_metric_collector.Values.{Result, ok, err}
use cc_metric_collector.Topology.Parse.{trim_space, atoi}
use cc_metric_collector.Sampling.{Value, whole, Calls, sent}

-- a sensor file with the files of its name, label, highest and critical temperature
pub record SensorFiles : Type 0 where
  pub path : Bytes
  pub name : Option Bytes
  pub label : Option Bytes
  pub input : Option Bytes
  pub highest : Option Bytes
  pub critical : Option Bytes

-- `TempCollectorSensor`
pub record Sensor : Type 0 where
  pub metric_name : Bytes
  pub file : Bytes
  pub max_temp_name : Bytes
  pub max_temp : ℤ
  pub crit_temp_name : Bytes
  pub crit_temp : ℤ
  pub tags : Table Bytes

pub record Config : Type 0 where
  pub exclude_metrics : List Bytes
  pub tag_override : Table (Table Bytes)
  pub report_max_temp : Bool
  pub report_critical_temp : Bool

pub record Collector : Type 0 where
  pub config : Config
  pub sensors : List Sensor
  pub init : Bool

-- the text of a file, empty where it cannot be read
abbrev pub text_of : Option Bytes → Bytes
text_of none = []
text_of (some bytes) = trim_space bytes

abbrev joined : Bytes → Bytes → Bytes
joined [] label = label
joined (c ∷ cs) [] = c ∷ cs
joined (c ∷ cs) (l ∷ ls) = (c ∷ cs) ++ b'_' ∷ l ∷ ls

-- the `switch` on the name and the label
unfoldable pub sensor_name : Bytes → Bytes → Option Bytes
sensor_name [] [] = none
sensor_name name label = some (
    if equal name (codes "coretemp")
      && (has_prefix (codes "Core ") label || has_prefix (codes "Package id ") label)
    then codes "temp_" ++ label
    else joined name label)

abbrev pub is_upper : ℕ → Bool
is_upper c = leb 65 c && leb c 90

-- a byte of `strings.ToLower` and `strings.ReplaceAll` of " " by "_"
unfoldable pub plain_byte : ℕ → ℕ
plain_byte c = if is_upper c then c + 32 else if c == 32 then 95 else c

unfoldable pub with_prefix : Bytes → Bytes
with_prefix name = if not (contains (codes "temp") name) then codes "temp_" ++ name else name

-- the name of the metric
unfoldable pub metric_name : Bytes → Bytes
metric_name name = with_prefix (map plain_byte name)

-- strings.Replace(s, old, new, 1)
unfoldable pub replace_first : Bytes → Bytes → Bytes → Bytes
replace_first old new [] = elim (without_prefix old []) [ none ↦ [] | some rest ↦ new ++ rest ]
replace_first old new (c ∷ cs) =
    let later = c ∷ replace_first old new cs in
    elim (without_prefix old (c ∷ cs)) [ none ↦ later | some rest ↦ new ++ rest ]

-- Go's division of an int64 by 1000, towards zero
unfoldable pub thousandth : ℤ → ℤ
thousandth (pos n) = pos (n / 1000)
thousandth (negsuc n) = pos 0 -ℤ pos ((n + 1) / 1000)

-- the number of a file in degrees
unfoldable pub degrees : Option Bytes → Option ℤ
degrees none = none
degrees (some buffer) = elim (atoi (trim_space buffer)) [
  | none ↦ none
  | some x ↦ some (thousandth x)
]

-- the first override whose key is in the path
unfoldable pub tags_for : Table (Table Bytes) → Bytes → Table Bytes
tags_for [] file = (codes "type", codes "node") ∷ []
tags_for ((key, newtags) ∷ rest) file =
    let others = tags_for rest file in if contains key file then newtags else others

-- a temperature that is reported with its name, if the file shows one
unfoldable pub limit : Bool → Option Bytes → Bytes → Bytes → Bytes × ℤ
limit false file new name = ([], pos 0)
limit true file new name = elim (degrees file) [
  | none ↦ ([], pos 0)
  | some x ↦ (replace_first (codes "temp") new name, x)
]

-- the loop body of `Init` for a sensor with a name
unfoldable pub make_sensor : Config → SensorFiles → Bytes → List Sensor
make_sensor config f name = elim f.input [
  | none ↦ []
  | some _ ↦
      let (max_name, max_temp) = limit config.report_max_temp f.highest (codes "max_temp") name in
      let (crit_name, crit_temp) =
        limit config.report_critical_temp f.critical (codes "crit_temp") name in
      record {
        metric_name = name;
        file = f.path;
        max_temp_name = max_name;
        max_temp = max_temp;
        crit_temp_name = crit_name;
        crit_temp = crit_temp;
        tags = tags_for config.tag_override f.path;
      }
      ∷ []
]

-- the loop body of `Init`
unfoldable pub sensor_of : Config → SensorFiles → List Sensor
sensor_of config f = elim (sensor_name (text_of f.name) (text_of f.label)) [
  | none ↦ []
  | some name ↦ make_sensor config f (metric_name name)
]

unfoldable pub sensors_of : Config → List SensorFiles → List Sensor
sensors_of config [] = []
sensors_of config (f ∷ fs) = sensor_of config f ++ sensors_of config fs

abbrev pub collector_of : Config → List Sensor → Result Collector
collector_of config [] = err "no temperature sensors found"
collector_of config (s ∷ ss) = ok (record { config = config; sensors = s ∷ ss; init = true })

-- `Init`, with the sensor files that are found
unfoldable pub init : Config → List SensorFiles → Collector → Result Collector
init config files m = if m.init then ok m else elim files [
  | [] ↦ err "unable to find any files"
  | f ∷ fs ↦ collector_of config (sensors_of config (f ∷ fs))
]

abbrev pub meta : Table Bytes
meta =
    (codes "source", codes "TempCollector")
    ∷ (codes "group", codes "IPMI")
    ∷ (codes "unit", codes "degC")
    ∷ []

module _ {F Time Msg : Type 0} (calls : Calls F Time Msg) (now : Time) where
  -- a metric of a sensor
  abbrev pub temperature : Sensor → Bytes → ℤ → List Msg
  temperature s name x = sent (calls.new_metric name s.tags meta (whole x) now)

  -- the message of a limit that is reported and is not 0
  abbrev send_limit : Bool → Sensor → Bytes → ℤ → List Msg
  send_limit reported s name x =
      if reported && not (eqb_ℤ x (pos 0)) then temperature s name x else []

  -- the loop body of `Read`
  unfoldable pub read_sensor : Config → Option Bytes → Sensor → List Msg
  read_sensor config file s = elim (degrees file) [
    | none ↦ []
    | some x ↦
        temperature s s.metric_name x
        ++ send_limit config.report_max_temp s s.max_temp_name s.max_temp
        ++ send_limit config.report_critical_temp s s.crit_temp_name s.crit_temp
  ]

  unfoldable pub read_sensors : Config → (Bytes → Option Bytes) → List Sensor → List Msg
  read_sensors config files [] = []
  read_sensors config files (s ∷ ss) =
      read_sensor config (files s.file) s ++ read_sensors config files ss

  -- `Read`, which does not look at the flag `init`
  unfoldable pub read : (Bytes → Option Bytes) → Collector → List Msg
  read files m = read_sensors m.config files m.sensors

-- `Close`
unfoldable pub close : Collector → Collector
close m = record m { init = false }
