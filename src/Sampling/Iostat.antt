-- ===== src/Sampling/Iostat.antt =====
-- collectors/iostatMetric.go: the counters of the block devices, as differences between readings. The
-- lines of the file are a parameter. The maps of the metrics are lists in the order in which the loops
-- take them. The JSON decoder is left out.
pub mod Allowed
use cc_metric_collector.Prelude.{
  ℕ, Bool, true, false, not, ◌||◌, Option, none, some, List, [], ◌∷◌, ◌++◌, ltb, length, get_elem?,
  if◌then◌else◌,
}
use cc_metric_collector.Prelude.Int.{ℤ, pos, ◌-ℤ◌, wrap, half64}
use cc_metric_collector.Prelude.Bytes.{Bytes, codes, fields, contains, member, Table, find, put}
use cc_metric_collector.Prelude.ParseInt.{parse_int, value_of}
use cc_metric_collector.Values.{Result, ok, err}
use cc_metric_collector.Sampling.{Value, whole, Calls, sent}

pub record Config : Type 0 where
  pub exclude_metrics : List Bytes
  pub exclude_devices : List Bytes

-- `IOstatCollectorEntry`
pub record Entry : Type 0 where
  pub current_values : Table ℤ
  pub last_values : Table ℤ
  pub tags : Table Bytes

pub record Collector : Type 0 where
  pub matches : Table ℕ
  pub config : Config
  pub devices : Table Entry
  pub init : Bool

-- the metrics with the fields that they stand in
abbrev pub all_matches : Table ℕ
all_matches =
    (codes "io_reads", 3)
    ∷ (codes "io_reads_merged", 4)
    ∷ (codes "io_read_sectors", 5)
    ∷ (codes "io_read_ms", 6)
    ∷ (codes "io_writes", 7)
    ∷ (codes "io_writes_merged", 8)
    ∷ (codes "io_writes_sectors", 9)
    ∷ (codes "io_writes_ms", 10)
    ∷ (codes "io_ioops", 11)
    ∷ (codes "io_ioops_ms", 12)
    ∷ (codes "io_ioops_weighted_ms", 13)
    ∷ (codes "io_discards", 14)
    ∷ (codes "io_discards_merged", 15)
    ∷ (codes "io_discards_sectors", 16)
    ∷ (codes "io_discards_ms", 17)
    ∷ (codes "io_flushes", 18)
    ∷ (codes "io_flushes_ms", 19)
    ∷ []

unfoldable pub kept_matches : List Bytes → Table ℕ → Table ℕ
kept_matches excluded [] = []
kept_matches excluded ((name, index) ∷ rest) =
    let others = kept_matches excluded rest in
    if member name excluded then others else (name, index) ∷ others

abbrev pub device_tags : Bytes → Table Bytes
device_tags device = (codes "device", device) ∷ (codes "type", codes "node") ∷ []

-- the number in a field, if there are so many and it is one
unfoldable pub number_at : List Bytes → ℕ → Option ℤ
number_at linefields index = elim (get_elem? linefields index) [
  | none ↦ none
  | some field ↦ value_of (parse_int true field)
]

-- the first values of a device, 0 where there is no number
unfoldable pub first_values : List Bytes → Table ℕ → Table ℤ
first_values linefields [] = []
first_values linefields ((name, index) ∷ rest) =
    (name, elim (number_at linefields index) [ none ↦ pos 0 | some v ↦ v ])
    ∷ first_values linefields rest

-- the device of a line that is not passed over
unfoldable pub device_of : Config → List Bytes → Option Bytes
device_of config (major ∷ minor ∷ device ∷ _) =
    if contains (codes "loop") device || member device config.exclude_devices
    then none
    else some device
device_of config _ = none

-- the loop body of `Init`
unfoldable pub init_line : Config → Table ℕ → Bytes → Table Entry → Table Entry
init_line config matches line devices = elim (device_of config (fields line)) [
  | none ↦ devices
  | some device ↦
      let values = first_values (fields line) matches in
      put device
        (record { current_values = values; last_values = values; tags = device_tags device })
        devices
]

unfoldable pub init_lines : Config → Table ℕ → List Bytes → Table Entry → Table Entry
init_lines config matches [] devices = devices
init_lines config matches (line ∷ lines) devices =
    init_lines config matches lines (init_line config matches line devices)

-- `Init` for the metrics that are left
abbrev pub init_with : Config → Option (List Bytes) → Table ℕ → Result Collector
init_with config file [] = err "no metrics to collect"
init_with config none (m ∷ ms) = err "Failed to open file"
init_with config (some lines) (m ∷ ms) = ok record {
  matches = m ∷ ms;
  config = config;
  devices = init_lines config (m ∷ ms) lines [];
  init = true;
}

-- `Init`, with the lines of the file
unfoldable pub init : Config → Option (List Bytes) → Result Collector
init config file = init_with config file (kept_matches config.exclude_metrics all_matches)

abbrev pub meta : Table Bytes
meta = (codes "source", codes "IOstatCollector") ∷ (codes "group", codes "Disk") ∷ []

-- a number of a map, 0 for a missing key
abbrev pub value_in : Bytes → Table ℤ → ℤ
value_in name values = elim (find name values) [ none ↦ pos 0 | some v ↦ v ]

module _ {F Time Msg : Type 0} (calls : Calls F Time Msg) (now : Time) where
  -- the body of the loop over the metrics of a device; the clock is read once here
  unfoldable pub read_match : List Bytes → Bytes → ℕ → Entry → List Msg × Entry
  read_match linefields name index entry = elim (number_at linefields index) [
    | none ↦ ([], entry)
    | some x ↦
        let current = value_in name entry.current_values in
        (
          sent (calls.new_metric name entry.tags meta (whole (wrap half64 (x -ℤ current))) now),
          record entry {
            last_values = put name current entry.last_values;
            current_values = put name x entry.current_values;
          },
        )
  ]

  unfoldable pub read_matches : List Bytes → Table ℕ → Entry → List Msg × Entry
  read_matches linefields [] entry = ([], entry)
  read_matches linefields ((name, index) ∷ rest) entry =
      let (msgs, entry') = read_match linefields name index entry in
      let (more, last) = read_matches linefields rest entry' in (msgs ++ more, last)

  -- the loop body of `Read`
  unfoldable pub read_line : Collector → Bytes → Table Entry → List Msg × Table Entry
  read_line m line devices = elim (device_of m.config (fields line)) [
    | none ↦ ([], devices)
    | some device ↦ elim (find device devices) [
      | none ↦ ([], devices)
      | some entry ↦
          let (msgs, entry') = read_matches (fields line) m.matches entry in
          (msgs, put device entry' devices)
    ]
  ]

  unfoldable pub read_lines : Collector → List Bytes → Table Entry → List Msg × Table Entry
  read_lines m [] devices = ([], devices)
  read_lines m (line ∷ lines) devices =
      let (msgs, devices') = read_line m line devices in
      let (rest, last) = read_lines m lines devices' in (msgs ++ rest, last)

  -- `Read`
  unfoldable pub read : Option (List Bytes) → Collector → List Msg × Collector
  read file m = if not m.init then ([], m) else elim file [
    | none ↦ ([], m)
    | some lines ↦
        let (msgs, devices) = read_lines m lines m.devices in (msgs, record m { devices = devices })
  ]

-- `Close`
unfoldable pub close : Collector → Collector
close m = record m { init = false }
