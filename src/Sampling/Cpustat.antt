-- ===== src/Sampling/Cpustat.antt =====
-- collectors/cpustatMetric.go: the shares of time that the hardware threads spend in each state, and
-- their number. The lines of the file and the ticks of a second are parameters. The maps of the metrics
-- and of the values are lists in the order in which the loops take them. A number that is not one is at
-- `Init` what ParseInt gives with its error. The JSON decoder is left out.
pub mod Names
pub mod Threads
use cc_metric_collector.Prelude.{
  ℕ, ◌+◌, Bool, true, false, not, Option, none, some, List, [], ◌∷◌, ◌++◌, if◌then◌else◌,
}
use cc_metric_collector.Prelude.Int.{ℤ, pos, ◌-ℤ◌, wrap, half64}
use cc_metric_collector.Prelude.Bytes.{
  Bytes, codes, equal, fields, has_prefix, trim_left_of, member, Table, find, put,
}
use cc_metric_collector.Prelude.ParseInt.{Parsed, parse_int, value_of, value_anyway}
use cc_metric_collector.Prelude.Run.{Run, done, panic, at, ◌>>=◌}
use cc_metric_collector.Values.{Result, ok, err}
use cc_metric_collector.Builtins.{itoa}
use cc_metric_collector.Sampling.{Value, real, whole, Calls, int_or_nearest}

-- `CpustatCollectorConfig`; the flag for the number of hardware threads is in the collector
pub record Config : Type 0 where
  pub exclude_metrics : List Bytes

-- the tags and the values of the hardware threads
pub record Maps : Type 0 where
  pub cputags : Table (Table Bytes)
  pub olddata : Table (Table ℤ)

pub record Collector (Time : Type 0) : Type 0 where
  pub exclude_num_cpus : Bool
  pub last_timestamp : Time
  pub matches : List (Bytes × ℕ)
  pub maps : Maps
  pub init : Bool

abbrev pub all_matches : List (Bytes × ℕ)
all_matches =
    (codes "cpu_user", 1)
    ∷ (codes "cpu_nice", 2)
    ∷ (codes "cpu_system", 3)
    ∷ (codes "cpu_idle", 4)
    ∷ (codes "cpu_iowait", 5)
    ∷ (codes "cpu_irq", 6)
    ∷ (codes "cpu_softirq", 7)
    ∷ (codes "cpu_steal", 8)
    ∷ (codes "cpu_guest", 9)
    ∷ (codes "cpu_guest_nice", 10)
    ∷ []

unfoldable pub kept_matches : List Bytes → List (Bytes × ℕ) → List (Bytes × ℕ)
kept_matches excluded [] = []
kept_matches excluded ((name, index) ∷ rest) =
    let others = kept_matches excluded rest in
    if not (member name excluded) then (name, index) ∷ others else others

-- the values of a line at `Init`
unfoldable pub first_values : List (Bytes × ℕ) → List Bytes → Run (Table ℤ)
first_values [] linefields = done []
first_values ((name, index) ∷ rest) linefields = do
  field ← at linefields index
  others ← first_values rest linefields
  done ((name, value_anyway (parse_int true field)) ∷ others)

abbrev hwthread_tags : Bytes → Table Bytes
hwthread_tags name =
    (codes "type", codes "hwthread")
    ∷ (codes "type-id", codes (itoa (int_or_nearest (trim_left_of (codes "cpu") name))))
    ∷ []

-- the loop body of `Init`
unfoldable pub init_line : List (Bytes × ℕ) → Bytes → Maps → Run Maps
init_line matches line maps = do
  name ← at (fields line) 0
  if equal name (codes "cpu")
      then (do
        values ← first_values matches (fields line)
        done (record maps { olddata = put name values maps.olddata }))
      else if has_prefix (codes "cpu") name
      then (do
        values ← first_values matches (fields line)
        done (record {
          cputags = put name (hwthread_tags name) maps.cputags;
          olddata = put name values maps.olddata;
        }))
      else done maps

unfoldable pub init_lines : List (Bytes × ℕ) → List Bytes → Maps → Run Maps
init_lines matches [] maps = done maps
init_lines matches (line ∷ lines) maps = do
  maps' ← init_line matches line maps
  init_lines matches lines maps'

-- `Init`, with the lines of the file and the clock
unfoldable pub init :
    {Time : Type 0} → Config → Time → Option (List Bytes) → Run (Result (Collector Time))
init config now none = done (err "Failed to open file")
init config now (some lines) = do
  let matches = kept_matches config.exclude_metrics all_matches
  maps ← init_lines matches lines (record { cputags = []; olddata = [] })
  done (
      ok record {
        exclude_num_cpus = member (codes "num_cpus") config.exclude_metrics;
        last_timestamp = now;
        matches = matches;
        maps = maps;
        init = true;
      })

abbrev pub meta : Table Bytes
meta = (codes "source", codes "CpustatCollector") ∷ (codes "group", codes "CPU") ∷ []

abbrev pub nodetags : Table Bytes
nodetags = (codes "type", codes "node") ∷ []

-- an entry of a map, or the nil map
abbrev pub inner : {V : Type 0} → Bytes → Table (Table V) → Table V
inner name table = elim (find name table) [ none ↦ [] | some t ↦ t ]

-- a value of a map, or 0
abbrev pub value_in : Bytes → Table ℤ → ℤ
value_in name values = elim (find name values) [ none ↦ pos 0 | some v ↦ v ]

-- Storing a value in the map of a line: that of a name that `Init` did not see is nil, and writing
-- to it panics.
unfoldable pub store_value : Bytes → Bytes → ℤ → Table (Table ℤ) → Run (Table (Table ℤ))
store_value name match x olddata = elim (find name olddata) [
  | none ↦ panic
  | some values ↦ done (put name (put match x values) olddata)
]

module _ {F Time Msg : Type 0} (calls : Calls F Time Msg) (clktck : ℤ) (now : Time)
    (seconds : F) where
  -- the share of the time between two readings
  abbrev pub share : ℤ → ℤ → F
  share x old =
      calls.divide (calls.divide (calls.of_int (wrap half64 (x -ℤ old))) seconds)
        (calls.of_int clktck)

  -- the first loop of `parseStatLine`, for a line with the given name: the shares, and the new values
  unfoldable pub shares :
      Bytes
      → List (Bytes × ℕ)
      → List Bytes
      → Table (Table ℤ)
      → Run (List (Bytes × F) × Table (Table ℤ))
  shares name [] linefields olddata = done ([], olddata)
  shares name ((match, index) ∷ rest) linefields olddata = do
    field ← at linefields index
    elim (value_of (parse_int true field)) [
      | none ↦ shares name rest linefields olddata
      | some x ↦ do
        olddata' ← store_value name match x olddata
        (others, last) ← shares name rest linefields olddata'
        done ((match, share x (value_in match (inner name olddata))) ∷ others, last)
    ]

  abbrev pub in_percent : Option Msg → List Msg
  in_percent none = []
  in_percent (some y) = calls.add_tag (codes "unit") (codes "Percent") y ∷ []

  abbrev pub percentage : Bytes → Table Bytes → F → List Msg
  percentage name tags value =
      in_percent
        (calls.new_metric name tags meta (real (calls.times value (calls.of_int (pos 100)))) now)

  -- the second loop of `parseStatLine`: the messages, and the sum of the shares
  unfoldable pub send_shares : Table Bytes → List (Bytes × F) → F → List Msg × F
  send_shares tags [] sum = ([], sum)
  send_shares tags ((name, value) ∷ rest) sum =
      let (msgs, total) = send_shares tags rest (calls.add sum value) in
      (percentage name tags value ++ msgs, total)

  -- the share that is not idle
  unfoldable pub send_used : Table Bytes → List (Bytes × F) → F → List Msg
  send_used tags values sum = elim (find (codes "cpu_idle") values) [
    | none ↦ []
    | some v ↦ percentage (codes "cpu_used") tags (calls.subtract sum v)
  ]

  -- `parseStatLine`
  unfoldable pub parse_stat_line :
      List (Bytes × ℕ) → List Bytes → Table Bytes → Maps → Run (List Msg × Maps)
  parse_stat_line matches linefields tags maps = do
    name ← at linefields 0
    (values, olddata) ← shares name matches linefields maps.olddata
    let (msgs, sum) = send_shares tags values (calls.of_int (pos 0))
    done (msgs ++ send_used tags values sum, record maps { olddata = olddata })

  -- the loop body of `Read`, with the number of hardware threads so far
  unfoldable pub read_line : List (Bytes × ℕ) → Bytes → ℕ → Maps → Run (List Msg × ℕ × Maps)
  read_line matches line num_cpus maps = do
    name ← at (fields line) 0
    if equal name (codes "cpu")
        then (do
          (msgs, maps') ← parse_stat_line matches (fields line) nodetags maps
          done (msgs, num_cpus, maps'))
        else if has_prefix (codes "cpu") name
        then (do
          (msgs, maps') ← parse_stat_line matches (fields line) (inner name maps.cputags) maps
          done (msgs, num_cpus + 1, maps'))
        else done ([], num_cpus, maps)

  unfoldable pub read_lines : List (Bytes × ℕ) → List Bytes → ℕ → Maps → Run (List Msg × ℕ × Maps)
  read_lines matches [] num_cpus maps = done ([], num_cpus, maps)
  read_lines matches (line ∷ lines) num_cpus maps = do
    (msgs, n, maps') ← read_line matches line num_cpus maps
    (rest, total, last) ← read_lines matches lines n maps'
    done (msgs ++ rest, total, last)

-- the lines of a file; one that cannot be opened is reported and has none
abbrev pub lines_of : Option (List Bytes) → List Bytes
lines_of none = []
lines_of (some lines) = lines

module _ {F Time Msg : Type 0} (calls : Calls F Time Msg) (clktck : ℤ) where
  abbrev pub one_message : Option Msg → List Msg
  one_message none = []
  one_message (some y) = y ∷ []

  -- the message of the number of hardware threads
  unfoldable pub number_message : Time → Bool → ℕ → List Msg
  number_message now true n = []
  number_message now false n =
      one_message (calls.new_metric (codes "num_cpus") nodetags meta (whole (pos n)) now)

  -- `Read`
  unfoldable pub read :
      Time → Option (List Bytes) → Collector Time → Run (List Msg × Collector Time)
  read now file m = if not m.init then done ([], m) else do
    (msgs, n, maps) ←
        read_lines calls clktck now (calls.seconds now m.last_timestamp) m.matches (lines_of file) 0
          m.maps
    done (
      msgs ++ number_message now m.exclude_num_cpus n,
      record m { maps = maps; last_timestamp = now },
    )

-- `Close`
unfoldable pub close : {Time : Type 0} → Collector Time → Collector Time
close m = record m { init = false }
