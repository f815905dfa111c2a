-- ===== src/Sampling/Schedstat.antt =====
-- collectors/schedstatMetric.go: the load of each hardware thread from the running and waiting times
-- of the scheduler. The lines of the file are a parameter. A number that is not one is what ParseInt
-- gives with its error: 0, or the nearest int64 out of range. The JSON decoder is left out.
pub mod Hotplug
use cc_metric_collector.Prelude.{
  ℕ, Bool, true, false, not, ◌&&◌, Option, none, some, List, [], ◌∷◌, ◌++◌, if◌then◌else◌, ◌==◌,
}
use cc_metric_collector.Prelude.Int.{ℤ, pos, negsuc, ◌-ℤ◌, wrap, half64}
use cc_metric_collector.Prelude.Bytes.{
  Bytes, codes, equal, fields, has_prefix, trim_left_of, Table, find, put,
}
use cc_metric_collector.Prelude.Run.{Run, done, panic, at, ◌>>=◌}
use cc_metric_collector.Values.{Result, ok, err}
use cc_metric_collector.Builtins.{itoa}
use cc_metric_collector.Topology.Parse.{atoi}
use cc_metric_collector.Sampling.{Value, real, Calls, sent, int_or_nearest}

-- the running and the waiting time of a hardware thread
pub record Times : Type 0 where
  pub running : ℤ
  pub waiting : ℤ

pub record Collector (Time : Type 0) : Type 0 where
  pub last_timestamp : Time
  pub cputags : Table (Table Bytes)
  pub olddata : Table Times
  pub init : Bool

abbrev pub meta : Table Bytes
meta = (codes "source", codes "SchedstatCollector") ∷ (codes "group", codes "SCHEDSTAT") ∷ []

unfoldable pub times_of : List Bytes → Run Times
times_of linefields = do
  running ← at linefields 7
  waiting ← at linefields 8
  done (record { running = int_or_nearest running; waiting = int_or_nearest waiting })

-- the tags and the times of the hardware threads
abbrev pub Maps : Type 0
Maps = Table (Table Bytes) × Table Times

-- the loop body of `Init`
unfoldable pub init_line : Bytes → Maps → Run Maps
init_line line (cputags, olddata) = do
  name ← at (fields line) 0
  if has_prefix (codes "cpu") name && not (equal name (codes "cpu"))
      then (do
        times ← times_of (fields line)
        let cpu = int_or_nearest (trim_left_of (codes "cpu") name)
        let tags = (codes "type", codes "hwthread") ∷ (codes "type-id", codes (itoa cpu)) ∷ []
        done (put name tags cputags, put name times olddata))
      else done (cputags, olddata)

unfoldable pub init_lines : List Bytes → Maps → Run Maps
init_lines [] maps = done maps
init_lines (line ∷ lines) maps = do maps' ← init_line line maps; init_lines lines maps'

-- `Init`, with the lines of the file and the clock
unfoldable pub init : {Time : Type 0} → Time → Option (List Bytes) → Run (Result (Collector Time))
init now none = done (err "Failed opening scheduler statistics file")
init now (some lines) = do
  (cputags, olddata) ← init_lines lines ([], [])
  done (ok record { last_timestamp = now; cputags = cputags; olddata = olddata; init = true })

module _ {F Time Msg : Type 0} (calls : Calls F Time Msg) where
  -- the time between two readings, as a share of the seconds
  abbrev pub load : F → ℤ → ℤ → F
  load seconds new old =
      calls.divide (calls.divide (calls.of_int (wrap half64 (new -ℤ old))) seconds)
        (calls.of_int (pos 1000000000))

  -- `ParseProcLine`: the metric and the new times. The map of a hardware thread that was not there at
  -- `Init` is nil, and writing to it panics.
  unfoldable pub parse_proc_line :
      List Bytes → Table Bytes → Time → F → Table Times → Run (List Msg × Table Times)
  parse_proc_line linefields tags now seconds olddata = do
    times ← times_of linefields
    name ← at linefields 0
    elim (find name olddata) [
      | none ↦ panic
      | some old ↦
          let value =
            calls.add (load seconds times.running old.running)
              (load seconds times.waiting old.waiting) in
          done (
            sent (calls.new_metric (codes "cpu_load_core") tags meta (real value) now),
            put name times olddata,
          )
    ]

  -- the tags of a hardware thread, or the nil map
  abbrev tags_of : Bytes → Table (Table Bytes) → Table Bytes
  tags_of name cputags = elim (find name cputags) [ none ↦ [] | some tags ↦ tags ]

  -- the loop body of `Read`
  unfoldable pub read_line :
      Table (Table Bytes) → Time → F → Bytes → Table Times → Run (List Msg × Table Times)
  read_line cputags now seconds line olddata = do
    name ← at (fields line) 0
    if has_prefix (codes "cpu") name
        then parse_proc_line (fields line) (tags_of name cputags) now seconds olddata
        else done ([], olddata)

  unfoldable pub read_lines :
      Table (Table Bytes) → Time → F → List Bytes → Table Times → Run (List Msg × Table Times)
  read_lines cputags now seconds [] olddata = done ([], olddata)
  read_lines cputags now seconds (line ∷ lines) olddata = do
    (msgs, olddata') ← read_line cputags now seconds line olddata
    (rest, last) ← read_lines cputags now seconds lines olddata'
    done (msgs ++ rest, last)

  -- the lines of a file; one that cannot be opened is reported and has none
  abbrev pub lines_of : Option (List Bytes) → List Bytes
  lines_of none = []
  lines_of (some lines) = lines

  -- `Read`
  unfoldable pub read :
      Time → Option (List Bytes) → Collector Time → Run (List Msg × Collector Time)
  read now file m = if not m.init then done ([], m) else do
    (msgs, olddata) ←
        read_lines m.cputags now (calls.seconds now m.last_timestamp) (lines_of file) m.olddata
    done (msgs, record m { olddata = olddata; last_timestamp = now })

-- `Close`
unfoldable pub close : {Time : Type 0} → Collector Time → Collector Time
close m = record m { init = false }
