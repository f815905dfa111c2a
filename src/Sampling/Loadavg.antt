-- ===== src/Sampling/Loadavg.antt =====
-- collectors/loadavgMetric.go: the load of the node and its processes. The bytes of the file are a
-- parameter. The JSON decoder is left out.
pub mod Shown
use cc_metric_collector.Prelude.{
  ℕ, ◌+◌, Bool, true, false, not, Option, none, some, List, [], ◌∷◌, ◌++◌, map, if◌then◌else◌,
}
use cc_metric_collector.Prelude.Bytes.{Bytes, codes, member, Table}
use cc_metric_collector.Prelude.ParseInt.{parse_int, value_of}
use cc_metric_collector.Prelude.Run.{Run, done, at, ◌>>=◌}
use cc_metric_collector.Topology.Parse.{split}
use cc_metric_collector.Sampling.{Value, real, whole, Calls, sent}

pub record Config : Type 0 where
  pub exclude_metrics : List Bytes

pub record Collector : Type 0 where
  pub load_matches : List Bytes
  pub load_skips : List Bool
  pub proc_matches : List Bytes
  pub proc_skips : List Bool
  pub config : Config
  pub init : Bool

-- the loops over the names that fill the lists of flags
unfoldable pub skips_of : Config → List Bytes → List Bool
skips_of config [] = []
skips_of config (name ∷ names) = member name config.exclude_metrics ∷ skips_of config names

abbrev pub load_names : List Bytes
load_names = codes "load_one" ∷ codes "load_five" ∷ codes "load_fifteen" ∷ []

abbrev pub proc_names : List Bytes
proc_names = codes "proc_run" ∷ codes "proc_total" ∷ []

-- `Init`
unfoldable pub init : Config → Collector
init config = record {
  load_matches = load_names;
  load_skips = skips_of config load_names;
  proc_matches = proc_names;
  proc_skips = skips_of config proc_names;
  config = config;
  init = true;
}

abbrev pub meta : Table Bytes
meta = (codes "source", codes "LoadavgCollector") ∷ (codes "group", codes "LOAD") ∷ []

module _ {F Time Msg : Type 0} (calls : Calls F Time Msg) (now : Time) where
  unfoldable pub float_of : Bytes → Option (Value F)
  float_of field = elim (calls.parse_float field) [ none ↦ none | some x ↦ some (real x) ]

  unfoldable pub number_of : Bytes → Option (Value F)
  number_of field = elim (value_of (parse_int false field)) [
    | none ↦ none
    | some x ↦ some (whole x)
  ]

  -- what is sent for a value, unless its name is skipped
  unfoldable pub unless_skipped : Bool → Bytes → Value F → List Msg
  unless_skipped skip name x =
      if skip
      then []
      else sent (calls.new_metric name ((codes "type", codes "node") ∷ []) meta x now)

  -- the body of both loops of `Read`, with the conversion of each
  unfoldable pub send_name :
      (Bytes → Option (Value F)) → List Bool → List Bytes → ℕ → Bytes → Run (List Msg)
  send_name convert skips fields i name = do
    field ← at fields i
    elim (convert field) [
      | none ↦ done []
      | some x ↦ do skip ← at skips i; done (unless_skipped skip name x)
    ]

  -- the loops, with the index of the first name
  unfoldable pub send_names :
      (Bytes → Option (Value F)) → List Bool → List Bytes → ℕ → List Bytes → Run (List Msg)
  send_names convert skips fields i [] = done []
  send_names convert skips fields i (name ∷ names) = do
    msgs ← send_name convert skips fields i name
    rest ← send_names convert skips fields (i + 1) names
    done (msgs ++ rest)

  -- `Read` on a file that was read
  unfoldable pub read_buffer : Bytes → Collector → Run (List Msg)
  read_buffer buffer m = do
    let ls = split b' ' buffer
    loads ← send_names float_of m.load_skips ls 0 m.load_matches
    processes ← at ls 3
    procs ← send_names number_of m.proc_skips (split b'/' processes) 0 m.proc_matches
    done (loads ++ procs)

  -- `Read`
  unfoldable pub read : Option Bytes → Collector → Run (List Msg)
  read file m =
      if not m.init
      then done []
      else elim file [ none ↦ done [] | some buffer ↦ read_buffer buffer m ]

-- `Close`
unfoldable pub close : Collector → Collector
close m = record m { init = false }
