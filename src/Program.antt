-- ===== src/Program.antt =====
-- cc-metric-collector.go: what `mainFunc` checks and starts, and the order of the shutdown.
-- The parser of durations and whether the `New` of each part succeeds are arguments; a duration is
-- a number of nanoseconds, and Go's parser returns 0 with an error. The command line, the log, the
-- files and the pause of `-once` are left out.
pub mod Startup
use text.Mathlib.Text.{◌==◌ as str_eq}
use cc_metric_collector.Prelude.{
  Bool, true, false, ◌||◌, String, Option, none, some, List, [], ◌∷◌, ◌++◌, if◌then◌else◌,
}
use cc_metric_collector.Prelude.Int.{ℤ, pos, eqb_ℤ, leb_ℤ, ltb_ℤ}
use cc_metric_collector.Values.{Result, ok, err}

pub record CentralConfigFile : Type 0 where
  pub interval : String
  pub duration : String

-- the other sections of the configuration, empty where they are missing
pub record Sections : Type 0 where
  pub router : String
  pub sinks : String
  pub collectors : String
  pub receivers : String

pub data Part : Type 0 where
  ticker_part router_part sink_part collector_part receiver_part : Part

-- the program that runs: the channels between its parts, and the parts in the order of `Start`
pub record System : Type 0 where
  pub interval : ℤ
  pub duration : ℤ
  pub channels : List (Part × Part)
  pub starts : List Part

pub data Outcome : Type 0 where
  exits panics : Outcome
  runs : System → Outcome

unfoldable pub value_or_zero : Result ℤ → ℤ
value_or_zero (ok t) = t
value_or_zero (err e) = pos 0

-- a duration of the configuration: 0 if it is not set, and `none` where the program exits
unfoldable pub read_duration : (String → Result ℤ) → String → Option ℤ
read_duration parse s =
    if str_eq s ""
    then some (pos 0)
    else (let t = value_or_zero (parse s) in if eqb_ℤ t (pos 0) then none else some t)

-- the parts that are there in any case, with their channels
abbrev pub system : ℤ → ℤ → System
system interval duration = record {
  interval = interval;
  duration = duration;
  channels = (router_part, sink_part) ∷ (collector_part, router_part) ∷ [];
  starts = router_part ∷ sink_part ∷ collector_part ∷ [];
}

abbrev pub with_receivers : System → System
with_receivers s = record s {
  channels = s.channels ++ (receiver_part, router_part) ∷ [];
  starts = s.starts ++ receiver_part ∷ [];
}

module _ (makes : Part → Bool) where
  -- the `New` of each part: `time.NewTicker` panics unless the interval is positive
  unfoldable pub make_parts : Sections → ℤ → ℤ → Outcome
  make_parts sections interval duration =
      if leb_ℤ interval (pos 0)
      then panics
      else if makes router_part
      then (if makes sink_part
          then (if makes collector_part
              then (if str_eq sections.receivers ""
                  then runs (system interval duration)
                  else if makes receiver_part
                  then runs (with_receivers (system interval duration))
                  else exits)
              else exits)
          else exits)
      else exits

  unfoldable pub main_func : (String → Result ℤ) → CentralConfigFile → Sections → Outcome
  main_func parse config sections = elim (read_duration parse config.interval) [
    | none ↦ exits
    | some interval ↦ elim (read_duration parse config.duration) [
      | none ↦ exits
      | some duration ↦
          if ltb_ℤ interval duration
            || str_eq sections.router ""
            || str_eq sections.sinks ""
            || str_eq sections.collectors ""
          then exits
          else make_parts sections interval duration
    ]
  ]

-- the parts in the order in which `shutdownHandler` closes them
unfoldable pub shutdown_handler : Bool → List Part
shutdown_handler has_receivers =
    ticker_part
    ∷ collector_part
    ∷ (if has_receivers
        then receiver_part ∷ router_part ∷ sink_part ∷ []
        else router_part ∷ sink_part ∷ [])
