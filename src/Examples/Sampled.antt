-- ===== src/Examples/Sampled.antt =====
-- Files with one device each. Floats are integers, a time is a number, and a message is its name, its
-- value and its time.
use mathlib.Core.Option.{some-injective}
use cc_metric_collector.Prelude.{
  ◌≡◌, refl, ℕ, true, false, Option, none, some, List, [], ◌∷◌, Elem, arith, ◌+◌, ◌≤◌,
}
use cc_metric_collector.Prelude.Int.{ℤ, pos, negsuc, ◌-ℤ◌, ◌+ℤ◌, ltb_ℤ, wrap}
use cc_metric_collector.Prelude.Bytes.{
  Bytes, equal_iff, codes, is_space, fields, cut_fields, contains_byte, contains, has_prefix,
  trim_left_of, find, put,
}
use cc_metric_collector.Prelude.ParseInt.{parse_int, parse_uint, digits_from, digit_of}
use cc_metric_collector.Prelude.Run.{done, panic, Finishes}
use cc_metric_collector.Values.{ok}
use cc_metric_collector.Builtins.{itoa, digits_fuel}
use cc_metric_collector.Topology.Parse.{atoi, natural, digits_value}
use cc_metric_collector.Sampling.{Value, real, whole, Calls, int_or_nearest}
use cc_metric_collector.Sampling.Netstat
use cc_metric_collector.Sampling.Netstat.Finishing.{session, session-Finishes, IsWide}
use cc_metric_collector.Sampling.Netstat.Rates.{
  Sample, absolute, series, read_series, read_series-series,
}
use cc_metric_collector.Sampling.Numastats
use cc_metric_collector.Sampling.Numastats.History
use cc_metric_collector.Sampling.Schedstat
use cc_metric_collector.Sampling.Schedstat.Hotplug.{Names, read-hotplug}
use cc_metric_collector.Sampling.Lustre
use cc_metric_collector.Sampling.Lustre.Growth
use cc_metric_collector.Sampling.Diskstat
use cc_metric_collector.Sampling.Diskstat.Usage.{IsSane, Uses, read_lines-most}

abbrev pub Message : Type 0
Message = Bytes × Value ℤ × ℕ

abbrev pub calls : Calls ℤ ℕ Message
calls = record {
  of_int = λ n. n;
  add = λ a b. a +ℤ b;
  subtract = λ a b. a -ℤ b;
  times = λ a b. a;
  divide = λ a b. a;
  positive = λ a. ltb_ℤ (pos 0) a;
  negative = λ a. ltb_ℤ a (pos 0);
  parse_float = atoi;
  seconds = λ now last. pos now -ℤ pos last;
  new_metric = λ name tags meta value now. some (name, value, now);
  add_tag = λ key value m. m;
  add_meta = λ key value m. m;
}

-- the network: a line with the counters 1 to 16
abbrev eth_line : Bytes
eth_line = codes "eth0: 1 2 3 4 5 6 7 8 9 10 11 12 13 14 15 16"

abbrev net_config : Netstat.Config
net_config = record {
  include_devices = codes "eth0" ∷ [];
  send_absolute_values = true;
  send_derived_values = true;
  interface_aliases = [];
}

eth_line-IsWide : IsWide eth_line
unfolding fields cut_fields is_space
eth_line-IsWide = λ colon. omega arith

session-Finishes_example :
    Finishes
      (λ _. Unit {0})
      (session calls net_config 1
        (some (eth_line ∷ []))
        ((2, none) ∷ (3, some (eth_line ∷ [])) ∷ []))
session-Finishes_example =
    session-Finishes calls net_config 1 (some (eth_line ∷ []))
      ((2, none) ∷ (3, some (eth_line ∷ [])) ∷ []) (tt, ((eth_line-IsWide, tt), tt))

-- a counter that shows 5 and then 8
abbrev five_then_eight : List (Sample ℤ ℕ)
five_then_eight =
    record { f = codes "lo:" ∷ codes "5" ∷ []; now = 1; seconds = pos 1; count = 5 }
    ∷ record { f = codes "lo:" ∷ codes "8" ∷ []; now = 2; seconds = pos 1; count = 8 }
    ∷ []

abbrev bytes_in : Netstat.Metric
bytes_in = record {
  name = codes "net_bytes_in";
  index = 1;
  tags = [];
  meta = [];
  meta_rates = [];
  last_value = negsuc 0;
}

five_then_eight-Shows : Netstat.Rates.Shows 1 five_then_eight
unfolding atoi natural digits_value
five_then_eight-Shows =
    ((codes "5", refl, refl), omega arith, ((codes "8", refl, refl), omega arith, tt))

read_series-series_example :
    read_series calls net_config five_then_eight bytes_in
    ≡ done (
        (codes "net_bytes_in", whole (pos 5), 1)
        ∷ (codes "net_bytes_in", whole (pos 8), 2)
        ∷ (codes "net_bytes_in_bw", real (pos 3), 2)
        ∷ [])
unfolding series ◌-ℤ◌
read_series-series_example =
    read_series-series calls net_config
      (record { f = codes "lo:" ∷ codes "5" ∷ []; now = 1; seconds = pos 1; count = 5 })
      (record { f = codes "lo:" ∷ codes "8" ∷ []; now = 2; seconds = pos 1; count = 8 } ∷ [])
      bytes_in five_then_eight-Shows refl

-- a NUMA domain, with a reading that fails between two others
abbrev numa_readings : List (Numastats.History.Reading ℤ ℕ)
numa_readings =
    record { lines = some (codes "numa_hit 10" ∷ []); now = 1; seconds = pos 1 }
    ∷ record { lines = none; now = 2; seconds = pos 1 }
    ∷ record { lines = some (codes "numa_hit 25" ∷ []); now = 3; seconds = pos 1 }
    ∷ []

abbrev numa_config : Numastats.Config
numa_config = record { send_absolute_values = false; send_derived_values = true }

read_series-history_example :
    Numastats.History.read_series calls numa_config numa_readings
      (Numastats.new_domain (codes "/sys/devices/system/node/node0"))
    ≡ (codes "numastats_numa_hit_rate", real (pos 15), 3) ∷ []
unfolding Numastats.History.history_messages Numastats.History.file_messages
    Numastats.History.add_entries Numastats.History.latest Numastats.value_messages
    Numastats.entry_of fields cut_fields is_space atoi natural digits_value wrap ◌-ℤ◌
read_series-history_example =
    Numastats.History.read_series-history calls numa_config numa_readings
      (codes "/sys/devices/system/node/node0") refl

-- a hardware thread that comes after the start
abbrev cpu0_line : Bytes
cpu0_line = codes "cpu0 0 0 0 0 0 0 3 4 5"

abbrev cpu1_line : Bytes
cpu1_line = codes "cpu1 0 0 0 0 0 0 3 4 5"

abbrev with_cpu0 : Schedstat.Collector ℕ
with_cpu0 = record {
  last_timestamp = 1;
  cputags =
      (codes "cpu0", (codes "type", codes "hwthread") ∷ (codes "type-id", codes "0") ∷ []) ∷ [];
  olddata = (codes "cpu0", record { running = pos 3; waiting = pos 4 }) ∷ [];
  init = true;
}

with_cpu0-made : Schedstat.init 1 (some (cpu0_line ∷ [])) ≡ done (ok with_cpu0)
unfolding Schedstat.init Schedstat.init_lines Schedstat.init_line Schedstat.times_of fields
    cut_fields is_space has_prefix trim_left_of contains_byte put itoa digits_fuel int_or_nearest
    parse_int parse_uint digits_from digit_of
with_cpu0-made = refl

cpu0_line-other : ¬ Names (codes "cpu1") cpu0_line
unfolding fields cut_fields is_space
cpu0_line-other = λ e.
    let no : false ≡ true = (equal_iff (codes "cpu0") (codes "cpu1")).1 (some-injective _ _ e) in cc

read-hotplug_example : Schedstat.read calls 2 (some (cpu0_line ∷ cpu1_line ∷ [])) with_cpu0 ≡ panic
read-hotplug_example =
    read-hotplug calls 1 2 (cpu0_line ∷ []) (cpu0_line ∷ []) [] cpu1_line (codes "cpu1") with_cpu0
      with_cpu0-made (cpu0_line-other, tt) (unfold fields cut_fields is_space in refl)
      (unfold has_prefix in refl)

-- the opened files of a Lustre file system, shown as 5 and then not shown
abbrev opened : Lustre.Definition
opened = record {
  name = codes "lustre_open_diff";
  lineprefix = codes "open";
  lineoffset = 1;
  unit = [];
  calc = Lustre.difference;
}

abbrev opened_samples : List (Lustre.Growth.Sample ℤ ℕ)
opened_samples =
    record { lines = codes "open 5 samples" ∷ []; seconds = pos 1; now = 1; count = some 5 }
    ∷ record { lines = codes "close 5 samples" ∷ []; seconds = pos 1; now = 2; count = none }
    ∷ []

opened_samples-Grows : Lustre.Growth.Grows opened 2 opened_samples
unfolding Lustre.get_metric_data has_prefix fields cut_fields is_space parse_int parse_uint
    digits_from digit_of
opened_samples-Grows = (refl, omega arith, omega arith, (refl, omega arith, omega arith, tt))

read_series-growth_example :
    (Lustre.Growth.read_series calls
        (codes "fs")
        opened
        opened_samples
        ((codes "lustre_open_diff", pos 2) ∷ [])
      ≡ done (
          (codes "lustre_open_diff", whole (pos 3), 1)
          ∷ (codes "lustre_open_diff", whole (pos 0), 2)
          ∷ []))
    × (2 + Lustre.Growth.total (3 ∷ 0 ∷ []) ≡ 5)
unfolding find Lustre.Growth.growth_messages
read_series-growth_example =
    Lustre.Growth.read_series-growth calls (codes "fs") opened opened_samples 2
      ((codes "lustre_open_diff", pos 2) ∷ []) refl refl opened_samples-Grows

-- a file system of 10 ^ 10 bytes that is three quarters full
abbrev root_fs : Diskstat.Statfs
root_fs = record { blocks = 20000000000; bfree = 5000000000; bsize = pos 1 }

abbrev mounts : Diskstat.Collector
mounts = record {
  config = record { exclude_metrics = []; exclude_mounts = [] };
  allowed_metrics = [];
  init = true;
}

abbrev statfs : Bytes → Option Diskstat.Statfs
statfs path = some root_fs

statfs-IsSane : (path : Bytes) (stat : Diskstat.Statfs) → statfs path ≡ some stat → IsSane stat
statfs-IsSane path stat e =
    let same : root_fs ≡ stat = some-injective _ _ e in rw (← same) (omega arith)

root_line-runs :
    Diskstat.read_lines calls statfs mounts 1 (codes "/dev/sda1 / ext4" ∷ []) 0 ≡ done ([], 75)
unfolding Diskstat.read_lines Diskstat.read_line Diskstat.read_mount Diskstat.mount_of
    Diskstat.stat_of Diskstat.sizes Diskstat.used_of Diskstat.gigabytes Diskstat.percentage
    Diskstat.is_excluded Diskstat.replace_spaces fields cut_fields is_space has_prefix contains find
root_line-runs = refl

read_lines-most_example :
    (75 ≤ 100)
    × ((line : Bytes) (u : ℕ)
        → Elem line (codes "/dev/sda1 / ext4" ∷ [])
        → Uses calls statfs mounts 1 line u
        → u ≤ 75)
read_lines-most_example =
    read_lines-most calls statfs mounts 1 (codes "/dev/sda1 / ext4" ∷ []) [] 75 statfs-IsSane
      root_line-runs
