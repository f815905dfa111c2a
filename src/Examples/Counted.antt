-- ===== src/Examples/Counted.antt =====
-- A counter of a port that goes round, a node with one hardware thread, an NFS
-- mount, and a file of the loads.
use cc_metric_collector.Prelude.{
  ◌≡◌, refl, ℕ, true, false, none, some, List, [], ◌∷◌, ◌++◌, inl, arith, ◌^◌, ◌-◌, if◌then◌else◌,
}
use cc_metric_collector.Prelude.Int.{ℤ, pos}
use cc_metric_collector.Prelude.Bytes.{
  Bytes, codes, is_space, fields, cut_fields, has_prefix, trim_left_of, contains_byte, put, member,
  Table, equal,
}
use cc_metric_collector.Prelude.ParseInt.{parse_int, parse_uint, digits_from, digit_of}
use cc_metric_collector.Prelude.Run.{done, Finishes}
use cc_metric_collector.Values.{ok}
use cc_metric_collector.Builtins.{itoa, digits_fuel}
use cc_metric_collector.Topology.Parse.{atoi, natural, digits_value, trim_space, trim_left}
use cc_metric_collector.Sampling.{real, whole, int_or_nearest}
use cc_metric_collector.Examples.Sampled.{calls, Message}
use cc_metric_collector.Sampling.Infiniband
use cc_metric_collector.Sampling.Loadavg
use cc_metric_collector.Sampling.Loadavg.Shown
use cc_metric_collector.Sampling.Nfsiostat
use cc_metric_collector.Sampling.Nfsiostat.Mounts
use cc_metric_collector.Sampling.Infiniband.Rates
use cc_metric_collector.Sampling.Cpustat
use cc_metric_collector.Sampling.Cpustat.Names.{IsKnown}
use cc_metric_collector.Sampling.Cpustat.Threads.{threads_in, count_threads, read-count_threads}

abbrev port_config : Infiniband.Config
port_config = record {
  exclude_devices = [];
  send_absolute_values = false;
  send_total_values = false;
  send_derived_values = true;
}

-- from 10 before the end of the counter, to 5 behind its start
abbrev port_samples : List (Infiniband.Rates.Sample ℤ ℕ)
port_samples =
    record {
      file = some (codes "18446744073709551611");
      now = 1;
      seconds = pos 1;
      used = 5;
      readable = true;
      totals = Infiniband.no_totals;
    }
    ∷ record {
      file = some (codes "5");
      now = 2;
      seconds = pos 1;
      used = 10;
      readable = true;
      totals = Infiniband.no_totals;
    }
    ∷ []

abbrev received : Infiniband.Counter
received = record {
  name = codes "ib_recv_pkts";
  path = codes "/counters/port_rcv_packets";
  unit = codes "packets";
  unit_rates = codes "packets/sec";
  scale_by_four_lanes = false;
  add_to_total = false;
  add_to_total_packets = true;
  last_state = none;
}

port_samples-Shows : Infiniband.Rates.Shows (2 ^ 64 - 10) port_samples
unfolding Infiniband.counter_in trim_space trim_left is_space parse_uint digits_from digit_of
port_samples-Shows = (omega arith, refl, (omega arith, refl, tt))

port_series_example :
    Infiniband.Rates.readings calls port_config [] port_samples received
    ≡ (codes "ib_recv_pkts_bw", real (pos 10), 2) ∷ []
unfolding Infiniband.Rates.series
port_series_example =
    Infiniband.Rates.readings-series calls port_config [] port_samples received (2 ^ 64 - 10) refl
      (omega arith) port_samples-Shows

-- the times of one hardware thread
abbrev thread_line : Bytes
thread_line = codes "cpu0 1 2 3 4 5 6 7 8 9 10"

abbrev cpu_config : Cpustat.Config
cpu_config = record { exclude_metrics = codes "cpu_steal" ∷ [] }

abbrev cpu_values : Table ℤ
cpu_values =
    (codes "cpu_user", pos 1)
    ∷ (codes "cpu_nice", pos 2)
    ∷ (codes "cpu_system", pos 3)
    ∷ (codes "cpu_idle", pos 4)
    ∷ (codes "cpu_iowait", pos 5)
    ∷ (codes "cpu_irq", pos 6)
    ∷ (codes "cpu_softirq", pos 7)
    ∷ (codes "cpu_guest", pos 9)
    ∷ (codes "cpu_guest_nice", pos 10)
    ∷ []

abbrev node : Cpustat.Collector ℕ
node = record {
  exclude_num_cpus = false;
  last_timestamp = 1;
  matches = Cpustat.kept_matches cpu_config.exclude_metrics Cpustat.all_matches;
  maps = record {
    cputags =
        (codes "cpu0", (codes "type", codes "hwthread") ∷ (codes "type-id", codes "0") ∷ []) ∷ [];
    olddata = (codes "cpu0", cpu_values) ∷ [];
  };
  init = true;
}

node-made : Cpustat.init cpu_config 1 (some (thread_line ∷ [])) ≡ done (ok node)
unfolding Cpustat.init Cpustat.init_lines Cpustat.init_line Cpustat.first_values
    Cpustat.kept_matches fields cut_fields is_space has_prefix trim_left_of contains_byte put member
    itoa digits_fuel int_or_nearest parse_int parse_uint digits_from digit_of
node-made = refl

thread_line-IsKnown : IsKnown (thread_line ∷ []) thread_line
unfolding fields cut_fields is_space
thread_line-IsKnown = (omega arith, λ name c. (omega arith, (thread_line, inl refl, c)))

read-count_threads_example :
    Finishes
      (λ r. (msgs : List Message) × (r.0 ≡ msgs ++ (codes "num_cpus", whole (pos 1), 2) ∷ []))
      (Cpustat.read calls (pos 100) 2 (some (thread_line ∷ [])) node)
unfolding Cpustat.number_message count_threads threads_in fields cut_fields is_space has_prefix
read-count_threads_example =
    read-count_threads calls (pos 100) cpu_config 1 2 (thread_line ∷ []) (some (thread_line ∷ []))
      node node-made (thread_line-IsKnown, tt)

-- two readings of one mount, with expressions that look at the fields of a line
abbrev device_groups : List Bytes → List (List Bytes)
device_groups (word ∷ server ∷ mounted ∷ on ∷ mntpoint ∷ rest) =
    if equal word (codes "device") then ([] ∷ server ∷ mntpoint ∷ []) ∷ [] else []
device_groups _ = []

abbrev bytes_groups : List Bytes → List (List Bytes)
bytes_groups (word ∷ nread ∷ rest) =
    if equal word (codes "bytes:") then ([] ∷ nread ∷ []) ∷ [] else []
bytes_groups _ = []

abbrev regexes : Nfsiostat.Regexes
regexes = record {
  device = record {
    subexp_names = [] ∷ codes "server" ∷ codes "mntpoint" ∷ [];
    find_all = λ s. device_groups (fields s);
  };
  bytes = record {
    subexp_names = [] ∷ codes "nread" ∷ [];
    find_all = λ s. bytes_groups (fields s);
  };
}

abbrev mount_collector : Nfsiostat.Collector ℕ
mount_collector = record {
  config = record {
    exclude_metrics = [];
    exclude_filesystems = [];
    use_server_address_as_stype = false;
    send_absolute_values = true;
    send_derived_values = true;
  };
  stored =
      (codes "/home", (codes "nread", pos 3) ∷ [])
      ∷ (codes "/gone", (codes "nread", pos 4) ∷ [])
      ∷ [];
  key = codes "mntpoint";
  last_timestamp = 1;
  init = true;
}

abbrev mountstats : Bytes
mountstats = codes "device s:/h mounted on /home with\n bytes: 7 0"

-- a file of the loads, with a load that is not a number for the floats that are used here
abbrev load_file : Loadavg.Shown.File
load_file = record {
  one = codes "2";
  five = codes "x";
  fifteen = codes "3";
  running = codes "1";
  total = codes "200";
  rest = codes "77";
}

load_file-IsSeparated : Loadavg.Shown.IsSeparated load_file
load_file-IsSeparated = ground arith

read-shown_example :
    Loadavg.read calls 5
      (some (codes "2 x 3 1/200 77"))
      (Loadavg.init (record { exclude_metrics = codes "proc_run" ∷ [] }))
    ≡ done (
        (codes "load_one", real (pos 2), 5)
        ∷ (codes "load_fifteen", real (pos 3), 5)
        ∷ (codes "proc_total", whole (pos 200), 5)
        ∷ [])
unfolding Loadavg.Shown.show_file Loadavg.Shown.shown Loadavg.float_of Loadavg.number_of
    Loadavg.unless_skipped member atoi natural digits_value parse_int parse_uint digits_from
    digit_of
read-shown_example =
    Loadavg.Shown.read-shown calls 5 (record { exclude_metrics = codes "proc_run" ∷ [] }) load_file
      load_file-IsSeparated
