-- ===== src/Sampling/Infiniband.antt =====
-- collectors/infinibandMetric.go: the counters of the InfiniBand ports, their rates and the totals of
-- a port. The directories of the ports, the files and the test of access are parameters. The JSON
-- decoder is left out.
pub mod Rates
use cc_metric_collector.Prelude.{
  ℕ, ◌+◌, ◌-◌, ◌*◌, ◌%◌, ◌^◌, Bool, true, false, not, ◌&&◌, Option, none, some, List, [], ◌∷◌, ◌++◌,
  if◌then◌else◌,
}
use cc_metric_collector.Prelude.Int.{pos}
use cc_metric_collector.Prelude.Bytes.{Bytes, codes, equal, member, Table}
use cc_metric_collector.Prelude.ParseInt.{Parsed, number, syntax_error, range_error, parse_uint}
use cc_metric_collector.Prelude.Run.{Run, done, at, ◌>>=◌}
use cc_metric_collector.Values.{Result, ok, err}
use cc_metric_collector.Topology.Parse.{trim_space, split}
use cc_metric_collector.Sampling.{Value, real, whole, Calls}

-- `InfinibandCollectorMetric`, with `lastState` and `lastStateAvailable` as one
pub record Counter : Type 0 where
  pub name : Bytes
  pub path : Bytes
  pub unit : Bytes
  pub unit_rates : Bytes
  pub scale_by_four_lanes : Bool
  pub add_to_total : Bool
  pub add_to_total_packets : Bool
  pub last_state : Option ℕ

-- `InfinibandCollectorInfo`
pub record Info : Type 0 where
  pub port_counter_files : List Counter
  pub tag_set : Table Bytes

pub record Config : Type 0 where
  pub exclude_devices : List Bytes
  pub send_absolute_values : Bool
  pub send_total_values : Bool
  pub send_derived_values : Bool

pub record Collector (Time : Type 0) : Type 0 where
  pub config : Config
  pub info : List Info
  pub last_timestamp : Time
  pub init : Bool

-- What the collector asks for: the contents of a file, and whether one can be read.
pub record System : Type 0 where
  pub read_file : Bytes → Option Bytes
  pub can_read : Bytes → Bool

abbrev data_counter : Bytes → Bytes → Counter
data_counter name path = record {
  name = name;
  path = path;
  unit = codes "bytes";
  unit_rates = codes "bytes/sec";
  scale_by_four_lanes = true;
  add_to_total = true;
  add_to_total_packets = false;
  last_state = none;
}

abbrev packet_counter : Bytes → Bytes → Counter
packet_counter name path = record {
  name = name;
  path = path;
  unit = codes "packets";
  unit_rates = codes "packets/sec";
  scale_by_four_lanes = false;
  add_to_total = false;
  add_to_total_packets = true;
  last_state = none;
}

unfoldable pub port_counters : Bytes → List Counter
port_counters path =
    data_counter (codes "ib_recv") (path ++ codes "/counters/port_rcv_data")
    ∷ data_counter (codes "ib_xmit") (path ++ codes "/counters/port_xmit_data")
    ∷ packet_counter (codes "ib_recv_pkts") (path ++ codes "/counters/port_rcv_packets")
    ∷ packet_counter (codes "ib_xmit_pkts") (path ++ codes "/counters/port_xmit_packets")
    ∷ []

abbrev all_readable : System → List Counter → Bool
all_readable sys [] = true
all_readable sys (c ∷ cs) = if sys.can_read c.path then all_readable sys cs else false

abbrev info_of : Bytes → Bytes → Bytes → Bytes → Info
info_of path device port lid = record {
  port_counter_files = port_counters path;
  tag_set =
      (codes "type", codes "node")
      ∷ (codes "device", device)
      ∷ (codes "port", port)
      ∷ (codes "lid", lid)
      ∷ [];
}

-- the loop body of `Init` for a port with a LID: it is passed over, added, or its files cannot be read
unfoldable pub port_info : System → Config → Bytes → Bytes → Run (Result (List Info))
port_info sys config path lid = do
  device ← at (split b'/' path) 4
  port ← at (split b'/' path) 6
  done (
      if member device config.exclude_devices
      then ok []
      else if all_readable sys (port_counters path)
      then ok (info_of path device port lid ∷ [])
      else err "unable to access")

-- the loop body of `Init`
unfoldable pub init_dir : System → Config → Bytes → Run (Result (List Info))
init_dir sys config path = elim (sys.read_file (path ++ codes "/lid")) [
  | none ↦ done (ok [])
  | some line ↦
      if equal (trim_space line) (codes "0x0")
      then done (ok [])
      else port_info sys config path (trim_space line)
]

abbrev and_then : Result (List Info) → Run (Result (List Info)) → Run (Result (List Info))
and_then (err e) rest = done (err e)
and_then (ok infos) rest = do
  more ← rest
  done (elim more [ err e ↦ err e | ok others ↦ ok (infos ++ others) ])

unfoldable pub init_dirs : System → Config → List Bytes → Run (Result (List Info))
init_dirs sys config [] = done (ok [])
init_dirs sys config (path ∷ paths) = do
  infos ← init_dir sys config path
  and_then infos (init_dirs sys config paths)

module _ {Time : Type 0} where
  abbrev collector_of : Config → Collector Time → List Info → Result (Collector Time)
  collector_of config m [] = err "found no IB devices"
  collector_of config m (i ∷ is_) = ok (record m { config = config; info = i ∷ is_; init = true })

  abbrev with_infos : Config → Collector Time → Result (List Info) → Result (Collector Time)
  with_infos config m (err e) = err e
  with_infos config m (ok infos) = collector_of config m (m.info ++ infos)

  -- `Init`, with the directories that are found
  unfoldable pub init :
      System → Config → List Bytes → Collector Time → Run (Result (Collector Time))
  init sys config dirs m = if m.init then done (ok m) else elim dirs [
    | [] ↦ done (err "unable to find any directories")
    | d ∷ ds ↦ do infos ← init_dirs sys config (d ∷ ds); done (with_infos config m infos)
  ]

-- the arithmetic of uint64
abbrev pub word : ℕ
word = 2 ^ 64

abbrev pub meta : Table Bytes
meta = (codes "source", codes "InfinibandCollector") ∷ (codes "group", codes "Network") ∷ []

-- the sums of a port: of the counters, and of the rates as far as there are any
pub record Totals (F : Type 0) : Type 0 where
  pub total : ℕ
  pub packets : ℕ
  pub bandwidth : Option F
  pub packets_bandwidth : Option F

-- the number in a counter's file
unfoldable pub counter_in : Option Bytes → Option ℕ
counter_in none = none
counter_in (some line) = elim (parse_uint false (trim_space line)) [
  | number n ↦ some n
  | syntax_error ↦ none
  | range_error n ↦ none
]

-- the counter in bytes or packets
abbrev pub scaled : Counter → ℕ → ℕ
scaled c raw = if c.scale_by_four_lanes then (raw * 4) % word else raw

module _ {F Time Msg : Type 0} (calls : Calls F Time Msg) (config : Config) (tags : Table Bytes)
    (now : Time) (seconds : F) where
  abbrev pub in_unit : Bytes → Option Msg → List Msg
  in_unit unit none = []
  in_unit unit (some y) = calls.add_meta (codes "unit") unit y ∷ []

  abbrev pub metric : Bytes → Bytes → Value F → List Msg
  metric name unit value = in_unit unit (calls.new_metric name tags meta value now)

  abbrev pub scaled_rate : Counter → F → F
  scaled_rate c rate =
      if c.scale_by_four_lanes then calls.times rate (calls.of_int (pos 4)) else rate

  -- the rate since the last state; uint64 subtraction goes round at 2 ^ 64
  unfoldable pub rate_of : Counter → ℕ → ℕ → F
  rate_of c raw last =
      scaled_rate c (calls.divide (calls.of_int (pos ((raw + (word - last)) % word))) seconds)

  abbrev plus : Option F → F → Option F
  plus none rate = some (calls.add (calls.of_int (pos 0)) rate)
  plus (some sum) rate = some (calls.add sum rate)

  -- the first `switch`, on the sums of the rates
  unfoldable pub add_rate : Counter → F → Totals F → Totals F
  add_rate c rate t =
      if not config.send_total_values
      then t
      else if c.add_to_total
      then record t { bandwidth = plus t.bandwidth rate }
      else if c.add_to_total_packets
      then record t { packets_bandwidth = plus t.packets_bandwidth rate }
      else t

  -- the second `switch`, on the sums of the counters
  unfoldable pub add_counter : Counter → ℕ → Totals F → Totals F
  add_counter c value t =
      if not config.send_total_values
      then t
      else if c.add_to_total
      then record t { total = (t.total + value) % word }
      else if c.add_to_total_packets
      then record t { packets = (t.packets + value) % word }
      else t

  -- the messages of a rate, and the sums with it
  unfoldable pub send_rate : Counter → ℕ → Totals F → List Msg × Totals F
  send_rate c raw t = elim c.last_state [
    | none ↦ ([], t)
    | some last ↦ (
      metric (c.name ++ codes "_bw") c.unit_rates (real (rate_of c raw last)),
      add_rate c (rate_of c raw last) t,
    )
  ]

  -- the body of the loop over the counters for a number that was read
  unfoldable pub read_number : Counter → ℕ → Totals F → List Msg × Counter × Totals F
  read_number c raw t =
      let absolute =
        if config.send_absolute_values
        then metric c.name c.unit (whole (pos (scaled c raw)))
        else [] in
      let (rates, t') = send_rate c raw t in
      if config.send_derived_values
      then (absolute ++ rates, record c { last_state = some raw }, add_counter c (scaled c raw) t')
      else (absolute, c, add_counter c (scaled c raw) t)

  -- the body of the loop over the counters
  unfoldable pub read_counter : Option Bytes → Counter → Totals F → List Msg × Counter × Totals F
  read_counter file c t = elim (counter_in file) [
    | none ↦ ([], record c { last_state = none }, t)
    | some raw ↦ read_number c raw t
  ]

  unfoldable pub read_counters :
      (Bytes → Option Bytes) → List Counter → Totals F → List Msg × List Counter × Totals F
  read_counters files [] t = ([], [], t)
  read_counters files (c ∷ cs) t =
      let (msgs, c', t') = read_counter (files c.path) c t in
      let (rest, cs', last) = read_counters files cs t' in (msgs ++ rest, c' ∷ cs', last)

  abbrev total_rate : Bytes → Bytes → Option F → List Msg
  total_rate name unit none = []
  total_rate name unit (some rate) =
      if config.send_derived_values then metric name unit (real rate) else []

  -- the totals of a port
  unfoldable pub send_totals : Totals F → List Msg
  send_totals t =
      if not config.send_total_values
      then []
      else metric (codes "ib_total") (codes "bytes") (whole (pos t.total))
        ++ metric (codes "ib_total_pkts") (codes "packets") (whole (pos t.packets))
        ++ total_rate (codes "ib_total_bw") (codes "bytes/sec") t.bandwidth
        ++ total_rate (codes "ib_total_pkts_bw") (codes "packets/sec") t.packets_bandwidth

abbrev pub no_totals : {F : Type 0} → Totals F
no_totals = record { total = 0; packets = 0; bandwidth = none; packets_bandwidth = none }

module _ {F Time Msg : Type 0} (calls : Calls F Time Msg) where
  -- the loop over the ports
  unfoldable pub read_ports :
      Config → Time → F → (Bytes → Option Bytes) → List Info → List Msg × List Info
  read_ports config now seconds files [] = ([], [])
  read_ports config now seconds files (i ∷ is_) =
      let (msgs, counters, totals) =
        read_counters calls config i.tag_set now seconds files i.port_counter_files no_totals in
      let (rest, is') = read_ports config now seconds files is_ in
      (
        msgs ++ send_totals calls config i.tag_set now seconds totals ++ rest,
        record i { port_counter_files = counters } ∷ is',
      )

  -- `Read`
  unfoldable pub read : Time → (Bytes → Option Bytes) → Collector Time → List Msg × Collector Time
  read now files m =
      if not m.init
      then ([], m)
      else let (msgs, info) =
          read_ports m.config now (calls.seconds now m.last_timestamp) files m.info in
        (msgs, record m { info = info; last_timestamp = now })

-- `Close`
unfoldable pub close : {Time : Type 0} → Collector Time → Collector Time
close m = record m { init = false }
