-- ===== src/Sampling/SlurmCgroup.antt =====
-- collectors/slurmCgroupMetric.go: the memory and the CPU time of the Slurm jobs of a node, for each
-- hardware thread of a job, and zeros for the threads without a job. The file system, `sudo cat` and
-- the names of its directories, in ASCII, are parameters; texts are bytes. `cpuUsed` is the list of
-- its keys, and the name of a job's directory stands for the path that is built from it and cut
-- again. The JSON decoder is left out.
pub mod Covering
pub mod Cpus
pub mod Reporting
use cc_metric_collector.Prelude.{
  ℕ, Bool, true, false, not, ◌&&◌, ◌||◌, Option, none, some, List, [], ◌∷◌, ◌++◌, leb, ◌==◌, length,
  if◌then◌else◌,
}
use cc_metric_collector.Prelude.Int.{ℤ, pos}
use cc_metric_collector.Prelude.Bytes.{
  Bytes, codes, equal, fields, contains_byte, member, without_prefix, Table,
}
use cc_metric_collector.Values.{Result, ok, err}
use cc_metric_collector.Builtins.{list_contains, itoa}
use cc_metric_collector.Topology.Parse.{trim_space, split, atoi, value_range, is_digit}
use cc_metric_collector.Sampling.{Value, real, whole, Calls, sent}

pub record Entry : Type 0 where
  pub name : Bytes
  pub is_dir : Bool

-- What the collector reads: the entries of a directory, a file by its directory, job and name, as
-- the user or with sudo, the file of the online CPUs, and the user's ID.
pub record System : Type 0 where
  pub read_dir : Bytes → Option (List Entry)
  pub read_file : Bool → Bytes → Bytes → Bytes → Option Bytes
  pub cpu_online : Option Bytes
  pub current_uid : Option Bytes

pub record Config : Type 0 where
  pub cgroup_base : Bytes
  pub exclude_metrics : List Bytes
  pub use_sudo : Bool

pub record Collector : Type 0 where
  pub all_cpus : List ℤ
  pub cpu_used : List ℤ
  pub cgroup_base : Bytes
  pub exclude_metrics : List Bytes
  pub use_sudo : Bool
  pub init : Bool

pub record JobData (F : Type 0) : Type 0 where
  pub memory_usage : F
  pub max_memory_usage : F
  pub limit_memory_usage : F
  pub cpu_usage_user : F
  pub cpu_usage_sys : F
  pub cpu_set : List ℤ

abbrev all : (ℕ → Bool) → Bytes → Bool
all p [] = true
all p (c ∷ cs) = p c && all p cs

-- `jobIDDirRE`
unfoldable pub is_job_id_dir : Bytes → Bool
is_job_id_dir name = elim (without_prefix (codes "job_") name) [
  | none ↦ false
  | some digits ↦ not (equal digits []) && all is_digit digits
]

abbrev between : ℕ → ℕ → ℕ → Bool
between low high c = leb low c && leb c high

-- one of the 32 letters, in either case: not I, L, O and U
abbrev is_base32 : ℕ → Bool
is_base32 c =
    is_digit c
    || between b'A' b'H' c
    || between b'J' b'K' c
    || between b'M' b'N' c
    || between b'P' b'T' c
    || between b'V' b'Z' c
    || between b'a' b'h' c
    || between b'j' b'k' c
    || between b'm' b'n' c
    || between b'p' b't' c
    || between b'v' b'z' c

-- `sluidDirRE`
unfoldable pub is_sluid_dir : Bytes → Bool
is_sluid_dir [] = false
is_sluid_dir (c ∷ cs) = (c == b's' || c == b'S') && length cs == 13 && all is_base32 cs

unfoldable pub job_names : List Entry → List Bytes
job_names [] = []
job_names (entry ∷ entries) =
    let rest = job_names entries in
    if entry.is_dir && (is_job_id_dir entry.name || is_sluid_dir entry.name)
    then entry.name ∷ rest
    else rest

-- `findSlurmJobDirs`
unfoldable pub find_slurm_job_dirs : System → Collector → Option (List Bytes)
find_slurm_job_dirs sys m = elim (sys.read_dir m.cgroup_base) [
  | none ↦ none
  | some entries ↦ some (job_names entries)
]

-- the loop body of `ParseCPUs` for a range: two parts, each a number
unfoldable pub parse_range : List Bytes → Result (List ℤ)
parse_range (first ∷ last ∷ []) = elim (atoi (trim_space first)) [
  | none ↦ err "invalid CPU range start"
  | some start ↦ elim (atoi (trim_space last)) [
    | none ↦ err "invalid CPU range end"
    | some end ↦ ok (value_range start end)
  ]
]
parse_range parts = err "invalid CPU range"

unfoldable pub parse_part : Bytes → Result (List ℤ)
parse_part r =
    if contains_byte b'-' r
    then parse_range (split b'-' r)
    else elim (atoi (trim_space r)) [ none ↦ err "invalid CPU ID" | some cpu ↦ ok (cpu ∷ []) ]

unfoldable pub parse_parts : List Bytes → Result (List ℤ)
parse_parts [] = ok []
parse_parts (r ∷ rs) = elim (parse_part r) [
  | err e ↦ err e
  | ok values ↦ elim (parse_parts rs) [ err e ↦ err e | ok rest ↦ ok (values ++ rest) ]
]

-- `ParseCPUs`
unfoldable pub parse_cpus : Bytes → Result (List ℤ)
parse_cpus [] = ok []
parse_cpus (c ∷ cs) = parse_parts (split b',' (c ∷ cs))

-- `GetAllCPUs`
unfoldable pub get_all_cpus : System → Result (List ℤ)
get_all_cpus sys = elim sys.cpu_online [
  | none ↦ err "failed to read file"
  | some bytes ↦ parse_cpus (trim_space bytes)
]

-- the test on the user in `Init`
abbrev may_read : System → Bool → Result Bool
may_read sys true = ok true
may_read sys false = elim sys.current_uid [
  | none ↦ err "Failed to get current user"
  | some uid ↦
      if equal uid (codes "0") then ok true else err "Reading cgroup files requires root privileges"
]

-- `Init`
unfoldable pub init : System → Config → Result Collector
init sys config = elim (may_read sys config.use_sudo) [
  | err e ↦ err e
  | ok _ ↦ elim (get_all_cpus sys) [
    | err e ↦ err e
    | ok cpus ↦ ok record {
      all_cpus = cpus;
      cpu_used = [];
      cgroup_base =
          if equal config.cgroup_base []
          then codes "/sys/fs/cgroup/system.slice/slurmstepd.scope"
          else config.cgroup_base;
      exclude_metrics = config.exclude_metrics;
      use_sudo = config.use_sudo;
      init = true;
    }
  ]
]

-- the three times of cpu.stat, as far as they are read
pub record Times (F : Type 0) : Type 0 where
  pub usage : F
  pub user : F
  pub system : F

module _ {F Time Msg : Type 0} (calls : Calls F Time Msg) (zero hundred : F) where
  -- a number in a file, 0 if it is not there
  unfoldable pub float_in : Option Bytes → F
  float_in none = zero
  float_in (some bytes) = elim (calls.parse_float (trim_space bytes)) [ none ↦ zero | some x ↦ x ]

  -- the `switch` on the first field
  abbrev set_time : Bytes → F → Times F → Times F
  set_time name value times =
      if equal name (codes "usage_usec")
      then record times { usage = value }
      else if equal name (codes "user_usec")
      then record times { user = value }
      else if equal name (codes "system_usec")
      then record times { system = value }
      else times

  unfoldable pub read_time : List Bytes → Times F → Times F
  read_time (name ∷ number ∷ _) times = elim (calls.parse_float number) [
    | none ↦ times
    | some value ↦ set_time name value times
  ]
  read_time _ times = times

  unfoldable pub read_times : List Bytes → Times F → Times F
  read_times [] times = times
  read_times (line ∷ lines) times = read_times lines (read_time (fields line) times)

  -- the times of the file cpu.stat
  unfoldable pub times_in : Option Bytes → Times F
  times_in none = record { usage = zero; user = zero; system = zero }
  times_in (some bytes) =
      read_times (split b'\n' (trim_space bytes))
        (record { usage = zero; user = zero; system = zero })

  -- a share of the used time in percent, 0 if no time was used
  abbrev share : F → F → F
  share usage part =
      if calls.positive usage then calls.divide (calls.times part hundred) usage else zero

  abbrev cpus_in : Option Bytes → List ℤ
  cpus_in none = []
  cpus_in (some bytes) = elim (parse_cpus (trim_space bytes)) [ err e ↦ [] | ok cpus ↦ cpus ]

  -- `ReadJobData`, whose error is always nil
  unfoldable pub read_job_data : System → Collector → Bytes → JobData F
  read_job_data sys m job =
      let file = sys.read_file m.use_sudo m.cgroup_base job in
      let times = times_in (file (codes "cpu.stat")) in
      record {
        memory_usage = float_in (file (codes "memory.current"));
        max_memory_usage = float_in (file (codes "memory.peak"));
        limit_memory_usage = float_in (file (codes "memory.max"));
        cpu_usage_user = share times.usage times.user;
        cpu_usage_sys = share times.usage times.system;
        cpu_set = cpus_in (file (codes "cpuset.cpus"));
      }

abbrev pub core_tags : ℤ → Table Bytes
core_tags cpu = (codes "type", codes "hwthread") ∷ (codes "type-id", codes (itoa cpu)) ∷ []

abbrev pub job_meta : Table Bytes
job_meta = (codes "source", codes "SlurmCgroupCollector") ∷ (codes "group", codes "SLURM") ∷ []

-- a name, its unit and its value
abbrev pub Named : Type 0 → Type 0
Named F = Bytes × Bytes × Value F

-- the five values of a job for one of its `count` hardware threads
abbrev pub job_values : {F : Type 0} → (F → F → F) → JobData F → F → List (Named F)
job_values divide info count =
    (codes "job_mem_used", codes "Bytes", real (divide info.memory_usage count))
    ∷ (codes "job_max_mem_used", codes "Bytes", real (divide info.max_memory_usage count))
    ∷ (codes "job_mem_limit", codes "Bytes", real (divide info.limit_memory_usage count))
    ∷ (codes "job_user_cpu", codes "%", real (divide info.cpu_usage_user count))
    ∷ (codes "job_sys_cpu", codes "%", real (divide info.cpu_usage_sys count))
    ∷ []

abbrev pub idle_values : {F : Type 0} → List (Named F)
idle_values =
    (codes "job_mem_used", codes "Bytes", whole (pos 0))
    ∷ (codes "job_max_mem_used", codes "Bytes", whole (pos 0))
    ∷ (codes "job_mem_limit", codes "Bytes", whole (pos 0))
    ∷ (codes "job_user_cpu", codes "%", whole (pos 0))
    ∷ (codes "job_sys_cpu", codes "%", whole (pos 0))
    ∷ []

module _ {F Time Msg : Type 0} (calls : Calls F Time Msg) where
  -- the message of a value, with the unit in its meta info
  unfoldable pub message : Collector → Time → ℤ → Named F → List Msg
  message m time cpu (name, unit, value) =
      if member name m.exclude_metrics
      then []
      else elim (calls.new_metric name (core_tags cpu) job_meta value time) [
        | none ↦ []
        | some y ↦ calls.add_meta (codes "unit") unit y ∷ []
      ]

  unfoldable pub messages : Collector → Time → ℤ → List (Named F) → List Msg
  messages m time cpu [] = []
  messages m time cpu (value ∷ values) = message m time cpu value ++ messages m time cpu values

  -- one hardware thread of a job
  unfoldable pub job_core : Collector → Time → JobData F → ℤ → List Msg
  job_core m time info cpu =
      let count = calls.of_int (pos (length info.cpu_set)) in
      if calls.positive count then messages m time cpu (job_values calls.divide info count) else []

  unfoldable pub job_cores : Collector → Time → JobData F → List ℤ → List ℤ → List Msg × List ℤ
  job_cores m time info [] used = ([], used)
  job_cores m time info (cpu ∷ cpus) used =
      let (rest, last) = job_cores m time info cpus (cpu ∷ used) in
      (job_core m time info cpu ++ rest, last)

  -- the loop over the jobs
  unfoldable pub read_jobs :
      F → F → System → Collector → Time → List Bytes → List ℤ → List Msg × List ℤ
  read_jobs zero hundred sys m time [] used = ([], used)
  read_jobs zero hundred sys m time (job ∷ jobs) used =
      let info = read_job_data calls zero hundred sys m job in
      let (msgs, used') = job_cores m time info info.cpu_set used in
      let (rest, last) = read_jobs zero hundred sys m time jobs used' in (msgs ++ rest, last)

  -- the loop over all CPUs
  unfoldable pub read_idle : Collector → Time → List ℤ → List ℤ → List Msg
  read_idle m time used [] = []
  read_idle m time used (cpu ∷ cpus) =
      let rest = read_idle m time used cpus in
      if not (list_contains used cpu) then messages m time cpu idle_values ++ rest else rest

  -- `Read`, with the floats 0 and 100
  unfoldable pub read : F → F → System → Time → Collector → List Msg × Collector
  read zero hundred sys time m = elim (find_slurm_job_dirs sys m) [
    | none ↦ ([], record m { cpu_used = [] })
    | some jobs ↦
        let (msgs, used) = read_jobs zero hundred sys m time jobs [] in
        (msgs ++ read_idle m time used m.all_cpus, record m { cpu_used = used })
  ]

-- `Close`
unfoldable pub close : Collector → Collector
close m = record m { init = false }
