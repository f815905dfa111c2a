-- ===== src/Topology.antt =====
-- pkg/ccTopology/ccTopology.go: the table of hardware threads that `init` builds from sysfs, the
-- lists of IDs, and the lookups. The file system is the parameter `Sysfs`: the names that the two
-- globs return, and the contents of the four files of a hardware thread.
pub mod Parse
pub mod Types
pub mod Lookup
pub mod Distinct
use cc_metric_collector.Prelude.{
  ℕ, suc, Bool, true, false, ◌&&◌, String, Option, none, some, List, [], ◌∷◌, map, filter, length,
  ◌==◌, if◌then◌else◌,
}
use text.Mathlib.Text.{◌==◌ as str_eq}
use cc_metric_collector.Prelude.Int.{ℤ, pos, negsuc, eqb_ℤ, ltb_ℤ}
use cc_metric_collector.Prelude.Sort.{sort}
use cc_metric_collector.Values.{Result, ok, err}
use Parse.{◌>>=◌, is_digit, atoi, file_to_int, file_to_list}

pub record HwthreadEntry : Type 0 where
  pub cpu_id : ℤ
  pub smt : ℤ
  pub core_cpus_list : List ℤ
  pub core : ℤ
  pub socket : ℤ
  pub die : ℤ
  pub numa_domain : ℤ

-- the variable `cache`
pub record Topology : Type 0 where
  pub hwthread_list : List ℤ
  pub smt_list : List ℤ
  pub core_list : List ℤ
  pub socket_list : List ℤ
  pub die_list : List ℤ
  pub numa_domain_list : List ℤ
  pub cpu_data : List HwthreadEntry

-- What the program reads below /sys/devices/system/cpu: base names and file contents in bytes.
pub record Sysfs : Type 0 where
  pub cpu_names : Option (List (List ℕ))
  pub node_names : ℤ → Option (List (List ℕ))
  pub core_id : ℤ → Option (List ℕ)
  pub physical_package_id : ℤ → Option (List ℕ)
  pub die_id : ℤ → Option (List ℕ)
  pub core_cpus : ℤ → Option (List ℕ)

unfoldable pub leading_digits : List ℕ → List ℕ
leading_digits [] = []
leading_digits (c ∷ cs) = let rest = leading_digits cs in if is_digit c then c ∷ rest else []

-- the submatch of `prefix([[:digit:]]+)` in a name; `none` where there is none
unfoldable pub id_after : List ℕ → List ℕ → Option (List ℕ)
id_after [] name = elim (leading_digits name) [ [] ↦ none | c ∷ cs ↦ some (c ∷ cs) ]
id_after (p ∷ prefix) [] = none
id_after (p ∷ prefix) (c ∷ name) = if c == p then id_after prefix name else none

abbrev pub cpu_prefix : List ℕ
cpu_prefix = b'c' ∷ b'p' ∷ b'u' ∷ []

abbrev pub node_prefix : List ℕ
node_prefix = b'n' ∷ b'o' ∷ b'd' ∷ b'e' ∷ []

-- the loop of `getHWThreads`: the first name without an ID ends it with nil
unfoldable pub thread_ids : List (List ℕ) → Option (List ℤ)
thread_ids [] = some []
thread_ids (file ∷ files) = do
  digits ← id_after cpu_prefix file
  id ← atoi digits
  ids ← thread_ids files
  some (id ∷ ids)

unfoldable pub get_hw_threads : Sysfs → List ℤ
get_hw_threads sys = elim (do files ← sys.cpu_names; thread_ids files) [
  | none ↦ []
  | some ids ↦ sort ltb_ℤ ids
]

-- the ID in a single node name
abbrev pub node_id : List (List ℕ) → Option ℤ
node_id (file ∷ []) = do digits ← id_after node_prefix file; atoi digits
node_id _ = none

unfoldable pub get_numa_domain : Sysfs → ℤ → ℤ
get_numa_domain sys c = elim (do files ← sys.node_names c; node_id files) [
  | none ↦ negsuc 0
  | some id ↦ id
]

-- slices.Index, -1 if the value is not in the list
unfoldable pub index_from : ℕ → List ℤ → ℤ → ℤ
index_from i [] v = negsuc 0
index_from i (w ∷ ws) v = let rest = index_from (suc i) ws v in if eqb_ℤ w v then pos i else rest

abbrev pub or_nil : Option (List ℤ) → List ℤ
or_nil none = []
or_nil (some vs) = vs

-- the loop body of `init`: the entry of one hardware thread
unfoldable pub entry_of : Sysfs → ℤ → HwthreadEntry
entry_of sys c =
    let socket = file_to_int (sys.physical_package_id c) in
    let die = file_to_int (sys.die_id c) in
    let cpus = or_nil (file_to_list (sys.core_cpus c)) in
    record {
      cpu_id = c;
      smt = index_from 0 cpus c;
      core_cpus_list = cpus;
      core = file_to_int (sys.core_id c);
      socket = socket;
      die = if ltb_ℤ die (pos 0) then socket else die;
      numa_domain = get_numa_domain sys c;
    }

-- slices.Compact: of equal neighbours the first is kept
unfoldable pub compact_after : ℤ → List ℤ → List ℤ
compact_after v [] = []
compact_after v (w ∷ ws) =
    let kept = w ∷ compact_after w ws in
    let rest = compact_after v ws in if eqb_ℤ v w then rest else kept

unfoldable pub compact : List ℤ → List ℤ
compact [] = []
compact (v ∷ vs) = v ∷ compact_after v vs

-- slices.Sort and slices.Compact in turn
unfoldable pub distinct : List ℤ → List ℤ
distinct vs = compact (sort ltb_ℤ vs)

unfoldable pub init : Sysfs → Topology
init sys =
    let threads = get_hw_threads sys in
    let entries = map (entry_of sys) threads in
    record {
      hwthread_list = distinct threads;
      smt_list = distinct (map (λ e. e.smt) entries);
      core_list = distinct (map (λ e. e.core) entries);
      socket_list = distinct (map (λ e. e.socket) entries);
      die_list = distinct (map (λ e. e.die) entries);
      numa_domain_list = distinct (map (λ e. e.numa_domain) entries);
      cpu_data = entries;
    }

-- `DieList` falls back to the sockets.
unfoldable pub die_list_or_sockets : Topology → List ℤ
die_list_or_sockets t = elim t.die_list [ [] ↦ t.socket_list | d ∷ ds ↦ d ∷ ds ]

unfoldable pub get_type_list : Topology → String → List ℤ
get_type_list t topology_type =
    if str_eq topology_type "node"
    then pos 0 ∷ []
    else if str_eq topology_type "socket"
    then t.socket_list
    else if str_eq topology_type "die"
    then die_list_or_sockets t
    else if str_eq topology_type "memoryDomain"
    then t.numa_domain_list
    else if str_eq topology_type "core"
    then t.core_list
    else if str_eq topology_type "hwthread"
    then t.hwthread_list
    else []

unfoldable pub get_type_id : HwthreadEntry → String → Result ℤ
get_type_id hwt topology_type =
    if str_eq topology_type "node"
    then ok (pos 0)
    else if str_eq topology_type "socket"
    then ok hwt.socket
    else if str_eq topology_type "die"
    then ok hwt.die
    else if str_eq topology_type "memoryDomain"
    then ok hwt.numa_domain
    else if str_eq topology_type "core"
    then ok hwt.core
    else if str_eq topology_type "hwthread"
    then ok hwt.cpu_id
    else err "unknown topology type"

pub record CpuInformation : Type 0 where
  pub num_hwthreads : ℕ
  pub smt_width : ℕ
  pub num_sockets : ℕ
  pub num_dies : ℕ
  pub num_cores : ℕ
  pub num_numa_domains : ℕ

unfoldable pub cpu_info : Topology → CpuInformation
cpu_info t = record {
  num_hwthreads = length t.hwthread_list;
  smt_width = length t.smt_list;
  num_sockets = length t.socket_list;
  num_dies = length t.die_list;
  num_cores = length t.core_list;
  num_numa_domains = length t.numa_domain_list;
}

-- the loop that the four lookups of a hardware thread share: the field of the first entry with
-- the ID, -1 without one
unfoldable pub find_field : (HwthreadEntry → ℤ) → List HwthreadEntry → ℤ → ℤ
find_field field [] cpu_id = negsuc 0
find_field field (d ∷ ds) cpu_id =
    let rest = find_field field ds cpu_id in if eqb_ℤ d.cpu_id cpu_id then field d else rest

unfoldable pub get_hwthread_socket : Topology → ℤ → ℤ
get_hwthread_socket t = find_field (λ d. d.socket) t.cpu_data

unfoldable pub get_hwthread_numa_domain : Topology → ℤ → ℤ
get_hwthread_numa_domain t = find_field (λ d. d.numa_domain) t.cpu_data

unfoldable pub get_hwthread_die : Topology → ℤ → ℤ
get_hwthread_die t = find_field (λ d. d.die) t.cpu_data

unfoldable pub get_hwthread_core : Topology → ℤ → ℤ
get_hwthread_core t = find_field (λ d. d.core) t.cpu_data

-- the loop that the four lists of hardware threads share
unfoldable pub threads_with : (HwthreadEntry → ℤ) → List HwthreadEntry → ℤ → List ℤ
threads_with field [] id = []
threads_with field (d ∷ ds) id =
    let rest = threads_with field ds id in if eqb_ℤ (field d) id then d.cpu_id ∷ rest else rest

unfoldable pub get_socket_hwthreads : Topology → ℤ → List ℤ
get_socket_hwthreads t = threads_with (λ d. d.socket) t.cpu_data

unfoldable pub get_numa_domain_hwthreads : Topology → ℤ → List ℤ
get_numa_domain_hwthreads t = threads_with (λ d. d.numa_domain) t.cpu_data

unfoldable pub get_die_hwthreads : Topology → ℤ → List ℤ
get_die_hwthreads t = threads_with (λ d. d.die) t.cpu_data

unfoldable pub get_core_hwthreads : Topology → ℤ → List ℤ
get_core_hwthreads t = threads_with (λ d. d.core) t.cpu_data

unfoldable pub get_type_hwthreads : Topology → String → ℤ → List ℤ
get_type_hwthreads t topology_type id =
    if str_eq topology_type "node"
    then t.hwthread_list
    else if str_eq topology_type "socket"
    then get_socket_hwthreads t id
    else if str_eq topology_type "die"
    then get_die_hwthreads t id
    else if str_eq topology_type "memoryDomain"
    then get_numa_domain_hwthreads t id
    else if str_eq topology_type "core"
    then get_core_hwthreads t id
    else if str_eq topology_type "hwthread"
    then id ∷ []
    else []
