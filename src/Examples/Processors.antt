-- ===== src/Examples/Processors.antt =====
-- A node with two hardware threads on one socket.
use cc_metric_collector.Prelude.{◌≡◌, ◌↔◌, refl, some, [], ◌∷◌, Elem, inl, inr}
use cc_metric_collector.Prelude.Int.{ℤ, pos, ◌-ℤ◌, ◌+ℤ◌}
use cc_metric_collector.Topology.{
  get_hw_threads, id_after, leading_digits, get_numa_domain, entry_of, index_from, Topology, Sysfs,
  HwthreadEntry, init, distinct, get_type_id, get_type_list, get_type_hwthreads,
  get_socket_hwthreads, get_numa_domain_hwthreads, get_die_hwthreads, get_core_hwthreads,
  get_hwthread_socket, get_hwthread_numa_domain, get_hwthread_die, get_hwthread_core,
}
use cc_metric_collector.Topology as topology
use cc_metric_collector.Prelude.Sort.{sort, insert_sorted}
use cc_metric_collector.Prelude.Bytes.{is_space}
use cc_metric_collector.Topology.Parse.{
  atoi, file_to_list, file_to_int, trim_space, trim_left, split, digits_value, natural,
  range_values, ranges_values, value_range, count_up,
}
use cc_metric_collector.Topology.Lookup.{thread_ids, get_hwthreads-lookup}
use cc_metric_collector.Topology.Types.{get_type_id-consistent}

abbrev entry_on : ℤ → ℤ → HwthreadEntry
entry_on c core = record {
  cpu_id = c;
  smt = pos 0;
  core_cpus_list = c ∷ [];
  core = core;
  socket = pos 0;
  die = pos 0;
  numa_domain = pos 0;
}

abbrev two_threads : Topology
two_threads = record {
  hwthread_list = pos 0 ∷ pos 1 ∷ [];
  smt_list = pos 0 ∷ [];
  core_list = pos 0 ∷ pos 1 ∷ [];
  socket_list = pos 0 ∷ [];
  die_list = pos 0 ∷ [];
  numa_domain_list = pos 0 ∷ [];
  cpu_data = entry_on (pos 0) (pos 0) ∷ entry_on (pos 1) (pos 1) ∷ [];
}

-- cpu0 and cpu1; every file has a zero
abbrev sysfs : Sysfs
sysfs = record {
  cpu_names = some ((b'c' ∷ b'p' ∷ b'u' ∷ b'1' ∷ []) ∷ (b'c' ∷ b'p' ∷ b'u' ∷ b'0' ∷ []) ∷ []);
  node_names = λ c. some ((b'n' ∷ b'o' ∷ b'd' ∷ b'e' ∷ b'0' ∷ []) ∷ []);
  core_id = λ c. some (b'0' ∷ 10 ∷ []);
  physical_package_id = λ c. some (b'0' ∷ 10 ∷ []);
  die_id = λ c. some (b'0' ∷ 10 ∷ []);
  core_cpus = λ c. some (b'0' ∷ b'-' ∷ b'1' ∷ 10 ∷ []);
}

get_hwthreads-lookup_example :
    (Elem (pos 1) (get_socket_hwthreads two_threads (pos 0))
      ↔ (Elem (pos 1) (thread_ids two_threads) × (get_hwthread_socket two_threads (pos 1) ≡ pos 0)))
    × (Elem (pos 1) (get_numa_domain_hwthreads two_threads (pos 0)) ↔ (
        Elem (pos 1) (thread_ids two_threads)
        × (get_hwthread_numa_domain two_threads (pos 1) ≡ pos 0)))
    × (Elem (pos 1) (get_die_hwthreads two_threads (pos 0))
        ↔ (Elem (pos 1) (thread_ids two_threads) × (get_hwthread_die two_threads (pos 1) ≡ pos 0)))
    × (Elem (pos 1) (get_core_hwthreads two_threads (pos 0))
        ↔ (Elem (pos 1) (thread_ids two_threads) × (get_hwthread_core two_threads (pos 1) ≡ pos 0)))
get_hwthreads-lookup_example =
    get_hwthreads-lookup two_threads (pos 1) (pos 0) ((refl, tt), (tt, tt))

-- the entry that `init` makes of cpu1
abbrev second_entry : HwthreadEntry
second_entry = record {
  cpu_id = pos 1;
  smt = pos 1;
  core_cpus_list = pos 0 ∷ pos 1 ∷ [];
  core = pos 0;
  socket = pos 0;
  die = pos 0;
  numa_domain = pos 0;
}

second_entry-found : Elem second_entry (init sysfs).cpu_data
unfolding init get_hw_threads topology.thread_ids id_after leading_digits atoi sort insert_sorted
    get_numa_domain entry_of index_from file_to_int file_to_list trim_space trim_left is_space split
    digits_value natural range_values ranges_values value_range count_up ◌-ℤ◌ ◌+ℤ◌
second_entry-found = inr (inl refl)

get_type_id-consistent_example :
    Elem (pos 0) (get_type_list (init sysfs) "socket")
    × Elem (pos 1) (get_type_hwthreads (init sysfs) "socket" (pos 0))
get_type_id-consistent_example =
    get_type_id-consistent sysfs "socket" second_entry (pos 0) second_entry-found
      (unfold get_type_id in refl)
