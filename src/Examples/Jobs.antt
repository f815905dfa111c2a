-- ===== src/Examples/Jobs.antt =====
-- A node with three hardware threads and one Slurm job on two of them, which uses 100 bytes.
use cc_metric_collector.Prelude.{
  ◌≡◌, refl, true, false, Option, none, some, [], ◌∷◌, ◌++◌, inl, inr, arith, if◌then◌else◌,
}
use cc_metric_collector.Prelude.Int.{pos, ◌+ℤ◌, ◌-ℤ◌}
use cc_metric_collector.Prelude.Bytes.{
  Bytes, codes, equal, member, is_space, contains_byte, fields, cut_fields,
}
use cc_metric_collector.Builtins.{itoa, digits_fuel, list_contains}
use cc_metric_collector.Topology.Parse.{
  trim_space, trim_left, split, atoi, natural, digits_value, value_range, count_up,
}
use cc_metric_collector.Topology.Parse.Ranges.{span, show_ranges}
use cc_metric_collector.Examples.Sampled.{calls}
use cc_metric_collector.Sampling.{real, whole}
use cc_metric_collector.Sampling.SlurmCgroup.{
  System, Collector, find_slurm_job_dirs, job_names, is_job_id_dir, read_job_data, parse_cpus,
  parse_parts, parse_part, parse_range, float_in, job_core, message, messages, read_time,
  read_times, times_in, read,
}
use cc_metric_collector.Sampling.SlurmCgroup.Covering.{
  claimed, cores, jobs_messages, zeros, read-messages,
}
use cc_metric_collector.Sampling.SlurmCgroup.Reporting.{IsReported, Makes, read-IsReported}

abbrev job_file : Bytes → Option Bytes
job_file file =
    if equal file (codes "cpuset.cpus")
    then some (codes "0-1")
    else if equal file (codes "memory.current")
    then some (codes "100")
    else none

abbrev system : System
system = record {
  read_dir = λ base. some (record { name = codes "job_17"; is_dir = true } ∷ []);
  read_file = λ sudo base job file. job_file file;
  cpu_online = some (show_ranges (span 0 2) [] ++ 10 ∷ []);
  current_uid = some (codes "0");
}

abbrev collector : Collector
collector = record {
  all_cpus = pos 0 ∷ pos 1 ∷ pos 2 ∷ [];
  cpu_used = pos 2 ∷ [];
  cgroup_base = codes "/sys/fs/cgroup";
  exclude_metrics =
      codes "job_max_mem_used"
      ∷ codes "job_mem_limit"
      ∷ codes "job_user_cpu"
      ∷ codes "job_sys_cpu"
      ∷ [];
  use_sudo = false;
  init = true;
}

collector-find : find_slurm_job_dirs system collector ≡ some (codes "job_17" ∷ [])
unfolding find_slurm_job_dirs job_names is_job_id_dir
collector-find = refl

read-messages_example :
    (read calls (pos 0) (pos 100) system 5 collector).0
    ≡ (codes "job_mem_used", real (pos 100), 5)
      ∷ (codes "job_mem_used", real (pos 100), 5)
      ∷ (codes "job_mem_used", whole (pos 0), 5)
      ∷ []
unfolding jobs_messages cores zeros claimed read_job_data parse_cpus trim_space trim_left is_space
    parse_parts split parse_part contains_byte parse_range atoi natural digits_value value_range
    count_up digits_fuel itoa cut_fields fields member ◌+ℤ◌ ◌-ℤ◌ float_in job_core message messages
    read_time read_times times_in list_contains
read-messages_example =
    read-messages calls collector 5 (pos 0) (pos 100) system (codes "job_17" ∷ []) collector-find

collector-Makes : Makes calls collector 5 (codes "job_mem_used") (codes "Bytes") (pos 2)
collector-Makes = record {
  made = λ n tags meta value. ((n, value, 5), refl);
  stays_positive = λ n. ground arith;
}

read-IsReported_example :
    IsReported calls collector 5
      (codes "job_mem_used")
      (codes "Bytes")
      (pos 2)
      (read calls (pos 0) (pos 100) system 5 collector).0
unfolding member
read-IsReported_example =
    read-IsReported calls collector 5 (codes "job_mem_used") (codes "Bytes") (pos 2) (pos 0)
      (pos 100) system (codes "job_17" ∷ []) collector-Makes collector-find refl (inl refl)
      (inr (inr (inl refl)))
