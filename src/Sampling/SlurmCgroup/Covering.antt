-- ===== src/Sampling/SlurmCgroup/Covering.antt =====
-- What a `Read` of collectors/slurmCgroupMetric.go sends: the jobs' hardware threads, and then those
-- of the online ones that no job has.
use cc_metric_collector.Prelude.{
  ◌≡◌, refl, ap, not, ◌||◌, Bool-cases, inl, inr, some, List, [], ◌∷◌, ◌++◌, map, filter, arith,
}
use cc_metric_collector.Prelude.Int.{ℤ}
use cc_metric_collector.Prelude.Bytes.{Bytes}
use cc_metric_collector.Builtins.{list_contains}
use cc_metric_collector.Sampling.{Calls}
use cc_metric_collector.Sampling.SlurmCgroup.{
  System, Collector, JobData, find_slurm_job_dirs, read_job_data, idle_values, messages, job_core,
  job_cores, read_jobs, read_idle, read,
}

-- all hardware threads of the jobs
unfoldable pub claimed : {F : Type 0} → List (JobData F) → List ℤ
claimed [] = []
claimed (info ∷ rest) = info.cpu_set ++ claimed rest

pub list_contains-append :
    (xs ys : List ℤ) (v : ℤ)
    → list_contains (xs ++ ys) v ≡ (list_contains xs v || list_contains ys v)
unfolding list_contains
list_contains-append [] ys v = refl
list_contains-append (x ∷ xs) ys v = ground (arith, list_contains-append xs ys v)

module _ {F Time Msg : Type 0} (calls : Calls F Time Msg) (m : Collector) (time : Time) where
  -- the messages of the hardware threads of a job, and of all jobs
  unfoldable pub cores : JobData F → List ℤ → List Msg
  cores info [] = []
  cores info (cpu ∷ cpus) = job_core calls m time info cpu ++ cores info cpus

  unfoldable pub jobs_messages : List (JobData F) → List Msg
  jobs_messages [] = []
  jobs_messages (info ∷ rest) = cores info info.cpu_set ++ jobs_messages rest

  -- the zeros of hardware threads
  unfoldable pub zeros : List ℤ → List Msg
  zeros [] = []
  zeros (cpu ∷ cpus) = messages calls m time cpu idle_values ++ zeros cpus

  job_cores-messages :
      (info : JobData F) (cpus used : List ℤ)
      → (job_cores calls m time info cpus used).0 ≡ cores info cpus
  unfolding job_cores cores
  job_cores-messages info [] used = refl
  job_cores-messages info (cpu ∷ cpus) used =
      ap (◌++◌ _) (job_cores-messages info cpus (cpu ∷ used))

  job_cores-used :
      (info : JobData F) (cpus used : List ℤ) (v : ℤ)
      → list_contains (job_cores calls m time info cpus used).1 v
        ≡ (list_contains used v || list_contains cpus v)
  unfolding job_cores list_contains
  job_cores-used info [] used v = ground arith
  job_cores-used info (cpu ∷ cpus) used v = ground (arith, job_cores-used info cpus (cpu ∷ used) v)

  module _ (zero hundred : F) (sys : System) where
    abbrev data_of : Bytes → JobData F
    data_of job = read_job_data calls zero hundred sys m job

    read_jobs-messages :
        (jobs : List Bytes) (used : List ℤ)
        → (read_jobs calls zero hundred sys m time jobs used).0 ≡ jobs_messages (map data_of jobs)
    unfolding read_jobs jobs_messages
    read_jobs-messages [] used = refl
    read_jobs-messages (job ∷ jobs) used =
        rw (job_cores-messages (data_of job) (data_of job).cpu_set used, read_jobs-messages jobs _)
          refl

    read_jobs-used :
        (jobs : List Bytes) (used : List ℤ) (v : ℤ)
        → list_contains (read_jobs calls zero hundred sys m time jobs used).1 v
          ≡ (list_contains used v || list_contains (claimed (map data_of jobs)) v)
    unfolding read_jobs claimed
    read_jobs-used [] used v = unfold list_contains in ground arith
    read_jobs-used (job ∷ jobs) used v =
        let cpus = (data_of job).cpu_set in
        ground (
          arith,
          job_cores-used (data_of job) cpus used v,
          read_jobs-used jobs (job_cores calls m time (data_of job) cpus used).1 v,
          list_contains-append cpus (claimed (map data_of jobs)) v,
        )

    read_jobs-claimed :
        (jobs : List Bytes) (v : ℤ)
        → list_contains (read_jobs calls zero hundred sys m time jobs []).1 v
          ≡ list_contains (claimed (map data_of jobs)) v
    unfolding list_contains
    read_jobs-claimed jobs v = read_jobs-used jobs [] v

  read_idle-zeros :
      (used cs : List ℤ) (cpus : List ℤ)
      → ((v : ℤ) → list_contains used v ≡ list_contains cs v)
      → read_idle calls m time used cpus ≡ zeros (filter (λ cpu. not (list_contains cs cpu)) cpus)
  unfolding read_idle zeros
  read_idle-zeros used cs [] h = refl
  read_idle-zeros used cs (cpu ∷ cpus) h = elim (Bool-cases (list_contains cs cpu)) [
    | inl e ↦ rw (h cpu, e) (read_idle-zeros used cs cpus h)
    | inr e ↦ rw (h cpu, e) (ap (◌++◌ _) (read_idle-zeros used cs cpus h))
  ]

  -- If the job directories can be listed, a `Read` sends the messages of each hardware thread of each
  -- job, in the order of the jobs, and then zeros for exactly those online hardware threads that are
  -- in no job's CPU set, whatever an earlier `Read` marked as used.
  pub read-messages :
      (zero hundred : F) (sys : System) (jobs : List Bytes)
      → find_slurm_job_dirs sys m ≡ some jobs
      → let infos = map (read_job_data calls zero hundred sys m) jobs in
        (read calls zero hundred sys time m).0
        ≡ jobs_messages infos
          ++ zeros (filter (λ cpu. not (list_contains (claimed infos) cpu)) m.all_cpus)
  unfolding read
  read-messages zero hundred sys jobs h =
      rw (h, read)
        (rw
          (
            read_jobs-messages zero hundred sys jobs [],
            read_idle-zeros _ (claimed (map (data_of zero hundred sys) jobs)) m.all_cpus
                (read_jobs-claimed zero hundred sys jobs),
          )
          refl)
