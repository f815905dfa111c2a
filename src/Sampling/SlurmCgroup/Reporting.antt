-- ===== src/Sampling/SlurmCgroup/Reporting.antt =====
-- Every online hardware thread is in the messages of a `Read` of collectors/slurmCgroupMetric.go.
use cc_metric_collector.Prelude.{
  ℕ, suc, ◌≡◌, refl, ap, ◌∙◌, Bool, true, false, not, Bool-cases, inl, inr, some, List, [], ◌∷◌,
  ◌++◌, map, filter, length, Elem, arith, Elem-left, Elem-right,
}
use cc_metric_collector.Prelude.Int.{ℤ, pos}
use cc_metric_collector.Prelude.Bytes.{Bytes, Table, codes, member}
use cc_metric_collector.Builtins.{list_contains}
use cc_metric_collector.Builtins.Matching.{list_contains-Elem}
use cc_metric_collector.Sampling.{Value, Calls}
use cc_metric_collector.Sampling.SlurmCgroup.{
  System, Collector, JobData, Named, find_slurm_job_dirs, read_job_data, core_tags, job_meta,
  job_values, idle_values, message, messages, job_core, read,
}
use cc_metric_collector.Sampling.SlurmCgroup.Covering.{
  claimed, list_contains-append, cores, jobs_messages, zeros, read-messages,
}

-- the five metrics with their units
abbrev pub metric_names : List (Bytes × Bytes)
metric_names =
    (codes "job_mem_used", codes "Bytes")
    ∷ (codes "job_max_mem_used", codes "Bytes")
    ∷ (codes "job_mem_limit", codes "Bytes")
    ∷ (codes "job_user_cpu", codes "%")
    ∷ (codes "job_sys_cpu", codes "%")
    ∷ []

abbrev key : {F : Type 0} → Named F → Bytes × Bytes
key (name, unit, value) = (name, unit)

Elem-filter :
    {A : Type 0} (p : A → Bool) (a : A) (xs : List A)
    → Elem a xs
    → p a ≡ true
    → Elem a (filter p xs)
Elem-filter p a [] h k = elim h [ ]
Elem-filter p a (x ∷ xs) (inl e) k = let kept : p x ≡ true = cc in rw kept (inl e)
Elem-filter p a (x ∷ xs) (inr h) k = elim (Bool-cases (p x)) [
  | inl e ↦ rw e (inr (Elem-filter p a xs h k))
  | inr e ↦ rw e (Elem-filter p a xs h k)
]

Elem-length : {A : Type 0} (a : A) (xs : List A) → Elem a xs → (n : ℕ) × (length xs ≡ suc n)
Elem-length a [] h = elim h [ ]
Elem-length a (x ∷ xs) h = (length xs, refl)

module _ {F Time Msg : Type 0} (calls : Calls F Time Msg) (m : Collector) (time : Time)
    (name unit : Bytes) (cpu : ℤ) where
  -- one of the messages is the metric for the hardware thread
  abbrev pub IsReported : List Msg → Type 0
  IsReported msgs =
      (value : Value F) × (y : Msg) × (calls.new_metric name (core_tags cpu) job_meta value time
        ≡ some y)
      × Elem (calls.add_meta (codes "unit") unit y) msgs

  IsReported-left : (xs ys : List Msg) → IsReported xs → IsReported (xs ++ ys)
  IsReported-left xs ys (value, y, e, h) = (value, y, e, Elem-left _ xs ys h)

  IsReported-right : (xs ys : List Msg) → IsReported ys → IsReported (xs ++ ys)
  IsReported-right xs ys (value, y, e, h) = (value, y, e, Elem-right _ xs ys h)

  -- `NewMetric` makes every metric, and a positive number stays positive as a float.
  pub record Makes : Type 0 where
    pub made :
        (n : Bytes) (tags meta : Table Bytes) (value : Value F)
        → (y : Msg) × (calls.new_metric n tags meta value time ≡ some y)
    pub stays_positive : (n : ℕ) → calls.positive (calls.of_int (pos (suc n))) ≡ true

  message-IsReported :
      (value : Value F)
      → Makes
      → member name m.exclude_metrics ≡ false
      → IsReported (message calls m time cpu (name, unit, value))
  unfolding message
  message-IsReported value mk e =
      let (y, made) = mk.made name (core_tags cpu) job_meta value in
      (value, y, made, rw (e, made) (inl refl))

  messages-IsReported :
      (values : List (Named F))
      → Makes
      → member name m.exclude_metrics ≡ false
      → Elem (name, unit) (map key values)
      → IsReported (messages calls m time cpu values)
  unfolding messages
  messages-IsReported [] mk e h = elim h [ ]
  messages-IsReported ((n, u, value) ∷ values) mk e (inl same) =
      let renamed : message calls m time cpu (name, unit, value)
          ≡ message calls m time cpu (n, u, value) =
        ap (λ (k : Bytes × Bytes). message calls m time cpu (k.0, k.1, value)) same in
      IsReported-left (message calls m time cpu (n, u, value)) _
        (rw (← renamed) (message-IsReported value mk e))
  messages-IsReported (v ∷ values) mk e (inr h) =
      IsReported-right _ _ (messages-IsReported values mk e h)

  job_core-IsReported :
      (info : JobData F)
      → Makes
      → member name m.exclude_metrics ≡ false
      → Elem (name, unit) metric_names
      → Elem cpu info.cpu_set
      → IsReported (job_core calls m time info cpu)
  unfolding job_core
  job_core-IsReported info mk e n h =
      let (k, some_) = Elem-length cpu info.cpu_set h in
      let count = calls.of_int (pos (length info.cpu_set)) in
      let positive : calls.positive count ≡ true =
        ap (λ l. calls.positive (calls.of_int (pos l))) some_ ∙ mk.stays_positive k in
      rw positive (messages-IsReported (job_values calls.divide info count) mk e n)

  cores-IsReported :
      (info : JobData F) (cpus : List ℤ)
      → IsReported (job_core calls m time info cpu)
      → Elem cpu cpus
      → IsReported (cores calls m time info cpus)
  unfolding cores
  cores-IsReported info [] r h = elim h [ ]
  cores-IsReported info (c ∷ cpus) r (inl same) =
      let moved : job_core calls m time info cpu ≡ job_core calls m time info c =
        ap (job_core calls m time info) same in
      IsReported-left (job_core calls m time info c) _ (rw (← moved) r)
  cores-IsReported info (c ∷ cpus) r (inr h) = IsReported-right _ _ (cores-IsReported info cpus r h)

  jobs-IsReported :
      (infos : List (JobData F))
      → Makes
      → member name m.exclude_metrics ≡ false
      → Elem (name, unit) metric_names
      → list_contains (claimed infos) cpu ≡ true
      → IsReported (jobs_messages calls m time infos)
  unfolding jobs_messages claimed
  jobs-IsReported [] mk e n h = unfold list_contains in cc
  jobs-IsReported (info ∷ infos) mk e n h = elim (Bool-cases (list_contains info.cpu_set cpu)) [
    | inl c ↦
        let mine = (list_contains-Elem info.cpu_set cpu).0 c in
        IsReported-left _ _
          (cores-IsReported info info.cpu_set (job_core-IsReported info mk e n mine) mine)
    | inr c ↦
        let later : list_contains (claimed infos) cpu ≡ true =
          ground (arith, list_contains-append info.cpu_set (claimed infos) cpu, h, c) in
        IsReported-right _ _ (jobs-IsReported infos mk e n later)
  ]

  zeros-IsReported :
      (cpus : List ℤ)
      → Makes
      → member name m.exclude_metrics ≡ false
      → Elem (name, unit) metric_names
      → Elem cpu cpus
      → IsReported (zeros calls m time cpus)
  unfolding zeros
  zeros-IsReported [] mk e n h = elim h [ ]
  zeros-IsReported (c ∷ cpus) mk e n (inl same) =
      let moved : messages calls m time cpu idle_values ≡ messages calls m time c idle_values =
        ap (λ k. messages calls m time k idle_values) same in
      IsReported-left (messages calls m time c idle_values) _
        (rw (← moved) (messages-IsReported idle_values mk e n))
  zeros-IsReported (c ∷ cpus) mk e n (inr h) = IsReported-right _ _ (zeros-IsReported cpus mk e n h)

  -- If the job directories can be listed, every metric can be made and counts stay positive as floats,
  -- a `Read` sends each of the five metrics that is not excluded for every online hardware thread:
  -- none is left out, with a job or without.
  pub read-IsReported :
      (zero hundred : F) (sys : System) (jobs : List Bytes)
      → Makes
      → find_slurm_job_dirs sys m ≡ some jobs
      → member name m.exclude_metrics ≡ false
      → Elem (name, unit) metric_names
      → Elem cpu m.all_cpus
      → IsReported (read calls zero hundred sys time m).0
  read-IsReported zero hundred sys jobs mk d e n h =
      let infos = map (read_job_data calls zero hundred sys m) jobs in
      rw (read-messages calls m time zero hundred sys jobs d)
        (elim (Bool-cases (list_contains (claimed infos) cpu)) [
          | inl c ↦ IsReported-left _ _ (jobs-IsReported infos mk e n c)
          | inr c ↦
              let free : not (list_contains (claimed infos) cpu) ≡ true = ap not c in
              IsReported-right _ _ (
                zeros-IsReported _ mk e n
                  (Elem-filter (λ v. not (list_contains (claimed infos) v)) cpu m.all_cpus h free))
        ])
