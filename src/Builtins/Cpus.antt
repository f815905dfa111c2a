-- ===== src/Builtins/Cpus.antt =====
-- The lookups of expressions agree with those of the topology.
use cc_metric_collector.Prelude.{
  ◌≡◌, refl, inl, inr, ap, Bool-cases, String, List, [], ◌∷◌, map, filter, ◌⊎◌,
}
use cc_metric_collector.Prelude.Int.{ℤ, eqb_ℤ}
use cc_metric_collector.Prelude.Run.{done}
use cc_metric_collector.Topology.{
  HwthreadEntry, Topology, threads_with, get_socket_hwthreads, get_numa_domain_hwthreads,
  get_die_hwthreads, get_core_hwthreads, get_type_hwthreads,
}
use cc_metric_collector.Values.{ok, err, int, string}
use cc_metric_collector.Builtins.{
  get_cpu_list_of_core_func, get_cpu_list_of_socket_func, get_cpu_list_of_numa_domain_func,
  get_cpu_list_of_die_func, list_of_type_name, get_cpu_list_of_type,
}

filter-threads_with :
    (field : HwthreadEntry → ℤ) (ds : List HwthreadEntry) (v : ℤ)
    → map (λ c. c.cpu_id) (filter (λ c. eqb_ℤ (field c) v) ds) ≡ threads_with field ds v
unfolding threads_with
filter-threads_with field [] v = refl
filter-threads_with field (d ∷ ds) v = elim (Bool-cases (eqb_ℤ (field d) v)) [
  | inl e ↦ rw e (ap (◌∷◌ d.cpu_id) (filter-threads_with field ds v))
  | inr e ↦ rw e (filter-threads_with field ds v)
]

module _ (F G : Type 0) (t : Topology) (id : ℤ) where
  -- For an int, the four lists of hardware threads of the aggregator are those of the topology.
  pub get_cpu_list-topology :
      (get_cpu_list_of_socket_func {F = F} {G = G} t (int id) ≡ get_socket_hwthreads t id)
      × (get_cpu_list_of_numa_domain_func {F = F} {G = G} t (int id)
          ≡ get_numa_domain_hwthreads t id)
      × (get_cpu_list_of_die_func {F = F} {G = G} t (int id) ≡ get_die_hwthreads t id)
      × (get_cpu_list_of_core_func {F = F} {G = G} t (int id) ≡ get_core_hwthreads t id)
  unfolding get_cpu_list_of_socket_func get_cpu_list_of_numa_domain_func get_cpu_list_of_die_func
      get_cpu_list_of_core_func get_socket_hwthreads get_numa_domain_hwthreads get_die_hwthreads
      get_core_hwthreads
  get_cpu_list-topology = (
    filter-threads_with (λ d. d.socket) t.cpu_data id,
    filter-threads_with (λ d. d.numa_domain) t.cpu_data id,
    filter-threads_with (λ d. d.die) t.cpu_data id,
    filter-threads_with (λ d. d.core) t.cpu_data id,
  )

  -- `getCpuListOfType` has the list of the topology for the types that both know by one name.
  pub get_cpu_list_of_type-topology :
      (typ : String)
      → (typ ≡ "node") ⊎ (typ ≡ "socket") ⊎ (typ ≡ "core")
      → get_cpu_list_of_type {F = F} {G = G} t (string typ ∷ int id ∷ [])
        ≡ done (ok (get_type_hwthreads t typ id))
  unfolding get_cpu_list_of_type list_of_type_name get_type_hwthreads
  get_cpu_list_of_type-topology typ (inl e) = rw e
  get_cpu_list_of_type-topology typ (inr (inl e)) = rw e (rw get_cpu_list-topology.0)
  get_cpu_list_of_type-topology typ (inr (inr e)) = rw e (rw get_cpu_list-topology.3)

  -- `getCpuListOfType` reports an error for every hardware thread, die and memory domain, whose
  -- lists of hardware threads the topology has under these names.
  pub get_cpu_list_of_type-fails :
      (typ : String)
      → (typ ≡ "hwthread") ⊎ (typ ≡ "die") ⊎ (typ ≡ "memoryDomain")
      → get_cpu_list_of_type {F = F} {G = G} t (string typ ∷ int id ∷ [])
        ≡ done (err "no valid args type and type-id")
  unfolding get_cpu_list_of_type list_of_type_name
  get_cpu_list_of_type-fails typ (inl e) = rw e
  get_cpu_list_of_type-fails typ (inr (inl e)) = rw e
  get_cpu_list_of_type-fails typ (inr (inr e)) = rw e
