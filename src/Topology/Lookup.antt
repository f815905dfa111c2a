-- ===== src/Topology/Lookup.antt =====
-- The lookups agree with one another: the lists of hardware threads of a socket, die, NUMA domain
-- or core, the field of a hardware thread, and the lists of IDs.
use cc_metric_collector.Prelude.{
  ◌≡◌, refl, ◌⊎◌, inl, inr, ◌↔◌, true, false, Bool-cases, List, [], ◌∷◌, map, All, Elem, sym,
}
use cc_metric_collector.Prelude.Int.{ℤ, eqb_ℤ, eqb_ℤ_iff}
use cc_metric_collector.Topology.{
  HwthreadEntry, Topology, find_field, get_hwthread_socket, get_hwthread_numa_domain,
  get_hwthread_die, get_hwthread_core, threads_with, get_socket_hwthreads,
  get_numa_domain_hwthreads, get_die_hwthreads, get_core_hwthreads,
}

eqb_refl : (v : ℤ) → eqb_ℤ v v ≡ true
eqb_refl v = (eqb_ℤ_iff v v).1 refl

eqb_ne : (a c : ℤ) → eqb_ℤ a c ≡ false → ¬ (c ≡ a)
eqb_ne a c n p = cc (n, (eqb_ℤ_iff a c).1 (sym p))

skip_first : {A B : Type 0} → ¬ A → A ⊎ B → B
skip_first n (inl a) = absurd (n a)
skip_first n (inr b) = b

-- No two entries have the same hardware thread ID.
abbrev pub HasDistinctIds : List HwthreadEntry → Type 0
HasDistinctIds [] = Unit
HasDistinctIds (d ∷ ds) = All (λ e. eqb_ℤ e.cpu_id d.cpu_id ≡ false) ds × HasDistinctIds ds

module _ (field : HwthreadEntry → ℤ) where
  -- an ID that no entry has is in no list
  threads_with_absent :
      (ds : List HwthreadEntry) (c v : ℤ)
      → All (λ e. eqb_ℤ e.cpu_id c ≡ false) ds
      → ¬ Elem c (threads_with field ds v)
  unfolding threads_with
  threads_with_absent [] c v h m = m
  threads_with_absent (d ∷ ds) c v h m = elim (Bool-cases (eqb_ℤ (field d) v)) [
    | inl e ↦ elim (rw e at m) [
      | inl p ↦ eqb_ne d.cpu_id c h.0 p
      | inr m' ↦ threads_with_absent ds c v h.1 m'
    ]
    | inr e ↦ threads_with_absent ds c v h.1 (rw e at m)
  ]

  threads_with_found :
      (d : HwthreadEntry) (ds : List HwthreadEntry) (c v : ℤ)
      → HasDistinctIds (d ∷ ds)
      → c ≡ d.cpu_id
      → Elem c (threads_with field (d ∷ ds) v) ↔ (field d ≡ v)
  unfolding threads_with
  threads_with_found d ds c v h p = elim (Bool-cases (eqb_ℤ (field d) v)) [
    | inl e ↦ rw e (λ _. (eqb_ℤ_iff _ v).0 e, λ _. inl p)
    | inr e ↦ rw e (
      λ m. absurd (threads_with_absent ds c v (rw p h.0) m),
      λ q. absurd (eqb_ne (field d) v e (sym q)),
    )
  ]

  threads_with_later :
      (d : HwthreadEntry) (ds : List HwthreadEntry) (c v : ℤ)
      → eqb_ℤ d.cpu_id c ≡ false
      → Elem c (threads_with field (d ∷ ds) v) ↔ Elem c (threads_with field ds v)
  unfolding threads_with
  threads_with_later d ds c v n = elim (Bool-cases (eqb_ℤ (field d) v)) [
    | inl e ↦ rw e (skip_first (eqb_ne d.cpu_id c n), λ m. inr m)
    | inr e ↦ rw e (λ m. m, λ m. m)
  ]

  -- With distinct IDs, a hardware thread is in the list for `v` exactly if an entry has its ID and
  -- the lookup of the field gives `v`.
  threads_with-find :
      (ds : List HwthreadEntry) (c v : ℤ)
      → HasDistinctIds ds
      → Elem c (threads_with field ds v)
        ↔ (Elem c (map (λ e. e.cpu_id) ds) × (find_field field ds c ≡ v))
  unfolding find_field
  threads_with-find [] c v h = (λ m. absurd (unfold threads_with in m), λ p. absurd p.0)
  threads_with-find (d ∷ ds) c v h = elim (Bool-cases (eqb_ℤ d.cpu_id c)) [
    | inl e ↦
        let p = sym ((eqb_ℤ_iff d.cpu_id c).0 e) in
        let r = threads_with_found d ds c v h p in
        (λ m. (inl p, rw e (r.0 m)), λ q. r.1 (rw e at q.1))
    | inr e ↦
        let r = threads_with_later d ds c v e in
        let ih = threads_with-find ds c v h.1 in
        (
          λ m. (inr (ih.0 (r.0 m)).0, rw e (ih.0 (r.0 m)).1),
          λ q. r.1 (ih.1 (skip_first (eqb_ne d.cpu_id c e) q.0, rw e at q.1)),
        )
  ]

abbrev pub thread_ids : Topology → List ℤ
thread_ids t = map (λ e. e.cpu_id) t.cpu_data

-- With distinct IDs, a hardware thread is in the list of a socket, NUMA domain, die or core exactly
-- if it is known and its own lookup returns that socket, NUMA domain, die or core.
pub get_hwthreads-lookup :
    (t : Topology) (c v : ℤ)
    → HasDistinctIds t.cpu_data
    → (Elem c (get_socket_hwthreads t v) ↔ (Elem c (thread_ids t) × (get_hwthread_socket t c ≡ v)))
      × (Elem c (get_numa_domain_hwthreads t v)
          ↔ (Elem c (thread_ids t) × (get_hwthread_numa_domain t c ≡ v)))
      × (Elem c (get_die_hwthreads t v) ↔ (Elem c (thread_ids t) × (get_hwthread_die t c ≡ v)))
      × (Elem c (get_core_hwthreads t v) ↔ (Elem c (thread_ids t) × (get_hwthread_core t c ≡ v)))
unfolding get_socket_hwthreads get_numa_domain_hwthreads get_die_hwthreads get_core_hwthreads
    get_hwthread_socket get_hwthread_numa_domain get_hwthread_die get_hwthread_core
get_hwthreads-lookup t c v h = (
  threads_with-find (λ d. d.socket) t.cpu_data c v h,
  threads_with-find (λ d. d.numa_domain) t.cpu_data c v h,
  threads_with-find (λ d. d.die) t.cpu_data c v h,
  threads_with-find (λ d. d.core) t.cpu_data c v h,
)
