-- ===== src/Topology/Types.antt =====
-- The names of topology types: IDs, lists of IDs and lists of hardware threads fit together.
use text.Mathlib.Text.{◌==◌ as str_eq}
use cc_metric_collector.Prelude.{
  ◌≡◌, refl, inl, inr, Bool-cases, String, List, [], ◌∷◌, map, Elem, sym, ap,
}
use cc_metric_collector.Prelude.Int.{ℤ, eqb_ℤ, eqb_ℤ_iff}
use cc_metric_collector.Values.{ok, err}
use cc_metric_collector.Topology.{
  HwthreadEntry, Topology, Sysfs, get_hw_threads, entry_of, distinct, init, die_list_or_sockets,
  get_type_list, get_type_id, threads_with, get_socket_hwthreads, get_numa_domain_hwthreads,
  get_die_hwthreads, get_core_hwthreads, get_type_hwthreads,
}
use cc_metric_collector.Topology.Distinct.{distinct-IsStrict}

Elem-map : {A : Type 0} (f : A → ℤ) (a : A) (xs : List A) → Elem a xs → Elem (f a) (map f xs)
Elem-map f a [] m = m
Elem-map f a (x ∷ xs) (inl p) = inl (ap f p)
Elem-map f a (x ∷ xs) (inr m) = inr (Elem-map f a xs m)

Elem-distinct :
    (f : HwthreadEntry → ℤ) (d : HwthreadEntry) (ds : List HwthreadEntry)
    → Elem d ds
    → Elem (f d) (distinct (map f ds))
Elem-distinct f d ds m = ((distinct-IsStrict (map f ds)).1 (f d)).1 (Elem-map f d ds m)

Elem-threads_with :
    (f : HwthreadEntry → ℤ) (d : HwthreadEntry) (ds : List HwthreadEntry)
    → Elem d ds
    → Elem d.cpu_id (threads_with f ds (f d))
unfolding threads_with
Elem-threads_with f d [] m = m
Elem-threads_with f d (x ∷ ds) (inl p) =
    rw (ap f p, (eqb_ℤ_iff (f x) (f x)).1 refl) (inl (ap (λ e. e.cpu_id) p))
Elem-threads_with f d (x ∷ ds) (inr m) = elim (Bool-cases (eqb_ℤ (f x) (f d))) [
  | inl e ↦ rw e (inr (Elem-threads_with f d ds m))
  | inr e ↦ rw e (Elem-threads_with f d ds m)
]

-- the ID in a field of an entry is in the list of that field, and the hardware thread is in the
-- list for that ID
field-consistent :
    (f : HwthreadEntry → ℤ) (d : HwthreadEntry) (ds : List HwthreadEntry)
    → Elem d ds
    → Elem (f d) (distinct (map f ds)) × Elem d.cpu_id (threads_with f ds (f d))
field-consistent f d ds m = (Elem-distinct f d ds m, Elem-threads_with f d ds m)

-- the ID of an entry that `init` makes is one of the hardware threads
Elem-cpu_id :
    (sys : Sysfs) (d : HwthreadEntry) (cs : List ℤ)
    → Elem d (map (entry_of sys) cs)
    → Elem d.cpu_id cs
unfolding entry_of
Elem-cpu_id sys d [] m = m
Elem-cpu_id sys d (c ∷ cs) (inl p) = inl (ap (λ e. e.cpu_id) p)
Elem-cpu_id sys d (c ∷ cs) (inr m) = inr (Elem-cpu_id sys d cs m)

Elem-die_list : (t : Topology) (v : ℤ) → Elem v t.die_list → Elem v (die_list_or_sockets t)
unfolding die_list_or_sockets
Elem-die_list t v m = nonempty t.die_list m
  where
    nonempty :
        (ds : List ℤ) → Elem v ds → Elem v (elim ds [ [] ↦ t.socket_list | d ∷ ds' ↦ d ∷ ds' ])
    nonempty [] k = absurd k
    nonempty (d ∷ ds) k = k

ok_inj : {a b : ℤ} → ok a ≡ ok b → a ≡ b
ok_inj p = cc

ok_ne_err : {a : ℤ} {e : String} → ¬ (err e ≡ ok a)
ok_ne_err p = cc

-- Whatever sysfs holds: where an entry of the table has an ID for a topology type, the ID is in
-- the list of that type, and the hardware thread is in the list of the hardware threads of that ID.
pub get_type_id-consistent :
    (sys : Sysfs) (topology_type : String) (d : HwthreadEntry) (id : ℤ)
    → Elem d (init sys).cpu_data
    → get_type_id d topology_type ≡ ok id
    → Elem id (get_type_list (init sys) topology_type)
      × Elem d.cpu_id (get_type_hwthreads (init sys) topology_type id)
unfolding init get_type_id get_type_list get_type_hwthreads get_socket_hwthreads
    get_numa_domain_hwthreads get_die_hwthreads get_core_hwthreads
get_type_id-consistent sys ty d id m h =
    let entries = map (entry_of sys) (get_hw_threads sys) in
    let thread =
      ((distinct-IsStrict (get_hw_threads sys)).1 d.cpu_id).1
        (Elem-cpu_id sys d (get_hw_threads sys) m) in
    elim (Bool-cases (str_eq ty "node")) [
      | inl e ↦ rw e (inl (sym (ok_inj (rw (e) at h))), thread)
      | inr n0 ↦ elim (Bool-cases (str_eq ty "socket")) [
        | inl e ↦
            let p = ok_inj (rw (n0, e) at h) in
            rw (n0, e, ← p) (field-consistent (λ x. x.socket) d entries m)
        | inr n1 ↦ elim (Bool-cases (str_eq ty "die")) [
          | inl e ↦
              let p = ok_inj (rw (n0, n1, e) at h) in
              rw (n0, n1, e, ← p)
                (
                  Elem-die_list (init sys) d.die (Elem-distinct (λ x. x.die) d entries m),
                  Elem-threads_with (λ x. x.die) d entries m,
                )
          | inr n2 ↦ elim (Bool-cases (str_eq ty "memoryDomain")) [
            | inl e ↦
                let p = ok_inj (rw (n0, n1, n2, e) at h) in
                rw (n0, n1, n2, e, ← p) (field-consistent (λ x. x.numa_domain) d entries m)
            | inr n3 ↦ elim (Bool-cases (str_eq ty "core")) [
              | inl e ↦
                  let p = ok_inj (rw (n0, n1, n2, n3, e) at h) in
                  rw (n0, n1, n2, n3, e, ← p) (field-consistent (λ x. x.core) d entries m)
              | inr n4 ↦ elim (Bool-cases (str_eq ty "hwthread")) [
                | inl e ↦
                    let p = ok_inj (rw (n0, n1, n2, n3, n4, e) at h) in
                    rw (n0, n1, n2, n3, n4, e, ← p) (thread, inl refl)
                | inr n5 ↦ absurd (ok_ne_err (rw (n0, n1, n2, n3, n4, n5) at h))
              ]
            ]
          ]
        ]
      ]
    ]
