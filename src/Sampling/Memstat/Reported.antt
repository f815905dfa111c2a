-- ===== src/Sampling/Memstat/Reported.antt =====
-- Every metric that is not excluded is sent by a `Read` of collectors/memstatMetric.go.
use cc_metric_collector.Prelude.{
  ◌≡◌, refl, sym, ap, ◌∙◌, Bool, true, false, not, ◌&&◌, Bool-cases, inl, inr, Option, List, [],
  ◌∷◌, Elem, Elem-left, Elem-right, if◌then◌else◌, if_both,
}
use cc_metric_collector.Prelude.Int.{ℤ}
use cc_metric_collector.Prelude.Bytes.{Bytes, codes, member, Table}
use cc_metric_collector.Values.{Result, ok, err}
use cc_metric_collector.Sampling.{real, Calls}
use cc_metric_collector.Sampling.Memstat.{
  Config, Collector, Node, Stat, all_matches, kept_matches, no_matches, get_stats, is_empty,
  add_nodes, collector_of, init, meta, with_unit, stat_in, mem_used, send_matches, send_stats, read,
}

Elem-kept_matches :
    (excluded : List Bytes) (k name : Bytes) (matches : Table Bytes)
    → Elem (k, name) matches
    → member name excluded ≡ false
    → Elem (k, name) (kept_matches excluded matches)
unfolding kept_matches
Elem-kept_matches excluded k name [] h e = elim h [ ]
Elem-kept_matches excluded k name ((k', v) ∷ rest) (inl same) e =
    let kept : member v excluded ≡ false =
      ap (λ (p : Bytes × Bytes). member p.1 excluded) (sym same) ∙ e in
    rw kept (inl same)
Elem-kept_matches excluded k name ((k', v) ∷ rest) (inr h) e =
    elim (Bool-cases (member v excluded)) [
      | inl x ↦ rw x (Elem-kept_matches excluded k name rest h e)
      | inr x ↦ rw x (inr (Elem-kept_matches excluded k name rest h e))
    ]

module _ {F Time Msg : Type 0} (calls : Calls F Time Msg) (zero : F) (now : Time) where
  -- the messages of one metric
  abbrev pub metric_of : Table Bytes → Table (Stat F) → Bytes → Bytes → List Msg
  metric_of tags stats k name =
      with_unit calls zero now (stat_in calls zero now k stats).unit
        (calls.new_metric name tags meta (real (stat_in calls zero now k stats).value) now)

  Elem-send_matches :
      (tags : Table Bytes) (stats : Table (Stat F)) (k name : Bytes) (matches : Table Bytes)
      (msg : Msg)
      → Elem (k, name) matches
      → Elem msg (metric_of tags stats k name)
      → Elem msg (send_matches calls zero now tags stats matches)
  unfolding send_matches
  Elem-send_matches tags stats k name [] msg h e = elim h [ ]
  Elem-send_matches tags stats k name ((k', v) ∷ rest) msg (inl same) e =
      let moved : metric_of tags stats k name ≡ metric_of tags stats k' v =
        ap (λ (p : Bytes × Bytes). metric_of tags stats p.0 p.1) same in
      Elem-left msg (metric_of tags stats k' v) _ (rw (← moved) e)
  Elem-send_matches tags stats k name ((k', v) ∷ rest) msg (inr h) e =
      Elem-right msg _ _ (Elem-send_matches tags stats k name rest msg h e)

  -- The matches, the configuration and the flags of a collector that `Init` made.
  abbrev IsMade : Config → Result Collector → Type 0
  IsMade config (err e) = Unit {0}
  IsMade config (ok m) =
      (m.matches ≡ kept_matches config.exclude_metrics all_matches)
      × (m.config ≡ config)
      × (m.init ≡ true)

  collector_of-IsMade :
      (config : Config) (mem_used : Bool) (nodes : Result (List (ℤ × Node)))
      → IsMade config (
          collector_of calls zero config
            (kept_matches config.exclude_metrics all_matches)
            mem_used
            nodes)
  collector_of-IsMade config mem_used (err e) = tt
  collector_of-IsMade config mem_used (ok nodes) = (refl, refl, refl)

  init-IsMade :
      (config : Config) (files : Bytes → Option (List Bytes)) (paths : List Bytes)
      → IsMade config (init calls zero config files paths)
  unfolding init
  init-IsMade config files paths =
      let matches = kept_matches config.exclude_metrics all_matches in
      let mem_used = not (member (codes "mem_used") config.exclude_metrics) in
      let nodes = if config.numa_stats then add_nodes calls zero files paths [] else ok [] in
      elim (Bool-cases (no_matches matches && not mem_used)) [
        | inl e ↦ rw e tt
        | inr e ↦ rw e (
            if_both (IsMade config)
              (config.node_stats
                && is_empty calls zero (get_stats calls zero (files (codes "/proc/meminfo"))))
              (err "cannot read data from file")
              (collector_of calls zero config matches mem_used nodes) tt
              (collector_of-IsMade config mem_used nodes))
      ]

  -- If the statistics of the node are to be sent, a `Read` of a collector that `Init` made sends every
  -- metric that is not excluded, with what /proc/meminfo shows for it, and 0 where it shows nothing.
  pub read-reported :
      (config : Config) (files files' : Bytes → Option (List Bytes)) (paths : List Bytes)
      (m : Collector) (k name : Bytes) (msg : Msg)
      → init calls zero config files paths ≡ ok m
      → config.node_stats ≡ true
      → Elem (k, name) all_matches
      → member name config.exclude_metrics ≡ false
      → Elem msg (
          metric_of
            ((codes "type", codes "node") ∷ [])
            (get_stats calls zero (files' (codes "/proc/meminfo")))
            k
            name)
      → Elem msg (read calls zero now files' m)
  unfolding read send_stats
  read-reported config files files' paths m k name msg made stats h e x =
      let (matches, same, ready) : IsMade config (ok m) =
        rw made at (init-IsMade config files paths) in
      let node : m.config.node_stats ≡ true = ap (λ c. c.node_stats) same ∙ stats in
      let sent : Elem msg (
          send_matches calls zero now ((codes "type", codes "node") ∷ [])
            (get_stats calls zero (files' (codes "/proc/meminfo"))) m.matches) =
        rw matches (
          Elem-send_matches _ _ k name _ msg
            (Elem-kept_matches config.exclude_metrics k name all_matches h e) x) in
      simp (ready, node) (Elem-left msg _ _ (Elem-left msg _ _ sent))
