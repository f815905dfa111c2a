-- ===== src/Sampling/Schedstat/Hotplug.antt =====
-- `Read` of collectors/schedstatMetric.go on a hardware thread that was not there at `Init`.
use cc_metric_collector.Prelude.{
  ◌≡◌, ◌≢◌, refl, ap, ◌∙◌, Bool, true, false, not, ◌&&◌, if_both, Option-cases, inl, inr, none,
  some, List, [], ◌∷◌, ◌++◌, All, get_elem?, arith, if◌then◌else◌,
}
use cc_metric_collector.Prelude.Bytes.{
  Bytes, codes, equal, equal_iff, fields, has_prefix, Table, find, put, find-put,
}
use cc_metric_collector.Prelude.Run.{
  done, panic, at, of_option, Partly, Partly-bind, Partly-any, Partly-value, bind-panic,
  bind-panic_at, at-value,
}
use cc_metric_collector.Values.{Result, ok, err}
use cc_metric_collector.Sampling.{Calls}
use cc_metric_collector.Sampling.Schedstat.{
  Times, Maps, Collector, times_of, init_line, init_lines, init, parse_proc_line, read_line,
  read_lines, read,
}

module _ (key : Bytes) where
  -- The first field of a line is the key.
  abbrev pub Names : Bytes → Type 0
  Names line = get_elem? (fields line) 0 ≡ some key

  put-missing :
      {V : Type 0} (name : Bytes) (value : V) (table : Table V)
      → name ≢ key
      → find key table ≡ none
      → find key (put name value table) ≡ none
  put-missing name value table d h =
      ground (arith, find-put name key value table, equal_iff name key, d, h)

  module _ {F Time Msg : Type 0} (calls : Calls F Time Msg) (now : Time) (seconds : F) where
    abbrev Missing : List Msg × Table Times → Type 0
    Missing r = find key r.1 ≡ none

    parse_proc_line-Missing :
        (linefields : List Bytes) (tags : Table Bytes) (olddata : Table Times)
        → find key olddata ≡ none
        → Partly Missing (parse_proc_line calls linefields tags now seconds olddata)
    unfolding parse_proc_line
    parse_proc_line-Missing linefields tags olddata h =
        Partly-bind (λ t. Unit {0}) Missing _ _ (Partly-any (times_of linefields))
          (λ times _.
            Partly-bind (λ n. Unit {0}) Missing _ _ (Partly-any (at linefields 0))
              (λ name _. elim (Option-cases (find name olddata)) [
                | inl n ↦ rw n tt
                | inr (old, n) ↦
                    let other : name ≢ key = λ e. cc in
                    rw n (put-missing name times olddata other h)
              ]))

    module _ (cputags : Table (Table Bytes)) where
      read_line-Missing :
          (line : Bytes) (olddata : Table Times)
          → find key olddata ≡ none
          → Partly Missing (read_line calls cputags now seconds line olddata)
      unfolding read_line
      read_line-Missing line olddata h =
          Partly-bind (λ n. Unit {0}) Missing _ _ (Partly-any (at (fields line) 0))
            (λ name _.
              if_both (Partly Missing) (has_prefix (codes "cpu") name) _ _
                (parse_proc_line-Missing (fields line) _ olddata h) h)

      parse_proc_line-panics :
          (linefields : List Bytes) (tags : Table Bytes) (olddata : Table Times)
          → get_elem? linefields 0 ≡ some key
          → find key olddata ≡ none
          → parse_proc_line calls linefields tags now seconds olddata ≡ panic
      unfolding parse_proc_line
      parse_proc_line-panics linefields tags olddata n h =
          bind-panic (λ t. Unit {0}) (times_of linefields) _ (Partly-any (times_of linefields))
            (λ times _. bind-panic_at (at linefields 0) key _ (ap of_option n) (rw h refl))

      read_line-panics :
          (line : Bytes) (olddata : Table Times)
          → Names line
          → has_prefix (codes "cpu") key ≡ true
          → find key olddata ≡ none
          → read_line calls cputags now seconds line olddata ≡ panic
      unfolding read_line
      read_line-panics line olddata n p h =
          rw n (rw p (parse_proc_line-panics (fields line) _ olddata n h))

      read_lines-panics :
          (before after : List Bytes) (line : Bytes) (olddata : Table Times)
          → Names line
          → has_prefix (codes "cpu") key ≡ true
          → find key olddata ≡ none
          → read_lines calls cputags now seconds (before ++ line ∷ after) olddata ≡ panic
      unfolding read_lines
      read_lines-panics [] after line olddata n p h = rw (read_line-panics line olddata n p h) refl
      read_lines-panics (b ∷ before) after line olddata n p h =
          bind-panic Missing (read_line calls cputags now seconds b olddata) _
            (read_line-Missing b olddata h)
            (λ r k. rw (read_lines-panics before after line r.1 n p k) refl)

  abbrev MissingAt : Maps → Type 0
  MissingAt maps = find key maps.1 ≡ none

  init_line-Missing :
      (line : Bytes) (maps : Maps)
      → ¬ Names line
      → MissingAt maps
      → Partly MissingAt (init_line line maps)
  unfolding init_line
  init_line-Missing line maps d h =
      Partly-bind (λ n. get_elem? (fields line) 0 ≡ some n) MissingAt _ _ (at-value (fields line) 0)
        (λ name n.
          let other : name ≢ key = λ e. d (n ∙ ap some e) in
          if_both (Partly MissingAt)
            (has_prefix (codes "cpu") name && not (equal name (codes "cpu"))) _ _
            (Partly-bind (λ t. Unit {0}) MissingAt _ _ (Partly-any (times_of (fields line)))
              (λ times _. put-missing name times maps.1 other h))
            h)

  init_lines-Missing :
      (lines : List Bytes) (maps : Maps)
      → All (λ l. ¬ Names l) lines
      → MissingAt maps
      → Partly MissingAt (init_lines lines maps)
  unfolding init_lines
  init_lines-Missing [] maps d h = h
  init_lines-Missing (line ∷ lines) maps d h =
      Partly-bind MissingAt MissingAt _ _ (init_line-Missing line maps d.0 h)
        (λ a k. init_lines-Missing lines a d.1 k)

  -- A collector that `Init` made is initialized and has no times for the key.
  abbrev Lacks : {Time : Type 0} → Result (Collector Time) → Type 0
  Lacks (ok m) = (m.init ≡ true) × (find key m.olddata ≡ none)
  Lacks (err e) = Unit {0}

  init-Lacks :
      {Time : Type 0} (start : Time) (first : List Bytes)
      → All (λ l. ¬ Names l) first
      → Partly Lacks (init start (some first))
  unfolding init
  init-Lacks start first d =
      Partly-bind MissingAt Lacks (init_lines first ([], [])) _
        (init_lines-Missing first ([], []) d (unfold find in refl)) (λ maps k. (refl, k))

if_ready : {A : Type 0} (b : Bool) (x y z : A) → b ≡ true → y ≡ z → (if not b then x else y) ≡ z
if_ready true x y z h e = e
if_ready false x y z h e = cc

-- A hardware thread that is in the file at a `Read` and was not there at `Init` ends the program:
-- `Init` made no map for it, and `Read` panics whatever the other lines are.
pub read-hotplug :
    {F Time Msg : Type 0} (calls : Calls F Time Msg) (start now : Time)
    (first before after : List Bytes) (line key : Bytes) (m : Collector Time)
    → init start (some first) ≡ done (ok m)
    → All (λ l. ¬ Names key l) first
    → Names key line
    → has_prefix (codes "cpu") key ≡ true
    → read calls now (some (before ++ line ∷ after)) m ≡ panic
unfolding read
read-hotplug calls start now first before after line key m i d n p =
    let (ready, missing) =
      Partly-value (Lacks key) (init start (some first)) (init-Lacks key start first d) i in
    if_ready m.init _ _ panic ready (
      rw
        (read_lines-panics key calls now (calls.seconds now m.last_timestamp) m.cputags before after
          line m.olddata n p missing)
        refl)
