-- ===== src/Sampling/Nfs/Counters.antt =====
-- The counters of collectors/nfsMetric.go behind an update, and the differences that a `Read` sends.
use mathlib.Core.Option.{some-injective}
use cc_metric_collector.Prelude.{
  ℕ, ◌≡◌, ◌≢◌, refl, ap, sym, ◌∙◌, true, false, Bool-cases, Option-cases, inl, inr, Option, none,
  some, List, [], ◌∷◌, ◌++◌, Elem, Elem-left, Elem-right, arith, if◌then◌else◌,
}
use cc_metric_collector.Prelude.Int.{ℤ, pos, negsuc, ◌-ℤ◌, wrap, half64}
use cc_metric_collector.Prelude.Bytes.{
  Bytes, codes, equal, equal_iff, fields, member, Table, find, find-put,
}
use cc_metric_collector.Topology.Parse.{split}
use cc_metric_collector.Sampling.{whole, Calls}
use cc_metric_collector.Sampling.Nfs.{
  Counter, Collector, System, shifted, counter_of, set_current, update_lines, update_stats, tags,
  meta, prefix_of, not_negative, counter_messages, messages, read,
}

abbrev or_else : Option ℤ → Option ℤ → Option ℤ
or_else none v = v
or_else (some w) v = some w

-- the last number of a name in the lines, `none` where no line shows it
unfoldable pub shown : Bytes → Bytes → List Bytes → Option ℤ
shown version key [] = none
shown version key (line ∷ lines) = elim (counter_of version (fields line)) [
  | none ↦ shown version key lines
  | some (name, value) ↦ or_else (shown version key lines) (if equal name key then value else none)
]

-- Each line of the version has a number.
abbrev pub AllNumbers : Bytes → List Bytes → Type 0
AllNumbers version [] = Unit {0}
AllNumbers version (line ∷ lines) =
    ((name : Bytes) → counter_of version (fields line) ≢ some (name, none))
    × AllNumbers version lines

-- a counter with a new value, or without one
abbrev pub moved : Option ℤ → Option Counter → Option Counter
moved none c = c
moved (some v) none = some (record { current = v; last = negsuc 0 })
moved (some v) (some c) = some (record c { current = v })

abbrev shifted_one : Option Counter → Option Counter
shifted_one none = none
shifted_one (some c) = some (record { current = negsuc 0; last = c.current })

find-shifted :
    (key : Bytes) (counters : Table Counter)
    → find key (shifted counters) ≡ shifted_one (find key counters)
unfolding find shifted
find-shifted key [] = refl
find-shifted key ((name, c) ∷ rest) = elim (Bool-cases (equal name key)) [
  | inl e ↦ rw e refl
  | inr e ↦ rw e (find-shifted key rest)
]

find-set_current :
    (name key : Bytes) (value : ℤ) (counters : Table Counter)
    → find key (set_current name value counters)
      ≡ (if equal name key then moved (some value) (find key counters) else find key counters)
unfolding set_current
find-set_current name key value counters = elim (Option-cases (find name counters)) [
  | inl e ↦ rw (e, set_current) (rw (find-put name key _ counters) (there e refl))
  | inr (c, e) ↦ rw (e, set_current) (rw (find-put name key _ counters) (there e refl))
]
  where
    there :
        {o : Option Counter} {c : Counter}
        → find name counters ≡ o
        → moved (some value) o ≡ some c
        → (if equal name key then some c else find key counters)
          ≡ (if equal name key then moved (some value) (find key counters) else find key counters)
    there e m = elim (Bool-cases (equal name key)) [
      | inl t ↦
          let same = ap (λ k. find k counters) (sym ((equal_iff name key).0 t)) ∙ e in
          rw (t, same) (sym m)
      | inr t ↦ rw t refl
    ]

moved-moved :
    (later x : Option ℤ) (c : Option Counter) → moved later (moved x c) ≡ moved (or_else later x) c
moved-moved none x c = refl
moved-moved (some v) none c = refl
moved-moved (some v) (some w) none = refl
moved-moved (some v) (some w) (some c) = refl

set_first :
    (name key : Bytes) (value : ℤ) (counters : Table Counter) (later : Option ℤ)
    → moved later (find key (set_current name value counters))
      ≡ moved (or_else later (if equal name key then some value else none)) (find key counters)
set_first name key value counters later =
    rw (find-set_current name key value counters) (elim (Bool-cases (equal name key)) [
      | inl t ↦ rw t (moved-moved later (some value) (find key counters))
      | inr t ↦ rw t (moved-moved later none (find key counters))
    ])

-- Behind the lines, each counter has its last number.
update_lines-find :
    (version : Bytes) (lines : List Bytes) (counters : Table Counter)
    → AllNumbers version lines
    → ((update_lines version lines counters).0 ≡ true)
      × ((key : Bytes)
          → find key (update_lines version lines counters).1
            ≡ moved (shown version key lines) (find key counters))
unfolding update_lines shown
update_lines-find version [] counters n = (refl, λ key. refl)
update_lines-find version (line ∷ lines) counters (n, ns) =
    elim (Option-cases (counter_of version (fields line))) [
      | inl e ↦ rw (e, update_lines, shown) (update_lines-find version lines counters ns)
      | inr ((name, none), e) ↦ absurd (n name e)
      | inr ((name, some value), e) ↦
          let (succeeds, found) =
            update_lines-find version lines (set_current name value counters) ns in
          rw (e, update_lines, shown)
            (
              succeeds,
              λ key. found key ∙ set_first name key value counters (shown version key lines),
            )
    ]

-- the lines of a buffer
abbrev pub lines_of : Bytes → List Bytes
lines_of buffer = split b'\n' buffer

update_stats-find :
    (sys : System) (m : Collector) (buffer key : Bytes)
    → sys.nfsstat_output m.config.nfsstats ≡ some buffer
    → AllNumbers m.version (lines_of buffer)
    → ((update_stats sys m).0 ≡ true)
      × (find key (update_stats sys m).1
          ≡ moved (shown m.version key (lines_of buffer)) (shifted_one (find key m.counters)))
unfolding update_stats
update_stats-find sys m buffer key o n =
    let (succeeds, found) = update_lines-find m.version (lines_of buffer) (shifted m.counters) n in
    rw (o, update_stats) (succeeds, found key ∙ ap (moved _) (find-shifted key m.counters))

not_negative_pos : (n : ℕ) → not_negative (pos n) ≡ true
not_negative_pos n = ground arith

module _ {F Time Msg : Type 0} (calls : Calls F Time Msg) (now : Time) where
  counter_messages-in :
      (m : Collector) (name : Bytes) (counters : Table Counter) (c : Counter) (msg : Msg)
      → find name counters ≡ some c
      → Elem msg (counter_messages calls now m name c)
      → Elem msg (messages calls now m counters)
  unfolding messages find
  counter_messages-in m name [] c msg f h = cc
  counter_messages-in m name ((other, d) ∷ rest) c msg f h = elim (Bool-cases (equal other name)) [
    | inl e ↦
        let here : d ≡ c = some-injective _ _ (rw e at f) in
        let called : other ≡ name = (equal_iff other name).0 e in
        Elem-left msg (counter_messages calls now m other d) _ (rw (called, here) h)
    | inr e ↦ Elem-right msg _ _ (counter_messages-in m name rest c msg (rw e at f) h)
  ]

  counter_messages-shown :
      (m : Collector) (name : Bytes) (u v : ℕ) (y : Msg)
      → member name m.config.exclude_metrics ≡ false
      → calls.new_metric
          (prefix_of m.version ++ codes "_" ++ name)
          tags
          (meta m.name)
          (whole (wrap half64 (pos v -ℤ pos u)))
          now
        ≡ some y
      → counter_messages calls now m name (record { current = pos v; last = pos u })
        ≡ calls.add_meta (codes "version") m.version y ∷ []
  unfolding counter_messages
  counter_messages-shown m name u v y x made =
      rw (x, not_negative_pos v, not_negative_pos u, made) refl

  read-messages :
      (sys : System) (m : Collector)
      → m.init ≡ true
      → (update_stats sys m).0 ≡ true
      → (read calls now sys m).0 ≡ messages calls now m (update_stats sys m).1
  unfolding read
  read-messages sys m i e = simp (i, e)

  -- If a counter was shown as `u` by the last update, and nfsstat shows it as `v` now, with a number in
  -- each line of the version, a `Read` sends the difference of the two for it, unless it is excluded
  -- or no metric can be made.
  pub read-difference :
      (sys : System) (m : Collector) (buffer name : Bytes) (c : Counter) (u v : ℕ) (y : Msg)
      → m.init ≡ true
      → sys.nfsstat_output m.config.nfsstats ≡ some buffer
      → AllNumbers m.version (lines_of buffer)
      → find name m.counters ≡ some c
      → c.current ≡ pos u
      → shown m.version name (lines_of buffer) ≡ some (pos v)
      → member name m.config.exclude_metrics ≡ false
      → calls.new_metric
          (prefix_of m.version ++ codes "_" ++ name)
          tags
          (meta m.name)
          (whole (wrap half64 (pos v -ℤ pos u)))
          now
        ≡ some y
      → Elem (calls.add_meta (codes "version") m.version y) (read calls now sys m).0
  read-difference sys m buffer name c u v y i o n f current s x made =
      let (succeeds, found) = update_stats-find sys m buffer name o n in
      let entry : find name (update_stats sys m).1
          ≡ some (record { current = pos v; last = pos u }) =
        found ∙ rw (s, f, current) refl in
      rw (read-messages sys m i succeeds) (
        counter_messages-in m name (update_stats sys m).1 _ _ entry
          (rw (counter_messages-shown m name u v y x made) (inl refl)))
