-- ===== src/Sampling/Loadavg/Shown.antt =====
-- What a `Read` of collectors/loadavgMetric.go sends for a file in the format of the kernel.
use cc_metric_collector.Prelude.{
  ℕ, ◌≡◌, refl, Bool, Option, Option-cases, inl, inr, none, some, List, [], ◌∷◌, ◌++◌, All, ap, ◌∙◌,
}
use cc_metric_collector.Prelude.Bytes.{Bytes, codes, member}
use cc_metric_collector.Prelude.Run.{done, at}
use cc_metric_collector.Topology.Parse.{split}
use cc_metric_collector.Topology.Parse.Ranges.{IsNot, split_plain, split_at}
use cc_metric_collector.Sampling.{Value, Calls}
use cc_metric_collector.Sampling.Loadavg.{
  Config, load_names, proc_names, skips_of, init, float_of, number_of, unless_skipped, send_name,
  send_names, read_buffer, read,
}

-- a file with its five values, and what is behind them
pub record File : Type 0 where
  pub one : Bytes
  pub five : Bytes
  pub fifteen : Bytes
  pub running : Bytes
  pub total : Bytes
  pub rest : Bytes

-- The values have no separators in them.
abbrev pub IsSeparated : File → Type 0
IsSeparated f =
    All (IsNot b' ') f.one
    × All (IsNot b' ') f.five
    × All (IsNot b' ') f.fifteen
    × All (IsNot b' ') (f.running ++ b'/' ∷ f.total)
    × All (IsNot b'/') f.running
    × All (IsNot b'/') f.total

unfoldable pub show_file : File → Bytes
show_file f =
    let fourth = (f.running ++ b'/' ∷ f.total) ++ b' ' ∷ f.rest in
    let third = f.fifteen ++ b' ' ∷ fourth in
    let second = f.five ++ b' ' ∷ third in f.one ++ b' ' ∷ second

split-show_file :
    (f : File)
    → IsSeparated f
    → split b' ' (show_file f)
      ≡ f.one ∷ f.five ∷ f.fifteen ∷ (f.running ++ b'/' ∷ f.total) ∷ split b' ' f.rest
unfolding show_file
split-show_file f (one, five, fifteen, processes, _, _) =
    let fourth = split_at b' ' (f.running ++ b'/' ∷ f.total) f.rest processes in
    let third = split_at b' ' f.fifteen _ fifteen ∙ ap (λ ws. f.fifteen ∷ ws) fourth in
    let second = split_at b' ' f.five _ five ∙ ap (λ ws. f.five ∷ ws) third in
    split_at b' ' f.one _ one ∙ ap (λ ws. f.one ∷ ws) second

module _ {F Time Msg : Type 0} (calls : Calls F Time Msg) (now : Time) (config : Config) where
  -- the message of a value that is a number and whose name is not excluded
  unfoldable pub shown : (Bytes → Option (Value F)) → Bytes → Bytes → List Msg
  shown convert name field = elim (convert field) [
    | none ↦ []
    | some x ↦ unless_skipped calls now (member name config.exclude_metrics) name x
  ]

  send_name-shown :
      (convert : Bytes → Option (Value F)) (skips : List Bool) (fields : List Bytes) (i : ℕ)
      (name field : Bytes)
      → at fields i ≡ done field
      → at skips i ≡ done (member name config.exclude_metrics)
      → send_name calls now convert skips fields i name ≡ done (shown convert name field)
  unfolding send_name shown
  send_name-shown convert skips fields i name field h k =
      rw h (elim (Option-cases (convert field)) [
        | inl e ↦ rw (e, shown) refl
        | inr (x, e) ↦ rw (e, k, shown) refl
      ])

  -- the messages of the three loads
  abbrev pub loads : File → List Msg
  loads f =
      shown (float_of calls now) (codes "load_one") f.one
      ++ (shown (float_of calls now) (codes "load_five") f.five
          ++ (shown (float_of calls now) (codes "load_fifteen") f.fifteen ++ []))

  -- those of the running and of all processes
  abbrev pub processes : File → List Msg
  processes f =
      shown (number_of calls now) (codes "proc_run") f.running
      ++ (shown (number_of calls now) (codes "proc_total") f.total ++ [])

  send_names-loads :
      (f : File) (others : List Bytes)
      → send_names calls now
          (float_of calls now)
          (skips_of config load_names)
          (f.one ∷ f.five ∷ f.fifteen ∷ others)
          0
          load_names
        ≡ done (loads f)
  unfolding send_names skips_of
  send_names-loads f others =
      let fields = f.one ∷ f.five ∷ f.fifteen ∷ others in
      let skips = skips_of config load_names in
      rw
        (
          send_name-shown (float_of calls now) skips fields 0 (codes "load_one") f.one refl refl,
          send_name-shown (float_of calls now) skips fields 1 (codes "load_five") f.five refl refl,
          send_name-shown (float_of calls now) skips fields 2 (codes "load_fifteen") f.fifteen refl
              refl,
        )
        refl

  send_names-processes :
      (f : File)
      → send_names calls now
          (number_of calls now)
          (skips_of config proc_names)
          (f.running ∷ f.total ∷ [])
          0
          proc_names
        ≡ done (processes f)
  unfolding send_names skips_of
  send_names-processes f =
      let fields = f.running ∷ f.total ∷ [] in
      let skips = skips_of config proc_names in
      rw
        (
          send_name-shown (number_of calls now) skips fields 0 (codes "proc_run") f.running refl
              refl,
          send_name-shown (number_of calls now) skips fields 1 (codes "proc_total") f.total refl
              refl,
        )
        refl

  -- For a file in the format of the kernel, a `Read` of a collector that `Init` made does not panic,
  -- and sends of the three loads and the two numbers of processes those that parse and are not
  -- excluded.
  pub read-shown :
      (f : File)
      → IsSeparated f
      → read calls now (some (show_file f)) (init config) ≡ done (loads f ++ processes f)
  unfolding read init read_buffer
  read-shown f s =
      let (_, _, _, _, running, total) = s in
      rw
        (
          split-show_file f s,
          send_names-loads f (_ ∷ _),
          split_at b'/' f.running f.total running,
          split_plain b'/' f.total total,
          send_names-processes f,
        )
        refl
