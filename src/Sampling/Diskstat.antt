-- ===== src/Sampling/Diskstat.antt =====
-- collectors/diskstatMetric.go: the sizes of the mounted file systems and how full the fullest is. The
-- lines of the file of the mounts and the system call statfs are parameters. The JSON decoder is left
-- out, and the clock is read once for all messages.
pub mod Usage
use cc_metric_collector.Prelude.{
  ℕ, ◌+◌, ◌-◌, ◌*◌, ◌/◌, ◌%◌, ◌^◌, Bool, true, false, not, ◌&&◌, ◌||◌, Option, none, some, List, [],
  ◌∷◌, ◌++◌, ltb, ◌==◌, if◌then◌else◌,
}
use cc_metric_collector.Prelude.Int.{ℤ, pos, pattern_of, wrap, half64}
use cc_metric_collector.Prelude.Bytes.{
  Bytes, codes, equal, fields, contains, has_prefix, member, Table, find, put,
}
use cc_metric_collector.Prelude.Run.{Run, done, at, ◌>>=◌}
use cc_metric_collector.Values.{Result, ok, err}
use cc_metric_collector.Sampling.{Value, whole, Calls}

pub record Config : Type 0 where
  pub exclude_metrics : List Bytes
  pub exclude_mounts : List Bytes

pub record Collector : Type 0 where
  pub config : Config
  pub allowed_metrics : Table Bool
  pub init : Bool

-- The parts of `syscall.Statfs_t` that are used: two uint64 and an int64.
pub record Statfs : Type 0 where
  pub blocks : ℕ
  pub bfree : ℕ
  pub bsize : ℤ

-- the loop over the excluded metrics
unfoldable pub exclude : List Bytes → Table Bool → Table Bool
exclude [] allowed = allowed
exclude (excl ∷ excls) allowed = elim (find excl allowed) [
  | none ↦ exclude excls allowed
  | some _ ↦ exclude excls (put excl false allowed)
]

-- `Init`, with whether the file of the mounts can be opened
unfoldable pub init : Config → Bool → Result Collector
init config can_open =
    if can_open
    then ok record {
      config = config;
      allowed_metrics = exclude config.exclude_metrics (
          (codes "disk_total", true)
          ∷ (codes "disk_free", true)
          ∷ (codes "part_max_used", true)
          ∷ []);
      init = true;
    }
    else err "file open failed"

-- strings.ReplaceAll(s, `\040`, " ")
unfoldable pub replace_spaces : Bytes → Bytes
replace_spaces (a ∷ b ∷ c ∷ d ∷ s) =
    let replaced = replace_spaces s in
    let kept = a ∷ replace_spaces (b ∷ c ∷ d ∷ s) in
    if equal (a ∷ b ∷ c ∷ d ∷ []) (codes "\\040") then b' ' ∷ replaced else kept
replace_spaces s = s

-- the loop over the excluded mounts
unfoldable pub is_excluded : List Bytes → Bytes → Bool
is_excluded [] path = false
is_excluded (excl ∷ excls) path = if contains excl path then true else is_excluded excls path

-- the arithmetic of uint64
abbrev pub word : ℕ
word = 2 ^ 64

-- n blocks in units of 10 ^ 9 bytes
unfoldable pub gigabytes : ℕ → ℤ → ℕ
gigabytes n bsize = (n * pattern_of half64 bsize) % word / 1000000000

unfoldable pub percentage : ℕ → ℕ → ℕ
percentage total free = (100 * ((total + word - free) % word)) % word / total

-- the percentage of a file system, if it is to be compared
unfoldable pub used_of : Statfs → Option ℕ
used_of stat =
    let total = gigabytes stat.blocks stat.bsize in
    if total == 0 then none else some (percentage total (gigabytes stat.bfree stat.bsize))

abbrev pub higher : Option ℕ → ℕ → ℕ
higher none most = most
higher (some perc) most = if ltb most perc then perc else most

-- the mount of a line: its device and path, or `none` if the line is passed over
unfoldable pub mount_of : Config → Bytes → Run (Option (Bytes × Bytes))
mount_of config line = if not (has_prefix (codes "/dev") line) then done none else do
  device ← at (fields line) 0
  if contains (codes "loop") device then done none else (do
    path ← at (fields line) 1
    let mount_path = replace_spaces path
    if contains (codes "boot") path || is_excluded config.exclude_mounts mount_path
        then done none
        else done (some (device, mount_path)))

-- the file system of a mount, if it has a size
unfoldable pub stat_of : (Bytes → Option Statfs) → Bytes → Option Statfs
stat_of statfs path = elim (statfs path) [
  | none ↦ none
  | some stat ↦ if stat.blocks == 0 || (pattern_of half64 stat.bsize) == 0 then none else some stat
]

abbrev pub meta : Table Bytes
meta = (codes "source", codes "DiskstatCollector") ∷ (codes "group", codes "Disk") ∷ []

abbrev pub is_allowed : Collector → Bytes → Bool
is_allowed m name = elim (find name m.allowed_metrics) [ none ↦ false | some allowed ↦ allowed ]

module _ {F Time Msg : Type 0} (calls : Calls F Time Msg) (statfs : Bytes → Option Statfs)
    (m : Collector) (now : Time) where
  abbrev in_unit : Bytes → Option Msg → List Msg
  in_unit unit none = []
  in_unit unit (some y) = calls.add_meta (codes "unit") unit y ∷ []

  abbrev metric : Bytes → Table Bytes → Bytes → ℤ → List Msg
  metric name tags unit value =
      if is_allowed m name
      then in_unit unit (calls.new_metric name tags meta (whole value) now)
      else []

  -- the two sizes of a file system
  unfoldable pub sizes : Bytes → Statfs → List Msg
  sizes device stat =
      let tags = (codes "type", codes "node") ∷ (codes "device", device) ∷ [] in
      metric (codes "disk_total") tags (codes "GBytes") (pos (gigabytes stat.blocks stat.bsize))
      ++ metric (codes "disk_free") tags (codes "GBytes") (pos (gigabytes stat.bfree stat.bsize))

  -- the messages of a mount, and the highest percentage so far
  unfoldable pub read_mount : Option (Bytes × Bytes) → ℕ → List Msg × ℕ
  read_mount none most = ([], most)
  read_mount (some (device, path)) most = elim (stat_of statfs path) [
    | none ↦ ([], most)
    | some stat ↦ (sizes device stat, higher (used_of stat) most)
  ]

  -- the loop body of `Read`
  unfoldable pub read_line : Bytes → ℕ → Run (List Msg × ℕ)
  read_line line most = do mount ← mount_of m.config line; done (read_mount mount most)

  unfoldable pub read_lines : List Bytes → ℕ → Run (List Msg × ℕ)
  read_lines [] most = done ([], most)
  read_lines (line ∷ lines) most = do
    (msgs, most') ← read_line line most
    (rest, last) ← read_lines lines most'
    done (msgs ++ rest, last)

  -- `Read`, with the lines of the file
  unfoldable pub read : Option (List Bytes) → Run (List Msg)
  read file = if not m.init then done [] else elim file [
    | none ↦ done []
    | some lines ↦ do
      (msgs, most) ← read_lines lines 0
      done (
          msgs
          ++ metric (codes "part_max_used") ((codes "type", codes "node") ∷ []) (codes "percent")
              (wrap half64 (pos most)))
  ]

-- `Close`
unfoldable pub close : Collector → Collector
close m = record m { init = false }
