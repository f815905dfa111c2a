-- ===== src/Sampling/Nfsiostat/Mounts.antt =====
-- The values that a `Read` of collectors/nfsiostatMetric.go keeps: those of the file that it read.
use cc_metric_collector.Prelude.{◌≡◌, Option, none, some}
use cc_metric_collector.Prelude.Int.{ℤ}
use cc_metric_collector.Prelude.Bytes.{Bytes, Table, find}

-- A mount point is kept with the values, whatever other ones it has.
abbrev pub IsKept : Bytes → Table ℤ → Table (Table ℤ) → Type 0
IsKept mntpoint values stored =
    (kept : Table ℤ) × (find mntpoint stored ≡ some kept)
    × ((name : Bytes) (v : ℤ) → find name values ≡ some v → find name kept ≡ some v)

-- What is kept of a mount point, by what the file shows for it.
abbrev pub IsCurrent : Bytes → Option (Table ℤ) → Table (Table ℤ) → Type 0
IsCurrent mntpoint none stored = find mntpoint stored ≡ none
IsCurrent mntpoint (some values) stored = IsKept mntpoint values stored
