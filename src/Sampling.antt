-- ===== src/Sampling.antt =====
-- What the collectors of collectors/ that read files share. Floats, times and the messages of cc-lib
-- are parameters. A file is its lines or its bytes, and `none` where it cannot be read.
pub mod Cpustat
pub mod Diskstat
pub mod Infiniband
pub mod Iostat
pub mod Loadavg
pub mod Lustre
pub mod Memstat
pub mod Netstat
pub mod Nfs
pub mod Nfsiostat
pub mod Numastats
pub mod Schedstat
pub mod SlurmCgroup
pub mod Temp
use cc_metric_collector.Prelude.{Bool, false, Option, none, some, List, [], ◌∷◌}
use cc_metric_collector.Prelude.Int.{ℤ}
use cc_metric_collector.Prelude.ParseInt.{parse_int, value_anyway}
use cc_metric_collector.Prelude.Bytes.{Bytes, Table}

-- the value of a metric
pub data Value (F : Type 0) : Type 0 where
  real : F → Value F
  whole : ℤ → Value F

-- What the collectors use of float64, of the clock and of `NewMetric`, whose arguments are the name,
-- the tags, the meta data, the value and the time, and of a message.
pub record Calls (F Time Msg : Type 0) : Type 0 where
  pub of_int : ℤ → F
  pub add : F → F → F
  pub times : F → F → F
  pub divide : F → F → F
  pub subtract : F → F → F
  pub positive : F → Bool
  pub negative : F → Bool
  pub parse_float : Bytes → Option F
  pub seconds : Time → Time → F
  pub new_metric : Bytes → Table Bytes → Table Bytes → Value F → Time → Option Msg
  pub add_tag : Bytes → Bytes → Msg → Msg
  pub add_meta : Bytes → Bytes → Msg → Msg

-- the message of a call that made one
abbrev pub sent : {Msg : Type 0} → Option Msg → List Msg
sent none = []
sent (some m) = m ∷ []

-- The value that strconv.ParseInt and strconv.Atoi give in base 10 and 64 bits, when their error is
-- not looked at.
unfoldable pub int_or_nearest : Bytes → ℤ
int_or_nearest s = value_anyway (parse_int false s)
