-- ===== src/Sampling/SlurmCgroup/Cpus.antt =====
-- `ParseCPUs` and `GetAllCPUs` of collectors/slurmCgroupMetric.go on the kernel's format of a CPU list.
use cc_metric_collector.Prelude.{List}
use cc_metric_collector.Prelude.Bytes.{Bytes}
