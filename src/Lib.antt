-- ===== src/Lib.antt =====
-- cc-metric-collector: the core of the metric collector of a node.
--
-- The program makes a ticker, a router, the sinks, the collectors and the receivers, and connects
-- them by channels. At each tick the manager reads the collectors, whose messages go to the
-- router. The router passes them through the message processor to its outputs, and keeps them in
-- the cache, if one is configured. A tick ends an interval of the cache, whose messages go to the
-- aggregator; what it computes goes back to the router.
--
-- The files and the code that they model:
--   Program: cc-metric-collector.go, `mainFunc` (`main_func`) and `shutdownHandler`.
--   Ticker: pkg/multiChanTicker/multiChanTicker.go, the goroutine of `Init` as the relation `Steps`
--     on its states; `Delivery` relates it to a machine that sends to all channels at once.
--   Collectors: collectors/collectorManager.go and metricCollector.go, `Init` (`init`), a tick of
--     `Start` (`round`), the function `done` of it (`finish`), and whole runs (`run`).
--   Router: internal/metricRouter/metricRouter.go, the configuration and `Init`; `Loop` has the
--     three ways of forwarding, the bursts and the turns of `Start`; `Tags` has `DoAddTags`.
--   Cache: internal/metricRouter/metricCache.go, `Init`, `rotate`, `Add`, `GetPeriod` and the loop
--     of `Start` over messages and ticks (`run`); `Service` adds the engine and `Close`; `Slices` has
--     what the slice of a batch shows once the lock is given back, when `Eval` reads it.
--   Aggregator: internal/metricAggregator/metricAggregator.go, `AddAggregation` (`upsert` is its
--     loop), `DeleteAggregation` and the two conditions; `Evaluation` has `Eval`, with its loop over
--     the messages (`collect`) and over the aggregations (`eval_functions`); `Constants` has `Init`.
--   Functions, Builtins: internal/metricAggregator/metricAggregatorFunctions.go, the functions on
--     values, and those on texts and hardware threads.
--   Topology: pkg/ccTopology/ccTopology.go, `init`, the lists and the lookups; `Parse` reads files.
--   Rapl: collectors/raplMetric.go, `Init` with the zones that it keeps, `Read` and `Close`.
--   Sampling: collectors that read files and the output of tools, in collectors/, with what they share;
--     a file is the list of its lines, or its bytes. Netstat: netstatMetric.go. Numastats:
--     numastatsMetric.go. Schedstat: schedstatMetric.go. SlurmCgroup: slurmCgroupMetric.go. Iostat:
--     iostatMetric.go. Lustre: lustreMetric.go. Nfs: nfsMetric.go. Diskstat: diskstatMetric.go.
--     Infiniband: infinibandMetric.go. Memstat: memstatMetric.go.
--     Cpustat: cpustatMetric.go. Nfsiostat: nfsiostatMetric.go.
--     Temp: tempMetric.go. Loadavg: loadavgMetric.go. Each has
--     `init`, `read` and `close` for the methods of that name, and a function for each of their loops.
--   Values: the values of type `any` of expressions. Prelude: what the modules share.
--   Examples: the theorems applied to concrete inputs.
--
-- A call that may panic returns a `Run`, a call that may fail a `Result`. A channel is the list of
-- what was sent to it. State is passed on and returned. Integers are native naturals, or the type
-- ℤ of Prelude.Int with the wrap-around of their width; counters and indices, which are far below
-- 2 ^ 63, do not wrap. The loops are structural: over lists of messages, of aggregations, of
-- collectors and of events. The decimal printer `itoa` has fuel, one more than the number, which has
-- fewer digits. A Go map is an association list without an order; where the code walks a map, the
-- list is one such walk.
--
-- Parameters are the code outside the repository: gval and its language, the messages and the
-- message processor of cc-lib, floats, regular expressions, the clock, the files of sysfs and
-- powercap, the output of tools, and the parsers of durations and of JSON. Not modelled: the other
-- collectors, whose work is mostly reading of files and calls of tools, the command line, the log,
-- and the sinks and receivers of cc-lib.
-- An event of a loop says what the loop finds in its channels, so that every interleaving
-- is a list of events.
mod Prelude
pub mod Topology
pub mod Values
pub mod Builtins
pub mod Aggregator
pub mod Functions
pub mod Cache
pub mod Router
pub mod Sampling
pub mod Ticker
pub mod Collectors
pub mod Program
pub mod Rapl
mod Examples
