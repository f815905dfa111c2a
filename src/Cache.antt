-- ===== src/Cache.antt =====
-- internal/metricRouter/metricCache.go: the cache of the messages of the last intervals.
-- An interval is a `Period`; the intervals are used as a ring, and a tick moves to the next one.
-- `time.Time` and `CCMessage` are parameters, with the time of a message. The number of periods
-- and the current index are natural numbers: the router makes a cache only for a positive number
-- of intervals. An operation runs as a whole, as under the mutex of the source; a tick ends where the
-- mutex is given back, before `Eval` reads the batch.
pub mod Buffer
pub mod Invariant
pub mod Periods
pub mod Single
pub mod Service
pub mod Slices
use cc_metric_collector.Prelude.{
  ℕ, ◌+◌, ◌&&◌, Option, none, some, List, [], ◌∷◌, ◌++◌, set, replicate, ltb, leb, if◌then◌else◌,
}
use cc_metric_collector.Prelude.Int.{ℤ, pos, negsuc, ◌-ℤ◌, ltb_ℤ, leb_ℤ}
use cc_metric_collector.Prelude.Run.{Run, done, panic, ◌>>=◌, at}

pub record Period (Time Msg : Type 0) : Type 0 where
  pub startstamp : Time
  pub stopstamp : Time
  pub num_metrics : ℕ
  pub size_metrics : ℕ
  pub metrics : List Msg

pub record Cache (Time Msg : Type 0) : Type 0 where
  pub num_periods : ℕ
  pub cur_period : ℕ
  pub intervals : List (Period Time Msg)

module _ {Time Msg : Type 0} (zero_time : Time) where
  -- new(metricCachePeriod), with the fields that `Init` sets
  abbrev pub empty_period : Period Time Msg
  empty_period = record {
    startstamp = zero_time;
    stopstamp = zero_time;
    num_metrics = 0;
    size_metrics = 0;
    metrics = [];
  }

  -- `Init` makes one interval more than `numPeriods`.
  unfoldable pub init : ℕ → Cache Time Msg
  init num_periods = record {
    num_periods = num_periods;
    cur_period = 0;
    intervals = replicate (num_periods + 1) empty_period;
  }

module _ {Time Msg : Type 0} where
  -- the index of the interval after the current one
  unfoldable pub next_period : Cache Time Msg → ℕ
  next_period c = if leb c.num_periods (c.cur_period + 1) then 0 else c.cur_period + 1

  -- `rotate` of `Start`: the new state, and the index of the interval that it leaves
  unfoldable pub rotate : Time → Cache Time Msg → Run (ℕ × Cache Time Msg)
  rotate timestamp c = do
    let old = c.cur_period
    let cur = next_period c
    p ← at c.intervals old
    let left = set c.intervals old (record p { num_metrics = 0; stopstamp = timestamp })
    q ← at left cur
    let entered = set left cur (record q { startstamp = timestamp; stopstamp = timestamp })
    done (old, record c { cur_period = cur; intervals = entered })

  -- the interval at a computed index, or an empty list with the two readings of the clock
  unfoldable pub period_at : Time → Time → ℤ → Cache Time Msg → Run (Time × Time × List Msg)
  period_at now now' (pos k) c =
      if ltb k c.num_periods
      then (do p ← at c.intervals k; done (p.startstamp, p.stopstamp, p.metrics))
      else done (now, now', [])
  period_at now now' (negsuc k) c = done (now, now', [])

  -- `GetPeriod`, with the two readings of the clock that it begins with
  unfoldable pub get_period : Time → Time → ℤ → Cache Time Msg → Run (Time × Time × List Msg)
  unfolding ◌-ℤ◌
  get_period now now' index c =
      if leb_ℤ (pos 0) index && ltb_ℤ index (pos c.num_periods)
      then (let pindex = pos c.cur_period -ℤ index in
          if ltb_ℤ pindex (pos 0)
          then period_at now now' (pos c.num_periods -ℤ pindex) c
          else period_at now now' pindex c)
      else done (now, now', [])

  -- a tick: rotate, and take the messages that are handed to the aggregator if there are any
  unfoldable pub tick :
      Time → Time → Time → Cache Time Msg → Run ((Time × Time × List Msg) × Cache Time Msg)
  tick now now' timestamp c = do
    (old, c') ← rotate timestamp c
    batch ← get_period now now' (pos old) c'
    done (batch, c')

module _ {Time Msg : Type 0} (time_of : Msg → Time) where
  -- the two branches of `Add` on the interval: reuse a slot, or grow the list
  unfoldable pub store : Msg → Period Time Msg → Run (Period Time Msg)
  store m p =
      if ltb p.num_metrics p.size_metrics
      then (do
        slot ← at p.metrics p.num_metrics
        done (record p {
          metrics = set p.metrics p.num_metrics m;
          num_metrics = p.num_metrics + 1;
          stopstamp = time_of m;
        }))
      else done (record p {
        metrics = p.metrics ++ m ∷ [];
        num_metrics = p.num_metrics + 1;
        size_metrics = p.size_metrics + 1;
        stopstamp = time_of m;
      })

  -- `Add`; `none` is a nil message, whose method `Time` panics
  unfoldable pub add : Option Msg → Cache Time Msg → Run (Cache Time Msg)
  add message c =
      if ltb c.cur_period c.num_periods
      then (do
        p ← at c.intervals c.cur_period
        p' ← elim message [ none ↦ panic | some m ↦ store m p ]
        done (record c { intervals = set c.intervals c.cur_period p' }))
      else done c

-- What reaches the cache: a message from the router, or a tick with the readings of the clock.
pub data Event (Time Msg : Type 0) : Type 0 where
  message : Option Msg → Event Time Msg
  tick_at : Time → Time → Time → Event Time Msg

module _ {Time Msg : Type 0} where
  -- A batch goes to the aggregator only if it is not empty.
  abbrev pub handed_over : Time × Time × List Msg → List (Time × Time × List Msg)
  handed_over (start, stop, []) = []
  handed_over (start, stop, m ∷ ms) = (start, stop, m ∷ ms) ∷ []

module _ {Time Msg : Type 0} (time_of : Msg → Time) where
  -- one event: a call of `Add`, or the tick's case in the loop of `Start`
  unfoldable pub step :
      Event Time Msg → Cache Time Msg → Run (List (Time × Time × List Msg) × Cache Time Msg)
  step (message m) c = do c' ← add time_of m c; done ([], c')
  step (tick_at now now' ts) c = do (batch, c') ← tick now now' ts c; done (handed_over batch, c')

  -- the batches that the aggregator gets over a sequence of events
  unfoldable pub run :
      List (Event Time Msg) → Cache Time Msg → Run (List (Time × Time × List Msg) × Cache Time Msg)
  run [] c = done ([], c)
  run (e ∷ es) c = do (batch, c') ← step e c; (rest, c'') ← run es c'; done (batch ++ rest, c'')
