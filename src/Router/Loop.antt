-- ===== src/Router/Loop.antt =====
-- internal/metricRouter/metricRouter.go: the loop of `Start`, with the three ways of forwarding.
-- An output channel is the list of the messages sent to it. Receiving from an input that has
-- messages gives the first of them; those behind it are what the loop of a burst can take, up to
-- the limit, and what it leaves stays in the input.
pub mod History
pub mod Caches
pub mod Bursts
use mathlib.Core.Bool.{◌&&◌}
use cc_metric_collector.Prelude.{
  ℕ, suc, ◌+◌, ◌-◌, Bool, true, false, String, Option, none, some, List, [], ◌∷◌, ◌++◌, ltb,
  if◌then◌else◌,
}
use cc_metric_collector.Prelude.Int.{pos, ltb_ℤ}
use cc_metric_collector.Prelude.Run.{Run, done, panic, ◌>>=◌}
use cc_metric_collector.Cache.{Cache, add}
use cc_metric_collector.Router.{Processor, Setup, Caching}

-- The state of the loop: the setup, whose cache changes, with the outputs and the timestamp.
pub record Router (F G Time Msg E P : Type 0) : Type 0 where
  pub setup : Setup F G Time Msg E P
  pub outputs : List (List Msg)
  pub timestamp : Time

-- What the router uses of a message: its time.
pub record Timed (Time Msg : Type 0) : Type 0 where
  pub time_of : Msg → Time
  pub set_time : Time → Msg → Msg

-- a case of the `select`, with the message received and those that the input has behind it
pub data Event (Time Msg : Type 0) : Type 0 where
  timer : Time → Event Time Msg
  collected : Msg → List Msg → Event Time Msg
  received : Msg → List Msg → Event Time Msg
  aggregated : Msg → List Msg → Event Time Msg

module _ {Msg : Type 0} where
  -- `for _, o := range r.outputs { o <- m }`
  unfoldable pub send_all : Msg → List (List Msg) → List (List Msg)
  send_all m [] = []
  send_all m (o ∷ os) = (o ++ m ∷ []) ∷ send_all m os

  -- the message that is sent: none on an error, and none if it was dropped
  unfoldable pub forwarded : Option Msg × Option String → Option Msg
  forwarded (m, none) = m
  forwarded (m, some e) = none

module _ {F G Time Msg E P : Type 0} where
  -- `AddOutput`
  unfoldable pub add_output : Router F G Time Msg E P → Router F G Time Msg E P
  add_output r = record r { outputs = r.outputs ++ [] ∷ [] }

  unfoldable pub deliver : Option Msg → Router F G Time Msg E P → Router F G Time Msg E P
  deliver none r = r
  deliver (some m) r = record r { outputs = send_all m r.outputs }

module _ {F G Time Msg E P : Type 0} (mp : Processor P Msg) (timed : Timed Time Msg) where
  -- the timestamp of the interval in place of the message's, if it is configured
  unfoldable pub stamped : Router F G Time Msg E P → Msg → Msg
  stamped r p = if r.setup.config.interval_stamp then timed.set_time r.timestamp p else p

  -- `r.cache.Add(m)`
  unfoldable pub add_to_cache : Option Msg → Router F G Time Msg E P → Run (Router F G Time Msg E P)
  add_to_cache m r = elim r.setup.caching [
    | none ↦ panic
    | some c ↦ do
      periods ← add timed.time_of m c.periods
      done (record r {
        setup = record (r.setup) { caching = some (record c { periods = periods }) };
      })
  ]

  unfoldable pub recv_forward : Msg → Router F G Time Msg E P → Run (Router F G Time Msg E P)
  recv_forward p r = done (deliver (forwarded (mp.process_message r.setup.mp (stamped r p))) r)

  unfoldable pub cache_forward : Msg → Router F G Time Msg E P → Run (Router F G Time Msg E P)
  cache_forward p r = done (deliver (forwarded (mp.process_message r.setup.mp p)) r)

  unfoldable pub coll_forward : Msg → Router F G Time Msg E P → Run (Router F G Time Msg E P)
  coll_forward p r =
      let processed = mp.process_message r.setup.mp (stamped r p) in
      let r' = deliver (forwarded processed) r in
      if ltb_ℤ (pos 0) r.setup.config.num_cache_intervals
      then add_to_cache processed.0 r'
      else done r'

module _ {S Msg : Type 0} where
  -- `for i := 0; len(input) > 0 && i < limit-1; i++ { forward(<-input) }`, with the rest of the
  -- input
  unfoldable pub forward_more : (Msg → S → Run S) → ℕ → ℕ → List Msg → S → Run (List Msg × S)
  forward_more forward limit i [] s = done ([], s)
  forward_more forward limit i (p ∷ ps) s =
      if ltb i (limit - 1)
      then (do s' ← forward p s; forward_more forward limit (i + 1) ps s')
      else done (p ∷ ps, s)

  -- the message received, and the loop behind it
  unfoldable pub burst : (Msg → S → Run S) → ℕ → Msg → List Msg → S → Run (List Msg × S)
  burst forward limit p ps s = do s' ← forward p s; forward_more forward limit 0 ps s'

module _ {F G Time Msg E P : Type 0} (mp : Processor P Msg) (timed : Timed Time Msg) where
  -- One turn of the loop of `Start`, with what is left in the input that it reads.
  unfoldable pub turn :
      Event Time Msg → Router F G Time Msg E P → Run (List Msg × Router F G Time Msg E P)
  turn (timer ts) r = done ([], record r { timestamp = ts })
  turn (collected p ps) r = burst (coll_forward mp timed) r.setup.max_forward p ps r
  turn (received p ps) r = burst (recv_forward mp timed) r.setup.max_forward p ps r
  turn (aggregated p ps) r = burst (cache_forward mp timed) r.setup.max_forward p ps r

  -- turns in a sequence, the leftovers aside: the events say what each turn finds in its input
  unfoldable pub turns :
      List (Event Time Msg) → Router F G Time Msg E P → Run (Router F G Time Msg E P)
  turns [] r = done r
  turns (e ∷ es) r = do (left, r') ← turn e r; turns es r'
