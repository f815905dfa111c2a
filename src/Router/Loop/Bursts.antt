-- ===== src/Router/Loop/Bursts.antt =====
-- A turn of the loop on collectors' messages when a cache is configured: the burst of `forward_more`
-- over `coll_forward`, with what it sends and what it stores.
use cc_metric_collector.Prelude.{◌≡◌, String, Option, some, List, [], ◌∷◌}
use cc_metric_collector.Prelude.Run.{done, at}
use cc_metric_collector.Cache.{Period, Cache}
use cc_metric_collector.Cache.Buffer.{Holds}
use cc_metric_collector.Cache.Invariant.{IsValid}
use cc_metric_collector.Router.{Processor, Caching}
use cc_metric_collector.Router.Loop.{Router, Timed}
use cc_metric_collector.Router.Loop.History.{kept, sent, arrival}
use cc_metric_collector.Router.Loop.Caches.{with_cache}

module _ {Time Msg : Type 0} where
  -- the current interval has these messages of its own and these of an earlier round behind them
  pub record InCurrent (c : Cache Time Msg) (fresh stale : List Msg) : Type 0 where
    pub shape : (p : Period Time Msg) × (at c.intervals c.cur_period ≡ done p) × Holds p fresh stale

module _ {Msg : Type 0} (f : Msg → Option Msg × Option String) where
  -- For each of the messages, the processor returns the one at its place.
  abbrev pub Returns : List Msg → List Msg → Type 0
  Returns [] [] = Unit {0}
  Returns [] (n ∷ ns) = ⊥
  Returns (m ∷ ms) [] = ⊥
  Returns (m ∷ ms) (n ∷ ns) = ((f m).0 ≡ some n) × Returns ms ns

module _ {F G Time Msg E P : Type 0} (mp : Processor P Msg) (timed : Timed Time Msg) where
  -- what the processor makes of messages that arrive in a state
  abbrev processed : Router F G Time Msg E P → Msg → Option Msg × Option String
  processed r m = arrival mp timed r.setup r.timestamp m

  -- The result of some messages is a state with this cache whose outputs got what is kept of them; the
  -- current interval has these messages of its own and those of an earlier round.
  abbrev pub Stored :
      Caching F G Time Msg E
      → Router F G Time Msg E P
      → List Msg
      → List Msg
      → List Msg
      → Router F G Time Msg E P
      → Type 0
  Stored c r ms fresh stale r' =
      (periods : Cache Time Msg) × (r' ≡ with_cache c periods (sent (kept (processed r) ms) r))
      × IsValid periods
      × InCurrent periods fresh stale
