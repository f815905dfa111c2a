-- ===== src/Router/Loop/Caches.antt =====
-- Forwarding a collector's message when a cache is configured.
use cc_metric_collector.Prelude.{◌≡◌, refl, ap, ◌∙◌, String, true, Option, none, some, lt→ltb}
use cc_metric_collector.Prelude.Int.{pos, ltb_ℤ}
use cc_metric_collector.Prelude.Run.{Finishes-value, done, panic}
use cc_metric_collector.Cache.{Cache, add}
use cc_metric_collector.Cache.Invariant.{IsValid, add-IsValid, period_in_use}
use cc_metric_collector.Router.{Processor, Setup, Caching}
use cc_metric_collector.Router.Loop.{
  Router, Timed, forwarded, deliver, stamped, add_to_cache, coll_forward,
}

module _ {F G Time Msg E P : Type 0} where
  -- a setup with a cache, which is well formed
  pub record IsCached (s : Setup F G Time Msg E P) (c : Caching F G Time Msg E) : Type 0 where
    pub configured : ltb_ℤ (pos 0) s.config.num_cache_intervals ≡ true
    pub made : s.caching ≡ some c
    pub valid : IsValid c.periods

  deliver-IsCached :
      (c : Caching F G Time Msg E) (o : Option Msg) (r : Router F G Time Msg E P)
      → IsCached r.setup c
      → IsCached (deliver o r).setup c
  unfolding deliver
  deliver-IsCached c none r k = k
  deliver-IsCached c (some m) r k = k

  -- the router with another state of its cache
  abbrev pub with_cache :
      Caching F G Time Msg E → Cache Time Msg → Router F G Time Msg E P → Router F G Time Msg E P
  with_cache c periods r = record r {
    setup = record (r.setup) { caching = some (record c { periods = periods }) };
  }

  module _ (mp : Processor P Msg) (timed : Timed Time Msg) (c : Caching F G Time Msg E)
      (r : Router F G Time Msg E P) (k : IsCached r.setup c) where
    add_nil : add timed.time_of none c.periods ≡ panic
    unfolding add
    add_nil =
        let (p, e, h) = period_in_use c.periods c.periods.cur_period k.valid k.valid.current in
        rw (lt→ltb _ _ k.valid.current, e) refl

    to_cache_nil : add_to_cache mp timed none r ≡ panic
    unfolding add_to_cache
    to_cache_nil = rw (k.made, add_to_cache) (rw add_nil refl)

    to_cache_some :
        (n : Msg) (periods : Cache Time Msg)
        → add timed.time_of (some n) c.periods ≡ done periods
        → add_to_cache mp timed (some n) r ≡ done (with_cache c periods r)
    unfolding add_to_cache
    to_cache_some n periods e = rw (k.made, add_to_cache) (rw e refl)

module _ {F G Time Msg E P : Type 0} (mp : Processor P Msg) (timed : Timed Time Msg) where
  module _ (c : Caching F G Time Msg E) (m : Msg) (r : Router F G Time Msg E P)
      (k : IsCached r.setup c) where
    -- the message processed, and the state after it is delivered
    abbrev processed : Option Msg × Option String
    processed = mp.process_message r.setup.mp (stamped mp timed r m)

    abbrev delivered : Router F G Time Msg E P
    delivered = deliver (forwarded processed) r

    delivered-IsCached : IsCached delivered.setup c
    delivered-IsCached = deliver-IsCached c (forwarded processed) r k

    coll_forward-add : coll_forward mp timed m r ≡ add_to_cache mp timed processed.0 delivered
    unfolding coll_forward
    coll_forward-add = rw k.configured refl

    -- With a well-formed cache, a collector's message that the processor drops makes the router
    -- panic: the nil message is put into the cache.
    pub coll_forward-dropped :
        (mp.process_message r.setup.mp (stamped mp timed r m)).0 ≡ none
        → coll_forward mp timed m r ≡ panic
    coll_forward-dropped e =
        coll_forward-add
        ∙ ap (λ o. add_to_cache mp timed o delivered) e
        ∙ to_cache_nil mp timed c delivered delivered-IsCached

    -- With a well-formed cache, a collector's message that the processor returns is stored in the
    -- cache, which stays well formed, and is sent to the outputs unless the processor also returns
    -- an error.
    pub coll_forward-cached :
        (n : Msg)
        → (mp.process_message r.setup.mp (stamped mp timed r m)).0 ≡ some n
        → (periods : Cache Time Msg) × (add timed.time_of (some n) c.periods ≡ done periods)
          × (coll_forward mp timed m r
              ≡ done (
                  with_cache c periods
                    (deliver (forwarded (mp.process_message r.setup.mp (stamped mp timed r m))) r)))
          × IsValid periods
    coll_forward-cached n e =
        let (periods, h, v) =
          Finishes-value _ (add timed.time_of (some n) c.periods)
            (add-IsValid timed.time_of n c.periods k.valid) in
        (
          periods,
          h,
          coll_forward-add
              ∙ ap (λ o. add_to_cache mp timed o delivered) e
              ∙ to_cache_some mp timed c delivered delivered-IsCached n periods h,
          v,
        )
