-- ===== src/Router/Ready.antt =====
-- What a successful `Init` of the router guarantees to the loop of `Start`.
use cc_metric_collector.Prelude.{
  ◌≤◌, ◌<◌, ◌≡◌, refl, true, false, String, Option, none, some, arith, Bool-cases, inl, inr,
}
use cc_metric_collector.Prelude.Int.{pos, negsuc, ℤ, pos_part, ltb_ℤ}
use cc_metric_collector.Values.{Result, ok, err}
use cc_metric_collector.Topology.{CpuInformation}
use cc_metric_collector.Cache.Invariant.{IsValid, init-IsValid}
use cc_metric_collector.Aggregator.{Library}
use cc_metric_collector.Aggregator.Constants.{new_aggregator}
use cc_metric_collector.Router.{
  Processor, Config, Setup, Caching, forward_limit, add_aggregations, make_cache, configure, init,
  ◌>>=◌,
}
use cc_metric_collector.Router.Loop.Caches.{IsCached}

-- A value that exists has the property; an error is none.
abbrev pub IfOk {ℓ} : {A : Type ℓ} → (A → Type 0) → Result A → Type 0
IfOk Q (ok a) = Q a
IfOk Q (err e) = Unit {0}

IfOk-bind {ℓ κ} :
    {A : Type ℓ} {B : Type κ} (R : A → Type 0) (Q : B → Type 0) (m : Result A) (f : A → Result B)
    → IfOk R m
    → ((a : A) → R a → IfOk Q (f a))
    → IfOk Q (m >>= f)
IfOk-bind R Q (ok a) f h k = k a h
IfOk-bind R Q (err e) f h k = tt

IfOk-any {ℓ} : {A : Type ℓ} (m : Result A) → IfOk (λ _. Unit {0}) m
IfOk-any (ok a) = tt
IfOk-any (err e) = tt

forward_limit_pos : (z : ℤ) → 1 ≤ forward_limit z
unfolding forward_limit
forward_limit_pos (pos n) = omega arith
forward_limit_pos (negsuc n) = omega arith

module _ {F G Time Msg E P : Type 0} (lib : Library F G Time Msg E) (mp : Processor P Msg) where
  -- the loop's demands: a burst takes a message, and there is a well-formed cache exactly if a
  -- positive number of intervals is configured
  pub record IsReady (s : Setup F G Time Msg E P) : Type 0 where
    pub limit : 1 ≤ s.max_forward
    pub cached :
        ltb_ℤ (pos 0) s.config.num_cache_intervals ≡ true
        → (c : Caching F G Time Msg E) × IsCached s c
    pub uncached : ltb_ℤ (pos 0) s.config.num_cache_intervals ≡ false → s.caching ≡ none

  -- what `make_cache` makes
  abbrev pub FitsCache : Config → Option (Caching F G Time Msg E) → Type 0
  FitsCache config o =
      (ltb_ℤ (pos 0) config.num_cache_intervals ≡ true
        → (c : Caching F G Time Msg E) × (o ≡ some c) × IsValid c.periods)
      × (ltb_ℤ (pos 0) config.num_cache_intervals ≡ false → o ≡ none)

  pos_part_pos : (z : ℤ) → ltb_ℤ (pos 0) z ≡ true → 0 < pos_part z
  pos_part_pos (pos n) h = ground (arith, h)
  pos_part_pos (negsuc n) h = ground (arith, h)

  make_cache-FitsCache :
      (zero_time : Time) (hostname : Result String) (info : CpuInformation) (config : Config)
      → IfOk (FitsCache config) (make_cache lib mp zero_time hostname info config)
  unfolding make_cache
  make_cache-FitsCache zero_time hostname info config =
      elim (Bool-cases (ltb_ℤ (pos 0) config.num_cache_intervals)) [
        | inl b ↦ rw b (
            IfOk-bind _ (FitsCache config) (new_aggregator hostname info) _ (IfOk-any _)
              (λ engine _.
                IfOk-bind _ (FitsCache config) (add_aggregations lib mp config.interval_agg engine)
                  _ (IfOk-any _)
                  (λ engine' _.
                    (λ h. (_, refl, init-IsValid zero_time _ (pos_part_pos _ b)), λ h. cc))))
        | inr b ↦ rw b (λ h. cc, λ h. refl)
      ]

  -- A router that `Init` sets up has a positive limit, and a well-formed cache exactly if one is
  -- configured.
  pub init-IsReady :
      (zero_time : Time) (hostname : Result String) (info : CpuInformation)
      (decoded : Result Config)
      → IfOk IsReady (init lib mp zero_time hostname info decoded)
  unfolding init
  init-IsReady zero_time hostname info decoded =
      IfOk-bind _ IsReady hostname _ (IfOk-any hostname) (λ name _.
        IfOk-bind _ IsReady decoded _ (IfOk-any decoded) (λ config _.
          IfOk-bind (FitsCache config) IsReady (make_cache lib mp zero_time hostname info config) _
            (make_cache-FitsCache zero_time hostname info config)
            (λ caching h. IfOk-bind _ IsReady (configure mp _ config) _ (IfOk-any _) (λ p _.
              record {
                limit = forward_limit_pos config.max_forward;
                cached = λ b.
                    let (c, e, v) = h.0 b in (c, record { configured = b; made = e; valid = v });
                uncached = h.1;
              }))))
