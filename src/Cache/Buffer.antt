-- ===== src/Cache/Buffer.antt =====
-- An interval as two lists: the messages stored since the interval was entered, and behind them
-- the messages of an earlier round that have not been written over.
use cc_metric_collector.Prelude.{
  ◌+◌, ◌≡◌, List, [], ◌∷◌, ◌++◌, append-nil, arith, length, drop, length-append,
  get_elem?-append_length, set-append_length,
}
use cc_metric_collector.Prelude.Run.{Finishes}
use cc_metric_collector.Cache.{Period, store}

module _ {Time Msg : Type 0} where
  pub record Holds (p : Period Time Msg) (fresh stale : List Msg) : Type 0 where
    pub listed : p.metrics ≡ fresh ++ stale
    pub counted : p.num_metrics ≡ length fresh
    pub sized : p.size_metrics ≡ length fresh + length stale

  -- Storing one message appends it to the new messages and uses up one old slot.
  pub store-Holds :
      (time_of : Msg → Time) (m : Msg) (p : Period Time Msg) (fresh stale : List Msg)
      → Holds p fresh stale
      → Finishes (λ p'. Holds p' (fresh ++ m ∷ []) (drop 1 stale)) (store time_of m p)
  unfolding store
  store-Holds time_of m p fresh [] h =
      ground (arith, append-nil fresh, append-nil (fresh ++ m ∷ []), length-append fresh (m ∷ []))
  store-Holds time_of m p fresh (s ∷ stale) h = ground (
    arith,
    get_elem?-append_length fresh s stale,
    set-append_length fresh s stale m,
    length-append fresh (m ∷ []),
  )
