-- ===== src/Ticker/Progress.antt =====
-- A tick reaches all channels, and the goroutine waits again, if the receivers take what is sent.
use cc_metric_collector.Prelude.{
  ℕ, zero, suc, ◌+◌, ◌≡◌, refl, sym, ap, ◌∙◌, List, [], ◌∷◌, ◌++◌, length, map,
}
use cc_metric_collector.Ticker.{
  waiting, sending, Event, tick, send, end_of_loop, push, step_in, Steps, stay, follow,
}
use cc_metric_collector.Ticker.Delivery.{
  complete, complete-none, complete-all, complete-push, suc_add,
}

module _ {Time : Type 0} where
  -- the receivers of `m` channels take a tick
  abbrev pub sends : ℕ → List (Event Time)
  sends zero = end_of_loop ∷ []
  sends (suc m) = send ∷ sends m

  -- From any point of the loop over the channels, as many receptions as there are channels left end it,
  -- and each of these channels gets the tick.
  pub Steps-sends :
      (ts : Time) (k m : ℕ) (cs : List (List Time))
      → Steps
          (sends m)
          (record { channels = cs; phase = sending ts k m })
          (record { channels = complete ts k m cs; phase = waiting })
  unfolding step_in
  Steps-sends ts k zero cs = follow refl (rw (complete-none ts k cs) stay)
  Steps-sends ts k (suc m) cs =
      follow refl (rw (← all_left) (Steps-sends ts (k + 1) m (push ts k cs)))
    where
      all_left : complete ts (k + 1) m (push ts k cs) ≡ complete ts k (suc m) cs
      all_left =
          ap (λ i. complete ts i m (push ts k cs)) (sym (suc_add k)) ∙ complete-push ts k m cs

  -- A waiting ticker can always take a tick, and if each channel's receiver takes what is sent to it,
  -- the ticker waits again with the tick behind what every channel had got.
  pub Steps-tick :
      (ts : Time) (cs : List (List Time))
      → Steps
          (tick ts ∷ sends (length cs))
          (record { channels = cs; phase = waiting })
          (record { channels = map (λ c. c ++ ts ∷ []) cs; phase = waiting })
  unfolding step_in
  Steps-tick ts cs = follow refl (rw (← complete-all ts cs) (Steps-sends ts 0 (length cs) cs))
