-- ===== src/Ticker.antt =====
-- pkg/multiChanTicker/multiChanTicker.go: one ticker that passes each tick on to many channels.
-- A channel is the list of the times that were sent to it. The goroutine of `Init` is between two
-- receptions, in the loop over the channels, or at its end. `range` reads the list of channels
-- once, so the loop has the number of channels at its start.
pub mod Delivery
pub mod Progress
use cc_metric_collector.Prelude.{ℕ, zero, suc, ◌+◌, Option, none, some, List, [], ◌∷◌, ◌++◌, length}

pub data Phase (Time : Type 0) : Type 0 where
  waiting : Phase Time
  sending : Time → ℕ → ℕ → Phase Time  -- the tick, the channels served, and those to serve
  finished : Phase Time

pub record Ticker (Time : Type 0) : Type 0 where
  pub channels : List (List Time)
  pub phase : Phase Time

-- What happens: a tick, a send that a receiver takes, the end of the loop over the channels, the
-- signal of `Close`, and a call of `AddChannel`.
pub data Event (Time : Type 0) : Type 0 where
  tick : Time → Event Time
  send end_of_loop close add_channel : Event Time

module _ {Time : Type 0} where
  abbrev pub new_ticker : Ticker Time
  new_ticker = record { channels = []; phase = waiting }

  -- c <- ts, on the channel at an index
  unfoldable pub push : Time → ℕ → List (List Time) → List (List Time)
  push ts k [] = []
  push ts zero (c ∷ cs) = (c ++ ts ∷ []) ∷ cs
  push ts (suc k) (c ∷ cs) = c ∷ push ts k cs

  -- The step of an event, or `none` where the program cannot take it. Both `select`s take `done`.
  unfoldable pub step_in : Event Time → List (List Time) → Phase Time → Option (Ticker Time)
  step_in (tick ts) cs waiting = some (record { channels = cs; phase = sending ts 0 (length cs) })
  step_in send cs (sending ts k (suc m)) =
      some (record { channels = push ts k cs; phase = sending ts (k + 1) m })
  step_in end_of_loop cs (sending ts k zero) = some (record { channels = cs; phase = waiting })
  step_in close cs waiting = some (record { channels = cs; phase = finished })
  step_in close cs (sending ts k (suc m)) = some (record { channels = cs; phase = finished })
  step_in add_channel cs phase = some (record { channels = cs ++ [] ∷ []; phase = phase })
  step_in _ cs phase = none

  abbrev pub step : Event Time → Ticker Time → Option (Ticker Time)
  step e t = step_in e t.channels t.phase

  -- The states that a sequence of events leads to.
  pub data Steps : List (Event Time) → Ticker Time → Ticker Time → Type 0 where
    stay : {t : Ticker Time} → Steps [] t t
    follow :
        {e : Event Time} {es : List (Event Time)} {t u v : Ticker Time}
        → Path (Option (Ticker Time)) (step e t) (some u)
        → Steps es u v
        → Steps (e ∷ es) t v
