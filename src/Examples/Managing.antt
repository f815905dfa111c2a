-- ===== src/Examples/Managing.antt =====
-- A ticker with one channel, and collectors that are their names.
use text.Mathlib.Text.{◌==◌ as str_eq}
use cc_metric_collector.Prelude.{
  ◌||◌, if◌then◌else◌, ◌≡◌, refl, String, Option, none, some, List, [], ◌∷◌,
}
use cc_metric_collector.Values.{ok}
use cc_metric_collector.Prelude.{ℕ}
use cc_metric_collector.Ticker.{
  Ticker, Event, waiting, tick, send, end_of_loop, add_channel, new_ticker, push, step_in, Steps,
  stay, follow,
}
use cc_metric_collector.Ticker.Progress.{Steps-tick}
use cc_metric_collector.Ticker.Delivery.{Behind, deliveries, new_ticker-Behind}
use cc_metric_collector.Collectors.{Available, Manager, init, run}
use cc_metric_collector.Collectors.Rounds.{closed_of, run-closed_of}
use cc_metric_collector.Collectors.Setup.{sorted, usable, init-sorted}

abbrev served : List (Event ℕ)
served = add_channel ∷ tick 5 ∷ send ∷ end_of_loop ∷ []

abbrev after_tick : Ticker ℕ
after_tick = record { channels = (5 ∷ []) ∷ []; phase = waiting }

served-Steps : Steps served new_ticker after_tick
unfolding step_in push
served-Steps = follow refl (follow refl (follow refl (follow refl stay)))

new_ticker-Behind_example : Behind (deliveries served []) ((5 ∷ []) ∷ []) waiting
new_ticker-Behind_example = new_ticker-Behind served after_tick served-Steps

abbrev known : String → Option String
known name = if str_eq name "loadavg" || str_eq name "likwid" then some name else none

abbrev available : Available String
available = record { find = known; init = λ config c. ok c; parallel = λ c. str_eq c "loadavg" }

abbrev manager : Manager String
manager = record { collectors = "loadavg" ∷ []; serial = "likwid" ∷ [] }

init-sorted_example :
    init available (ok (("likwid", "{}") ∷ ("nothing", "{}") ∷ []))
    ≡ ok (sorted available (usable available (("likwid", "{}") ∷ ("nothing", "{}") ∷ [])))
init-sorted_example = init-sorted available (("likwid", "{}") ∷ ("nothing", "{}") ∷ [])

run-closed_of_example : closed_of (run 2 (some 1) manager) ≡ "loadavg" ∷ []
run-closed_of_example = run-closed_of 2 (some 1) manager

Steps-tick_example :
    Steps {Time = ℕ}
      (tick 7 ∷ send ∷ send ∷ end_of_loop ∷ [])
      (record { channels = (5 ∷ []) ∷ [] ∷ []; phase = waiting })
      (record { channels = (5 ∷ 7 ∷ []) ∷ (7 ∷ []) ∷ []; phase = waiting })
Steps-tick_example = Steps-tick 7 ((5 ∷ []) ∷ [] ∷ [])
