-- ===== src/Collectors.antt =====
-- collectors/collectorManager.go and collectors/metricCollector.go: the manager of the collectors.
-- A collector is a parameter: whether it is known, its `Init`, and whether it is read in parallel.
-- `Init` walks the configuration, a map, in the order of the list that stands for it. A round of
-- the loop of `Start` is the list of its calls; the number of collectors that it starts before the
-- signal of `Close` is there is an argument, `none` if the signal does not come in the round.
pub mod Rounds
pub mod Setup
use text.Mathlib.Text.{◌==◌ as str_eq}
use cc_metric_collector.Prelude.{
  ℕ, zero, suc, Bool, true, false, String, Option, none, some, List, [], ◌∷◌, ◌++◌, map,
  if◌then◌else◌,
}
use cc_metric_collector.Prelude.Dict.{Dict}
use cc_metric_collector.Values.{Result, ok, err, map_ok}

-- What the manager uses of the collectors of the program, a type `C`.
pub record Available (C : Type 0) : Type 0 where
  pub find : String → Option C
  pub init : String → C → Result C
  pub parallel : C → Bool

pub record Manager (C : Type 0) : Type 0 where
  pub collectors : List C
  pub serial : List C

module _ {C : Type 0} (available : Available C) where
  -- one entry of the configuration: unknown collectors and those that fail are skipped
  unfoldable pub init_one : String × String → Manager C → Manager C
  init_one (name, config) cm = elim (available.find name) [
    | none ↦ cm
    | some c ↦ elim (available.init config c) [
      | err e ↦ cm
      | ok c' ↦
          if available.parallel c'
          then record cm { collectors = cm.collectors ++ c' ∷ [] }
          else record cm { serial = cm.serial ++ c' ∷ [] }
    ]
  ]

  unfoldable pub init_all : Dict String → Manager C → Manager C
  init_all [] cm = cm
  init_all (e ∷ es) cm = init_all es (init_one e cm)

  -- `Init`, on the decoded configuration or the decoder's error
  unfoldable pub init : Result (Dict String) → Result (Manager C)
  init decoded =
      map_ok (λ config. init_all config (record { collectors = []; serial = [] })) decoded

-- The calls of the loop: a goroutine that reads a collector, the wait for all of them, a read in
-- the loop itself, the close of a collector, and the close of the channel `done`.
pub data Call (C : Type 0) : Type 0 where
  started read closed : C → Call C
  joined ended : Call C

module _ {C : Type 0} where
  -- the function `done` of `Start`, with the flag `parallel_run`
  unfoldable pub finish : Bool → Manager C → List (Call C)
  finish true cm = joined ∷ map closed cm.collectors ++ ended ∷ []
  finish false cm = map closed cm.collectors ++ ended ∷ []

  -- A loop over collectors that tests for the signal before each: the calls, and what is left of
  -- the number of collectors before the signal, or `none` if the signal ended the loop.
  unfoldable pub visit : (C → Call C) → Option ℕ → List C → List (Call C) × Option (Option ℕ)
  visit call budget [] = ([], some budget)
  visit call none (c ∷ cs) = let (calls, left) = visit call none cs in (call c ∷ calls, left)
  visit call (some zero) (c ∷ cs) = ([], none)
  visit call (some (suc n)) (c ∷ cs) =
      let (calls, left) = visit call (some n) cs in (call c ∷ calls, left)

  -- A tick: the parallel collectors, the wait, and the serial ones; and whether the loop goes on.
  unfoldable pub round : Option ℕ → Manager C → List (Call C) × Bool
  round budget cm =
      let (started_calls, left) = visit started budget cm.collectors in
      elim left [
        | none ↦ (started_calls ++ finish true cm, false)
        | some budget' ↦
            let (read_calls, left') = visit read budget' cm.serial in
            elim left' [
              | none ↦ (started_calls ++ joined ∷ read_calls ++ finish false cm, false)
              | some budget'' ↦ (started_calls ++ joined ∷ read_calls, true)
            ]
      ]

  -- The whole run: some rounds without the signal, then one with it after some collectors, or the
  -- signal between two ticks.
  unfoldable pub run : ℕ → Option ℕ → Manager C → List (Call C)
  run zero none cm = finish false cm
  run zero (some n) cm =
      let (calls, goes_on) = round (some n) cm in
      if goes_on then calls ++ finish false cm else calls
  run (suc k) last cm = (round none cm).0 ++ run k last cm

-- `RemoveFromStringList`
unfoldable pub remove_from_string_list : List String → String → List String × Result (Unit {0})
remove_from_string_list [] r = ([], err "no such string in list")
remove_from_string_list (s ∷ ss) r =
    let (rest, result) = remove_from_string_list ss r in
    if str_eq r s then (ss, ok tt) else (s ∷ rest, result)
