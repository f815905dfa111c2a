-- ===== src/Sampling/Temp/Naming.antt =====
-- The names of the metrics of collectors/tempMetric.go.
use cc_metric_collector.Prelude.{
  ℕ, ◌≡◌, ◌≢◌, refl, true, false, Bool-cases, Option-cases, inl, inr, List, [], ◌∷◌, map, All,
  All-append, arith,
}
use cc_metric_collector.Prelude.Bytes.{Bytes, codes, contains, has_prefix}
use cc_metric_collector.Values.{Result, ok, err}
use cc_metric_collector.Sampling.Temp.{
  SensorFiles, Sensor, Config, Collector, text_of, sensor_name, is_upper, plain_byte, with_prefix,
  metric_name, make_sensor, sensor_of, sensors_of, collector_of, init,
}

-- A byte is neither upper case nor a space.
abbrev pub IsPlain : ℕ → Type 0
IsPlain c = (is_upper c ≡ false) × (c ≢ 32)

plain_byte-IsPlain : (c : ℕ) → IsPlain (plain_byte c)
unfolding plain_byte
plain_byte-IsPlain c = ground arith

map-IsPlain : (s : Bytes) → All IsPlain (map plain_byte s)
map-IsPlain [] = tt
map-IsPlain (c ∷ s) = (plain_byte-IsPlain c, map-IsPlain s)

-- A name has the word "temp" in it, and no upper case letter and no space.
abbrev pub IsName : Bytes → Type 0
IsName name = (contains (codes "temp") name ≡ true) × All IsPlain name

temp_prefix-IsPlain : All IsPlain (codes "temp_")
temp_prefix-IsPlain = ground arith

metric_name-IsName : (name : Bytes) → IsName (metric_name name)
unfolding metric_name with_prefix contains has_prefix
metric_name-IsName name = elim (Bool-cases (contains (codes "temp") (map plain_byte name))) [
  | inl e ↦ rw e (e, map-IsPlain name)
  | inr e ↦ rw e (refl, All-append IsPlain (codes "temp_") _ temp_prefix-IsPlain (map-IsPlain name))
]

abbrev HasName : Sensor → Type 0
HasName s = IsName s.metric_name

module _ (config : Config) where
  make_sensor-HasName :
      (f : SensorFiles) (name : Bytes) → IsName name → All HasName (make_sensor config f name)
  unfolding make_sensor
  make_sensor-HasName f name h = elim (Option-cases f.input) [
    | inl e ↦ rw (e, make_sensor) tt
    | inr (b, e) ↦ rw (e, make_sensor) (h, tt)
  ]

  sensor_of-HasName : (f : SensorFiles) → All HasName (sensor_of config f)
  unfolding sensor_of
  sensor_of-HasName f = elim (Option-cases (sensor_name (text_of f.name) (text_of f.label))) [
    | inl e ↦ rw (e, sensor_of) tt
    | inr (name, e) ↦
        rw (e, sensor_of) (make_sensor-HasName f (metric_name name) (metric_name-IsName name))
  ]

  sensors_of-HasName : (fs : List SensorFiles) → All HasName (sensors_of config fs)
  unfolding sensors_of
  sensors_of-HasName [] = tt
  sensors_of-HasName (f ∷ fs) =
      All-append HasName (sensor_of config f) (sensors_of config fs) (sensor_of-HasName f)
        (sensors_of-HasName fs)

  -- A collector that was made is initialized, and has sensors, all of them with names.
  abbrev pub IsMade : Result Collector → Type 0
  IsMade (err e) = Unit {0}
  IsMade (ok m) = (m.init ≡ true) × (m.sensors ≢ []) × All HasName m.sensors

  collector_of-IsMade :
      (sensors : List Sensor) → All HasName sensors → IsMade (collector_of config sensors)
  collector_of-IsMade [] h = tt
  collector_of-IsMade (s ∷ ss) h = (refl, λ e. cc, h)

  -- Whatever the files of the sensors hold, `Init` of a collector that is not initialized returns an
  -- error, or a collector with at least one sensor, each with a name for its metric that has the word
  -- "temp" in it, and no upper case letter and no space.
  pub init-IsMade :
      (files : List SensorFiles) (m : Collector) → m.init ≡ false → IsMade (init config files m)
  unfolding init
  init-IsMade [] m e = rw e tt
  init-IsMade (f ∷ fs) m e = rw e (collector_of-IsMade _ (sensors_of-HasName (f ∷ fs)))
