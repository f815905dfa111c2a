-- ===== src/Rapl.antt =====
-- collectors/raplMetric.go: the collector of the average power of the RAPL zones of a node.
-- The files of the zones are parameters, in bytes; texts are lists of bytes. A zone is known by the
-- path of its counter, which stands for its ID. Go's ParseInt in base 10 and 64 bits is the `atoi`
-- of Topology.Parse. `time.Now` is read with each counter.
pub mod Energy
pub mod Excluded
use cc_metric_collector.Prelude.{
  ℕ, Bool, true, false, ◌&&◌, ◌||◌, not, Option, none, some, List, [], ◌∷◌, ◌++◌, ◌==◌,
  if◌then◌else◌,
}
use cc_metric_collector.Prelude.Int.{ℤ, pos, ◌+ℤ◌, ◌-ℤ◌, ltb_ℤ, wrap, half64}
use cc_metric_collector.Prelude.Bytes.{Bytes, codes, equal, Table}
use cc_metric_collector.Sampling.{sent}
use cc_metric_collector.Values.{Result, ok, err, Floats}
use cc_metric_collector.Topology.Parse.{trim_space, atoi}

-- the three files of a zone, and when the counter was read
pub record ZoneFiles (Time : Type 0) : Type 0 where
  pub id : Bytes
  pub name : Option Bytes
  pub energy_uj : Option Bytes
  pub max_energy_range_uj : Option Bytes
  pub read_at : Time

-- a zone of sysfs with its sub zones
pub record SysZone (Time : Type 0) : Type 0 where
  pub zone : ZoneFiles Time
  pub sub_zones : List (ZoneFiles Time)

-- an entry of `RAPLZoneInfo`
pub record ZoneInfo (Time : Type 0) : Type 0 where
  pub tags : Table Bytes
  pub energy_filepath : Bytes
  pub energy : ℤ
  pub energy_timestamp : Time
  pub max_energy_range : ℤ

pub record Collector (Time : Type 0) : Type 0 where
  pub zones : List (ZoneInfo Time)
  pub init : Bool

abbrev pub zone_tags : Bytes → Bytes → Table Bytes
zone_tags id name = (codes "id", id) ∷ (codes "zone_name", name) ∷ []

abbrev pub sub_zone_tags : Bytes → Bytes → Bytes → Table Bytes
sub_zone_tags id zone_name name =
    (codes "id", id) ∷ (codes "zone_name", zone_name) ∷ (codes "sub_zone_name", name) ∷ []

-- the maps of the excluded IDs and names
abbrev pub is_excluded : List Bytes → Bytes → Bool
is_excluded [] b = false
is_excluded (x ∷ xs) b = if equal x b then true else is_excluded xs b

-- the number in a file
unfoldable pub number_in : Option Bytes → Option ℤ
number_in none = none
number_in (some bytes) = atoi (trim_space bytes)

module _ {Time : Type 0} where
  -- `readZoneInfo` with the tests on a zone: its entry, if all its files are there and it is not
  -- excluded. The ID and the tags are those of the zone, or of the zone and the sub zone.
  unfoldable pub zone_info :
      List Bytes
      → List Bytes
      → Bytes
      → (Bytes → Table Bytes)
      → ZoneFiles Time
      → List (ZoneInfo Time)
  zone_info ids names id tags z = elim z.name [
    | none ↦ []
    | some name ↦ elim (number_in z.energy_uj) [
      | none ↦ []
      | some energy ↦ elim (number_in z.max_energy_range_uj) [
        | none ↦ []
        | some range ↦
            if not (is_excluded ids id) && not (is_excluded names (trim_space name))
            then record {
              tags = tags (trim_space name);
              energy_filepath = id;
              energy = energy;
              energy_timestamp = z.read_at;
              max_energy_range = range;
            }
              ∷ []
            else []
      ]
    ]
  ]

  abbrev pub name_of : ZoneFiles Time → Bytes
  name_of z = elim z.name [ none ↦ [] | some name ↦ trim_space name ]

  -- the loop over the sub zones of a zone; a zone without an ID or a name has none
  unfoldable pub sub_zone_infos :
      List Bytes → List Bytes → ZoneFiles Time → List (ZoneFiles Time) → List (ZoneInfo Time)
  sub_zone_infos ids names z [] = []
  sub_zone_infos ids names z (s ∷ ss) =
      (if equal z.id [] || equal (name_of z) []
        then []
        else zone_info ids names (z.id ++ b':' ∷ s.id)
            (sub_zone_tags (z.id ++ b':' ∷ s.id) (name_of z)) s)
      ++ sub_zone_infos ids names z ss

  unfoldable pub zone_infos : List Bytes → List Bytes → List (SysZone Time) → List (ZoneInfo Time)
  zone_infos ids names [] = []
  zone_infos ids names (z ∷ zs) =
      zone_info ids names z.zone.id (zone_tags z.zone.id) z.zone
      ++ sub_zone_infos ids names z.zone z.sub_zones
      ++ zone_infos ids names zs

  abbrev pub collector_of : List (ZoneInfo Time) → Result (Collector Time)
  collector_of [] = err "no running average power limit (RAPL) device found"
  collector_of (i ∷ is_) = ok (record { zones = i ∷ is_; init = true })

  -- `Init` on the excluded IDs and names and the zones that are found: nothing is done a second time
  unfoldable pub init :
      List Bytes → List Bytes → List (SysZone Time) → Collector Time → Result (Collector Time)
  init ids names zs m = if m.init then ok m else elim zs [
    | [] ↦ err "unable to find any zones"
    | z ∷ rest ↦ collector_of (m.zones ++ zone_infos ids names (z ∷ rest))
  ]

  -- the energy since the last reading, with the range added once if the counter went back
  unfoldable pub energy_diff : ZoneInfo Time → ℤ → ℤ
  energy_diff p energy =
      let diff = wrap half64 (energy -ℤ p.energy) in
      if ltb_ℤ diff (pos 0) then wrap half64 (diff +ℤ p.max_energy_range) else diff

abbrev pub meta : Table Bytes
meta =
    (codes "source", codes "RAPLCollector")
    ∷ (codes "group", codes "energy")
    ∷ (codes "unit", codes "Watt")
    ∷ []

-- What `Read` uses: the microseconds between two times, and the metric of a value.
pub record Metrics (F Time Msg : Type 0) : Type 0 where
  pub microseconds : Time → Time → ℤ
  pub new_metric : Bytes → Table Bytes → Table Bytes → F → Time → Option Msg

module _ {F G Time Msg : Type 0} (fl : Floats F G) (mt : Metrics F Time Msg) where
  -- the loop body of `Read`: the metrics sent, and the entry with the new reading; an unreadable
  -- counter leaves it as it is
  unfoldable pub read_zone : Option Bytes × Time → ZoneInfo Time → List Msg × ZoneInfo Time
  read_zone (file, now) p = elim (number_in file) [
    | none ↦ ([], p)
    | some energy ↦
        let power =
          fl.divide (fl.of_int (energy_diff p energy))
            (fl.of_int (mt.microseconds now p.energy_timestamp)) in
        let p' = record p { energy = energy; energy_timestamp = now } in
        (sent (mt.new_metric (codes "rapl_average_power") p.tags meta power now), p')
  ]

  -- the loop of `Read`, with what the files hold and the clock shows
  unfoldable pub read_all :
      (Bytes → Option Bytes × Time) → List (ZoneInfo Time) → List Msg × List (ZoneInfo Time)
  read_all files [] = ([], [])
  read_all files (p ∷ ps) =
      let (ms, p') = read_zone (files p.energy_filepath) p in
      let (rest, ps') = read_all files ps in (ms ++ rest, p' ∷ ps')

  -- `Read`
  unfoldable pub read : (Bytes → Option Bytes × Time) → Collector Time → List Msg × Collector Time
  read files m = let (msgs, zones) = read_all files m.zones in (msgs, record m { zones = zones })

-- `Close`
unfoldable pub close : {Time : Type 0} → Collector Time → Collector Time
close m = record m { init = false }
