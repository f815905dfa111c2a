-- ===== src/Rapl/Excluded.antt =====
-- The zones that `Init` keeps: none of the excluded ones, each with its counter read.
use cc_metric_collector.Prelude.{
  ◌≡◌, ◌≢◌, refl, Bool, true, false, not, ◌&&◌, ◌||◌, List, [], ◌∷◌, ◌++◌, All, All-append,
  Option-cases, Bool-cases, inl, inr,
}
use cc_metric_collector.Values.{Result, ok, err}
use cc_metric_collector.Topology.Parse.{trim_space}
use cc_metric_collector.Prelude.Bytes.{Bytes, equal, Table}
use cc_metric_collector.Rapl.{
  ZoneFiles, SysZone, ZoneInfo, is_excluded, number_in, zone_info, sub_zone_infos, zone_infos, init,
  name_of, Collector, collector_of, zone_tags, sub_zone_tags,
}

split_and : (a b : Bool) → (not a && b) ≡ true → a ≡ false
split_and true b h = cc
split_and false b h = refl

module _ {Time : Type 0} (ids names : List Bytes) where
  -- the ID of an entry is not excluded
  abbrev pub IsKept : ZoneInfo Time → Type 0
  IsKept i = is_excluded ids i.energy_filepath ≡ false

  zone_info-IsKept :
      (id : Bytes) (tags : Bytes → Table Bytes) (z : ZoneFiles Time)
      → All IsKept (zone_info ids names id tags z)
  unfolding zone_info
  zone_info-IsKept id tags z = elim (Option-cases z.name) [
    | inl h ↦ rw (h, zone_info) tt
    | inr (name, h) ↦ elim (Option-cases (number_in z.energy_uj)) [
      | inl k ↦ rw (h, zone_info) (rw k tt)
      | inr (energy, k) ↦ elim (Option-cases (number_in z.max_energy_range_uj)) [
        | inl l ↦ rw (h, zone_info) (rw k (rw l tt))
        | inr (range, l) ↦
            elim (Bool-cases
              (not (is_excluded ids id) && not (is_excluded names (trim_space name)))) [
                | inl b ↦ rw (h, zone_info) (rw k (rw l (rw b (split_and _ _ b, tt))))
                | inr b ↦ rw (h, zone_info) (rw k (rw l (rw b tt)))
              ]
      ]
    ]
  ]

  sub_zone_infos-IsKept :
      (z : ZoneFiles Time) (ss : List (ZoneFiles Time)) → All IsKept (sub_zone_infos ids names z ss)
  unfolding sub_zone_infos
  sub_zone_infos-IsKept z [] = tt
  sub_zone_infos-IsKept z (s ∷ ss) = elim (Bool-cases (equal z.id [] || equal (name_of z) [])) [
    | inl b ↦ rw b (sub_zone_infos-IsKept z ss)
    | inr b ↦
        let id = z.id ++ b':' ∷ s.id in
        let tags = sub_zone_tags id (name_of z) in
        rw b (
          All-append IsKept (zone_info ids names id tags s) (sub_zone_infos ids names z ss)
            (zone_info-IsKept id tags s) (sub_zone_infos-IsKept z ss))
  ]

  zone_infos-IsKept : (zs : List (SysZone Time)) → All IsKept (zone_infos ids names zs)
  unfolding zone_infos
  zone_infos-IsKept [] = tt
  zone_infos-IsKept (z ∷ zs) =
      let tags = zone_tags z.zone.id in
      let own = zone_info ids names z.zone.id tags z.zone in
      let subs = sub_zone_infos ids names z.zone z.sub_zones in
      All-append IsKept (own ++ subs) (zone_infos ids names zs)
        (All-append IsKept own subs (zone_info-IsKept z.zone.id tags z.zone)
          (sub_zone_infos-IsKept z.zone z.sub_zones))
        (zone_infos-IsKept zs)

  abbrev pub IsKeptOrError : Result (Collector Time) → Type 0
  IsKeptOrError (ok m) = All IsKept m.zones × (m.zones ≢ [])
  IsKeptOrError (err e) = Unit {0}

  collector_of-IsKept :
      (is_ : List (ZoneInfo Time)) → All IsKept is_ → IsKeptOrError (collector_of is_)
  collector_of-IsKept [] h = tt
  collector_of-IsKept (i ∷ is_) h = (h, λ n. cc)

  -- `Init` of a new RAPL collector returns an error, or at least one zone, and no zone or sub zone
  -- with an excluded ID.
  pub init-IsKept :
      (zs : List (SysZone Time))
      → IsKeptOrError (init ids names zs (record { zones = []; init = false }))
  unfolding init
  init-IsKept [] = tt
  init-IsKept (z ∷ zs) = collector_of-IsKept _ (zone_infos-IsKept (z ∷ zs))
