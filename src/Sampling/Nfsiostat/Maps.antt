-- ===== src/Sampling/Nfsiostat/Maps.antt =====
-- The maps that collectors/nfsiostatMetric.go reads from a file have no key twice.
use cc_metric_collector.Prelude.{
  ◌≡◌, refl, ◌∙◌, false, Bool-cases, Option-cases, inl, inr, Option, none, some, List, [], ◌∷◌,
  arith,
}
use cc_metric_collector.Prelude.Int.{ℤ}
use cc_metric_collector.Prelude.Bytes.{
  Bytes, equal, equal_iff, member, Table, find, put, find-put, AllValues, AllValues-put,
}
use cc_metric_collector.Prelude.ParseInt.{parse_int, value_of}
use cc_metric_collector.Topology.Parse.{split}
use cc_metric_collector.Sampling.Nfsiostat.{
  Config, Regex, Regexes, set_groups, set_matches, resolve_regex_fields, numbers, current_of,
  store_bytes, read_lines, read_nfsiostats,
}

-- No key of a map is there twice.
abbrev pub IsMap : {V : Type 0} → Table V → Type 0
IsMap [] = Unit {0}
IsMap ((name, v) ∷ rest) = (find name rest ≡ none) × IsMap rest

put-IsMap :
    {V : Type 0} (key : Bytes) (value : V) (table : Table V)
    → IsMap table
    → IsMap (put key value table)
unfolding put find
put-IsMap key value [] h = (refl, tt)
put-IsMap key value ((name, old) ∷ rest) (fresh, h) = elim (Bool-cases (equal name key)) [
  | inl e ↦ let same : name ≡ key = (equal_iff name key).0 e in rw e (rw (← same) fresh, h)
  | inr e ↦
      let other : equal key name ≡ false =
        ground (arith, equal_iff name key, equal_iff key name, e) in
      rw e (find-put key name value rest ∙ rw other fresh, put-IsMap key value rest h)
]

set_groups-IsMap :
    (names groups : List Bytes) (fields : Table Bytes)
    → IsMap fields
    → IsMap (set_groups names groups fields)
unfolding set_groups
set_groups-IsMap [] groups fields h = h
set_groups-IsMap (name ∷ names) [] fields h = h
set_groups-IsMap ([] ∷ names) (group ∷ groups) fields h = set_groups-IsMap names groups fields h
set_groups-IsMap ((c ∷ cs) ∷ names) (group ∷ groups) fields h =
    set_groups-IsMap names groups _ (put-IsMap (c ∷ cs) group fields h)

set_matches-IsMap :
    (names : List Bytes) (matches : List (List Bytes)) (fields : Table Bytes)
    → IsMap fields
    → IsMap (set_matches names matches fields)
unfolding set_matches
set_matches-IsMap names [] fields h = h
set_matches-IsMap names (m ∷ matches) fields h =
    set_matches-IsMap names matches _ (set_groups-IsMap names m fields h)

resolve-IsMap : (s : Bytes) (regex : Regex) → IsMap (resolve_regex_fields s regex)
unfolding resolve_regex_fields
resolve-IsMap s regex = set_matches-IsMap regex.subexp_names (regex.find_all s) [] tt

module _ (config : Config) where
  numbers-none :
      (name : Bytes) (entries : Table Bytes)
      → find name entries ≡ none
      → find name (numbers config entries) ≡ none
  unfolding numbers find
  numbers-none name [] h = refl
  numbers-none name ((other, sval) ∷ rest) h = elim (Bool-cases (equal other name)) [
    | inl e ↦ ground (arith, h, e)
    | inr e ↦
        let ih = numbers-none name rest (rw e at h) in
        elim (Bool-cases (member other config.exclude_metrics)) [
          | inl x ↦ rw x ih
          | inr x ↦ elim (Option-cases (value_of (parse_int false sval))) [
            | inl n ↦ rw (x, n) ih
            | inr (v, n) ↦ rw (x, n) (rw e ih)
          ]
        ]
  ]

  numbers-IsMap : (entries : Table Bytes) → IsMap entries → IsMap (numbers config entries)
  unfolding numbers
  numbers-IsMap [] h = tt
  numbers-IsMap ((name, sval) ∷ rest) (fresh, h) =
      let ih = numbers-IsMap rest h in
      elim (Bool-cases (member name config.exclude_metrics)) [
        | inl x ↦ rw x ih
        | inr x ↦ elim (Option-cases (value_of (parse_int false sval))) [
          | inl n ↦ rw (x, n) ih
          | inr (v, n) ↦ rw (x, n) (numbers-none name rest fresh, ih)
        ]
      ]

  -- the values of mount points that are read
  abbrev pub AreMaps : Table (Table ℤ) → Type 0
  AreMaps stored = IsMap stored × AllValues IsMap stored

  store_bytes-AreMaps :
      (key : Bytes) (device bytes : Table Bytes) (stored : Table (Table ℤ))
      → IsMap bytes
      → AreMaps stored
      → AreMaps (store_bytes config key device bytes stored).1
  unfolding store_bytes
  store_bytes-AreMaps key [] bytes stored b h = h
  store_bytes-AreMaps key (c ∷ cs) [] stored b h = h
  store_bytes-AreMaps key (c ∷ cs) (b ∷ bs) stored m h =
      (put-IsMap _ _ stored h.0, AllValues-put IsMap _ _ stored (numbers-IsMap (b ∷ bs) m) h.1)

  read_lines-AreMaps :
      (regexes : Regexes) (key : Bytes) (lines : List Bytes) (current : Table Bytes)
      (stored : Table (Table ℤ))
      → AreMaps stored
      → AreMaps (read_lines config regexes key lines current stored)
  unfolding read_lines
  read_lines-AreMaps regexes key [] current stored h = h
  read_lines-AreMaps regexes key (l ∷ lines) current stored h =
      read_lines-AreMaps regexes key lines _ _ (
        store_bytes-AreMaps key
          (current_of config key (resolve_regex_fields l regexes.device) current)
          (resolve_regex_fields l regexes.bytes) stored (resolve-IsMap l regexes.bytes) h)

  pub read_nfsiostats-AreMaps :
      (regexes : Regexes) (key : Bytes) (file : Option Bytes)
      → AreMaps (read_nfsiostats config regexes key file)
  unfolding read_nfsiostats
  read_nfsiostats-AreMaps regexes key none = (tt, tt)
  read_nfsiostats-AreMaps regexes key (some stats) =
      read_lines-AreMaps regexes key (split b'\n' stats) [] [] (tt, tt)
