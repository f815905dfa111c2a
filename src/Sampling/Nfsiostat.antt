-- ===== src/Sampling/Nfsiostat.antt =====
-- collectors/nfsiostatMetric.go: the bytes that each NFS mount has read and written, and their rates.
-- The file and the matches of the two regular expressions are parameters. The maps are lists in the
-- order in which the loops take them. The JSON decoder is left out.
pub mod Maps
pub mod Mounts
use cc_metric_collector.Prelude.{
  ℕ, Bool, true, false, not, Option, none, some, List, [], ◌∷◌, ◌++◌, if◌then◌else◌,
}
use cc_metric_collector.Prelude.Int.{ℤ, pos, ◌-ℤ◌, wrap, half64}
use cc_metric_collector.Prelude.Bytes.{Bytes, codes, has_prefix, member, Table, find, put}
use cc_metric_collector.Prelude.ParseInt.{Parsed, parse_int, value_of}
use cc_metric_collector.Topology.Parse.{split}
use cc_metric_collector.Sampling.{Value, real, whole, Calls}

pub record Config : Type 0 where
  pub exclude_metrics : List Bytes
  pub exclude_filesystems : List Bytes
  pub use_server_address_as_stype : Bool
  pub send_absolute_values : Bool
  pub send_derived_values : Bool

pub record Collector (Time : Type 0) : Type 0 where
  pub config : Config
  pub stored : Table (Table ℤ)
  pub key : Bytes
  pub last_timestamp : Time
  pub init : Bool

-- A regular expression: the names of its groups, and the groups of its matches in a text.
pub record Regex : Type 0 where
  pub subexp_names : List Bytes
  pub find_all : Bytes → List (List Bytes)

-- `deviceRegex` and `bytesRegex`
pub record Regexes : Type 0 where
  pub device : Regex
  pub bytes : Regex

-- the named groups of a match
unfoldable pub set_groups : List Bytes → List Bytes → Table Bytes → Table Bytes
set_groups [] groups fields = fields
set_groups (name ∷ names) [] fields = fields
set_groups ([] ∷ names) (group ∷ groups) fields = set_groups names groups fields
set_groups ((c ∷ cs) ∷ names) (group ∷ groups) fields =
    set_groups names groups (put (c ∷ cs) group fields)

unfoldable pub set_matches : List Bytes → List (List Bytes) → Table Bytes → Table Bytes
set_matches names [] fields = fields
set_matches names (match ∷ matches) fields =
    set_matches names matches (set_groups names match fields)

-- `resolve_regex_fields`
unfoldable pub resolve_regex_fields : Bytes → Regex → Table Bytes
resolve_regex_fields s regex = set_matches regex.subexp_names (regex.find_all s) []

-- a value of a map, or the empty text
abbrev pub text_in : Bytes → Table Bytes → Bytes
text_in key table = elim (find key table) [ none ↦ [] | some v ↦ v ]

-- the version 3, where the device shows none
unfoldable pub with_version : Table Bytes → Table Bytes
with_version current = elim (text_in (codes "version") current) [
  | [] ↦ put (codes "version") (codes "3") current
  | c ∷ cs ↦ current
]

module _ (config : Config) where
  -- the numbers of a line of bytes
  unfoldable pub numbers : Table Bytes → Table ℤ
  numbers [] = []
  numbers ((name, sval) ∷ rest) =
      let others = numbers rest in
      if member name config.exclude_metrics
      then others
      else elim (value_of (parse_int false sval)) [
        | none ↦ others
        | some val ↦ (name, val) ∷ others
      ]

  -- the device of the lines that follow: an excluded one leaves that before it
  unfoldable pub current_of : Bytes → Table Bytes → Table Bytes → Table Bytes
  current_of key [] current = current
  current_of key (d ∷ ds) current =
      if member (text_in key (d ∷ ds)) config.exclude_filesystems
      then current
      else with_version (d ∷ ds)

  -- the numbers of a line for the device, if there is one and the line shows bytes
  unfoldable pub store_bytes :
      Bytes → Table Bytes → Table Bytes → Table (Table ℤ) → Table Bytes × Table (Table ℤ)
  store_bytes key [] bytes stored = ([], stored)
  store_bytes key (c ∷ cs) [] stored = (c ∷ cs, stored)
  store_bytes key (c ∷ cs) (b ∷ bs) stored =
      ([], put (text_in key (c ∷ cs)) (numbers (b ∷ bs)) stored)

  -- the loop over the lines, with the device and the values so far
  unfoldable pub read_lines :
      Regexes → Bytes → List Bytes → Table Bytes → Table (Table ℤ) → Table (Table ℤ)
  read_lines regexes key [] current stored = stored
  read_lines regexes key (l ∷ lines) current stored =
      let device = current_of key (resolve_regex_fields l regexes.device) current in
      let (current', stored') =
        store_bytes key device (resolve_regex_fields l regexes.bytes) stored in
      read_lines regexes key lines current' stored'

  -- `readNfsiostats`
  unfoldable pub read_nfsiostats : Regexes → Bytes → Option Bytes → Table (Table ℤ)
  read_nfsiostats regexes key none = []
  read_nfsiostats regexes key (some stats) = read_lines regexes key (split b'\n' stats) [] []

abbrev key_of : Config → Bytes
key_of config = if config.use_server_address_as_stype then codes "server" else codes "mntpoint"

-- `Init`, with the file and the clock
unfoldable pub init : {Time : Type 0} → Regexes → Config → Time → Option Bytes → Collector Time
init regexes config now file = record {
  config = config;
  stored = read_nfsiostats config regexes (key_of config) file;
  key = key_of config;
  last_timestamp = now;
  init = true;
}

abbrev pub meta : Table Bytes
meta =
    (codes "source", codes "NfsIOStatCollector")
    ∷ (codes "group", codes "NFS")
    ∷ (codes "unit", codes "bytes")
    ∷ []

-- a value of a map, or 0
abbrev pub value_in : Bytes → Table ℤ → ℤ
value_in name values = elim (find name values) [ none ↦ pos 0 | some v ↦ v ]

-- is there an entry?
abbrev pub has_key : {V : Type 0} → Bytes → Table V → Bool
has_key key table = elim (find key table) [ none ↦ false | some v ↦ true ]

-- the loop that deletes the entries of the mount points that are gone
unfoldable pub drop_missing : Table (Table ℤ) → Table (Table ℤ) → Table (Table ℤ)
drop_missing newdata [] = []
drop_missing newdata ((mntpoint, values) ∷ rest) =
    let others = drop_missing newdata rest in
    if has_key mntpoint newdata then (mntpoint, values) ∷ others else others

module _ {F Time Msg : Type 0} (calls : Calls F Time Msg) (config : Config) (now : Time)
    (seconds : F) where
  abbrev for_mount : Bytes → Option Msg → List Msg
  for_mount mntpoint none = []
  for_mount mntpoint (some msg) =
      calls.add_tag (codes "stype-id") mntpoint
        (calls.add_tag (codes "stype") (codes "filesystem") msg)
      ∷ []

  abbrev with_unit : Bytes → Option Msg → Option Msg
  with_unit name none = none
  with_unit name (some msg) = some (
      calls.add_meta (codes "unit")
        (if has_prefix (codes "page") name then codes "4K_pages/s" else codes "bytes/sec") msg)

  abbrev tags : Table Bytes
  tags = (codes "type", codes "node") ∷ []

  -- the messages of a value
  unfoldable pub send_value : Bytes → Bytes → ℤ → ℤ → List Msg
  send_value mntpoint name new old =
      (if config.send_absolute_values
        then for_mount mntpoint
            (calls.new_metric (codes "nfsio_" ++ name) tags meta (whole new) now)
        else [])
      ++ (if config.send_derived_values
          then for_mount mntpoint (
              with_unit name (
                calls.new_metric (codes "nfsio_" ++ name ++ codes "_bw") tags meta
                  (real (calls.divide (calls.of_int (wrap half64 (new -ℤ old))) seconds)) now))
          else [])

  -- the loop over the values of a mount point, with the old ones
  unfoldable pub send_values : Bytes → Table ℤ → Table ℤ → List Msg × Table ℤ
  send_values mntpoint [] old = ([], old)
  send_values mntpoint ((name, new) ∷ rest) old =
      let (msgs, last) = send_values mntpoint rest (put name new old) in
      (send_value mntpoint name new (value_in name old) ++ msgs, last)

  -- the loop body for a mount point
  unfoldable pub send_mount : Bytes → Table ℤ → Table (Table ℤ) → List Msg × Table (Table ℤ)
  send_mount mntpoint values stored = elim (find mntpoint stored) [
    | none ↦ ([], put mntpoint values stored)
    | some old ↦
        let (msgs, old') = send_values mntpoint values old in (msgs, put mntpoint old' stored)
  ]

  -- the loop over the mount points
  unfoldable pub send_mounts : Table (Table ℤ) → Table (Table ℤ) → List Msg × Table (Table ℤ)
  send_mounts [] stored = ([], stored)
  send_mounts ((mntpoint, values) ∷ rest) stored =
      let (msgs, stored') = send_mount mntpoint values stored in
      let (others, last) = send_mounts rest stored' in (msgs ++ others, last)

-- `Read`
unfoldable pub read :
    {F Time Msg : Type 0}
    → Calls F Time Msg
    → Regexes
    → Time
    → Option Bytes
    → Collector Time
    → List Msg × Collector Time
read calls regexes now file m =
    let newdata = read_nfsiostats m.config regexes m.key file in
    let (msgs, stored) =
      send_mounts calls m.config now (calls.seconds now m.last_timestamp) newdata m.stored in
    (msgs, record m { stored = drop_missing newdata stored; last_timestamp = now })

-- `Close`
unfoldable pub close : {Time : Type 0} → Collector Time → Collector Time
close m = record m { init = false }
