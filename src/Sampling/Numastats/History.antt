-- ===== src/Sampling/Numastats/History.antt =====
-- The rates of a NUMA domain of collectors/numastatsMetric.go over a sequence of readings: each is the
-- difference to the last value of its key, in the same file or an earlier one.
use cc_metric_collector.Prelude.{
  ◌≡◌, refl, ap, true, Option-cases, inl, inr, Option, none, some, List, [], ◌∷◌, ◌++◌,
  if◌then◌else◌,
}
use cc_metric_collector.Prelude.Int.{ℤ}
use cc_metric_collector.Prelude.Bytes.{Bytes, equal, fields, Table, find, put, find-put}
use cc_metric_collector.Sampling.{Calls}
use cc_metric_collector.Sampling.Numastats.{
  Config, Domain, new_domain, entry_of, value_messages, read_line, read_lines, read_domain,
}

-- the last value of a key in a list of keys and values, the newest first
unfoldable pub latest : Bytes → List (Bytes × ℤ) → Option ℤ
latest key [] = none
latest key ((name, value) ∷ older) =
    let rest = latest key older in if equal name key then some value else rest

-- the keys and values of the lines of a file, in front of the older ones
unfoldable pub add_entries : List Bytes → List (Bytes × ℤ) → List (Bytes × ℤ)
add_entries [] older = older
add_entries (line ∷ lines) older = elim (entry_of (fields line)) [
  | none ↦ add_entries lines older
  | some e ↦ add_entries lines (e ∷ older)
]

-- The previous values of a domain are the last ones of the entries read so far.
abbrev pub Remembers : Table ℤ → List (Bytes × ℤ) → Type 0
Remembers previous older = (key : Bytes) → find key previous ≡ latest key older

Remembers-put :
    (key : Bytes) (value : ℤ) (previous : Table ℤ) (older : List (Bytes × ℤ))
    → Remembers previous older
    → Remembers (put key value previous) ((key, value) ∷ older)
unfolding latest
Remembers-put key value previous older h other =
    rw (find-put key other value previous, h other) refl

-- a reading of a domain: the lines of its file, when it was read, and the seconds since the last
-- `Read`
pub record Reading (F Time : Type 0) : Type 0 where
  pub lines : Option (List Bytes)
  pub now : Time
  pub seconds : F

module _ {F Time Msg : Type 0} (calls : Calls F Time Msg) (config : Config) where
  -- the domain read again and again
  unfoldable pub read_series : List (Reading F Time) → Domain → List Msg
  read_series [] t = []
  read_series (r ∷ rs) t =
      let (msgs, t') = read_domain calls config r.now r.seconds r.lines t in
      msgs ++ read_series rs t'

  -- the messages of the lines of a file, from the entries before them
  unfoldable pub file_messages : Table Bytes → Time → F → List Bytes → List (Bytes × ℤ) → List Msg
  file_messages tags now seconds [] older = []
  file_messages tags now seconds (line ∷ lines) older = elim (entry_of (fields line)) [
    | none ↦ file_messages tags now seconds lines older
    | some (key, value) ↦
        value_messages calls config tags now seconds key value (latest key older)
        ++ file_messages tags now seconds lines ((key, value) ∷ older)
  ]

  -- the messages of a sequence of readings, from the entries before them
  unfoldable pub history_messages :
      Table Bytes → List (Reading F Time) → List (Bytes × ℤ) → List Msg
  history_messages tags [] older = []
  history_messages tags (r ∷ rs) older = elim r.lines [
    | none ↦ history_messages tags rs older
    | some lines ↦
        file_messages tags r.now r.seconds lines older
        ++ history_messages tags rs (add_entries lines older)
  ]

  read_lines-file :
      (tags : Table Bytes) (now : Time) (seconds : F) (lines : List Bytes) (previous : Table ℤ)
      (older : List (Bytes × ℤ))
      → config.send_derived_values ≡ true
      → Remembers previous older
      → ((read_lines calls config tags now seconds lines previous).0
          ≡ file_messages tags now seconds lines older)
        × Remembers
            (read_lines calls config tags now seconds lines previous).1
            (add_entries lines older)
  unfolding read_lines read_line file_messages add_entries
  read_lines-file tags now seconds [] previous older d h = (refl, h)
  read_lines-file tags now seconds (line ∷ lines) previous older d h =
      elim (Option-cases (entry_of (fields line))) [
        | inl e ↦
            rw (e, read_line, file_messages, add_entries)
              (read_lines-file tags now seconds lines previous older d h)
        | inr ((key, value), e) ↦
            let (same, kept) =
              read_lines-file tags now seconds lines (put key value previous) ((key, value) ∷ older)
                d (Remembers-put key value previous older h) in
            rw (e, read_line, file_messages, add_entries) (rw (d, h key) (ap (◌++◌ _) same, kept))
      ]

  series-history :
      (rs : List (Reading F Time)) (t : Domain) (older : List (Bytes × ℤ))
      → config.send_derived_values ≡ true
      → Remembers t.previous_values older
      → read_series rs t ≡ history_messages t.tag_set rs older
  unfolding read_series read_domain history_messages
  series-history [] t older d h = refl
  series-history (r ∷ rs) t older d h = elim (Option-cases r.lines) [
    | inl e ↦ rw (e, read_domain, history_messages) (series-history rs t older d h)
    | inr (lines, e) ↦
        let (same, kept) =
          read_lines-file t.tag_set r.now r.seconds lines t.previous_values older d h in
        let t' = (read_domain calls config r.now r.seconds (some lines) t).1 in
        rw (e, read_domain, history_messages)
          (rw (same, series-history rs t' (add_entries lines older) d kept) refl)
  ]

  -- If the rates are sent, the messages of a NUMA domain over any sequence of readings, also of those
  -- that cannot open the file, are those of its lines with a key and a number in their order: the rate
  -- of a value is its difference to the latest value of its key before it, in the same reading or in
  -- an earlier one, and there is none for the first value of a key.
  pub read_series-history :
      (rs : List (Reading F Time)) (dir : Bytes)
      → config.send_derived_values ≡ true
      → read_series rs (new_domain dir) ≡ history_messages (new_domain dir).tag_set rs []
  unfolding new_domain
  read_series-history rs dir d = series-history rs (new_domain dir) [] d remembers
    where
      remembers : Remembers [] []
      remembers key = unfold find latest in refl
