-- ===== src/Sampling/Lustre/Growth.antt =====
-- The differences that collectors/lustreMetric.go sends for a counter over a sequence of readings.
use cc_metric_collector.Prelude.{
  ℕ, ◌+◌, ◌-◌, ◌≤◌, ◌<◌, ◌≡◌, refl, false, Option, none, some, List, [], ◌∷◌, ◌++◌, arith,
}
use cc_metric_collector.Prelude.Int.{ℤ, pos, ◌-ℤ◌, ltb_ℤ, wrap, half64, wrap_of_InRange}
use cc_metric_collector.Prelude.Bytes.{Bytes, Table, find, put, find-put_self}
use cc_metric_collector.Prelude.Run.{Run, done, ◌>>=◌}
use cc_metric_collector.Sampling.{whole, Calls}
use cc_metric_collector.Sampling.Lustre.{
  Definition, difference, get_metric_data, value_for, last_of, or_last, read_definition, labelled,
  tags, meta,
}

-- a reading of a counter: the output of lctl, the seconds, the time, and the counter if it is shown
pub record Sample (F Time : Type 0) : Type 0 where
  pub lines : List Bytes
  pub seconds : F
  pub now : Time
  pub count : Option ℕ

abbrev as_int : Option ℕ → Option ℤ
as_int none = none
as_int (some n) = some (pos n)

abbrev pub next : ℕ → Option ℕ → ℕ
next last none = last
next last (some n) = n

-- The output shows the counter, or it has no number for it, and the counter does not decrease from
-- `last` on and fits int64.
abbrev pub Grows : {F Time : Type 0} → Definition → ℕ → List (Sample F Time) → Type 0
Grows d last [] = Unit {0}
Grows d last (s ∷ ss) =
    (get_metric_data s.lines d.lineprefix d.lineoffset ≡ done (as_int s.count))
    × (last ≤ next last s.count)
    × (next last s.count < half64)
    × Grows d (next last s.count) ss

-- the growth with each reading, and the counter at the end
abbrev pub growths : {F Time : Type 0} → ℕ → List (Sample F Time) → List ℕ
growths last [] = []
growths last (s ∷ ss) = (next last s.count - last) ∷ growths (next last s.count) ss

abbrev pub final : {F Time : Type 0} → ℕ → List (Sample F Time) → ℕ
final last [] = last
final last (s ∷ ss) = final (next last s.count) ss

abbrev pub total : List ℕ → ℕ
total [] = 0
total (n ∷ ns) = n + total ns

total-growths :
    {F Time : Type 0} (d : Definition) (last : ℕ) (ss : List (Sample F Time))
    → Grows d last ss
    → last + total (growths last ss) ≡ final last ss
total-growths d last [] g = omega arith
total-growths d last (s ∷ ss) (shown, up, fits, rest) =
    let ih = total-growths d (next last s.count) ss rest in omega (arith, ih, up)

exact : (a b : ℕ) → b ≤ a → a < half64 → wrap half64 (pos a -ℤ pos b) ≡ pos (a - b)
exact a b h k =
    let difference_ : pos a -ℤ pos b ≡ pos (a - b) = unfold ◌-ℤ◌ in ground (arith, h) in
    rw difference_ (wrap_of_InRange half64 (pos (a - b)) (omega (arith, k)))

last_of_found :
    (name : Bytes) (values : Table ℤ) {v : ℤ} → find name values ≡ some v → last_of name values ≡ v
last_of_found name values f = rw (f, last_of) refl

not_negative : (n : ℕ) → ltb_ℤ (pos n) (pos 0) ≡ false
not_negative n = ground arith

module _ {F Time Msg : Type 0} (calls : Calls F Time Msg) (device : Bytes) (d : Definition) where
  -- one definition of a device read again and again
  unfoldable pub read_series : List (Sample F Time) → Table ℤ → Run (List Msg)
  read_series [] values = done []
  read_series (s ∷ ss) values = do
    (msgs, values') ← read_definition calls device s.lines s.seconds s.now d values
    rest ← read_series ss values'
    done (msgs ++ rest)

  -- one message for each reading, of the growth since the last value
  unfoldable pub growth_messages : ℕ → List (Sample F Time) → List Msg
  growth_messages last [] = []
  growth_messages last (s ∷ ss) =
      labelled calls device d.unit
        (calls.new_metric d.name tags meta (whole (pos (next last s.count - last))) s.now)
      ++ growth_messages (next last s.count) ss

  value_for-growth :
      (seconds : F) (a b : ℕ)
      → b ≤ a
      → a < half64
      → value_for calls difference seconds (pos a) (pos b) ≡ whole (pos (a - b))
  unfolding value_for
  value_for-growth seconds a b h k = rw (exact a b h k, not_negative (a - b)) refl

  or_last-next :
      (last : ℕ) (count : Option ℕ) → or_last (as_int count) (pos last) ≡ pos (next last count)
  or_last-next last none = refl
  or_last-next last (some n) = refl

  read_definition-growth :
      (s : Sample F Time) (last : ℕ) (values : Table ℤ)
      → d.calc ≡ difference
      → find d.name values ≡ some (pos last)
      → get_metric_data s.lines d.lineprefix d.lineoffset ≡ done (as_int s.count)
      → last ≤ next last s.count
      → next last s.count < half64
      → read_definition calls device s.lines s.seconds s.now d values
        ≡ done (
          labelled calls device d.unit
              (calls.new_metric d.name tags meta (whole (pos (next last s.count - last))) s.now),
          put d.name (pos (next last s.count)) values,
        )
  unfolding read_definition
  read_definition-growth s last values c f shown up fits = rw shown (
      rw
        (
          last_of_found d.name values f,
          c,
          or_last-next last s.count,
          value_for-growth s.seconds (next last s.count) last up fits,
        )
        refl)

  read_series-growth_messages :
      (ss : List (Sample F Time)) (last : ℕ) (values : Table ℤ)
      → d.calc ≡ difference
      → find d.name values ≡ some (pos last)
      → Grows d last ss
      → read_series ss values ≡ done (growth_messages last ss)
  unfolding read_series growth_messages
  read_series-growth_messages [] last values c f g = refl
  read_series-growth_messages (s ∷ ss) last values c f (shown, up, fits, rest) =
      let n = next last s.count in
      rw
        (
          read_definition-growth s last values c f shown up fits,
          read_series-growth_messages ss n (put d.name (pos n) values) c
              (find-put_self d.name (pos n) values) rest,
        )
        refl

  -- For a definition of a difference, if each reading shows a counter that never decreases and fits
  -- int64, or shows no number, the readings finish. Each of them sends the difference of its counter to
  -- the last one that was shown, or 0 if it shows no number, unless cc-lib makes no message of it, and
  -- the differences add up to the growth of the counter from the last value before the readings.
  pub read_series-growth :
      (ss : List (Sample F Time)) (last : ℕ) (values : Table ℤ)
      → d.calc ≡ difference
      → find d.name values ≡ some (pos last)
      → Grows d last ss
      → (read_series ss values ≡ done (growth_messages last ss))
        × (last + total (growths last ss) ≡ final last ss)
  read_series-growth ss last values c f g =
      (read_series-growth_messages ss last values c f g, total-growths d last ss g)
