-- ===== src/Sampling/Diskstat/Usage.antt =====
-- The highest percentage that collectors/diskstatMetric.go sends.
use native.Mathlib.Nat.{
  mod-lt, mod-eq_of_lt, mod-eq-sub-mod, div-mul-le_self, le-div_iff_mul-le, div-le_of_le-mul,
  mul-le-mul_right,
}
use mathlib.Core.Option.{some-injective}
use cc_metric_collector.Prelude.{
  ℕ, ◌+◌, ◌-◌, ◌*◌, ◌/◌, ◌%◌, ◌≤◌, ◌<◌, ◌≡◌, refl, ◌∙◌, ap, sym, ◌||◌, Bool-cases, Option-cases,
  inl, inr, Option, none, some, List, [], ◌∷◌, Elem, arith, ◌==◌,
}
use cc_metric_collector.Prelude.Int.{ℤ, pattern_of, half64}
use cc_metric_collector.Prelude.Bytes.{Bytes}
use cc_metric_collector.Prelude.Run.{
  Partly-self, done-injective, done, Partly, Partly-bind, Partly-value,
}
use cc_metric_collector.Sampling.{Calls}
use cc_metric_collector.Sampling.Diskstat.{
  Statfs, Collector, gigabytes, percentage, used_of, higher, mount_of, stat_of, word, read_mount,
  read_line, read_lines,
}

-- The free blocks are some of the blocks, and the size fits 64 bits.
abbrev pub IsSane : Statfs → Type 0
IsSane stat = (stat.bfree ≤ stat.blocks) × (stat.blocks * pattern_of half64 stat.bsize < word)

gigabytes_exact :
    (n : ℕ) (bsize : ℤ)
    → n * pattern_of half64 bsize < word
    → gigabytes n bsize ≡ n * pattern_of half64 bsize / 1000000000
unfolding gigabytes
gigabytes_exact n bsize h = ap (λ k. k / 1000000000) (mod-eq_of_lt h)

-- a hundred times a size in units of 10 ^ 9 bytes fits 64 bits
gigabytes_small : (n : ℕ) (bsize : ℤ) → 100 * gigabytes n bsize < word
unfolding gigabytes
gigabytes_small n bsize =
    let bytes = n * pattern_of half64 bsize % word in
    let less : bytes < word = mod-lt (n * pattern_of half64 bsize) (omega arith) in
    let whole : bytes / 1000000000 * 1000000000 ≤ bytes = div-mul-le_self bytes 1000000000 in
    omega (arith, less, whole)

gigabytes_mono :
    (free blocks : ℕ) (bsize : ℤ)
    → free ≤ blocks
    → blocks * pattern_of half64 bsize < word
    → gigabytes free bsize ≤ gigabytes blocks bsize
gigabytes_mono free blocks bsize h k =
    let p = pattern_of half64 bsize in
    let below : free * p ≤ blocks * p = mul-le-mul_right p h in
    let less : free * p < word = omega (arith, below, k) in
    let whole : free * p / 1000000000 * 1000000000 ≤ free * p =
      div-mul-le_self (free * p) 1000000000 in
    rw (gigabytes_exact free bsize less, gigabytes_exact blocks bsize k)
      ((le-div_iff_mul-le {k = 1000000000} (omega arith)).1 (omega (arith, below, whole)))

difference_exact :
    (total free : ℕ) → free ≤ total → total < word → (total + word - free) % word ≡ total - free
difference_exact total free h k =
    mod-eq-sub-mod (omega (arith, h))
    ∙ ap (λ n. n % word) (omega (arith, h))
    ∙ mod-eq_of_lt (omega (arith, h, k))

percentage_bound :
    (total free : ℕ) → free ≤ total → 100 * total < word → percentage total free ≤ 100
unfolding percentage
percentage_bound total free h k =
    rw
      (
        difference_exact total free h (omega (arith, k)),
        mod-eq_of_lt {n = 100 * (total - free)} {m = word} (omega (arith, h, k)),
      )
      (div-le_of_le-mul total (omega (arith, h)))

used_of-bound : (stat : Statfs) (u : ℕ) → IsSane stat → used_of stat ≡ some u → u ≤ 100
unfolding used_of
used_of-bound stat u (free, fits) e = elim (Bool-cases (gigabytes stat.blocks stat.bsize == 0)) [
  | inl z ↦ let no : none ≡ some u = rw z at e in cc
  | inr z ↦
      let same : percentage (gigabytes stat.blocks stat.bsize) (gigabytes stat.bfree stat.bsize)
          ≡ u =
        some-injective _ _ (rw z at e) in
      rw (← same) (
        percentage_bound _ _ (gigabytes_mono stat.bfree stat.blocks stat.bsize free fits)
          (gigabytes_small stat.blocks stat.bsize))
]

higher-bounds :
    (o : Option ℕ) (most : ℕ)
    → ((u : ℕ) → o ≡ some u → u ≤ 100)
    → most ≤ 100
    → (most ≤ higher o most) × (higher o most ≤ 100) × ((u : ℕ) → o ≡ some u → u ≤ higher o most)
higher-bounds none most b h = (omega arith, h, λ u e. cc)
higher-bounds (some p) most b h =
    let small = b p refl in
    (
      ground arith,
      ground (arith, small, h),
      λ u e. let same : p ≡ u = some-injective _ _ e in ground (arith, same),
    )

module _ {F Time Msg : Type 0} (calls : Calls F Time Msg) (statfs : Bytes → Option Statfs)
    (m : Collector) (now : Time) where
  -- The line is of a mounted file system of the percentage.
  abbrev pub Uses : Bytes → ℕ → Type 0
  Uses line u =
      (device : Bytes) × (path : Bytes) × (stat : Statfs) × (mount_of m.config line
        ≡ done (some (device, path)))
      × (stat_of statfs path ≡ some stat)
      × (used_of stat ≡ some u)

  -- at most 100, at least what it was before and at least the percentage of the line
  abbrev Raises : Bytes → ℕ → List Msg × ℕ → Type 0
  Raises line most r = (most ≤ r.1) × (r.1 ≤ 100) × ((u : ℕ) → Uses line u → u ≤ r.1)

  stat_of-statfs :
      (path : Bytes) (stat : Statfs) → stat_of statfs path ≡ some stat → statfs path ≡ some stat
  unfolding stat_of
  stat_of-statfs path stat e = elim (Option-cases (statfs path)) [
    | inl n ↦ let no : none ≡ some stat = rw (n, stat_of) at e in cc
    | inr (found, n) ↦ elim (Bool-cases (found.blocks == 0 || pattern_of half64 found.bsize == 0)) [
      | inl z ↦ let no : none ≡ some stat = rw z at (rw (n, stat_of) at e) in cc
      | inr z ↦ let same : some found ≡ some stat = rw z at (rw (n, stat_of) at e) in n ∙ same
    ]
  ]

  Uses-none : (line : Bytes) (u : ℕ) → mount_of m.config line ≡ done none → ¬ Uses line u
  Uses-none line u e (device, path, stat, at_, _, _) =
      let no : ◌≡◌ {A = Option (Bytes × Bytes)} none (some (device, path)) =
        done-injective none (some (device, path)) (sym e ∙ at_) in
      cc

  abbrev stat_at : Option (Bytes × Bytes) → Option Statfs
  stat_at none = none
  stat_at (some (device, path)) = stat_of statfs path

  same_stat :
      (line device path d p : Bytes)
      → mount_of m.config line ≡ done (some (device, path))
      → mount_of m.config line ≡ done (some (d, p))
      → stat_of statfs path ≡ stat_of statfs p
  same_stat line device path d p e k =
      ap stat_at (done-injective (some (device, path)) (some (d, p)) (sym e ∙ k))

  read_mount-Raises :
      (line : Bytes) (mount : Option (Bytes × Bytes)) (most : ℕ)
      → ((path : Bytes) (stat : Statfs) → statfs path ≡ some stat → IsSane stat)
      → most ≤ 100
      → mount_of m.config line ≡ done mount
      → Raises line most (read_mount calls statfs m now mount most)
  unfolding read_mount
  read_mount-Raises line none most sane h e =
      (omega arith, h, λ u uses. absurd (Uses-none line u e uses))
  read_mount-Raises line (some (device, path)) most sane h e =
      elim (Option-cases (stat_of statfs path)) [
        | inl n ↦
            rw (n, read_mount)
              (
                omega arith,
                h,
                λ u (d, p, stat, at_, found, _).
                    let no : none ≡ some stat =
                      sym n ∙ same_stat line device path d p e at_ ∙ found in
                    cc,
              )
        | inr (stat, n) ↦
            let (up, low, seen) =
              higher-bounds (used_of stat) most
                (λ u k. used_of-bound stat u (sane path stat (stat_of-statfs path stat n)) k) h in
            rw (n, read_mount)
              (
                up,
                low,
                λ u (d, p, other, at_, found, k).
                    let same : stat ≡ other =
                      some-injective _ _ (sym n ∙ same_stat line device path d p e at_ ∙ found) in
                    seen u (ap used_of same ∙ k),
              )
      ]

  read_line-Raises :
      (line : Bytes) (most : ℕ)
      → ((path : Bytes) (stat : Statfs) → statfs path ≡ some stat → IsSane stat)
      → most ≤ 100
      → Partly (Raises line most) (read_line calls statfs m now line most)
  unfolding read_line
  read_line-Raises line most sane h =
      Partly-bind (λ mount. mount_of m.config line ≡ done mount) (Raises line most) _ _
        (Partly-self (mount_of m.config line))
        (λ mount e. read_mount-Raises line mount most sane h e)

  -- at most 100, at least what it was before and at least the percentage of each line
  abbrev pub RaisesAll : List Bytes → ℕ → List Msg × ℕ → Type 0
  RaisesAll lines most r =
      (most ≤ r.1)
      × (r.1 ≤ 100)
      × ((line : Bytes) (u : ℕ) → Elem line lines → Uses line u → u ≤ r.1)

  read_lines-RaisesAll :
      (lines : List Bytes) (most : ℕ)
      → ((path : Bytes) (stat : Statfs) → statfs path ≡ some stat → IsSane stat)
      → most ≤ 100
      → Partly (RaisesAll lines most) (read_lines calls statfs m now lines most)
  unfolding read_lines
  read_lines-RaisesAll [] most sane h = (omega arith, h, λ line u e. absurd e)
  read_lines-RaisesAll (line ∷ lines) most sane h =
      Partly-bind (Raises line most) (RaisesAll (line ∷ lines) most) _ _
        (read_line-Raises line most sane h)
        (λ a (up, low, seen).
          Partly-bind (RaisesAll lines a.1) (RaisesAll (line ∷ lines) most) _ _
            (read_lines-RaisesAll lines a.1 sane low)
            (λ b (up', low', seen'). (
              omega (arith, up, up'),
              low',
              λ other u e uses. elim e [
                | inl same ↦
                    let mine : Uses line u = rw same at uses in omega (arith, seen u mine, up')
                | inr later ↦ seen' other u later uses
              ],
            )))

  -- If the free blocks of each file system are some of its blocks and its size fits 64 bits, the
  -- percentage with which the loop over the mounts ends is at most 100 and not below that of any file
  -- system with a size of 10 ^ 9 bytes or more on a line that is not passed over.
  pub read_lines-most :
      (lines : List Bytes) (msgs : List Msg) (most : ℕ)
      → ((path : Bytes) (stat : Statfs) → statfs path ≡ some stat → IsSane stat)
      → read_lines calls statfs m now lines 0 ≡ done (msgs, most)
      → (most ≤ 100) × ((line : Bytes) (u : ℕ) → Elem line lines → Uses line u → u ≤ most)
  read_lines-most lines msgs most sane e =
      let (_, low, seen) =
        Partly-value (RaisesAll lines 0) (read_lines calls statfs m now lines 0)
          (read_lines-RaisesAll lines 0 sane (omega arith)) e in
      (low, seen)
