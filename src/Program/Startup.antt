-- ===== src/Program/Startup.antt =====
-- What holds when the program runs, and when it panics instead.
use text.Mathlib.Text.{◌==◌ as str_eq}
use text.Mathlib.TextEquality.{eq_iff}
use cc_metric_collector.Prelude.{
  arith, ◌≡◌, ◌≢◌, ◌↔◌, sym, refl, ◌⊎◌, inl, inr, Bool, true, false, not, ◌||◌, String, some, List,
  [], ◌∷◌, All, Elem, Bool-cases, Option-cases, ◌∙◌,
}
use cc_metric_collector.Prelude.Int.{ℤ, pos, leb_ℤ, ltb_ℤ, eqb_ℤ_iff}
use cc_metric_collector.Values.{Result, ok}
use cc_metric_collector.Program.{
  value_or_zero, CentralConfigFile, Sections, Part, router_part, sink_part, collector_part,
  receiver_part, System, Outcome, exits, panics, runs, read_duration, system, with_receivers,
  make_parts, main_func, shutdown_handler,
}

-- the first part stands somewhere before the second
abbrev pub Before : Part → Part → List Part → Type 0
Before p q [] = ⊥
Before p q (x ∷ xs) = ((x ≡ p) × Elem q xs) ⊎ Before p q xs

-- No part is closed before one that sends to it: the channels of a system with receivers and of
-- one without.
pub IsClosedInOrder : Bool → System → Type 0
IsClosedInOrder has_receivers s =
    All (λ c. Before c.0 c.1 (shutdown_handler has_receivers)) s.channels

-- A running program has a positive interval that the duration does not exceed, and its shutdown
-- closes every part after those that send to it.
abbrev pub IsRunning : Bool → Outcome → Type 0
IsRunning r exits = Unit {0}
IsRunning r panics = Unit {0}
IsRunning r (runs s) =
    (leb_ℤ s.interval (pos 0) ≡ false) × (ltb_ℤ s.interval s.duration ≡ false) × IsClosedInOrder r s

-- the two systems, at any times
system-IsClosedInOrder : (i d : ℤ) → IsClosedInOrder false (system i d)
unfolding shutdown_handler IsClosedInOrder
system-IsClosedInOrder i d = (inr (inr (inl (refl, inl refl))), (inr (inl (refl, inl refl)), tt))

with_receivers-IsClosedInOrder : (i d : ℤ) → IsClosedInOrder true (with_receivers (system i d))
unfolding shutdown_handler IsClosedInOrder
with_receivers-IsClosedInOrder i d = (
  inr (inr (inr (inl (refl, inl refl)))),
  (inr (inl (refl, inr (inl refl))), (inr (inr (inl (refl, inl refl))), tt)),
)

-- the last check of `mainFunc` before the parts are made
abbrev pub refused : Sections → ℤ → ℤ → Bool
refused sections i d =
    ltb_ℤ i d
    || str_eq sections.router ""
    || str_eq sections.sinks ""
    || str_eq sections.collectors ""

-- the configuration passes the checks of `mainFunc`, with these durations
record Passes (parse : String → Result ℤ) (config : CentralConfigFile) (sections : Sections)
    (i d : ℤ) : Type 0 where
  pub interval : read_duration parse config.interval ≡ some i
  pub duration : read_duration parse config.duration ≡ some d
  pub ordered : refused sections i d ≡ false

or_false : (a b : Bool) → (a || b) ≡ false → a ≡ false
or_false true b h = h
or_false false b h = refl

-- What a text of the configuration sets: 0 if it is empty, and else the duration that it parses to,
-- which is not 0.
abbrev pub Sets : (String → Result ℤ) → String → ℤ → Type 0
Sets parse s t = ((s ≡ "") × (t ≡ pos 0)) ⊎ ((s ≢ "") × (parse s ≡ ok t) × (t ≢ pos 0))

read_duration-Sets :
    (parse : String → Result ℤ) (s : String) (t : ℤ)
    → (read_duration parse s ≡ some t) ↔ Sets parse s t
unfolding read_duration value_or_zero
read_duration-Sets parse s t = ground (arith, eq_iff s "", eqb_ℤ_iff t (pos 0))

-- the sections that the program needs are there
abbrev pub HasSections : Sections → Type 0
HasSections sections = (sections.router ≢ "") × (sections.sinks ≢ "") × (sections.collectors ≢ "")

refused-HasSections :
    (sections : Sections) (i d : ℤ)
    → (refused sections i d ≡ false) ↔ ((ltb_ℤ i d ≡ false) × HasSections sections)
refused-HasSections sections i d =
    ground
      (arith, eq_iff sections.router "", eq_iff sections.sinks "", eq_iff sections.collectors "")

module _ (makes : Part → Bool) where
  -- with the parts of the router, the sinks and the collectors made
  make_parts-IsRunning :
      (sections : Sections) (i d : ℤ)
      → ltb_ℤ i d ≡ false
      → IsRunning (not (str_eq sections.receivers "")) (make_parts makes sections i d)
  unfolding make_parts
  make_parts-IsRunning sections i d h = elim (Bool-cases (leb_ℤ i (pos 0))) [
    | inl a ↦ rw a tt
    | inr a ↦ elim (Bool-cases (makes router_part)) [
      | inr b ↦ rw (a, b) tt
      | inl b ↦ elim (Bool-cases (makes sink_part)) [
        | inr c ↦ rw (a, b, c) tt
        | inl c ↦ elim (Bool-cases (makes collector_part)) [
          | inr e ↦ rw (a, b, c, e) tt
          | inl e ↦ elim (Bool-cases (str_eq sections.receivers "")) [
            | inl f ↦ rw (a, b, c, e, f) (a, h, system-IsClosedInOrder i d)
            | inr f ↦ elim (Bool-cases (makes receiver_part)) [
              | inl g ↦ rw (a, b, c, e, f, g) (a, h, with_receivers-IsClosedInOrder i d)
              | inr g ↦ rw (a, b, c, e, f, g) tt
            ]
          ]
        ]
      ]
    ]
  ]

  main_func_passed :
      (parse : String → Result ℤ) (config : CentralConfigFile) (sections : Sections) (i d : ℤ)
      → Passes parse config sections i d
      → main_func makes parse config sections ≡ make_parts makes sections i d
  unfolding main_func
  main_func_passed parse config sections i d p =
      rw (p.interval, main_func) (rw p.duration (rw p.ordered refl))

  -- If the program runs, its interval is positive, the duration does not exceed it, and the
  -- shutdown closes every part after all those that send to it.
  pub main_func-IsRunning :
      (parse : String → Result ℤ) (config : CentralConfigFile) (sections : Sections)
      → IsRunning (not (str_eq sections.receivers "")) (main_func makes parse config sections)
  unfolding main_func
  main_func-IsRunning parse config sections =
      elim (Option-cases (read_duration parse config.interval)) [
        | inl h ↦ rw (h, main_func) tt
        | inr (i, h) ↦ elim (Option-cases (read_duration parse config.duration)) [
          | inl k ↦ rw (h, main_func) (rw k tt)
          | inr (d, k) ↦ elim (Bool-cases (refused sections i d)) [
            | inl b ↦ rw (h, main_func) (rw k (rw b tt))
            | inr b ↦
                rw
                  (main_func_passed parse config sections i d
                    (record { interval = h; duration = k; ordered = b }))
                  (make_parts-IsRunning sections i d (or_false _ _ (or_false _ _ (or_false _ _ b))))
          ]
        ]
      ]

  make_parts-panics :
      (sections : Sections) (i d : ℤ)
      → (make_parts makes sections i d ≡ panics) ↔ (leb_ℤ i (pos 0) ≡ true)
  unfolding make_parts
  make_parts-panics sections i d = ground arith

  -- the conditions of a panic
  abbrev PanicsWith : (String → Result ℤ) → CentralConfigFile → Sections → Type 0
  PanicsWith parse config sections =
      (i : ℤ) × (d : ℤ) × Sets parse config.interval i
      × Sets parse config.duration d
      × (ltb_ℤ i d ≡ false)
      × (leb_ℤ i (pos 0) ≡ true)
      × HasSections sections

  main_func-PanicsWith :
      (parse : String → Result ℤ) (config : CentralConfigFile) (sections : Sections)
      → main_func makes parse config sections ≡ panics
      → PanicsWith parse config sections
  unfolding main_func
  main_func-PanicsWith parse config sections p =
      elim (Option-cases (read_duration parse config.interval)) [
        | inl h ↦ let no : exits ≡ panics = rw (h, main_func) at p in cc
        | inr (i, h) ↦ elim (Option-cases (read_duration parse config.duration)) [
          | inl k ↦ let no : exits ≡ panics = rw (h, k, main_func) at p in cc
          | inr (d, k) ↦ elim (Bool-cases (refused sections i d)) [
            | inl b ↦ let no : exits ≡ panics = rw (h, k, b, main_func) at p in cc
            | inr b ↦
                let passed =
                  main_func_passed parse config sections i d
                    (record { interval = h; duration = k; ordered = b }) in
                let (ordered, there) = (refused-HasSections sections i d).0 b in
                (
                  i,
                  d,
                  (read_duration-Sets parse config.interval i).0 h,
                  (read_duration-Sets parse config.duration d).0 k,
                  ordered,
                  (make_parts-panics sections i d).0 (sym passed ∙ p),
                  there,
                )
          ]
        ]
      ]

  -- The program panics exactly if the sections of the router, the sinks and the collectors are there
  -- and the configuration sets an interval that is not positive and a duration that does not exceed it,
  -- as one without both does; whatever the parser of durations is and whether parts can be made.
  pub main_func-panics :
      (parse : String → Result ℤ) (config : CentralConfigFile) (sections : Sections)
      → (main_func makes parse config sections ≡ panics) ↔ (
          (i : ℤ) × (d : ℤ) × Sets parse config.interval i
          × Sets parse config.duration d
          × (ltb_ℤ i d ≡ false)
          × (leb_ℤ i (pos 0) ≡ true)
          × HasSections sections)
  main_func-panics parse config sections = (
    λ p. main_func-PanicsWith parse config sections p,
    λ (i, d, si, sd, ordered, low, there).
        main_func_passed parse config sections i d (record {
          interval = (read_duration-Sets parse config.interval i).1 si;
          duration = (read_duration-Sets parse config.duration d).1 sd;
          ordered = (refused-HasSections sections i d).1 (ordered, there);
        })
        ∙ (make_parts-panics sections i d).1 low,
  )
