-- ===== src/Collectors/Setup.antt =====
-- The collectors that the manager runs, and the removal from a list of texts.
use text.Mathlib.Text.{◌==◌ as str_eq}
use text.Mathlib.TextEquality.{eq_iff}
use cc_metric_collector.Prelude.{
  ◌≡◌, refl, sym, ap, ◌∙◌, Bool, not, String, Option, none, some, List, [], ◌∷◌, ◌++◌, filter,
  Option-cases, Bool-cases, inl, inr, append_assoc, append-nil, All, ◌⊎◌, ◌≢◌, arith,
}
use cc_metric_collector.Prelude.Dict.{Dict}
use cc_metric_collector.Values.{ok, err, Result-cases}
use cc_metric_collector.Collectors.{
  Available, Manager, init_one, init_all, init, remove_from_string_list,
}

module _ {C : Type 0} (available : Available C) where
  -- the collector of an entry, if it is known and its `Init` succeeds
  unfoldable pub ready : String × String → Option C
  ready (name, config) = elim (available.find name) [
    | none ↦ none
    | some c ↦ elim (available.init config c) [ err e ↦ none | ok c' ↦ some c' ]
  ]

  abbrev keep : Option C → List C → List C
  keep none cs = cs
  keep (some c) cs = c ∷ cs

  -- the collectors of the configuration that can run, in its order
  unfoldable pub usable : Dict String → List C
  usable [] = []
  usable (e ∷ es) = keep (ready e) (usable es)

  -- the collectors of a list, by the way that they are read
  abbrev pub sorted : List C → Manager C
  sorted cs = record {
    collectors = filter available.parallel cs;
    serial = filter (λ c. not (available.parallel c)) cs;
  }

  -- a manager with the collectors of a list behind its own
  abbrev pub with_more : Manager C → List C → Manager C
  with_more cm cs = record {
    collectors = cm.collectors ++ filter available.parallel cs;
    serial = cm.serial ++ filter (λ c. not (available.parallel c)) cs;
  }

  with_none : (cm : Manager C) → with_more cm [] ≡ cm
  with_none cm =
      ap (λ cs. record { collectors = cs; serial = cm.serial ++ [] }) (append-nil cm.collectors)
      ∙ ap (λ cs. record { collectors = cm.collectors; serial = cs }) (append-nil cm.serial)

  -- the outcomes of an entry
  module _ (name config : String) (cm : Manager C) where
    init_one_unknown :
        available.find name ≡ none
        → init_one available (name, config) cm ≡ with_more cm (keep (ready (name, config)) [])
    unfolding init_one ready
    init_one_unknown h = rw (h, init_one) (rw (h, ready) (sym (with_none cm)))

    init_one_failed :
        (c : C) (x : String)
        → available.find name ≡ some c
        → available.init config c ≡ err x
        → init_one available (name, config) cm ≡ with_more cm (keep (ready (name, config)) [])
    unfolding init_one ready
    init_one_failed c x h k = rw (h, init_one) (rw k (rw (h, ready) (rw k (sym (with_none cm)))))

    init_one_added :
        (c c' : C)
        → available.find name ≡ some c
        → available.init config c ≡ ok c'
        → init_one available (name, config) cm ≡ with_more cm (keep (ready (name, config)) [])
    unfolding init_one ready
    init_one_added c c' h k =
        rw (h, init_one)
          (rw k (
            rw (h, ready)
              (rw k (elim (Bool-cases (available.parallel c')) [
                | inl b ↦ rw b (
                    ap (λ cs. record { collectors = cm.collectors ++ c' ∷ []; serial = cs })
                      (sym (append-nil cm.serial)))
                | inr b ↦ rw b (
                    ap (λ cs. record { collectors = cs; serial = cm.serial ++ c' ∷ [] })
                      (sym (append-nil cm.collectors)))
              ]))))

  init_one-ready :
      (e : String × String) (cm : Manager C)
      → init_one available e cm ≡ with_more cm (keep (ready e) [])
  init_one-ready (name, config) cm = elim (Option-cases (available.find name)) [
    | inl h ↦ init_one_unknown name config cm h
    | inr (c, h) ↦ elim (Result-cases (available.init config c)) [
      | inl (c', k) ↦ init_one_added name config cm c c' h k
      | inr (x, k) ↦ init_one_failed name config cm c x h k
    ]
  ]

  filter-keep :
      (f : C → Bool) (o : Option C) (cs : List C)
      → filter f (keep o cs) ≡ filter f (keep o []) ++ filter f cs
  filter-keep f none cs = refl
  filter-keep f (some c) cs = elim (Bool-cases (f c)) [ inl b ↦ rw b refl | inr b ↦ rw b refl ]

  with_more_twice :
      (o : Option C) (cs : List C) (cm : Manager C)
      → with_more (with_more cm (keep o [])) cs ≡ with_more cm (keep o cs)
  with_more_twice o cs cm =
      rw
        (
          filter-keep available.parallel o cs,
          filter-keep (λ c. not (available.parallel c)) o cs,
          append_assoc cm.collectors,
          append_assoc cm.serial,
        )
        refl

  init_all-usable :
      (config : Dict String) (cm : Manager C)
      → init_all available config cm ≡ with_more cm (usable config)
  unfolding init_all usable
  init_all-usable [] cm = sym (with_none cm)
  init_all-usable (e ∷ es) cm =
      ap (init_all available es) (init_one-ready e cm)
      ∙ init_all-usable es (with_more cm (keep (ready e) []))
      ∙ with_more_twice (ready e) (usable es) cm

  -- Of the configured collectors, the manager runs exactly those that are known and whose `Init`
  -- succeeds, in the order of the configuration, each in parallel or serially as it demands.
  pub init-sorted :
      (config : Dict String) → init available (ok config) ≡ ok (sorted (usable config))
  unfolding init
  init-sorted config = ap ok (init_all-usable config (record { collectors = []; serial = [] }))

-- The removal finds the text: the list without its first occurrence.
unfoldable pub Removed : String → List String → List String → Type 0
Removed r ss rest =
    (before : List String) × (after : List String) × All (λ s. r ≢ s) before
    × (ss ≡ before ++ r ∷ after)
    × (rest ≡ before ++ after)

-- `RemoveFromStringList` either removes the first occurrence of the text and only that, or returns
-- the list as it is, with an error, because the text is not in it.
pub remove_from_string_list-first :
    (ss : List String) (r : String)
    → (((remove_from_string_list ss r).1 ≡ ok tt) × Removed r ss (remove_from_string_list ss r).0)
      ⊎ (((remove_from_string_list ss r).1 ≡ err "no such string in list")
          × All (λ s. r ≢ s) ss
          × ((remove_from_string_list ss r).0 ≡ ss))
unfolding remove_from_string_list Removed
remove_from_string_list-first [] r = inr (refl, tt, refl)
remove_from_string_list-first (s ∷ ss) r = elim (Bool-cases (str_eq r s)) [
  | inl b ↦ rw b (inl (refl, ([], ss, tt, ap (λ x. x ∷ ss) (sym ((eq_iff r s).0 b)), refl)))
  | inr b ↦
      let differs : r ≢ s = λ e. ground (arith, b, e, eq_iff r s) in
      elim (remove_from_string_list-first ss r) [
        | inl (h, (before, after, all, e, e')) ↦
            rw b (inl (h, (s ∷ before, after, (differs, all), ap (◌∷◌ s) e, ap (◌∷◌ s) e')))
        | inr (h, all, e) ↦ rw b (inr (h, (differs, all), ap (◌∷◌ s) e))
      ]
]
