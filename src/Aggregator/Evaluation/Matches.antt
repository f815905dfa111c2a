-- ===== src/Aggregator/Evaluation/Matches.antt =====
-- Which messages and values an aggregation gets.
use mathlib.Core.Path.{subst}
use cc_metric_collector.Prelude.{
  ◌≡◌, refl, sym, ◌∙◌, ap, inl, inr, Bool, Bool-cases, Option, none, some, List, [], ◌∷◌, ◌++◌,
  append_assoc, append-nil, filter,
}
use cc_metric_collector.Prelude.Int.{ℤ}
use cc_metric_collector.Prelude.Dict.{Dict}
use cc_metric_collector.Values.{Any, float64, float32, int, int32, int64, bool}
use cc_metric_collector.Aggregator.{Var, Library, IntervalConfig}
use cc_metric_collector.Aggregator.Evaluation.{
  Collected, nothing_collected, add_value, satisfies, collect_one, collect,
}

module _ {F G : Type 0} where
  -- the values of one type in the field of one message
  abbrev pub float64_in : Option (Any F G) → List F
  float64_in (some (float64 x)) = x ∷ []
  float64_in _ = []

  abbrev pub float32_in : Option (Any F G) → List G
  float32_in (some (float32 x)) = x ∷ []
  float32_in _ = []

  abbrev pub int_in : Option (Any F G) → List ℤ
  int_in (some (int x)) = x ∷ []
  int_in _ = []

  abbrev pub int32_in : Option (Any F G) → List ℤ
  int32_in (some (int32 x)) = x ∷ []
  int32_in _ = []

  abbrev pub int64_in : Option (Any F G) → List ℤ
  int64_in (some (int64 x)) = x ∷ []
  int64_in _ = []

  abbrev pub bool_in : Option (Any F G) → List Bool
  bool_in (some (bool x)) = x ∷ []
  bool_in _ = []

module _ {F G Time Msg E : Type 0} (lib : Library F G Time Msg E) where
  -- the values of one type of a list of messages, in order
  unfoldable pub values_of : {A : Type 0} → (Option (Any F G) → List A) → List Msg → List A
  values_of pick [] = []
  values_of pick (m ∷ ms) = pick (lib.get_field m "value") ++ values_of pick ms

  -- What is collected: the messages `ms`, and their values by type.
  pub record Holds (c : Collected F G Msg) (ms : List Msg) : Type 0 where
    pub matched : c.matches ≡ ms
    pub of_float64 : c.values_float64 ≡ values_of float64_in ms
    pub of_float32 : c.values_float32 ≡ values_of float32_in ms
    pub of_int : c.values_int ≡ values_of int_in ms
    pub of_int32 : c.values_int32 ≡ values_of int32_in ms
    pub of_int64 : c.values_int64 ≡ values_of int64_in ms
    pub of_bool : c.values_bool ≡ values_of bool_in ms

  values_of-append :
      {A : Type 0} (pick : Option (Any F G) → List A) (ms : List Msg) (m : Msg)
      → values_of pick (ms ++ m ∷ []) ≡ values_of pick ms ++ pick (lib.get_field m "value")
  unfolding values_of
  values_of-append pick [] m = append-nil _
  values_of-append pick (x ∷ ms) m = rw (values_of-append pick ms m, append_assoc)

  add_value-picks :
      (v : Option (Any F G)) (c : Collected F G Msg)
      → ((add_value v c).matches ≡ c.matches)
        × ((add_value v c).values_float64 ≡ c.values_float64 ++ float64_in v)
        × ((add_value v c).values_float32 ≡ c.values_float32 ++ float32_in v)
        × ((add_value v c).values_int ≡ c.values_int ++ int_in v)
        × ((add_value v c).values_int32 ≡ c.values_int32 ++ int32_in v)
        × ((add_value v c).values_int64 ≡ c.values_int64 ++ int64_in v)
        × ((add_value v c).values_bool ≡ c.values_bool ++ bool_in v)
  unfolding add_value
  add_value-picks none c = simp append-nil (refl, refl, refl, refl, refl, refl, refl)
  add_value-picks (some (float64 x)) c = simp append-nil (refl, refl, refl, refl, refl, refl, refl)
  add_value-picks (some _) c = simp append-nil (refl, refl, refl, refl, refl, refl, refl)

  collect_one-Holds :
      (f : IntervalConfig E) (vars : Dict (Var F G Time Msg)) (c : Collected F G Msg)
      (ms : List Msg) (m : Msg)
      → Holds c ms
      → Holds (collect_one lib f vars c m) (ms ++ filter (satisfies lib f vars) (m ∷ []))
  unfolding collect_one
  collect_one-Holds f vars c ms m h =
      let v = lib.get_field m "value" in
      let p = add_value-picks v c in
      elim (Bool-cases (satisfies lib f vars m)) [
        | inl yes_it ↦ rw yes_it (record {
          matched = ap (λ l. l ++ m ∷ []) (p.0 ∙ h.matched);
          of_float64 =
              p.1
              ∙ (ap (λ l. l ++ float64_in v) h.of_float64 ∙ sym (values_of-append float64_in ms m));
          of_float32 =
              p.2
              ∙ (ap (λ l. l ++ float32_in v) h.of_float32 ∙ sym (values_of-append float32_in ms m));
          of_int = p.3 ∙ (ap (λ l. l ++ int_in v) h.of_int ∙ sym (values_of-append int_in ms m));
          of_int32 =
              p.4 ∙ (ap (λ l. l ++ int32_in v) h.of_int32 ∙ sym (values_of-append int32_in ms m));
          of_int64 =
              p.5 ∙ (ap (λ l. l ++ int64_in v) h.of_int64 ∙ sym (values_of-append int64_in ms m));
          of_bool =
              p.6 ∙ (ap (λ l. l ++ bool_in v) h.of_bool ∙ sym (values_of-append bool_in ms m));
        })
        | inr no_it ↦ rw (no_it, append-nil) h
      ]

  filter_step :
      (p : Msg → Bool) (seen : List Msg) (m : Msg) (ms : List Msg)
      → (seen ++ filter p (m ∷ [])) ++ filter p ms ≡ seen ++ filter p (m ∷ ms)
  filter_step p seen m ms = elim (Bool-cases (p m)) [
    | inl e ↦ rw e (append_assoc seen (m ∷ []) (filter p ms))
    | inr e ↦ rw e (rw append-nil)
  ]

  collect-Holds_from :
      (f : IntervalConfig E) (vars : Dict (Var F G Time Msg)) (c : Collected F G Msg)
      (seen ms : List Msg)
      → Holds c seen
      → Holds (collect lib f vars c ms) (seen ++ filter (satisfies lib f vars) ms)
  unfolding collect
  collect-Holds_from f vars c seen [] h = rw append-nil h
  collect-Holds_from f vars c seen (m ∷ ms) h =
      subst (λ l. Holds (collect lib f vars (collect_one lib f vars c m) ms) l)
        (filter_step (satisfies lib f vars) seen m ms)
        (collect-Holds_from f vars (collect_one lib f vars c m)
          (seen ++ filter (satisfies lib f vars) (m ∷ [])) ms (collect_one-Holds f vars c seen m h))

  -- An aggregation gets exactly the messages whose condition holds, in their order, and by type the
  -- values of those messages.
  pub collect-Holds :
      (f : IntervalConfig E) (vars : Dict (Var F G Time Msg)) (ms : List Msg)
      → Holds (collect lib f vars nothing_collected ms) (filter (satisfies lib f vars) ms)
  collect-Holds f vars ms = collect-Holds_from f vars nothing_collected [] ms (record {
    matched = refl;
    of_float64 = unfold values_of in refl;
    of_float32 = unfold values_of in refl;
    of_int = unfold values_of in refl;
    of_int32 = unfold values_of in refl;
    of_int64 = unfold values_of in refl;
    of_bool = unfold values_of in refl;
  })
