-- ===== src/Aggregator/Table/Changes.antt =====
-- `AddAggregation` and `DeleteAggregation` on the table of an aggregator.
use text.Mathlib.Text.{◌==◌ as str_eq}
use cc_metric_collector.Prelude.{
  ◌≡◌, refl, ◌⊎◌, inl, inr, Option-cases, String, none, some, List, if◌then◌else◌,
}
use cc_metric_collector.Prelude.Dict.{Dict}
use cc_metric_collector.Values.{ok, err, Result-cases}
use cc_metric_collector.Aggregator.{
  Library, IntervalConfig, Aggregator, upsert, remove, double_quotes, add_aggregation,
  delete_aggregation,
}
use cc_metric_collector.Aggregator.Table.{
  HasUniqueNames, find-upsert, remove-HasUniqueNames, remove-none, find-remove, find,
  upsert-HasUniqueNames, remove-upsert,
}

module _ {F G Time Msg E : Type 0} (lib : Library F G Time Msg E) where
  -- the entry that `AddAggregation` makes of its arguments and the compiled expressions
  abbrev pub entry : String → String → String → Dict String → Dict String → E → E → IntervalConfig E
  entry name function condition tags meta gc gf = record {
    name = name;
    function = double_quotes function;
    condition = double_quotes condition;
    tags = tags;
    meta = meta;
    gval_cond = gc;
    gval_func = gf;
  }

  module _ (name function condition : String) (tags meta : Dict String)
      (c : Aggregator F G Time Msg E) where
    add_compiled :
        (gc gf : E)
        → lib.compile (double_quotes condition) ≡ ok gc
        → lib.compile (double_quotes function) ≡ ok gf
        → add_aggregation lib name function condition tags meta c ≡ (
          ok tt,
          record c {
            functions = upsert (entry name function condition tags meta gc gf) c.functions;
          },
        )
    unfolding add_aggregation
    add_compiled gc gf good fine = rw (good, add_aggregation) (rw fine)

    add_bad_condition :
        (e : String)
        → lib.compile (double_quotes condition) ≡ err e
        → add_aggregation lib name function condition tags meta c ≡ (err e, c)
    unfolding add_aggregation
    add_bad_condition e bad = rw (bad, add_aggregation)

    add_bad_function :
        (gc : E) (e : String)
        → lib.compile (double_quotes condition) ≡ ok gc
        → lib.compile (double_quotes function) ≡ err e
        → add_aggregation lib name function condition tags meta c ≡ (err e, c)
    unfolding add_aggregation
    add_bad_function gc e good bad = rw (good, add_aggregation) (rw bad)

  -- the table after an aggregation was added
  pub record IsAdded (name function condition : String) (tags meta : Dict String)
      (before after : List (IntervalConfig E)) : Type 0 where
    pub new : IntervalConfig E
    pub named : new.name ≡ name
    pub tagged : (new.tags ≡ tags) × (new.meta ≡ meta)
    pub compiled_cond : lib.compile (double_quotes condition) ≡ ok new.gval_cond
    pub compiled_func : lib.compile (double_quotes function) ≡ ok new.gval_func
    pub finds : (n : String) → find n after ≡ (if str_eq name n then some new else find n before)
    pub unique : HasUniqueNames after

  -- In a table with unique names, adding an aggregation either reports the error of an expression
  -- that does not compile and changes nothing, or succeeds: its name then finds it with the
  -- expressions compiled after the quotes are doubled, every other name finds what it did, and the
  -- names stay unique.
  pub add_aggregation-find :
      (name function condition : String) (tags meta : Dict String) (c : Aggregator F G Time Msg E)
      → HasUniqueNames c.functions
      → (((add_aggregation lib name function condition tags meta c).0 ≡ ok tt)
          × IsAdded name function condition tags meta c.functions
              (add_aggregation lib name function condition tags meta c).1.functions)
        ⊎ ((e : String) × (add_aggregation lib name function condition tags meta c ≡ (err e, c))
            × ((lib.compile (double_quotes condition) ≡ err e)
                ⊎ (lib.compile (double_quotes function) ≡ err e)))
  add_aggregation-find name function condition tags meta c u =
      elim (Result-cases (lib.compile (double_quotes condition))) [
        | inr (e, bad) ↦
            inr (e, add_bad_condition name function condition tags meta c e bad, inl bad)
        | inl (gc, good) ↦ elim (Result-cases (lib.compile (double_quotes function))) [
          | inr (e, bad) ↦
              inr (e, add_bad_function name function condition tags meta c gc e good bad, inr bad)
          | inl (gf, fine) ↦
              let new = entry name function condition tags meta gc gf in
              inl (
                rw (add_compiled name function condition tags meta c gc gf good fine) (
                  refl,
                  record {
                    new = new;
                    named = refl;
                    tagged = (refl, refl);
                    compiled_cond = good;
                    compiled_func = fine;
                    finds = find-upsert new c.functions;
                    unique = upsert-HasUniqueNames new c.functions u;
                  },
                ))
        ]
      ]

module _ {F G Time Msg E : Type 0} where
  delete_present :
      (name : String) (c : Aggregator F G Time Msg E) (left : List (IntervalConfig E))
      → remove name c.functions ≡ some left
      → delete_aggregation name c ≡ (ok tt, record c { functions = left })
  unfolding delete_aggregation
  delete_present name c left kept = rw (kept, delete_aggregation)

  delete_absent :
      (name : String) (c : Aggregator F G Time Msg E)
      → remove name c.functions ≡ none
      → delete_aggregation name c ≡ (err "no aggregation for metric name", c)
  unfolding delete_aggregation
  delete_absent name c gone = rw (gone, delete_aggregation)

  -- In a table with unique names, deleting an aggregation fails and changes nothing if the name
  -- has none; otherwise its name finds nothing afterwards, every other name finds what it did, and
  -- the names stay unique.
  pub delete_aggregation-find :
      (name : String) (c : Aggregator F G Time Msg E)
      → HasUniqueNames c.functions
      → ((find name c.functions ≡ none)
          × ((delete_aggregation name c).1 ≡ c)
          × ((e : String) × ((delete_aggregation name c).0 ≡ err e)))
        ⊎ (((delete_aggregation name c).0 ≡ ok tt)
            × ((n : String)
                → find n (delete_aggregation name c).1.functions
                  ≡ (if str_eq name n then none else find n c.functions))
            × HasUniqueNames (delete_aggregation name c).1.functions)
  delete_aggregation-find name c u = elim (Option-cases (remove name c.functions)) [
    | inl gone ↦ inl (
      remove-none name c.functions gone,
      rw (delete_absent name c gone),
      ("no aggregation for metric name", rw (delete_absent name c gone)),
    )
    | inr (left, kept) ↦ inr (
        rw (delete_present name c left kept) (
          refl,
          λ n. find-remove name c.functions left n u kept,
          remove-HasUniqueNames name c.functions left u kept,
        ))
  ]

  -- Deleting an aggregation right after it was added under a new name restores the table.
  pub delete-add :
      (lib : Library F G Time Msg E) (name function condition : String) (tags meta : Dict String)
      (c : Aggregator F G Time Msg E)
      → find name c.functions ≡ none
      → (add_aggregation lib name function condition tags meta c).0 ≡ ok tt
      → delete_aggregation name (add_aggregation lib name function condition tags meta c).1
        ≡ (ok tt, c)
  delete-add lib name function condition tags meta c absent added =
      elim (Result-cases (lib.compile (double_quotes condition))) [
        | inr (e, bad) ↦
            cc (rw (add_bad_condition lib name function condition tags meta c e bad) at added)
        | inl (gc, good) ↦ elim (Result-cases (lib.compile (double_quotes function))) [
          | inr (e, bad) ↦
              cc (
                rw (add_bad_function lib name function condition tags meta c gc e good bad) at
                  added)
          | inl (gf, fine) ↦
              rw (add_compiled lib name function condition tags meta c gc gf good fine) (
                delete_present name _ c.functions (
                  remove-upsert (entry lib name function condition tags meta gc gf) c.functions
                    absent))
        ]
      ]
