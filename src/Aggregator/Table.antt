-- ===== src/Aggregator/Table.antt =====
-- The table of aggregations: what adding and deleting change, and that names stay unique.
pub mod Changes
use mathlib.Core.Option
use mathlib.Core.Option.{some-injective}
use text.Mathlib.Text.{◌==◌ as str_eq}
use text.Mathlib.TextEquality.{eq_iff}
use cc_metric_collector.Prelude.{
  ◌≡◌, refl, ◌⊎◌, inl, inr, Bool-cases, Option-cases, String, Option, none, some, List, [], ◌∷◌,
  arith, if◌then◌else◌,
}
use cc_metric_collector.Prelude.Dict.{Dict}
use cc_metric_collector.Values.{ok, err, Result-cases}
use cc_metric_collector.Aggregator.{
  Library, IntervalConfig, Aggregator, upsert, remove, double_quotes, add_aggregation,
  delete_aggregation,
}

module _ {E : Type 0} where
  -- the first aggregation of a name
  unfoldable pub find : String → List (IntervalConfig E) → Option (IntervalConfig E)
  find n [] = none
  find n (agg ∷ aggs) = if str_eq agg.name n then some agg else find n aggs

  -- No two aggregations have the same name.
  abbrev pub HasUniqueNames : List (IntervalConfig E) → Type 0
  HasUniqueNames [] = Unit
  HasUniqueNames (agg ∷ aggs) = (find agg.name aggs ≡ none) × HasUniqueNames aggs

  pub find-upsert :
      (new : IntervalConfig E) (aggs : List (IntervalConfig E)) (n : String)
      → find n (upsert new aggs) ≡ (if str_eq new.name n then some new else find n aggs)
  unfolding find upsert
  find-upsert new [] n = refl
  find-upsert new (agg ∷ aggs) n = ground (
    arith,
    eq_iff agg.name new.name,
    eq_iff agg.name n,
    eq_iff new.name n,
    find-upsert new aggs n,
  )

  pub upsert-HasUniqueNames :
      (new : IntervalConfig E) (aggs : List (IntervalConfig E))
      → HasUniqueNames aggs
      → HasUniqueNames (upsert new aggs)
  unfolding upsert
  upsert-HasUniqueNames new [] u = (unfold find in refl, tt)
  upsert-HasUniqueNames new (agg ∷ aggs) u = elim (Bool-cases (str_eq agg.name new.name)) [
    | inl e ↦ rw e (rw (← (eq_iff agg.name new.name).0 e) u.0, u.1)
    | inr e ↦ rw e (
      ground (
        arith,
        find-upsert new aggs agg.name,
        eq_iff new.name agg.name,
        eq_iff agg.name new.name,
      ),
      upsert-HasUniqueNames new aggs u.1,
    )
  ]

  -- an absent name is not removed, and removing a name that is there succeeds
  pub remove-none :
      (name : String) (aggs : List (IntervalConfig E))
      → remove name aggs ≡ none
      → find name aggs ≡ none
  unfolding remove find
  remove-none name [] h = refl
  remove-none name (agg ∷ aggs) h = elim (Bool-cases (str_eq agg.name name)) [
    | inl e ↦ cc (rw e at h)
    | inr e ↦ rw e (remove-none name aggs (map-none (remove name aggs) (rw e at h)))
  ]
    where
      map-none :
          (o : Option (List (IntervalConfig E)))
          → Option.map (λ left. agg ∷ left) o ≡ none
          → o ≡ none
      map-none none k = refl
      map-none (some l) k = cc

  pub find-remove :
      (name : String) (aggs left : List (IntervalConfig E)) (n : String)
      → HasUniqueNames aggs
      → remove name aggs ≡ some left
      → find n left ≡ (if str_eq name n then none else find n aggs)
  unfolding remove find
  find-remove name [] left n u h = cc
  find-remove name (agg ∷ aggs) left n u h = elim (Bool-cases (str_eq agg.name name)) [
    | inl e ↦
        let same : aggs ≡ left = some-injective _ _ (rw e at h) in
        rw (← same) (ground (arith, eq_iff agg.name name, eq_iff agg.name n, eq_iff name n, u.0))
    | inr e ↦ elim (Option-cases (remove name aggs)) [
      | inl gone ↦ cc (rw (e, gone) at h)
      | inr (l, kept) ↦
          let same : (agg ∷ l) ≡ left = some-injective _ _ (rw (e, kept) at h) in
          rw (← same) (
            ground (
              arith,
              eq_iff agg.name name,
              eq_iff agg.name n,
              eq_iff name n,
              find-remove name aggs l n u.1 kept,
            ))
    ]
  ]

  pub remove-HasUniqueNames :
      (name : String) (aggs left : List (IntervalConfig E))
      → HasUniqueNames aggs
      → remove name aggs ≡ some left
      → HasUniqueNames left
  unfolding remove
  remove-HasUniqueNames name [] left u h = cc
  remove-HasUniqueNames name (agg ∷ aggs) left u h = elim (Bool-cases (str_eq agg.name name)) [
    | inl e ↦ let same : aggs ≡ left = some-injective _ _ (rw e at h) in rw (← same) u.1
    | inr e ↦ elim (Option-cases (remove name aggs)) [
      | inl gone ↦ cc (rw (e, gone) at h)
      | inr (l, kept) ↦
          let same : (agg ∷ l) ≡ left = some-injective _ _ (rw (e, kept) at h) in
          rw (← same) (
            ground (arith, eq_iff name agg.name, find-remove name aggs l agg.name u.1 kept, u.0),
            remove-HasUniqueNames name aggs l u.1 kept,
          )
    ]
  ]

  pub remove-upsert :
      (new : IntervalConfig E) (aggs : List (IntervalConfig E))
      → find new.name aggs ≡ none
      → remove new.name (upsert new aggs) ≡ some aggs
  unfolding remove upsert find
  remove-upsert new [] h = rw ((eq_iff new.name new.name).1 refl)
  remove-upsert new (agg ∷ aggs) h = elim (Bool-cases (str_eq agg.name new.name)) [
    | inl e ↦ cc (rw e at h)
    | inr e ↦ rw (e, e, remove-upsert new aggs (rw e at h))
  ]
