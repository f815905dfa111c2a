-- ===== src/Functions/Sorting.antt =====
-- Which value of the list `median` returns.
use mathlib.Core.List.{Perm}
use cc_metric_collector.Prelude.{
  ℕ, ◌≤◌, ◌+◌, ◌*◌, ◌%◌, ◌≡◌, refl, ◌⊎◌, inl, inr, List, [], ◌∷◌, arith, length,
}
use cc_metric_collector.Prelude.Run.{done, panic}
use cc_metric_collector.Values.{ok, Num}
use cc_metric_collector.Prelude.Sort.{
  insert_sorted, sort, IsAscending, IsStrictOrder, sort-perm, sort-IsAscending, length-sort,
}
use cc_metric_collector.Functions.{median_at, median_any_type}
use cc_metric_collector.Functions.Extremes.{IsLinear}

first_two :
    {T : Type 0} (vs : List T) → 2 ≤ length vs → (a m : T) × (rest : List T) × (vs ≡ a ∷ m ∷ rest)
first_two [] h = absurd (omega arith)
first_two (a ∷ []) h = absurd (omega arith)
first_two (a ∷ m ∷ rest) h = (a, m, rest, refl)

module _ {T F : Type 0} (n : Num T F) where
  -- `median` of a list with an even number of values, or with one value, panics.
  pub median_any_type-panics :
      (v : T) (vs : List T)
      → (length (v ∷ vs) % 2 ≡ 0) ⊎ (vs ≡ [])
      → median_any_type n (v ∷ vs) ≡ panic
  unfolding median_any_type median_at
  median_any_type-panics v vs (inl even) = rw even
  median_any_type-panics v vs (inr single) = rw single (unfold sort insert_sorted in refl)

  median_any_type-second :
      (v : T) (vs : List T) (a m : T) (rest : List T)
      → sort n.less (v ∷ vs) ≡ a ∷ m ∷ rest
      → length (v ∷ vs) % 2 ≡ 1
      → median_any_type n (v ∷ vs) ≡ done (ok m)
  unfolding median_any_type median_at
  median_any_type-second v vs a m rest e odd = rw (e, odd)

pub IsLinear-strict : {T F : Type 0} (n : Num T F) → IsLinear n → IsStrictOrder n.less
IsLinear-strict n lin = record { asym = lin.asym; trans = lin.trans }

module _ {T F : Type 0} (n : Num T F) (lin : IsLinear n) where
  -- For a number type with a linear order, `median` of a list with an odd number of values, three
  -- or more, is the second smallest: the list is, in ascending order, some value, the result, and
  -- the rest.
  pub median_any_type-odd :
      (vs : List T) (k : ℕ)
      → length vs ≡ 3 + 2 * k
      → (a m : T) × (rest : List T) × IsAscending n.less (a ∷ m ∷ rest)
        × Perm (a ∷ m ∷ rest) vs
        × (median_any_type n vs ≡ done (ok m))
  median_any_type-odd [] k h = absurd (omega arith)
  median_any_type-odd (v ∷ vs) k h =
      let (a, m, rest, e) =
        first_two (sort n.less (v ∷ vs)) (omega (arith, length-sort n.less (v ∷ vs))) in
      (
        a,
        m,
        rest,
        rw e at (sort-IsAscending n.less (IsLinear-strict n lin) (v ∷ vs)),
        rw e at (sort-perm n.less (v ∷ vs)),
        median_any_type-second n v vs a m rest e (omega arith),
      )
