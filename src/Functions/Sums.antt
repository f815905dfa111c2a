-- ===== src/Functions/Sums.antt =====
-- The integer sums: the exact sum modulo the width of the type, and exact where that fits.
use cc_metric_collector.Prelude.{ℕ, ◌≡◌, List, [], ◌∷◌, foldl, arith, ◌∙◌, ap}
use cc_metric_collector.Prelude.Int.{ℤ, pos, ◌+ℤ◌, wrap, half64, half32, InRange, wrap_of_InRange}
use cc_metric_collector.Values.{ok, int, int32, int64, ints, int32s, int64s, Floats}
use cc_metric_collector.Functions.{sum_any_type, sum_func}

-- the sum of a list as an integer without bounds
abbrev pub total : List ℤ → ℤ
total [] = pos 0
total (v ∷ vs) = v +ℤ total vs

wrap-add_32 : (a b : ℤ) → wrap half32 (wrap half32 a +ℤ b) ≡ wrap half32 (a +ℤ b)
unfolding wrap ◌+ℤ◌
wrap-add_32 a b = ground arith

wrap-add_64 : (a b : ℤ) → wrap half64 (wrap half64 a +ℤ b) ≡ wrap half64 (a +ℤ b)
unfolding wrap ◌+ℤ◌
wrap-add_64 a b = ground arith

+ℤ_zero : (a : ℤ) → a +ℤ pos 0 ≡ a
unfolding ◌+ℤ◌
+ℤ_zero a = ground arith

zero_+ℤ : (a : ℤ) → pos 0 +ℤ a ≡ a
unfolding ◌+ℤ◌
zero_+ℤ a = ground arith

+ℤ_assoc : (a b c : ℤ) → (a +ℤ b) +ℤ c ≡ a +ℤ (b +ℤ c)
unfolding ◌+ℤ◌
+ℤ_assoc a b c = ground arith

module _ (h : ℕ) (wrap-add : (a b : ℤ) → wrap h (wrap h a +ℤ b) ≡ wrap h (a +ℤ b)) where
  fold_wrapped :
      (acc : ℤ) (vs : List ℤ)
      → foldl (λ a b. wrap h (a +ℤ b)) (wrap h acc) vs ≡ wrap h (acc +ℤ total vs)
  fold_wrapped acc [] = rw (+ℤ_zero acc)
  fold_wrapped acc (v ∷ vs) =
      rw (wrap-add acc v) (fold_wrapped (acc +ℤ v) vs ∙ ap (wrap h) (+ℤ_assoc acc v (total vs)))

  fold_from_zero :
      (v : ℤ) (vs : List ℤ)
      → foldl (λ a b. wrap h (a +ℤ b)) (pos 0) (v ∷ vs) ≡ wrap h (total (v ∷ vs))
  fold_from_zero v vs = rw (zero_+ℤ v) (fold_wrapped v vs)

module _ {F G : Type 0} (fl : Floats F G) (v : ℤ) (vs : List ℤ) where
  -- On an integer list that is not empty, `sum` is the exact sum, wrapped to the element type.
  pub sum_func-integers :
      (sum_func fl (ints (v ∷ vs)) ≡ ok (int (wrap half64 (total (v ∷ vs)))))
      × (sum_func fl (int64s (v ∷ vs)) ≡ ok (int64 (wrap half64 (total (v ∷ vs)))))
      × (sum_func fl (int32s (v ∷ vs)) ≡ ok (int32 (wrap half32 (total (v ∷ vs)))))
  unfolding sum_func sum_any_type
  sum_func-integers = (
    rw (fold_from_zero half64 wrap-add_64 v vs),
    rw (fold_from_zero half64 wrap-add_64 v vs),
    rw (fold_from_zero half32 wrap-add_32 v vs),
  )

  -- Where the exact sum fits the element type, `sum` returns it.
  pub sum_func-exact :
      (InRange half64 (total (v ∷ vs)) → sum_func fl (ints (v ∷ vs)) ≡ ok (int (total (v ∷ vs))))
      × (InRange half32 (total (v ∷ vs))
          → sum_func fl (int32s (v ∷ vs)) ≡ ok (int32 (total (v ∷ vs))))
  sum_func-exact = (
    λ r. rw (sum_func-integers.0, wrap_of_InRange half64 _ r),
    λ r. rw (sum_func-integers.2, wrap_of_InRange half32 _ r),
  )
