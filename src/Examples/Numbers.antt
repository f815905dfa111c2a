-- ===== src/Examples/Numbers.antt =====
-- Floats are integers here, of the width of int64.
use cc_metric_collector.Prelude.{◌≡◌, refl, List, [], ◌∷◌}
use mathlib.Core.List.{Perm}
use cc_metric_collector.Prelude.Int.{ℤ, pos, negsuc, half64}
use cc_metric_collector.Prelude.Sort.{IsAscending}
use cc_metric_collector.Prelude.Run.{done}
use cc_metric_collector.Values.{ok, Floats, Num, int_num}
use cc_metric_collector.Functions.{median_any_type}
use cc_metric_collector.Functions.Extremes.{int_num-IsLinear}
use cc_metric_collector.Functions.Sorting.{median_any_type-odd}

abbrev whole : Num ℤ ℤ
whole = int_num half64 (λ z. z)

abbrev pub floats : Floats ℤ ℤ
floats = record { num64 = whole; num32 = whole; of_int = λ z. z; divide = λ a b. a }

abbrev tail_values : List ℤ
tail_values = negsuc 4 ∷ pos 8 ∷ []

median_any_type-odd_example :
    (a m : ℤ) × (rest : List ℤ) × IsAscending whole.less (a ∷ m ∷ rest)
    × Perm (a ∷ m ∷ rest) (pos 3 ∷ tail_values)
    × (median_any_type whole (pos 3 ∷ tail_values) ≡ done (ok m))
median_any_type-odd_example =
    median_any_type-odd whole (int_num-IsLinear half64 (λ z. z)) (pos 3 ∷ tail_values) 0 refl
