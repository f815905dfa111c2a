-- ===== src/Functions.antt =====
-- internal/metricAggregator/metricAggregatorFunctions.go: the arithmetic functions that an
-- aggregation's expression can call.
pub mod Extremes
pub mod Sorting
pub mod Sums
use Prim.Native.String.{len}
use cc_metric_collector.Prelude.{
  ℕ, zero, suc, ◌-◌, ◌%◌, Bool, true, false, String, List, [], ◌∷◌, length, ◌==◌, if◌then◌else◌,
  foldl,
}
use cc_metric_collector.Prelude.Int.{ℤ, pos, half64, half32}
use cc_metric_collector.Prelude.Run.{Run, done, panic, ◌>>=◌, at}
use cc_metric_collector.Prelude.Sort.{sort}
use cc_metric_collector.Values.{
  Result, ok, err, map_ok, Any, float64, float32, int, int32, int64, bool, string, float64s,
  float32s, ints, int32s, int64s, bools, other, Num, Floats, int_num,
}

module _ {T F : Type 0} (n : Num T F) where
  unfoldable pub sum_any_type : List T → Result T
  sum_any_type [] = err "sum function requires at least one argument"
  sum_any_type (v ∷ vs) = ok (foldl n.add n.nought (v ∷ vs))

  -- slices.Min
  unfoldable pub min_any_type : List T → Result T
  min_any_type [] = err "min function requires at least one argument"
  min_any_type (v ∷ vs) = ok (foldl n.lower v vs)

  -- slices.Max
  unfoldable pub max_any_type : List T → Result T
  max_any_type [] = err "max function requires at least one argument"
  max_any_type (v ∷ vs) = ok (foldl n.upper v vs)

  -- `values[midPoint-1]` with a `midPoint` of 0 is an index out of range.
  abbrev pub before : List T → ℕ → Run T
  before vs zero = panic
  before vs (suc k) = at vs k

  -- the median of a sorted list, by its `midPoint`
  unfoldable pub median_at : List T → ℕ → Run T
  median_at sorted mid_point =
      if mid_point == 0
      then (do a ← before sorted mid_point; b ← at sorted mid_point; done (n.halve (n.add a b)))
      else at sorted mid_point

  unfoldable pub median_any_type : List T → Run (Result T)
  median_any_type [] = done (err "median function requires at least one argument")
  median_any_type (v ∷ vs) = do
    median ← median_at (sort n.less (v ∷ vs)) (length (v ∷ vs) % 2)
    done (ok median)

module _ {T F G : Type 0} (fl : Floats F G) (n : Num T F) where
  unfoldable pub avg_any_type : List T → Result F
  avg_any_type [] = err "average function requires at least one argument"
  avg_any_type (v ∷ vs) =
      map_ok (λ sum. fl.divide (n.to_float64 sum) (fl.of_int (pos (length (v ∷ vs)))))
        (sum_any_type n (v ∷ vs))

-- The functions over `any`: a type switch over the five kinds of lists.
module _ {F G : Type 0} (fl : Floats F G) where
  abbrev pub num_int : Num ℤ F
  num_int = int_num half64 fl.of_int

  abbrev pub num_int32 : Num ℤ F
  num_int32 = int_num half32 fl.of_int

  unfoldable pub sum_func : Any F G → Result (Any F G)
  sum_func (float64s vs) = map_ok float64 (sum_any_type fl.num64 vs)
  sum_func (float32s vs) = map_ok float32 (sum_any_type fl.num32 vs)
  sum_func (ints vs) = map_ok int (sum_any_type num_int vs)
  sum_func (int64s vs) = map_ok int64 (sum_any_type num_int vs)
  sum_func (int32s vs) = map_ok int32 (sum_any_type num_int32 vs)
  sum_func _ = err "function 'sum' only on list of values (float64, float32, int, int32, int64)"

  unfoldable pub min_func : Any F G → Result (Any F G)
  min_func (float64s vs) = map_ok float64 (min_any_type fl.num64 vs)
  min_func (float32s vs) = map_ok float32 (min_any_type fl.num32 vs)
  min_func (ints vs) = map_ok int (min_any_type num_int vs)
  min_func (int64s vs) = map_ok int64 (min_any_type num_int vs)
  min_func (int32s vs) = map_ok int32 (min_any_type num_int32 vs)
  min_func _ = err "function 'min' only on list of values (float64, float32, int, int32, int64)"

  unfoldable pub avg_func : Any F G → Result (Any F G)
  avg_func (float64s vs) = map_ok float64 (avg_any_type fl fl.num64 vs)
  avg_func (float32s vs) = map_ok float64 (avg_any_type fl fl.num32 vs)
  avg_func (ints vs) = map_ok float64 (avg_any_type fl num_int vs)
  avg_func (int64s vs) = map_ok float64 (avg_any_type fl num_int vs)
  avg_func (int32s vs) = map_ok float64 (avg_any_type fl num_int32 vs)
  avg_func _ = err "function 'average' only on list of values (float64, float32, int, int32, int64)"

  unfoldable pub max_func : Any F G → Result (Any F G)
  max_func (float64s vs) = map_ok float64 (max_any_type fl.num64 vs)
  max_func (float32s vs) = map_ok float32 (max_any_type fl.num32 vs)
  max_func (ints vs) = map_ok int (max_any_type num_int vs)
  max_func (int64s vs) = map_ok int64 (max_any_type num_int vs)
  max_func (int32s vs) = map_ok int32 (max_any_type num_int32 vs)
  max_func _ = err "function 'max' only on list of values (float64, float32, int, int32, int64)"

  abbrev pub wrapped : {T : Type 0} → (T → Any F G) → Run (Result T) → Run (Result (Any F G))
  wrapped f m = do r ← m; done (map_ok f r)

  unfoldable pub median_func : Any F G → Run (Result (Any F G))
  median_func (float64s vs) = wrapped float64 (median_any_type fl.num64 vs)
  median_func (float32s vs) = wrapped float32 (median_any_type fl.num32 vs)
  median_func (ints vs) = wrapped int (median_any_type num_int vs)
  median_func (int64s vs) = wrapped int64 (median_any_type num_int vs)
  median_func (int32s vs) = wrapped int32 (median_any_type num_int32 vs)
  median_func _ =
      done (err "function 'median' only on list of values (float64, float32, int, int32, int64)")

module _ {F G : Type 0} where
  -- The native `len` counts the bytes of a string, as Go's `len` does.
  unfoldable pub len_func : Any F G → Result (Any F G)
  len_func (float64s vs) = ok (int (pos (length vs)))
  len_func (float32s vs) = ok (int (pos (length vs)))
  len_func (ints vs) = ok (int (pos (length vs)))
  len_func (int64s vs) = ok (int (pos (length vs)))
  len_func (int32s vs) = ok (int (pos (length vs)))
  len_func (float64 v) = err "function 'len' can only be applied on arrays and strings"
  len_func (float32 v) = err "function 'len' can only be applied on arrays and strings"
  len_func (int v) = err "function 'len' can only be applied on arrays and strings"
  len_func (int64 v) = err "function 'len' can only be applied on arrays and strings"
  len_func (string s) = ok (int (pos (len s)))
  len_func _ = ok (int (pos 0))
