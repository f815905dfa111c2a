-- ===== src/Builtins.antt =====
-- internal/metricAggregator/metricAggregatorFunctions.go: the operators and lookups that an
-- aggregation's expression can call. `regexp` is a parameter, from a pattern to a test for a match.
pub mod Cpus
pub mod Matching
use mathlib.Core.Path.{◌≡◌, refl}
use Prim.Native.String.{◌++◌}
use text.Mathlib.Text.{◌==◌ as str_eq}
use cc_metric_collector.Prelude.{
  ℕ, zero, suc, ◌+◌, ◌/◌, ◌%◌, Bool, true, false, ◌||◌, String, List, [], ◌∷◌, map, filter, ltb,
  ◌==◌, if◌then◌else◌,
}
use cc_metric_collector.Prelude.Int.{ℤ, pos, negsuc, eqb_ℤ}
use cc_metric_collector.Prelude.Text.{replace_char, contains}
use cc_metric_collector.Prelude.Run.{Run, done, ◌>>=◌, at}
use cc_metric_collector.Topology.{
  HwthreadEntry, Topology, get_hwthread_core, get_hwthread_socket, get_hwthread_numa_domain,
  get_hwthread_die,
}
use cc_metric_collector.Values.{Result, ok, err, map_ok, Any, int, int64, string, ints}

-- one decimal digit
abbrev pub digit : ℕ → String
digit d =
    if d == 0
    then "0"
    else if d == 1
    then "1"
    else if d == 2
    then "2"
    else if d == 3
    then "3"
    else if d == 4
    then "4"
    else if d == 5
    then "5"
    else if d == 6
    then "6"
    else if d == 7
    then "7"
    else if d == 8
    then "8"
    else "9"

unfoldable pub digits_fuel : ℕ → ℕ → String
digits_fuel zero n = ""
digits_fuel (suc fuel) n =
    let more = digits_fuel fuel (n / 10) in if ltb n 10 then digit n else more ++ digit (n % 10)

-- strconv.Itoa; n + 1 rounds are enough, since each divides by ten
unfoldable pub itoa : ℤ → String
itoa (pos n) = digits_fuel (suc n) n
itoa (negsuc n) = "-" ++ digits_fuel (suc (suc n)) (suc n)

-- slices.Contains
unfoldable pub list_contains : List ℤ → ℤ → Bool
list_contains [] v = false
list_contains (w ∷ ws) v = eqb_ℤ w v || list_contains ws v

module _ {F G : Type 0} where
  -- `infunc`, whose error is always nil
  unfoldable pub in_func : Any F G → Any F G → Bool
  in_func (string match) (string total) = contains total match
  in_func (int match) (ints total) = list_contains total match
  in_func (int match) (string total) = contains total (itoa match)
  in_func _ _ = false

  -- the match of a pattern in a text; "%" stands for "\\"
  unfoldable pub match_text : (String → Result (String → Bool)) → String → Any F G → Result Bool
  match_text compile match (string total) =
      map_ok (λ (found : String → Bool). found total) (compile (replace_char "%" "\\" match))
  match_text compile match _ = ok false

  abbrev pub match_first :
      (String → Result (String → Bool)) → List (Any F G) → Any F G → Run (Result Bool)
  match_first compile args (string match) = do
    total ← at args 1
    done (match_text compile match total)
  match_first compile args _ = done (ok false)

  -- `matchfunc`; the second argument is only read if the first is a text
  unfoldable pub match_func : (String → Result (String → Bool)) → List (Any F G) → Run (Result Bool)
  match_func compile args = do match ← at args 0; match_first compile args match

module _ {F G : Type 0} (t : Topology) where
  unfoldable pub get_cpu_core_func : Any F G → Result (Any F G)
  get_cpu_core_func (int cpuid) = ok (int (get_hwthread_core t cpuid))
  get_cpu_core_func _ = err "function 'getCpuCore' accepts only an 'int' cpuid"

  unfoldable pub get_cpu_socket_func : Any F G → Result (Any F G)
  get_cpu_socket_func (int cpuid) = ok (int (get_hwthread_socket t cpuid))
  get_cpu_socket_func _ = err "function 'getCpuCore' accepts only an 'int' cpuid"

  unfoldable pub get_cpu_numa_domain_func : Any F G → Result (Any F G)
  get_cpu_numa_domain_func (int cpuid) = ok (int (get_hwthread_numa_domain t cpuid))
  get_cpu_numa_domain_func _ = err "function 'getCpuNuma' accepts only an 'int' cpuid"

  unfoldable pub get_cpu_die_func : Any F G → Result (Any F G)
  get_cpu_die_func (int cpuid) = ok (int (get_hwthread_die t cpuid))
  get_cpu_die_func _ = err "function 'getCpuDie' accepts only an 'int' cpuid"

  -- The four lists of hardware threads, whose errors are always nil: the entries of the table whose
  -- field is the argument. Another argument than an int gives an empty list.
  unfoldable pub get_cpu_list_of_core_func : Any F G → List ℤ
  get_cpu_list_of_core_func (int id) =
      map (λ c. c.cpu_id) (filter (λ c. eqb_ℤ c.core id) t.cpu_data)
  get_cpu_list_of_core_func _ = []

  unfoldable pub get_cpu_list_of_socket_func : Any F G → List ℤ
  get_cpu_list_of_socket_func (int id) =
      map (λ c. c.cpu_id) (filter (λ c. eqb_ℤ c.socket id) t.cpu_data)
  get_cpu_list_of_socket_func _ = []

  unfoldable pub get_cpu_list_of_numa_domain_func : Any F G → List ℤ
  get_cpu_list_of_numa_domain_func (int id) =
      map (λ c. c.cpu_id) (filter (λ c. eqb_ℤ c.numa_domain id) t.cpu_data)
  get_cpu_list_of_numa_domain_func _ = []

  unfoldable pub get_cpu_list_of_die_func : Any F G → List ℤ
  get_cpu_list_of_die_func (int id) = map (λ c. c.cpu_id) (filter (λ c. eqb_ℤ c.die id) t.cpu_data)
  get_cpu_list_of_die_func _ = []

  -- the inner switch of `getCpuListOfType`; the list that is built for "hwthread" is returned with
  -- an error, like every list at the end of the function
  unfoldable pub list_of_type_name : String → List (Any F G) → Run (Result (List ℤ))
  list_of_type_name typ args =
      if str_eq typ "node"
      then done (ok t.hwthread_list)
      else if str_eq typ "socket"
      then (do id ← at args 1; done (ok (get_cpu_list_of_socket_func id)))
      else if str_eq typ "numadomain"
      then (do id ← at args 1; done (ok (get_cpu_list_of_numa_domain_func id)))
      else if str_eq typ "core"
      then (do id ← at args 1; done (ok (get_cpu_list_of_core_func id)))
      else if str_eq typ "hwthread"
      then (do id ← at args 1; done (err "no valid args type and type-id"))
      else done (err "no valid args type and type-id")

  abbrev pub list_of_first : List (Any F G) → Any F G → Run (Result (List ℤ))
  list_of_first args (string typ) = list_of_type_name typ args
  list_of_first args _ = done (err "no valid args type and type-id")

  -- `getCpuListOfType`
  unfoldable pub get_cpu_list_of_type : List (Any F G) → Run (Result (List ℤ))
  get_cpu_list_of_type args = do typ ← at args 0; list_of_first args typ

itoa_runs : itoa (negsuc 119) ≡ "-120"
unfolding itoa digits_fuel
itoa_runs = refl
