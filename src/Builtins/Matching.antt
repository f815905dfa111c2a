-- ===== src/Builtins/Matching.antt =====
-- The operator `in`: membership in a list, and a text within a text.
use Prim.Native.String.{◌++◌}
use text.Mathlib.Text.{starts_with}
use text.Mathlib.TextEquality.{starts_with_iff}
use text.Mathlib.TextLemmas.{nil-append, cons-append, nil≢cons, tail-eq_of_cons-eq}
use cc_metric_collector.Prelude.{
  ◌≡◌, refl, sym, ap, ◌∙◌, inl, inr, ◌↔◌, Bool-cases, true, false, String, List, [], ◌∷◌, Elem,
}
use cc_metric_collector.Prelude.Int.{ℤ, eqb_ℤ, eqb_ℤ_iff}
use cc_metric_collector.Prelude.Text.{contains}
use cc_metric_collector.Values.{int, string, ints}
use cc_metric_collector.Builtins.{list_contains, in_func, itoa}

pub list_contains-Elem : (ws : List ℤ) (v : ℤ) → (list_contains ws v ≡ true) ↔ Elem v ws
unfolding list_contains
list_contains-Elem [] v = (λ h. cc, λ m. absurd m)
list_contains-Elem (w ∷ ws) v = elim (Bool-cases (eqb_ℤ w v)) [
  | inl e ↦ rw e (λ _. inl (sym ((eqb_ℤ_iff w v).0 e)), λ _. refl)
  | inr e ↦ rw e (λ h. inr ((list_contains-Elem ws v).0 h), later e (list_contains-Elem ws v).1)
]
  where
    later :
        eqb_ℤ w v ≡ false
        → (Elem v ws → list_contains ws v ≡ true)
        → Elem v (w ∷ ws)
        → list_contains ws v ≡ true
    later e f (inl p) = cc (e, (eqb_ℤ_iff w v).1 (sym p))
    later e f (inr m) = f m

-- a text with another one somewhere inside
abbrev pub Within : String → String → Type 0
Within sub s = (before : String) × (after : String) × (before ++ (sub ++ after) ≡ s)

contains→Within : (s sub : String) → contains s sub ≡ true → Within sub s
unfolding contains
contains→Within String.[] sub h =
    let (u, e) = (starts_with_iff String.[] sub).0 h in (String.[], u, nil-append _ ∙ e)
contains→Within (String.◌∷◌ c s) sub h = elim (Bool-cases (starts_with (String.◌∷◌ c s) sub)) [
  | inl p ↦
      let (u, e) = (starts_with_iff (String.◌∷◌ c s) sub).0 p in (String.[], u, nil-append _ ∙ e)
  | inr n ↦
      let (b, a, e) = contains→Within s sub (rw n at h) in
      (String.◌∷◌ c b, a, cons-append c b _ ∙ ap (String.◌∷◌ c) e)
]

Within→contains :
    (s sub before after : String) → before ++ (sub ++ after) ≡ s → contains s sub ≡ true
unfolding contains
Within→contains String.[] sub String.[] after e =
    (starts_with_iff String.[] sub).1 (after, sym (nil-append _) ∙ e)
Within→contains String.[] sub (String.◌∷◌ b bs) after e =
    absurd (nil≢cons (sym e ∙ cons-append b bs _))
Within→contains (String.◌∷◌ c s) sub String.[] after e =
    rw ((starts_with_iff (String.◌∷◌ c s) sub).1 (after, sym (nil-append _) ∙ e))
Within→contains (String.◌∷◌ c s) sub (String.◌∷◌ b bs) after e =
    elim (Bool-cases (starts_with (String.◌∷◌ c s) sub)) [
      | inl p ↦ rw p
      | inr n ↦
          rw n (Within→contains s sub bs after (tail-eq_of_cons-eq (sym (cons-append b bs _) ∙ e)))
    ]

module _ (F G : Type 0) where
  -- `in` holds of an int and a list exactly if it is an element, and of two texts exactly if the
  -- first stands somewhere within the second; an int in a text is its decimal text.
  pub in_func_iff :
      ((v : ℤ) (vs : List ℤ) → (in_func {F = F} {G = G} (int v) (ints vs) ≡ true) ↔ Elem v vs)
      × ((sub s : String) → (in_func {F = F} {G = G} (string sub) (string s) ≡ true) ↔ Within sub s)
      × ((v : ℤ) (s : String)
          → (in_func {F = F} {G = G} (int v) (string s) ≡ true) ↔ Within (itoa v) s)
  unfolding in_func
  in_func_iff = (
    λ v vs. list_contains-Elem vs v,
    λ sub s. (contains→Within s sub, λ w. Within→contains s sub w.0 w.1 w.2),
    λ v s. (contains→Within s (itoa v), λ w. Within→contains s (itoa v) w.0 w.1 w.2),
  )
