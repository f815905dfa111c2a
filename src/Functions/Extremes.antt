-- ===== src/Functions/Extremes.antt =====
-- `min` and `max` return a least and a greatest value of the list.
use mathlib.Core.Path.{subst}
use cc_metric_collector.Prelude.{
  sym, ◌∙◌, ℕ, ◌≡◌, refl, inl, inr, true, false, Bool-cases, List, [], ◌∷◌, foldl, arith, All, Elem,
  if◌then◌else◌,
}
use cc_metric_collector.Prelude.Int.{ℤ}
use cc_metric_collector.Values.{ok, Num, int_num}
use cc_metric_collector.Functions.{min_any_type, max_any_type}

-- The order of a number type: `less` is the strict part of a total preorder, and the builtins `min`
-- and `max` pick an argument by it.
pub record IsLinear {T F : Type 0} (n : Num T F) : Type 0 where
  pub irrefl : (a : T) → n.less a a ≡ false
  pub asym : (a b : T) → n.less a b ≡ true → n.less b a ≡ false
  pub trans : (a b c : T) → n.less b a ≡ false → n.less c b ≡ false → n.less c a ≡ false
  pub lower_lem : (a b : T) → n.lower a b ≡ (if n.less b a then b else a)
  pub upper_lem : (a b : T) → n.upper a b ≡ (if n.less a b then b else a)

-- Go's integer types of every width have such an order.
pub int_num-IsLinear : {F : Type 0} (h : ℕ) (of_int : ℤ → F) → IsLinear (int_num h of_int)
int_num-IsLinear h of_int = record {
  irrefl = λ a. ground arith;
  asym = λ a b e. ground arith;
  trans = λ a b c e e'. ground arith;
  lower_lem = λ a b. refl;
  upper_lem = λ a b. refl;
}

skip_second : {T : Type 0} {m v w : T} (ws : List T) → Elem m (v ∷ ws) → Elem m (v ∷ w ∷ ws)
skip_second ws (inl e) = inl e
skip_second ws (inr f) = inr (inr f)

module _ {T F : Type 0} (n : Num T F) (lin : IsLinear n) where
  abbrev pub Below : T → List T → Type 0
  Below m = All (λ x. n.less x m ≡ false)

  abbrev pub Above : T → List T → Type 0
  Above m = All (λ x. n.less m x ≡ false)

  fold_lower :
      (v : T) (ws : List T)
      → Elem (foldl n.lower v ws) (v ∷ ws) × Below (foldl n.lower v ws) (v ∷ ws)
  fold_lower v [] = (inl refl, (lin.irrefl v, tt))
  fold_lower v (w ∷ ws) = elim (Bool-cases (n.less w v)) [
    | inl below ↦
        let r = fold_lower w ws in
        let picked : n.lower v w ≡ w = lin.lower_lem v w ∙ rw below in
        subst
          (λ m. Elem (foldl n.lower m ws) (v ∷ w ∷ ws) × Below (foldl n.lower m ws) (v ∷ w ∷ ws))
          (sym picked) (inr r.0, (lin.trans _ w v r.1.0 (lin.asym w v below), r.1))
    | inr not_below ↦
        let r = fold_lower v ws in
        let picked : n.lower v w ≡ v = lin.lower_lem v w ∙ rw not_below in
        subst
          (λ m. Elem (foldl n.lower m ws) (v ∷ w ∷ ws) × Below (foldl n.lower m ws) (v ∷ w ∷ ws))
          (sym picked) (skip_second ws r.0, (r.1.0, (lin.trans _ v w r.1.0 not_below, r.1.1)))
  ]

  fold_upper :
      (v : T) (ws : List T)
      → Elem (foldl n.upper v ws) (v ∷ ws) × Above (foldl n.upper v ws) (v ∷ ws)
  fold_upper v [] = (inl refl, (lin.irrefl v, tt))
  fold_upper v (w ∷ ws) = elim (Bool-cases (n.less v w)) [
    | inl above ↦
        let r = fold_upper w ws in
        let picked : n.upper v w ≡ w = lin.upper_lem v w ∙ rw above in
        subst
          (λ m. Elem (foldl n.upper m ws) (v ∷ w ∷ ws) × Above (foldl n.upper m ws) (v ∷ w ∷ ws))
          (sym picked) (inr r.0, (lin.trans v w _ (lin.asym v w above) r.1.0, r.1))
    | inr not_above ↦
        let r = fold_upper v ws in
        let picked : n.upper v w ≡ v = lin.upper_lem v w ∙ rw not_above in
        subst
          (λ m. Elem (foldl n.upper m ws) (v ∷ w ∷ ws) × Above (foldl n.upper m ws) (v ∷ w ∷ ws))
          (sym picked) (skip_second ws r.0, (r.1.0, (lin.trans w v _ not_above r.1.0, r.1.1)))
  ]

  -- For a number type with a linear order, as the integers have, `min` of a list that is not empty
  -- returns a value of the list that none of its values is below.
  pub min_any_type-least :
      (v : T) (vs : List T)
      → (m : T) × (min_any_type n (v ∷ vs) ≡ ok m) × Elem m (v ∷ vs) × Below m (v ∷ vs)
  unfolding min_any_type
  min_any_type-least v vs = let (found, least) = fold_lower v vs in (_, refl, found, least)

  -- For a number type with a linear order, as the integers have, `max` of a list that is not empty
  -- returns a value of the list that none of its values is above.
  pub max_any_type-greatest :
      (v : T) (vs : List T)
      → (m : T) × (max_any_type n (v ∷ vs) ≡ ok m) × Elem m (v ∷ vs) × Above m (v ∷ vs)
  unfolding max_any_type
  max_any_type-greatest v vs = let (found, greatest) = fold_upper v vs in (_, refl, found, greatest)
