-- ===== src/Topology/Distinct.antt =====
-- Sorting and compacting a list of IDs: the result is strictly ascending, with the same elements.
use cc_metric_collector.Prelude.{
  ◌≡◌, ◌⊎◌, inl, inr, ◌↔◌, true, false, Bool-cases, List, [], ◌∷◌, arith, All, Elem,
}
use cc_metric_collector.Prelude.Int.{ℤ, pos, negsuc, eqb_ℤ, eqb_ℤ_iff, ltb_ℤ}
use cc_metric_collector.Prelude.Sort.{
  insert_sorted, sort, IsAscending, IsStrictOrder, sort-IsAscending,
}
use cc_metric_collector.Topology.{compact_after, compact, distinct}

-- every value is below all that stand behind it
abbrev pub IsStrict : List ℤ → Type 0
IsStrict [] = Unit
IsStrict (v ∷ vs) = All (λ w. ltb_ℤ v w ≡ true) vs × IsStrict vs

ltb_ℤ-IsStrictOrder : IsStrictOrder ltb_ℤ
ltb_ℤ-IsStrictOrder = record { asym = λ a b h. ground arith; trans = λ a b c h k. ground arith }

All-below :
    (v w : ℤ) (ws : List ℤ)
    → ltb_ℤ v w ≡ true
    → All (λ x. ltb_ℤ w x ≡ true) ws
    → All (λ x. ltb_ℤ v x ≡ true) ws
All-below v w [] h a = tt
All-below v w (x ∷ ws) h a = (ltb_trans v w x h a.0, All-below v w ws h a.1)
  where
    ltb_trans : (a b c : ℤ) → ltb_ℤ a b ≡ true → ltb_ℤ b c ≡ true → ltb_ℤ a c ≡ true
    ltb_trans a b c h k = ground arith

ltb_of_ne : (v w : ℤ) → ltb_ℤ w v ≡ false → eqb_ℤ v w ≡ false → ltb_ℤ v w ≡ true
ltb_of_ne (pos a) (pos b) h e = ground arith
ltb_of_ne (pos a) (negsuc b) h e = ground arith
ltb_of_ne (negsuc a) (pos b) h e = ground arith
ltb_of_ne (negsuc a) (negsuc b) h e = ground arith

compact_after-IsStrict :
    (v : ℤ) (ws : List ℤ) → IsAscending ltb_ℤ (v ∷ ws) → IsStrict (v ∷ compact_after v ws)
unfolding compact_after
compact_after-IsStrict v [] s = (tt, tt)
compact_after-IsStrict v (w ∷ ws) s = elim (Bool-cases (eqb_ℤ v w)) [
  | inl e ↦ rw e (compact_after-IsStrict v ws (s.0.1, s.1.1))
  | inr e ↦
      let r = compact_after-IsStrict w ws s.1 in
      let below = ltb_of_ne v w s.0.0 e in rw e ((below, All-below v w _ below r.0), r)
]

compact_after-Elem : (x v : ℤ) (ws : List ℤ) → Elem x (v ∷ compact_after v ws) ↔ Elem x (v ∷ ws)
unfolding compact_after
compact_after-Elem x v [] = (λ m. m, λ m. m)
compact_after-Elem x v (w ∷ ws) = elim (Bool-cases (eqb_ℤ v w)) [
  | inl e ↦
      let same = (eqb_ℤ_iff v w).0 e in
      let r = compact_after-Elem x v ws in rw e (λ m. go same (r.0 m), λ m. r.1 (back same m))
  | inr e ↦ let r = compact_after-Elem x w ws in rw e (λ m. onto r.0 m, λ m. onto r.1 m)
]
  where
    go : v ≡ w → Elem x (v ∷ ws) → Elem x (v ∷ w ∷ ws)
    go same (inl p) = inl p
    go same (inr p) = inr (inr p)

    back : v ≡ w → Elem x (v ∷ w ∷ ws) → Elem x (v ∷ ws)
    back same (inl p) = inl p
    back same (inr (inl p)) = inl (cc)
    back same (inr (inr p)) = inr p

    onto : {A B : Type 0} → (A → B) → (x ≡ v) ⊎ A → (x ≡ v) ⊎ B
    onto f (inl p) = inl p
    onto f (inr a) = inr (f a)

insert_sorted-Elem : (x v : ℤ) (ws : List ℤ) → Elem x (insert_sorted ltb_ℤ v ws) ↔ Elem x (v ∷ ws)
unfolding insert_sorted
insert_sorted-Elem x v [] = (λ m. m, λ m. m)
insert_sorted-Elem x v (w ∷ ws) = elim (Bool-cases (ltb_ℤ w v)) [
  | inl b ↦ let r = insert_sorted-Elem x v ws in rw b (out r.0, into r.1)
  | inr b ↦ rw b (λ m. m, λ m. m)
]
  where
    out : {A : Type 0} → (A → Elem x (v ∷ ws)) → (x ≡ w) ⊎ A → Elem x (v ∷ w ∷ ws)
    out f (inl p) = inr (inl p)
    out f (inr m) = elim (f m) [ inl p ↦ inl p | inr q ↦ inr (inr q) ]

    into : {A : Type 0} → (Elem x (v ∷ ws) → A) → Elem x (v ∷ w ∷ ws) → (x ≡ w) ⊎ A
    into f (inl p) = inr (f (inl p))
    into f (inr (inl p)) = inl p
    into f (inr (inr p)) = inr (f (inr p))

sort-Elem : (x : ℤ) (vs : List ℤ) → Elem x (sort ltb_ℤ vs) ↔ Elem x vs
unfolding sort
sort-Elem x [] = (λ m. m, λ m. m)
sort-Elem x (v ∷ vs) =
    let i = insert_sorted-Elem x v (sort ltb_ℤ vs) in
    let r = sort-Elem x vs in (λ m. onto r.0 (i.0 m), λ m. i.1 (onto r.1 m))
  where
    onto : {A B : Type 0} → (A → B) → (x ≡ v) ⊎ A → (x ≡ v) ⊎ B
    onto f (inl p) = inl p
    onto f (inr a) = inr (f a)

compact-Elem : (x : ℤ) (vs : List ℤ) → Elem x (compact vs) ↔ Elem x vs
unfolding compact
compact-Elem x [] = (λ m. m, λ m. m)
compact-Elem x (v ∷ vs) = compact_after-Elem x v vs

compact-IsStrict : (vs : List ℤ) → IsAscending ltb_ℤ vs → IsStrict (compact vs)
unfolding compact
compact-IsStrict [] s = tt
compact-IsStrict (v ∷ vs) s = compact_after-IsStrict v vs s

-- `slices.Sort` and `slices.Compact` leave a strictly ascending list with the same elements.
pub distinct-IsStrict :
    (vs : List ℤ) → IsStrict (distinct vs) × ((x : ℤ) → Elem x (distinct vs) ↔ Elem x vs)
unfolding distinct
distinct-IsStrict vs = (
  compact-IsStrict _ (sort-IsAscending ltb_ℤ ltb_ℤ-IsStrictOrder vs),
  λ x.
      let c = compact-Elem x (sort ltb_ℤ vs) in
      let s = sort-Elem x vs in (λ m. s.0 (c.0 m), λ m. c.1 (s.1 m)),
)
