-- ===== src/Prelude/Sort.antt =====
-- Go's `slices.Sort` as an insertion sort by a strict order `less`, and `slices.Compact`.
use mathlib.Core.List.{Perm}
use mathlib.Core.List.Perm
use Prim.Native.Nat.{suc}
use mathlib.Core.Path.{◌≡◌, refl, ap, ◌∙◌}
use mathlib.Core.Logic.{inl, inr}
use mathlib.Core.Bool.{Bool, true, false}
use mathlib.Core.List.{List, [], ◌∷◌}
use native.Mathlib.Omega.{arith}
use cc_metric_collector.Prelude.Tests.{if◌then◌else◌, Bool-cases}
use cc_metric_collector.Prelude.Lists.{length, All}

module _ {T : Type 0} (less : T → T → Bool) where
  unfoldable pub insert_sorted : T → List T → List T
  insert_sorted v [] = v ∷ []
  insert_sorted v (w ∷ ws) = if less w v then w ∷ insert_sorted v ws else v ∷ w ∷ ws

  -- slices.Sort
  unfoldable pub sort : List T → List T
  sort [] = []
  sort (v ∷ vs) = insert_sorted v (sort vs)

  -- ascending: no value is below one that stands before it
  abbrev pub IsAscending : List T → Type 0
  IsAscending [] = Unit
  IsAscending (v ∷ vs) = All (λ w. less w v ≡ false) vs × IsAscending vs

  insert_sorted-perm : (v : T) (ws : List T) → Perm (insert_sorted v ws) (v ∷ ws)
  unfolding insert_sorted
  insert_sorted-perm v [] = Perm.refl _
  insert_sorted-perm v (w ∷ ws) = elim (Bool-cases (less w v)) [
    | inl b ↦ rw b (Perm.trans (Perm.cons w (insert_sorted-perm v ws)) (Perm.swap v w ws))
    | inr b ↦ rw b (Perm.refl _)
  ]

  pub sort-perm : (vs : List T) → Perm (sort vs) vs
  unfolding sort
  sort-perm [] = Perm.refl _
  sort-perm (v ∷ vs) = Perm.trans (insert_sorted-perm v (sort vs)) (Perm.cons v (sort-perm vs))

  length-insert_sorted : (v : T) (ws : List T) → length (insert_sorted v ws) ≡ suc (length ws)
  unfolding insert_sorted
  length-insert_sorted v [] = refl
  length-insert_sorted v (w ∷ ws) = ground (arith, length-insert_sorted v ws)

  pub length-sort : (vs : List T) → length (sort vs) ≡ length vs
  unfolding sort
  length-sort [] = refl
  length-sort (v ∷ vs) = length-insert_sorted v (sort vs) ∙ ap suc (length-sort vs)

-- A strict order whose complement is transitive, as Go's `cmp.Less` on integers is.
pub record IsStrictOrder {T : Type 0} (less : T → T → Bool) : Type 0 where
  pub asym : (a b : T) → less a b ≡ true → less b a ≡ false
  pub trans : (a b c : T) → less b a ≡ false → less c b ≡ false → less c a ≡ false

module _ {T : Type 0} (less : T → T → Bool) (order : IsStrictOrder less) where
  All-from :
      (v w : T) (ws : List T)
      → less w v ≡ false
      → All (λ x. less x w ≡ false) ws
      → All (λ x. less x v ≡ false) ws
  All-from v w [] h a = tt
  All-from v w (x ∷ ws) h a = (order.trans v w x h a.0, All-from v w ws h a.1)

  insert_sorted-IsAscending :
      (v : T) (ws : List T) → IsAscending less ws → IsAscending less (insert_sorted less v ws)
  unfolding insert_sorted
  insert_sorted-IsAscending v [] s = (tt, tt)
  insert_sorted-IsAscending v (w ∷ ws) s = elim (Bool-cases (less w v)) [
    | inl b ↦ rw b (All-insert_sorted ws (order.asym w v b) s.0, insert_sorted-IsAscending v ws s.1)
    | inr b ↦ rw b ((b, All-from v w ws b s.0), s)
  ]
    where
      All-insert_sorted :
          (xs : List T)
          → less v w ≡ false
          → All (λ x. less x w ≡ false) xs
          → All (λ x. less x w ≡ false) (insert_sorted less v xs)
      All-insert_sorted [] h a = (h, tt)
      All-insert_sorted (x ∷ xs) h a = elim (Bool-cases (less x v)) [
        | inl b ↦ rw b (a.0, All-insert_sorted xs h a.1)
        | inr b ↦ rw b (h, a)
      ]

  pub sort-IsAscending : (vs : List T) → IsAscending less (sort less vs)
  unfolding sort
  sort-IsAscending [] = tt
  sort-IsAscending (v ∷ vs) = insert_sorted-IsAscending v (sort less vs) (sort-IsAscending vs)
