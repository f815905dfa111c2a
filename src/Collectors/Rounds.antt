-- ===== src/Collectors/Rounds.antt =====
-- The rounds of the manager: what a tick reads, and what the signal of `Close` leaves.
use cc_metric_collector.Prelude.{
  ℕ, zero, suc, ◌≡◌, refl, ap, ◌∙◌, Bool, true, false, Option, none, some, List, [], ◌∷◌, ◌++◌, map,
  Bool-cases, Option-cases, inl, inr, if◌then◌else◌,
}
use cc_metric_collector.Collectors.{
  Manager, Call, started, read, closed, joined, ended, finish, visit, round, run,
}

module _ {C : Type 0} where
  visit_all : (call : C → Call C) (cs : List C) → visit call none cs ≡ (map call cs, some none)
  unfolding visit
  visit_all call [] = refl
  visit_all call (c ∷ cs) = rw (visit_all call cs) refl

  -- the three ways through a round
  module _ (budget : Option ℕ) (cm : Manager C) where
    round_starting :
        (visit started budget cm.collectors).1 ≡ none
        → round budget cm ≡ ((visit started budget cm.collectors).0 ++ finish true cm, false)
    unfolding round
    round_starting h = rw (h, round) refl

    round_reading :
        (left : Option ℕ)
        → (visit started budget cm.collectors).1 ≡ some left
        → (visit read left cm.serial).1 ≡ none
        → round budget cm ≡ (
          (visit started budget cm.collectors).0
              ++ joined ∷ (visit read left cm.serial).0
              ++ finish false cm,
          false,
        )
    unfolding round
    round_reading left h k = rw (h, round) (rw k refl)

    round_through :
        (left left' : Option ℕ)
        → (visit started budget cm.collectors).1 ≡ some left
        → (visit read left cm.serial).1 ≡ some left'
        → round budget cm
          ≡ ((visit started budget cm.collectors).0 ++ joined ∷ (visit read left cm.serial).0, true)
    unfolding round
    round_through left left' h k = rw (h, round) (rw k refl)

  -- Without the signal, a round starts every parallel collector, waits for them, and then reads
  -- every serial one, in order, and the loop goes on.
  pub round_all :
      (cm : Manager C)
      → round none cm ≡ (map started cm.collectors ++ joined ∷ map read cm.serial, true)
  round_all cm =
      round_through none cm none none (ap (λ v. v.1) (visit_all started cm.collectors))
        (ap (λ v. v.1) (visit_all read cm.serial))
      ∙ rw (visit_all started cm.collectors, visit_all read cm.serial) refl

  -- the collectors that a list of calls closes, in order
  unfoldable pub closed_of : List (Call C) → List C
  closed_of [] = []
  closed_of (closed c ∷ calls) = c ∷ closed_of calls
  closed_of (started c ∷ calls) = closed_of calls
  closed_of (read c ∷ calls) = closed_of calls
  closed_of (joined ∷ calls) = closed_of calls
  closed_of (ended ∷ calls) = closed_of calls

  closed_of-append : (xs ys : List (Call C)) → closed_of (xs ++ ys) ≡ closed_of xs ++ closed_of ys
  unfolding closed_of
  closed_of-append [] ys = refl
  closed_of-append (closed c ∷ xs) ys = ap (◌∷◌ c) (closed_of-append xs ys)
  closed_of-append (started c ∷ xs) ys = closed_of-append xs ys
  closed_of-append (read c ∷ xs) ys = closed_of-append xs ys
  closed_of-append (joined ∷ xs) ys = closed_of-append xs ys
  closed_of-append (ended ∷ xs) ys = closed_of-append xs ys

  closed_of-closed : (cs : List C) → closed_of (map closed cs ++ ended ∷ []) ≡ cs
  unfolding closed_of
  closed_of-closed [] = refl
  closed_of-closed (c ∷ cs) = ap (◌∷◌ c) (closed_of-closed cs)

  closed_of-finish : (b : Bool) (cm : Manager C) → closed_of (finish b cm) ≡ cm.collectors
  unfolding finish closed_of
  closed_of-finish true cm = closed_of-closed cm.collectors
  closed_of-finish false cm = closed_of-closed cm.collectors

  closed_of-started : (budget : Option ℕ) (cs : List C) → closed_of (visit started budget cs).0 ≡ []
  unfolding closed_of visit
  closed_of-started budget [] = refl
  closed_of-started none (c ∷ cs) = closed_of-started none cs
  closed_of-started (some zero) (c ∷ cs) = refl
  closed_of-started (some (suc n)) (c ∷ cs) = closed_of-started (some n) cs

  closed_of-read : (budget : Option ℕ) (cs : List C) → closed_of (visit read budget cs).0 ≡ []
  unfolding closed_of visit
  closed_of-read budget [] = refl
  closed_of-read none (c ∷ cs) = closed_of-read none cs
  closed_of-read (some zero) (c ∷ cs) = refl
  closed_of-read (some (suc n)) (c ∷ cs) = closed_of-read (some n) cs

  closed_of-reads :
      (budget left : Option ℕ) (cm : Manager C)
      → closed_of ((visit started budget cm.collectors).0 ++ joined ∷ (visit read left cm.serial).0)
        ≡ []
  unfolding closed_of
  closed_of-reads budget left cm =
      closed_of-append (visit started budget cm.collectors).0
        (joined ∷ (visit read left cm.serial).0)
      ∙ rw (closed_of-started budget cm.collectors) (closed_of-read left cm.serial)

  closed_of-calls :
      (budget left : Option ℕ) (cm : Manager C) (rest : List (Call C))
      → closed_of
          ((visit started budget cm.collectors).0 ++ joined ∷ (visit read left cm.serial).0 ++ rest)
        ≡ closed_of rest
  unfolding closed_of
  closed_of-calls budget left cm rest =
      closed_of-append
        ((visit started budget cm.collectors).0 ++ joined ∷ (visit read left cm.serial).0) rest
      ∙ ap (λ cs. cs ++ closed_of rest) (closed_of-reads budget left cm)

  -- a round closes the parallel collectors exactly if it is the last one
  closed_of-round :
      (budget : Option ℕ) (cm : Manager C)
      → closed_of (round budget cm).0 ≡ (if (round budget cm).1 then [] else cm.collectors)
  unfolding closed_of
  closed_of-round budget cm = elim (Option-cases (visit started budget cm.collectors).1) [
    | inl h ↦
        rw
          (
            round_starting budget cm h,
            closed_of-append (visit started budget cm.collectors).0 (finish true cm),
            closed_of-started budget cm.collectors,
          )
          (closed_of-finish true cm)
    | inr (left, h) ↦ elim (Option-cases (visit read left cm.serial).1) [
      | inl k ↦
          rw (round_reading budget cm left h k)
            (closed_of-calls budget left cm (finish false cm) ∙ closed_of-finish false cm)
      | inr (left', k) ↦
          rw (round_through budget cm left left' h k) (closed_of-reads budget left cm)
    ]
  ]

  -- However many rounds there are and whenever the signal of `Close` comes, the manager closes
  -- each of the collectors that it reads in parallel once, in order, and none of those that it
  -- reads serially.
  pub run-closed_of :
      (k : ℕ) (last : Option ℕ) (cm : Manager C) → closed_of (run k last cm) ≡ cm.collectors
  unfolding run closed_of
  run-closed_of zero none cm = closed_of-finish false cm
  run-closed_of zero (some n) cm = elim (Bool-cases (round (some n) cm).1) [
    | inl h ↦
        rw
          (
            h,
            closed_of-append (round (some n) cm).0 (finish false cm),
            closed_of-round (some n) cm,
            h,
          )
          (closed_of-finish false cm)
    | inr h ↦ rw (h, closed_of-round (some n) cm, h) refl
  ]
  run-closed_of (suc k) last cm =
      closed_of-append (round none cm).0 (run k last cm)
      ∙ rw (closed_of-round none cm, ap (λ v. v.1) (round_all cm)) (run-closed_of k last cm)
