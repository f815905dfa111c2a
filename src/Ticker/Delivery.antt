-- ===== src/Ticker/Delivery.antt =====
-- Every channel gets every tick since it was added, in order, and is behind by one tick at most.
use cc_metric_collector.Prelude.{
  ℕ, zero, suc, ◌+◌, ◌≡◌, refl, sym, ap, ◌∙◌, Option, none, some, List, [], ◌∷◌, ◌++◌, length, map,
  arith, ◌≤◌, length-append, ◌⊎◌, inl, inr,
}
use cc_metric_collector.Ticker.{
  Phase, waiting, sending, finished, Ticker, Event, tick, send, end_of_loop, close, add_channel,
  push, step_in, Steps, stay, follow, new_ticker,
}

pub suc_add : (k : ℕ) → suc k ≡ k + 1
suc_add k = omega arith

module _ {Time : Type 0} where
  -- The abstract machine: a tick goes to all channels at once.
  unfoldable pub delivered : Event Time → List (List Time) → List (List Time)
  delivered (tick ts) cs = map (λ c. c ++ ts ∷ []) cs
  delivered add_channel cs = cs ++ [] ∷ []
  delivered _ cs = cs

  unfoldable pub deliveries : List (Event Time) → List (List Time) → List (List Time)
  deliveries [] cs = cs
  deliveries (e ∷ es) cs = deliveries es (delivered e cs)

  -- the channels once the loop has served the `m` channels behind the first `k`
  unfoldable pub complete : Time → ℕ → ℕ → List (List Time) → List (List Time)
  complete ts k m [] = []
  complete ts zero zero (c ∷ cs) = c ∷ cs
  complete ts zero (suc m) (c ∷ cs) = (c ++ ts ∷ []) ∷ complete ts zero m cs
  complete ts (suc k) m (c ∷ cs) = c ∷ complete ts k m cs

  pub complete-none : (ts : Time) (k : ℕ) (cs : List (List Time)) → complete ts k 0 cs ≡ cs
  unfolding complete
  complete-none ts k [] = refl
  complete-none ts zero (c ∷ cs) = refl
  complete-none ts (suc k) (c ∷ cs) = ap (◌∷◌ c) (complete-none ts k cs)

  pub complete-all :
      (ts : Time) (cs : List (List Time))
      → complete ts 0 (length cs) cs ≡ map (λ c. c ++ ts ∷ []) cs
  unfolding complete
  complete-all ts [] = refl
  complete-all ts (c ∷ cs) = ap (◌∷◌ (c ++ ts ∷ [])) (complete-all ts cs)

  pub complete-push :
      (ts : Time) (k m : ℕ) (cs : List (List Time))
      → complete ts (suc k) m (push ts k cs) ≡ complete ts k (suc m) cs
  unfolding complete push
  complete-push ts k m [] = refl
  complete-push ts zero m (c ∷ cs) = refl
  complete-push ts (suc k) m (c ∷ cs) = ap (◌∷◌ c) (complete-push ts k m cs)

  complete-append :
      (ts : Time) (k m : ℕ) (cs : List (List Time))
      → k + m ≤ length cs
      → complete ts k m (cs ++ [] ∷ []) ≡ complete ts k m cs ++ [] ∷ []
  unfolding complete
  complete-append ts zero zero [] h = refl
  complete-append ts zero (suc m) [] h = ground (arith, h)
  complete-append ts (suc k) m [] h = ground (arith, h)
  complete-append ts zero zero (c ∷ cs) h = refl
  complete-append ts zero (suc m) (c ∷ cs) h =
      ap (◌∷◌ (c ++ ts ∷ [])) (complete-append ts zero m cs (omega (arith, h)))
  complete-append ts (suc k) m (c ∷ cs) h =
      ap (◌∷◌ c) (complete-append ts k m cs (omega (arith, h)))

  length-push : (ts : Time) (k : ℕ) (cs : List (List Time)) → length (push ts k cs) ≡ length cs
  unfolding push
  length-push ts k [] = refl
  length-push ts zero (c ∷ cs) = refl
  length-push ts (suc k) (c ∷ cs) = ap suc (length-push ts k cs)

  -- How far the channels are behind those of the abstract machine: not at all between two ticks,
  -- by the tick that the loop is sending, and at the end by one tick at most.
  abbrev pub Behind : List (List Time) → List (List Time) → Phase Time → Type 0
  Behind all cs waiting = all ≡ cs
  Behind all cs (sending ts k m) = (all ≡ complete ts k m cs) × (k + m ≤ length cs)
  Behind all cs finished =
      (all ≡ cs)
      ⊎ ((ts : Time) × (k : ℕ) × (m : ℕ) × (all ≡ complete ts k m cs) × (k + m ≤ length cs))

  abbrev WhenSome : (Ticker Time → Type 0) → Option (Ticker Time) → Type 0
  WhenSome Q none = Unit {0}
  WhenSome Q (some u) = Q u

  -- a channel added while the loop runs, or after it
  add-sending :
      (all cs : List (List Time)) (ts : Time) (k m : ℕ)
      → all ≡ complete ts k m cs
      → k + m ≤ length cs
      → (all ++ [] ∷ [] ≡ complete ts k m (cs ++ [] ∷ [])) × (k + m ≤ length (cs ++ [] ∷ []))
  add-sending all cs ts k m e h = (
    ap (λ xs. xs ++ [] ∷ []) e ∙ sym (complete-append ts k m cs h),
    omega (arith, h, length-append cs ([] ∷ [])),
  )

  step_in-Behind :
      (e : Event Time) (all cs : List (List Time)) (phase : Phase Time)
      → Behind all cs phase
      → WhenSome (λ u. Behind (delivered e all) u.channels u.phase) (step_in e cs phase)
  unfolding step_in delivered
  step_in-Behind (tick ts) all cs waiting h =
      (ap (map (λ c. c ++ ts ∷ [])) h ∙ sym (complete-all ts cs), omega arith)
  step_in-Behind (tick ts) all cs (sending t k m) h = tt
  step_in-Behind (tick ts) all cs finished h = tt
  step_in-Behind send all cs waiting h = tt
  step_in-Behind send all cs (sending ts k zero) h = tt
  step_in-Behind send all cs (sending ts k (suc m)) h = (
    h.0 ∙ sym (complete-push ts k m cs) ∙ ap (λ i. complete ts i m (push ts k cs)) (suc_add k),
    omega (arith, h.1, length-push ts k cs),
  )
  step_in-Behind send all cs finished h = tt
  step_in-Behind end_of_loop all cs waiting h = tt
  step_in-Behind end_of_loop all cs (sending ts k zero) h = h.0 ∙ complete-none ts k cs
  step_in-Behind end_of_loop all cs (sending ts k (suc m)) h = tt
  step_in-Behind end_of_loop all cs finished h = tt
  step_in-Behind close all cs waiting h = inl h
  step_in-Behind close all cs (sending ts k zero) h = tt
  step_in-Behind close all cs (sending ts k (suc m)) h = inr (ts, k, suc m, h.0, h.1)
  step_in-Behind close all cs finished h = tt
  step_in-Behind add_channel all cs waiting h = ap (λ xs. xs ++ [] ∷ []) h
  step_in-Behind add_channel all cs (sending ts k m) h = add-sending all cs ts k m h.0 h.1
  step_in-Behind add_channel all cs finished (inl h) = inl (ap (λ xs. xs ++ [] ∷ []) h)
  step_in-Behind add_channel all cs finished (inr (ts, k, m, h, l)) =
      let (h', b) = add-sending all cs ts k m h l in inr (ts, k, m, h', b)

  Steps-Behind :
      {es : List (Event Time)} {t u : Ticker Time} (all : List (List Time))
      → Steps es t u
      → Behind all t.channels t.phase
      → Behind (deliveries es all) u.channels u.phase
  unfolding deliveries
  Steps-Behind all stay h = h
  Steps-Behind all (follow {e = e} {t = t} s rest) h =
      Steps-Behind (delivered e all) rest (rw s at (step_in-Behind e all t.channels t.phase h))

  -- From a new ticker, whatever the order of ticks, sends, new channels and a close: between two
  -- ticks every channel has got exactly the ticks since it was added, in order; in the loop and
  -- after a close, the channels from some index on lack the last tick only.
  pub new_ticker-Behind :
      (es : List (Event Time)) (u : Ticker Time)
      → Steps es new_ticker u
      → Behind (deliveries es []) u.channels u.phase
  new_ticker-Behind es u s = Steps-Behind [] s refl
