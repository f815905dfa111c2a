-- ===== src/Router/Loop/History.antt =====
-- The loop of the router without a cache: what every output gets over a sequence of events.
use mathlib.Core.Bool.{false}
use cc_metric_collector.Prelude.{
  ℕ, ◌+◌, ◌-◌, ◌≡◌, refl, sym, ap, ◌∙◌, String, Option, none, some, List, [], ◌∷◌, ◌++◌, map, take,
  drop, append_assoc, append-nil, arith, inl, inr, Option-cases, zero, suc, lt→ltb, if◌then◌else◌,
}
use cc_metric_collector.Prelude.Int.{pos, ltb_ℤ}
use cc_metric_collector.Prelude.Run.{Run, done}
use cc_metric_collector.Router.{Processor, Setup}
use cc_metric_collector.Router.Loop.{
  Router, Timed, Event, timer, collected, received, aggregated, send_all, forwarded, deliver,
  stamped, recv_forward, cache_forward, coll_forward, forward_more, burst, turn, turns,
}

-- the messages that a list of messages turns into, the dropped ones and the errors left out
unfoldable pub kept : {Msg : Type 0} → (Msg → Option Msg × Option String) → List Msg → List Msg
kept f [] = []
kept f (m ∷ ms) = elim (forwarded (f m)) [ none ↦ kept f ms | some n ↦ n ∷ kept f ms ]

module _ {Msg : Type 0} (f : Msg → Option Msg × Option String) (m : Msg) (ms : List Msg) where
  pub kept-dropped : forwarded (f m) ≡ none → kept f (m ∷ ms) ≡ kept f ms
  unfolding kept
  kept-dropped e = rw (e, kept)

  pub kept-sent : (n : Msg) → forwarded (f m) ≡ some n → kept f (m ∷ ms) ≡ n ∷ kept f ms
  unfolding kept
  kept-sent n e = rw (e, kept)

module _ {S Msg : Type 0} (f : Msg → S → S) where
  unfoldable pub all_of : List Msg → S → S
  all_of [] s = s
  all_of (m ∷ ms) s = all_of ms (f m s)

  -- `forward` computes `f` in the states with `J`, which it keeps.
  module _ (forward : Msg → S → Run S) (J : S → Type 0)
      (h : (m : Msg) (s : S) → J s → forward m s ≡ done (f m s))
      (keeps : (m : Msg) (s : S) → J s → J (f m s)) where
    more-all_of :
        (k limit i : ℕ) (ps : List Msg) (s : S)
        → J s
        → i + k ≡ limit - 1
        → forward_more forward limit i ps s ≡ done (drop k ps, all_of (take k ps) s)
    unfolding forward_more all_of
    more-all_of zero limit i [] s j e = refl
    more-all_of (suc k) limit i [] s j e = refl
    more-all_of zero limit i (p ∷ ps) s j e = ground (arith, e)
    more-all_of (suc k) limit i (p ∷ ps) s j e =
        rw (lt→ltb i (limit - 1) (omega (arith, e)), h p s j)
          (more-all_of k limit (i + 1) ps (f p s) (keeps p s j) (omega (arith, e)))

    -- A burst takes the message received and at most `limit - 1` more, in their order.
    pub burst-all_of :
        (limit : ℕ) (p : Msg) (ps : List Msg) (s : S)
        → J s
        → burst forward limit p ps s
          ≡ done (drop (limit - 1) ps, all_of (p ∷ take (limit - 1) ps) s)
    unfolding burst all_of
    burst-all_of limit p ps s j =
        rw (h p s j) (more-all_of (limit - 1) limit 0 ps (f p s) (keeps p s j) (omega arith))

module _ {Time Msg : Type 0} where
  -- the timestamp after a sequence of events
  unfoldable pub last_time : List (Event Time Msg) → Time → Time
  last_time [] ts = ts
  last_time (timer t ∷ es) ts = last_time es t
  last_time (collected p ps ∷ es) ts = last_time es ts
  last_time (received p ps ∷ es) ts = last_time es ts
  last_time (aggregated p ps ∷ es) ts = last_time es ts

module _ {Msg : Type 0} where
  send_all-map : (m : Msg) (os : List (List Msg)) → send_all m os ≡ map (λ o. o ++ m ∷ []) os
  unfolding send_all
  send_all-map m [] = refl
  send_all-map m (o ∷ os) = ap (◌∷◌ (o ++ m ∷ [])) (send_all-map m os)

  map-none : (os : List (List Msg)) → map (λ o. o ++ []) os ≡ os
  map-none [] = refl
  map-none (o ∷ os) = rw (append-nil o, map-none os) refl

  map-twice :
      (xs ys : List Msg) (os : List (List Msg))
      → map (λ o. o ++ ys) (map (λ o. o ++ xs) os) ≡ map (λ o. o ++ (xs ++ ys)) os
  map-twice xs ys [] = refl
  map-twice xs ys (o ∷ os) = rw (append_assoc o xs ys, map-twice xs ys os) refl

module _ {F G Time Msg E P : Type 0} where
  -- a state whose outputs got some more messages, the same for all
  abbrev pub sent : List Msg → Router F G Time Msg E P → Router F G Time Msg E P
  sent ms r = record r { outputs = map (λ o. o ++ ms) r.outputs }

  pub sent-none : (r : Router F G Time Msg E P) → sent [] r ≡ r
  sent-none r = ap (λ os. record r { outputs = os }) (map-none r.outputs)

  pub sent-sent :
      (xs ys : List Msg) (r : Router F G Time Msg E P) → sent ys (sent xs r) ≡ sent (xs ++ ys) r
  sent-sent xs ys r = ap (λ os. record r { outputs = os }) (map-twice xs ys r.outputs)

  sent-then :
      (xs ys : List Msg) (r : Router F G Time Msg E P) (t : Time)
      → done (record (sent ys (sent xs r)) { timestamp = t })
        ≡ done (record (sent (xs ++ ys) r) { timestamp = t })
  sent-then xs ys r t =
      ap (λ os. done (record r { outputs = os; timestamp = t })) (map-twice xs ys r.outputs)

  pub deliver-sent : (m : Msg) (r : Router F G Time Msg E P) → deliver (some m) r ≡ sent (m ∷ []) r
  unfolding deliver
  deliver-sent m r = ap (λ os. record r { outputs = os }) (send_all-map m r.outputs)

  -- Forwarding that depends on the setup and the timestamp alone sends what is kept.
  all_of-sent :
      (g : Setup F G Time Msg E P → Time → Msg → Option Msg × Option String) (ms : List Msg)
      (r : Router F G Time Msg E P)
      → all_of (λ m q. deliver (forwarded (g q.setup q.timestamp m)) q) ms r
        ≡ sent (kept (g r.setup r.timestamp) ms) r
  unfolding all_of kept deliver
  all_of-sent g [] r = sym (sent-none r)
  all_of-sent g (m ∷ ms) r = elim (Option-cases (forwarded (g r.setup r.timestamp m))) [
    | inl e ↦ rw (kept-dropped (g r.setup r.timestamp) m ms e, e) (all_of-sent g ms r)
    | inr (n, e) ↦
        rw (kept-sent (g r.setup r.timestamp) m ms n e, e, deliver-sent n r)
          (all_of-sent g ms (sent (n ∷ []) r)
            ∙ sent-sent (n ∷ []) (kept (g r.setup r.timestamp) ms) r)
  ]

module _ {F G Time Msg E P : Type 0} (mp : Processor P Msg) (timed : Timed Time Msg) where
  -- the message that is processed, of an input whose messages get the timestamp
  abbrev pub arrival : Setup F G Time Msg E P → Time → Msg → Option Msg × Option String
  arrival s ts m =
      mp.process_message s.mp (if s.config.interval_stamp then timed.set_time ts m else m)

  -- The abstract machine: the messages of one output over a sequence of events.
  unfoldable pub history : Setup F G Time Msg E P → List (Event Time Msg) → Time → List Msg
  history s [] ts = []
  history s (timer t ∷ es) ts = history s es t
  history s (collected p ps ∷ es) ts =
      kept (arrival s ts) (p ∷ take (s.max_forward - 1) ps) ++ history s es ts
  history s (received p ps ∷ es) ts =
      kept (arrival s ts) (p ∷ take (s.max_forward - 1) ps) ++ history s es ts
  history s (aggregated p ps ∷ es) ts =
      kept (mp.process_message s.mp) (p ∷ take (s.max_forward - 1) ps) ++ history s es ts

  -- no cache is configured
  abbrev pub IsUncached : Router F G Time Msg E P → Type 0
  IsUncached r = ltb_ℤ (pos 0) r.setup.config.num_cache_intervals ≡ false

  deliver-IsUncached :
      (o : Option Msg) (r : Router F G Time Msg E P) → IsUncached r → IsUncached (deliver o r)
  unfolding deliver
  deliver-IsUncached none r u = u
  deliver-IsUncached (some m) r u = u

  -- In a state without a cache, each of the three ways of forwarding delivers what it processes.
  module _ (m : Msg) (r : Router F G Time Msg E P) where
    coll_forward-deliver :
        IsUncached r
        → coll_forward mp timed m r ≡ done (deliver (forwarded (arrival r.setup r.timestamp m)) r)
    unfolding coll_forward stamped
    coll_forward-deliver u = rw (u, coll_forward) refl

    recv_forward-deliver :
        recv_forward mp timed m r ≡ done (deliver (forwarded (arrival r.setup r.timestamp m)) r)
    unfolding recv_forward stamped
    recv_forward-deliver = refl

    cache_forward-deliver :
        cache_forward mp timed m r ≡ done (deliver (forwarded (mp.process_message r.setup.mp m)) r)
    unfolding cache_forward
    cache_forward-deliver = refl

  module _ (p : Msg) (ps : List Msg) (r : Router F G Time Msg E P) (u : IsUncached r) where
    burst-sent :
        (forward : Msg → Router F G Time Msg E P → Run (Router F G Time Msg E P))
        (g : Setup F G Time Msg E P → Time → Msg → Option Msg × Option String)
        → ((m : Msg) (q : Router F G Time Msg E P)
            → IsUncached q
            → forward m q ≡ done (deliver (forwarded (g q.setup q.timestamp m)) q))
        → burst forward r.setup.max_forward p ps r
          ≡ done (
            drop (r.setup.max_forward - 1) ps,
            sent (kept (g r.setup r.timestamp) (p ∷ take (r.setup.max_forward - 1) ps)) r,
          )
    burst-sent forward g h =
        burst-all_of (λ m q. deliver (forwarded (g q.setup q.timestamp m)) q) forward IsUncached h
          (λ m q v. deliver-IsUncached (forwarded (g q.setup q.timestamp m)) q v)
          r.setup.max_forward p ps r u
        ∙ ap (λ q. done (drop (r.setup.max_forward - 1) ps, q))
            (all_of-sent g (p ∷ take (r.setup.max_forward - 1) ps) r)

  -- what a burst takes
  abbrev first : Msg → List Msg → Router F G Time Msg E P → List Msg
  first p ps r = p ∷ take (r.setup.max_forward - 1) ps

  -- Without a cache, the router sends every output the messages of the abstract machine, over
  -- every sequence of events, and it does not panic.
  pub turns-history :
      (es : List (Event Time Msg)) (r : Router F G Time Msg E P)
      → IsUncached r
      → turns mp timed es r
        ≡ done (record (sent (history r.setup es r.timestamp) r) {
          timestamp = last_time es r.timestamp;
        })
  unfolding turns turn history last_time
  turns-history [] r u = ap done (ap (λ os. record r { outputs = os }) (sym (map-none r.outputs)))
  turns-history (timer t ∷ es) r u = turns-history es (record r { timestamp = t }) u
  turns-history (collected p ps ∷ es) r u =
      rw (burst-sent p ps r u (coll_forward mp timed) arrival coll_forward-deliver) (
        turns-history es (sent (kept (arrival r.setup r.timestamp) (first p ps r)) r) u
        ∙ sent-then _ _ r (last_time es r.timestamp))
  turns-history (received p ps ∷ es) r u =
      rw (burst-sent p ps r u (recv_forward mp timed) arrival (λ m q v. recv_forward-deliver m q)) (
        turns-history es (sent (kept (arrival r.setup r.timestamp) (first p ps r)) r) u
        ∙ sent-then _ _ r (last_time es r.timestamp))
  turns-history (aggregated p ps ∷ es) r u =
      rw
        (burst-sent p ps r u (cache_forward mp timed) (λ s ts. mp.process_message s.mp)
          (λ m q v. cache_forward-deliver m q))
        (turns-history es (sent (kept (mp.process_message r.setup.mp) (first p ps r)) r) u
          ∙ sent-then _ _ r (last_time es r.timestamp))
