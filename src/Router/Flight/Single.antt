-- ===== src/Router/Flight/Single.antt =====
-- router.rs: at most one request of a thread is at the agent.
use openjarvis.Base.{
  ℕ, ◌+◌, ◌≤◌, List, [], ◌∷◌, ◌++◌, Bool, true, false, not, ◌&&◌, ◌||◌, if◌then◌else◌, length, ◌≡◌,
  arith, subst, inl, inr, Bool-cases,
}
use openjarvis.Session.{ThreadLocator, locator_eq, locator_eq_iff}
use openjarvis.Router.{Router, AgentRequest}
use openjarvis.Router.Pending.{has_locator, queue_of, unmark_pending}
use openjarvis.Router.Flight.{
  of_thread, List-cases, WaitsBehind, route-free, route-busy, sent_also, release-idle, release-next,
  enqueue-sent, pop-sent,
}
use openjarvis.Router.Flight.Order.{
  Traffic, arrives, completes, completed, step, run, step-Keeps, pop-pending, enqueue-pending,
  unmark-pending,
}

length-of_thread :
    (k : ThreadLocator) (ps : List AgentRequest) (q : AgentRequest)
    → length (of_thread k (ps ++ q ∷ []))
      ≡ length (of_thread k ps) + (if locator_eq q.locator k then 1 else 0)
length-of_thread k [] q = ground arith
length-of_thread k (p ∷ ps) q = ground (arith, length-of_thread k ps q)

absent :
    (l k : ThreadLocator) (ps : List ThreadLocator)
    → has_locator l ps ≡ false
    → locator_eq l k ≡ true
    → has_locator k ps ≡ false
absent l k ps h e = subst (λ j. has_locator j ps ≡ false) ((locator_eq_iff l k).0 e) h

completed-split :
    (t : Traffic) (ts : List Traffic) (k : ThreadLocator)
    → completed k (t ∷ ts) ≡ completed k (t ∷ []) + completed k ts
completed-split (arrives l m) ts k = omega arith
completed-split (completes l) ts k = omega arith

one_more :
    (b : Bool) (n : ℕ) (c : Bool)
    → (b ≡ true → c ≡ false)
    → (n + (if b then 1 else 0)) + (if c then 1 else 0) ≤ n + (if b || c then 1 else 0) + 0
one_more b n c h = ground (arith, h)

one_less :
    (b : Bool) (n : ℕ) (c : Bool)
    → n + (if c then 1 else 0) ≤ n + (if c && not b then 1 else 0) + ((if b then 1 else 0) + 0)
one_less b n c = ground arith

module _ {S : Type 0} where
  -- Whether a request of the thread is at the agent, as a number.
  abbrev pub in_flight_count : ThreadLocator → Router S → ℕ
  in_flight_count k r = if has_locator k r.pending_threads then 1 else 0

  abbrev pub sent_count : ThreadLocator → Router S → ℕ
  sent_count k r = length (of_thread k r.agent_tx.sent)

  step-flight :
      (t : Traffic) (k : ThreadLocator) (r : Router S)
      → r.agent_tx.is_open ≡ true
      → WaitsBehind r
      → sent_count k (step t r) + in_flight_count k r
        ≤ sent_count k r + in_flight_count k (step t r) + completed k (t ∷ [])
  unfolding step unmark_pending
  step-flight (arrives l m) k r o w = elim (Bool-cases (has_locator l r.pending_threads)) [
    | inl h ↦ rw (route-busy l m r h, enqueue-sent l m r, enqueue-pending l m r) (omega arith)
    | inr h ↦ rw (route-free l m r o h) (
        rw (length-of_thread k r.agent_tx.sent (record { locator = l; incoming = m })) (
          one_more (locator_eq l k) _ (has_locator k r.pending_threads)
            (absent l k r.pending_threads h)))
  ]
  step-flight (completes l) k r o w = elim (List-cases (queue_of l r)) [
    | inl h ↦
        rw (release-idle l r h) (
          rw (unmark-pending l k r) (one_less (locator_eq l k) _ (has_locator k r.pending_threads)))
    | inr (m, q, h) ↦
        rw
          (
            release-next l r m q o h,
            pop-sent l (sent_also l m r),
            pop-pending l (sent_also l m r),
            length-of_thread k r.agent_tx.sent (record { locator = l; incoming = m }),
          )
          (omega arith)
  ]

  -- While the agent is there, the requests of a thread that the agent gets exceed the completions that
  -- it reports for the thread by no more than the change of the thread's pending mark: from a thread
  -- that is not pending, by one at the most.
  pub single_flight :
      (ts : List Traffic) (k : ThreadLocator) (r : Router S)
      → r.agent_tx.is_open ≡ true
      → WaitsBehind r
      → sent_count k (run ts r) + in_flight_count k r
        ≤ sent_count k r + in_flight_count k (run ts r) + completed k ts
  unfolding run
  single_flight [] k r o w = omega arith
  single_flight (t ∷ ts) k r o w =
      let (o', w') = step-Keeps t r o w in
      omega
        (arith, step-flight t k r o w, single_flight ts k (step t r) o' w', completed-split t ts k)
