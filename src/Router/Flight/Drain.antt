-- ===== src/Router/Flight/Drain.antt =====
-- router.rs: completions drain the queue of a thread.
use openjarvis.Base.{
  ℕ, zero, suc, ◌≤◌, List, [], ◌∷◌, ◌++◌, true, drop, length, ◌≡◌, refl, arith, ◌∙◌, ap, sym, inl,
  inr,
}
use mathlib.Core.List.{append-nil}
use openjarvis.Model.{IncomingMessage}
use openjarvis.Session.{ThreadLocator, locator_eq_iff}
use openjarvis.Router.{Router}
use openjarvis.Router.Pending.{queue_of, release_or_dispatch_next}
use openjarvis.Router.Flight.{
  of_thread, List-cases, stream, queue_of-pop, sent_also, release-idle, release-next,
  release-stream,
}
use openjarvis.Router.Flight.Order.{Traffic, completes, step, run, release-open, unmark-queue}

-- `n` completions of a thread in a row.
abbrev pub completions : ℕ → ThreadLocator → List Traffic
completions zero l = []
completions (suc n) l = completes l ∷ completions n l

empty : (q : List IncomingMessage) → length q ≤ 0 → q ≡ []
empty [] h = refl
empty (m ∷ q) h = ground (arith, h)

length-tail : (q : List IncomingMessage) (n : ℕ) → length q ≤ suc n → length (drop 1 q) ≤ n
length-tail [] n h = omega arith
length-tail (m ∷ q) n h = omega (arith, h)

module _ {S : Type 0} where
  pop-front :
      (l : ThreadLocator) (r : Router S)
      → queue_of l (openjarvis.Router.Pending.pop_queue l r) ≡ drop 1 (queue_of l r)
  pop-front l r = rw (queue_of-pop l l r, (locator_eq_iff l l).1 refl) refl

  release-queue :
      (l : ThreadLocator) (r : Router S)
      → r.agent_tx.is_open ≡ true
      → queue_of l (release_or_dispatch_next l r).1 ≡ drop 1 (queue_of l r)
  unfolding queue_of
  release-queue l r o = elim (List-cases (queue_of l r)) [
    | inl h ↦ rw (release-idle l r h) (unmark-queue l l r ∙ h ∙ sym (ap (drop 1) h))
    | inr (m, q, h) ↦ rw (release-next l r m q o h) (pop-front l (sent_also l m r))
  ]

  -- While the agent is there: as many completions of a thread as messages of it wait leave no message
  -- waiting, and the agent has got all of them, in their order, behind what it had got before.
  pub all_delivered :
      (n : ℕ) (l : ThreadLocator) (r : Router S)
      → r.agent_tx.is_open ≡ true
      → length (queue_of l r) ≤ n
      → (of_thread l (run (completions n l) r).agent_tx.sent ≡ stream l r)
        × (queue_of l (run (completions n l) r) ≡ [])
  unfolding run step stream
  all_delivered zero l r o h =
      let none_waits = empty (queue_of l r) h in
      (sym (ap (λ q. of_thread l r.agent_tx.sent ++ q) none_waits ∙ append-nil _), none_waits)
  all_delivered (suc n) l r o h =
      let r' = (release_or_dispatch_next l r).1 in
      let shorter : length (queue_of l r') ≤ n =
        rw (release-queue l r o) (length-tail (queue_of l r) n h) in
      let (sent, drained) = all_delivered n l r' (release-open l r o) shorter in
      (sent ∙ release-stream l l r o, drained)
