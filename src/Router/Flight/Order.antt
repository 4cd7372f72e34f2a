-- ===== src/Router/Flight/Order.antt =====
-- router.rs: the messages and the completions that the router handles, in a row, while the agent is
-- there.
use openjarvis.Base.{
  ℕ, ◌+◌, List, [], ◌∷◌, ◌++◌, true, false, not, ◌&&◌, if◌then◌else◌, ◌≡◌, refl, arith, sym, subst,
  ◌∙◌, ◌⊎◌, inl, inr, Bool-cases,
}
use mathlib.Core.List.{append_assoc, append-nil}
use openjarvis.Model.{IncomingMessage}
use openjarvis.Session.{ThreadLocator, locator_eq, locator_eq_iff}
use openjarvis.Router.{Router}
use openjarvis.Router.Pending.{
  has_locator, enqueue_message, release_or_dispatch_next, queue_of, pop_queue, unmark_pending,
}
use openjarvis.Router.Incoming.{route_to_agent}
use openjarvis.Router.Flight.{
  has_locator-retain, List-cases, stream, WaitsBehind, queue_of-enqueue, queue_of-pop, route-free,
  route-busy, sent_also, release-idle, release-next, route-stream, release-stream, enqueue-sent,
  pop-sent,
}

pub data Traffic : Type 0 where
  arrives : ThreadLocator → IncomingMessage → Traffic
  completes : ThreadLocator → Traffic

-- The messages of a thread among the traffic.
abbrev pub arrived : ThreadLocator → List Traffic → List IncomingMessage
arrived k [] = []
arrived k (arrives l m ∷ ts) = (if locator_eq l k then m ∷ [] else []) ++ arrived k ts
arrived k (completes l ∷ ts) = arrived k ts

-- The completions of a thread among the traffic.
abbrev pub completed : ThreadLocator → List Traffic → ℕ
completed k [] = 0
completed k (arrives l m ∷ ts) = completed k ts
completed k (completes l ∷ ts) = (if locator_eq l k then 1 else 0) + completed k ts

module _ {S : Type 0} where
  unfoldable pub step : Traffic → Router S → Router S
  step (arrives l m) r = (route_to_agent l m r).1
  step (completes l) r = (release_or_dispatch_next l r).1

  unfoldable pub run : List Traffic → Router S → Router S
  unfolding step
  run [] r = r
  run (t ∷ ts) r = run ts (step t r)

  pub pop-pending :
      (l : ThreadLocator) (r : Router S) → (pop_queue l r).pending_threads ≡ r.pending_threads
  unfolding pop_queue
  pop-pending l r = ground arith

  pub enqueue-pending :
      (l : ThreadLocator) (m : IncomingMessage) (r : Router S)
      → (enqueue_message l m r).pending_threads ≡ r.pending_threads
  unfolding enqueue_message
  enqueue-pending l m r = refl

  pub unmark-queue :
      (l k : ThreadLocator) (r : Router S) → queue_of k (unmark_pending l r) ≡ queue_of k r
  unfolding queue_of unmark_pending
  unmark-queue l k r = refl

  pub unmark-pending :
      (l k : ThreadLocator) (r : Router S)
      → has_locator k (unmark_pending l r).pending_threads
        ≡ has_locator k r.pending_threads && not (locator_eq l k)
  unfolding unmark_pending
  unmark-pending l k r = has_locator-retain l k r.pending_threads

  route-open :
      (l : ThreadLocator) (m : IncomingMessage) (r : Router S)
      → r.agent_tx.is_open ≡ true
      → (route_to_agent l m r).1.agent_tx.is_open ≡ true
  route-open l m r o = elim (Bool-cases (has_locator l r.pending_threads)) [
    | inl h ↦ rw (route-busy l m r h, enqueue-sent l m r) o
    | inr h ↦ rw (route-free l m r o h) o
  ]

  pub release-open :
      (l : ThreadLocator) (r : Router S)
      → r.agent_tx.is_open ≡ true
      → (release_or_dispatch_next l r).1.agent_tx.is_open ≡ true
  unfolding unmark_pending
  release-open l r o = elim (List-cases (queue_of l r)) [
    | inl h ↦ rw (release-idle l r h) o
    | inr (m, q, h) ↦ rw (release-next l r m q o h, pop-sent l (sent_also l m r)) o
  ]

  kept :
      (l k : ThreadLocator) (r : Router S) (q : List IncomingMessage)
      → has_locator l r.pending_threads ≡ true
      → (queue_of k r ≡ []) ⊎ (has_locator k r.pending_threads ≡ true)
      → (locator_eq l k ≡ false → q ≡ queue_of k r)
      → (q ≡ []) ⊎ (has_locator k r.pending_threads ≡ true)
  kept l k r q h w f = elim (Bool-cases (locator_eq l k)) [
    | inl e ↦ inr (subst (λ j. has_locator j r.pending_threads ≡ true) ((locator_eq_iff l k).0 e) h)
    | inr e ↦ rw (f e) w
  ]

  in_flight :
      (l : ThreadLocator) (r : Router S) (m : IncomingMessage) (q : List IncomingMessage)
      → WaitsBehind r
      → queue_of l r ≡ m ∷ q
      → has_locator l r.pending_threads ≡ true
  unfolding WaitsBehind
  in_flight l r m q w h = ground (arith, w l, h)

  route-WaitsBehind :
      (l : ThreadLocator) (m : IncomingMessage) (r : Router S)
      → r.agent_tx.is_open ≡ true
      → WaitsBehind r
      → WaitsBehind (route_to_agent l m r).1
  unfolding WaitsBehind queue_of
  route-WaitsBehind l m r o w k = elim (Bool-cases (has_locator l r.pending_threads)) [
    | inl h ↦
        rw (route-busy l m r h, enqueue-pending l m r, queue_of-enqueue l k m r)
          (kept l k r _ h (w k) (λ e. rw e (append-nil (queue_of k r))))
    | inr h ↦ rw (route-free l m r o h) (ground (arith, w k))
  ]

  release-WaitsBehind :
      (l : ThreadLocator) (r : Router S)
      → r.agent_tx.is_open ≡ true
      → WaitsBehind r
      → WaitsBehind (release_or_dispatch_next l r).1
  unfolding WaitsBehind queue_of
  release-WaitsBehind l r o w k = elim (List-cases (queue_of l r)) [
    | inl h ↦
        rw (release-idle l r h, unmark-pending l k r, unmark-queue l k r)
          (ground (arith, w k, h, locator_eq_iff l k))
    | inr (m, q, h) ↦
        rw
          (
            release-next l r m q o h,
            pop-pending l (sent_also l m r),
            queue_of-pop l k (sent_also l m r),
          )
          (kept l k r _ (in_flight l r m q w h) (w k) (λ e. rw e refl))
  ]

  pub step-Keeps :
      (t : Traffic) (r : Router S)
      → r.agent_tx.is_open ≡ true
      → WaitsBehind r
      → ((step t r).agent_tx.is_open ≡ true) × WaitsBehind (step t r)
  unfolding step
  step-Keeps (arrives l m) r o w = (route-open l m r o, route-WaitsBehind l m r o w)
  step-Keeps (completes l) r o w = (release-open l r o, release-WaitsBehind l r o w)

  step-stream :
      (t : Traffic) (ts : List Traffic) (k : ThreadLocator) (r : Router S)
      → r.agent_tx.is_open ≡ true
      → WaitsBehind r
      → stream k (step t r) ++ arrived k ts ≡ stream k r ++ arrived k (t ∷ ts)
  unfolding step
  step-stream (arrives l m) ts k r o w =
      rw (route-stream l k m r o w) (append_assoc (stream k r) _ (arrived k ts))
  step-stream (completes l) ts k r o w = rw (release-stream l k r o) refl

  -- While the agent is there: what the agent got of a thread, followed by what waits for it, grows by
  -- exactly the thread's messages among the traffic, in the order in which they arrived. None is
  -- lost, doubled or overtaken, whatever the other threads do.
  pub delivered_in_order :
      (ts : List Traffic) (k : ThreadLocator) (r : Router S)
      → r.agent_tx.is_open ≡ true
      → WaitsBehind r
      → stream k (run ts r) ≡ stream k r ++ arrived k ts
  unfolding run
  delivered_in_order [] k r o w = sym (append-nil (stream k r))
  delivered_in_order (t ∷ ts) k r o w =
      let (o', w') = step-Keeps t r o w in
      delivered_in_order ts k (step t r) o' w' ∙ step-stream t ts k r o w
