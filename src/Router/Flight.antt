-- ===== src/Router/Flight.antt =====
-- router.rs: the messages of a thread on their way to the agent. A thread has at most one request at
-- the agent; the others wait in its queue.
pub mod Order
pub mod Single
pub mod Drain
use openjarvis.Base.{
  Text, List, [], ◌∷◌, ◌++◌, Option, none, some, Bool, true, false, not, ◌&&◌, ◌||◌, if◌then◌else◌,
  any, drop, is_empty, retain, ◌≡◌, refl, arith, sym, subst, unwrap_or, ◌⊎◌, inl, inr, Bool-cases,
  Option-cases,
}
use mathlib.Core.List.{append_assoc, append-nil}
use openjarvis.Base.Dict.{get, get-insert, get-remove}
use openjarvis.Model.{IncomingMessage}
use openjarvis.Session.{ThreadLocator, locator_eq, locator_eq_iff, locator_instance}
use openjarvis.Router.{Router, AgentRequest}
use openjarvis.Router.Pending.{
  has_locator, try_mark_thread_pending, enqueue_message, dispatch_to_agent,
  release_or_dispatch_next, queue_of, pop_queue, unmark_pending,
}
use openjarvis.Router.Incoming.{route_to_agent}

-- The messages of a thread among the requests.
abbrev pub of_thread : ThreadLocator → List AgentRequest → List IncomingMessage
of_thread l [] = []
of_thread l (q ∷ qs) =
    if locator_eq q.locator l then q.incoming ∷ of_thread l qs else of_thread l qs

pub of_thread-append :
    (l : ThreadLocator) (ps qs : List AgentRequest)
    → of_thread l (ps ++ qs) ≡ of_thread l ps ++ of_thread l qs
of_thread-append l [] qs = refl
of_thread-append l (p ∷ ps) qs = ground (arith, of_thread-append l ps qs)

pub has_locator-retain :
    (l k : ThreadLocator) (ps : List ThreadLocator)
    → has_locator k (retain (λ j. not (locator_eq j l)) ps)
      ≡ has_locator k ps && not (locator_eq l k)
has_locator-retain l k [] = refl
has_locator-retain l k (p ∷ ps) =
    ground
      (arith, has_locator-retain l k ps, locator_eq_iff p l, locator_eq_iff p k, locator_eq_iff l k)

insert_before :
    (b : Bool) (s q : List IncomingMessage) (m : IncomingMessage)
    → (b ≡ true → q ≡ [])
    → (s ++ (if b then m ∷ [] else [])) ++ q ≡ (s ++ q) ++ (if b then m ∷ [] else [])
insert_before true s q m h = rw (h refl, append-nil s) (append-nil (s ++ m ∷ []))
insert_before false s q m h = rw (append-nil s, append-nil (s ++ q)) refl

take_first :
    (b : Bool) (s q p : List IncomingMessage) (m : IncomingMessage)
    → (b ≡ true → p ≡ m ∷ q)
    → (s ++ (if b then m ∷ [] else [])) ++ (if b then q else p) ≡ s ++ p
take_first true s q p m h = rw (h refl) (append_assoc s (m ∷ []) q)
take_first false s q p m h = rw (append-nil s) refl

pub List-cases :
    (q : List IncomingMessage)
    → (q ≡ []) ⊎ ((m : IncomingMessage) × (p : List IncomingMessage) × (q ≡ m ∷ p))
List-cases [] = inl refl
List-cases (m ∷ p) = inr (m, p, refl)

module _ {S : Type 0} where
  -- What the agent got of a thread, and then what waits for it.
  unfoldable pub stream : ThreadLocator → Router S → List IncomingMessage
  stream l r = of_thread l r.agent_tx.sent ++ queue_of l r

  -- Where messages of a thread wait, a request of the thread is at the agent.
  unfoldable pub WaitsBehind : Router S → Type 0
  WaitsBehind r =
      (l : ThreadLocator) → (queue_of l r ≡ []) ⊎ (has_locator l r.pending_threads ≡ true)

  pub queue_of-enqueue :
      (l k : ThreadLocator) (m : IncomingMessage) (r : Router S)
      → queue_of k (enqueue_message l m r) ≡ queue_of k r ++ (if locator_eq l k then m ∷ [] else [])
  unfolding queue_of enqueue_message
  queue_of-enqueue l k m r = ground (
    arith,
    get-insert l k (queue_of l r ++ m ∷ []) r.queued_messages,
    locator_eq_iff l k,
    append-nil (queue_of k r),
  )

  queue_of-pop_some :
      (l k : ThreadLocator) (r : Router S) (q : List IncomingMessage)
      → get l r.queued_messages ≡ some q
      → queue_of k (pop_queue l r) ≡ (if locator_eq l k then drop 1 q else queue_of k r)
  unfolding queue_of pop_queue
  queue_of-pop_some l k r [] h = ground (arith, h, get-remove l k r.queued_messages)
  queue_of-pop_some l k r (m ∷ []) h = ground (arith, h, get-remove l k r.queued_messages)
  queue_of-pop_some l k r (m ∷ n ∷ q) h =
      ground (arith, h, get-insert l k (n ∷ q) r.queued_messages)

  pub queue_of-pop :
      (l k : ThreadLocator) (r : Router S)
      → queue_of k (pop_queue l r)
        ≡ (if locator_eq l k then drop 1 (queue_of l r) else queue_of k r)
  unfolding queue_of pop_queue
  queue_of-pop l k r = elim (Option-cases (get l r.queued_messages)) [
    | inl h ↦ ground (arith, h, locator_eq_iff l k)
    | inr (q, h) ↦
        subst
          (λ o.
            queue_of k (pop_queue l r)
            ≡ (if locator_eq l k then drop 1 (unwrap_or o []) else queue_of k r))
          (sym h) (queue_of-pop_some l k r q h)
  ]

  -- What the two steps do to the part of the state that this module speaks of, while the agent is open.
  pub route-free :
      (l : ThreadLocator) (m : IncomingMessage) (r : Router S)
      → r.agent_tx.is_open ≡ true
      → has_locator l r.pending_threads ≡ false
      → (route_to_agent l m r).1 ≡ record r {
        pending_threads = l ∷ r.pending_threads;
        agent_tx = record (r.agent_tx) {
          sent = r.agent_tx.sent ++ record { locator = l; incoming = m } ∷ [];
        };
      }
  unfolding route_to_agent try_mark_thread_pending dispatch_to_agent
  route-free l m r o h = rw (h, o)

  pub route-busy :
      (l : ThreadLocator) (m : IncomingMessage) (r : Router S)
      → has_locator l r.pending_threads ≡ true
      → (route_to_agent l m r).1 ≡ enqueue_message l m r
  unfolding route_to_agent try_mark_thread_pending dispatch_to_agent
  route-busy l m r h = rw h

  pub release-idle :
      (l : ThreadLocator) (r : Router S)
      → queue_of l r ≡ []
      → (release_or_dispatch_next l r).1 ≡ unmark_pending l r
  unfolding release_or_dispatch_next queue_of
  release-idle l r h = ground (arith, h)

  pub release-next :
      (l : ThreadLocator) (r : Router S) (m : IncomingMessage) (q : List IncomingMessage)
      → r.agent_tx.is_open ≡ true
      → queue_of l r ≡ m ∷ q
      → (release_or_dispatch_next l r).1
        ≡ pop_queue l (record r {
          agent_tx = record (r.agent_tx) {
            sent = r.agent_tx.sent ++ record { locator = l; incoming = m } ∷ [];
          };
        })
  unfolding release_or_dispatch_next dispatch_to_agent queue_of
  release-next l r m q o h = ground (arith, h, o)

  pub enqueue-sent :
      (l : ThreadLocator) (m : IncomingMessage) (r : Router S)
      → (enqueue_message l m r).agent_tx ≡ r.agent_tx
  unfolding enqueue_message
  enqueue-sent l m r = refl

  enqueue-stream :
      (l k : ThreadLocator) (m : IncomingMessage) (r : Router S)
      → stream k (enqueue_message l m r) ≡ stream k r ++ (if locator_eq l k then m ∷ [] else [])
  unfolding stream
  enqueue-stream l k m r =
      rw (queue_of-enqueue l k m r, enqueue-sent l m r)
        (sym (append_assoc (of_thread k r.agent_tx.sent) (queue_of k r) _))

  idle :
      (l k : ThreadLocator) (r : Router S)
      → WaitsBehind r
      → has_locator l r.pending_threads ≡ false
      → locator_eq l k ≡ true
      → queue_of k r ≡ []
  unfolding WaitsBehind
  idle l k r w h e = ground (arith, w l, h, (locator_eq_iff l k).0 e)

  pub route-stream :
      (l k : ThreadLocator) (m : IncomingMessage) (r : Router S)
      → r.agent_tx.is_open ≡ true
      → WaitsBehind r
      → stream k (route_to_agent l m r).1 ≡ stream k r ++ (if locator_eq l k then m ∷ [] else [])
  unfolding stream queue_of
  route-stream l k m r o w = elim (Bool-cases (has_locator l r.pending_threads)) [
    | inl h ↦ rw (route-busy l m r h) (enqueue-stream l k m r)
    | inr h ↦
        rw
          (
            route-free l m r o h,
            of_thread-append k r.agent_tx.sent (record { locator = l; incoming = m } ∷ []),
          )
          (insert_before (locator_eq l k) _ _ m (idle l k r w h))
  ]

  unmark-stream : (l k : ThreadLocator) (r : Router S) → stream k (unmark_pending l r) ≡ stream k r
  unfolding stream queue_of unmark_pending
  unmark-stream l k r = refl

  -- A request more at the agent.
  abbrev pub sent_also : ThreadLocator → IncomingMessage → Router S → Router S
  sent_also l m r = record r {
    agent_tx = record (r.agent_tx) {
      sent = r.agent_tx.sent ++ record { locator = l; incoming = m } ∷ [];
    };
  }

  pub pop-sent : (l : ThreadLocator) (r : Router S) → (pop_queue l r).agent_tx ≡ r.agent_tx
  unfolding pop_queue
  pop-sent l r = ground arith

  front :
      (l k : ThreadLocator) (r : Router S) (m : IncomingMessage) (q : List IncomingMessage)
      → queue_of l r ≡ m ∷ q
      → locator_eq l k ≡ true
      → queue_of k r ≡ m ∷ drop 1 (queue_of l r)
  front l k r m q h e = rw (h, sym ((locator_eq_iff l k).0 e)) h

  pop-stream :
      (l k : ThreadLocator) (r : Router S) (m : IncomingMessage) (q : List IncomingMessage)
      → queue_of l r ≡ m ∷ q
      → stream k (pop_queue l (sent_also l m r)) ≡ stream k r
  unfolding stream queue_of
  pop-stream l k r m q h =
      rw
        (
          queue_of-pop l k (sent_also l m r),
          pop-sent l (sent_also l m r),
          of_thread-append k r.agent_tx.sent (record { locator = l; incoming = m } ∷ []),
        )
        (take_first (locator_eq l k) _ (drop 1 (queue_of l r)) (queue_of k r) m (front l k r m q h))

  pub release-stream :
      (l k : ThreadLocator) (r : Router S)
      → r.agent_tx.is_open ≡ true
      → stream k (release_or_dispatch_next l r).1 ≡ stream k r
  release-stream l k r o = elim (List-cases (queue_of l r)) [
    | inl h ↦ rw (release-idle l r h) (unmark-stream l k r)
    | inr (m, q, h) ↦ rw (release-next l r m q o h) (pop-stream l k r m q h)
  ]
