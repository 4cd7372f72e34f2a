-- ===== src/Router/Pending.antt =====
-- router.rs: the threads with a request at the agent, the messages that wait for them, and the
-- messages that were seen.
use openjarvis.Base.{
  Text, List, [], ◌∷◌, ◌++◌, Option, none, some, Bool, true, false, not, if◌then◌else◌, ok, err,
  any, unwrap_or, retain, text_eq,
}
use openjarvis.Base.Str.{text_eq_instance}
use openjarvis.Base.Dict
use openjarvis.Base.Dict.{Dict}
use openjarvis.Model.{IncomingMessage}
use openjarvis.Session.{ThreadLocator, locator_eq, locator_instance}
use openjarvis.Router.{Router, Exec, ◌>>=◌, send, agent_closed}

abbrev pub has_locator : ThreadLocator → List ThreadLocator → Bool
has_locator l = any (λ k. locator_eq k l)

module _ {S : Type 0} where
  -- Answers whether the message is new.
  unfoldable pub mark_message_seen : Option Text → Router S → Bool × Router S
  mark_message_seen none r = (true, r)
  mark_message_seen (some id) r =
      if any (λ s. text_eq s id) r.seen_messages
      then (false, r)
      else (true, record r { seen_messages = id ∷ r.seen_messages })

  unfoldable pub is_thread_pending : ThreadLocator → Router S → Bool
  is_thread_pending l r = has_locator l r.pending_threads

  -- Answers whether the thread was not pending before.
  unfoldable pub try_mark_thread_pending : ThreadLocator → Router S → Bool × Router S
  try_mark_thread_pending l r =
      if has_locator l r.pending_threads
      then (false, r)
      else (true, record r { pending_threads = l ∷ r.pending_threads })

  unfoldable pub unmark_pending : ThreadLocator → Router S → Router S
  unmark_pending l r = record r {
    pending_threads = retain (λ k. not (locator_eq k l)) r.pending_threads;
  }

  unfoldable pub queue_of : ThreadLocator → Router S → List IncomingMessage
  queue_of l r = unwrap_or (Dict.get l r.queued_messages) []

  unfoldable pub enqueue_message : ThreadLocator → IncomingMessage → Router S → Router S
  unfolding queue_of
  enqueue_message l m r = record r {
    queued_messages = Dict.insert l (queue_of l r ++ m ∷ []) r.queued_messages;
  }

  unfoldable pub dispatch_to_agent : ThreadLocator → IncomingMessage → Exec S (Unit {0})
  unfolding unmark_pending
  dispatch_to_agent l m r = elim (send (record { locator = l; incoming = m }) r.agent_tx) [
    | none ↦ (err agent_closed, unmark_pending l r)
    | some tx ↦ (ok tt, record r { agent_tx = tx })
  ]

  -- Takes the first message out of a thread's queue, and the queue out if it is empty then.
  unfoldable pub pop_queue : ThreadLocator → Router S → Router S
  pop_queue l r = elim (Dict.get l r.queued_messages) [
    | none ↦ r
    | some [] ↦ record r { queued_messages = Dict.remove l r.queued_messages }
    | some (m ∷ []) ↦ record r { queued_messages = Dict.remove l r.queued_messages }
    | some (m ∷ n ∷ rest) ↦ record r {
      queued_messages = Dict.insert l (n ∷ rest) r.queued_messages;
    }
  ]

  unfoldable pub release_or_dispatch_next : ThreadLocator → Exec S (Unit {0})
  unfolding queue_of dispatch_to_agent pop_queue unmark_pending
  release_or_dispatch_next l r = elim (queue_of l r) [
    | [] ↦ (ok tt, unmark_pending l r)
    | m ∷ rest ↦ (dispatch_to_agent l m >>= (λ _ s. (ok tt, pop_queue l s))) r
  ]
