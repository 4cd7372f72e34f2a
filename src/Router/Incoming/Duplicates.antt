-- ===== src/Router/Incoming/Duplicates.antt =====
-- router.rs: a message that a channel delivers again while the process runs.
use openjarvis.Base.{
  ℕ, suc, List, [], subst, sym, Text, ◌∷◌, Option, none, some, Bool, true, false, any, ◌≡◌, refl,
  arith, Result, ok, err, ◌∙◌, ap, if◌then◌else◌, unwrap_or, text_eq, text_eq_refl,
}
use openjarvis.Context.{Uuid}
use openjarvis.Model.{IncomingMessage, OutgoingMessage}
use openjarvis.Thread.{Thread, new_thread}
use openjarvis.Command.{CommandReply, CommandError, Registry, try_execute_with_thread_context}
use openjarvis.Session.{UuidCrate, ThreadLocator, SessionStore, StoreError, context_locator}
use openjarvis.Session.Cache.{Manager}
use openjarvis.Session.Manager.{load_or_create_thread}
use openjarvis.Router.{
  Router, RouterError, Exec, ◌>>=◌, continue, pure, in_sessions, of_commands, Draws, DispatchEvent,
  AgentEvent, message_committed, turn_finalized, request_completed,
}
use openjarvis.Router.Pending.{
  mark_message_seen, try_mark_thread_pending, enqueue_message, dispatch_to_agent, unmark_pending,
  release_or_dispatch_next, pop_queue, queue_of,
}
use openjarvis.Router.Outgoing.{
  dispatch_outgoing, dispatch_command_reply, dispatch_committed_message, dispatch_events,
  process_agent_dispatch_event,
}
use openjarvis.Router.Incoming.{
  route_to_agent, processed_before, mark_processed, answer_command, finish_command, run_command,
  execute_command, refuse_or_execute, refusal, handle_command, handle_new, handle_accepted,
  handle_incoming, handle_agent_event, LoopEvent, shutdown, incoming, agent, agent_gone,
  run_until_shutdown,
}

module _ {S : Type 0} where
  -- The step leaves the list of seen messages, and the switch, as they are.
  KeepsSeen : {A : Type 0} → Exec S A → Type 0
  KeepsSeen m =
      (r : Router S)
      → ((m r).1.seen_messages ≡ r.seen_messages)
        × ((m r).1.message_dedup_enabled ≡ r.message_dedup_enabled)

module _ {S : Type 0} where
  continue-KeepsSeen :
      {A B : Type 0} (x : Result RouterError A) (f : A → Exec S B) (r s : Router S)
      → ((a : A) → KeepsSeen (f a))
      → ((s.seen_messages ≡ r.seen_messages) × (s.message_dedup_enabled ≡ r.message_dedup_enabled))
      → ((continue x f s).1.seen_messages ≡ r.seen_messages)
        × ((continue x f s).1.message_dedup_enabled ≡ r.message_dedup_enabled)
  unfolding KeepsSeen
  continue-KeepsSeen (ok a) f r s k h = ((k a s).0 ∙ h.0, (k a s).1 ∙ h.1)
  continue-KeepsSeen (err e) f r s k h = h

  bind-KeepsSeen :
      {A B : Type 0} (m : Exec S A) (f : A → Exec S B)
      → KeepsSeen m
      → ((a : A) → KeepsSeen (f a))
      → KeepsSeen (m >>= f)
  unfolding KeepsSeen
  bind-KeepsSeen m f h k r = continue-KeepsSeen (m r).0 f r (m r).1 k (h r)

  in_sessions-KeepsSeen :
      {A : Type 0} (op : Manager S → Result StoreError A × Manager S) → KeepsSeen (in_sessions op)
  unfolding KeepsSeen
  in_sessions-KeepsSeen op r = (refl, refl)

pure-KeepsSeen : (S : Type 0) {A : Type 0} (a : A) → KeepsSeen {S = S} (pure a)
unfolding KeepsSeen
pure-KeepsSeen S a r = (refl, refl)

of_commands-KeepsSeen :
    (S : Type 0) {A : Type 0} (f : Registry → Result CommandError A)
    → KeepsSeen {S = S} {A = A} (of_commands f)
unfolding KeepsSeen
of_commands-KeepsSeen S f r = (refl, refl)

dispatch_outgoing-KeepsSeen :
    (S : Type 0) (m : OutgoingMessage) → KeepsSeen {S = S} (dispatch_outgoing m)
unfolding KeepsSeen dispatch_outgoing
dispatch_outgoing-KeepsSeen S m r = ground arith

route_to_agent-KeepsSeen :
    (S : Type 0) (l : ThreadLocator) (m : IncomingMessage) → KeepsSeen {S = S} (route_to_agent l m)
unfolding KeepsSeen route_to_agent try_mark_thread_pending dispatch_to_agent enqueue_message
    unmark_pending
route_to_agent-KeepsSeen S l m r = ground arith

process_agent_dispatch_event-KeepsSeen :
    (S : Type 0) (id : Uuid) (e : DispatchEvent)
    → KeepsSeen {S = S} (process_agent_dispatch_event id e)
unfolding process_agent_dispatch_event
process_agent_dispatch_event-KeepsSeen S id e = dispatch_outgoing-KeepsSeen S _

dispatch_events-KeepsSeen :
    (S : Type 0) (ids : ℕ → Uuid) (n : ℕ) (es : List DispatchEvent)
    → KeepsSeen {S = S} (dispatch_events ids n es)
unfolding dispatch_events
dispatch_events-KeepsSeen S ids n [] = pure-KeepsSeen S tt
dispatch_events-KeepsSeen S ids n (e ∷ es) =
    bind-KeepsSeen _ _ (process_agent_dispatch_event-KeepsSeen S (ids n) e)
      (λ _. dispatch_events-KeepsSeen S ids (suc n) es)

release_or_dispatch_next-KeepsSeen :
    (S : Type 0) (l : ThreadLocator) → KeepsSeen {S = S} (release_or_dispatch_next l)
unfolding KeepsSeen release_or_dispatch_next queue_of dispatch_to_agent pop_queue unmark_pending
release_or_dispatch_next-KeepsSeen S l r = ground arith

module _ {S : Type 0} (u : UuidCrate) (store : SessionStore S) (d : Draws) where
  mark_processed-KeepsSeen :
      (l : ThreadLocator) (m : IncomingMessage) (id : Option Text)
      → KeepsSeen (mark_processed u store d l m id)
  unfolding mark_processed KeepsSeen
  mark_processed-KeepsSeen l m none r = (refl, refl)
  mark_processed-KeepsSeen l m (some id) r = (refl, refl)

  processed_before-KeepsSeen :
      (l : ThreadLocator) (id : Option Text) → KeepsSeen (processed_before u store d l id)
  unfolding processed_before KeepsSeen
  processed_before-KeepsSeen l none r = (refl, refl)
  processed_before-KeepsSeen l (some id) r = (refl, refl)

  answer_command-KeepsSeen :
      (l : ThreadLocator) (m : IncomingMessage) (reply : CommandReply)
      → KeepsSeen (answer_command u store d l m reply)
  unfolding answer_command dispatch_command_reply
  answer_command-KeepsSeen l m reply =
      bind-KeepsSeen _ _ (dispatch_outgoing-KeepsSeen S _) (λ _. mark_processed-KeepsSeen l m _)

  finish_command-KeepsSeen :
      (l : ThreadLocator) (m : IncomingMessage) (t : Thread) (o : Option CommandReply)
      → KeepsSeen (finish_command u store d l m t o)
  unfolding finish_command
  finish_command-KeepsSeen l m t none = route_to_agent-KeepsSeen S l m
  finish_command-KeepsSeen l m t (some reply) =
      bind-KeepsSeen _ _ (in_sessions-KeepsSeen _) (λ _. answer_command-KeepsSeen l m reply)

  run_command-KeepsSeen :
      (l : ThreadLocator) (m : IncomingMessage) (o : Option Thread)
      → KeepsSeen (run_command u store d l m o)
  unfolding run_command KeepsSeen
  run_command-KeepsSeen l m o r =
      let t = unwrap_or o (new_thread (context_locator u l) m.received_at) in
      let (reply, changed) = try_execute_with_thread_context r.commands m t in
      bind-KeepsSeen (of_commands (λ registry. reply)) (finish_command u store d l m changed)
        (of_commands-KeepsSeen S (λ registry. reply)) (finish_command-KeepsSeen l m changed) r

  execute_command-KeepsSeen :
      (l : ThreadLocator) (m : IncomingMessage) → KeepsSeen (execute_command u store d l m)
  unfolding execute_command
  execute_command-KeepsSeen l m =
      bind-KeepsSeen _ _ (in_sessions-KeepsSeen _) (run_command-KeepsSeen l m)

  refuse_or_execute-KeepsSeen :
      (l : ThreadLocator) (m : IncomingMessage) (o : Option CommandReply)
      → KeepsSeen (refuse_or_execute u store d l m o)
  unfolding refuse_or_execute
  refuse_or_execute-KeepsSeen l m none = execute_command-KeepsSeen l m
  refuse_or_execute-KeepsSeen l m (some reply) = answer_command-KeepsSeen l m reply

  refusal-KeepsSeen : (l : ThreadLocator) (m : IncomingMessage) → KeepsSeen (refusal u store d l m)
  unfolding refusal KeepsSeen
  refusal-KeepsSeen l m r = ground arith

  handle_command-KeepsSeen :
      (l : ThreadLocator) (m : IncomingMessage) (b : Bool)
      → KeepsSeen (handle_command u store d l m b)
  unfolding handle_command
  handle_command-KeepsSeen l m false = route_to_agent-KeepsSeen S l m
  handle_command-KeepsSeen l m true =
      bind-KeepsSeen _ _ (refusal-KeepsSeen l m) (refuse_or_execute-KeepsSeen l m)

  handle_new-KeepsSeen :
      (l : ThreadLocator) (m : IncomingMessage) (b : Bool) → KeepsSeen (handle_new u store d l m b)
  unfolding handle_new
  handle_new-KeepsSeen l m true = pure-KeepsSeen S tt
  handle_new-KeepsSeen l m false =
      bind-KeepsSeen _ _ (of_commands-KeepsSeen S _) (handle_command-KeepsSeen l m)

  handle_accepted-KeepsSeen : (m : IncomingMessage) → KeepsSeen (handle_accepted u store d m)
  unfolding handle_accepted
  handle_accepted-KeepsSeen m =
      bind-KeepsSeen _ _ (in_sessions-KeepsSeen (load_or_create_thread u store d.session_id m))
        (λ l.
          bind-KeepsSeen _ _ (processed_before-KeepsSeen l m.external_message_id)
            (handle_new-KeepsSeen l m))

  handle_agent_event-KeepsSeen : (e : AgentEvent) → KeepsSeen (handle_agent_event u store d e)
  unfolding handle_agent_event dispatch_committed_message
  handle_agent_event-KeepsSeen (message_committed c) =
      dispatch_events-KeepsSeen S d.message_id 0 c.dispatch_events
  handle_agent_event-KeepsSeen (turn_finalized l f) = pure-KeepsSeen S tt
  handle_agent_event-KeepsSeen (request_completed l at) = release_or_dispatch_next-KeepsSeen S l

-- The switch is on and the identifier is among those seen.
abbrev IsNoted : {S : Type 0} → Text → Router S → Type 0
IsNoted id r = (r.message_dedup_enabled ≡ true) × (any (λ x. text_eq x id) r.seen_messages ≡ true)

module _ {S : Type 0} (u : UuidCrate) (store : SessionStore S) (id : Text) where
  kept-IsNoted :
      {A : Type 0} (m : Exec S A) (r : Router S) → KeepsSeen m → IsNoted id r → IsNoted id (m r).1
  unfolding KeepsSeen
  kept-IsNoted m r k h = ((k r).1 ∙ h.0, ap (any (λ x. text_eq x id)) (k r).0 ∙ h.1)

  marked-IsNoted :
      (j : Option Text) (r : Router S) → IsNoted id r → IsNoted id (mark_message_seen j r).1
  unfolding mark_message_seen
  marked-IsNoted none r h = h
  marked-IsNoted (some j) r h = ground arith

  fresh-IsNoted :
      (r : Router S) → r.message_dedup_enabled ≡ true → IsNoted id (mark_message_seen (some id) r).1
  unfolding mark_message_seen
  fresh-IsNoted r e = ground (arith, text_eq_refl id)

  branch-IsNoted :
      (b f : Bool) (x y z : Result RouterError (Unit {0}) × Router S)
      → b ≡ true
      → IsNoted id x.1
      → IsNoted id y.1
      → IsNoted id (if b then (if f then x else y) else z).1
  branch-IsNoted true true x y z e h k = h
  branch-IsNoted true false x y z e h k = k
  branch-IsNoted false f x y z e h k = ground arith

  -- Handling marks the message and then touches the marks no more.
  handled-IsNoted :
      (d : Draws) (m : IncomingMessage) (r : Router S)
      → r.message_dedup_enabled ≡ true
      → IsNoted id (mark_message_seen m.external_message_id r).1
      → IsNoted id (handle_incoming u store d m r).1
  unfolding handle_incoming
  handled-IsNoted d m r e h =
      let marked = mark_message_seen m.external_message_id r in
      branch-IsNoted r.message_dedup_enabled marked.0 (handle_accepted u store d m marked.1)
        (ok tt, marked.1) (handle_accepted u store d m r) e
        (kept-IsNoted (handle_accepted u store d m) marked.1 (handle_accepted-KeepsSeen u store d m)
          h)
        h

  run_until_shutdown-IsNoted :
      (es : List (Draws × LoopEvent)) (r : Router S)
      → IsNoted id r
      → IsNoted id (run_until_shutdown u store es r).1
  unfolding run_until_shutdown
  run_until_shutdown-IsNoted [] r h = h
  run_until_shutdown-IsNoted ((d, shutdown) ∷ es) r h = h
  run_until_shutdown-IsNoted ((d, incoming m) ∷ es) r h =
      run_until_shutdown-IsNoted es (handle_incoming u store d m r).1
        (handled-IsNoted d m r h.0 (marked-IsNoted m.external_message_id r h))
  run_until_shutdown-IsNoted ((d, agent e) ∷ es) r h =
      run_until_shutdown-IsNoted es (handle_agent_event u store d e r).1 (
        kept-IsNoted (handle_agent_event u store d e) r (handle_agent_event-KeepsSeen u store d e)
          h)
  run_until_shutdown-IsNoted ((d, agent_gone) ∷ es) r h = h

  noted-ignored :
      (d : Draws) (n : IncomingMessage) (s : Router S)
      → n.external_message_id ≡ some id
      → IsNoted id s
      → handle_incoming u store d n s ≡ (ok tt, s)
  unfolding handle_incoming mark_message_seen
  noted-ignored d n s g h = rw (h.0, g, h.1) refl

-- Where the switch is on: once a message that bears an identifier was handled, and whatever came of
-- it, and after any further rounds of the loop, with messages and events of the agent of any kind, a
-- message with the same identifier changes nothing any more.
pub redelivery_ignored :
    {S : Type 0} (u : UuidCrate) (store : SessionStore S) (d d' : Draws) (m n : IncomingMessage)
    (id : Text) (es : List (Draws × LoopEvent)) (r : Router S)
    → r.message_dedup_enabled ≡ true
    → m.external_message_id ≡ some id
    → n.external_message_id ≡ some id
    → let later = (run_until_shutdown u store es (handle_incoming u store d m r).1).1 in
      handle_incoming u store d' n later ≡ (ok tt, later)
redelivery_ignored u store d d' m n id es r e f g =
    let first =
      subst (λ x. IsNoted id (mark_message_seen x r).1) (sym f) (fresh-IsNoted u store id r e) in
    noted-ignored u store id d' n _ g (
      run_until_shutdown-IsNoted u store id es (handle_incoming u store d m r).1
        (handled-IsNoted u store id d m r e first))
