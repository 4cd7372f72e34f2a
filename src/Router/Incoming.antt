-- ===== src/Router/Incoming.antt =====
-- router.rs: the handlers of the two kinds of events, and the loop.
pub mod Duplicates
use openjarvis.Base.{
  ℕ, suc, Text, Json, List, [], ◌∷◌, ◌++◌, Option, none, some, Bool, true, false, not, ◌&&◌,
  if◌then◌else◌, txt, Result, ok, err, any, is_some, unwrap_or, retain, text_eq, is_empty,
}
use openjarvis.Base.Str.{text_eq_instance}
use openjarvis.Base.Dict
use openjarvis.Base.Dict.{Dict}
use openjarvis.Model.{IncomingMessage, OutgoingMessage}
use openjarvis.Context.{Instant}
use openjarvis.Thread.{Thread, new_thread}
use openjarvis.Session.{UuidCrate, ThreadLocator, SessionStore, context_locator}
use openjarvis.Session.Manager.{
  load_or_create_thread, load_thread_context, is_external_message_processed,
  mark_external_message_processed, store_thread_context,
}
use openjarvis.Command.{
  CommandReply, is_command, running_thread_reply, try_execute_with_thread_context,
}
use openjarvis.Router.{
  Router, RouterError, events_closed, Exec, ◌>>=◌, ◌>>◌, pure, in_sessions, of_commands, Draws,
  AgentEvent, message_committed, turn_finalized, request_completed,
}
use openjarvis.Router.Pending.{
  mark_message_seen, is_thread_pending, try_mark_thread_pending, enqueue_message, dispatch_to_agent,
  release_or_dispatch_next,
}
use openjarvis.Router.Outgoing.{dispatch_command_reply, dispatch_committed_message}

module _ {S : Type 0} where
  -- To the agent if the thread is free, else into its queue.
  unfoldable pub route_to_agent : ThreadLocator → IncomingMessage → Exec S (Unit {0})
  unfolding try_mark_thread_pending
  route_to_agent l m r =
      let (fresh, r') = try_mark_thread_pending l r in
      let dispatched = dispatch_to_agent l m r' in
      if fresh then dispatched else (ok tt, enqueue_message l m r')

module _ {S : Type 0} (u : UuidCrate) (store : SessionStore S) (d : Draws) where
  -- Whether the store has a record of the message.
  processed_before : ThreadLocator → Option Text → Exec S Bool
  processed_before l none = pure false
  processed_before l (some id) = in_sessions (is_external_message_processed u store l id)

  mark_processed : ThreadLocator → IncomingMessage → Option Text → Exec S (Unit {0})
  mark_processed l m none = pure tt
  mark_processed l m (some id) =
      in_sessions (mark_external_message_processed u store l id none m.received_at)

  -- Answers a command and notes its message as processed.
  answer_command : ThreadLocator → IncomingMessage → CommandReply → Exec S (Unit {0})
  unfolding mark_processed
  answer_command l m reply = do
    dispatch_command_reply (d.message_id 0) m reply
    mark_processed l m m.external_message_id

  finish_command :
      ThreadLocator → IncomingMessage → Thread → Option CommandReply → Exec S (Unit {0})
  unfolding answer_command
  finish_command l m t none = route_to_agent l m
  finish_command l m t (some reply) = do
    in_sessions (store_thread_context u store d.session_id l t m.received_at)
    answer_command l m reply

  -- On the thread that was loaded, or a new one.
  run_command : ThreadLocator → IncomingMessage → Option Thread → Exec S (Unit {0})
  unfolding finish_command
  run_command l m loaded r =
      let t = unwrap_or loaded (new_thread (context_locator u l) m.received_at) in
      let (reply, changed) = try_execute_with_thread_context r.commands m t in
      (of_commands (λ registry. reply) >>= finish_command l m changed) r

  execute_command : ThreadLocator → IncomingMessage → Exec S (Unit {0})
  unfolding run_command
  execute_command l m = in_sessions (load_thread_context u store l d.now) >>= run_command l m

  refuse_or_execute : ThreadLocator → IncomingMessage → Option CommandReply → Exec S (Unit {0})
  unfolding execute_command answer_command
  refuse_or_execute l m (some reply) = answer_command l m reply
  refuse_or_execute l m none = execute_command l m

  -- The reply that refuses the command, if its thread is running.
  refusal : ThreadLocator → IncomingMessage → Exec S (Option CommandReply)
  refusal l m r =
      let asked = of_commands (λ registry. running_thread_reply registry m) r in
      if is_thread_pending l r then asked else (ok none, r)

  handle_command : ThreadLocator → IncomingMessage → Bool → Exec S (Unit {0})
  unfolding refuse_or_execute refusal
  handle_command l m false = route_to_agent l m
  handle_command l m true = do reply ← refusal l m; refuse_or_execute l m reply

  handle_new : ThreadLocator → IncomingMessage → Bool → Exec S (Unit {0})
  unfolding handle_command
  handle_new l m true = pure tt
  handle_new l m false = do
    command ← of_commands (λ registry. is_command m)
    handle_command l m command

  pub handle_accepted : IncomingMessage → Exec S (Unit {0})
  unfolding handle_new processed_before
  handle_accepted m = do
    l ← in_sessions (load_or_create_thread u store d.session_id m)
    before ← processed_before l m.external_message_id
    handle_new l m before

  unfoldable pub handle_incoming : IncomingMessage → Exec S (Unit {0})
  unfolding handle_accepted
  handle_incoming m r =
      let (fresh, r') = mark_message_seen m.external_message_id r in
      let accepted = handle_accepted m r in
      let marked = handle_accepted m r' in
      if r.message_dedup_enabled then (if fresh then marked else (ok tt, r')) else accepted

  unfoldable pub handle_agent_event : AgentEvent → Exec S (Unit {0})
  handle_agent_event (message_committed c) = dispatch_committed_message d c
  handle_agent_event (turn_finalized l f) = pure tt
  handle_agent_event (request_completed l at) = release_or_dispatch_next l

-- What one round of the loop can find.
pub data LoopEvent : Type 0 where
  shutdown : LoopEvent
  incoming : IncomingMessage → LoopEvent
  agent : AgentEvent → LoopEvent
  agent_gone : LoopEvent

module _ {S : Type 0} (u : UuidCrate) (store : SessionStore S) where
  -- `run_until_shutdown`, over what the rounds find. A handler's failure is logged and the loop goes
  -- on from the state that the handler left.
  unfoldable pub run_until_shutdown : List (Draws × LoopEvent) → Exec S (Unit {0})
  run_until_shutdown [] r = (ok tt, r)
  run_until_shutdown ((d, shutdown) ∷ es) r = (ok tt, r)
  run_until_shutdown ((d, incoming m) ∷ es) r =
      run_until_shutdown es (handle_incoming u store d m r).1
  run_until_shutdown ((d, agent e) ∷ es) r =
      run_until_shutdown es (handle_agent_event u store d e r).1
  run_until_shutdown ((d, agent_gone) ∷ es) r = (err events_closed, r)
