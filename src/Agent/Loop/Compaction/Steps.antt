-- ===== src/Agent/Loop/Compaction/Steps.antt =====
-- agent/agent_loop.rs: the request's preparation and a compaction send nothing, and keep the turn.
use openjarvis.Base.{
  length, unwrap_or, Text, List, Option, none, some, Bool, true, false, Result, ok, err, refl,
  is_empty, txt,
}
use openjarvis.Base.Value.{Json, obj, field, str, null, end}
use openjarvis.Context.{ChatMessage}
use openjarvis.Thread.{Thread, ThreadTurnEvent}
use openjarvis.Thread.Turn.{buffer_turn_event, record_tool_event}
use openjarvis.Thread.Messages.{messages, replace_messages_after_compaction}
use openjarvis.Compact.{compact_messages, CompactionOutcome}
use openjarvis.Compact.Budget.{Floats, Report, ToolDefinition}
use openjarvis.Agent.{Failure, Run}
use openjarvis.Agent.Tools.{ToolCallRequest}
use openjarvis.Agent.Events.{
  build_compact_event, build_compact_thread_tool_event, default_compact_event_metadata,
}
use openjarvis.Agent.Loop.{Outside, AgentLoop, World, change_thread}
use openjarvis.Agent.Loop.Calm.{
  Same-trans, if-Same, if-Calm, Calm, then-Calm, step-Calm, use-Calm, lift-Calm, get_thread-Calm,
  emit_hook-Calm, draw-Calm, change_thread-Calm, buffer_turn_event-SameTurn,
  replace_messages_after_compaction-SameTurn, record_tool_event-turn,
}
use openjarvis.Agent.Hooks.{HookKind}
use openjarvis.Agent.Loop.Compaction.{
  pre_compact_payload, of_compact, last_metadata, compact_result, compact_answer, list_tools,
  visible_state, prepare_request_state, rewrite_history, compact_history, nothing_to_compact,
  execute_turn_compaction, last_metadata, compact_result, compact_answer, record_compact,
  refuse_compact, accept_compact, answer_compact, requested_compact, handle_model_requested_compact,
}

module _ {S E : Type 0} (floats : Floats) (o : Outside S E floats.Float)
    (a : AgentLoop E floats.Float) where
  abbrev IsCalm : {A : Type 0} → Run (World S E floats.Float) A → Type 0
  IsCalm m = Calm S E floats.Float m

  list_tools-Calm : (b : Bool) → IsCalm (list_tools floats o a b)
  unfolding list_tools
  list_tools-Calm b = step-Calm S E floats.Float _ (λ w. (refl, refl, refl))

  visible_state-Calm :
      (ms : List ChatMessage) (base : List ToolDefinition) (r : Report floats.Float) (b : Bool)
      → IsCalm (visible_state floats o a ms base r b)
  unfolding visible_state
  visible_state-Calm ms base r false = lift-Calm S E floats.Float (ok _)
  visible_state-Calm ms base r true =
      then-Calm S E floats.Float _ _ (list_tools-Calm true)
        (λ tools. lift-Calm S E floats.Float (ok _))

  pub prepare_request_state-Calm : IsCalm (prepare_request_state floats o a)
  unfolding prepare_request_state
  prepare_request_state-Calm = then-Calm S E floats.Float _ _ (list_tools-Calm false) (λ base.
      then-Calm S E floats.Float _ _ (get_thread-Calm S E floats.Float)
        (λ t. visible_state-Calm (messages t) base _ _))

  buffer-Calm : (e : ThreadTurnEvent) → IsCalm (change_thread (buffer_turn_event e))
  buffer-Calm e =
      change_thread-Calm S E floats.Float (buffer_turn_event e) (buffer_turn_event-SameTurn e)

  rewrite_history-Calm :
      (reason : Text) (by_model : Bool) (id : Option Text) (r : Report floats.Float)
      (outcome : Option CompactionOutcome)
      → IsCalm (rewrite_history floats o a reason by_model id r outcome)
  unfolding rewrite_history
  rewrite_history-Calm reason by_model id r none = lift-Calm S E floats.Float (ok _)
  rewrite_history-Calm reason by_model id r (some outcome) =
      then-Calm S E floats.Float _ _ (draw-Calm S E floats.Float o.now) (λ now.
        then-Calm S E floats.Float _ _
          (change_thread-Calm S E floats.Float
            (replace_messages_after_compaction outcome.compacted_messages now)
            (replace_messages_after_compaction-SameTurn outcome.compacted_messages now))
          (λ _.
            then-Calm S E floats.Float _ _
              (buffer-Calm (
                build_compact_event reason by_model false (o.report_json r) (some outcome) id none))
              (λ _. lift-Calm S E floats.Float (ok (some outcome)))))

  compact_history-Calm :
      (thread_id reason : Text) (by_model : Bool) (id : Option Text) (r : Report floats.Float)
      (ms : List ChatMessage)
      → IsCalm (compact_history floats o a thread_id reason by_model id r ms)
  unfolding compact_history
  compact_history-Calm thread_id reason by_model id r ms =
      then-Calm S E floats.Float _ _
        (emit_hook-Calm S E floats.Float a.hooks HookKind.pre_compact
          (pre_compact_payload floats o a thread_id reason r (length ms)))
        (λ _. then-Calm S E floats.Float _ _ (draw-Calm S E floats.Float o.now) (λ now.
          then-Calm S E floats.Float _ _ (draw-Calm S E floats.Float o.provider) (λ provider.
            then-Calm S E floats.Float _ _
              (lift-Calm S E floats.Float
                (of_compact floats o a (compact_messages provider ms now)))
              (rewrite_history-Calm reason by_model id r))))

  nothing_to_compact-Calm :
      (reason : Text) (by_model : Bool) (id : Option Text) (r : Report floats.Float)
      → IsCalm (nothing_to_compact floats o a reason by_model id r)
  unfolding nothing_to_compact
  nothing_to_compact-Calm reason by_model id r =
      then-Calm S E floats.Float _ _
        (buffer-Calm (build_compact_event reason by_model false (o.report_json r) none id none))
        (λ _. lift-Calm S E floats.Float (ok none))

  pub execute_turn_compaction-Calm :
      (thread_id reason : Text) (by_model : Bool) (id : Option Text) (r : Report floats.Float)
      → IsCalm (execute_turn_compaction floats o a thread_id reason by_model id r)
  unfolding execute_turn_compaction
  execute_turn_compaction-Calm thread_id reason by_model id r = step-Calm S E floats.Float _ (λ w.
      if-Same (is_empty (messages w.thread)) w _ _
        (use-Calm S E floats.Float _ (nothing_to_compact-Calm reason by_model id r) w)
        (use-Calm S E floats.Float _
          (compact_history-Calm thread_id reason by_model id r (messages w.thread)) w))

  record_compact-Calm :
      (call : ToolCallRequest) (id : Text) (metadata : Thread → Json) (b : Bool)
      → IsCalm (record_compact floats o a call id metadata b)
  unfolding record_compact
  record_compact-Calm call id metadata b =
      then-Calm S E floats.Float _ _ (draw-Calm S E floats.Float o.new_id) (λ event_id.
        then-Calm S E floats.Float _ _ (draw-Calm S E floats.Float o.now) (λ now.
          step-Calm S E floats.Float
            (λ w. (
              ok tt,
              record w {
                thread =
                    record_tool_event
                      (build_compact_thread_tool_event event_id now call id (metadata w.thread) b)
                      w.thread;
              },
            ))
            (λ w. (
              record_tool_event-turn
                  (build_compact_thread_tool_event event_id now call id (metadata w.thread) b)
                  w.thread,
              refl,
              refl,
            ))))

  refuse_compact-Calm :
      (call : ToolCallRequest) (id : Text) (r : Report floats.Float) (error : Text)
      → IsCalm (refuse_compact floats o a call id r error)
  unfolding refuse_compact
  refuse_compact-Calm call id r error =
      let event =
        build_compact_event (txt "tool_requested") true true (o.report_json r) none (some id)
          (some error) in
      then-Calm S E floats.Float _ _
        (emit_hook-Calm S E floats.Float a.hooks HookKind.post_tool_use_failure
          (obj (field (txt "tool") (str call.name) (field (txt "error") (str error) end))))
        (λ _.
          then-Calm S E floats.Float _ _ (record_compact-Calm call id (λ t. event.metadata) true)
            (λ _.
              then-Calm S E floats.Float _ _ (buffer-Calm event)
                (λ _. lift-Calm S E floats.Float (ok (compact_result floats o a id error true)))))

  accept_compact-Calm :
      (call : ToolCallRequest) (id : Text) (outcome : Option CompactionOutcome)
      → IsCalm (accept_compact floats o a call id outcome)
  unfolding accept_compact
  accept_compact-Calm call id outcome =
      then-Calm S E floats.Float _ _ (get_thread-Calm S E floats.Float) (λ t.
        then-Calm S E floats.Float _ _
          (emit_hook-Calm S E floats.Float a.hooks HookKind.post_tool_use (
            obj (
              field (txt "tool") (str call.name)
                (field (txt "result") (unwrap_or (last_metadata floats o a t) null) end))))
          (λ _.
            then-Calm S E floats.Float _ _
              (record_compact-Calm call id
                (λ t'. unwrap_or (last_metadata floats o a t') default_compact_event_metadata)
                false)
              (λ _.
                lift-Calm S E floats.Float
                  (ok (compact_result floats o a id (compact_answer floats o a outcome) false)))))

  answer_compact-Calm :
      (call : ToolCallRequest) (id : Text) (r : Report floats.Float)
      (tried : Result Failure (Option CompactionOutcome))
      → IsCalm (answer_compact floats o a call id r tried)
  unfolding answer_compact
  answer_compact-Calm call id r (ok outcome) = accept_compact-Calm call id outcome
  answer_compact-Calm call id r (err e) = refuse_compact-Calm call id r e.text

  requested_compact-Calm :
      (thread_id : Text) (call : ToolCallRequest) (id : Text) (r : Report floats.Float)
      → IsCalm (requested_compact floats o a thread_id call id r)
  unfolding requested_compact
  requested_compact-Calm thread_id call id r = step-Calm S E floats.Float _ (λ w.
      let tried =
        execute_turn_compaction floats o a thread_id (txt "tool_requested") true (some id) r in
      Same-trans w (tried w).1 (answer_compact floats o a call id r (tried w).0 (tried w).1).1
        (use-Calm S E floats.Float tried
          (execute_turn_compaction-Calm thread_id (txt "tool_requested") true (some id) r) w)
        (use-Calm S E floats.Float _ (answer_compact-Calm call id r (tried w).0) (tried w).1))

  pub handle_model_requested_compact-Calm :
      (thread_id : Text) (call : ToolCallRequest) (id : Text) (r : Report floats.Float)
      → IsCalm (handle_model_requested_compact floats o a thread_id call id r)
  unfolding handle_model_requested_compact
  handle_model_requested_compact-Calm thread_id call id r =
      if-Calm S E floats.Float a.compact_enabled _ _ (requested_compact-Calm thread_id call id r)
        (refuse_compact-Calm call id r _)
