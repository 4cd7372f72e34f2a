-- ===== src/Agent/Loop/Compaction.antt =====
-- agent/agent_loop.rs and agent/feature/mod.rs: the request and its budget, and the compaction of a
-- thread, when the budget asks for it or the model does.
pub mod Steps
use openjarvis.Base.{
  ℕ, Text, Json, List, [], ◌∷◌, ◌++◌, map, Option, none, some, Bool, true, false, not, ◌&&◌,
  if◌then◌else◌, txt, any, Result, ok, err, is_empty, unwrap_or, length, last,
}
use openjarvis.Base.Value.{obj, field, str, bool, num, null, end}
use openjarvis.Context.{ChatMessage, Uuid, Instant, is_system}
use openjarvis.Thread.{Thread, ThreadTurnEvent}
use openjarvis.Thread.Messages.{auto_compact_enabled, messages, replace_messages_after_compaction}
use openjarvis.Thread.Turn.{buffer_turn_event, current_turn_events, record_tool_event}
use openjarvis.Compact.{CompactError, CompactionOutcome, compact_messages}
use openjarvis.Compact.Budget.{Floats, Report, ToolDefinition, estimate, reaches_ratio}
use openjarvis.Agent.{Failure, failure, Run, ◌>>=◌, ◌>>◌, pure, fail, lift}
use openjarvis.Agent.Hooks.{HookKind}
use openjarvis.Agent.Tools.{ToolCallRequest, ToolCallResult, list_for_context_with_compact}
use openjarvis.Agent.Events.{
  build_compact_event, build_compact_thread_tool_event, default_compact_event_metadata, decimal,
}
use openjarvis.Agent.Loop.{
  Outside, AgentLoop, World, in_env, draw, change_thread, get_thread, emit_hook, set_thread,
}

pub record RequestState (F : Type 0) : Type 0 where
  pub messages : List ChatMessage
  pub tools : List ToolDefinition
  pub budget_report : Report F

module _ {S E : Type 0} (floats : Floats) (o : Outside S E floats.Float)
    (a : AgentLoop E floats.Float) where
  unfoldable pub auto_compact_enabled_for_thread : Thread → Bool
  unfolding auto_compact_enabled
  auto_compact_enabled_for_thread t = a.compact_enabled && auto_compact_enabled a.auto_compact t

  -- `AgentRuntime::list_tools`
  list_tools : Bool → Run (World S E floats.Float) (List ToolDefinition)
  unfolding list_for_context_with_compact
  list_tools visible w =
      in_env (list_for_context_with_compact o.peripherals w.tools w.thread visible) w

  visible_state :
      List ChatMessage
      → List ToolDefinition
      → Report floats.Float
      → Bool
      → Run (World S E floats.Float) (RequestState floats.Float)
  unfolding estimate list_tools
  visible_state ms base report false =
      pure (record { messages = ms; tools = base; budget_report = report })
  visible_state ms base report true = do
    tools ← list_tools true
    pure (record {
      messages = ms;
      tools = tools;
      budget_report = estimate floats a.budget_estimator ms tools;
    })

  unfoldable pub prepare_request_state : Run (World S E floats.Float) (RequestState floats.Float)
  unfolding list_tools visible_state auto_compact_enabled_for_thread estimate reaches_ratio messages
  prepare_request_state = do
    base ← list_tools false
    t ← get_thread
    let report = estimate floats a.budget_estimator (messages t) base
    visible_state (messages t) base report (
        auto_compact_enabled_for_thread t
        && reaches_ratio floats a.tool_visible_threshold_ratio report)

  unfoldable pub should_runtime_compact : Thread → Report floats.Float → Bool
  unfolding messages reaches_ratio
  should_runtime_compact t report =
      a.compact_enabled
      && any (λ m. not (is_system m.role)) (messages t)
      && reaches_ratio floats a.runtime_threshold_ratio report

  pre_compact_payload : Text → Text → Report floats.Float → ℕ → Json
  pre_compact_payload thread_id reason report count = obj (
      field (txt "thread_id") (str thread_id) (
        field (txt "reason") (str reason) (
          field (txt "budget_report") (o.report_json report)
            (field (txt "active_message_count") (num count) end))))

  -- The rewrite of the history by the summary that the provider gives.
  rewrite_history :
      Text
      → Bool
      → Option Text
      → Report floats.Float
      → Option CompactionOutcome
      → Run (World S E floats.Float) (Option CompactionOutcome)
  unfolding replace_messages_after_compaction buffer_turn_event build_compact_event
  rewrite_history reason by_model id report none = pure none
  rewrite_history reason by_model id report (some outcome) = do
    now ← draw o.now
    change_thread (replace_messages_after_compaction outcome.compacted_messages now)
    change_thread (
        buffer_turn_event
          (build_compact_event reason by_model false (o.report_json report) (some outcome) id none))
    pure (some outcome)

  abbrev of_compact : {A : Type 0} → Result CompactError A → Result Failure A
  of_compact (ok x) = ok x
  of_compact (err e) = err (o.compact_failure e)

  compact_history :
      Text
      → Text
      → Bool
      → Option Text
      → Report floats.Float
      → List ChatMessage
      → Run (World S E floats.Float) (Option CompactionOutcome)
  unfolding emit_hook compact_messages rewrite_history pre_compact_payload
  compact_history thread_id reason by_model id report compactable = do
    emit_hook a.hooks HookKind.pre_compact
        (pre_compact_payload thread_id reason report (length compactable))
    now ← draw o.now
    provider ← draw o.provider
    outcome ← lift (of_compact (compact_messages provider compactable now))
    rewrite_history reason by_model id report outcome

  nothing_to_compact :
      Text
      → Bool
      → Option Text
      → Report floats.Float
      → Run (World S E floats.Float) (Option CompactionOutcome)
  unfolding buffer_turn_event build_compact_event
  nothing_to_compact reason by_model id report = do
    change_thread (
        buffer_turn_event
          (build_compact_event reason by_model false (o.report_json report) none id none))
    pure none

  unfoldable pub execute_turn_compaction :
      Text
      → Text
      → Bool
      → Option Text
      → Report floats.Float
      → Run (World S E floats.Float) (Option CompactionOutcome)
  unfolding messages compact_history nothing_to_compact
  execute_turn_compaction thread_id reason by_model id report w =
      if is_empty (messages w.thread)
      then nothing_to_compact reason by_model id report w
      else compact_history thread_id reason by_model id report (messages w.thread) w

  abbrev compact_result : Text → Text → Bool → ToolCallResult
  compact_result id content is_error = record {
    content = content;
    metadata =
        obj (
          field (txt "event_kind") (str (txt "compact")) (field (txt "tool_call_id") (str id) end));
    is_error = is_error;
  }

  -- `thread_context.record_tool_event`, with the identifier and the time that the event draws.
  record_compact :
      ToolCallRequest → Text → (Thread → Json) → Bool → Run (World S E floats.Float) (Unit {0})
  unfolding record_tool_event build_compact_thread_tool_event
  record_compact call id metadata is_error = do
    event_id ← draw o.new_id
    now ← draw o.now
    t ← get_thread
    set_thread (
        record_tool_event
          (build_compact_thread_tool_event event_id now call id (metadata t) is_error) t)

  refuse_compact :
      ToolCallRequest
      → Text
      → Report floats.Float
      → Text
      → Run (World S E floats.Float) ToolCallResult
  unfolding emit_hook record_compact build_compact_event buffer_turn_event
  refuse_compact call id report error =
      let event =
        build_compact_event (txt "tool_requested") true true (o.report_json report) none (some id)
          (some error) in
      emit_hook a.hooks HookKind.post_tool_use_failure
        (obj (field (txt "tool") (str call.name) (field (txt "error") (str error) end)))
      >>= (λ _. record_compact call id (λ t. event.metadata) true >>= (λ _.
          change_thread (buffer_turn_event event) >>= (λ _. pure (compact_result id error true))))

  last_metadata : Thread → Option Json
  unfolding current_turn_events
  last_metadata t = mathlib.Core.Option.map (λ e. e.metadata) (last (current_turn_events t))

  abbrev compact_answer : Option CompactionOutcome → Text
  compact_answer none = txt "compact skipped: no chat history was available to compact"
  compact_answer (some outcome) =
      txt "compact completed: compacted "
      ++ (decimal outcome.source_message_count ++ txt " messages from current chat history")

  accept_compact :
      ToolCallRequest
      → Text
      → Option CompactionOutcome
      → Run (World S E floats.Float) ToolCallResult
  unfolding emit_hook record_compact last_metadata decimal
  accept_compact call id outcome = do
    t ← get_thread
    emit_hook a.hooks HookKind.post_tool_use (
        obj (
          field (txt "tool") (str call.name)
            (field (txt "result") (unwrap_or (last_metadata t) null) end)))
    record_compact call id (λ t'. unwrap_or (last_metadata t') default_compact_event_metadata) false
    pure (compact_result id (compact_answer outcome) false)

  answer_compact :
      ToolCallRequest
      → Text
      → Report floats.Float
      → Result Failure (Option CompactionOutcome)
      → Run (World S E floats.Float) ToolCallResult
  unfolding refuse_compact accept_compact
  answer_compact call id report (ok outcome) = accept_compact call id outcome
  answer_compact call id report (err e) = refuse_compact call id report e.text

  requested_compact :
      Text
      → ToolCallRequest
      → Text
      → Report floats.Float
      → Run (World S E floats.Float) ToolCallResult
  unfolding answer_compact execute_turn_compaction
  requested_compact thread_id call id report w =
      let tried =
        execute_turn_compaction thread_id (txt "tool_requested") true (some id) report w in
      answer_compact call id report tried.0 tried.1

  unfoldable pub handle_model_requested_compact :
      Text
      → ToolCallRequest
      → Text
      → Report floats.Float
      → Run (World S E floats.Float) ToolCallResult
  unfolding refuse_compact requested_compact
  handle_model_requested_compact thread_id call id report =
      if a.compact_enabled
      then requested_compact thread_id call id report
      else refuse_compact call id report (txt "compact runtime is disabled")
