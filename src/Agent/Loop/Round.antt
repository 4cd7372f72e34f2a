-- ===== src/Agent/Loop/Round.antt =====
-- agent/agent_loop.rs: one round of the loop, which asks the model once, and runs the tools that it
-- calls. What the model answers in a round is a function of the request, given for each round.
pub mod Steps
use openjarvis.Base.{
  ℕ, Text, Json, List, [], ◌∷◌, ◌++◌, map, Option, none, some, Bool, true, false, not, ◌&&◌,
  if◌then◌else◌, txt, text_eq, Result, ok, err, is_empty, unwrap_or,
}
use openjarvis.Base.Value.{obj, field, str, bool, num, null, end}
use openjarvis.Base.Str.{trim}
use openjarvis.Context.{ChatMessage, ChatToolCall, Uuid, Instant, Role, chat_message}
use openjarvis.Thread.{Thread, ThreadTurnEvent, TurnEventKind}
use openjarvis.Thread.Turn.{record_tool_event, failure_reply}
use openjarvis.Compact.Budget.{Floats, Report, ToolDefinition}
use openjarvis.Session.{ThreadLocator}
use openjarvis.Agent.{Failure, failure, Run, ◌>>=◌, ◌>>◌, pure, fail, lift}
use openjarvis.Agent.Hooks.{HookKind}
use openjarvis.Agent.Tools.{ToolCallRequest, ToolCallResult}
use openjarvis.Agent.Tools.Calls.{call_for_context}
use openjarvis.Agent.Events.{
  EventSender, build_tool_call_event, build_tool_result_event, build_tool_call_message,
  build_tool_result_message, build_thread_tool_event,
}
use openjarvis.Agent.Loop.{
  Outside, AgentLoop, World, in_env, draw, get_thread, emit_hook, set_thread, commit_message,
}
use openjarvis.Agent.Loop.Compaction.{
  RequestState, prepare_request_state, should_runtime_compact, execute_turn_compaction,
  handle_model_requested_compact,
}

-- `LLMRequest`
pub record LlmRequest : Type 0 where
  pub messages : List ChatMessage
  pub tools : List ToolDefinition

-- `LLMResponse`
pub record LlmResponse : Type 0 where
  pub message : Option ChatMessage
  pub tool_calls : List ChatToolCall

abbrev pub Answer : Type 0
Answer = LlmRequest → Result Failure LlmResponse

-- `TurnLoopSuccess`
pub record TurnLoopSuccess : Type 0 where
  pub reply : Text
  pub completed : Bool

-- The event of a text of the model.
abbrev pub text_event : Text → Bool → ThreadTurnEvent
text_event content is_final = record {
  kind = TurnEventKind.text_output;
  content = content;
  metadata = obj (
      field (txt "source") (str (txt "llm_response")) (field (txt "is_final") (bool is_final) end));
}

abbrev pub request_of : ChatToolCall → ToolCallRequest
request_of call = record { name = call.name; arguments = call.arguments }

module _ {S E : Type 0} (floats : Floats) (o : Outside S E floats.Float)
    (a : AgentLoop E floats.Float) (l : ThreadLocator) (tx : EventSender) (thread_id : Text) where
  commit_text : ChatMessage → Bool → Run (World S E floats.Float) (Unit {0})
  unfolding commit_message
  commit_text m is_final = commit_message o l tx m (text_event m.content is_final ∷ [])

  -- The answer that ends the turn: a text that is not blank.
  unfoldable pub final_answer : Option ChatMessage → Run (World S E floats.Float) TurnLoopSuccess
  unfolding commit_text
  final_answer none =
      fail (failure (txt "llm response did not contain assistant text or tool calls"))
  final_answer (some m) =
      if is_empty (trim m.content)
      then fail (failure (txt "llm final response did not contain assistant text"))
      else commit_text m true >>= (λ _. pure (record { reply = m.content; completed = true }))

  -- The text beside tool calls, if it is not blank.
  unfoldable pub commit_aside : Option ChatMessage → Run (World S E floats.Float) (Unit {0})
  unfolding commit_text
  commit_aside none = pure tt
  commit_aside (some m) = if is_empty (trim m.content) then pure tt else commit_text m false

  calls_at : Option ChatMessage → Run (World S E floats.Float) Instant
  calls_at none = draw o.now
  calls_at (some m) = pure m.created_at

  unfoldable pub commit_calls :
      List ChatToolCall → Instant → Run (World S E floats.Float) (Unit {0})
  unfolding commit_message build_tool_call_message build_tool_call_event
  commit_calls [] at = pure tt
  commit_calls (call ∷ calls) at = do
    commit_message o l tx (build_tool_call_message call at)
        (build_tool_call_event o.json_text (request_of call) call.id ∷ [])
    commit_calls calls at

  -- A failed call is an answer to the model too.
  settle_call :
      ToolCallRequest → Result Failure ToolCallResult → Run (World S E floats.Float) ToolCallResult
  unfolding emit_hook
  settle_call request (ok result) = do
    emit_hook a.hooks HookKind.post_tool_use
        (obj (field (txt "tool") (str request.name) (field (txt "result") result.metadata end)))
    pure result
  settle_call request (err e) = do
    emit_hook a.hooks HookKind.post_tool_use_failure
        (obj (field (txt "tool") (str request.name) (field (txt "error") (str e.text) end)))
    pure (record {
      content = e.text;
      metadata = obj (field (txt "tool") (str request.name) end);
      is_error = true;
    })

  -- `call_thread_tool`: the tools work on the thread and on what is outside.
  unfoldable pub call_thread_tool :
      ToolCallRequest
      → World S E floats.Float
      → Result Failure ToolCallResult × World S E floats.Float
  unfolding call_for_context
  call_thread_tool request w =
      let called = call_for_context o.peripherals w.tools request (w.thread, w.env) in
      (called.0, record w { thread = called.1.0; env = called.1.1 })

  record_call : ToolCallRequest → Text → ToolCallResult → Run (World S E floats.Float) (Unit {0})
  unfolding record_tool_event build_thread_tool_event
  record_call request id result = do
    event_id ← draw o.new_id
    now ← draw o.now
    t ← get_thread
    set_thread (record_tool_event (build_thread_tool_event event_id now request id result) t)

  ordinary_call : ToolCallRequest → Text → Run (World S E floats.Float) ToolCallResult
  unfolding call_thread_tool settle_call record_call
  ordinary_call request id w =
      (settle_call request (call_thread_tool request w).0
          >>= (λ result. record_call request id result >>= (λ _. pure result)))
        (call_thread_tool request w).1

  unfoldable pub run_call :
      Report floats.Float → ToolCallRequest → Text → Run (World S E floats.Float) ToolCallResult
  unfolding handle_model_requested_compact ordinary_call
  run_call report request id =
      if text_eq request.name (txt "compact")
      then handle_model_requested_compact floats o a thread_id request id report
      else ordinary_call request id

  unfoldable pub use_tool : Text → Run (World S E floats.Float) (Unit {0})
  use_tool name w = (ok tt, record w { used_tool_names = w.used_tool_names ++ name ∷ [] })

  commit_result : ToolCallRequest → Text → ToolCallResult → Run (World S E floats.Float) (Unit {0})
  unfolding commit_message build_tool_result_event build_tool_result_message
  commit_result request id result = do
    at ← draw o.now
    commit_message o l tx (build_tool_result_message result id at)
        (build_tool_result_event request id result ∷ [])

  -- The body of the loop over the calls of one answer.
  unfoldable pub answer_call :
      Report floats.Float → ChatToolCall → Run (World S E floats.Float) (Unit {0})
  unfolding use_tool emit_hook run_call commit_result
  answer_call report call = do
    use_tool call.name
    emit_hook a.hooks HookKind.pre_tool_use (
        obj (
          field (txt "tool") (str call.name) (
            field (txt "arguments") call.arguments (field (txt "tool_call_id") (str call.id) end))))
    result ← run_call report (request_of call) call.id
    commit_result (request_of call) call.id result

  unfoldable pub answer_calls :
      Report floats.Float → List ChatToolCall → Run (World S E floats.Float) (Unit {0})
  unfolding answer_call
  answer_calls report [] = pure tt
  answer_calls report (call ∷ calls) = do answer_call report call; answer_calls report calls

  reply_text : Option ChatMessage → Text
  reply_text none = []
  reply_text (some m) = m.content

  tool_round :
      Report floats.Float
      → Option ChatMessage
      → List ChatToolCall
      → Run (World S E floats.Float) TurnLoopSuccess
  unfolding commit_aside calls_at commit_calls answer_calls reply_text
  tool_round report message calls = do
    commit_aside message
    at ← calls_at message
    commit_calls calls at
    answer_calls report calls
    pure (record { reply = reply_text message; completed = false })

  use_response : Report floats.Float → LlmResponse → Run (World S E floats.Float) TurnLoopSuccess
  unfolding final_answer tool_round
  use_response report r =
      if is_empty r.tool_calls
      then final_answer r.message
      else tool_round report r.message r.tool_calls

  note_request : RequestState floats.Float → Run (World S E floats.Float) (Unit {0})
  note_request request w = (
    ok tt,
    record w {
      last_visible_tools = request.tools;
      last_budget_report = some request.budget_report;
    },
  )

  -- The `async` block of a round, whose failure is answered to the user.
  unfoldable pub turn_result : Answer → Run (World S E floats.Float) TurnLoopSuccess
  unfolding prepare_request_state note_request use_response
  turn_result generate = do
    request ← prepare_request_state floats o a
    note_request request
    response ← lift (generate (record { messages = request.messages; tools = request.tools }))
    use_response request.budget_report response

  -- What stands in front of the block: a failure of it ends the run.
  unfoldable pub pre_turn : Run (World S E floats.Float) (Unit {0})
  unfolding prepare_request_state should_runtime_compact execute_turn_compaction
  pre_turn = do
    request ← prepare_request_state floats o a
    t ← get_thread
    if should_runtime_compact floats o a t request.budget_report
        then (execute_turn_compaction floats o a thread_id (txt "runtime_threshold") false none
              request.budget_report
            >>= (λ _. pure tt))
        else pure tt
