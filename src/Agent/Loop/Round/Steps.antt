-- ===== src/Agent/Loop/Round/Steps.antt =====
-- agent/agent_loop.rs: every step of a round advances the turn.
use openjarvis.Base.{
  Text, List, [], ◌∷◌, Option, none, some, Bool, true, false, refl, Result, ok, err, is_empty, txt,
  text_eq,
}
use openjarvis.Base.Str.{trim}
use openjarvis.Base.Value.{obj, field, str, end}
use openjarvis.Context.{ChatMessage, ChatToolCall, Instant}
use openjarvis.Thread.Turn.{record_tool_event}
use openjarvis.Compact.Budget.{Floats, Report}
use openjarvis.Session.{ThreadLocator}
use openjarvis.Agent.{Failure, failure, Run, pure, fail}
use openjarvis.Agent.Hooks.{HookKind}
use openjarvis.Agent.Tools.{ToolCallRequest, ToolCallResult}
use openjarvis.Agent.Tools.Calls.Keeps.{use-SafeCall, call_for_context-SafeCall}
use openjarvis.Agent.Events.{
  build_tool_call_message, build_tool_call_event, build_tool_result_event,
  build_tool_result_message, EventSender, build_thread_tool_event,
}
use openjarvis.Agent.Loop.{Outside, AgentLoop, World}
use openjarvis.Agent.Loop.Calm.{
  Same, Same-trans, get_thread-Calm, if-Calm, Calm, then-Calm, step-Calm, use-Calm, lift-Calm,
  emit_hook-Calm, draw-Calm, record_tool_event-turn,
}
use openjarvis.Agent.Loop.Commits.{
  Advances, then-Advances, Calm-Advances, commit_message-Advances, if-Advances,
}
use openjarvis.Agent.Loop.Compaction.{RequestState, should_runtime_compact}
use openjarvis.Agent.Loop.Compaction.Steps.{
  prepare_request_state-Calm, handle_model_requested_compact-Calm, execute_turn_compaction-Calm,
}
use openjarvis.Agent.Loop.Round.{
  text_event, commit_text, final_answer, commit_aside, calls_at, commit_calls, settle_call,
  call_thread_tool, record_call, ordinary_call, run_call, use_tool, commit_result, answer_call,
  answer_calls, tool_round, use_response, note_request, turn_result, pre_turn, Answer, LlmResponse,
  TurnLoopSuccess, request_of, reply_text,
}

module _ {S E : Type 0} (floats : Floats) (o : Outside S E floats.Float)
    (a : AgentLoop E floats.Float) (l : ThreadLocator) (tx : EventSender) (thread_id : Text) where
  abbrev Moves : {A : Type 0} → Run (World S E floats.Float) A → Type 0
  Moves m = Advances S E floats.Float l m

  done-Moves : {A : Type 0} (x : A) → Moves (pure x)
  done-Moves x = Calm-Advances S E floats.Float l (pure x) (lift-Calm S E floats.Float (ok x))

  failed-Moves : (A : Type 0) (e : Failure) → Moves {A = A} (fail e)
  failed-Moves A e =
      Calm-Advances S E floats.Float l (fail {A = A} e) (lift-Calm S E floats.Float {A = A} (err e))

  commit_text-Moves :
      (m : ChatMessage) (b : Bool) → Moves (commit_text floats o a l tx thread_id m b)
  unfolding commit_text
  commit_text-Moves m b = commit_message-Advances o l tx m (text_event m.content b ∷ [])

  final_answer-Moves : (m : Option ChatMessage) → Moves (final_answer floats o a l tx thread_id m)
  unfolding final_answer
  final_answer-Moves none =
      failed-Moves TurnLoopSuccess
        (failure (txt "llm response did not contain assistant text or tool calls"))
  final_answer-Moves (some m) =
      if-Advances S E floats.Float l (is_empty (trim m.content)) _ _
        (failed-Moves TurnLoopSuccess
          (failure (txt "llm final response did not contain assistant text")))
        (then-Advances S E floats.Float l _ _ (commit_text-Moves m true)
          (λ _. done-Moves (record { reply = m.content; completed = true })))

  commit_aside-Moves : (m : Option ChatMessage) → Moves (commit_aside floats o a l tx thread_id m)
  unfolding commit_aside
  commit_aside-Moves none = done-Moves tt
  commit_aside-Moves (some m) =
      if-Advances S E floats.Float l (is_empty (trim m.content)) _ _ (done-Moves tt)
        (commit_text-Moves m false)

  calls_at-Moves : (m : Option ChatMessage) → Moves (calls_at floats o a l tx thread_id m)
  unfolding calls_at
  calls_at-Moves none = Calm-Advances S E floats.Float l _ (draw-Calm S E floats.Float o.now)
  calls_at-Moves (some m) = done-Moves m.created_at

  commit_calls-Moves :
      (calls : List ChatToolCall) (at : Instant)
      → Moves (commit_calls floats o a l tx thread_id calls at)
  unfolding commit_calls
  commit_calls-Moves [] at = done-Moves tt
  commit_calls-Moves (call ∷ calls) at =
      then-Advances S E floats.Float l _ _
        (commit_message-Advances o l tx (build_tool_call_message call at)
          (build_tool_call_event o.json_text (request_of call) call.id ∷ []))
        (λ _. commit_calls-Moves calls at)

  settle_call-Calm :
      (request : ToolCallRequest) (r : Result Failure ToolCallResult)
      → Calm S E floats.Float (settle_call floats o a l tx thread_id request r)
  unfolding settle_call
  settle_call-Calm request (ok result) =
      then-Calm S E floats.Float _ _
        (emit_hook-Calm S E floats.Float a.hooks HookKind.post_tool_use
          (obj (field (txt "tool") (str request.name) (field (txt "result") result.metadata end))))
        (λ _. lift-Calm S E floats.Float (ok result))
  settle_call-Calm request (err e) =
      then-Calm S E floats.Float _ _
        (emit_hook-Calm S E floats.Float a.hooks HookKind.post_tool_use_failure
          (obj (field (txt "tool") (str request.name) (field (txt "error") (str e.text) end))))
        (λ _. lift-Calm S E floats.Float (
          ok (record {
            content = e.text;
            metadata = obj (field (txt "tool") (str request.name) end);
            is_error = true;
          })))

  record_call-Calm :
      (request : ToolCallRequest) (id : Text) (result : ToolCallResult)
      → Calm S E floats.Float (record_call floats o a l tx thread_id request id result)
  unfolding record_call
  record_call-Calm request id result =
      then-Calm S E floats.Float _ _ (draw-Calm S E floats.Float o.new_id) (λ event_id.
        then-Calm S E floats.Float _ _ (draw-Calm S E floats.Float o.now) (λ now.
          step-Calm S E floats.Float
            (λ w. (
              ok tt,
              record w {
                thread =
                    record_tool_event (build_thread_tool_event event_id now request id result)
                      w.thread;
              },
            ))
            (λ w. (
              record_tool_event-turn (build_thread_tool_event event_id now request id result)
                  w.thread,
              refl,
              refl,
            ))))

  note_request-Calm :
      (r : RequestState floats.Float)
      → Calm S E floats.Float (note_request floats o a l tx thread_id r)
  unfolding note_request
  note_request-Calm r = step-Calm S E floats.Float _ (λ w. (refl, refl, refl))

  use_tool-Calm : (name : Text) → Calm S E floats.Float (use_tool floats o a l tx thread_id name)
  unfolding use_tool
  use_tool-Calm name = step-Calm S E floats.Float _ (λ w. (refl, refl, refl))

  -- A tool works on the thread and on what is outside only.
  call_thread_tool-Same :
      (request : ToolCallRequest) (w : World S E floats.Float)
      → Same w (call_thread_tool floats o a l tx thread_id request w).1
  unfolding call_thread_tool
  call_thread_tool-Same request w = (
    use-SafeCall E _ (call_for_context-SafeCall o.peripherals w.tools request) (w.thread, w.env),
    refl,
    refl,
  )

  ordinary_call-Calm :
      (request : ToolCallRequest) (id : Text)
      → Calm S E floats.Float (ordinary_call floats o a l tx thread_id request id)
  unfolding ordinary_call
  ordinary_call-Calm request id = step-Calm S E floats.Float _ (λ w.
      let called = call_thread_tool floats o a l tx thread_id request w in
      Same-trans w called.1 (ordinary_call floats o a l tx thread_id request id w).1
        (call_thread_tool-Same request w)
        (use-Calm S E floats.Float _
          (then-Calm S E floats.Float _ _ (settle_call-Calm request called.0) (λ result.
            then-Calm S E floats.Float _ _ (record_call-Calm request id result)
              (λ _. lift-Calm S E floats.Float (ok result))))
          called.1))

  run_call-Calm :
      (r : Report floats.Float) (request : ToolCallRequest) (id : Text)
      → Calm S E floats.Float (run_call floats o a l tx thread_id r request id)
  unfolding run_call
  run_call-Calm r request id =
      if-Calm S E floats.Float (text_eq request.name (txt "compact")) _ _
        (handle_model_requested_compact-Calm floats o a thread_id request id r)
        (ordinary_call-Calm request id)

  commit_result-Moves :
      (request : ToolCallRequest) (id : Text) (result : ToolCallResult)
      → Moves (commit_result floats o a l tx thread_id request id result)
  unfolding commit_result
  commit_result-Moves request id result =
      then-Advances S E floats.Float l _ _
        (Calm-Advances S E floats.Float l _ (draw-Calm S E floats.Float o.now))
        (λ at.
          commit_message-Advances o l tx (build_tool_result_message result id at)
            (build_tool_result_event request id result ∷ []))

  answer_call-Moves :
      (r : Report floats.Float) (call : ChatToolCall)
      → Moves (answer_call floats o a l tx thread_id r call)
  unfolding answer_call
  answer_call-Moves r call =
      then-Advances S E floats.Float l _ _
        (Calm-Advances S E floats.Float l _ (use_tool-Calm call.name))
        (λ _.
          then-Advances S E floats.Float l _ _
            (Calm-Advances S E floats.Float l _ (
              emit_hook-Calm S E floats.Float a.hooks HookKind.pre_tool_use (
                obj (
                  field (txt "tool") (str call.name) (
                    field (txt "arguments") call.arguments
                      (field (txt "tool_call_id") (str call.id) end))))))
            (λ _.
              then-Advances S E floats.Float l _ _
                (Calm-Advances S E floats.Float l _ (run_call-Calm r (request_of call) call.id))
                (λ result. commit_result-Moves (request_of call) call.id result)))

  answer_calls-Moves :
      (r : Report floats.Float) (calls : List ChatToolCall)
      → Moves (answer_calls floats o a l tx thread_id r calls)
  unfolding answer_calls
  answer_calls-Moves r [] = done-Moves tt
  answer_calls-Moves r (call ∷ calls) =
      then-Advances S E floats.Float l _ _ (answer_call-Moves r call)
        (λ _. answer_calls-Moves r calls)

  tool_round-Moves :
      (r : Report floats.Float) (m : Option ChatMessage) (calls : List ChatToolCall)
      → Moves (tool_round floats o a l tx thread_id r m calls)
  unfolding tool_round
  tool_round-Moves r m calls = then-Advances S E floats.Float l _ _ (commit_aside-Moves m) (λ _.
      then-Advances S E floats.Float l _ _ (calls_at-Moves m) (λ at.
        then-Advances S E floats.Float l _ _ (commit_calls-Moves calls at) (λ _.
          then-Advances S E floats.Float l _ _ (answer_calls-Moves r calls) (λ _.
            done-Moves
              (record { reply = reply_text floats o a l tx thread_id m; completed = false })))))

  use_response-Moves :
      (r : Report floats.Float) (response : LlmResponse)
      → Moves (use_response floats o a l tx thread_id r response)
  unfolding use_response
  use_response-Moves r response =
      if-Advances S E floats.Float l (is_empty response.tool_calls) _ _
        (final_answer-Moves response.message)
        (tool_round-Moves r response.message response.tool_calls)

  pub turn_result-Moves :
      (generate : Answer) → Moves (turn_result floats o a l tx thread_id generate)
  unfolding turn_result
  turn_result-Moves generate =
      then-Advances S E floats.Float l _ _
        (Calm-Advances S E floats.Float l _ (prepare_request_state-Calm floats o a))
        (λ request.
          then-Advances S E floats.Float l _ _
            (Calm-Advances S E floats.Float l _ (note_request-Calm request))
            (λ _.
              then-Advances S E floats.Float l _ _
                (Calm-Advances S E floats.Float l _ (
                  lift-Calm S E floats.Float
                    (generate (record { messages = request.messages; tools = request.tools }))))
                (λ response. use_response-Moves request.budget_report response)))

  pub pre_turn-Moves : Moves (pre_turn floats o a l tx thread_id)
  unfolding pre_turn
  pre_turn-Moves =
      then-Advances S E floats.Float l _ _
        (Calm-Advances S E floats.Float l _ (prepare_request_state-Calm floats o a))
        (λ request.
          then-Advances S E floats.Float l _ _
            (Calm-Advances S E floats.Float l _ (get_thread-Calm S E floats.Float))
            (λ t.
              if-Advances S E floats.Float l
                (should_runtime_compact floats o a t request.budget_report) _ _
                (then-Advances S E floats.Float l _ _
                  (Calm-Advances S E floats.Float l _ (
                    execute_turn_compaction-Calm floats o a thread_id (txt "runtime_threshold")
                      false none request.budget_report))
                  (λ _. done-Moves tt))
                (done-Moves tt)))
