-- ===== src/Agent/Loop/Live.antt =====
-- agent/agent_loop.rs: `run_live_thread`, from the opening of the turn to its finalization. The rounds
-- follow the answers that are given; when these run out, the loop still waits for the model.
pub mod Reports
use openjarvis.Base.{
  ℕ, Text, Json, List, [], ◌∷◌, ◌++◌, map, Option, none, some, Bool, true, false, not, ◌&&◌,
  if◌then◌else◌, txt, text_eq, Result, ok, err, is_empty, unwrap_or, length, is_some,
}
use openjarvis.Base.Value.{obj, field, str, bool, num, null, arr, end, nil, cons, Items}
use openjarvis.Context.{ChatMessage, Uuid, Instant, Role, chat_message}
use openjarvis.Model.{IncomingMessage}
use openjarvis.Thread.{
  Thread, ThreadTurnEvent, TurnEventKind, FinalizedTurn, TurnStatus, succeeded, failed,
}
use openjarvis.Thread.Turn.{begin_turn, finalize_turn_success, finalize_turn_failure, failure_reply}
use openjarvis.Compact.Budget.{Floats, Report}
use openjarvis.Session.{ThreadLocator}
use openjarvis.Agent.{Failure, failure, Run, ◌>>=◌, ◌>>◌, pure, fail, lift}
use openjarvis.Agent.Hooks.{HookKind}
use openjarvis.Agent.Tools.{ToolRegistry}
use openjarvis.Agent.Tools.Calls.{strings}
use openjarvis.Agent.Events.{EventSender, incoming_message, optional}
use openjarvis.Agent.Loop.{
  Outside, AgentLoop, World, in_env, draw, on_thread, emit_hook, commit_message,
}
use openjarvis.Agent.Loop.Round.{Answer, TurnLoopSuccess, turn_result, pre_turn}

-- `TurnCompletion`
pub record TurnCompletion : Type 0 where
  pub reply : Text
  pub failure_error : Option Text

-- `AgentLoopOutput`, whose list of turns has the one turn of the run.
pub record LoopOutput : Type 0 where
  pub reply : Text
  pub metadata : Json
  pub turns : List FinalizedTurn

-- The event of a round that failed.
abbrev pub turn_failure_event : Text → ThreadTurnEvent
turn_failure_event reply = record {
  kind = TurnEventKind.text_output;
  content = reply;
  metadata = obj (
      field (txt "source") (str (txt "turn_failure"))
        (field (txt "is_final") (bool true) (field (txt "is_error") (bool true) end)));
}

-- What `build_loop_output_metadata` reads of the runtime.
pub record Runtime (S E F : Type 0) : Type 0 where
  pub mcp_server_count : E → ℕ
  pub uuid_text : Uuid → Text
  pub status_json : TurnStatus → Json
  pub register_builtin_tools : Run (ToolRegistry E × E) (Unit {0})

abbrev first_text : List Text → Json
first_text [] = null
first_text (s ∷ ss) = str s

unfoldable pub prepare_thread_runtime :
    {S E F : Type 0} → Runtime S E F → Run (World S E F) (Unit {0})
prepare_thread_runtime rt w =
    let registered = rt.register_builtin_tools (w.tools, w.env) in
    (registered.0, record w { tools = registered.1.0; env = registered.1.1 })

module _ {S E : Type 0} (floats : Floats) (o : Outside S E floats.Float)
    (a : AgentLoop E floats.Float) (rt : Runtime S E floats.Float) (l : ThreadLocator)
    (tx : EventSender) where
  unfoldable pub build_loop_output_metadata : FinalizedTurn → World S E floats.Float → Json
  build_loop_output_metadata turn w = obj (
      field (txt "tool_count") (num (length w.last_visible_tools)) (
        field (txt "mcp_server_count") (num (rt.mcp_server_count w.env)) (
          field (txt "hook_handler_count") (num (length a.hooks)) (
            field (txt "used_tool_name") (first_text w.used_tool_names) (
              field (txt "used_tool_names") (arr (strings w.used_tool_names)) (
                field (txt "loaded_toolsets")
                  (arr (strings turn.snapshot.state.tools.loaded_toolsets))
                  (field (txt "event_count") (num (length turn.events)) (
                    field (txt "context_budget") (optional o.report_json w.last_budget_report) (
                      field (txt "turn_status") (rt.status_json turn.status)
                        (field (txt "turn_id") (str (rt.uuid_text turn.turn_id)) end))))))))))

  commit_failure : Text → Run (World S E floats.Float) TurnCompletion
  unfolding commit_message failure_reply
  commit_failure error = do
    at ← draw o.now
    commit_message o l tx (chat_message Role.assistant (failure_reply error) at)
        (turn_failure_event (failure_reply error) ∷ [])
    pure (record { reply = failure_reply error; failure_error = some error })

  -- What a round leaves: the end of the turn, or that it goes on.
  unfoldable pub after_round :
      Result Failure TurnLoopSuccess → Run (World S E floats.Float) (Option TurnCompletion)
  unfolding commit_failure
  after_round (ok r) =
      pure (if r.completed then some (record { reply = r.reply; failure_error = none }) else none)
  after_round (err e) = commit_failure e.chain >>= (λ c. pure (some c))

  unfoldable pub loop_body : Text → Answer → Run (World S E floats.Float) (Option TurnCompletion)
  unfolding turn_result pre_turn after_round
  loop_body thread_id generate = pre_turn floats o a l tx thread_id >>= (λ _ w.
      let round = turn_result floats o a l tx thread_id generate w in after_round round.0 round.1)

  -- Whether another round follows.
  abbrev pub until_done :
      Run (World S E floats.Float) (Option TurnCompletion)
      → Option TurnCompletion
      → Run (World S E floats.Float) (Option TurnCompletion)
  until_done more none = more
  until_done more (some c) = pure (some c)

  unfoldable pub turn_loop :
      Text → List Answer → Run (World S E floats.Float) (Option TurnCompletion)
  unfolding loop_body
  turn_loop thread_id [] = pure none
  turn_loop thread_id (generate ∷ answers) =
      loop_body thread_id generate >>= until_done (turn_loop thread_id answers)

  unfoldable pub finalize : TurnCompletion → Instant → Run (World S E floats.Float) FinalizedTurn
  unfolding finalize_turn_success finalize_turn_failure
  finalize c at = elim c.failure_error [
    | some error ↦ on_thread (finalize_turn_failure error at)
    | none ↦ on_thread (finalize_turn_success c.reply at)
  ]

  -- The metadata of the run, and the notification of it.
  unfoldable pub announce : TurnCompletion → FinalizedTurn → Run (World S E floats.Float) LoopOutput
  unfolding emit_hook build_loop_output_metadata
  announce c turn w =
      let metadata = build_loop_output_metadata turn w in
      (emit_hook a.hooks HookKind.notification
            (obj (field (txt "reply_preview") (str c.reply) (field (txt "runtime") metadata end)))
          >>= (λ _. pure (record { reply = c.reply; metadata = metadata; turns = turn ∷ [] })))
        w

  unfoldable pub finish_turn : TurnCompletion → Run (World S E floats.Float) LoopOutput
  unfolding finalize announce
  finish_turn c = do at ← draw o.now; turn ← finalize c at; announce c turn

  unfoldable pub finish_or_wait :
      Option TurnCompletion → Run (World S E floats.Float) (Option LoopOutput)
  unfolding finish_turn
  finish_or_wait none = pure none
  finish_or_wait (some c) = finish_turn c >>= (λ output. pure (some output))

  unfoldable pub prompt_payload : Thread → Json
  prompt_payload t = obj (
      field (txt "channel") (str t.locator.channel) (
        field (txt "user_id") (str t.locator.user_id)
          (field (txt "thread_id") (str t.locator.thread_id) end)))

  -- The variables of the run as it begins.
  abbrev pub reset_variables : World S E floats.Float → World S E floats.Float
  reset_variables w = record w {
    reply_to_source = true;
    used_tool_names = [];
    last_visible_tools = [];
    last_budget_report = none;
  }

  unfoldable pub open_live_turn : Option Text → Instant → Run (World S E floats.Float) Uuid
  unfolding begin_turn
  open_live_turn external started_at = do
    id ← draw o.new_id
    on_thread (begin_turn id external started_at)

  -- The opening, and then the rounds.
  unfoldable pub live_rounds :
      Text
      → ChatMessage
      → Option Text
      → List Answer
      → Run (World S E floats.Float) (Option TurnCompletion)
  unfolding open_live_turn commit_message turn_loop
  live_rounds thread_id message external answers = do
    open_live_turn external message.created_at
    commit_message o l tx message []
    turn_loop thread_id answers

  unfoldable pub run_live_thread :
      ChatMessage → Option Text → List Answer → Run (World S E floats.Float) (Option LoopOutput)
  unfolding emit_hook prepare_thread_runtime prompt_payload live_rounds finish_or_wait
  run_live_thread message external answers w =
      let thread_id = w.thread.locator.thread_id in
      (prepare_thread_runtime rt >>= (λ _.
          emit_hook a.hooks HookKind.user_prompt_submit (prompt_payload w.thread)
          >>= (λ _. live_rounds thread_id message external answers >>= finish_or_wait)))
        (reset_variables w)

  -- `run_locked_thread`
  unfoldable pub run_locked_thread :
      IncomingMessage → List Answer → Run (World S E floats.Float) (Option LoopOutput)
  unfolding run_live_thread
  run_locked_thread m answers = run_live_thread (incoming_message m) m.external_message_id answers
