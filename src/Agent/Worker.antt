-- ===== src/Agent/Worker.antt =====
-- agent/worker.rs: the worker handles one request after another. It locks the thread, starts it with
-- its system messages, runs the loop, and reports what was finalized; if the run fails, it reports
-- the failure in a turn of its own.
pub mod Stuck
pub mod Reports
use openjarvis.Base.{
  ℕ, Text, Json, List, [], ◌∷◌, ◌++◌, Option, none, some, Bool, true, false, not, ◌&&◌,
  if◌then◌else◌, txt, Result, ok, err, is_empty, unwrap_or,
}
use openjarvis.Base.Value.{obj, field, str, bool, end}
use openjarvis.Context.{ChatMessage, Uuid, Instant, Role, chat_message}
use openjarvis.Model.{IncomingMessage}
use openjarvis.Thread.{Thread, ThreadTurnEvent, TurnEventKind, FinalizedTurn}
use openjarvis.Thread.Messages.{append_message, messages, replace_messages}
use openjarvis.Thread.Turn.{begin_turn, buffer_turn_event, finalize_turn_failure, failure_reply}
use openjarvis.Compact.Budget.{Floats}
use openjarvis.Session.{ThreadLocator, session_key}
use openjarvis.Session.Cache.{write_cell}
use openjarvis.Session.Manager.{lock_thread_context, commit_finalized_turn_locked}
use openjarvis.Router.{
  AgentRequest, AgentEvent, message_committed, turn_finalized, request_completed,
}
use openjarvis.Agent.{Failure, failure, Run, ◌>>=◌, ◌>>◌, pure, fail, lift}
use openjarvis.Agent.Events.{EventSender, from_incoming_and_locator, prepare_dispatch_event}
use openjarvis.Agent.Features.{Features, build_messages}
use openjarvis.Agent.Loop.{
  Outside, AgentLoop, World, in_env, draw, on_thread, change_thread, in_sessions, set_thread,
  get_thread, report_event, persist_locked, active_turn_id,
}
use openjarvis.Agent.Loop.Compaction.{auto_compact_enabled_for_thread}
use openjarvis.Agent.Loop.Round.{Answer}
use openjarvis.Agent.Loop.Live.{Runtime, LoopOutput, run_locked_thread, prepare_thread_runtime}

-- `AgentWorker`
pub record AgentWorker (S E F : Type 0) : Type 0 where
  pub outside : Outside S E F
  pub agent_loop : AgentLoop E F
  pub runtime : Runtime S E F
  pub thread_initializer : Features E

-- The event of the worker's own failure turn.
abbrev pub fallback_event : Text → ThreadTurnEvent
fallback_event reply = record {
  kind = TurnEventKind.text_output;
  content = reply;
  metadata = obj (
      field (txt "source") (str (txt "worker_fallback_failure"))
        (field (txt "is_final") (bool true) (field (txt "is_error") (bool true) end)));
}

abbrev name_error : Result Failure (Unit {0}) → Result Failure (Unit {0})
name_error (ok u) = ok u
name_error (err e) = err (failure (txt "failed to persist initialized thread: " ++ e.text))

module _ {S E : Type 0} (floats : Floats) (k : AgentWorker S E floats.Float) where
  set_initial : List ChatMessage → Run (World S E floats.Float) Bool
  unfolding replace_messages
  set_initial [] w = (ok false, w)
  set_initial (m ∷ ms) w =
      (ok true, record w { thread = replace_messages (m ∷ ms) m.created_at w.thread })

  build_initial : Run (World S E floats.Float) (List ChatMessage)
  unfolding build_messages auto_compact_enabled_for_thread
  build_initial w =
      in_env
        (build_messages k.thread_initializer w.tools w.thread
          (auto_compact_enabled_for_thread floats k.outside k.agent_loop w.thread))
        w

  start_thread : Run (World S E floats.Float) Bool
  unfolding set_initial build_initial prepare_thread_runtime
  start_thread = prepare_thread_runtime k.runtime >>= (λ _. build_initial >>= set_initial)

  unfoldable pub initialize_thread : Run (World S E floats.Float) Bool
  unfolding start_thread messages
  initialize_thread w = if is_empty (messages w.thread) then start_thread w else (ok false, w)

  -- The caller's lock: the thread stands in the world from here on.
  unfoldable pub lock_thread : ThreadLocator → Instant → Run (World S E floats.Float) (Unit {0})
  unfolding lock_thread_context
  lock_thread l at = do
    fresh ← draw k.outside.new_id
    t ←
        in_sessions k.outside.store_failure
          (lock_thread_context k.outside.uuid k.outside.store fresh l at)
    set_thread t

  -- `commit_finalized_turn_locked`
  unfoldable pub commit_turn :
      ThreadLocator → FinalizedTurn → Run (World S E floats.Float) (Unit {0})
  unfolding commit_finalized_turn_locked
  commit_turn l turn = do
    fresh ← draw k.outside.new_id
    committed ←
        in_sessions k.outside.store_failure
          (commit_finalized_turn_locked k.outside.uuid k.outside.store fresh l turn)
    set_thread committed.1

  persist_initial : ThreadLocator → Instant → Bool → Run (World S E floats.Float) (Unit {0})
  unfolding persist_locked
  persist_initial l at false w = (ok tt, w)
  persist_initial l at true w =
      (name_error (persist_locked k.outside l at w).0, (persist_locked k.outside l at w).1)

  report_turn : Text → ThreadLocator → FinalizedTurn → Run (World S E floats.Float) (Unit {0})
  unfolding commit_turn
  report_turn what l turn = do
    commit_turn l turn
    report_event what k.outside.channel_closed (turn_finalized l turn)

  report_turns : ThreadLocator → List FinalizedTurn → Run (World S E floats.Float) (Unit {0})
  unfolding report_turn
  report_turns l [] = pure tt
  report_turns l (turn ∷ turns) = do
    report_turn (txt "failed to report finalized turn: ") l turn
    report_turns l turns

  report_completed : Text → ThreadLocator → Run (World S E floats.Float) (Unit {0})
  report_completed what l = do
    at ← draw k.outside.now
    report_event what k.outside.channel_closed (request_completed l at)

  -- The turn in which the worker itself reports that the run failed.
  open_fallback : IncomingMessage → Text → Run (World S E floats.Float) Instant
  unfolding begin_turn append_message buffer_turn_event
  open_fallback m reply = do
    id ← draw k.outside.new_id
    on_thread (begin_turn id m.external_message_id m.received_at)
    at ← draw k.outside.now
    change_thread (append_message (chat_message Role.assistant reply at))
    change_thread (buffer_turn_event (fallback_event reply))
    pure at

  fallback_message :
      ThreadLocator → EventSender → Text → Instant → Uuid → Run (World S E floats.Float) (Unit {0})
  unfolding prepare_dispatch_event
  fallback_message l tx reply at turn_id =
      report_event (txt "failed to report fallback committed message: ") k.outside.channel_closed (
        message_committed (record {
          locator = l;
          turn_id = turn_id;
          message = chat_message Role.assistant reply at;
          dispatch_events = prepare_dispatch_event tx (fallback_event reply) true ∷ [];
          committed_at = at;
        }))

  close_fallback : ThreadLocator → Text → Run (World S E floats.Float) (Unit {0})
  unfolding finalize_turn_failure report_turn report_completed
  close_fallback l error = do
    at ← draw k.outside.now
    turn ← on_thread (finalize_turn_failure error at)
    report_turn (txt "failed to report fallback finalized turn: ") l turn
    report_completed (txt "failed to report completed fallback request: ") l

  unfoldable pub fallback : AgentRequest → Text → Run (World S E floats.Float) (Unit {0})
  unfolding open_fallback persist_locked active_turn_id fallback_message close_fallback
      failure_reply from_incoming_and_locator
  fallback request error = do
    let reply = failure_reply error
    at ← open_fallback request.incoming reply
    persist_locked k.outside request.locator at
    turn_id ← active_turn_id (txt "failed thread did not expose one active turn id")
    t ← get_thread
    fallback_message request.locator (from_incoming_and_locator request.incoming t.locator) reply at
        turn_id
    close_fallback request.locator error

  -- What the worker does with the result of the run; `none` is a run that waits for the model.
  unfoldable pub conclude :
      AgentRequest
      → Result Failure (Option LoopOutput)
      → Run (World S E floats.Float) (Option LoopOutput)
  unfolding report_turns report_completed fallback
  conclude request (ok none) = pure none
  conclude request (ok (some output)) = do
    report_turns request.locator output.turns
    report_completed (txt "failed to report completed request: ") request.locator
    pure (some output)
  conclude request (err e) = fallback request e.chain >>= (λ _. fail e)

  run_request : AgentRequest → List Answer → Run (World S E floats.Float) (Option LoopOutput)
  unfolding run_locked_thread conclude from_incoming_and_locator
  run_request request answers w =
      let tx = from_incoming_and_locator request.incoming w.thread.locator in
      let ran =
        run_locked_thread floats k.outside k.agent_loop k.runtime request.locator tx
          request.incoming answers w in
      conclude request ran.0 ran.1

  -- With the thread locked.
  unfoldable pub serve :
      AgentRequest → List Answer → Run (World S E floats.Float) (Option LoopOutput)
  unfolding initialize_thread persist_initial run_request
  serve request answers = do
    initialized ← initialize_thread
    persist_initial request.locator request.incoming.received_at initialized
    run_request request answers

  -- The lock is given back, and the thread with it, unless the run still waits.
  abbrev pub release :
      ThreadLocator
      → Result Failure (Option LoopOutput)
      → World S E floats.Float
      → World S E floats.Float
  release l (ok none) w = w
  release l (ok (some output)) w = record w {
    sessions = write_cell (session_key l) l.thread_id w.thread w.sessions;
  }
  release l (err e) w = record w {
    sessions = write_cell (session_key l) l.thread_id w.thread w.sessions;
  }

  serve_locked : AgentRequest → List Answer → Run (World S E floats.Float) (Option LoopOutput)
  unfolding serve
  serve_locked request answers w =
      let served = serve request answers w in (served.0, release request.locator served.0 served.1)

  unfoldable pub handle_request :
      AgentRequest → List Answer → Run (World S E floats.Float) (Option LoopOutput)
  unfolding lock_thread serve_locked
  handle_request request answers =
      lock_thread request.locator request.incoming.received_at
      >>= (λ _. serve_locked request answers)

  -- `AgentWorker::run`: a request that fails is only logged; one that waits holds up the rest.
  unfoldable pub run_worker :
      List (AgentRequest × List Answer) → World S E floats.Float → World S E floats.Float
  unfolding handle_request
  run_worker [] w = w
  run_worker ((request, answers) ∷ requests) w =
      let handled = handle_request request answers w in
      let rest = run_worker requests handled.1 in
      elim handled.0 [ ok none ↦ handled.1 | ok (some output) ↦ rest | err e ↦ rest ]
