-- ===== src/Agent/Loop.antt =====
-- agent/agent_loop.rs: what a run of the loop works on, and the commit of a message. The thread that
-- the caller holds locked stands in the world, and returns to its place in the cache with the lock.
-- The clock, drawn identifiers, the handlers of tools and hooks act on what is outside, a state `E`.
pub mod Compaction
pub mod Round
pub mod Live
pub mod Advance
pub mod Calm
mod Commits
use openjarvis.Base.{
  ℕ, Text, Json, List, [], ◌∷◌, ◌++◌, map, Option, none, some, Bool, true, false, not, ◌&&◌,
  if◌then◌else◌, txt, any, Result, ok, err, is_empty, unwrap_or,
}
use openjarvis.Base.Value.{obj, field, str, bool, end}
use openjarvis.Context.{ChatMessage, ChatToolCall, Uuid, Instant, is_system}
use openjarvis.Thread.{
  Thread, ThreadError, ThreadTurnEvent, already_unfinished, no_active_turn, nothing_to_finalize,
}
use openjarvis.Thread.Messages.{append_message, auto_compact_enabled, messages}
use openjarvis.Thread.Turn.{begin_turn, buffer_turn_event, current_turn_id, record_tool_event}
use openjarvis.Session.{UuidCrate, ThreadLocator, StoreError, SessionStore}
use openjarvis.Session.Cache.{Manager}
use openjarvis.Session.Manager.{persist_locked_thread_context}
use openjarvis.Compact.{CompactProvider, CompactError}
use openjarvis.Compact.Budget.{Floats, Estimator, Report, ToolDefinition, estimate, reaches_ratio}
use openjarvis.Router.{AgentEvent, message_committed, Sender, send, DispatchEvent}
use openjarvis.Agent.{Failure, failure, Run, ◌>>=◌, ◌>>◌, pure, fail, lift}
use openjarvis.Agent.Hooks.{HookHandler, HookKind, emit}
use openjarvis.Agent.Tools.{ToolRegistry, Peripherals, list_for_context_with_compact}
use openjarvis.Agent.Events.{EventSender, prepare_dispatch_event}

-- What the loop uses that is not its own, or is drawn.
pub record Outside (S E F : Type 0) : Type 0 where
  pub uuid : UuidCrate
  pub store : SessionStore S
  pub now : E → Instant × E
  pub new_id : E → Uuid × E
  pub provider : E → CompactProvider × E
  pub peripherals : Peripherals E
  pub json_text : Json → Text
  pub report_json : Report F → Json
  pub store_failure : StoreError → Failure
  pub compact_failure : CompactError → Failure
  pub channel_closed : Text

-- `AgentLoop`: its hooks, the compaction's settings, and the budget's estimator.
pub record AgentLoop (E F : Type 0) : Type 0 where
  pub hooks : List (HookHandler E)
  pub compact_enabled : Bool
  pub auto_compact : Bool
  pub tool_visible_threshold_ratio : F
  pub runtime_threshold_ratio : F
  pub budget_estimator : Estimator

-- The locked thread, what the program shares, and the variables of `run_live_thread`.
pub record World (S E F : Type 0) : Type 0 where
  pub thread : Thread
  pub sessions : Manager S
  pub event_tx : Sender AgentEvent
  pub tools : ToolRegistry E
  pub env : E
  pub reply_to_source : Bool
  pub used_tool_names : List Text
  pub last_visible_tools : List ToolDefinition
  pub last_budget_report : Option (Report F)

abbrev pub thread_failure : ThreadError → Failure
thread_failure (already_unfinished id) =
    failure (txt "thread `" ++ (id ++ txt "` already owns one unfinished turn"))
thread_failure (no_active_turn id) =
    failure (txt "thread `" ++ (id ++ txt "` does not own one active turn"))
thread_failure (nothing_to_finalize id) =
    failure (txt "thread `" ++ (id ++ txt "` does not own one active turn to finalize"))

abbrev pub of_store : {A : Type 0} → (StoreError → Failure) → Result StoreError A → Result Failure A
of_store fails (ok a) = ok a
of_store fails (err e) = err (fails e)

module _ {S E F : Type 0} where
  abbrev pub in_env : {A : Type 0} → Run E A → Run (World S E F) A
  in_env m w = ((m w.env).0, record w { env = (m w.env).1 })

  abbrev pub draw : {A : Type 0} → (E → A × E) → Run (World S E F) A
  draw f w = (ok (f w.env).0, record w { env = (f w.env).1 })

  abbrev pub in_sessions :
      {A : Type 0}
      → (StoreError → Failure)
      → (Manager S → Result StoreError A × Manager S)
      → Run (World S E F) A
  in_sessions fails op w =
      (of_store fails (op w.sessions).0, record w { sessions = (op w.sessions).1 })

  abbrev pub set_thread : Thread → Run (World S E F) (Unit {0})
  set_thread t w = (ok tt, record w { thread = t })

  abbrev pub on_thread :
      {A : Type 0} → (Thread → Result ThreadError (A × Thread)) → Run (World S E F) A
  on_thread f w = elim (f w.thread) [
    | ok (a, t) ↦ (ok a, record w { thread = t })
    | err e ↦ (err (thread_failure e), w)
  ]

  abbrev pub change_thread : (Thread → Result ThreadError Thread) → Run (World S E F) (Unit {0})
  change_thread f w = elim (f w.thread) [
    | ok t ↦ (ok tt, record w { thread = t })
    | err e ↦ (err (thread_failure e), w)
  ]

  abbrev pub get_thread : Run (World S E F) Thread
  get_thread w = (ok w.thread, w)

  -- `emit` of a hook.
  unfoldable pub emit_hook : List (HookHandler E) → HookKind → Json → Run (World S E F) (Unit {0})
  unfolding emit
  emit_hook hooks kind payload = in_env (emit hooks (record { kind = kind; payload = payload }))

  -- A send to the router; `what` stands before the reason that it failed.
  abbrev pub report_event : Text → Text → AgentEvent → Run (World S E F) (Unit {0})
  report_event what reason e w = elim (send e w.event_tx) [
    | some tx ↦ (ok tt, record w { event_tx = tx })
    | none ↦ (err (failure (what ++ reason)), w)
  ]

  unfoldable pub buffer_all : List ThreadTurnEvent → Run (World S E F) (Unit {0})
  buffer_all [] = pure tt
  buffer_all (e ∷ es) = change_thread (buffer_turn_event e) >>= (λ _. buffer_all es)

  -- `current_turn_id`, or the failure.
  unfoldable pub active_turn_id : Text → Run (World S E F) Uuid
  unfolding current_turn_id
  active_turn_id missing w = elim (current_turn_id w.thread) [
    | some id ↦ (ok id, w)
    | none ↦ (err (failure missing), w)
  ]

  -- The payload of an event; the first one of a run answers the source.
  abbrev pub next_dispatch : EventSender → ThreadTurnEvent → Run (World S E F) DispatchEvent
  next_dispatch tx e w =
      (ok (prepare_dispatch_event tx e w.reply_to_source), record w { reply_to_source = false })

  unfoldable pub dispatch_all :
      EventSender → List ThreadTurnEvent → Run (World S E F) (List DispatchEvent)
  dispatch_all tx [] = pure []
  dispatch_all tx (e ∷ es) = do d ← next_dispatch tx e; ds ← dispatch_all tx es; pure (d ∷ ds)

module _ {S E F : Type 0} (o : Outside S E F) (l : ThreadLocator) where
  unfoldable pub persist_locked : Instant → Run (World S E F) (Unit {0})
  unfolding persist_locked_thread_context
  persist_locked at = do
    fresh ← draw o.new_id
    t ← get_thread
    persisted ←
        in_sessions o.store_failure (persist_locked_thread_context o.uuid o.store fresh l t at)
    set_thread persisted

  -- `WorkerCommittedMessageHandler::on_committed_message`
  unfoldable pub on_committed_message :
      Uuid → ChatMessage → List DispatchEvent → Run (World S E F) (Unit {0})
  unfolding persist_locked
  on_committed_message turn_id message dispatch_events = persist_locked message.created_at >>= (λ _.
      report_event (txt "failed to report committed message: ") o.channel_closed (
        message_committed (record {
          locator = l;
          turn_id = turn_id;
          message = message;
          dispatch_events = dispatch_events;
          committed_at = message.created_at;
        })))

  unfoldable pub commit_message :
      EventSender → ChatMessage → List ThreadTurnEvent → Run (World S E F) (Unit {0})
  unfolding append_message buffer_all dispatch_all active_turn_id on_committed_message
  commit_message tx message turn_events = do
    change_thread (append_message message)
    buffer_all turn_events
    dispatches ← dispatch_all tx turn_events
    turn_id ← active_turn_id (txt "thread did not expose one active turn id for committed message")
    on_committed_message turn_id message dispatches
