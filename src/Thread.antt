-- ===== src/Thread.antt =====
-- thread.rs: the thread aggregate. This file has its data; the methods stand in the modules below.
pub mod Messages
pub mod Turn
pub mod Toolsets
use openjarvis.Base.{
  ℕ, Text, Json, empty_object, List, [], ◌∷◌, ◌++◌, Option, none, some, Bool, false, txt,
}
use openjarvis.Context.{ChatMessage, Uuid, Instant}

pub data ToolEventKind : Type 0 where
  load_toolset unload_toolset execute_tool : ToolEventKind

pub record ThreadToolEvent : Type 0 where
  pub id : Uuid
  pub turn_id : Option Uuid
  pub kind : ToolEventKind
  pub toolset_name : Option Text
  pub tool_name : Option Text
  pub tool_call_id : Option Text
  pub arguments : Option Json
  pub metadata : Json
  pub is_error : Bool
  pub recorded_at : Instant

-- `ThreadToolEvent::new`, with the identifier that it draws.
abbrev pub tool_event : Uuid → ToolEventKind → Instant → ThreadToolEvent
tool_event id kind recorded_at = record {
  id = id;
  turn_id = none;
  kind = kind;
  toolset_name = none;
  tool_name = none;
  tool_call_id = none;
  arguments = none;
  metadata = empty_object;
  is_error = false;
  recorded_at = recorded_at;
}

abbrev pub with_turn_id : Uuid → ThreadToolEvent → ThreadToolEvent
with_turn_id id e = record e { turn_id = some id }

pub data TurnEventKind : Type 0 where
  text_output tool_call tool_result compact : TurnEventKind

pub record ThreadTurnEvent : Type 0 where
  pub kind : TurnEventKind
  pub content : Text
  pub metadata : Json

pub data TurnStatus : Type 0 where
  succeeded : TurnStatus
  failed : Text → TurnStatus

pub record CurrentTurn : Type 0 where
  pub turn_id : Uuid
  pub external_message_id : Option Text
  pub started_at : Instant
  pub buffered_events : List ThreadTurnEvent
  pub tool_events : List ThreadToolEvent

-- `ThreadContextLocator`
pub record ContextLocator : Type 0 where
  pub session_id : Option Text
  pub channel : Text
  pub user_id : Text
  pub external_thread_id : Text
  pub thread_id : Text

-- `ThreadContextLocator::thread_key`
unfoldable pub thread_key : ContextLocator → Text
thread_key l = l.user_id ++ (txt ":" ++ (l.channel ++ (txt ":" ++ l.external_thread_id)))

pub record FeatureState : Type 0 where
  pub auto_compact_override : Option Bool

pub record ToolState : Type 0 where
  pub loaded_toolsets : List Text
  pub tool_events : List ThreadToolEvent

pub record ApprovalRequest : Type 0 where
  pub id : Uuid
  pub action : Text
  pub metadata : Json
  pub requested_at : Instant

pub record ApprovalDecision : Type 0 where
  pub request_id : Uuid
  pub approved : Bool
  pub metadata : Json
  pub decided_at : Instant

pub record ApprovalState : Type 0 where
  pub pending : List ApprovalRequest
  pub decisions : List ApprovalDecision

pub record ThreadState : Type 0 where
  pub features : FeatureState
  pub tools : ToolState
  pub approval : ApprovalState

-- `ThreadState::default`
abbrev pub default_state : ThreadState
default_state = record {
  features = record { auto_compact_override = none };
  tools = record { loaded_toolsets = []; tool_events = [] };
  approval = record { pending = []; decisions = [] };
}

pub record ThreadContext : Type 0 where
  pub messages : List ChatMessage
  pub created_at : Instant
  pub updated_at : Instant

abbrev pub empty_context : Instant → ThreadContext
empty_context now = record { messages = []; created_at = now; updated_at = now }

pub record Thread : Type 0 where
  pub locator : ContextLocator
  pub thread : ThreadContext
  pub state : ThreadState
  pub revision : ℕ
  pub pending_tool_events : List ThreadToolEvent
  pub current_turn : Option CurrentTurn

-- `Thread::new`
abbrev pub new_thread : ContextLocator → Instant → Thread
new_thread locator now = record {
  locator = locator;
  thread = empty_context now;
  state = default_state;
  revision = 0;
  pending_tool_events = [];
  current_turn = none;
}

abbrev pub rebind_locator : ContextLocator → Thread → Thread
rebind_locator locator t = record t { locator = locator }

abbrev pub set_revision : ℕ → Thread → Thread
set_revision n t = record t { revision = n }

pub record FinalizedTurn : Type 0 where
  pub turn_id : Uuid
  pub external_message_id : Option Text
  pub started_at : Instant
  pub completed_at : Instant
  pub reply : Text
  pub status : TurnStatus
  pub events : List ThreadTurnEvent
  pub snapshot : Thread

-- The failures that the methods report, each with the thread's identifier.
pub data ThreadError : Type 0 where
  already_unfinished : Text → ThreadError
  no_active_turn : Text → ThreadError
  nothing_to_finalize : Text → ThreadError
