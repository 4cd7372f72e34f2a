-- ===== src/Router.antt =====
-- router.rs: the main loop between the channels and the agent. The router handles one event at a
-- time. A send to the agent or to a channel fails exactly when its receiver is closed; what was
-- sent is kept as a list. Identifiers that a step draws and the clock stand in `Draws`.
pub mod Pending
pub mod Outgoing
pub mod Incoming
pub mod Flight
use openjarvis.Base.{
  ℕ, suc, Text, Json, List, [], ◌∷◌, ◌++◌, Option, none, some, Bool, true, false, not, ◌&&◌,
  if◌then◌else◌, txt, Result, ok, err, any, is_some, unwrap_or, retain, text_eq, is_empty,
}
use openjarvis.Base.Value.{obj, field, str, null, end, Fields}
use openjarvis.Base.Str.{text_eq_instance}
use openjarvis.Base.Dict
use openjarvis.Base.Dict.{Dict}
use openjarvis.Context.{Uuid, Instant, ChatMessage}
use openjarvis.Model.{IncomingMessage, OutgoingMessage, ReplyTarget}
use openjarvis.Thread.{Thread, TurnEventKind, FinalizedTurn, new_thread}
use openjarvis.Session.{
  UuidCrate, ThreadLocator, StoreError, SessionStore, locator_eq, locator_instance, context_locator,
}
use openjarvis.Session.Cache.{Manager}
use openjarvis.Session.Manager.{
  load_or_create_thread, load_thread_context, is_external_message_processed,
  mark_external_message_processed, store_thread_context,
}
use openjarvis.Command.{
  CommandReply, CommandError, Registry, formatted_content, is_command, running_thread_reply,
  try_execute_with_thread_context,
}
use openjarvis.Attachment.{parse_message}

pub record Draws : Type 0 where
  pub session_id : Uuid
  pub message_id : ℕ → Uuid
  pub now : Instant

pub record AgentRequest : Type 0 where
  pub locator : ThreadLocator
  pub incoming : IncomingMessage

-- `AgentDispatchEvent`
pub record DispatchEvent : Type 0 where
  pub kind : TurnEventKind
  pub content : Text
  pub metadata : Json
  pub channel : Text
  pub external_thread_id : Option Text
  pub source_message_id : Option Text
  pub target : ReplyTarget
  pub session_id : Text
  pub session_channel : Text
  pub session_user_id : Text
  pub session_external_thread_id : Text
  pub session_thread_id : Text
  pub reply_to_source : Bool

-- `CommittedAgentMessage`
pub record CommittedMessage : Type 0 where
  pub locator : ThreadLocator
  pub turn_id : Uuid
  pub message : ChatMessage
  pub dispatch_events : List DispatchEvent
  pub committed_at : Instant

-- `AgentWorkerEvent`
pub data AgentEvent : Type 0 where
  message_committed : CommittedMessage → AgentEvent
  turn_finalized : ThreadLocator → FinalizedTurn → AgentEvent
  request_completed : ThreadLocator → Instant → AgentEvent

-- A channel's sender, with what was sent through it.
pub record Sender (A : Type 0) : Type 0 where
  pub is_open : Bool
  pub sent : List A

abbrev pub send : {A : Type 0} → A → Sender A → Option (Sender A)
send a s = if s.is_open then some (record s { sent = s.sent ++ a ∷ [] }) else none

pub record Router (S : Type 0) : Type 0 where
  pub agent_tx : Sender AgentRequest
  pub channels : Dict Text (Sender OutgoingMessage)
  pub sessions : Manager S
  pub commands : Registry
  pub message_dedup_enabled : Bool
  pub seen_messages : List Text
  pub pending_threads : List ThreadLocator
  pub queued_messages : Dict ThreadLocator (List IncomingMessage)

pub data RouterError : Type 0 where
  store_failed : StoreError → RouterError
  command_failed : CommandError → RouterError
  no_channel : Text → RouterError
  outgoing_closed : RouterError
  agent_closed : RouterError
  events_closed : RouterError

abbrev pub Exec : Type 0 → Type 0 → Type 0
Exec S A = Router S → Result RouterError A × Router S

module _ {A : Type 0} where
  abbrev of_store : Result StoreError A → Result RouterError A
  of_store (ok a) = ok a
  of_store (err e) = err (store_failed e)

  abbrev of_command : Result CommandError A → Result RouterError A
  of_command (ok a) = ok a
  of_command (err e) = err (command_failed e)

module _ {S A B : Type 0} where
  abbrev continue : Result RouterError A → (A → Exec S B) → Exec S B
  continue (ok a) f s = f a s
  continue (err e) f s = (err e, s)

  infixl 5 ◌>>=◌ ◌>>◌
  abbrev pub ◌>>=◌ : Exec S A → (A → Exec S B) → Exec S B
  ◌>>=◌ m f s = continue (m s).0 f (m s).1

  abbrev pub ◌>>◌ : Exec S A → Exec S B → Exec S B
  m >> n = m >>= λ _. n

module _ {S A : Type 0} where
  abbrev pub pure : A → Exec S A
  pure a r = (ok a, r)

  abbrev pub in_sessions : (Manager S → Result StoreError A × Manager S) → Exec S A
  in_sessions op r = (of_store (op r.sessions).0, record r { sessions = (op r.sessions).1 })

  abbrev pub of_commands : (Registry → Result CommandError A) → Exec S A
  of_commands f r = (of_command (f r.commands), r)
