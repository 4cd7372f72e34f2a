-- ===== src/Examples.antt =====
-- Concrete data for the tests: one conversation of one user, and a `uuid` crate whose texts are one
-- character long.
mod Turns
mod Sessions
mod Texts
mod Routing
mod Agents
use openjarvis.Base.{
  ℕ, Text, List, [], ◌∷◌, Option, none, some, true, false, txt, refl, empty_object, length, suc, ok,
}
use openjarvis.Context.{ChatMessage, Role, chat_message, Uuid}
use openjarvis.Model.{IncomingMessage, OutgoingMessage}
use openjarvis.Thread.{
  Thread, ThreadToolEvent, ThreadTurnEvent, CurrentTurn, FinalizedTurn, tool_event, execute_tool,
  text_output, succeeded, new_thread,
}
use openjarvis.Session.{UuidCrate, ThreadLocator, DedupRecord, context_locator}
use openjarvis.Session.Memory.{MemoryState, new_memory}
use openjarvis.Session.Cache.{Manager, with_store}
use openjarvis.Command.{CommandHandler}

abbrev first_char : Text → Option Uuid
first_char [] = none
first_char (c ∷ s) = some c

abbrev pub uuids : UuidCrate
uuids = record {
  parse_str = first_char;
  to_string = λ u. u ∷ [];
  new_v5 = λ s. length s;
  parse_str-to_string = λ u. refl;
}

abbrev pub locator : ThreadLocator
locator = record {
  session_id = 1;
  channel = txt "feishu";
  user_id = txt "ou_1";
  external_thread_id = txt "default";
  thread_id = 2;
}

abbrev pub fresh_thread : Thread
fresh_thread = new_thread (context_locator uuids locator) 10

abbrev pub greeting : ChatMessage
greeting = chat_message Role.user (txt "hi") 11

abbrev pub instruction : ChatMessage
instruction = chat_message Role.system (txt "be brief") 9

abbrev pub tool_run : ThreadToolEvent
tool_run = tool_event 5 execute_tool 12

abbrev pub output : ThreadTurnEvent
output = record { kind = text_output; content = txt "hello"; metadata = empty_object }

abbrev pub turn : CurrentTurn
turn = record {
  turn_id = 7;
  external_message_id = some (txt "m1");
  started_at = 11;
  buffered_events = [];
  tool_events = [];
}

abbrev pub open_thread : Thread
open_thread = record fresh_thread {
  current_turn = some turn;
  thread = record { messages = instruction ∷ greeting ∷ []; created_at = 9; updated_at = 11 };
}

abbrev pub finalized : FinalizedTurn
finalized = record {
  turn_id = 7;
  external_message_id = some (txt "m1");
  started_at = 11;
  completed_at = 13;
  reply = txt "hello";
  status = succeeded;
  events = output ∷ [];
  snapshot = record open_thread { current_turn = none };
}

abbrev pub stale : FinalizedTurn
stale = record finalized { snapshot = record fresh_thread { revision = 3 } }

abbrev pub note : DedupRecord
note = record { thread_id = 2; external_message_id = txt "m1"; turn_id = some 7; completed_at = 13 }

abbrev pub incoming : IncomingMessage
incoming = record {
  id = 21;
  external_message_id = some (txt "m1");
  channel = txt "feishu";
  user_id = txt "ou_1";
  user_name = none;
  content = txt "hi";
  external_thread_id = none;
  received_at = 10;
  metadata = empty_object;
  attachments = [];
  reply_target = record { receive_id = txt "ou_1"; receive_id_type = txt "open_id" };
}

abbrev pub manager : Manager MemoryState
manager = with_store new_memory
