-- ===== src/Agent/Events.antt =====
-- agent/agent_loop.rs: the events, messages and texts that the loop makes.
use openjarvis.Base.{
  ℕ, zero, suc, ◌+◌, ◌/◌, ◌%◌, Text, Json, [], ◌∷◌, ◌++◌, Option, none, some, Bool, not, ◌&&◌, ◌==◌,
  if◌then◌else◌, txt, text_eq, is_some, length, take, leb, unwrap_or,
}
use openjarvis.Base.Value.{obj, field, str, bool, num, null, end, Fields}
use openjarvis.Context.{
  ChatMessage, ChatToolCall, Role, Instant, Uuid, chat_message, with_tool_calls, with_tool_call_id,
}
use openjarvis.Model.{IncomingMessage}
use openjarvis.Thread.{
  ContextLocator, ThreadTurnEvent, ThreadToolEvent, ToolEventKind, TurnEventKind, tool_event,
}
use openjarvis.Compact.{CompactionOutcome}
use openjarvis.Router.{DispatchEvent}
use openjarvis.Agent.Tools.{ToolCallRequest, ToolCallResult}

-- `AgentEventSender`
pub record EventSender : Type 0 where
  pub channel : Text
  pub external_thread_id : Option Text
  pub source_message_id : Option Text
  pub target : openjarvis.Model.ReplyTarget
  pub session_id : Text
  pub session_channel : Text
  pub session_user_id : Text
  pub session_external_thread_id : Text
  pub session_thread_id : Text

unfoldable pub from_incoming_and_locator : IncomingMessage → ContextLocator → EventSender
from_incoming_and_locator m l = record {
  channel = m.channel;
  external_thread_id = m.external_thread_id;
  source_message_id = m.external_message_id;
  target = m.reply_target;
  session_id = unwrap_or l.session_id [];
  session_channel = l.channel;
  session_user_id = l.user_id;
  session_external_thread_id = l.external_thread_id;
  session_thread_id = l.thread_id;
}

unfoldable pub prepare_dispatch_event : EventSender → ThreadTurnEvent → Bool → DispatchEvent
prepare_dispatch_event s e reply_to_source = record {
  kind = e.kind;
  content = e.content;
  metadata = e.metadata;
  channel = s.channel;
  external_thread_id = s.external_thread_id;
  source_message_id = s.source_message_id;
  target = s.target;
  session_id = s.session_id;
  session_channel = s.session_channel;
  session_user_id = s.session_user_id;
  session_external_thread_id = s.session_external_thread_id;
  session_thread_id = s.session_thread_id;
  reply_to_source = reply_to_source;
}

-- The decimal digits of a number before a text; one step of fuel is used for each digit.
digits : ℕ → ℕ → Text → Text
digits zero n rest = rest
digits (suc fuel) n rest =
    let rest' = (b'0' + n % 10) ∷ rest in
    let more = digits fuel (n / 10) rest' in if n / 10 == 0 then rest' else more

-- `Display` of a number.
unfoldable pub decimal : ℕ → Text
unfolding digits
decimal n = digits (suc n) n []

unfoldable pub truncate_text_with_total_chars : Text → ℕ → Text
unfolding decimal
truncate_text_with_total_chars content max_chars =
    let char_count = length content in
    let mark = txt "...(truncated, total_chars=" ++ (decimal char_count ++ txt ")") in
    if max_chars == 0
    then mark
    else if leb char_count max_chars
    then content
    else take max_chars content ++ mark

unfoldable pub format_tool_result_content : Text → Bool → Text
format_tool_result_content content is_error =
    if is_error then txt "Tool execution failed: " ++ content else content

abbrev tool_event_preview_max_chars : ℕ
tool_event_preview_max_chars = 300

-- `json_text` is `Value::to_string`.
unfoldable pub build_tool_call_event : (Json → Text) → ToolCallRequest → Text → ThreadTurnEvent
unfolding truncate_text_with_total_chars
build_tool_call_event json_text call id = record {
  kind = TurnEventKind.tool_call;
  content =
      txt "[openjarvis][tool_call] "
      ++ (call.name
          ++ (txt " "
              ++ truncate_text_with_total_chars (json_text call.arguments)
                  tool_event_preview_max_chars));
  metadata = obj (
      field (txt "tool") (str call.name)
        (field (txt "arguments") call.arguments (field (txt "tool_call_id") (str id) end)));
}

unfoldable pub build_tool_result_event : ToolCallRequest → Text → ToolCallResult → ThreadTurnEvent
unfolding truncate_text_with_total_chars format_tool_result_content
build_tool_result_event call id result = record {
  kind = TurnEventKind.tool_result;
  content =
      txt "[openjarvis][tool_result] "
      ++ truncate_text_with_total_chars (format_tool_result_content result.content result.is_error)
          tool_event_preview_max_chars;
  metadata = obj (
      field (txt "tool") (str call.name) (
        field (txt "is_error") (bool result.is_error)
          (field (txt "metadata") result.metadata (field (txt "tool_call_id") (str id) end))));
}

unfoldable pub build_tool_call_message : ChatToolCall → Instant → ChatMessage
build_tool_call_message call created_at =
    with_tool_calls (call ∷ []) (chat_message Role.toolcall [] created_at)

unfoldable pub build_tool_result_message : ToolCallResult → Text → Instant → ChatMessage
unfolding format_tool_result_content
build_tool_result_message result id at =
    with_tool_call_id id
      (chat_message Role.tool_result (format_tool_result_content result.content result.is_error) at)

abbrev pub optional : {A : Type 0} → (A → Json) → Option A → Json
optional f none = null
optional f (some a) = f a

compact_content : Option CompactionOutcome → Option Text → Text
unfolding decimal
compact_content outcome (some error) = txt "[openjarvis][compact] failed: " ++ error
compact_content (some o) none =
    txt "[openjarvis][compact] compacted "
    ++ (decimal o.source_message_count ++ txt " messages from current chat history")
compact_content none none = txt "[openjarvis][compact] no chat history was available to compact"

-- `budget_report` is the report as JSON.
unfoldable pub build_compact_event :
    Text
    → Bool
    → Bool
    → Json
    → Option CompactionOutcome
    → Option Text
    → Option Text
    → ThreadTurnEvent
unfolding compact_content
build_compact_event reason requested_by_model is_error budget_report outcome id error = record {
  kind = TurnEventKind.compact;
  content = compact_content outcome error;
  metadata = obj (
      field (txt "event_kind") (str (txt "compact")) (
        field (txt "reason") (str reason) (
          field (txt "requested_by_model") (bool requested_by_model) (
            field (txt "compacted") (bool (is_some outcome && not is_error)) (
              field (txt "is_error") (bool is_error) (
                field (txt "tool_call_id") (optional str id) (
                  field (txt "source_message_count")
                    (optional (λ o. num o.source_message_count) outcome)
                    (field (txt "after_message_count")
                      (optional (λ o. num (length o.compacted_messages)) outcome)
                      (field (txt "summary_preview")
                        (optional (λ o. str o.summary.compacted_assistant) outcome)
                        (field (txt "budget_report") budget_report
                          (field (txt "error") (optional str error) end)))))))))));
}

abbrev pub default_compact_event_metadata : Json
default_compact_event_metadata = obj (field (txt "event_kind") (str (txt "compact")) end)

abbrev pub incoming_message : IncomingMessage → ChatMessage
incoming_message m = chat_message Role.user m.content m.received_at

field_text : Text → Fields → Option Text
field_text key end = none
field_text key (field k v fields) =
    let rest = field_text key fields in
    if text_eq k key then (elim v [ str s ↦ some s | _ ↦ none ]) else rest

-- `value[key].as_str()`
unfoldable pub text_at : Text → Json → Option Text
unfolding field_text
text_at key (obj fields) = field_text key fields
text_at key _ = none

abbrev kind_named : Option Text → ToolEventKind
kind_named none = ToolEventKind.execute_tool
kind_named (some s) =
    if text_eq s (txt "load_toolset")
    then ToolEventKind.load_toolset
    else if text_eq s (txt "unload_toolset")
    then ToolEventKind.unload_toolset
    else ToolEventKind.execute_tool

-- The identifier and the time are drawn by `ThreadToolEvent::new`.
unfoldable pub build_thread_tool_event :
    Uuid → Instant → ToolCallRequest → Text → ToolCallResult → ThreadToolEvent
unfolding text_at
build_thread_tool_event event_id now call id result =
    record (tool_event event_id (kind_named (text_at (txt "event_kind") result.metadata)) now) {
      toolset_name = text_at (txt "toolset") result.metadata;
      tool_name = some call.name;
      tool_call_id = some id;
      arguments = some call.arguments;
      metadata = result.metadata;
      is_error = result.is_error;
    }

unfoldable pub build_compact_thread_tool_event :
    Uuid → Instant → ToolCallRequest → Text → Json → Bool → ThreadToolEvent
build_compact_thread_tool_event event_id now call id metadata is_error =
    record (tool_event event_id ToolEventKind.execute_tool now) {
      tool_name = some call.name;
      tool_call_id = some id;
      arguments = some call.arguments;
      metadata = metadata;
      is_error = is_error;
    }
