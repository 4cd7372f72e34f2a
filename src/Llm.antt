-- ===== src/Llm.antt =====
-- llm.rs: the messages of a request as the OpenAI protocol has them, where a run of tool-call messages
-- is one message of the assistant, and the reading of a tool call from a response. The types of that
-- protocol are the client library's, of which the fields that are set are modelled.
pub mod Calls
pub mod Orphans
use openjarvis.Base.{
  ℕ, zero, suc, Text, Json, List, [], ◌∷◌, ◌++◌, map, Option, none, some, Bool, true, false, not,
  if◌then◌else◌, txt, Result, ok, err, is_empty, length, ◌≡◌, refl, sym, ap, ◌∙◌, arith, ◌≤◌,
  Bool-cases, inl, inr, ◌>>=◌,
}
use mathlib.Core.List.{append_assoc, append-nil}
use openjarvis.Base.Str.{trim}
use openjarvis.Context.{ChatMessage, ChatToolCall, Role}
use openjarvis.Agent.{Failure, failure}

-- `FunctionCall` with the call's identifier
pub record OpenAiToolCall : Type 0 where
  pub id : Text
  pub name : Text
  pub arguments : Text

-- `ChatCompletionRequestMessage`
pub data OpenAiMessage : Type 0 where
  system : Text → OpenAiMessage
  user : Text → OpenAiMessage
  tool : Text → Text → OpenAiMessage
  assistant : Option Text → List OpenAiToolCall → OpenAiMessage

-- `json_text` is `Value::to_string`, and `from_json` is `serde_json::from_str`.
unfoldable pub serialize_openai_tool_call : (Json → Text) → ChatToolCall → OpenAiToolCall
serialize_openai_tool_call json_text call = record {
  id = call.id;
  name = call.name;
  arguments = json_text call.arguments;
}

unfoldable pub parse_openai_tool_call :
    (Text → Option Json) → OpenAiToolCall → Result Failure ChatToolCall
parse_openai_tool_call from_json call = elim (from_json call.arguments) [
  | none ↦ err (failure (txt "failed to parse tool arguments for `" ++ (call.name ++ txt "`")))
  | some arguments ↦ ok (record { id = call.id; name = call.name; arguments = arguments })
]

-- The calls of a run of tool-call messages, after those given, and the messages that follow the run.
unfoldable pub collect_tool_call_messages :
    List ChatMessage → List ChatToolCall → List ChatToolCall × List ChatMessage
collect_tool_call_messages [] calls = (calls, [])
collect_tool_call_messages (m ∷ ms) calls =
    let more = collect_tool_call_messages ms (calls ++ m.tool_calls) in
    elim m.role [ Role.toolcall ↦ more | _ ↦ (calls, m ∷ ms) ]

abbrev is_toolcall : Role → Bool
is_toolcall Role.toolcall = true
is_toolcall _ = false

abbrev starts_with_toolcall : List ChatMessage → Bool
starts_with_toolcall [] = false
starts_with_toolcall (m ∷ ms) = is_toolcall m.role

-- Of a message and those after it.
unfoldable pub message_starts_tool_call_batch : ChatMessage → List ChatMessage → Bool
message_starts_tool_call_batch m ms =
    if not (is_empty m.tool_calls) then true else starts_with_toolcall ms

abbrev not_blank : Text → Option Text
not_blank content = if is_empty (trim content) then none else some content

unfoldable pub serialize_assistant_message :
    (Json → Text) → Text → List ChatToolCall → OpenAiMessage
unfolding serialize_openai_tool_call
serialize_assistant_message json_text content calls =
    assistant (not_blank content) (map (serialize_openai_tool_call json_text) calls)

tool_message : Text → Option Text → Result Failure OpenAiMessage
tool_message content none = err (failure (txt "tool result message is missing tool_call_id"))
tool_message content (some id) = ok (tool content id)

unfoldable pub serialize_context_message :
    (Json → Text) → ChatMessage → Result Failure OpenAiMessage
unfolding tool_message serialize_assistant_message
serialize_context_message json_text m = elim m.role [
  | Role.system ↦ ok (system m.content)
  | Role.user ↦ ok (user m.content)
  | Role.tool_result ↦ tool_message m.content m.tool_call_id
  | Role.assistant ↦ ok (serialize_assistant_message json_text m.content m.tool_calls)
  | Role.toolcall ↦ ok (serialize_assistant_message json_text m.content m.tool_calls)
]

abbrev pub prepend :
    Result Failure OpenAiMessage
    → Result Failure (List OpenAiMessage)
    → Result Failure (List OpenAiMessage)
prepend (ok m) (ok ms) = ok (m ∷ ms)
prepend (ok m) (err e) = err e
prepend (err e) _ = err e

-- The loop, with a step of fuel for each message.
serialize_from : (Json → Text) → ℕ → List ChatMessage → Result Failure (List OpenAiMessage)
unfolding collect_tool_call_messages message_starts_tool_call_batch serialize_context_message
    serialize_assistant_message
serialize_from json_text zero ms = ok []
serialize_from json_text (suc fuel) [] = ok []
serialize_from json_text (suc fuel) (m ∷ ms) =
    let run = collect_tool_call_messages (m ∷ ms) [] in
    let batch = collect_tool_call_messages ms m.tool_calls in
    let plain =
      prepend (serialize_context_message json_text m) (serialize_from json_text fuel ms) in
    elim m.role [
      | Role.toolcall ↦
          prepend (ok (serialize_assistant_message json_text [] run.0))
            (serialize_from json_text fuel run.1)
      | Role.assistant ↦
          if message_starts_tool_call_batch m ms
          then prepend (ok (serialize_assistant_message json_text m.content batch.0))
              (serialize_from json_text fuel batch.1)
          else plain
      | _ ↦ plain
    ]

unfoldable pub serialize_openai_messages :
    (Json → Text) → List ChatMessage → Result Failure (List OpenAiMessage)
unfolding serialize_from
serialize_openai_messages json_text ms = serialize_from json_text (length ms) ms
