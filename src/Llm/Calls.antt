-- ===== src/Llm/Calls.antt =====
-- llm.rs: no tool call is lost or moved on the way to the model, and one that comes back is the same.
use openjarvis.Base.{
  ℕ, zero, suc, Text, Json, List, [], ◌∷◌, ◌++◌, map, Option, some, Bool, true, false,
  if◌then◌else◌, Result, ok, err, length, ◌≡◌, refl, sym, ap, ◌∙◌, arith, ◌≤◌,
}
use mathlib.Core.List.{append_assoc, map-append}
use openjarvis.Context.{ChatMessage, ChatToolCall, Role}
use openjarvis.Agent.{Failure}
use openjarvis.Llm.{
  OpenAiToolCall, OpenAiMessage, assistant, serialize_openai_tool_call, parse_openai_tool_call,
  collect_tool_call_messages, message_starts_tool_call_batch, serialize_assistant_message,
  serialize_context_message, tool_message, prepend, serialize_from, serialize_openai_messages,
}

-- The calls that a message makes: only the assistant makes any.
abbrev pub made_calls : ChatMessage → List ChatToolCall
made_calls m = elim m.role [ Role.assistant ↦ m.tool_calls | Role.toolcall ↦ m.tool_calls | _ ↦ [] ]

unfoldable pub history_calls : List ChatMessage → List ChatToolCall
history_calls [] = []
history_calls (m ∷ ms) = made_calls m ++ history_calls ms

abbrev pub sent_calls : OpenAiMessage → List OpenAiToolCall
sent_calls (assistant content calls) = calls
sent_calls _ = []

unfoldable pub request_calls : List OpenAiMessage → List OpenAiToolCall
request_calls [] = []
request_calls (m ∷ ms) = sent_calls m ++ request_calls ms

collect-calls :
    (ms : List ChatMessage) (calls : List ChatToolCall)
    → ((collect_tool_call_messages ms calls).0
          ++ history_calls (collect_tool_call_messages ms calls).1
        ≡ calls ++ history_calls ms)
      × (length (collect_tool_call_messages ms calls).1 ≤ length ms)
unfolding collect_tool_call_messages history_calls
collect-calls [] calls = ground arith
collect-calls (m ∷ ms) calls = ground (
  arith,
  collect-calls ms (calls ++ m.tool_calls),
  append_assoc calls m.tool_calls (history_calls ms),
)

-- Of a step that puts a message in front.
prepend-calls :
    (x : Result Failure OpenAiMessage) (rest : Result Failure (List OpenAiMessage))
    (out : List OpenAiMessage)
    → prepend x rest ≡ ok out
    → (m : OpenAiMessage) × (ms : List OpenAiMessage) × (x ≡ ok m) × (rest ≡ ok ms) × (out ≡ m ∷ ms)
prepend-calls (ok m) (ok ms) out e = (m, ms, refl, refl, ground arith)
prepend-calls (ok m) (err f) out e = ground arith
prepend-calls (err f) rest out e = ground arith

context-calls :
    (json_text : Json → Text) (m : ChatMessage) (x : OpenAiMessage)
    → serialize_context_message json_text m ≡ ok x
    → sent_calls x ≡ map (serialize_openai_tool_call json_text) (made_calls m)
unfolding serialize_context_message serialize_assistant_message tool_message
context-calls json_text m x e = ground arith

-- What holds of the messages that a history is turned into.
abbrev SameCalls : (Json → Text) → List ChatMessage → Result Failure (List OpenAiMessage) → Type 0
SameCalls json_text ms r =
    (out : List OpenAiMessage)
    → r ≡ ok out
    → request_calls out ≡ map (serialize_openai_tool_call json_text) (history_calls ms)

-- A message in front of the rest, with the calls of a part of the history.
joined-SameCalls :
    (json_text : Json → Text) (x : Result Failure OpenAiMessage) (calls : List ChatToolCall)
    (rest ms : List ChatMessage) (r : Result Failure (List OpenAiMessage))
    → ((y : OpenAiMessage)
        → x ≡ ok y
        → sent_calls y ≡ map (serialize_openai_tool_call json_text) calls)
    → calls ++ history_calls rest ≡ history_calls ms
    → SameCalls json_text rest r
    → SameCalls json_text ms (prepend x r)
unfolding request_calls
joined-SameCalls json_text x calls rest ms r h c k out e =
    let (y, ys, ex, er, eo) = prepend-calls x r out e in
    let f = serialize_openai_tool_call json_text in
    rw (eo) (
      ap (λ cs. cs ++ request_calls ys) (h y ex)
      ∙ ap (λ cs. map f calls ++ cs) (k ys er)
      ∙ sym (map-append f calls (history_calls rest))
      ∙ ap (map f) c)

abbrev of_message : OpenAiMessage → Result Failure OpenAiMessage
of_message m = ok m

assistant-calls :
    (json_text : Json → Text) (content : Text) (calls : List ChatToolCall) (y : OpenAiMessage)
    → of_message (serialize_assistant_message json_text content calls) ≡ ok y
    → sent_calls y ≡ map (serialize_openai_tool_call json_text) calls
unfolding serialize_assistant_message
assistant-calls json_text content calls y e = ground arith

abbrev Shorter : (Json → Text) → ℕ → Type 0
Shorter json_text fuel =
    (ms : List ChatMessage)
    → length ms ≤ fuel
    → SameCalls json_text ms (serialize_from json_text fuel ms)

plain-SameCalls :
    (json_text : Json → Text) (fuel : ℕ) (m : ChatMessage) (ms : List ChatMessage)
    → length ms ≤ fuel
    → Shorter json_text fuel
    → SameCalls json_text
        (m ∷ ms)
        (prepend (serialize_context_message json_text m) (serialize_from json_text fuel ms))
unfolding history_calls
plain-SameCalls json_text fuel m ms h ih =
    joined-SameCalls json_text (serialize_context_message json_text m) (made_calls m) ms (m ∷ ms)
      (serialize_from json_text fuel ms) (context-calls json_text m) refl (ih ms h)

batch-SameCalls :
    (json_text : Json → Text) (fuel : ℕ) (m : ChatMessage) (ms : List ChatMessage)
    → length ms ≤ fuel
    → Shorter json_text fuel
    → made_calls m ≡ m.tool_calls
    → SameCalls json_text (m ∷ ms) (
        prepend
          (ok (
            serialize_assistant_message json_text m.content
              (collect_tool_call_messages ms m.tool_calls).0))
          (serialize_from json_text fuel (collect_tool_call_messages ms m.tool_calls).1))
unfolding history_calls
batch-SameCalls json_text fuel m ms h ih e =
    let batch = collect_tool_call_messages ms m.tool_calls in
    let (same, size) = collect-calls ms m.tool_calls in
    joined-SameCalls json_text (ok (serialize_assistant_message json_text m.content batch.0))
      batch.0 batch.1 (m ∷ ms) (serialize_from json_text fuel batch.1)
      (assistant-calls json_text m.content batch.0)
      (same ∙ ap (λ cs. cs ++ history_calls ms) (sym e)) (ih batch.1 (omega (arith, size, h)))

run-SameCalls :
    (json_text : Json → Text) (fuel : ℕ) (m : ChatMessage) (ms : List ChatMessage)
    → length ms ≤ fuel
    → Shorter json_text fuel
    → m.role ≡ Role.toolcall
    → SameCalls json_text (m ∷ ms) (
        prepend
          (ok (
            serialize_assistant_message json_text []
              (collect_tool_call_messages ms m.tool_calls).0))
          (serialize_from json_text fuel (collect_tool_call_messages ms m.tool_calls).1))
unfolding history_calls
run-SameCalls json_text fuel m ms h ih e =
    let batch = collect_tool_call_messages ms m.tool_calls in
    let (same, size) = collect-calls ms m.tool_calls in
    let made : made_calls m ≡ m.tool_calls = ground arith in
    joined-SameCalls json_text (ok (serialize_assistant_message json_text [] batch.0)) batch.0
      batch.1 (m ∷ ms) (serialize_from json_text fuel batch.1)
      (assistant-calls json_text [] batch.0) (same ∙ ap (λ cs. cs ++ history_calls ms) (sym made))
      (ih batch.1 (omega (arith, size, h)))

if-SameCalls :
    (json_text : Json → Text) (ms : List ChatMessage) (b : Bool)
    (x y : Result Failure (List OpenAiMessage))
    → SameCalls json_text ms x
    → SameCalls json_text ms y
    → SameCalls json_text ms (if b then x else y)
if-SameCalls json_text ms true x y h k = h
if-SameCalls json_text ms false x y h k = k

front-SameCalls :
    (json_text : Json → Text) (fuel : ℕ) (m : ChatMessage) (ms : List ChatMessage) (r : Role)
    → length ms ≤ fuel
    → Shorter json_text fuel
    → SameCalls json_text
        (record m { role = r } ∷ ms)
        (serialize_from json_text (suc fuel) (record m { role = r } ∷ ms))
unfolding serialize_from collect_tool_call_messages
front-SameCalls json_text fuel m ms Role.system h ih =
    plain-SameCalls json_text fuel (record m { role = Role.system }) ms h ih
front-SameCalls json_text fuel m ms Role.user h ih =
    plain-SameCalls json_text fuel (record m { role = Role.user }) ms h ih
front-SameCalls json_text fuel m ms Role.tool_result h ih =
    plain-SameCalls json_text fuel (record m { role = Role.tool_result }) ms h ih
front-SameCalls json_text fuel m ms Role.toolcall h ih =
    run-SameCalls json_text fuel (record m { role = Role.toolcall }) ms h ih refl
front-SameCalls json_text fuel m ms Role.assistant h ih =
    let a : ChatMessage = record m { role = Role.assistant } in
    if-SameCalls json_text (a ∷ ms) (message_starts_tool_call_batch a ms) _ _
      (batch-SameCalls json_text fuel a ms h ih refl) (plain-SameCalls json_text fuel a ms h ih)

serialize_from-calls :
    (json_text : Json → Text) (fuel : ℕ) (ms : List ChatMessage)
    → length ms ≤ fuel
    → SameCalls json_text ms (serialize_from json_text fuel ms)
unfolding serialize_from request_calls history_calls
serialize_from-calls json_text zero [] h out e = ground arith
serialize_from-calls json_text zero (m ∷ ms) h out e = ground arith
serialize_from-calls json_text (suc fuel) [] h out e = ground arith
serialize_from-calls json_text (suc fuel) (m ∷ ms) h out e =
    front-SameCalls json_text fuel m ms m.role (omega (arith, h))
      (serialize_from-calls json_text fuel) out e

-- A request has the tool calls of the history, all of them and in their order, however the history's
-- tool-call messages are drawn together.
pub serialize_openai_messages-calls :
    (json_text : Json → Text) (ms : List ChatMessage) (out : List OpenAiMessage)
    → serialize_openai_messages json_text ms ≡ ok out
    → request_calls out ≡ map (serialize_openai_tool_call json_text) (history_calls ms)
unfolding serialize_openai_messages
serialize_openai_messages-calls json_text ms =
    serialize_from-calls json_text (length ms) ms (omega arith)

-- A tool call that is written and read again is the same call, if its arguments are.
pub parse-serialize_openai_tool_call :
    (json_text : Json → Text) (from_json : Text → Option Json) (call : ChatToolCall)
    → from_json (json_text call.arguments) ≡ some call.arguments
    → parse_openai_tool_call from_json (serialize_openai_tool_call json_text call) ≡ ok call
unfolding parse_openai_tool_call serialize_openai_tool_call
parse-serialize_openai_tool_call json_text from_json call e = rw (e, parse_openai_tool_call) refl
