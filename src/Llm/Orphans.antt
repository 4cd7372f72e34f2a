-- ===== src/Llm/Orphans.antt =====
-- llm.rs and agent/agent_loop.rs: the history that a compaction asked for by the model leaves, after
-- the answer to the call that asked for it.
use openjarvis.Base.{
  Text, Json, List, [], ◌∷◌, ◌++◌, map, some, ok, ◌≡◌, refl, sym, ap, ◌∙◌, arith, last, retain,
}
use mathlib.Core.List.{append_assoc, append-nil}
use openjarvis.Context.{ChatMessage, Instant, is_system}
use openjarvis.Thread.{Thread}
use openjarvis.Thread.Messages.{
  messages, append_message, replace_messages_after_compaction, system_message,
}
use openjarvis.Compact.{CompactSummary, build_compacted_messages}
use openjarvis.Agent.Tools.{ToolCallResult}
use openjarvis.Agent.Events.{build_tool_result_message}
use openjarvis.Llm.{OpenAiMessage, serialize_openai_messages}
use openjarvis.Llm.Calls.{history_calls, request_calls, made_calls, serialize_openai_messages-calls}

system-calls : (ms : List ChatMessage) → history_calls (retain system_message ms) ≡ []
unfolding history_calls is_system
system-calls [] = refl
system-calls (m ∷ ms) = ground (arith, system-calls ms)

history_calls-append :
    (xs ys : List ChatMessage) → history_calls (xs ++ ys) ≡ history_calls xs ++ history_calls ys
unfolding history_calls
history_calls-append [] ys = refl
history_calls-append (x ∷ xs) ys =
    ap (λ cs. made_calls x ++ cs) (history_calls-append xs ys)
    ∙ sym (append_assoc (made_calls x) (history_calls xs) (history_calls ys))

last-append : {A : Type 0} (xs : List A) (x : A) → last (xs ++ x ∷ []) ≡ some x
last-append [] x = refl
last-append (y ∷ []) x = refl
last-append (y ∷ z ∷ xs) x = last-append (z ∷ xs) x

compacted :
    (s : CompactSummary) (at now at' : Instant) (result : ToolCallResult) (id : Text)
    (t t' t'' : Thread)
    → replace_messages_after_compaction (build_compacted_messages s at) now t ≡ ok t'
    → append_message (build_tool_result_message result id at') t' ≡ ok t''
    → messages t''
      ≡ retain system_message (messages t)
        ++ build_compacted_messages s at
        ++ build_tool_result_message result id at' ∷ []
unfolding replace_messages_after_compaction append_message messages build_compacted_messages
compacted s at now at' result id t t' t'' e h = ground arith

-- After a compaction in the midst of a turn, and the answer to the call that asked for it: no message
-- of the history makes a tool call, and so no message of the request that is made of it; yet the last
-- one is the result of a call.
pub compaction_orphans :
    (s : CompactSummary) (at now at' : Instant) (result : ToolCallResult) (id : Text)
    (t t' t'' : Thread) (json_text : Json → Text) (out : List OpenAiMessage)
    → replace_messages_after_compaction (build_compacted_messages s at) now t ≡ ok t'
    → append_message (build_tool_result_message result id at') t' ≡ ok t''
    → serialize_openai_messages json_text (messages t'') ≡ ok out
    → (history_calls (messages t'') ≡ [])
      × (request_calls out ≡ [])
      × (last (messages t'') ≡ some (build_tool_result_message result id at'))
      × ((build_tool_result_message result id at').tool_call_id ≡ some id)
unfolding build_compacted_messages history_calls build_tool_result_message
compaction_orphans s at now at' result id t t' t'' json_text out e h k =
    let kept = retain system_message (messages t) in
    let answer = build_tool_result_message result id at' in
    let all = compacted s at now at' result id t t' t'' e h in
    let none_made : history_calls (messages t'') ≡ [] =
      ap history_calls all
      ∙ history_calls-append (kept ++ build_compacted_messages s at) (answer ∷ [])
      ∙ append-nil (history_calls (kept ++ build_compacted_messages s at))
      ∙ history_calls-append kept (build_compacted_messages s at)
      ∙ append-nil (history_calls kept)
      ∙ system-calls (messages t) in
    (
      none_made,
      serialize_openai_messages-calls json_text (messages t'') out k ∙ ap (map _) none_made,
      ap last all ∙ last-append (kept ++ build_compacted_messages s at) answer,
      refl,
    )
