-- ===== src/Compact.antt =====
-- compact/provider.rs and compact/manager.rs: requests, summaries, and the rewrite of a history.
-- The provider that writes the summary, and the parser of JSON, are parameters.
pub mod Budget
pub mod History
pub mod Summary
use openjarvis.Base.{
  ℕ, zero, suc, Text, Char, ◌+◌, ◌-◌, List, [], ◌∷◌, ◌++◌, Option, none, some, Bool, not, ◌==◌,
  if◌then◌else◌, txt, is_empty, Result, ok, err, retain, length, take, drop, leb, unwrap_or, ok_or,
  ◌>>=◌,
}
use openjarvis.Base.Str.{trim}
use openjarvis.Context.{ChatMessage, Role, Instant, chat_message, is_system}

pub data CompactError : Type 0 where
  empty_request : CompactError
  blank_summary : CompactError
  invalid_json : CompactError
  provider_failed : Text → CompactError

pub record CompactRequest : Type 0 where
  pub messages : List ChatMessage

unfoldable pub new_request : List ChatMessage → Result CompactError CompactRequest
new_request messages =
    if is_empty messages then err empty_request else ok (record { messages = messages })

pub record CompactSummary : Type 0 where
  pub compacted_assistant : Text

unfoldable pub validate : CompactSummary → Result CompactError CompactSummary
validate s = if is_empty (trim s.compacted_assistant) then err blank_summary else ok s

-- The trait `CompactProvider`.
abbrev pub CompactProvider : Type 0
CompactProvider = CompactRequest → Result CompactError CompactSummary

-- `StaticCompactProvider`
abbrev pub static_provider : CompactSummary → CompactProvider
static_provider s request = ok s

-- `str::find` and `str::rfind` of a character.
unfoldable pub find : Char → Text → Option ℕ
find d [] = none
find d (c ∷ s) = if c == d then some 0 else mathlib.Core.Option.map suc (find d s)

unfoldable pub rfind : Char → Text → Option ℕ
rfind d [] = none
rfind d (c ∷ s) = elim (rfind d s) [
  | some i ↦ some (suc i)
  | none ↦ if c == d then some 0 else none
]

-- From the first `{` to the last `}`, if they stand in that order.
unfoldable pub extract_json_object : Text → Option Text
extract_json_object raw = elim (find b'{' raw) [
  | none ↦ none
  | some start ↦ elim (rfind b'}' raw) [
    | none ↦ none
    | some end_ ↦
        if leb start (end_ + 1) then some (take (end_ + 1 - start) (drop start raw)) else none
  ]
]

-- `serde_json::from_str` at the type of summaries is the parameter.
unfoldable pub parse_compact_summary :
    (Text → Option CompactSummary) → Text → Result CompactError CompactSummary
unfolding extract_json_object validate
parse_compact_summary from_json raw =
    ok_or (from_json (unwrap_or (extract_json_object (trim raw)) (trim raw))) invalid_json
    >>= validate

abbrev pub compacted_assistant_prefix : Text
compacted_assistant_prefix = txt "这是压缩后的上下文，请基于这些信息继续当前任务：\n"

abbrev pub compacted_user_continue_message : Text
compacted_user_continue_message = txt "继续"

unfoldable pub build_compacted_messages : CompactSummary → Instant → List ChatMessage
build_compacted_messages s at =
    chat_message Role.assistant (compacted_assistant_prefix ++ s.compacted_assistant) at
    ∷ chat_message Role.user compacted_user_continue_message at
    ∷ []

pub record CompactionOutcome : Type 0 where
  pub source_message_count : ℕ
  pub summary : CompactSummary
  pub compacted_messages : List ChatMessage

compact_chat :
    CompactProvider → List ChatMessage → Instant → Result CompactError (Option CompactionOutcome)
compact_chat provider compactable at = do
  request ← new_request compactable
  summary ← provider request
  ok (
      some (record {
        source_message_count = length compactable;
        summary = summary;
        compacted_messages = build_compacted_messages summary at;
      }))

-- `CompactManager::compact_messages`
unfoldable pub compact_messages :
    CompactProvider → List ChatMessage → Instant → Result CompactError (Option CompactionOutcome)
unfolding compact_chat new_request
compact_messages provider messages at =
    let compactable = retain (λ m. not (is_system m.role)) messages in
    if is_empty messages
    then ok none
    else if is_empty compactable
    then ok none
    else compact_chat provider compactable at
