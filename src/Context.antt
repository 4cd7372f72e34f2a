-- ===== src/Context.antt =====
-- context/mod.rs and context/token_kind.rs: the message protocol that threads store, and the
-- buckets in which tokens are counted. An identifier is its 128-bit value and an instant its
-- distance from a fixed origin.
use openjarvis.Base.{ℕ, Text, Json, List, [], ◌∷◌, Option, none, some, txt, Bool, true, false}

abbrev pub Uuid : Type 0
Uuid = ℕ

abbrev pub Instant : Type 0
Instant = ℕ

pub data Role : Type 0 where
  system user assistant toolcall tool_result : Role

-- `==` of the derived `PartialEq`.
unfoldable pub is_system : Role → Bool
is_system Role.system = true
is_system _ = false

unfoldable pub as_label : Role → Text
as_label Role.system = txt "system"
as_label Role.user = txt "user"
as_label Role.assistant = txt "assistant"
as_label Role.toolcall = txt "toolcall"
as_label Role.tool_result = txt "tool_result"

pub record ChatToolCall : Type 0 where
  pub id : Text
  pub name : Text
  pub arguments : Json

pub record ChatMessage : Type 0 where
  pub role : Role
  pub content : Text
  pub tool_calls : List ChatToolCall
  pub tool_call_id : Option Text
  pub created_at : Instant

abbrev pub chat_message : Role → Text → Instant → ChatMessage
chat_message role content created_at = record {
  role = role;
  content = content;
  tool_calls = [];
  tool_call_id = none;
  created_at = created_at;
}

abbrev pub with_tool_calls : List ChatToolCall → ChatMessage → ChatMessage
with_tool_calls calls m = record m { tool_calls = calls }

abbrev pub with_tool_call_id : Text → ChatMessage → ChatMessage
with_tool_call_id id m = record m { tool_call_id = some id }

pub data TokenKind : Type 0 where
  system chat visible_tool reserved_output : TokenKind

abbrev pub all_kinds : List TokenKind
all_kinds =
    TokenKind.system ∷ TokenKind.chat ∷ TokenKind.visible_tool ∷ TokenKind.reserved_output ∷ []

unfoldable pub as_str : TokenKind → Text
as_str TokenKind.system = txt "system_tokens"
as_str TokenKind.chat = txt "chat_tokens"
as_str TokenKind.visible_tool = txt "visible_tool_tokens"
as_str TokenKind.reserved_output = txt "reserved_output_tokens"

unfoldable pub for_chat_message_role : Role → TokenKind
for_chat_message_role Role.system = TokenKind.system
for_chat_message_role Role.user = TokenKind.chat
for_chat_message_role Role.assistant = TokenKind.chat
for_chat_message_role Role.toolcall = TokenKind.chat
for_chat_message_role Role.tool_result = TokenKind.chat
