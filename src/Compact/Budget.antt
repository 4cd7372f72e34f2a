-- ===== src/Compact/Budget.antt =====
-- compact/budget.rs: how many tokens a request is estimated to take. The counts stay far below
-- 2^64, so sums do not wrap. The ratio is a floating-point number, a parameter, and so is the
-- serializer that turns tool calls and schemas into text.
pub mod Laws
use openjarvis.Base.{
  ℕ, ◌+◌, ◌/◌, ◌%◌, ltb, Text, Json, List, [], ◌∷◌, Option, none, some, Bool, true, false, ◌==◌,
  if◌then◌else◌, is_empty, length, unwrap_or, Eq, ◌≡◌, ◌↔◌, max, arith, map,
}
use openjarvis.Base.Dict
use openjarvis.Base.Dict.{Dict}
use openjarvis.Context.{ChatMessage, ChatToolCall, TokenKind, all_kinds, for_chat_message_role}

unfoldable pub token_kind_eq : TokenKind → TokenKind → Bool
token_kind_eq TokenKind.system TokenKind.system = true
token_kind_eq TokenKind.chat TokenKind.chat = true
token_kind_eq TokenKind.visible_tool TokenKind.visible_tool = true
token_kind_eq TokenKind.reserved_output TokenKind.reserved_output = true
token_kind_eq _ _ = false

pub token_kind_eq_iff : (a b : TokenKind) → (token_kind_eq a b ≡ true) ↔ (a ≡ b)
unfolding token_kind_eq
token_kind_eq_iff a b = ground arith

instance abbrev pub token_kind_instance : Eq TokenKind
token_kind_instance = record { beq = token_kind_eq; beq_iff = token_kind_eq_iff }

-- A floating-point type with the two operations that the report uses.
pub record Floats : Type 1 where
  pub Float : Type 0
  pub ratio : ℕ → ℕ → Float
  pub at_least : Float → Float → Bool

-- `usize::div_ceil`
unfoldable pub div_ceil : ℕ → ℕ → ℕ
div_ceil n d = if ltb 0 (n % d) then n / d + 1 else n / d

unfoldable pub estimate_chars_div4_tokens : Text → ℕ
unfolding div_ceil
estimate_chars_div4_tokens text =
    let char_count = length text in if char_count == 0 then 0 else div_ceil char_count 4

-- Every tokenizer is estimated in this way.
unfoldable pub estimate_text_tokens : Text → Text → ℕ
unfolding estimate_chars_div4_tokens
estimate_text_tokens tokenizer text = estimate_chars_div4_tokens text

abbrev pub sum : List ℕ → ℕ
sum [] = 0
sum (n ∷ ns) = n + sum ns

-- A definition of a tool, with the text of its schema.
pub record ToolDefinition : Type 0 where
  pub name : Text
  pub description : Text
  pub schema : Text

-- `ContextBudgetReport`
pub record Report (Float : Type 0) : Type 0 where
  pub token_counts : Dict TokenKind ℕ
  pub total_estimated_tokens : ℕ
  pub context_window_tokens : ℕ
  pub utilization_ratio : Float

-- `ContextBudgetEstimator`, with the serializer of tool calls.
pub record Estimator : Type 0 where
  pub context_window_tokens : ℕ
  pub reserved_output_tokens : ℕ
  pub tokenizer : Text
  pub calls_text : List ChatToolCall → Text

-- The reserve: what the model is configured with, else what compaction is, else the model's default.
abbrev pub reserved_tokens : Option ℕ → Option ℕ → ℕ → ℕ
reserved_tokens (some n) compact default = n
reserved_tokens none compact default = unwrap_or compact default

unfoldable pub counted : TokenKind → Dict TokenKind ℕ → ℕ
counted kind counts = unwrap_or (Dict.get kind counts) 0

abbrev set_tokens : TokenKind → ℕ → Dict TokenKind ℕ → Dict TokenKind ℕ
set_tokens kind tokens counts = Dict.insert kind tokens counts

unfoldable pub add_tokens : TokenKind → ℕ → Dict TokenKind ℕ → Dict TokenKind ℕ
unfolding counted
add_tokens kind tokens counts = set_tokens kind (counted kind counts + tokens) counts

call_tokens : Estimator → ChatMessage → ℕ
unfolding estimate_text_tokens
call_tokens e m =
    if is_empty m.tool_calls
    then 0
    else estimate_text_tokens e.tokenizer (e.calls_text m.tool_calls)

id_tokens : Estimator → ChatMessage → ℕ
unfolding estimate_text_tokens
id_tokens e m = elim m.tool_call_id [ none ↦ 0 | some id ↦ estimate_text_tokens e.tokenizer id ]

unfoldable pub estimate_message_tokens : Estimator → ChatMessage → ℕ
unfolding call_tokens id_tokens
estimate_message_tokens e m =
    4 + estimate_text_tokens e.tokenizer m.content + call_tokens e m + id_tokens e m

unfoldable pub estimate_tool_tokens : Estimator → ToolDefinition → ℕ
estimate_tool_tokens e t =
    8
    + estimate_text_tokens e.tokenizer t.name
    + estimate_text_tokens e.tokenizer t.description
    + estimate_text_tokens e.tokenizer t.schema

-- The counts after the loop over the messages.
unfoldable pub count_messages : Estimator → List ChatMessage → Dict TokenKind ℕ → Dict TokenKind ℕ
count_messages e [] counts = counts
count_messages e (m ∷ ms) counts =
    count_messages e ms
      (add_tokens (for_chat_message_role m.role) (estimate_message_tokens e m) counts)

module _ (floats : Floats) where
  -- `tokens`
  unfoldable pub tokens : TokenKind → Report floats.Float → ℕ
  unfolding counted
  tokens kind r = counted kind r.token_counts

  unfoldable pub recalculate_totals : Report floats.Float → Report floats.Float
  unfolding tokens
  recalculate_totals r =
      let total = sum (map (λ kind. tokens kind r) all_kinds) in
      record r {
        total_estimated_tokens = total;
        utilization_ratio = floats.ratio total (max r.context_window_tokens 1);
      }

  -- `ContextBudgetReport::new`; the ratio is computed before anyone reads it.
  unfoldable pub new_report : Dict TokenKind ℕ → ℕ → Report floats.Float
  unfolding recalculate_totals
  new_report counts window = recalculate_totals (record {
    token_counts = counts;
    total_estimated_tokens = 0;
    context_window_tokens = window;
    utilization_ratio = floats.ratio 0 1;
  })

  unfoldable pub reaches_ratio : floats.Float → Report floats.Float → Bool
  reaches_ratio threshold r = floats.at_least r.utilization_ratio threshold

  unfoldable pub estimate : Estimator → List ChatMessage → List ToolDefinition → Report floats.Float
  unfolding new_report
  estimate e messages visible_tools =
      let report = new_report [] e.context_window_tokens in
      let counts = count_messages e messages report.token_counts in
      let tools = sum (map (estimate_tool_tokens e) visible_tools) in
      let counts' = set_tokens TokenKind.visible_tool tools counts in
      recalculate_totals (record report {
        token_counts = set_tokens TokenKind.reserved_output e.reserved_output_tokens counts';
      })
