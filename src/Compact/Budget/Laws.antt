-- ===== src/Compact/Budget/Laws.antt =====
-- compact/budget.rs: what the report adds up to.
use openjarvis.Base.{
  ℕ, ◌+◌, ◌*◌, ◌≤◌, ◌<◌, Text, List, [], ◌∷◌, Bool, true, false, ◌≡◌, refl, arith, length, map,
  if◌then◌else◌, retain, not, ◌∙◌,
}
use openjarvis.Base.Dict
use openjarvis.Base.Dict.{Dict, get-insert}
use openjarvis.Context.{ChatMessage, TokenKind, for_chat_message_role, is_system, all_kinds}
use openjarvis.Compact.Budget.{
  Floats, Report, Estimator, ToolDefinition, estimate, estimate_message_tokens,
  estimate_tool_tokens, tokens, sum, counted, add_tokens, count_messages, token_kind_instance,
  token_kind_eq, token_kind_eq_iff, estimate_chars_div4_tokens, div_ceil,
}

-- The estimate of a text is the least number of tokens that covers its characters at four each.
pub estimate_chars_bounds :
    (s : Text)
    → (length s ≤ 4 * estimate_chars_div4_tokens s)
      × (4 * estimate_chars_div4_tokens s < length s + 4)
unfolding estimate_chars_div4_tokens div_ceil
estimate_chars_bounds s = ground arith

-- The estimates of the messages that fall into one kind.
abbrev pub kind_sum : Estimator → TokenKind → List ChatMessage → ℕ
kind_sum e kind [] = 0
kind_sum e kind (m ∷ ms) =
    (if token_kind_eq (for_chat_message_role m.role) kind then estimate_message_tokens e m else 0)
    + kind_sum e kind ms

counted-insert :
    (kind j : TokenKind) (n : ℕ) (d : Dict TokenKind ℕ)
    → counted kind (Dict.insert j n d) ≡ (if token_kind_eq j kind then n else counted kind d)
unfolding counted
counted-insert kind j n d = ground (arith, get-insert j kind n d)

counted-add_tokens :
    (kind j : TokenKind) (n : ℕ) (d : Dict TokenKind ℕ)
    → counted kind (add_tokens j n d) ≡ counted kind d + (if token_kind_eq j kind then n else 0)
unfolding add_tokens
counted-add_tokens kind j n d =
    ground (arith, counted-insert kind j (counted j d + n) d, token_kind_eq_iff j kind)

counted-count_messages :
    (e : Estimator) (kind : TokenKind) (ms : List ChatMessage) (d : Dict TokenKind ℕ)
    → counted kind (count_messages e ms d) ≡ counted kind d + kind_sum e kind ms
unfolding count_messages
counted-count_messages e kind [] d = omega arith
counted-count_messages e kind (m ∷ ms) d =
    let added = add_tokens (for_chat_message_role m.role) (estimate_message_tokens e m) d in
    omega (
      arith,
      counted-count_messages e kind ms added,
      counted-add_tokens kind (for_chat_message_role m.role) (estimate_message_tokens e m) d,
    )

-- All messages fall into the kinds of the system and the chat.
kind_sum_total :
    (e : Estimator) (ms : List ChatMessage)
    → kind_sum e TokenKind.system ms + kind_sum e TokenKind.chat ms
      ≡ sum (map (estimate_message_tokens e) ms)
unfolding token_kind_eq for_chat_message_role
kind_sum_total e [] = omega arith
kind_sum_total e (m ∷ ms) = ground (arith, kind_sum_total e ms)

-- The estimates of the messages of the system, and of the others.
abbrev pub role_sum : Estimator → Bool → List ChatMessage → ℕ
role_sum e b ms =
    sum (map (estimate_message_tokens e) (retain (λ m. if is_system m.role then b else not b) ms))

kind_sum-system :
    (e : Estimator) (ms : List ChatMessage) → kind_sum e TokenKind.system ms ≡ role_sum e true ms
unfolding token_kind_eq for_chat_message_role is_system
kind_sum-system e [] = refl
kind_sum-system e (m ∷ ms) = ground (arith, kind_sum-system e ms)

kind_sum-chat :
    (e : Estimator) (ms : List ChatMessage) → kind_sum e TokenKind.chat ms ≡ role_sum e false ms
unfolding token_kind_eq for_chat_message_role is_system
kind_sum-chat e [] = refl
kind_sum-chat e (m ∷ ms) = ground (arith, kind_sum-chat e ms)

module _ (floats : Floats) where
  pub record AddsUp (e : Estimator) (ms : List ChatMessage) (tools : List ToolDefinition)
      (r : Report floats.Float) : Type 0 where
    pub system : tokens floats TokenKind.system r ≡ role_sum e true ms
    pub chat : tokens floats TokenKind.chat r ≡ role_sum e false ms
    pub visible : tokens floats TokenKind.visible_tool r ≡ sum (map (estimate_tool_tokens e) tools)
    pub reserved : tokens floats TokenKind.reserved_output r ≡ e.reserved_output_tokens
    pub total :
        r.total_estimated_tokens
        ≡ sum (map (estimate_message_tokens e) ms)
          + sum (map (estimate_tool_tokens e) tools)
          + e.reserved_output_tokens
    pub window : r.context_window_tokens ≡ e.context_window_tokens

  estimate-tokens :
      (e : Estimator) (ms : List ChatMessage) (tools : List ToolDefinition) (kind : TokenKind)
      → tokens floats kind (estimate floats e ms tools) ≡ (
          if token_kind_eq TokenKind.reserved_output kind
          then e.reserved_output_tokens
          else if token_kind_eq TokenKind.visible_tool kind
          then sum (map (estimate_tool_tokens e) tools)
          else kind_sum e kind ms)
  unfolding estimate tokens Dict.get
  estimate-tokens e ms tools kind =
      let spoken = count_messages e ms [] in
      let tool_tokens = sum (map (estimate_tool_tokens e) tools) in
      ground (
        arith,
        counted-insert kind TokenKind.reserved_output e.reserved_output_tokens
            (Dict.insert TokenKind.visible_tool tool_tokens spoken),
        counted-insert kind TokenKind.visible_tool tool_tokens spoken,
        counted-count_messages e kind ms [],
      )

  -- The total is the sum over the four kinds of what the report answers for each.
  total-tokens :
      (e : Estimator) (ms : List ChatMessage) (tools : List ToolDefinition)
      → (estimate floats e ms tools).total_estimated_tokens
        ≡ sum (map (λ kind. tokens floats kind (estimate floats e ms tools)) all_kinds)
  unfolding estimate tokens
  total-tokens e ms tools = refl

  -- The report counts the system's messages and the others apart, the visible tools and the
  -- reserve; its total is the estimates of all messages and tools with the reserve, and the window
  -- is the estimator's.
  pub estimate-AddsUp :
      (e : Estimator) (ms : List ChatMessage) (tools : List ToolDefinition)
      → AddsUp e ms tools (estimate floats e ms tools)
  unfolding token_kind_eq
  estimate-AddsUp e ms tools =
      let in_system = estimate-tokens e ms tools TokenKind.system in
      let in_chat = estimate-tokens e ms tools TokenKind.chat in
      let in_visible = estimate-tokens e ms tools TokenKind.visible_tool in
      let in_reserve = estimate-tokens e ms tools TokenKind.reserved_output in
      record {
        system = in_system ∙ kind_sum-system e ms;
        chat = in_chat ∙ kind_sum-chat e ms;
        visible = in_visible;
        reserved = in_reserve;
        total = omega (
          arith,
          total-tokens e ms tools,
          in_system,
          in_chat,
          in_visible,
          in_reserve,
          kind_sum_total e ms,
        );
        window = unfold estimate in refl;
      }
