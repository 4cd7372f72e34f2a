-- ===== src/Examples/Texts.antt =====
-- The theorems on markers, commands and compaction, at short texts.
use openjarvis.Base.{
  ℕ, Text, List, true, [], ◌∷◌, some, ◌≡◌, refl, txt, ok, err, length, All, ◌+◌, ◌*◌, ◌≤◌, ◌<◌, leb,
  arith, text_eq,
}
use openjarvis.Base.Str.{
  trim_end_by, is_whitespace, to_ascii_lowercase, trim_start_by, text_eq_instance,
}
use openjarvis.Context.{is_system}
use openjarvis.Thread.{Thread}
use openjarvis.Thread.Messages.{replace_messages_after_compaction}
use openjarvis.Attachment.{collect, parse_content}
use openjarvis.Attachment.RoundTrip.{IsMarkable, image_at, render, parse_content-render}
use openjarvis.Attachment.Soundness.{IsLocalImage, collect_enough, parse_content_lem}
use openjarvis.Command.{
  Registry, CommandInvocation, parse, register, equal_command, echo_command, test_command,
  try_execute_with_thread_context, with_builtin_commands,
}
use openjarvis.Command.Parsing.{IsWord, parse-command_text}
use openjarvis.Command.Registry.{Effect, Registration, register_lem, try_execute_Effect}
use openjarvis.Compact.{
  CompactSummary, CompactionOutcome, static_provider, compact_messages, build_compacted_messages,
}
use openjarvis.Compact.History.{IsRewritten, chat_of, compaction_rewrites}
use openjarvis.Compact.Budget.{Floats, Estimator, estimate, estimate_chars_div4_tokens}
use openjarvis.Compact.Budget.Laws.{AddsUp, estimate-AddsUp, estimate_chars_bounds}
use openjarvis.Agent.{failure}
use openjarvis.Agent.Memory.{
  validate_memory_file_path, ends_with, normalize_relative_path, components, component_of,
  collect_parts, pieces, leading,
}
use openjarvis.Agent.Memory.Paths.{Below, validate_memory_file_path-Below}
use openjarvis.Examples.{incoming, open_thread, turn, greeting, instruction}

markable : IsMarkable (txt "/tmp/a.png")
unfolding trim_end_by is_whitespace
markable = record { absolute = refl; closed = ground arith; tight = refl }

parse_content-render_example :
    (parse_content (render ((txt "see ", txt "/tmp/a.png") ∷ []) (txt " done"))).attachments
    ≡ image_at (txt "/tmp/a.png") ∷ []
parse_content-render_example =
    parse_content-render ((txt "see ", txt "/tmp/a.png") ∷ []) (txt " done")
      ((ground arith, markable), tt) (ground arith)

collect_enough_example :
    collect 40 (txt "see #!openjarvis[image:/a]") ≡ collect 26 (txt "see #!openjarvis[image:/a]")
collect_enough_example =
    collect_enough 40 26 (txt "see #!openjarvis[image:/a]") (omega arith) (omega arith)

parse_content_lem_example :
    ((parse_content (txt "see #!openjarvis[image:/a]")).content ≡ txt "see #!openjarvis[image:/a]")
    × All IsLocalImage (parse_content (txt "see #!openjarvis[image:/a]")).attachments
parse_content_lem_example = parse_content_lem (txt "see #!openjarvis[image:/a]")

echo-IsWord : IsWord (txt "Echo")
unfolding is_whitespace
echo-IsWord = record { nonempty = refl; solid = ground arith }

hi-IsWord : IsWord (txt "hi")
unfolding is_whitespace
hi-IsWord = record { nonempty = refl; solid = ground arith }

parse-command_text_example :
    parse (txt "/Echo hi")
    ≡ ok (
        some (record {
          name = to_ascii_lowercase (txt "Echo");
          raw_arguments = txt "hi";
          arguments = txt "hi" ∷ [];
        }))
parse-command_text_example =
    parse-command_text (txt "Echo") (txt "hi" ∷ []) echo-IsWord (hi-IsWord, tt)

abbrev echo_invocation : CommandInvocation
echo_invocation = record {
  name = to_ascii_lowercase (txt "Echo");
  raw_arguments = txt "hi";
  arguments = txt "hi" ∷ [];
}

abbrev one_command : Registry
one_command = (txt "echo", echo_command) ∷ []

register_lem_example :
    Registration
      (txt "/Echo")
      (txt "echo")
      equal_command
      one_command
      (register (txt "/Echo") equal_command one_command)
register_lem_example = register_lem (txt "/Echo") (txt "echo") equal_command one_command

try_execute_Effect_example :
    Effect test_command
      (record incoming { content = txt "/clear" })
      open_thread
      (try_execute_with_thread_context
        (with_builtin_commands test_command)
        (record incoming { content = txt "/clear" })
        open_thread).1
unfolding test_command
try_execute_Effect_example =
    try_execute_Effect test_command (record incoming { content = txt "/clear" }) open_thread
      (λ i. refl)

abbrev quotients : Floats
quotients = record {
  Float = ℕ × ℕ;
  ratio = λ a b. (a, b);
  at_least = λ p q. leb (q.0 * p.1) (p.0 * q.1);
}

abbrev estimator : Estimator
estimator = record {
  context_window_tokens = 1000;
  reserved_output_tokens = 100;
  tokenizer = txt "chars_div4";
  calls_text = λ calls. [];
}

estimate-AddsUp_example :
    AddsUp quotients estimator
      (instruction ∷ greeting ∷ [])
      []
      (estimate quotients estimator (instruction ∷ greeting ∷ []) [])
estimate-AddsUp_example = estimate-AddsUp quotients estimator (instruction ∷ greeting ∷ []) []

estimate_chars_bounds_example :
    (5 ≤ 4 * estimate_chars_div4_tokens (txt "hello"))
    × (4 * estimate_chars_div4_tokens (txt "hello") < 5 + 4)
estimate_chars_bounds_example = estimate_chars_bounds (txt "hello")

abbrev summary : CompactSummary
summary = record { compacted_assistant = txt "greeted" }

abbrev outcome : CompactionOutcome
outcome = record {
  source_message_count = 1;
  summary = summary;
  compacted_messages = build_compacted_messages summary 19;
}

compacts :
    compact_messages (static_provider summary) open_thread.thread.messages 19 ≡ ok (some outcome)
unfolding compact_messages is_system
compacts = refl

compaction_rewrites_example :
    (t' : Thread) × (replace_messages_after_compaction outcome.compacted_messages 20 open_thread
      ≡ ok t')
    × (static_provider summary (record { messages = chat_of open_thread.thread.messages })
        ≡ ok summary)
    × (1 ≡ length (chat_of open_thread.thread.messages))
    × IsRewritten outcome 19 open_thread t'
compaction_rewrites_example =
    compaction_rewrites (static_provider summary) 19 20 open_thread turn outcome refl compacts

validate_memory_file_path-Below_example :
    (ends_with (txt "notes/a.md") (txt ".md") ≡ true)
    × ((parts : List Text) × Below (txt "notes/a.md") parts)
unfolding validate_memory_file_path normalize_relative_path components component_of collect_parts
    pieces leading trim_end_by trim_start_by is_whitespace text_eq
validate_memory_file_path-Below_example =
    validate_memory_file_path-Below (txt " .\\notes/./a.md ") (txt "notes/a.md") refl

-- A name that a blank begins is accepted behind a dot, and read otherwise the second time.
not_idempotent :
    (validate_memory_file_path (txt "./ a.md") ≡ ok (txt " a.md"))
    × (validate_memory_file_path (txt " a.md") ≡ ok (txt "a.md"))
unfolding validate_memory_file_path normalize_relative_path components component_of collect_parts
    pieces leading trim_end_by trim_start_by is_whitespace text_eq
not_idempotent = (refl, refl)

climbing_refused :
    validate_memory_file_path (txt "a/../../b.md")
    ≡ err (failure (txt "memory path must not contain `..`"))
unfolding validate_memory_file_path normalize_relative_path components component_of collect_parts
    pieces leading trim_end_by trim_start_by is_whitespace text_eq
climbing_refused = refl
