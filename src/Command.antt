-- ===== src/Command.antt =====
-- command.rs: slash commands, their registry and the built-in handlers but `/context`, whose report
-- prints floating-point numbers: it is a parameter of the registry.
pub mod Parsing
pub mod Registry
use openjarvis.Base.{
  ℕ, Text, Char, List, [], ◌∷◌, ◌++◌, Option, none, some, Bool, true, false, not, ◌&&◌, ◌||◌, ◌==◌,
  if◌then◌else◌, txt, text_eq, is_empty, any, Result, ok, err, length,
}
use openjarvis.Base.Str.{
  trim, trim_start, trim_start_by, is_whitespace, to_ascii_lowercase, split_at_first,
  text_eq_instance,
}
use openjarvis.Base.Dict
use openjarvis.Base.Dict.{Dict}
use openjarvis.Model.{IncomingMessage}
use openjarvis.Thread.{Thread}
use openjarvis.Thread.Messages.{clear_to_initial_state}

pub record CommandReply : Type 0 where
  pub name : Text
  pub success : Bool
  pub message : Text

abbrev pub succeeded : Text → Text → CommandReply
succeeded name message = record { name = name; success = true; message = message }

abbrev pub failed : Text → Text → CommandReply
failed name message = record { name = name; success = false; message = message }

unfoldable pub formatted_content : CommandReply → Text
formatted_content r =
    let status = if r.success then txt "SUCCESS" else txt "FAILED" in
    txt "[Command][" ++ (r.name ++ (txt "][" ++ (status ++ (txt "]: " ++ r.message))))

pub data CommandError : Type 0 where
  name_required : CommandError
  empty_name : CommandError
  whitespace_in_name : CommandError
  already_registered : Text → CommandError
  handler_failed : Text → CommandError

pub record CommandInvocation : Type 0 where
  pub name : Text
  pub raw_arguments : Text
  pub arguments : List Text

abbrev begins_word : Text → Bool
begins_word [] = false
begins_word (c ∷ s) = not (is_whitespace c)

abbrev cons_first : Char → List Text → List Text
cons_first c [] = (c ∷ []) ∷ []
cons_first c (w ∷ ws) = (c ∷ w) ∷ ws

-- `str::split_whitespace`
unfoldable pub split_whitespace : Text → List Text
split_whitespace [] = []
split_whitespace (c ∷ s) =
    let rest = split_whitespace s in
    if is_whitespace c then rest else if begins_word s then cons_first c rest else (c ∷ []) ∷ rest

-- What follows the `/`: the name up to the first white space, and the arguments.
unfoldable pub parse_body : Text → Result CommandError CommandInvocation
parse_body body =
    let (before, rest) = split_at_first is_whitespace body in
    let name = to_ascii_lowercase (trim before) in
    let raw = trim_start rest in
    if is_empty (trim body)
    then err name_required
    else if is_empty name
    then err name_required
    else ok (record {
      name = name;
      raw_arguments = raw;
      arguments = if is_empty raw then [] else split_whitespace raw;
    })

after_slash : Text → Result CommandError (Option CommandInvocation)
after_slash [] = ok none
after_slash (c ∷ body) =
    if c == b'/' then (elim (parse_body body) [ ok i ↦ ok (some i) | err e ↦ err e ]) else ok none

-- `CommandInvocation::parse`
unfoldable pub parse : Text → Result CommandError (Option CommandInvocation)
unfolding after_slash parse_body
parse message = after_slash (trim_start message)

starts_with_char : Char → Text → Bool
starts_with_char d [] = false
starts_with_char d (c ∷ s) = c == d

-- What stands behind the mention, if a command does.
behind_mention : Text → Text → Text
behind_mention content trimmed =
    let (mention, found) = split_at_first is_whitespace trimmed in
    let rest = trim_start found in
    if is_empty found then content else if starts_with_char b'/' rest then rest else content

unfoldable pub remove_prefix_at_if_exist : IncomingMessage → Text
unfolding starts_with_char behind_mention
remove_prefix_at_if_exist m =
    let trimmed = trim_start m.content in
    if not (text_eq m.channel (txt "feishu"))
    then m.content
    else if not (starts_with_char b'@' trimmed)
    then m.content
    else behind_mention m.content trimmed

-- The trait `CommandHandler`.
pub record CommandHandler : Type 0 where
  pub requires_idle_thread : Bool
  pub execute :
      CommandInvocation → IncomingMessage → Thread → Result CommandError CommandReply × Thread

unfoldable pub test_command : CommandHandler
test_command = record {
  requires_idle_thread = false;
  execute = λ i m t. (
    ok (
        succeeded i.name
          (if is_empty i.raw_arguments then txt "test command ok" else i.raw_arguments)),
    t,
  );
}

compare_arguments : Text → List Text → CommandReply
compare_arguments name (a ∷ b ∷ []) =
    if text_eq a b
    then succeeded name (a ++ (txt " == " ++ b))
    else failed name (a ++ (txt " != " ++ b))
compare_arguments name _ = failed name (txt "equal expects exactly 2 arguments")

unfoldable pub equal_command : CommandHandler
unfolding compare_arguments
equal_command = record {
  requires_idle_thread = false;
  execute = λ i m t. (ok (compare_arguments i.name i.arguments), t);
}

unfoldable pub echo_command : CommandHandler
echo_command = record {
  requires_idle_thread = false;
  execute = λ i m t. (ok (succeeded i.name i.raw_arguments), t);
}

cleared_message : Text → Text
cleared_message external_thread_id =
    txt "cleared current thread `"
    ++ (external_thread_id
        ++ txt "`; all chat messages and thread-scoped runtime state have been reset")

unfoldable pub clear_command : CommandHandler
unfolding cleared_message
clear_command = record {
  requires_idle_thread = true;
  execute = λ i m t.
      if not (is_empty i.arguments) then (ok (failed i.name (txt "usage: /clear")), t) else (
        ok (succeeded i.name (cleared_message t.locator.external_thread_id)),
        clear_to_initial_state m.received_at t,
      );
}

-- `trim_start_matches('/')`
abbrev trim_slashes : Text → Text
trim_slashes = trim_start_by (λ c. c == b'/')

unfoldable pub normalize_command_name : Text → Result CommandError Text
normalize_command_name name =
    let normalized = to_ascii_lowercase (trim_slashes (trim name)) in
    if is_empty normalized
    then err empty_name
    else if any is_whitespace normalized
    then err whitespace_in_name
    else ok normalized

-- `CommandRegistry`
abbrev pub Registry : Type 0
Registry = Dict Text CommandHandler

-- The map is written before the test for a handler of that name.
unfoldable pub register :
    Text → CommandHandler → Registry → Result CommandError (Unit {0}) × Registry
register name handler r = elim (normalize_command_name name) [
  | err e ↦ (err e, r)
  | ok key ↦ (
    if Dict.contains_key key r then err (already_registered key) else ok tt,
    Dict.insert key handler r,
  )
]

unfoldable pub with_builtin_commands : CommandHandler → Registry
unfolding register
with_builtin_commands context_command =
    let r₁ = (register (txt "test") test_command []).1 in
    let r₂ = (register (txt "equal") equal_command r₁).1 in
    let r₃ = (register (txt "echo") echo_command r₂).1 in
    let r₄ = (register (txt "context") context_command r₃).1 in
    (register (txt "clear") clear_command r₄).1

unfoldable pub is_command : IncomingMessage → Result CommandError Bool
is_command m = elim (parse (remove_prefix_at_if_exist m)) [
  | err e ↦ err e
  | ok none ↦ ok false
  | ok (some i) ↦ ok true
]

running_message : Text → Text
running_message name =
    txt "current thread is running; /"
    ++ (name ++ txt " is unavailable until the active agent turn completes")

refuse_running : CommandInvocation → Option CommandHandler → Option CommandReply
unfolding running_message
refuse_running i none = none
refuse_running i (some h) =
    if not h.requires_idle_thread then none else some (failed i.name (running_message i.name))

unfoldable pub running_thread_reply :
    Registry → IncomingMessage → Result CommandError (Option CommandReply)
unfolding refuse_running
running_thread_reply r m = elim (parse (remove_prefix_at_if_exist m)) [
  | err e ↦ err e
  | ok none ↦ ok none
  | ok (some i) ↦ ok (refuse_running i (Dict.get i.name r))
]

-- What the caller is told of a handler's run.
abbrev pub replied : Result CommandError CommandReply → Result CommandError (Option CommandReply)
replied (ok reply) = ok (some reply)
replied (err e) = err e

run_handler :
    CommandInvocation
    → Option CommandHandler
    → IncomingMessage
    → Thread
    → Result CommandError (Option CommandReply) × Thread
run_handler i none m t = (ok (some (failed i.name (txt "unknown command"))), t)
run_handler i (some h) m t = let (result, t') = h.execute i m t in (replied result, t')

unfoldable pub try_execute_with_thread_context :
    Registry → IncomingMessage → Thread → Result CommandError (Option CommandReply) × Thread
unfolding run_handler
try_execute_with_thread_context r m t = elim (parse (remove_prefix_at_if_exist m)) [
  | err e ↦ (err e, t)
  | ok none ↦ (ok none, t)
  | ok (some i) ↦ run_handler i (Dict.get i.name r) m t
]
