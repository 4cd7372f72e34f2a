-- ===== src/Command/Registry.antt =====
-- command.rs: the registry, the built-in commands, and what they may do to a thread.
use openjarvis.Base.{
  ℕ, Text, [], ◌∷◌, any, All, subst, Option, none, some, false, ◌≡◌, refl, arith, Result, ok, err,
  if◌then◌else◌, txt, text_eq, ◌⊎◌, inl, inr, ap,
}
use openjarvis.Base.Str.{
  text_eq_instance, trim_start_by, trim_end_by, is_whitespace, to_ascii_lower, to_ascii_lowercase,
  trim,
}
use openjarvis.Base.Dict
use openjarvis.Base.Dict.{Dict, get-insert}
use openjarvis.Model.{IncomingMessage}
use openjarvis.Thread.{Thread}
use openjarvis.Thread.Messages.{clear_to_initial_state}
use openjarvis.Command.Parsing.{IsWord}
use openjarvis.Command.{
  CommandHandler, CommandInvocation, CommandReply, CommandError, Registry, register,
  normalize_command_name, already_registered, with_builtin_commands, test_command, equal_command,
  echo_command, clear_command, running_thread_reply, try_execute_with_thread_context, parse,
  remove_prefix_at_if_exist, run_handler, trim_slashes, refuse_running, failed, running_message,
}

-- The name of a command in the map: a word in lower case.
pub record IsKey (key : Text) : Type 0 where
  pub word : IsWord key
  pub lower : to_ascii_lowercase key ≡ key

-- What a registration did, by whether the name can be normalized, and what the map holds for `other`.
pub data Registration (name other : Text) (handler : CommandHandler) (r : Registry)
    (out : Result CommandError (Unit {0}) × Registry) : Type 0 where
  refuses :
      (e : CommandError)
      → normalize_command_name name ≡ err e
      → out ≡ (err e, r)
      → Registration name other handler r out
  enters :
      (key : Text)
      → normalize_command_name name ≡ ok key
      → IsKey key
      → Dict.get other out.1 ≡ (if text_eq key other then some handler else Dict.get other r)
      → out.0 ≡ (if Dict.contains_key key r then err (already_registered key) else ok tt)
      → Registration name other handler r out

none_blank : (s : Text) → any is_whitespace s ≡ false → All (λ c. is_whitespace c ≡ false) s
none_blank [] e = tt
none_blank (c ∷ s) e = ground (arith, none_blank s)

to_ascii_lower_idem : (c : ℕ) → to_ascii_lower (to_ascii_lower c) ≡ to_ascii_lower c
unfolding to_ascii_lower
to_ascii_lower_idem c = ground arith

to_ascii_lowercase_idem :
    (s : Text) → to_ascii_lowercase (to_ascii_lowercase s) ≡ to_ascii_lowercase s
to_ascii_lowercase_idem [] = refl
to_ascii_lowercase_idem (c ∷ s) = rw (to_ascii_lower_idem c, to_ascii_lowercase_idem s) refl

normalize_command_name-IsKey : (name key : Text) → normalize_command_name name ≡ ok key → IsKey key
unfolding normalize_command_name
normalize_command_name-IsKey name key e =
    let bare = trim_slashes (trim name) in
    let same : to_ascii_lowercase bare ≡ key = ground arith in
    subst IsKey same (record {
      word = record {
        nonempty = ground arith;
        solid = none_blank (to_ascii_lowercase bare) (ground arith);
      };
      lower = to_ascii_lowercase_idem bare;
    })

-- A registration under a name that does not normalize fails with that failure and changes nothing.
-- Under any other name the key is a word in lower case, and the map then holds the handler under it,
-- and what it held under every other name, whatever is reported; a failure is reported exactly if the
-- key was taken. So a registration that fails because the name was taken has replaced the handler.
pub register_lem :
    (name other : Text) (handler : CommandHandler) (r : Registry)
    → Registration name other handler r (register name handler r)
unfolding register
register_lem name other handler r = split (normalize_command_name name) refl
  where
    split :
        (x : Result CommandError Text)
        → normalize_command_name name ≡ x
        → Registration name other handler r (register name handler r)
    split (err x) e = refuses x e (rw (e, register) refl)
    split (ok key) e =
        enters key e (normalize_command_name-IsKey name key e)
          (rw (e, register) (get-insert key other handler r)) (rw (e, register) refl)

-- The built-in commands by name.
builtin : CommandHandler → Text → Option CommandHandler
builtin context n =
    if text_eq (txt "test") n
    then some test_command
    else if text_eq (txt "equal") n
    then some equal_command
    else if text_eq (txt "echo") n
    then some echo_command
    else if text_eq (txt "context") n
    then some context
    else if text_eq (txt "clear") n
    then some clear_command
    else none

get-builtin :
    (context : CommandHandler) (n : Text)
    → Dict.get n (with_builtin_commands context) ≡ builtin context n
unfolding with_builtin_commands register normalize_command_name builtin text_eq trim_start_by
    trim_end_by is_whitespace to_ascii_lower Dict.insert Dict.get
get-builtin context n = refl

-- What a command did to the thread: nothing, or it cleared it and is refused while a turn runs.
pub data Effect (context : CommandHandler) (m : IncomingMessage) (t t' : Thread) : Type 0 where
  keeps : t' ≡ t → Effect context m t t'
  clears :
      (reply : CommandReply)
      → t' ≡ clear_to_initial_state m.received_at t
      → running_thread_reply (with_builtin_commands context) m ≡ ok (some reply)
      → reply.success ≡ false
      → Effect context m t t'

run_builtin :
    (context : CommandHandler) (i : CommandInvocation) (m : IncomingMessage) (t : Thread)
    → (context.execute i m t).1 ≡ t
    → ((run_handler i (builtin context i.name) m t).1 ≡ t)
      ⊎ (((run_handler i (builtin context i.name) m t).1 ≡ clear_to_initial_state m.received_at t)
          × (refuse_running i (builtin context i.name)
              ≡ some (failed i.name (running_message i.name))))
unfolding run_handler refuse_running builtin test_command equal_command echo_command clear_command
run_builtin context i m t quiet = ground arith

run_parsed :
    (context : CommandHandler) (m : IncomingMessage) (t : Thread)
    → ((i : CommandInvocation) → (context.execute i m t).1 ≡ t)
    → (i : CommandInvocation) → parse (remove_prefix_at_if_exist m) ≡ ok (some i)
    → Effect context m t (try_execute_with_thread_context (with_builtin_commands context) m t).1
unfolding try_execute_with_thread_context running_thread_reply
run_parsed context m t quiet i e =
    rw (e, try_execute_with_thread_context)
      (rw (get-builtin context i.name) (elim (run_builtin context i m t (quiet i)) [
        | inl same ↦ keeps same
        | inr (cleared, refused) ↦
            clears (failed i.name (running_message i.name)) cleared
              (rw (e, running_thread_reply)
                (rw (get-builtin context i.name) (ap (λ (r : Option CommandReply). ok r) refused)))
              refl
      ]))

-- With the built-in commands, and a `/context` that leaves the thread alone, a message changes the
-- thread only by clearing it; and the message that does so is refused, with a failure reply, while
-- the thread is running.
pub try_execute_Effect :
    (context : CommandHandler) (m : IncomingMessage) (t : Thread)
    → ((i : CommandInvocation) → (context.execute i m t).1 ≡ t)
    → Effect context m t (try_execute_with_thread_context (with_builtin_commands context) m t).1
unfolding try_execute_with_thread_context
try_execute_Effect context m t quiet = split (parse (remove_prefix_at_if_exist m)) refl
  where
    split :
        (p : Result CommandError (Option CommandInvocation))
        → parse (remove_prefix_at_if_exist m) ≡ p
        → Effect context m t (try_execute_with_thread_context (with_builtin_commands context) m t).1
    split (err x) e = rw (e, try_execute_with_thread_context) (keeps refl)
    split (ok none) e = rw (e, try_execute_with_thread_context) (keeps refl)
    split (ok (some i)) e = run_parsed context m t quiet i e
