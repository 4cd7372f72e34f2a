-- ===== src/Agent/Hooks.antt =====
-- agent/hook.rs: the events of the agent, the registry of their handlers, and the command line that
-- a configured hook is run by.
pub mod Quoting
pub mod Names
use openjarvis.Base.{
  Text, Char, Json, List, [], ◌∷◌, ◌++◌, Option, none, some, Bool, ◌==◌, if◌then◌else◌, txt,
  text_eq, Result, ok, err, map,
}
use openjarvis.Agent.{Failure, failure, Run, ◌>>=◌, ◌>>◌, pure}

-- `HookEventKind`
pub data HookKind : Type 0 where
  pre_tool_use post_tool_use post_tool_use_failure user_prompt_submit : HookKind
  stop subagent_start subagent_stop pre_compact permission_request : HookKind
  notification session_start session_end setup teammate_idle : HookKind
  task_completed config_change worktree_create worktree_remove : HookKind

unfoldable pub as_str : HookKind → Text
as_str pre_tool_use = txt "pre_tool_use"
as_str post_tool_use = txt "post_tool_use"
as_str post_tool_use_failure = txt "post_tool_use_failure"
as_str user_prompt_submit = txt "user_prompt_submit"
as_str stop = txt "stop"
as_str subagent_start = txt "subagent_start"
as_str subagent_stop = txt "subagent_stop"
as_str pre_compact = txt "pre_compact"
as_str permission_request = txt "permission_request"
as_str notification = txt "notification"
as_str session_start = txt "session_start"
as_str session_end = txt "session_end"
as_str setup = txt "setup"
as_str teammate_idle = txt "teammate_idle"
as_str task_completed = txt "task_completed"
as_str config_change = txt "config_change"
as_str worktree_create = txt "worktree_create"
as_str worktree_remove = txt "worktree_remove"

abbrev kind_table : List (Text × HookKind)
kind_table =
    (txt "pre_tool_use", pre_tool_use)
    ∷ (txt "post_tool_use", post_tool_use)
    ∷ (txt "post_tool_use_failure", post_tool_use_failure)
    ∷ (txt "user_prompt_submit", user_prompt_submit)
    ∷ (txt "stop", stop)
    ∷ (txt "subagent_start", subagent_start)
    ∷ (txt "subagent_stop", subagent_stop)
    ∷ (txt "pre_compact", pre_compact)
    ∷ (txt "permission_request", permission_request)
    ∷ (txt "notification", notification)
    ∷ (txt "session_start", session_start)
    ∷ (txt "session_end", session_end)
    ∷ (txt "setup", setup)
    ∷ (txt "teammate_idle", teammate_idle)
    ∷ (txt "task_completed", task_completed)
    ∷ (txt "config_change", config_change)
    ∷ (txt "worktree_create", worktree_create)
    ∷ (txt "worktree_remove", worktree_remove)
    ∷ []

-- The arms of a `match` on a text, in order.
match_name : Text → List (Text × HookKind) → Result Failure HookKind
match_name name [] = err (failure (txt "unsupported hook event name: " ++ name))
match_name name ((s, kind) ∷ arms) = if text_eq name s then ok kind else match_name name arms

unfoldable pub hook_event_kind_from_name : Text → Result Failure HookKind
unfolding match_name
hook_event_kind_from_name name = match_name name kind_table

pub record HookEvent : Type 0 where
  pub kind : HookKind
  pub payload : Json

-- A handler acts on what is outside of the program.
abbrev pub HookHandler : Type 0 → Type 0
HookHandler E = HookEvent → Run E (Unit {0})

-- `HookRegistry::emit`
unfoldable pub emit : {E : Type 0} → List (HookHandler E) → HookEvent → Run E (Unit {0})
emit [] event = pure tt
emit (h ∷ hs) event = h event >>= (λ _. emit hs event)

-- `HookRegistry::register`
abbrev pub register : {E : Type 0} → HookHandler E → List (HookHandler E) → List (HookHandler E)
register h hs = hs ++ h ∷ []

-- `register_configured`: the commands in the order of the configuration, up to a name that is
-- unknown. `run` stands for the process of a configured hook.
unfoldable pub register_configured :
    {E : Type 0}
    → (HookKind → List Text → HookHandler E)
    → List (Text × List Text)
    → Run (List (HookHandler E)) (Unit {0})
unfolding hook_event_kind_from_name
register_configured hook [] hs = (ok tt, hs)
register_configured hook ((name, command) ∷ commands) hs = elim (hook_event_kind_from_name name) [
  | err e ↦ (err e, hs)
  | ok kind ↦ register_configured hook commands (register (hook kind command) hs)
]

-- `str::replace` of a quote by `'"'"'`.
unfoldable pub replace_quotes : Text → Text
replace_quotes [] = []
replace_quotes (c ∷ s) =
    let rest = replace_quotes s in if c == 39 then txt "'\"'\"'" ++ rest else c ∷ rest

abbrev quoted : Text → Text
quoted part = 39 ∷ (replace_quotes part ++ (39 ∷ []))

-- `[String]::join` with a space.
abbrev pub join_with_space : List Text → Text
join_with_space [] = []
join_with_space (w ∷ []) = w
join_with_space (w ∷ v ∷ ws) = w ++ (b' ' ∷ join_with_space (v ∷ ws))

unfoldable pub build_posix_hook_command : List Text → Text
unfolding replace_quotes
build_posix_hook_command parts = join_with_space (map quoted parts)
