-- ===== src/Agent/Tools/Calls.antt =====
-- agent/tool/mod.rs: a call of a tool from a thread.
pub mod Keeps
use openjarvis.Base.{
  Text, Json, List, [], ◌∷◌, ◌++◌, Option, none, some, Bool, true, false, not, if◌then◌else◌, txt,
  text_eq, Result, ok, err,
}
use openjarvis.Base.Value.{obj, field, str, bool, arr, end, nil, cons, Items}
use openjarvis.Base.Str.{trim}
use openjarvis.Thread.{Thread}
use openjarvis.Thread.Toolsets.{loaded_toolsets}
use openjarvis.Agent.{Failure, failure, Run, ◌>>=◌, ◌>>◌, pure, fail, lift}
use openjarvis.Agent.Tools.{
  ToolCallRequest, ToolCallResult, ToolHandler, ToolRegistry, Peripherals, on_env, open_tool,
  close_tool, resolve_handler,
}

abbrev pub strings : List Text → Items
strings [] = nil
strings (s ∷ ss) = cons (str s) (strings ss)

abbrev manage_metadata : Text → Text → Thread → Text → Bool → Json
manage_metadata kind name t flag value = obj (
    field (txt "event_kind") (str kind) (
      field (txt "toolset") (str name) (
        field (txt "loaded_toolsets") (arr (strings t.state.tools.loaded_toolsets)) (
          field flag (bool value) (
            field (txt "approval_required") (bool false)
              (field (txt "policy_extension_point") (bool true) end))))))

-- What `load_toolset` answers, for a name and whether it was new.
loaded_result : Text → Bool → Thread → ToolCallResult
loaded_result name inserted t = record {
  content =
      if inserted
      then txt "Toolset `" ++ (name ++ txt "` loaded for the current thread.")
      else txt "Toolset `" ++ (name ++ txt "` was already loaded for the current thread.");
  metadata = manage_metadata (txt "load_toolset") name t (txt "already_loaded") (not inserted);
  is_error = false;
}

unloaded_result : Text → Bool → Thread → ToolCallResult
unloaded_result name removed t = record {
  content =
      if removed
      then txt "Toolset `" ++ (name ++ txt "` unloaded for the current thread.")
      else txt "Toolset `" ++ (name ++ txt "` was not loaded for the current thread.");
  metadata = manage_metadata (txt "unload_toolset") name t (txt "was_loaded") removed;
  is_error = false;
}

module _ {E : Type 0} (p : Peripherals E) (r : ToolRegistry E) where
  unfoldable pub load_toolset : ToolCallRequest → Run (Thread × E) ToolCallResult
  unfolding loaded_result
  load_toolset request = do
    name ← lift (p.parse_toolset_name (txt "load_toolset") request.arguments)
    inserted ← open_tool p r (trim name)
    λ s. (ok (loaded_result (trim name) inserted s.0), s)

  unfoldable pub unload_toolset : ToolCallRequest → Run (Thread × E) ToolCallResult
  unfolding unloaded_result
  unload_toolset request = do
    name ← lift (p.parse_toolset_name (txt "unload_toolset") request.arguments)
    removed ← close_tool p r (trim name)
    λ s. (ok (unloaded_result (trim name) removed s.0), s)

  run_handler : ToolCallRequest → Text → Option (ToolHandler E) → Run E ToolCallResult
  run_handler request thread_id none = fail (
      failure (
        txt "tool `"
        ++ (request.name ++ (txt "` is not registered for thread `" ++ (thread_id ++ txt "`")))))
  run_handler request thread_id (some h) =
      h.call_with_context (record { thread_id = some thread_id }) request

  -- Any tool but the three that the registry knows itself.
  unfoldable pub call_handler : ToolCallRequest → Run (Thread × E) ToolCallResult
  unfolding run_handler
  call_handler request s =
      on_env (resolve_handler p r request.name s.0 >>= run_handler request s.0.locator.thread_id) s

  unfoldable pub call_for_context : ToolCallRequest → Run (Thread × E) ToolCallResult
  unfolding load_toolset unload_toolset call_handler
  call_for_context request =
      if text_eq request.name (txt "compact")
      then fail (failure (txt "tool `compact` must be handled by the agent loop compact runtime"))
      else if text_eq request.name (txt "load_toolset")
      then load_toolset request
      else if text_eq request.name (txt "unload_toolset")
      then unload_toolset request
      else call_handler request
