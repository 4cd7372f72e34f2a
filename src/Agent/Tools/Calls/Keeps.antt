-- ===== src/Agent/Tools/Calls/Keeps.antt =====
-- agent/tool/mod.rs: a call of a tool changes nothing of the thread but its loaded toolsets.
use openjarvis.Base.{
  Text, Bool, true, false, Result, err, refl, ◌≡◌, ◌∙◌, arith, if◌then◌else◌, is_empty, text_eq,
  txt,
}
use openjarvis.Base.Str.{trim}
use openjarvis.Thread.{Thread}
use openjarvis.Thread.Turn.{current_turn_id}
use openjarvis.Thread.Toolsets
use openjarvis.Thread.Toolsets.{loaded_toolsets}
use openjarvis.Agent.{Failure, failure, Run, ◌>>=◌, lift}
use openjarvis.Agent.Keeps.{Keeps, bind-Keeps, intro-Keeps, use-Keeps}
use openjarvis.Agent.Tools.{
  ToolCallRequest, Peripherals, ToolRegistry, on_env, open_tool, close_tool, notify_unload,
  tell_runtime, forget_toolset, resolve_toolset_handlers,
}
use openjarvis.Agent.Tools.Calls
use openjarvis.Agent.Tools.Calls.{call_for_context, call_handler}

module _ (E : Type 0) where
  abbrev pub TurnKept : Thread × E → Thread × E → Type 0
  TurnKept s s' = current_turn_id s'.0 ≡ current_turn_id s.0

  TurnKept-trans : (s t u : Thread × E) → TurnKept s t → TurnKept t u → TurnKept s u
  TurnKept-trans s t u p q = q ∙ p

  pub SafeCall : {A : Type 0} → Run (Thread × E) A → Type 0
  SafeCall m = Keeps TurnKept m

  then-SafeCall :
      {A B : Type 0} (m : Run (Thread × E) A) (f : A → Run (Thread × E) B)
      → SafeCall m
      → ((a : A) → SafeCall (f a))
      → SafeCall (m >>= f)
  unfolding SafeCall
  then-SafeCall m f h k = bind-Keeps TurnKept TurnKept-trans m f h k

  step-SafeCall :
      {A : Type 0} (m : Run (Thread × E) A) → ((s : Thread × E) → TurnKept s (m s).1) → SafeCall m
  unfolding SafeCall
  step-SafeCall m h = intro-Keeps TurnKept m h

  pub use-SafeCall :
      {A : Type 0} (m : Run (Thread × E) A) → SafeCall m → (s : Thread × E) → TurnKept s (m s).1
  unfolding SafeCall
  use-SafeCall m h = use-Keeps TurnKept m h

  on_env-SafeCall : {A : Type 0} (m : Run E A) → SafeCall (on_env m)
  on_env-SafeCall m = step-SafeCall (on_env m) (λ s. refl)

  pure-SafeCall : {A : Type 0} (r : Result Failure A) → SafeCall (lift r)
  pure-SafeCall r = step-SafeCall (lift r) (λ s. refl)

  if-SafeCall :
      {A : Type 0} (b : Bool) (m n : Run (Thread × E) A)
      → SafeCall m
      → SafeCall n
      → SafeCall (if b then m else n)
  if-SafeCall true m n h k = h
  if-SafeCall false m n h k = k

load_toolset-turn :
    (name : Text) (t : Thread)
    → current_turn_id (Toolsets.load_toolset name t).1 ≡ current_turn_id t
unfolding Toolsets.load_toolset current_turn_id
load_toolset-turn name t = ground arith

unload_toolset-turn :
    (name : Text) (t : Thread)
    → current_turn_id (Toolsets.unload_toolset name t).1 ≡ current_turn_id t
unfolding Toolsets.unload_toolset current_turn_id
unload_toolset-turn name t = ground arith

module _ {E : Type 0} (p : Peripherals E) (r : ToolRegistry E) where
  open_tool-SafeCall : (name : Text) → SafeCall E (open_tool p r name)
  unfolding open_tool
  open_tool-SafeCall name =
      if-SafeCall E (is_empty (trim name)) _ _
        (pure-SafeCall E (err (failure (txt "open_tool requires a non-empty tool name"))))
        (then-SafeCall E _ _ (on_env-SafeCall E (resolve_toolset_handlers p r (trim name)))
          (λ _. step-SafeCall E _ (λ s. load_toolset-turn (trim name) s.0)))

  tell_runtime-SafeCall : (name : Text) → SafeCall E (tell_runtime p r name)
  unfolding tell_runtime notify_unload
  tell_runtime-SafeCall name = step-SafeCall E _ (λ s. ground arith)

  forget_toolset-SafeCall : (name : Text) → SafeCall E (forget_toolset p r name)
  unfolding forget_toolset
  forget_toolset-SafeCall name = step-SafeCall E _ (λ s. unload_toolset-turn name s.0)

  close_tool-SafeCall : (name : Text) → SafeCall E (close_tool p r name)
  unfolding close_tool
  close_tool-SafeCall name =
      if-SafeCall E (is_empty (trim name)) _ _
        (pure-SafeCall E (err (failure (txt "close_tool requires a non-empty tool name"))))
        (then-SafeCall E _ _ (tell_runtime-SafeCall (trim name))
          (λ _. forget_toolset-SafeCall (trim name)))

  load_toolset-SafeCall : (q : ToolCallRequest) → SafeCall E (Calls.load_toolset p r q)
  unfolding Calls.load_toolset
  load_toolset-SafeCall q =
      then-SafeCall E _ _ (pure-SafeCall E (p.parse_toolset_name (txt "load_toolset") q.arguments))
        (λ name.
          then-SafeCall E _ _ (open_tool-SafeCall (trim name))
            (λ inserted. step-SafeCall E _ (λ s. refl)))

  unload_toolset-SafeCall : (q : ToolCallRequest) → SafeCall E (Calls.unload_toolset p r q)
  unfolding Calls.unload_toolset
  unload_toolset-SafeCall q =
      then-SafeCall E _ _
        (pure-SafeCall E (p.parse_toolset_name (txt "unload_toolset") q.arguments))
        (λ name.
          then-SafeCall E _ _ (close_tool-SafeCall (trim name))
            (λ removed. step-SafeCall E _ (λ s. refl)))

  call_handler-SafeCall : (q : ToolCallRequest) → SafeCall E (call_handler p r q)
  unfolding call_handler
  call_handler-SafeCall q = step-SafeCall E _ (λ s. refl)

  pub call_for_context-SafeCall : (q : ToolCallRequest) → SafeCall E (call_for_context p r q)
  unfolding call_for_context
  call_for_context-SafeCall q =
      if-SafeCall E (text_eq q.name (txt "compact")) _ _
        (pure-SafeCall E
          (err (failure (txt "tool `compact` must be handled by the agent loop compact runtime"))))
        (if-SafeCall E (text_eq q.name (txt "load_toolset")) _ _ (load_toolset-SafeCall q) (
          if-SafeCall E (text_eq q.name (txt "unload_toolset")) _ _ (unload_toolset-SafeCall q)
            (call_handler-SafeCall q)))
