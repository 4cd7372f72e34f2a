-- ===== src/Agent/Tools.antt =====
-- agent/tool/mod.rs and agent/tool/toolset.rs: the registry of tools and toolsets. Handlers, the
-- runtimes of toolsets and the MCP servers act on what is outside of the program, a state `E`.
pub mod Calls
pub mod Owners
use openjarvis.Base.{
  ℕ, Text, Json, List, [], ◌∷◌, ◌++◌, map, Option, none, some, Bool, true, false, not, ◌&&◌, ◌||◌,
  if◌then◌else◌, txt, text_eq, is_empty, any, Result, ok, err, is_some,
}
use openjarvis.Base.Value.{obj, field, str, bool, arr, end, nil, cons}
use openjarvis.Base.Str.{trim, text_lt, text_eq_instance}
use openjarvis.Base.Dict
use openjarvis.Base.Dict.{Dict}
use openjarvis.Thread.{Thread}
use openjarvis.Thread.Toolsets.{loaded_toolsets, load_toolset, unload_toolset}
use openjarvis.Compact.Budget.{ToolDefinition}
use openjarvis.Agent.{Failure, failure, Run, ◌>>=◌, ◌>>◌, pure, fail, lift}

pub record ToolCallRequest : Type 0 where
  pub name : Text
  pub arguments : Json

pub record ToolCallResult : Type 0 where
  pub content : Text
  pub metadata : Json
  pub is_error : Bool

-- `ToolCallContext::for_thread`
pub record ToolCallContext : Type 0 where
  pub thread_id : Option Text

pub record ToolsetCatalogEntry : Type 0 where
  pub name : Text
  pub description : Text

pub record ToolHandler (E : Type 0) : Type 0 where
  pub definition : ToolDefinition
  pub call_with_context : ToolCallContext → ToolCallRequest → Run E ToolCallResult

pub record ToolsetRuntime (E : Type 0) : Type 0 where
  pub on_unload : Text → Run E (Unit {0})

-- `RegisteredToolset`
pub data Toolset (E : Type 0) : Type 0 where
  static : ToolsetCatalogEntry → Dict Text (ToolHandler E) → Option (ToolsetRuntime E) → Toolset E
  mcp_server : ToolsetCatalogEntry → Text → Toolset E

pub record ToolRegistry (E : Type 0) : Type 0 where
  pub always_visible_handlers : Dict Text (ToolHandler E)
  pub toolsets : Dict Text (Toolset E)

-- What the registry uses that is not its own: the tools of an MCP server, the reading of a tool's
-- arguments, and the texts of two schemas.
pub record Peripherals (E : Type 0) : Type 0 where
  pub ensure_server_tools : Text → Run E (Dict Text (ToolHandler E))
  pub parse_toolset_name : Text → Json → Result Failure Text
  pub manage_toolset_schema : Text
  pub empty_schema : Text

module _ {E : Type 0} (p : Peripherals E) where
  abbrev pub load_toolset_definition : ToolDefinition
  load_toolset_definition = record {
    name = txt "load_toolset";
    description =
        txt
          "Load one program-defined toolset into the current internal thread so its tools become visible in later model steps.";
    schema = p.manage_toolset_schema;
  }

  abbrev pub unload_toolset_definition : ToolDefinition
  unload_toolset_definition = record {
    name = txt "unload_toolset";
    description =
        txt
          "Unload one program-defined toolset from the current internal thread so its tools disappear from later model steps.";
    schema = p.manage_toolset_schema;
  }

  abbrev pub compact_tool_definition : ToolDefinition
  compact_tool_definition = record {
    name = txt "compact";
    description =
        txt
          "Compact the current thread chat history into one assistant summary plus a follow-up user continue message so the task can keep going with less context.";
    schema = p.empty_schema;
  }

-- `sort_by` the names; a stable sort.
unfoldable pub insert_by_name : ToolDefinition → List ToolDefinition → List ToolDefinition
insert_by_name d [] = d ∷ []
insert_by_name d (x ∷ xs) = if text_lt x.name d.name then x ∷ insert_by_name d xs else d ∷ x ∷ xs

unfoldable pub sort_by_name : List ToolDefinition → List ToolDefinition
unfolding insert_by_name
sort_by_name [] = []
sort_by_name (d ∷ ds) = insert_by_name d (sort_by_name ds)

abbrev pub on_env : {E A : Type 0} → Run E A → Run (Thread × E) A
on_env m (t, e) = ((m e).0, (t, (m e).1))

unfoldable pub validate_toolset_name : Text → Result Failure (Unit {0})
validate_toolset_name name =
    if is_empty (trim name) then err (failure (txt "toolset name must not be blank")) else ok tt

module _ {E : Type 0} where
  abbrev pub definitions : Dict Text (ToolHandler E) → List ToolDefinition
  definitions = map (λ h. h.1.definition)

  unfoldable pub holds_tool : Text → Toolset E → Bool
  unfolding Dict.contains_key
  holds_tool name (static entry handlers runtime) = Dict.contains_key name handlers
  holds_tool name (mcp_server entry server) = false

  unfoldable pub ensure_tool_name_available : Text → ToolRegistry E → Result Failure (Unit {0})
  unfolding holds_tool Dict.contains_key
  ensure_tool_name_available name r =
      if Dict.contains_key name r.always_visible_handlers
      then err (failure (txt "tool `" ++ (name ++ txt "` is already registered")))
      else if any (λ s. holds_tool name s.1) r.toolsets
      then err (failure (txt "tool `" ++ (name ++ txt "` is already owned by another toolset")))
      else ok tt

  -- The second test cannot fail after the first, and stands as the source has it.
  unfoldable pub register : ToolHandler E → Run (ToolRegistry E) (Unit {0})
  unfolding ensure_tool_name_available
  register h r =
      let name = h.definition.name in
      elim (ensure_tool_name_available name r) [
        | err e ↦ (err e, r)
        | ok _ ↦
            if Dict.contains_key name r.always_visible_handlers
            then (err (failure (txt "tool `" ++ (name ++ txt "` is already registered"))), r)
            else (
              ok tt,
              record r { always_visible_handlers = Dict.insert name h r.always_visible_handlers },
            )
      ]

  -- The loop of `register_toolset_with_runtime`, with the handlers routed so far.
  unfoldable pub route_handlers :
      ToolsetCatalogEntry
      → ToolRegistry E
      → List (ToolHandler E)
      → Dict Text (ToolHandler E)
      → Result Failure (Dict Text (ToolHandler E))
  unfolding ensure_tool_name_available
  route_handlers entry r [] routed = ok routed
  route_handlers entry r (h ∷ hs) routed =
      let name = h.definition.name in
      let rest = route_handlers entry r hs (Dict.insert name h routed) in
      if Dict.contains_key name routed
      then err (
          failure (
            txt "toolset `"
            ++ (entry.name ++ (txt "` contains duplicate tool `" ++ (name ++ txt "`")))))
      else elim (ensure_tool_name_available name r) [ err e ↦ err e | ok _ ↦ rest ]

  unfoldable pub insert_toolset :
      ToolsetCatalogEntry
      → Option (ToolsetRuntime E)
      → Dict Text (ToolHandler E)
      → Run (ToolRegistry E) (Unit {0})
  insert_toolset entry runtime routed r =
      if Dict.contains_key entry.name r.toolsets
      then (err (failure (txt "toolset `" ++ (entry.name ++ txt "` is already registered"))), r)
      else (
        ok tt,
        record r { toolsets = Dict.insert entry.name (static entry routed runtime) r.toolsets },
      )

  unfoldable pub register_toolset_with_runtime :
      ToolsetCatalogEntry
      → List (ToolHandler E)
      → Option (ToolsetRuntime E)
      → Run (ToolRegistry E) (Unit {0})
  unfolding validate_toolset_name route_handlers insert_toolset
  register_toolset_with_runtime entry handlers runtime r =
      (lift (validate_toolset_name entry.name)
          >>= (λ _. lift (route_handlers entry r handlers []) >>= insert_toolset entry runtime))
        r

  -- `or_insert` under the name of the handler.
  unfoldable pub register_if_missing : ToolHandler E → ToolRegistry E → ToolRegistry E
  register_if_missing h r =
      if Dict.contains_key h.definition.name r.always_visible_handlers then r else record r {
        always_visible_handlers = Dict.insert h.definition.name h r.always_visible_handlers;
      }

  -- `list`
  unfoldable pub list_visible : ToolRegistry E → List ToolDefinition
  unfolding sort_by_name
  list_visible r = sort_by_name (definitions r.always_visible_handlers)

module _ {E : Type 0} (p : Peripherals E) (r : ToolRegistry E) where
  handlers_of : Toolset E → Run E (Dict Text (ToolHandler E))
  handlers_of (static entry handlers runtime) = pure handlers
  handlers_of (mcp_server entry server) = p.ensure_server_tools server

  unfoldable pub resolve_toolset_handlers : Text → Run E (Dict Text (ToolHandler E))
  unfolding handlers_of
  resolve_toolset_handlers name = elim (Dict.get name r.toolsets) [
    | none ↦ fail (failure (txt "toolset `" ++ (name ++ txt "` is not registered")))
    | some toolset ↦ handlers_of toolset
  ]

  runtime_of : Toolset E → Option (ToolsetRuntime E)
  runtime_of (static entry handlers runtime) = runtime
  runtime_of (mcp_server entry server) = none

  unfoldable pub resolve_toolset_runtime : Text → Result Failure (Option (ToolsetRuntime E))
  unfolding runtime_of
  resolve_toolset_runtime name = elim (Dict.get name r.toolsets) [
    | none ↦ err (failure (txt "toolset `" ++ (name ++ txt "` is not registered")))
    | some toolset ↦ ok (runtime_of toolset)
  ]

  -- The definitions of the tools of the named toolsets, one after another.
  unfoldable pub toolset_definitions : List Text → Run E (List ToolDefinition)
  toolset_definitions [] = pure []
  toolset_definitions (n ∷ ns) = do
    handlers ← resolve_toolset_handlers n
    rest ← toolset_definitions ns
    pure (definitions handlers ++ rest)

  unfoldable pub list_for_context_static : Thread → Run E (List ToolDefinition)
  unfolding list_visible toolset_definitions loaded_toolsets sort_by_name
  list_for_context_static t = do
    extra ← toolset_definitions (loaded_toolsets t)
    pure (
        sort_by_name
          (list_visible r ++ (load_toolset_definition p ∷ (unload_toolset_definition p ∷ extra))))

  unfoldable pub list_for_context_with_compact : Thread → Bool → Run E (List ToolDefinition)
  unfolding list_for_context_static sort_by_name
  list_for_context_with_compact t compact_visible = do
    static_definitions ← list_for_context_static t
    pure (
        sort_by_name (
          if compact_visible
          then static_definitions ++ compact_tool_definition p ∷ []
          else static_definitions))

  -- The first of the named toolsets that has the tool; an error of an earlier one ends the search.
  unfoldable pub find_in_toolsets : Text → List Text → Run E (Option (ToolHandler E))
  find_in_toolsets name [] = pure none
  find_in_toolsets name (n ∷ ns) = resolve_toolset_handlers n >>= (λ handlers.
      elim (Dict.get name handlers) [ some h ↦ pure (some h) | none ↦ find_in_toolsets name ns ])

  unfoldable pub resolve_handler : Text → Thread → Run E (Option (ToolHandler E))
  unfolding find_in_toolsets loaded_toolsets
  resolve_handler name t = elim (Dict.get name r.always_visible_handlers) [
    | some h ↦ pure (some h)
    | none ↦ find_in_toolsets name (loaded_toolsets t)
  ]

  unfoldable pub open_tool : Text → Run (Thread × E) Bool
  unfolding resolve_toolset_handlers
  open_tool tool_name =
      let name = trim tool_name in
      if is_empty name
      then fail (failure (txt "open_tool requires a non-empty tool name"))
      else on_env (resolve_toolset_handlers name)
        >>= (λ _ s. (ok (load_toolset name s.0).0, ((load_toolset name s.0).1, s.1)))

  -- The runtime of a loaded toolset is told; a toolset that is not registered has none.
  notify_unload : Text → Run (Thread × E) (Unit {0})
  unfolding resolve_toolset_runtime
  notify_unload name s = elim (resolve_toolset_runtime name) [
    | ok (some runtime) ↦ on_env (runtime.on_unload s.0.locator.thread_id) s
    | ok none ↦ (ok tt, s)
    | err e ↦ (ok tt, s)
  ]

  -- The runtime is told only of a toolset that is loaded.
  tell_runtime : Text → Run (Thread × E) (Unit {0})
  unfolding notify_unload loaded_toolsets
  tell_runtime name s =
      if any (λ n. text_eq n name) (loaded_toolsets s.0) then notify_unload name s else (ok tt, s)

  forget_toolset : Text → Run (Thread × E) Bool
  unfolding unload_toolset
  forget_toolset name s = (ok (unload_toolset name s.0).0, ((unload_toolset name s.0).1, s.1))

  unfoldable pub close_tool : Text → Run (Thread × E) Bool
  unfolding tell_runtime forget_toolset
  close_tool tool_name =
      let name = trim tool_name in
      if is_empty name
      then fail (failure (txt "close_tool requires a non-empty tool name"))
      else tell_runtime name >>= (λ _. forget_toolset name)
