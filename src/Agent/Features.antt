-- ===== src/Agent/Features.antt =====
-- agent/feature/mod.rs: the system messages that a new thread starts with, from five providers in a
-- fixed order. The catalogs of memories and of skills are read from what is outside of the program.
use openjarvis.Base.{
  Text, List, [], ◌∷◌, ◌++◌, map, Option, none, some, Bool, if◌then◌else◌, txt, is_empty, ok,
}
use openjarvis.Base.Str.{trim, text_lt}
use openjarvis.Context.{ChatMessage, Instant, Role, chat_message}
use openjarvis.Thread.{Thread}
use openjarvis.Thread.Toolsets.{loaded_toolsets}
use openjarvis.Agent.{Run, ◌>>=◌, pure}
use openjarvis.Agent.Tools.{ToolRegistry, Toolset, static, mcp_server, ToolsetCatalogEntry}

abbrev entry_of : {E : Type 0} → Toolset E → ToolsetCatalogEntry
entry_of (static entry handlers runtime) = entry
entry_of (mcp_server entry server) = entry

insert_entry : ToolsetCatalogEntry → List ToolsetCatalogEntry → List ToolsetCatalogEntry
insert_entry e [] = e ∷ []
insert_entry e (x ∷ xs) =
    let rest = insert_entry e xs in if text_lt x.name e.name then x ∷ rest else e ∷ x ∷ xs

sort_entries : List ToolsetCatalogEntry → List ToolsetCatalogEntry
unfolding insert_entry
sort_entries [] = []
sort_entries (e ∷ es) = insert_entry e (sort_entries es)

unfoldable pub list_toolsets : {E : Type 0} → ToolRegistry E → List ToolsetCatalogEntry
unfolding sort_entries
list_toolsets r = sort_entries (map (λ s. entry_of s.1) r.toolsets)

-- `[String]::join`
abbrev join : Text → List Text → Text
join sep [] = []
join sep (w ∷ []) = w
join sep (w ∷ v ∷ ws) = w ++ (sep ++ join sep (v ∷ ws))

abbrev entry_line : ToolsetCatalogEntry → Text
entry_line e = txt "- " ++ (e.name ++ (txt ": " ++ e.description))

abbrev loaded_summary : List Text → Text
loaded_summary [] = txt "none"
loaded_summary (s ∷ ss) = join (txt ", ") (s ∷ ss)

catalog_prompt : List ToolsetCatalogEntry → List Text → Option Text
catalog_prompt [] loaded = none
catalog_prompt (e ∷ es) loaded = some (
    txt
      "You can progressively load optional toolsets with `load_toolset` and remove them with `unload_toolset`.\nAvailable toolsets:\n"
    ++ (join (txt "\n") (map entry_line (e ∷ es))
        ++ (txt "\nCurrently loaded toolsets for this thread: " ++ loaded_summary loaded)))

unfoldable pub catalog_prompt_for_context : {E : Type 0} → ToolRegistry E → Thread → Option Text
unfolding list_toolsets catalog_prompt loaded_toolsets
catalog_prompt_for_context r t = catalog_prompt (list_toolsets r) (loaded_toolsets t)

-- The providers' settings and what they read of the outside.
pub record Features (E : Type 0) : Type 0 where
  pub system_prompt : Text
  pub now : E → Instant × E
  pub memory_messages : Instant → Run E (List ChatMessage)
  pub skill_catalog : E → Option Text × E

abbrev system_message : Text → Instant → ChatMessage
system_message content at = chat_message Role.system content at

abbrev message_of : Option Text → Instant → List ChatMessage
message_of none at = []
message_of (some content) at = system_message content at ∷ []

-- `StaticSystemPromptFeaturePromptProvider`
abbrev pub static_prompt : Text → Instant → List ChatMessage
static_prompt prompt at =
    if is_empty (trim prompt) then [] else system_message (trim prompt) at ∷ []

abbrev tool_use_mode_prompt : Text
tool_use_mode_prompt =
    txt
      "You are running in OpenJarvis tool-use mode. Use the provided tools when needed. You may also provide a short user-visible reply before calling a tool."

-- `AutoCompactFeaturePromptProvider`
abbrev auto_compact_prompt : Bool → Instant → List ChatMessage
auto_compact_prompt enabled at =
    if enabled
    then system_message
        (txt
          "Auto-compact 已开启。当当前线程预算达到阈值时，系统会向你暴露 `compact` 工具；当你判断剩余上下文不足以安全继续时，可以主动调用它。`compact` 只会压缩当前线程的非 system 历史。")
        at
      ∷ []
    else []

module _ {E : Type 0} (f : Features E) (r : ToolRegistry E) where
  build_at : Thread → Bool → Instant → Run E (List ChatMessage)
  unfolding catalog_prompt_for_context
  build_at t auto_compact_enabled at = do
    memories ← f.memory_messages at
    skills ← λ e. (ok (f.skill_catalog e).0, (f.skill_catalog e).1)
    pure (
        static_prompt f.system_prompt at
        ++ (system_message tool_use_mode_prompt at
            ∷ (message_of (catalog_prompt_for_context r t) at
                ++ (memories
                    ++ (message_of skills at ++ auto_compact_prompt auto_compact_enabled at)))))

  unfoldable pub build_messages : Thread → Bool → Run E (List ChatMessage)
  unfolding build_at
  build_messages t auto_compact_enabled = do
    at ← λ e. (ok (f.now e).0, (f.now e).1)
    build_at t auto_compact_enabled at
