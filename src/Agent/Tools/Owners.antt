-- ===== src/Agent/Tools/Owners.antt =====
-- agent/tool/mod.rs: the names of the tools of a toolset that is registered.
use openjarvis.Base.{All, Text, List, [], ◌∷◌, ◌++◌, map, false, ◌≡◌, text_eq}
use openjarvis.Base.Str.{text_eq_instance}
use openjarvis.Base.Dict
use openjarvis.Base.Dict.{Dict}
use openjarvis.Agent.Tools.{ToolHandler, ToolRegistry, Toolset, static, mcp_server}

-- The dictionary has no entry of the name.
abbrev pub Lacks : {A : Type 0} → Text → Dict Text A → Type 0
Lacks name d = All (λ h. text_eq h.0 name ≡ false) d

module _ {E : Type 0} where
  -- A toolset of the program has no tool of the name. What tools an MCP server has is not in the
  -- registry.
  abbrev pub Unowned : Text → Toolset E → Type 0
  Unowned name (static entry handlers runtime) = Lacks name handlers
  Unowned name (mcp_server entry server) = Unit

  -- No visible tool and no tool of a toolset of the program has the name.
  abbrev pub Free : Text → ToolRegistry E → Type 0
  Free name r = Lacks name r.always_visible_handlers × All (λ s. Unowned name s.1) r.toolsets

  -- The handlers under their own names.
  abbrev pub by_name : List (ToolHandler E) → Dict Text (ToolHandler E)
  by_name = map (λ h. (h.definition.name, h))

  abbrev pub Distinct : List (ToolHandler E) → Type 0
  Distinct [] = Unit
  Distinct (h ∷ hs) =
      All (λ g. text_eq h.definition.name g.definition.name ≡ false) hs × Distinct hs

  -- What a run of the loop says of the handlers that it routed.
  record Routes (r : ToolRegistry E) (hs : List (ToolHandler E))
      (routed out : Dict Text (ToolHandler E)) : Type 0 where
    entered : out ≡ routed ++ by_name hs
    free : All (λ h. Free h.definition.name r) hs
    fresh : All (λ h. Dict.contains_key h.definition.name routed ≡ false) hs
    distinct : Distinct hs
