-- ===== src/Thread/Toolsets.antt =====
-- thread.rs: the toolsets that a thread has loaded.
pub mod Catalog
use openjarvis.Base.{
  Text, List, ◌∷◌, [], ◌++◌, map, Bool, true, false, not, ◌==◌, is_empty, retain, length,
  if◌then◌else◌, text_eq,
}
use openjarvis.Base.Str.{trim}
use openjarvis.Base.Sorting.{sort, dedup, binary_search}
use openjarvis.Thread.{Thread}

unfoldable pub normalize_loaded_toolsets : List Text → List Text
normalize_loaded_toolsets names = dedup (sort (retain (λ n. not (is_empty n)) (map trim names)))

abbrev set_loaded_toolsets : List Text → Thread → Thread
set_loaded_toolsets names t = record t {
  state = record t.state { tools = record t.state.tools { loaded_toolsets = names } };
}

unfoldable pub loaded_toolsets : Thread → List Text
loaded_toolsets t = t.state.tools.loaded_toolsets

unfoldable pub replace_loaded_toolsets : List Text → Thread → Thread
unfolding normalize_loaded_toolsets
replace_loaded_toolsets names t = set_loaded_toolsets (normalize_loaded_toolsets names) t

insert_toolset : Text → Thread → Bool × Thread
insert_toolset name t =
    let names = t.state.tools.loaded_toolsets in
    if binary_search name names
    then (false, t)
    else (true, set_loaded_toolsets (dedup (sort (names ++ name ∷ []))) t)

unfoldable pub load_toolset : Text → Thread → Bool × Thread
unfolding insert_toolset
load_toolset toolset_name t =
    let name = trim toolset_name in if is_empty name then (false, t) else insert_toolset name t

unfoldable pub unload_toolset : Text → Thread → Bool × Thread
unload_toolset toolset_name t =
    let names = t.state.tools.loaded_toolsets in
    let kept = retain (λ n. not (text_eq n toolset_name)) names in
    (not (length names == length kept), set_loaded_toolsets kept t)
