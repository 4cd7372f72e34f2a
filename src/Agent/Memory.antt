-- ===== src/Agent/Memory.antt =====
-- agent/memory/repository.rs: the paths, keywords and front matter of memory notes, as far as they do
-- not touch the file system. `Path::components` is the one of a Unix system.
pub mod Paths
use openjarvis.Base.{
  Text, Char, List, [], ◌∷◌, ◌++◌, Bool, true, false, Option, none, some, ◌==◌, if◌then◌else◌, txt,
  text_eq, Result, ok, err, map, length, drop, ◌-◌, is_empty, any,
}
use openjarvis.Base.Str.{trim, to_ascii_lowercase}
use openjarvis.Agent.{Failure, failure}

-- `std::path::Component`
pub data Component : Type 0 where
  normal : Text → Component
  cur_dir parent_dir root_dir : Component

-- What stands before the first slash, and the pieces after it.
unfoldable pub pieces : Text → Text × List Text
pieces [] = ([], [])
pieces (c ∷ s) = let (p, ps) = pieces s in if c == b'/' then ([], p ∷ ps) else (c ∷ p, ps)

-- `Path::is_absolute`
abbrev pub is_absolute : Text → Bool
is_absolute [] = false
is_absolute (c ∷ s) = c == b'/'

unfoldable pub component_of : Text → List Component
component_of p =
    if is_empty p
    then []
    else if text_eq p (txt ".")
    then []
    else if text_eq p (txt "..")
    then parent_dir ∷ []
    else normal p ∷ []

abbrev pub components_of : List Text → List Component
components_of [] = []
components_of (p ∷ ps) = component_of p ++ components_of ps

-- A single dot counts in front only.
unfoldable pub leading : Text → List Component
unfolding pieces
leading s =
    if is_absolute s
    then root_dir ∷ []
    else if text_eq (pieces s).0 (txt ".")
    then cur_dir ∷ []
    else []

-- `Path::components`
unfoldable pub components : Text → List Component
unfolding pieces leading component_of
components s = leading s ++ (component_of (pieces s).0 ++ components_of (pieces s).1)

-- `[String]::join` with a slash.
abbrev pub join_with_slash : List Text → Text
join_with_slash [] = []
join_with_slash (w ∷ []) = w
join_with_slash (w ∷ v ∷ ws) = w ++ (b'/' ∷ join_with_slash (v ∷ ws))

abbrev pub with_part : Text → Result Failure (List Text) → Result Failure (List Text)
with_part p (err e) = err e
with_part p (ok ps) = ok (p ∷ ps)

-- The loop over the components.
unfoldable pub collect_parts : List Component → Result Failure (List Text)
collect_parts [] = ok []
collect_parts (normal p ∷ cs) =
    let rest = collect_parts cs in
    if is_empty (trim p)
    then err (failure (txt "memory path contains an empty component"))
    else with_part p rest
collect_parts (cur_dir ∷ cs) = collect_parts cs
collect_parts (parent_dir ∷ cs) = err (failure (txt "memory path must not contain `..`"))
collect_parts (root_dir ∷ cs) = err (failure (txt "memory path must be relative"))

abbrev pub joined : Result Failure (List Text) → Result Failure Text
joined (err e) = err e
joined (ok []) = err (failure (txt "memory path must contain at least one non-empty component"))
joined (ok (p ∷ ps)) = ok (join_with_slash (p ∷ ps))

abbrev pub forward_slashes : Text → Text
forward_slashes = map (λ c. if c == 92 then b'/' else c)

unfoldable pub normalize_relative_path : Text → Result Failure Text
unfolding collect_parts components
normalize_relative_path path =
    let normalized = forward_slashes (trim path) in
    if is_empty (trim path)
    then err (failure (txt "memory path must not be blank"))
    else if is_absolute normalized
    then err (failure (txt "memory path must be relative"))
    else joined (collect_parts (components normalized))

-- `str::ends_with`
abbrev pub ends_with : Text → Text → Bool
ends_with s e = text_eq (drop (length s - length e) s) e

abbrev pub with_extension : Result Failure Text → Result Failure Text
with_extension (err e) = err e
with_extension (ok normalized) =
    if ends_with normalized (txt ".md")
    then ok normalized
    else err (failure (txt "memory path must end with `.md`"))

unfoldable pub validate_memory_file_path : Text → Result Failure Text
unfolding normalize_relative_path
validate_memory_file_path path = with_extension (normalize_relative_path path)

abbrev pub validate_memory_dir_prefix : Text → Result Failure Text
validate_memory_dir_prefix = normalize_relative_path

-- The loop of `normalize_keywords`, with the keys seen so far.
unfoldable pub normalize_from : List Text → List Text → Result Failure (List Text)
normalize_from seen [] = ok []
normalize_from seen (k ∷ ks) =
    let keyword = trim k in
    let key = to_ascii_lowercase keyword in
    let rest = normalize_from (key ∷ seen) ks in
    if is_empty keyword
    then err (failure (txt "memory keywords must not contain blank values"))
    else if any (text_eq key) seen
    then err (failure (txt "memory keywords must be unique within one document"))
    else with_part keyword rest

unfoldable pub normalize_keywords : List Text → Result Failure (List Text)
unfolding normalize_from
normalize_keywords = normalize_from []
