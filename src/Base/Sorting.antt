-- ===== src/Base/Sorting.antt =====
-- `slice::sort`, `Vec::dedup` and `slice::binary_search_by` on lists of text.
pub mod Laws
pub mod Search
use Prim.Native.Nat.{ℕ, zero, suc, ◌-◌, ◌/◌}
use mathlib.Core.Bool.{Bool, false}
use mathlib.Core.Option.{Option, none, some}
use mathlib.Core.List.{List, [], ◌∷◌}
use openjarvis.Base.Tests.{if◌then◌else◌, leb}
use openjarvis.Base.Lists.{length, take, drop, get_elem?, any}
use openjarvis.Base.Str.{Text, text_eq, text_lt}

abbrev pub contains : Text → List Text → Bool
contains s = any (λ t. text_eq t s)

unfoldable pub insert_sorted : Text → List Text → List Text
insert_sorted s [] = s ∷ []
insert_sorted s (t ∷ ts) = if text_lt t s then t ∷ insert_sorted s ts else s ∷ t ∷ ts

-- `sort`: a stable sort by the order of text.
unfoldable pub sort : List Text → List Text
sort [] = []
sort (s ∷ ts) = insert_sorted s (sort ts)

-- Keeps an element only where the one before it differs.
unfoldable pub dedup_after : Text → List Text → List Text
dedup_after s [] = []
dedup_after s (t ∷ ts) = let rest = dedup_after t ts in if text_eq s t then rest else t ∷ rest

-- `dedup`: of each run of equal elements, the first stays.
unfoldable pub dedup : List Text → List Text
unfolding dedup_after
dedup [] = []
dedup (s ∷ ts) = s ∷ dedup_after s ts

abbrev first_is : Text → List Text → Bool
first_is s [] = false
first_is s (t ∷ ts) = text_eq t s

abbrev above : Text → Option Text → Bool
above s none = false
above s (some t) = text_lt s t

-- `binary_search_by(..).is_ok()`: halves the slice while it holds more than one element, and
-- compares at the end. The fuel is the length.
unfoldable pub halve : ℕ → Text → List Text → Bool
halve zero s ts = first_is s ts
halve (suc f) s ts =
    let half = length ts / 2 in
    let lower = halve f s (take (length ts - half) ts) in
    let upper = halve f s (drop half ts) in
    if leb (length ts) 1
    then first_is s ts
    else if above s (get_elem? ts half)
    then lower
    else upper

unfoldable pub binary_search : Text → List Text → Bool
unfolding halve
binary_search s ts = halve (length ts) s ts
