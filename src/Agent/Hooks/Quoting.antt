-- ===== src/Agent/Hooks/Quoting.antt =====
-- agent/hook.rs: a POSIX shell splits the command line of a hook into the configured words.
use openjarvis.Base.{
  Text, List, [], ◌∷◌, ◌++◌, Option, none, some, ◌==◌, if◌then◌else◌, map, ◌≡◌, refl, arith, ap,
}
use mathlib.Core.List.{append_assoc, append-nil}
use openjarvis.Agent.Hooks.{build_posix_hook_command, replace_quotes, quoted, join_with_space}

-- Where a shell stands in a line: between words, in one, or behind an open quote of one.
pub data Place : Type 0 where
  gap word single double : Place

abbrev in_word : Place → Text → List Text → List Text
in_word gap w ws = ws
in_word _ w ws = w ∷ ws

-- The words of a line by the rules of a POSIX shell for spaces and the two quotes, from a place, with
-- the word so far. There are none if a quote stays open, or where an unquoted character, or one in
-- double quotes, would have another meaning.
pub shell_words : Place → Text → Text → Option (List Text)
shell_words gap w [] = some []
shell_words word w [] = some (w ∷ [])
shell_words single w [] = none
shell_words double w [] = none
shell_words gap w (c ∷ s) =
    if c == b' '
    then shell_words gap [] s
    else if c == 39
    then shell_words single [] s
    else if c == 34
    then shell_words double [] s
    else none
shell_words word w (c ∷ s) =
    let rest = mathlib.Core.Option.map (λ ws. w ∷ ws) (shell_words gap [] s) in
    if c == b' '
    then rest
    else if c == 39
    then shell_words single w s
    else if c == 34
    then shell_words double w s
    else none
shell_words single w (c ∷ s) =
    if c == 39 then shell_words word w s else shell_words single (w ++ c ∷ []) s
shell_words double w (c ∷ s) =
    if c == 34
    then shell_words word w s
    else if c == 39
    then shell_words double (w ++ c ∷ []) s
    else none

-- In single quotes, the replaced text of a part is read as the part.
single-replace_quotes :
    (part w s : Text)
    → shell_words single w (replace_quotes part ++ (39 ∷ s)) ≡ shell_words word (w ++ part) s
unfolding shell_words replace_quotes
single-replace_quotes [] w s = rw (append-nil w) refl
single-replace_quotes (c ∷ part) w s =
    ground (arith, single-replace_quotes part (w ++ c ∷ []) s, append_assoc w (c ∷ []) part)

-- A quoted part at the beginning of a word.
gap-quoted : (part s : Text) → shell_words gap [] (quoted part ++ s) ≡ shell_words word part s
unfolding shell_words
gap-quoted part s =
    rw (append_assoc (replace_quotes part) (39 ∷ []) s) (single-replace_quotes part [] s)

-- Whatever the configured words hold, quotes and spaces included, a POSIX shell splits the command
-- line into exactly these words.
pub build_posix_hook_command_words :
    (parts : List Text) → shell_words gap [] (build_posix_hook_command parts) ≡ some parts
unfolding build_posix_hook_command shell_words
build_posix_hook_command_words [] = refl
build_posix_hook_command_words (p ∷ []) = single-replace_quotes p [] []
build_posix_hook_command_words (p ∷ q ∷ parts) =
    rw (gap-quoted p (b' ' ∷ join_with_space (map quoted (q ∷ parts))))
      (ap (mathlib.Core.Option.map (λ ws. p ∷ ws)) (build_posix_hook_command_words (q ∷ parts)))
