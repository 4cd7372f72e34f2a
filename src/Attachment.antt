-- ===== src/Attachment.antt =====
-- attachment_syntax.rs: the markers `#!openjarvis[image:/path]` in outgoing text. A position in the
-- text is what remains of the text from there on.
pub mod Soundness
pub mod RoundTrip
use openjarvis.Base.{
  ℕ, zero, suc, Text, Char, List, [], ◌∷◌, ◌++◌, Option, none, some, Bool, true, false, not, ◌&&◌,
  ◌||◌, ◌==◌, if◌then◌else◌, txt, text_eq, is_empty, length,
}
use openjarvis.Base.Str.{trim, strip_prefix}
use openjarvis.Model.{OutgoingAttachment, image, OutgoingMessage}

abbrev pub attachment_prefix : Text
attachment_prefix = txt "#!openjarvis["

-- `str::find` of a pattern: what follows its first occurrence.
unfoldable pub after_first : Text → Text → Option Text
after_first p [] = strip_prefix p []
after_first p (c ∷ s) = elim (strip_prefix p (c ∷ s)) [
  | some rest ↦ some rest
  | none ↦ after_first p s
]

abbrev cons_before : Char → Option (Text × Text) → Option (Text × Text)
cons_before c none = none
cons_before c (some (a, b)) = some (c ∷ a, b)

-- `str::split_once` at a character.
unfoldable pub split_once : Char → Text → Option (Text × Text)
split_once d [] = none
split_once d (c ∷ s) = if c == d then some ([], s) else cons_before c (split_once d s)

-- `Path::is_absolute`, on Unix.
abbrev pub is_absolute : Text → Bool
is_absolute [] = false
is_absolute (c ∷ s) = c == b'/'

attachment_of : Text → Text → Option OutgoingAttachment
attachment_of kind path =
    if is_empty path || not (is_absolute path)
    then none
    else if text_eq (trim kind) (txt "image")
    then some (record { kind = image; path = path; mime_type = none })
    else none

unfoldable pub parse_attachment_marker : Text → Option OutgoingAttachment
unfolding attachment_of
parse_attachment_marker body = elim (split_once b':' (trim body)) [
  | none ↦ none
  | some (kind, path) ↦ attachment_of kind (trim path)
]

abbrev push_found : Option OutgoingAttachment → List OutgoingAttachment → List OutgoingAttachment
push_found none rest = rest
push_found (some a) rest = a ∷ rest

-- The loop of `parse_content`, from a position on. Each round moves past a `]`, so the length of
-- the text is fuel enough.
unfoldable pub collect : ℕ → Text → List OutgoingAttachment
collect zero s = []
collect (suc fuel) s = elim (after_first attachment_prefix s) [
  | none ↦ []
  | some payload ↦ elim (split_once b']' payload) [
    | none ↦ []
    | some (body, rest) ↦ push_found (parse_attachment_marker body) (collect fuel rest)
  ]
]

pub record ParseResult : Type 0 where
  pub content : Text
  pub attachments : List OutgoingAttachment

unfoldable pub parse_content : Text → ParseResult
unfolding collect
parse_content content = record { content = content; attachments = collect (length content) content }

unfoldable pub parse_message : OutgoingMessage → OutgoingMessage
unfolding parse_content
parse_message m =
    let parsed = parse_content m.content in
    if is_empty parsed.attachments
    then m
    else record m { content = parsed.content; attachments = m.attachments ++ parsed.attachments }
