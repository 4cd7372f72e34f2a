-- ===== src/Attachment/Soundness.antt =====
-- attachment_syntax.rs: what the parser finds, and that its fuel is enough.
use mathlib.Core.List.{append-nil}
use openjarvis.Base.{
  ℕ, zero, suc, ◌≤◌, ◌<◌, Text, Char, List, [], ◌∷◌, ◌++◌, Option, none, some, ◌≡◌, refl, true,
  arith, length, All, Option-cases, inl, inr, ap,
}
use openjarvis.Base.Str.{strip_prefix}
use openjarvis.Model.{OutgoingAttachment, OutgoingMessage, image}
use openjarvis.Attachment.{
  attachment_prefix, after_first, split_once, parse_attachment_marker, collect, parse_content,
  parse_message, is_absolute, push_found,
}

strip_prefix-length : (p s r : Text) → strip_prefix p s ≡ some r → length r ≤ length s
unfolding strip_prefix
strip_prefix-length [] s r e = ground arith
strip_prefix-length (c ∷ p) [] r e = cc
strip_prefix-length (c ∷ p) (d ∷ s) r e = ground (arith, strip_prefix-length p s r)

after_first-length : (p s r : Text) → after_first p s ≡ some r → length r ≤ length s
unfolding after_first
after_first-length p [] r e = strip_prefix-length p [] r e
after_first-length p (c ∷ s) r e =
    ground (arith, strip_prefix-length p (c ∷ s) r, after_first-length p s r)

split_once-length : (d : Char) (s a b : Text) → split_once d s ≡ some (a, b) → length b < length s
unfolding split_once
split_once-length d [] a b e = cc
split_once-length d (c ∷ s) a b e = elim (Option-cases (split_once d s)) [
  | inl h ↦ ground arith
  | inr (ab, h) ↦ ground (arith, split_once-length d s ab.0 ab.1 h)
]

-- What the loop finds does not depend on the fuel, once that is the length of the text.
pub collect_enough : (f g : ℕ) (s : Text) → length s ≤ f → length s ≤ g → collect f s ≡ collect g s
unfolding collect after_first strip_prefix
collect_enough zero zero s h k = refl
collect_enough zero (suc g) [] h k = refl
collect_enough zero (suc g) (c ∷ s) h k = absurd (omega arith)
collect_enough (suc f) zero [] h k = refl
collect_enough (suc f) zero (c ∷ s) h k = absurd (omega arith)
collect_enough (suc f) (suc g) s h k = elim (Option-cases (after_first attachment_prefix s)) [
  | inl e ↦ rw (e, collect)
  | inr (payload, e) ↦ elim (Option-cases (split_once b']' payload)) [
    | inl e' ↦ rw (e, collect) (rw (e', collect))
    | inr ((body, rest), e') ↦
        let shorter : length rest < length payload = split_once-length b']' payload body rest e' in
        let fits : length payload ≤ length s = after_first-length attachment_prefix s payload e in
        rw (e, collect)
          (rw (e', collect)
            (ap (push_found (parse_attachment_marker body))
              (collect_enough f g rest (omega arith) (omega arith))))
  ]
]

-- An attachment that the parser may produce.
abbrev pub IsLocalImage : OutgoingAttachment → Type 0
IsLocalImage a = (a.kind ≡ image) × (is_absolute a.path ≡ true) × (a.mime_type ≡ none)

parse_attachment_marker-IsLocalImage :
    (body : Text) (a : OutgoingAttachment) → parse_attachment_marker body ≡ some a → IsLocalImage a
unfolding parse_attachment_marker
parse_attachment_marker-IsLocalImage body a e = ground arith

collect-IsLocalImage : (f : ℕ) (s : Text) → All IsLocalImage (collect f s)
unfolding collect
collect-IsLocalImage zero s = tt
collect-IsLocalImage (suc f) s = elim (Option-cases (after_first attachment_prefix s)) [
  | inl e ↦ rw (e, collect) tt
  | inr (payload, e) ↦ elim (Option-cases (split_once b']' payload)) [
    | inl e' ↦ rw (e, collect) (rw (e', collect) tt)
    | inr ((body, rest), e') ↦
        rw (e, collect)
          (rw (e', collect)
            (found (parse_attachment_marker body) (collect f rest)
              (parse_attachment_marker-IsLocalImage body) (collect-IsLocalImage f rest)))
  ]
]
  where
    found :
        (o : Option OutgoingAttachment) (rest : List OutgoingAttachment)
        → ((a : OutgoingAttachment) → o ≡ some a → IsLocalImage a)
        → All IsLocalImage rest
        → All IsLocalImage (push_found o rest)
    found none rest h k = k
    found (some a) rest h k = (h a refl, k)

-- Whatever the text, the parser answers it unchanged, and each attachment that it finds is an image
-- at an absolute path.
pub parse_content_lem :
    (s : Text) → ((parse_content s).content ≡ s) × All IsLocalImage (parse_content s).attachments
unfolding parse_content
parse_content_lem s = (refl, collect-IsLocalImage (length s) s)

-- Parsing a message keeps its text and only adds local images behind the attachments that it had.
pub parse_message_lem :
    (m : OutgoingMessage)
    → (parse_message m
        ≡ record m { attachments = m.attachments ++ (parse_content m.content).attachments })
      × All IsLocalImage (parse_content m.content).attachments
unfolding parse_message parse_content
parse_message_lem m =
    (ground (arith, append-nil m.attachments), collect-IsLocalImage (length m.content) m.content)
