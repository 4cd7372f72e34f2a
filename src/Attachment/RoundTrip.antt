-- ===== src/Attachment/RoundTrip.antt =====
-- attachment_syntax.rs: the paths written in well-formed markers are read back.
use mathlib.Core.Bool.{false≢true}
use openjarvis.Base.{
  ℕ, zero, suc, ◌≤◌, ◌<◌, Text, Char, List, [], ◌∷◌, ◌++◌, map, none, some, ◌≡◌, ◌≢◌, refl, true,
  arith, length, All, ap, txt, length-append, text_eq, subst, sym,
}
use openjarvis.Base.Str.{strip_prefix, trim, trim_end_by, trim_start_by, is_whitespace}
use openjarvis.Model.{OutgoingAttachment, image}
use openjarvis.Attachment.{
  attachment_prefix, after_first, split_once, parse_attachment_marker, collect, parse_content,
  is_absolute,
}

-- A path that a marker can carry: absolute, with no `]` in it and no white space at its end.
pub record IsMarkable (path : Text) : Type 0 where
  pub absolute : is_absolute path ≡ true
  pub closed : All (λ c. c ≢ b']') path
  pub tight : trim_end_by is_whitespace path ≡ path

-- Text in which no marker can begin.
abbrev pub IsQuiet : Text → Type 0
IsQuiet s = All (λ c. c ≢ b'#') s

-- Pieces of text, each followed by a marker, and the text at the end.
abbrev pub render : List (Text × Text) → Text → Text
render [] end_ = end_
render ((lead, path) ∷ r) end_ =
    lead ++ (attachment_prefix ++ ((txt "image:" ++ path) ++ (b']' ∷ render r end_)))

abbrev pub IsRenderable : List (Text × Text) → Type 0
IsRenderable = All (λ p. IsQuiet p.0 × IsMarkable p.1)

abbrev pub image_at : Text → OutgoingAttachment
image_at path = record { kind = image; path = path; mime_type = none }

strip_prefix-append : (p s : Text) → strip_prefix p (p ++ s) ≡ some s
unfolding strip_prefix
strip_prefix-append [] s = refl
strip_prefix-append (c ∷ p) s = ground (arith, strip_prefix-append p s)

after_first-quiet :
    (lead s : Text)
    → IsQuiet lead
    → after_first attachment_prefix (lead ++ (attachment_prefix ++ s)) ≡ some s
unfolding after_first strip_prefix
after_first-quiet [] s q = refl
after_first-quiet (c ∷ lead) s q = ground (arith, after_first-quiet lead s q.1)

after_first-none : (s : Text) → IsQuiet s → after_first attachment_prefix s ≡ none
unfolding after_first strip_prefix
after_first-none [] q = refl
after_first-none (c ∷ s) q = ground (arith, after_first-none s q.1)

split_once-append :
    (d : Char) (a b : Text) → All (λ c. c ≢ d) a → split_once d (a ++ (d ∷ b)) ≡ some (a, b)
unfolding split_once
split_once-append d [] b h = ground arith
split_once-append d (c ∷ a) b h = ground (arith, split_once-append d a b h.1)

trim_end-cons :
    (c d : Char) (s t : Text)
    → trim_end_by is_whitespace s ≡ d ∷ t
    → trim_end_by is_whitespace (c ∷ s) ≡ c ∷ d ∷ t
unfolding trim_end_by
trim_end-cons c d s t h = ground arith

trim_image :
    (c : Char) (s : Text)
    → trim_end_by is_whitespace (c ∷ s) ≡ c ∷ s
    → trim (txt "image:" ++ (c ∷ s)) ≡ txt "image:" ++ (c ∷ s)
unfolding trim_start_by is_whitespace
trim_image c s h = trim_end-cons b'i' b'm' _ _ (
    trim_end-cons b'm' b'a' _ _ (
      trim_end-cons b'a' b'g' _ _ (
        trim_end-cons b'g' b'e' _ _
          (trim_end-cons b'e' b':' _ _ (trim_end-cons b':' c (c ∷ s) s h)))))

trim_path :
    (s : Text) → trim_end_by is_whitespace (b'/' ∷ s) ≡ b'/' ∷ s → trim (b'/' ∷ s) ≡ b'/' ∷ s
unfolding trim_start_by is_whitespace
trim_path s h = h

split_once-image : (path : Text) → split_once b':' (txt "image:" ++ path) ≡ some (txt "image", path)
unfolding split_once
split_once-image path = refl

image_kind : text_eq (trim (txt "image")) (txt "image") ≡ true
unfolding text_eq trim_start_by trim_end_by is_whitespace
image_kind = refl

parse_attachment_marker-slash :
    (s : Text)
    → trim_end_by is_whitespace (b'/' ∷ s) ≡ b'/' ∷ s
    → parse_attachment_marker (txt "image:" ++ (b'/' ∷ s)) ≡ some (image_at (b'/' ∷ s))
unfolding parse_attachment_marker
parse_attachment_marker-slash s h =
    ground (arith, trim_image b'/' s h, split_once-image (b'/' ∷ s), trim_path s h, image_kind)

parse_attachment_marker-image :
    (path : Text)
    → IsMarkable path
    → parse_attachment_marker (txt "image:" ++ path) ≡ some (image_at path)
parse_attachment_marker-image [] m = absurd (false≢true m.absolute)
parse_attachment_marker-image (c ∷ s) m =
    let slash : b'/' ≡ c = ground (arith, m.absolute) in
    subst
      (λ (d : Char). parse_attachment_marker (txt "image:" ++ (d ∷ s)) ≡ some (image_at (d ∷ s)))
      slash
      (parse_attachment_marker-slash s
        (subst (λ (d : Char). trim_end_by is_whitespace (d ∷ s) ≡ d ∷ s) (sym slash) m.tight))

All-append-image :
    (path : Text) → All (λ c. c ≢ b']') path → All (λ c. c ≢ b']') (txt "image:" ++ path)
All-append-image path h =
    (omega arith, (omega arith, (omega arith, (omega arith, (omega arith, (omega arith, h))))))

render-length :
    (lead path : Text) (r : List (Text × Text)) (end_ : Text)
    → length (render r end_) < length (render ((lead, path) ∷ r) end_)
render-length lead path r end_ = omega (
  arith,
  length-append lead (attachment_prefix ++ ((txt "image:" ++ path) ++ (b']' ∷ render r end_))),
  length-append (txt "image:" ++ path) (b']' ∷ render r end_),
)

collect-render :
    (f : ℕ) (r : List (Text × Text)) (end_ : Text)
    → IsRenderable r
    → IsQuiet end_
    → length (render r end_) ≤ f
    → collect f (render r end_) ≡ map (λ p. image_at p.1) r
unfolding collect
collect-render zero [] end_ h q le = refl
collect-render (suc f) [] end_ h q le = rw (after_first-none end_ q, collect)
collect-render zero ((lead, path) ∷ r) end_ h q le =
    absurd (omega (arith, render-length lead path r end_))
collect-render (suc f) ((lead, path) ∷ r) end_ h q le =
    let rest = render r end_ in
    rw (after_first-quiet lead ((txt "image:" ++ path) ++ (b']' ∷ rest)) h.0.0, collect)
      (rw
        (
          split_once-append b']' (txt "image:" ++ path) rest (All-append-image path h.0.1.closed),
          collect,
        )
        (rw (parse_attachment_marker-image path h.0.1) (
          ap (◌∷◌ (image_at path))
            (collect-render f r end_ h.1 q (omega (arith, render-length lead path r end_))))))

-- Whatever surrounds them, as long as it holds no `#`, the markers of a text are read back: one
-- image for each marker, in order, at the path that was written.
pub parse_content-render :
    (r : List (Text × Text)) (end_ : Text)
    → IsRenderable r
    → IsQuiet end_
    → (parse_content (render r end_)).attachments ≡ map (λ p. image_at p.1) r
unfolding parse_content
parse_content-render r end_ h q = collect-render (length (render r end_)) r end_ h q (omega arith)
