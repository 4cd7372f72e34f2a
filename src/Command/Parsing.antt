-- ===== src/Command/Parsing.antt =====
-- command.rs: what `CommandInvocation::parse` reads.
use openjarvis.Base.{
  Text, Char, List, [], ◌∷◌, ◌++◌, some, true, false, ◌≡◌, refl, ap, sym, ◌∙◌, arith, All, is_empty,
  ok, if◌then◌else◌, Bool-cases, inl, inr, subst,
}
use mathlib.Core.List.{append-nil}
use openjarvis.Base.Str.{
  trim, trim_start, trim_start_by, trim_end_by, is_whitespace, to_ascii_lowercase, split_at_first,
}
use openjarvis.Command.{
  CommandInvocation, parse, parse_body, split_whitespace, begins_word, cons_first, after_slash,
}

-- A text that is not empty and holds no white space.
pub record IsWord (w : Text) : Type 0 where
  pub nonempty : is_empty w ≡ false
  pub solid : All (λ c. is_whitespace c ≡ false) w

-- The words of a text, with one space between two.
abbrev pub joined : List Text → Text
joined [] = []
joined (w ∷ []) = w
joined (w ∷ v ∷ ws) = w ++ (b' ' ∷ joined (v ∷ ws))

abbrev spaced : List Text → Text
spaced [] = []
spaced (w ∷ ws) = b' ' ∷ joined (w ∷ ws)

-- The text of a command with its arguments.
abbrev pub command_text : Text → List Text → Text
command_text name arguments = b'/' ∷ (name ++ spaced arguments)

space_is_whitespace : is_whitespace b' ' ≡ true
unfolding is_whitespace
space_is_whitespace = refl

slash_is_solid : is_whitespace b'/' ≡ false
unfolding is_whitespace
slash_is_solid = refl

split_at_first-solid :
    (w : Text) (arguments : List Text)
    → All (λ c. is_whitespace c ≡ false) w
    → split_at_first is_whitespace (w ++ spaced arguments) ≡ (w, spaced arguments)
unfolding split_at_first
split_at_first-solid [] [] h = refl
split_at_first-solid [] (v ∷ ws) h = rw space_is_whitespace
split_at_first-solid (c ∷ w) arguments h = ground (arith, split_at_first-solid w arguments h.1, h.0)

trim_end-solid : (w : Text) → All (λ c. is_whitespace c ≡ false) w → trim_end_by is_whitespace w ≡ w
unfolding trim_end_by
trim_end-solid [] h = refl
trim_end-solid (c ∷ []) h = ground (arith, h.0)
trim_end-solid (c ∷ d ∷ w) h = rw (trim_end-solid (d ∷ w) h.1, trim_end_by)

trim_start-solid : (w s : Text) → IsWord w → trim_start (w ++ s) ≡ w ++ s
unfolding trim_start_by
trim_start-solid [] s h = ground (arith, h.nonempty)
trim_start-solid (c ∷ w) s h = ground (arith, h.solid)

trim_end-nonempty :
    (c : Char) (s : Text)
    → is_whitespace c ≡ false
    → is_empty (trim_end_by is_whitespace (c ∷ s)) ≡ false
unfolding trim_end_by
trim_end-nonempty c s h = ground arith

trim-nonempty : (w s : Text) → IsWord w → is_empty (trim (w ++ s)) ≡ false
unfolding trim_start_by
trim-nonempty [] s h = ground (arith, h.nonempty)
trim-nonempty (c ∷ w) s h = ground (arith, h.solid, trim_end-nonempty c (w ++ s))

split_whitespace-last : (w : Text) → IsWord w → split_whitespace w ≡ w ∷ []
unfolding split_whitespace
split_whitespace-last [] h = ground (arith, h.nonempty)
split_whitespace-last (c ∷ []) h = ground (arith, h.solid)
split_whitespace-last (c ∷ d ∷ w) h =
    ground (
      arith,
      h.solid,
      split_whitespace-last (d ∷ w) (record { nonempty = refl; solid = h.solid.1 }),
    )

split_whitespace-space :
    (w s : Text) → IsWord w → split_whitespace (w ++ (b' ' ∷ s)) ≡ w ∷ split_whitespace s
unfolding split_whitespace
split_whitespace-space [] s h = ground (arith, h.nonempty)
split_whitespace-space (c ∷ []) s h = ground (arith, h.solid, space_is_whitespace)
split_whitespace-space (c ∷ d ∷ w) s h = ground (
  arith,
  h.solid,
  split_whitespace-space (d ∷ w) s (record { nonempty = refl; solid = h.solid.1 }),
)

split_whitespace-joined : (ws : List Text) → All IsWord ws → split_whitespace (joined ws) ≡ ws
unfolding split_whitespace
split_whitespace-joined [] h = refl
split_whitespace-joined (w ∷ []) h = split_whitespace-last w h.0
split_whitespace-joined (w ∷ v ∷ ws) h =
    split_whitespace-space w (joined (v ∷ ws)) h.0
    ∙ ap (◌∷◌ w) (split_whitespace-joined (v ∷ ws) h.1)

trim_start-spaced : (ws : List Text) → All IsWord ws → trim_start (spaced ws) ≡ joined ws
unfolding trim_start_by
trim_start-spaced [] h = refl
trim_start-spaced (w ∷ []) h =
    rw space_is_whitespace (rw (sym (append-nil w)) (trim_start-solid w [] h.0))
trim_start-spaced (w ∷ v ∷ ws) h =
    rw space_is_whitespace (trim_start-solid w (b' ' ∷ joined (v ∷ ws)) h.0)

lower-nonempty : (w : Text) → is_empty w ≡ false → is_empty (to_ascii_lowercase w) ≡ false
lower-nonempty [] h = h
lower-nonempty (c ∷ w) h = refl

trim-solid : (w : Text) → IsWord w → trim w ≡ w
unfolding trim_start_by
trim-solid [] h = ground (arith, h.nonempty)
trim-solid (c ∷ w) h = rw (h.solid.0) (trim_end-solid (c ∷ w) h.solid)

split_or_none :
    (raw : Text) → (if is_empty raw then [] else split_whitespace raw) ≡ split_whitespace raw
unfolding split_whitespace
split_or_none [] = refl
split_or_none (c ∷ s) = refl

parse_body-command :
    (name : Text) (arguments : List Text)
    → IsWord name
    → All IsWord arguments
    → parse_body (name ++ spaced arguments)
      ≡ ok (record {
        name = to_ascii_lowercase name;
        raw_arguments = joined arguments;
        arguments = arguments;
      })
unfolding parse_body
parse_body-command name arguments n a =
    rw (split_at_first-solid name arguments n.solid, parse_body)
      (rw (trim-nonempty name (spaced arguments) n, trim-solid name n, parse_body)
        (rw (lower-nonempty name n.nonempty, trim_start-spaced arguments a)
          (rw (split_or_none (joined arguments), split_whitespace-joined arguments a))))

-- A command's text, a `/`, its name and its arguments with a space before each, is read back: the
-- name in lower case, the arguments as they were, and the raw arguments as the text between.
pub parse-command_text :
    (name : Text) (arguments : List Text)
    → IsWord name
    → All IsWord arguments
    → parse (command_text name arguments)
      ≡ ok (
          some (record {
            name = to_ascii_lowercase name;
            raw_arguments = joined arguments;
            arguments = arguments;
          }))
unfolding parse trim_start_by
parse-command_text name arguments n a =
    rw (slash_is_solid, parse) (rw (parse_body-command name arguments n a, parse))

IsWord-cons_first :
    (c : Char) (ws : List Text)
    → is_whitespace c ≡ false
    → All IsWord ws
    → All IsWord (cons_first c ws)
IsWord-cons_first c [] h a = (record { nonempty = refl; solid = (h, tt) }, tt)
IsWord-cons_first c (w ∷ ws) h a = (record { nonempty = refl; solid = (h, a.0.solid) }, a.1)

split_whitespace-IsWord : (s : Text) → All IsWord (split_whitespace s)
unfolding split_whitespace
split_whitespace-IsWord [] = tt
split_whitespace-IsWord (c ∷ s) = elim (Bool-cases (is_whitespace c)) [
  | inl e ↦ rw (e, split_whitespace) (split_whitespace-IsWord s)
  | inr e ↦ elim (Bool-cases (begins_word s)) [
    | inl b ↦
        rw (e, split_whitespace)
          (rw (b, split_whitespace)
            (IsWord-cons_first c (split_whitespace s) e (split_whitespace-IsWord s)))
    | inr b ↦
        rw (e, split_whitespace)
          (rw (b, split_whitespace)
            (record { nonempty = refl; solid = (e, tt) }, split_whitespace-IsWord s))
  ]
]

parse_body_lem :
    (body : Text) (i : CommandInvocation)
    → parse_body body ≡ ok i
    → (is_empty i.name ≡ false) × (i.arguments ≡ split_whitespace i.raw_arguments)
unfolding parse_body
parse_body_lem body i e =
    let raw = trim_start (split_at_first is_whitespace body).1 in ground (arith, split_or_none raw)

after_slash-parse_body :
    (s : Text) (i : CommandInvocation)
    → after_slash s ≡ ok (some i)
    → (body : Text) × (parse_body body ≡ ok i)
unfolding after_slash
after_slash-parse_body [] i e = cc
after_slash-parse_body (c ∷ body) i e = (body, ground arith)

-- Whatever the message, an invocation that is read has a name, its arguments are the words of its
-- raw arguments, and each of them is a word.
pub parse_lem :
    (message : Text) (i : CommandInvocation)
    → parse message ≡ ok (some i)
    → (is_empty i.name ≡ false)
      × (i.arguments ≡ split_whitespace i.raw_arguments)
      × All IsWord i.arguments
unfolding parse
parse_lem message i e =
    let (body, read) = after_slash-parse_body (trim_start message) i e in
    let (named, split) = parse_body_lem body i read in
    (
      named,
      split,
      subst (λ (ws : List Text). All IsWord ws) (sym split)
          (split_whitespace-IsWord i.raw_arguments),
    )
