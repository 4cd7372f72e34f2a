-- ===== src/Agent/Memory/Paths.antt =====
-- agent/memory/repository.rs: a path that passes stays below the directory it is joined to.
use openjarvis.Base.{
  Text, List, [], ◌∷◌, ◌++◌, true, false, ◌==◌, txt, text_eq, Result, ok, err, map, is_empty, All,
  All-append, Bool-cases, subst, inl, inr, ◌≡◌, refl, arith, ap, sym, ◌∙◌,
}
use openjarvis.Base.Str.{trim}
use mathlib.Core.List.{append-nil}
use openjarvis.Agent.{Failure}
use openjarvis.Agent.Memory.{
  Component, normal, cur_dir, parent_dir, root_dir, pieces, is_absolute, component_of,
  components_of, leading, components, join_with_slash, collect_parts, with_part, joined,
  forward_slashes, normalize_relative_path, ends_with, validate_memory_file_path, with_extension,
}

abbrev pub NoSlash : Text → Type 0
NoSlash = All (λ c. (c == b'/') ≡ false)

-- A name of one step down: it is not empty, and not one of the two names made of dots.
pub record Plain (p : Text) : Type 0 where
  no_slash : NoSlash p
  not_empty : is_empty p ≡ false
  not_dot : text_eq p (txt ".") ≡ false
  not_dots : text_eq p (txt "..") ≡ false

pieces-NoSlash : (s : Text) → NoSlash (pieces s).0 × All NoSlash (pieces s).1
unfolding pieces
pieces-NoSlash [] = (tt, tt)
pieces-NoSlash (c ∷ s) = ground (arith, pieces-NoSlash s)

pieces_alone : (p : Text) → NoSlash p → pieces p ≡ (p, [])
unfolding pieces
pieces_alone [] h = refl
pieces_alone (c ∷ p) h = rw (pieces_alone p h.1, h.0) refl

pieces-append :
    (p s : Text) → NoSlash p → pieces (p ++ (b'/' ∷ s)) ≡ (p, (pieces s).0 ∷ (pieces s).1)
unfolding pieces
pieces-append [] s h = refl
pieces-append (c ∷ p) s h = rw (pieces-append p s h.1, h.0) refl

pieces-join_with_slash :
    (p : Text) (ps : List Text) → All Plain (p ∷ ps) → pieces (join_with_slash (p ∷ ps)) ≡ (p, ps)
pieces-join_with_slash p [] h = pieces_alone p h.0.no_slash
pieces-join_with_slash p (q ∷ ps) h =
    rw (pieces-append p (join_with_slash (q ∷ ps)) h.0.no_slash, pieces-join_with_slash q ps h.1)
      refl

component_of-Plain : (p : Text) → Plain p → component_of p ≡ normal p ∷ []
unfolding component_of
component_of-Plain p h = rw (h.not_empty, h.not_dot, h.not_dots) refl

components_of-Plain : (ps : List Text) → All Plain ps → components_of ps ≡ map normal ps
components_of-Plain [] h = refl
components_of-Plain (p ∷ ps) h = rw (component_of-Plain p h.0, components_of-Plain ps h.1) refl

not_absolute : (p s : Text) → Plain p → is_absolute (p ++ s) ≡ false
not_absolute [] s h = ground (arith, h.not_empty)
not_absolute (c ∷ p) s h = h.no_slash.0

join-not_absolute :
    (p : Text) (ps : List Text) → Plain p → is_absolute (join_with_slash (p ∷ ps)) ≡ false
join-not_absolute p [] h = ap is_absolute (sym (append-nil p)) ∙ not_absolute p [] h
join-not_absolute p (q ∷ ps) h = not_absolute p (b'/' ∷ join_with_slash (q ∷ ps)) h

-- Plain names that are joined are found again.
components-join_with_slash :
    (p : Text) (ps : List Text)
    → All Plain (p ∷ ps)
    → components (join_with_slash (p ∷ ps)) ≡ map normal (p ∷ ps)
unfolding components leading
components-join_with_slash p ps h =
    rw
      (
        join-not_absolute p ps h.0,
        pieces-join_with_slash p ps h,
        h.0.not_dot,
        h.0.not_empty,
        h.0.not_dots,
        components_of-Plain ps h.1,
      )
      refl

PlainIfNormal : Component → Type 0
PlainIfNormal (normal p) = Plain p
PlainIfNormal _ = Unit

component_of-PlainIfNormal : (p : Text) → NoSlash p → All PlainIfNormal (component_of p)
unfolding component_of PlainIfNormal
component_of-PlainIfNormal p h = elim (Bool-cases (is_empty p)) [
  | inl e ↦ rw e tt
  | inr e ↦ elim (Bool-cases (text_eq p (txt "."))) [
    | inl d ↦ rw (e, d) tt
    | inr d ↦ elim (Bool-cases (text_eq p (txt ".."))) [
      | inl f ↦ rw (e, d, f) (tt, tt)
      | inr f ↦ rw (e, d, f) (record { no_slash = h; not_empty = e; not_dot = d; not_dots = f }, tt)
    ]
  ]
]

components_of-PlainIfNormal :
    (ps : List Text) → All NoSlash ps → All PlainIfNormal (components_of ps)
components_of-PlainIfNormal [] h = tt
components_of-PlainIfNormal (p ∷ ps) h =
    All-append PlainIfNormal (component_of p) (components_of ps) (component_of-PlainIfNormal p h.0)
      (components_of-PlainIfNormal ps h.1)

leading-PlainIfNormal : (s : Text) → All PlainIfNormal (leading s)
unfolding leading PlainIfNormal
leading-PlainIfNormal s = ground arith

components-PlainIfNormal : (s : Text) → All PlainIfNormal (components s)
unfolding components
components-PlainIfNormal s =
    let (first, others) = pieces-NoSlash s in
    All-append PlainIfNormal (leading s) _ (leading-PlainIfNormal s) (
      All-append PlainIfNormal (component_of (pieces s).0) _
        (component_of-PlainIfNormal (pieces s).0 first)
        (components_of-PlainIfNormal (pieces s).1 others))

abbrev pub Kept : Text → Type 0
Kept p = Plain p × (is_empty (trim p) ≡ false)

with_part-Kept :
    (p : Text) (r : Result Failure (List Text)) (ps : List Text)
    → Kept p
    → ((qs : List Text) → r ≡ ok qs → All Kept qs)
    → with_part p r ≡ ok ps
    → All Kept ps
with_part-Kept p (err f) ps k h e = ground arith
with_part-Kept p (ok qs) [] k h e = ground arith
with_part-Kept p (ok qs) (q ∷ ps) k h e = ground (arith, h qs refl)

collect_parts-Kept :
    (cs : List Component) (ps : List Text)
    → All PlainIfNormal cs
    → collect_parts cs ≡ ok ps
    → All Kept ps
unfolding collect_parts PlainIfNormal
collect_parts-Kept [] ps h e = ground arith
collect_parts-Kept (normal p ∷ cs) ps h e = elim (Bool-cases (is_empty (trim p))) [
  | inl b ↦ ground arith
  | inr b ↦
      with_part-Kept p (collect_parts cs) ps (h.0, b) (λ qs. collect_parts-Kept cs qs h.1)
        (subst (λ x. x ≡ ok ps) (rw (b) refl) e)
]
collect_parts-Kept (cur_dir ∷ cs) ps h e = collect_parts-Kept cs ps h.1 e
collect_parts-Kept (parent_dir ∷ cs) ps h e = ground arith
collect_parts-Kept (root_dir ∷ cs) ps h e = ground arith

Kept-Plain : (ps : List Text) → All Kept ps → All Plain ps
Kept-Plain [] h = tt
Kept-Plain (p ∷ ps) h = (h.0.0, Kept-Plain ps h.1)

-- A path that is a sequence of names, at least one, each a step down.
pub record Below (out : Text) (parts : List Text) : Type 0 where
  found : components out ≡ map normal parts
  some_part : is_empty parts ≡ false
  kept : All Kept parts

joined-Below :
    (r : Result Failure (List Text)) (out : Text)
    → ((ps : List Text) → r ≡ ok ps → All Kept ps)
    → joined r ≡ ok out
    → (parts : List Text) × Below out parts
joined-Below (err f) out h e = ground arith
joined-Below (ok []) out h e = ground arith
joined-Below (ok (p ∷ ps)) out h e =
    let same : join_with_slash (p ∷ ps) ≡ out = ground arith in
    let kept = h (p ∷ ps) refl in
    (
      p ∷ ps,
      record {
        found =
            ap components (sym same) ∙ components-join_with_slash p ps (Kept-Plain (p ∷ ps) kept);
        some_part = refl;
        kept = kept;
      },
    )

normalize_relative_path-Below :
    (path out : Text)
    → normalize_relative_path path ≡ ok out
    → (parts : List Text) × Below out parts
unfolding normalize_relative_path
normalize_relative_path-Below path out e = elim (Bool-cases (is_empty (trim path))) [
  | inl b ↦ ground arith
  | inr b ↦ elim (Bool-cases (is_absolute (forward_slashes (trim path)))) [
    | inl c ↦ ground arith
    | inr c ↦
        joined-Below (collect_parts (components (forward_slashes (trim path)))) out
          (λ ps.
            collect_parts-Kept (components (forward_slashes (trim path))) ps
              (components-PlainIfNormal (forward_slashes (trim path))))
          (subst (λ x. x ≡ ok out) (rw (b, c) refl) e)
  ]
]

checked-Below :
    (r : Result Failure Text) (out : Text)
    → ((n : Text) → r ≡ ok n → (parts : List Text) × Below n parts)
    → with_extension r ≡ ok out
    → (ends_with out (txt ".md") ≡ true) × ((parts : List Text) × Below out parts)
checked-Below (err f) out h e = ground arith
checked-Below (ok n) out h e = elim (Bool-cases (ends_with n (txt ".md"))) [
  | inl b ↦
      let same : n ≡ out = ground arith in
      subst (λ x. (ends_with x (txt ".md") ≡ true) × ((parts : List Text) × Below x parts)) same
        (b, h n refl)
  | inr b ↦ ground arith
]

-- A path of a memory note that passes, whatever it was written as: the file system finds in it one or
-- more names and nothing else, no root, no step up, and no name that is blank or has a slash; and it
-- ends with `.md`. So it stays below the directory that it is joined to.
pub validate_memory_file_path-Below :
    (path out : Text)
    → validate_memory_file_path path ≡ ok out
    → (ends_with out (txt ".md") ≡ true) × ((parts : List Text) × Below out parts)
unfolding validate_memory_file_path
validate_memory_file_path-Below path out e =
    checked-Below (normalize_relative_path path) out (normalize_relative_path-Below path) e
