-- ===== src/Compact/Summary.antt =====
-- compact/provider.rs: reading the summary out of a model's reply.
use mathlib.Core.List.{append_assoc}
use openjarvis.Base.{
  ℕ, ◌+◌, ◌-◌, Text, Char, [], ◌∷◌, ◌++◌, Option, none, some, false, ◌≡◌, ◌≢◌, refl, arith, ok,
  length, is_empty, All, ap, ◌∙◌, take, drop, length-append, sym,
}
use openjarvis.Base.Str.{trim}
use openjarvis.Compact.{find, rfind, extract_json_object, parse_compact_summary, CompactSummary}

find-append :
    (d : Char) (pre rest : Text)
    → All (λ c. c ≢ d) pre
    → find d (pre ++ (d ∷ rest)) ≡ some (length pre)
unfolding find
find-append d [] rest h = ground arith
find-append d (c ∷ pre) rest h = ground (arith, find-append d pre rest h.1)

rfind-none : (d : Char) (post : Text) → All (λ c. c ≢ d) post → rfind d post ≡ none
unfolding rfind
rfind-none d [] h = refl
rfind-none d (c ∷ post) h = ground (arith, rfind-none d post h.1)

rfind-append :
    (d : Char) (pre post : Text)
    → All (λ c. c ≢ d) post
    → rfind d (pre ++ (d ∷ post)) ≡ some (length pre)
unfolding rfind
rfind-append d [] post h = ground (arith, rfind-none d post h)
rfind-append d (c ∷ pre) post h = ground (arith, rfind-append d pre post h)

drop-length : (pre rest : Text) → drop (length pre) (pre ++ rest) ≡ rest
drop-length [] rest = refl
drop-length (c ∷ pre) rest = drop-length pre rest

take-length : (pre rest : Text) → take (length pre) (pre ++ rest) ≡ pre
take-length [] rest = refl
take-length (c ∷ pre) rest = ap (◌∷◌ c) (take-length pre rest)

rfind-wrapped :
    (pre inner post : Text)
    → All (λ c. c ≢ b'}') post
    → rfind b'}' (pre ++ (b'{' ∷ (inner ++ (b'}' ∷ post)))) ≡ some (length pre + (length inner + 1))
rfind-wrapped pre inner post k =
    ap (rfind b'}') (sym (append_assoc pre (b'{' ∷ inner) (b'}' ∷ post)))
    ∙ rfind-append b'}' (pre ++ (b'{' ∷ inner)) post k
    ∙ ap (λ (n : ℕ). some n) (omega (arith, length-append pre (b'{' ∷ inner)))

take-wrapped :
    (inner post : Text)
    → take (length inner + 2) (b'{' ∷ (inner ++ (b'}' ∷ post))) ≡ b'{' ∷ (inner ++ (b'}' ∷ []))
take-wrapped inner post =
    let object = b'{' ∷ (inner ++ (b'}' ∷ [])) in
    let size : length object ≡ length inner + 2 = omega (arith, length-append inner (b'}' ∷ [])) in
    rw (← size) (
      ap (λ (s : Text). take (length object) (b'{' ∷ s)) (sym (append_assoc inner (b'}' ∷ []) post))
      ∙ take-length object post)

-- Of a reply that wraps an object in other text, before it no `{` and after it no `}`, the object is
-- cut out, whatever stands inside.
pub extract_json_object_wrapped :
    (pre inner post : Text)
    → All (λ c. c ≢ b'{') pre
    → All (λ c. c ≢ b'}') post
    → extract_json_object (pre ++ (b'{' ∷ (inner ++ (b'}' ∷ post))))
      ≡ some (b'{' ∷ (inner ++ (b'}' ∷ [])))
unfolding extract_json_object
extract_json_object_wrapped pre inner post h k =
    let raw = pre ++ (b'{' ∷ (inner ++ (b'}' ∷ post))) in
    let size : length pre + (length inner + 1) + 1 - length pre ≡ length inner + 2 = omega arith in
    ground (
      arith,
      find-append b'{' pre (inner ++ (b'}' ∷ post)) h,
      rfind-wrapped pre inner post k,
      drop-length pre (b'{' ∷ (inner ++ (b'}' ∷ post))),
      size,
      take-wrapped inner post,
    )

-- A reply is only read as a summary that is not blank.
pub parse_compact_summary_lem :
    (from_json : Text → Option CompactSummary) (raw : Text) (s : CompactSummary)
    → parse_compact_summary from_json raw ≡ ok s
    → is_empty (trim s.compacted_assistant) ≡ false
unfolding parse_compact_summary
parse_compact_summary_lem from_json raw s e = ground arith
