-- ===== src/Base/Sorting/Laws.antt =====
-- Sorting and deduplicating keep the elements and yield a strictly ascending list.
use mathlib.Core.Path.{◌≡◌, refl}
use mathlib.Core.Logic.{inl, inr}
use mathlib.Core.Bool.{Bool, true, false, ◌||◌}
use mathlib.Core.List.{List, [], ◌∷◌}
use native.Mathlib.Omega.{arith}
use openjarvis.Base.Tests.{Bool-cases}
use openjarvis.Base.Lists.{All, retain}
use openjarvis.Base.Str.{Text, text_eq, text_lt, text_eq_iff}
use openjarvis.Base.Order.{text_lt_trans, text_lt_asymm, text_lt_total}
use openjarvis.Base.Sorting.{contains, insert_sorted, sort, dedup_after, dedup}

abbrev pub Below : Text → List Text → Type 0
Below s ts = All (λ t. text_lt s t ≡ true) ts

-- Each element is below all that follow it: the list is sorted and has no element twice.
abbrev pub Ascending : List Text → Type 0
Ascending [] = Unit
Ascending (s ∷ ts) = Below s ts × Ascending ts

abbrev NotAbove : Text → List Text → Type 0
NotAbove s ts = All (λ t. text_lt t s ≡ false) ts

abbrev IsSorted : List Text → Type 0
IsSorted [] = Unit
IsSorted (s ∷ ts) = NotAbove s ts × IsSorted ts

-- What is not below a lower bound of the list is no lower than it.
le_trans : (s t u : Text) → text_lt t s ≡ false → text_lt u t ≡ false → text_lt u s ≡ false
le_trans s t u h k = elim (Bool-cases (text_lt u s)) [
  | inr e ↦ e
  | inl e ↦ elim (Bool-cases (text_lt s t)) [
    | inl f ↦ ground (arith, text_lt_trans u s t e f)
    | inr f ↦ ground (arith, text_lt_total s t f h)
  ]
]

NotAbove-mono : (s t : Text) (ts : List Text) → text_lt t s ≡ false → NotAbove t ts → NotAbove s ts
NotAbove-mono s t [] h n = tt
NotAbove-mono s t (u ∷ ts) h n = (le_trans s t u h n.0, NotAbove-mono s t ts h n.1)

NotAbove-insert_sorted :
    (r s : Text) (ts : List Text)
    → text_lt s r ≡ false
    → NotAbove r ts
    → NotAbove r (insert_sorted s ts)
unfolding insert_sorted
NotAbove-insert_sorted r s [] h n = (h, tt)
NotAbove-insert_sorted r s (t ∷ ts) h n = ground (arith, NotAbove-insert_sorted r s ts h n.1)

insert_sorted-IsSorted : (s : Text) (ts : List Text) → IsSorted ts → IsSorted (insert_sorted s ts)
unfolding insert_sorted
insert_sorted-IsSorted s [] h = (tt, tt)
insert_sorted-IsSorted s (t ∷ ts) h = elim (Bool-cases (text_lt t s)) [
  | inl e ↦
      rw (e, insert_sorted)
        (NotAbove-insert_sorted t s ts (text_lt_asymm t s e) h.0, insert_sorted-IsSorted s ts h.1)
  | inr e ↦ rw (e, insert_sorted) ((e, NotAbove-mono s t ts e h.0), h)
]

pub sort-IsSorted : (ts : List Text) → IsSorted (sort ts)
unfolding sort
sort-IsSorted [] = tt
sort-IsSorted (s ∷ ts) = insert_sorted-IsSorted s (sort ts) (sort-IsSorted ts)

contains-insert_sorted :
    (x s : Text) (ts : List Text) → contains x (insert_sorted s ts) ≡ (text_eq s x || contains x ts)
unfolding insert_sorted
contains-insert_sorted x s [] = refl
contains-insert_sorted x s (t ∷ ts) = ground (arith, contains-insert_sorted x s ts)

pub contains-sort : (x : Text) (ts : List Text) → contains x (sort ts) ≡ contains x ts
unfolding sort
contains-sort x [] = refl
contains-sort x (s ∷ ts) = ground (arith, contains-insert_sorted x s (sort ts), contains-sort x ts)

Below-mono : (s t : Text) (ts : List Text) → text_lt s t ≡ true → Below t ts → Below s ts
Below-mono s t [] h b = tt
Below-mono s t (u ∷ ts) h b = (text_lt_trans s t u h b.0, Below-mono s t ts h b.1)

dedup_after-Ascending :
    (s : Text) (ts : List Text)
    → NotAbove s ts
    → IsSorted ts
    → Below s (dedup_after s ts) × Ascending (dedup_after s ts)
unfolding dedup_after
dedup_after-Ascending s [] n h = (tt, tt)
dedup_after-Ascending s (t ∷ ts) n h =
    let (below, ascends) = dedup_after-Ascending t ts h.0 h.1 in
    elim (Bool-cases (text_eq s t)) [
      | inl e ↦ rw (e, dedup_after) (rw ((text_eq_iff s t).0 e) (below, ascends))
      | inr e ↦
          let less : text_lt s t ≡ true = ground (arith, text_lt_total s t, text_eq_iff s t, n.0) in
          rw (e, dedup_after)
            ((less, Below-mono s t (dedup_after t ts) less below), (below, ascends))
    ]

pub dedup-Ascending : (ts : List Text) → IsSorted ts → Ascending (dedup ts)
unfolding dedup
dedup-Ascending [] h = tt
dedup-Ascending (s ∷ ts) h = dedup_after-Ascending s ts h.0 h.1

contains-dedup_after :
    (x s : Text) (ts : List Text)
    → (text_eq s x || contains x (dedup_after s ts)) ≡ (text_eq s x || contains x ts)
unfolding dedup_after
contains-dedup_after x s [] = refl
contains-dedup_after x s (t ∷ ts) =
    ground (arith, contains-dedup_after x t ts, text_eq_iff s t, text_eq_iff s x, text_eq_iff t x)

pub contains-dedup : (x : Text) (ts : List Text) → contains x (dedup ts) ≡ contains x ts
unfolding dedup
contains-dedup x [] = refl
contains-dedup x (s ∷ ts) = contains-dedup_after x s ts

Below-retain : (p : Text → Bool) (s : Text) (ts : List Text) → Below s ts → Below s (retain p ts)
Below-retain p s [] b = tt
Below-retain p s (t ∷ ts) b = ground (arith, Below-retain p s ts b.1)

pub retain-Ascending : (p : Text → Bool) (ts : List Text) → Ascending ts → Ascending (retain p ts)
retain-Ascending p [] h = tt
retain-Ascending p (t ∷ ts) h = ground (arith, Below-retain p t ts h.0, retain-Ascending p ts h.1)
