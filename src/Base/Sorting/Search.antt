-- ===== src/Base/Sorting/Search.antt =====
-- Binary search finds exactly the elements of a strictly ascending list.
use Prim.Native.Nat.{ℕ, zero, suc, ◌-◌, ◌/◌, ◌≤◌, ◌<◌}
use mathlib.Core.Path.{◌≡◌, refl}
use mathlib.Core.Logic.{inl, inr}
use mathlib.Core.Bool.{true, false, ◌||◌}
use mathlib.Core.Option.{some}
use mathlib.Core.List.{List, [], ◌∷◌}
use native.Mathlib.Omega.{arith}
use openjarvis.Base.Tests.{Bool-cases}
use openjarvis.Base.Lists.{take, drop, get_elem?, length, length-drop, length-take-le}
use openjarvis.Base.Str.{Text, text_lt, text_eq_iff}
use openjarvis.Base.Order.{text_lt_irrefl, text_lt_trans}
use openjarvis.Base.Sorting.{contains, halve, binary_search}
use openjarvis.Base.Sorting.Laws.{Below, Ascending}

contains-take-drop :
    (s : Text) (n : ℕ) (ts : List Text)
    → contains s ts ≡ (contains s (take n ts) || contains s (drop n ts))
contains-take-drop s zero ts = refl
contains-take-drop s (suc n) [] = refl
contains-take-drop s (suc n) (t ∷ ts) = ground (arith, contains-take-drop s n ts)

Ascending-take : (n : ℕ) (ts : List Text) → Ascending ts → Ascending (take n ts)
Ascending-take zero ts h = tt
Ascending-take (suc n) [] h = tt
Ascending-take (suc n) (t ∷ ts) h = (Below-take n t ts h.0, Ascending-take n ts h.1)
  where
    Below-take : (n : ℕ) (t : Text) (ts : List Text) → Below t ts → Below t (take n ts)
    Below-take zero t ts b = tt
    Below-take (suc n) t [] b = tt
    Below-take (suc n) t (u ∷ ts) b = (b.0, Below-take n t ts b.1)

Ascending-drop : (n : ℕ) (ts : List Text) → Ascending ts → Ascending (drop n ts)
Ascending-drop zero ts h = h
Ascending-drop (suc n) [] h = tt
Ascending-drop (suc n) (t ∷ ts) h = Ascending-drop n ts h.1

Below-drop : (s : Text) (n : ℕ) (ts : List Text) → Below s ts → contains s (drop n ts) ≡ false
Below-drop s zero [] b = refl
Below-drop s zero (t ∷ ts) b =
    ground (arith, Below-drop s zero ts b.1, text_eq_iff t s, text_lt_irrefl s, b.0)
Below-drop s (suc n) [] b = refl
Below-drop s (suc n) (t ∷ ts) b = Below-drop s n ts b.1

Below-trans : (s t : Text) (ts : List Text) → text_lt s t ≡ true → Below t ts → Below s ts
Below-trans s t [] h b = tt
Below-trans s t (u ∷ ts) h b = (text_lt_trans s t u h b.0, Below-trans s t ts h b.1)

-- Nothing from the position of a larger element on is the one sought.
absent_above :
    (s m : Text) (h n : ℕ) (ts : List Text)
    → Ascending ts
    → get_elem? ts h ≡ some m
    → text_lt s m ≡ true
    → h ≤ n
    → contains s (drop n ts) ≡ false
absent_above s m h zero [] a e l le = refl
absent_above s m h (suc n) [] a e l le = refl
absent_above s m zero n (t ∷ ts) a e l le =
    Below-drop s n (t ∷ ts) (less, Below-trans s t ts less a.0)
  where
    less : text_lt s t ≡ true
    less = ground arith
absent_above s m (suc h) zero (t ∷ ts) a e l le = absurd (omega arith)
absent_above s m (suc h) (suc n) (t ∷ ts) a e l le = absent_above s m h n ts a.1 e l (omega arith)

Below-get_elem? :
    (t m : Text) (h : ℕ) (ts : List Text)
    → Below t ts
    → get_elem? ts h ≡ some m
    → text_lt t m ≡ true
Below-get_elem? t m h [] b e = cc
Below-get_elem? t m zero (u ∷ ts) b e = ground arith
Below-get_elem? t m (suc h) (u ∷ ts) b e = Below-get_elem? t m h ts b.1 e

-- Nor is anything before the position of an element that is not larger.
absent_below :
    (s m : Text) (h : ℕ) (ts : List Text)
    → Ascending ts
    → get_elem? ts h ≡ some m
    → text_lt s m ≡ false
    → contains s (take h ts) ≡ false
absent_below s m zero ts a e l = refl
absent_below s m (suc h) [] a e l = refl
absent_below s m (suc h) (t ∷ ts) a e l =
    ground (arith, absent_below s m h ts a.1 e l, Below-get_elem? t m h ts a.0 e, text_eq_iff t s)

get_elem?-some : (i : ℕ) (ts : List Text) → i < length ts → (m : Text) × (get_elem? ts i ≡ some m)
get_elem?-some i [] h = absurd (omega arith)
get_elem?-some zero (t ∷ ts) h = (t, refl)
get_elem?-some (suc i) (t ∷ ts) h = get_elem?-some i ts (omega arith)

halve_step :
    (f : ℕ) (s : Text) (ts : List Text)
    → ((us : List Text) → length us ≤ f → Ascending us → halve f s us ≡ contains s us)
    → 2 ≤ length ts
    → length ts ≤ suc f
    → Ascending ts
    → halve (suc f) s ts ≡ contains s ts
unfolding halve
halve_step f s ts ih two fits a =
    let half = length ts / 2 in
    let (m, e) = get_elem?-some half ts (omega arith) in
    elim (Bool-cases (text_lt s m)) [
      | inl less ↦ ground (
        arith,
        e,
        less,
        ih (take (length ts - half) ts) (omega (arith, length-take-le (length ts - half) ts))
            (Ascending-take (length ts - half) ts a),
        contains-take-drop s (length ts - half) ts,
        absent_above s m half (length ts - half) ts a e less (omega arith),
      )
      | inr more ↦ ground (
        arith,
        e,
        more,
        ih (drop half ts) (omega (arith, length-drop half ts)) (Ascending-drop half ts a),
        contains-take-drop s half ts,
        absent_below s m half ts a e more,
      )
    ]

halve-contains :
    (f : ℕ) (s : Text) (ts : List Text)
    → length ts ≤ f
    → Ascending ts
    → halve f s ts ≡ contains s ts
unfolding halve
halve-contains zero s [] h a = refl
halve-contains zero s (t ∷ ts) h a = absurd (omega arith)
halve-contains (suc f) s [] h a = refl
halve-contains (suc f) s (t ∷ []) h a = ground arith
halve-contains (suc f) s (t ∷ u ∷ ts) h a =
    halve_step f s (t ∷ u ∷ ts) (halve-contains f s) (omega arith) h a

-- On the lists that the program keeps, binary search is membership.
pub binary_search-contains :
    (s : Text) (ts : List Text) → Ascending ts → binary_search s ts ≡ contains s ts
unfolding binary_search
binary_search-contains s ts a = halve-contains (length ts) s ts (omega arith) a
