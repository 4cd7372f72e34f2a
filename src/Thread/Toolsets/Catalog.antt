-- ===== src/Thread/Toolsets/Catalog.antt =====
-- thread.rs: the loaded toolsets behave as a finite set of non-blank names.
use openjarvis.Base.{
  Text, List, [], ◌∷◌, ◌++◌, map, ◌≡◌, refl, ◌∙◌, arith, Bool, false, not, ◌&&◌, ◌||◌, is_empty,
  retain, length, text_eq, text_eq_iff, length-retain-le, Bool-cases, inl, inr, if◌then◌else◌, ◌==◌,
}
use openjarvis.Base.Str.{trim}
use openjarvis.Base.Sorting.{contains, sort, dedup}
use openjarvis.Base.Sorting.Laws.{
  Ascending, sort-IsSorted, dedup-Ascending, contains-sort, contains-dedup, retain-Ascending,
}
use openjarvis.Base.Sorting.Search.{binary_search-contains}
use openjarvis.Thread.{Thread}
use openjarvis.Thread.Toolsets.{
  normalize_loaded_toolsets, loaded_toolsets, replace_loaded_toolsets, load_toolset, unload_toolset,
  insert_toolset,
}

contains-append :
    (x : Text) (ns ms : List Text) → contains x (ns ++ ms) ≡ (contains x ns || contains x ms)
contains-append x [] ms = refl
contains-append x (n ∷ ns) ms = ground (arith, contains-append x ns ms)

contains-retain_nonempty :
    (x : Text) (ns : List Text)
    → contains x (retain (λ n. not (is_empty n)) ns) ≡ (contains x ns && not (is_empty x))
unfolding text_eq
contains-retain_nonempty x [] = refl
contains-retain_nonempty [] ([] ∷ ns) = ground (arith, contains-retain_nonempty [] ns)
contains-retain_nonempty [] ((d ∷ n) ∷ ns) = ground (arith, contains-retain_nonempty [] ns)
contains-retain_nonempty (c ∷ x) ([] ∷ ns) = ground (arith, contains-retain_nonempty (c ∷ x) ns)
contains-retain_nonempty (c ∷ x) ((d ∷ n) ∷ ns) =
    ground (arith, contains-retain_nonempty (c ∷ x) ns)

contains-retain_ne :
    (x s : Text) (ns : List Text)
    → contains x (retain (λ n. not (text_eq n s)) ns) ≡ (contains x ns && not (text_eq s x))
contains-retain_ne x s [] = refl
contains-retain_ne x s (n ∷ ns) =
    ground (arith, contains-retain_ne x s ns, text_eq_iff n s, text_eq_iff n x, text_eq_iff s x)

-- Removing a name shortens the list exactly if the name is there.
shorter-contains :
    (s : Text) (ns : List Text)
    → not (length ns == length (retain (λ n. not (text_eq n s)) ns)) ≡ contains s ns
shorter-contains s [] = refl
shorter-contains s (n ∷ ns) =
    ground (arith, shorter-contains s ns, length-retain-le (λ m. not (text_eq m s)) ns)

-- The names are in ascending order with none twice, and none is empty.
pub record IsNormal (ns : List Text) : Type 0 where
  pub ascends : Ascending ns
  pub nonempty : contains [] ns ≡ false

normalize-IsNormal : (ns : List Text) → IsNormal (normalize_loaded_toolsets ns)
unfolding normalize_loaded_toolsets
normalize-IsNormal ns =
    let kept = retain (λ n. not (is_empty n)) (map trim ns) in
    record {
      ascends = dedup-Ascending (sort kept) (sort-IsSorted kept);
      nonempty = ground (
        arith,
        contains-dedup [] (sort kept),
        contains-sort [] kept,
        contains-retain_nonempty [] (map trim ns),
      );
    }

-- A replacement holds exactly the trimmed names that are not blank, in normal form.
pub replace_loaded_toolsets_lem :
    (ns : List Text) (t : Thread)
    → IsNormal (loaded_toolsets (replace_loaded_toolsets ns t))
      × ((x : Text)
          → contains x (loaded_toolsets (replace_loaded_toolsets ns t))
            ≡ (contains x (map trim ns) && not (is_empty x)))
unfolding loaded_toolsets replace_loaded_toolsets
replace_loaded_toolsets_lem ns t =
    let kept = retain (λ n. not (is_empty n)) (map trim ns) in
    (
      normalize-IsNormal ns,
      λ x.
          contains-dedup x (sort kept)
          ∙ contains-sort x kept
          ∙ contains-retain_nonempty x (map trim ns),
    )

-- The names after an insertion.
abbrev inserted : Text → List Text → List Text
inserted n ns = dedup (sort (ns ++ n ∷ []))

contains-inserted :
    (x n : Text) (ns : List Text) → contains x (inserted n ns) ≡ (contains x ns || text_eq n x)
contains-inserted x n ns = ground (
  arith,
  contains-dedup x (sort (ns ++ n ∷ [])),
  contains-sort x (ns ++ n ∷ []),
  contains-append x ns (n ∷ []),
)

pub record Loads (name : Text) (t t' : Thread) (done : Bool) : Type 0 where
  pub normal : IsNormal (loaded_toolsets t')
  pub fresh : done ≡ (not (is_empty name) && not (contains name (loaded_toolsets t)))
  pub holds :
      (x : Text)
      → contains x (loaded_toolsets t')
        ≡ (contains x (loaded_toolsets t) || (not (is_empty name) && text_eq name x))

load :
    (name : Text) (t : Thread)
    → IsNormal (loaded_toolsets t)
    → Loads name t
        (if is_empty name then (false, t) else insert_toolset name t).1
        (if is_empty name then (false, t) else insert_toolset name t).0
unfolding loaded_toolsets insert_toolset
load [] t h = record { normal = h; fresh = refl; holds = λ x. ground arith }
load (c ∷ cs) t h =
    let name = c ∷ cs in
    let names = t.state.tools.loaded_toolsets in
    let found = binary_search-contains name names h.ascends in
    elim (Bool-cases (contains name names)) [
      | inl old ↦
          rw (found ∙ old, insert_toolset)
            (record {
              normal = h;
              fresh = rw old;
              holds = λ x. ground (arith, text_eq_iff (c ∷ cs) x, old);
            })
      | inr new ↦
          rw (found ∙ new, insert_toolset)
            (record {
              normal = record {
                ascends =
                    dedup-Ascending (sort (names ++ name ∷ []))
                      (sort-IsSorted (names ++ name ∷ []));
                nonempty =
                    ground
                      (arith, contains-inserted [] name names, h.nonempty, text_eq_iff (c ∷ cs) []);
              };
              fresh = rw new;
              holds = λ x. contains-inserted x name names;
            })
    ]

-- Loading keeps the normal form; it adds the trimmed name unless that is blank, and nothing else;
-- it answers `true` exactly if the name is not blank and was not loaded.
pub load_toolset_lem :
    (toolset_name : Text) (t : Thread)
    → IsNormal (loaded_toolsets t)
    → Loads (trim toolset_name) t (load_toolset toolset_name t).1 (load_toolset toolset_name t).0
unfolding loaded_toolsets load_toolset
load_toolset_lem toolset_name t h = load (trim toolset_name) t h

-- Unloading keeps the normal form, removes exactly the name as given, and answers whether the name
-- was loaded.
pub unload_toolset_lem :
    (toolset_name : Text) (t : Thread)
    → IsNormal (loaded_toolsets t)
    → IsNormal (loaded_toolsets (unload_toolset toolset_name t).1)
      × ((unload_toolset toolset_name t).0 ≡ contains toolset_name (loaded_toolsets t))
      × ((x : Text)
          → contains x (loaded_toolsets (unload_toolset toolset_name t).1)
            ≡ (contains x (loaded_toolsets t) && not (text_eq toolset_name x)))
unfolding loaded_toolsets unload_toolset
unload_toolset_lem s t h =
    let names = t.state.tools.loaded_toolsets in
    (
      record {
        ascends = retain-Ascending (λ n. not (text_eq n s)) names h.ascends;
        nonempty = ground (arith, contains-retain_ne [] s names, h.nonempty);
      },
      shorter-contains s names,
      λ x. contains-retain_ne x s names,
    )
