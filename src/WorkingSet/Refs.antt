-- ===== src/WorkingSet/Refs.antt =====
-- The index from refs to evicted spans.
use tokenzero.Base.{
  ℕ, Bool, Option, none, some, List, [], ◌∷◌, ◌++◌, Text, text_eq, ◌==◌, if◌then◌else◌, any,
}
use tokenzero.WorkingSet.State.{EvictedRefs}

abbrev pub contains_id : ℕ → List ℕ → Bool
contains_id id ids = any (λ j. j == id) ids

unfoldable pub get_ref : Text → EvictedRefs → Option (List ℕ)
get_ref key [] = none
get_ref key ((k, ids) ∷ refs) =
    let rest = get_ref key refs in if text_eq k key then some ids else rest

-- `entry(key).or_default().push(id)`
unfoldable pub push_ref : Text → ℕ → EvictedRefs → EvictedRefs
push_ref key id [] = (key, id ∷ []) ∷ []
push_ref key id ((k, ids) ∷ refs) =
    let rest = (k, ids) ∷ push_ref key id refs in
    if text_eq k key then (k, ids ++ id ∷ []) ∷ refs else rest

-- `ids.retain(|candidate| *candidate != id)`
unfoldable pub remove_id : ℕ → List ℕ → List ℕ
remove_id id [] = []
remove_id id (j ∷ ids) = let rest = remove_id id ids in if j == id then rest else j ∷ rest

-- A key that no id is left under goes.
abbrev pub drop_entry : Text → List ℕ → EvictedRefs × List Text → EvictedRefs × List Text
drop_entry key [] (kept, empty) = (kept, key ∷ empty)
drop_entry key (j ∷ ids) (kept, empty) = ((key, j ∷ ids) ∷ kept, empty)

-- The index without the id, and the keys that no id is left under.
unfoldable pub drop_id : ℕ → EvictedRefs → EvictedRefs × List Text
unfolding remove_id
drop_id id [] = ([], [])
drop_id id ((k, ids) ∷ refs) = drop_entry k (remove_id id ids) (drop_id id refs)

-- `ids.iter().copied().min()`
unfoldable pub min_id : List ℕ → Option ℕ
min_id [] = none
min_id (id ∷ ids) = elim (min_id ids) [ none ↦ some id | some j ↦ some (Prim.Native.Nat.min id j) ]

unfoldable pub lookup_id : Text → EvictedRefs → Option ℕ
unfolding get_ref min_id
lookup_id key refs = elim (get_ref key refs) [ none ↦ none | some ids ↦ min_id ids ]

-- One round of the loop of `link_refs`: an id that the entry lacks is pushed.
abbrev pub link_entry : Text → ℕ → EvictedRefs → Option (List ℕ) → EvictedRefs
link_entry key id refs none = push_ref key id refs
link_entry key id refs (some have) = if contains_id id have then refs else push_ref key id refs

unfoldable pub link_id : Text → ℕ → EvictedRefs → EvictedRefs
unfolding get_ref push_ref
link_id key id refs = link_entry key id refs (get_ref key refs)

unfoldable pub push_missing : Text → List ℕ → EvictedRefs → EvictedRefs
unfolding link_id
push_missing key [] refs = refs
push_missing key (id ∷ ids) refs = push_missing key ids (link_id key id refs)
