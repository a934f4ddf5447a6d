-- ===== src/WorkingSet/Book.antt =====
-- The bookkeeping invariant of a working set: ids are unique and were handed out, what the index
-- points at is evicted, and what is evicted is in the index under its ref.
pub mod Admission
pub mod Budget
pub mod Exact
pub mod Floor
pub mod Growth
pub mod Index
pub mod Links
pub mod Paging
pub mod Spans
pub mod Steps
use tokenzero.Base.{
  ℕ, ◌≤◌, ◌≡◌, ◌≢◌, Bool, true, false, Option, none, some, List, [], ◌∷◌, map, Text, All, Result,
  ok, err,
}
use tokenzero.WorkingSet.Refs.{contains_id, get_ref}
use tokenzero.WorkingSet.State.{
  SpanBody, resident, evicted, ResidentSpan, EvictedRefs, WorkingSet, find_span,
}
use tokenzero.WorkingSet.Ops.{
  is_resident, Fault, panic, recovery, invalid_window, rehydrate_failed, Outcome,
}
use tokenzero.WorkingSet.Host.{Host}

abbrev pub ids : List ResidentSpan → List ℕ
ids = map (λ s. s.id)

abbrev pub Distinct : List ℕ → Type 0
Distinct [] = Unit {0}
Distinct (id ∷ rest) = All (λ j. j ≢ id) rest × Distinct rest

-- The span with the id is there and evicted.
abbrev pub IsEvictedId : List ResidentSpan → ℕ → Type 0
IsEvictedId spans id =
    (s : ResidentSpan) × (find_span id spans ≡ some s) × (is_resident s.body ≡ false)

abbrev pub owned_by : ℕ → Option (List ℕ) → Bool
owned_by id none = false
owned_by id (some have) = contains_id id have

abbrev pub owns : EvictedRefs → Text → ℕ → Bool
owns refs key id = owned_by id (get_ref key refs)

-- An evicted span is in the index under its ref.
abbrev pub BodyOwned : EvictedRefs → ℕ → SpanBody → Type 0
BodyOwned refs id (resident _) = Unit {0}
BodyOwned refs id (evicted ref _) = owns refs ref id ≡ true

abbrev pub Owned : EvictedRefs → ResidentSpan → Type 0
Owned refs s = BodyOwned refs s.id s.body

pub record Book (sequence : ℕ) (spans : List ResidentSpan) (refs : EvictedRefs) : Type 0 where
  pub distinct : Distinct (ids spans)
  pub issued : All (λ id. id ≤ sequence) (ids spans)
  pub pointing : All (λ entry. All (IsEvictedId spans) entry.1) refs
  pub owned : All (Owned refs) spans

abbrev pub IsValid : WorkingSet → Type 0
IsValid w = Book w.sequence w.spans w.evicted_refs

abbrev panics : {E : Type 0} → Fault E → Bool
panics panic = true
panics (recovery _) = false
panics (invalid_window _ _) = false
panics (rehydrate_failed _) = false

abbrev pub is_panic : {E A : Type 0} → Result (Fault E) A → Bool
is_panic (err e) = panics e
is_panic (ok _) = false

-- An operation left a valid working set behind, and did not panic.
abbrev pub IsSound : (host : Host) {A : Type 0} → Outcome host A → Type 0
IsSound host (result, w, store) = IsValid w × (is_panic result ≡ false)
