-- ===== src/WorkingSet/Book/Budget.antt =====
-- Paging out, the loop of `enforce_budget`, and `evict`: valid sets stay valid, and nothing panics.
use tokenzero.Base.{
  ℕ, zero, suc, ◌+◌, ◌≡◌, ◌⊎◌, refl, sym, ◌∙◌, subst, true, Option, none, some, List, [], ◌∷◌, ◌++◌,
  length, Text, arith, ◌==◌, leb, ◌&&◌, get_elem?, Bool-cases, inl, inr, Result, ok, err,
}
use tokenzero.WorkingSet.Host.{Host}
use tokenzero.WorkingSet.State.{SpanBody, resident, evicted, ResidentSpan, WorkingSet, EvictedSpan}
use tokenzero.WorkingSet.Ops.{
  is_resident, resident_index, Victim, precedes, better, Outcome, and_then, paged_out,
  page_out_span, page_out_at, page_out_body, page_out_entry, format_ref_line, as_victim,
  choose_victim, enforce_loop, enforce_budget, evict, used_tokens, enforce_round, evict_at,
}
use tokenzero.WorkingSet.Book.{IsValid, IsSound}
use tokenzero.WorkingSet.Book.Steps.{Book-page_out}

-- The span at an index is there and resident.
abbrev pub IsResidentAt : List ResidentSpan → ℕ → Type 0
IsResidentAt spans i =
    (s : ResidentSpan) × (get_elem? spans i ≡ some s) × (is_resident s.body ≡ true)

-- The index is that of a resident span, counted from an offset.
abbrev Found : ℕ → List ResidentSpan → ℕ → Type 0
Found k spans index = (i : ℕ) × (index ≡ i + k) × IsResidentAt spans i

Found-later :
    (k : ℕ) (s : ResidentSpan) (spans : List ResidentSpan) (index : ℕ)
    → Found (suc k) spans index
    → Found k (s ∷ spans) index
Found-later k s spans index (i, e, at) = (suc i, omega (arith, e), at)

pub resident_index-Found :
    (id k : ℕ) (spans : List ResidentSpan) (index : ℕ)
    → resident_index id k spans ≡ some index
    → Found k spans index
unfolding resident_index
resident_index-Found id k [] index h = absurd (ground arith)
resident_index-Found id k (s ∷ spans) index h =
    elim (Bool-cases (s.id == id && is_resident s.body)) [
      | inl e ↦ (0, ground arith, (s, refl, ground arith))
      | inr e ↦
          Found-later k s spans index (resident_index-Found id (suc k) spans index (rw e at h))
    ]

module _ (host : Host) where
  open host use {Store, StoreError, count_tokens, store_blob}

  as_victim-Found :
      (k : ℕ) (s : ResidentSpan) (body : SpanBody) (v : Victim)
      → as_victim host k s body ≡ some v
      → (v.index ≡ k) × (is_resident body ≡ true)
  as_victim-Found k s (resident text) v h = (ground arith, refl)
  as_victim-Found k s (evicted ref text) v h = absurd (ground arith)

  better-cases :
      (a b : Option Victim) (v : Victim) → better a b ≡ some v → (a ≡ some v) ⊎ (b ≡ some v)
  better-cases none b v h = inr h
  better-cases (some a) none v h = inl h
  better-cases (some a) (some b) v h = elim (Bool-cases (precedes b a)) [
    | inl e ↦ inr (rw e at h)
    | inr e ↦ inl (rw e at h)
  ]

  pub choose_victim-Found :
      (k : ℕ) (spans : List ResidentSpan) (v : Victim)
      → choose_victim host k spans ≡ some v
      → Found k spans v.index
  unfolding choose_victim
  choose_victim-Found k [] v h = absurd (ground arith)
  choose_victim-Found k (s ∷ spans) v h =
      elim (better-cases (as_victim host k s s.body) (choose_victim host (suc k) spans) v h) [
        | inl e ↦
            let (at, r) = as_victim-Found k s s.body v e in (0, at ∙ omega arith, (s, refl, r))
        | inr e ↦ Found-later k s spans v.index (choose_victim-Found (suc k) spans v e)
      ]

  page_out_span-IsSound :
      (w : WorkingSet) (i : ℕ) (s : ResidentSpan) (text : Text)
      (stored : Result StoreError Text × Store)
      → get_elem? w.spans i ≡ some s
      → IsValid w
      → IsSound host (page_out_span host w i s text stored)
  unfolding page_out_span paged_out
  page_out_span-IsSound w i s text (err e, store) h v = (v, refl)
  page_out_span-IsSound w i s text (ok ref, store) h v = (
    Book-page_out w.sequence w.spans w.evicted_refs i s ref (format_ref_line host ref s.anchor) h v,
    refl,
  )

  page_out_body-IsSound :
      (w : WorkingSet) (store : Store) (i : ℕ) (s : ResidentSpan) (body : SpanBody)
      → get_elem? w.spans i ≡ some s
      → is_resident body ≡ true
      → IsValid w
      → IsSound host (page_out_body host w store i s body)
  page_out_body-IsSound w store i s (resident text) h r v =
      page_out_span-IsSound w i s text (store_blob store text) h v
  page_out_body-IsSound w store i s (evicted _ _) h r v = absurd (ground arith)

  pub page_out_at-IsSound :
      (w : WorkingSet) (store : Store) (i : ℕ)
      → IsResidentAt w.spans i
      → IsValid w
      → IsSound host (page_out_at host w store i)
  unfolding page_out_at
  page_out_at-IsSound w store i (s, h, r) v =
      subst (λ entry. IsSound host (page_out_entry host w store i entry)) (sym h)
        (page_out_body-IsSound w store i s s.body h r v)

  pub and_then-IsSound :
      {A B : Type 0} (o : Outcome host A) (f : A → WorkingSet → Store → Outcome host B)
      → IsSound host o
      → ((a : A) (w : WorkingSet) (store : Store) → IsValid w → IsSound host (f a w store))
      → IsSound host (and_then host o f)
  unfolding and_then
  and_then-IsSound (err e, w, store) f (v, p) next = (v, p)
  and_then-IsSound (ok a, w, store) f (v, p) next = next a w store v

  enforce_round-IsSound :
      (next : WorkingSet → Store → List EvictedSpan → Outcome host (List EvictedSpan))
      (w : WorkingSet) (store : Store) (done : List EvictedSpan) (chosen : Option Victim)
      → choose_victim host 0 w.spans ≡ chosen
      → IsValid w
      → ((w' : WorkingSet) (store' : Store) (done' : List EvictedSpan)
          → IsValid w'
          → IsSound host (next w' store' done'))
      → IsSound host (enforce_round host next w store done chosen)
  enforce_round-IsSound next w store done none c v sound = (v, refl)
  enforce_round-IsSound next w store done (some victim) c v sound =
      let (i, at, there) = choose_victim-Found 0 w.spans victim c in
      let found : IsResidentAt w.spans victim.index =
        subst (IsResidentAt w.spans) (omega (arith, at)) there in
      and_then-IsSound (page_out_at host w store victim.index)
        (λ span w' store'. next w' store' (done ++ span ∷ []))
        (page_out_at-IsSound w store victim.index found v)
        (λ span w' store' v'. sound w' store' (done ++ span ∷ []) v')

  enforce_loop-IsSound :
      (fuel : ℕ) (w : WorkingSet) (store : Store) (done : List EvictedSpan)
      → IsValid w
      → IsSound host (enforce_loop host fuel w store done)
  unfolding enforce_loop
  enforce_loop-IsSound zero w store done v = (v, refl)
  enforce_loop-IsSound (suc fuel) w store done v =
      elim (Bool-cases (leb (used_tokens host w.spans) w.budget_tokens)) [
        | inl e ↦ rw e (v, refl)
        | inr e ↦ rw e (
            enforce_round-IsSound (enforce_loop host fuel) w store done
              (choose_victim host 0 w.spans) refl v
              (λ w' store' done' v'. enforce_loop-IsSound fuel w' store' done' v'))
      ]

  pub enforce_budget-IsSound :
      (w : WorkingSet) (store : Store) → IsValid w → IsSound host (enforce_budget host w store)
  unfolding enforce_budget
  enforce_budget-IsSound w store v = enforce_loop-IsSound (suc (length w.spans)) w store [] v

  -- Evicting any id leaves a valid working set valid, whatever the store answers, and does not panic.
  pub evict-IsSound :
      (w : WorkingSet) (store : Store) (id : ℕ) → IsValid w → IsSound host (evict host w store id)
  unfolding evict
  evict-IsSound w store id v = cases (resident_index id 0 w.spans) refl
    where
      cases :
          (index : Option ℕ)
          → resident_index id 0 w.spans ≡ index
          → IsSound host (evict_at host w store index)
      cases none e = (v, refl)
      cases (some victim) e =
          let (i, at, there) = resident_index-Found id 0 w.spans victim e in
          let found : IsResidentAt w.spans victim =
            subst (IsResidentAt w.spans) (omega (arith, at)) there in
          and_then-IsSound (page_out_at host w store victim)
            (λ span w' store'. (ok (some span), w', store'))
            (page_out_at-IsSound w store victim found v) (λ span w' store' v'. (v', refl))
