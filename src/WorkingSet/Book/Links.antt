-- ===== src/WorkingSet/Book/Links.antt =====
-- Removing a span, linking an alias and touching a span keep the books.
use tokenzero.Base.{
  All-map, ℕ, ◌≤◌, ◌≡◌, ◌≢◌, refl, ◌∙◌, true, some, List, [], ◌∷◌, Text, arith, ◌==◌, All,
  get_elem?, Bool-cases, inl, inr,
}
use tokenzero.WorkingSet.State.{ResidentSpan, EvictedRefs, update_span}
use tokenzero.WorkingSet.Ops.{is_resident}
use tokenzero.WorkingSet.Refs.{get_ref, drop_id, push_missing}
use tokenzero.WorkingSet.Admit.{remove_at}
use tokenzero.WorkingSet.Book.{ids, IsEvictedId, Owned, Book}
use tokenzero.WorkingSet.Book.Index.{
  AllIds-drop_id, owns-push_missing, AllIds-push_missing, All-get_ref,
}
use tokenzero.WorkingSet.Book.Spans.{
  find_span-update_span, ids-update_span, find_span-remove_at, All-remove_at, All-ids-remove_at,
  Distinct-remove_at, All-ne-remove_at,
}
use tokenzero.WorkingSet.Book.Steps.{BodyOwned-mono, AllIds-map, resident_ne}
use tokenzero.WorkingSet.Book.Growth.{All-Owned-drop_id}

-- A span goes, and what the index names under its id with it.
pub Book-remove_resident :
    (sequence : ℕ) (spans : List ResidentSpan) (refs : EvictedRefs) (i : ℕ) (s : ResidentSpan)
    → get_elem? spans i ≡ some s
    → is_resident s.body ≡ true
    → Book sequence spans refs
    → Book sequence (remove_at spans i) refs
Book-remove_resident sequence spans refs i s h r b = record {
  distinct = Distinct-remove_at spans i b.distinct;
  issued = All-ids-remove_at (λ id. id ≤ sequence) spans i b.issued;
  pointing =
      AllIds-map (IsEvictedId spans) (IsEvictedId (remove_at spans i)) refs
        (λ j p.
          let other : j ≢ s.id = resident_ne spans i s j b.distinct h r p in
          (p.0, find_span-remove_at spans i s j h other ∙ p.1, p.2))
        b.pointing;
  owned = All-remove_at (Owned refs) spans i b.owned;
}

pub Book-remove_evicted :
    (sequence : ℕ) (spans : List ResidentSpan) (refs : EvictedRefs) (i : ℕ) (s : ResidentSpan)
    → get_elem? spans i ≡ some s
    → Book sequence spans refs
    → Book sequence (remove_at spans i) ((drop_id s.id refs).0)
Book-remove_evicted sequence spans refs i s h b = record {
  distinct = Distinct-remove_at spans i b.distinct;
  issued = All-ids-remove_at (λ id. id ≤ sequence) spans i b.issued;
  pointing =
      AllIds-map (λ j. IsEvictedId spans j × j ≢ s.id) (IsEvictedId (remove_at spans i))
        ((drop_id s.id refs).0)
        (λ j p. (p.0.0, find_span-remove_at spans i s j h p.1 ∙ p.0.1, p.0.2))
        (AllIds-drop_id (IsEvictedId spans) refs s.id b.pointing);
  owned =
      All-Owned-drop_id refs s.id (remove_at spans i) (All-ne-remove_at spans i s b.distinct h)
        (All-remove_at (Owned refs) spans i b.owned);
}

-- An alias is linked to the ids of a ref.
pub Book-link :
    (sequence : ℕ) (spans : List ResidentSpan) (refs : EvictedRefs) (source alias : Text)
    (found : List ℕ)
    → get_ref source refs ≡ some found
    → Book sequence spans refs
    → Book sequence spans (push_missing alias found refs)
Book-link sequence spans refs source alias found h b = record {
  distinct = b.distinct;
  issued = b.issued;
  pointing =
      AllIds-push_missing (IsEvictedId spans) found refs alias
        (All-get_ref (IsEvictedId spans) refs source found h b.pointing) b.pointing;
  owned =
      All-map (Owned refs) (Owned (push_missing alias found refs)) spans
        (λ s o.
          BodyOwned-mono refs (push_missing alias found refs) s.id s.body
            (λ k owned. owns-push_missing found refs alias k s.id owned) o)
        b.owned;
}

-- A span is touched.
pub Book-update :
    (sequence sequence' : ℕ) (spans : List ResidentSpan) (refs : EvictedRefs) (id : ℕ) (n : ℕ)
    → sequence ≤ sequence'
    → Book sequence spans refs
    → Book sequence' (update_span id (λ s. record s { last_touched = n }) spans) refs
unfolding update_span
Book-update sequence sequence' spans refs id n le b =
    let f : ResidentSpan → ResidentSpan = λ s. record s { last_touched = n } in
    let same : ids (update_span id f spans) ≡ ids spans = ids-update_span spans id f (λ s. refl) in
    record {
      distinct = rw same b.distinct;
      issued = rw same (
          All-map (λ i. i ≤ sequence) (λ i. i ≤ sequence') (ids spans) (λ i p. omega (arith, p))
            b.issued);
      pointing =
          AllIds-map (IsEvictedId spans) (IsEvictedId (update_span id f spans)) refs
            (λ j p. touched j p) b.pointing;
      owned = All-update_span spans b.owned;
    }
  where
    touched :
        (j : ℕ)
        → IsEvictedId spans j
        → IsEvictedId (update_span id (λ s. record s { last_touched = n }) spans) j
    touched j (t, found, gone) = elim (Bool-cases (id == j)) [
      | inl e ↦ (
        record t { last_touched = n },
        find_span-update_span spans id (λ s. record s { last_touched = n }) j (λ s. refl)
            ∙ ground (arith, e, found),
        gone,
      )
      | inr e ↦ (
        t,
        find_span-update_span spans id (λ s. record s { last_touched = n }) j (λ s. refl)
            ∙ ground (arith, e, found),
        gone,
      )
    ]

    All-update_span :
        (rest : List ResidentSpan)
        → All (Owned refs) rest
        → All (Owned refs) (update_span id (λ s. record s { last_touched = n }) rest)
    All-update_span [] a = tt
    All-update_span (t ∷ rest) (o, a) = elim (Bool-cases (t.id == id)) [
      | inl e ↦ rw e (o, a)
      | inr e ↦ rw e (o, All-update_span rest a)
    ]
