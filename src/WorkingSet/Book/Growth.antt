-- ===== src/WorkingSet/Book/Growth.antt =====
-- A new span, and a span that becomes resident again, keep the books.
use tokenzero.Base.{
  All-map, ℕ, suc, ◌≤◌, ◌≡◌, ◌≢◌, ◌∙◌, subst, true, List, [], ◌∷◌, ◌++◌, arith, ◌==◌, All,
  Bool-cases, inl, inr,
}
use tokenzero.WorkingSet.State.{SpanBody, resident, evicted, ResidentSpan, EvictedRefs, update_span}
use tokenzero.WorkingSet.Ops.{is_resident}
use tokenzero.WorkingSet.Refs.{drop_id}
use tokenzero.WorkingSet.Book.{ids, Distinct, IsEvictedId, BodyOwned, Owned, Book}
use tokenzero.WorkingSet.Book.Index.{owns-drop_id, AllIds-drop_id}
use tokenzero.WorkingSet.Book.Spans.{
  All-of-ids, All-ids-append, Distinct-append, All-append, find_span-update_span, ids-update_span,
  find_span-id, find_span-All, find_span-append,
}
use tokenzero.WorkingSet.Book.Steps.{BodyOwned-mono, AllIds-map}

pub IsEvictedId-issued :
    (sequence : ℕ) (spans : List ResidentSpan) (j : ℕ)
    → All (λ id. id ≤ sequence) (ids spans)
    → IsEvictedId spans j
    → j ≤ sequence
IsEvictedId-issued sequence spans j a (t, found, gone) =
    let old : t.id ≤ sequence =
      find_span-All (λ u. u.id ≤ sequence) spans j t found
        (All-of-ids (λ id. id ≤ sequence) spans a) in
    omega (arith, old, find_span-id spans j t found)

-- A new resident span comes last.
pub Book-push :
    (sequence : ℕ) (spans : List ResidentSpan) (refs : EvictedRefs) (s : ResidentSpan)
    → s.id ≡ suc sequence
    → Owned refs s
    → Book sequence spans refs
    → Book (suc sequence) (spans ++ s ∷ []) refs
Book-push sequence spans refs s e o b = record {
  distinct =
      Distinct-append spans s
        (All-map (λ id. id ≤ sequence) (λ id. id ≢ s.id) (ids spans) (λ id p. omega (arith, p, e))
          b.issued)
        b.distinct;
  issued =
      All-ids-append (λ id. id ≤ suc sequence) spans s
        (All-map (λ id. id ≤ sequence) (λ id. id ≤ suc sequence) (ids spans)
          (λ id p. omega (arith, p)) b.issued)
        (omega (arith, e));
  pointing =
      AllIds-map (IsEvictedId spans) (IsEvictedId (spans ++ s ∷ [])) refs
        (λ j p.
          let old : j ≤ sequence = IsEvictedId-issued sequence spans j b.issued p in
          (p.0, find_span-append spans s j (omega (arith, e, old)) ∙ p.1, p.2))
        b.pointing;
  owned = All-append (Owned refs) spans (s ∷ []) b.owned (o, tt);
}

pub Owned-drop_id :
    (refs : EvictedRefs) (id : ℕ) (s : ResidentSpan)
    → s.id ≢ id
    → Owned refs s
    → Owned ((drop_id id refs).0) s
Owned-drop_id refs id s n =
    BodyOwned-mono refs ((drop_id id refs).0) s.id s.body (λ k o. owns-drop_id refs k id s.id n o)

pub All-Owned-drop_id :
    (refs : EvictedRefs) (id : ℕ) (rest : List ResidentSpan)
    → All (λ t. t.id ≢ id) rest
    → All (Owned refs) rest
    → All (Owned ((drop_id id refs).0)) rest
All-Owned-drop_id refs id [] n a = tt
All-Owned-drop_id refs id (t ∷ rest) (n, ns) (o, a) =
    (Owned-drop_id refs id t n o, All-Owned-drop_id refs id rest ns a)

pub BodyOwned-resident :
    (refs : EvictedRefs) (id : ℕ) (body : SpanBody)
    → is_resident body ≡ true
    → BodyOwned refs id body
BodyOwned-resident refs id (resident _) r = tt
BodyOwned-resident refs id (evicted _ _) r = ground arith

pub Owned-restore :
    (spans : List ResidentSpan) (refs : EvictedRefs) (id : ℕ) (f : ResidentSpan → ResidentSpan)
    → ((s : ResidentSpan) → is_resident (f s).body ≡ true)
    → Distinct (ids spans)
    → All (Owned refs) spans
    → All (Owned ((drop_id id refs).0)) (update_span id f spans)
unfolding update_span
Owned-restore [] refs id f back d a = tt
Owned-restore (s ∷ spans) refs id f back (p, d) (o, a) = elim (Bool-cases (s.id == id)) [
  | inl e ↦ rw e (
    BodyOwned-resident ((drop_id id refs).0) (f s).id (f s).body (back s),
    All-Owned-drop_id refs id spans
        (subst (λ n. All (λ t. t.id ≢ n) spans) (ground arith) (All-of-ids (λ j. j ≢ s.id) spans p))
        a,
  )
  | inr e ↦ rw e (Owned-drop_id refs id s (ground arith) o, Owned-restore spans refs id f back d a)
]

-- The span with an id becomes resident again, and the index forgets the id.
pub Book-restore :
    (sequence sequence' : ℕ) (spans : List ResidentSpan) (refs : EvictedRefs) (id : ℕ)
    (f : ResidentSpan → ResidentSpan)
    → sequence ≤ sequence'
    → ((s : ResidentSpan) → (f s).id ≡ s.id)
    → ((s : ResidentSpan) → is_resident (f s).body ≡ true)
    → Book sequence spans refs
    → Book sequence' (update_span id f spans) ((drop_id id refs).0)
Book-restore sequence sequence' spans refs id f le keeps back b =
    let same : ids (update_span id f spans) ≡ ids spans = ids-update_span spans id f keeps in
    record {
      distinct = rw same b.distinct;
      issued = rw same (
          All-map (λ i. i ≤ sequence) (λ i. i ≤ sequence') (ids spans) (λ i p. omega (arith, p))
            b.issued);
      pointing =
          AllIds-map (λ j. IsEvictedId spans j × j ≢ id) (IsEvictedId (update_span id f spans))
            ((drop_id id refs).0)
            (λ j p.
              (p.0.0, find_span-update_span spans id f j keeps ∙ ground (arith, p.1, p.0.1), p.0.2))
            (AllIds-drop_id (IsEvictedId spans) refs id b.pointing);
      owned = Owned-restore spans refs id f back b.distinct b.owned;
    }
