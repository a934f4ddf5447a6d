-- ===== src/WorkingSet/Book/Steps.antt =====
-- Paging a span out and replacing it keep the books.
use tokenzero.Base.{
  All-map, ℕ, ◌≤◌, ◌≡◌, ◌≢◌, refl, sym, ◌∙◌, subst, true, false, some, List, Text, arith, ◌==◌, All,
  get_elem?, set, Bool-cases, inl, inr,
}
use tokenzero.WorkingSet.State.{SpanBody, resident, evicted, ResidentSpan, EvictedRefs, find_span}
use tokenzero.WorkingSet.Ops.{is_resident}
use tokenzero.WorkingSet.Refs.{push_ref}
use tokenzero.WorkingSet.Book.{ids, Distinct, IsEvictedId, owns, BodyOwned, Owned, Book}
use tokenzero.WorkingSet.Book.Index.{owns-push_ref, owns-push_ref_new, AllIds-push_ref}
use tokenzero.WorkingSet.Book.Spans.{All-set, ids-set, find_span-set, find_span_at}

-- An evicted body is owned when the index says so.
pub BodyOwned-mono :
    (refs refs' : EvictedRefs) (id : ℕ) (body : SpanBody)
    → ((key : Text) → owns refs key id ≡ true → owns refs' key id ≡ true)
    → BodyOwned refs id body
    → BodyOwned refs' id body
BodyOwned-mono refs refs' id (resident _) keeps o = tt
BodyOwned-mono refs refs' id (evicted ref _) keeps o = keeps ref o

pub Owned-push_ref :
    (refs : EvictedRefs) (key : Text) (id : ℕ) (s : ResidentSpan)
    → Owned refs s
    → Owned (push_ref key id refs) s
Owned-push_ref refs key id s =
    BodyOwned-mono refs (push_ref key id refs) s.id s.body
      (λ k o. owns-push_ref refs key k id s.id o)

-- An evicted id stays one where its span is put in place of an evicted one, or is left alone.
pub IsEvictedId-set :
    (spans : List ResidentSpan) (i : ℕ) (s s' : ResidentSpan) (j : ℕ)
    → Distinct (ids spans)
    → get_elem? spans i ≡ some s
    → s'.id ≡ s.id
    → is_resident s'.body ≡ false
    → IsEvictedId spans j
    → IsEvictedId (set spans i s') j
IsEvictedId-set spans i s s' j d h e out (t, found, gone) = elim (Bool-cases (s.id == j)) [
  | inl same ↦ (s', find_span-set spans i s s' j d h e ∙ rw same, out)
  | inr other ↦ (t, find_span-set spans i s s' j d h e ∙ rw other found, gone)
]

pub AllIds-map :
    (P Q : ℕ → Type 0) (refs : EvictedRefs)
    → ((j : ℕ) → P j → Q j)
    → All (λ entry. All P entry.1) refs
    → All (λ entry. All Q entry.1) refs
AllIds-map P Q refs f a =
    All-map (λ entry. All P entry.1) (λ entry. All Q entry.1) refs
      (λ entry p. All-map P Q entry.1 f p) a

-- A resident span is paged out under a ref.
pub Book-page_out :
    (sequence : ℕ) (spans : List ResidentSpan) (refs : EvictedRefs) (i : ℕ) (s : ResidentSpan)
    (ref text : Text)
    → get_elem? spans i ≡ some s
    → Book sequence spans refs
    → Book sequence (set spans i (record s { body = evicted ref text })) (push_ref ref s.id refs)
Book-page_out sequence spans refs i s ref text h b =
    let s' : ResidentSpan = record s { body = evicted ref text } in
    let same : ids (set spans i s') ≡ ids spans = ids-set spans i s s' h refl in
    let old : All (λ entry. All (IsEvictedId (set spans i s')) entry.1) refs =
      AllIds-map (IsEvictedId spans) (IsEvictedId (set spans i s')) refs
        (λ j p. IsEvictedId-set spans i s s' j b.distinct h refl refl p) b.pointing in
    record {
      distinct = rw same b.distinct;
      issued = rw same b.issued;
      pointing =
          AllIds-push_ref (IsEvictedId (set spans i s')) refs ref s.id old
            (s', find_span-set spans i s s' s.id b.distinct h refl ∙ ground arith, refl);
      owned =
          All-set (Owned (push_ref ref s.id refs)) spans i s'
            (All-map (Owned refs) (Owned (push_ref ref s.id refs)) spans
              (λ t o. Owned-push_ref refs ref s.id t o) b.owned)
            (owns-push_ref_new refs ref s.id);
    }

-- No ref points at a resident span.
pub resident_ne :
    (spans : List ResidentSpan) (i : ℕ) (s : ResidentSpan) (j : ℕ)
    → Distinct (ids spans)
    → get_elem? spans i ≡ some s
    → is_resident s.body ≡ true
    → IsEvictedId spans j
    → j ≢ s.id
resident_ne spans i s j d h r (t, found, gone) e =
    let other : find_span j spans ≡ some s =
      subst (λ n. find_span n spans ≡ some s) (sym e) (find_span_at spans i s d h) in
    let same : s ≡ t = ground (arith, sym other ∙ found) in
    let clash : true ≡ false = sym r ∙ subst (λ u. is_resident u.body ≡ false) (sym same) gone in
    ground arith

-- A resident span is replaced by a resident one of the same id.
pub Book-set :
    (sequence sequence' : ℕ) (spans : List ResidentSpan) (refs : EvictedRefs) (i : ℕ)
    (s s' : ResidentSpan)
    → sequence ≤ sequence'
    → get_elem? spans i ≡ some s
    → is_resident s.body ≡ true
    → s'.id ≡ s.id
    → Owned refs s'
    → Book sequence spans refs
    → Book sequence' (set spans i s') refs
Book-set sequence sequence' spans refs i s s' le h r e o b =
    let same : ids (set spans i s') ≡ ids spans = ids-set spans i s s' h e in
    let P : ℕ → Type 0 = IsEvictedId spans in
    record {
      distinct = rw same b.distinct;
      issued = rw same (
          All-map (λ id. id ≤ sequence) (λ id. id ≤ sequence') (ids spans)
            (λ id p. omega (arith, p)) b.issued);
      pointing =
          AllIds-map (IsEvictedId spans) (IsEvictedId (set spans i s')) refs
            (λ j p.
              let other : j ≢ s.id = resident_ne spans i s j b.distinct h r p in
              (p.0, find_span-set spans i s s' j b.distinct h e ∙ ground (arith, p.1), p.2))
            b.pointing;
      owned = All-set (Owned refs) spans i s' b.owned o;
    }
