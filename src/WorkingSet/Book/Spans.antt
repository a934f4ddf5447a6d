-- ===== src/WorkingSet/Book/Spans.antt =====
-- Finding, replacing, removing and appending spans with unique ids.
use tokenzero.Base.{
  ℕ, zero, suc, ◌≡◌, ◌≢◌, refl, sym, ap, subst, Option, none, some, List, [], ◌∷◌, ◌++◌, arith,
  ◌==◌, if◌then◌else◌, All, get_elem?, set, Bool-cases, inl, inr,
}
use tokenzero.WorkingSet.State.{ResidentSpan, find_span, update_span}
use tokenzero.WorkingSet.Admit.{remove_at}
use tokenzero.WorkingSet.Book.{ids, Distinct}

module _ {ℓ κ} {A : Type ℓ} (P : A → Type κ) where
  pub All-at : (xs : List A) (i : ℕ) (x : A) → get_elem? xs i ≡ some x → All P xs → P x
  All-at [] i x h a = absurd (cc)
  All-at (y ∷ xs) zero x h (p, a) = let same : y ≡ x = ground arith in subst P same p
  All-at (y ∷ xs) (suc i) x h (p, a) = All-at xs i x h a

  pub All-set : (xs : List A) (i : ℕ) (y : A) → All P xs → P y → All P (set xs i y)
  All-set [] i y a p = tt
  All-set (x ∷ xs) zero y (q, a) p = (p, a)
  All-set (x ∷ xs) (suc i) y (q, a) p = (q, All-set xs i y a p)

  pub All-append : (xs ys : List A) → All P xs → All P ys → All P (xs ++ ys)
  All-append [] ys a b = b
  All-append (x ∷ xs) ys (p, a) b = (p, All-append xs ys a b)

-- Replacing a span by one with the same id.
pub ids-set :
    (spans : List ResidentSpan) (i : ℕ) (s s' : ResidentSpan)
    → get_elem? spans i ≡ some s
    → s'.id ≡ s.id
    → ids (set spans i s') ≡ ids spans
ids-set [] i s s' h e = refl
ids-set (t ∷ spans) zero s s' h e = ground arith
ids-set (t ∷ spans) (suc i) s s' h e = ap (◌∷◌ t.id) (ids-set spans i s s' h e)

pub id_among :
    (spans : List ResidentSpan) (i : ℕ) (s : ResidentSpan) (n : ℕ)
    → get_elem? spans i ≡ some s
    → All (λ j. j ≢ n) (ids spans)
    → s.id ≢ n
id_among [] i s n h a = cc
id_among (t ∷ spans) zero s n h (p, a) = ground arith
id_among (t ∷ spans) (suc i) s n h (p, a) = id_among spans i s n h a

pub find_span-set :
    (spans : List ResidentSpan) (i : ℕ) (s s' : ResidentSpan) (j : ℕ)
    → Distinct (ids spans)
    → get_elem? spans i ≡ some s
    → s'.id ≡ s.id
    → find_span j (set spans i s') ≡ (if s.id == j then some s' else find_span j spans)
unfolding find_span
find_span-set [] i s s' j d h e = cc
find_span-set (t ∷ spans) zero s s' j (d, ds) h e = ground arith
find_span-set (t ∷ spans) (suc i) s s' j (d, ds) h e =
    ground (arith, find_span-set spans i s s' j ds h e, id_among spans i s t.id h d)

abbrev pub option_map : (ResidentSpan → ResidentSpan) → Option ResidentSpan → Option ResidentSpan
option_map f none = none
option_map f (some s) = some (f s)

pub find_span-update_span :
    (spans : List ResidentSpan) (id : ℕ) (f : ResidentSpan → ResidentSpan) (j : ℕ)
    → ((s : ResidentSpan) → (f s).id ≡ s.id)
    → find_span j (update_span id f spans)
      ≡ (if id == j then option_map f (find_span j spans) else find_span j spans)
unfolding find_span update_span
find_span-update_span [] id f j keeps = ground arith
find_span-update_span (t ∷ spans) id f j keeps =
    ground (arith, keeps t, find_span-update_span spans id f j keeps)

pub ids-update_span :
    (spans : List ResidentSpan) (id : ℕ) (f : ResidentSpan → ResidentSpan)
    → ((s : ResidentSpan) → (f s).id ≡ s.id)
    → ids (update_span id f spans) ≡ ids spans
unfolding update_span
ids-update_span [] id f keeps = refl
ids-update_span (t ∷ spans) id f keeps = ground (arith, keeps t, ids-update_span spans id f keeps)

-- A found span has the id, and is one of the spans.
pub find_span-id :
    (spans : List ResidentSpan) (id : ℕ) (s : ResidentSpan)
    → find_span id spans ≡ some s
    → s.id ≡ id
unfolding find_span
find_span-id [] id s h = cc
find_span-id (t ∷ spans) id s h = ground (arith, find_span-id spans id s)

pub find_span-All {κ} :
    (P : ResidentSpan → Type κ) (spans : List ResidentSpan) (id : ℕ) (s : ResidentSpan)
    → find_span id spans ≡ some s
    → All P spans
    → P s
unfolding find_span
find_span-All P [] id s h a = absurd (cc)
find_span-All P (t ∷ spans) id s h (p, a) = elim (Bool-cases (t.id == id)) [
  | inl e ↦ let same : t ≡ s = ground arith in subst P same p
  | inr e ↦ find_span-All P spans id s (rw e at h) a
]

-- Behind the spans stands a new one.
pub find_span-append :
    (spans : List ResidentSpan) (s : ResidentSpan) (j : ℕ)
    → j ≢ s.id
    → find_span j (spans ++ s ∷ []) ≡ find_span j spans
unfolding find_span
find_span-append [] s j h = ground arith
find_span-append (t ∷ spans) s j h = ground (arith, find_span-append spans s j h)

pub find_span-none :
    (spans : List ResidentSpan) (j : ℕ) → All (λ id. id ≢ j) (ids spans) → find_span j spans ≡ none
unfolding find_span
find_span-none [] j a = refl
find_span-none (t ∷ spans) j (p, a) = ground (arith, find_span-none spans j a)

-- Without the span at an index every other id is found as before.
pub find_span-remove_at :
    (spans : List ResidentSpan) (i : ℕ) (s : ResidentSpan) (j : ℕ)
    → get_elem? spans i ≡ some s
    → j ≢ s.id
    → find_span j (remove_at spans i) ≡ find_span j spans
unfolding find_span remove_at
find_span-remove_at [] i s j h n = refl
find_span-remove_at (t ∷ spans) zero s j h n = ground arith
find_span-remove_at (t ∷ spans) (suc i) s j h n =
    ground (arith, find_span-remove_at spans i s j h n)

pub All-remove_at {κ} :
    (P : ResidentSpan → Type κ) (spans : List ResidentSpan) (i : ℕ)
    → All P spans
    → All P (remove_at spans i)
unfolding remove_at
All-remove_at P [] i a = tt
All-remove_at P (t ∷ spans) zero (p, a) = a
All-remove_at P (t ∷ spans) (suc i) (p, a) = (p, All-remove_at P spans i a)

pub All-ids-remove_at {κ} :
    (P : ℕ → Type κ) (spans : List ResidentSpan) (i : ℕ)
    → All P (ids spans)
    → All P (ids (remove_at spans i))
unfolding remove_at
All-ids-remove_at P [] i a = tt
All-ids-remove_at P (t ∷ spans) zero (p, a) = a
All-ids-remove_at P (t ∷ spans) (suc i) (p, a) = (p, All-ids-remove_at P spans i a)

pub Distinct-remove_at :
    (spans : List ResidentSpan) (i : ℕ) → Distinct (ids spans) → Distinct (ids (remove_at spans i))
unfolding remove_at
Distinct-remove_at [] i d = tt
Distinct-remove_at (t ∷ spans) zero (p, d) = d
Distinct-remove_at (t ∷ spans) (suc i) (p, d) =
    (All-ids-remove_at (λ j. j ≢ t.id) spans i p, Distinct-remove_at spans i d)

pub All-of-ids {κ} :
    (P : ℕ → Type κ) (spans : List ResidentSpan) → All P (ids spans) → All (λ t. P t.id) spans
All-of-ids P [] a = tt
All-of-ids P (t ∷ spans) (p, a) = (p, All-of-ids P spans a)

pub All-ids-append {κ} :
    (P : ℕ → Type κ) (spans : List ResidentSpan) (s : ResidentSpan)
    → All P (ids spans)
    → P s.id
    → All P (ids (spans ++ s ∷ []))
All-ids-append P [] s a p = (p, tt)
All-ids-append P (t ∷ spans) s (q, a) p = (q, All-ids-append P spans s a p)

pub Distinct-append :
    (spans : List ResidentSpan) (s : ResidentSpan)
    → All (λ id. id ≢ s.id) (ids spans)
    → Distinct (ids spans)
    → Distinct (ids (spans ++ s ∷ []))
Distinct-append [] s a d = (tt, tt)
Distinct-append (t ∷ spans) s (p, a) (q, d) =
    (All-ids-append (λ id. id ≢ t.id) spans s q (λ e. p (sym e)), Distinct-append spans s a d)

-- What the removed span was has no id in common with the rest.
pub All-ne-remove_at :
    (spans : List ResidentSpan) (i : ℕ) (s : ResidentSpan)
    → Distinct (ids spans)
    → get_elem? spans i ≡ some s
    → All (λ t. t.id ≢ s.id) (remove_at spans i)
unfolding remove_at
All-ne-remove_at [] i s d h = tt
All-ne-remove_at (t ∷ spans) zero s (p, d) h =
    let same : t ≡ s = ground arith in
    All-of-ids (λ j. j ≢ s.id) spans (subst (λ u. All (λ j. j ≢ u.id) (ids spans)) same p)
All-ne-remove_at (t ∷ spans) (suc i) s (p, d) h =
    (λ e. id_among spans i s t.id h p (sym e), All-ne-remove_at spans i s d h)

pub find_span_at :
    (spans : List ResidentSpan) (i : ℕ) (s : ResidentSpan)
    → Distinct (ids spans)
    → get_elem? spans i ≡ some s
    → find_span s.id spans ≡ some s
unfolding find_span
find_span_at [] i s d h = cc
find_span_at (t ∷ spans) zero s (p, d) h = ground arith
find_span_at (t ∷ spans) (suc i) s (p, d) h =
    ground (arith, find_span_at spans i s d h, id_among spans i s t.id h p)
