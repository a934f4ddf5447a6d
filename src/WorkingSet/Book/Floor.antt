-- ===== src/WorkingSet/Book/Floor.antt =====
-- What a budget that was enforced leaves: the loop has fuel enough to end by its own tests.
use tokenzero.Base.{
  ℕ, zero, suc, ◌+◌, ◌≤◌, ◌<◌, ◌≡◌, ◌⊎◌, refl, sym, subst, true, false, Option, none, some, List,
  [], ◌∷◌, ◌++◌, length, Text, All, set, arith, leb, if◌then◌else◌, get_elem?, Bool-cases, inl, inr,
  Result, ok, err,
}
use tokenzero.WorkingSet.Host.{Host}
use tokenzero.WorkingSet.State.{
  SpanAnchor, SpanBody, resident, evicted, ResidentSpan, WorkingSet, EvictedSpan,
}
use tokenzero.WorkingSet.Ops.{
  is_resident, Victim, better, Outcome, and_then, paged_out, page_out_span, page_out_at,
  page_out_body, page_out_entry, as_victim, choose_victim, floor_tokens, enforce_round,
  enforce_loop, enforce_budget, used_tokens,
}
use tokenzero.WorkingSet.Book.Budget.{IsResidentAt, choose_victim-Found}

-- The resident spans.
residents : List ResidentSpan → ℕ
residents [] = 0
residents (s ∷ spans) = (if is_resident s.body then 1 else 0) + residents spans

residents-length : (spans : List ResidentSpan) → residents spans ≤ length spans
unfolding residents
residents-length [] = omega arith
residents-length (s ∷ spans) = ground (arith, residents-length spans)

residents-set :
    (spans : List ResidentSpan) (i : ℕ) (s s' : ResidentSpan)
    → get_elem? spans i ≡ some s
    → is_resident s.body ≡ true
    → is_resident s'.body ≡ false
    → suc (residents (set spans i s')) ≡ residents spans
unfolding residents
residents-set [] i s s' h r e = absurd (ground arith)
residents-set (t ∷ spans) zero s s' h r e = ground arith
residents-set (t ∷ spans) (suc i) s s' h r e = ground (arith, residents-set spans i s s' h r e)

module _ (host : Host) where
  open host use {Store, StoreError, count_tokens, store_blob}

  -- A body that has at most the tokens of the ref line for its anchor with a ref of 64 zeros.
  abbrev BodyAtFloor : SpanAnchor → SpanBody → Type 0
  BodyAtFloor anchor (resident text) = count_tokens text ≤ floor_tokens host anchor
  BodyAtFloor anchor (evicted _ _) = Unit {0}

  abbrev pub IsAtFloor : ResidentSpan → Type 0
  IsAtFloor s = BodyAtFloor s.anchor s.body

  as_victim-BodyAtFloor :
      (k : ℕ) (s : ResidentSpan) (body : SpanBody)
      → as_victim host k s body ≡ none
      → BodyAtFloor s.anchor body
  as_victim-BodyAtFloor k s (resident text) h = ground arith
  as_victim-BodyAtFloor k s (evicted _ _) h = tt

  better-none : (a b : Option Victim) → better a b ≡ none → (a ≡ none) × (b ≡ none)
  better-none none b h = (refl, h)
  better-none (some a) none h = absurd (ground arith)
  better-none (some a) (some b) h = absurd (ground arith)

  choose_victim-IsAtFloor :
      (k : ℕ) (spans : List ResidentSpan) → choose_victim host k spans ≡ none → All IsAtFloor spans
  unfolding choose_victim
  choose_victim-IsAtFloor k [] h = tt
  choose_victim-IsAtFloor k (s ∷ spans) h =
      let both = better-none (as_victim host k s s.body) (choose_victim host (suc k) spans) h in
      (as_victim-BodyAtFloor k s s.body both.0, choose_victim-IsAtFloor (suc k) spans both.1)

  -- The budget is kept, or every resident span is at the floor of its anchor.
  abbrev pub IsMet : WorkingSet → Type 0
  IsMet w = (used_tokens host w.spans ≤ w.budget_tokens) ⊎ All IsAtFloor w.spans

  -- What is said of the working set that a success leaves.
  abbrev AfterOk : {A : Type 0} → (WorkingSet → Type 0) → Outcome host A → Type 0
  AfterOk P (err e, w, store) = Unit {0}
  AfterOk P (ok a, w, store) = P w

  and_then-AfterOk :
      {A B : Type 0} (P Q : WorkingSet → Type 0) (o : Outcome host A)
      (f : A → WorkingSet → Store → Outcome host B)
      → AfterOk P o
      → ((a : A) (w : WorkingSet) (store : Store) → P w → AfterOk Q (f a w store))
      → AfterOk Q (and_then host o f)
  unfolding and_then
  and_then-AfterOk P Q (err e, w, store) f p next = tt
  and_then-AfterOk P Q (ok a, w, store) f p next = next a w store p

  page_out_body-residents :
      (w : WorkingSet) (store : Store) (i : ℕ) (s : ResidentSpan) (body : SpanBody)
      → get_elem? w.spans i ≡ some s
      → is_resident s.body ≡ true
      → AfterOk
          (λ w'. suc (residents w'.spans) ≡ residents w.spans)
          (page_out_body host w store i s body)
  unfolding page_out_span paged_out
  page_out_body-residents w store i s (evicted _ _) h r = tt
  page_out_body-residents w store i s (resident text) h r = stored (store_blob store text)
    where
      stored :
          (answer : Result StoreError Text × Store)
          → AfterOk
              (λ w'. suc (residents w'.spans) ≡ residents w.spans)
              (page_out_span host w i s text answer)
      stored (err e, store') = tt
      stored (ok ref, store') = residents-set w.spans i s _ h r refl

  page_out_at-residents :
      (w : WorkingSet) (store : Store) (i : ℕ)
      → IsResidentAt w.spans i
      → AfterOk (λ w'. suc (residents w'.spans) ≡ residents w.spans) (page_out_at host w store i)
  unfolding page_out_at
  page_out_at-residents w store i (s, h, r) =
      subst
        (λ entry.
          AfterOk (λ w'. suc (residents w'.spans) ≡ residents w.spans)
            (page_out_entry host w store i entry))
        (sym h) (page_out_body-residents w store i s s.body h r)

  enforce_round-IsMet :
      (next : WorkingSet → Store → List EvictedSpan → Outcome host (List EvictedSpan))
      (w : WorkingSet) (store : Store) (done : List EvictedSpan) (chosen : Option Victim)
      → choose_victim host 0 w.spans ≡ chosen
      → ((w' : WorkingSet) (store' : Store) (done' : List EvictedSpan)
          → suc (residents w'.spans) ≡ residents w.spans
          → AfterOk IsMet (next w' store' done'))
      → AfterOk IsMet (enforce_round host next w store done chosen)
  enforce_round-IsMet next w store done none c met = inr (choose_victim-IsAtFloor 0 w.spans c)
  enforce_round-IsMet next w store done (some victim) c met =
      let (i, at, there) = choose_victim-Found host 0 w.spans victim c in
      let found : IsResidentAt w.spans victim.index =
        subst (IsResidentAt w.spans) (omega (arith, at)) there in
      and_then-AfterOk (λ w'. suc (residents w'.spans) ≡ residents w.spans) IsMet
        (page_out_at host w store victim.index)
        (λ span w' store'. next w' store' (done ++ span ∷ []))
        (page_out_at-residents w store victim.index found)
        (λ span w' store' fewer. met w' store' (done ++ span ∷ []) fewer)

  enforce_loop-IsMet :
      (fuel : ℕ) (w : WorkingSet) (store : Store) (done : List EvictedSpan)
      → residents w.spans < fuel
      → AfterOk IsMet (enforce_loop host fuel w store done)
  unfolding enforce_loop
  enforce_loop-IsMet zero w store done h = absurd (omega (arith, h))
  enforce_loop-IsMet (suc fuel) w store done h =
      elim (Bool-cases (leb (used_tokens host w.spans) w.budget_tokens)) [
        | inl e ↦ rw e (inl (ground arith))
        | inr e ↦ rw e (
            enforce_round-IsMet (enforce_loop host fuel) w store done (choose_victim host 0 w.spans)
              refl
              (λ w' store' done' fewer.
                enforce_loop-IsMet fuel w' store' done' (omega (arith, h, fewer))))
      ]

  -- A budget that was enforced without an error is kept, or every resident span has at most the
  -- tokens of a ref line for its anchor with the ref `tz://blob/` and 64 zeros.
  pub enforce_budget-IsMet :
      (w w' : WorkingSet) (store store' : Store) (done : List EvictedSpan)
      → enforce_budget host w store ≡ (ok done, w', store')
      → IsMet w'
  unfolding enforce_budget
  enforce_budget-IsMet w w' store store' done h = subst (AfterOk IsMet) h (
      enforce_loop-IsMet (suc (length w.spans)) w store []
        (omega (arith, residents-length w.spans)))
