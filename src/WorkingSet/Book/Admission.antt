-- ===== src/WorkingSet/Book/Admission.antt =====
-- `admit`: where it succeeds, a valid set stays valid, and it never panics.
use tokenzero.Base.{
  ℕ, suc, ◌+◌, ◌≤◌, ◌<◌, ◌≡◌, refl, subst, true, false, ◌||◌, Option, none, some, List, [], ◌∷◌,
  Text, text_eq, arith, ◌==◌, ltb, get_elem?, Bool-cases, inl, inr, sat_add, max_u64, ok, err,
}
use tokenzero.WorkingSet.Delta.{delta_between, acknowledgement}
use tokenzero.WorkingSet.Host.{Host}
use tokenzero.WorkingSet.State.{
  SpanAnchor, anchor_eq, SpanBody, resident, evicted, ResidentSpan, WorkingSet, EvictedSpan,
  Admission, delta, push_resident,
}
use tokenzero.WorkingSet.Ops.{is_resident, Outcome, enforce_budget, remove_evicted_ref, and_then}
use tokenzero.WorkingSet.Admit.{
  anchored, remove_at, hit, patched, admitted, admit_new, readmit_body, readmit, admit_delta,
  admit_existing, admit_at, admit,
}
use tokenzero.WorkingSet.Book.{IsValid, panics, IsSound}
use tokenzero.WorkingSet.Book.Steps.{Book-set}
use tokenzero.WorkingSet.Book.Links.{Book-remove_resident, Book-remove_evicted}
use tokenzero.WorkingSet.Book.Growth.{BodyOwned-resident}
use tokenzero.WorkingSet.Book.Budget.{enforce_budget-IsSound}
use tokenzero.WorkingSet.Book.Paging.{push_resident-IsValid, sat_add_le}

anchored-found :
    (anchor : SpanAnchor) (k : ℕ) (spans : List ResidentSpan) (i : ℕ) (s : ResidentSpan)
    → anchored anchor k spans ≡ some (i, s)
    → (j : ℕ) × (i ≡ j + k) × (get_elem? spans j ≡ some s)
unfolding anchored
anchored-found anchor k [] i s h = absurd (ground arith)
anchored-found anchor k (t ∷ spans) i s h = elim (Bool-cases (anchor_eq t.anchor anchor)) [
  | inl e ↦ (0, ground arith, ground arith)
  | inr e ↦
      let (j, at, found) = anchored-found anchor (suc k) spans i s (rw e at h) in
      (suc j, omega (arith, at), found)
]

module _ (host : Host) where
  open host use {Store, StoreError, count_tokens}

  -- An admission did not panic, and where it succeeded it left a valid working set.
  abbrev pub IsAdmitted : Outcome host Admission → Type 0
  IsAdmitted (err e, w, store) = panics e ≡ false
  IsAdmitted (ok admission, w, store) = IsValid w

  admitted-IsAdmitted :
      (id : ℕ) (o : Outcome host (List EvictedSpan))
      → IsSound host o
      → IsAdmitted (admitted host id o)
  admitted-IsAdmitted id (err e, w, store) (v, p) = p
  admitted-IsAdmitted id (ok gone, w, store) (v, p) = v

  admit_new-IsAdmitted :
      (w : WorkingSet) (store : Store) (text : Text) (anchor : SpanAnchor)
      → w.sequence < max_u64
      → IsValid w
      → IsAdmitted (admit_new host w store text anchor)
  unfolding admit_new
  admit_new-IsAdmitted w store text anchor h v =
      let pushed = push_resident w text anchor in
      admitted-IsAdmitted pushed.0 (enforce_budget host pushed.1 store)
        (enforce_budget-IsSound host pushed.1 store (push_resident-IsValid host w text anchor h v))

  readmit_body-IsAdmitted :
      (w : WorkingSet) (store : Store) (text : Text) (anchor : SpanAnchor) (i : ℕ)
      (s : ResidentSpan) (body : SpanBody)
      → s.body ≡ body
      → get_elem? w.spans i ≡ some s
      → w.sequence < max_u64
      → IsValid w
      → IsAdmitted
          (readmit_body host (record w { spans = remove_at w.spans i }) store text anchor s.id body)
  unfolding readmit_body remove_evicted_ref
  readmit_body-IsAdmitted w store text anchor i s (resident _) e g h v =
      admit_new-IsAdmitted (record w { spans = remove_at w.spans i }) store text anchor h
        (Book-remove_resident w.sequence w.spans w.evicted_refs i s g (rw e) v)
  readmit_body-IsAdmitted w store text anchor i s (evicted _ _) e g h v =
      let gone = remove_evicted_ref host (record w { spans = remove_at w.spans i }) store s.id in
      admit_new-IsAdmitted gone.0 gone.1 text anchor h
        (Book-remove_evicted w.sequence w.spans w.evicted_refs i s g v)

  delta_done : ResidentSpan → Text → Text → Outcome host (List EvictedSpan) → Outcome host Admission
  delta_done span previous text o = and_then host o (λ gone w' store'. (
    ok (record {
      id = span.id;
      replacement = none;
      evicted = gone;
      response =
          delta (acknowledgement (delta_between previous text)) (delta_between previous text);
    }),
    w',
    store',
  ))

  delta_done-IsAdmitted :
      (span : ResidentSpan) (previous text : Text) (o : Outcome host (List EvictedSpan))
      → IsSound host o
      → IsAdmitted (delta_done span previous text o)
  unfolding delta_done and_then
  delta_done-IsAdmitted span previous text (err e, w, store) (v, p) = p
  delta_done-IsAdmitted span previous text (ok gone, w, store) (v, p) = v

  admit_existing-IsAdmitted :
      (w : WorkingSet) (store : Store) (text : Text) (anchor : SpanAnchor) (i : ℕ)
      (s : ResidentSpan) (body : SpanBody)
      → s.body ≡ body
      → get_elem? w.spans i ≡ some s
      → w.sequence < max_u64
      → IsValid w
      → IsAdmitted (admit_existing host w store text anchor i s body)
  unfolding admit_existing readmit admit_delta hit patched delta_done
  admit_existing-IsAdmitted w store text anchor i s (evicted ref replacement) e g h v =
      readmit_body-IsAdmitted w store text anchor i s s.body refl g h v
  admit_existing-IsAdmitted w store text anchor i s (resident previous) e g h v =
      let le : w.sequence ≤ sat_add w.sequence 1 = sat_add_le w.sequence (omega (arith, h)) in
      let r : is_resident s.body ≡ true = rw e refl in
      let ack = acknowledgement (delta_between previous text) in
      elim (Bool-cases (text_eq previous text)) [
        | inl same ↦ rw same (
            Book-set w.sequence (sat_add w.sequence 1) w.spans w.evicted_refs i s
              (record s { last_touched = sat_add w.sequence 1 }) le g r refl
              (BodyOwned-resident w.evicted_refs s.id s.body r) v)
        | inr other ↦ rw other (elim (Bool-cases (ltb (count_tokens ack) (count_tokens text))) [
          | inl less ↦ rw less (
              delta_done-IsAdmitted s previous text
                (enforce_budget host (patched host w i s text ack) store)
                (enforce_budget-IsSound host (patched host w i s text ack) store (
                  Book-set w.sequence (sat_add w.sequence 1) w.spans w.evicted_refs i s
                    (record s { last_touched = sat_add w.sequence 1; body = resident text }) le g r
                    refl tt v)))
          | inr more ↦ rw more (readmit_body-IsAdmitted w store text anchor i s s.body refl g h v)
        ])
      ]

  -- Admitting any text under any anchor does not panic, and leaves a valid working set valid where
  -- it succeeds, while fewer than 2^64 - 1 ids were issued.
  pub admit-IsAdmitted :
      (w : WorkingSet) (store : Store) (text : Text) (anchor : SpanAnchor)
      → w.sequence < max_u64
      → IsValid w
      → IsAdmitted (admit host w store text anchor)
  unfolding admit
  admit-IsAdmitted w store text anchor h v =
      elim (Bool-cases (anchor.start_line == 0 || ltb anchor.end_line anchor.start_line)) [
        | inl bad ↦ rw bad refl
        | inr good ↦ rw good (at (anchored anchor 0 w.spans) refl)
      ]
    where
      at :
          (o : Option (ℕ × ResidentSpan))
          → anchored anchor 0 w.spans ≡ o
          → IsAdmitted (admit_at host w store text anchor o)
      at none e = admit_new-IsAdmitted w store text anchor h v
      at (some (i, s)) e =
          let (j, same, found) = anchored-found anchor 0 w.spans i s e in
          admit_existing-IsAdmitted w store text anchor i s s.body refl
            (subst (λ n. get_elem? w.spans n ≡ some s) (omega (arith, same)) found) h v
