-- ===== src/Representation/Frontier.antt =====
-- The frontier is the set of undominated records, and covers every record.
use tokenzero.Base.{
  ℕ, zero, suc, ◌+◌, ◌≤◌, ◌<◌, ◌≡◌, ◌⊎◌, refl, ◌∙◌, subst, Bool, true, false, not, ◌&&◌, ◌||◌, List,
  [], ◌∷◌, text_ltb, text_eq→≡, arith, ltb, any, filter, Bool-cases, inl, inr,
}
use tokenzero.Base.Sorting.{sort, insert_sorted}
use tokenzero.Representation.{
  RepresentationResources, dominates_or_equal, resources_eq, strictly_better_than,
  RepresentationRecord, beats, pareto_frontier,
}

abbrev pub Member : {A : Type 0} → A → List A → Type 0
Member x [] = ⊥
Member x (y ∷ ys) = (x ≡ y) ⊎ Member x ys

total : RepresentationResources → ℕ
total a =
    a.stored_bytes + a.wire_bytes + a.source_tokens + a.visible_tokens + a.expansion_work
    + a.verification_work + a.latency_micros + a.metadata_bytes

dominates_or_equal_refl : (a : RepresentationResources) → dominates_or_equal a a ≡ true
unfolding dominates_or_equal
dominates_or_equal_refl a = ground arith

dominates_or_equal_trans :
    (a b c : RepresentationResources)
    → dominates_or_equal a b ≡ true
    → dominates_or_equal b c ≡ true
    → dominates_or_equal a c ≡ true
unfolding dominates_or_equal
dominates_or_equal_trans a b c h k = ground (arith, h, k)

and_first : (p q : Bool) → (p && q) ≡ true → p ≡ true
and_first true q h = refl
and_first false q h = h

and_second : (p q : Bool) → (p && q) ≡ true → q ≡ true
and_second true q h = h
and_second false q h = absurd (ground arith)

strictly_better_than-dominates_or_equal :
    (a b : RepresentationResources)
    → strictly_better_than a b ≡ true
    → dominates_or_equal a b ≡ true
unfolding strictly_better_than
strictly_better_than-dominates_or_equal a b h =
    and_first (dominates_or_equal a b) (not (resources_eq a b)) h

-- Field by field.
IsBelow : RepresentationResources → RepresentationResources → Type 0
IsBelow a b =
    (a.stored_bytes ≤ b.stored_bytes)
    × (a.wire_bytes ≤ b.wire_bytes)
    × (a.source_tokens ≤ b.source_tokens)
    × (a.visible_tokens ≤ b.visible_tokens)
    × (a.expansion_work ≤ b.expansion_work)
    × (a.verification_work ≤ b.verification_work)
    × (a.latency_micros ≤ b.latency_micros)
    × (a.metadata_bytes ≤ b.metadata_bytes)

dominates_or_equal-IsBelow :
    (a b : RepresentationResources) → dominates_or_equal a b ≡ true → IsBelow a b
unfolding dominates_or_equal IsBelow
dominates_or_equal-IsBelow a b h = (
  ground (arith, h),
  ground (arith, h),
  ground (arith, h),
  ground (arith, h),
  ground (arith, h),
  ground (arith, h),
  ground (arith, h),
  ground (arith, h),
)

resources_eq-total :
    (a b : RepresentationResources) → IsBelow a b → total b ≤ total a → resources_eq a b ≡ true
unfolding resources_eq IsBelow total
resources_eq-total a b (p, q, r, s, t, u, v, w) h =
    let e0 : a.stored_bytes ≡ b.stored_bytes = omega (arith, p, q, r, s, t, u, v, w, h) in
    let e1 : a.wire_bytes ≡ b.wire_bytes = omega (arith, p, q, r, s, t, u, v, w, h) in
    let e2 : a.source_tokens ≡ b.source_tokens = omega (arith, p, q, r, s, t, u, v, w, h) in
    let e3 : a.visible_tokens ≡ b.visible_tokens = omega (arith, p, q, r, s, t, u, v, w, h) in
    let e4 : a.expansion_work ≡ b.expansion_work = omega (arith, p, q, r, s, t, u, v, w, h) in
    let e5 : a.verification_work ≡ b.verification_work = omega (arith, p, q, r, s, t, u, v, w, h) in
    let e6 : a.latency_micros ≡ b.latency_micros = omega (arith, p, q, r, s, t, u, v, w, h) in
    let e7 : a.metadata_bytes ≡ b.metadata_bytes = omega (arith, p, q, r, s, t, u, v, w, h) in
    rw (e0, e1, e2, e3, e4, e5, e6, e7) (ground arith)

total-strictly_better_than :
    (a b : RepresentationResources) → strictly_better_than a b ≡ true → total a < total b
unfolding strictly_better_than
total-strictly_better_than a b h = elim (Bool-cases (ltb (total a) (total b))) [
  | inl e ↦ ground (arith, e)
  | inr e ↦
      let below : IsBelow a b =
        dominates_or_equal-IsBelow a b (strictly_better_than-dominates_or_equal a b h) in
      let same : resources_eq a b ≡ true = resources_eq-total a b below (ground (arith, e)) in
      absurd (
        let other : not (resources_eq a b) ≡ true =
          and_second (dominates_or_equal a b) (not (resources_eq a b)) h in
        ground (arith, same, other))
]

module _ {A : Type 0} where
  Member-insert_sorted :
      (lt : A → A → Bool) (z x : A) (ys : List A)
      → Member z (x ∷ ys)
      → Member z (insert_sorted lt x ys)
  unfolding insert_sorted
  Member-insert_sorted lt z x [] m = m
  Member-insert_sorted lt z x (y ∷ ys) m = elim (Bool-cases (lt y x)) [
    | inr e ↦ rw e m
    | inl e ↦ rw e (later (Member-insert_sorted lt z x ys) m)
  ]
    where
      later :
          (Member z (x ∷ ys) → Member z (insert_sorted lt x ys))
          → Member z (x ∷ y ∷ ys)
          → Member z (y ∷ insert_sorted lt x ys)
      later rest (inl same) = inr (rest (inl same))
      later rest (inr (inl same)) = inl same
      later rest (inr (inr there)) = inr (rest (inr there))

  Member-sort : (lt : A → A → Bool) (z : A) (xs : List A) → Member z xs → Member z (sort lt xs)
  unfolding sort
  Member-sort lt z [] m = m
  Member-sort lt z (x ∷ xs) (inl same) = Member-insert_sorted lt z x (sort lt xs) (inl same)
  Member-sort lt z (x ∷ xs) (inr there) =
      Member-insert_sorted lt z x (sort lt xs) (inr (Member-sort lt z xs there))

  Member-filter :
      (p : A → Bool) (z : A) (xs : List A) → Member z xs → p z ≡ true → Member z (filter p xs)
  Member-filter p z [] m h = elim m [ ]
  Member-filter p z (x ∷ xs) (inl same) h =
      let kept : p x ≡ true = subst (λ y. p y ≡ true) same h in rw kept (inl same)
  Member-filter p z (x ∷ xs) (inr there) h = elim (Bool-cases (p x)) [
    | inl e ↦ rw e (inr (Member-filter p z xs there h))
    | inr e ↦ rw e (Member-filter p z xs there h)
  ]

  any-Member : (p : A → Bool) (xs : List A) → any p xs ≡ true → (x : A) × Member x xs × (p x ≡ true)
  any-Member p [] h = absurd (ground arith)
  any-Member p (x ∷ xs) h = elim (Bool-cases (p x)) [
    | inl e ↦ (x, inl refl, e)
    | inr e ↦ let (y, m, q) = any-Member p xs (rw e at h) in (y, inr m, q)
  ]

-- A record that may stand for another one: of the same meaning and adapter, exact if that one is,
-- and in no resource above it.
pub record IsCovering (f c : RepresentationRecord) : Type 0 where
  pub same_meaning : f.semantic_root ≡ c.semantic_root
  pub same_adapter : f.adapter_root ≡ c.adapter_root
  pub as_exact : (not c.exact || f.exact) ≡ true
  pub below : dominates_or_equal f.resources c.resources ≡ true

IsCovering-refl : (c : RepresentationRecord) → IsCovering c c
IsCovering-refl c = record {
  same_meaning = refl;
  same_adapter = refl;
  as_exact = ground arith;
  below = dominates_or_equal_refl c.resources;
}

IsCovering-trans : (f o c : RepresentationRecord) → IsCovering f o → IsCovering o c → IsCovering f c
IsCovering-trans f o c h k = record {
  same_meaning = h.same_meaning ∙ k.same_meaning;
  same_adapter = h.same_adapter ∙ k.same_adapter;
  as_exact = ground (arith, h.as_exact, k.as_exact);
  below = dominates_or_equal_trans f.resources o.resources c.resources h.below k.below;
}

IsCovering-beats : (o c : RepresentationRecord) → beats o c ≡ true → IsCovering o c
unfolding beats
IsCovering-beats o c h =
    let better : strictly_better_than o.resources c.resources ≡ true = ground (arith, h) in
    record {
      same_meaning = text_eq→≡ o.semantic_root c.semantic_root (ground (arith, h));
      same_adapter = text_eq→≡ o.adapter_root c.adapter_root (ground (arith, h));
      as_exact = ground (arith, h);
      below = strictly_better_than-dominates_or_equal o.resources c.resources better;
    }

total-beats :
    (o c : RepresentationRecord) → beats o c ≡ true → total o.resources < total c.resources
unfolding beats
total-beats o c h = total-strictly_better_than o.resources c.resources (ground (arith, h))

-- By the total of the resources, which each better record lowers.
covered :
    (records : List RepresentationRecord) (n : ℕ) (c : RepresentationRecord)
    → total c.resources < n
    → Member c records
    → (f : RepresentationRecord) × Member f (pareto_frontier records) × IsCovering f c
unfolding pareto_frontier
covered records zero c h m = absurd (omega (arith, h))
covered records (suc n) c h m = elim (Bool-cases (any (λ other. beats other c) records)) [
  | inr e ↦ (
    c,
    Member-sort (λ a b. text_ltb a.representation_root b.representation_root) c
        (filter (λ candidate. not (any (λ other. beats other candidate) records)) records)
        (Member-filter (λ candidate. not (any (λ other. beats other candidate) records)) c records m
          (rw e refl)),
    IsCovering-refl c,
  )
  | inl e ↦
      let (o, there, better) = any-Member (λ other. beats other c) records e in
      let (f, kept, covers) =
        covered records n o (omega (arith, h, total-beats o c better)) there in
      (f, kept, IsCovering-trans f o c covers (IsCovering-beats o c better))
]

-- Every record has one on the frontier that may stand for it: of the same meaning and adapter, exact
-- if the record is, and in no resource above it.
pub pareto_frontier-IsCovering :
    (records : List RepresentationRecord) (c : RepresentationRecord)
    → Member c records
    → (f : RepresentationRecord) × Member f (pareto_frontier records) × IsCovering f c
pareto_frontier-IsCovering records c m = covered records (suc (total c.resources)) c (omega arith) m
