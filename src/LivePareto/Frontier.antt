-- ===== src/LivePareto/Frontier.antt =====
-- The frontier of a decision, and that stale evidence has no part in it.
use mathlib.Core.List.{Perm}
use mathlib.Core.List.Perm
use tokenzero.Base.Sorting.{sort, insert_sorted, sort-perm, any-sort}
use tokenzero.Base.{
  ◌≡◌, refl, sym, ap, ◌∙◌, subst, Bool, true, false, not, ◌&&◌, ◌||◌, Bool-cases, inl, inr, List,
  [], ◌∷◌, Text, text_ltb, leb, if◌then◌else◌, length, map, filter, any, ok, >>-ok, guard->>-ok,
}
use tokenzero.LivePareto.{
  live_pareto_max_candidates, live_pareto_max_canonical_bytes, LiveCandidate, no_candidates,
  too_many_candidates, body_too_long, is_fresh, is_empty, live_dominates,
}
use tokenzero.LivePareto.Decision.{
  LiveParetoDecision, Canon, validate_candidates, first_dominator, is_none, joins_frontier, by_id,
  validate_decision, decision_of, decide_live_pareto,
}

-- Fresh, with some protected outcome, and dominated by none of the candidates.
pub is_undominated : List LiveCandidate → LiveCandidate → Bool
is_undominated candidates c =
    is_fresh c.freshness
    && (not (is_empty c.protected_vector) && not (any (λ other. live_dominates other c) candidates))

module _ {A : Type 0} where
  -- One step of `filter`.
  abbrev keep : Bool → A → List A → List A
  keep b x xs = if b then x ∷ xs else xs

  keep-perm : (b : Bool) (x : A) {xs ys : List A} → Perm xs ys → Perm (keep b x xs) (keep b x ys)
  keep-perm true x h = Perm.cons x h
  keep-perm false x h = h

  keep-swap :
      (b c : Bool) (x y : A) (xs : List A) → Perm (keep c y (keep b x xs)) (keep b x (keep c y xs))
  keep-swap true true x y xs = Perm.swap x y xs
  keep-swap true false x y xs = Perm.refl (x ∷ xs)
  keep-swap false true x y xs = Perm.refl (y ∷ xs)
  keep-swap false false x y xs = Perm.refl xs

  module _ (lt : A → A → Bool) (p : A → Bool) where
    filter-insert_sorted :
        (x : A) (ys : List A) → Perm (filter p (insert_sorted lt x ys)) (filter p (x ∷ ys))
    unfolding insert_sorted
    filter-insert_sorted x [] = Perm.refl (filter p (x ∷ []))
    filter-insert_sorted x (y ∷ ys) = elim (Bool-cases (lt y x)) [
      | inl e ↦ rw e (
          Perm.trans (keep-perm (p y) y (filter-insert_sorted x ys))
            (keep-swap (p x) (p y) x y (filter p ys)))
      | inr e ↦ rw e (Perm.refl (filter p (x ∷ (y ∷ ys))))
    ]

    filter-sort : (xs : List A) → Perm (filter p (sort lt xs)) (filter p xs)
    unfolding sort
    filter-sort [] = Perm.refl []
    filter-sort (x ∷ xs) =
        Perm.trans (filter-insert_sorted x (sort lt xs)) (keep-perm (p x) x (filter-sort xs))

  filter-same : (p q : A → Bool) (xs : List A) → ((x : A) → p x ≡ q x) → filter p xs ≡ filter q xs
  filter-same p q [] h = refl
  filter-same p q (x ∷ xs) h = rw (h x, filter-same p q xs h) refl

is_none-first_dominator :
    (c : LiveCandidate) (others : List LiveCandidate)
    → is_none (first_dominator c others) ≡ not (any (λ other. live_dominates other c) others)
unfolding first_dominator
is_none-first_dominator c [] = refl
is_none-first_dominator c (other ∷ others) = elim (Bool-cases (live_dominates other c)) [
  | inl e ↦ rw e refl
  | inr e ↦ rw e (is_none-first_dominator c others)
]

joins_frontier-is_undominated :
    (candidates : List LiveCandidate) (c : LiveCandidate)
    → joins_frontier (by_id candidates) c ≡ is_undominated candidates c
unfolding joins_frontier is_undominated by_id
joins_frontier-is_undominated candidates c =
    let lt = λ (a b : LiveCandidate). text_ltb a.candidate_id b.candidate_id in
    let free : is_none (first_dominator c (sort lt candidates))
        ≡ not (any (λ other. live_dominates other c) candidates) =
      is_none-first_dominator c (sort lt candidates)
      ∙ ap not (any-sort lt (λ other. live_dominates other c) candidates) in
    elim (Bool-cases (is_fresh c.freshness)) [
      | inl e ↦
          rw (e, free)
            (and_swap (not (any (λ other. live_dominates other c) candidates))
              (not (is_empty c.protected_vector)))
      | inr e ↦ rw e refl
    ]
  where
    and_swap : (a b : Bool) → (a && b) ≡ (b && a)
    and_swap true true = refl
    and_swap true false = refl
    and_swap false true = refl
    and_swap false false = refl

abbrev frontier_of : List LiveCandidate → List Text
frontier_of candidates = map (λ c. c.candidate_id) (filter (is_undominated candidates) candidates)

module _ (canon : Canon) where
  decide_live_pareto-decision_of :
      (candidates : List LiveCandidate) (d : LiveParetoDecision)
      → decide_live_pareto canon candidates ≡ ok d
      → decision_of canon candidates ≡ d
  unfolding decide_live_pareto
  decide_live_pareto-decision_of candidates d h =
      let decision = decision_of canon candidates in
      let (_, k1) = guard->>-ok (not (is_empty candidates)) no_candidates h in
      let (_, k2) =
        guard->>-ok (leb (length candidates) live_pareto_max_candidates) too_many_candidates k1 in
      let (_, k3) = >>-ok (validate_candidates [] candidates) k2 in
      let (_, k4) =
        guard->>-ok (leb (length decision.canonical_json) live_pareto_max_canonical_bytes)
          body_too_long k3 in
      let (_, k5) = >>-ok (validate_decision canon decision) k4 in cc

  decision_of-frontier :
      (candidates : List LiveCandidate)
      → Perm (decision_of canon candidates).frontier_ids (frontier_of candidates)
  unfolding decision_of by_id
  decision_of-frontier candidates =
      let lt = λ (a b : LiveCandidate). text_ltb a.candidate_id b.candidate_id in
      Perm.trans
        (sort-perm text_ltb (
          map (λ c. c.candidate_id)
            (filter (joins_frontier (by_id candidates)) (by_id candidates))))
        (Perm.map (λ (c : LiveCandidate). c.candidate_id)
          (subst (λ xs. Perm xs (filter (is_undominated candidates) candidates))
            (sym (
              filter-same (joins_frontier (by_id candidates)) (is_undominated candidates)
                (by_id candidates) (joins_frontier-is_undominated candidates)))
            (filter-sort lt (is_undominated candidates) candidates)))

  -- The frontier of a decision is, in some order, the ids of the candidates with fresh evidence and
  -- some protected outcome that no candidate dominates.
  pub decide_live_pareto-frontier :
      (candidates : List LiveCandidate) (d : LiveParetoDecision)
      → decide_live_pareto canon candidates ≡ ok d
      → Perm d.frontier_ids
          (map (λ c. c.candidate_id) (filter (is_undominated candidates) candidates))
  decide_live_pareto-frontier candidates d h =
      subst (λ d'. Perm d'.frontier_ids (frontier_of candidates))
        (decide_live_pareto-decision_of candidates d h) (decision_of-frontier candidates)

-- The candidates whose evidence is fresh.
abbrev pub fresh_ones : List LiveCandidate → List LiveCandidate
fresh_ones candidates = filter (λ c. is_fresh c.freshness) candidates

live_dominates-is_fresh :
    (a b : LiveCandidate) → is_fresh a.freshness ≡ false → live_dominates a b ≡ false
unfolding live_dominates
live_dominates-is_fresh a b e = rw e refl

any-fresh_ones :
    (c : LiveCandidate) (others : List LiveCandidate)
    → any (λ other. live_dominates other c) (fresh_ones others)
      ≡ any (λ other. live_dominates other c) others
any-fresh_ones c [] = refl
any-fresh_ones c (other ∷ others) = elim (Bool-cases (is_fresh other.freshness)) [
  | inl e ↦ rw e (ap (◌||◌ (live_dominates other c)) (any-fresh_ones c others))
  | inr e ↦ rw (e, live_dominates-is_fresh other c e) (any-fresh_ones c others)
]

is_undominated-fresh_ones :
    (candidates : List LiveCandidate) (c : LiveCandidate)
    → is_undominated (fresh_ones candidates) c ≡ is_undominated candidates c
unfolding is_undominated
is_undominated-fresh_ones candidates c = rw (any-fresh_ones c candidates) refl

filter-fresh_ones :
    (candidates cs : List LiveCandidate)
    → filter (is_undominated candidates) (fresh_ones cs) ≡ filter (is_undominated candidates) cs
filter-fresh_ones candidates [] = refl
filter-fresh_ones candidates (c ∷ cs) = elim (Bool-cases (is_fresh c.freshness)) [
  | inl e ↦ rw (e, filter-fresh_ones candidates cs) refl
  | inr e ↦ rw (e, not_fresh e, filter-fresh_ones candidates cs) refl
]
  where
    not_fresh : is_fresh c.freshness ≡ false → is_undominated candidates c ≡ false
    not_fresh e = unfold is_undominated in rw e refl

module _ (canon : Canon) where
  -- Candidates whose evidence is stale, unknown or missing have no part in the frontier: a decision
  -- without them has the same frontier ids, up to their order.
  pub decide_live_pareto-fresh_ones :
      (candidates : List LiveCandidate) (d d' : LiveParetoDecision)
      → decide_live_pareto canon candidates ≡ ok d
      → decide_live_pareto canon (fresh_ones candidates) ≡ ok d'
      → Perm d.frontier_ids d'.frontier_ids
  decide_live_pareto-fresh_ones candidates d d' h h' =
      let same : frontier_of (fresh_ones candidates) ≡ frontier_of candidates =
        ap (map (λ c. c.candidate_id)) (
          filter-same (is_undominated (fresh_ones candidates)) (is_undominated candidates)
            (fresh_ones candidates) (is_undominated-fresh_ones candidates)
          ∙ filter-fresh_ones candidates candidates) in
      Perm.trans (decide_live_pareto-frontier canon candidates d h) (
        Perm.symm (
          subst (Perm d'.frontier_ids) same
            (decide_live_pareto-frontier canon (fresh_ones candidates) d' h')))
