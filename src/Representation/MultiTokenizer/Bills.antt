-- ===== src/Representation/MultiTokenizer/Bills.antt =====
-- The weighted tokens of a candidate: for each tokenizer what the candidate lists, times the weight.
use tokenzero.Base.{
  ℕ, ◌+◌, ◌≡◌, refl, sym, ◌==◌, Option, none, some, List, [], ◌∷◌, leb, arith, ok, guard, ok_or,
  >>=-ok, ◌*◌, ◌^◌, ◌-◌, ◌<◌, ◌≤◌, ◌⊎◌, inl, inr, min, not, ◌||◌, subst, Text, text_eq, text_ltb,
  text_eq→≡, Bool-cases, guard->>-ok,
}
use tokenzero.Representation.Segmentation.{bad_weights, disappeared, multi_overflow}
use tokenzero.Representation.MultiTokenizer.{
  TokenizerCost, TokenizerWeight, Roots, get, is_empty, is_some, insert, weight_by_root, costs_of,
  max_u128, share, weighted,
}

-- The candidate lists this number of tokens for the tokenizer.
abbrev pub Listed : List TokenizerCost → Text → ℕ → Type 0
Listed [] root tokens = ⊥
Listed (c ∷ cs) root tokens =
    ((c.tokenizer_root ≡ root) × (c.tokens ≡ tokens)) ⊎ Listed cs root tokens

-- The least number of whole tokens that covers a product in millionths, counted up to 2^128 - 1.
abbrev pub RoundsUp : ℕ → ℕ → Type 0
RoundsUp product tokens =
    (min product (2 ^ 128 - 1) ≤ tokens * 1000000)
    × (tokens * 1000000 < min product (2 ^ 128 - 1) + 1000000)

-- The bill of a candidate for some tokenizers with their weights: for each of them the tokens that
-- the candidate lists for it times its weight, rounded up, summed.
abbrev pub Bill : List TokenizerCost → List (Text × ℕ) → ℕ → Type 0
Bill costs [] total = total ≡ 0
Bill costs ((root, weight) ∷ rest) total =
    (tokens part others : ℕ) × Listed costs root tokens
    × RoundsUp (tokens * weight) part
    × (total ≡ part + others)
    × Bill costs rest others

share-RoundsUp : (tokens weight : ℕ) → RoundsUp (tokens * weight) (share tokens weight)
share-RoundsUp tokens weight = omega arith

get-insert :
    (root q : Text) (n : ℕ) (roots : Roots) {t : ℕ}
    → get root (insert q n roots) ≡ some t
    → ((root ≡ q) × (n ≡ t)) ⊎ (get root roots ≡ some t)
unfolding get insert
get-insert root q n [] h = ground (arith, text_eq→≡ root q)
get-insert root q n ((r, m) ∷ rest) {t} h =
    ground
      (arith, text_eq→≡ root q, text_eq→≡ q r, text_eq→≡ root r, get-insert root q n rest {t = t})

get-costs_of :
    (costs : List TokenizerCost) (roots : Roots) (root : Text) {t : ℕ}
    → get root (costs_of costs roots) ≡ some t
    → Listed costs root t ⊎ (get root roots ≡ some t)
unfolding costs_of
get-costs_of [] roots root h = inr h
get-costs_of (c ∷ cs) roots root h =
    elim (get-costs_of cs (insert c.tokenizer_root c.tokens roots) root h) [
      | inl later ↦ inl (inr later)
      | inr before ↦ elim (get-insert root c.tokenizer_root c.tokens roots before) [
        | inl (named, listed) ↦ inl (inl (sym named, listed))
        | inr earlier ↦ inr earlier
      ]
    ]

pub ok_or-eq-ok : {E A : Type 0} (o : Option A) (e : E) {a : A} → ok_or o e ≡ ok a → o ≡ some a
ok_or-eq-ok none e h = cc
ok_or-eq-ok (some b) e h = cc

pub weighted-Bill :
    (costs : List TokenizerCost) (roots : Roots) (total t : ℕ)
    → weighted (costs_of costs []) total roots ≡ ok t
    → (bill : ℕ) × (t ≡ total + bill) × Bill costs roots bill
unfolding weighted get
weighted-Bill costs [] total t h = let same : total ≡ t = cc in (0, omega arith, refl)
weighted-Bill costs ((root, weight) ∷ rest) total t h =
    let (tokens, found, after) = >>=-ok (ok_or (get root (costs_of costs [])) disappeared) _ h in
    let (_, fits, more) =
      >>=-ok (guard (leb (total + share tokens weight) max_u128) multi_overflow) _ after in
    let (others, sum, bill) = weighted-Bill costs rest (total + share tokens weight) t more in
    let there = ok_or-eq-ok (get root (costs_of costs [])) disappeared found in
    elim (get-costs_of costs [] root there) [
      | inl listed ↦ (
        share tokens weight + others,
        omega (arith, sum),
        (tokens, share tokens weight, others, listed, share-RoundsUp tokens weight, refl, bill),
      )
      | inr nowhere ↦ absurd (ground arith)
    ]

-- A tokenizer that is in no other place may be billed first.
Bill-insert :
    (costs : List TokenizerCost) (root : Text) (n : ℕ) (roots : Roots) (total : ℕ)
    → get root roots ≡ none
    → Bill costs (insert root n roots) total
    → Bill costs ((root, n) ∷ roots) total
unfolding get insert
Bill-insert costs root n [] total fresh bill = bill
Bill-insert costs root n ((r, m) ∷ rest) total fresh bill = elim (Bool-cases (text_eq root r)) [
  | inl same ↦ absurd (ground (arith, same))
  | inr differs ↦ elim (Bool-cases (text_ltb root r)) [
    | inl before ↦ rw (differs, before) at bill
    | inr behind ↦
        let (tokens, part, others, listed, rounded, sum, more) = rw (differs, behind) at bill in
        let (tokens', part', others', listed', rounded', sum', more') =
          Bill-insert costs root n rest others (rw differs at fresh) more in
        (
          tokens',
          part',
          part + others',
          listed',
          rounded',
          omega (arith, sum, sum'),
          (tokens, part, others', listed, rounded, refl, more'),
        )
  ]
]

-- The weights as pairs.
abbrev pub pairs : List TokenizerWeight → List (Text × ℕ)
pairs [] = []
pairs (w ∷ ws) = (w.tokenizer_root, w.weight_ppm) ∷ pairs ws

pub weight_by_root-Bill :
    (costs : List TokenizerCost) (weights : List TokenizerWeight) (before roots : Roots) (total : ℕ)
    → weight_by_root weights before ≡ ok roots
    → Bill costs roots total
    → (a b : ℕ) × Bill costs (pairs weights) a × Bill costs before b × (total ≡ a + b)
unfolding weight_by_root
weight_by_root-Bill costs [] before roots total h bill =
    let same : before ≡ roots = cc in
    (0, total, refl, subst (λ m. Bill costs m total) (sym same) bill, omega arith)
weight_by_root-Bill costs (w ∷ ws) before roots total h bill =
    let (accepted, more) =
      guard->>-ok
        (not (
          is_empty w.tokenizer_root
          || ((w.weight_ppm == 0) || is_some (get w.tokenizer_root before))))
        bad_weights h in
    let (a, b, later, inserted, sum) =
      weight_by_root-Bill costs ws (insert w.tokenizer_root w.weight_ppm before) roots total more
        bill in
    let (tokens, part, others, listed, rounded, sum', earlier) =
      Bill-insert costs w.tokenizer_root w.weight_ppm before b (ground (arith, accepted))
        inserted in
    (
      part + a,
      others,
      (tokens, part, a, listed, rounded, refl, later),
      earlier,
      omega (arith, sum, sum'),
    )
