-- ===== src/Eviction/Windows.antt =====
-- `ttl_from_gaps`: the first window of the provider that pays for its write.
use tokenzero.Base.Providers.{CacheProvider, anthropic, open_ai, gemini}
use tokenzero.Base.{
  ℕ, zero, suc, ◌+◌, ◌-◌, ◌≤◌, ◌<◌, ◌≡◌, ◌≢◌, ◌↔◌, Option-cases, inl, inr, refl, ap, Bool, true,
  false, none, some, List, [], ◌∷◌, ◌++◌, arith, length, take, sum, All, Bool-cases, max_u64,
}
use tokenzero.Eviction.{
  CacheBreakpoint, retained, amortizes, find, provider_breakpoints, ttl_from_gaps,
}

-- The window spans at least as many requests as it needs: the first one at time 0, and each later
-- one behind its gap.
abbrev pub Amortized : List ℕ → CacheBreakpoint → Type 0
Amortized gaps b =
    (b.minimum_requests ≤ 1 + length gaps)
    × (sum (take (b.minimum_requests - 1) gaps) ≤ b.ttl_seconds)

retained_iff :
    (ttl elapsed n : ℕ) (gaps : List ℕ)
    → ttl < max_u64
    → elapsed ≤ ttl
    → (n ≤ retained ttl elapsed gaps) ↔ ((n ≤ length gaps) × (elapsed + sum (take n gaps) ≤ ttl))
unfolding retained
retained_iff ttl elapsed zero gaps bounded start = (λ h. omega arith, λ h. omega arith)
retained_iff ttl elapsed (suc n) [] bounded start = (λ h. omega arith, λ h. omega arith)
retained_iff ttl elapsed (suc n) (gap ∷ gaps) bounded start =
    ground (arith, retained_iff ttl (elapsed + gap) n gaps)

amortizes_iff :
    (gaps : List ℕ) (b : CacheBreakpoint)
    → 0 < b.minimum_requests
    → b.minimum_requests ≤ 3
    → b.ttl_seconds < max_u64
    → (amortizes gaps b ≡ true) ↔ Amortized gaps b
unfolding amortizes
amortizes_iff gaps b some_request few bounded =
    ground (arith, retained_iff b.ttl_seconds 0 (b.minimum_requests - 1) gaps bounded)

module _ {ℓ} {A : Type ℓ} (p : A → Bool) where
  find-none : (xs : List A) → (find p xs ≡ none) ↔ All (λ x. p x ≡ false) xs
  unfolding find
  find-none [] = (λ h. tt, λ h. refl)
  find-none (x ∷ xs) = elim (Bool-cases (p x)) [
    | inl e ↦ rw e (λ h. cc, λ h. cc (h.0))
    | inr e ↦ rw e (λ h. (refl, (find-none xs).0 h), λ h. (find-none xs).1 h.1)
  ]

  find_first :
      (xs : List A) {x : A}
      → find p xs ≡ some x
      → (before after : List A) × (xs ≡ before ++ x ∷ after)
        × All (λ y. p y ≡ false) before
        × (p x ≡ true)
  unfolding find
  find_first [] h = cc
  find_first (y ∷ xs) {x} h = elim (Bool-cases (p y)) [
    | inl e ↦ let same : y ≡ x = ground arith in ([], xs, ap (λ z. z ∷ xs) same, tt, rw (← same) e)
    | inr e ↦
        let (before, after, split, none_before, here) = find_first xs {x = x} (rw e at h) in
        (y ∷ before, after, ap (◌∷◌ y) split, (e, none_before), here)
  ]

abbrev Small : CacheBreakpoint → Type 0
Small b = (0 < b.minimum_requests) × (b.minimum_requests ≤ 3) × (b.ttl_seconds < max_u64)

provider_breakpoints-Small : (provider : CacheProvider) → All Small (provider_breakpoints provider)
unfolding provider_breakpoints
provider_breakpoints-Small anthropic = omega arith
provider_breakpoints-Small open_ai = omega arith
provider_breakpoints-Small gemini = omega arith

All-Amortized-not :
    (gaps : List ℕ) (before after : List CacheBreakpoint)
    → All Small (before ++ after)
    → All (λ w. amortizes gaps w ≡ false) before
    → All (λ w. ¬ Amortized gaps w) before
All-Amortized-not gaps [] after small h = tt
All-Amortized-not gaps (w ∷ ws) after (small, more) (e, h) = (
  λ a. let yes_it = (amortizes_iff gaps w small.0 small.1 small.2).1 a in cc,
  All-Amortized-not gaps ws after more h,
)

All-at :
    (P : CacheBreakpoint → Type 0) (before after : List CacheBreakpoint) (b : CacheBreakpoint)
    → All P (before ++ b ∷ after)
    → P b
All-at P [] after b h = h.0
All-at P (w ∷ ws) after b h = All-at P ws after b h.1

-- If the result is a window, it is one of the provider's that the measured gaps amortize, and no
-- window that the provider lists before it is amortized.
ttl_from_gaps_first :
    (provider : CacheProvider) (gaps : List ℕ) {b : CacheBreakpoint}
    → ttl_from_gaps provider gaps ≡ some b
    → (before after : List CacheBreakpoint) × (provider_breakpoints provider ≡ before ++ b ∷ after)
      × All (λ w. ¬ Amortized gaps w) before
      × Amortized gaps b
unfolding ttl_from_gaps
ttl_from_gaps_first provider gaps {b} h =
    let (before, after, split, none_before, here) =
      find_first (amortizes gaps) (provider_breakpoints provider) h in
    let small = rw split at (provider_breakpoints-Small provider) in
    let (some_request, few, bounded) = All-at Small before after b small in
    (
      before,
      after,
      split,
      All-Amortized-not gaps before (b ∷ after) small none_before,
      (amortizes_iff gaps b some_request few bounded).0 here,
    )

-- The provider lists a window that the gaps amortize.
abbrev pub SomeAmortized : CacheProvider → List ℕ → Type 0
SomeAmortized provider gaps =
    (w : CacheBreakpoint) × (before after : List CacheBreakpoint) × (provider_breakpoints provider
      ≡ before ++ w ∷ after)
    × Amortized gaps w

ttl_from_gaps_listed :
    (provider : CacheProvider) (gaps : List ℕ)
    → SomeAmortized provider gaps
    → ttl_from_gaps provider gaps ≢ none
unfolding ttl_from_gaps
ttl_from_gaps_listed provider gaps (w, before, after, split, here) nothing =
    let none_at = (find-none (amortizes gaps) (provider_breakpoints provider)).0 nothing in
    let refused = All-at (λ v. amortizes gaps v ≡ false) before after w (rw split at none_at) in
    let (some_request, few, bounded) =
      All-at Small before after w (rw split at (provider_breakpoints-Small provider)) in
    let accepted = (amortizes_iff gaps w some_request few bounded).1 here in cc

-- The result is a window exactly when the provider lists one that the gaps amortize.
pub ttl_from_gaps_iff :
    (provider : CacheProvider) (gaps : List ℕ)
    → (ttl_from_gaps provider gaps ≢ none) ↔ SomeAmortized provider gaps
ttl_from_gaps_iff provider gaps = (
  λ found. elim (Option-cases (ttl_from_gaps provider gaps)) [
    | inl nothing ↦ absurd (found nothing)
    | inr (w, e) ↦
        let (before, after, split, _, here) = ttl_from_gaps_first provider gaps {b = w} e in
        (w, before, after, split, here)
  ],
  ttl_from_gaps_listed provider gaps,
)
