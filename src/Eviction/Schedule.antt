-- ===== src/Eviction/Schedule.antt =====
-- `schedule_evictions`: which candidates are evicted, and how they are batched.
use mathlib.Core.List.{Perm}
use tokenzero.Base.Providers.{CacheProvider}
use tokenzero.Base.Sorting.{sort-perm, IsSorted, sort-IsSorted}
use tokenzero.Base.{
  ℕ, ◌*◌, ◌<◌, ◌≡◌, ◌≢◌, ◌↔◌, ◌⊎◌, inl, inr, refl, sym, ap, ◌∙◌, false, Option, none, some, List,
  [], ◌∷◌, ◌++◌, map, All, Text, text_ltb, text_ltb_asymmetric, text_ltb_negatively_transitive,
  arith, sat_add, if◌then◌else◌, Bool-cases, append-nil, append_assoc, max_u64,
}
use tokenzero.Eviction.Windows.{SomeAmortized, ttl_from_gaps_iff}
use tokenzero.Eviction.{
  CacheBreakpoint, EvictionCandidate, EvictionDecision, EvictionBatch, EvictionSchedule, evict,
  messages, is_evict, kind_of, decide, Groups, push_group, group, batch_of, schedule_evictions,
  ttl_from_gaps,
}

-- The ids of the candidates that are evicted, in order.
abbrev pub evicted_ids : List EvictionDecision → List Text
evicted_ids [] = []
evicted_ids (d ∷ ds) = if is_evict d.kind then d.candidate.id ∷ evicted_ids ds else evicted_ids ds

decide-evict_iff :
    (breakpoint : Option CacheBreakpoint) (now : ℕ) (c : EvictionCandidate)
    → ((decide breakpoint now c).kind ≡ evict) ↔ (
        (c.tier ≡ messages)
        × (breakpoint ≢ none)
        × (c.prefix_rewrite_cost_tokens < max_u64)
        × (c.prefix_rewrite_cost_tokens < c.expected_remaining_requests * c.read_savings_tokens))
unfolding decide
decide-evict_iff breakpoint now c = ground arith

-- A candidate pays for its eviction: its tier is the messages, the provider has a window that the
-- gaps amortize, and the saved tokens, counted up to 2^64 - 1, exceed the rewrite.
abbrev pub PaysOff : CacheProvider → List ℕ → EvictionCandidate → Type 0
PaysOff provider gaps c =
    (c.tier ≡ messages)
    × SomeAmortized provider gaps
    × (c.prefix_rewrite_cost_tokens < max_u64)
    × (c.prefix_rewrite_cost_tokens < c.expected_remaining_requests * c.read_savings_tokens)

decide-PaysOff :
    (provider : CacheProvider) (now : ℕ) (gaps : List ℕ) (c : EvictionCandidate)
    → ((decide (ttl_from_gaps provider gaps) now c).kind ≡ evict) ↔ PaysOff provider gaps c
decide-PaysOff provider now gaps c =
    let (there, back) = ttl_from_gaps_iff provider gaps in
    let (if_evicted, evicted_if) = decide-evict_iff (ttl_from_gaps provider gaps) now c in
    (
      λ h. let (tier, window, small, less) = if_evicted h in (tier, there window, small, less),
      λ (tier, listed, small, less). evicted_if (tier, back listed, small, less),
    )

decisions-PaysOff :
    (provider : CacheProvider) (now : ℕ) (gaps : List ℕ) (cs : List EvictionCandidate)
    → let ds = map (decide (ttl_from_gaps provider gaps) now) cs in
      (map (λ d. d.candidate) ds ≡ cs)
      × All (λ d. (d.kind ≡ evict) ↔ PaysOff provider gaps d.candidate) ds
unfolding decide
decisions-PaysOff provider now gaps [] = (refl, tt)
decisions-PaysOff provider now gaps (c ∷ cs) =
    let (same, rest) = decisions-PaysOff provider now gaps cs in
    (ap (◌∷◌ c) same, (decide-PaysOff provider now gaps c, rest))

-- A schedule decides on every candidate, in their order, and evicts one exactly when it is of the
-- message tier, the provider lists a cache window that the measured gaps amortize (it spans as many
-- requests as the window needs, the first at time 0 and each later one behind its gap), and the
-- tokens it is expected to save, counted up to 2^64 - 1, exceed the cost of rewriting its prefix.
pub schedule_evictions-PaysOff :
    (provider : CacheProvider) (now : ℕ) (gaps : List ℕ) (cs : List EvictionCandidate)
    → let s = schedule_evictions provider now gaps cs in
      (map (λ d. d.candidate) s.decisions ≡ cs)
      × All (λ d. (d.kind ≡ evict) ↔ PaysOff provider gaps d.candidate) s.decisions
unfolding schedule_evictions
schedule_evictions-PaysOff provider now gaps cs = decisions-PaysOff provider now gaps cs

kept_without_window : (c : EvictionCandidate) → is_evict (kind_of none c) ≡ false
unfolding kind_of
kept_without_window c = ground arith

decisions_none :
    (now : ℕ) (cs : List EvictionCandidate) (groups : Groups)
    → (group (map (decide none now) cs) groups ≡ groups)
      × (evicted_ids (map (decide none now) cs) ≡ [])
unfolding group decide
decisions_none now [] groups = (refl, refl)
decisions_none now (c ∷ cs) groups =
    let (same, nothing) = decisions_none now cs groups in (same, rw (kept_without_window c) nothing)

-- The groups that hold one batch, or none.
abbrev one_group : ℕ → ℕ → List Text → Groups
one_group at ttl [] = []
one_group at ttl (id ∷ ids) = (at, ttl, id ∷ ids) ∷ []

push_one_group :
    (at ttl : ℕ) (ids : List Text) (id : Text)
    → push_group at ttl id (one_group at ttl ids) ≡ one_group at ttl (ids ++ id ∷ [])
unfolding push_group
push_one_group at ttl [] id = refl
push_one_group at ttl (j ∷ ids) id = ground arith

-- All evictions of a schedule share the one window, so they fall into one group.
decisions_some :
    (b : CacheBreakpoint) (now : ℕ) (cs : List EvictionCandidate) (ids : List Text)
    → let at = sat_add now b.ttl_seconds in
      let ds = map (decide (some b) now) cs in
      group ds (one_group at b.ttl_seconds ids) ≡ one_group at b.ttl_seconds (ids ++ evicted_ids ds)
unfolding group decide
decisions_some b now [] ids =
    ap (one_group (sat_add now b.ttl_seconds) b.ttl_seconds) (sym (append-nil ids))
decisions_some b now (c ∷ cs) ids =
    let at = sat_add now b.ttl_seconds in
    elim (Bool-cases (is_evict (kind_of (some b) c))) [
      | inl e ↦ rw e (
          ap (group (map (decide (some b) now) cs)) (push_one_group at b.ttl_seconds ids c.id)
          ∙ decisions_some b now cs (ids ++ c.id ∷ [])
          ∙ ap (one_group at b.ttl_seconds)
              (append_assoc ids (c.id ∷ []) (evicted_ids (map (decide (some b) now) cs))))
      | inr e ↦ rw e (decisions_some b now cs ids)
    ]

abbrev BatchOf : CacheBreakpoint → ℕ → List Text → EvictionBatch → Type 0
BatchOf b now ids batch =
    Perm batch.candidate_ids ids
    × IsSorted text_ltb batch.candidate_ids
    × (batch.ttl_seconds ≡ b.ttl_seconds)
    × (batch.cache_breakpoint_at_seconds ≡ sat_add now b.ttl_seconds)

batches_one :
    (b : CacheBreakpoint) (now : ℕ) (ids : List Text)
    → let batches = map batch_of (one_group (sat_add now b.ttl_seconds) b.ttl_seconds ids) in
      ((ids ≡ []) × (batches ≡ []))
      ⊎ ((batch : EvictionBatch) × (batches ≡ batch ∷ []) × BatchOf b now ids batch)
unfolding batch_of
batches_one b now [] = inl (refl, refl)
batches_one b now (id ∷ ids) = inr (
  batch_of (sat_add now b.ttl_seconds, b.ttl_seconds, id ∷ ids),
  refl,
  (
    sort-perm text_ltb (id ∷ ids),
    sort-IsSorted text_ltb text_ltb_asymmetric text_ltb_negatively_transitive (id ∷ ids),
    refl,
    refl,
  ),
)

abbrev Batched : Option CacheBreakpoint → ℕ → EvictionSchedule → Type 0
Batched window now s =
    ((evicted_ids s.decisions ≡ []) × (s.batches ≡ []))
    ⊎ ((b : CacheBreakpoint) × (batch : EvictionBatch) × (window ≡ some b)
        × (s.batches ≡ batch ∷ [])
        × Perm batch.candidate_ids (evicted_ids s.decisions)
        × IsSorted text_ltb batch.candidate_ids
        × (batch.ttl_seconds ≡ b.ttl_seconds)
        × (batch.cache_breakpoint_at_seconds ≡ sat_add now b.ttl_seconds))

Batched-of :
    (window : Option CacheBreakpoint) (now : ℕ) (cs : List EvictionCandidate)
    → let ds = map (decide window now) cs in
      Batched window now (record { decisions = ds; batches = map batch_of (group ds []) })
Batched-of none now cs =
    let (same, nothing) = decisions_none now cs [] in inl (nothing, ap (map batch_of) same)
Batched-of (some b) now cs =
    let ids = evicted_ids (map (decide (some b) now) cs) in
    let grouped = ap (map batch_of) (decisions_some b now cs []) in
    elim (batches_one b now ids) [
      | inl (nothing, no_batch) ↦ inl (nothing, grouped ∙ no_batch)
      | inr (batch, one, holds) ↦
          inr (b, batch, refl, grouped ∙ one, holds.0, holds.1, holds.2, holds.3)
    ]

-- A schedule evicts nothing and has no batch, or it has exactly one batch: it holds the ids of the
-- evicted candidates, each as often as it is evicted, in sorted order, with the ttl of the
-- amortized window and the time at which that window ends.
pub schedule_evictions-batches :
    (provider : CacheProvider) (now : ℕ) (gaps : List ℕ) (cs : List EvictionCandidate)
    → let s = schedule_evictions provider now gaps cs in
      ((evicted_ids s.decisions ≡ []) × (s.batches ≡ []))
      ⊎ ((b : CacheBreakpoint) × (batch : EvictionBatch) × (ttl_from_gaps provider gaps ≡ some b)
          × (s.batches ≡ batch ∷ [])
          × Perm batch.candidate_ids (evicted_ids s.decisions)
          × IsSorted text_ltb batch.candidate_ids
          × (batch.ttl_seconds ≡ b.ttl_seconds)
          × (batch.cache_breakpoint_at_seconds ≡ sat_add now b.ttl_seconds))
unfolding schedule_evictions
schedule_evictions-batches provider now gaps cs = Batched-of (ttl_from_gaps provider gaps) now cs
