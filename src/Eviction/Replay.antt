-- ===== src/Eviction/Replay.antt =====
-- `simulate_eviction_replay`: when the schedule costs no more than sending the prefix each time.
use tokenzero.Base.Providers.{CacheProvider}
use tokenzero.Base.{
  ℕ, ◌+◌, ◌-◌, ◌*◌, ◌≤◌, ◌<◌, ◌≡◌, ap, true, Option, List, [], ◌∷◌, map, arith, sat_add, All,
  Bool-cases, inl, inr,
}
use tokenzero.Eviction.{
  CacheBreakpoint, EvictionCandidate, EvictionReplayItem, is_evict, kind_of, decide, uncached,
  scheduled, bill, schedule_evictions, simulate_eviction_replay, ttl_from_gaps,
}

-- At least as many requests come as were expected, and a read saves no more than the prefix.
abbrev pub AsExpected : EvictionReplayItem → Type 0
AsExpected item =
    (item.candidate.expected_remaining_requests ≤ item.observed_remaining_requests)
    × (item.candidate.read_savings_tokens ≤ item.candidate.prefix_tokens)

evict_needs :
    (w : Option CacheBreakpoint) (c : EvictionCandidate)
    → is_evict (kind_of w c) ≡ true
    → c.prefix_rewrite_cost_tokens < c.expected_remaining_requests * c.read_savings_tokens
unfolding kind_of
evict_needs w c h = ground arith

mul-le_mul : (a b c : ℕ) → a ≤ b → a * c ≤ b * c
mul-le_mul a b c h = grind arith

split_product : (o p r : ℕ) → r ≤ p → o * (p - r) + o * r ≡ o * p
split_product o p r h = let e : p - r + r ≡ p = omega arith in omega (arith, ap (λ t. o * t) e)

scheduled-le :
    (w : Option CacheBreakpoint) (now : ℕ) (item : EvictionReplayItem)
    → AsExpected item
    → scheduled item (decide w now item.candidate) ≤ uncached item
unfolding decide
scheduled-le w now item (enough, part) =
    let c = item.candidate in
    let seen = item.observed_remaining_requests in
    elim (Bool-cases (is_evict (kind_of w c))) [
      | inl e ↦ rw e (
          omega (
            arith,
            evict_needs w c e,
            mul-le_mul c.expected_remaining_requests seen c.read_savings_tokens enough,
            split_product seen c.prefix_tokens c.read_savings_tokens part,
          ))
      | inr e ↦ rw e (omega arith)
    ]

bill-le :
    (w : Option CacheBreakpoint) (now : ℕ) (items : List EvictionReplayItem) (naive billed : ℕ)
    → All AsExpected items
    → billed ≤ naive
    → let sums =
        bill items (map (decide w now) (map (λ item. item.candidate) items)) naive billed in
      sums.1 ≤ sums.0
unfolding bill
bill-le w now [] naive billed _ h = h
bill-le w now (item ∷ items) naive billed (one, more) h =
    bill-le w now items (sat_add naive (uncached item))
      (sat_add billed (scheduled item (decide w now item.candidate))) more
      (omega (arith, scheduled-le w now item one))

-- If every candidate sees at least the requests that were expected of it, and saves no more than
-- its prefix on a read, the scheduled bill is at most the naive one, so that the saving and the
-- scheduled bill add up to the naive bill. Sums are u64 sums that stop at 2^64 - 1.
pub simulate_eviction_replay-le :
    (provider : CacheProvider) (now : ℕ) (gaps : List ℕ) (replay : List EvictionReplayItem)
    → All AsExpected replay
    → let r = simulate_eviction_replay provider now gaps replay in
      (r.scheduled_billed_tokens ≤ r.naive_billed_tokens)
      × (r.scheduled_billed_tokens + r.saved_billed_tokens ≡ r.naive_billed_tokens)
unfolding simulate_eviction_replay schedule_evictions
simulate_eviction_replay-le provider now gaps replay expected =
    let w = ttl_from_gaps provider gaps in
    (
      bill-le w now replay 0 0 expected (omega arith),
      omega (arith, bill-le w now replay 0 0 expected (omega arith)),
    )
