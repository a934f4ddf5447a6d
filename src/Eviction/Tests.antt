-- ===== src/Eviction/Tests.antt =====
-- A small schedule, and the theorems at it.
use mathlib.Core.List.{Perm}
use tokenzero.Base.Providers.{anthropic}
use tokenzero.Base.Sorting.{IsSorted}
use tokenzero.Base.{
  ℕ, ◌+◌, ◌≤◌, ◌≡◌, ◌↔◌, ◌⊎◌, refl, some, List, [], ◌∷◌, ◌++◌, map, All, Text, text_ltb, text_eq,
  codes, arith, sat_add,
}
use tokenzero.Eviction.{
  CacheBreakpoint, EvictionCandidate, EvictionBatch, EvictionReplayItem, messages, tools, evict,
  ttl_from_gaps, schedule_evictions, simulate_eviction_replay, empty_ledger,
}
use tokenzero.Eviction.Schedule.{
  evicted_ids, PaysOff, schedule_evictions-PaysOff, schedule_evictions-batches,
}
use tokenzero.Eviction.Replay.{simulate_eviction_replay-le}
use tokenzero.Eviction.Ledger.{record_all, record_all-retries}

abbrev gaps : List ℕ
gaps = 400 ∷ 500 ∷ 10_000 ∷ []

abbrev hour : CacheBreakpoint
hour = record { ttl_seconds = 3_600; minimum_requests = 3; write_multiplier = 200 }

abbrev span : EvictionCandidate
span = record {
  id = codes "b";
  tier = messages;
  prefix_tokens = 1_000;
  prefix_rewrite_cost_tokens = 500;
  expected_remaining_requests = 3;
  read_savings_tokens = 400;
}

abbrev candidates : List EvictionCandidate
candidates =
    span ∷ record span { id = codes "x"; tier = tools } ∷ record span { id = codes "a" } ∷ []

schedule_evictions-PaysOff_example :
    let s = schedule_evictions anthropic 7 gaps candidates in
    (map (λ d. d.candidate) s.decisions ≡ candidates)
    × All (λ d. (d.kind ≡ evict) ↔ PaysOff anthropic gaps d.candidate) s.decisions
schedule_evictions-PaysOff_example = schedule_evictions-PaysOff anthropic 7 gaps candidates

schedule_evictions-batches_example :
    let s = schedule_evictions anthropic 7 gaps candidates in
    ((evicted_ids s.decisions ≡ []) × (s.batches ≡ []))
    ⊎ ((b : CacheBreakpoint) × (batch : EvictionBatch) × (ttl_from_gaps anthropic gaps ≡ some b)
        × (s.batches ≡ batch ∷ [])
        × Perm batch.candidate_ids (evicted_ids s.decisions)
        × IsSorted text_ltb batch.candidate_ids
        × (batch.ttl_seconds ≡ b.ttl_seconds)
        × (batch.cache_breakpoint_at_seconds ≡ sat_add 7 b.ttl_seconds))
schedule_evictions-batches_example = schedule_evictions-batches anthropic 7 gaps candidates

abbrev replay : List EvictionReplayItem
replay = record { candidate = span; observed_remaining_requests = 4 } ∷ []

simulate_eviction_replay-le_example :
    let r = simulate_eviction_replay anthropic 7 gaps replay in
    (r.scheduled_billed_tokens ≤ r.naive_billed_tokens)
    × (r.scheduled_billed_tokens + r.saved_billed_tokens ≡ r.naive_billed_tokens)
simulate_eviction_replay-le_example =
    simulate_eviction_replay-le anthropic 7 gaps replay (omega arith)

abbrev events : List (Text × ℕ)
events = (codes "e1", 5) ∷ (codes "e2", 7) ∷ []

abbrev retries : List (Text × ℕ)
retries = (codes "e2", 9) ∷ []

record_all-retries_example :
    record_all empty_ledger (events ++ retries) ≡ record_all empty_ledger events
unfolding text_eq
record_all-retries_example = record_all-retries empty_ledger events retries (refl, tt)
