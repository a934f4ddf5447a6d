-- ===== src/Eviction.antt =====
-- crates/tokenzero-engine/src/eviction_scheduler.rs: cache windows, the eviction schedule, the
-- replay simulation and the savings ledger.
pub mod Windows
pub mod Schedule
pub mod Replay
pub mod Ledger
mod Tests
use tokenzero.Base.Providers.{CacheProvider, anthropic, open_ai, gemini}
use tokenzero.Base.Sorting.{sort}
use tokenzero.Base.{
  ℕ, suc, ◌+◌, ◌-◌, ◌*◌, Bool, true, false, not, ◌&&◌, ◌||◌, Option, none, some, List, [], ◌∷◌,
  ◌++◌, map, Text, text_eq, text_ltb, leb, ltb, ◌==◌, if◌then◌else◌, length, any, sat_add, sat_mul,
}

pub data PrefixTier : Type 0 where
  system tools messages : PrefixTier

-- `write_multiplier` in hundredths.
pub record CacheBreakpoint : Type 0 where
  pub ttl_seconds : ℕ
  pub minimum_requests : ℕ
  pub write_multiplier : ℕ

abbrev pub openai_max_retention_seconds : ℕ
openai_max_retention_seconds = 86_400

abbrev window : ℕ → ℕ → ℕ → CacheBreakpoint
window ttl requests multiplier = record {
  ttl_seconds = ttl;
  minimum_requests = requests;
  write_multiplier = multiplier;
}

unfoldable pub provider_breakpoints : CacheProvider → List CacheBreakpoint
provider_breakpoints anthropic = window 300 2 125 ∷ window 3_600 3 200 ∷ []
provider_breakpoints open_ai = window openai_max_retention_seconds 2 100 ∷ []
provider_breakpoints gemini = window 3_600 2 100 ∷ []

-- `scan`, `take_while`, `count`: the requests whose summed gap stays within the window.
unfoldable pub retained : ℕ → ℕ → List ℕ → ℕ
retained ttl elapsed [] = 0
retained ttl elapsed (gap ∷ gaps) =
    let rest = retained ttl (sat_add elapsed gap) gaps in
    if leb (sat_add elapsed gap) ttl then suc rest else 0

unfoldable pub amortizes : List ℕ → CacheBreakpoint → Bool
unfolding retained
amortizes gaps b = leb b.minimum_requests (sat_add 1 (retained b.ttl_seconds 0 gaps))

unfoldable pub find {ℓ} : {A : Type ℓ} → (A → Bool) → List A → Option A
find p [] = none
find p (x ∷ xs) = let rest = find p xs in if p x then some x else rest

unfoldable pub ttl_from_gaps : CacheProvider → List ℕ → Option CacheBreakpoint
unfolding provider_breakpoints amortizes find
ttl_from_gaps provider gaps = find (amortizes gaps) (provider_breakpoints provider)

pub record EvictionCandidate : Type 0 where
  pub id : Text
  pub tier : PrefixTier
  pub prefix_tokens : ℕ
  pub prefix_rewrite_cost_tokens : ℕ
  pub expected_remaining_requests : ℕ
  pub read_savings_tokens : ℕ

pub data EvictionDecisionKind : Type 0 where
  evict preserve_protected_tier : EvictionDecisionKind
  preserve_negative_expected_value preserve_no_viable_ttl : EvictionDecisionKind

pub record EvictionDecision : Type 0 where
  pub candidate : EvictionCandidate
  pub kind : EvictionDecisionKind
  pub ttl_seconds : Option ℕ
  pub cache_breakpoint_at_seconds : Option ℕ
  pub expected_read_savings_tokens : ℕ

pub record EvictionBatch : Type 0 where
  pub cache_breakpoint_at_seconds : ℕ
  pub ttl_seconds : ℕ
  pub candidate_ids : List Text

pub record EvictionSchedule : Type 0 where
  pub decisions : List EvictionDecision
  pub batches : List EvictionBatch

abbrev pub is_messages : PrefixTier → Bool
is_messages messages = true
is_messages _ = false

abbrev pub is_evict : EvictionDecisionKind → Bool
is_evict evict = true
is_evict _ = false

abbrev pub expected_savings : EvictionCandidate → ℕ
expected_savings c = sat_mul c.expected_remaining_requests c.read_savings_tokens

unfoldable pub kind_of : Option CacheBreakpoint → EvictionCandidate → EvictionDecisionKind
kind_of breakpoint c =
    if not (is_messages c.tier) then preserve_protected_tier else elim breakpoint [
      | none ↦ preserve_no_viable_ttl
      | some _ ↦
          if leb (expected_savings c) c.prefix_rewrite_cost_tokens
          then preserve_negative_expected_value
          else evict
    ]

-- `(kind == Evict).then(|| breakpoint.expect(…).ttl_seconds)`; without a breakpoint the kind is
-- never `evict`.
abbrev ttl_of : EvictionDecisionKind → Option CacheBreakpoint → Option ℕ
ttl_of kind none = none
ttl_of kind (some b) = if is_evict kind then some b.ttl_seconds else none

abbrev map_option {ℓ κ} : {A : Type ℓ} {B : Type κ} → (A → B) → Option A → Option B
map_option f none = none
map_option f (some a) = some (f a)

unfoldable pub decide : Option CacheBreakpoint → ℕ → EvictionCandidate → EvictionDecision
unfolding kind_of
decide breakpoint now c =
    let ttl = ttl_of (kind_of breakpoint c) breakpoint in
    record {
      candidate = c;
      kind = kind_of breakpoint c;
      ttl_seconds = ttl;
      cache_breakpoint_at_seconds = map_option (sat_add now) ttl;
      expected_read_savings_tokens = expected_savings c;
    }

-- The `BTreeMap` from (time, ttl) to ids, as a list in the order of its keys.
abbrev pub Groups : Type 0
Groups = List (ℕ × ℕ × List Text)

abbrev key_lt : ℕ → ℕ → ℕ → ℕ → Bool
key_lt at ttl at' ttl' = ltb at at' || (at == at' && ltb ttl ttl')

-- `entry((at, ttl)).or_default().push(id)`
unfoldable pub push_group : ℕ → ℕ → Text → Groups → Groups
push_group at ttl id [] = (at, ttl, id ∷ []) ∷ []
push_group at ttl id ((at', ttl', ids) ∷ groups) =
    let later = (at', ttl', ids) ∷ push_group at ttl id groups in
    if at == at' && ttl == ttl'
    then (at', ttl', ids ++ id ∷ []) ∷ groups
    else if key_lt at ttl at' ttl'
    then (at, ttl, id ∷ []) ∷ (at', ttl', ids) ∷ groups
    else later

abbrev group_one : EvictionDecision → Option ℕ → Option ℕ → Groups → Groups
group_one d (some at) (some ttl) groups = push_group at ttl d.candidate.id groups
group_one d _ _ groups = groups

unfoldable pub group : List EvictionDecision → Groups → Groups
unfolding push_group
group [] groups = groups
group (d ∷ ds) groups = group ds (group_one d d.cache_breakpoint_at_seconds d.ttl_seconds groups)

unfoldable pub batch_of : ℕ × ℕ × List Text → EvictionBatch
batch_of (at, ttl, ids) = record {
  cache_breakpoint_at_seconds = at;
  ttl_seconds = ttl;
  candidate_ids = sort text_ltb ids;
}

unfoldable pub schedule_evictions :
    CacheProvider → ℕ → List ℕ → List EvictionCandidate → EvictionSchedule
unfolding group batch_of
schedule_evictions provider now gaps candidates =
    let decisions = map (decide (ttl_from_gaps provider gaps) now) candidates in
    record { decisions = decisions; batches = map batch_of (group decisions []) }

pub record EvictionReplayItem : Type 0 where
  pub candidate : EvictionCandidate
  pub observed_remaining_requests : ℕ

pub record EvictionReplayReport : Type 0 where
  pub naive_billed_tokens : ℕ
  pub scheduled_billed_tokens : ℕ
  pub saved_billed_tokens : ℕ
  pub schedule : EvictionSchedule

abbrev pub uncached : EvictionReplayItem → ℕ
uncached item = sat_mul item.observed_remaining_requests item.candidate.prefix_tokens

-- What the schedule bills for one item.
abbrev pub scheduled : EvictionReplayItem → EvictionDecision → ℕ
scheduled item d =
    let c = item.candidate in
    if is_evict d.kind
    then sat_add c.prefix_rewrite_cost_tokens
        (sat_mul item.observed_remaining_requests (c.prefix_tokens - c.read_savings_tokens))
    else uncached item

-- The loop over the items zipped with their decisions: the two sums.
unfoldable pub bill : List EvictionReplayItem → List EvictionDecision → ℕ → ℕ → ℕ × ℕ
bill (item ∷ items) (d ∷ ds) naive billed =
    bill items ds (sat_add naive (uncached item)) (sat_add billed (scheduled item d))
bill _ _ naive billed = (naive, billed)

unfoldable pub simulate_eviction_replay :
    CacheProvider → ℕ → List ℕ → List EvictionReplayItem → EvictionReplayReport
unfolding bill
simulate_eviction_replay provider now gaps replay =
    let schedule = schedule_evictions provider now gaps (map (λ item. item.candidate) replay) in
    let (naive, billed) = bill replay schedule.decisions 0 0 in
    record {
      naive_billed_tokens = naive;
      scheduled_billed_tokens = billed;
      saved_billed_tokens = naive - billed;
      schedule = schedule;
    }

-- `EvictionSavingsLedger`; the `BTreeSet` of event ids as a list.
pub record EvictionSavingsLedger : Type 0 where
  pub recorded_event_ids : List Text
  pub saved_billed_tokens : ℕ

abbrev pub empty_ledger : EvictionSavingsLedger
empty_ledger = record { recorded_event_ids = []; saved_billed_tokens = 0 }

unfoldable pub record_once : EvictionSavingsLedger → Text → ℕ → EvictionSavingsLedger × Bool
record_once ledger event_id saved =
    if any (text_eq event_id) ledger.recorded_event_ids then (ledger, false) else (
      record {
        recorded_event_ids = event_id ∷ ledger.recorded_event_ids;
        saved_billed_tokens = sat_add ledger.saved_billed_tokens saved;
      },
      true,
    )

-- The two numbers of `eviction_amortization`.
abbrev pub eviction_amortization : EvictionSavingsLedger → ℕ × ℕ
eviction_amortization ledger = (ledger.saved_billed_tokens, length ledger.recorded_event_ids)
