-- ===== src/WorkingSet/State.antt =====
-- The state of `WorkingSet` and the types of its results. The f64 rates of the telemetry are
-- computed from the counters below and are left out.
use tokenzero.Base.{
  ℕ, ◌-◌, Bool, true, false, ◌&&◌, ◌||◌, Option, none, some, List, [], ◌∷◌, ◌++◌, Text, text_eq,
  map, ltb, ◌==◌, if◌then◌else◌, sat_add, max, min,
}
use tokenzero.WorkingSet.Delta.{WorkingSetDelta}
use tokenzero.WorkingSet.Paths.{path_eq}

pub record SpanAnchor : Type 0 where
  pub path : Text
  pub symbol : Option Text
  pub start_line : ℕ
  pub end_line : ℕ

abbrev option_eq : Option Text → Option Text → Bool
option_eq none none = true
option_eq (some a) (some b) = text_eq a b
option_eq _ _ = false

unfoldable pub anchor_eq : SpanAnchor → SpanAnchor → Bool
unfolding path_eq
anchor_eq a b =
    path_eq a.path b.path
    && (option_eq a.symbol b.symbol && (a.start_line == b.start_line && a.end_line == b.end_line))

pub record WorkingSetTelemetry : Type 0 where
  pub admissions : ℕ
  pub evictions : ℕ
  pub bytes_evicted : ℕ
  pub refs_created : ℕ
  pub lookups : ℕ
  pub faults : ℕ
  pub rehydrations : ℕ
  pub resident_hits : ℕ
  pub delta_renders : ℕ
  pub dedup_tokens_saved : ℕ
  pub churn : ℕ
  pub render_rewrites : ℕ
  pub fault_hook_calls : ℕ
  pub context_edits : ℕ
  pub actual_rehydration_tokens : ℕ
  pub thrash_worst_case_tokens : ℕ
  pub latency_samples : ℕ
  pub latency_min_us : ℕ
  pub latency_max_us : ℕ
  pub latency_total_us : ℕ

abbrev pub zero_telemetry : WorkingSetTelemetry
zero_telemetry = record {
  admissions = 0;
  evictions = 0;
  bytes_evicted = 0;
  refs_created = 0;
  lookups = 0;
  faults = 0;
  rehydrations = 0;
  resident_hits = 0;
  delta_renders = 0;
  dedup_tokens_saved = 0;
  churn = 0;
  render_rewrites = 0;
  fault_hook_calls = 0;
  context_edits = 0;
  actual_rehydration_tokens = 0;
  thrash_worst_case_tokens = 0;
  latency_samples = 0;
  latency_min_us = 0;
  latency_max_us = 0;
  latency_total_us = 0;
}

pub record EvictedSpan : Type 0 where
  pub id : ℕ
  pub ref_id : Text
  pub replacement : Text
  pub bytes_evicted : ℕ

pub data WorkingSetResponse : Type 0 where
  full already_resident : WorkingSetResponse
  delta : Text → WorkingSetDelta → WorkingSetResponse

pub record Admission : Type 0 where
  pub id : ℕ
  pub replacement : Option Text
  pub evicted : List EvictedSpan
  pub response : WorkingSetResponse

pub record Rehydration : Type 0 where
  pub id : ℕ
  pub anchor : SpanAnchor
  pub partial : Bool
  pub evicted : List EvictedSpan

pub record PrefetchCandidate : Type 0 where
  pub id : ℕ
  pub ref_id : Text
  pub anchor : SpanAnchor

pub record PrefetchHint : Type 0 where
  pub ref_id : Text
  pub anchor : SpanAnchor

abbrev pub PrefetchHook : Type 0
PrefetchHook = SpanAnchor → List PrefetchCandidate → List PrefetchHint

abbrev pub noop_prefetch : PrefetchHook
noop_prefetch fault candidates = []

-- The key by which `SameFileNeighborPrefetch` compares candidates.
abbrev distance : SpanAnchor → PrefetchCandidate → ℕ
distance fault c = max (c.anchor.start_line - fault.end_line) (fault.start_line - c.anchor.end_line)

abbrev nearer : SpanAnchor → PrefetchCandidate → PrefetchCandidate → Bool
nearer fault a b =
    ltb (distance fault a) (distance fault b)
    || (distance fault a == distance fault b && ltb a.id b.id)

-- `filter` on the path, then `min_by_key`.
unfoldable pub nearest : SpanAnchor → List PrefetchCandidate → Option PrefetchCandidate
unfolding path_eq
nearest fault [] = none
nearest fault (c ∷ cs) =
    let rest = nearest fault cs in
    if path_eq c.anchor.path fault.path
    then elim rest [ none ↦ some c | some d ↦ if nearer fault d c then some d else some c ]
    else rest

unfoldable pub same_file_neighbor_prefetch : PrefetchHook
unfolding nearest
same_file_neighbor_prefetch fault candidates = elim (nearest fault candidates) [
  | none ↦ []
  | some c ↦ record { ref_id = c.ref_id; anchor = c.anchor } ∷ []
]

pub data SpanBody : Type 0 where
  resident : Text → SpanBody
  evicted : Text → Text → SpanBody

pub record ResidentSpan : Type 0 where
  pub id : ℕ
  pub last_touched : ℕ
  pub anchor : SpanAnchor
  pub body : SpanBody

-- From a ref to the ids of the spans that it recovers: a `HashMap`, as a list.
abbrev pub EvictedRefs : Type 0
EvictedRefs = List (Text × List ℕ)

pub record WorkingSet : Type 0 where
  pub budget_tokens : ℕ
  pub sequence : ℕ
  pub spans : List ResidentSpan
  pub evicted_refs : EvictedRefs
  pub telemetry : WorkingSetTelemetry
  pub prefetch_hook : PrefetchHook
  pub prefetch_hints : List PrefetchHint
  pub evicted_tokens_total : ℕ
  pub max_evicted_tokens : ℕ

unfoldable pub new : ℕ → WorkingSet
new budget = record {
  budget_tokens = budget;
  sequence = 0;
  spans = [];
  evicted_refs = [];
  telemetry = zero_telemetry;
  prefetch_hook = noop_prefetch;
  prefetch_hints = [];
  evicted_tokens_total = 0;
  max_evicted_tokens = 0;
}

unfoldable pub register_prefetch_hook : WorkingSet → PrefetchHook → WorkingSet
register_prefetch_hook w hook = record w { prefetch_hook = hook }

unfoldable pub enable_same_file_neighbor_prefetch : WorkingSet → Bool → WorkingSet
enable_same_file_neighbor_prefetch w enabled = record w {
  prefetch_hook = if enabled then same_file_neighbor_prefetch else noop_prefetch;
}

unfoldable pub take_prefetch_hints : WorkingSet → List PrefetchHint × WorkingSet
take_prefetch_hints w = (w.prefetch_hints, record w { prefetch_hints = [] })

unfoldable pub visible_text : SpanBody → Text
visible_text (resident text) = text
visible_text (evicted ref replacement) = replacement

unfoldable pub visible_lines : WorkingSet → List Text
visible_lines w = map (λ s. visible_text s.body) w.spans

-- `spans.iter().find(|span| span.id == id)`
unfoldable pub find_span : ℕ → List ResidentSpan → Option ResidentSpan
find_span id [] = none
find_span id (s ∷ spans) = let rest = find_span id spans in if s.id == id then some s else rest

-- `spans.iter_mut().find(…)` and an assignment through the reference.
unfoldable pub update_span :
    ℕ → (ResidentSpan → ResidentSpan) → List ResidentSpan → List ResidentSpan
update_span id f [] = []
update_span id f (s ∷ spans) =
    let rest = s ∷ update_span id f spans in if s.id == id then f s ∷ spans else rest

unfoldable pub anchor_for_path : WorkingSet → Text → Option SpanAnchor
unfolding path_eq
anchor_for_path w path = go w.spans
  where
    go : List ResidentSpan → Option SpanAnchor
    go [] = none
    go (s ∷ spans) =
        let rest = go spans in if path_eq s.anchor.path path then some s.anchor else rest

abbrev pub touch_found : WorkingSet → ℕ → Option ResidentSpan → Bool × WorkingSet
touch_found w id none = (false, w)
touch_found w id (some _) =
    let sequence = sat_add w.sequence 1 in
    (
      true,
      record w {
        sequence = sequence;
        spans = update_span id (λ s. record s { last_touched = sequence }) w.spans;
      },
    )

unfoldable pub touch : WorkingSet → ℕ → Bool × WorkingSet
unfolding find_span
touch w id = touch_found w id (find_span id w.spans)

unfoldable pub note_admission : WorkingSet → WorkingSet
note_admission w = record w {
  telemetry = record w.telemetry {
    admissions = sat_add w.telemetry.admissions 1;
    churn = sat_add w.telemetry.churn 1;
  };
}

unfoldable pub push_resident : WorkingSet → Text → SpanAnchor → ℕ × WorkingSet
unfolding note_admission
push_resident w text anchor =
    let id = sat_add w.sequence 1 in
    (
      id,
      note_admission (record w {
        sequence = id;
        spans =
            w.spans
            ++ record { id = id; last_touched = id; anchor = anchor; body = resident text } ∷ [];
      }),
    )

unfoldable pub record_rehydration_latency : WorkingSet → ℕ → WorkingSet
record_rehydration_latency w elapsed =
    let t = w.telemetry in
    let samples = sat_add t.latency_samples 1 in
    record w {
      telemetry = record t {
        latency_samples = samples;
        latency_min_us = if samples == 1 then elapsed else min t.latency_min_us elapsed;
        latency_max_us = max t.latency_max_us elapsed;
        latency_total_us = sat_add t.latency_total_us elapsed;
      };
    }

-- The part of `refresh_rates` that is no f64.
unfoldable pub refresh_rates : WorkingSet → WorkingSet
refresh_rates w = record w {
  telemetry = record w.telemetry { thrash_worst_case_tokens = w.max_evicted_tokens };
}
