-- ===== src/WorkingSet/Rehydrate.antt =====
-- `rehydrate_ref`, `handle_fault_hook` and `queue_prefetch_hints`. The clock enters as the elapsed
-- microseconds.
use tokenzero.Base.{
  ℕ, ◌-◌, Bool, true, false, not, ◌&&◌, ◌||◌, Option, none, some, List, [], ◌∷◌, ◌++◌, Text,
  text_eq, split_once, ◌==◌, if◌then◌else◌, length, take, drop, sat_add, max, min, ok, err,
}
use tokenzero.WorkingSet.Delta.{split_exact_lines}
use tokenzero.WorkingSet.Host.{Host, ExpansionResult}
use tokenzero.WorkingSet.Refs.{lookup_id}
use tokenzero.WorkingSet.State.{
  SpanAnchor, Rehydration, PrefetchCandidate, SpanBody, resident, evicted, ResidentSpan, WorkingSet,
  find_span, update_span, push_resident, note_admission, record_rehydration_latency, refresh_rates,
}
use tokenzero.WorkingSet.Ops.{
  rehydrate_failed, panic, Outcome, parse_line_fragment, enforce_budget, remove_evicted_ref,
  and_then, max_prefetch_hints_per_fault, max_queued_prefetch_hints,
}

abbrev candidate_of :
    ℕ → Text → ResidentSpan → SpanBody → List PrefetchCandidate → List PrefetchCandidate
candidate_of fault_id fault_ref s (resident _) rest = rest
candidate_of fault_id fault_ref s (evicted ref_id _) rest =
    if not (s.id == fault_id) && not (text_eq ref_id fault_ref)
    then record { id = s.id; ref_id = ref_id; anchor = s.anchor } ∷ rest
    else rest

unfoldable pub prefetch_candidates : ℕ → Text → List ResidentSpan → List PrefetchCandidate
prefetch_candidates fault_id fault_ref [] = []
prefetch_candidates fault_id fault_ref (s ∷ spans) =
    candidate_of fault_id fault_ref s s.body (prefetch_candidates fault_id fault_ref spans)

-- The hook's first hint joins the queue, which then loses its oldest entries beyond the cap.
unfoldable pub queue_prefetch_hints : WorkingSet → SpanAnchor → ℕ → Text → WorkingSet
unfolding prefetch_candidates
queue_prefetch_hints w fault fault_id fault_ref =
    let hints =
      w.prefetch_hints
      ++ take max_prefetch_hints_per_fault
          (w.prefetch_hook fault (prefetch_candidates fault_id fault_ref w.spans)) in
    record w { prefetch_hints = drop (length hints - max_queued_prefetch_hints) hints }

abbrev pub or_else : Option ℕ → Option ℕ → Option ℕ
or_else none b = b
or_else (some a) b = some a

abbrev pub is_some : Option ℕ → Bool
is_some none = false
is_some (some _) = true

abbrev unwrap_or : Option ℕ → ℕ → ℕ
unwrap_or none d = d
unwrap_or (some n) d = n

-- A ref apart from its line fragment; `none` where a fragment cannot be read.
pub record RefParts : Type 0 where
  pub base : Text
  pub window : Option (ℕ × ℕ)
  pub fragment : Option Text

unfoldable pub ref_parts : Text → Option RefParts
unfolding split_once parse_line_fragment
ref_parts ref_id = elim (split_once b'#' ref_id) [
  | none ↦ some (record { base = ref_id; window = none; fragment = none })
  | some (base, fragment) ↦ elim (parse_line_fragment fragment) [
    | none ↦ none
    | some window ↦ some (record { base = base; window = some window; fragment = some fragment })
  ]
]

abbrev pub window_start : Option (ℕ × ℕ) → Option ℕ
window_start none = none
window_start (some (a, b)) = some a

abbrev pub window_end : Option (ℕ × ℕ) → Option ℕ
window_end none = none
window_end (some (a, b)) = some b

-- The anchor of the lines that a partial expansion returned, within the span's own lines.
unfoldable pub narrowed : SpanAnchor → Option ℕ → Option ℕ → Text → SpanAnchor
unfolding split_exact_lines
narrowed source start end content =
    let relative_start = max (unwrap_or start 1) 1 in
    let returned_lines = max (length (split_exact_lines content)) 1 in
    let requested_end = unwrap_or end (sat_add relative_start (returned_lines - 1)) in
    let relative_end = max requested_end relative_start in
    record source {
      start_line = sat_add source.start_line (relative_start - 1);
      end_line = min (sat_add source.start_line (relative_end - 1)) source.end_line;
    }

abbrev pub with_fragment : Text → Option Text → Text
with_fragment ref none = ref
with_fragment ref (some fragment) = ref ++ (b'#' ∷ fragment)

-- One more lookup, and one more fault.
unfoldable pub note_lookup : WorkingSet → WorkingSet
unfolding refresh_rates
note_lookup w =
    let t = w.telemetry in
    refresh_rates (record w { telemetry = record t { lookups = sat_add t.lookups 1 } })

unfoldable pub note_fault : WorkingSet → WorkingSet
note_fault w =
    let t = w.telemetry in record w { telemetry = record t { faults = sat_add t.faults 1 } }

module _ (host : Host) where
  open host use {Store, count_tokens, expand}

  -- The span becomes resident again, under its own id.
  unfoldable pub restore_whole : WorkingSet → Store → ℕ → Text → WorkingSet × Store
  unfolding note_admission remove_evicted_ref
  restore_whole w store id content =
      let sequence = sat_add w.sequence 1 in
      let w1 = record w {
        sequence = sequence;
        spans =
            update_span id (λ s. record s { body = resident content; last_touched = sequence })
              w.spans;
      } in
      let (w2, store') = remove_evicted_ref host w1 store id in (note_admission w2, store')

  -- The counters and hints behind a rehydration.
  unfoldable pub settled : WorkingSet → ℕ → SpanAnchor → Text → Text → WorkingSet
  unfolding queue_prefetch_hints refresh_rates
  settled w id anchor canonical content =
      let t = w.telemetry in
      let w1 = refresh_rates (record w {
        telemetry = record t {
          rehydrations = sat_add t.rehydrations 1;
          actual_rehydration_tokens = sat_add t.actual_rehydration_tokens (count_tokens content);
        };
      }) in
      queue_prefetch_hints w1 anchor id canonical

  -- Then the budget.
  unfoldable pub settle :
      WorkingSet → Store → ℕ → SpanAnchor → Bool → Text → Text → Outcome host (Option Rehydration)
  unfolding settled enforce_budget and_then
  settle w store id anchor partial canonical content =
      and_then host (enforce_budget host (settled w id anchor canonical content) store)
        (λ gone w' store'. (
          ok (some (record { id = id; anchor = anchor; partial = partial; evicted = gone })),
          w',
          store',
        ))

  -- What follows the store's answer.
  unfoldable pub expanded :
      WorkingSet
      → ℕ
      → Text
      → ResidentSpan
      → Text
      → Option ℕ
      → Option ℕ
      → ExpansionResult
      → Store
      → Outcome host (Option Rehydration)
  unfolding restore_whole settle narrowed push_resident
  expanded w id ref_id span canonical start end result store =
      if not result.found
      then (err (rehydrate_failed ref_id), w, store)
      else if is_some start || is_some end
      then (let anchor = narrowed span.anchor start end result.content in
          let (new_id, w1) = push_resident w result.content anchor in
          settle w1 store new_id anchor true canonical result.content)
      else let (w1, store') = restore_whole w store id result.content in
        settle w1 store' id span.anchor false canonical result.content

  abbrev pub expand_body :
      WorkingSet
      → Store
      → RefParts
      → ℕ
      → Text
      → ResidentSpan
      → SpanBody
      → Option ℕ
      → Option ℕ
      → ℕ
      → Outcome host (Option Rehydration)
  expand_body w store parts id ref_id span (resident _) start end elapsed = (err panic, w, store)
  expand_body w store parts id ref_id span (evicted canonical _) start end elapsed =
      let (result, store') = expand store (with_fragment canonical parts.fragment) start end in
      expanded (refresh_rates (record_rehydration_latency w elapsed)) id ref_id span canonical start
        end result store'

  -- The span that the index names, which must be there.
  abbrev pub expand_span :
      WorkingSet
      → Store
      → RefParts
      → ℕ
      → Text
      → Option ResidentSpan
      → Option ℕ
      → Option ℕ
      → ℕ
      → Outcome host (Option Rehydration)
  expand_span w store parts id ref_id none start end elapsed = (err panic, w, store)
  expand_span w store parts id ref_id (some span) start end elapsed =
      expand_body w store parts id ref_id span span.body (or_else (window_start parts.window) start)
        (or_else (window_end parts.window) end) elapsed

  -- A ref that the index does not have ends the call.
  abbrev pub expand_owned :
      WorkingSet
      → Store
      → RefParts
      → Text
      → Option ℕ
      → Option ℕ
      → Option ℕ
      → ℕ
      → Outcome host (Option Rehydration)
  expand_owned w store parts ref_id none start end elapsed = (ok none, w, store)
  expand_owned w store parts ref_id (some id) start end elapsed =
      expand_span (note_fault w) store parts id ref_id (find_span id w.spans) start end elapsed

  abbrev pub expand_parts :
      WorkingSet
      → Store
      → Text
      → Option RefParts
      → Option ℕ
      → Option ℕ
      → ℕ
      → Outcome host (Option Rehydration)
  expand_parts w store ref_id none start end elapsed = (ok none, w, store)
  expand_parts w store ref_id (some parts) start end elapsed =
      expand_owned w store parts ref_id (lookup_id parts.base w.evicted_refs) start end elapsed

  unfoldable pub rehydrate_ref :
      WorkingSet → Store → Text → Option ℕ → Option ℕ → ℕ → Outcome host (Option Rehydration)
  unfolding ref_parts lookup_id expanded refresh_rates record_rehydration_latency note_lookup
      note_fault
  rehydrate_ref w store ref_id start end elapsed =
      expand_parts (note_lookup w) store ref_id (ref_parts ref_id) start end elapsed

  unfoldable pub handle_fault_hook :
      WorkingSet → Store → Text → Option ℕ → Option ℕ → ℕ → Outcome host (Option Rehydration)
  unfolding rehydrate_ref
  handle_fault_hook w store ref_id start end elapsed =
      let t = w.telemetry in
      rehydrate_ref
        (record w { telemetry = record t { fault_hook_calls = sat_add t.fault_hook_calls 1 } })
        store ref_id start end elapsed
