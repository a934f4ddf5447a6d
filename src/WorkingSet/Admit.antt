-- ===== src/WorkingSet/Admit.antt =====
-- `admit` and its two wrappers, `link_refs`.
use tokenzero.Base.{
  ℕ, zero, suc, ◌-◌, Bool, true, false, not, ◌||◌, Option, none, some, List, [], ◌∷◌, Text, text_eq,
  ltb, ◌==◌, if◌then◌else◌, set, all, filter, sat_add, Result, ok, err,
}
use tokenzero.WorkingSet.Delta.{delta_between, acknowledgement}
use tokenzero.WorkingSet.Host.{Host}
use tokenzero.WorkingSet.Refs.{contains_id, get_ref, push_missing}
use tokenzero.WorkingSet.State.{
  SpanAnchor, anchor_eq, EvictedSpan, full, already_resident, delta, Admission, SpanBody, resident,
  evicted, ResidentSpan, WorkingSet, find_span, push_resident,
}
use tokenzero.WorkingSet.Ops.{
  recovery, invalid_window, Outcome, already_resident_atom, enforce_budget, remove_evicted_ref,
  and_then,
}

-- `position(|span| span.anchor == anchor)`, with the span that it finds.
unfoldable pub anchored : SpanAnchor → ℕ → List ResidentSpan → Option (ℕ × ResidentSpan)
anchored anchor index [] = none
anchored anchor index (s ∷ spans) =
    let rest = anchored anchor (suc index) spans in
    if anchor_eq s.anchor anchor then some (index, s) else rest

-- `spans.remove(index)`
unfoldable pub remove_at : List ResidentSpan → ℕ → List ResidentSpan
remove_at [] i = []
remove_at (s ∷ spans) zero = spans
remove_at (s ∷ spans) (suc i) = s ∷ remove_at spans i

abbrev replacement_of : Option ResidentSpan → Option Text
replacement_of none = none
replacement_of (some s) = elim s.body [ resident _ ↦ none | evicted _ text ↦ some text ]

abbrev pub is_empty : Text → Bool
is_empty [] = true
is_empty (_ ∷ _) = false

abbrev pub already_linked : List ℕ → Option (List ℕ) → Bool
already_linked ids none = false
already_linked ids (some entry) = all (λ id. contains_id id entry) ids

module _ (host : Host) where
  open host use {Store, StoreError, count_tokens, store_alias}

  -- The state after the same text was admitted again at index `i`.
  unfoldable pub hit : WorkingSet → ℕ → ResidentSpan → Text → WorkingSet
  hit w i span text =
      let sequence = sat_add w.sequence 1 in
      let saved = count_tokens text - count_tokens already_resident_atom in
      record w {
        sequence = sequence;
        spans = set w.spans i (record span { last_touched = sequence });
        telemetry = record w.telemetry {
          resident_hits = sat_add w.telemetry.resident_hits 1;
          dedup_tokens_saved = sat_add w.telemetry.dedup_tokens_saved saved;
        };
      }

  -- The state after a changed text was admitted as a delta, before the budget is enforced.
  unfoldable pub patched : WorkingSet → ℕ → ResidentSpan → Text → Text → WorkingSet
  patched w i span text ack =
      let sequence = sat_add w.sequence 1 in
      let saved = count_tokens text - count_tokens ack in
      record w {
        sequence = sequence;
        spans = set w.spans i (record span { last_touched = sequence; body = resident text });
        telemetry = record w.telemetry {
          delta_renders = sat_add w.telemetry.delta_renders 1;
          dedup_tokens_saved = sat_add w.telemetry.dedup_tokens_saved saved;
        };
      }

  -- What follows the budget for the new span `id`.
  abbrev pub admitted : ℕ → Outcome host (List EvictedSpan) → Outcome host Admission
  admitted id (err e, w, store) =
      (err e, record w { spans = filter (λ s. not (s.id == id)) w.spans }, store)
  admitted id (ok gone, w, store) = (
    ok (record {
      id = id;
      replacement = replacement_of (find_span id w.spans);
      evicted = gone;
      response = full;
    }),
    w,
    store,
  )

  -- The end of `admit`: a new resident span, then the budget.
  unfoldable pub admit_new : WorkingSet → Store → Text → SpanAnchor → Outcome host Admission
  unfolding enforce_budget push_resident find_span
  admit_new w store text anchor =
      let (id, w1) = push_resident w text anchor in admitted id (enforce_budget host w1 store)

  -- A new admission after the stale span `id` was removed: a ref of it goes too.
  unfoldable pub readmit_body :
      WorkingSet → Store → Text → SpanAnchor → ℕ → SpanBody → Outcome host Admission
  unfolding admit_new remove_evicted_ref
  readmit_body w store text anchor id (resident _) = admit_new w store text anchor
  readmit_body w store text anchor id (evicted _ _) =
      let (w', store') = remove_evicted_ref host w store id in admit_new w' store' text anchor

  -- A changed evicted span, or a delta that saves nothing: the stale span goes first.
  unfoldable pub readmit :
      WorkingSet → Store → Text → SpanAnchor → ℕ → ResidentSpan → Outcome host Admission
  unfolding readmit_body remove_at
  readmit w store text anchor i span =
      readmit_body (record w { spans = remove_at w.spans i }) store text anchor span.id span.body

  unfoldable pub admit_delta :
      WorkingSet → Store → Text → SpanAnchor → ℕ → ResidentSpan → Text → Outcome host Admission
  unfolding readmit patched enforce_budget
  admit_delta w store text anchor i span previous =
      let change = delta_between previous text in
      let ack = acknowledgement change in
      if ltb (count_tokens ack) (count_tokens text)
      then and_then host (enforce_budget host (patched w i span text ack) store) (λ gone w' store'.
        (
          ok (record {
            id = span.id;
            replacement = none;
            evicted = gone;
            response = delta ack change;
          }),
          w',
          store',
        ))
      else readmit w store text anchor i span

  unfoldable pub admit_existing :
      WorkingSet → Store → Text → SpanAnchor → ℕ → ResidentSpan → SpanBody → Outcome host Admission
  unfolding readmit admit_delta hit
  admit_existing w store text anchor i span (evicted _ _) = readmit w store text anchor i span
  admit_existing w store text anchor i span (resident previous) =
      if text_eq previous text
      then (
        ok (record { id = span.id; replacement = none; evicted = []; response = already_resident }),
        hit w i span text,
        store,
      )
      else admit_delta w store text anchor i span previous

  abbrev pub admit_at :
      WorkingSet → Store → Text → SpanAnchor → Option (ℕ × ResidentSpan) → Outcome host Admission
  admit_at w store text anchor none = admit_new w store text anchor
  admit_at w store text anchor (some (i, span)) =
      admit_existing w store text anchor i span span.body

  unfoldable pub admit : WorkingSet → Store → Text → SpanAnchor → Outcome host Admission
  unfolding admit_existing admit_new anchored anchor_eq
  admit w store text anchor =
      if anchor.start_line == 0 || ltb anchor.end_line anchor.start_line
      then (err (invalid_window anchor.start_line anchor.end_line), w, store)
      else admit_at w store text anchor (anchored anchor 0 w.spans)

  unfoldable pub rewrite_render : WorkingSet → Store → Text → SpanAnchor → Outcome host Admission
  unfolding admit
  rewrite_render w store text anchor =
      let t = w.telemetry in
      admit (record w { telemetry = record t { render_rewrites = sat_add t.render_rewrites 1 } })
        store text anchor

  unfoldable pub apply_context_edit :
      WorkingSet → Store → Text → SpanAnchor → Outcome host Admission
  unfolding admit
  apply_context_edit w store text anchor =
      let t = w.telemetry in
      admit (record w { telemetry = record t { context_edits = sat_add t.context_edits 1 } }) store
        text anchor

  -- `store_alias(…)?` and what follows it.
  abbrev pub linked :
      WorkingSet → Text → List ℕ → Result StoreError (Unit {0}) × Store → Outcome host Bool
  linked w alias ids (err e, store) = (err (recovery e), w, store)
  linked w alias ids (ok _, store) =
      (ok true, record w { evicted_refs = push_missing alias ids w.evicted_refs }, store)

  abbrev pub link_ids : WorkingSet → Store → Text → Text → List ℕ → Outcome host Bool
  link_ids w store source alias [] = (ok false, w, store)
  link_ids w store source alias (id ∷ ids) =
      if already_linked (id ∷ ids) (get_ref alias w.evicted_refs)
      then (ok false, w, store)
      else linked w alias (id ∷ ids) (store_alias store alias source)

  abbrev pub link_entries : WorkingSet → Store → Text → Text → Option (List ℕ) → Outcome host Bool
  link_entries w store source alias none = (ok false, w, store)
  link_entries w store source alias (some ids) = link_ids w store source alias ids

  unfoldable pub link_refs : WorkingSet → Store → Text → Text → Outcome host Bool
  unfolding get_ref push_missing
  link_refs w store source alias =
      if is_empty source || (is_empty alias || text_eq source alias)
      then (ok false, w, store)
      else link_entries w store source alias (get_ref source w.evicted_refs)
