-- ===== src/WorkingSet/Book/Exact.antt =====
-- Evicting a span and rehydrating its ref shows the same texts again.
use tokenzero.Base.{
  ℕ, zero, suc, ◌+◌, ◌≤◌, ◌≡◌, ◌≢◌, refl, sym, ap, ◌∙◌, subst, true, false, none, some, List, [],
  ◌∷◌, map, Text, text_eq_refl, split_once, set, sum, arith, leb, get_elem?, sat_add, ok,
}
use tokenzero.WorkingSet.Host.{Host}
use tokenzero.WorkingSet.State.{
  SpanAnchor, EvictedSpan, resident, evicted, ResidentSpan, EvictedRefs, WorkingSet, visible_text,
  visible_lines, find_span, update_span, note_admission, refresh_rates, record_rehydration_latency,
}
use tokenzero.WorkingSet.Refs.{get_ref, push_ref, min_id, lookup_id}
use tokenzero.WorkingSet.Ops.{
  and_then, format_ref_line, paged_out, page_out_span, page_out_body, page_out_entry, page_out_at,
  enforce_loop, enforce_budget, evict, evict_at, resident_index, used_tokens, remove_evicted_ref,
}
use tokenzero.WorkingSet.Rehydrate.{
  RefParts, ref_parts, note_lookup, note_fault, restore_whole, settled, settle, expanded,
  expand_span, expand_owned, expand_parts, rehydrate_ref, queue_prefetch_hints,
}
use tokenzero.WorkingSet.Book.{ids, Distinct, IsValid}
use tokenzero.WorkingSet.Book.Spans.{find_span-set, id_among}

-- The texts of the spans after the span at an index was paged out and restored.
visible-restored :
    (spans : List ResidentSpan) (i : ℕ) (s : ResidentSpan) (ref line text : Text) (n : ℕ)
    → Distinct (ids spans)
    → get_elem? spans i ≡ some s
    → s.body ≡ resident text
    → map
        (λ u. visible_text u.body)
        (update_span s.id
          (λ u. record u { body = resident text; last_touched = n })
          (set spans i (record s { body = evicted ref line })))
      ≡ map (λ u. visible_text u.body) spans
unfolding visible_text update_span
visible-restored [] i s ref line text n d h e = refl
visible-restored (t ∷ spans) zero s ref line text n (p, d) h e =
    let same : s ≡ t = ground arith in
    let shown : visible_text t.body ≡ text =
      subst (λ u. visible_text u.body ≡ text) same (rw e refl) in
    ground (arith, shown)
visible-restored (t ∷ spans) (suc i) s ref line text n (p, d) h e =
    let other : t.id ≢ s.id = λ q. id_among spans i s t.id h p (sym q) in
    ground (arith, other, visible-restored spans i s ref line text n d h e)

get_ref-push_ref :
    (refs : EvictedRefs) (key : Text) (id : ℕ)
    → get_ref key refs ≡ none
    → get_ref key (push_ref key id refs) ≡ some (id ∷ [])
unfolding get_ref push_ref
get_ref-push_ref [] key id h = ground (arith, text_eq_refl key)
get_ref-push_ref ((k, found) ∷ refs) key id h = ground (arith, get_ref-push_ref refs key id)

lookup_id-push_ref :
    (refs : EvictedRefs) (key : Text) (id : ℕ)
    → get_ref key refs ≡ none
    → lookup_id key (push_ref key id refs) ≡ some id
unfolding lookup_id min_id
lookup_id-push_ref refs key id h = rw (get_ref-push_ref refs key id h, lookup_id) refl

ref_parts-whole :
    (ref : Text)
    → split_once b'#' ref ≡ none
    → ref_parts ref ≡ some (record { base = ref; window = none; fragment = none })
unfolding ref_parts
ref_parts-whole ref h = rw (h, ref_parts) refl

module _ (host : Host) where
  open host use {Store, StoreError, count_tokens, store_blob, expand}

  page_out_at_found :
      (w : WorkingSet) (store store1 : Store) (i : ℕ) (s : ResidentSpan) (text ref : Text)
      → get_elem? w.spans i ≡ some s
      → s.body ≡ resident text
      → store_blob store text ≡ (ok ref, store1)
      → page_out_at host w store i
        ≡ (ok ((paged_out host w i s text ref).1), (paged_out host w i s text ref).0, store1)
  unfolding page_out_at page_out_span
  page_out_at_found w store store1 i s text ref h e stored =
      ap (page_out_entry host w store i) h
      ∙ ap (page_out_body host w store i s) e
      ∙ ap (page_out_span host w i s text) stored

  evict_found :
      (w : WorkingSet) (store store1 : Store) (id i : ℕ) (s : ResidentSpan) (text ref : Text)
      → resident_index id 0 w.spans ≡ some i
      → get_elem? w.spans i ≡ some s
      → s.body ≡ resident text
      → store_blob store text ≡ (ok ref, store1)
      → evict host w store id
        ≡ (ok (some ((paged_out host w i s text ref).1)), (paged_out host w i s text ref).0, store1)
  unfolding evict and_then
  evict_found w store store1 id i s text ref at h e stored =
      ap (evict_at host w store) at
      ∙ ap (λ o. and_then host o (λ span w' store'. (ok (some span), w', store')))
          (page_out_at_found w store store1 i s text ref h e stored)

  -- A budget that is kept pages nothing out.
  enforce_budget_kept :
      (w : WorkingSet) (store : Store)
      → used_tokens host w.spans ≤ w.budget_tokens
      → enforce_budget host w store ≡ (ok [], w, store)
  unfolding enforce_budget enforce_loop
  enforce_budget_kept w store h =
      let kept : leb (used_tokens host w.spans) w.budget_tokens ≡ true = ground (arith, h) in
      rw kept refl

  used_tokens-visible :
      (spans spans' : List ResidentSpan)
      → map (λ u. visible_text u.body) spans ≡ map (λ u. visible_text u.body) spans'
      → used_tokens host spans ≡ used_tokens host spans'
  unfolding used_tokens
  used_tokens-visible spans spans' h =
      fused spans ∙ ap (λ texts. sum (map count_tokens texts)) h ∙ sym (fused spans')
    where
      fused :
          (rest : List ResidentSpan)
          → used_tokens host rest ≡ sum (map count_tokens (map (λ u. visible_text u.body) rest))
      fused [] = refl
      fused (u ∷ rest) = ap (◌+◌ (count_tokens (visible_text u.body))) (fused rest)

  -- Rehydrating the ref of a whole span that the store expands ends in `settle`.
  rehydrate_found :
      (w : WorkingSet) (store store' : Store) (s : ResidentSpan) (ref line text : Text)
      (elapsed : ℕ)
      → split_once b'#' ref ≡ none
      → lookup_id ref w.evicted_refs ≡ some s.id
      → find_span s.id w.spans ≡ some (record s { body = evicted ref line })
      → expand store ref none none ≡ (record { found = true; content = text }, store')
      → let restored =
          restore_whole host
            (refresh_rates (record_rehydration_latency (note_fault (note_lookup w)) elapsed))
            store'
            s.id
            text in
        rehydrate_ref host w store ref none none elapsed
        ≡ settle host restored.0 restored.1 s.id s.anchor false ref text
  unfolding rehydrate_ref expanded note_lookup note_fault refresh_rates record_rehydration_latency
  rehydrate_found w store store' s ref line text elapsed hash owner found expands =
      let parts : RefParts = record { base = ref; window = none; fragment = none } in
      ap (λ p. expand_parts host (note_lookup w) store ref p none none elapsed)
        (ref_parts-whole ref hash)
      ∙ ap (λ o. expand_owned host (note_lookup w) store parts ref o none none elapsed) owner
      ∙ ap
          (λ o.
            expand_span host (note_fault (note_lookup w)) store parts s.id ref o none none elapsed)
          found
      ∙ ap
          (λ a.
            expanded host
              (refresh_rates (record_rehydration_latency (note_fault (note_lookup w)) elapsed)) s.id
              ref (record s { body = evicted ref line }) ref none none a.0 a.1)
          expands

  settle_kept :
      (w : WorkingSet) (store : Store) (id : ℕ) (anchor : SpanAnchor) (canonical content : Text)
      → used_tokens host w.spans ≤ w.budget_tokens
      → settle host w store id anchor false canonical content ≡ (
        ok (some (record { id = id; anchor = anchor; partial = false; evicted = [] })),
        settled host w id anchor canonical content,
        store,
      )
  unfolding settle settled queue_prefetch_hints refresh_rates and_then
  settle_kept w store id anchor canonical content h =
      ap
        (λ o. and_then host o (λ gone w' store'. (
          ok (some (record { id = id; anchor = anchor; partial = false; evicted = gone })),
          w',
          store',
        )))
        (enforce_budget_kept (settled host w id anchor canonical content) store h)

  -- Evicting a resident span and rehydrating the ref that the store gave it shows the same texts
  -- again, under its id and anchor: if the books are sound, the ref is new and has no fragment, the
  -- store expands it to the text that was stored under it, and the budget was kept.
  pub rehydrate_ref-evict :
      (w : WorkingSet) (store store1 store2 : Store) (id i : ℕ) (s : ResidentSpan) (text ref : Text)
      (elapsed : ℕ)
      → IsValid w
      → resident_index id 0 w.spans ≡ some i
      → get_elem? w.spans i ≡ some s
      → s.body ≡ resident text
      → store_blob store text ≡ (ok ref, store1)
      → expand store1 ref none none ≡ (record { found = true; content = text }, store2)
      → split_once b'#' ref ≡ none
      → get_ref ref w.evicted_refs ≡ none
      → used_tokens host w.spans ≤ w.budget_tokens
      → (w1 w2 : WorkingSet) × (store3 : Store) × (gone : EvictedSpan) × (evict host w store id
          ≡ (ok (some gone), w1, store1))
        × (rehydrate_ref host w1 store1 ref none none elapsed ≡ (
          ok (some (record { id = s.id; anchor = s.anchor; partial = false; evicted = [] })),
          w2,
          store3,
        ))
        × (visible_lines w2 ≡ visible_lines w)
  unfolding paged_out restore_whole remove_evicted_ref note_admission settled queue_prefetch_hints
      refresh_rates record_rehydration_latency note_fault note_lookup visible_lines
  rehydrate_ref-evict w store store1 store2 id i s text ref elapsed v at h e stored expands hash
        fresh kept =
      let line : Text = format_ref_line host ref s.anchor in
      let w1 : WorkingSet = (paged_out host w i s text ref).0 in
      let restored =
        restore_whole host
          (refresh_rates (record_rehydration_latency (note_fault (note_lookup w1)) elapsed)) store2
          s.id text in
      let same : visible_lines restored.0 ≡ visible_lines w =
        visible-restored w.spans i s ref line text (sat_add w.sequence 1) v.distinct h e in
      (
        w1,
        settled host restored.0 s.id s.anchor ref text,
        restored.1,
        (paged_out host w i s text ref).1,
        evict_found w store store1 id i s text ref at h e stored,
        rehydrate_found w1 store1 store2 s ref line text elapsed hash
              (lookup_id-push_ref w.evicted_refs ref s.id fresh)
              (find_span-set w.spans i s (record s { body = evicted ref line }) s.id v.distinct h
                  refl
                ∙ ground arith)
              expands
            ∙ settle_kept restored.0 restored.1 s.id s.anchor ref text (
                subst (λ n. n ≤ w.budget_tokens)
                  (sym (used_tokens-visible restored.0.spans w.spans same)) kept),
        same,
      )
