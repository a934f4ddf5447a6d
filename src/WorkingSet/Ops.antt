-- ===== src/WorkingSet/Ops.antt =====
-- The operations of `WorkingSet` that use the store, over any host. An operation returns its result
-- beside the working set and the store as it leaves them, on errors too.
use tokenzero.Base.Decimal.{show}
use tokenzero.Base.{
  ℕ, zero, suc, ◌+◌, ◌-◌, ◌*◌, Bool, true, false, ◌&&◌, ◌||◌, Option, none, some, List, [], ◌∷◌,
  ◌++◌, Text, codes, split_once, map, leb, ltb, ◌==◌, if◌then◌else◌, length, get_elem?, set,
  replicate, sum, sat_add, max, max_u64, Result, ok, err,
}
use tokenzero.WorkingSet.Host.{Host}
use tokenzero.WorkingSet.Refs.{push_ref, drop_id}
use tokenzero.WorkingSet.State.{
  SpanAnchor, EvictedSpan, SpanBody, resident, evicted, ResidentSpan, WorkingSet, visible_text,
  refresh_rates,
}

abbrev pub max_prefetch_hints_per_fault : ℕ
max_prefetch_hints_per_fault = 1

abbrev pub max_queued_prefetch_hints : ℕ
max_queued_prefetch_hints = 32

abbrev pub already_resident_atom : Text
already_resident_atom = codes "0"

-- `normalize_path`
unfoldable pub normalize_path : Text → Text
normalize_path = map (λ c. if c == b'\\' then b'/' else c)

-- `usize::from_str`: an optional `+`, then one or more digits of a number below 2^64.
parse_digits : Text → ℕ → Option ℕ
parse_digits [] n = some n
parse_digits (c ∷ s) n =
    let rest = parse_digits s (n * 10 + (c - b'0')) in
    if leb b'0' c && (leb c b'9' && leb (n * 10 + (c - b'0')) max_u64) then rest else none

unfoldable pub parse_usize : Text → Option ℕ
unfolding parse_digits
parse_usize [] = none
parse_usize (c ∷ []) = parse_digits (c ∷ []) 0
parse_usize (c ∷ d ∷ s) = if c == b'+' then parse_digits (d ∷ s) 0 else parse_digits (c ∷ d ∷ s) 0

abbrev valid_window : ℕ → ℕ → Option (ℕ × ℕ)
valid_window start end = if ltb 0 start && leb start end then some (start, end) else none

-- `parse_line_fragment`: `L5` or `L5-9`.
unfoldable pub parse_line_fragment : Text → Option (ℕ × ℕ)
unfolding parse_usize split_once
parse_line_fragment [] = none
parse_line_fragment (c ∷ range) =
    if c == b'L'
    then elim (split_once b'-' range) [
      | none ↦ elim (parse_usize range) [ none ↦ none | some line ↦ valid_window line line ]
      | some (a, b) ↦ elim (parse_usize a) [
        | none ↦ none
        | some start ↦ elim (parse_usize b) [ none ↦ none | some end ↦ valid_window start end ]
      ]
    ]
    else none

pub data Fault (E : Type 0) : Type 0 where
  recovery : E → Fault E
  invalid_window : ℕ → ℕ → Fault E
  rehydrate_failed : Text → Fault E
  panic : Fault E

-- `position(|span| span.id == id && matches!(span.body, Resident(_)))`, from an index on.
abbrev pub is_resident : SpanBody → Bool
is_resident (resident _) = true
is_resident (evicted _ _) = false

unfoldable pub resident_index : ℕ → ℕ → List ResidentSpan → Option ℕ
resident_index id index [] = none
resident_index id index (s ∷ spans) =
    let rest = resident_index id (suc index) spans in
    if s.id == id && is_resident s.body then some index else rest

-- What `enforce_budget` compares of a span above its floor: its index, last use, tokens and id.
pub record Victim : Type 0 where
  pub index : ℕ
  pub last_touched : ℕ
  pub tokens : ℕ
  pub id : ℕ

-- `min_by`: the longest unused first, of these the largest, of these the lowest id.
abbrev pub precedes : Victim → Victim → Bool
precedes a b =
    ltb a.last_touched b.last_touched
    || (a.last_touched == b.last_touched
        && (ltb b.tokens a.tokens || (a.tokens == b.tokens && ltb a.id b.id)))

abbrev pub better : Option Victim → Option Victim → Option Victim
better none b = b
better (some a) none = some a
better (some a) (some b) = if precedes b a then some b else some a

module _ (host : Host) where
  open host use {
    Store, StoreError, count_tokens, json_string, store_blob, store_alias, has_alias, remove_alias,
    expand,
  }

  -- A result, the working set and the store.
  abbrev pub Outcome : Type 0 → Type 0
  Outcome A = Result (Fault StoreError) A × WorkingSet × Store

  -- The `?` operator: an error ends the operation.
  unfoldable pub and_then :
      {A B : Type 0} → Outcome A → (A → WorkingSet → Store → Outcome B) → Outcome B
  and_then (err e, w, store) f = (err e, w, store)
  and_then (ok a, w, store) f = f a w store

  unfoldable pub format_ref_line : Text → SpanAnchor → Text
  unfolding normalize_path show
  format_ref_line ref_id anchor =
      codes "TZ-EVICT/1 ref="
      ++ (ref_id
          ++ (codes " path="
              ++ (json_string (normalize_path anchor.path)
                  ++ ((elim anchor.symbol [
                    | none ↦ []
                    | some symbol ↦ codes " symbol=" ++ json_string symbol
                  ])
                      ++ (codes " lines="
                          ++ (show anchor.start_line ++ (b'-' ∷ show anchor.end_line)))))))

  unfoldable pub used_tokens : List ResidentSpan → ℕ
  unfolding visible_text
  used_tokens spans = sum (map (λ s. count_tokens (visible_text s.body)) spans)

  -- The state after a resident span at an index was stored as a blob.
  unfoldable pub paged_out : WorkingSet → ℕ → ResidentSpan → Text → Text → WorkingSet × EvictedSpan
  unfolding refresh_rates push_ref format_ref_line
  paged_out w victim span text ref_id =
      let replacement = format_ref_line ref_id span.anchor in
      let tokens = count_tokens text in
      let t = w.telemetry in
      (
        refresh_rates (record w {
          spans = set w.spans victim (record span { body = evicted ref_id replacement });
          evicted_refs = push_ref ref_id span.id w.evicted_refs;
          evicted_tokens_total = sat_add w.evicted_tokens_total tokens;
          max_evicted_tokens = max w.max_evicted_tokens tokens;
          telemetry = record t {
            evictions = sat_add t.evictions 1;
            churn = sat_add t.churn 1;
            bytes_evicted = sat_add t.bytes_evicted (length text);
            refs_created = sat_add t.refs_created 1;
          };
        }),
        record {
          id = span.id;
          ref_id = ref_id;
          replacement = replacement;
          bytes_evicted = length text;
        },
      )

  -- `store_blob(…)?` and what follows it.
  unfoldable pub page_out_span :
      WorkingSet → ℕ → ResidentSpan → Text → Result StoreError Text × Store → Outcome EvictedSpan
  unfolding paged_out
  page_out_span w victim span text (err e, store) = (err (recovery e), w, store)
  page_out_span w victim span text (ok ref_id, store) =
      let (w', record_of) = paged_out w victim span text ref_id in (ok record_of, w', store)

  abbrev pub page_out_body : WorkingSet → Store → ℕ → ResidentSpan → SpanBody → Outcome EvictedSpan
  page_out_body w store victim span (resident text) =
      page_out_span w victim span text (store_blob store text)
  page_out_body w store victim span (evicted _ _) = (err panic, w, store)

  abbrev pub page_out_entry : WorkingSet → Store → ℕ → Option ResidentSpan → Outcome EvictedSpan
  page_out_entry w store victim none = (err panic, w, store)
  page_out_entry w store victim (some span) = page_out_body w store victim span span.body

  unfoldable pub page_out_at : WorkingSet → Store → ℕ → Outcome EvictedSpan
  unfolding page_out_span
  page_out_at w store victim = page_out_entry w store victim (get_elem? w.spans victim)

  abbrev pub floor_tokens : SpanAnchor → ℕ
  floor_tokens anchor =
      count_tokens (format_ref_line (codes "tz://blob/" ++ replicate 64 b'0') anchor)

  abbrev pub as_victim : ℕ → ResidentSpan → SpanBody → Option Victim
  as_victim index span (resident text) =
      if ltb (floor_tokens span.anchor) (count_tokens text)
      then some (record {
        index = index;
        last_touched = span.last_touched;
        tokens = count_tokens text;
        id = span.id;
      })
      else none
  as_victim index span (evicted _ _) = none

  unfoldable pub choose_victim : ℕ → List ResidentSpan → Option Victim
  unfolding format_ref_line
  choose_victim index [] = none
  choose_victim index (span ∷ spans) =
      better (as_victim index span span.body) (choose_victim (suc index) spans)

  -- One round of the loop of `enforce_budget`: the chosen span is paged out, and the loop goes on.
  abbrev pub enforce_round :
      (WorkingSet → Store → List EvictedSpan → Outcome (List EvictedSpan))
      → WorkingSet
      → Store
      → List EvictedSpan
      → Option Victim
      → Outcome (List EvictedSpan)
  enforce_round next w store done none = (ok done, w, store)
  enforce_round next w store done (some victim) =
      and_then (page_out_at w store victim.index)
        (λ span w' store'. next w' store' (done ++ span ∷ []))

  unfoldable pub enforce_loop :
      ℕ → WorkingSet → Store → List EvictedSpan → Outcome (List EvictedSpan)
  unfolding used_tokens choose_victim page_out_at and_then
  enforce_loop zero w store done = (ok done, w, store)
  enforce_loop (suc fuel) w store done =
      if leb (used_tokens w.spans) w.budget_tokens
      then (ok done, w, store)
      else enforce_round (enforce_loop fuel) w store done (choose_victim 0 w.spans)

  unfoldable pub enforce_budget : WorkingSet → Store → Outcome (List EvictedSpan)
  enforce_budget w store = enforce_loop (suc (length w.spans)) w store []

  abbrev pub evict_at : WorkingSet → Store → Option ℕ → Outcome (Option EvictedSpan)
  evict_at w store none = (ok none, w, store)
  evict_at w store (some victim) =
      and_then (page_out_at w store victim) (λ span w' store'. (ok (some span), w', store'))

  unfoldable pub evict : WorkingSet → Store → ℕ → Outcome (Option EvictedSpan)
  unfolding page_out_at and_then resident_index
  evict w store id = evict_at w store (resident_index id 0 w.spans)

  -- The aliases of the keys that `remove_evicted_ref` removes.
  unfoldable pub remove_aliases : List Text → Store → Store
  remove_aliases [] store = store
  remove_aliases (key ∷ keys) store =
      remove_aliases keys (if has_alias store key then remove_alias store key else store)

  unfoldable pub remove_evicted_ref : WorkingSet → Store → ℕ → WorkingSet × Store
  unfolding drop_id remove_aliases
  remove_evicted_ref w store id =
      let (refs, empty) = drop_id id w.evicted_refs in
      (record w { evicted_refs = refs }, remove_aliases empty store)
