-- ===== src/WorkingSet/Book/Paging.antt =====
-- `touch`, `link_refs` and `rehydrate_ref`: valid sets stay valid, and nothing panics.
use tokenzero.Base.{
  ℕ, suc, ◌≤◌, ◌<◌, ◌≡◌, ◌⊎◌, refl, sym, subst, Bool, true, false, not, ◌||◌, Option, none, some,
  List, [], ◌∷◌, ◌++◌, leb, All, Text, text_eq, arith, Bool-cases, inl, inr, sat_add, max_u64,
  Result, ok, err,
}
use tokenzero.WorkingSet.Host.{Host, ExpansionResult}
use tokenzero.WorkingSet.State.{
  SpanAnchor, SpanBody, resident, evicted, ResidentSpan, WorkingSet, find_span, touch, touch_found,
  push_resident, note_admission, refresh_rates, record_rehydration_latency,
}
use tokenzero.WorkingSet.Refs.{get_ref, min_id, lookup_id}
use tokenzero.WorkingSet.Ops.{is_resident, evict, enforce_budget, remove_evicted_ref}
use tokenzero.WorkingSet.Admit.{is_empty, already_linked, linked, link_entries, link_refs}
use tokenzero.WorkingSet.Rehydrate.{
  queue_prefetch_hints, is_some, or_else, window_start, window_end, with_fragment, RefParts,
  ref_parts, narrowed, note_lookup, note_fault, restore_whole, settled, settle, expanded,
  expand_body, expand_span, expand_owned, expand_parts, rehydrate_ref,
}
use tokenzero.WorkingSet.Book.{Book, IsValid, IsEvictedId, IsSound}
use tokenzero.WorkingSet.Book.Index.{All-get_ref}
use tokenzero.WorkingSet.Book.Growth.{Book-push, Book-restore}
use tokenzero.WorkingSet.Book.Links.{Book-link, Book-update}
use tokenzero.WorkingSet.Book.Budget.{and_then-IsSound, enforce_budget-IsSound, evict-IsSound}

sat_add-suc : (n : ℕ) → n < max_u64 → sat_add n 1 ≡ suc n
sat_add-suc n h = ground (arith, h)

pub sat_add_le : (n : ℕ) → n ≤ max_u64 → n ≤ sat_add n 1
sat_add_le n h = ground (arith, h)

pub touch-IsValid :
    (w : WorkingSet) (id : ℕ) → w.sequence ≤ max_u64 → IsValid w → IsValid ((touch w id).1)
unfolding touch
touch-IsValid w id h v = found (find_span id w.spans)
  where
    found : (s : Option ResidentSpan) → IsValid ((touch_found w id s).1)
    found none = v
    found (some s) =
        Book-update w.sequence (sat_add w.sequence 1) w.spans w.evicted_refs id
          (sat_add w.sequence 1) (sat_add_le w.sequence h) v

min-cases : (i j : ℕ) → (Prim.Native.Nat.min i j ≡ i) ⊎ (Prim.Native.Nat.min i j ≡ j)
min-cases i j = elim (Bool-cases (leb i j)) [
  | inl e ↦ inl (ground arith)
  | inr e ↦ inr (ground arith)
]

-- The lowest of the ids is one of them.
min_id-All {κ} :
    (P : ℕ → Type κ) (found : List ℕ) (id : ℕ) → min_id found ≡ some id → All P found → P id
unfolding min_id
min_id-All P [] id h a = absurd (ground arith)
min_id-All P (i ∷ rest) id h (p, a) = least (min_id rest) h (λ j e. min_id-All P rest j e a)
  where
    least :
        (o : Option ℕ)
        → (elim o [ none ↦ some i | some j ↦ some (Prim.Native.Nat.min i j) ]) ≡ some id
        → ((j : ℕ) → o ≡ some j → P j)
        → P id
    least none e rec = subst P (ground arith) p
    least (some j) e rec = elim (min-cases i j) [
      | inl first ↦ let same : i ≡ id = ground arith in subst P same p
      | inr later ↦ let same : j ≡ id = ground arith in subst P same (rec j refl)
    ]

module _ (host : Host) where
  open host use {Store, StoreError, count_tokens, expand, store_alias}

  pub push_resident-IsValid :
      (w : WorkingSet) (text : Text) (anchor : SpanAnchor)
      → w.sequence < max_u64
      → IsValid w
      → IsValid ((push_resident w text anchor).1)
  unfolding push_resident note_admission
  push_resident-IsValid w text anchor h v =
      subst
        (λ n.
          Book n
            (w.spans
              ++ record { id = n; last_touched = n; anchor = anchor; body = resident text } ∷ [])
            w.evicted_refs)
        (sym (sat_add-suc w.sequence h))
        (Book-push w.sequence w.spans w.evicted_refs
          (record {
            id = suc w.sequence;
            last_touched = suc w.sequence;
            anchor = anchor;
            body = resident text;
          })
          refl tt v)

  restore_whole-IsValid :
      (w : WorkingSet) (store : Store) (id : ℕ) (content : Text)
      → w.sequence < max_u64
      → IsValid w
      → IsValid ((restore_whole host w store id content).0)
  unfolding restore_whole remove_evicted_ref note_admission
  restore_whole-IsValid w store id content h v =
      Book-restore w.sequence (sat_add w.sequence 1) w.spans w.evicted_refs id
        (λ s. record s { body = resident content; last_touched = sat_add w.sequence 1 })
        (sat_add_le w.sequence (omega (arith, h))) (λ s. refl) (λ s. refl) v

  settle-IsSound :
      (w : WorkingSet) (store : Store) (id : ℕ) (anchor : SpanAnchor) (partial : Bool)
      (canonical content : Text)
      → IsValid w
      → IsSound host (settle host w store id anchor partial canonical content)
  unfolding settle settled queue_prefetch_hints refresh_rates
  settle-IsSound w store id anchor partial canonical content v =
      and_then-IsSound host (enforce_budget host (settled host w id anchor canonical content) store)
        (λ gone w' store'. (
          ok (some (record { id = id; anchor = anchor; partial = partial; evicted = gone })),
          w',
          store',
        ))
        (enforce_budget-IsSound host (settled host w id anchor canonical content) store v)
        (λ gone w' store' v'. (v', refl))

  expanded-IsSound :
      (w : WorkingSet) (id : ℕ) (ref_id : Text) (span : ResidentSpan) (canonical : Text)
      (start end : Option ℕ) (result : ExpansionResult) (store : Store)
      → w.sequence < max_u64
      → IsValid w
      → IsSound host (expanded host w id ref_id span canonical start end result store)
  unfolding expanded
  expanded-IsSound w id ref_id span canonical start end result store h v =
      elim (Bool-cases (not result.found)) [
        | inl e ↦ rw e (v, refl)
        | inr e ↦ rw e (elim (Bool-cases (is_some start || is_some end)) [
          | inl part ↦ rw part (
              let anchor = narrowed span.anchor start end result.content in
              let pushed = push_resident w result.content anchor in
              settle-IsSound pushed.1 store pushed.0 anchor true canonical result.content
                (push_resident-IsValid w result.content anchor h v))
          | inr whole ↦ rw whole (
              let restored = restore_whole host w store id result.content in
              settle-IsSound restored.0 restored.1 id span.anchor false canonical result.content
                (restore_whole-IsValid w store id result.content h v))
        ])
      ]

  expand_body-IsSound :
      (w : WorkingSet) (store : Store) (parts : RefParts) (id : ℕ) (ref_id : Text)
      (span : ResidentSpan) (body : SpanBody) (start end : Option ℕ) (elapsed : ℕ)
      → is_resident body ≡ false
      → w.sequence < max_u64
      → IsValid w
      → IsSound host (expand_body host w store parts id ref_id span body start end elapsed)
  unfolding refresh_rates record_rehydration_latency
  expand_body-IsSound w store parts id ref_id span (resident _) start end elapsed r h v =
      absurd (ground arith)
  expand_body-IsSound w store parts id ref_id span (evicted canonical _) start end elapsed r h v =
      let answer = expand store (with_fragment canonical parts.fragment) start end in
      expanded-IsSound (refresh_rates (record_rehydration_latency w elapsed)) id ref_id span
        canonical start end answer.0 answer.1 h v

  expand_owned-IsSound :
      (w : WorkingSet) (store : Store) (parts : RefParts) (ref_id : Text) (owner : Option ℕ)
      (start end : Option ℕ) (elapsed : ℕ)
      → ((id : ℕ) → owner ≡ some id → IsEvictedId w.spans id)
      → w.sequence < max_u64
      → IsValid w
      → IsSound host (expand_owned host w store parts ref_id owner start end elapsed)
  unfolding note_fault
  expand_owned-IsSound w store parts ref_id none start end elapsed known h v = (v, refl)
  expand_owned-IsSound w store parts ref_id (some id) start end elapsed known h v =
      let (s, found, gone) = known id refl in
      subst
        (λ o.
          IsSound host (expand_span host (note_fault w) store parts id ref_id o start end elapsed))
        (sym found)
        (expand_body-IsSound (note_fault w) store parts id ref_id s s.body
          (or_else (window_start parts.window) start) (or_else (window_end parts.window) end)
          elapsed gone h v)

  lookup_id-IsEvictedId :
      (w : WorkingSet) (key : Text) (id : ℕ)
      → IsValid w
      → lookup_id key w.evicted_refs ≡ some id
      → IsEvictedId w.spans id
  unfolding lookup_id
  lookup_id-IsEvictedId w key id v e = among (get_ref key w.evicted_refs) refl e
    where
      among :
          (o : Option (List ℕ))
          → get_ref key w.evicted_refs ≡ o
          → (elim o [ none ↦ none | some found ↦ min_id found ]) ≡ some id
          → IsEvictedId w.spans id
      among none g m = absurd (ground arith)
      among (some found) g m =
          min_id-All (IsEvictedId w.spans) found id m
            (All-get_ref (IsEvictedId w.spans) w.evicted_refs key found g v.pointing)

  -- Rehydrating any ref leaves a valid working set valid and does not panic, whatever the store
  -- answers, while fewer than 2^64 - 1 ids were issued.
  pub rehydrate_ref-IsSound :
      (w : WorkingSet) (store : Store) (ref_id : Text) (start end : Option ℕ) (elapsed : ℕ)
      → w.sequence < max_u64
      → IsValid w
      → IsSound host (rehydrate_ref host w store ref_id start end elapsed)
  unfolding rehydrate_ref note_lookup refresh_rates
  rehydrate_ref-IsSound w store ref_id start end elapsed h v = parts_sound (ref_parts ref_id)
    where
      parts_sound :
          (parts : Option RefParts)
          → IsSound host (expand_parts host (note_lookup w) store ref_id parts start end elapsed)
      parts_sound none = (v, refl)
      parts_sound (some parts) =
          expand_owned-IsSound (note_lookup w) store parts ref_id
            (lookup_id parts.base w.evicted_refs) start end elapsed
            (λ id e. lookup_id-IsEvictedId w parts.base id v e) h v

  -- Linking an alias to any ref leaves a valid working set valid and does not panic.
  link_refs-IsSound :
      (w : WorkingSet) (store : Store) (source alias : Text)
      → IsValid w
      → IsSound host (link_refs host w store source alias)
  unfolding link_refs
  link_refs-IsSound w store source alias v =
      elim (Bool-cases (is_empty source || (is_empty alias || text_eq source alias))) [
        | inl e ↦ rw e (v, refl)
        | inr e ↦ rw e (entries (get_ref source w.evicted_refs) refl)
      ]
    where
      answered :
          (found : List ℕ) (answer : Result StoreError (Unit {0}) × Store)
          → get_ref source w.evicted_refs ≡ some found
          → IsSound host (linked host w alias found answer)
      answered found (err e, store') g = (v, refl)
      answered found (ok _, store') g =
          (Book-link w.sequence w.spans w.evicted_refs source alias found g v, refl)

      entries :
          (o : Option (List ℕ))
          → get_ref source w.evicted_refs ≡ o
          → IsSound host (link_entries host w store source alias o)
      entries none g = (v, refl)
      entries (some []) g = (v, refl)
      entries (some (id ∷ found)) g =
          elim (Bool-cases (already_linked (id ∷ found) (get_ref alias w.evicted_refs))) [
            | inl e ↦ rw e (v, refl)
            | inr e ↦ rw e (answered (id ∷ found) (store_alias store alias source) g)
          ]

  -- Evicting any id, and linking an alias to any ref, leave a working set with sound books sound and
  -- do not panic, whatever the store answers.
  pub evict-link_refs-IsSound :
      (w : WorkingSet) (store : Store) (id : ℕ) (source alias : Text)
      → IsValid w
      → IsSound host (evict host w store id) × IsSound host (link_refs host w store source alias)
  evict-link_refs-IsSound w store id source alias v =
      (evict-IsSound host w store id v, link_refs-IsSound w store source alias v)
