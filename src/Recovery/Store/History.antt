-- ===== src/Recovery/Store/History.antt =====
-- Mutations of the store in memory as steps, and the log that they leave behind.
use mathlib.Core.List.{append_assoc, append-nil}
use tokenzero.Base.{
  ℕ, suc, ◌≡◌, refl, sym, ap, subst, ◌∙◌, Bool, true, Bool-cases, Option-cases, inl, inr, Option,
  none, some, List, [], ◌∷◌, ◌++◌, length, ◌+◌, take, length-append, arith, leb, zero, codes, Text,
  text_eq, get_key, contains_key,
}
use tokenzero.Recovery.{RecoveryStore, BlobEntry, inline, state_entry_present}
use tokenzero.Recovery.Refs.{ContentType, id_for}
use tokenzero.Recovery.Transparency.{ConsistencyProof, root, consistency_proof, verify_consistency}
use tokenzero.Recovery.Transparency.Mountain.{take-append}
use tokenzero.Recovery.Transparency.Consistency.{consistency_proof-verify}
use tokenzero.Recovery.Store.{
  store_alias_deferred, remove_alias, remove_blob, mark_ambiguous, remember_ref, drop_ref,
  track_ref_class, mint, publish_later, register_blob, put_blob, insert_stored_unit, put_unit,
  put_alias, insert_blob,
}
use tokenzero.Recovery.Eviction.{
  evict_kinds, coldest, evict_loop, entry_count, approx_bytes, evict_store,
}

-- A mutation of the store in memory by a caller, and what it is called with. Persisting is none: it
-- merges the saved log with the current one.
pub data Mutation : Type 0 where
  link_alias : (alias target : Text) → Mutation
  unlink_alias : Text → Mutation
  delete_blob : Text → Mutation
  flag_ambiguous : Text → Mutation
  keep_text : Text → ContentType → Mutation
  keep_unit : Text → ContentType → Option Text → (start_line end_line : Option ℕ) → Mutation
  keep_search_hit : (ref_id text : Text) → ContentType → (line : ℕ) → Mutation
  make_room : Mutation

-- One log is another with more leaves at its end.
abbrev Extends : List Text → List Text → Type 0
Extends old now = (more : List Text) × (now ≡ old ++ more)

Extends-refl : (old : List Text) → Extends old old
Extends-refl old = ([], sym (append-nil old))

Extends-trans :
    (old now later : List Text) → Extends old now → Extends now later → Extends old later
Extends-trans old now later e f =
    (e.0 ++ f.0, f.1 ∙ ap (λ front. front ++ f.0) (e.1) ∙ append_assoc old (e.0) (f.0))

abbrev log_of : RecoveryStore → List Text
log_of store = store.state.transparency

module _ (sha256 : Text → Text) where
  put_alias-Extends :
      (alias target : Text) (store : RecoveryStore) (found : Option Text)
      → Extends (log_of store) (log_of (put_alias sha256 alias target store found))
  put_alias-Extends alias target store none = (_, refl)
  put_alias-Extends alias target store (some current) = elim (Bool-cases (text_eq current target)) [
    | inl same ↦ rw same (Extends-refl (log_of store))
    | inr differs ↦ rw differs (Extends-refl (log_of store))
  ]

  store_alias_deferred-Extends :
      (alias target : Text) (store : RecoveryStore)
      → Extends (log_of store) (log_of (store_alias_deferred sha256 alias target store))
  unfolding store_alias_deferred
  store_alias_deferred-Extends [] target store = Extends-refl (log_of store)
  store_alias_deferred-Extends (c ∷ alias) [] store = Extends-refl (log_of store)
  store_alias_deferred-Extends (c ∷ alias) (d ∷ target) store =
      put_alias-Extends (c ∷ alias) (d ∷ target) store (get_key (c ∷ alias) store.state.aliases)

  register_blob-Extends :
      (full_hash legacy_ref : Text) (content_type : ContentType) (value : Option BlobEntry)
      (store : RecoveryStore)
      → Extends
          (log_of store)
          (log_of ((register_blob sha256 full_hash legacy_ref content_type value store).1))
  unfolding register_blob remember_ref
  register_blob-Extends full_hash legacy_ref content_type value store =
      let ref_id = codes "tz://blob/" ++ full_hash in
      let tracked = track_ref_class ref_id content_type store in
      elim (Bool-cases (text_eq legacy_ref ref_id)) [
        | inl same ↦ rw same (kept value ref_id tracked (Extends-refl (log_of store)))
        | inr differs ↦ rw differs (
            kept value ref_id (store_alias_deferred sha256 legacy_ref ref_id tracked)
              (store_alias_deferred-Extends legacy_ref ref_id tracked))
      ]
    where
      kept :
          (v : Option BlobEntry) (ref_id : Text) (next : RecoveryStore)
          → Extends (log_of store) (log_of next)
          → Extends (log_of store) (log_of (insert_blob ref_id v next))
      kept none ref_id next e = e
      kept (some v) ref_id next e = e

  mint-Extends :
      (ref_id : Text) (store : RecoveryStore)
      → Extends (log_of store) (log_of (mint sha256 ref_id store))
  mint-Extends ref_id store = elim (Bool-cases (contains_key ref_id store.state.blobs)) [
    | inl there ↦ rw there (Extends-refl (log_of store))
    | inr fresh ↦ rw fresh (_, refl)
  ]

  publish_later-log :
      (full_hash : Text) (store : RecoveryStore)
      → log_of (publish_later full_hash store) ≡ log_of store
  publish_later-log full_hash store = elim (Bool-cases store.has_shared_cas) [
    | inl attached ↦ rw attached refl
    | inr detached ↦ rw detached refl
  ]

  put_blob-Extends :
      (sha256_hex : Text → Text) (text : Text) (content_type : ContentType) (store : RecoveryStore)
      → Extends (log_of store) (log_of ((put_blob sha256 sha256_hex text content_type store).1))
  unfolding put_blob
  put_blob-Extends sha256_hex text content_type store =
      let full_hash = sha256_hex text in
      let minted = mint sha256 (codes "tz://blob/" ++ full_hash) store in
      let queued = publish_later full_hash minted in
      let legacy_ref = codes "tz://blob/" ++ id_for sha256 98 text in
      Extends-trans (log_of store) (log_of queued)
        (log_of
          ((register_blob sha256 full_hash legacy_ref content_type (some (inline text)) queued).1))
        (subst (Extends (log_of store)) (sym (publish_later-log full_hash minted))
          (mint-Extends (codes "tz://blob/" ++ full_hash) store))
        (register_blob-Extends full_hash legacy_ref content_type (some (inline text)) queued)

module _ (size_of_entry : ℕ) (marker_len : Text → Option ℕ)
    (colder : List Text → Text → Text → Bool) where
  evict_loop-log :
      (fuel : ℕ) (store : RecoveryStore)
      → log_of (evict_loop size_of_entry marker_len colder fuel store) ≡ log_of store
  unfolding evict_loop coldest
  evict_loop-log zero store = refl
  evict_loop-log (suc fuel) store =
      let chosen = coldest colder store.state.order (state_entry_present store.state) in
      elim (Bool-cases
        (leb (approx_bytes size_of_entry marker_len store.state) store.config.max_bytes)) [
          | inl fits ↦ rw fits refl
          | inr over ↦ elim (Option-cases chosen) [
            | inl nothing ↦ rw (over, nothing) refl
            | inr victim ↦ rw (over, victim.1) (evict_loop-log fuel (drop_ref (victim.0) store))
          ]
        ]

  evict_store-log :
      (store : RecoveryStore)
      → log_of (evict_store size_of_entry marker_len colder store) ≡ log_of store
  unfolding evict_store
  evict_store-log store =
      let capped = record store { state = evict_kinds store.config store.state } in
      evict_loop-log (suc (entry_count capped.state)) capped

  module _ (sha256 sha256_hex : Text → Text) where
    -- The store after a mutation.
    abbrev pub step : Mutation → RecoveryStore → RecoveryStore
    step (link_alias alias target) store = store_alias_deferred sha256 alias target store
    step (unlink_alias alias) store = remove_alias alias store
    step (delete_blob ref_id) store = remove_blob ref_id store
    step (flag_ambiguous short_ref) store = mark_ambiguous short_ref store
    step (keep_text text content_type) store =
        (put_blob sha256 sha256_hex text content_type store).1
    step (keep_unit text content_type source_ref start_line end_line) store =
        (put_unit sha256 text content_type source_ref start_line end_line store).1
    step (keep_search_hit ref_id text content_type line) store =
        (insert_stored_unit true ref_id text content_type none (some line, some line) store).1
    step make_room store = evict_store size_of_entry marker_len colder store

    abbrev pub run : List Mutation → RecoveryStore → RecoveryStore
    run [] store = store
    run (m ∷ history) store = run history (step m store)

    step-Extends :
        (m : Mutation) (store : RecoveryStore) → Extends (log_of store) (log_of (step m store))
    unfolding remove_alias remove_blob mark_ambiguous put_unit insert_stored_unit remember_ref
    step-Extends (link_alias alias target) store =
        store_alias_deferred-Extends sha256 alias target store
    step-Extends (unlink_alias alias) store = Extends-refl (log_of store)
    step-Extends (delete_blob ref_id) store = Extends-refl (log_of store)
    step-Extends (flag_ambiguous short_ref) store = Extends-refl (log_of store)
    step-Extends (keep_text text content_type) store =
        put_blob-Extends sha256 sha256_hex text content_type store
    step-Extends (keep_unit text content_type source_ref start_line end_line) store =
        Extends-refl (log_of store)
    step-Extends (keep_search_hit ref_id text content_type line) store = Extends-refl (log_of store)
    step-Extends make_room store =
        subst (Extends (log_of store)) (sym (evict_store-log store)) (Extends-refl (log_of store))

    run-Extends :
        (history : List Mutation) (store : RecoveryStore)
        → Extends (log_of store) (log_of (run history store))
    run-Extends [] store = Extends-refl (log_of store)
    run-Extends (m ∷ history) store =
        Extends-trans (log_of store) (log_of (step m store)) (log_of (run history (step m store)))
          (step-Extends m store) (run-Extends history (step m store))

    -- After any sequence of linking and removing aliases, removing blobs, marking refs ambiguous,
    -- keeping texts, units and search hits, and evicting, in memory and with nothing persisted in
    -- between, the log has a consistency proof for the size of the log before, and it verifies
    -- against the roots before and after.
    pub run-consistency :
        (history : List Mutation) (store : RecoveryStore)
        → let before = log_of store in
          let after = log_of (run history store) in
          (p : ConsistencyProof) × (consistency_proof sha256 after (length before) ≡ some p)
          × (verify_consistency sha256 p (root sha256 before) (root sha256 after) ≡ true)
    run-consistency history store =
        let grown = run-Extends history store in
        let before = log_of store in
        let after = log_of (run history store) in
        let old : take (length before) after ≡ before =
          ap (take (length before)) (grown.1) ∙ take-append (length before) before (grown.0) refl in
        let size : length after ≡ length before + length (grown.0) =
          ap length (grown.1) ∙ length-append before (grown.0) in
        subst
          (λ leaves.
            (p : ConsistencyProof) × (consistency_proof sha256 after (length before) ≡ some p)
            × (verify_consistency sha256 p (root sha256 leaves) (root sha256 after) ≡ true))
          old (consistency_proof-verify sha256 after (length before) (omega (arith, size)))
