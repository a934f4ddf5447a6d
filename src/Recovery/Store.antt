-- ===== src/Recovery/Store.antt =====
-- The mutations of the recovery store of crates/tokenzero-recovery/src/lib.rs that change it in memory.
pub mod History
use tokenzero.Base.{
  ℕ, zero, suc, ◌+◌, ◌-◌, leb, ltb, ◌==◌, Bool, true, false, not, ◌&&◌, ◌||◌, Option, none, some,
  List, [], ◌∷◌, ◌++◌, map, filter, length, Text, text_eq, codes, if◌then◌else◌, sat_add, get_key,
  insert_key, remove_key, contains_key,
}
use tokenzero.Recovery.{
  RecoveryStore, in_state, StoredFile, StoredUnit, BlobEntry, inline, file_ref, RecoveryConfig, Map,
  Set, insert_member, RecoveryState, state_entry_present, forget_entry, seen_before,
  first_occurrences,
}
use tokenzero.Recovery.Transparency.{append_event}
use tokenzero.Recovery.Refs.{ContentType, ContentClass, classify_ref, content_type_str, id_for}

abbrev is_empty : Text → Bool
is_empty [] = true
is_empty (_ ∷ _) = false

abbrev alias_event : Text → Text → Text
alias_event alias target = codes "alias-cas" ++ 0 ∷ alias ++ 0 ∷ target

abbrev pub put_alias : (Text → Text) → Text → Text → RecoveryStore → Option Text → RecoveryStore
put_alias sha256 alias target store none = in_state store (record (store.state) {
  transparency = append_event sha256 (alias_event alias target) store.state.transparency;
  aliases = insert_key alias target store.state.aliases;
})
put_alias sha256 alias target store (some current) =
    if text_eq current target
    then in_state store store.state
    else in_state store (record (store.state) {
      ambiguous_aliases = insert_member alias store.state.ambiguous_aliases;
    })

unfoldable pub store_alias_deferred : (Text → Text) → Text → Text → RecoveryStore → RecoveryStore
store_alias_deferred sha256 alias target store =
    if is_empty alias || is_empty target
    then store
    else put_alias sha256 alias target store (get_key alias store.state.aliases)

unfoldable pub remove_alias : Text → RecoveryStore → RecoveryStore
remove_alias alias store =
    record (in_state store (record (store.state) {
      aliases = remove_key alias store.state.aliases;
      ambiguous_aliases = remove_key alias store.state.ambiguous_aliases;
    })) { pending_alias_deletions = insert_member alias store.pending_alias_deletions }

unfoldable pub remove_blob : Text → RecoveryStore → RecoveryStore
remove_blob ref_id store =
    record (in_state store (record (store.state) { blobs = remove_key ref_id store.state.blobs })) {
      pending_blob_deletions = insert_member ref_id store.pending_blob_deletions;
    }

unfoldable pub mark_ambiguous : Text → RecoveryStore → RecoveryStore
mark_ambiguous short_ref store = in_state store (record (store.state) {
  ambiguous_aliases = insert_member short_ref store.state.ambiguous_aliases;
})

unfoldable pub remember_ref : Text → RecoveryStore → RecoveryStore
remember_ref ref_id store =
    record (in_state store (record (store.state) { order = store.state.order ++ ref_id ∷ [] })) {
      session_refs = store.session_refs ++ ref_id ∷ [];
    }

abbrev pub track_ref_class : Text → ContentType → RecoveryStore → RecoveryStore
track_ref_class ref_id content_type store = record store {
  ref_classes = insert_key ref_id (classify_ref ref_id (some content_type)) store.ref_classes;
}

abbrev pub insert_blob : Text → Option BlobEntry → RecoveryStore → RecoveryStore
insert_blob ref_id none store = store
insert_blob ref_id (some value) store = record store {
  state = record (store.state) { blobs = insert_key ref_id value store.state.blobs };
}

-- The ref and the store.
unfoldable pub register_blob :
    (Text → Text)
    → (full_hash legacy_ref : Text) → ContentType
    → Option BlobEntry
    → RecoveryStore
    → Text × RecoveryStore
unfolding classify_ref store_alias_deferred remember_ref
register_blob sha256 full_hash legacy_ref content_type value store =
    let ref_id = codes "tz://blob/" ++ full_hash in
    let tracked = track_ref_class ref_id content_type store in
    let aliased =
      if text_eq legacy_ref ref_id
      then tracked
      else store_alias_deferred sha256 legacy_ref ref_id tracked in
    (ref_id, remember_ref ref_id (insert_blob ref_id value aliased))

abbrev pub mint : (Text → Text) → Text → RecoveryStore → RecoveryStore
mint sha256 ref_id store = if contains_key ref_id store.state.blobs then store else record store {
  state = record (store.state) {
    transparency = append_event sha256 (codes "mint" ++ 0 ∷ ref_id) store.state.transparency;
  };
}

abbrev pub publish_later : Text → RecoveryStore → RecoveryStore
publish_later full_hash store =
    if store.has_shared_cas
    then record store { pending_cas_hashes = insert_member full_hash store.pending_cas_hashes }
    else store

unfoldable pub put_blob :
    (sha256 sha256_hex : Text → Text) → Text → ContentType → RecoveryStore → Text × RecoveryStore
unfolding register_blob id_for
put_blob sha256 sha256_hex text content_type store =
    let full_hash = sha256_hex text in
    let minted = mint sha256 (codes "tz://blob/" ++ full_hash) store in
    register_blob sha256 full_hash (codes "tz://blob/" ++ id_for sha256 98 text) content_type
      (some (inline text)) (publish_later full_hash minted)

abbrev or_insert : Text → StoredUnit → Map StoredUnit → Map StoredUnit
or_insert ref_id unit units =
    if contains_key ref_id units then units else insert_key ref_id unit units

unfoldable pub insert_stored_unit :
    (search_hit : Bool) (ref_id text : Text)
    → ContentType
    → Option Text
    → Option ℕ × Option ℕ
    → RecoveryStore
    → Text × RecoveryStore
unfolding classify_ref remember_ref content_type_str
insert_stored_unit search_hit ref_id text content_type source_ref lines store =
    let tracked = track_ref_class ref_id content_type store in
    let unit : StoredUnit = record {
      ref_id = ref_id;
      text = text;
      content_type = content_type_str content_type;
      source_ref = source_ref;
      start_line = lines.0;
      end_line = lines.1;
    } in
    let s = tracked.state in
    let stored : RecoveryState =
      if search_hit
      then record s { search_hits = insert_key ref_id unit s.search_hits }
      else record s { units = or_insert ref_id unit s.units } in
    (ref_id, remember_ref ref_id (record tracked { state = stored }))

unfoldable pub put_unit :
    (Text → Text)
    → Text
    → ContentType
    → Option Text
    → Option ℕ
    → Option ℕ
    → RecoveryStore
    → Text × RecoveryStore
unfolding insert_stored_unit id_for
put_unit sha256 text content_type source_ref start_line end_line store =
    insert_stored_unit false (codes "tz://unit/" ++ id_for sha256 117 text) text content_type
      source_ref (start_line, end_line) store

abbrev pub drop_ref : Text → RecoveryStore → RecoveryStore
drop_ref ref_id store = in_state store (forget_entry ref_id store.state)

abbrev pub compact_order : RecoveryStore → RecoveryStore
compact_order store = record store {
  state = record (store.state) {
    order = first_occurrences [] (filter (state_entry_present store.state) store.state.order);
  };
}
