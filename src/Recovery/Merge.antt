-- ===== src/Recovery/Merge.antt =====
-- What a session adds to a saved state: `session_delta`, `merge_states` and the replay of the journal,
-- of crates/tokenzero-recovery/src/lib.rs.
pub mod Lookup
pub mod Aliases
pub mod Views
pub mod Journal
use tokenzero.Base.{
  ℕ, max, leb, ltb, ◌==◌, ◌≡◌, Bool, true, false, not, ◌&&◌, ◌||◌, Option, none, some, List, [],
  ◌∷◌, ◌++◌, Text, text_eq, if◌then◌else◌, get_key, insert_key, remove_key, contains_key, filter,
}
use tokenzero.Recovery.{
  RecoveryConfig, RecoveryState, ShellOutcome, Map, Set, insert_member, empty_state, configure,
  state_entry_present, seen_before, first_occurrences,
}
use tokenzero.Recovery.Outcomes.{rank_ltb, trim_shell_outcomes}
use tokenzero.Recovery.Transparency.{merge_concurrent}

-- `for (ref_id, value) in src`
unfoldable pub merge_map_entries : {V : Type 0} → List Text → Map V → Map V → Map V
merge_map_entries session dst [] = dst
merge_map_entries session dst ((ref_id, value) ∷ src) =
    merge_map_entries session
      (if seen_before ref_id session || contains_key ref_id dst
        then insert_key ref_id value dst
        else dst)
      src

abbrev pub merge_alias : Text → Text → Map Text × Set → Option Text → Map Text × Set
merge_alias alias target (aliases, ambiguous) none = (insert_key alias target aliases, ambiguous)
merge_alias alias target (aliases, ambiguous) (some existing) =
    if text_eq existing target
    then (insert_key alias target aliases, ambiguous)
    else (aliases, insert_member alias ambiguous)

-- `for (alias, target) in current.aliases`, on the aliases and the ambiguous ones.
unfoldable pub merge_aliases : Map Text → Map Text × Set → Map Text × Set
merge_aliases [] merged = merged
merge_aliases ((alias, target) ∷ current) merged =
    merge_aliases current (merge_alias alias target merged (get_key alias (merged.0)))

abbrev pub keep_newer :
    Text → ShellOutcome → Map ShellOutcome → Option ShellOutcome → Map ShellOutcome
keep_newer key incoming merged none = insert_key key incoming merged
keep_newer key incoming merged (some existing) =
    if rank_ltb incoming existing then merged else insert_key key incoming merged

-- `for (key, incoming) in current.shell_outcomes`
unfoldable pub merge_outcomes : Map ShellOutcome → Map ShellOutcome → Map ShellOutcome
merge_outcomes [] merged = merged
merge_outcomes ((key, incoming) ∷ current) merged =
    merge_outcomes current (keep_newer key incoming merged (get_key key merged))

-- `merged.ambiguous_aliases.extend(current.ambiguous_aliases)`
unfoldable pub extend_set : Set → Set → Set
extend_set [] set = set
extend_set ((key, _) ∷ more) set = extend_set more (insert_member key set)

-- The epoch and the sequence number after `merge_shell_outcome_clock`.
abbrev pub merge_shell_outcome_clock : RecoveryState → RecoveryState → ℕ × ℕ
merge_shell_outcome_clock merged current =
    if ltb merged.shell_outcome_epoch current.shell_outcome_epoch
    then (current.shell_outcome_epoch, current.shell_outcome_seq)
    else if current.shell_outcome_epoch == merged.shell_outcome_epoch
    then (merged.shell_outcome_epoch, max merged.shell_outcome_seq current.shell_outcome_seq)
    else (merged.shell_outcome_epoch, merged.shell_outcome_seq)

abbrev merge_ordinals : RecoveryState → RecoveryState → ℕ × ℕ
merge_ordinals merged current =
    if ltb merged.ordinal_generation current.ordinal_generation
    then (current.ordinal_generation, current.next_ordinal)
    else if current.ordinal_generation == merged.ordinal_generation
    then (merged.ordinal_generation, max merged.next_ordinal current.next_ordinal)
    else (merged.ordinal_generation, merged.next_ordinal)

abbrev merge_alias_key : Option Text → Option Text → Option Text
merge_alias_key none current = current
merge_alias_key (some key) current = some key

unfoldable pub merge_states :
    RecoveryState → RecoveryState → List Text → RecoveryConfig → RecoveryState
unfolding merge_map_entries merge_aliases merge_outcomes extend_set trim_shell_outcomes
    merge_concurrent first_occurrences
merge_states existing current session_refs config =
    let clock = merge_shell_outcome_clock existing current in
    let aliases = merge_aliases current.aliases (existing.aliases, existing.ambiguous_aliases) in
    let ordinals = merge_ordinals existing current in
    configure config (record existing {
      shell_outcome_epoch = clock.0;
      shell_outcome_seq = clock.1;
      blobs = merge_map_entries session_refs existing.blobs current.blobs;
      files = merge_map_entries session_refs existing.files current.files;
      units = merge_map_entries session_refs existing.units current.units;
      search_hits = merge_map_entries session_refs existing.search_hits current.search_hits;
      aliases = aliases.0;
      ambiguous_aliases = extend_set current.ambiguous_aliases (aliases.1);
      ordinal_generation = ordinals.0;
      next_ordinal = ordinals.1;
      order = first_occurrences [] (existing.order ++ session_refs);
      shell_outcomes =
          trim_shell_outcomes (merge_outcomes current.shell_outcomes existing.shell_outcomes);
      transparency = merge_concurrent existing.transparency current.transparency;
      alias_key = merge_alias_key existing.alias_key current.alias_key;
    })

abbrev copied : {V : Type 0} → Map V → Text → Option V → Map V
copied destination ref_id none = destination
copied destination ref_id (some value) = insert_key ref_id value destination

abbrev pub copy_map_entry : {V : Type 0} → Map V → Map V → Text → Map V
copy_map_entry destination source ref_id = copied destination ref_id (get_key ref_id source)

-- `recovery_maps!(copy delta, state, ref_id)` for each ref of the session, on one of the four maps.
unfoldable pub copy_refs : {V : Type 0} → List Text → Map V → Map V → Map V
copy_refs [] source destination = destination
copy_refs (ref_id ∷ refs) source destination =
    copy_refs refs source (copy_map_entry destination source ref_id)

unfoldable pub session_delta : RecoveryState → List Text → RecoveryConfig → RecoveryState
unfolding copy_refs
session_delta state session_refs config =
    let delta = record (empty_state config) {
      blobs = copy_refs session_refs state.blobs [];
      files = copy_refs session_refs state.files [];
      units = copy_refs session_refs state.units [];
      search_hits = copy_refs session_refs state.search_hits [];
      aliases = state.aliases;
      shell_outcomes = state.shell_outcomes;
      shell_outcome_seq = state.shell_outcome_seq;
      shell_outcome_epoch = state.shell_outcome_epoch;
      ambiguous_aliases = state.ambiguous_aliases;
      transparency = state.transparency;
      alias_key = state.alias_key;
    } in
    record delta { order = filter (state_entry_present delta) session_refs }

pub record JournalEntry : Type 0 where
  pub refs : List Text
  pub state : RecoveryState
  pub deleted_blob_refs : List Text
  pub deleted_aliases : List Text

unfoldable pub remove_keys : {V : Type 0} → List Text → Map V → Map V
remove_keys [] m = m
remove_keys (key ∷ keys) m = remove_keys keys (remove_key key m)

abbrev pub apply_deletions : List Text → List Text → RecoveryState → RecoveryState
apply_deletions blob_refs aliases s = record s {
  aliases = remove_keys aliases s.aliases;
  ambiguous_aliases = remove_keys aliases s.ambiguous_aliases;
  blobs = remove_keys blob_refs s.blobs;
}

abbrev pub apply_entry : RecoveryConfig → RecoveryState → JournalEntry → RecoveryState
apply_entry config s entry =
    apply_deletions entry.deleted_blob_refs entry.deleted_aliases
      (merge_states s entry.state entry.refs config)

abbrev or_stop :
    Option JournalEntry → RecoveryState → (JournalEntry → RecoveryState) → RecoveryState
or_stop none s go_on = s
or_stop (some entry) s go_on = go_on entry

-- The journal's records in order, up to one that is not an entry. `decode` is the JSON reader.
module _ {Record : Type 0} (decode : Record → Option JournalEntry) (config : RecoveryConfig) where
  unfoldable pub apply_session_wal : RecoveryState → List Record → RecoveryState
  apply_session_wal s [] = s
  apply_session_wal s (first ∷ records) =
      or_stop (decode first) s (λ entry. apply_session_wal (apply_entry config s entry) records)
