-- ===== src/Recovery/Merge/Views.antt =====
-- The saved state as the lookups it answers: merging overrides the entries of the session, and the
-- journal's delta brings a session back over a snapshot.
use tokenzero.Base.{
  ◌≡◌, arith, ◌&&◌, ◌||◌, Option, List, [], Text, if◌then◌else◌, get_key, holds_entry, contains_key,
  IsMap,
}
use tokenzero.Recovery.{Map, Set, seen_before, RecoveryState, RecoveryConfig}
use tokenzero.Recovery.Merge.{
  merge_map_entries, merge_aliases, copy_refs, merge_states, session_delta,
}
use tokenzero.Recovery.Merge.Lookup.{get_key-merge_map_entries, get_key-copy_refs, copy_refs-IsMap}
use tokenzero.Recovery.Merge.Aliases.{
  first_of, conflicts, get_key-merge_aliases, marks-merge_aliases, marks-extend_set,
}

-- The four maps of a state that refs look up.
unfoldable pub AreMaps : RecoveryState → Type 0
AreMaps s = IsMap s.blobs × IsMap s.files × IsMap s.units × IsMap s.search_hits

module _ {V : Type 0} where
  -- `current` in the place of `existing`, for the refs of the session and for those already known.
  unfoldable pub override : List Text → (Text → Option V) → (Text → Option V) → Text → Option V
  override session existing current key =
      if (seen_before key session || holds_entry (existing key)) && holds_entry (current key)
      then current key
      else existing key

  -- `current` in the place of `existing`, for the refs of the session alone.
  unfoldable pub session_view : List Text → (Text → Option V) → (Text → Option V) → Text → Option V
  session_view session existing current key =
      if seen_before key session && holds_entry (current key) then current key else existing key

  -- What the map answers.
  abbrev pub view : Map V → Text → Option V
  view m key = get_key key m

  merge_map_entries-override :
      (session : List Text) (existing current : Map V) (key : Text)
      → IsMap current
      → get_key key (merge_map_entries session existing current)
        ≡ override session (view existing) (view current) key
  unfolding override
  merge_map_entries-override = get_key-merge_map_entries

  -- Replaying a delta over a snapshot.
  delta-session_view :
      (session : List Text) (snapshot live : Map V) (key : Text)
      → get_key key (merge_map_entries session snapshot (copy_refs session live []))
        ≡ session_view session (view snapshot) (view live) key
  unfolding session_view get_key holds_entry
  delta-session_view session snapshot live key = ground (
    arith,
    get_key-copy_refs session live [] key,
    get_key-merge_map_entries session snapshot (copy_refs session live []) key
        (copy_refs-IsMap session live [] (unfold IsMap in tt)),
  )

-- A merged state answers a ref, in each of its four maps, with the current entry where the session
-- wrote the ref or the saved state knew it and the current state has one, and otherwise as the saved
-- state does, for a current state whose maps have ascending keys.
pub merge_states-refines-override :
    (existing current : RecoveryState) (session : List Text) (config : RecoveryConfig)
    → AreMaps current
    → (key : Text)
    → (get_key key ((merge_states existing current session config).blobs)
        ≡ override session (view existing.blobs) (view current.blobs) key)
      × (get_key key ((merge_states existing current session config).files)
          ≡ override session (view existing.files) (view current.files) key)
      × (get_key key ((merge_states existing current session config).units)
          ≡ override session (view existing.units) (view current.units) key)
      × (get_key key ((merge_states existing current session config).search_hits)
          ≡ override session (view existing.search_hits) (view current.search_hits) key)
unfolding merge_states AreMaps
merge_states-refines-override existing current session config maps key = (
  merge_map_entries-override session existing.blobs current.blobs key (maps.0),
  merge_map_entries-override session existing.files current.files key (maps.1),
  merge_map_entries-override session existing.units current.units key (maps.2),
  merge_map_entries-override session existing.search_hits current.search_hits key (maps.3),
)

-- Replaying the delta of a session over any snapshot gives every ref of the session that the live
-- state still holds the live entry, in each of the four maps, and leaves every other ref as the
-- snapshot has it.
pub merge_states-session_delta :
    (snapshot live : RecoveryState) (session : List Text) (config : RecoveryConfig) (key : Text)
    → (get_key key
          ((merge_states snapshot (session_delta live session config) session config).blobs)
        ≡ session_view session (view snapshot.blobs) (view live.blobs) key)
      × (get_key key
            ((merge_states snapshot (session_delta live session config) session config).files)
          ≡ session_view session (view snapshot.files) (view live.files) key)
      × (get_key key
            ((merge_states snapshot (session_delta live session config) session config).units)
          ≡ session_view session (view snapshot.units) (view live.units) key)
      × (get_key key
            ((merge_states snapshot (session_delta live session config) session config).search_hits)
          ≡ session_view session (view snapshot.search_hits) (view live.search_hits) key)
unfolding merge_states session_delta
merge_states-session_delta snapshot live session config key = (
  delta-session_view session snapshot.blobs live.blobs key,
  delta-session_view session snapshot.files live.files key,
  delta-session_view session snapshot.units live.units key,
  delta-session_view session snapshot.search_hits live.search_hits key,
)

-- A merged state keeps the target that an alias has in the saved state, takes the current one for an
-- alias that is new to it, and marks an alias as ambiguous exactly when either state did or the two
-- states have different targets for it, for current aliases with ascending keys.
pub merge_states-aliases :
    (existing current : RecoveryState) (session : List Text) (config : RecoveryConfig)
    → IsMap current.aliases
    → (alias : Text)
    → (get_key alias ((merge_states existing current session config).aliases)
        ≡ first_of (get_key alias existing.aliases) (get_key alias current.aliases))
      × (contains_key alias ((merge_states existing current session config).ambiguous_aliases) ≡ (
          contains_key alias existing.ambiguous_aliases
          || conflicts (get_key alias existing.aliases) (get_key alias current.aliases)
          || contains_key alias current.ambiguous_aliases))
unfolding merge_states
merge_states-aliases existing current session config is_map alias =
    let start : Map Text × Set = (existing.aliases, existing.ambiguous_aliases) in
    (
      get_key-merge_aliases current.aliases start alias,
      ground (
        arith,
        marks-merge_aliases current.aliases start alias is_map,
        marks-extend_set current.ambiguous_aliases ((merge_aliases current.aliases start).1) alias,
      ),
    )
