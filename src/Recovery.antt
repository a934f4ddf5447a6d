-- ===== src/Recovery.antt =====
-- The state of the recovery store: `RecoveryState` of crates/tokenzero-recovery/src/lib.rs, what it
-- stores, its configuration, and the operations that reach all four of its maps.
pub mod Transparency
pub mod Outcomes
pub mod Merge
pub mod Refs
pub mod Store
pub mod Eviction
mod Tests
use tokenzero.Base.{
  ℕ, ◌+◌, ◌≡◌, Bool, true, false, ◌||◌, Option, none, some, List, [], ◌∷◌, Text, text_eq,
  if◌then◌else◌, get_key, insert_key, remove_key, contains_key,
}
use tokenzero.Recovery.Refs.{ContentClass}

-- An i32, by its sign.
pub data ℤ : Type 0 where
  pos : ℕ → ℤ
  negsuc : ℕ → ℤ

pub record SourceFingerprint : Type 0 where
  pub size : ℕ
  pub mtime_ns : ℕ
  pub sha256 : Text

pub record StoredFile : Type 0 where
  pub ref_id : Text
  pub path : Option Text
  pub path_identity : Option Text
  pub source_backed : Bool
  pub text : Text
  pub content_type : Text
  pub source_fingerprint : Option SourceFingerprint
  pub source_start_line : Option ℕ
  pub source_end_line : Option ℕ

pub record StoredUnit : Type 0 where
  pub ref_id : Text
  pub text : Text
  pub content_type : Text
  pub source_ref : Option Text
  pub start_line : Option ℕ
  pub end_line : Option ℕ

pub data BlobEntry : Type 0 where
  inline : Text → BlobEntry
  file_ref : (path : Text) (source_start_line source_end_line : ℕ) → BlobEntry

pub record ShellOutcome : Type 0 where
  pub combined_sha : Text
  pub exit_code : Option ℤ
  pub seen : ℕ
  pub seq : ℕ
  pub epoch : ℕ

pub record RecoveryConfig : Type 0 where
  pub max_blobs : ℕ
  pub max_files : ℕ
  pub max_units : ℕ
  pub max_search_hits : ℕ
  pub max_bytes : ℕ
  pub max_load_bytes : ℕ
  pub legacy_compat : Bool
  pub legacy_compat_deadline : Option ℕ

-- A `BTreeMap<String, V>`, and a `BTreeSet<String>`.
abbrev pub Map : Type 0 → Type 0
Map V = List (Text × V)

abbrev pub Set : Type 0
Set = Map (Unit {0})

abbrev pub insert_member : Text → Set → Set
insert_member key set = insert_key key tt set

pub record RecoveryState : Type 0 where
  pub version : ℕ
  pub max_blobs : ℕ
  pub max_files : ℕ
  pub max_units : ℕ
  pub max_search_hits : ℕ
  pub max_bytes : ℕ
  pub blobs : Map BlobEntry
  pub files : Map StoredFile
  pub units : Map StoredUnit
  pub search_hits : Map StoredUnit
  pub aliases : Map Text
  pub ordinal_generation : ℕ
  pub next_ordinal : ℕ
  pub order : List Text
  pub shell_outcomes : Map ShellOutcome
  pub shell_outcome_seq : ℕ
  pub shell_outcome_epoch : ℕ
  pub ambiguous_aliases : Set
  pub transparency : List Text
  pub alias_key : Option Text

abbrev pub initial_ordinal_generation : ℕ
initial_ordinal_generation = 1

abbrev pub initial_next_ordinal : ℕ
initial_next_ordinal = 1

abbrev pub empty_state : RecoveryConfig → RecoveryState
empty_state config = record {
  version = 1;
  max_blobs = config.max_blobs;
  max_files = config.max_files;
  max_units = config.max_units;
  max_search_hits = config.max_search_hits;
  max_bytes = config.max_bytes;
  blobs = [];
  files = [];
  units = [];
  search_hits = [];
  aliases = [];
  ordinal_generation = initial_ordinal_generation;
  next_ordinal = initial_next_ordinal;
  order = [];
  shell_outcomes = [];
  shell_outcome_seq = 0;
  shell_outcome_epoch = 0;
  ambiguous_aliases = [];
  transparency = [];
  alias_key = none;
}

abbrev pub configure : RecoveryConfig → RecoveryState → RecoveryState
configure config s = record s {
  max_blobs = config.max_blobs;
  max_files = config.max_files;
  max_units = config.max_units;
  max_search_hits = config.max_search_hits;
  max_bytes = config.max_bytes;
}

abbrev pub state_entry_present : RecoveryState → Text → Bool
state_entry_present s ref_id =
    contains_key ref_id s.blobs
    || contains_key ref_id s.files
    || contains_key ref_id s.units
    || contains_key ref_id s.search_hits

abbrev pub forget_entry : Text → RecoveryState → RecoveryState
forget_entry ref_id s = record s {
  blobs = remove_key ref_id s.blobs;
  files = remove_key ref_id s.files;
  units = remove_key ref_id s.units;
  search_hits = remove_key ref_id s.search_hits;
}

-- The first occurrences of a list's texts, in order: `retain(|ref_id| seen.insert(ref_id.clone()))`.
unfoldable pub seen_before : Text → List Text → Bool
seen_before ref_id [] = false
seen_before ref_id (seen ∷ rest) = text_eq ref_id seen || seen_before ref_id rest

unfoldable pub first_occurrences : List Text → List Text → List Text
first_occurrences seen [] = []
first_occurrences seen (ref_id ∷ order) =
    let again = first_occurrences seen order in
    let fresh = first_occurrences (ref_id ∷ seen) order in
    if seen_before ref_id seen then again else ref_id ∷ fresh

-- What the modelled operations of the store read and change.
pub record RecoveryStore : Type 0 where
  pub config : RecoveryConfig
  pub state : RecoveryState
  pub session_refs : List Text
  pub pending_blob_deletions : Set
  pub pending_alias_deletions : Set
  pub skip_empty_persist : Bool
  pub ref_classes : Map ContentClass
  pub pending_cas_hashes : Set
  pub has_shared_cas : Bool

-- The store with a new state, and with the flag that every mutation clears.
abbrev pub in_state : RecoveryStore → RecoveryState → RecoveryStore
in_state store s = record store { state = s; skip_empty_persist = false }
