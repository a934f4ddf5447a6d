-- ===== src/Recovery/Tests.antt =====
-- The theorems about the recovery store at concrete states. SHA-256 stands for the bytes themselves.
use tokenzero.Base.{
  ℕ, ◌+◌, ◌≤◌, ◌≡◌, ◌⊎◌, refl, Bool, true, false, ◌&&◌, ◌||◌, Option, none, some, List, [], ◌∷◌,
  take, min, Text, text_eq, codes, arith, if◌then◌else◌, get_key, contains_key, IsMap, text_ltb,
  holds_entry, subst,
}
use tokenzero.Recovery.{
  RecoveryStore, pos, inline, RecoveryConfig, RecoveryState, ShellOutcome, empty_state,
}
use tokenzero.Recovery.Transparency.{
  InclusionProof, ConsistencyProof, root, inclusion_proof, verify_inclusion, consistency_proof,
  verify_consistency,
}
use tokenzero.Recovery.Transparency.Consistency.{inclusion-consistency_proof-verify}
use tokenzero.Recovery.Refs.{code, search_result, source_file, parse_ref, classify_ref}
use tokenzero.Recovery.Outcomes.{ShellRepeat, exit_eq, record_shell_outcome_deferred, max_u32}
use tokenzero.Recovery.Outcomes.Clock.{Clocked}
use tokenzero.Recovery.Outcomes.Record.{record_shell_outcome_deferred-again}
use tokenzero.Recovery.Merge.{JournalEntry, merge_states, session_delta, apply_session_wal}
use tokenzero.Recovery.Merge.Views.{
  AreMaps, override, session_view, view, merge_states-refines-override, merge_states-session_delta,
  merge_states-aliases,
}
use tokenzero.Recovery.Merge.Aliases.{first_of, conflicts}
use tokenzero.Recovery.Merge.Journal.{apply_session_wal-Clocked}
use tokenzero.Recovery.Eviction.{approx_bytes, evict_store}
use tokenzero.Recovery.Eviction.Budget.{WithinCaps, evict_store-bounded}
use tokenzero.Recovery.Store.History.{
  Mutation, link_alias, delete_blob, keep_text, keep_search_hit, make_room, run, run-consistency,
}

abbrev config : RecoveryConfig
config = record {
  max_blobs = 1;
  max_files = 1;
  max_units = 1;
  max_search_hits = 1;
  max_bytes = 10;
  max_load_bytes = 100;
  legacy_compat = true;
  legacy_compat_deadline = none;
}

abbrev fresh : RecoveryState
fresh = empty_state config

empty-IsMap : (V : Type 0) → IsMap {V = V} []
unfolding IsMap
empty-IsMap V = tt

fresh-Clocked : Clocked fresh
fresh-Clocked = record {
  is_map = empty-IsMap ShellOutcome;
  capped = omega arith;
  no_later = tt;
  seq_fits = omega arith;
  epoch_fits = omega arith;
}

-- Three leaves: a peak over the first two, and one over the last.
abbrev leaves : List Text
leaves = codes "a" ∷ codes "b" ∷ codes "c" ∷ []

-- A state with two blobs and two aliases, and one that knows other entries.
abbrev live : RecoveryState
live = record fresh {
  blobs =
      (codes "tz://blob/a", inline (codes "first"))
      ∷ (codes "tz://blob/b", inline (codes "second"))
      ∷ [];
  aliases = (codes "x", codes "tz://blob/a") ∷ (codes "y", codes "tz://blob/b") ∷ [];
  order = codes "tz://blob/a" ∷ codes "tz://blob/b" ∷ [];
  transparency = leaves;
}

abbrev saved : RecoveryState
saved = record fresh {
  blobs = (codes "tz://blob/b", inline (codes "old")) ∷ [];
  aliases = (codes "x", codes "tz://blob/c") ∷ [];
}

abbrev session : List Text
session = codes "tz://blob/a" ∷ []

live-Clocked : Clocked live
live-Clocked = record {
  is_map = empty-IsMap ShellOutcome;
  capped = omega arith;
  no_later = tt;
  seq_fits = omega arith;
  epoch_fits = omega arith;
}

live-AreMaps : AreMaps live
unfolding AreMaps IsMap text_ltb
live-AreMaps = (((refl, tt), (tt, tt)), tt, tt, tt)

live-aliases : IsMap live.aliases
unfolding IsMap text_ltb
live-aliases = ((refl, tt), (tt, tt))

merge_states-refines-override_example :
    (get_key (codes "tz://blob/b") ((merge_states saved live session config).blobs)
      ≡ override session (view saved.blobs) (view live.blobs) (codes "tz://blob/b"))
    × (get_key (codes "tz://blob/b") ((merge_states saved live session config).files)
        ≡ override session (view saved.files) (view live.files) (codes "tz://blob/b"))
    × (get_key (codes "tz://blob/b") ((merge_states saved live session config).units)
        ≡ override session (view saved.units) (view live.units) (codes "tz://blob/b"))
    × (get_key (codes "tz://blob/b") ((merge_states saved live session config).search_hits)
        ≡ override session (view saved.search_hits) (view live.search_hits) (codes "tz://blob/b"))
merge_states-refines-override_example =
    merge_states-refines-override saved live session config live-AreMaps (codes "tz://blob/b")

abbrev replayed : RecoveryState
replayed = merge_states saved (session_delta live session config) session config

merge_states-session_delta_example :
    (get_key (codes "tz://blob/a") replayed.blobs
      ≡ session_view session (view saved.blobs) (view live.blobs) (codes "tz://blob/a"))
    × (get_key (codes "tz://blob/a") replayed.files
        ≡ session_view session (view saved.files) (view live.files) (codes "tz://blob/a"))
    × (get_key (codes "tz://blob/a") replayed.units
        ≡ session_view session (view saved.units) (view live.units) (codes "tz://blob/a"))
    × (get_key (codes "tz://blob/a") replayed.search_hits
        ≡ session_view session
            (view saved.search_hits)
            (view live.search_hits)
            (codes "tz://blob/a"))
merge_states-session_delta_example =
    merge_states-session_delta saved live session config (codes "tz://blob/a")

merge_states-aliases_example :
    (get_key (codes "x") ((merge_states saved live session config).aliases)
      ≡ first_of (get_key (codes "x") saved.aliases) (get_key (codes "x") live.aliases))
    × (contains_key (codes "x") ((merge_states saved live session config).ambiguous_aliases) ≡ (
        contains_key (codes "x") saved.ambiguous_aliases
        || conflicts (get_key (codes "x") saved.aliases) (get_key (codes "x") live.aliases)
        || contains_key (codes "x") live.ambiguous_aliases))
merge_states-aliases_example =
    merge_states-aliases saved live session config live-aliases (codes "x")

abbrev journal_entry : JournalEntry
journal_entry = record {
  refs = session;
  state = fresh;
  deleted_blob_refs = [];
  deleted_aliases = [];
}

-- A record that is the entry, and one that cannot be read.
abbrev decode : Bool → Option JournalEntry
decode true = some journal_entry
decode false = none

decode-Clocked : (r : Bool) (e : JournalEntry) → decode r ≡ some e → Clocked e.state
decode-Clocked true e h =
    let same : journal_entry ≡ e = ground (arith, h) in
    subst (λ x. Clocked x.state) same fresh-Clocked
decode-Clocked false e h = absurd (cc)

apply_session_wal-Clocked_example :
    Clocked (apply_session_wal decode config fresh (true ∷ false ∷ true ∷ []))
apply_session_wal-Clocked_example =
    apply_session_wal-Clocked decode config decode-Clocked (true ∷ false ∷ true ∷ []) fresh
      fresh-Clocked

abbrev store : RecoveryStore
store = record {
  config = config;
  state = live;
  session_refs = session;
  pending_blob_deletions = [];
  pending_alias_deletions = [];
  skip_empty_persist = true;
  ref_classes = [];
  pending_cas_hashes = [];
  has_shared_cas = false;
}

-- The text itself in the place of its digest.
abbrev plain : Text → Text
plain text = text

abbrev first_run : ShellRepeat × RecoveryStore
first_run =
    record_shell_outcome_deferred plain plain none (codes "ls") (codes "a b") (some (pos 0)) store

record_shell_outcome_deferred-again_example :
    ((record_shell_outcome_deferred plain plain none
        (codes "ls")
        (codes "a b")
        (some (pos 0))
        (first_run.1)).0
      ≡ (if text_eq (codes "a b") (codes "a b") && exit_eq (some (pos 0)) (some (pos 0))
          then record { unchanged = true; seen = min (first_run.0.seen + 1) max_u32 }
          else record { unchanged = false; seen = 1 }))
    × Clocked (
        (record_shell_outcome_deferred plain plain none
          (codes "ls")
          (codes "a b")
          (some (pos 0))
          (first_run.1)).1.state)
record_shell_outcome_deferred-again_example =
    record_shell_outcome_deferred-again plain plain none (codes "ls") (codes "a b") (codes "a b")
      (some (pos 0)) (some (pos 0)) store live-Clocked

inclusion-consistency_proof-verify_example :
    ((p : InclusionProof) × (inclusion_proof plain leaves 1 ≡ some p)
      × (p.leaf_hash ≡ codes "b")
      × (verify_inclusion plain p (root plain leaves) ≡ true))
    × ((p : ConsistencyProof) × (consistency_proof plain leaves 1 ≡ some p)
        × (verify_consistency plain p (root plain (take 1 leaves)) (root plain leaves) ≡ true))
inclusion-consistency_proof-verify_example =
    inclusion-consistency_proof-verify plain leaves 1 (codes "b") 1 refl (omega arith)

-- A refuted proof: the leaf at another place.
wrong_leaf :
    verify_inclusion plain
      (record {
        size = 1;
        leaf_index = 0;
        leaf_hash = codes "a";
        peak_index = 0;
        siblings = [];
        peaks = codes "b" ∷ [];
      })
      (codes "b")
    ≡ false
unfolding verify_inclusion text_eq
wrong_leaf = refl

abbrev no_marker : Text → Option ℕ
no_marker text = none

abbrev colder : List Text → Text → Text → Bool
colder order a b = text_ltb a b

evict_store-bounded_example :
    ((approx_bytes 32 no_marker ((evict_store 32 no_marker colder store).state) ≤ 10)
      ⊎ ((evict_store 32 no_marker colder store).state.order ≡ []))
    × WithinCaps config ((evict_store 32 no_marker colder store).state)
evict_store-bounded_example = evict_store-bounded 32 no_marker colder store live-AreMaps

-- The older blob goes.
evicted_first :
    (evict_store 32 no_marker colder store).state.blobs
    ≡ (codes "tz://blob/b", inline (codes "second")) ∷ []
unfolding evict_store text_eq get_key text_ltb holds_entry
evicted_first = refl

abbrev history : List Mutation
history =
    keep_text (codes "new") code
    ∷ link_alias (codes "z") (codes "tz://blob/a")
    ∷ keep_search_hit (codes "tz://search/h") (codes "a.rs:1: new") search_result 1
    ∷ make_room
    ∷ delete_blob (codes "tz://blob/b")
    ∷ []

abbrev log_after : List Text
log_after = (run 32 no_marker colder plain plain history store).state.transparency

run-consistency_example :
    (p : ConsistencyProof) × (consistency_proof plain log_after 3 ≡ some p)
    × (verify_consistency plain p (root plain leaves) (root plain log_after) ≡ true)
run-consistency_example = run-consistency 32 no_marker colder plain plain history store

-- Refs that parse, with their fragment, and one of no known kind.
parsed :
    (parse_ref (codes "tz://file/a#b")
      ≡ some
          (record { kind = codes "file"; bare = codes "tz://file/a"; fragment = some (codes "b") }))
    × (parse_ref (codes "tz://other/a") ≡ none)
    × (classify_ref (codes "tz://blob/a") (some code) ≡ source_file)
unfolding parse_ref classify_ref text_eq
parsed = (refl, refl, refl)
