-- ===== src/Recovery/Merge/Journal.antt =====
-- Merging two states, and replaying a journal, keep the books of the shell outcomes.
use tokenzero.Base.{
  ◌≤◌, ◌≡◌, arith, true, inl, inr, Bool-cases, Option-cases, Option, some, List, [], ◌∷◌, Text, All,
  All-map, get_key, IsMap, insert_key-All, insert_key-IsMap, max_u64,
}
use tokenzero.Recovery.{RecoveryConfig, RecoveryState, ShellOutcome, Map}
use tokenzero.Recovery.Merge.{
  keep_newer, merge_outcomes, merge_states, merge_shell_outcome_clock, JournalEntry, apply_entry,
  apply_session_wal,
}
use tokenzero.Recovery.Outcomes.{rank_ltb}
use tokenzero.Recovery.Outcomes.Trim.{trim_shell_outcomes-bounded}
use tokenzero.Recovery.Outcomes.Clock.{Clocked, not_after}

module _ {κ} (P : Text × ShellOutcome → Type κ) where
  keep_newer-All :
      (key : Text) (incoming : ShellOutcome) (merged : Map ShellOutcome)
      → IsMap merged
      → All P merged
      → P (key, incoming)
      → IsMap (keep_newer key incoming merged (get_key key merged))
        × All P (keep_newer key incoming merged (get_key key merged))
  keep_newer-All key incoming merged is_map ps p =
      let put = insert_key-IsMap key incoming merged is_map in
      let puts = insert_key-All P key incoming merged p ps in
      elim (Option-cases (get_key key merged)) [
        | inl missing ↦ rw missing (put, puts)
        | inr found ↦ elim (Bool-cases (rank_ltb incoming (found.0))) [
          | inl stale ↦ rw (found.1, stale) (is_map, ps)
          | inr newer ↦ rw (found.1, newer) (put, puts)
        ]
      ]

  merge_outcomes-All :
      (current merged : Map ShellOutcome)
      → IsMap merged
      → All P merged
      → All P current
      → IsMap (merge_outcomes current merged) × All P (merge_outcomes current merged)
  unfolding merge_outcomes
  merge_outcomes-All [] merged is_map ps qs = (is_map, ps)
  merge_outcomes-All ((key, incoming) ∷ current) merged is_map ps qs =
      let next = keep_newer-All key incoming merged is_map ps qs.0 in
      merge_outcomes-All current (keep_newer key incoming merged (get_key key merged)) (next.0)
        (next.1) qs.1

-- The merged clock is at or after both clocks.
clock-covers :
    (existing current : RecoveryState) (o : ShellOutcome)
    → let clock = merge_shell_outcome_clock existing current in
      (not_after existing.shell_outcome_epoch existing.shell_outcome_seq o ≡ true
        → not_after (clock.0) (clock.1) o ≡ true)
      × (not_after current.shell_outcome_epoch current.shell_outcome_seq o ≡ true
          → not_after (clock.0) (clock.1) o ≡ true)
clock-covers existing current o = (λ h. ground (arith, h), λ h. ground (arith, h))

clock-fits :
    (existing current : RecoveryState)
    → Clocked existing
    → Clocked current
    → let clock = merge_shell_outcome_clock existing current in
      (clock.1 ≤ max_u64) × (clock.0 ≤ max_u64)
clock-fits existing current c d =
    (ground (arith, c.seq_fits, d.seq_fits), ground (arith, c.epoch_fits, d.epoch_fits))

pub merge_states-Clocked :
    (existing current : RecoveryState) (session : List Text) (config : RecoveryConfig)
    → Clocked existing
    → Clocked current
    → Clocked (merge_states existing current session config)
unfolding merge_states
merge_states-Clocked existing current session config c d =
    let clock = merge_shell_outcome_clock existing current in
    let covered : Text × ShellOutcome → Type 0 = λ e. not_after (clock.0) (clock.1) (e.1) ≡ true in
    let merged =
      merge_outcomes-All covered current.shell_outcomes existing.shell_outcomes c.is_map
        (All-map
          (λ e. not_after existing.shell_outcome_epoch existing.shell_outcome_seq (e.1) ≡ true)
          covered existing.shell_outcomes (λ e. (clock-covers existing current (e.1)).0) c.no_later)
        (All-map (λ e. not_after current.shell_outcome_epoch current.shell_outcome_seq (e.1) ≡ true)
          covered current.shell_outcomes (λ e. (clock-covers existing current (e.1)).1)
          d.no_later) in
    let trimmed =
      trim_shell_outcomes-bounded covered
        (merge_outcomes current.shell_outcomes existing.shell_outcomes) (merged.0) (merged.1) in
    record {
      is_map = trimmed.0;
      capped = trimmed.1;
      no_later = trimmed.2;
      seq_fits = (clock-fits existing current c d).0;
      epoch_fits = (clock-fits existing current c d).1;
    }

apply_entry-Clocked :
    (config : RecoveryConfig) (s : RecoveryState) (entry : JournalEntry)
    → Clocked s
    → Clocked entry.state
    → Clocked (apply_entry config s entry)
apply_entry-Clocked config s entry c d =
    let merged = merge_states-Clocked s entry.state entry.refs config c d in
    record {
      is_map = merged.is_map;
      capped = merged.capped;
      no_later = merged.no_later;
      seq_fits = merged.seq_fits;
      epoch_fits = merged.epoch_fits;
    }

-- Replaying any journal over a state whose shell outcomes are in order leaves them in order, whatever
-- record it stops at, if every entry that decodes was written from such a state: the keys ascend,
-- there are at most 256 outcomes, none is later than the clock, and the clock fits its registers.
pub apply_session_wal-Clocked :
    {Record : Type 0} (decode : Record → Option JournalEntry) (config : RecoveryConfig)
    → ((r : Record) (entry : JournalEntry) → decode r ≡ some entry → Clocked entry.state)
    → (records : List Record) (s : RecoveryState) → Clocked s
    → Clocked (apply_session_wal decode config s records)
unfolding apply_session_wal
apply_session_wal-Clocked decode config written [] s c = c
apply_session_wal-Clocked decode config written (first ∷ records) s c =
    elim (Option-cases (decode first)) [
      | inl stops ↦ rw stops c
      | inr entry ↦ rw (entry.1) (
          apply_session_wal-Clocked decode config written records (apply_entry config s (entry.0))
            (apply_entry-Clocked config s (entry.0) c (written first (entry.0) (entry.1))))
    ]
