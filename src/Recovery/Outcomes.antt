-- ===== src/Recovery/Outcomes.antt =====
-- The capped index of shell results of crates/tokenzero-recovery/src/lib.rs: its clock, its cap, and
-- `record_shell_outcome_deferred`, over SHA-256 and its hexadecimal form.
pub mod Trim
pub mod Clock
pub mod Record
use tokenzero.Base.Sorting.{sort}
use tokenzero.Base.{
  ℕ, zero, suc, ◌+◌, ltb, leb, ◌==◌, Bool, true, false, ◌&&◌, ◌||◌, Option, none, some, List, [],
  ◌∷◌, ◌++◌, map, length, Text, text_eq, text_ltb, if◌then◌else◌, get_key, insert_key, remove_key,
  checked_add, sat_add, min, max_u64,
}
use tokenzero.Recovery.Refs.{id_for}
use tokenzero.Recovery.{RecoveryStore, in_state, ℤ, pos, negsuc, RecoveryState, ShellOutcome, Map}

abbrev pub max_shell_outcomes : ℕ
max_shell_outcomes = 256

abbrev pub max_u32 : ℕ
max_u32 = 4_294_967_295

-- The order of `shell_outcome_rank`.
abbrev pub rank_ltb : ShellOutcome → ShellOutcome → Bool
rank_ltb o p = ltb o.epoch p.epoch || (o.epoch == p.epoch && ltb o.seq p.seq)

abbrev older : Text × ShellOutcome → Option (Text × ShellOutcome) → Text × ShellOutcome
older e none = e
older e (some best) = if rank_ltb (best.1) (e.1) then best else e

-- `iter().min_by_key(shell_outcome_rank)`: the first entry of least rank.
unfoldable pub min_by_rank : Map ShellOutcome → Option (Text × ShellOutcome)
min_by_rank [] = none
min_by_rank (e ∷ m) = some (older e (min_by_rank m))

abbrev drop_victim : Option (Text × ShellOutcome) → Map ShellOutcome → Map ShellOutcome
drop_victim none m = m
drop_victim (some victim) m = remove_key (victim.0) m

-- `while outcomes.len() > MAX_SHELL_OUTCOMES`
unfoldable pub trim_loop : ℕ → Map ShellOutcome → Map ShellOutcome
trim_loop zero m = m
trim_loop (suc fuel) m =
    let rest = trim_loop fuel (drop_victim (min_by_rank m) m) in
    if ltb max_shell_outcomes (length m) then rest else m

unfoldable pub trim_shell_outcomes : Map ShellOutcome → Map ShellOutcome
trim_shell_outcomes m = trim_loop (length m) m

abbrev stamp_entry : ℕ → ℕ → Text → Option ShellOutcome → Map ShellOutcome → Map ShellOutcome
stamp_entry epoch seq key none m = m
stamp_entry epoch seq key (some o) m = insert_key key (record o { epoch = epoch; seq = seq }) m

-- `for (index, (_, _, key)) in keys.iter().enumerate()`
unfoldable pub stamp : ℕ → ℕ → List Text → Map ShellOutcome → Map ShellOutcome
stamp epoch index [] m = m
stamp epoch index (key ∷ keys) m =
    stamp epoch (suc index) keys (stamp_entry epoch (sat_add index 1) key (get_key key m) m)

-- The order of the triples that `keys.sort_unstable()` sorts.
abbrev pub key_ltb : Text × ShellOutcome → Text × ShellOutcome → Bool
key_ltb a b =
    rank_ltb (a.1) (b.1) || (a.1.epoch == b.1.epoch && (a.1.seq == b.1.seq && text_ltb (a.0) (b.0)))

abbrev pub ranked_keys : Map ShellOutcome → List Text
ranked_keys m = map (λ e. e.0) (sort key_ltb m)

unfoldable pub rebase_shell_outcomes_dense : RecoveryState → RecoveryState
unfolding stamp
rebase_shell_outcomes_dense s = record s {
  shell_outcomes = stamp s.shell_outcome_epoch 0 (ranked_keys s.shell_outcomes) s.shell_outcomes;
  shell_outcome_seq = length (ranked_keys s.shell_outcomes);
}

abbrev with_clock : ℕ → ℕ → RecoveryState → (ℕ × ℕ) × RecoveryState
with_clock epoch seq s =
    ((epoch, seq), record s { shell_outcome_epoch = epoch; shell_outcome_seq = seq })

abbrev pub after_rebase : RecoveryState → Option ℕ → (ℕ × ℕ) × RecoveryState
after_rebase s (some seq) = with_clock s.shell_outcome_epoch seq s
after_rebase s none = with_clock s.shell_outcome_epoch (sat_add (length s.shell_outcomes) 1) s

abbrev pub next_epoch : RecoveryState → Option ℕ → (ℕ × ℕ) × RecoveryState
next_epoch s (some epoch) = with_clock epoch 1 s
next_epoch s none =
    let rebased = rebase_shell_outcomes_dense s in
    after_rebase rebased (checked_add rebased.shell_outcome_seq 1)

abbrev next_seq : RecoveryState → Option ℕ → (ℕ × ℕ) × RecoveryState
next_seq s (some seq) = with_clock s.shell_outcome_epoch seq s
next_seq s none = next_epoch s (checked_add s.shell_outcome_epoch 1)

-- The epoch and the sequence number of a new outcome.
unfoldable pub next_shell_outcome_clock : RecoveryState → (ℕ × ℕ) × RecoveryState
next_shell_outcome_clock s = next_seq s (checked_add s.shell_outcome_seq 1)

pub record ShellRepeat : Type 0 where
  pub unchanged : Bool
  pub seen : ℕ

abbrev pub int_eq : ℤ → ℤ → Bool
int_eq (pos m) (pos n) = m == n
int_eq (negsuc m) (negsuc n) = m == n
int_eq _ _ = false

abbrev pub exit_eq : Option ℤ → Option ℤ → Bool
exit_eq none none = true
exit_eq (some a) (some b) = int_eq a b
exit_eq _ _ = false

abbrev pub repeat_of : Text → Option ℤ → Option ShellOutcome → ShellRepeat
repeat_of sha exit_code none = record { unchanged = false; seen = 1 }
repeat_of sha exit_code (some prev) =
    if text_eq prev.combined_sha sha && exit_eq prev.exit_code exit_code
    then record { unchanged = true; seen = min (prev.seen + 1) max_u32 }
    else record { unchanged = false; seen = 1 }

-- The state with the outcome recorded under its key, and the verdict.
abbrev outcome_recorded :
    Text → Text → Option ℤ → ShellRepeat → (ℕ × ℕ) × RecoveryState → ShellRepeat × RecoveryState
outcome_recorded key sha exit_code verdict (clock, s) = (
  verdict,
  record s {
    shell_outcomes = trim_shell_outcomes (
        insert_key key
          (record {
            combined_sha = sha;
            exit_code = exit_code;
            seen = verdict.seen;
            seq = clock.1;
            epoch = clock.0;
          })
          s.shell_outcomes);
  },
)

unfoldable pub record_keyed : Text → Text → Option ℤ → RecoveryState → ShellRepeat × RecoveryState
unfolding next_shell_outcome_clock trim_shell_outcomes
record_keyed key sha exit_code s =
    let clock = next_shell_outcome_clock s in
    outcome_recorded key sha exit_code
      (repeat_of sha exit_code (get_key key (clock.1.shell_outcomes))) clock

unfoldable pub outcome_key : (sha256 : Text → Text) → Option Text → Text → Text
unfolding id_for
outcome_key sha256 none command = id_for sha256 115 (0 ∷ command)
outcome_key sha256 (some scope) command = id_for sha256 115 (scope ++ 0 ∷ command)

abbrev with_verdict : RecoveryStore → ShellRepeat × RecoveryState → ShellRepeat × RecoveryStore
with_verdict store (verdict, s) = (verdict, in_state store s)

unfoldable pub record_shell_outcome_deferred :
    (sha256 sha256_hex : Text → Text) (scope : Option Text) (command combined : Text)
    (exit_code : Option ℤ)
    → RecoveryStore
    → ShellRepeat × RecoveryStore
unfolding record_keyed outcome_key
record_shell_outcome_deferred sha256 sha256_hex scope command combined exit_code store =
    with_verdict store
      (record_keyed (outcome_key sha256 scope command) (sha256_hex combined) exit_code store.state)
