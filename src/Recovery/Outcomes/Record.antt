-- ===== src/Recovery/Outcomes/Record.antt =====
-- Recording a shell outcome: the clock, the cap and the verdict on the next run.
use tokenzero.Base.{
  ℕ, ◌+◌, min, ◌≡◌, refl, ap, ◌∙◌, arith, true, false, ◌&&◌, ◌||◌, Option, some, Text, text_eq,
  text_eq_refl, if◌then◌else◌, All, All-map, get_key, insert_key, insert_key-All,
  get_key-insert_key, insert_key-IsMap,
}
use tokenzero.Recovery.{RecoveryStore, ℤ, RecoveryState, ShellOutcome, Map}
use tokenzero.Recovery.Outcomes.{
  rank_ltb, next_shell_outcome_clock, repeat_of, record_keyed, record_shell_outcome_deferred,
  outcome_key, exit_eq, max_u32,
}
use tokenzero.Recovery.Outcomes.Trim.{
  IsNewest, trim_shell_outcomes-bounded, trim_shell_outcomes-retains,
}
use tokenzero.Recovery.Outcomes.Clock.{Clocked, not_after, before, next_shell_outcome_clock-Ticked}

-- Inserting the outcome of the clock makes it the newest, and keeps the others before it.
inserted :
    (key : Text) (newest : ShellOutcome) (m : Map ShellOutcome)
    → All (λ e. before newest.epoch newest.seq (e.1) ≡ true) m
    → All (λ e. not_after newest.epoch newest.seq (e.1) ≡ true) (insert_key key newest m)
      × IsNewest key newest (insert_key key newest m)
inserted key newest m earlier = (
  insert_key-All (λ e. not_after newest.epoch newest.seq (e.1) ≡ true) key newest m (ground arith)
      (All-map (λ e. before newest.epoch newest.seq (e.1) ≡ true)
        (λ e. not_after newest.epoch newest.seq (e.1) ≡ true) m (λ e h. ground (arith, h)) earlier),
  insert_key-All (λ e. (text_eq (e.0) key || rank_ltb (e.1) newest) ≡ true) key newest m
      (ground (arith, text_eq_refl key))
      (All-map (λ e. before newest.epoch newest.seq (e.1) ≡ true)
        (λ e. (text_eq (e.0) key || rank_ltb (e.1) newest) ≡ true) m (λ e h. ground (arith, h))
        earlier),
)

-- The outcome that is recorded.
abbrev outcome_at : Text → Option ℤ → ℕ → ℕ × ℕ → ShellOutcome
outcome_at sha exit_code seen clock = record {
  combined_sha = sha;
  exit_code = exit_code;
  seen = seen;
  seq = clock.1;
  epoch = clock.0;
}

record_keyed-Clocked :
    (key sha : Text) (exit_code : Option ℤ) (s : RecoveryState)
    → Clocked s
    → Clocked ((record_keyed key sha exit_code s).1)
unfolding record_keyed
record_keyed-Clocked key sha exit_code s clocked =
    let ticked = next_shell_outcome_clock-Ticked s clocked in
    let clock = next_shell_outcome_clock s in
    let verdict = repeat_of sha exit_code (get_key key (clock.1.shell_outcomes)) in
    let newest = outcome_at sha exit_code verdict.seen (clock.0) in
    let m = insert_key key newest (clock.1.shell_outcomes) in
    let trimmed =
      trim_shell_outcomes-bounded
        (λ e. not_after (clock.1.shell_outcome_epoch) (clock.1.shell_outcome_seq) (e.1) ≡ true) m
        (insert_key-IsMap key newest (clock.1.shell_outcomes) ticked.is_map)
        (rw (ticked.at_epoch, ticked.at_seq)
          ((inserted key newest (clock.1.shell_outcomes) ticked.earlier).0)) in
    record {
      is_map = trimmed.0;
      capped = trimmed.1;
      no_later = trimmed.2;
      seq_fits = rw (ticked.at_seq) ticked.seq_fits;
      epoch_fits = rw (ticked.at_epoch) ticked.epoch_fits;
    }

-- What the key looks up once it is recorded.
get_key-record_keyed :
    (key sha : Text) (exit_code : Option ℤ) (s : RecoveryState)
    → Clocked s
    → get_key key ((record_keyed key sha exit_code s).1.shell_outcomes)
      ≡ some (
          outcome_at sha exit_code
            ((record_keyed key sha exit_code s).0.seen)
            ((next_shell_outcome_clock s).0))
unfolding record_keyed
get_key-record_keyed key sha exit_code s clocked =
    let ticked = next_shell_outcome_clock-Ticked s clocked in
    let clock = next_shell_outcome_clock s in
    let verdict = repeat_of sha exit_code (get_key key (clock.1.shell_outcomes)) in
    let newest = outcome_at sha exit_code verdict.seen (clock.0) in
    trim_shell_outcomes-retains key newest (insert_key key newest (clock.1.shell_outcomes))
      (insert_key-IsMap key newest (clock.1.shell_outcomes) ticked.is_map)
      ((inserted key newest (clock.1.shell_outcomes) ticked.earlier).1)
      (get_key-insert_key key key newest (clock.1.shell_outcomes) ∙ rw (text_eq_refl key) refl)

verdict-record_keyed :
    (key sha : Text) (exit_code : Option ℤ) (s : RecoveryState)
    → Clocked s
    → (record_keyed key sha exit_code s).0 ≡ repeat_of sha exit_code (get_key key s.shell_outcomes)
unfolding record_keyed
verdict-record_keyed key sha exit_code s clocked =
    (next_shell_outcome_clock-Ticked s clocked).same_verdict key sha exit_code

-- The verdict on the next run of a command that was just recorded: unchanged exactly when the digest
-- of the output and the exit code are the same, and then one more than was seen, up to the u32 limit;
-- for an index of outcomes that is in order: its keys ascend, it holds at most 256 outcomes, none is
-- later than the clock, and the clock fits its registers. Afterwards the index is in order still.
pub record_shell_outcome_deferred-again :
    (sha256 sha256_hex : Text → Text) (scope : Option Text) (command once again : Text)
    (exit_once exit_again : Option ℤ) (store : RecoveryStore)
    → Clocked store.state
    → let first =
        record_shell_outcome_deferred sha256 sha256_hex scope command once exit_once store in
      let second =
        record_shell_outcome_deferred sha256 sha256_hex scope command again exit_again (first.1) in
      (second.0 ≡ (
        if text_eq (sha256_hex once) (sha256_hex again) && exit_eq exit_once exit_again
        then record { unchanged = true; seen = min (first.0.seen + 1) max_u32 }
        else record { unchanged = false; seen = 1 }))
      × Clocked (second.1.state)
unfolding record_shell_outcome_deferred
record_shell_outcome_deferred-again sha256 sha256_hex scope command once again exit_once exit_again
      store clocked =
    let key = outcome_key sha256 scope command in
    let first = record_keyed key (sha256_hex once) exit_once store.state in
    let first_clocked = record_keyed-Clocked key (sha256_hex once) exit_once store.state clocked in
    (
      verdict-record_keyed key (sha256_hex again) exit_again (first.1) first_clocked
          ∙ ap (repeat_of (sha256_hex again) exit_again)
              (get_key-record_keyed key (sha256_hex once) exit_once store.state clocked),
      record_keyed-Clocked key (sha256_hex again) exit_again (first.1) first_clocked,
    )
