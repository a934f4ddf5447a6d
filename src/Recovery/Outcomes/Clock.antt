-- ===== src/Recovery/Outcomes/Clock.antt =====
-- The clock of the shell outcomes: every new outcome is later than all that are there, also when the
-- clock has run out and the outcomes are renumbered.
use tokenzero.Base.Sorting.{sort, any-sort, length-sort}
use tokenzero.Base.{
  ℕ, suc, ◌+◌, ◌≤◌, ltb, leb, leb→le, ◌==◌, ◌≡◌, refl, ap, subst, ◌∙◌, arith, Bool, true, false,
  ◌&&◌, ◌||◌, ◌⊎◌, inl, inr, Bool-cases, Option-cases, Option, none, some, List, [], ◌∷◌, map,
  length, any, Text, text_eq, text_eq→≡, if◌then◌else◌, All, All-map, All-lookups, get_key, IsMap,
  get_key-insert_key, insert_key-IsMap, length-insert_key-same, max_u64, sat_add, checked_add,
}
use tokenzero.Recovery.{ℤ, RecoveryState, ShellOutcome, Map, seen_before}
use tokenzero.Recovery.Outcomes.{
  max_shell_outcomes, stamp, stamp_entry, key_ltb, ranked_keys, rebase_shell_outcomes_dense,
  next_shell_outcome_clock, after_rebase, repeat_of,
}

-- In the epoch, and not after the sequence number.
abbrev In : ℕ → ℕ → ShellOutcome → Type 0
In epoch seq o = ((o.epoch == epoch) && leb o.seq seq) ≡ true

stamp_entry-IsMap :
    (epoch seq : ℕ) (key : Text) (m : Map ShellOutcome)
    → IsMap m
    → IsMap (stamp_entry epoch seq key (get_key key m) m)
      × (length (stamp_entry epoch seq key (get_key key m) m) ≡ length m)
stamp_entry-IsMap epoch seq key m is_map = elim (Option-cases (get_key key m)) [
  | inl missing ↦ rw missing (is_map, refl)
  | inr found ↦
      let o' = record (found.0) { epoch = epoch; seq = seq } in
      rw (found.1) (
        insert_key-IsMap key o' m is_map,
        length-insert_key-same key o' (found.0) m is_map (found.1),
      )
]

stamp-IsMap :
    (epoch index : ℕ) (keys : List Text) (m : Map ShellOutcome)
    → IsMap m
    → IsMap (stamp epoch index keys m) × (length (stamp epoch index keys m) ≡ length m)
unfolding stamp
stamp-IsMap epoch index [] m is_map = (is_map, refl)
stamp-IsMap epoch index (key ∷ keys) m is_map =
    let once = stamp_entry-IsMap epoch (sat_add index 1) key m is_map in
    let rest =
      stamp-IsMap epoch (suc index) keys (stamp_entry epoch (sat_add index 1) key (get_key key m) m)
        (once.0) in
    (rest.0, rest.1 ∙ once.1)

restamp : ℕ → ℕ → Option ShellOutcome → Option ShellOutcome
restamp epoch seq none = none
restamp epoch seq (some o) = some (record o { epoch = epoch; seq = seq })

get_key-stamp_entry :
    (epoch seq : ℕ) (key k : Text) (m : Map ShellOutcome)
    → get_key k (stamp_entry epoch seq key (get_key key m) m)
      ≡ (if text_eq k key then restamp epoch seq (get_key k m) else get_key k m)
unfolding restamp
get_key-stamp_entry epoch seq key k m = elim (Option-cases (get_key key m)) [
  | inl missing ↦ ground (arith, missing, text_eq→≡ k key)
  | inr found ↦ ground (
    arith,
    found.1,
    text_eq→≡ k key,
    get_key-insert_key k key (record (found.0) { epoch = epoch; seq = seq }) m,
  )
]

restamp-In :
    (epoch seq : ℕ) (old : Option ShellOutcome) (o : ShellOutcome)
    → restamp epoch seq old ≡ some o
    → In epoch seq o
unfolding restamp
restamp-In epoch seq none o h = absurd (cc)
restamp-In epoch seq (some x) o h =
    let same : record x { epoch = epoch; seq = seq } ≡ o = ground (arith, h) in
    subst (In epoch seq) same (ground arith)

-- What is to be stamped yet, or is stamped with at most the index.
abbrev Pending : ℕ → ℕ → List Text → Map ShellOutcome → Type 0
Pending epoch index keys m =
    (key : Text) (o : ShellOutcome)
    → get_key key m ≡ some o
    → (seen_before key keys ≡ true) ⊎ In epoch index o

Pending-stamp_entry :
    (epoch index : ℕ) (key : Text) (keys : List Text) (m : Map ShellOutcome)
    → Pending epoch index (key ∷ keys) m
    → Pending epoch (suc index) keys (stamp_entry epoch (sat_add index 1) key (get_key key m) m)
unfolding seen_before
Pending-stamp_entry epoch index key keys m pending k o h =
    let law = get_key-stamp_entry epoch (sat_add index 1) key k m in
    elim (Bool-cases (text_eq k key)) [
      | inl same ↦
          let now : In epoch (sat_add index 1) o =
            restamp-In epoch (sat_add index 1) (get_key k m) o (ground (arith, law, same, h)) in
          inr (ground (arith, now))
      | inr differs ↦ elim (pending k o (ground (arith, law, differs, h))) [
        | inl later ↦ inl (ground (arith, later, differs))
        | inr done ↦ inr (ground (arith, done))
      ]
    ]

stamp-In :
    (epoch index : ℕ) (keys : List Text) (m : Map ShellOutcome)
    → Pending epoch index keys m
    → (key : Text) (o : ShellOutcome) → get_key key (stamp epoch index keys m) ≡ some o
    → In epoch (index + length keys) o
unfolding stamp seen_before
stamp-In epoch index [] m pending key o h = elim (pending key o h) [
  | inl never ↦ absurd (cc)
  | inr done ↦ ground (arith, done)
]
stamp-In epoch index (key' ∷ keys) m pending key o h =
    let rest =
      stamp-In epoch (suc index) keys (stamp_entry epoch (sat_add index 1) key' (get_key key' m) m)
        (Pending-stamp_entry epoch index key' keys m pending) key o h in
    ground (arith, rest)

repeat_of-stamp :
    (epoch index : ℕ) (keys : List Text) (m : Map ShellOutcome) (key sha : Text)
    (exit_code : Option ℤ)
    → repeat_of sha exit_code (get_key key (stamp epoch index keys m))
      ≡ repeat_of sha exit_code (get_key key m)
unfolding stamp
repeat_of-stamp epoch index [] m key sha exit_code = refl
repeat_of-stamp epoch index (key' ∷ keys) m key sha exit_code =
    repeat_of-stamp epoch (suc index) keys
      (stamp_entry epoch (sat_add index 1) key' (get_key key' m) m) key sha exit_code
    ∙ ap (repeat_of sha exit_code) (get_key-stamp_entry epoch (sat_add index 1) key' key m)
    ∙ kept (text_eq key key') (get_key key m)
  where
    kept :
        (b : Bool) (old : Option ShellOutcome)
        → repeat_of sha exit_code (if b then restamp epoch (sat_add index 1) old else old)
          ≡ repeat_of sha exit_code old
    kept true none = unfold restamp in refl
    kept true (some o) = unfold restamp in refl
    kept false old = refl

seen_before-keys :
    (key : Text) (m : Map ShellOutcome)
    → seen_before key (map (λ e. e.0) m) ≡ any (λ e. text_eq key (e.0)) m
unfolding seen_before
seen_before-keys key [] = refl
seen_before-keys key (e ∷ m) = ap (◌||◌ (text_eq key (e.0))) (seen_before-keys key m)

get_key-any :
    (key : Text) (m : Map ShellOutcome) (o : ShellOutcome)
    → get_key key m ≡ some o
    → any (λ e. text_eq key (e.0)) m ≡ true
unfolding get_key
get_key-any key [] o h = cc
get_key-any key (e ∷ m) o h = ground (arith, h, get_key-any key m o)

ranked_keys-seen :
    (key : Text) (m : Map ShellOutcome) (o : ShellOutcome)
    → get_key key m ≡ some o
    → seen_before key (ranked_keys m) ≡ true
ranked_keys-seen key m o h =
    seen_before-keys key (sort key_ltb m)
    ∙ any-sort key_ltb (λ e. text_eq key (e.0)) m
    ∙ get_key-any key m o h

length-ranked_keys : (m : Map ShellOutcome) → length (ranked_keys m) ≡ length m
length-ranked_keys m = length-keys (sort key_ltb m) ∙ length-sort key_ltb m
  where
    length-keys : (xs : Map ShellOutcome) → length (map (λ e. e.0) xs) ≡ length xs
    length-keys [] = refl
    length-keys (x ∷ xs) = ap suc (length-keys xs)

-- At or before the clock, and strictly before it.
abbrev pub not_after : ℕ → ℕ → ShellOutcome → Bool
not_after epoch seq o = ltb o.epoch epoch || (o.epoch == epoch && leb o.seq seq)

abbrev pub before : ℕ → ℕ → ShellOutcome → Bool
before epoch seq o = ltb o.epoch epoch || (o.epoch == epoch && ltb o.seq seq)

-- No outcome is after the clock, which fits its registers, and the outcomes are within their cap.
pub record Clocked (s : RecoveryState) : Type 0 where
  pub is_map : IsMap s.shell_outcomes
  pub capped : length s.shell_outcomes ≤ max_shell_outcomes
  pub no_later :
      All (λ e. not_after s.shell_outcome_epoch s.shell_outcome_seq (e.1) ≡ true) s.shell_outcomes
  pub seq_fits : s.shell_outcome_seq ≤ max_u64
  pub epoch_fits : s.shell_outcome_epoch ≤ max_u64

-- The clock after a tick, and what stays of the outcomes.
pub record Ticked (s : RecoveryState) (clock : ℕ × ℕ) (next : RecoveryState) : Type 0 where
  pub is_map : IsMap next.shell_outcomes
  pub capped : length next.shell_outcomes ≤ max_shell_outcomes
  pub earlier : All (λ e. before (clock.0) (clock.1) (e.1) ≡ true) next.shell_outcomes
  pub at_epoch : next.shell_outcome_epoch ≡ clock.0
  pub at_seq : next.shell_outcome_seq ≡ clock.1
  pub seq_fits : clock.1 ≤ max_u64
  pub epoch_fits : clock.0 ≤ max_u64
  pub same_verdict :
      (key sha : Text) (exit_code : Option ℤ)
      → repeat_of sha exit_code (get_key key next.shell_outcomes)
        ≡ repeat_of sha exit_code (get_key key s.shell_outcomes)

-- With the outcomes renumbered, they are all in the clock's epoch and at most as many.
rebased-In :
    (s : RecoveryState)
    → Clocked s
    → All
        (λ e. In s.shell_outcome_epoch (length (ranked_keys s.shell_outcomes)) (e.1))
        ((rebase_shell_outcomes_dense s).shell_outcomes)
unfolding rebase_shell_outcomes_dense
rebased-In s clocked =
    let keys = ranked_keys s.shell_outcomes in
    All-lookups (λ e. In s.shell_outcome_epoch (length keys) (e.1))
      (stamp s.shell_outcome_epoch 0 keys s.shell_outcomes)
      ((stamp-IsMap s.shell_outcome_epoch 0 keys s.shell_outcomes clocked.is_map).0)
      (λ key o h. ground (
        arith,
        stamp-In s.shell_outcome_epoch 0 keys s.shell_outcomes
            (λ k p found. inl (ranked_keys-seen k s.shell_outcomes p found)) key o h,
      ))

Ticked-rebase :
    (s : RecoveryState)
    → Clocked s
    → let rebased = rebase_shell_outcomes_dense s in
      let ticked = after_rebase rebased (checked_add rebased.shell_outcome_seq 1) in
      Ticked s (ticked.0) (ticked.1)
unfolding rebase_shell_outcomes_dense
Ticked-rebase s clocked =
    let keys = ranked_keys s.shell_outcomes in
    let stamps = stamp-IsMap s.shell_outcome_epoch 0 keys s.shell_outcomes clocked.is_map in
    let few : length keys ≤ max_shell_outcomes =
      rw (length-ranked_keys s.shell_outcomes) clocked.capped in
    let room : leb (length keys + 1) max_u64 ≡ true = ground (arith, few) in
    rw room (record {
      is_map = stamps.0;
      capped = rw (stamps.1) clocked.capped;
      earlier =
          All-map (λ e. In s.shell_outcome_epoch (length keys) (e.1))
            (λ e. before s.shell_outcome_epoch (length keys + 1) (e.1) ≡ true)
            ((rebase_shell_outcomes_dense s).shell_outcomes) (λ e h. ground (arith, h))
            (rebased-In s clocked);
      at_epoch = refl;
      at_seq = refl;
      seq_fits = omega (arith, few);
      epoch_fits = clocked.epoch_fits;
      same_verdict = repeat_of-stamp s.shell_outcome_epoch 0 keys s.shell_outcomes;
    })

Ticked-at :
    (s : RecoveryState) (epoch seq : ℕ)
    → Clocked s
    → ((o : ShellOutcome)
        → not_after s.shell_outcome_epoch s.shell_outcome_seq o ≡ true
        → before epoch seq o ≡ true)
    → seq ≤ max_u64
    → epoch ≤ max_u64
    → Ticked s (epoch, seq) (record s { shell_outcome_epoch = epoch; shell_outcome_seq = seq })
Ticked-at s epoch seq clocked advance seq_fits epoch_fits = record {
  is_map = clocked.is_map;
  capped = clocked.capped;
  earlier =
      All-map (λ e. not_after s.shell_outcome_epoch s.shell_outcome_seq (e.1) ≡ true)
        (λ e. before epoch seq (e.1) ≡ true) s.shell_outcomes (λ e h. advance (e.1) h)
        clocked.no_later;
  at_epoch = refl;
  at_seq = refl;
  seq_fits = seq_fits;
  epoch_fits = epoch_fits;
  same_verdict = λ key sha exit_code. refl;
}

pub next_shell_outcome_clock-Ticked :
    (s : RecoveryState)
    → Clocked s
    → Ticked s ((next_shell_outcome_clock s).0) ((next_shell_outcome_clock s).1)
unfolding next_shell_outcome_clock
next_shell_outcome_clock-Ticked s clocked =
    elim (Bool-cases (leb (s.shell_outcome_seq + 1) max_u64)) [
      | inl room ↦ rw room (
          Ticked-at s s.shell_outcome_epoch (s.shell_outcome_seq + 1) clocked
            (λ o h. ground (arith, h)) (leb→le (s.shell_outcome_seq + 1) max_u64 room)
            clocked.epoch_fits)
      | inr full ↦ elim (Bool-cases (leb (s.shell_outcome_epoch + 1) max_u64)) [
        | inl room ↦
            rw (full, room)
              (Ticked-at s (s.shell_outcome_epoch + 1) 1 clocked (λ o h. ground (arith, h))
                (omega arith) (leb→le (s.shell_outcome_epoch + 1) max_u64 room))
        | inr exhausted ↦ rw (full, exhausted) (Ticked-rebase s clocked)
      ]
    ]
