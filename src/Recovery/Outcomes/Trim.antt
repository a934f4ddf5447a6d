-- ===== src/Recovery/Outcomes/Trim.antt =====
-- Trimming the shell outcomes: it ends at the cap, and the newest outcome is never the victim.
use tokenzero.Base.{
  ℕ, zero, suc, ◌≤◌, ◌<◌, ltb, ltb→lt, ◌≡◌, refl, subst, ◌∙◌, arith, true, false, ◌||◌, Bool-cases,
  Option-cases, inl, inr, none, some, [], ◌∷◌, length, Text, text_eq, text_eq→≡, text_eq_refl,
  text_ltb, text_ltb-apart, All, All-map, get_key, remove_key, IsMap, get_key-All,
  get_key-remove_key, remove_key-IsMap, remove_key-All, length-remove_key,
}
use tokenzero.Recovery.{ShellOutcome, Map}
use tokenzero.Recovery.Outcomes.{
  max_shell_outcomes, rank_ltb, min_by_rank, trim_loop, trim_shell_outcomes,
}

min_by_rank-All {κ} :
    (P : Text × ShellOutcome → Type κ) (m : Map ShellOutcome) (victim : Text × ShellOutcome)
    → All P m
    → min_by_rank m ≡ some victim
    → P victim
unfolding min_by_rank
min_by_rank-All P [] victim ps h = cc
min_by_rank-All P (e ∷ m) victim ps h = elim (Option-cases (min_by_rank m)) [
  | inl missing ↦ let same : e ≡ victim = ground (arith, missing, h) in subst P same (ps.0)
  | inr best ↦ elim (Bool-cases (rank_ltb ((best.0).1) (e.1))) [
    | inl less ↦
        let same : best.0 ≡ victim = ground (arith, best.1, less, h) in
        subst P same (min_by_rank-All P m (best.0) ps.1 (best.1))
    | inr other ↦ let same : e ≡ victim = ground (arith, best.1, other, h) in subst P same (ps.0)
  ]
]

min_by_rank-none {κ} :
    (P : Text × ShellOutcome → Type κ) (m : Map ShellOutcome) → min_by_rank m ≡ none → All P m
unfolding min_by_rank
min_by_rank-none P [] h = tt
min_by_rank-none P (e ∷ m) h = absurd (cc)

length-none : (m : Map ShellOutcome) → min_by_rank m ≡ none → length m ≡ 0
unfolding min_by_rank
length-none [] h = refl
length-none (e ∷ m) h = absurd (cc)

get_key-victim :
    (m : Map ShellOutcome) (victim : Text × ShellOutcome)
    → IsMap m
    → min_by_rank m ≡ some victim
    → get_key (victim.0) m ≡ some (victim.1)
get_key-victim m victim is_map h =
    min_by_rank-All (λ e. get_key (e.0) m ≡ some (e.1)) m victim (get_key-All m is_map) h

-- Nothing ranks below the victim.
min_by_rank-least :
    (m : Map ShellOutcome) (victim : Text × ShellOutcome)
    → min_by_rank m ≡ some victim
    → All (λ e. rank_ltb (e.1) (victim.1) ≡ false) m
unfolding min_by_rank
min_by_rank-least [] victim h = tt
min_by_rank-least (e ∷ m) victim h = elim (Option-cases (min_by_rank m)) [
  | inl missing ↦
      let same : e ≡ victim = ground (arith, missing, h) in
      subst (λ v. All (λ e'. rank_ltb (e'.1) (v.1) ≡ false) (e ∷ m)) same
        (ground arith, min_by_rank-none (λ e'. rank_ltb (e'.1) (e.1) ≡ false) m missing)
  | inr best ↦ elim (Bool-cases (rank_ltb ((best.0).1) (e.1))) [
    | inl less ↦
        let same : best.0 ≡ victim = ground (arith, best.1, less, h) in
        (
          subst (λ v. rank_ltb (e.1) (v.1) ≡ false) same (ground (arith, less)),
          subst (λ v. All (λ e'. rank_ltb (e'.1) (v.1) ≡ false) m) same
              (min_by_rank-least m (best.0) (best.1)),
        )
    | inr other ↦
        let same : e ≡ victim = ground (arith, best.1, other, h) in
        subst (λ v. All (λ e'. rank_ltb (e'.1) (v.1) ≡ false) (e ∷ m)) same
          (
            ground arith,
            All-map (λ e'. rank_ltb (e'.1) ((best.0).1) ≡ false)
                (λ e'. rank_ltb (e'.1) (e.1) ≡ false) m (λ e' p. ground (arith, p, other))
                (min_by_rank-least m (best.0) (best.1)),
          )
  ]
]

-- The entry under the key outranks every entry under another key.
abbrev pub IsNewest : Text → ShellOutcome → Map ShellOutcome → Type 0
IsNewest key newest m = All (λ e. (text_eq (e.0) key || rank_ltb (e.1) newest) ≡ true) m

-- Two entries of a map are not both under the key.
some_other :
    (key : Text) (newest : ShellOutcome) (m : Map ShellOutcome)
    → IsMap m
    → 1 < length m
    → IsNewest key newest m
    → All (λ e. rank_ltb (e.1) newest ≡ false) m
    → ⊥
unfolding IsMap
some_other key newest [] is_map long outranks least = omega (arith, long)
some_other key newest (a ∷ []) is_map long outranks least = omega (arith, long)
some_other key newest (a ∷ (b ∷ m)) is_map long outranks least =
    let first : text_eq (a.0) key ≡ true = ground (arith, outranks.0, least.0) in
    let second : text_eq (b.0) key ≡ true = ground (arith, (outranks.1).0, (least.1).0) in
    let ascending : text_ltb key key ≡ true =
      subst (λ k. text_ltb k key ≡ true) (text_eq→≡ (a.0) key first)
        (subst (λ k. text_ltb (a.0) k ≡ true) (text_eq→≡ (b.0) key second) ((is_map.0).0)) in
    cc (text_ltb-apart key key ascending, text_eq_refl key)

victim-≢ :
    (key : Text) (newest : ShellOutcome) (m : Map ShellOutcome) (victim : Text × ShellOutcome)
    → IsMap m
    → 1 < length m
    → IsNewest key newest m
    → get_key key m ≡ some newest
    → min_by_rank m ≡ some victim
    → text_eq key (victim.0) ≡ false
victim-≢ key newest m victim is_map long outranks found h =
    elim (Bool-cases (text_eq key (victim.0))) [
      | inl same ↦ absurd (some_other key newest m is_map long outranks (least same))
      | inr differs ↦ differs
    ]
  where
    is_newest : text_eq key (victim.0) ≡ true → victim.1 ≡ newest
    is_newest same =
        let found' : get_key (victim.0) m ≡ some newest =
          subst (λ k. get_key k m ≡ some newest) (text_eq→≡ key (victim.0) same) found in
        ground (arith, found', get_key-victim m victim is_map h)

    least : text_eq key (victim.0) ≡ true → All (λ e. rank_ltb (e.1) newest ≡ false) m
    least same =
        subst (λ o. All (λ e. rank_ltb (e.1) o ≡ false) m) (is_newest same)
          (min_by_rank-least m victim h)

-- A trimmed map keeps at most the cap, and satisfies what the map did.
trim_loop-bounded {κ} :
    (P : Text × ShellOutcome → Type κ) (fuel : ℕ) (m : Map ShellOutcome)
    → IsMap m
    → length m ≤ fuel
    → All P m
    → IsMap (trim_loop fuel m)
      × (length (trim_loop fuel m) ≤ max_shell_outcomes)
      × All P (trim_loop fuel m)
unfolding trim_loop
trim_loop-bounded P zero m is_map enough ps = (is_map, omega (arith, enough), ps)
trim_loop-bounded P (suc fuel) m is_map enough ps =
    elim (Bool-cases (ltb max_shell_outcomes (length m))) [
      | inl over ↦ elim (Option-cases (min_by_rank m)) [
        | inl missing ↦
            absurd (omega (arith, ltb→lt max_shell_outcomes (length m) over, length-none m missing))
        | inr found ↦
            let victim = found.0 in
            rw (over, found.1)
              (trim_loop-bounded P fuel (remove_key (victim.0) m)
                (remove_key-IsMap (victim.0) m is_map)
                (omega (
                  arith,
                  enough,
                  length-remove_key (victim.0) (victim.1) m is_map
                      (get_key-victim m victim is_map (found.1)),
                ))
                (remove_key-All P (victim.0) m ps))
      ]
      | inr within ↦ rw within (is_map, ground (arith, within), ps)
    ]

trim_loop-retains :
    (key : Text) (newest : ShellOutcome) (fuel : ℕ) (m : Map ShellOutcome)
    → IsMap m
    → IsNewest key newest m
    → get_key key m ≡ some newest
    → get_key key (trim_loop fuel m) ≡ some newest
unfolding trim_loop
trim_loop-retains key newest zero m is_map outranks found = found
trim_loop-retains key newest (suc fuel) m is_map outranks found =
    elim (Bool-cases (ltb max_shell_outcomes (length m))) [
      | inl over ↦ elim (Option-cases (min_by_rank m)) [
        | inl missing ↦
            rw (over, missing) (trim_loop-retains key newest fuel m is_map outranks found)
        | inr best ↦
            let victim = best.0 in
            let spared : text_eq key (victim.0) ≡ false =
              victim-≢ key newest m victim is_map
                (omega (arith, ltb→lt max_shell_outcomes (length m) over)) outranks found
                (best.1) in
            rw (over, best.1)
              (trim_loop-retains key newest fuel (remove_key (victim.0) m)
                (remove_key-IsMap (victim.0) m is_map)
                (remove_key-All (λ e. (text_eq (e.0) key || rank_ltb (e.1) newest) ≡ true)
                  (victim.0) m outranks)
                (get_key-remove_key key (victim.0) m ∙ rw spared found))
      ]
      | inr within ↦ rw within found
    ]

pub trim_shell_outcomes-bounded {κ} :
    (P : Text × ShellOutcome → Type κ) (m : Map ShellOutcome)
    → IsMap m
    → All P m
    → IsMap (trim_shell_outcomes m)
      × (length (trim_shell_outcomes m) ≤ max_shell_outcomes)
      × All P (trim_shell_outcomes m)
unfolding trim_shell_outcomes
trim_shell_outcomes-bounded P m is_map ps = trim_loop-bounded P (length m) m is_map (omega arith) ps

pub trim_shell_outcomes-retains :
    (key : Text) (newest : ShellOutcome) (m : Map ShellOutcome)
    → IsMap m
    → IsNewest key newest m
    → get_key key m ≡ some newest
    → get_key key (trim_shell_outcomes m) ≡ some newest
unfolding trim_shell_outcomes
trim_shell_outcomes-retains key newest m = trim_loop-retains key newest (length m) m
