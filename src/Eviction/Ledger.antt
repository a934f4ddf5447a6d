-- ===== src/Eviction/Ledger.antt =====
-- `EvictionSavingsLedger`: retries book nothing twice.
use tokenzero.Base.{
  ℕ, ◌≡◌, refl, ap, ◌∙◌, Bool, true, false, ◌||◌, List, [], ◌∷◌, ◌++◌, Text, text_eq, text_eq_refl,
  text_eq→≡, arith, All, any, Bool-cases, inl, inr,
}
use tokenzero.Eviction.{EvictionSavingsLedger, record_once}

-- The calls that a session makes, in order.
unfoldable pub record_all : EvictionSavingsLedger → List (Text × ℕ) → EvictionSavingsLedger
record_all l [] = l
record_all l ((id, saved) ∷ events) = record_all (record_once l id saved).0 events

abbrev pub recorded : EvictionSavingsLedger → Text → Bool
recorded l id = any (text_eq id) l.recorded_event_ids

record_once-recorded :
    (l : EvictionSavingsLedger) (id : Text) (saved : ℕ)
    → recorded (record_once l id saved).0 id ≡ true
unfolding record_once
record_once-recorded l id saved = ground (arith, text_eq_refl id)

record_once-keeps :
    (l : EvictionSavingsLedger) (id j : Text) (saved : ℕ)
    → recorded l j ≡ true
    → recorded (record_once l id saved).0 j ≡ true
unfolding record_once
record_once-keeps l id j saved h = ground arith

record_once-again :
    (l : EvictionSavingsLedger) (id : Text) (saved : ℕ)
    → recorded l id ≡ true
    → record_once l id saved ≡ (l, false)
unfolding record_once
record_once-again l id saved h = rw h

record_all-keeps :
    (l : EvictionSavingsLedger) (events : List (Text × ℕ)) (j : Text)
    → recorded l j ≡ true
    → recorded (record_all l events) j ≡ true
unfolding record_all
record_all-keeps l [] j h = h
record_all-keeps l ((id, saved) ∷ events) j h =
    record_all-keeps (record_once l id saved).0 events j (record_once-keeps l id j saved h)

-- The id is among those of the events.
abbrev pub mentions : List (Text × ℕ) → Text → Bool
mentions [] j = false
mentions ((id, _) ∷ events) j = text_eq j id || mentions events j

mentions-recorded :
    (l : EvictionSavingsLedger) (events : List (Text × ℕ)) (j : Text)
    → mentions events j ≡ true
    → recorded (record_all l events) j ≡ true
unfolding record_all
mentions-recorded l [] j h = cc
mentions-recorded l ((id, saved) ∷ events) j h = elim (Bool-cases (text_eq j id)) [
  | inl e ↦ record_all-keeps (record_once l id saved).0 events j (
      ap (recorded (record_once l id saved).0) (text_eq→≡ j id e) ∙ record_once-recorded l id saved)
  | inr e ↦ mentions-recorded (record_once l id saved).0 events j (rw e at h)
]

record_all_known :
    (l : EvictionSavingsLedger) (events : List (Text × ℕ))
    → All (λ event. recorded l event.0 ≡ true) events
    → record_all l events ≡ l
unfolding record_all
record_all_known l [] _ = refl
record_all_known l ((id, saved) ∷ events) (known, more) =
    rw (record_once-again l id saved known) (record_all_known l events more)

record_all-append :
    (l : EvictionSavingsLedger) (es fs : List (Text × ℕ))
    → record_all l (es ++ fs) ≡ record_all (record_all l es) fs
unfolding record_all
record_all-append l [] fs = refl
record_all-append l ((id, saved) ∷ es) fs = record_all-append (record_once l id saved).0 es fs

All-recorded :
    (l : EvictionSavingsLedger) (es fs : List (Text × ℕ))
    → All (λ f. mentions es f.0 ≡ true) fs
    → All (λ f. recorded (record_all l es) f.0 ≡ true) fs
All-recorded l es [] _ = tt
All-recorded l es (f ∷ fs) (known, more) =
    (mentions-recorded l es f.0 known, All-recorded l es fs more)

-- Retries change nothing: events whose ids were all recorded before leave the ledger as it was,
-- whatever savings they claim, for every ledger to start from.
pub record_all-retries :
    (l : EvictionSavingsLedger) (es retries : List (Text × ℕ))
    → All (λ event. mentions es event.0 ≡ true) retries
    → record_all l (es ++ retries) ≡ record_all l es
record_all-retries l es retries known =
    record_all-append l es retries
    ∙ record_all_known (record_all l es) retries (All-recorded l es retries known)
