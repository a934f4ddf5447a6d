-- ===== src/WorkingSet/Book/Index.antt =====
-- What the changes of the index from refs to ids keep.
use tokenzero.Base.{
  ℕ, ◌≡◌, ◌≢◌, ◌⊎◌, ◌⊎◌, refl, subst, true, ◌||◌, Option, none, some, List, [], ◌∷◌, ◌++◌, Text,
  text_eq, text_eq_refl, arith, ◌==◌, All, Bool-cases, inl, inr,
}
use tokenzero.WorkingSet.State.{EvictedRefs}
use tokenzero.WorkingSet.Refs.{
  contains_id, get_ref, push_ref, remove_id, drop_id, drop_entry, link_entry, link_id, push_missing,
}
use tokenzero.WorkingSet.Book.{owns}

-- Every id that the index names satisfies a predicate.
abbrev pub AllIds {κ} : (ℕ → Type κ) → EvictedRefs → Type κ
AllIds P = All (λ entry. All P entry.1)

contains_id-append :
    (ids : List ℕ) (id j : ℕ) → contains_id j (ids ++ id ∷ []) ≡ (contains_id j ids || id == j)
contains_id-append [] id j = ground arith
contains_id-append (i ∷ ids) id j = ground (arith, contains_id-append ids id j)

pub owns-push_ref :
    (refs : EvictedRefs) (key k : Text) (id j : ℕ)
    → owns refs k j ≡ true
    → owns (push_ref key id refs) k j ≡ true
unfolding get_ref push_ref
owns-push_ref [] key k id j h = cc
owns-push_ref ((l, ids) ∷ refs) key k id j h =
    ground (arith, contains_id-append ids id j, owns-push_ref refs key k id j)

pub owns-push_ref_new :
    (refs : EvictedRefs) (key : Text) (id : ℕ) → owns (push_ref key id refs) key id ≡ true
unfolding get_ref push_ref
owns-push_ref_new [] key id = ground (arith, text_eq_refl key)
owns-push_ref_new ((l, ids) ∷ refs) key id =
    ground (arith, contains_id-append ids id id, owns-push_ref_new refs key id)

All-snoc {κ} : (P : ℕ → Type κ) (ids : List ℕ) (id : ℕ) → All P ids → P id → All P (ids ++ id ∷ [])
All-snoc P [] id a p = (p, tt)
All-snoc P (i ∷ ids) id (q, a) p = (q, All-snoc P ids id a p)

pub AllIds-push_ref {κ} :
    (P : ℕ → Type κ) (refs : EvictedRefs) (key : Text) (id : ℕ)
    → AllIds P refs
    → P id
    → AllIds P (push_ref key id refs)
unfolding push_ref
AllIds-push_ref P [] key id a p = ((p, tt), tt)
AllIds-push_ref P ((l, ids) ∷ refs) key id (q, a) p = elim (Bool-cases (text_eq l key)) [
  | inl e ↦ rw e (All-snoc P ids id q p, a)
  | inr e ↦ rw e (q, AllIds-push_ref P refs key id a p)
]

-- Dropping an id keeps the others.
contains_id-remove_id :
    (ids : List ℕ) (id j : ℕ) → j ≢ id → contains_id j (remove_id id ids) ≡ contains_id j ids
unfolding remove_id
contains_id-remove_id [] id j n = refl
contains_id-remove_id (i ∷ ids) id j n = ground (arith, contains_id-remove_id ids id j n)

pub owns-drop_id :
    (refs : EvictedRefs) (k : Text) (id j : ℕ)
    → j ≢ id
    → owns refs k j ≡ true
    → owns ((drop_id id refs).0) k j ≡ true
unfolding get_ref drop_id
owns-drop_id [] k id j n h = cc
owns-drop_id ((l, ids) ∷ refs) k id j n h =
    ground (arith, contains_id-remove_id ids id j n, owns-drop_id refs k id j n)

All-remove_id {κ} :
    (P : ℕ → Type κ) (ids : List ℕ) (id : ℕ)
    → All P ids
    → All (λ j. P j × j ≢ id) (remove_id id ids)
unfolding remove_id
All-remove_id P [] id a = tt
All-remove_id P (i ∷ ids) id (p, a) = elim (Bool-cases (i == id)) [
  | inl e ↦ rw e (All-remove_id P ids id a)
  | inr e ↦ rw e ((p, ground arith), All-remove_id P ids id a)
]

pub AllIds-drop_id {κ} :
    (P : ℕ → Type κ) (refs : EvictedRefs) (id : ℕ)
    → AllIds P refs
    → AllIds (λ j. P j × j ≢ id) ((drop_id id refs).0)
unfolding drop_id
AllIds-drop_id P [] id a = tt
AllIds-drop_id P ((l, ids) ∷ refs) id (q, a) =
    kept (remove_id id ids) (All-remove_id P ids id q) (AllIds-drop_id P refs id a)
  where
    kept :
        (rest : List ℕ)
        → All (λ j. P j × j ≢ id) rest
        → AllIds (λ j. P j × j ≢ id) ((drop_id id refs).0)
        → AllIds (λ j. P j × j ≢ id) ((drop_entry l rest (drop_id id refs)).0)
    kept [] r b = b
    kept (j ∷ js) r b = (r, b)

-- Linking an alias keeps what is owned, and adds only the ids that it links.
link_id-cases :
    (key : Text) (id : ℕ) (refs : EvictedRefs)
    → (link_id key id refs ≡ refs) ⊎ (link_id key id refs ≡ push_ref key id refs)
unfolding link_id
link_id-cases key id refs = cases (get_ref key refs)
  where
    cases :
        (entry : Option (List ℕ))
        → (link_entry key id refs entry ≡ refs)
          ⊎ (link_entry key id refs entry ≡ push_ref key id refs)
    cases none = inr refl
    cases (some have) = elim (Bool-cases (contains_id id have)) [
      | inl e ↦ inl (rw e)
      | inr e ↦ inr (rw e)
    ]

pub owns-push_missing :
    (ids : List ℕ) (refs : EvictedRefs) (key k : Text) (j : ℕ)
    → owns refs k j ≡ true
    → owns (push_missing key ids refs) k j ≡ true
unfolding push_missing
owns-push_missing [] refs key k j h = h
owns-push_missing (id ∷ ids) refs key k j h =
    owns-push_missing ids (link_id key id refs) key k j (elim (link_id-cases key id refs) [
      | inl e ↦ rw e h
      | inr e ↦ rw e (owns-push_ref refs key k id j h)
    ])

pub AllIds-push_missing {κ} :
    (P : ℕ → Type κ) (ids : List ℕ) (refs : EvictedRefs) (key : Text)
    → All P ids
    → AllIds P refs
    → AllIds P (push_missing key ids refs)
unfolding push_missing
AllIds-push_missing P [] refs key a r = r
AllIds-push_missing P (id ∷ ids) refs key (p, a) r =
    AllIds-push_missing P ids (link_id key id refs) key a (elim (link_id-cases key id refs) [
      | inl e ↦ rw e r
      | inr e ↦ rw e (AllIds-push_ref P refs key id r p)
    ])

pub All-get_ref {κ} :
    (P : ℕ → Type κ) (refs : EvictedRefs) (key : Text) (ids : List ℕ)
    → get_ref key refs ≡ some ids
    → AllIds P refs
    → All P ids
unfolding get_ref
All-get_ref P [] key ids h a = absurd (cc)
All-get_ref P ((l, have) ∷ refs) key ids h (q, a) = elim (Bool-cases (text_eq l key)) [
  | inl e ↦ let same : have ≡ ids = ground arith in subst (All P) same q
  | inr e ↦ All-get_ref P refs key ids (rw e at h) a
]
