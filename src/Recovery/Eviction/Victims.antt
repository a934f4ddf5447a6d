-- ===== src/Recovery/Eviction/Victims.antt =====
-- `evict_prefix` leaves at most as many items as the limit says.
use tokenzero.Base.{
  ℕ, suc, ◌+◌, ◌-◌, ◌≤◌, ltb, ◌==◌, ==_iff, ◌≡◌, refl, sym, ap, subst, ◌∙◌, arith, Bool, true,
  false, not, ◌&&◌, ◌⊎◌, inl, inr, Bool-cases, &&-true, Option, none, some, List, [], ◌∷◌, filter,
  length, Text, text_eq→≡, text_eq_refl, text_eq-sym, text_ltb, if◌then◌else◌, All, get_key,
  remove_key, holds_entry, contains_key, IsMap, length-remove_key, All-map, get_key-All,
}
use tokenzero.Recovery.{Map, seen_before}
use tokenzero.Recovery.Eviction.{
  take_victims, starts_with, keys, prefix_victims, retain_items, evict_prefix,
}

pub some-of-holds : {V : Type 0} (o : Option V) → holds_entry o ≡ true → (v : V) × (o ≡ some v)
unfolding holds_entry
some-of-holds none h = absurd (cc)
some-of-holds (some v) h = (v, refl)

module _ {V : Type 0} where
  filter-All :
      (P : Text × V → Type 0) (p : Text × V → Bool) (m : Map V) → All P m → All P (filter p m)
  filter-All P p [] ps = ps
  filter-All P p (e ∷ m) ps =
      let rest = filter-All P p m ps.1 in
      elim (Bool-cases (p e)) [ inl kept ↦ rw kept (ps.0, rest) | inr gone ↦ rw gone rest ]

  filter-IsMap : (p : Text × V → Bool) (m : Map V) → IsMap m → IsMap (filter p m)
  unfolding IsMap
  filter-IsMap p [] is_map = is_map
  filter-IsMap p ((k, v) ∷ m) is_map =
      let rest = filter-IsMap p m is_map.1 in
      elim (Bool-cases (p (k, v))) [
        | inl kept ↦ rw kept (filter-All (λ e. text_ltb k (e.0) ≡ true) p m is_map.0, rest)
        | inr gone ↦ rw gone rest
      ]

  get_key-retain_items :
      (victims : List Text) (m : Map V) (key : Text)
      → get_key key (retain_items victims m)
        ≡ (if seen_before key victims then none else get_key key m)
  unfolding get_key
  get_key-retain_items victims [] key = ground arith
  get_key-retain_items victims ((k, v) ∷ m) key =
      ground (arith, get_key-retain_items victims m key, text_eq→≡ key k)

  -- One more victim is one more removal.
  retain_items-remove_key :
      (victim : Text) (victims : List Text) (m : Map V)
      → retain_items (victim ∷ victims) m ≡ remove_key victim (retain_items victims m)
  unfolding seen_before remove_key
  retain_items-remove_key victim victims [] = refl
  retain_items-remove_key victim victims ((k, v) ∷ m) =
      ground (arith, retain_items-remove_key victim victims m, text_eq-sym k victim)

  retain_items-none : (m : Map V) → retain_items [] m ≡ m
  unfolding seen_before
  retain_items-none [] = refl
  retain_items-none (e ∷ m) = ap (◌∷◌ e) (retain_items-none m)

  -- The victims are distinct keys of the map.
  Chosen : Map V → List Text → Type 0
  Chosen m [] = Unit {0}
  Chosen m (victim ∷ victims) =
      (seen_before victim victims ≡ false) × (contains_key victim m ≡ true) × Chosen m victims

  length-retain_items :
      (victims : List Text) (m : Map V)
      → IsMap m
      → Chosen m victims
      → length (retain_items victims m) + length victims ≡ length m
  unfolding Chosen
  length-retain_items [] m is_map chosen = omega (arith, ap length (retain_items-none m))
  length-retain_items (victim ∷ victims) m is_map chosen =
      let stays = some-of-holds (get_key victim m) (chosen.1) in
      let found : get_key victim (retain_items victims m) ≡ some (stays.0) =
        get_key-retain_items victims m victim ∙ rw (chosen.0) (stays.1) in
      omega (
        arith,
        length-retain_items victims m is_map (chosen.2),
        ap length (retain_items-remove_key victim victims m),
        length-remove_key victim (stays.0) (retain_items victims m)
            (filter-IsMap (λ e. not (seen_before (e.0) victims)) m is_map) found,
      )

  take_victims-Chosen :
      (excess : ℕ) (m : Map V) (victims refs : List Text)
      → Chosen m victims
      → All (λ r. contains_key r m ≡ true) refs
      → Chosen m (take_victims excess victims refs)
  unfolding take_victims Chosen
  take_victims-Chosen excess m victims [] chosen present = chosen
  take_victims-Chosen excess m victims (r ∷ refs) chosen present =
      elim (Bool-cases (seen_before r victims)) [
        | inl again ↦
            let rest = take_victims-Chosen excess m victims refs chosen present.1 in
            rw again (
              finish victims (take_victims excess victims refs) (length victims == excess) chosen
                rest)
        | inr fresh ↦
            let more : Chosen m (r ∷ victims) = (fresh, present.0, chosen) in
            let rest = take_victims-Chosen excess m (r ∷ victims) refs more present.1 in
            rw fresh (
              finish (r ∷ victims) (take_victims excess (r ∷ victims) refs)
                (suc (length victims) == excess) more rest)
      ]
    where
      finish :
          (vs ws : List Text) (b : Bool)
          → Chosen m vs
          → Chosen m ws
          → Chosen m (if b then vs else ws)
      finish vs ws true p q = p
      finish vs ws false p q = q

-- What is chosen stays chosen.
seen_before-take_victims :
    (excess : ℕ) (r : Text) (victims refs : List Text)
    → seen_before r victims ≡ true
    → seen_before r (take_victims excess victims refs) ≡ true
unfolding take_victims seen_before
seen_before-take_victims excess r victims [] h = h
seen_before-take_victims excess r victims (x ∷ refs) h = ground (
  arith,
  h,
  seen_before-take_victims excess r victims refs,
  seen_before-take_victims excess r (x ∷ victims) refs,
)

-- Either enough are chosen, or all the candidates are.
take_victims-done :
    (excess : ℕ) (victims refs : List Text)
    → (length (take_victims excess victims refs) ≡ excess)
      ⊎ All (λ r. seen_before r (take_victims excess victims refs) ≡ true) refs
unfolding take_victims
take_victims-done excess victims [] = inr tt
take_victims-done excess victims (r ∷ refs) =
    let chosen = if seen_before r victims then victims else r ∷ victims in
    elim (Bool-cases (length chosen == excess)) [
      | inl enough ↦ rw enough (inl ((==_iff (length chosen) excess).0 enough))
      | inr few ↦
          let next : take_victims excess victims (r ∷ refs) ≡ take_victims excess chosen refs =
            rw few refl in
          subst (λ vs. (length vs ≡ excess) ⊎ All (λ r'. seen_before r' vs ≡ true) (r ∷ refs))
            (sym next)
            (elim (take_victims-done excess chosen refs) [
              | inl enough ↦ inl enough
              | inr all ↦ inr (
                seen_before-take_victims excess r chosen refs
                    (included (seen_before r victims) refl),
                all,
              )
            ])
    ]
  where
    included :
        (b : Bool)
        → seen_before r victims ≡ b
        → seen_before r (if b then victims else r ∷ victims) ≡ true
    included true h = h
    included false h = unfold seen_before in rw (text_eq_refl r) refl

retain_items-all :
    {V : Type 0} (victims : List Text) (m : Map V)
    → All (λ r. seen_before r victims ≡ true) (keys m)
    → length (retain_items victims m) ≡ 0
retain_items-all victims [] all = refl
retain_items-all victims (e ∷ m) all = rw (all.0) (retain_items-all victims m all.1)

present-oldest :
    {V : Type 0} (items : Map V) (prefix : Text) (order : List Text)
    → All
        (λ r. contains_key r items ≡ true)
        (filter (λ ref_id. starts_with prefix ref_id && contains_key ref_id items) order)
present-oldest items prefix [] = tt
present-oldest items prefix (r ∷ order) =
    let rest = present-oldest items prefix order in
    elim (Bool-cases (starts_with prefix r && contains_key r items)) [
      | inl kept ↦ rw kept ((&&-true (starts_with prefix r) (contains_key r items) kept).1, rest)
      | inr gone ↦ rw gone rest
    ]

present-keys : {V : Type 0} (m : Map V) → IsMap m → All (λ r. contains_key r m ≡ true) (keys m)
unfolding holds_entry
present-keys {V} m is_map = All-keys m (
    All-map (λ e. get_key (e.0) m ≡ some (e.1)) (λ e. contains_key (e.0) m ≡ true) m
      (λ e found. rw found refl) (get_key-All m is_map))
  where
    All-keys :
        (rest : Map V)
        → All (λ e. contains_key (e.0) m ≡ true) rest
        → All (λ r. contains_key r m ≡ true) (keys rest)
    All-keys [] ps = tt
    All-keys (e ∷ rest) ps = (ps.0, All-keys rest ps.1)

-- The victims suffice: what is retained is within the limit.
prefix_victims-enough :
    {V : Type 0} (items : Map V) (order : List Text) (prefix : Text) (limit : ℕ)
    → IsMap items
    → length (retain_items (prefix_victims items order prefix (length items - limit)) items) ≤ limit
unfolding prefix_victims Chosen
prefix_victims-enough items order prefix limit is_map =
    let excess = length items - limit in
    let candidates = filter (λ r. starts_with prefix r && contains_key r items) order in
    let oldest = take_victims excess [] candidates in
    let first : Chosen items oldest =
      take_victims-Chosen excess items [] candidates tt (present-oldest items prefix order) in
    let all = take_victims excess oldest (keys items) in
    let second : Chosen items all =
      take_victims-Chosen excess items oldest (keys items) first (present-keys items is_map) in
    elim (Bool-cases (ltb (length oldest) excess)) [
      | inl short ↦ rw short (elim (take_victims-done excess oldest (keys items)) [
        | inl enough ↦ omega (arith, enough, length-retain_items all items is_map second)
        | inr every ↦ omega (arith, retain_items-all all items every)
      ])
      | inr long ↦
          let many : excess ≤ length oldest = ground (arith, long) in
          rw long (omega (arith, many, length-retain_items oldest items is_map first))
    ]

-- A map stays one, and it has at most as many items as it had, and at most the limit.
pub evict_prefix-bounded :
    {V : Type 0} (items : Map V) (order : List Text) (prefix : Text) (limit : ℕ)
    → IsMap items
    → IsMap ((evict_prefix items order prefix limit).0)
      × (length ((evict_prefix items order prefix limit).0) ≤ limit)
unfolding evict_prefix
evict_prefix-bounded items order prefix limit is_map =
    elim (Bool-cases (length items - limit == 0)) [
      | inl fits ↦ rw fits (is_map, ground (arith, fits))
      | inr over ↦ rw over (
        filter-IsMap
            (λ e.
              not (seen_before (e.0) (prefix_victims items order prefix (length items - limit))))
            items is_map,
        prefix_victims-enough items order prefix limit is_map,
      )
    ]
