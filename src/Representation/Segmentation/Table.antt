-- ===== src/Representation/Segmentation/Table.antt =====
-- What the inner loop of `optimal_segmentation` does to the table of best costs.
use native.Mathlib.Decide.{ℕ_discrete}
use tokenzero.Base.{
  ℕ, zero, suc, ◌+◌, ◌≤◌, ◌<◌, ◌≡◌, ◌≢◌, refl, sym, ap, ◌∙◌, subst, true, false, leb, Option, none,
  some, List, [], ◌∷◌, length, get_elem?, set, checked_add, Ends, Ends->>=, Ends-map, max_u64,
  arith, ◌⊎◌, inl, inr, Bool-cases,
}
use tokenzero.Representation.Segmentation.{
  SegmentCandidate, SegmentationError, cost_overflow, Best, Table, entry, improves, skips, relax,
  scan,
}

length-set : {A : Type 0} (xs : List A) (i : ℕ) (v : A) → length (set xs i v) ≡ length xs
length-set [] i v = refl
length-set (x ∷ xs) zero v = refl
length-set (x ∷ xs) (suc i) v = ap suc (length-set xs i v)

entry-set_self : (t : Table) (i : ℕ) (b : Option Best) → i < length t → entry (set t i b) i ≡ b
entry-set_self [] i b h = absurd (omega arith)
entry-set_self (x ∷ t) zero b h = refl
entry-set_self (x ∷ t) (suc i) b h = entry-set_self t i b (omega arith)

entry-set_ne : (t : Table) (i j : ℕ) (b : Option Best) → j ≢ i → entry (set t i b) j ≡ entry t j
entry-set_ne [] i j b n = refl
entry-set_ne (x ∷ t) zero zero b n = absurd (n refl)
entry-set_ne (x ∷ t) zero (suc j) b n = refl
entry-set_ne (x ∷ t) (suc i) zero b n = refl
entry-set_ne (x ∷ t) (suc i) (suc j) b n = entry-set_ne t i j b (λ e. n (ap suc e))

unfoldable pub AtMost : Option Best → ℕ → Type 0
AtMost none k = ⊥
AtMost (some b) k = b.cost ≤ k

improves-true : (o : Option Best) (total k : ℕ) → improves o total ≡ true → AtMost o k → total ≤ k
unfolding AtMost
improves-true none total k h p = elim p [ ]
improves-true (some b) total k h p = ground arith

improves-false : (o : Option Best) (total : ℕ) → improves o total ≡ false → AtMost o total
unfolding AtMost
improves-false none total h = absurd (ground arith)
improves-false (some b) total h = ground arith

pub AtMost-some : (o : Option Best) (b : Best) (k : ℕ) → o ≡ some b → AtMost o k → b.cost ≤ k
unfolding AtMost
AtMost-some none b k e p = elim p [ ]
AtMost-some (some c) b k e p = let same : c.cost ≡ b.cost = cc in omega arith

AtMost-mono : (o : Option Best) (k m : ℕ) → k ≤ m → AtMost o k → AtMost o m
unfolding AtMost
AtMost-mono none k m e p = elim p [ ]
AtMost-mono (some c) k m e p = omega arith

module _ {A : Type 0} (segment_of : A → SegmentCandidate) (n : ℕ) (items : List (A × ℕ)) where
  -- The entry of a position is reached over an item from an entry before `bound`.
  pub record Link (bound : ℕ) (j : ℕ) (b : Best) : Type 0 where
    pub from : ℕ
    pub before : Best
    pub index : ℕ
    pub item : A × ℕ
    pub is_previous : b.previous ≡ some from
    pub is_candidate : b.candidate ≡ some index
    pub is_item : get_elem? items index ≡ some item
    pub starts : (segment_of (item.0)).start ≡ from
    pub ends : (segment_of (item.0)).end ≡ j
    pub ahead : from < j
    pub bounded : from < bound
    pub costs : b.cost ≡ before.cost + item.1

  unfoldable pub IsReached : ℕ → Table → ℕ → Option Best → Type 0
  IsReached bound t j none = Unit
  IsReached bound t j (some b) =
      ((j ≡ 0) × (b.cost ≡ 0)) ⊎ ((l : Link bound j b) × (entry t (l.from) ≡ some l.before))

  abbrev pub Sound : ℕ → Table → Type 0
  Sound bound t = (j : ℕ) → IsReached bound t j (entry t j)

  -- A candidate that the round at a position takes.
  unfoldable pub StartsAt : ℕ → A × ℕ → Type 0
  StartsAt v (a, w) =
      ((segment_of a).start ≡ v) × (v < (segment_of a).end) × ((segment_of a).end ≤ n)

  -- A sum that leaves u64, which ends the search.
  pub record Overflows (v : ℕ) (b : Best) (e : SegmentationError) : Type 0 where
    pub is_overflow : e ≡ cost_overflow
    pub index : ℕ
    pub item : A × ℕ
    pub is_item : get_elem? items index ≡ some item
    pub taken : StartsAt v item
    pub too_large : max_u64 < b.cost + item.1

  -- What trying some of the items at a position does to the table.
  pub record IsScanned (rest : List (A × ℕ)) (v : ℕ) (t u : Table) : Type 0 where
    pub size : length u ≡ length t
    pub kept : (j : ℕ) → j ≤ v → entry u j ≡ entry t j
    pub no_worse : (j k : ℕ) → AtMost (entry t j) k → AtMost (entry u j) k
    pub beats :
        (i : ℕ) (x : A × ℕ)
        → get_elem? rest i ≡ some x
        → StartsAt v x
        → (k : ℕ) → AtMost (entry t v) k
        → AtMost (entry u ((segment_of (x.0)).end)) (k + x.1)
    pub sound : Sound (suc v) u

  IsScanned-refl : (v : ℕ) (t : Table) → Sound (suc v) t → IsScanned [] v t t
  IsScanned-refl v t s = record {
    size = refl;
    kept = λ j h. refl;
    no_worse = λ j k p. p;
    beats = λ i x h. cc;
    sound = s;
  }

  IsScanned-∷ :
      (x : A × ℕ) (rest : List (A × ℕ)) (v : ℕ) (t u w : Table)
      → IsScanned (x ∷ []) v t u
      → IsScanned rest v u w
      → IsScanned (x ∷ rest) v t w
  IsScanned-∷ x rest v t u w p q = record {
    size = q.size ∙ p.size;
    kept = λ j h. q.kept j h ∙ p.kept j h;
    no_worse = λ j k h. q.no_worse j k (p.no_worse j k h);
    beats = elim [
      | zero ↦ λ y e a k h. q.no_worse _ _ (p.beats 0 y e a k h)
      | suc i ↦ λ y e a k h. q.beats i y e a k (p.no_worse v k h)
    ];
    sound = q.sound;
  }

  IsReached-kept :
      (v : ℕ) (t u : Table) (j : ℕ) (o : Option Best)
      → ((i : ℕ) → i ≤ v → entry u i ≡ entry t i)
      → IsReached (suc v) t j o
      → IsReached (suc v) u j o
  unfolding IsReached
  IsReached-kept v t u j none kept s = tt
  IsReached-kept v t u j (some b) kept (inl s) = inl s
  IsReached-kept v t u j (some b) kept (inr (l, e)) =
      inr (l, kept l.from (omega (arith, l.bounded)) ∙ e)

  skips-true : (v : ℕ) (x : A × ℕ) → skips segment_of n v (x.0) ≡ true → ¬ StartsAt v x
  unfolding StartsAt
  skips-true v (a, w) h (e, l, r) = ground arith

  skips-false : (v : ℕ) (x : A × ℕ) → skips segment_of n v (x.0) ≡ false → StartsAt v x
  unfolding StartsAt
  skips-false v (a, w) h = ground arith

  head : (x y : A × ℕ) {i : ℕ} → get_elem? (x ∷ []) i ≡ some y → (i ≡ 0) × (x ≡ y)
  head x y {i = zero} e = (refl, cc)
  head x y {i = suc i} e = cc

  skipped-IsScanned :
      (x : A × ℕ) (v : ℕ) (t : Table)
      → skips segment_of n v (x.0) ≡ true
      → Sound (suc v) t
      → IsScanned (x ∷ []) v t t
  skipped-IsScanned x v t h s = record {
    size = refl;
    kept = λ j l. refl;
    no_worse = λ j k p. p;
    beats = λ i y e a. absurd (skips-true v x h (subst (StartsAt v) (sym ((head x y e).1)) a));
    sound = s;
  }

  -- The table with a new best of the position that an item ends at.
  stored-IsScanned :
      (x : A × ℕ) (index v : ℕ) (t : Table) (b : Best)
      → get_elem? items index ≡ some x
      → StartsAt v x
      → entry t v ≡ some b
      → (segment_of (x.0)).end < length t
      → improves (entry t ((segment_of (x.0)).end)) (b.cost + x.1) ≡ true
      → Sound (suc v) t
      → IsScanned (x ∷ []) v t (
          set t
            ((segment_of (x.0)).end)
            (some (record { cost = b.cost + x.1; previous = some v; candidate = some index })))
  unfolding StartsAt IsReached AtMost
  stored-IsScanned x index v t b is_item (a, l, r) e room gain s =
      let next = (segment_of (x.0)).end in
      let new : Best = record { cost = b.cost + x.1; previous = some v; candidate = some index } in
      let u : Table = set t next (some new) in
      let here : entry u next ≡ some new = entry-set_self t next (some new) room in
      let there : (j : ℕ) → j ≢ next → entry u j ≡ entry t j =
        λ j. entry-set_ne t next j (some new) in
      record {
        size = length-set t next (some new);
        kept = λ j h. there j (omega arith);
        no_worse = λ j k p. elim (ℕ_discrete j next) [
          | yes q ↦
              subst (λ i. AtMost (entry u i) k) (sym q)
                (subst (λ o. AtMost o k) (sym here)
                  (improves-true (entry t next) (b.cost + x.1) k gain
                    (subst (λ i. AtMost (entry t i) k) q p)))
          | no q ↦ subst (λ o. AtMost o k) (sym (there j q)) p
        ];
        beats = λ i y q c k p.
            subst (λ z. AtMost (entry u ((segment_of (z.0)).end)) (k + z.1)) ((head x y q).1)
              (subst (λ o. AtMost o (k + x.1)) (sym here)
                (omega (arith, AtMost-some (entry t v) b k e p)));
        sound = λ j. elim (ℕ_discrete j next) [
          | yes q ↦ subst (IsReached (suc v) u j) (sym (ap (entry u) q ∙ here)) (
              inr (
                record {
                  from = v;
                  before = b;
                  index = index;
                  item = x;
                  is_previous = refl;
                  is_candidate = refl;
                  is_item = is_item;
                  starts = a;
                  ends = sym q;
                  ahead = omega arith;
                  bounded = omega arith;
                  costs = refl;
                },
                there v (omega arith) ∙ e,
              ))
          | no q ↦
              subst (IsReached (suc v) u j) (sym (there j q))
                (IsReached-kept v t u j (entry t j) (λ i h. there i (omega arith)) (s j))
        ];
      }

  kept-IsScanned :
      (x : A × ℕ) (v : ℕ) (t : Table) (b : Best)
      → entry t v ≡ some b
      → AtMost (entry t ((segment_of (x.0)).end)) (b.cost + x.1)
      → Sound (suc v) t
      → IsScanned (x ∷ []) v t t
  kept-IsScanned x v t b e low s = record {
    size = refl;
    kept = λ j h. refl;
    no_worse = λ j k p. p;
    beats = λ i y q c k p.
        subst (λ z. AtMost (entry t ((segment_of (z.0)).end)) (k + z.1)) ((head x y q).1)
          (AtMost-mono (entry t ((segment_of (x.0)).end)) (b.cost + x.1) (k + x.1)
            (omega (arith, AtMost-some (entry t v) b k e p)) low);
    sound = s;
  }

  relax-IsScanned :
      (x : A × ℕ) (index v : ℕ) (t : Table) (b : Best)
      → get_elem? items index ≡ some x
      → StartsAt v x
      → entry t v ≡ some b
      → length t ≡ suc n
      → Sound (suc v) t
      → Ends
          (Overflows v b)
          (IsScanned (x ∷ []) v t)
          (relax t v index ((segment_of (x.0)).end) (checked_add b.cost (x.1)))
  unfolding StartsAt
  relax-IsScanned x index v t b is_item c e size s =
      let next = (segment_of (x.0)).end in
      elim (Bool-cases (leb (b.cost + x.1) max_u64)) [
        | inr over ↦ rw over (record {
          is_overflow = refl;
          index = index;
          item = x;
          is_item = is_item;
          taken = c;
          too_large = ground arith;
        })
        | inl within ↦ elim (Bool-cases (improves (entry t next) (b.cost + x.1))) [
          | inl gain ↦
              rw (within, gain)
                (stored-IsScanned x index v t b is_item c e (omega (arith, c.2)) gain s)
          | inr no_gain ↦
              rw (within, no_gain)
                (kept-IsScanned x v t b e (improves-false (entry t next) (b.cost + x.1) no_gain) s)
        ]
      ]

  pub scan-IsScanned :
      (v index : ℕ) (rest : List (A × ℕ)) (t : Table) (b : Best)
      → ((i : ℕ) (x : A × ℕ) → get_elem? rest i ≡ some x → get_elem? items (index + i) ≡ some x)
      → entry t v ≡ some b
      → length t ≡ suc n
      → Sound (suc v) t
      → Ends (Overflows v b) (IsScanned rest v t) (scan segment_of n v b.cost index rest t)
  unfolding scan
  scan-IsScanned v index [] t b at e size s = IsScanned-refl v t s
  scan-IsScanned v index ((a, w) ∷ rest) t b at e size s =
      let further : (i : ℕ) (x : A × ℕ)
          → get_elem? rest i ≡ some x
          → get_elem? items (suc index + i) ≡ some x =
        λ i x q. subst (λ k. get_elem? items k ≡ some x) (omega arith) (at (suc i) x q) in
      let item : get_elem? items index ≡ some (a, w) =
        subst (λ k. get_elem? items k ≡ some (a, w)) (omega arith) (at 0 (a, w) refl) in
      let more : (u : Table)
          → IsScanned ((a, w) ∷ []) v t u
          → Ends (Overflows v b) (IsScanned ((a, w) ∷ rest) v t)
              (scan segment_of n v b.cost (suc index) rest u) =
        λ u p.
          Ends-map (Overflows v b) (Overflows v b) (IsScanned rest v u)
            (IsScanned ((a, w) ∷ rest) v t) (scan segment_of n v b.cost (suc index) rest u)
            (scan-IsScanned v (suc index) rest u b further (p.kept v (omega arith) ∙ e)
              (p.size ∙ size) p.sound)
            (λ z q. q) (λ z q. IsScanned-∷ (a, w) rest v t u z p q) in
      elim (Bool-cases (skips segment_of n v a)) [
        | inl h ↦ rw h (more t (skipped-IsScanned (a, w) v t h s))
        | inr h ↦ rw h (
            Ends->>= (Overflows v b) (IsScanned ((a, w) ∷ []) v t) (IsScanned ((a, w) ∷ rest) v t)
              (relax t v index ((segment_of a).end) (checked_add b.cost w)) _
              (relax-IsScanned (a, w) index v t b item (skips-false v (a, w) h) e size s) more)
      ]
