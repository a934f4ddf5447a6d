-- ===== src/Kernel/Honesty.antt =====
-- What a projection or a compression reports is what it shows, and it is never worse than the source.
use tokenzero.Base.{
  ℕ, zero, suc, ◌+◌, ◌-◌, ◌≤◌, ◌≡◌, ◌⊎◌, inl, inr, refl, subst, min, Bool, true, not, ◌&&◌, ◌||◌,
  Bool-cases, &&-true, Option, none, some, Option-cases, [], Text, leb, ltb, ◌==◌, leb→le, length,
  length-append, length-take, take, Result, ok, err, >>=-ok, guard->>-ok, arith,
}
use tokenzero.Kernel.{
  cancelled, budget_too_small, zero_max_tokens, not_utf8, is_char_boundary, floor_boundary,
  bounded_utf8, Services, ProjectionRequest, CompressionRequest, ProjectionResult,
  CompressionResult, bpe_of, of_cas, count_with, count, longest_within, clamp_visible_to_budget,
  store_exact,
}
use tokenzero.Kernel.Operations.{
  marker_of, whole, project_stored, project, of_budget, mode_of, capsule_of, best_capsule,
  compress_capsule, compress,
}

floor_boundary-le : (text : Text) (n : ℕ) → floor_boundary text n ≤ n
unfolding floor_boundary
floor_boundary-le text zero = omega arith
floor_boundary-le text (suc n) = ground (arith, floor_boundary-le text n)

bounded_utf8-le :
    (source marker : Text) (limit : ℕ) → length (bounded_utf8 source marker limit) ≤ limit
unfolding bounded_utf8
bounded_utf8-le source marker limit =
    let cut = min (length source) (limit - length marker) in
    let head = take (floor_boundary source cut) source in
    ground (
      arith,
      length-take (floor_boundary marker limit) marker,
      floor_boundary-le marker limit,
      length-append head marker,
      length-take (floor_boundary source cut) source,
      floor_boundary-le source cut,
    )

module _ (services : Services) where
  open services use {Handle, model_id, is_utf8, lossy, put, publish_metadata}

  count_with-visible :
      (encoder : Option (Text × (Text → ℕ))) (bytes : Text)
      → (count_with services encoder bytes).visible ≡ (count_with services encoder bytes).billed
  unfolding count_with
  count_with-visible none bytes = elim (Bool-cases (is_utf8 bytes)) [
    | inl u ↦ rw u refl
    | inr u ↦ rw u refl
  ]
  count_with-visible (some (model, encode)) bytes = elim (Bool-cases (is_utf8 bytes)) [
    | inl u ↦ rw u refl
    | inr u ↦ rw u refl
  ]

  count-visible : (bytes : Text) → (count services bytes).visible ≡ (count services bytes).billed
  unfolding count
  count-visible bytes = count_with-visible (bpe_of services model_id) bytes

  -- A projection of some bytes within a limit.
  pub record IsHonest (bytes : Text) (limit : ℕ) (r : ProjectionResult services) : Type 0 where
    pub billed : r.accounting.billed ≡ (count services bytes).billed
    pub shown : r.accounting.visible ≡ (count services r.visible).billed
    pub never_worse : is_utf8 bytes ≡ true → r.accounting.visible ≤ r.accounting.billed
    pub recoverable : (r.visible ≡ bytes) ⊎ ((h : Handle) × (r.exact ≡ some h) × (put bytes ≡ ok h))
    pub bounded : (r.visible ≡ bytes) ⊎ (length r.visible ≤ limit)

  whole-IsHonest : (bytes : Text) (limit : ℕ) → IsHonest bytes limit (whole services bytes)
  whole-IsHonest bytes limit = record {
    billed = refl;
    shown = count-visible bytes;
    never_worse = λ u. omega (arith, count-visible bytes);
    recoverable = inl refl;
    bounded = inl refl;
  }

  of_cas-ok : {A : Type 0} (answer : Result Text A) {a : A} → of_cas answer ≡ ok a → answer ≡ ok a
  of_cas-ok (ok b) h = cc
  of_cas-ok (err e) h = cc

  -- The handle of a stored text is the one that the store answered for its bytes.
  store_exact-put :
      (bytes media_type : Text) (handle : Handle)
      → store_exact services bytes media_type ≡ ok handle
      → put bytes ≡ ok handle
  unfolding store_exact
  store_exact-put bytes media_type handle h =
      let (stored, answered, k1) = >>=-ok (of_cas (put bytes)) _ h in
      let (_, published, k2) = >>=-ok (of_cas (publish_metadata stored bytes media_type)) _ k1 in
      let same : stored ≡ handle = cc in
      of_cas-ok (put bytes) (subst (λ g. of_cas (put bytes) ≡ ok g) same answered)

  project_stored-IsHonest :
      (bytes : Text) (limit : ℕ) (handle : Handle)
      → put bytes ≡ ok handle
      → IsHonest bytes limit (project_stored services bytes limit handle)
  unfolding project_stored
  project_stored-IsHonest bytes limit handle stored =
      let raw = count services bytes in
      let visible = bounded_utf8 (lossy bytes) (marker_of services handle) limit in
      elim (Bool-cases (ltb raw.billed (count services visible).visible && is_utf8 bytes)) [
        | inl e ↦ rw e (whole-IsHonest bytes limit)
        | inr e ↦ rw e (record {
          billed = refl;
          shown = count-visible visible;
          never_worse = λ u. ground (arith, e, u);
          recoverable = inr (handle, refl, stored);
          bounded = inr (bounded_utf8-le (lossy bytes) (marker_of services handle) limit);
        })
      ]

  -- A projection that succeeds reports the tokens of the source and of what it shows; it shows no
  -- more tokens than a source that is UTF-8 has; it shows the source, or gives the handle that the
  -- store answered when it was given the bytes of the source; and it shows the source, or no more
  -- bytes than the limit.
  pub project-IsHonest :
      (is_cancelled : Bool) (request : ProjectionRequest) (r : ProjectionResult services)
      → project services is_cancelled request ≡ ok r
      → IsHonest request.bytes request.visible_byte_limit r
  unfolding project
  project-IsHonest is_cancelled request r h =
      let (_, k1) = guard->>-ok (not is_cancelled) cancelled h in
      elim (Bool-cases
        (leb (length request.bytes) request.visible_byte_limit && is_utf8 request.bytes)) [
          | inl fits ↦
              let kept = rw fits at k1 in
              let same : whole services request.bytes ≡ r = cc (kept) in
              subst (IsHonest request.bytes request.visible_byte_limit) same
                (whole-IsHonest request.bytes request.visible_byte_limit)
          | inr large ↦
              let (_, k2) =
                guard->>-ok (leb 80 request.visible_byte_limit) budget_too_small (rw large at k1) in
              let (handle, kept, k3) =
                >>=-ok (store_exact services request.bytes request.media_type) _ k2 in
              let same : project_stored services request.bytes request.visible_byte_limit handle
                  ≡ r =
                cc in
              subst (IsHonest request.bytes request.visible_byte_limit) same (
                project_stored-IsHonest request.bytes request.visible_byte_limit handle
                  (store_exact-put request.bytes request.media_type handle kept))
        ]

  longest_within-fits :
      (text : Text) (max_tokens n : ℕ) (prefix : Text)
      → longest_within services text max_tokens n ≡ some prefix
      → (count services prefix).billed ≤ max_tokens
  unfolding longest_within
  longest_within-fits text max_tokens zero prefix h =
      elim (Bool-cases (leb (count services []).billed max_tokens)) [
        | inl e ↦
            let same : ◌≡◌ {A = Option Text} (some []) (some prefix) = rw e at h in
            let same' : [] ≡ prefix = cc in
            subst (λ p. (count services p).billed ≤ max_tokens) same'
              (leb→le (count services []).billed max_tokens e)
        | inr e ↦ let none_some : ◌≡◌ {A = Option Text} none (some prefix) = rw e at h in cc
      ]
  longest_within-fits text max_tokens (suc n) prefix h =
      let taken = take (suc n) text in
      elim (Bool-cases
        (is_char_boundary text (suc n) && leb (count services taken).billed max_tokens)) [
          | inl e ↦
              let same : ◌≡◌ {A = Option Text} (some taken) (some prefix) = rw e at h in
              let same' : taken ≡ prefix = cc in
              subst (λ p. (count services p).billed ≤ max_tokens) same'
                (leb→le (count services taken).billed max_tokens (
                  (&&-true (is_char_boundary text (suc n))
                    (leb (count services taken).billed max_tokens) e).1))
          | inr e ↦ longest_within-fits text max_tokens n prefix (rw e at h)
        ]

  -- A clamped text is within the budget, or nothing.
  clamp_visible_to_budget-fits :
      (text : Text) (max_tokens : ℕ)
      → ((count services (clamp_visible_to_budget services text max_tokens).0).billed ≤ max_tokens)
        ⊎ ((clamp_visible_to_budget services text max_tokens).0 ≡ [])
  unfolding clamp_visible_to_budget
  clamp_visible_to_budget-fits text max_tokens =
      elim (Bool-cases (leb (count services text).billed max_tokens)) [
        | inl e ↦ rw e (inl (leb→le (count services text).billed max_tokens e))
        | inr e ↦ elim (Option-cases (longest_within services text max_tokens (length text))) [
          | inl q ↦ rw (e, q) (inr refl)
          | inr (prefix, q) ↦
              rw (e, q) (inl (longest_within-fits text max_tokens (length text) prefix q))
        ]
      ]

  -- A compression of some bytes within a budget.
  pub record IsThrifty (bytes : Text) (max_tokens : ℕ) (r : CompressionResult services)
      : Type 0 where
    pub source : r.accounting.billed ≡ (count services bytes).billed
    pub no_worse : r.accounting.visible ≤ r.accounting.billed
    pub within : (r.visible ≡ bytes) ⊎ (r.accounting.visible ≤ max_tokens)
    pub truthful : (r.accounting.visible ≡ (count services r.visible).billed) ⊎ (r.visible ≡ [])
    pub omitted : r.accounting.visible + r.omitted_tokens ≡ r.accounting.billed

  compress_capsule-IsThrifty :
      (request : CompressionRequest) (handle : Handle) (capsule : Text)
      → IsThrifty request.bytes request.max_tokens
          (compress_capsule services request handle capsule)
  unfolding compress_capsule
  compress_capsule-IsThrifty request handle capsule =
      let raw = count services request.bytes in
      let visible = (clamp_visible_to_budget services capsule request.max_tokens).0 in
      let visible_tokens = min (count services visible).billed request.max_tokens in
      elim (Bool-cases
        (ltb raw.billed (count services capsule).billed || ltb raw.billed visible_tokens)) [
          | inl e ↦ rw e (record {
            source = refl;
            no_worse = omega arith;
            within = inl refl;
            truthful = inl refl;
            omitted = omega arith;
          })
          | inr e ↦ rw e (record {
            source = refl;
            no_worse = ground (arith, e);
            within = inr (omega arith);
            truthful = elim (clamp_visible_to_budget-fits capsule request.max_tokens) [
              | inl fits ↦ inl (omega (arith, fits))
              | inr nothing ↦ inr nothing
            ];
            omitted = ground (arith, e);
          })
        ]

  -- A compression that succeeds bills the tokens of the source and shows no more than them; it
  -- shows the source, or no more tokens than the budget; what it reports as shown is the count of
  -- what it shows, unless it shows nothing; and what it reports as omitted is the rest.
  pub compress-IsThrifty :
      (is_cancelled : Bool) (request : CompressionRequest) (r : CompressionResult services)
      → compress services is_cancelled request ≡ ok r
      → IsThrifty request.bytes request.max_tokens r
  unfolding compress
  compress-IsThrifty is_cancelled request r h =
      let (_, k1) = guard->>-ok (not is_cancelled) cancelled h in
      let (_, k2) = guard->>-ok (not (request.max_tokens == 0)) zero_max_tokens k1 in
      let (_, k3) = guard->>-ok (is_utf8 request.bytes) not_utf8 k2 in
      let (mode, _, k4) = >>=-ok (mode_of services request.mode) _ k3 in
      let (handle, _, k5) = >>=-ok (store_exact services request.bytes request.media_type) _ k4 in
      let (capsule, _, k6) =
        >>=-ok (of_budget services (capsule_of services request handle mode)) _ k5 in
      let best = best_capsule services request handle mode capsule in
      let same : compress_capsule services request handle best ≡ r = cc in
      subst (IsThrifty request.bytes request.max_tokens) same
        (compress_capsule-IsThrifty request handle best)
