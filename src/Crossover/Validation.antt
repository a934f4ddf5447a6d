-- ===== src/Crossover/Validation.antt =====
-- Which inputs the crossover policy accepts.
use tokenzero.Base.{
  ℕ, ◌∷◌, ap, false, ◌>>◌, ◌||◌, ltb, text_eq, ◌≤◌, ◌<◌, ◌≡◌, ◌↔◌, refl, Option, none, some, [],
  Text, arith, length, ok, ◌≢◌,
}
use tokenzero.Crossover.{
  bad_id, bad_admission, CacheCrossoverInput, CacheCrossoverReceipt, max_id_bytes,
  token_cost_ppm_scale, validate_input, receipt_of, decide_cache_crossover,
}

abbrev pub GoodId : Text → Type 0
GoodId id = (id ≢ []) × (length id ≤ max_id_bytes)

abbrev pub GoodAdmission : Option Text → Type 0
GoodAdmission none = Unit {0}
GoodAdmission (some id) = GoodId id

pub record IsValid (input : CacheCrossoverInput) : Type 0 where
  pub policy : GoodId input.policy_id
  pub unit : GoodId input.token_unit_id
  pub admission : GoodAdmission input.compression_admission_id
  pub content : 0 < input.original_tokens
  pub multiplier_low : 1 ≤ input.cached_read_multiplier_ppm
  pub multiplier_high : input.cached_read_multiplier_ppm ≤ token_cost_ppm_scale
  pub floor : 0 < input.min_cacheable_tokens
  pub suffix : input.suffix_size_tokens ≤ input.original_tokens
  pub horizon : 0 < input.remaining_reuse_horizon

GoodId-sound : (id : Text) → bad_id id ≡ false → GoodId id
unfolding bad_id
GoodId-sound [] h = absurd (absurd_nil h)
  where
    absurd_nil : (text_eq [] [] || ltb max_id_bytes (length {A = ℕ} [])) ≡ false → ⊥
    absurd_nil h = unfold text_eq in cc
GoodId-sound (c ∷ id) h = (λ e. cc, unfold text_eq in ground arith)

GoodId-complete : (id : Text) → GoodId id → bad_id id ≡ false
unfolding bad_id
GoodId-complete [] h = absurd (h.0 refl)
GoodId-complete (c ∷ id) h = unfold text_eq in ground arith

GoodAdmission-sound : (id : Option Text) → bad_admission id ≡ false → GoodAdmission id
unfolding bad_admission
GoodAdmission-sound none h = tt
GoodAdmission-sound (some id) h = GoodId-sound id h

GoodAdmission-complete : (id : Option Text) → GoodAdmission id → bad_admission id ≡ false
unfolding bad_admission
GoodAdmission-complete none h = refl
GoodAdmission-complete (some id) h = GoodId-complete id h

-- The eight tests, all passed.
passed :
    (input : CacheCrossoverInput)
    → validate_input input ≡ ok tt
    → (bad_id input.policy_id ≡ false)
      × (bad_id input.token_unit_id ≡ false)
      × (bad_admission input.compression_admission_id ≡ false)
      × (0 < input.original_tokens)
      × (1 ≤ input.cached_read_multiplier_ppm)
      × (input.cached_read_multiplier_ppm ≤ token_cost_ppm_scale)
      × (0 < input.min_cacheable_tokens)
      × (input.suffix_size_tokens ≤ input.original_tokens)
      × (0 < input.remaining_reuse_horizon)
unfolding validate_input
passed input h = ground arith

IsValid-sound : (input : CacheCrossoverInput) → validate_input input ≡ ok tt → IsValid input
IsValid-sound input h =
    let p = passed input h in
    record {
      policy = GoodId-sound input.policy_id p.0;
      unit = GoodId-sound input.token_unit_id p.1;
      admission = GoodAdmission-sound input.compression_admission_id p.2;
      content = p.3;
      multiplier_low = p.4;
      multiplier_high = p.5;
      floor = p.6;
      suffix = p.7;
      horizon = p.8;
    }

IsValid-complete : (input : CacheCrossoverInput) → IsValid input → validate_input input ≡ ok tt
unfolding validate_input
IsValid-complete input v =
    rw
      (
        GoodId-complete input.policy_id v.policy,
        GoodId-complete input.token_unit_id v.unit,
        GoodAdmission-complete input.compression_admission_id v.admission,
      )
      (ground arith)

-- A decision is returned exactly for the valid inputs: two ids of 1 to 1024 bytes, an admission id
-- of that size if there is one, some content, a multiplier of 1 to 1000000 ppm, a positive floor, a
-- suffix within the content and a horizon of one read or more. It is then the receipt of the input.
pub decide_cache_crossover_iff :
    (input : CacheCrossoverInput) (r : CacheCrossoverReceipt)
    → (decide_cache_crossover input ≡ ok r) ↔ (IsValid input × (receipt_of input ≡ r))
unfolding decide_cache_crossover
decide_cache_crossover_iff input r = (onward, back)
  where
    onward :
        (validate_input input >> ok (receipt_of input)) ≡ ok r
        → IsValid input × (receipt_of input ≡ r)
    onward h = ground (arith, IsValid-sound input)

    back :
        IsValid input × (receipt_of input ≡ r)
        → (validate_input input >> ok (receipt_of input)) ≡ ok r
    back (v, e) = rw (IsValid-complete input v) (ap ok e)
