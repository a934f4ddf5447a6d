-- ===== src/Crossover/Decision.antt =====
-- The decision is the cheapest of what is permitted.
use tokenzero.Base.{
  ℕ, ◌∙◌, subst, ◌-◌, ◌*◌, ◌≤◌, ◌<◌, ◌≡◌, ◌↔◌, refl, Bool, true, ◌&&◌, arith, leb, ok, ap, sym,
}
use tokenzero.Crossover.{
  CacheContentClass, CacheCrossoverAction, cache_stable, compress, keep_inline, CacheCrossoverInput,
  CacheCrossoverReceipt, is_admitted, is_stable, choose, receipt_of, decide_cache_crossover,
  token_cost_ppm_scale, default_emission,
}
use tokenzero.Crossover.Validation.{decide_cache_crossover_iff}
use tokenzero.Crossover.Arithmetic.{
  InRange, inline_cost, compressed_cost, cached_cost, read_cost, read_cost-le, mul-le, exact_inline,
  exact_compressed, exact_cached,
}

-- What an action costs over the whole horizon.
abbrev pub cost : CacheCrossoverInput → CacheCrossoverAction → ℕ
cost i cache_stable = cached_cost i
cost i compress = compressed_cost i
cost i keep_inline = inline_cost i

-- Compression needs an admission; caching needs stable content whose prefix reaches the floor.
abbrev pub permitted : CacheCrossoverInput → CacheCrossoverAction → Bool
permitted i cache_stable =
    is_stable i.content_class
    && leb i.min_cacheable_tokens (i.original_tokens - i.suffix_size_tokens)
permitted i compress = is_admitted i.compression_admission_id
permitted i keep_inline = true

abbrev allowed : Bool → Bool → CacheCrossoverAction → Bool
allowed admitted eligible cache_stable = eligible
allowed admitted eligible compress = admitted
allowed admitted eligible keep_inline = true

abbrev price : ℕ → ℕ → ℕ → CacheCrossoverAction → ℕ
price inline compressed cached cache_stable = cached
price inline compressed cached compress = compressed
price inline compressed cached keep_inline = inline

module _ (class : CacheContentClass) (admitted floor : Bool) (inline compressed cached : ℕ)
    (cheaper : cached ≤ inline) where
  choose_permitted :
      allowed admitted
        (is_stable class && floor)
        (choose class admitted (is_stable class && floor) inline compressed cached).0
      ≡ true
  unfolding choose
  choose_permitted = ground arith

  choose_optimal :
      (a : CacheCrossoverAction)
      → allowed admitted (is_stable class && floor) a ≡ true
      → price inline compressed cached
          (choose class admitted (is_stable class && floor) inline compressed cached).0
        ≤ price inline compressed cached a
  unfolding choose
  choose_optimal cache_stable h = ground arith
  choose_optimal compress h = ground arith
  choose_optimal keep_inline h = ground arith

module _ (i : CacheCrossoverInput) (range : InRange i) where
  cached-le-inline : cached_cost i ≤ inline_cost i
  cached-le-inline =
      let reads = i.remaining_reuse_horizon in
      omega (
        arith,
        mul-le reads (read_cost i) reads (i.original_tokens * token_cost_ppm_scale) (omega arith)
            (read_cost-le i range),
      )

  -- The action chosen from the exact costs.
  chosen : CacheCrossoverAction
  chosen =
      (choose i.content_class (is_admitted i.compression_admission_id) (permitted i cache_stable)
        (inline_cost i) (compressed_cost i) (cached_cost i)).0

  action-chosen : (receipt_of i).action ≡ chosen
  unfolding chosen
  action-chosen =
      projected_choice
      ∙ ap (λ t. (choose class admitted eligible t compressed cached).0) (exact_inline i range)
      ∙ ap (λ t. (choose class admitted eligible (inline_cost i) t cached).0)
          (exact_compressed i range)
      ∙ ap (λ t. (choose class admitted eligible (inline_cost i) (compressed_cost i) t).0)
          (exact_cached i range)
    where
      open i use {content_class as class}

      admitted : Bool
      admitted = is_admitted i.compression_admission_id

      eligible : Bool
      eligible = permitted i cache_stable

      compressed : ℕ
      compressed = (receipt_of i).compressed_projected

      cached : ℕ
      cached = (receipt_of i).cached_projected

      projected_choice :
          (receipt_of i).action
          ≡ (choose class admitted eligible (receipt_of i).inline_projected compressed cached).0
      projected_choice = unfold receipt_of in refl

cost-price :
    (i : CacheCrossoverInput) (a : CacheCrossoverAction)
    → cost i a ≡ price (inline_cost i) (compressed_cost i) (cached_cost i) a
cost-price i cache_stable = refl
cost-price i compress = refl
cost-price i keep_inline = refl

permitted-allowed :
    (i : CacheCrossoverInput) (a : CacheCrossoverAction)
    → permitted i a ≡ allowed (is_admitted i.compression_admission_id) (permitted i cache_stable) a
permitted-allowed i cache_stable = refl
permitted-allowed i compress = refl
permitted-allowed i keep_inline = refl

abbrev IsOptimal : CacheCrossoverInput → CacheCrossoverAction → Type 0
IsOptimal i action =
    (permitted i action ≡ true)
    × ((a : CacheCrossoverAction) → permitted i a ≡ true → cost i action ≤ cost i a)

chosen-IsOptimal : (i : CacheCrossoverInput) (range : InRange i) → IsOptimal i (chosen i range)
unfolding chosen
chosen-IsOptimal i range =
    let class = i.content_class in
    let admitted = is_admitted i.compression_admission_id in
    let floor = leb i.min_cacheable_tokens (i.original_tokens - i.suffix_size_tokens) in
    let cheaper = cached-le-inline i range in
    (
      permitted-allowed i _
          ∙ choose_permitted class admitted floor (inline_cost i) (compressed_cost i)
              (cached_cost i) cheaper,
      λ a h.
          rw (cost-price i (chosen i range), cost-price i a)
            (choose_optimal class admitted floor (inline_cost i) (compressed_cost i) (cached_cost i)
              cheaper a (sym (permitted-allowed i a) ∙ h)),
    )

-- For a valid input whose amounts are u64 values and whose horizon is at most 2^40 reads, the
-- decision is permitted, and costs no more over the horizon than any permitted action: inline is
-- always permitted, compression with an admission id, and caching for stable content whose
-- cacheable prefix reaches the floor.
pub decide_cache_crossover_optimal :
    (i : CacheCrossoverInput) (r : CacheCrossoverReceipt)
    → InRange i
    → decide_cache_crossover i ≡ ok r
    → (permitted i r.action ≡ true)
      × ((a : CacheCrossoverAction) → permitted i a ≡ true → cost i r.action ≤ cost i a)
decide_cache_crossover_optimal i r range decided =
    let e = ((decide_cache_crossover_iff i r).0 decided).1 in
    subst (IsOptimal i)
      (sym (action-chosen i range) ∙ ap (λ (r' : CacheCrossoverReceipt). r'.action) e)
      (chosen-IsOptimal i range)

choose_neutral :
    (class : CacheContentClass) (floor : Bool) (inline compressed cached : ℕ)
    → cached ≡ inline
    → ((choose class true (is_stable class && floor) inline compressed cached).0 ≡ compress)
      ↔ (compressed < inline)
unfolding choose
choose_neutral class floor inline compressed cached neutral = ground arith

neutral_costs :
    (i : CacheCrossoverInput)
    → i.cached_read_multiplier_ppm ≡ token_cost_ppm_scale
    → i.remaining_reuse_horizon ≡ 1
    → i.suffix_size_tokens ≡ 0
    → i.compaction_cost_tokens ≡ 0
    → (cached_cost i ≡ inline_cost i)
      × ((compressed_cost i < inline_cost i) ↔ (i.compressed_tokens < i.original_tokens))
neutral_costs i d one no_suffix no_compaction = grind arith

chosen_admitted :
    (i : CacheCrossoverInput) (range : InRange i)
    → is_admitted i.compression_admission_id ≡ true
    → (receipt_of i).action
      ≡ (choose i.content_class true
          (permitted i cache_stable)
          (inline_cost i)
          (compressed_cost i)
          (cached_cost i)).0
unfolding chosen
chosen_admitted i range admitted =
    action-chosen i range
    ∙ ap
        (λ b.
          (choose i.content_class b (permitted i cache_stable) (inline_cost i) (compressed_cost i)
            (cached_cost i)).0)
        admitted

-- With the default emission settings (a cached read at full price, one read), no suffix and no
-- compaction cost, an admitted compression is chosen exactly when it has fewer tokens than the
-- original, whatever the content class and the floor.
default_emission-compress :
    (i : CacheCrossoverInput)
    → InRange i
    → is_admitted i.compression_admission_id ≡ true
    → i.cached_read_multiplier_ppm ≡ default_emission.cached_read_multiplier_ppm
    → i.remaining_reuse_horizon ≡ default_emission.remaining_reuse_horizon
    → i.suffix_size_tokens ≡ 0
    → i.compaction_cost_tokens ≡ 0
    → ((receipt_of i).action ≡ compress) ↔ (i.compressed_tokens < i.original_tokens)
default_emission-compress i range admitted d one no_suffix no_compaction =
    let class = i.content_class in
    let floor = leb i.min_cacheable_tokens (i.original_tokens - i.suffix_size_tokens) in
    let neutral = neutral_costs i d one no_suffix no_compaction in
    let decision =
      choose_neutral class floor (inline_cost i) (compressed_cost i) (cached_cost i) neutral.0 in
    let same = chosen_admitted i range admitted in
    (λ e. neutral.1.0 (decision.0 (sym same ∙ e)), λ h. same ∙ decision.1 (neutral.1.1 h))
