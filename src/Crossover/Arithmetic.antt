-- ===== src/Crossover/Arithmetic.antt =====
-- Within the range of u64 and a horizon of at most 2^40 reads no u128 operation of the policy wraps.
use tokenzero.Base.{ℕ, ◌+◌, ◌-◌, ◌*◌, ◌^◌, ◌≤◌, ◌≡◌, arith, max_u64, add_128, mul_128}
use tokenzero.Crossover.{CacheCrossoverInput, token_cost_ppm_scale, receipt_of}

abbrev pub max_horizon : ℕ
max_horizon = 2 ^ 40

-- The fields of an input as u64 values, with a horizon of at most 2^40 reads.
pub record InRange (input : CacheCrossoverInput) : Type 0 where
  pub original : input.original_tokens ≤ max_u64
  pub compressed : input.compressed_tokens ≤ max_u64
  pub overhead : input.common_overhead_tokens ≤ max_u64
  pub compaction : input.compaction_cost_tokens ≤ max_u64
  pub suffix : input.suffix_size_tokens ≤ input.original_tokens
  pub multiplier : input.cached_read_multiplier_ppm ≤ token_cost_ppm_scale
  pub horizon : input.remaining_reuse_horizon ≤ max_horizon

-- The three projections over the unbounded numbers.
abbrev pub inline_cost : CacheCrossoverInput → ℕ
inline_cost i =
    i.common_overhead_tokens * token_cost_ppm_scale
    + i.remaining_reuse_horizon * i.original_tokens * token_cost_ppm_scale

abbrev pub compressed_cost : CacheCrossoverInput → ℕ
compressed_cost i =
    i.common_overhead_tokens * token_cost_ppm_scale
    + i.compaction_cost_tokens * token_cost_ppm_scale
    + i.remaining_reuse_horizon * i.compressed_tokens * token_cost_ppm_scale

abbrev pub read_cost : CacheCrossoverInput → ℕ
read_cost i =
    i.suffix_size_tokens * token_cost_ppm_scale
    + (i.original_tokens - i.suffix_size_tokens) * i.cached_read_multiplier_ppm

abbrev pub cached_cost : CacheCrossoverInput → ℕ
cached_cost i =
    i.common_overhead_tokens * token_cost_ppm_scale + i.remaining_reuse_horizon * read_cost i

pub mul-le : (a b c d : ℕ) → a ≤ c → b ≤ d → a * b ≤ c * d
mul-le a b c d h k = grind arith

product_fits : (h t : ℕ) → h ≤ max_horizon → t ≤ max_u64 → h * t ≤ 2 ^ 104
product_fits h t hh ht = omega (arith, mul-le h t max_horizon max_u64 hh ht)

-- A cached read never costs more than an inline one.
pub read_cost-le :
    (i : CacheCrossoverInput) → InRange i → read_cost i ≤ i.original_tokens * token_cost_ppm_scale
read_cost-le i r =
    let prefix = i.original_tokens - i.suffix_size_tokens in
    omega (
      arith,
      mul-le prefix i.cached_read_multiplier_ppm prefix token_cost_ppm_scale (omega arith)
          r.multiplier,
    )

module _ (i : CacheCrossoverInput) (r : InRange i) where
  prefix_fits :
      (i.original_tokens - i.suffix_size_tokens) * i.cached_read_multiplier_ppm
      ≤ i.original_tokens * token_cost_ppm_scale
  prefix_fits = omega (arith, read_cost-le i r)

  reads_fit : i.remaining_reuse_horizon * read_cost i ≤ 2 ^ 40 * (max_u64 * token_cost_ppm_scale)
  reads_fit =
      mul-le i.remaining_reuse_horizon (read_cost i) (2 ^ 40) (max_u64 * token_cost_ppm_scale)
        r.horizon (omega (arith, read_cost-le i r))

  -- The receipt's projections are the exact costs.
  pub exact_inline : (receipt_of i).inline_projected ≡ inline_cost i
  unfolding receipt_of
  exact_inline =
      omega (arith, product_fits i.remaining_reuse_horizon i.original_tokens r.horizon r.original)

  pub exact_compressed : (receipt_of i).compressed_projected ≡ compressed_cost i
  unfolding receipt_of
  exact_compressed =
      omega
        (arith, product_fits i.remaining_reuse_horizon i.compressed_tokens r.horizon r.compressed)

  exact_read :
      add_128
        (mul_128 i.suffix_size_tokens token_cost_ppm_scale)
        (mul_128 (i.original_tokens - i.suffix_size_tokens) i.cached_read_multiplier_ppm)
      ≡ read_cost i
  exact_read = omega (arith, prefix_fits)

  pub exact_cached : (receipt_of i).cached_projected ≡ cached_cost i
  unfolding receipt_of
  exact_cached = rw exact_read (omega (arith, reads_fit))
