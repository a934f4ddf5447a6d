-- ===== src/Crossover.antt =====
-- crates/tokenzero-engine/src/cache_crossover.rs: whether to cache, compress or keep content inline.
pub mod Validation
pub mod Arithmetic
pub mod Decision
mod Tests
use tokenzero.Base.Providers.{CacheProvider}
use tokenzero.Base.{
  ℕ, ◌+◌, ◌-◌, ◌*◌, Bool, true, false, not, ◌&&◌, ◌||◌, Option, none, some, [], Text, text_eq, leb,
  ltb, ◌==◌, if◌then◌else◌, length, add_128, mul_128, Result, ok, err, guard, ◌>>=◌, ◌>>◌,
}

abbrev pub token_cost_ppm_scale : ℕ
token_cost_ppm_scale = 1_000_000

abbrev pub max_id_bytes : ℕ
max_id_bytes = 1024

pub data CacheContentClass : Type 0 where
  stable churn : CacheContentClass

pub data CacheCrossoverAction : Type 0 where
  cache_stable compress keep_inline : CacheCrossoverAction

pub data CacheCrossoverReason : Type 0 where
  cached_stable_cheaper_or_equal : CacheCrossoverReason
  compression_strictly_beats_cache : CacheCrossoverReason
  below_cacheable_floor : CacheCrossoverReason
  churn_is_not_cacheable : CacheCrossoverReason
  compression_not_admitted : CacheCrossoverReason

pub record CacheCrossoverInput : Type 0 where
  pub provider : CacheProvider
  pub policy_id : Text
  pub token_unit_id : Text
  pub content_class : CacheContentClass
  pub original_tokens : ℕ
  pub compressed_tokens : ℕ
  pub compression_admission_id : Option Text
  pub common_overhead_tokens : ℕ
  pub cached_read_multiplier_ppm : ℕ
  pub min_cacheable_tokens : ℕ
  pub suffix_size_tokens : ℕ
  pub compaction_cost_tokens : ℕ
  pub remaining_reuse_horizon : ℕ

-- The receipt: the input, the choice, and the six costs. `schema` is a constant.
pub record CacheCrossoverReceipt : Type 0 where
  pub input : CacheCrossoverInput
  pub action : CacheCrossoverAction
  pub reason : CacheCrossoverReason
  pub cache_eligible : Bool
  pub inline_total : ℕ
  pub compressed_total : ℕ
  pub cached_total : ℕ
  pub inline_projected : ℕ
  pub compressed_projected : ℕ
  pub cached_projected : ℕ

pub data CacheCrossoverError : Type 0 where
  invalid_policy_id invalid_token_unit_id invalid_compression_admission_id : CacheCrossoverError
  empty_content invalid_cached_read_multiplier invalid_cacheable_floor : CacheCrossoverError
  invalid_suffix_size invalid_reuse_horizon : CacheCrossoverError

-- The default emission settings: d = 1.0, one read, a floor of 1000 tokens.
pub record EmissionCrossoverConfig : Type 0 where
  pub cached_read_multiplier_ppm : ℕ
  pub remaining_reuse_horizon : ℕ
  pub min_cacheable_tokens : ℕ

abbrev pub default_emission : EmissionCrossoverConfig
default_emission = record {
  cached_read_multiplier_ppm = token_cost_ppm_scale;
  remaining_reuse_horizon = 1;
  min_cacheable_tokens = 1_000;
}

unfoldable pub bad_id : Text → Bool
bad_id id = text_eq id [] || ltb max_id_bytes (length id)

unfoldable pub bad_admission : Option Text → Bool
bad_admission none = false
bad_admission (some id) = bad_id id

unfoldable pub validate_input : CacheCrossoverInput → Result CacheCrossoverError (Unit {0})
validate_input input = do
  guard (not (bad_id input.policy_id)) invalid_policy_id
  guard (not (bad_id input.token_unit_id)) invalid_token_unit_id
  guard (not (bad_admission input.compression_admission_id)) invalid_compression_admission_id
  guard (not (input.original_tokens == 0)) empty_content
  guard
      (leb 1 input.cached_read_multiplier_ppm
        && leb input.cached_read_multiplier_ppm token_cost_ppm_scale)
      invalid_cached_read_multiplier
  guard (not (input.min_cacheable_tokens == 0)) invalid_cacheable_floor
  guard (leb input.suffix_size_tokens input.original_tokens) invalid_suffix_size
  guard (not (input.remaining_reuse_horizon == 0)) invalid_reuse_horizon

unfoldable pub smaller_inline_action : ℕ → ℕ → CacheCrossoverAction
smaller_inline_action inline compressed = if ltb compressed inline then compress else keep_inline

abbrev pub is_admitted : Option Text → Bool
is_admitted none = false
is_admitted (some _) = true

abbrev pub is_stable : CacheContentClass → Bool
is_stable stable = true
is_stable churn = false

-- The `match` over the content class: the action and its reason.
unfoldable pub choose :
    CacheContentClass → Bool → Bool → ℕ → ℕ → ℕ → CacheCrossoverAction × CacheCrossoverReason
unfolding smaller_inline_action
choose class admitted eligible inline compressed cached =
    if is_stable class && (not admitted && eligible)
    then (cache_stable, compression_not_admitted)
    else if not admitted
    then (keep_inline, compression_not_admitted)
    else if not (is_stable class)
    then (smaller_inline_action inline compressed, churn_is_not_cacheable)
    else if not eligible
    then (smaller_inline_action inline compressed, below_cacheable_floor)
    else if ltb compressed cached
    then (compress, compression_strictly_beats_cache)
    else (cache_stable, cached_stable_cheaper_or_equal)

-- The receipt of a valid input. Sums and products are those of u128.
unfoldable pub receipt_of : CacheCrossoverInput → CacheCrossoverReceipt
receipt_of input =
    let scale : ℕ = token_cost_ppm_scale in
    let overhead = mul_128 input.common_overhead_tokens scale in
    let horizon = input.remaining_reuse_horizon in
    let suffix = input.suffix_size_tokens in
    let compaction = input.compaction_cost_tokens in
    let original = input.original_tokens in
    let compressed = input.compressed_tokens in
    let multiplier = input.cached_read_multiplier_ppm in
    let cacheable_prefix = original - suffix in
    let per_read = add_128 (mul_128 suffix scale) (mul_128 cacheable_prefix multiplier) in
    let inline_projected = add_128 overhead (mul_128 (mul_128 horizon original) scale) in
    let compressed_projected =
      add_128 (add_128 overhead (mul_128 compaction scale))
        (mul_128 (mul_128 horizon compressed) scale) in
    let cached_projected = add_128 overhead (mul_128 horizon per_read) in
    let eligible =
      is_stable input.content_class && leb input.min_cacheable_tokens cacheable_prefix in
    let chosen =
      choose input.content_class (is_admitted input.compression_admission_id) eligible
        inline_projected compressed_projected cached_projected in
    record {
      input = input;
      action = chosen.0;
      reason = chosen.1;
      cache_eligible = eligible;
      inline_total = add_128 overhead (mul_128 original scale);
      compressed_total = add_128 overhead (mul_128 (add_128 compaction compressed) scale);
      cached_total =
          add_128 (add_128 overhead (mul_128 suffix scale)) (mul_128 cacheable_prefix multiplier);
      inline_projected = inline_projected;
      compressed_projected = compressed_projected;
      cached_projected = cached_projected;
    }

unfoldable pub decide_cache_crossover :
    CacheCrossoverInput → Result CacheCrossoverError CacheCrossoverReceipt
decide_cache_crossover input = do validate_input input; ok (receipt_of input)
