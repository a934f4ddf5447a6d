-- ===== src/Crossover/Tests.antt =====
-- One decision, and the theorems at it.
use tokenzero.Base.Providers.{anthropic}
use tokenzero.Base.{◌≤◌, ◌≡◌, ◌↔◌, refl, true, some, codes, arith, ok, text_eq}
use tokenzero.Crossover.{
  CacheCrossoverInput, CacheCrossoverReceipt, CacheCrossoverAction, CacheCrossoverReason, compress,
  stable, validate_input, receipt_of, bad_id, bad_admission, choose, decide_cache_crossover,
}
use tokenzero.Crossover.Arithmetic.{InRange}
use tokenzero.Crossover.Validation.{IsValid, decide_cache_crossover_iff}
use tokenzero.Crossover.Decision.{permitted, cost, decide_cache_crossover_optimal}

abbrev input : CacheCrossoverInput
input = record {
  provider = anthropic;
  policy_id = codes "p";
  token_unit_id = codes "u";
  content_class = stable;
  original_tokens = 2_000;
  compressed_tokens = 150;
  compression_admission_id = some (codes "a");
  common_overhead_tokens = 10;
  cached_read_multiplier_ppm = 100_000;
  min_cacheable_tokens = 1_000;
  suffix_size_tokens = 0;
  compaction_cost_tokens = 100;
  remaining_reuse_horizon = 3;
}

abbrev receipt : CacheCrossoverReceipt
receipt = record {
  input = input;
  action = compress;
  reason = CacheCrossoverReason.compression_strictly_beats_cache;
  cache_eligible = true;
  inline_total = 2_010_000_000;
  compressed_total = 260_000_000;
  cached_total = 210_000_000;
  inline_projected = 6_010_000_000;
  compressed_projected = 560_000_000;
  cached_projected = 610_000_000;
}

decided : decide_cache_crossover input ≡ ok receipt
unfolding decide_cache_crossover validate_input receipt_of bad_id bad_admission choose text_eq
decided = refl

input-InRange : InRange input
input-InRange = omega arith

decide_cache_crossover_iff_example :
    (decide_cache_crossover input ≡ ok receipt) ↔ (IsValid input × (receipt_of input ≡ receipt))
decide_cache_crossover_iff_example = decide_cache_crossover_iff input receipt

decide_cache_crossover_optimal_example :
    (permitted input receipt.action ≡ true)
    × ((a : CacheCrossoverAction)
        → permitted input a ≡ true
        → cost input receipt.action ≤ cost input a)
decide_cache_crossover_optimal_example =
    decide_cache_crossover_optimal input receipt input-InRange decided
