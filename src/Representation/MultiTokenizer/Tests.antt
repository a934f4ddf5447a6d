-- ===== src/Representation/MultiTokenizer/Tests.antt =====
-- Two tokenizers, one of half the weight, that turn the choice between two segmentations.
use tokenzero.Base.{ℕ, ◌≡◌, refl, List, [], ◌∷◌, All, map, codes, ok, text_eq, text_ltb}
use tokenzero.Representation.Segmentation.{segment, rounds, scan, walk}
use tokenzero.Representation.Segmentation.Optimal.{IsSolved}
use tokenzero.Representation.MultiTokenizer.{
  TokenizerWeight, MultiTokenizerSegmentCandidate, Roots, get, insert, weight_by_root, costs_of,
  same_keys, weighted, effective_cost, effective_costs, optimal_multi_tokenizer_segmentation,
}
use tokenzero.Representation.MultiTokenizer.Costs.{
  Priced, cost_and_segments, optimal_multi_tokenizer_segmentation-IsSolved,
}

abbrev weights : List TokenizerWeight
weights =
    record { tokenizer_root = codes "q"; weight_ppm = 500000 }
    ∷ (record { tokenizer_root = codes "o"; weight_ppm = 1000000 } ∷ [])

abbrev roots : Roots
roots = (codes "o", 1000000) ∷ ((codes "q", 500000) ∷ [])

abbrev piece : ℕ → ℕ → ℕ → ℕ → MultiTokenizerSegmentCandidate
piece start end o q = record {
  segment = record { start = start; end = end; additive_cost = 1; boundary_kind = codes "line" };
  tokenizer_costs =
      record { tokenizer_root = codes "q"; tokens = q }
      ∷ (record { tokenizer_root = codes "o"; tokens = o } ∷ []);
}

abbrev candidates : List MultiTokenizerSegmentCandidate
candidates = piece 0 2 10 3 ∷ (piece 0 1 2 5 ∷ (piece 1 2 2 2 ∷ []))

abbrev items : List (MultiTokenizerSegmentCandidate × ℕ)
items = (piece 0 2 10 3, 13) ∷ ((piece 0 1 2 5, 6) ∷ ((piece 1 2 2 2, 4) ∷ []))

in_order : weight_by_root weights [] ≡ ok roots
unfolding weight_by_root insert get text_eq text_ltb
in_order = refl

at_costs : effective_costs roots candidates ≡ ok items
unfolding effective_costs effective_cost costs_of weighted same_keys insert get text_eq text_ltb
at_costs = refl

halves :
    optimal_multi_tokenizer_segmentation 2 candidates weights
    ≡ ok (record { total_cost = 10; segments = piece 0 1 2 5 ∷ (piece 1 2 2 2 ∷ []) })
unfolding optimal_multi_tokenizer_segmentation segment rounds scan walk weight_by_root
    effective_costs effective_cost costs_of weighted same_keys insert get text_eq text_ltb
halves = refl

optimal_multi_tokenizer_segmentation-IsSolved_example :
    (map (λ item. item.0) items ≡ candidates)
    × All (Priced weights) items
    × IsSolved
        (λ c. c.segment)
        2
        items
        (cost_and_segments (optimal_multi_tokenizer_segmentation 2 candidates weights))
optimal_multi_tokenizer_segmentation-IsSolved_example =
    optimal_multi_tokenizer_segmentation-IsSolved 2 candidates weights roots items refl in_order
      at_costs
