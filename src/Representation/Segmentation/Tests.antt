-- ===== src/Representation/Segmentation/Tests.antt =====
-- A source of length 4, where the two cheap ends beat the single segment.
use tokenzero.Base.{ℕ, ◌≡◌, refl, List, [], ◌∷◌, codes, ok, err}
use tokenzero.Representation.Segmentation.{
  SegmentCandidate, optimal_segmentation, segment, rounds, scan, walk, priced, not_covered,
}
use tokenzero.Representation.Segmentation.Optimal.{
  IsSolved, cost_and_segments, optimal_segmentation-IsSolved,
}

abbrev from_to : ℕ → ℕ → ℕ → SegmentCandidate
from_to start end cost = record {
  start = start;
  end = end;
  additive_cost = cost;
  boundary_kind = codes "line";
}

abbrev candidates : List SegmentCandidate
candidates = from_to 0 4 9 ∷ (from_to 0 2 3 ∷ (from_to 2 4 4 ∷ (from_to 2 9 1 ∷ [])))

two_halves :
    optimal_segmentation 4 candidates
    ≡ ok (record { total_cost = 7; segments = from_to 0 2 3 ∷ (from_to 2 4 4 ∷ []) })
unfolding optimal_segmentation segment rounds scan walk
two_halves = refl

gap : optimal_segmentation 3 candidates ≡ err not_covered
unfolding optimal_segmentation segment rounds scan walk
gap = refl

optimal_segmentation-IsSolved_example :
    IsSolved (λ c. c) 4 (priced candidates) (cost_and_segments (optimal_segmentation 4 candidates))
optimal_segmentation-IsSolved_example = optimal_segmentation-IsSolved 4 candidates
