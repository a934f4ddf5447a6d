-- ===== src/Representation/Tests.antt =====
-- A frontier of three records, and the theorem at one that it leaves out.
use tokenzero.Base.{◌≡◌, ℕ, refl, true, false, inl, inr, [], ◌∷◌, List, codes, text_eq, text_ltb}
use tokenzero.Base.Sorting.{sort}
use tokenzero.Representation.{
  RepresentationResources, RepresentationRecord, raw_bytes, compressed_bytes, syntax_tree, beats,
  dominates_or_equal, resources_eq, strictly_better_than, pareto_frontier,
}
use tokenzero.Representation.Frontier.{Member, IsCovering, pareto_frontier-IsCovering}

abbrev costs : ℕ → ℕ → RepresentationResources
costs bytes work = record {
  stored_bytes = bytes;
  wire_bytes = bytes;
  source_tokens = 10;
  visible_tokens = 10;
  expansion_work = work;
  verification_work = work;
  latency_micros = work;
  metadata_bytes = 4;
}

abbrev raw : RepresentationRecord
raw = record {
  representation_root = codes "r1";
  semantic_root = codes "s";
  adapter_root = codes "a";
  kind = raw_bytes;
  exact = true;
  resources = costs 100 1;
}

abbrev packed : RepresentationRecord
packed = record raw {
  representation_root = codes "r0";
  kind = compressed_bytes;
  resources = costs 40 8;
}

abbrev tree : RepresentationRecord
tree = record raw {
  representation_root = codes "r2";
  kind = syntax_tree;
  exact = false;
  resources = costs 120 9;
}

abbrev records : List RepresentationRecord
records = raw ∷ tree ∷ packed ∷ []

undominated : pareto_frontier records ≡ packed ∷ raw ∷ []
unfolding pareto_frontier sort beats strictly_better_than dominates_or_equal resources_eq text_eq
    text_ltb
undominated = refl

pareto_frontier-IsCovering_example :
    (f : RepresentationRecord) × Member f (pareto_frontier records) × IsCovering f tree
pareto_frontier-IsCovering_example = pareto_frontier-IsCovering records tree (inr (inl refl))
