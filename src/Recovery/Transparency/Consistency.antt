-- ===== src/Recovery/Transparency/Consistency.antt =====
-- A consistency proof verifies against the roots of the old and of the new log.
use mathlib.Core.List.{append-nil, reverse, reverse_aux}
use tokenzero.Base.{
  ℕ, suc, ◌+◌, ◌^◌, ◌≤◌, ltb, ◌≡◌, refl, sym, ap, subst, ◌∙◌, arith, true, false, some, List, [],
  ◌∷◌, ◌++◌, map, length, get_elem?, take, drop, length-append, length-take, take-append-drop, Text,
  text_eq_refl,
}
use tokenzero.Recovery.Transparency.{
  InclusionProof, inclusion_proof, verify_inclusion, ConsistencyProof, bag, peaks, peak_heights,
  peak_ranges, ranges_from, root, append_leaves, zip_heights, consistency_proof, verify_consistency,
}
use tokenzero.Recovery.Transparency.Heights.{total, total-peak_heights}
use tokenzero.Recovery.Transparency.Binary.{peak_heights_unique, peak_heights-Decreasing}
use tokenzero.Recovery.Transparency.Inclusion.{inclusion_proof-verify}
use tokenzero.Recovery.Transparency.Mountain.{Mountain, all_leaves, append_leaves-Mountain}
use tokenzero.Recovery.Transparency.Layout.{
  HeadUnder, heights_of, reverse_aux-Decreasing, build, peak_of, zip_heights-build, map-build,
  build-Mountain, reverse-build, total-reverse_aux,
}

module _ (sha256 : Text → Text) where
  -- The peaks, with their heights, from the first to the last.
  abbrev layout : List Text → List (ℕ × Text)
  layout leaves = build sha256 (peak_heights (length leaves)) leaves

  layout-Mountain : (leaves : List Text) → Mountain sha256 (reverse (layout leaves)) leaves
  unfolding all_leaves
  layout-Mountain leaves =
      build-Mountain sha256 (peak_heights (length leaves)) leaves [] []
        (peak_heights-Decreasing (length leaves)) (head_under (peak_heights (length leaves)))
        (total-peak_heights (length leaves))
        (record { parts = []; roots = tt; rising = tt; joined = refl })
    where
      head_under : (heights : List ℕ) → HeadUnder heights []
      head_under [] = tt
      head_under (h ∷ heights) = tt

  -- There is one mountain over the leaves.
  Mountain-unique :
      (st : List (ℕ × Text)) (leaves : List Text)
      → Mountain sha256 st leaves
      → reverse st ≡ layout leaves
  unfolding build total
  Mountain-unique st leaves m =
      let heights = reverse_aux (heights_of st) [] in
      let size : total heights ≡ length leaves =
        total-reverse_aux sha256 st m.parts [] m.roots ∙ omega (arith, ap length m.joined) in
      let same : heights ≡ peak_heights (length leaves) =
        sym (peak_heights_unique heights (reverse_aux-Decreasing st [] m.rising tt tt))
        ∙ ap peak_heights size in
      reverse-build sha256 st m.parts [] [] m.roots
      ∙ ap (build sha256 heights) (append-nil (all_leaves m.parts) ∙ m.joined)
      ∙ ap (λ hs. build sha256 hs leaves) same

  peaks-layout : (leaves : List Text) → map (λ peak. peak.1) (layout leaves) ≡ peaks sha256 leaves
  unfolding peaks peak_ranges
  peaks-layout leaves = map-build sha256 (peak_heights (length leaves)) 0 leaves

  zip-layout :
      (leaves : List Text)
      → zip_heights (peak_heights (length leaves)) (peaks sha256 leaves) ≡ layout leaves
  unfolding peaks peak_ranges
  zip-layout leaves = zip_heights-build sha256 (peak_heights (length leaves)) 0 leaves

  length-peaks :
      (leaves : List Text) → length (peak_heights (length leaves)) ≡ length (peaks sha256 leaves)
  unfolding peaks peak_ranges
  length-peaks leaves = counts (peak_heights (length leaves)) 0
    where
      counts :
          (heights : List ℕ) (start : ℕ)
          → length heights ≡ length (map (peak_of sha256 leaves) (ranges_from start heights))
      counts [] start = refl
      counts (h ∷ heights) start = unfold ranges_from in ap suc (counts heights (start + 2 ^ h))

  -- Appending leaves to the peaks of a log gives the peaks of the longer log.
  grown-peaks :
      (old more : List Text)
      → map
          (λ peak. peak.1)
          (reverse (
            append_leaves sha256 more
              (reverse (zip_heights (peak_heights (length old)) (peaks sha256 old)))))
        ≡ peaks sha256 (old ++ more)
  grown-peaks old more =
      ap (λ start. map (λ peak. peak.1) (reverse (append_leaves sha256 more (reverse start))))
        (zip-layout old)
      ∙ ap (map (λ peak. peak.1)) (
          Mountain-unique (append_leaves sha256 more (reverse (layout old))) (old ++ more)
            (append_leaves-Mountain sha256 more (reverse (layout old)) old (layout-Mountain old)))
      ∙ peaks-layout (old ++ more)

  -- The proof that a log of the old size was extended to all the leaves.
  abbrev extension : (old more : List Text) (old_size : ℕ) (leaves : List Text) → ConsistencyProof
  extension old more old_size leaves = record {
    old_size = old_size;
    new_size = length leaves;
    old_peaks = peaks sha256 old;
    appended_leaf_hashes = more;
  }

  abbrev Verifies : (old more : List Text) (old_size : ℕ) (leaves : List Text) → Type 0
  Verifies old more old_size leaves =
      verify_consistency sha256 (extension old more old_size leaves) (root sha256 old)
        (root sha256 leaves)
      ≡ true

  verify-extension : (old more : List Text) → Verifies old more (length old) (old ++ more)
  unfolding verify_consistency root
  verify-extension old more = rw (grown-peaks old more) (
      ground (
        arith,
        text_eq_refl (bag sha256 (peaks sha256 old)),
        length-append old more,
        text_eq_refl (bag sha256 (peaks sha256 (old ++ more))),
        length-peaks old,
      ))

-- For every earlier size of a log there is a consistency proof, and it verifies against the root that
-- the log had at that size and the root that it has now.
pub consistency_proof-verify :
    (sha256 : Text → Text) (leaves : List Text) (old_size : ℕ)
    → old_size ≤ length leaves
    → (p : ConsistencyProof) × (consistency_proof sha256 leaves old_size ≡ some p)
      × (verify_consistency sha256 p (root sha256 (take old_size leaves)) (root sha256 leaves)
          ≡ true)
unfolding consistency_proof
consistency_proof-verify sha256 leaves old_size earlier =
    let old = take old_size leaves in
    let more = drop old_size leaves in
    let size : length old ≡ old_size = omega (arith, earlier, length-take old_size leaves) in
    let in_range : ltb (length leaves) old_size ≡ false = ground (arith, earlier) in
    (
      extension sha256 old more old_size leaves,
      rw in_range refl,
      subst (Verifies sha256 old more old_size) (take-append-drop old_size leaves) (
          subst (λ n. Verifies sha256 old more n (old ++ more)) size
            (verify-extension sha256 old more)),
    )

-- Proofs of a log verify: for each of its leaves there is an inclusion proof, which carries the leaf's
-- hash and verifies against the log's root, and for each earlier size of the log a consistency proof,
-- which verifies against the root that the log had at that size and the root that it has now.
pub inclusion-consistency_proof-verify :
    (sha256 : Text → Text) (leaves : List Text) (leaf_index : ℕ) (leaf : Text) (old_size : ℕ)
    → get_elem? leaves leaf_index ≡ some leaf
    → old_size ≤ length leaves
    → ((p : InclusionProof) × (inclusion_proof sha256 leaves leaf_index ≡ some p)
        × (p.leaf_hash ≡ leaf)
        × (verify_inclusion sha256 p (root sha256 leaves) ≡ true))
      × ((p : ConsistencyProof) × (consistency_proof sha256 leaves old_size ≡ some p)
          × (verify_consistency sha256 p (root sha256 (take old_size leaves)) (root sha256 leaves)
              ≡ true))
inclusion-consistency_proof-verify sha256 leaves leaf_index leaf old_size found earlier = (
  inclusion_proof-verify sha256 leaves leaf_index leaf found,
  consistency_proof-verify sha256 leaves old_size earlier,
)
