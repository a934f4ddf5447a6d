-- ===== src/Recovery/Transparency/Inclusion.antt =====
-- An inclusion proof verifies against the root of the log that gave it.
use tokenzero.Base.{
  ℕ, zero, suc, ◌+◌, ◌-◌, ◌/◌, ◌≤◌, ◌<◌, ltb, ltb→lt, ◌≡◌, refl, sym, ap, ◌∙◌, arith, true, false,
  Bool-cases, inl, inr, Option, some, List, [], ◌∷◌, ◌++◌, length, take, drop, get_elem?, set,
  length-take, length-drop, Text, text_eq_refl, if◌then◌else◌,
}
use tokenzero.Recovery.Transparency.{
  ProofSibling, InclusionProof, hash_node, subtree_loop, subtree_root, inclusion_path, climb, slice,
  bag, peaks, peak_ranges, find_range, root, proof_at, inclusion_proof, verify_inclusion,
}
use tokenzero.Recovery.Transparency.Slices.{
  get_elem?-lt, get_elem?-take, get_elem?-drop, get_elem?-map, set-same,
}
use tokenzero.Recovery.Transparency.Heights.{Found, peak_ranges-Found}

module _ (sha256 : Text → Text) where
  -- Fuel beyond the number of leaves changes nothing.
  pub subtree_loop-enough :
      (fuel more : ℕ) (leaves : List Text)
      → length leaves ≤ fuel
      → length leaves ≤ more
      → subtree_loop sha256 fuel leaves ≡ subtree_loop sha256 more leaves
  unfolding subtree_loop
  subtree_loop-enough zero zero [] h k = refl
  subtree_loop-enough zero (suc more) [] h k = refl
  subtree_loop-enough (suc fuel) zero [] h k = refl
  subtree_loop-enough (suc fuel) (suc more) [] h k = refl
  subtree_loop-enough zero more (a ∷ leaves) h k = absurd (omega (arith, h))
  subtree_loop-enough (suc fuel) zero (a ∷ leaves) h k = absurd (omega (arith, k))
  subtree_loop-enough (suc fuel) (suc more) (a ∷ []) h k = refl
  subtree_loop-enough (suc fuel) (suc more) (a ∷ (b ∷ leaves)) h k =
      let all = a ∷ (b ∷ leaves) in
      let mid = length all / 2 in
      cc (
        subtree_loop-enough fuel more (take mid all) (omega (arith, h, length-take mid all))
            (omega (arith, k, length-take mid all)),
        subtree_loop-enough fuel more (drop mid all) (omega (arith, h, length-drop mid all))
            (omega (arith, k, length-drop mid all)),
      )

  climb-append :
      (node : Text) (xs ys : List ProofSibling)
      → climb sha256 node (xs ++ ys) ≡ climb sha256 (climb sha256 node xs) ys
  unfolding climb
  climb-append node [] ys = refl
  climb-append node (x ∷ xs) ys =
      climb-append
        (if x.is_left then hash_node sha256 x.hash node else hash_node sha256 node x.hash) xs ys

  -- Climbing from a leaf by its siblings gives the hash over all the leaves.
  climb-inclusion_path :
      (fuel : ℕ) (leaves : List Text) (index : ℕ) (leaf : Text)
      → length leaves ≤ fuel
      → get_elem? leaves index ≡ some leaf
      → climb sha256 leaf ((inclusion_path sha256 fuel leaves index).1)
        ≡ subtree_loop sha256 fuel leaves
  unfolding climb inclusion_path subtree_loop subtree_root
  climb-inclusion_path fuel [] index leaf h found = absurd (cc)
  climb-inclusion_path zero (a ∷ leaves) index leaf h found = absurd (omega (arith, h))
  climb-inclusion_path (suc fuel) (a ∷ []) zero leaf h found =
      let same : a ≡ leaf = ground arith in sym same
  climb-inclusion_path (suc fuel) (a ∷ []) (suc index) leaf h found = absurd (cc)
  climb-inclusion_path (suc fuel) (a ∷ (b ∷ leaves)) index leaf h found =
      let all = a ∷ (b ∷ leaves) in
      let mid = length all / 2 in
      let left_fits : length (take mid all) ≤ fuel = omega (arith, h, length-take mid all) in
      let right_fits : length (drop mid all) ≤ fuel = omega (arith, h, length-drop mid all) in
      elim (Bool-cases (ltb index mid)) [
        | inl in_left ↦
            let path =
              climb-inclusion_path fuel (take mid all) index leaf left_fits
                (get_elem?-take mid all index (ltb→lt index mid in_left) ∙ found) in
            rw in_left (
              climb-append leaf ((inclusion_path sha256 fuel (take mid all) index).1)
                (record { hash = subtree_root sha256 (drop mid all); is_left = false } ∷ [])
              ∙ cc (
                path,
                subtree_loop-enough (length (drop mid all)) fuel (drop mid all) (omega arith)
                    right_fits,
              ))
        | inr in_right ↦
            let path =
              climb-inclusion_path fuel (drop mid all) (index - mid) leaf right_fits
                (get_elem?-drop mid all index (index - mid) (ground (arith, in_right)) ∙ found) in
            rw in_right (
              climb-append leaf ((inclusion_path sha256 fuel (drop mid all) (index - mid)).1)
                (record { hash = subtree_root sha256 (take mid all); is_left = true } ∷ [])
              ∙ cc (
                path,
                subtree_loop-enough (length (take mid all)) fuel (take mid all) (omega arith)
                    left_fits,
              ))
      ]

  -- The leaf of a range, climbed to the top, is the peak over the range.
  climb-peak :
      (leaves : List Text) (start size index : ℕ) (leaf : Text)
      → start ≤ index
      → index < start + size
      → start + size ≤ length leaves
      → get_elem? leaves index ≡ some leaf
      → climb sha256 leaf
          ((inclusion_path sha256 size (slice leaves (start, size)) (index - start)).1)
        ≡ subtree_root sha256 (slice leaves (start, size))
  unfolding subtree_root
  climb-peak leaves start size index leaf low high inside found =
      let part = slice leaves (start, size) in
      let fits : length part ≡ size =
        length-take size (drop start leaves) ∙ omega (arith, inside, length-drop start leaves) in
      climb-inclusion_path size part (index - start) leaf (omega (arith, fits)) (
        get_elem?-take size (drop start leaves) (index - start) (omega (arith, low, high))
        ∙ get_elem?-drop start leaves index (index - start) (omega (arith, low))
        ∙ found)
      ∙ subtree_loop-enough size (length part) part (omega (arith, fits)) (omega arith)

  proof_at-verifies :
      (leaves : List Text) (index : ℕ) (leaf : Text) (found : Option (ℕ × (ℕ × ℕ)))
      → get_elem? leaves index ≡ some leaf
      → Found (peak_ranges (length leaves)) 0 (length leaves) index found
      → (p : InclusionProof) × (proof_at sha256 leaves index leaf found ≡ some p)
        × (p.leaf_hash ≡ leaf)
        × (verify_inclusion sha256 p (root sha256 leaves) ≡ true)
  unfolding verify_inclusion root
  proof_at-verifies leaves index leaf found at_index range =
      let part = slice leaves (range.start, range.size) in
      let peak : get_elem? (peaks sha256 leaves) range.place ≡ some (subtree_root sha256 part) =
        unfold peaks in
        get_elem?-map (λ r. subtree_root sha256 (slice leaves r)) (peak_ranges (length leaves))
          range.place (range.start, range.size) range.stands in
      let climbed =
        climb-peak leaves range.start range.size index leaf range.from_start range.within
          range.inside at_index in
      let same =
        ap (set (peaks sha256 leaves) range.place) climbed
        ∙ set-same (peaks sha256 leaves) range.place (subtree_root sha256 part) peak in
      let some_range : found ≡ some (range.place, (range.start, range.size)) =
        range.is_found ∙ ap (λ n. some (n, (range.start, range.size))) (omega arith) in
      rw some_range (
        record {
          size = length leaves;
          leaf_index = index;
          leaf_hash = leaf;
          peak_index = range.place;
          siblings = (inclusion_path sha256 range.size part (index - range.start)).1;
          peaks = peaks sha256 leaves;
        },
        refl,
        refl,
        rw same (
            ground (
              arith,
              text_eq_refl (bag sha256 (peaks sha256 leaves)),
              get_elem?-lt leaves index leaf at_index,
              get_elem?-lt (peaks sha256 leaves) range.place (subtree_root sha256 part) peak,
            )),
      )

-- The log has an inclusion proof for each of its leaves: it carries the leaf's hash, and it verifies
-- against the log's root.
pub inclusion_proof-verify :
    (sha256 : Text → Text) (leaves : List Text) (leaf_index : ℕ) (leaf : Text)
    → get_elem? leaves leaf_index ≡ some leaf
    → (p : InclusionProof) × (inclusion_proof sha256 leaves leaf_index ≡ some p)
      × (p.leaf_hash ≡ leaf)
      × (verify_inclusion sha256 p (root sha256 leaves) ≡ true)
unfolding inclusion_proof
inclusion_proof-verify sha256 leaves leaf_index leaf found = rw found (
    proof_at-verifies sha256 leaves leaf_index leaf
      (find_range leaf_index 0 (peak_ranges (length leaves))) found
      (peak_ranges-Found (length leaves) leaf_index (get_elem?-lt leaves leaf_index leaf found)))
