-- ===== src/Recovery/Transparency.antt =====
-- crates/tokenzero-recovery/src/transparency.rs: the log of acknowledged mutations, a Merkle mountain
-- range over the hashes of its events. SHA-256 is a parameter.
pub mod Slices
pub mod Heights
pub mod Inclusion
pub mod Binary
pub mod Mountain
pub mod Layout
pub mod Consistency
use mathlib.Core.List.{reverse, flatten}
use tokenzero.Base.{
  ℕ, zero, suc, ◌+◌, ◌-◌, ◌*◌, ◌/◌, ◌%◌, ◌^◌, ◌≡◌, Bool, true, false, not, ◌&&◌, ◌||◌,
  if◌then◌else◌, leb, ltb, ◌==◌, Option, none, some, List, [], ◌∷◌, ◌++◌, map, length, take, drop,
  get_elem?, set, Text, text_eq,
}

pub record ProofSibling : Type 0 where
  pub hash : Text
  pub is_left : Bool

pub record InclusionProof : Type 0 where
  pub size : ℕ
  pub leaf_index : ℕ
  pub leaf_hash : Text
  pub peak_index : ℕ
  pub siblings : List ProofSibling
  pub peaks : List Text

pub record ConsistencyProof : Type 0 where
  pub old_size : ℕ
  pub new_size : ℕ
  pub old_peaks : List Text
  pub appended_leaf_hashes : List Text

-- A digit of `b"0123456789abcdef"`, and a byte as two of them.
abbrev digit : ℕ → ℕ
digit n = if ltb n 10 then 48 + n else 87 + n

unfoldable pub hex : Text → Text
hex [] = []
hex (b ∷ bytes) = digit (b / 16) ∷ digit (b % 16) ∷ hex bytes

-- `usize::BITS - 1 - size.leading_zeros()`, the floor of the binary logarithm of a positive size.
unfoldable pub top_bit : ℕ → ℕ → ℕ
top_bit zero size = 0
top_bit (suc fuel) size = let rest = top_bit fuel (size / 2) in if ltb size 2 then 0 else suc rest

-- `while size > 0`
unfoldable pub heights_loop : ℕ → ℕ → List ℕ
unfolding top_bit
heights_loop zero size = []
heights_loop (suc fuel) size =
    let h = top_bit size size in
    let rest = heights_loop fuel (size - 2 ^ h) in if ltb 0 size then h ∷ rest else []

unfoldable pub peak_heights : ℕ → List ℕ
unfolding heights_loop
peak_heights size = heights_loop size size

unfoldable pub ranges_from : ℕ → List ℕ → List (ℕ × ℕ)
ranges_from start [] = []
ranges_from start (h ∷ heights) = (start, 2 ^ h) ∷ ranges_from (start + 2 ^ h) heights

unfoldable pub peak_ranges : ℕ → List (ℕ × ℕ)
unfolding ranges_from peak_heights
peak_ranges size = ranges_from 0 (peak_heights size)

-- `leaves[start..start + size]`
abbrev pub slice : List Text → ℕ × ℕ → List Text
slice leaves range = take (range.1) (drop (range.0) leaves)

-- `enumerate().find(..)`: the range that has the leaf, and its place.
unfoldable pub find_range : ℕ → ℕ → List (ℕ × ℕ) → Option (ℕ × (ℕ × ℕ))
find_range leaf_index at [] = none
find_range leaf_index at (range ∷ ranges) =
    let rest = find_range leaf_index (suc at) ranges in
    if leb (range.0) leaf_index && ltb leaf_index (range.0 + range.1)
    then some (at, range)
    else rest

unfoldable pub zip_heights : List ℕ → List Text → List (ℕ × Text)
zip_heights (h ∷ heights) (peak ∷ peaks) = (h, peak) ∷ zip_heights heights peaks
zip_heights _ _ = []

-- What `other` has after the leaves that the two logs begin with.
unfoldable pub after_common : List Text → List Text → List Text
after_common [] other = other
after_common (_ ∷ _) [] = []
after_common (a ∷ leaves) (b ∷ other) =
    let rest = after_common leaves other in if text_eq a b then rest else b ∷ other

unfoldable pub merge_concurrent : List Text → List Text → List Text
unfolding after_common
merge_concurrent leaves other = leaves ++ after_common leaves other

module _ (sha256 : Text → Text) where
  abbrev pub hash_tagged : ℕ → List Text → Text
  hash_tagged tag parts = hex (sha256 (tag ∷ flatten parts))

  abbrev pub hash_leaf : Text → Text
  hash_leaf event = hash_tagged 0 (event ∷ [])

  unfoldable pub hash_node : Text → Text → Text
  unfolding hex
  hash_node left right = hash_tagged 1 (left ∷ (right ∷ []))

  abbrev pub append_event : Text → List Text → List Text
  append_event event leaves = leaves ++ hash_leaf event ∷ []

  unfoldable pub bag_onto : Text → List Text → Text
  bag_onto acc [] = acc
  bag_onto acc (peak ∷ peaks) = bag_onto (hash_tagged 2 (acc ∷ (peak ∷ []))) peaks

  unfoldable pub bag : List Text → Text
  unfolding bag_onto hex
  bag [] = hash_tagged 3 []
  bag (peak ∷ peaks) = bag_onto peak peaks

  -- The hash over a range of leaves, halved at `len / 2`. No range is empty.
  unfoldable pub subtree_loop : ℕ → List Text → Text
  unfolding hash_node
  subtree_loop zero leaves = []
  subtree_loop (suc fuel) [] = []
  subtree_loop (suc fuel) (leaf ∷ []) = leaf
  subtree_loop (suc fuel) (a ∷ (b ∷ leaves)) =
      let all = a ∷ (b ∷ leaves) in
      let mid = length all / 2 in
      hash_node (subtree_loop fuel (take mid all)) (subtree_loop fuel (drop mid all))

  unfoldable pub subtree_root : List Text → Text
  unfolding subtree_loop
  subtree_root leaves = subtree_loop (length leaves) leaves

  abbrev right_of : List Text → Text × List ProofSibling → Text × List ProofSibling
  right_of leaves (node, out) =
      let root = subtree_root leaves in
      (hash_node node root, out ++ record { hash = root; is_left = false } ∷ [])

  abbrev left_of : List Text → Text × List ProofSibling → Text × List ProofSibling
  left_of leaves (node, out) =
      let root = subtree_root leaves in
      (hash_node root node, out ++ record { hash = root; is_left = true } ∷ [])

  -- The hash over the leaves, and the siblings on the way up from the leaf at the index.
  unfoldable pub inclusion_path : ℕ → List Text → ℕ → Text × List ProofSibling
  unfolding hash_node subtree_root
  inclusion_path zero leaves index = ([], [])
  inclusion_path (suc fuel) [] index = ([], [])
  inclusion_path (suc fuel) (leaf ∷ []) index = (leaf, [])
  inclusion_path (suc fuel) (a ∷ (b ∷ leaves)) index =
      let all = a ∷ (b ∷ leaves) in
      let mid = length all / 2 in
      let in_left = right_of (drop mid all) (inclusion_path fuel (take mid all) index) in
      let in_right = left_of (take mid all) (inclusion_path fuel (drop mid all) (index - mid)) in
      if ltb index mid then in_left else in_right

  unfoldable pub peaks : List Text → List Text
  unfolding subtree_root peak_ranges
  peaks leaves = map (λ range. subtree_root (slice leaves range)) (peak_ranges (length leaves))

  unfoldable pub root : List Text → Text
  unfolding bag peaks
  root leaves = bag (peaks leaves)

  abbrev pub proof_at : List Text → ℕ → Text → Option (ℕ × (ℕ × ℕ)) → Option InclusionProof
  proof_at leaves leaf_index leaf none = none
  proof_at leaves leaf_index leaf (some (peak_index, range)) = some (record {
    size = length leaves;
    leaf_index = leaf_index;
    leaf_hash = leaf;
    peak_index = peak_index;
    siblings = (inclusion_path (range.1) (slice leaves range) (leaf_index - range.0)).1;
    peaks = peaks leaves;
  })

  abbrev proof_of : List Text → ℕ → Option Text → Option InclusionProof
  proof_of leaves leaf_index none = none
  proof_of leaves leaf_index (some leaf) =
      proof_at leaves leaf_index leaf (find_range leaf_index 0 (peak_ranges (length leaves)))

  -- `none` for an index out of range.
  unfoldable pub inclusion_proof : List Text → ℕ → Option InclusionProof
  unfolding peaks inclusion_path find_range peak_ranges
  inclusion_proof leaves leaf_index = proof_of leaves leaf_index (get_elem? leaves leaf_index)

  unfoldable pub climb : Text → List ProofSibling → Text
  unfolding hash_node
  climb node [] = node
  climb node (sibling ∷ siblings) =
      climb (if sibling.is_left then hash_node sibling.hash node else hash_node node sibling.hash)
        siblings

  unfoldable pub verify_inclusion : InclusionProof → Text → Bool
  unfolding climb bag
  verify_inclusion p expected_root =
      not (p.size == 0 || leb p.size p.leaf_index || leb (length p.peaks) p.peak_index)
      && text_eq (bag (set p.peaks p.peak_index (climb p.leaf_hash p.siblings))) expected_root

  unfoldable pub consistency_proof : List Text → ℕ → Option ConsistencyProof
  unfolding peaks
  consistency_proof leaves old_size =
      if ltb (length leaves) old_size
      then none
      else some (record {
        old_size = old_size;
        new_size = length leaves;
        old_peaks = peaks (take old_size leaves);
        appended_leaf_hashes = drop old_size leaves;
      })

  -- `while peaks.last() ..`, on the peaks from the last to the first.
  unfoldable pub carry : ℕ → Text → List (ℕ × Text) → List (ℕ × Text)
  unfolding hash_node
  carry height node [] = (height, node) ∷ []
  carry height node ((h, left) ∷ peaks) =
      let merged = carry (height + 1) (hash_node left node) peaks in
      if h == height then merged else (height, node) ∷ (h, left) ∷ peaks

  -- `for leaf in &self.appended_leaf_hashes`
  unfoldable pub append_leaves : List Text → List (ℕ × Text) → List (ℕ × Text)
  unfolding carry
  append_leaves [] peaks = peaks
  append_leaves (leaf ∷ leaves) peaks = append_leaves leaves (carry 0 leaf peaks)

  unfoldable pub verify_consistency : ConsistencyProof → Text → Text → Bool
  unfolding bag peak_heights append_leaves zip_heights
  verify_consistency p old_root new_root =
      let heights = peak_heights p.old_size in
      let grown =
        append_leaves p.appended_leaf_hashes (reverse (zip_heights heights p.old_peaks)) in
      leb p.old_size p.new_size
      && (length p.appended_leaf_hashes == p.new_size - p.old_size
          && (text_eq (bag p.old_peaks) old_root
              && (length heights == length p.old_peaks
                  && text_eq (bag (map (λ peak. peak.1) (reverse grown))) new_root)))
