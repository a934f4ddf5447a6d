-- ===== src/Recovery/Merge/Lookup.antt =====
-- What a merged state answers for a ref, and for an alias.
use tokenzero.Base.{
  ◌≡◌, arith, Bool, ◌&&◌, ◌||◌, List, [], ◌∷◌, Text, text_eq, text_eq→≡, if◌then◌else◌, Bool-cases,
  inl, inr, get_key, insert_key, holds_entry, contains_key, get_key-insert_key, IsMap,
  get_key-below, insert_key-IsMap, Option-cases,
}
use tokenzero.Recovery.{Map, seen_before}
use tokenzero.Recovery.Merge.{merge_map_entries, copy_map_entry, copy_refs}

module _ {V : Type 0} where
  abbrev pub admits : List Text → Text → Map V → Bool
  admits session key dst = seen_before key session || contains_key key dst

  -- The entries of a session, and those that are already there, are taken over; no other is.
  pub get_key-merge_map_entries :
      (session : List Text) (dst src : Map V) (key : Text)
      → IsMap src
      → get_key key (merge_map_entries session dst src) ≡ (
          if admits session key dst && contains_key key src
          then get_key key src
          else get_key key dst)
  unfolding merge_map_entries get_key holds_entry IsMap
  get_key-merge_map_entries session dst [] key is_map = ground arith
  get_key-merge_map_entries session dst ((k, v) ∷ src) key is_map =
      let step = if admits session k dst then insert_key k v dst else dst in
      let rest = get_key-merge_map_entries session step src key is_map.1 in
      ground
        (arith, rest, get_key-insert_key key k v dst, get_key-below k src is_map.0, text_eq→≡ key k)

  pub merge_map_entries-IsMap :
      (session : List Text) (dst src : Map V)
      → IsMap dst
      → IsMap (merge_map_entries session dst src)
  unfolding merge_map_entries
  merge_map_entries-IsMap session dst [] is_map = is_map
  merge_map_entries-IsMap session dst ((k, v) ∷ src) is_map =
      elim (Bool-cases (admits session k dst)) [
        | inl admitted ↦
            merge_map_entries-IsMap session
              (if admits session k dst then insert_key k v dst else dst) src
              (rw admitted (insert_key-IsMap k v dst is_map))
        | inr refused ↦
            merge_map_entries-IsMap session
              (if admits session k dst then insert_key k v dst else dst) src (rw refused is_map)
      ]

  get_key-copy_map_entry :
      (destination source : Map V) (ref_id key : Text)
      → get_key key (copy_map_entry destination source ref_id) ≡ (
          if text_eq key ref_id && contains_key key source
          then get_key key source
          else get_key key destination)
  unfolding holds_entry
  get_key-copy_map_entry destination source ref_id key =
      elim (Option-cases (get_key ref_id source)) [
        | inl missing ↦ ground (arith, missing, text_eq→≡ key ref_id)
        | inr found ↦ ground (
          arith,
          found.1,
          text_eq→≡ key ref_id,
          get_key-insert_key key ref_id (found.0) destination,
        )
      ]

  pub get_key-copy_refs :
      (refs : List Text) (source destination : Map V) (key : Text)
      → get_key key (copy_refs refs source destination) ≡ (
          if seen_before key refs && contains_key key source
          then get_key key source
          else get_key key destination)
  unfolding copy_refs seen_before holds_entry
  get_key-copy_refs [] source destination key = ground arith
  get_key-copy_refs (ref_id ∷ refs) source destination key = ground (
    arith,
    get_key-copy_map_entry destination source ref_id key,
    get_key-copy_refs refs source (copy_map_entry destination source ref_id) key,
  )

  copy_map_entry-IsMap :
      (destination source : Map V) (ref_id : Text)
      → IsMap destination
      → IsMap (copy_map_entry destination source ref_id)
  copy_map_entry-IsMap destination source ref_id is_map =
      elim (Option-cases (get_key ref_id source)) [
        | inl missing ↦ rw missing is_map
        | inr found ↦ rw (found.1) (insert_key-IsMap ref_id (found.0) destination is_map)
      ]

  pub copy_refs-IsMap :
      (refs : List Text) (source destination : Map V)
      → IsMap destination
      → IsMap (copy_refs refs source destination)
  unfolding copy_refs
  copy_refs-IsMap [] source destination is_map = is_map
  copy_refs-IsMap (ref_id ∷ refs) source destination is_map =
      copy_refs-IsMap refs source (copy_map_entry destination source ref_id)
        (copy_map_entry-IsMap destination source ref_id is_map)
