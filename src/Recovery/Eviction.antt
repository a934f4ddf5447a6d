-- ===== src/Recovery/Eviction.antt =====
-- Eviction from the recovery store of crates/tokenzero-recovery/src/lib.rs, and the choice of the coldest
-- ref of frecency.rs. The comparison of two refs' frecency, an f64 score, and the length that a blob
-- marker names are parameters.
pub mod Victims
pub mod Budget
use tokenzero.Base.{
  ℕ, zero, suc, ◌+◌, ◌-◌, leb, ltb, ◌==◌, Bool, true, false, not, ◌&&◌, ◌||◌, Option, none, some,
  List, [], ◌∷◌, ◌++◌, map, filter, length, Text, text_eq, codes, if◌then◌else◌, sat_add, get_key,
  insert_key, remove_key, contains_key,
}
use tokenzero.Recovery.{
  RecoveryStore, StoredFile, StoredUnit, BlobEntry, inline, file_ref, RecoveryConfig, Map, Set,
  insert_member, RecoveryState, state_entry_present, forget_entry, seen_before, first_occurrences,
}
use tokenzero.Recovery.Store.{drop_ref, compact_order}

-- Inserts a victim into the set, and stops when the set has as many as are to go.
unfoldable pub take_victims : ℕ → List Text → List Text → List Text
take_victims excess victims [] = victims
take_victims excess victims (ref_id ∷ refs) =
    let chosen = if seen_before ref_id victims then victims else ref_id ∷ victims in
    let rest = take_victims excess chosen refs in if length chosen == excess then chosen else rest

unfoldable pub starts_with : Text → Text → Bool
starts_with [] s = true
starts_with (c ∷ prefix) [] = false
starts_with (c ∷ prefix) (d ∷ s) = c == d && starts_with prefix s

abbrev pub keys : {V : Type 0} → Map V → List Text
keys m = map (λ e. e.0) m

-- The victims of `evict_prefix`: the oldest in the order, then the first keys.
unfoldable pub prefix_victims : {V : Type 0} → Map V → List Text → Text → ℕ → List Text
unfolding take_victims starts_with
prefix_victims items order prefix excess =
    let oldest =
      take_victims excess []
        (filter (λ ref_id. starts_with prefix ref_id && contains_key ref_id items) order) in
    if ltb (length oldest) excess then take_victims excess oldest (keys items) else oldest

-- `items.retain(|ref_id, _| !victims.contains(ref_id))`
abbrev pub retain_items : {V : Type 0} → List Text → Map V → Map V
retain_items victims items = filter (λ e. not (seen_before (e.0) victims)) items

abbrev pub retain_order : List Text → List Text → List Text
retain_order victims order = filter (λ ref_id. not (seen_before ref_id victims)) order

-- The items and the order after `evict_prefix`.
unfoldable pub evict_prefix : {V : Type 0} → Map V → List Text → Text → ℕ → Map V × List Text
unfolding prefix_victims seen_before
evict_prefix items order prefix limit =
    let victims = prefix_victims items order prefix (length items - limit) in
    if length items - limit == 0
    then (items, order)
    else (retain_items victims items, retain_order victims order)

-- `recovery_maps!(evict self)`
abbrev pub evict_blobs : RecoveryConfig → RecoveryState → RecoveryState
evict_blobs config s =
    let kept = evict_prefix s.blobs s.order (codes "tz://blob/") config.max_blobs in
    record s { blobs = kept.0; order = kept.1 }

abbrev pub evict_files : RecoveryConfig → RecoveryState → RecoveryState
evict_files config s =
    let kept = evict_prefix s.files s.order (codes "tz://file/") config.max_files in
    record s { files = kept.0; order = kept.1 }

abbrev pub evict_units : RecoveryConfig → RecoveryState → RecoveryState
evict_units config s =
    let kept = evict_prefix s.units s.order (codes "tz://unit/") config.max_units in
    record s { units = kept.0; order = kept.1 }

abbrev pub evict_search_hits : RecoveryConfig → RecoveryState → RecoveryState
evict_search_hits config s =
    let kept = evict_prefix s.search_hits s.order (codes "tz://search/") config.max_search_hits in
    record s { search_hits = kept.0; order = kept.1 }

abbrev pub evict_kinds : RecoveryConfig → RecoveryState → RecoveryState
evict_kinds config s =
    evict_search_hits config (evict_units config (evict_files config (evict_blobs config s)))

abbrev pub entry_count : RecoveryState → ℕ
entry_count s = length s.blobs + length s.files + length s.units + length s.search_hits

-- `colder order a b` is `score_from_order(order, a) < score_from_order(order, b)`.
module _ (colder : List Text → Text → Text → Bool) where
  abbrev colder_of : List Text → Text → Option Text → Option Text
  colder_of order id none = some id
  colder_of order id (some best) = if colder order id best then some id else some best

  unfoldable pub coldest_loop : List Text → (Text → Bool) → Option Text → List Text → Option Text
  coldest_loop order is_live best [] = best
  coldest_loop order is_live best (id ∷ ids) =
      coldest_loop order is_live (if is_live id then colder_of order id best else best) ids

  unfoldable pub coldest : List Text → (Text → Bool) → Option Text
  unfolding coldest_loop
  coldest order is_live = coldest_loop order is_live none order

-- `std::mem::size_of::<BlobEntry>()` and `parse_blob_marker` are parameters.
module _ (size_of_entry : ℕ) (marker_len : Text → Option ℕ) where
  abbrev text_len : Text → Option ℕ → ℕ
  text_len text none = length text
  text_len text (some len) = len

  abbrev pub blob_value_len : BlobEntry → ℕ
  blob_value_len (inline text) = text_len text (marker_len text)
  blob_value_len (file_ref path _ _) = size_of_entry + length path

  unfoldable pub saturating_usize_sum : {V : Type 0} → (V → ℕ) → Map V → ℕ → ℕ
  saturating_usize_sum len [] acc = acc
  saturating_usize_sum len (e ∷ m) acc = saturating_usize_sum len m (sat_add acc (len (e.1)))

  abbrev path_len : Option Text → ℕ
  path_len none = 0
  path_len (some path) = length path

  unfoldable pub approx_bytes : RecoveryState → ℕ
  unfolding saturating_usize_sum
  approx_bytes s =
      sat_add
        (sat_add (saturating_usize_sum blob_value_len s.blobs 0)
          (saturating_usize_sum (λ v. sat_add (length v.text) (path_len v.path)) s.files 0))
        (saturating_usize_sum (λ v. length v.text) s.search_hits
          (saturating_usize_sum (λ v. length v.text) s.units 0))

  module _ (colder : List Text → Text → Text → Bool) where
    abbrev or_break : RecoveryStore → Option Text → (RecoveryStore → RecoveryStore) → RecoveryStore
    or_break store none go_on = store
    or_break store (some victim) go_on = go_on (drop_ref victim store)

    -- `while self.approx_bytes() > self.config.max_bytes`
    unfoldable pub evict_loop : ℕ → RecoveryStore → RecoveryStore
    unfolding coldest approx_bytes
    evict_loop zero store = store
    evict_loop (suc fuel) store =
        if leb (approx_bytes store.state) store.config.max_bytes
        then store
        else or_break store (coldest colder store.state.order (state_entry_present store.state))
            (evict_loop fuel)

    unfoldable pub evict_store : RecoveryStore → RecoveryStore
    unfolding evict_loop evict_prefix first_occurrences
    evict_store store =
        let capped = record store { state = evict_kinds store.config store.state } in
        compact_order (evict_loop (suc (entry_count capped.state)) capped)
