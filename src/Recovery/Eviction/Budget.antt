-- ===== src/Recovery/Eviction/Budget.antt =====
-- Eviction ends within the budget, or with nothing left that the order could evict.
use tokenzero.Base.{
  ℕ, zero, suc, ◌≤◌, ◌<◌, leb, leb→le, ◌≡◌, refl, ap, subst, arith, Bool, true, false, ◌&&◌,
  &&-true, codes, ◌⊎◌, inl, inr, Bool-cases, Option-cases, Option, none, some, List, [], ◌∷◌,
  filter, length, Text, All, get_key, remove_key, contains_key, IsMap, length-remove_key,
  remove_key-IsMap,
}
use tokenzero.Recovery.{
  RecoveryStore, RecoveryConfig, RecoveryState, Map, state_entry_present, forget_entry,
  first_occurrences,
}
use tokenzero.Recovery.Merge.Views.{AreMaps}
use tokenzero.Recovery.Store.{drop_ref}
use tokenzero.Recovery.Eviction.{
  coldest_loop, coldest, approx_bytes, evict_loop, entry_count, evict_kinds, evict_blobs,
  evict_files, evict_units, evict_store,
}
use tokenzero.Recovery.Eviction.Victims.{some-of-holds, evict_prefix-bounded}

module _ {V : Type 0} where
  -- Removing never adds, and removing what is there takes something away.
  length-remove_key-le : (k : Text) (m : Map V) → length (remove_key k m) ≤ length m
  unfolding remove_key
  length-remove_key-le k [] = omega arith
  length-remove_key-le k ((l, w) ∷ m) = ground (arith, length-remove_key-le k m)

  length-remove_key-lt :
      (k : Text) (m : Map V)
      → IsMap m
      → contains_key k m ≡ true
      → length (remove_key k m) < length m
  length-remove_key-lt k m is_map h =
      let found = some-of-holds (get_key k m) h in
      omega (arith, length-remove_key k (found.0) m is_map (found.1))

forget_entry-fewer :
    (ref_id : Text) (s : RecoveryState)
    → AreMaps s
    → state_entry_present s ref_id ≡ true
    → entry_count (forget_entry ref_id s) < entry_count s
unfolding AreMaps
forget_entry-fewer ref_id s maps present =
    let blobs = length-remove_key-le ref_id s.blobs in
    let files = length-remove_key-le ref_id s.files in
    let units = length-remove_key-le ref_id s.units in
    let hits = length-remove_key-le ref_id s.search_hits in
    elim (Bool-cases (contains_key ref_id s.blobs)) [
      | inl here ↦
          omega (arith, files, units, hits, length-remove_key-lt ref_id s.blobs (maps.0) here)
      | inr no_blob ↦ elim (Bool-cases (contains_key ref_id s.files)) [
        | inl here ↦
            omega (arith, blobs, units, hits, length-remove_key-lt ref_id s.files (maps.1) here)
        | inr no_file ↦ elim (Bool-cases (contains_key ref_id s.units)) [
          | inl here ↦
              omega (arith, blobs, files, hits, length-remove_key-lt ref_id s.units (maps.2) here)
          | inr no_unit ↦ omega (
            arith,
            blobs,
            files,
            units,
            length-remove_key-lt ref_id s.search_hits (maps.3)
                (ground (arith, present, no_blob, no_file, no_unit)),
          )
        ]
      ]
    ]

forget_entry-AreMaps :
    (ref_id : Text) (s : RecoveryState) → AreMaps s → AreMaps (forget_entry ref_id s)
unfolding AreMaps
forget_entry-AreMaps ref_id s maps = (
  remove_key-IsMap ref_id s.blobs (maps.0),
  remove_key-IsMap ref_id s.files (maps.1),
  remove_key-IsMap ref_id s.units (maps.2),
  remove_key-IsMap ref_id s.search_hits (maps.3),
)

-- No map has more than its configured number of entries.
abbrev pub WithinCaps : RecoveryConfig → RecoveryState → Type 0
WithinCaps config s =
    (length s.blobs ≤ config.max_blobs)
    × (length s.files ≤ config.max_files)
    × (length s.units ≤ config.max_units)
    × (length s.search_hits ≤ config.max_search_hits)

forget_entry-WithinCaps :
    (ref_id : Text) (config : RecoveryConfig) (s : RecoveryState)
    → WithinCaps config s
    → WithinCaps config (forget_entry ref_id s)
forget_entry-WithinCaps ref_id config s caps = (
  omega (arith, caps.0, length-remove_key-le ref_id s.blobs),
  omega (arith, caps.1, length-remove_key-le ref_id s.files),
  omega (arith, caps.2, length-remove_key-le ref_id s.units),
  omega (arith, caps.3, length-remove_key-le ref_id s.search_hits),
)

evict_kinds-WithinCaps :
    (config : RecoveryConfig) (s : RecoveryState)
    → AreMaps s
    → AreMaps (evict_kinds config s) × WithinCaps config (evict_kinds config s)
unfolding AreMaps
evict_kinds-WithinCaps config s maps =
    let blobs =
      evict_prefix-bounded s.blobs s.order (codes "tz://blob/") config.max_blobs (maps.0) in
    let s1 = evict_blobs config s in
    let files =
      evict_prefix-bounded s.files s1.order (codes "tz://file/") config.max_files (maps.1) in
    let s2 = evict_files config s1 in
    let units =
      evict_prefix-bounded s.units s2.order (codes "tz://unit/") config.max_units (maps.2) in
    let s3 = evict_units config s2 in
    let hits =
      evict_prefix-bounded s.search_hits s3.order (codes "tz://search/") config.max_search_hits
        (maps.3) in
    ((blobs.0, files.0, units.0, hits.0), (blobs.1, files.1, units.1, hits.1))

filter-none :
    (p : Text → Bool) (order : List Text) → All (λ r. p r ≡ false) order → filter p order ≡ []
filter-none p [] all = refl
filter-none p (r ∷ order) all = rw (all.0) (filter-none p order all.1)

module _ (colder : List Text → Text → Text → Bool) where
  -- What is chosen is live, if what was chosen before is.
  coldest_loop-live :
      (order : List Text) (is_live : Text → Bool) (best : Option Text) (ids : List Text) (id : Text)
      → ((b : Text) → best ≡ some b → is_live b ≡ true)
      → coldest_loop colder order is_live best ids ≡ some id
      → is_live id ≡ true
  unfolding coldest_loop
  coldest_loop-live order is_live best [] id live h = live id h
  coldest_loop-live order is_live none (x ∷ ids) id live h = elim (Bool-cases (is_live x)) [
    | inl alive ↦
        coldest_loop-live order is_live (some x) ids id
          (λ b e. subst (λ y. is_live y ≡ true) (ground (arith, e)) alive)
          (ground (arith, alive, h))
    | inr dead ↦ coldest_loop-live order is_live none ids id live (ground (arith, dead, h))
  ]
  coldest_loop-live order is_live (some best) (x ∷ ids) id live h =
      elim (Bool-cases (is_live x && colder order x best)) [
        | inl better ↦
            coldest_loop-live order is_live (some x) ids id
              (λ b e.
                subst (λ y. is_live y ≡ true) (ground (arith, e))
                  ((&&-true (is_live x) (colder order x best) better).0))
              (ground (arith, better, h))
        | inr other ↦
            coldest_loop-live order is_live (some best) ids id live (ground (arith, other, h))
      ]

  some-coldest :
      (order : List Text) (is_live : Text → Bool) (best : Text) (ids : List Text)
      → (id : Text) × (coldest_loop colder order is_live (some best) ids ≡ some id)
  unfolding coldest_loop
  some-coldest order is_live best [] = (best, refl)
  some-coldest order is_live best (x ∷ ids) = elim (Bool-cases (is_live x && colder order x best)) [
    | inl better ↦
        let rest = some-coldest order is_live x ids in (rest.0, ground (arith, better, rest.1))
    | inr other ↦
        let rest = some-coldest order is_live best ids in (rest.0, ground (arith, other, rest.1))
  ]

  -- Nothing is chosen only if nothing is live.
  coldest_loop-none :
      (order : List Text) (is_live : Text → Bool) (ids : List Text)
      → coldest_loop colder order is_live none ids ≡ none
      → All (λ r. is_live r ≡ false) ids
  unfolding coldest_loop
  coldest_loop-none order is_live [] h = tt
  coldest_loop-none order is_live (x ∷ ids) h = elim (Bool-cases (is_live x)) [
    | inl alive ↦
        let rest = some-coldest order is_live x ids in
        let step : coldest_loop colder order is_live (some x) ids ≡ none =
          ground (arith, alive, h) in
        absurd (cc (rest.1, step))
    | inr dead ↦ (dead, coldest_loop-none order is_live ids (ground (arith, dead, h)))
  ]

module _ (size_of_entry : ℕ) (marker_len : Text → Option ℕ)
    (colder : List Text → Text → Text → Bool) where
  -- Within the budget, or no ref of the order is live; within the caps either way.
  record Settled (config : RecoveryConfig) (store : RecoveryStore) : Type 0 where
    same_config : store.config ≡ config
    caps : WithinCaps config store.state
    settled :
        (approx_bytes size_of_entry marker_len store.state ≤ config.max_bytes)
        ⊎ All (λ r. state_entry_present store.state r ≡ false) store.state.order

  evict_loop-Settled :
      (fuel : ℕ) (config : RecoveryConfig) (store : RecoveryStore)
      → store.config ≡ config
      → AreMaps store.state
      → WithinCaps config store.state
      → entry_count store.state < fuel
      → Settled config (evict_loop size_of_entry marker_len colder fuel store)
  unfolding evict_loop coldest
  evict_loop-Settled zero config store same maps caps enough = absurd (omega (arith, enough))
  evict_loop-Settled (suc fuel) config store same maps caps enough =
      let live = state_entry_present store.state in
      elim (Bool-cases
        (leb (approx_bytes size_of_entry marker_len store.state) store.config.max_bytes)) [
          | inl fits ↦ rw fits (record {
            same_config = same;
            caps = caps;
            settled = inl (
                subst (λ c. approx_bytes size_of_entry marker_len store.state ≤ c.max_bytes) same
                  (leb→le (approx_bytes size_of_entry marker_len store.state) store.config.max_bytes
                    fits));
          })
          | inr over ↦ elim (Option-cases (coldest colder store.state.order live)) [
            | inl nothing ↦
                rw (over, nothing)
                  (record {
                    same_config = same;
                    caps = caps;
                    settled =
                        inr (
                          coldest_loop-none colder store.state.order live store.state.order
                            nothing);
                  })
            | inr victim ↦
                let alive : live (victim.0) ≡ true =
                  coldest_loop-live colder store.state.order live none store.state.order (victim.0)
                    (λ b e. absurd (cc)) (victim.1) in
                rw (over, victim.1)
                  (evict_loop-Settled fuel config (drop_ref (victim.0) store) same
                    (forget_entry-AreMaps (victim.0) store.state maps)
                    (forget_entry-WithinCaps (victim.0) config store.state caps)
                    (omega (arith, enough, forget_entry-fewer (victim.0) store.state maps alive)))
          ]
        ]

  compact-Settled :
      (config : RecoveryConfig) (store : RecoveryStore)
      → Settled config store
      → ((approx_bytes size_of_entry marker_len store.state ≤ config.max_bytes)
          ⊎ (first_occurrences [] (filter (state_entry_present store.state) store.state.order)
              ≡ []))
        × WithinCaps config store.state
  unfolding first_occurrences
  compact-Settled config store s = (
    elim (s.settled) [
      | inl fits ↦ inl fits
      | inr dead ↦ inr (
          ap (first_occurrences [])
            (filter-none (state_entry_present store.state) store.state.order dead))
    ],
    s.caps,
  )

  -- Eviction ends with each map within its configured number of entries, and with the store's bytes
  -- within the budget or an order that names nothing left to evict, for a state whose four maps have
  -- ascending keys.
  pub evict_store-bounded :
      (store : RecoveryStore)
      → AreMaps store.state
      → ((approx_bytes size_of_entry marker_len
              ((evict_store size_of_entry marker_len colder store).state)
            ≤ store.config.max_bytes)
          ⊎ ((evict_store size_of_entry marker_len colder store).state.order ≡ []))
        × WithinCaps store.config ((evict_store size_of_entry marker_len colder store).state)
  unfolding evict_store approx_bytes
  evict_store-bounded store maps =
      let capped = record store { state = evict_kinds store.config store.state } in
      let kinds = evict_kinds-WithinCaps store.config store.state maps in
      let fuel = suc (entry_count (evict_kinds store.config store.state)) in
      compact-Settled store.config (evict_loop size_of_entry marker_len colder fuel capped)
        (evict_loop-Settled fuel store.config capped refl (kinds.0) (kinds.1) (omega arith))
