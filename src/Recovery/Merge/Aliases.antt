-- ===== src/Recovery/Merge/Aliases.antt =====
-- What merging does to aliases: the first target stays, and a second one makes the alias ambiguous.
use tokenzero.Base.{
  ◌≡◌, arith, Bool, false, not, ◌&&◌, ◌||◌, Option, none, some, [], ◌∷◌, Text, text_eq, text_eq→≡,
  if◌then◌else◌, Option-cases, inl, inr, get_key, holds_entry, contains_key, get_key-insert_key,
  IsMap, get_key-below,
}
use tokenzero.Recovery.{Map, Set, insert_member}
use tokenzero.Recovery.Merge.{merge_alias, merge_aliases, extend_set}

unfoldable pub first_of : Option Text → Option Text → Option Text
first_of none current = current
first_of (some existing) current = some existing

-- Two different targets.
unfoldable pub conflicts : Option Text → Option Text → Bool
conflicts (some existing) (some target) = not (text_eq existing target)
conflicts _ _ = false

get_key-merge_alias :
    (alias target key : Text) (merged : Map Text × Set)
    → get_key key ((merge_alias alias target merged (get_key alias (merged.0))).0) ≡ (
        if text_eq key alias
        then first_of (get_key alias (merged.0)) (some target)
        else get_key key (merged.0))
unfolding first_of
get_key-merge_alias alias target key (aliases, ambiguous) =
    elim (Option-cases (get_key alias aliases)) [
      | inl missing ↦ ground (arith, missing, get_key-insert_key key alias target aliases)
      | inr found ↦ ground (
        arith,
        found.1,
        get_key-insert_key key alias target aliases,
        text_eq→≡ (found.0) target,
        text_eq→≡ key alias,
      )
    ]

marks-merge_alias :
    (alias target key : Text) (merged : Map Text × Set)
    → contains_key key ((merge_alias alias target merged (get_key alias (merged.0))).1) ≡ (
        contains_key key (merged.1)
        || (text_eq key alias && conflicts (get_key alias (merged.0)) (some target)))
unfolding conflicts holds_entry
marks-merge_alias alias target key (aliases, ambiguous) =
    elim (Option-cases (get_key alias aliases)) [
      | inl missing ↦ ground (arith, missing)
      | inr found ↦ ground (arith, found.1, get_key-insert_key key alias tt ambiguous)
    ]

pub get_key-merge_aliases :
    (current : Map Text) (merged : Map Text × Set) (key : Text)
    → get_key key ((merge_aliases current merged).0)
      ≡ first_of (get_key key (merged.0)) (get_key key current)
unfolding merge_aliases first_of get_key
get_key-merge_aliases [] merged key = ground arith
get_key-merge_aliases ((alias, target) ∷ current) merged key =
    let next = merge_alias alias target merged (get_key alias (merged.0)) in
    ground (
      arith,
      get_key-merge_aliases current next key,
      get_key-merge_alias alias target key merged,
      text_eq→≡ key alias,
    )

pub marks-merge_aliases :
    (current : Map Text) (merged : Map Text × Set) (key : Text)
    → IsMap current
    → contains_key key ((merge_aliases current merged).1)
      ≡ (contains_key key (merged.1) || conflicts (get_key key (merged.0)) (get_key key current))
unfolding merge_aliases conflicts get_key IsMap
marks-merge_aliases [] merged key is_map = ground arith
marks-merge_aliases ((alias, target) ∷ current) merged key is_map =
    let next = merge_alias alias target merged (get_key alias (merged.0)) in
    ground (
      arith,
      marks-merge_aliases current next key is_map.1,
      get_key-merge_alias alias target key merged,
      marks-merge_alias alias target key merged,
      text_eq→≡ key alias,
      get_key-below alias current is_map.0,
    )

pub marks-extend_set :
    (more set : Set) (key : Text)
    → contains_key key (extend_set more set) ≡ (contains_key key set || contains_key key more)
unfolding extend_set get_key holds_entry
marks-extend_set [] set key = ground arith
marks-extend_set ((k, u) ∷ more) set key =
    ground (arith, marks-extend_set more (insert_member k set) key, get_key-insert_key key k tt set)
