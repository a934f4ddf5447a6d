-- ===== src/Recovery/Refs.antt =====
-- Refs of the recovery store of crates/tokenzero-recovery/src/lib.rs: how they are parsed, and the
-- class of content that they name.
use tokenzero.Base.{
  ℕ, leb, ◌==◌, Bool, false, not, ◌&&◌, ◌||◌, Option, none, some, List, [], ◌∷◌, Text, text_eq,
  codes, split_once, all, any, take, if◌then◌else◌,
}
use tokenzero.Recovery.Transparency.{hex}

pub data ContentType : Type 0 where
  code shell_output search_result tree diff json_config markdown logs unknown_type : ContentType

pub data ContentClass : Type 0 where
  source_file diff_class shell_class search_hits_class doc binary_preview unknown_class :
      ContentClass

pub record ParsedRef : Type 0 where
  pub kind : Text
  pub bare : Text
  pub fragment : Option Text

-- `strip_prefix`
unfoldable pub strip_prefix : Text → Text → Option Text
strip_prefix [] s = some s
strip_prefix (c ∷ prefix) [] = none
strip_prefix (c ∷ prefix) (d ∷ s) =
    let rest = strip_prefix prefix s in if c == d then rest else none

-- `split(ch)`: the part before the first, and the parts after each.
unfoldable pub split_parts : ℕ → Text → Text × List Text
split_parts ch [] = ([], [])
split_parts ch (c ∷ s) =
    let rest = split_parts ch s in if c == ch then ([], rest.0 ∷ rest.1) else (c ∷ rest.0, rest.1)

abbrev one_of : List Text → Text → Bool
one_of words s = any (text_eq s) words

abbrev ref_kinds : List Text
ref_kinds =
    codes "blob" ∷ codes "file" ∷ codes "unit" ∷ codes "search" ∷ codes "codemode" ∷ codes "s" ∷ []

abbrev codemode_parts : List Text
codemode_parts =
    codes "code" ∷ codes "steps" ∷ codes "telemetry" ∷ codes "result" ∷ codes "error" ∷ []

-- `execution/<id>/<part>`, and nothing after it.
abbrev codemode_ok : Text × List Text → Bool
codemode_ok (first, _ ∷ part ∷ []) = text_eq first (codes "execution") && one_of codemode_parts part
codemode_ok _ = false

abbrev is_hexdigit : ℕ → Bool
is_hexdigit b = (leb 48 b && leb b 57) || ((leb 97 b && leb b 102) || (leb 65 b && leb b 70))

abbrev ref_id_ok : Text → Text → Bool
ref_id_ok kind [] = false
ref_id_ok kind (c ∷ id) =
    one_of ref_kinds kind
    && ((not (text_eq kind (codes "codemode")) || codemode_ok (split_parts 47 (c ∷ id)))
        && (not (text_eq kind (codes "s")) || all is_hexdigit (c ∷ id)))

abbrev parsed_kind : Text → Option Text → Option (Text × Text) → Option ParsedRef
parsed_kind bare fragment none = none
parsed_kind bare fragment (some (kind, id)) =
    if ref_id_ok kind id
    then some (record { kind = kind; bare = bare; fragment = fragment })
    else none

abbrev parsed_rest : Text → Option Text → Option Text → Option ParsedRef
parsed_rest bare fragment none = none
parsed_rest bare fragment (some rest) = parsed_kind bare fragment (split_once 47 rest)

abbrev parsed_bare : Text → Option Text → Option ParsedRef
parsed_bare bare fragment = parsed_rest bare fragment (strip_prefix (codes "tz://") bare)

-- `split_once('#').map_or((ref_id, None), ..)`
abbrev pub fragment_parts : Text → Option (Text × Text) → Text × Option Text
fragment_parts ref_id none = (ref_id, none)
fragment_parts ref_id (some (bare, fragment)) = (bare, some fragment)

abbrev pub split_ref_fragment : Text → Text × Option Text
split_ref_fragment ref_id = fragment_parts ref_id (split_once 35 ref_id)

unfoldable pub parse_ref : Text → Option ParsedRef
unfolding split_once strip_prefix split_parts
parse_ref ref_id = let parts = split_ref_fragment ref_id in parsed_bare (parts.0) (parts.1)

abbrev unit_class : Option ContentType → ContentClass
unit_class (some diff) = diff_class
unit_class (some shell_output) = shell_class
unit_class _ = unknown_class

abbrev blob_class : Option ContentType → ContentClass
blob_class (some code) = source_file
blob_class (some diff) = diff_class
blob_class (some shell_output) = shell_class
blob_class (some markdown) = doc
blob_class (some logs) = doc
blob_class (some tree) = doc
blob_class (some json_config) = doc
blob_class (some search_result) = search_hits_class
blob_class _ = binary_preview

abbrev ref_class_of : Option ContentType → Option ParsedRef → ContentClass
ref_class_of content_type none = unknown_class
ref_class_of content_type (some parsed) =
    if text_eq parsed.kind (codes "file")
    then source_file
    else if text_eq parsed.kind (codes "search")
    then search_hits_class
    else if text_eq parsed.kind (codes "unit")
    then unit_class content_type
    else if text_eq parsed.kind (codes "blob")
    then blob_class content_type
    else unknown_class

unfoldable pub classify_ref : Text → Option ContentType → ContentClass
unfolding parse_ref
classify_ref ref_id content_type = ref_class_of content_type (parse_ref ref_id)

-- `ContentType::as_str`
unfoldable pub content_type_str : ContentType → Text
content_type_str code = codes "code"
content_type_str shell_output = codes "shell_output"
content_type_str search_result = codes "search_result"
content_type_str tree = codes "tree"
content_type_str diff = codes "diff"
content_type_str json_config = codes "json_config"
content_type_str markdown = codes "markdown"
content_type_str logs = codes "logs"
content_type_str unknown_type = codes "unknown"

-- `id_for` of crates/tokenzero-core/src/lib.rs, over SHA-256.
unfoldable pub id_for : (Text → Text) → ℕ → Text → Text
unfolding hex
id_for sha256 prefix text = prefix ∷ hex (take 8 (sha256 text))
