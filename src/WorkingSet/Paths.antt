-- ===== src/WorkingSet/Paths.antt =====
-- Equality of `PathBuf`s, on Unix: it compares the components, not the bytes.
use tokenzero.Base.{
  ℕ, Bool, not, ◌||◌, List, [], ◌∷◌, Text, codes, text_eq, ◌==◌, if◌then◌else◌, filter,
}
use tokenzero.WorkingSet.Delta.{lines_eq}

abbrev slash : ℕ
slash = 47

-- The parts between slashes; there is always one.
split_slashes : Text → List Text
split_slashes [] = [] ∷ []
split_slashes (c ∷ s) =
    let rest = split_slashes s in
    if c == slash
    then [] ∷ rest
    else elim rest [ [] ↦ (c ∷ []) ∷ [] | part ∷ parts ↦ (c ∷ part) ∷ parts ]

abbrev is_normal : Text → Bool
is_normal part = not (text_eq part [] || text_eq part (codes "."))

-- Empty parts and dots go, but for the root and for a dot in front.
unfoldable pub components : Text → List Text
unfolding split_slashes text_eq
components path = elim (split_slashes path) [
  | [] ↦ []
  | part ∷ parts ↦
      let rest = filter is_normal parts in
      if text_eq part [] then leading path rest else part ∷ rest
]
  where
    leading : Text → List Text → List Text
    leading [] rest = rest
    leading (_ ∷ _) rest = codes "/" ∷ rest

unfoldable pub path_eq : Text → Text → Bool
unfolding components lines_eq
path_eq a b = lines_eq (components a) (components b)
