-- ===== src/Shell/Chars.antt =====
-- Character classes and small string functions of Rust's standard library, as shell_quote.rs uses
-- them, and its `is_one_of`.
use mathlib.Core.List.{reverse}
use tokenzero.Base.{
  ℕ, ◌+◌, Bool, true, false, ◌&&◌, ◌||◌, Option, none, some, [], ◌∷◌, ◌++◌, Text, map, codes,
  text_eq, split_once, leb, ◌==◌, if◌then◌else◌, any,
}

abbrev pub in_range : ℕ → ℕ → ℕ → Bool
in_range lo hi c = leb lo c && leb c hi

-- `char::is_whitespace`: the characters of Unicode's property White_Space.
unfoldable pub is_whitespace : ℕ → Bool
is_whitespace c =
    in_range 9 13 c
    || (c == 32
        || (c == 0x85
            || (c == 0xa0
                || (c == 0x1680
                    || (in_range 0x2000 0x200a c
                        || (c == 0x2028
                            || (c == 0x2029 || (c == 0x202f || (c == 0x205f || c == 0x3000)))))))))

unfoldable pub is_ascii_alphabetic : ℕ → Bool
is_ascii_alphabetic c = in_range b'a' b'z' c || in_range b'A' b'Z' c

unfoldable pub is_ascii_alphanumeric : ℕ → Bool
unfolding is_ascii_alphabetic
is_ascii_alphanumeric c = is_ascii_alphabetic c || in_range b'0' b'9' c

unfoldable pub to_ascii_lowercase : Text → Text
to_ascii_lowercase = map (λ c. if in_range b'A' b'Z' c then c + 32 else c)

-- `extra.contains(c)`
abbrev pub contains : Text → ℕ → Bool
contains s c = any (λ d. c == d) s

-- `Some(ch) == quote`
abbrev pub is_some : Option ℕ → ℕ → Bool
is_some none ch = false
is_some (some q) ch = ch == q

abbrev pub is_none : Option ℕ → Bool
is_none none = true
is_none (some _) = false

abbrev pub head? : Text → Option ℕ
head? [] = none
head? (c ∷ s) = some c

-- `value.rsplit(seps).next()`: what stands behind the last separator.
unfoldable pub last_part : Text → Text → Text → Text
last_part seps current [] = current
last_part seps current (c ∷ s) =
    last_part seps (if contains seps c then [] else current ++ c ∷ []) s

-- The part before the last dot, and whether there is a dot.
unfoldable pub before_last_dot : Text → Option Text
before_last_dot s = elim (split_once b'.' (reverse s)) [
  | none ↦ none
  | some (_, b) ↦ some (reverse b)
]

-- `Path::new(leaf).file_stem()` of a single component.
unfoldable pub file_stem : Text → Option Text
unfolding before_last_dot split_once
file_stem leaf =
    if text_eq leaf [] || (text_eq leaf (codes ".") || text_eq leaf (codes ".."))
    then none
    else elim (before_last_dot leaf) [
      | none ↦ some leaf
      | some [] ↦ some leaf
      | some (c ∷ stem) ↦ some (c ∷ stem)
    ]
