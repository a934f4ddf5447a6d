-- ===== src/Shell/Quote.antt =====
-- `quote_posix`, `quote_windows_cmd`, `quote_powershell` and `quote_for`.
use mathlib.Core.List.{flat_map}
use tokenzero.Base.{
  ℕ, Bool, not, ◌&&◌, ◌||◌, List, [], ◌∷◌, ◌++◌, Text, map, codes, text_eq, ◌==◌, if◌then◌else◌,
  all,
}
use tokenzero.Shell.Chars.{is_ascii_alphanumeric, contains}
use tokenzero.Shell.Split.{single_quote, double_quote, platform_is}

-- The value is not empty, and holds only alphanumeric characters and those listed.
unfoldable pub is_unquoted_safe : Text → Text → Bool
is_unquoted_safe value extra =
    not (text_eq value []) && all (λ c. is_ascii_alphanumeric c || contains extra c) value

-- `value.replace('\'', with)`
unfoldable pub replace_single : Text → Text → Text
replace_single by [] = []
replace_single by (c ∷ s) = (if c == single_quote then by else c ∷ []) ++ replace_single by s

abbrev pub posix_safe : Text
posix_safe = codes "-_./:@%+="

abbrev pub cmd_safe : Text
cmd_safe = codes "-_./:\\@+="

-- A single quote inside single quotes: close, quote it by double quotes, and open again.
abbrev pub posix_escape : Text
posix_escape = codes "'\"'\"'"

unfoldable pub quote_posix : Text → Text
quote_posix value =
    if text_eq value []
    then codes "''"
    else if is_unquoted_safe value posix_safe
    then value
    else single_quote ∷ (replace_single posix_escape value ++ single_quote ∷ [])

-- What the loop of `quote_windows_cmd` pushes for one character.
unfoldable pub cmd_char : ℕ → Text
cmd_char ch =
    if ch == double_quote
    then codes "\"\""
    else if ch == b'%'
    then codes "%%"
    else if ch == b'^'
    then codes "^^"
    else ch ∷ []

unfoldable pub quote_windows_cmd : Text → Text
quote_windows_cmd value =
    if text_eq value []
    then codes "\"\""
    else if is_unquoted_safe value cmd_safe
    then value
    else double_quote ∷ (flat_map cmd_char value ++ double_quote ∷ [])

unfoldable pub quote_powershell : Text → Text
quote_powershell value = single_quote ∷ (replace_single (codes "''") value ++ single_quote ∷ [])

unfoldable pub quote_arg : Text → Text → Text
unfolding quote_posix quote_windows_cmd quote_powershell text_eq
quote_arg platform arg =
    if platform_is platform (codes "windows" ∷ codes "cmd" ∷ [])
    then quote_windows_cmd arg
    else if platform_is platform (codes "powershell" ∷ codes "pwsh" ∷ [])
    then quote_powershell arg
    else quote_posix arg

-- `join(" ")`
unfoldable pub join_spaces : List Text → Text
join_spaces [] = []
join_spaces (w ∷ []) = w
join_spaces (w ∷ v ∷ ws) = w ++ (b' ' ∷ join_spaces (v ∷ ws))

unfoldable pub quote_for : Text → List Text → Text
unfolding quote_arg join_spaces
quote_for platform args = join_spaces (map (quote_arg platform) args)
