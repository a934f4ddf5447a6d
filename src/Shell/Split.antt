-- ===== src/Shell/Split.antt =====
-- `split_command_string_for_platform` and the helpers that configure it for a platform.
use tokenzero.Base.{
  ℕ, Bool, true, false, not, ◌&&◌, ◌||◌, Option, none, some, List, [], ◌∷◌, ◌++◌, Text, codes,
  text_eq, ◌==◌, if◌then◌else◌, any,
}
use tokenzero.Shell.Chars.{
  is_whitespace, is_some, is_none, last_part, file_stem, to_ascii_lowercase,
}

abbrev pub backslash : ℕ
backslash = b'\\'

abbrev pub single_quote : ℕ
single_quote = b'\''

abbrev pub double_quote : ℕ
double_quote = b'"'

-- The new quote, and whether the character opened or closed a quoted region.
unfoldable pub toggle_quote : Option ℕ → ℕ → Bool → Option ℕ × Bool
toggle_quote quote ch single_quote_groups =
    if is_some quote ch
    then (none, true)
    else if is_none quote
        && ((ch == double_quote || ch == single_quote)
            && (not (ch == single_quote) || single_quote_groups))
    then (some ch, true)
    else (quote, false)

pub record SplitConfig : Type 0 where
  pub preserve_backslashes : Bool
  pub single_quote_groups : Bool
  pub doubled_quote_escape : Option ℕ

-- The variables of the loop.
pub record SplitState : Type 0 where
  pub out : List Text
  pub current : Text
  pub quote : Option ℕ
  pub escaped : Bool
  pub token_started : Bool

abbrev pub push : SplitState → ℕ → SplitState
push s ch = record s { current = s.current ++ ch ∷ []; token_started = true }

-- The characters that a backslash escapes inside double quotes.
abbrev pub escapable : Option ℕ → Bool
escapable none = false
escapable (some c) = c == b'$' || (c == b'`' || (c == double_quote || c == backslash))

-- The branch on whitespace outside quotes.
unfoldable pub end_token : SplitState → SplitState
end_token s =
    if s.token_started
    then record s { out = s.out ++ s.current ∷ []; current = []; token_started = false }
    else s

-- One round of the loop at `ch`, with the character that `peek` shows. The flag says that the
-- round consumed that character too.
unfoldable pub split_step : SplitConfig → SplitState → ℕ → Option ℕ → SplitState × Bool
unfolding toggle_quote end_token
split_step cfg s ch next =
    if s.escaped
    then (record s { current = s.current ++ ch ∷ []; escaped = false; token_started = true }, false)
    else if ch == backslash && (not (is_some s.quote single_quote) && not cfg.preserve_backslashes)
    then (if is_some s.quote double_quote && not (escapable next)
        then (push s backslash, false)
        else (record s { escaped = true; token_started = true }, false))
    else if is_some s.quote ch && (is_some cfg.doubled_quote_escape ch && is_some next ch)
    then (push s ch, true)
    else if (toggle_quote s.quote ch cfg.single_quote_groups).1
    then (
      record s {
        quote = (toggle_quote s.quote ch cfg.single_quote_groups).0;
        token_started = true;
      },
      false,
    )
    else if is_none s.quote && is_whitespace ch
    then (end_token s, false)
    else (push s ch, false)

-- What follows the loop.
unfoldable pub finish : SplitState → List Text
finish s =
    let current = if s.escaped then s.current ++ backslash ∷ [] else s.current in
    if s.token_started then s.out ++ current ∷ [] else s.out

unfoldable pub split_loop : SplitConfig → SplitState → Text → List Text
unfolding finish
split_loop cfg s [] = finish s
split_loop cfg s (ch ∷ []) = finish (split_step cfg s ch none).0
split_loop cfg s (ch ∷ next ∷ rest) =
    let (s', skip) = split_step cfg s ch (some next) in
    let skipped = split_loop cfg s' rest in
    let kept = split_loop cfg s' (next ∷ rest) in if skip then skipped else kept

-- `first_windows_cmd_word`: the loop over the characters, with the quote flag and the word so far.
first_word_loop : Bool → Text → Text → Text
first_word_loop quote word [] = word
first_word_loop quote word (ch ∷ s) =
    let flip = first_word_loop (not quote) word s in
    let more = first_word_loop quote (word ++ ch ∷ []) s in
    if ch == double_quote then flip else if not quote && is_whitespace ch then word else more

first_windows_cmd_word : Text → Option Text
unfolding first_word_loop is_whitespace
first_windows_cmd_word value = elim (first_word_loop false [] value) [
  | [] ↦ none
  | c ∷ word ↦ some (c ∷ word)
]

windows_shell_host_stem : Text → Text
unfolding last_part file_stem to_ascii_lowercase
windows_shell_host_stem value =
    let leaf = last_part (codes "\\/") [] value in
    to_ascii_lowercase (elim (file_stem leaf) [ none ↦ leaf | some stem ↦ stem ])

unfoldable pub is_powershell_shell_host : Text → Bool
unfolding windows_shell_host_stem text_eq
is_powershell_shell_host value =
    let stem = windows_shell_host_stem value in
    text_eq stem (codes "powershell") || text_eq stem (codes "pwsh")

unfoldable pub is_windows_shell_host : Text → Bool
unfolding is_powershell_shell_host windows_shell_host_stem
is_windows_shell_host value =
    is_powershell_shell_host value || text_eq (windows_shell_host_stem value) (codes "cmd")

-- `first_windows_cmd_word(command).as_deref().is_some_and(is_powershell_shell_host)`
starts_powershell : Text → Bool
unfolding first_windows_cmd_word is_powershell_shell_host
starts_powershell command = elim (first_windows_cmd_word command) [
  | none ↦ false
  | some word ↦ is_powershell_shell_host word
]

unfoldable pub single_quote_groups_for_platform : Text → Text → Bool
unfolding starts_powershell
single_quote_groups_for_platform value platform =
    if text_eq platform (codes "cmd")
    then false
    else if text_eq platform (codes "windows")
    then starts_powershell value
    else true

unfoldable pub doubled_quote_escape_for_platform : Text → Text → Option ℕ
unfolding starts_powershell
doubled_quote_escape_for_platform command platform =
    if text_eq platform (codes "cmd")
    then some double_quote
    else if text_eq platform (codes "powershell") || text_eq platform (codes "pwsh")
    then some single_quote
    else if text_eq platform (codes "windows")
    then (if starts_powershell command then some single_quote else some double_quote)
    else none

abbrev pub platform_is : Text → List Text → Bool
platform_is platform names = any (text_eq platform) names

-- The three configuration values that the splitter computes before its loop.
unfoldable pub config_for : Text → Text → SplitConfig
unfolding single_quote_groups_for_platform doubled_quote_escape_for_platform text_eq
config_for command platform = record {
  preserve_backslashes =
      platform_is platform (codes "windows" ∷ codes "cmd" ∷ codes "powershell" ∷ codes "pwsh" ∷ []);
  single_quote_groups = single_quote_groups_for_platform command platform;
  doubled_quote_escape = doubled_quote_escape_for_platform command platform;
}

abbrev pub start : SplitState
start = record { out = []; current = []; quote = none; escaped = false; token_started = false }

unfoldable pub split_command_string_for_platform : Text → Text → List Text
unfolding config_for
split_command_string_for_platform command platform =
    split_loop (config_for command platform) start command
