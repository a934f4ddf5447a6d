-- ===== src/Shell/Tests.antt =====
-- Quoting and splitting at small inputs, and the theorems at them.
use tokenzero.Base.{◌≡◌, refl, List, [], ◌∷◌, Text, codes, map}
use tokenzero.Shell.Chars.{is_ascii_alphanumeric, is_whitespace}
use tokenzero.Shell.Split.{split_command_string_for_platform, split_loop, split_step}
use tokenzero.Shell.Quote.{quote_for, is_unquoted_safe, replace_single}
use tokenzero.Shell.RoundTrip.Posix.{split-quote_for_posix}
use tokenzero.Shell.RoundTrip.Powershell.{split-quote_for_powershell}
use tokenzero.Shell.RoundTrip.Cmd.{split-quote_for_cmd, doubled_all}

abbrev args : List Text
args = codes "a b" ∷ codes "it's" ∷ [] ∷ codes "50%" ∷ []

abbrev posix : Text
posix = codes "posix"

abbrev powershell : Text
powershell = codes "powershell"

abbrev cmd : Text
cmd = codes "cmd"

quoted_posix : quote_for posix args ≡ codes "'a b' 'it'\"'\"'s' '' 50%"
unfolding quote_for is_unquoted_safe replace_single is_ascii_alphanumeric
quoted_posix = refl

escaped_words :
    split_command_string_for_platform (codes "a\\ b  \"c \\q\\\"\" d\\") posix
    ≡ codes "a b" ∷ codes "c \\q\"" ∷ codes "d\\" ∷ []
unfolding split_command_string_for_platform split_loop split_step is_whitespace
escaped_words = refl

windows_words :
    split_command_string_for_platform (codes "PwSh.exe 'c d' e\\f") (codes "windows")
    ≡ codes "PwSh.exe" ∷ codes "c d" ∷ codes "e\\f" ∷ []
unfolding split_command_string_for_platform split_loop split_step is_whitespace
windows_words = refl

split-quote_for_posix_example :
    split_command_string_for_platform (quote_for posix args) posix ≡ args
split-quote_for_posix_example = split-quote_for_posix args

split-quote_for_powershell_example :
    split_command_string_for_platform (quote_for powershell args) powershell ≡ args
split-quote_for_powershell_example = split-quote_for_powershell args

split-quote_for_cmd_example :
    split_command_string_for_platform (quote_for cmd args) cmd ≡ map doubled_all args
split-quote_for_cmd_example = split-quote_for_cmd args
