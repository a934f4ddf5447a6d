-- ===== src/Shell/RoundTrip/Cmd.antt =====
-- cmd.exe: the splitter reads back what `quote_for` wrote, but for the characters that quoting
-- doubles and splitting does not halve.
use mathlib.Core.List.{flat_map}
use tokenzero.Base.{
  ℕ, true, false, ◌≡◌, refl, sym, ap, ◌∙◌, inl, inr, some, List, [], ◌∷◌, ◌++◌, append_assoc,
  append-nil, Text, codes, text_eq, text_eq→≡, arith, All, Bool-cases, ◌==◌, if◌then◌else◌, ◌||◌,
  map, all, &&-true,
}
use tokenzero.Shell.Chars.{is_ascii_alphanumeric, contains}
use tokenzero.Shell.Split.{SplitConfig, split_loop, double_quote, split_command_string_for_platform}
use tokenzero.Shell.Quote.{is_unquoted_safe, cmd_safe, cmd_char, quote_windows_cmd, quote_for}
use tokenzero.Shell.RoundTrip.Words.{between, behind, Follows, ReadsAs, split_loop-join, plain_word}
use tokenzero.Shell.RoundTrip.Regions.{
  within, Opens, open_read, close_read, literal_read, doubled_read, Follows-no_quote,
}
use tokenzero.Shell.RoundTrip.Safe.{IsPlain-cmd, filled, safe_chars}

abbrev cmd : SplitConfig
cmd = record {
  preserve_backslashes = true;
  single_quote_groups = false;
  doubled_quote_escape = some double_quote;
}

-- What the splitter returns for a character: `%` and `^` stay doubled.
abbrev pub doubled : ℕ → Text
doubled c = if c == b'%' || c == b'^' then c ∷ c ∷ [] else c ∷ []

abbrev pub doubled_all : Text → Text
doubled_all [] = []
doubled_all (c ∷ v) = doubled c ++ doubled_all v

abbrev opens : Opens cmd double_quote
opens = inl refl

cmd_char_quote :
    (c : ℕ) → (c == double_quote) ≡ true → cmd_char c ≡ double_quote ∷ double_quote ∷ []
unfolding cmd_char
cmd_char_quote c e = rw e

quote_doubled : (c : ℕ) → (c == double_quote) ≡ true → double_quote ∷ [] ≡ doubled c
quote_doubled c e = ground arith

cmd_char_other : (c : ℕ) → (c == double_quote) ≡ false → cmd_char c ≡ doubled c
unfolding cmd_char
cmd_char_other c e = ground arith

-- Inside quotes the characters of `doubled c` are taken as they stand.
doubled_chars_read :
    (out : List Text) (c : ℕ) (word rest : Text)
    → (c == double_quote) ≡ false
    → split_loop cmd (within double_quote out word) (doubled c ++ rest)
      ≡ split_loop cmd (within double_quote out (word ++ doubled c)) rest
doubled_chars_read out c word rest e =
    let one = λ (w r : Text).
      literal_read cmd double_quote opens out w c r (ground arith) (inr (inl refl)) in
    elim (Bool-cases (c == b'%' || c == b'^')) [
      | inl twice ↦ rw twice (
          one word (c ∷ rest)
          ∙ one (word ++ c ∷ []) rest
          ∙ ap (λ w. split_loop cmd (within double_quote out w) rest)
              (append_assoc word (c ∷ []) (c ∷ [])))
      | inr once ↦ rw once (one word rest)
    ]

region_read :
    (out : List Text) (v word rest : Text)
    → Follows rest
    → split_loop cmd (within double_quote out word) (flat_map cmd_char v ++ (double_quote ∷ rest))
      ≡ split_loop cmd (behind out (word ++ doubled_all v)) rest
unfolding flat_map
region_read out [] word rest follows =
    close_read cmd double_quote opens out word rest
      (inr (Follows-no_quote follows double_quote (inl refl)))
    ∙ ap (λ w. split_loop cmd (behind out w) rest) (sym (append-nil word))
region_read out (c ∷ v) word rest follows =
    let more = flat_map cmd_char v ++ (double_quote ∷ rest) in
    let end =
      region_read out v (word ++ doubled c) rest follows
      ∙ ap (λ w. split_loop cmd (behind out w) rest)
          (append_assoc word (doubled c) (doubled_all v)) in
    elim (Bool-cases (c == double_quote)) [
      | inl e ↦ rw (cmd_char_quote c e) (
          doubled_read cmd double_quote opens out word more refl
          ∙ ap (λ t. split_loop cmd (within double_quote out (word ++ t)) more) (quote_doubled c e)
          ∙ end)
      | inr e ↦ rw (cmd_char_other c e, append_assoc) (doubled_chars_read out c word more e ∙ end)
    ]

quoted_reads :
    (v : Text) (out : List Text) (rest : Text)
    → Follows rest
    → split_loop cmd
        (between out)
        ((double_quote ∷ (flat_map cmd_char v ++ double_quote ∷ [])) ++ rest)
      ≡ split_loop cmd (behind out (doubled_all v)) rest
quoted_reads v out rest follows =
    open_read cmd double_quote opens out [] _
    ∙ ap (split_loop cmd (within double_quote out []))
        (append_assoc (flat_map cmd_char v) (double_quote ∷ []) rest)
    ∙ region_read out v [] rest follows

empty_reads :
    (out : List Text) (rest : Text)
    → Follows rest
    → split_loop cmd (between out) (codes "\"\"" ++ rest) ≡ split_loop cmd (behind out []) rest
empty_reads out rest follows =
    open_read cmd double_quote opens out [] _
    ∙ close_read cmd double_quote opens out [] rest
        (inr (Follows-no_quote follows double_quote (inl refl)))

safe_single : (c : ℕ) → (is_ascii_alphanumeric c || contains cmd_safe c) ≡ true → c ∷ [] ≡ doubled c
unfolding is_ascii_alphanumeric
safe_single c h = ground arith

-- A value that is left unquoted holds neither character.
safe_undoubled :
    (v : Text)
    → all (λ c. is_ascii_alphanumeric c || contains cmd_safe c) v ≡ true
    → v ≡ doubled_all v
safe_undoubled [] h = refl
safe_undoubled (c ∷ v) h =
    let (safe, more) = &&-true (is_ascii_alphanumeric c || contains cmd_safe c) _ h in
    ap (◌∷◌ c) (safe_undoubled v more) ∙ ap (λ t. t ++ doubled_all v) (safe_single c safe)

quote_windows_cmd_read :
    (v : Text) (out : List Text) (rest : Text)
    → Follows rest
    → split_loop cmd (between out) (quote_windows_cmd v ++ rest)
      ≡ split_loop cmd (behind out (doubled_all v)) rest
unfolding quote_windows_cmd
quote_windows_cmd_read v out rest follows = elim (Bool-cases (text_eq v [])) [
  | inl e ↦ rw e (
      empty_reads out rest follows
      ∙ ap (λ w. split_loop cmd (behind out (doubled_all w)) rest) (sym (text_eq→≡ v [] e)))
  | inr e ↦ rw e (elim (Bool-cases (is_unquoted_safe v cmd_safe)) [
    | inl safe ↦ rw safe (
        plain_word cmd v out rest (filled v cmd_safe safe)
          (IsPlain-cmd cmd v refl (safe_chars v cmd_safe safe))
        ∙ ap (λ w. split_loop cmd (behind out w) rest)
            (safe_undoubled v (safe_chars v cmd_safe safe)))
    | inr unsafe ↦ rw unsafe (quoted_reads v out rest follows)
  ])
]

words_read : (args : List Text) → All (ReadsAs cmd quote_windows_cmd doubled_all) args
words_read [] = tt
words_read (v ∷ args) = (quote_windows_cmd_read v, words_read args)

-- Splitting a cmd.exe command line that was quoted from any list of arguments gives the arguments
-- back with each `%` and each `^` doubled and every other character as it was, double quotes,
-- single quotes, backslashes and spaces included.
pub split-quote_for_cmd :
    (args : List Text)
    → split_command_string_for_platform (quote_for (codes "cmd") args) (codes "cmd")
      ≡ map doubled_all args
unfolding split_command_string_for_platform quote_for
split-quote_for_cmd args =
    split_loop-join cmd quote_windows_cmd doubled_all args [] (words_read args)
