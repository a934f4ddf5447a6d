-- ===== src/Shell/RoundTrip/Powershell.antt =====
-- PowerShell: the splitter reads back what `quote_for` wrote.
use tokenzero.Base.{
  true, ◌≡◌, refl, sym, ap, ◌∙◌, inl, inr, some, List, [], ◌∷◌, ◌++◌, append_assoc, append-nil,
  Text, codes, arith, All, Bool-cases, ◌==◌, ==_iff,
}
use tokenzero.Shell.Split.{SplitConfig, split_loop, single_quote, split_command_string_for_platform}
use tokenzero.Shell.Quote.{replace_single, quote_powershell, quote_for}
use tokenzero.Shell.RoundTrip.Words.{behind, Follows, ReadsAs, split_loop-join_exact}
use tokenzero.Shell.RoundTrip.Regions.{
  within, Opens, open_read, close_read, literal_read, doubled_read, Follows-no_quote,
}

abbrev powershell : SplitConfig
powershell = record {
  preserve_backslashes = true;
  single_quote_groups = true;
  doubled_quote_escape = some single_quote;
}

abbrev opens : Opens powershell single_quote
opens = inr (refl, refl)

region_read :
    (out : List Text) (v word rest : Text)
    → Follows rest
    → split_loop powershell
        (within single_quote out word)
        (replace_single (codes "''") v ++ (single_quote ∷ rest))
      ≡ split_loop powershell (behind out (word ++ v)) rest
unfolding replace_single
region_read out [] word rest follows =
    close_read powershell single_quote opens out word rest
      (inr (Follows-no_quote follows single_quote (inr refl)))
    ∙ ap (λ w. split_loop powershell (behind out w) rest) (sym (append-nil word))
region_read out (c ∷ v) word rest follows =
    let more = replace_single (codes "''") v ++ (single_quote ∷ rest) in
    let end =
      region_read out v (word ++ c ∷ []) rest follows
      ∙ ap (λ w. split_loop powershell (behind out w) rest) (append_assoc word (c ∷ []) v) in
    elim (Bool-cases (c == single_quote)) [
      | inl e ↦ rw e (
          doubled_read powershell single_quote opens out word more refl
          ∙ ap (λ k. split_loop powershell (within single_quote out (word ++ k ∷ [])) more)
              (sym ((==_iff c single_quote).0 e))
          ∙ end)
      | inr e ↦ rw e (
          literal_read powershell single_quote opens out word c more (ground arith) (inl refl)
          ∙ end)
    ]

quote_powershell-ReadsAs : (v : Text) → ReadsAs powershell quote_powershell (λ w. w) v
unfolding quote_powershell
quote_powershell-ReadsAs v out rest follows =
    open_read powershell single_quote opens out [] _
    ∙ ap (split_loop powershell (within single_quote out []))
        (append_assoc (replace_single (codes "''") v) (single_quote ∷ []) rest)
    ∙ region_read out v [] rest follows

words_read : (args : List Text) → All (ReadsAs powershell quote_powershell (λ w. w)) args
words_read [] = tt
words_read (v ∷ args) = (quote_powershell-ReadsAs v, words_read args)

-- Splitting a PowerShell command line that was quoted from any list of arguments gives the
-- arguments back, whatever characters they hold.
pub split-quote_for_powershell :
    (args : List Text)
    → split_command_string_for_platform (quote_for (codes "powershell") args) (codes "powershell")
      ≡ args
unfolding split_command_string_for_platform quote_for
split-quote_for_powershell args =
    split_loop-join_exact powershell quote_powershell args (words_read args)
