-- ===== src/Shell/RoundTrip/Posix.antt =====
-- POSIX: the splitter reads back what `quote_for` wrote.
use tokenzero.Base.{
  true, false, ◌≡◌, refl, sym, ap, ◌∙◌, inl, inr, none, List, [], ◌∷◌, ◌++◌, append_assoc,
  append-nil, Text, codes, text_eq, arith, All, Bool-cases, ==_iff, text_eq→≡, ◌==◌,
}
use tokenzero.Shell.Split.{
  SplitConfig, split_loop, single_quote, double_quote, split_command_string_for_platform,
}
use tokenzero.Shell.Quote.{
  is_unquoted_safe, replace_single, posix_escape, posix_safe, quote_posix, quote_for,
}
use tokenzero.Shell.RoundTrip.Words.{between, behind, ReadsAs, split_loop-join_exact, plain_word}
use tokenzero.Shell.RoundTrip.Regions.{within, open_read, reopen_read, close_read, literal_read}
use tokenzero.Shell.RoundTrip.Safe.{IsPlain-posix, filled, safe_chars}

abbrev posix : SplitConfig
posix = record {
  preserve_backslashes = false;
  single_quote_groups = true;
  doubled_quote_escape = none;
}

module _ (out : List Text) where
  -- The five characters that stand for a single quote.
  escape_read :
      (word rest : Text)
      → split_loop posix (within single_quote out word) (posix_escape ++ rest)
        ≡ split_loop posix (within single_quote out (word ++ single_quote ∷ [])) rest
  escape_read word rest =
      let word' = word ++ single_quote ∷ [] in
      close_read posix single_quote (inr (refl, refl)) out word _ (inl refl)
      ∙ reopen_read posix double_quote (inl refl) out word _
      ∙ literal_read posix double_quote (inl refl) out word single_quote _ (omega arith)
          (inr (inr refl))
      ∙ close_read posix double_quote (inl refl) out word' _ (inl refl)
      ∙ reopen_read posix single_quote (inr (refl, refl)) out word' rest

  region_read :
      (v word rest : Text)
      → split_loop posix
          (within single_quote out word)
          (replace_single posix_escape v ++ (single_quote ∷ rest))
        ≡ split_loop posix (behind out (word ++ v)) rest
  unfolding replace_single
  region_read [] word rest =
      close_read posix single_quote (inr (refl, refl)) out word rest (inl refl)
      ∙ ap (λ w. split_loop posix (behind out w) rest) (sym (append-nil word))
  region_read (c ∷ v) word rest =
      let more = replace_single posix_escape v ++ (single_quote ∷ rest) in
      let end =
        region_read v (word ++ c ∷ []) rest
        ∙ ap (λ w. split_loop posix (behind out w) rest) (append_assoc word (c ∷ []) v) in
      elim (Bool-cases (c == single_quote)) [
        | inl e ↦ rw e (
            escape_read word more
            ∙ ap (λ k. split_loop posix (within single_quote out (word ++ k ∷ [])) more)
                (sym ((==_iff c single_quote).0 e))
            ∙ end)
        | inr e ↦ rw e (
            literal_read posix single_quote (inr (refl, refl)) out word c more (ground arith)
              (inl refl)
            ∙ end)
      ]

quoted_reads :
    (v : Text) (out : List Text) (rest : Text)
    → split_loop posix
        (between out)
        ((single_quote ∷ (replace_single posix_escape v ++ single_quote ∷ [])) ++ rest)
      ≡ split_loop posix (behind out v) rest
quoted_reads v out rest =
    open_read posix single_quote (inr (refl, refl)) out [] _
    ∙ ap (split_loop posix (within single_quote out []))
        (append_assoc (replace_single posix_escape v) (single_quote ∷ []) rest)
    ∙ region_read out v [] rest

empty_reads :
    (out : List Text) (rest : Text)
    → split_loop posix (between out) (codes "''" ++ rest) ≡ split_loop posix (behind out []) rest
empty_reads out rest =
    open_read posix single_quote (inr (refl, refl)) out [] _
    ∙ close_read posix single_quote (inr (refl, refl)) out [] rest (inl refl)

quote_posix-ReadsAs : (v : Text) → ReadsAs posix quote_posix (λ w. w) v
unfolding quote_posix
quote_posix-ReadsAs v out rest follows = elim (Bool-cases (text_eq v [])) [
  | inl e ↦ rw e (
      empty_reads out rest
      ∙ ap (λ w. split_loop posix (behind out w) rest) (sym (text_eq→≡ v [] e)))
  | inr e ↦ rw e (elim (Bool-cases (is_unquoted_safe v posix_safe)) [
    | inl safe ↦ rw safe (
        plain_word posix v out rest (filled v posix_safe safe)
          (IsPlain-posix posix v (safe_chars v posix_safe safe)))
    | inr unsafe ↦ rw unsafe (quoted_reads v out rest)
  ])
]

words_read : (args : List Text) → All (ReadsAs posix quote_posix (λ w. w)) args
words_read [] = tt
words_read (v ∷ args) = (quote_posix-ReadsAs v, words_read args)

-- Splitting a POSIX command line that was quoted from any list of arguments gives the arguments
-- back, whatever characters they hold, empty arguments included.
pub split-quote_for_posix :
    (args : List Text)
    → split_command_string_for_platform (quote_for (codes "posix") args) (codes "posix") ≡ args
unfolding split_command_string_for_platform quote_for
split-quote_for_posix args = split_loop-join_exact posix quote_posix args (words_read args)
