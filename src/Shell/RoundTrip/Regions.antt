-- ===== src/Shell/RoundTrip/Regions.antt =====
-- Rounds of the splitter at the borders of a quoted region and inside it.
use tokenzero.Base.{
  ℕ, true, false, ◌≡◌, ◌≢◌, ◌⊎◌, refl, Option, none, some, List, [], ◌∷◌, ◌++◌, Text, arith,
}
use tokenzero.Shell.Chars.{is_some, head?}
use tokenzero.Shell.Split.{
  SplitConfig, SplitState, split_step, split_loop, single_quote, double_quote,
}
use tokenzero.Shell.RoundTrip.Words.{
  split_loop_step, split_loop_skip, between, behind, Follows, ends, spaced,
}

-- Inside a quoted region, with the word read so far.
abbrev pub within : ℕ → List Text → Text → SplitState
within q out word = record {
  out = out;
  current = word;
  quote = some q;
  escaped = false;
  token_started = true;
}

-- A character that opens a region.
abbrev pub Opens : SplitConfig → ℕ → Type 0
Opens cfg q = (q ≡ double_quote) ⊎ ((q ≡ single_quote) × (cfg.single_quote_groups ≡ true))

module _ (cfg : SplitConfig) (q : ℕ) (opens : Opens cfg q) (out : List Text) (word : Text) where
  open_step :
      (s : SplitState) (next : Option ℕ)
      → s.quote ≡ none
      → s.escaped ≡ false
      → split_step cfg s q next ≡ (record s { quote = some q; token_started = true }, false)
  unfolding split_step
  open_step s next no_quote raw = ground arith

  -- An opening quote at the start of a word, and in the middle of one.
  pub open_read :
      (rest : Text)
      → split_loop cfg (between out) (q ∷ rest) ≡ split_loop cfg (within q out []) rest
  open_read rest =
      split_loop_step cfg (between out) (within q out []) q rest
        (open_step (between out) (head? rest) refl refl)

  pub reopen_read :
      (rest : Text)
      → split_loop cfg (behind out word) (q ∷ rest) ≡ split_loop cfg (within q out word) rest
  reopen_read rest =
      split_loop_step cfg (behind out word) (within q out word) q rest
        (open_step (behind out word) (head? rest) refl refl)

  close_step :
      (next : Option ℕ)
      → (cfg.doubled_quote_escape ≡ none) ⊎ (is_some next q ≡ false)
      → split_step cfg (within q out word) q next ≡ (behind out word, false)
  unfolding split_step
  close_step next single = ground arith

  pub close_read :
      (rest : Text)
      → (cfg.doubled_quote_escape ≡ none) ⊎ (is_some (head? rest) q ≡ false)
      → split_loop cfg (within q out word) (q ∷ rest) ≡ split_loop cfg (behind out word) rest
  close_read rest single =
      split_loop_step cfg (within q out word) (behind out word) q rest
        (close_step (head? rest) single)

  literal_step :
      (c : ℕ) (next : Option ℕ)
      → c ≢ q
      → (q ≡ single_quote) ⊎ (cfg.preserve_backslashes ≡ true) ⊎ (c ≡ single_quote)
      → split_step cfg (within q out word) c next ≡ (within q out (word ++ c ∷ []), false)
  unfolding split_step
  literal_step c next other raw = ground arith

  -- A character that does not end the region.
  pub literal_read :
      (c : ℕ) (rest : Text)
      → c ≢ q
      → (q ≡ single_quote) ⊎ (cfg.preserve_backslashes ≡ true) ⊎ (c ≡ single_quote)
      → split_loop cfg (within q out word) (c ∷ rest)
        ≡ split_loop cfg (within q out (word ++ c ∷ [])) rest
  literal_read c rest other raw =
      split_loop_step cfg (within q out word) (within q out (word ++ c ∷ [])) c rest
        (literal_step c (head? rest) other raw)

  doubled_step :
      cfg.doubled_quote_escape ≡ some q
      → split_step cfg (within q out word) q (some q) ≡ (within q out (word ++ q ∷ []), true)
  unfolding split_step
  doubled_step doubled = ground arith

  -- A doubled quote stands for one.
  pub doubled_read :
      (rest : Text)
      → cfg.doubled_quote_escape ≡ some q
      → split_loop cfg (within q out word) (q ∷ q ∷ rest)
        ≡ split_loop cfg (within q out (word ++ q ∷ [])) rest
  doubled_read rest doubled =
      split_loop_skip cfg (within q out word) (within q out (word ++ q ∷ [])) q q rest
        (doubled_step doubled)

-- What follows a word is no quote.
pub Follows-no_quote :
    {rest : Text}
    → Follows rest
    → (q : ℕ) → (q ≡ double_quote) ⊎ (q ≡ single_quote)
    → is_some (head? rest) q ≡ false
Follows-no_quote ends q h = refl
Follows-no_quote (spaced s) q h = ground arith
