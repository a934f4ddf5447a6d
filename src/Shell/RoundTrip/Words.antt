-- ===== src/Shell/RoundTrip/Words.antt =====
-- The splitter on a list of quoted words, given that it reads one quoted word back.
use tokenzero.Base.{
  ℕ, true, false, ◌≡◌, refl, sym, ap, ◌∙◌, Option, none, some, List, [], ◌∷◌, ◌++◌, append_assoc,
  append-nil, Text, map, arith, All, ◌≢◌, ◌⊎◌,
}
use tokenzero.Shell.Chars.{head?, is_whitespace}
use tokenzero.Shell.Split.{
  SplitConfig, SplitState, split_step, split_loop, push, backslash, single_quote, double_quote,
}
use tokenzero.Shell.Quote.{join_spaces}

-- A round that does not consume the next character.
pub split_loop_step :
    (cfg : SplitConfig) (s s' : SplitState) (ch : ℕ) (rest : Text)
    → split_step cfg s ch (head? rest) ≡ (s', false)
    → split_loop cfg s (ch ∷ rest) ≡ split_loop cfg s' rest
unfolding split_loop
split_loop_step cfg s s' ch [] h = rw h
split_loop_step cfg s s' ch (next ∷ rest) h = rw h

-- A round that does.
pub split_loop_skip :
    (cfg : SplitConfig) (s s' : SplitState) (ch next : ℕ) (rest : Text)
    → split_step cfg s ch (some next) ≡ (s', true)
    → split_loop cfg s (ch ∷ next ∷ rest) ≡ split_loop cfg s' rest
unfolding split_loop
split_loop_skip cfg s s' ch next rest h = rw h

-- The state between words, and behind a word.
abbrev pub between : List Text → SplitState
between out = record {
  out = out;
  current = [];
  quote = none;
  escaped = false;
  token_started = false;
}

abbrev pub behind : List Text → Text → SplitState
behind out word = record {
  out = out;
  current = word;
  quote = none;
  escaped = false;
  token_started = true;
}

-- The rest of a command behind a quoted word: nothing, or a space and more.
pub data Follows : Text → Type 0 where
  ends : Follows []
  spaced : (s : Text) → Follows (b' ' ∷ s)

-- The splitter reads the quoted form of a word as `back` of it.
module _ (cfg : SplitConfig) (quote back : Text → Text) where
  abbrev pub ReadsAs : Text → Type 0
  ReadsAs v =
      (out : List Text) (rest : Text)
      → Follows rest
      → split_loop cfg (between out) (quote v ++ rest) ≡ split_loop cfg (behind out (back v)) rest

space_step :
    (cfg : SplitConfig) (out : List Text) (word : Text) (next : Option ℕ)
    → split_step cfg (behind out word) b' ' next ≡ (between (out ++ word ∷ []), false)
unfolding split_step is_whitespace
space_step cfg out word next = ground arith

-- If it reads each of the words so, it reads the list of them, joined by spaces.
pub split_loop-join :
    (cfg : SplitConfig) (quote back : Text → Text) (args : List Text) (out : List Text)
    → All (ReadsAs cfg quote back) args
    → split_loop cfg (between out) (join_spaces (map quote args)) ≡ out ++ map back args
unfolding join_spaces split_loop
split_loop-join cfg quote back [] out reads = sym (append-nil out)
split_loop-join cfg quote back (w ∷ []) out (reads, _) =
    ap (split_loop cfg (between out)) (sym (append-nil (quote w))) ∙ reads out [] ends
split_loop-join cfg quote back (w ∷ v ∷ ws) out (reads, more) =
    let rest = join_spaces (map quote (v ∷ ws)) in
    reads out (b' ' ∷ rest) (spaced rest)
    ∙ split_loop_step cfg (behind out (back w)) (between (out ++ back w ∷ [])) b' ' rest
        (space_step cfg out (back w) (head? rest))
    ∙ split_loop-join cfg quote back (v ∷ ws) (out ++ back w ∷ []) more
    ∙ append_assoc out (back w ∷ []) (map back (v ∷ ws))

map_id : (args : List Text) → map (λ w. w) args ≡ args
map_id [] = refl
map_id (w ∷ args) = ap (◌∷◌ w) (map_id args)

-- Words that are read back as they were.
pub split_loop-join_exact :
    (cfg : SplitConfig) (quote : Text → Text) (args : List Text)
    → All (ReadsAs cfg quote (λ w. w)) args
    → split_loop cfg (between []) (join_spaces (map quote args)) ≡ args
split_loop-join_exact cfg quote args reads =
    split_loop-join cfg quote (λ w. w) args [] reads ∙ map_id args

-- A character that the splitter takes as it stands outside quotes.
abbrev pub IsPlain : SplitConfig → ℕ → Type 0
IsPlain cfg c =
    (is_whitespace c ≡ false)
    × ((c ≢ backslash) ⊎ (cfg.preserve_backslashes ≡ true))
    × (c ≢ single_quote)
    × (c ≢ double_quote)

plain_step :
    (cfg : SplitConfig) (s : SplitState) (c : ℕ) (next : Option ℕ)
    → s.quote ≡ none
    → s.escaped ≡ false
    → IsPlain cfg c
    → split_step cfg s c next ≡ (push s c, false)
unfolding split_step
plain_step cfg s c next q e plain = ground arith

pub split_loop-plain :
    (cfg : SplitConfig) (v : Text) (out : List Text) (word rest : Text)
    → All (IsPlain cfg) v
    → split_loop cfg (behind out word) (v ++ rest) ≡ split_loop cfg (behind out (word ++ v)) rest
split_loop-plain cfg [] out word rest _ = rw append-nil
split_loop-plain cfg (c ∷ v) out word rest (plain, more) =
    split_loop_step cfg (behind out word) (behind out (word ++ c ∷ [])) c (v ++ rest)
      (plain_step cfg (behind out word) c (head? (v ++ rest)) refl refl plain)
    ∙ split_loop-plain cfg v out (word ++ c ∷ []) rest more
    ∙ ap (λ w. split_loop cfg (behind out w) rest) (append_assoc word (c ∷ []) v)

-- A word of plain characters, written as it stands, is read back.
pub plain_word :
    (cfg : SplitConfig) (v : Text) (out : List Text) (rest : Text)
    → v ≢ []
    → All (IsPlain cfg) v
    → split_loop cfg (between out) (v ++ rest) ≡ split_loop cfg (behind out v) rest
plain_word cfg [] out rest filled _ = absurd (filled refl)
plain_word cfg (c ∷ v) out rest _ (plain, more) =
    split_loop_step cfg (between out) (behind out (c ∷ [])) c (v ++ rest)
      (plain_step cfg (between out) c (head? (v ++ rest)) refl refl plain)
    ∙ split_loop-plain cfg v out (c ∷ []) rest more
