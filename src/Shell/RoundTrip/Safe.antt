-- ===== src/Shell/RoundTrip/Safe.antt =====
-- Values that quoting leaves as they stand hold plain characters only.
use tokenzero.Base.{
  ℕ, ◌≤◌, ◌≡◌, ◌≢◌, inl, inr, true, false, not, ◌||◌, [], ◌∷◌, Text, arith, All, all, text_eq,
  &&-true,
}
use tokenzero.Shell.Chars.{is_whitespace, is_ascii_alphanumeric, contains}
use tokenzero.Shell.Split.{SplitConfig}
use tokenzero.Shell.Quote.{is_unquoted_safe, posix_safe, cmd_safe}
use tokenzero.Shell.RoundTrip.Words.{IsPlain}

visible : (c : ℕ) → 33 ≤ c → c ≤ 126 → is_whitespace c ≡ false
unfolding is_whitespace
visible c lo hi = ground arith

posix_range :
    (c : ℕ)
    → (is_ascii_alphanumeric c || contains posix_safe c) ≡ true
    → (33 ≤ c) × (c ≤ 126) × (c ≢ 92) × (c ≢ 39) × (c ≢ 34)
unfolding is_ascii_alphanumeric
posix_range c h = ground arith

cmd_range :
    (c : ℕ)
    → (is_ascii_alphanumeric c || contains cmd_safe c) ≡ true
    → (33 ≤ c) × (c ≤ 126) × (c ≢ 39) × (c ≢ 34)
unfolding is_ascii_alphanumeric
cmd_range c h = ground arith

pub IsPlain-posix :
    (cfg : SplitConfig) (v : Text)
    → all (λ c. is_ascii_alphanumeric c || contains posix_safe c) v ≡ true
    → All (IsPlain cfg) v
IsPlain-posix cfg [] h = tt
IsPlain-posix cfg (c ∷ v) h =
    let (safe, rest) = &&-true (is_ascii_alphanumeric c || contains posix_safe c) _ h in
    let (lo, hi, not_backslash, not_single, not_double) = posix_range c safe in
    ((visible c lo hi, inl not_backslash, not_single, not_double), IsPlain-posix cfg v rest)

pub IsPlain-cmd :
    (cfg : SplitConfig) (v : Text)
    → cfg.preserve_backslashes ≡ true
    → all (λ c. is_ascii_alphanumeric c || contains cmd_safe c) v ≡ true
    → All (IsPlain cfg) v
IsPlain-cmd cfg [] keep h = tt
IsPlain-cmd cfg (c ∷ v) keep h =
    let (safe, rest) = &&-true (is_ascii_alphanumeric c || contains cmd_safe c) _ h in
    let (lo, hi, not_single, not_double) = cmd_range c safe in
    ((visible c lo hi, inr keep, not_single, not_double), IsPlain-cmd cfg v keep rest)

pub filled : (v extra : Text) → is_unquoted_safe v extra ≡ true → v ≢ []
unfolding is_unquoted_safe text_eq
filled [] extra h = cc
filled (c ∷ v) extra h = λ e. cc

pub safe_chars :
    (v extra : Text)
    → is_unquoted_safe v extra ≡ true
    → all (λ c. is_ascii_alphanumeric c || contains extra c) v ≡ true
unfolding is_unquoted_safe
safe_chars v extra h = (&&-true (not (text_eq v [])) _ h).1
