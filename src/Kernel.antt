-- ===== src/Kernel.antt =====
-- crates/tokenzero-kernel/src/lib.rs: the token engine, which measures, projects and compresses.
pub mod Operations
pub mod Honesty
mod Tests
use tokenzero.Base.{
  ℕ, zero, suc, ◌+◌, ◌-◌, ◌*◌, ◌/◌, min, Bool, true, false, not, ◌&&◌, ◌||◌, Option, none, some,
  List, [], ◌∷◌, ◌++◌, Text, codes, text_eq, leb, ltb, ◌==◌, if◌then◌else◌, length, take, drop,
  get_elem?, sat_add, Result, ok, err, ◌>>=◌, ◌>>◌, guard,
}

pub record TokenAccounting : Type 0 where
  pub tokenizer : Text
  pub billed : ℕ
  pub visible : ℕ
  pub cached : ℕ
  pub certified : Bool

pub record AccountMass : Type 0 where
  pub raw : ℕ
  pub visible : ℕ
  pub recovered : ℕ
  pub spent : ℕ

unfoldable pub account_mass : TokenAccounting → AccountMass
account_mass a = record {
  raw = a.billed;
  visible = a.visible;
  recovered = a.cached;
  spent = sat_add a.visible a.cached;
}

pub data EngineError : Type 0 where
  cancelled budget_too_small zero_max_tokens not_utf8 : EngineError
  invalid_mode over_budget corrupt : Text → EngineError

-- A byte of UTF-8 that does not begin a character.
abbrev pub is_continuation : ℕ → Bool
is_continuation b = b / 64 == 2

-- `is_char_boundary`
abbrev pub is_char_boundary : Text → ℕ → Bool
is_char_boundary text i = elim (get_elem? text i) [
  | none ↦ i == length text
  | some b ↦ not (is_continuation b)
]

-- The largest boundary that is not behind a position.
unfoldable pub floor_boundary : Text → ℕ → ℕ
floor_boundary text zero = zero
floor_boundary text (suc n) =
    let below = floor_boundary text n in if is_char_boundary text (suc n) then suc n else below

unfoldable pub bounded_utf8 : Text → Text → ℕ → Text
unfolding floor_boundary
bounded_utf8 source marker limit =
    if limit == 0
    then []
    else if leb limit (length marker)
    then take (floor_boundary marker limit) marker
    else take (floor_boundary source (min (length source) (limit - length marker))) source ++ marker

-- What the engine uses of tiktoken, of tokenzero_core, of zero_store and of UTF-8.
pub record Services : Type 1 where
  pub Handle : Type 0
  pub Mode : Type 0
  pub model_id : Option Text
  pub is_utf8 : Text → Bool
  pub lossy : Text → Text
  pub bpe_for_model : Text → Option (Text → ℕ)
  pub tiktoken_tokenizer_id : Text → Text
  pub count_tokens_for_model : Text → Option Text → ℕ
  pub estimator_tokenizer_id : Option Text → Text
  pub bytes_estimator_id : Text
  pub put : Text → Result Text Handle
  pub publish_metadata : Handle → Text → Text → Result Text (Unit {0})
  pub show_handle : Handle → Text
  pub auto : Mode
  pub dedupe : Mode
  pub structured : Mode
  pub is_auto : Mode → Bool
  pub mode_from_str : Text → Result Text Mode
  pub make_capsule : Text → ℕ → Mode → ℕ → Option Text → Text → Result Text Text
  pub line_count : Text → ℕ

pub record ProjectionRequest : Type 0 where
  pub bytes : Text
  pub media_type : Text
  pub visible_byte_limit : ℕ

pub record CompressionRequest : Type 0 where
  pub bytes : Text
  pub media_type : Text
  pub mode : Text
  pub max_tokens : ℕ
  pub label : Option Text

abbrev pub is_empty : Text → Bool
is_empty [] = true
is_empty (b ∷ bs) = false

abbrev pub bool_eq : Bool → Bool → Bool
bool_eq true b = b
bool_eq false b = not b

-- The derived equality of accountings.
unfoldable pub accounting_eq : TokenAccounting → TokenAccounting → Bool
accounting_eq a b =
    text_eq a.tokenizer b.tokenizer
    && (a.billed == b.billed
        && (a.visible == b.visible && (a.cached == b.cached && bool_eq a.certified b.certified)))

-- `cas_error`
abbrev pub of_cas : {A : Type 0} → Result Text A → Result EngineError A
of_cas (ok a) = ok a
of_cas (err e) = err (corrupt (codes "ZeroHandle CAS: " ++ e))

module _ (services : Services) where
  open services use {
    Handle, Mode, model_id, is_utf8, lossy, bpe_for_model, tiktoken_tokenizer_id,
    count_tokens_for_model, estimator_tokenizer_id, bytes_estimator_id, put, publish_metadata,
    show_handle, auto, dedupe, structured, is_auto, mode_from_str, make_capsule, line_count,
  }

  pub record ProjectionResult : Type 0 where
    pub visible : Text
    pub visible_source_bytes : ℕ
    pub exact : Option Handle
    pub accounting : TokenAccounting

  pub record CompressionResult : Type 0 where
    pub visible : Text
    pub exact : Handle
    pub truncated : Bool
    pub omitted_tokens : ℕ
    pub accounting : TokenAccounting

  abbrev pub sealed_accounting : Text → ℕ → Bool → TokenAccounting
  sealed_accounting tokenizer count certified = record {
    tokenizer = tokenizer;
    billed = count;
    visible = count;
    cached = 0;
    certified = certified;
  }

  abbrev pub bpe_of : Option Text → Option (Text × (Text → ℕ))
  bpe_of none = none
  bpe_of (some model) = elim (bpe_for_model model) [
    | none ↦ none
    | some encode ↦ some (model, encode)
  ]

  abbrev pub estimated : Text → TokenAccounting
  estimated bytes =
      if is_utf8 bytes
      then sealed_accounting (estimator_tokenizer_id model_id)
          (count_tokens_for_model bytes model_id) false
      else sealed_accounting bytes_estimator_id (length bytes) false

  unfoldable pub count_with : Option (Text × (Text → ℕ)) → Text → TokenAccounting
  count_with none bytes = estimated bytes
  count_with (some (model, encode)) bytes =
      if is_utf8 bytes
      then sealed_accounting (tiktoken_tokenizer_id model) (encode bytes) true
      else estimated bytes

  unfoldable pub count : Text → TokenAccounting
  unfolding count_with
  count bytes = count_with (bpe_of model_id) bytes

  -- From the longest prefix to the shortest, at the ends of characters.
  unfoldable pub longest_within : Text → ℕ → ℕ → Option Text
  unfolding count
  longest_within text max_tokens zero = if leb (count []).billed max_tokens then some [] else none
  longest_within text max_tokens (suc n) =
      let shorter = longest_within text max_tokens n in
      let prefix = take (suc n) text in
      if is_char_boundary text (suc n) && leb (count prefix).billed max_tokens
      then some prefix
      else shorter

  unfoldable pub clamp_visible_to_budget : Text → ℕ → Text × Bool
  unfolding longest_within
  clamp_visible_to_budget text max_tokens =
      if leb (count text).billed max_tokens
      then (text, false)
      else (elim (longest_within text max_tokens (length text)) [
        | none ↦ ([], true)
        | some prefix ↦ (prefix, not (length prefix == length text))
      ])

  unfoldable pub store_exact : Text → Text → Result EngineError Handle
  store_exact bytes media_type = of_cas (put bytes) >>= λ handle.
      of_cas (publish_metadata handle bytes media_type) >> ok handle

  abbrev pub passthrough_compression : Text → Handle → TokenAccounting → CompressionResult
  passthrough_compression text handle raw = record {
    visible = text;
    exact = handle;
    truncated = false;
    omitted_tokens = 0;
    accounting = record raw { visible = raw.billed };
  }
