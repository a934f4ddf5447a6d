-- ===== src/Kernel/Operations.antt =====
-- The operations of `TokenEngine`. Each takes whether its invocation was cancelled.
use tokenzero.Base.{
  ℕ, ◌-◌, min, Bool, not, ◌&&◌, ◌||◌, none, some, ◌∷◌, ◌++◌, Text, codes, text_eq, leb, ltb, ◌==◌,
  if◌then◌else◌, length, drop, Result, ok, err, ◌>>=◌, ◌>>◌, guard,
}
use tokenzero.Kernel.{
  TokenAccounting, EngineError, cancelled, budget_too_small, zero_max_tokens, not_utf8,
  invalid_mode, over_budget, bounded_utf8, Services, ProjectionRequest, CompressionRequest,
  is_empty, accounting_eq, ProjectionResult, CompressionResult, count, clamp_visible_to_budget,
  store_exact, passthrough_compression,
}

-- `visible.strip_suffix(&marker).map_or(0, str::len)`
abbrev pub source_bytes_of : Text → Text → ℕ
source_bytes_of visible marker =
    let rest = length visible - length marker in
    if leb (length marker) (length visible) && text_eq (drop rest visible) marker then rest else 0

module _ (services : Services) where
  open services use {
    Handle, Mode, is_utf8, lossy, show_handle, auto, dedupe, structured, is_auto, mode_from_str,
    make_capsule, line_count,
  }

  abbrev pub measure : Bool → Text → Result EngineError TokenAccounting
  measure is_cancelled bytes = guard (not is_cancelled) cancelled >> ok (count services bytes)

  -- Whether a claimed accounting matches, with the recomputed one.
  abbrev pub certify : Bool → Text → TokenAccounting → Result EngineError (Bool × TokenAccounting)
  certify is_cancelled bytes claimed =
      guard (not is_cancelled) cancelled
      >> ok (accounting_eq (count services bytes) claimed, count services bytes)

  abbrev pub whole : Text → ProjectionResult services
  whole bytes = record {
    visible = bytes;
    visible_source_bytes = length bytes;
    exact = none;
    accounting = count services bytes;
  }

  abbrev pub marker_of : Handle → Text
  marker_of handle = 10 ∷ (codes "exact: " ++ show_handle handle)

  -- The capsule of a head of the source and the handle, unless the source costs fewer tokens.
  unfoldable pub project_stored : Text → ℕ → Handle → ProjectionResult services
  unfolding count bounded_utf8 text_eq
  project_stored bytes limit handle =
      let raw = count services bytes in
      let marker = marker_of handle in
      let visible = bounded_utf8 (lossy bytes) marker limit in
      let shown = count services visible in
      if ltb raw.billed shown.visible && is_utf8 bytes then whole bytes else record {
        visible = visible;
        visible_source_bytes = source_bytes_of visible marker;
        exact = some handle;
        accounting = record {
          tokenizer = raw.tokenizer;
          billed = raw.billed;
          visible = shown.visible;
          cached = raw.cached;
          certified = raw.certified && shown.certified;
        };
      }

  unfoldable pub project : Bool → ProjectionRequest → Result EngineError (ProjectionResult services)
  unfolding project_stored store_exact
  project is_cancelled request =
      let bytes = request.bytes in
      let limit = request.visible_byte_limit in
      guard (not is_cancelled) cancelled
      >> (if leb (length bytes) limit && is_utf8 bytes
          then ok (whole bytes)
          else (guard (leb 80 limit) budget_too_small
              >> (store_exact services bytes request.media_type >>= λ handle.
                  ok (project_stored bytes limit handle))))

  abbrev pub of_budget : Result Text Text → Result EngineError Text
  of_budget (ok capsule) = ok capsule
  of_budget (err e) = err (over_budget e)

  abbrev pub mode_of : Text → Result EngineError Mode
  mode_of name =
      if is_empty name
      then ok auto
      else elim (mode_from_str name) [ ok m ↦ ok m | err e ↦ err (invalid_mode e) ]

  abbrev pub capsule_of : CompressionRequest → Handle → Mode → Result Text Text
  capsule_of request handle mode =
      make_capsule request.bytes (count services request.bytes).billed mode request.max_tokens
        request.label (show_handle handle)

  -- The cheaper of the best capsule so far and an alternative that is cheaper than the source.
  abbrev pub better_of : ℕ → Text → Result Text Text → Text
  better_of raw best (err e) = best
  better_of raw best (ok alt) =
      let cost = (count services alt).billed in
      if ltb cost raw && ltb cost (count services best).billed then alt else best

  abbrev pub oversized : Text → Bool
  oversized bytes = ltb 512 (length bytes) || ltb 20 (line_count bytes)

  abbrev pub best_capsule : CompressionRequest → Handle → Mode → Text → Text
  best_capsule request handle mode capsule =
      let raw = (count services request.bytes).billed in
      if oversized request.bytes && is_auto mode
      then better_of raw (better_of raw capsule (capsule_of request handle dedupe))
          (capsule_of request handle structured)
      else capsule

  -- The capsule within the budget, unless the source costs fewer tokens.
  unfoldable pub compress_capsule : CompressionRequest → Handle → Text → CompressionResult services
  unfolding count clamp_visible_to_budget
  compress_capsule request handle capsule =
      let raw = count services request.bytes in
      let (visible, truncated) = clamp_visible_to_budget services capsule request.max_tokens in
      let shown = count services visible in
      let visible_tokens = min shown.billed request.max_tokens in
      if ltb raw.billed (count services capsule).billed || ltb raw.billed visible_tokens
      then passthrough_compression services request.bytes handle raw
      else record {
        visible = visible;
        exact = handle;
        truncated = truncated;
        omitted_tokens = raw.billed - visible_tokens;
        accounting = record {
          tokenizer = raw.tokenizer;
          billed = raw.billed;
          visible = visible_tokens;
          cached = raw.cached;
          certified = raw.certified && shown.certified;
        };
      }

  unfoldable pub compress :
      Bool → CompressionRequest → Result EngineError (CompressionResult services)
  unfolding compress_capsule store_exact
  compress is_cancelled request =
      guard (not is_cancelled) cancelled
      >> (guard (not (request.max_tokens == 0)) zero_max_tokens
          >> (guard (is_utf8 request.bytes) not_utf8
              >> (mode_of request.mode >>= λ mode.
                  store_exact services request.bytes request.media_type >>= λ handle.
                  of_budget (capsule_of request handle mode) >>= λ capsule.
                  ok (compress_capsule request handle (best_capsule request handle mode capsule)))))
