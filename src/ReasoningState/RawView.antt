-- ===== src/ReasoningState/RawView.antt =====
-- `RawDecisionViewRecoveryEnvelope`: the capture of a rendered Decision View, and its exact recovery.
use tokenzero.Base.{Bool, ◌&&◌, Text, codes, leb, ◌==◌, length, max_u64, Result, ok, ◌>>◌, guard}
use tokenzero.ReasoningState.{Abi}
use tokenzero.ReasoningState.Continuation.{
  ModelStateContinuationError, raw_byte_length_overflow, decision_view_identity_mismatch,
  decision_view_digest_mismatch, exact_token_map_digest_mismatch, raw_baseline_identity_mismatch,
  hub_safepoint_digest_mismatch, raw_byte_length_mismatch, raw_bytes_digest_mismatch,
  DecisionViewIdentity, DecisionView, RawDecisionViewRecoveryEnvelope, require_continuation_digest,
}

module _ (abi : Abi) where
  open abi use {Digest, same, sha256}

  -- The derived equality of identities.
  unfoldable pub identity_eq : DecisionViewIdentity abi → DecisionViewIdentity abi → Bool
  identity_eq a b =
      same a.source_root_digest b.source_root_digest
      && (same a.model_profile_digest b.model_profile_digest
          && (same a.tokenizer_identity_digest b.tokenizer_identity_digest
              && (same a.tool_schema_digest b.tool_schema_digest
                  && same a.renderer_contract_digest b.renderer_contract_digest)))

  unfoldable pub capture_view :
      DecisionView abi
      → Digest
      → Digest
      → Result ModelStateContinuationError (RawDecisionViewRecoveryEnvelope abi)
  unfolding require_continuation_digest
  capture_view view baseline safepoint =
      require_continuation_digest abi (codes "caller raw-baseline identity") baseline
      >> (require_continuation_digest abi (codes "caller hub safepoint") safepoint
          >> (guard (leb (length view.rendered) max_u64) raw_byte_length_overflow
              >> ok (record {
                reference = record {
                  decision_view_identity = view.identity;
                  decision_view_digest = view.digest;
                  exact_token_map_digest = view.exact_token_map_digest;
                  raw_bytes_digest = sha256 view.rendered;
                  raw_byte_len = length view.rendered;
                  total_tokens = view.total_tokens;
                  caller_raw_baseline_identity_digest = baseline;
                  caller_hub_safepoint_digest = safepoint;
                };
                raw_decision_view_bytes = view.rendered;
              })))

  unfoldable pub exact_raw_decision_view_bytes :
      RawDecisionViewRecoveryEnvelope abi
      → DecisionViewIdentity abi
      → Digest
      → Digest
      → Digest
      → Digest
      → Result ModelStateContinuationError Text
  unfolding identity_eq
  exact_raw_decision_view_bytes envelope identity view_digest token_map baseline safepoint =
      let r = envelope.reference in
      let bytes = envelope.raw_decision_view_bytes in
      guard (identity_eq r.decision_view_identity identity) decision_view_identity_mismatch
      >> (guard (same r.decision_view_digest view_digest) decision_view_digest_mismatch
          >> (guard (same r.exact_token_map_digest token_map) exact_token_map_digest_mismatch
              >> (guard (same r.caller_raw_baseline_identity_digest baseline)
                    raw_baseline_identity_mismatch
                  >> (guard (same r.caller_hub_safepoint_digest safepoint)
                        hub_safepoint_digest_mismatch
                      >> (guard (leb (length bytes) max_u64) raw_byte_length_overflow
                          >> (guard (length bytes == r.raw_byte_len) raw_byte_length_mismatch
                              >> (guard (same (sha256 bytes) r.raw_bytes_digest)
                                    raw_bytes_digest_mismatch
                                  >> ok bytes)))))))
