-- ===== src/ReasoningState/Envelope.antt =====
-- References without a payload, and the envelope: its capture and the guarded replay of its bytes.
use tokenzero.Base.{
  ℕ, Bool, true, false, not, ◌&&◌, Option, none, some, Text, leb, ltb, ◌==◌, length, max_u64,
  Result, ok, ◌>>◌, guard, codes,
}
use tokenzero.ReasoningState.{
  Abi, max_opaque_reasoning_state_bytes, OpaqueReasoningStateKind, unavailable_kind,
  ReasoningContinuationStatus, exact, unavailable, expired, rejected, identity_mismatch,
  carries_payload, ReasoningStateError, ReasoningStateBinding, ReasoningStateOrder,
  OpaqueReasoningStateRef, OpaqueReasoningStateEnvelope, nonzero, validate_native_state_policy,
  validate_certificate, validate_expiry, unavailable_kind_has_payload, payload_status_required,
  empty_payload, payload_too_large, not_exact, binding_mismatch, order_mismatch, state_expired,
  content_digest_mismatch,
}

abbrev pub is_exact : ReasoningContinuationStatus → Bool
is_exact exact = true
is_exact status = false

abbrev pub is_available : OpaqueReasoningStateKind → Bool
is_available unavailable_kind = false
is_available kind = true

-- `valid_until_unix_ms.is_some_and(|expiry| now_unix_ms >= expiry)`
abbrev pub has_expired : Option ℕ → ℕ → Bool
has_expired none now = false
has_expired (some expiry) now = leb expiry now

abbrev pub option_eq : {A : Type 0} → (A → A → Bool) → Option A → Option A → Bool
option_eq eq none none = true
option_eq eq (some a) (some b) = eq a b
option_eq eq a b = false

abbrev pub bool_eq : Bool → Bool → Bool
bool_eq true b = b
bool_eq false b = not b

module _ (abi : Abi) where
  open abi use {Digest, zero_digest, same, sha256, same_policy}

  abbrev pub Ref : Type 0
  Ref = OpaqueReasoningStateRef abi

  -- The derived equality of bindings.
  unfoldable pub binding_eq : ReasoningStateBinding abi → ReasoningStateBinding abi → Bool
  binding_eq a b =
      same a.provider_identity b.provider_identity
      && (same a.model_identity b.model_identity
          && (same a.backend_identity b.backend_identity
              && (same a.tokenizer_identity b.tokenizer_identity
                  && (same a.decoder_identity b.decoder_identity
                      && (same a.tool_schema_digest b.tool_schema_digest
                          && (same a.reasoning_contract_digest b.reasoning_contract_digest
                              && (same_policy a.native_state_policy b.native_state_policy
                                  && (same a.position_identity b.position_identity
                                      && (same a.session_identity b.session_identity
                                          && (bool_eq a.sampler_identity_required
                                                b.sampler_identity_required
                                              && option_eq same a.sampler_identity
                                                  b.sampler_identity))))))))))

  -- The derived equality of orders.
  unfoldable pub order_eq : ReasoningStateOrder abi → ReasoningStateOrder abi → Bool
  order_eq a b =
      (a.sequence_index == b.sequence_index)
      && option_eq same a.parent_content_digest b.parent_content_digest

  abbrev pub unavailable_ref : ReasoningStateBinding abi → Ref
  unavailable_ref binding = record {
    kind = unavailable_kind;
    status = unavailable;
    binding = binding;
    order = record { sequence_index = 0; parent_content_digest = none };
    content_digest = zero_digest;
    byte_len = 0;
    continuation_certificate_digest = none;
    valid_until_unix_ms = none;
  }

  unfoldable pub terminal_ref :
      OpaqueReasoningStateKind
      → ReasoningContinuationStatus
      → ReasoningStateBinding abi
      → ReasoningStateOrder abi
      → Digest
      → Option ℕ
      → Result (ReasoningStateError abi) Ref
  unfolding nonzero validate_expiry
  terminal_ref kind status binding order content valid_until =
      guard (is_available kind) unavailable_kind_has_payload
      >> (nonzero abi (codes "content") content
          >> (validate_expiry abi valid_until
              >> ok (record {
                kind = kind;
                status = status;
                binding = binding;
                order = order;
                content_digest = content;
                byte_len = 0;
                continuation_certificate_digest = none;
                valid_until_unix_ms = valid_until;
              })))

  abbrev pub rejected_ref :
      OpaqueReasoningStateKind
      → ReasoningStateBinding abi
      → ReasoningStateOrder abi
      → Digest
      → Result (ReasoningStateError abi) Ref
  rejected_ref kind binding order content = terminal_ref kind rejected binding order content none

  abbrev pub expired_ref :
      OpaqueReasoningStateKind
      → ReasoningStateBinding abi
      → ReasoningStateOrder abi
      → Digest
      → ℕ
      → Result (ReasoningStateError abi) Ref
  expired_ref kind binding order content valid_until =
      terminal_ref kind expired binding order content (some valid_until)

  abbrev pub identity_mismatch_ref :
      OpaqueReasoningStateKind
      → ReasoningStateBinding abi
      → ReasoningStateOrder abi
      → Digest
      → Result (ReasoningStateError abi) Ref
  identity_mismatch_ref kind binding order content =
      terminal_ref kind identity_mismatch binding order content none

  unfoldable pub capture :
      OpaqueReasoningStateKind
      → ReasoningContinuationStatus
      → ReasoningStateBinding abi
      → ReasoningStateOrder abi
      → Option Digest
      → Option ℕ
      → Text
      → Result (ReasoningStateError abi) (OpaqueReasoningStateEnvelope abi)
  unfolding carries_payload validate_certificate validate_native_state_policy validate_expiry
  capture kind status binding order certificate valid_until opaque_bytes =
      guard (is_available kind) unavailable_kind_has_payload
      >> (guard (carries_payload status) payload_status_required
          >> (guard (ltb 0 (length opaque_bytes)) empty_payload
              >> (guard (leb (length opaque_bytes) max_opaque_reasoning_state_bytes)
                    (payload_too_large (length opaque_bytes) max_opaque_reasoning_state_bytes)
                  >> (validate_certificate abi status certificate
                      >> (validate_native_state_policy abi binding.native_state_policy status
                          >> (validate_expiry abi valid_until
                              >> (guard (leb (length opaque_bytes) max_u64) (
                                    payload_too_large (length opaque_bytes)
                                      max_opaque_reasoning_state_bytes)
                                  >> ok (record {
                                    reference = record {
                                      kind = kind;
                                      status = status;
                                      binding = binding;
                                      order = order;
                                      content_digest = sha256 opaque_bytes;
                                      byte_len = length opaque_bytes;
                                      continuation_certificate_digest = certificate;
                                      valid_until_unix_ms = valid_until;
                                    };
                                    opaque_bytes = opaque_bytes;
                                  }))))))))

  unfoldable pub exact_replay_bytes :
      OpaqueReasoningStateEnvelope abi
      → ReasoningStateBinding abi
      → ReasoningStateOrder abi
      → ℕ
      → Result (ReasoningStateError abi) Text
  unfolding validate_native_state_policy binding_eq order_eq
  exact_replay_bytes envelope expected_binding expected_order now =
      let r = envelope.reference in
      guard (is_exact r.status) (not_exact r.status)
      >> (validate_native_state_policy abi r.binding.native_state_policy r.status
          >> (guard (binding_eq r.binding expected_binding) binding_mismatch
              >> (guard (order_eq r.order expected_order) order_mismatch
                  >> (guard (not (has_expired r.valid_until_unix_ms now)) state_expired
                      >> (guard (same (sha256 envelope.opaque_bytes) r.content_digest)
                            content_digest_mismatch
                          >> ok envelope.opaque_bytes)))))
