-- ===== src/ReasoningState.antt =====
-- crates/tokenzero-core/src/reasoning_state.rs: opaque reasoning state, bound to the execution that
-- it came from, and when its exact bytes may be replayed.
pub mod Envelope
pub mod Continuation
pub mod RawView
pub mod Headroom
pub mod Equality
pub mod Replay
pub mod Assessment
pub mod RawRecovery
mod Tests
use tokenzero.Base.{
  ℕ, ◌*◌, Bool, true, false, not, ◌&&◌, ◌||◌, Option, none, some, List, [], ◌∷◌, Text, codes, leb,
  ltb, ◌==◌, if◌then◌else◌, length, max_u64, Result, ok, err, ◌>>=◌, ◌>>◌, guard, ◌≡◌, ◌↔◌,
}

abbrev pub max_opaque_reasoning_state_bytes : ℕ
max_opaque_reasoning_state_bytes = 16 * 1048576

pub data OpaqueReasoningStateKind : Type 0 where
  provider_reasoning_items signed_thinking_blocks encrypted_reasoning_content
        provider_continuation_id local_exact_state_cartridge unavailable_kind :
      OpaqueReasoningStateKind

pub data ReasoningContinuationStatus : Type 0 where
  exact scoped_certificate approximate unavailable expired rejected identity_mismatch :
      ReasoningContinuationStatus

unfoldable pub carries_payload : ReasoningContinuationStatus → Bool
carries_payload exact = true
carries_payload scoped_certificate = true
carries_payload approximate = true
carries_payload status = false

-- What the module uses of zero_abi: digests, SHA-256, and the reasoning contract.
pub record Abi : Type 1 where
  pub Digest : Type 0
  pub zero_digest : Digest
  pub same : Digest → Digest → Bool
  pub sha256 : Text → Digest
  pub NativeStatePolicy : Type 0
  pub exact_required : NativeStatePolicy
  pub exact_if_available : NativeStatePolicy
  pub scoped_certificate_policy : NativeStatePolicy
  pub same_policy : NativeStatePolicy → NativeStatePolicy → Bool
  pub ReasoningContract : Type 0
  pub ReasoningContractError : Type 0
  pub validate : ReasoningContract → Result ReasoningContractError (Unit {0})
  pub identity_digest : ReasoningContract → Result ReasoningContractError Digest
  pub contract_model : ReasoningContract → Digest
  pub contract_backend : ReasoningContract → Digest
  pub contract_tokenizer : ReasoningContract → Digest
  pub contract_decoder : ReasoningContract → Digest
  pub contract_tool_schema : ReasoningContract → Digest
  pub contract_policy : ReasoningContract → NativeStatePolicy
  pub max_output_tokens : ReasoningContract → ℕ
  pub reserved_reasoning_tokens : ReasoningContract → ℕ
  pub reserved_visible_output_tokens : ReasoningContract → ℕ
  pub reserved_recovery_tokens : ReasoningContract → ℕ
  pub admitted_input_ceiling : ReasoningContract → ℕ → ℕ → Result ReasoningContractError ℕ
  pub admit_input : ReasoningContract → ℕ → ℕ → ℕ → Result ReasoningContractError ℕ

-- Its derived equalities decide equality.
pub record IsLawful (abi : Abi) : Type 0 where
  pub same_iff : (a b : abi.Digest) → (abi.same a b ≡ true) ↔ (a ≡ b)
  pub same_policy_iff : (p q : abi.NativeStatePolicy) → (abi.same_policy p q ≡ true) ↔ (p ≡ q)

module _ (abi : Abi) where
  open abi use {
    Digest, zero_digest, same, sha256, NativeStatePolicy, exact_required, exact_if_available,
    scoped_certificate_policy, same_policy, ReasoningContract, ReasoningContractError, validate,
    identity_digest, contract_model, contract_backend, contract_tokenizer, contract_decoder,
    contract_tool_schema, contract_policy,
  }

  pub data ReasoningStateError : Type 0 where
    reasoning_contract : ReasoningContractError → ReasoningStateError
    zero_identity : Text → ReasoningStateError
    missing_sampler_identity empty_payload unavailable_kind_has_payload payload_status_required
          scoped_certificate_required unexpected_scoped_certificate invalid_initial_order
          missing_parent_digest invalid_parent_digest invalid_expiry binding_mismatch order_mismatch
          input_token_overflow tokenizer_identity_mismatch tool_schema_identity_mismatch
          state_expired content_digest_mismatch :
        ReasoningStateError
    payload_too_large : ℕ → ℕ → ReasoningStateError
    native_state_policy_mismatch :
        NativeStatePolicy → ReasoningContinuationStatus → ReasoningStateError
    not_exact : ReasoningContinuationStatus → ReasoningStateError

  pub record ReasoningStateBinding : Type 0 where
    pub provider_identity : Digest
    pub model_identity : Digest
    pub backend_identity : Digest
    pub tokenizer_identity : Digest
    pub decoder_identity : Digest
    pub tool_schema_digest : Digest
    pub reasoning_contract_digest : Digest
    pub native_state_policy : NativeStatePolicy
    pub position_identity : Digest
    pub session_identity : Digest
    pub sampler_identity_required : Bool
    pub sampler_identity : Option Digest

  pub record ReasoningStateOrder : Type 0 where
    pub sequence_index : ℕ
    pub parent_content_digest : Option Digest

  pub record OpaqueReasoningStateRef : Type 0 where
    pub kind : OpaqueReasoningStateKind
    pub status : ReasoningContinuationStatus
    pub binding : ReasoningStateBinding
    pub order : ReasoningStateOrder
    pub content_digest : Digest
    pub byte_len : ℕ
    pub continuation_certificate_digest : Option Digest
    pub valid_until_unix_ms : Option ℕ

  pub record OpaqueReasoningStateEnvelope : Type 0 where
    pub reference : OpaqueReasoningStateRef
    pub opaque_bytes : Text

  unfoldable pub nonzero : Text → Digest → Result ReasoningStateError (Unit {0})
  nonzero field digest = guard (not (same digest zero_digest)) (zero_identity field)

  -- `?` on an error of the reasoning contract.
  abbrev pub of_contract :
      {A : Type 0} → Result ReasoningContractError A → Result ReasoningStateError A
  of_contract (ok a) = ok a
  of_contract (err e) = err (reasoning_contract e)

  abbrev pub sampler_ok : Bool → Option Digest → Result ReasoningStateError (Unit {0})
  sampler_ok required none = guard (not required) missing_sampler_identity
  sampler_ok required (some digest) = nonzero (codes "sampler") digest

  unfoldable pub new_binding :
      Digest
      → ReasoningContract
      → Digest
      → Digest
      → Bool
      → Option Digest
      → Result ReasoningStateError ReasoningStateBinding
  unfolding nonzero
  new_binding provider contract position session required sampler =
      of_contract (validate contract)
      >> (nonzero (codes "provider") provider
          >> (nonzero (codes "position") position
              >> (nonzero (codes "session") session
                  >> (sampler_ok required sampler
                      >> (of_contract (identity_digest contract) >>= λ contract_digest. ok (record {
                        provider_identity = provider;
                        model_identity = contract_model contract;
                        backend_identity = contract_backend contract;
                        tokenizer_identity = contract_tokenizer contract;
                        decoder_identity = contract_decoder contract;
                        tool_schema_digest = contract_tool_schema contract;
                        reasoning_contract_digest = contract_digest;
                        native_state_policy = contract_policy contract;
                        position_identity = position;
                        session_identity = session;
                        sampler_identity_required = required;
                        sampler_identity = sampler;
                      }))))))

  unfoldable pub new_order : ℕ → Option Digest → Result ReasoningStateError ReasoningStateOrder
  new_order index parent =
      let order = ok (record { sequence_index = index; parent_content_digest = parent }) in
      elim parent [
        | none ↦ guard (index == 0) missing_parent_digest >> order
        | some digest ↦
            guard (not (index == 0)) invalid_initial_order
            >> (guard (not (same digest zero_digest)) invalid_parent_digest >> order)
      ]

  unfoldable pub validate_native_state_policy :
      NativeStatePolicy → ReasoningContinuationStatus → Result ReasoningStateError (Unit {0})
  validate_native_state_policy policy exact =
      guard (same_policy policy exact_required || same_policy policy exact_if_available)
        (native_state_policy_mismatch policy exact)
  validate_native_state_policy policy approximate =
      guard (same_policy policy exact_if_available)
        (native_state_policy_mismatch policy approximate)
  validate_native_state_policy policy scoped_certificate =
      guard (same_policy policy scoped_certificate_policy)
        (native_state_policy_mismatch policy scoped_certificate)
  validate_native_state_policy policy status = err (native_state_policy_mismatch policy status)

  unfoldable pub validate_certificate :
      ReasoningContinuationStatus → Option Digest → Result ReasoningStateError (Unit {0})
  unfolding nonzero
  validate_certificate scoped_certificate none = err scoped_certificate_required
  validate_certificate scoped_certificate (some digest) =
      nonzero (codes "continuation certificate") digest
  validate_certificate status none = ok tt
  validate_certificate status (some digest) = err unexpected_scoped_certificate

  unfoldable pub validate_expiry : Option ℕ → Result ReasoningStateError (Unit {0})
  validate_expiry none = ok tt
  validate_expiry (some expiry) = guard (not (expiry == 0)) invalid_expiry
