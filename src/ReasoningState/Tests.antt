-- ===== src/ReasoningState/Tests.antt =====
-- A captured state that replays until its expiry, over digests that are numbers.
use tokenzero.Base.{
  ℕ, suc, ◌+◌, ◌-◌, leb, if◌then◌else◌, ◌≡◌, ◌↔◌, refl, ==_iff, true, none, some, Text, codes, ◌==◌,
  length, ok, err,
}
use tokenzero.ReasoningState.{
  Abi, IsLawful, provider_reasoning_items, exact, ReasoningStateBinding, ReasoningStateOrder,
  OpaqueReasoningStateEnvelope, new_binding, nonzero, new_order, carries_payload,
  validate_native_state_policy, validate_certificate, validate_expiry, state_expired,
  missing_parent_digest,
}
use tokenzero.ReasoningState.Envelope.{binding_eq, order_eq, capture, exact_replay_bytes}
use tokenzero.ReasoningState.Continuation.{
  exact_neutral, exact_neutral_kind, kind, no_evidence, require_continuation_digest,
  DecisionViewIdentity, DecisionView, RawDecisionViewRecoveryRef, RawDecisionViewRecoveryEnvelope,
  ModelStateContinuationAssessment, validate_continuation_evidence_for_state, validate_evidence,
  class_of, assess,
}
use tokenzero.ReasoningState.RawView.{capture_view, exact_raw_decision_view_bytes}
use tokenzero.ReasoningState.Headroom.{plan, remaining_of}
use tokenzero.ReasoningState.Replay.{IsLive, exact_replay_bytes-capture}
use tokenzero.ReasoningState.RawRecovery.{exact_raw_decision_view_bytes-capture_view}
use tokenzero.ReasoningState.Assessment.{IsWarranted, assess-IsWarranted, assess-exact_replay_bytes}

abbrev plain : Abi
plain = record {
  Digest = ℕ;
  zero_digest = 0;
  same = λ a b. a == b;
  sha256 = λ bytes. suc (length bytes);
  NativeStatePolicy = ℕ;
  exact_required = 1;
  exact_if_available = 2;
  scoped_certificate_policy = 3;
  same_policy = λ p q. p == q;
  ReasoningContract = Unit {0};
  ReasoningContractError = Unit {0};
  validate = λ c. ok tt;
  identity_digest = λ c. ok 9;
  contract_model = λ c. 4;
  contract_backend = λ c. 5;
  contract_tokenizer = λ c. 6;
  contract_decoder = λ c. 7;
  contract_tool_schema = λ c. 8;
  contract_policy = λ c. 2;
  max_output_tokens = λ c. 10;
  reserved_reasoning_tokens = λ c. 20;
  reserved_visible_output_tokens = λ c. 10;
  reserved_recovery_tokens = λ c. 5;
  admitted_input_ceiling = λ c capacity tools. ok (capacity - (35 + tools));
  admit_input = λ c capacity tools tokens.
      if leb tokens (capacity - (35 + tools))
      then ok (capacity - (35 + tools) - tokens)
      else err tt;
}

plain-IsLawful : IsLawful plain
plain-IsLawful = record { same_iff = ==_iff; same_policy_iff = ==_iff }

abbrev bound : ReasoningStateBinding plain
bound = record {
  provider_identity = 1;
  model_identity = 4;
  backend_identity = 5;
  tokenizer_identity = 6;
  decoder_identity = 7;
  tool_schema_digest = 8;
  reasoning_contract_digest = 9;
  native_state_policy = 2;
  position_identity = 2;
  session_identity = 3;
  sampler_identity_required = true;
  sampler_identity = some 11;
}

abbrev first : ReasoningStateOrder plain
first = record { sequence_index = 0; parent_content_digest = none }

abbrev bytes : Text
bytes = codes "opaque"

abbrev envelope : OpaqueReasoningStateEnvelope plain
envelope = record {
  reference = record {
    kind = provider_reasoning_items;
    status = exact;
    binding = bound;
    order = first;
    content_digest = 7;
    byte_len = 6;
    continuation_certificate_digest = none;
    valid_until_unix_ms = some 100;
  };
  opaque_bytes = bytes;
}

binds : new_binding plain 1 tt 2 3 true (some 11) ≡ ok bound
unfolding new_binding nonzero
binds = refl

orders : new_order plain 0 none ≡ ok first
unfolding new_order
orders = refl

orphan : new_order plain 3 none ≡ err missing_parent_digest
unfolding new_order
orphan = refl

captures :
    capture plain provider_reasoning_items exact bound first none (some 100) bytes ≡ ok envelope
unfolding capture carries_payload validate_certificate validate_native_state_policy validate_expiry
captures = refl

late : exact_replay_bytes plain envelope bound first 100 ≡ err state_expired
unfolding exact_replay_bytes validate_native_state_policy binding_eq order_eq
late = refl

exact_replay_bytes-capture_example :
    (exact_replay_bytes plain envelope bound first 99 ≡ ok bytes)
    ↔ ((exact ≡ exact) × (bound ≡ bound) × (first ≡ first) × IsLive (some 100) 99 × (bytes ≡ bytes))
exact_replay_bytes-capture_example =
    exact_replay_bytes-capture plain plain-IsLawful provider_reasoning_items exact bound first none
      (some 100) bytes envelope captures bound first 99 bytes

abbrev identity : DecisionViewIdentity plain
identity = record {
  source_root_digest = 21;
  model_profile_digest = 22;
  tokenizer_identity_digest = 6;
  tool_schema_digest = 8;
  renderer_contract_digest = 23;
}

abbrev view : DecisionView plain
view = record {
  identity = identity;
  rendered = codes "view";
  exact_token_map_digest = 31;
  total_tokens = 2;
  digest = 32;
}

abbrev baseline : ℕ
baseline = 41

abbrev safepoint : ℕ
safepoint = 42

abbrev raw : RawDecisionViewRecoveryRef plain
raw = record {
  decision_view_identity = identity;
  decision_view_digest = 32;
  exact_token_map_digest = 31;
  raw_bytes_digest = 5;
  raw_byte_len = 4;
  total_tokens = 2;
  caller_raw_baseline_identity_digest = 41;
  caller_hub_safepoint_digest = 42;
}

abbrev raw_envelope : RawDecisionViewRecoveryEnvelope plain
raw_envelope = record { reference = raw; raw_decision_view_bytes = codes "view" }

captures_view : capture_view plain view baseline safepoint ≡ ok raw_envelope
unfolding capture_view require_continuation_digest
captures_view = refl

exact_raw_decision_view_bytes-capture_view_example :
    (exact_raw_decision_view_bytes plain raw_envelope identity 32 31 41 43 ≡ ok (codes "view")) ↔ (
      (identity ≡ identity)
      × (view.digest ≡ 32)
      × (view.exact_token_map_digest ≡ 31)
      × (baseline ≡ 41)
      × (safepoint ≡ 43)
      × (view.rendered ≡ codes "view"))
exact_raw_decision_view_bytes-capture_view_example =
    exact_raw_decision_view_bytes-capture_view plain plain-IsLawful view baseline safepoint
      raw_envelope captures_view identity 32 31 41 43 (codes "view")

abbrev neutral : ModelStateContinuationAssessment plain
neutral = record {
  state_reference = envelope.reference;
  class = exact_neutral 7;
  raw_recovery = raw;
}

assessed : assess plain envelope.reference no_evidence raw 99 ≡ ok neutral
unfolding assess validate_continuation_evidence_for_state validate_evidence class_of
assessed = refl

assess-IsWarranted_example : IsWarranted plain envelope.reference no_evidence 99 neutral
assess-IsWarranted_example =
    assess-IsWarranted plain plain-IsLawful envelope.reference no_evidence raw 99 neutral assessed

assess-exact_replay_bytes_example :
    ((a : ModelStateContinuationAssessment plain) × (assess plain envelope.reference no_evidence raw
          99
        ≡ ok a)
      × (kind plain a.class ≡ exact_neutral_kind))
    ↔ (exact_replay_bytes plain envelope bound first 99 ≡ ok bytes)
assess-exact_replay_bytes_example =
    assess-exact_replay_bytes plain plain-IsLawful provider_reasoning_items exact bound first none
      (some 100) bytes envelope raw 99 captures refl refl

-- Of 100 tokens, 35 are reserved by the contract and 15 for tools.
headroom : remaining_of plain (plan plain tt 100 15 view) ≡ some 48
unfolding plan
headroom = refl
