-- ===== src/ReasoningState/Headroom.antt =====
-- `DecisionViewHeadroomPlan`: a rendered Decision View within the reserves of a reasoning contract.
use tokenzero.Base.{ℕ, ◌-◌, ◌^◌, Option, none, some, leb, Result, ok, err, ◌>>=◌, ◌>>◌, guard}
use tokenzero.ReasoningState.{
  Abi, ReasoningStateError, input_token_overflow, tokenizer_identity_mismatch,
  tool_schema_identity_mismatch, of_contract,
}
use tokenzero.ReasoningState.Continuation.{DecisionView}

abbrev pub max_u32 : ℕ
max_u32 = 2 ^ 32 - 1

module _ (abi : Abi) where
  open abi use {
    Digest, same, ReasoningContract, validate, identity_digest, contract_tokenizer,
    contract_tool_schema, max_output_tokens, reserved_reasoning_tokens,
    reserved_visible_output_tokens, reserved_recovery_tokens, admitted_input_ceiling, admit_input,
  }

  pub record DecisionViewHeadroomPlan : Type 0 where
    pub reasoning_contract_digest : Digest
    pub decision_view_digest : Digest
    pub exact_token_map_digest : Digest
    pub context_capacity : ℕ
    pub logical_input_tokens : ℕ
    pub max_output : ℕ
    pub reserved_reasoning : ℕ
    pub reserved_visible_output : ℕ
    pub reserved_recovery : ℕ
    pub reserved_tool : ℕ
    pub input_ceiling : ℕ
    pub remaining_input_headroom : ℕ

  unfoldable pub plan :
      ReasoningContract
      → ℕ
      → ℕ
      → DecisionView abi
      → Result (ReasoningStateError abi) DecisionViewHeadroomPlan
  plan contract capacity reserved_tool view =
      of_contract abi (validate contract)
      >> (guard (same (contract_tokenizer contract) view.identity.tokenizer_identity_digest)
            tokenizer_identity_mismatch
          >> (guard (same (contract_tool_schema contract) view.identity.tool_schema_digest)
                tool_schema_identity_mismatch
              >> (guard (leb view.total_tokens max_u32) input_token_overflow
                  >> (of_contract abi (admitted_input_ceiling contract capacity reserved_tool)
                      >>= λ ceiling.
                          of_contract abi
                            (admit_input contract capacity reserved_tool view.total_tokens)
                          >>= λ remaining.
                              of_contract abi (identity_digest contract) >>= λ contract_digest.
                              ok (record {
                                reasoning_contract_digest = contract_digest;
                                decision_view_digest = view.digest;
                                exact_token_map_digest = view.exact_token_map_digest;
                                context_capacity = capacity;
                                logical_input_tokens = view.total_tokens;
                                max_output = max_output_tokens contract;
                                reserved_reasoning = reserved_reasoning_tokens contract;
                                reserved_visible_output = reserved_visible_output_tokens contract;
                                reserved_recovery = reserved_recovery_tokens contract;
                                reserved_tool = reserved_tool;
                                input_ceiling = ceiling;
                                remaining_input_headroom = remaining;
                              })))))

  abbrev pub remaining_of : Result (ReasoningStateError abi) DecisionViewHeadroomPlan → Option ℕ
  remaining_of (ok p) = some p.remaining_input_headroom
  remaining_of (err e) = none
