-- ===== src/OutputNovelty.antt =====
-- crates/tokenzero-core/src/output_novelty.rs: exact framing and accounting of caller-selected
-- fields. Digests, SHA-256 and the exact tokenizer are parameters.
pub mod Framing
pub mod Accounting
mod Tests
use tokenzero.Base.Decimal.{show}
use tokenzero.Base.{
  ℕ, zero, suc, ◌+◌, ◌-◌, ◌/◌, ◌%◌, ◌*◌, ◌^◌, Bool, true, false, not, ◌&&◌, ◌||◌, Option, none,
  some, List, [], ◌∷◌, ◌++◌, Text, codes, text_eq, ltb, leb, ◌==◌, if◌then◌else◌, length, any,
  checked_add, max_u64, Result, ok, err, ◌>>=◌, ◌>>◌, guard, ok_or,
}

abbrev pub max_output_novelty_fields : ℕ
max_output_novelty_fields = 256

abbrev pub max_output_novelty_field_name_bytes : ℕ
max_output_novelty_field_name_bytes = 128

abbrev pub max_output_novelty_bytes : ℕ
max_output_novelty_bytes = 16 * 1048576

abbrev pub output_novelty_schema : Text
output_novelty_schema = codes "tokenzero.output-novelty/v1"

abbrev pub encoding_domain : Text
encoding_domain = codes "TOKENZERO-OUTPUT-NOVELTY-V1" ++ 0 ∷ []

pub data OutputNoveltyFieldRole : Type 0 where
  referenced reused novel deterministic : OutputNoveltyFieldRole

unfoldable pub as_str : OutputNoveltyFieldRole → Text
as_str referenced = codes "referenced"
as_str reused = codes "reused"
as_str novel = codes "novel"
as_str deterministic = codes "deterministic"

pub data OutputSelectionOrigin : Type 0 where
  caller_supplied : OutputSelectionOrigin

pub data OutputNoveltyError (E : Type 0) : Type 0 where
  model_artifact : E → OutputNoveltyError E
  zero_identity : Text → OutputNoveltyError E
  empty_fields : OutputNoveltyError E
  too_many_fields : ℕ → ℕ → OutputNoveltyError E
  invalid_field_name duplicate_field_name empty_novel_field : Text → OutputNoveltyError E
  encoded_byte_limit : ℕ → ℕ → OutputNoveltyError E
  length_overflow accounting_overflow encoding_mismatch : OutputNoveltyError E

pub record OutputNoveltyField : Type 0 where
  pub name : Text
  pub role : OutputNoveltyFieldRole
  pub bytes : Text

abbrev is_novel : OutputNoveltyFieldRole → Bool
is_novel novel = true
is_novel _ = false

abbrev is_empty : Text → Bool
is_empty [] = true
is_empty (_ ∷ _) = false

-- The bytes of a name from an index on: lowercase letters, and behind the first also digits, `_`,
-- `-` and `.`.
abbrev name_bytes_ok : ℕ → Text → Bool
name_bytes_ok index [] = true
name_bytes_ok index (b ∷ s) =
    ((leb b'a' b && leb b b'z')
      || ((leb b'0' b && leb b b'9') && ltb 0 index
          || (ltb 0 index && (b == b'_' || (b == b'-' || b == b'.')))))
    && name_bytes_ok (suc index) s

unfoldable pub validate_field_name : {E : Type 0} → Text → Result (OutputNoveltyError E) (Unit {0})
validate_field_name name =
    guard
      (not (is_empty name)
        && (leb (length name) max_output_novelty_field_name_bytes && name_bytes_ok 0 name))
      (invalid_field_name name)

-- `OutputNoveltyField::new`
unfoldable pub new_field :
    {E : Type 0}
    → Text
    → OutputNoveltyFieldRole
    → Text
    → Result (OutputNoveltyError E) OutputNoveltyField
unfolding validate_field_name
new_field name role bytes =
    validate_field_name name
    >> (guard (not (is_novel role && is_empty bytes)) (empty_novel_field name)
        >> ok (record { name = name; role = role; bytes = bytes }))

-- `to_be_bytes` over `k` bytes.
unfoldable pub be_bytes : ℕ → ℕ → Text
be_bytes zero n = []
be_bytes (suc k) n = be_bytes k (n / 256) ++ (n % 256) ∷ []

-- The length, a `usize`, fits u64.
unfoldable pub put_bytes : {E : Type 0} → Text → Text → Result (OutputNoveltyError E) Text
unfolding be_bytes
put_bytes out bytes =
    guard (leb (length bytes) max_u64) length_overflow
    >> ok (out ++ (be_bytes 8 (length bytes) ++ bytes))

abbrev pub byte_limit : {E : Type 0} → ℕ → Result (OutputNoveltyError E) (Unit {0})
byte_limit actual =
    guard (leb actual max_output_novelty_bytes) (encoded_byte_limit actual max_output_novelty_bytes)

-- The loop of `encode_fields` over the bytes written so far.
unfoldable pub put_fields :
    {E : Type 0} → Text → List OutputNoveltyField → Result (OutputNoveltyError E) Text
unfolding put_bytes as_str
put_fields out [] = ok out
put_fields out (f ∷ fs) = put_bytes out f.name >>= λ out1.
    put_bytes out1 (as_str f.role) >>= λ out2.
    put_bytes out2 f.bytes >>= λ out3. byte_limit (length out3) >> put_fields out3 fs

-- A sum of lengths that overflows `usize`.
abbrev pub add_length : {E : Type 0} → ℕ → ℕ → Result (OutputNoveltyError E) ℕ
add_length a b = ok_or (checked_add a b) length_overflow

-- The loop of `encoded_len`.
unfoldable pub add_lengths :
    {E : Type 0} → ℕ → List OutputNoveltyField → Result (OutputNoveltyError E) ℕ
unfolding as_str
add_lengths len [] = ok len
add_lengths len (f ∷ fs) = add_length len (8 + length f.name) >>= λ len1.
    add_length len1 (8 + length (as_str f.role)) >>= λ len2.
    add_length len2 (8 + length f.bytes) >>= λ len3. add_lengths len3 fs

unfoldable pub encoded_len :
    {E : Type 0} → List OutputNoveltyField → Result (OutputNoveltyError E) ℕ
unfolding add_lengths
encoded_len fields = add_length (length encoding_domain) (3 * 32) >>= λ len.
    add_length len (8 + length (show (length fields))) >>= λ len1. add_lengths len1 fields

-- The checks of `encode` on one field after another, with the names seen so far.
unfoldable pub check_fields :
    {E : Type 0} → List Text → List OutputNoveltyField → Result (OutputNoveltyError E) (Unit {0})
unfolding validate_field_name text_eq
check_fields names [] = ok tt
check_fields names (f ∷ fs) =
    validate_field_name f.name
    >> (guard (not (any (text_eq f.name) names)) (duplicate_field_name f.name)
        >> (guard (not (is_novel f.role && is_empty f.bytes)) (empty_novel_field f.name)
            >> check_fields (f.name ∷ names) fs))

pub record RoleTotals : Type 0 where
  pub fields : ℕ
  pub payload_bytes : ℕ
  pub standalone_payload_tokens : ℕ

abbrev pub no_totals : RoleTotals
no_totals = record { fields = 0; payload_bytes = 0; standalone_payload_tokens = 0 }

-- `OutputNoveltyTotals`, its three counters of each role together.
pub record OutputNoveltyTotals : Type 0 where
  pub referenced_totals : RoleTotals
  pub reused_totals : RoleTotals
  pub novel_totals : RoleTotals
  pub deterministic_totals : RoleTotals

abbrev pub default_totals : OutputNoveltyTotals
default_totals = record {
  referenced_totals = no_totals;
  reused_totals = no_totals;
  novel_totals = no_totals;
  deterministic_totals = no_totals;
}

abbrev pub of_role : OutputNoveltyFieldRole → OutputNoveltyTotals → RoleTotals
of_role referenced t = t.referenced_totals
of_role reused t = t.reused_totals
of_role novel t = t.novel_totals
of_role deterministic t = t.deterministic_totals

abbrev with_role : OutputNoveltyFieldRole → RoleTotals → OutputNoveltyTotals → OutputNoveltyTotals
with_role referenced r t = record t { referenced_totals = r }
with_role reused r t = record t { reused_totals = r }
with_role novel r t = record t { novel_totals = r }
with_role deterministic r t = record t { deterministic_totals = r }

abbrev max_u32 : ℕ
max_u32 = 2 ^ 32 - 1

abbrev add_counter : {E : Type 0} → ℕ → ℕ → ℕ → Result (OutputNoveltyError E) ℕ
add_counter limit a b = if leb (a + b) limit then ok (a + b) else err accounting_overflow

-- `OutputNoveltyTotals::add`; the caller drops the totals of a failed call.
unfoldable pub add :
    {E : Type 0}
    → OutputNoveltyTotals
    → OutputNoveltyFieldRole
    → ℕ
    → ℕ
    → Result (OutputNoveltyError E) OutputNoveltyTotals
add t role bytes tokens =
    let r = of_role role t in
    add_counter max_u32 r.fields 1 >>= λ fields.
    add_counter max_u64 r.payload_bytes bytes >>= λ payload_bytes.
    add_counter max_u64 r.standalone_payload_tokens tokens >>= λ payload_tokens. ok (
      with_role role
        (record {
          fields = fields;
          payload_bytes = payload_bytes;
          standalone_payload_tokens = payload_tokens;
        })
        t)

-- What the coding uses of zero_abi and of model_artifacts.rs.
pub record Coder : Type 1 where
  pub Digest : Type 0
  pub ModelArtifactError : Type 0
  pub is_zero : Digest → Bool
  pub as_bytes : Digest → Text
  pub sha256 : Text → Digest
  pub token_count : Text → Result ModelArtifactError ℕ
  pub tokenizer_identity : Digest

module _ (coder : Coder) where
  open coder use {
    Digest, ModelArtifactError, is_zero, as_bytes, sha256, token_count, tokenizer_identity,
  }

  abbrev pub Error : Type 0
  Error = OutputNoveltyError ModelArtifactError

  pub record OutputNoveltyFieldReceipt : Type 0 where
    pub name : Text
    pub role : OutputNoveltyFieldRole
    pub payload_digest : Digest
    pub payload_bytes : ℕ
    pub standalone_payload_tokens : ℕ

  pub record OutputNoveltyReceipt : Type 0 where
    pub schema_version : Text
    pub selection_origin : OutputSelectionOrigin
    pub classification_authority_digest : Digest
    pub selected_effect_digest : Digest
    pub verification_receipt_digest : Digest
    pub tokenizer_identity_digest : Digest
    pub encoding_digest : Digest
    pub total_encoded_bytes : ℕ
    pub total_encoded_tokens : ℕ
    pub fields : List OutputNoveltyFieldReceipt
    pub totals : OutputNoveltyTotals

  pub record OutputNoveltyCoding : Type 0 where
    pub fields : List OutputNoveltyField
    pub encoded : Text
    pub receipt : OutputNoveltyReceipt

  abbrev pub header : Digest → Digest → Digest → Text
  header authority effect verification =
      encoding_domain ++ (as_bytes authority ++ (as_bytes effect ++ as_bytes verification))

  unfoldable pub encode_fields :
      Digest → Digest → Digest → List OutputNoveltyField → Result Error Text
  unfolding put_fields put_bytes show
  encode_fields authority effect verification fields =
      put_bytes (header authority effect verification) (show (length fields)) >>= λ out.
      put_fields out fields

  abbrev pub tokens_of : Text → Result Error ℕ
  tokens_of bytes = elim (token_count bytes) [ ok n ↦ ok n | err e ↦ err (model_artifact e) ]

  abbrev pub fits : ℕ → Result Error ℕ
  fits n = if leb n max_u64 then ok n else err length_overflow

  -- The loop of `encode` that counts one field after another.
  unfoldable pub account_fields :
      OutputNoveltyTotals
      → List OutputNoveltyField
      → Result Error (OutputNoveltyTotals × List OutputNoveltyFieldReceipt)
  unfolding add
  account_fields totals [] = ok (totals, [])
  account_fields totals (f ∷ fs) = tokens_of f.bytes >>= λ tokens.
      fits (length f.bytes) >>= λ payload_bytes. fits tokens >>= λ standalone_payload_tokens.
      add totals f.role payload_bytes standalone_payload_tokens >>= λ totals'.
      account_fields totals' fs >>= λ rest. ok (
        rest.0,
        record {
          name = f.name;
          role = f.role;
          payload_digest = sha256 f.bytes;
          payload_bytes = payload_bytes;
          standalone_payload_tokens = standalone_payload_tokens;
        }
            ∷ rest.1,
      )

  -- The checks of `encode` before anything is encoded.
  unfoldable pub check :
      Digest → Digest → Digest → List OutputNoveltyField → Result Error (Unit {0})
  unfolding check_fields encoded_len
  check authority effect verification fields =
      guard (not (is_zero authority)) (zero_identity (codes "classification authority"))
      >> (guard (not (is_zero effect)) (zero_identity (codes "selected effect"))
          >> (guard (not (is_zero verification)) (zero_identity (codes "verification receipt"))
              >> (guard (ltb 0 (length fields)) empty_fields
                  >> (guard (leb (length fields) max_output_novelty_fields)
                        (too_many_fields (length fields) max_output_novelty_fields)
                      >> (check_fields [] fields
                          >> (encoded_len fields >>= λ len. byte_limit len))))))

  unfoldable pub encode :
      Digest → Digest → Digest → List OutputNoveltyField → Result Error OutputNoveltyCoding
  unfolding check encode_fields account_fields
  encode authority effect verification fields =
      check authority effect verification fields
      >> (encode_fields authority effect verification fields >>= λ encoded.
          tokens_of encoded >>= λ tokens. account_fields default_totals fields >>= λ accounted.
          fits (length encoded) >>= λ encoded_bytes. fits tokens >>= λ encoded_tokens. ok (record {
            fields = fields;
            encoded = encoded;
            receipt = record {
              schema_version = output_novelty_schema;
              selection_origin = caller_supplied;
              classification_authority_digest = authority;
              selected_effect_digest = effect;
              verification_receipt_digest = verification;
              tokenizer_identity_digest = tokenizer_identity;
              encoding_digest = sha256 encoded;
              total_encoded_bytes = encoded_bytes;
              total_encoded_tokens = encoded_tokens;
              fields = accounted.1;
              totals = accounted.0;
            };
          }))

  unfoldable pub reconstruct_fields : OutputNoveltyCoding → Result Error (List OutputNoveltyField)
  unfolding encode_fields text_eq
  reconstruct_fields coding =
      let r = coding.receipt in
      encode_fields r.classification_authority_digest r.selected_effect_digest
        r.verification_receipt_digest coding.fields
      >>= λ encoded. guard (text_eq encoded coding.encoded) encoding_mismatch >> ok coding.fields
