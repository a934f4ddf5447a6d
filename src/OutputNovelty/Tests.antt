-- ===== src/OutputNovelty/Tests.antt =====
-- A coder with digests of 32 bytes, two fields, and the theorems at them.
use tokenzero.Base.{
  ℕ, ◌≡◌, refl, List, [], ◌∷◌, ◌++◌, Text, codes, text_eq, length, replicate, Result, ok, err, ◌==◌,
}
use tokenzero.Base.Decimal.{show}
use tokenzero.OutputNovelty.{
  OutputNoveltyFieldRole, OutputNoveltyTotals, no_totals, output_novelty_schema, caller_supplied,
  OutputNoveltyField, referenced, novel, as_str, Coder, OutputNoveltyCoding, be_bytes, put_bytes,
  put_fields, encode_fields, encoded_len, add_lengths, check, check_fields, validate_field_name,
  add, account_fields, encode, reconstruct_fields, of_role,
}
use tokenzero.OutputNovelty.Framing.{encode_fields-injective}
use tokenzero.OutputNovelty.Accounting.{fields_of, bytes_of, encode-reconstruct_fields-totals}

-- A digest is a number, repeated 32 times; each byte is a token.
abbrev plain : Coder
plain = record {
  Digest = ℕ;
  ModelArtifactError = Unit {0};
  is_zero = λ d. d == 0;
  as_bytes = λ d. replicate 32 d;
  sha256 = length;
  token_count = λ bytes. ok (length bytes);
  tokenizer_identity = 9;
}

plain_sized : (d : ℕ) → length (replicate 32 d) ≡ 32
plain_sized d = refl

abbrev two_fields : List OutputNoveltyField
two_fields =
    record { name = codes "path"; role = referenced; bytes = codes "src/lib.rs" }
    ∷ record { name = codes "delta"; role = novel; bytes = codes "+x" }
    ∷ []

abbrev encoded_of : Result (Unit {0}) Text → Text
encoded_of (ok out) = out
encoded_of (err e) = []

abbrev two_encoded : Text
two_encoded =
    (codes "TOKENZERO-OUTPUT-NOVELTY-V1" ++ 0 ∷ [])
    ++ (replicate 32 1
        ++ (replicate 32 2
            ++ (replicate 32 3
                ++ ((0 ∷ 0 ∷ 0 ∷ 0 ∷ 0 ∷ 0 ∷ 0 ∷ 1 ∷ codes "2")
                    ++ ((0 ∷ 0 ∷ 0 ∷ 0 ∷ 0 ∷ 0 ∷ 0 ∷ 4 ∷ codes "path")
                        ++ ((0 ∷ 0 ∷ 0 ∷ 0 ∷ 0 ∷ 0 ∷ 0 ∷ 10 ∷ codes "referenced")
                            ++ ((0 ∷ 0 ∷ 0 ∷ 0 ∷ 0 ∷ 0 ∷ 0 ∷ 10 ∷ codes "src/lib.rs")
                                ++ ((0 ∷ 0 ∷ 0 ∷ 0 ∷ 0 ∷ 0 ∷ 0 ∷ 5 ∷ codes "delta")
                                    ++ ((0 ∷ 0 ∷ 0 ∷ 0 ∷ 0 ∷ 0 ∷ 0 ∷ 5 ∷ codes "novel")
                                        ++ (0 ∷ 0 ∷ 0 ∷ 0 ∷ 0 ∷ 0 ∷ 0 ∷ 2 ∷ codes "+x"))))))))))

framed : encode_fields plain 1 2 3 two_fields ≡ ok two_encoded
unfolding encode_fields put_fields put_bytes be_bytes as_str show
framed = refl

counted : encoded_len {E = Unit {0}} two_fields ≡ ok 217
unfolding encoded_len add_lengths as_str show
counted = refl

encode_fields-injective_example :
    (plain.as_bytes 1 ≡ plain.as_bytes 1)
    × (plain.as_bytes 2 ≡ plain.as_bytes 2)
    × (plain.as_bytes 3 ≡ plain.as_bytes 3)
    × (two_fields ≡ two_fields)
encode_fields-injective_example =
    encode_fields-injective plain 1 2 3 1 2 3 two_fields two_fields two_encoded plain_sized framed
      framed

abbrev two_totals : OutputNoveltyTotals
two_totals = record {
  referenced_totals = record { fields = 1; payload_bytes = 10; standalone_payload_tokens = 10 };
  reused_totals = no_totals;
  novel_totals = record { fields = 1; payload_bytes = 2; standalone_payload_tokens = 2 };
  deterministic_totals = no_totals;
}

abbrev two_coding : OutputNoveltyCoding plain
two_coding = record {
  fields = two_fields;
  encoded = two_encoded;
  receipt = record {
    schema_version = output_novelty_schema;
    selection_origin = caller_supplied;
    classification_authority_digest = 1;
    selected_effect_digest = 2;
    verification_receipt_digest = 3;
    tokenizer_identity_digest = 9;
    encoding_digest = 217;
    total_encoded_bytes = 217;
    total_encoded_tokens = 217;
    fields =
        record {
          name = codes "path";
          role = referenced;
          payload_digest = 10;
          payload_bytes = 10;
          standalone_payload_tokens = 10;
        }
        ∷ record {
          name = codes "delta";
          role = novel;
          payload_digest = 2;
          payload_bytes = 2;
          standalone_payload_tokens = 2;
        }
        ∷ [];
    totals = two_totals;
  };
}

two_coded : encode plain 1 2 3 two_fields ≡ ok two_coding
unfolding encode encode_fields put_fields put_bytes be_bytes as_str show check check_fields
    validate_field_name text_eq encoded_len add_lengths account_fields add
two_coded = refl

encode-reconstruct_fields-totals_example :
    (reconstruct_fields plain two_coding ≡ ok two_fields)
    × ((r : OutputNoveltyFieldRole)
        → ((of_role r two_totals).fields ≡ fields_of r two_fields)
          × ((of_role r two_totals).payload_bytes ≡ bytes_of r two_fields))
encode-reconstruct_fields-totals_example =
    encode-reconstruct_fields-totals plain 1 2 3 two_fields two_coding two_coded
