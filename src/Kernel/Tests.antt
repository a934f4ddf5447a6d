-- ===== src/Kernel/Tests.antt =====
-- An engine that counts bytes as tokens, a projection of a long source and a compression.
use tokenzero.Base.{ℕ, ◌≡◌, refl, Bool, true, false, none, [], Text, codes, length, replicate, ok}
use tokenzero.Kernel.{
  Services, ProjectionRequest, CompressionRequest, ProjectionResult, CompressionResult, count,
  count_with, floor_boundary, bounded_utf8, longest_within, clamp_visible_to_budget, store_exact,
}
use tokenzero.Kernel.Operations.{project_stored, project, compress_capsule, compress}
use tokenzero.Kernel.Honesty.{IsHonest, IsThrifty, project-IsHonest, compress-IsThrifty}

abbrev plain : Services
plain = record {
  Handle = ℕ;
  Mode = Bool;
  model_id = none;
  is_utf8 = λ bytes. true;
  lossy = λ bytes. bytes;
  bpe_for_model = λ model. none;
  tiktoken_tokenizer_id = λ model. model;
  count_tokens_for_model = λ bytes model. length bytes;
  estimator_tokenizer_id = λ model. codes "estimator";
  bytes_estimator_id = codes "bytes";
  put = λ bytes. ok (length bytes);
  publish_metadata = λ handle bytes media. ok tt;
  show_handle = λ handle. codes "z";
  auto = true;
  dedupe = false;
  structured = false;
  is_auto = λ mode. mode;
  mode_from_str = λ name. ok true;
  make_capsule = λ bytes billed mode max label handle. ok (codes "short view");
  line_count = λ bytes. 1;
}

abbrev long : Text
long = replicate 100 97

abbrev asked : ProjectionRequest
asked = record { bytes = long; media_type = codes "text/plain"; visible_byte_limit = 82 }

abbrev head : ProjectionResult plain
head = project_stored plain long 82 100

projected : project plain false asked ≡ ok head
unfolding project store_exact project_stored
projected = refl

in_limit : length head.visible ≡ 82
unfolding project_stored bounded_utf8 floor_boundary count count_with
in_limit = refl

project-IsHonest_example : IsHonest plain long 82 head
project-IsHonest_example = project-IsHonest plain false asked head projected

abbrev wanted : CompressionRequest
wanted = record {
  bytes = long;
  media_type = codes "text/plain";
  mode = [];
  max_tokens = 5;
  label = none;
}

abbrev clipped : CompressionResult plain
clipped = record {
  visible = codes "short";
  exact = 100;
  truncated = true;
  omitted_tokens = 95;
  accounting = record {
    tokenizer = codes "estimator";
    billed = 100;
    visible = 5;
    cached = 0;
    certified = false;
  };
}

compressed : compress plain false wanted ≡ ok clipped
unfolding compress store_exact compress_capsule clamp_visible_to_budget longest_within count
    count_with
compressed = refl

compress-IsThrifty_example : IsThrifty plain long 5 clipped
compress-IsThrifty_example = compress-IsThrifty plain false wanted clipped compressed
