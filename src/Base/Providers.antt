-- ===== src/Base/Providers.antt =====
-- crates/tokenzero-engine: the prompt-cache providers (`CacheProvider`).
pub data CacheProvider : Type 0 where
  anthropic open_ai gemini : CacheProvider
