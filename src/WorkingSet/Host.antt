-- ===== src/WorkingSet/Host.antt =====
-- What the working set uses of its surroundings: the operations of `RecoveryStore`
-- (crates/tokenzero-recovery/src/lib.rs) that it calls, the token counter of tokenzero-core, and JSON
-- string encoding. The laws of the store are stated where a theorem needs them.
use tokenzero.Base.{ℕ, Bool, Option, Text, Result}

pub record ExpansionResult : Type 0 where
  pub found : Bool
  pub content : Text

pub record Host : Type 1 where
  pub Store : Type 0
  pub StoreError : Type 0
  pub count_tokens : Text → ℕ
  pub json_string : Text → Text
  pub store_blob : Store → Text → Result StoreError Text × Store
  pub store_alias : Store → Text → Text → Result StoreError (Unit {0}) × Store
  pub has_alias : Store → Text → Bool
  pub remove_alias : Store → Text → Store
  pub expand : Store → Text → Option ℕ → Option ℕ → ExpansionResult × Store
